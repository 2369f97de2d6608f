-- ===== src/Io/Total.antt =====
-- The loop of `dhmp_fs_write`, and the state of the files that it keeps.
use fuse_node.Prelude.{
  ℕ, zero, suc, ◌+◌, ◌-◌, ◌≤◌, ◌<◌, ◌≡◌, refl, sym, ◌∙◌, false, Option, ltb, leb, if◌then◌else◌,
  arith, Bool-cases, inl, inr, ltb→lt, ltb→le, negsuc, pos, ◌^◌, ◌%◌,
}
use fuse_node.Config.{chunk_size, size_third_direct_end}
use fuse_node.Dhmp.{Dhmp, Bytes, memcpy}
use fuse_node.Inode.{Inode, Store}
use fuse_node.Inode.Slot.{Slot, direct}
use fuse_node.Index.{present, with_offset}
use fuse_node.Index.Claim.{IsConsistent}
use fuse_node.Index.Locate.{level3_local_index-Located, level3_local_index_beyond}
use fuse_node.Index.Lookup.{Claimed, faults, claimed, claim_at-Claimed, set_inode-IsConsistent}
use fuse_node.Cache.{Disk, write_to_cache}
use fuse_node.Io.{
  Fs, bank_of, bank_offset, from, grow_context, account, write_context, write_loop, dhmp_fs_write,
  int_of,
}
use fuse_node.Outcome.{ok, ◌>>=◌, of_option, Ends, Ends-bind, Ends-of_option}

-- What a write keeps: a consistent index, and no chunk holds more than its size.
pub record IsSound (s : Store) : Type 0 where
  pub consistent : IsConsistent s
  pub bounded : (c : ℕ) → s.context_size c ≤ chunk_size

present_resized : (f : Inode) (z : ℕ) (q : Slot) → present (record f { size = z }) q ≡ present f q
present_resized f z (direct i) = refl
present_resized f z _ = refl

grow_context-IsSound :
    (h c n : ℕ) (s : Store) → n ≤ chunk_size → IsSound s → IsSound (grow_context h c n s)
unfolding grow_context
grow_context-IsSound h c n s le good =
    let z = (s.inode h).size + (n - s.context_size c) in
    let t =
      set_inode-IsConsistent s h (record (s.inode h) { size = z }) good.consistent (λ q. refl) refl
        (λ q e. good.consistent.absent h q (sym (present_resized (s.inode h) z q) ∙ e)) in
    record {
      consistent = record {
        cursor = t.cursor;
        owned = t.owned;
        listed = t.listed;
        placed = t.placed;
        absent = t.absent;
        distinct = t.distinct;
      };
      bounded = λ d. ground (arith, good.bounded d);
    }

pub account-IsSound : (h c o un : ℕ) (s : Store) → IsSound s → IsSound (account h c o un s)
unfolding account
account-IsSound h c o un s good = elim (Bool-cases (leb (chunk_size - o) un)) [
  | inl e ↦ rw e (grow_context-IsSound h c chunk_size s (omega arith) good)
  | inr e ↦ elim (Bool-cases (ltb (s.context_size c) (un + o))) [
    | inl f ↦ rw (e, f) (grow_context-IsSound h c (un + o) s (ground arith) good)
    | inr f ↦ rw (e, f) good
  ]
]

-- The context of a round, if there is one, leaves a sound store and an offset within the chunk.
abbrev Held : (ℕ × ℕ) × Store → Type 0
Held r = IsSound r.1 × (r.0.1 < chunk_size)

Claimed-Held :
    (s : Store) (h o : ℕ) (p : Slot)
    → IsSound s
    → o < chunk_size
    → {r : Option (Option ℕ × Store)} → Claimed s h p r
    → Ends Held (of_option (with_offset o r) >>= λ x. of_option x.0 >>= λ cnt. ok (cnt, x.1))
Claimed-Held s h o p good lt (faults null every) = tt
Claimed-Held s h o p good lt (claimed c s' g) =
    (record { consistent = g.consistent; bounded = λ d. rw g.sizes (good.bounded d) }, lt)

module _ {M : Type 0} (net : Dhmp M) (rand : ℕ → ℕ) (h : ℕ) where
  write_context-Held :
      (offset : ℕ) (s : Store) → IsSound s → Ends Held (write_context net rand h offset s)
  unfolding write_context
  write_context-Held offset s good = elim (Bool-cases (ltb offset size_third_direct_end)) [
    | inr e ↦ rw (level3_local_index_beyond offset h false s (ltb→le _ _ e)) tt
    | inl e ↦
        let (p, o, located, run) = level3_local_index-Located offset h false s (ltb→lt _ _ e) in
        rw run (Claimed-Held s h o p good located.in_chunk (claim_at-Claimed s h p good.consistent))
  ]

  -- What a round keeps of the store, the loop keeps. Each round writes at least one byte, so as many
  -- rounds as bytes are enough.
  module _ (P : Store → Type 0)
      (look_up : (offset : ℕ) (s : Store)
        → P s
        → Ends
            (λ (r : (ℕ × ℕ) × Store). P r.1 × (r.0.1 < chunk_size))
            (write_context net rand h offset s))
      (counted : (c o un : ℕ) (s : Store) → P s → P (account h c o un s)) where
    pub write_loop-Ends :
        (fuel : ℕ) (buf : Bytes) (write_size un offset : ℕ) (s : Fs M)
        → un ≤ fuel
        → P s.store
        → Ends
            (λ (r : Bytes × Fs M). P r.1.store)
            (write_loop net rand h fuel buf write_size un offset s)
    unfolding write_loop
    write_loop-Ends zero buf ws zero offset s le good = good
    write_loop-Ends (suc fuel) buf ws zero offset s le good = good
    write_loop-Ends zero buf ws (suc k) offset s le good = absurd (omega arith)
    write_loop-Ends (suc fuel) buf ws (suc k) offset s le good =
        Ends-bind (λ (r : (ℕ × ℕ) × Store). P r.1 × (r.0.1 < chunk_size))
          (λ (r : Bytes × Fs M). P r.1.store) _ _ (look_up offset s.store good)
          (λ r held.
            let n : ℕ = if leb (chunk_size - r.0.1) (suc k) then chunk_size - r.0.1 else suc k in
            let visit =
              write_to_cache net (rand fuel) (bank_of r.0.0) (from buf ws) n
                (bank_offset r.0.0 + r.0.1) s.disk in
            let store = account h r.0.0 r.0.1 (suc k) r.1 in
            Ends-bind {A = Bytes × Disk M} (λ _. Unit {0}) (λ (r : Bytes × Fs M). P r.1.store)
              (of_option visit) _ (Ends-of_option visit)
              (λ w _.
                write_loop-Ends fuel (memcpy buf ws w.0 n) (ws + n) (suc k - n) (offset + n)
                  (record { store = store; disk = w.1 }) (ground (arith, held.1))
                  (counted r.0.0 r.0.1 (suc k) r.1 held.0)))

  -- `dhmp_fs_write` ends on every request, in a fault or with the size of the request as an `int` or, for
  -- a directory, with -1, and
  -- then the file index is consistent and no chunk holds more than its size.
  pub dhmp_fs_write-Ends :
      (buf : Bytes) (size offset : ℕ) (s : Fs M)
      → IsSound s.store
      → Ends
          (λ r.
            IsSound r.1.1.store
            × (r.0 ≡ (if (s.store.inode h).is_directories then negsuc 0 else int_of size)))
          (dhmp_fs_write net rand h buf size offset s)
  unfolding dhmp_fs_write
  dhmp_fs_write-Ends buf size offset s good = elim (Bool-cases (s.store.inode h).is_directories) [
    | inl e ↦ rw e (good, refl)
    | inr e ↦ rw e (
        Ends-bind (λ (r : Bytes × Fs M). IsSound r.1.store) _ _ _
          (write_loop-Ends IsSound write_context-Held (λ c o un. account-IsSound h c o un) size buf
            0 size offset s (omega arith) good)
          (λ r sound. (sound, refl)))
  ]

-- A size below 2^31 is returned as it is.
pub int_of-small : (n : ℕ) → n < 2 ^ 31 → int_of n ≡ pos n
unfolding int_of
int_of-small n lt = let low : n % 2 ^ 32 ≡ n = omega arith in rw low (ground (arith, lt))
