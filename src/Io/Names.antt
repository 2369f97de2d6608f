-- ===== src/Io/Names.antt =====
-- `dhmp_fs_write` and `dhmp_fs_read` of src/dhmp_fs_io.c leave the directories alone.
use fuse_node.Prelude.{
  ℕ, ◌+◌, ◌-◌, ◌<◌, refl, false, Option, ltb, leb, arith, Bool-cases, inl, inr, ltb→lt, ltb→le, ℤ,
}
use fuse_node.Config.{chunk_size, size_third_direct_end}
use fuse_node.Dhmp.{Dhmp, Bytes}
use fuse_node.Inode.{Store}
use fuse_node.Inode.Slot.{Slot}
use fuse_node.Inode.Names.{SameNames, SameNames-refl, SameNames-trans}
use fuse_node.Index.{with_offset}
use fuse_node.Index.Claim.{IsConsistent}
use fuse_node.Index.Same.{IsConsistent-same}
use fuse_node.Index.Locate.{level3_local_index-Located, level3_local_index_beyond}
use fuse_node.Index.Lookup.{Claimed, faults, claimed, claim_at-Claimed}
use fuse_node.Io.{Fs, grow_context, account, write_context, dhmp_fs_write}
use fuse_node.Io.Total.{write_loop-Ends}
use fuse_node.Outcome.{ok, ◌>>=◌, of_option, Ends, Ends-bind}

grow_context-SameNames : (h c n : ℕ) (s : Store) → SameNames s (grow_context h c n s)
unfolding grow_context
grow_context-SameNames h c n s = record {
  flag = λ g. ground arith;
  d_hash = λ g. ground arith;
  son = λ g. ground arith;
  son_nums = λ g. ground arith;
  bro = λ g. ground arith;
  filename = λ g. ground arith;
  slab = refl;
  next = refl;
}

account-SameNames : (h c o un : ℕ) (s : Store) → SameNames s (account h c o un s)
unfolding account
account-SameNames h c o un s = elim (Bool-cases (leb (chunk_size - o) un)) [
  | inl e ↦ rw e (grow_context-SameNames h c chunk_size s)
  | inr e ↦ elim (Bool-cases (ltb (s.context_size c) (un + o))) [
    | inl f ↦ rw (e, f) (grow_context-SameNames h c (un + o) s)
    | inr f ↦ rw (e, f) (SameNames-refl s)
  ]
]

account-IsConsistent :
    (h c o un : ℕ) (s : Store) → IsConsistent s → IsConsistent (account h c o un s)
unfolding account grow_context
account-IsConsistent h c o un s good =
    IsConsistent-same s (account h c o un s) (ground arith) (ground arith)
      (λ g. record {
        addr = ground arith;
        contexts = ground arith;
        in1addr = ground arith;
        in2addr = ground arith;
        in3addr = ground arith;
      })
      good

-- The index stays consistent and the directories are as they were.
abbrev pub Apart : Store → Store → Type 0
Apart s t = IsConsistent t × SameNames s t

Claimed-Apart :
    (s0 s : Store) (h o : ℕ) (p : Slot)
    → SameNames s0 s
    → o < chunk_size
    → {r : Option (Option ℕ × Store)} → Claimed s h p r
    → Ends
        (λ (x : (ℕ × ℕ) × Store). Apart s0 x.1 × (x.0.1 < chunk_size))
        (of_option (with_offset o r) >>= λ x. of_option x.0 >>= λ cnt. ok (cnt, x.1))
Claimed-Apart s0 s h o p k lt (faults null every) = tt
Claimed-Apart s0 s h o p k lt (claimed c s' g) =
    ((g.consistent, SameNames-trans s0 s s' k g.names), lt)

module _ {M : Type 0} (net : Dhmp M) (rand : ℕ → ℕ) (h : ℕ) where
  write_context-Apart :
      (s0 : Store) (offset : ℕ) (s : Store)
      → Apart s0 s
      → Ends
          (λ (x : (ℕ × ℕ) × Store). Apart s0 x.1 × (x.0.1 < chunk_size))
          (write_context net rand h offset s)
  unfolding write_context
  write_context-Apart s0 offset s good = elim (Bool-cases (ltb offset size_third_direct_end)) [
    | inr e ↦ rw (level3_local_index_beyond offset h false s (ltb→le _ _ e)) tt
    | inl e ↦
        let (p, o, located, run) = level3_local_index-Located offset h false s (ltb→lt _ _ e) in
        rw run (Claimed-Apart s0 s h o p good.1 located.in_chunk (claim_at-Claimed s h p good.0))
  ]

  -- A write leaves the directories and the free inodes as they are.
  pub dhmp_fs_write-SameNames :
      (buf : Bytes) (size offset : ℕ) (s : Fs M)
      → IsConsistent s.store
      → Ends
          (λ (r : ℤ × (Bytes × Fs M)). Apart s.store r.1.1.store)
          (dhmp_fs_write net rand h buf size offset s)
  unfolding dhmp_fs_write
  dhmp_fs_write-SameNames buf size offset s good =
      elim (Bool-cases (s.store.inode h).is_directories) [
        | inl e ↦ rw e (good, SameNames-refl s.store)
        | inr e ↦ rw e (
            Ends-bind (λ (r : Bytes × Fs M). Apart s.store r.1.store) _ _ _
              (write_loop-Ends net rand h (Apart s.store) (write_context-Apart s.store)
                (λ c o un t k. (
                  account-IsConsistent h c o un t k.0,
                  SameNames-trans s.store t (account h c o un t) k.1 (account-SameNames h c o un t),
                ))
                size buf 0 size offset s (omega arith) (good, SameNames-refl s.store))
              (λ r k. k))
      ]
