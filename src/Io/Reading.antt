-- ===== src/Io/Reading.antt =====
-- `dhmp_fs_read`: its loop and what it leaves of the files.
use mathlib.Core.Option
use fuse_node.Prelude.{
  ℕ, zero, suc, ◌+◌, ◌-◌, ◌≤◌, ◌≡◌, ◌≢◌, refl, ◌∙◌, true, Option, none, some, ltb, leb, ◌==◌,
  if◌then◌else◌, arith, Bool-cases, ==_iff, inl, inr, ltb→lt, ltb→le, negsuc,
}
use fuse_node.Config.{size_third_direct_end, bank_size}
use fuse_node.Dhmp.{Dhmp, Bytes, memcpy}
use fuse_node.Inode.{Store}
use fuse_node.Index.{level3_local_index}
use fuse_node.Index.Claim.{IsConsistent}
use fuse_node.Index.Locate.{level3_local_index-Located, level3_local_index_beyond}
use fuse_node.Index.Lookup.{claim_at_read}
use fuse_node.Cache.{Disk, read_from_cache}
use fuse_node.Io.{Fs, bank_of, bank_offset, from, left_in, read_loop, dhmp_fs_read, int_of}
use fuse_node.Outcome.{of_option, Ends, Ends-bind, Ends-of_option}

-- A lookup for reading changes no file.
level3_local_index_read :
    (offset h : ℕ) (s : Store)
    → IsConsistent s
    → (o : Option (ℕ × ℕ)) × (level3_local_index offset h true s ≡ some (o, s))
level3_local_index_read offset h s good = elim (Bool-cases (ltb offset size_third_direct_end)) [
  | inr e ↦ (none, level3_local_index_beyond offset h true s (ltb→le _ _ e))
  | inl e ↦
      let (p, o, located, run) = level3_local_index-Located offset h true s (ltb→lt _ _ e) in
      (Option.map (λ c. (c, o)) ((s.inode h).addr p), run ∙ (rw (claim_at_read s h p good) refl))
]

-- What a lookup for reading gives, as data.
data Reads (offset h : ℕ) (s : Store) : Type 0 where
  missing : level3_local_index offset h true s ≡ some (none, s) → Reads offset h s
  found : (cnt : ℕ × ℕ) → level3_local_index offset h true s ≡ some (some cnt, s) → Reads offset h s

as_Reads :
    (offset h : ℕ) (s : Store) (o : Option (ℕ × ℕ))
    → level3_local_index offset h true s ≡ some (o, s)
    → Reads offset h s
as_Reads offset h s none e = missing e
as_Reads offset h s (some cnt) e = found cnt e

reads : (offset h : ℕ) (s : Store) → IsConsistent s → Reads offset h s
reads offset h s good =
    let (o, run) = level3_local_index_read offset h s good in as_Reads offset h s o run

module _ {M : Type 0} (net : Dhmp M) (rand : ℕ → ℕ) (h : ℕ) where
  -- What a read leaves behind: the files as they were, and at most `most` bytes read.
  abbrev Unchanged : Store → ℕ → ℕ × (Bytes × Fs M) → Type 0
  Unchanged s most r = (r.1.1.store ≡ s) × (r.0 ≤ most)

  read_loop-Ends :
      (fuel : ℕ) (buf : Bytes) (read_size un offset most : ℕ) (s : Fs M)
      → un ≤ fuel
      → read_size + un ≤ most
      → IsConsistent s.store
      → Ends (Unchanged s.store most) (read_loop net rand h fuel buf read_size un offset s)
  unfolding read_loop
  read_loop-Ends zero buf rs zero offset most s le fits good = (refl, omega arith)
  read_loop-Ends (suc fuel) buf rs zero offset most s le fits good = (refl, omega arith)
  read_loop-Ends zero buf rs (suc k) offset most s le fits good = absurd (omega arith)
  read_loop-Ends (suc fuel) buf rs (suc k) offset most s le fits good =
      elim (reads offset h s.store good) [
        | missing run ↦ rw run (refl, omega arith)
        | found cnt run ↦
            let left = left_in net rand h (s.store.context_size cnt.0) cnt.1 in
            let n : ℕ = if leb left (suc k) then left else suc k in
            let visit =
              read_from_cache net (rand fuel) (bank_of cnt.0) (from buf rs) n
                (bank_offset cnt.0 + cnt.1) s.disk in
            elim (Bool-cases (n == 0)) [
              | inl e ↦ rw run (rw (e, Ends) (refl, omega arith))
              | inr e ↦ elim (Bool-cases (ltb bank_size (bank_offset cnt.0 + cnt.1 + n))) [
                | inl over ↦ rw run (rw (e, over, Ends) tt)
                | inr inside ↦
                    let some_bytes : n ≢ 0 = ground (arith, e, ==_iff n 0) in
                    let all : n ≤ suc k = ground arith in
                    rw run (
                      rw (e, inside, Ends)
                        (Ends-bind {A = Bytes × Disk M} (λ _. Unit {0}) (Unchanged s.store most)
                          (of_option visit) _ (Ends-of_option visit)
                          (λ w _.
                            read_loop-Ends fuel (memcpy buf rs w.0 n) (rs + n) (suc k - n)
                              (offset + n) most (record { store = s.store; disk = w.1 })
                              (omega arith) (omega arith) good)))
              ]
            ]
      ]

  -- `dhmp_fs_read` ends on every request, in a fault or with a result: -1 for a directory, else, as an
  -- `int`, a number of bytes that is at most the size of the request. A read changes no file, no index entry
  -- and no chunk's owner.
  pub dhmp_fs_read-Ends :
      (buf : Bytes) (size offset : ℕ) (s : Fs M)
      → IsConsistent s.store
      → Ends
          (λ r.
            (r.1.1.store ≡ s.store)
            × (if (s.store.inode h).is_directories
                then r.0 ≡ negsuc 0
                else (m : ℕ) × (r.0 ≡ int_of m) × (m ≤ size)))
          (dhmp_fs_read net rand h buf size offset s)
  unfolding dhmp_fs_read
  dhmp_fs_read-Ends buf size offset s good = elim (Bool-cases (s.store.inode h).is_directories) [
    | inl e ↦ rw e (refl, refl)
    | inr e ↦ rw e (
        Ends-bind (Unchanged s.store size) _ _ _
          (read_loop-Ends size buf 0 size offset size s (omega arith) (omega arith) good)
          (λ r same. (same.0, (r.0, refl, same.1))))
  ]
