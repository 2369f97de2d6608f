-- ===== src/Io/Again.antt =====
-- A lookup for reading after a lookup for writing at the same offset.
use fuse_node.Prelude.{
  ℕ, ◌≡◌, refl, sym, ◌∙◌, true, false, Option, some, ltb, arith, Bool-cases, inl, inr, ltb→lt,
  ltb→le,
}
use fuse_node.Config.{size_third_direct_end}
use fuse_node.Inode.{Store}
use fuse_node.Inode.Slot.{Slot, number, number_injective}
use fuse_node.Index.{level3_local_index, with_offset}
use fuse_node.Index.Claim.{IsConsistent}
use fuse_node.Index.Locate.{Located, level3_local_index-Located, level3_local_index_beyond}
use fuse_node.Index.Lookup.{Claimed, faults, claimed, claim_at-Claimed, claim_at_read}

-- The place that an offset reaches is one.
one_place :
    (offset o o' : ℕ) (p p' : Slot)
    → Located offset p o
    → Located offset p' o'
    → (p ≡ p') × (o ≡ o')
one_place offset o o' p p' a b =
    let same : number p ≡ number p' = omega (arith, a.exact, b.exact, a.in_chunk, b.in_chunk) in
    let offsets : o ≡ o' = omega (arith, a.exact, b.exact, a.in_chunk, b.in_chunk) in
    (number_injective p p' a.in_range b.in_range same, offsets)

-- What a lookup for writing that gave context `c` left at its place.
given_context :
    (s s' : Store) (h c o o1 : ℕ) (p : Slot) {r : Option (Option ℕ × Store)}
    → Claimed s h p r
    → with_offset o1 r ≡ some (some (c, o), s')
    → (o1 ≡ o) × IsConsistent s' × ((s'.inode h).addr p ≡ some c)
given_context s s' h c o o1 p (faults null every) e = ground (arith, e)
given_context s s' h c o o1 p (claimed d t g) e =
    let same_store : t ≡ s' = ground (arith, e) in
    let same_context : d ≡ c = ground (arith, e) in
    let same_offset : o1 ≡ o = ground (arith, e) in
    (same_offset, rw (← same_store) g.consistent, rw (← same_store, ← same_context) g.at)

-- After a lookup for writing that gave context `c`, a lookup for reading at the same offset gives the
-- same context and offset in any consistent state whose places are the same.
pub level3_local_index_again :
    (offset h c o : ℕ) (s s' t : Store)
    → IsConsistent s
    → level3_local_index offset h false s ≡ some (some (c, o), s')
    → IsConsistent t
    → ((p : Slot) → (t.inode h).addr p ≡ (s'.inode h).addr p)
    → level3_local_index offset h true t ≡ some (some (c, o), t)
level3_local_index_again offset h c o s s' t good run good' same =
    elim (Bool-cases (ltb offset size_third_direct_end)) [
      | inr e ↦
          let nothing = level3_local_index_beyond offset h false s (ltb→le _ _ e) in
          ground (arith, nothing, run)
      | inl e ↦
          let (p, o1, l1, run1) = level3_local_index-Located offset h false s (ltb→lt _ _ e) in
          let (p', o2, l2, run2) = level3_local_index-Located offset h true t (ltb→lt _ _ e) in
          let (pp, oo) = one_place offset o1 o2 p p' l1 l2 in
          let (o1o, _, at) =
            given_context s s' h c o o1 p (claim_at-Claimed s h p good) (sym run1 ∙ run) in
          run2 ∙ (rw (claim_at_read t h p' good', ← pp, same p, at, ← oo, o1o) refl)
    ]
