-- ===== src/File/Room.antt =====
-- Free chunks, as a list of some of them, and the lookup that takes one.
use fuse_node.Prelude.{
  ℕ, suc, ◌+◌, ◌≤◌, ◌<◌, ◌≡◌, refl, true, false, ◌&&◌, not, List, [], ◌∷◌, length, ◌==◌,
  if◌then◌else◌, arith, Bool-cases, inl, inr,
}
use fuse_node.Config.{chunk_num}
use fuse_node.Inode.{Store}
use fuse_node.Inode.Slot.{Slot}
use fuse_node.Index.Claim.{contains, IsDistinct}
use fuse_node.Index.Lookup.{Gives}

-- A list without a number.
unfoldable pub without : ℕ → List ℕ → List ℕ
without c [] = []
without c (d ∷ l) = if c == d then without c l else d ∷ without c l

pub contains-without :
    (c e : ℕ) (l : List ℕ) → contains e (without c l) ≡ (not (c == e) && contains e l)
unfolding without
contains-without c e [] = ground arith
contains-without c e (d ∷ l) = ground (arith, contains-without c e l)

pub without-contains : (c : ℕ) (l : List ℕ) → contains c l ≡ false → without c l ≡ l
unfolding without
without-contains c [] h = refl
without-contains c (d ∷ l) h = ground (arith, without-contains c l)

pub without-IsDistinct : (c : ℕ) (l : List ℕ) → IsDistinct l → IsDistinct (without c l)
unfolding without
without-IsDistinct c [] h = tt
without-IsDistinct c (d ∷ l) h = ground (arith, contains-without c d l, without-IsDistinct c l h.1)

pub length-without : (c : ℕ) (l : List ℕ) → IsDistinct l → length l ≤ length (without c l) + 1
unfolding without
length-without c [] h = omega arith
length-without c (d ∷ l) h = elim (Bool-cases (c == d)) [
  | inl e ↦ rw e (ground (arith, e, without-contains c l, h.0))
  | inr e ↦ rw e (omega (arith, length-without c l h.1))
]

-- At least `n` chunks are free.
pub record Room (s : Store) (n : ℕ) : Type 0 where
  pub spare : List ℕ
  pub distinct : IsDistinct spare
  pub free : (c : ℕ) → contains c spare ≡ true → (c < chunk_num) × (s.chunks.bitmap c ≡ false)
  pub enough : n ≤ length spare

-- A lookup for writing takes at most one of them.
pub Gives-Room :
    (s s' : Store) (h c n : ℕ) (p : Slot) → Gives s h p c s' → Room s (suc n) → Room s' n
Gives-Room s s' h c n p g r = record {
  spare = without c r.spare;
  distinct = without-IsDistinct c r.spare r.distinct;
  free = λ d at. ground (arith, at, contains-without c d r.spare, r.free d, g.bitmap d);
  enough = omega (arith, length-without c r.spare r.distinct, r.enough);
}

pub Room-le : (s : Store) (n m : ℕ) → n ≤ m → Room s m → Room s n
Room-le s n m le r = record {
  spare = r.spare;
  distinct = r.distinct;
  free = r.free;
  enough = omega (arith, le, r.enough);
}
