-- ===== src/Dir/Tree/Fresh.antt =====
-- The inode that `get_free_inode` of src/dhmp_fs_index.c gives.
use fuse_node.Prelude.{
  ℕ, ◌<◌, ◌≤◌, ◌≡◌, ◌≢◌, inl, inr, refl, sym, true, false, none, List, [], ◌∷◌, ◌==◌, arith,
  Bool-cases, List-cases, ==_refl,
}
use mathlib.Core.Path.{subst}
use fuse_node.Inode.{Store}
use fuse_node.Inode.Slab.{new_inode, malloc_inode, get_free_inode}
use fuse_node.Index.Claim.{IsConsistent, contains, IsDistinct}
use fuse_node.Dir.Tree.{Forest, all}
use fuse_node.Index.Same.{SameIndex-same, IsConsistent-same}
use fuse_node.Dir.Tree.System.{IsTree}

-- The inode `now` is taken: it is new to the tree, a file without children, and off the slab.
pub record Got (s : Store) (f : Forest) (now : ℕ) (t : Store) : Type 0 where
  pub others : (g : ℕ) → now ≢ g → t.inode g ≡ s.inode g
  pub fresh : contains now (all f) ≡ false
  pub flag : (t.inode now).is_directories ≡ false
  pub son : (t.inode now).son ≡ none
  pub d_hash : (t.inode now).d_hash ≡ none
  pub index : IsConsistent t
  pub in_range : now < t.next_inode
  pub next : s.next_inode ≤ t.next_inode
  pub slab_distinct : IsDistinct t.free_inode_slab
  pub off_slab : contains now t.free_inode_slab ≡ false
  pub slab_part :
      (g : ℕ) → contains g t.free_inode_slab ≡ true → contains g s.free_inode_slab ≡ true
  pub slab_rest :
      (g : ℕ)
      → now ≢ g
      → g < t.next_inode
      → (g < s.next_inode)
        × (contains g s.free_inode_slab ≡ true → contains g t.free_inode_slab ≡ true)

-- A new inode holds nothing, so the file index stays consistent.
malloc_inode-IsConsistent :
    (time : ℕ) (s : Store) → IsConsistent s → IsConsistent (malloc_inode time s).1
unfolding malloc_inode new_inode
malloc_inode-IsConsistent time s good = record {
  cursor = good.cursor;
  owned = λ h p c e. ground (arith, e, good.owned h p c);
  listed = λ h p c e. ground (arith, e, good.listed h p c);
  placed = λ h c e. elim (Bool-cases (s.next_inode == h)) [
    | inl q ↦ absurd (ground (arith, e, q))
    | inr q ↦ rw q (good.placed h c (rw q at e))
  ];
  distinct = λ h. elim (Bool-cases (s.next_inode == h)) [
    | inl q ↦ rw q tt
    | inr q ↦ rw q (good.distinct h)
  ];
  absent = λ h p e. elim (Bool-cases (s.next_inode == h)) [
    | inl q ↦ rw q refl
    | inr q ↦ rw q (good.absent h p (rw q at e))
  ];
}

beyond : (n : ℕ) (l : List ℕ) → ((g : ℕ) → contains g l ≡ true → g < n) → contains n l ≡ false
beyond n l lt = elim (Bool-cases (contains n l)) [
  | inl on ↦ absurd (omega (arith, lt n on))
  | inr off ↦ off
]

malloc_inode-Got :
    (time : ℕ) (s : Store) (f : Forest) → IsTree s f → Got s f s.next_inode (malloc_inode time s).1
unfolding malloc_inode new_inode
malloc_inode-Got time s f w = record {
  others = λ g ne. ground (arith, ne);
  fresh = beyond s.next_inode (all f) w.in_range;
  flag = ground arith;
  son = ground arith;
  d_hash = ground arith;
  index = malloc_inode-IsConsistent time s w.index;
  in_range = omega arith;
  next = omega arith;
  slab_distinct = w.slab_distinct;
  off_slab = beyond s.next_inode s.free_inode_slab w.slab_range;
  slab_part = λ g on. on;
  slab_rest = λ g ne lt. (omega (arith, ne, lt), λ on. on);
}

take_first-Got :
    (s : Store) (f : Forest) (h : ℕ) (rest : List ℕ)
    → s.free_inode_slab ≡ h ∷ rest
    → IsTree s f
    → Got s f h (record s { free_inode_slab = rest })
take_first-Got s f h rest e w =
    let on : contains h s.free_inode_slab ≡ true = rw e (ground (arith, ==_refl h)) in
    let distinct : IsDistinct (h ∷ rest) = subst IsDistinct e w.slab_distinct in
    record {
      others = λ g ne. refl;
      fresh = w.slab_apart h on;
      flag = w.slab_flag h on;
      son = w.slab_son h on;
      d_hash = w.slab_d_hash h on;
      index =
          IsConsistent-same s (record s { free_inode_slab = rest }) refl refl
            (λ g. SameIndex-same s (record s { free_inode_slab = rest }) g refl) w.index;
      in_range = w.slab_range h on;
      next = omega arith;
      slab_distinct = distinct.1;
      off_slab = distinct.0;
      slab_part = λ g there. rw e (ground (arith, there));
      slab_rest = λ g ne lt. (lt, λ there. ground (arith, rw e at there, ne));
    }

given :
    (time : ℕ) (s : Store) (l : List ℕ)
    → s.free_inode_slab ≡ l
    → get_free_inode time s
      ≡ elim l [ [] ↦ malloc_inode time s | h ∷ rest ↦ (h, record s { free_inode_slab = rest }) ]
unfolding get_free_inode
given time s l e = λ i. elim (e i) [
  | [] ↦ malloc_inode time s
  | h ∷ rest ↦ (h, record s { free_inode_slab = rest })
]

-- An inode that is taken from the slab, or from `malloc` where the slab is empty.
pub get_free_inode-Got :
    (time : ℕ) (s : Store) (f : Forest)
    → IsTree s f
    → Got s f (get_free_inode time s).0 (get_free_inode time s).1
unfolding malloc_inode
get_free_inode-Got time s f w = elim (List-cases s.free_inode_slab) [
  | inl e ↦ subst (λ r. Got s f r.0 r.1) (sym (given time s [] e)) (malloc_inode-Got time s f w)
  | inr (h, rest, e) ↦
      subst (λ r. Got s f r.0 r.1) (sym (given time s (h ∷ rest) e)) (take_first-Got s f h rest e w)
]
