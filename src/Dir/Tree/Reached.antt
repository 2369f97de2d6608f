-- ===== src/Dir/Tree/Reached.antt =====
-- `search_d_hash` of src/dhmp_fs_dir_ops.c stays in the tree of files.
use fuse_node.Prelude.{
  ℕ, ◌≡◌, inl, inr, refl, sym, ap, ◌∙◌, Bool, true, false, ◌||◌, Option, none, some, List, [], ◌∷◌,
  ◌++◌, length, ◌==◌, if◌then◌else◌, arith, Bool-cases,
}
use mathlib.Core.Path.{subst}
use fuse_node.Outcome.{Run, ok, fault, more, ◌>>=◌}
use fuse_node.HashMap.Hash.{Name}
use fuse_node.HashMap.Table.{view}
use fuse_node.HashMap.Methods.{default_get-view}
use fuse_node.Inode.{Store}
use fuse_node.Inode.Names.{SameNames}
use fuse_node.Index.Claim.{IsConsistent, contains}
use fuse_node.Dir.Path.{slash, is_empty, name_fits}
use fuse_node.Dir.Walk.{root, lookup_in, lookup_buffer, or_null, walk, search_d_hash}
use fuse_node.Dir.Tree.{
  Forest, nil, node, roots, all, Node, Holds, roots-all, all_below, all_rest, Holds-frame,
}
use fuse_node.Dir.Tree.Edit.{Edit, here, below, later, all_cases}
use fuse_node.Dir.Tree.System.{IsTree}

-- An inode of the tree has its children there.
pub record Stands (s : Store) (f : Forest) (d : ℕ) : Type 0 where
  pub children : List ℕ
  pub is_node : Node s d children
  pub inside : (g : ℕ) → contains g children ≡ true → contains g (all f) ≡ true

pub Holds-Stands :
    (s : Store) (f : Forest) (d : ℕ) → Holds s f → contains d (all f) ≡ true → Stands s f d
Holds-Stands s nil d h on = absurd (ground (arith, on))
Holds-Stands s (node c b r) d h on = elim (all_cases d c b r on) [
  | inl q ↦
      let k = Holds-Stands s b d h.1 q in
      record {
        children = k.children;
        is_node = k.is_node;
        inside = λ g p. all_below g c b r (k.inside g p);
      }
  | inr (inl q) ↦ record {
    children = roots b;
    is_node = subst (λ x. Node s x (roots b)) q h.0;
    inside = λ g p. all_below g c b r (roots-all g b p);
  }
  | inr (inr q) ↦
      let k = Holds-Stands s r d h.2 q in
      record {
        children = k.children;
        is_node = k.is_node;
        inside = λ g p. all_rest g c b r (k.inside g p);
      }
]

-- A name is looked up only in a directory.
pub lookup_in-flag :
    (s : Store) (f : Forest) (d : ℕ) (name : Name) (o : Option ℕ)
    → Stands s f d
    → lookup_in s name d ≡ ok o
    → (s.inode d).is_directories ≡ true
unfolding lookup_in
lookup_in-flag s f d name o k e = elim k.is_node [
  | inl n ↦ n.flag
  | inr n ↦ absurd (ground (arith, n.d_hash, e))
]

pub lookup_in-inside :
    (s : Store) (f : Forest) (d c : ℕ) (name : Name)
    → Stands s f d
    → lookup_in s name d ≡ ok (some c)
    → contains c (all f) ≡ true
unfolding lookup_in
lookup_in-inside s f d c name k e = elim k.is_node [
  | inl n ↦
      let at : view n.table name ≡ some c =
        sym (default_get-view n.table name) ∙ (ground (arith, n.d_hash, e)) in
      k.inside c (n.listed name c at).0
  | inr n ↦ absurd (ground (arith, n.d_hash, e))
]

-- A lookup by a collected name that does not fault.
pub lookup_buffer-eq-ok :
    (s : Store) (q : Name) (g : ℕ) (o : Option ℕ)
    → lookup_buffer s q g ≡ ok o
    → (name_fits q ≡ true) × (lookup_in s q g ≡ ok o)
unfolding lookup_buffer
lookup_buffer-eq-ok s q g o e = elim (Bool-cases (name_fits q)) [
  | inl k ↦ (k, rw k at e)
  | inr k ↦ absurd (ground (arith, rw k at e))
]

pub or_null-eq-some :
    (r : Run (Option ℕ)) (k : ℕ → Run (Option ℕ)) (h : ℕ)
    → (r >>= or_null k) ≡ ok (some h)
    → (n : ℕ) × (r ≡ ok (some n)) × (k n ≡ ok (some h))
or_null-eq-some (ok none) k h e = absurd (ground (arith, e))
or_null-eq-some (ok (some n)) k h e = (n, refl, e)
or_null-eq-some fault k h e = absurd (ground (arith, e))
or_null-eq-some more k h e = absurd (ground (arith, e))

module _ (s : Store) (f : Forest) (h : ℕ) (hf : Holds s f) where
  walk-inside :
      (at_start : Bool) (name : Name) (d : ℕ) (path : Name)
      → contains d (all f) ≡ true
      → walk s at_start name d path ≡ ok (some h)
      → contains h (all f) ≡ true
  unfolding walk
  walk-inside at_start name d [] on e =
      let q : d ≡ h = ground (arith, e) in subst (λ x. contains x (all f) ≡ true) q on
  walk-inside at_start name d (c ∷ cs) on e = elim (Bool-cases ((c == slash) || is_empty cs)) [
    | inr q ↦ walk-inside false (name ++ c ∷ []) d cs on (rw (q, walk) at e)
    | inl q ↦ elim (Bool-cases at_start) [
      | inl p ↦ walk-inside false [] d cs on (rw (q, p, walk) at e)
      | inr p ↦
          let full : Name = if c == slash then name else name ++ c ∷ [] in
          let e' : (lookup_buffer s full d >>= or_null (λ n. walk s false [] n cs)) ≡ ok (some h) =
            rw (q, p, walk) at e in
          let (n, found, go) =
            or_null-eq-some (lookup_buffer s full d) (λ n. walk s false [] n cs) h e' in
          walk-inside false [] n cs
            (lookup_in-inside s f d n full (Holds-Stands s f d hf on)
              (lookup_buffer-eq-ok s full d (some n) found).1)
            go
    ]
  ]

-- Every inode that a path leads to is in the tree.
pub search_d_hash-inside :
    (s : Store) (f : Forest) (path : Name) (h : ℕ)
    → IsTree s f
    → search_d_hash s path ≡ ok (some h)
    → contains h (all f) ≡ true
unfolding search_d_hash
search_d_hash-inside s f path h w e =
    let on : contains root (all f) ≡ true = roots-all root f (rw (w.at_root) (ground arith)) in
    elim (Bool-cases (length path == 1)) [
      | inl q ↦
          let p : root ≡ h = ground (arith, rw q at e) in
          subst (λ x. contains x (all f) ≡ true) p on
      | inr q ↦ walk-inside s f h w.holds true [] root path on (rw q at e)
    ]

-- What is below an inode of the tree can be replaced.
pub Edit-any :
    (f : Forest) (h : ℕ)
    → contains h (all f) ≡ true
    → (b : Forest) × ((b' : Forest) → (f' : Forest) × Edit h b b' f f')
Edit-any nil h on = absurd (ground (arith, on))
Edit-any (node c b r) h on = elim (all_cases h c b r on) [
  | inl q ↦
      let (b0, k) = Edit-any b h q in
      (b0, λ b'. let (f', e) = k b' in (node c f' r, below c b f' r e))
  | inr (inl q) ↦
      (b, λ b'. (node c b' r, subst (λ x. Edit x b b' (node c b r) (node c b' r)) q (here r)))
  | inr (inr q) ↦
      let (b0, k) = Edit-any r h q in
      (b0, λ b'. let (f', e) = k b' in (node c b f', later c b r f' e))
]

pub Edit-same : {h : ℕ} {b f f' : Forest} → Edit h b b f f' → f' ≡ f
Edit-same (here r) = refl
Edit-same (below c f f' r e) = ap (λ x. node c x r) (Edit-same e)
Edit-same (later c f r r' e) = ap (λ x. node c f x) (Edit-same e)

-- The tree stays where the directories and the free inodes stay.
pub IsTree-same :
    (s t : Store) (f : Forest) → IsConsistent t → SameNames s t → IsTree s f → IsTree t f
IsTree-same s t f good k w = record {
  index = good;
  holds =
      Holds-frame s t f
        (λ g on. record {
          flag = k.flag g;
          d_hash = k.d_hash g;
          son = k.son g;
          son_nums = k.son_nums g;
          filename = k.filename g;
        })
        (λ g on off. k.bro g) w.distinct w.holds;
  distinct = w.distinct;
  at_root = w.at_root;
  root_flag = k.flag root ∙ w.root_flag;
  in_range = λ g on. rw k.next (w.in_range g on);
  slab_distinct = rw k.slab w.slab_distinct;
  slab_range = λ g on. rw k.next (w.slab_range g (rw k.slab at on));
  slab_apart = λ g on. w.slab_apart g (rw k.slab at on);
  all_free = λ g lt off. rw k.slab (w.all_free g (rw k.next at lt) off);
  slab_flag = λ g on. k.flag g ∙ w.slab_flag g (rw k.slab at on);
  slab_son = λ g on. k.son g ∙ w.slab_son g (rw k.slab at on);
  slab_d_hash = λ g on. k.d_hash g ∙ w.slab_d_hash g (rw k.slab at on);
}
