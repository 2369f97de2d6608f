-- ===== src/Dir/Tree/Pruned.antt =====
-- The tree of files once a child of a directory and what is below it are deleted.
use mathlib.Core.Path.{subst}
use fuse_node.Prelude.{
  ℕ, ◌≡◌, ◌≢◌, ◌⊎◌, inl, inr, refl, sym, ◌∙◌, true, false, some, [], ◌∷◌, ◌++◌, arith, Bool-cases,
  ==_iff, ◌<◌,
}
use fuse_node.HashMap.{HashMap}
use fuse_node.HashMap.Hash.{Name}
use fuse_node.HashMap.Table.{view}
use fuse_node.Inode.{Store}
use fuse_node.Index.Claim.{contains, IsDistinct}
use fuse_node.File.Room.{without, contains-without}
use fuse_node.Dir.Children.{IsFamily}
use fuse_node.Dir.Walk.{root}
use fuse_node.Dir.Tree.{Forest, roots, all, IsDir, contains-append, roots-all, Holds-frame}
use fuse_node.Dir.Tree.Edit.{
  Edit, Edit-roots, Edit-contains, Edit-inside, Edit-new, Edit-back, Edit-gone, Edit-beside,
  Edit-IsDistinct, Edit-Holds, off_of_not_on, clash, ne_of_contains, IsDistinct-join,
}
use fuse_node.Dir.Tree.Emptied.{Emptied}
use fuse_node.Dir.Tree.System.{IsTree, Edit-Node, Edit-Apart}
use fuse_node.Dir.Tree.Dropped.{
  drop_root, drop_root_cases, below_root, roots-drop_root, drop_root_part, below_root_part,
  drop_root_apart, drop_root-IsDistinct, below_root-IsDistinct, Holds-drop_root,
}
use fuse_node.Dir.Tree.Relinked.{Relinked}
use fuse_node.Dir.Tree.Shrinking.{deleted, cut, kept, kept-SameNode, dropped-IsDir}

deleted_of :
    (g c : ℕ) (b : Forest)
    → (c ≡ g) ⊎ (contains g (all (below_root c b)) ≡ true)
    → contains g (deleted c b) ≡ true
deleted_of g c b (inl q) =
    rw (contains-append g (all (below_root c b)) (c ∷ [])) (ground (arith, (==_iff c g).1 q))
deleted_of g c b (inr q) =
    rw (contains-append g (all (below_root c b)) (c ∷ [])) (ground (arith, q))

pub deleted_inside :
    (g c : ℕ) (b : Forest)
    → contains c (roots b) ≡ true
    → contains g (deleted c b) ≡ true
    → contains g (all b) ≡ true
deleted_inside g c b at on =
    let on' = sym (contains-append g (all (below_root c b)) (c ∷ [])) ∙ on in
    elim (Bool-cases (contains g (all (below_root c b)))) [
      | inl q ↦ below_root_part g c b q
      | inr q ↦
          let p : c ≡ g = ground (arith, on', q) in
          subst (λ x. contains x (all b) ≡ true) p (roots-all c b at)
    ]

-- What stays is not deleted.
pub stays_apart :
    (g c : ℕ) (b : Forest)
    → IsDistinct (all b)
    → contains c (roots b) ≡ true
    → contains g (all (drop_root c b)) ≡ true
    → contains g (deleted c b) ≡ false
stays_apart g c b d at on =
    let k = drop_root_apart g c b d at on in
    contains-append g (all (below_root c b)) (c ∷ []) ∙ (ground (arith, k.0, k.1))

deleted-IsDistinct :
    (c : ℕ) (b : Forest)
    → IsDistinct (all b)
    → contains c (roots b) ≡ true
    → IsDistinct (deleted c b)
deleted-IsDistinct c b d at =
    let (k, off) = below_root-IsDistinct c b d at in
    IsDistinct-join (all (below_root c b)) (c ∷ []) k (refl, tt)
      (λ g on. ground (arith, ne_of_contains (all (below_root c b)) off on))

-- The tree without the child.
pub pruned-IsTree :
    (s u t : Store) (h c stale : ℕ) (m : HashMap ℕ) (filename : Name) (b f f' : Forest)
    → IsTree s f
    → Edit h b (drop_root c b) f f'
    → contains c (roots b) ≡ true
    → (s.inode h).d_hash ≡ some m
    → view m filename ≡ some c
    → IsDir s h (roots b)
    → Relinked s h (roots b) u
    → IsFamily u h stale (without c (roots b))
    → Emptied (cut u h m filename) (deleted c b) t
    → IsTree t f'
pruned-IsTree s u t h c stale m filename b f f' w e at table there dir links family gone =
    let (n, hb) = Edit-Node s e w.holds in
    let (db, off) = Edit-Apart e w.distinct in
    let above : contains h (deleted c b) ≡ false =
      off_of_not_on h (deleted c b) (λ q. clash (deleted_inside h c b at q) off) in
    let outside : (g : ℕ) → contains g (all b) ≡ false → contains g (deleted c b) ≡ false =
      λ g q. off_of_not_on g (deleted c b) (λ k. clash (deleted_inside g c b at k) q) in
    let keep = λ (g : ℕ). kept s u t h c stale m filename b links gone above g in
    let no_child : (g : ℕ) → contains g (all b) ≡ false → contains g (roots b) ≡ false =
      λ g q. off_of_not_on g (roots b) (λ k. clash (roots-all g b k) q) in
    let root_in : contains root (roots f) ≡ true = rw (w.at_root) (ground arith) in
    let root_off = outside root (Edit-beside root e w.distinct root_in) in
    let left : (g : ℕ)
        → contains g (all (drop_root c b)) ≡ true
        → contains g (deleted c b) ≡ false =
      λ g on. stays_apart g c b db at on in
    let below : (g : ℕ) → contains g (all (drop_root c b)) ≡ true → h ≢ g =
      λ g on. ne_of_contains (all b) off (drop_root_part g c b on) in
    let old : (g : ℕ) → contains g (all f') ≡ true → contains g (all f) ≡ true = λ g on.
      elim (Edit-new g e on) [ inl q ↦ q | inr q ↦ Edit-inside g e (drop_root_part g c b q) ] in
    let spare : (g : ℕ)
        → contains g s.free_inode_slab ≡ true
        → (h ≢ g) × (contains g (deleted c b) ≡ false) =
      λ g on.
        let q = w.slab_apart g on in
        (
          λ k. clash (Edit-contains e) (rw (← k) at q),
          outside g (off_of_not_on g (all b) (λ k. clash (Edit-inside g e k) q)),
        ) in
    let out_of : (g : ℕ)
        → contains g (all f') ≡ false
        → contains g (deleted c b) ≡ false
        → contains g (all f) ≡ false =
      λ g off_new kept. off_of_not_on g (all f) (λ q. elim (Edit-new g (Edit-back e) q) [
        | inl k ↦ clash k off_new
        | inr k ↦ elim (drop_root_cases g c b db at k) [
          | inl j ↦ clash (Edit-inside g (Edit-back e) j) off_new
          | inr j ↦ clash (deleted_of g c b j) kept
        ]
      ]) in
    let on_slab : (g : ℕ)
        → contains g t.free_inode_slab ≡ true
        → (contains g s.free_inode_slab ≡ true) ⊎ (contains g (deleted c b) ≡ true) =
      λ g on.
        let k : contains g (u.free_inode_slab ++ deleted c b) ≡ true = rw gone.slab at on in
        let k' = sym (contains-append g u.free_inode_slab (deleted c b)) ∙ k in
        elim (Bool-cases (contains g (deleted c b))) [
          | inl q ↦ inr q
          | inr q ↦
              let j : contains g u.free_inode_slab ≡ true = ground (arith, k', q) in
              inl (rw links.slab at j)
        ] in
    record {
      index = gone.consistent;
      holds =
          Edit-Holds s t e
            (λ g _ q. (
              λ ne. kept-SameNode s u t h c stale m filename b links gone above g ne (outside g q),
              (keep g (outside g q)).2 ∙ links.bro g (no_child g q),
              (keep g (outside g q)).1,
            ))
            (rw (roots-drop_root c b) (
              inl (
                dropped-IsDir s u t h c stale m filename b links gone above (roots b)
                  (λ g on. left g (roots-all g (drop_root c b) (rw (roots-drop_root c b) on)))
                  family table there dir)))
            (Holds-frame s t (drop_root c b)
              (λ g on.
                kept-SameNode s u t h c stale m filename b links gone above g (below g on)
                  (left g on))
              (λ g on q. (keep g (left g on)).2 ∙ links.bro g (off_list g db on q))
              (drop_root-IsDistinct c b db) (Holds-drop_root s c b hb))
            w.distinct w.holds;
      distinct =
          Edit-IsDistinct e w.distinct
            (drop_root-IsDistinct c b db, λ g on. inl (drop_root_part g c b on));
      at_root = Edit-roots e ∙ w.at_root;
      root_flag = (keep root root_off).0 ∙ w.root_flag;
      in_range =
          λ g on. let lt = w.in_range g (old g on) in omega (arith, lt, gone.next, links.next);
      slab_distinct = rw gone.slab (
          rw links.slab (
            IsDistinct-join s.free_inode_slab (deleted c b) w.slab_distinct
              (deleted-IsDistinct c b db at) (λ g on. (spare g on).1)));
      slab_range = λ g on. elim (on_slab g on) [
        | inl q ↦ (let lt = w.slab_range g q in omega (arith, lt, gone.next, links.next))
        | inr q ↦
            (let lt = w.in_range g (Edit-inside g e (deleted_inside g c b at q)) in
              omega (arith, lt, gone.next, links.next))
      ];
      slab_apart = λ g on. elim (on_slab g on) [
        | inl q ↦ off_of_not_on g (all f') (λ k. clash (old g k) (w.slab_apart g q))
        | inr q ↦
            Edit-gone g e w.distinct (deleted_inside g c b at q)
              (off_of_not_on g (all (drop_root c b)) (λ k. clash q (left g k)))
      ];
      all_free = λ g lt off_new. rw gone.slab (
          rw (contains-append g u.free_inode_slab (deleted c b))
            (elim (Bool-cases (contains g (deleted c b))) [
              | inl q ↦ ground (arith, q)
              | inr q ↦
                  let lt' : g < s.next_inode = omega (arith, lt, gone.next, links.next) in
                  let spared = w.all_free g lt' (out_of g off_new q) in
                  let on_u : contains g u.free_inode_slab ≡ true = rw links.slab spared in
                  ground (arith, on_u)
            ]));
      slab_flag = λ g on. elim (on_slab g on) [
        | inl q ↦ (keep g (spare g q).1).0 ∙ w.slab_flag g q
        | inr q ↦ gone.flag g q
      ];
      slab_son = λ g on. elim (on_slab g on) [
        | inl q ↦
            let k = spare g q in
            (kept-SameNode s u t h c stale m filename b links gone above g k.0 k.1).son
            ∙ w.slab_son g q
        | inr q ↦ gone.son g q
      ];
      slab_d_hash = λ g on. elim (on_slab g on) [
        | inl q ↦
            let k = spare g q in
            (kept-SameNode s u t h c stale m filename b links gone above g k.0 k.1).d_hash
            ∙ w.slab_d_hash g q
        | inr q ↦ gone.d_hash g q
      ];
    }
  where
    off_list :
        (g : ℕ)
        → IsDistinct (all b)
        → contains g (all (drop_root c b)) ≡ true
        → contains g (roots (drop_root c b)) ≡ false
        → contains g (roots b) ≡ false
    off_list g d on q =
        let k = sym (contains-without c g (roots b)) ∙ (rw (roots-drop_root c b) at q) in
        let ne = (drop_root_apart g c b d at on).0 in ground (arith, k, ne)
