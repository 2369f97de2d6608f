-- ===== src/Dir/Tree/LostPaths.antt =====
-- What `dhmp_fs_unlink` of src/dhmp_fs_dir_ops.c means for the paths of all files.
use fuse_node.Prelude.{
  ℕ, ◌≡◌, ◌≢◌, ◌↔◌, inl, inr, sym, ◌∙◌, true, false, some, [], ◌∷◌, ◌++◌, arith, pos,
}
use mathlib.Core.Path.{subst}
use fuse_node.Outcome.{ok}
use fuse_node.HashMap.Hash.{Name}
use fuse_node.Inode.{Store}
use fuse_node.Index.Claim.{contains}
use fuse_node.Dir.Path.{slash, deal_fits}
use fuse_node.Dir.Split.{IsName, deal_joined}
use fuse_node.Dir.Lookup.{length_joined}
use fuse_node.Dir.Walk.{root, lookup_in, search_d_hash}
use fuse_node.Dir.Delete.{dhmp_fs_unlink}
use fuse_node.Dir.Tree.{Forest, roots, all, roots-all}
use fuse_node.Dir.Tree.Edit.{Edit, clash}
use fuse_node.Dir.Tree.System.{IsTree, Elsewhere, Edit-Node, Edit-Apart}
use fuse_node.Dir.Tree.Reached.{Holds-Stands, lookup_in-inside, search_d_hash-inside}
use fuse_node.Dir.Tree.Dropped.{drop_root}
use fuse_node.Dir.Tree.Shrinking.{deleted}
use fuse_node.Dir.Tree.Deletion.{Lost, dhmp_fs_unlink-IsTree, left_over}
use fuse_node.Dir.Tree.Follows.{
  child_at, own_deleted, deleted_closed, Follows, search_d_hash-Follows, which_name,
}

module _ (time : ℕ) (d f : Name) (s : Store) (h c : ℕ) (b tree rest : Forest) (w : IsTree s tree)
    (e : Edit h b (drop_root c b) tree rest) (n : IsName f)
    (found : search_d_hash s (d ++ slash ∷ []) ≡ ok (some h))
    (there : search_d_hash s (d ++ slash ∷ f) ≡ ok (some c))
    (fit : deal_fits (d ++ slash ∷ f) ≡ true) where
  at :
      (lookup_in s f h ≡ ok (some c))
      × ((s.inode h).is_directories ≡ true)
      × (contains c (roots b) ≡ true)
  at = child_at s d f h c b tree w (Edit-Node s e w.holds).0 n found there

  abbrev Stays : ℕ → Type 0
  Stays g = contains g (all rest) ≡ true

  abbrev Goes : ℕ → Type 0
  Goes g = contains g (deleted c b) ≡ true

  before :
      (t : Store) → Lost s h f t → Elsewhere s rest h t → IsTree t rest → Follows Stays Goes s t
  before t own elsewhere w' = record {
    step = λ g x q on l.
        let inner : lookup_in t q g ≡ ok (some x) → Stays x =
          λ l'. lookup_in-inside t rest g x q (Holds-Stands t rest g w'.holds on) l' in
        elim (which_name h g f q) [
          | inl other ↦ let l' = elsewhere g on other q ∙ l in inl (l', inner l')
          | inr (inl (k, z)) ↦ inr (
              let same : c ≡ x = (let l' = rw (← k, ← z) at l in ground (arith, l', at.0)) in
              subst Goes same (own_deleted c b))
          | inr (inr (k, z)) ↦
              let l' = subst (λ y. lookup_in t q y ≡ lookup_in s q y) k (own.1 q z) ∙ l in
              inl (l', inner l')
        ];
    closed = deleted_closed s c b at.2 (Edit-Node s e w.holds).1;
  }

  after :
      (t : Store) → Lost s h f t → Elsewhere s rest h t → IsTree t rest → Follows Stays (λ g. ⊥) t s
  after t own elsewhere w' = record {
    step = λ g x q on l. inl (
      elim (which_name h g f q) [
        | inl other ↦ sym (elsewhere g on other q) ∙ l
        | inr (inl (k, z)) ↦ absurd (let l' = rw (← k, ← z) at l in ground (arith, l', own.0))
        | inr (inr (k, z)) ↦ sym (subst (λ y. lookup_in t q y ≡ lookup_in s q y) k (own.1 q z)) ∙ l
      ],
      lookup_in-inside t rest g x q (Holds-Stands t rest g w'.holds on) l,
    );
    closed = λ g x q bad l. bad;
  }

  -- Deleting the file or directory, empty or not (though a comment says of `dhmp_fs_rmdir` that it
  -- deletes an empty one), that a path leads to, if the path fits into the buffers, returns 0, and
  -- the path leads to no inode then. The paths that lead to an inode then are those that led to one
  -- before that is neither the deleted one nor below it, and they lead to the same inode.
  pub dhmp_fs_unlink-search_d_hash :
      (t : Store) × (dhmp_fs_unlink time (d ++ slash ∷ f) s ≡ ok (pos 0, t))
      × ((x : ℕ) → search_d_hash t (d ++ slash ∷ f) ≢ ok (some x))
      × ((q : Name) (x : ℕ)
          → search_d_hash t q ≡ ok (some x)
            ↔ (search_d_hash s q ≡ ok (some x)) × (contains x (deleted c b) ≡ false))
  dhmp_fs_unlink-search_d_hash =
      let names = (deal_joined d f n).0 in
      let (t, run, w', own, elsewhere, chunks) =
        dhmp_fs_unlink-IsTree time (d ++ slash ∷ f) s h c b tree rest w e at.1
          (length_joined d f n.some_letter) fit (rw names found) (rw names at.0) in
      let lost : Lost s h f t = rw names at own in
      let at_root : Stays root = roots-all root rest (rw (w'.at_root) (ground arith)) in
      let (db, off) = Edit-Apart e w.distinct in
      let from : (q : Name) (x : ℕ)
          → search_d_hash t q ≡ ok (some x)
          → (search_d_hash s q ≡ ok (some x)) × (contains x (deleted c b) ≡ false) =
        λ q x l. (
          elim (search_d_hash-Follows Stays (λ g. ⊥) t s (after t lost elsewhere w') x q at_root
              l) [ inl r ↦ r | inr bad ↦ absurd bad ],
          left_over x c b db at.2 e w.distinct (search_d_hash-inside t rest q x w' l),
        ) in
      let back : (q : Name) (x : ℕ)
          → (search_d_hash s q ≡ ok (some x)) × (contains x (deleted c b) ≡ false)
          → search_d_hash t q ≡ ok (some x) =
        λ q x (l, out).
          elim (search_d_hash-Follows Stays Goes s t (before t lost elsewhere w') x q at_root l) [
            | inl r ↦ r
            | inr k ↦ absurd (clash k out)
          ] in
      (
        t,
        run,
        λ x l.
            let (l', out) = from (d ++ slash ∷ f) x l in
            let same : c ≡ x = ground (arith, l', there) in
            clash (own_deleted c b) (subst (λ y. contains y (deleted c b) ≡ false) (sym same) out),
        λ q x. (from q x, back q x),
      )
