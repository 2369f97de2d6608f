-- ===== src/Dir/Tree/MovedPaths.antt =====
-- What `dhmp_fs_rename` of src/dhmp_fs_dir_ops.c means for the paths of all files.
use fuse_node.Prelude.{
  ℕ, ◌≡◌, inl, inr, sym, ◌∙◌, Bool-cases, true, false, none, some, [], ◌∷◌, ◌++◌, arith, pos,
}
use mathlib.Core.Path.{subst}
use fuse_node.Outcome.{ok}
use fuse_node.HashMap.Hash.{Name, default_equal, default_equal_sound}
use fuse_node.Inode.{Store}
use fuse_node.Index.Claim.{contains}
use fuse_node.Dir.Path.{slash, deal_fits}
use fuse_node.Dir.Split.{IsName, deal_joined}
use fuse_node.Dir.Walk.{root, lookup_in, search_d_hash}
use fuse_node.Dir.Rename.{dhmp_fs_rename}
use fuse_node.Dir.Tree.{Forest, roots, all, roots-all}
use fuse_node.Dir.Tree.Edit.{Edit, clash, off_of_not_on}
use fuse_node.Dir.Tree.System.{IsTree, Elsewhere, Edit-Node, Edit-Apart}
use fuse_node.Dir.Tree.Reached.{Holds-Stands, lookup_in-inside}
use fuse_node.Dir.Tree.Shrinking.{deleted}
use fuse_node.Dir.Tree.Pruned.{deleted_inside}
use fuse_node.Dir.Tree.Renaming.{dhmp_fs_rename-IsTree}
use fuse_node.Dir.Tree.Follows.{
  Follows, search_d_hash-Follows, search_d_hash-joined, which_name, child_at, own_deleted,
  deleted_closed,
}

module _ (d f e g : Name) (s : Store) (h c : ℕ) (b tree : Forest) (w : IsTree s tree)
    (edit : Edit h b b tree tree) (n : IsName f) (m : IsName g)
    (found : search_d_hash s (d ++ slash ∷ []) ≡ ok (some h))
    (there : search_d_hash s (d ++ slash ∷ f) ≡ ok (some c))
    (unused : search_d_hash s (d ++ slash ∷ g) ≡ ok none) (fit : deal_fits (d ++ slash ∷ f) ≡ true)
    (fit_target : deal_fits (e ++ slash ∷ g) ≡ true) where
  at :
      (lookup_in s f h ≡ ok (some c))
      × ((s.inode h).is_directories ≡ true)
      × (contains c (roots b) ≡ true)
  at = child_at s d f h c b tree w (Edit-Node s edit w.holds).0 n found there

  absent : lookup_in s g h ≡ ok none
  absent = sym (search_d_hash-joined s d g h m found) ∙ unused

  abbrev Inside : ℕ → Type 0
  Inside x = contains x (all tree) ≡ true

  abbrev Moved : ℕ → Type 0
  Moved x = contains x (deleted c b) ≡ true

  -- Every other name is looked up as before.
  abbrev Rest : Store → Type 0
  Rest t =
      ((q : Name)
        → default_equal f q ≡ false
        → default_equal g q ≡ false
        → lookup_in t q h ≡ lookup_in s q h)
      × Elsewhere s tree h t

  Rest-Follows : (t : Store) → Rest t → Follows Inside Moved s t
  Rest-Follows t r = record {
    step = λ a x q on l.
        let inner : Inside x = lookup_in-inside s tree a x q (Holds-Stands s tree a w.holds on) l in
        elim (which_name h a f q) [
          | inl other ↦ inl (r.1 a on other q ∙ l, inner)
          | inr (inl (k, z)) ↦
              let same : c ≡ x = (let l' = rw (← k, ← z) at l in ground (arith, l', at.0)) in
              inr (subst Moved same (own_deleted c b))
          | inr (inr (k, z)) ↦ elim (Bool-cases (default_equal g q)) [
            | inl y ↦ absurd (
                let y' = default_equal_sound g q y in
                let l' = rw (← k, ← y') at l in ground (arith, l', absent))
            | inr y ↦ inl (subst (λ v. lookup_in t q v ≡ lookup_in s q v) k (r.0 q z y) ∙ l, inner)
          ]
        ];
    closed = deleted_closed s c b at.2 (Edit-Node s edit w.holds).1;
  }

  above : contains h (deleted c b) ≡ false
  above =
      off_of_not_on h (deleted c b)
        (λ q. clash (deleted_inside h c b at.2 q) (Edit-Apart edit w.distinct).1)

  -- Renaming what a path leads to, to a name that its directory does not use, returns 0, whatever
  -- directory the target names, if both paths fit into the buffers: the path with the new name in the same directory leads to the
  -- same inode then, and the old path to NULL. Every other path that led to an inode, neither the
  -- renamed one nor one below it, leads to the same one.
  pub dhmp_fs_rename-search_d_hash :
      (t : Store) × (dhmp_fs_rename (d ++ slash ∷ f) (e ++ slash ∷ g) s ≡ ok (pos 0, t))
      × (search_d_hash t (d ++ slash ∷ g) ≡ ok (some c))
      × (search_d_hash t (d ++ slash ∷ f) ≡ ok none)
      × ((q : Name) (x : ℕ)
          → search_d_hash s q ≡ ok (some x)
          → contains x (deleted c b) ≡ false
          → search_d_hash t q ≡ ok (some x))
  dhmp_fs_rename-search_d_hash =
      let from = (deal_joined d f n).0 in
      let to = (deal_joined e g m).0 in
      let (t, run, w', new, old, others, elsewhere) =
        dhmp_fs_rename-IsTree (d ++ slash ∷ f) (e ++ slash ∷ g) s h c b tree w edit at.1
          (rw from found) (rw from at.0) (rw to absent) fit fit_target in
      let r : Rest t = (λ q y z. others q (rw from y) (rw to z), elsewhere) in
      let at_root : Inside root = roots-all root tree (rw (w.at_root) (ground arith)) in
      let keeps : (q : Name) (x : ℕ)
          → search_d_hash s q ≡ ok (some x)
          → contains x (deleted c b) ≡ false
          → search_d_hash t q ≡ ok (some x) =
        λ q x l out.
          elim (search_d_hash-Follows Inside Moved s t (Rest-Follows t r) x q at_root l) [
            | inl k ↦ k
            | inr k ↦ absurd (clash k out)
          ] in
      let found' = keeps (d ++ slash ∷ []) h found above in
      (
        t,
        run,
        search_d_hash-joined t d g h m found' ∙ (rw to at new),
        search_d_hash-joined t d f h n found' ∙ (rw from at old),
        keeps,
      )
