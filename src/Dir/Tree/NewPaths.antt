-- ===== src/Dir/Tree/NewPaths.antt =====
-- What `dhmp_fs_mknod` and `dhmp_fs_mkdir` of src/dhmp_fs_dir_ops.c mean for the paths of all files.
use fuse_node.Prelude.{
  ℕ, ◌≡◌, inl, inr, sym, ◌∙◌, true, false, none, some, [], ◌∷◌, ◌++◌, length, ◌==◌, arith, pos,
}
use mathlib.Core.Path.{subst}
use fuse_node.Outcome.{ok}
use fuse_node.HashMap.Hash.{Name, default_equal}
use fuse_node.Inode.{Store}
use fuse_node.Inode.Slab.{get_free_inode}
use fuse_node.Index.Claim.{contains}
use fuse_node.Dir.Path.{slash, deal_fits}
use fuse_node.Dir.Split.{IsName, deal_joined}
use fuse_node.Dir.Lookup.{length_joined}
use fuse_node.Dir.Walk.{root, lookup_in, search_d_hash}
use fuse_node.Dir.Create.{dhmp_fs_mknod, dhmp_fs_mkdir}
use fuse_node.Dir.Tree.{Forest, nil, node, all, roots-all}
use fuse_node.Dir.Tree.Edit.{Edit}
use fuse_node.Dir.Tree.System.{IsTree, Elsewhere}
use fuse_node.Dir.Tree.Reached.{
  Holds-Stands, lookup_in-flag, lookup_in-inside, search_d_hash-inside, Edit-any,
}
use fuse_node.Dir.Tree.Creation.{Found, dhmp_fs_mknod-IsTree, dhmp_fs_mkdir-IsTree}
use fuse_node.Dir.Tree.Follows.{Follows, search_d_hash-Follows, search_d_hash-joined, which_name}

module _ (time : ℕ) (d f : Name) (s : Store) (h : ℕ) (tree : Forest) (w : IsTree s tree)
    (n : IsName f) (found : search_d_hash s (d ++ slash ∷ []) ≡ ok (some h))
    (unused : search_d_hash s (d ++ slash ∷ f) ≡ ok none)
    (fit : deal_fits (d ++ slash ∷ f) ≡ true) where
  abbrev Inside : ℕ → Type 0
  Inside g = contains g (all tree) ≡ true

  in_tree : Inside h
  in_tree = search_d_hash-inside s tree (d ++ slash ∷ []) h w found

  absent : lookup_in s f h ≡ ok none
  absent = sym (search_d_hash-joined s d f h n found) ∙ unused

  mknod-Follows :
      (t : Store)
      → ((g : Name) → default_equal f g ≡ false → lookup_in t g h ≡ lookup_in s g h)
      → Elsewhere s tree h t
      → Follows Inside (λ g. ⊥) s t
  mknod-Follows t own elsewhere = record {
    step = λ g x q on l. inl (
      elim (which_name h g f q) [
        | inl other ↦ elsewhere g on other q ∙ l
        | inr (inl (k, z)) ↦ absurd (let l' = rw (← k, ← z) at l in ground (arith, l', absent))
        | inr (inr (k, z)) ↦ subst (λ y. lookup_in t q y ≡ lookup_in s q y) k (own q z) ∙ l
      ],
      lookup_in-inside s tree g x q (Holds-Stands s tree g w.holds on) l,
    );
    closed = λ g x q bad l. bad;
  }

  -- The new inode is found under its path, and what was found before is found as before.
  abbrev New : ℕ → Store → Type 0
  New now t =
      (search_d_hash t (d ++ slash ∷ f) ≡ ok (some now))
      × ((q : Name) (c : ℕ) → search_d_hash s q ≡ ok (some c) → search_d_hash t q ≡ ok (some c))

  Found-New : (now : ℕ) (t : Store) → Found s h f now t → Elsewhere s tree h t → New now t
  Found-New now t own elsewhere =
      let same = mknod-Follows t own.1 elsewhere in
      let at_root : Inside root = roots-all root tree (rw (w.at_root) (ground arith)) in
      let keeps : (q : Name) (c : ℕ)
          → search_d_hash s q ≡ ok (some c)
          → search_d_hash t q ≡ ok (some c) =
        λ q c l. elim (search_d_hash-Follows Inside (λ g. ⊥) s t same c q at_root l) [
          | inl r ↦ r
          | inr bad ↦ absurd bad
        ] in
      (search_d_hash-joined t d f h n (keeps (d ++ slash ∷ []) h found) ∙ own.0, keeps)

  -- What the directory has below it, and the tree with a new inode there.
  spot : (b f' : Forest) × Edit h b (node (get_free_inode time s).0 nil b) tree f'
  spot =
      let (b, edits) = Edit-any tree h in_tree in
      let (f', e) = edits (node (get_free_inode time s).0 nil b) in (b, f', e)

  flag : (s.inode h).is_directories ≡ true
  flag = lookup_in-flag s tree h f none (Holds-Stands s tree h w.holds in_tree) absent

  short : (length (d ++ slash ∷ f) == 1) ≡ false
  short = length_joined d f n.some_letter

  -- Making a file under a path that fits into the buffers and leads to nothing yet, in a directory that a path leads to,
  -- returns 0, and the path leads to a new inode then, which is a file. Every path that led to a file or a
  -- directory before leads to the same one.
  pub dhmp_fs_mknod-search_d_hash :
      (t : Store) × (dhmp_fs_mknod time (d ++ slash ∷ f) s ≡ ok (pos 0, t))
      × (search_d_hash t (d ++ slash ∷ f) ≡ ok (some (get_free_inode time s).0))
      × ((t.inode (get_free_inode time s).0).is_directories ≡ false)
      × ((q : Name) (c : ℕ) → search_d_hash s q ≡ ok (some c) → search_d_hash t q ≡ ok (some c))
  dhmp_fs_mknod-search_d_hash =
      let names = (deal_joined d f n).0 in
      let (b, f', e) = spot in
      let (t, run, w', is_file, own, elsewhere) =
        dhmp_fs_mknod-IsTree time (d ++ slash ∷ f) s h b tree f' w e flag short fit (rw names found)
          (rw names absent) in
      let new = Found-New (get_free_inode time s).0 t (rw names at own) elsewhere in
      (t, run, new.0, is_file, new.1)

  -- Making a directory under a path that fits into the buffers and leads to nothing yet, in a directory that a path leads
  -- to, returns 0, and the path leads to a new inode then, which is a directory. Every path that led to a file or
  -- a directory before leads to the same one.
  pub dhmp_fs_mkdir-search_d_hash :
      (t : Store) × (dhmp_fs_mkdir time (d ++ slash ∷ f) s ≡ ok (pos 0, t))
      × (search_d_hash t (d ++ slash ∷ f) ≡ ok (some (get_free_inode time s).0))
      × ((t.inode (get_free_inode time s).0).is_directories ≡ true)
      × ((q : Name) (c : ℕ) → search_d_hash s q ≡ ok (some c) → search_d_hash t q ≡ ok (some c))
  dhmp_fs_mkdir-search_d_hash =
      let names = (deal_joined d f n).0 in
      let (b, f', e) = spot in
      let (t, run, w', is_dir, own, elsewhere) =
        dhmp_fs_mkdir-IsTree time (d ++ slash ∷ f) s h b tree f' w e flag short fit (rw names found)
          (rw names absent) in
      let new = Found-New (get_free_inode time s).0 t (rw names at own) elsewhere in
      (t, run, new.0, is_dir, new.1)
