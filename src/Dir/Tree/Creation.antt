-- ===== src/Dir/Tree/Creation.antt =====
-- `dhmp_fs_mknod` and `dhmp_fs_mkdir` of src/dhmp_fs_dir_ops.c over the tree of files.
use fuse_node.Prelude.{
  ℕ, ◌≡◌, ◌≢◌, inl, inr, refl, sym, ap, ◌∙◌, true, false, none, some, List, length, ◌==◌, arith,
  pos,
}
use fuse_node.Outcome.{ok, ◌>>=◌}
use fuse_node.HashMap.{HashMap, default_get, put}
use fuse_node.HashMap.Hash.{Name, default_equal, default_equal_refl}
use fuse_node.HashMap.Methods.{IsHashMap, put-Put, default_get-view}
use fuse_node.Inode.{Store}
use fuse_node.Inode.Slab.{get_free_inode}
use fuse_node.Dir.Path.{deal, deal_fits}
use fuse_node.Dir.Walk.{search_d_hash, lookup_in}
use fuse_node.Dir.Create.{dhmp_mknod, dhmp_create_directory, dhmp_fs_mknod, dhmp_fs_mkdir}
use fuse_node.Dir.Tree.{Forest, nil, node, roots, Node}
use fuse_node.Dir.Tree.Edit.{Edit, Edit-contains}
use fuse_node.Index.Same.{IsConsistent-same}
use fuse_node.Dir.Tree.System.{IsTree, Edit-Node, Elsewhere, lookup_in-same}
use fuse_node.Dir.Tree.Fresh.{Got, get_free_inode-Got}
use fuse_node.Dir.Tree.Growing.{Added, Added-IsTree}
use fuse_node.Dir.Tree.Making.{
  made, mknod_run, made-Added, made-SameIndex, made_rest, made_flag, made_dir, mkdir_run,
  made_dir-Added, made_dir-SameIndex, made_dir_rest, made_dir_flag,
}

-- What the directory of an edit is like, where a name is free in it.
record Place (s : Store) (h : ℕ) (filename : Name) : Type 0 where
  table : HashMap ℕ
  d_hash : (s.inode h).d_hash ≡ some table
  good : IsHashMap table
  unused : default_get table filename ≡ none

place :
    (s : Store) (h : ℕ) (filename : Name) (cs : List ℕ)
    → Node s h cs
    → (s.inode h).is_directories ≡ true
    → lookup_in s filename h ≡ ok none
    → Place s h filename
unfolding lookup_in
place s h filename cs (inl d) flag e = record {
  table = d.table;
  d_hash = d.d_hash;
  good = d.good;
  unused = ground (arith, d.d_hash, e);
}
place s h filename cs (inr k) flag e = absurd (ground (arith, flag, k.flag))

-- The new inode is looked up under its name, and every other name is looked up as before.
abbrev pub Found : Store → ℕ → Name → ℕ → Store → Type 0
Found s h filename now t =
    (lookup_in t filename h ≡ ok (some now))
    × ((g : Name) → default_equal filename g ≡ false → lookup_in t g h ≡ lookup_in s g h)

Added-Found :
    (s t : Store) (h now : ℕ) (m : HashMap ℕ) (filename : Name)
    → (s.inode h).d_hash ≡ some m
    → IsHashMap m
    → Added s h now m filename t
    → Found s h filename now t
unfolding lookup_in
Added-Found s t h now m filename e good a =
    let p = put-Put m filename now good in
    let e' : (t.inode h).d_hash ≡ some (put m filename now) = ap (λ n. n.d_hash) a.father in
    (
      rw
          (
            e',
            default_get-view (put m filename now) filename,
            p.reads filename,
            default_equal_refl filename,
          )
          refl,
      λ g other.
          rw
            (e', e, default_get-view (put m filename now) g, default_get-view m g, p.reads g, other)
            refl,
    )

module _ (time : ℕ) (path : Name) (s : Store) (h : ℕ) (b f f' : Forest) (w : IsTree s f)
    (e : Edit h b (node (get_free_inode time s).0 nil b) f f')
    (flag : (s.inode h).is_directories ≡ true) (short : (length path == 1) ≡ false)
    (fit : deal_fits path ≡ true) (found : search_d_hash s (deal path).0 ≡ ok (some h))
    (unused : lookup_in s (deal path).1 h ≡ ok none) where
  abbrev given : Got s f (get_free_inode time s).0 (get_free_inode time s).1
  given = get_free_inode-Got time s f w

  other : (get_free_inode time s).0 ≢ h
  other q = ground (arith, rw (← q) at (Edit-contains e), given.fresh)

  at : Place s h (deal path).1
  at = place s h (deal path).1 (roots b) (Edit-Node s e w.holds).0 flag unused

  Added-Elsewhere :
      (t : Store) → Added s h (get_free_inode time s).0 at.table (deal path).1 t → Elsewhere s f h t
  Added-Elsewhere t a g on ne q =
      let new : (get_free_inode time s).0 ≢ g = λ k. ground (arith, rw (← k) at on, given.fresh) in
      lookup_in-same s t g q (ap (λ n. n.d_hash) (a.others g ne new))

  -- Making a file with a new name in a directory of the tree, by a path that fits into the
  -- buffers, returns 0: the file is the first child of the directory in the tree then, it is looked
  -- up there under its name, and every other name, there and in all other directories of the tree,
  -- as before.
  pub dhmp_fs_mknod-IsTree :
      (t : Store) × (dhmp_fs_mknod time path s ≡ ok (pos 0, t))
      × IsTree t f'
      × ((t.inode (get_free_inode time s).0).is_directories ≡ false)
      × Found s h (deal path).1 (get_free_inode time s).0 t
      × Elsewhere s f h t
  unfolding dhmp_fs_mknod dhmp_mknod
  dhmp_fs_mknod-IsTree =
      let now = (get_free_inode time s).0 in
      let name = (deal path).1 in
      let m = at.table in
      let s1 = (get_free_inode time s).1 in
      let t = made time name h m s f given other in
      let a = made-Added time name h m s f given other in
      let r = made_rest time name h m s f given other in
      (
        t,
        rw (short, fit, found, ◌>>=◌)
            (rw (mknod_run time name h m s f given other at.d_hash at.unused, ◌>>=◌) refl),
        Added-IsTree s s1 t h now m name b f f' w e flag at.d_hash
            (sym (default_get-view m name) ∙ at.unused) given a
            (IsConsistent-same s1 t r.0 r.1 (made-SameIndex time name h m s f given other)
              given.index)
            r.2 r.3,
        made_flag time name h m s f given other,
        Added-Found s t h now m name at.d_hash at.good a,
        Added-Elsewhere t a,
      )

  -- Making a directory with a new name in a directory of the tree, by a path that fits into the
  -- buffers, returns 0: the new directory is empty and the first child in the tree then, it is
  -- looked up under its name, and every other name, there and in all other directories of the
  -- tree, as before.
  pub dhmp_fs_mkdir-IsTree :
      (t : Store) × (dhmp_fs_mkdir time path s ≡ ok (pos 0, t))
      × IsTree t f'
      × ((t.inode (get_free_inode time s).0).is_directories ≡ true)
      × Found s h (deal path).1 (get_free_inode time s).0 t
      × Elsewhere s f h t
  unfolding dhmp_fs_mkdir dhmp_create_directory
  dhmp_fs_mkdir-IsTree =
      let now = (get_free_inode time s).0 in
      let name = (deal path).1 in
      let m = at.table in
      let s1 = (get_free_inode time s).1 in
      let t = made_dir time name h m s f given other in
      let a = made_dir-Added time name h m s f given other in
      let r = made_dir_rest time name h m s f given other in
      (
        t,
        rw (short, fit, found, ◌>>=◌)
            (rw (mkdir_run time name h m s f given other flag at.d_hash at.unused, ◌>>=◌) refl),
        Added-IsTree s s1 t h now m name b f f' w e flag at.d_hash
            (sym (default_get-view m name) ∙ at.unused) given a
            (IsConsistent-same s1 t r.0 r.1 (made_dir-SameIndex time name h m s f given other)
              given.index)
            r.2 r.3,
        made_dir_flag time name h m s f given other,
        Added-Found s t h now m name at.d_hash at.good a,
        Added-Elsewhere t a,
      )
