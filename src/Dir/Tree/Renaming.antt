-- ===== src/Dir/Tree/Renaming.antt =====
-- `dhmp_fs_rename` of src/dhmp_fs_dir_ops.c over the tree of files.
use fuse_node.Prelude.{
  ℕ, ◌≡◌, ◌≢◌, inl, inr, refl, sym, ap, ◌∙◌, true, false, Option, none, some, arith, Bool-cases,
  pos,
}
use fuse_node.Outcome.{Run, ok, ◌>>=◌, of_option}
use fuse_node.HashMap.{default_get, default_remove, put}
use fuse_node.HashMap.Hash.{Name, default_equal, default_equal_refl, default_equal_sound}
use fuse_node.HashMap.Table.{view}
use fuse_node.HashMap.Methods.{default_get-view}
use fuse_node.Inode.{Store, set_inode}
use fuse_node.Index.Claim.{contains}
use fuse_node.Dir.Path.{deal, deal_fits}
use fuse_node.Dir.Walk.{root, search_d_hash, lookup_in}
use fuse_node.Dir.Create.{put_entry}
use fuse_node.Dir.Rename.{dhmp_fs_rename}
use fuse_node.Dir.Tree.{Forest, roots, all, IsDir, roots-all, Holds-frame_links}
use fuse_node.Dir.Tree.Edit.{Edit, Edit-contains, Edit-Holds, ne_of_contains, clash}
use fuse_node.Index.Same.{IsConsistent-same}
use fuse_node.Dir.Tree.System.{IsTree, Edit-Node, Edit-Apart, Elsewhere, lookup_in-same}
use fuse_node.Dir.Tree.Renamed.{
  table, renamed, at_father, renamed-bro, renamed-filename, renamed-SameOwn, renamed-flag,
  renamed-SameIndex, table-view, renamed-IsDir,
}

-- A pointer that is not NULL is followed.
of_option-bind :
    {A B : Type 0} (o : Option A) (a : A) (k : A → Run B) {r : Run B}
    → o ≡ some a
    → k a ≡ r
    → (of_option o >>= k) ≡ r
of_option-bind o a k e q = rw e q

module _ (source target : Name) (s : Store) (h c : ℕ) (b f : Forest) (w : IsTree s f)
    (e : Edit h b b f f) (flag : (s.inode h).is_directories ≡ true)
    (found : search_d_hash s (deal source).0 ≡ ok (some h))
    (named : lookup_in s (deal source).1 h ≡ ok (some c))
    (free : lookup_in s (deal target).1 h ≡ ok none) (fit : deal_fits source ≡ true)
    (fit_target : deal_fits target ≡ true) where
  abbrev old : Name
  old = (deal source).1

  abbrev new : Name
  new = (deal target).1

  -- The table of the directory.
  record Named : Type 0 where
    directory : IsDir s h (roots b)
    default_got : default_get directory.table old ≡ some c
    there : view directory.table old ≡ some c
    unused : view directory.table new ≡ none

  at : Named
  unfolding lookup_in
  at = elim (Edit-Node s e w.holds).0 [
    | inl d ↦ record {
      directory = d;
      default_got = ground (arith, d.d_hash, named);
      there = sym (default_get-view d.table old) ∙ (ground (arith, d.d_hash, named));
      unused = sym (default_get-view d.table new) ∙ (ground (arith, d.d_hash, free));
    }
    | inr k ↦ absurd (ground (arith, flag, k.flag))
  ]

  ne : h ≢ c
  ne =
      let on = (at.directory.listed old c at.there).0 in
      ne_of_contains (all b) (Edit-Apart e w.distinct).1 (roots-all c b on)

  rename_run :
      dhmp_fs_rename source target s ≡ ok (pos 0, renamed s h c at.directory.table old new ne)
  unfolding dhmp_fs_rename put_entry
  rename_run =
      let m = at.directory.table in
      let t = set_inode s h (record (s.inode h) { d_hash = some (default_remove m old).1 }) in
      let u = set_inode t c (record (t.inode c) { filename = new }) in
      let left : (u.inode h).d_hash ≡ some (default_remove m old).1 = ground (arith, ne) in
      let name : (u.inode c).filename ≡ new = ground arith in
      let put_run : put_entry h c u ≡ ok (renamed s h c m old new ne) =
        of_option-bind (u.inode h).d_hash (default_remove m old).1
          (λ r.
            ok
              (set_inode u h (record (u.inode h) { d_hash = some (put r (u.inode c).filename c) })))
          left
          (ap
            (λ q. ok (
              set_inode u h
                (record (u.inode h) { d_hash = some (put (default_remove m old).1 q c) })))
            name) in
      rw (fit, found, of_option, ◌>>=◌)
        (of_option-bind (s.inode h).d_hash m _ at.directory.d_hash
          (rw (at.default_got, fit_target) (ap (λ r. r >>= λ v. ok (pos 0, v)) put_run)))

  -- The old name is in use and the new one is not.
  other_name : default_equal new old ≡ false
  other_name = elim (Bool-cases (default_equal new old)) [
    | inr off ↦ off
    | inl same ↦
        absurd
          (let j = default_equal_sound new old same in ground (arith, rw j at at.unused, at.there))
  ]

  renamed-IsTree : IsTree (renamed s h c at.directory.table old new ne) f
  renamed-IsTree =
      let d = at.directory in
      let m = d.table in
      let t = renamed s h c m old new ne in
      let (db, off) = Edit-Apart e w.distinct in
      let (n, hb) = Edit-Node s e w.holds in
      let on = roots-all c b (d.listed old c at.there).0 in
      let off_roots = λ (g : ℕ) (q : contains g (roots b) ≡ false) (k : c ≡ g).
        clash (d.listed old c at.there).0 (rw (← k) at q) in
      let spare : (g : ℕ) → contains g s.free_inode_slab ≡ true → h ≢ g =
        λ g q k. clash (Edit-contains e) (rw (← k) at (w.slab_apart g q)) in
      record {
        index = IsConsistent-same s t refl refl (renamed-SameIndex s h c m old new ne) w.index;
        holds =
            Edit-Holds s t e
              (λ g _ q.
                let a : c ≢ g = λ k. clash on (rw (← k) at q) in
                let name = renamed-filename s h c m old new ne g a in
                (
                  λ x.
                      let k = renamed-SameOwn s h c m old new ne g x in
                      record {
                        flag = k.flag;
                        d_hash = k.d_hash;
                        son = k.son;
                        son_nums = k.son_nums;
                        filename = name;
                      },
                  renamed-bro s h c m old new ne g,
                  name,
                ))
              (inl (renamed-IsDir s h c m old new ne (roots b) d.d_hash at.there at.unused d))
              (Holds-frame_links s t b
                (λ g k. renamed-SameOwn s h c m old new ne g (ne_of_contains (all b) off k))
                (λ g _ q. (
                  renamed-bro s h c m old new ne g,
                  renamed-filename s h c m old new ne g (off_roots g q),
                ))
                db hb)
              w.distinct w.holds;
        distinct = w.distinct;
        at_root = w.at_root;
        root_flag = renamed-flag s h c m old new ne root ∙ w.root_flag;
        in_range = w.in_range;
        slab_distinct = w.slab_distinct;
        slab_range = w.slab_range;
        slab_apart = w.slab_apart;
        all_free = w.all_free;
        slab_flag = λ g q. renamed-flag s h c m old new ne g ∙ w.slab_flag g q;
        slab_son = λ g q. (renamed-SameOwn s h c m old new ne g (spare g q)).son ∙ w.slab_son g q;
        slab_d_hash =
            λ g q. (renamed-SameOwn s h c m old new ne g (spare g q)).d_hash ∙ w.slab_d_hash g q;
      }

  -- Renaming a file or a directory to a name that its directory does not use returns 0, whatever
  -- directory the target names, if both paths fit into the buffers: it stays in its directory of the tree, is looked up there under the
  -- new name and no more under the old one, and every other name, there and in all other
  -- directories of the tree, is looked up as before.
  pub dhmp_fs_rename-IsTree :
      (t : Store) × (dhmp_fs_rename source target s ≡ ok (pos 0, t))
      × IsTree t f
      × (lookup_in t (deal target).1 h ≡ ok (some c))
      × (lookup_in t (deal source).1 h ≡ ok none)
      × ((g : Name)
          → default_equal (deal source).1 g ≡ false
          → default_equal (deal target).1 g ≡ false
          → lookup_in t g h ≡ lookup_in s g h)
      × Elsewhere s f h t
  unfolding lookup_in
  dhmp_fs_rename-IsTree =
      let m = at.directory.table in
      let t = renamed s h c m old new ne in
      let own : (t.inode h).d_hash ≡ some (table s h c m old new ne) =
        ap (λ n. n.d_hash) (at_father s h c m old new ne) in
      let reads = (table-view s h c m old new ne at.directory.good).1 in
      (
        t,
        rename_run,
        renamed-IsTree,
        rw (own, default_get-view (table s h c m old new ne) new, reads new, default_equal_refl new)
            refl,
        rw (own, default_get-view (table s h c m old new ne) old, reads old)
            (rw (other_name, default_equal_refl old) refl),
        λ g a a'.
            rw
              (
                own,
                at.directory.d_hash,
                default_get-view (table s h c m old new ne) g,
                default_get-view m g,
                reads g,
                a',
                a,
              )
              refl,
        λ g on other q. lookup_in-same s t g q (renamed-SameOwn s h c m old new ne g other).d_hash,
      )
