-- ===== src/Dir/Tree/Deletion.antt =====
-- `dhmp_fs_unlink` and `dhmp_fs_rmdir` of src/dhmp_fs_dir_ops.c over the tree of files.
use fuse_node.Prelude.{
  ℕ, ◌≤◌, ◌≡◌, inl, inr, refl, sym, ap, ◌∙◌, true, false, none, some, List, length, ◌==◌,
  if◌then◌else◌, arith, Option-cases, pos,
}
use fuse_node.Outcome.{ok, ◌>>=◌, of_option}
use fuse_node.HashMap.{HashMap, default_get, default_remove}
use fuse_node.HashMap.Hash.{Name, default_equal, default_equal_refl}
use fuse_node.HashMap.Table.{view}
use fuse_node.HashMap.Methods.{IsHashMap, default_get-view, default_remove-Removed}
use fuse_node.Inode.{Store}
use fuse_node.Inode.Slab.{reset_indoe}
use fuse_node.Index.Claim.{IsConsistent, contains, IsDistinct}
use fuse_node.File.Room.{without}
use fuse_node.Dir.Path.{deal, deal_fits}
use fuse_node.Dir.Walk.{search_d_hash, lookup_in}
use fuse_node.Dir.Delete.{
  dhmp_delete_all, drop_entry, dhmp_del_from_inode, dhmp_delete, dhmp_fs_unlink,
}
use fuse_node.Dir.Children.{IsFamily}
use fuse_node.Dir.Removal.{del_from_father-IsFamily}
use fuse_node.Dir.Tree.{Forest, nil, node, roots, all, IsDir, Node, Holds, roots-all}
use fuse_node.Dir.Tree.Edit.{Edit, Edit-inside, off_of_not_on, clash, Edit-gone}
use fuse_node.Dir.Tree.Emptied.{Emptied, held, Emptied-nil, delete_one, delete_sons-Emptied}
use fuse_node.Dir.Tree.System.{IsTree, Edit-Node, Edit-Apart, Elsewhere, lookup_in-same}
use fuse_node.Dir.Tree.Dropped.{drop_root, below_root, below_root_part, below_root-IsDistinct}
use fuse_node.Dir.Tree.Relinked.{Relinked, del_from_father-Relinked}
use fuse_node.Dir.Tree.Shrinking.{length-le_of_range, deleted, cut, kept_father, kept-SameNode}
use fuse_node.Dir.Tree.Pruned.{deleted_inside, stays_apart, pruned-IsTree}
use fuse_node.Dir.Tree.Cut.{cut-IsConsistent, cut-held, cut-Holds}

-- A directory of the tree in which `filename` names the child `c`.
pub record Entry (s : Store) (h c : ℕ) (filename : Name) (cs : List ℕ) : Type 0 where
  directory : IsDir s h cs
  default_got : default_get directory.table filename ≡ some c
  there : view directory.table filename ≡ some c
  pub child : contains c cs ≡ true

pub entry :
    (s : Store) (h c : ℕ) (filename : Name) (cs : List ℕ)
    → Node s h cs
    → (s.inode h).is_directories ≡ true
    → lookup_in s filename h ≡ ok (some c)
    → Entry s h c filename cs
unfolding lookup_in
entry s h c filename cs (inl d) flag e =
    let got : default_get d.table filename ≡ some c = ground (arith, d.d_hash, e) in
    let there : view d.table filename ≡ some c = sym (default_get-view d.table filename) ∙ got in
    record {
      directory = d;
      default_got = got;
      there = there;
      child = (d.listed filename c there).0;
    }
entry s h c filename cs (inr k) flag e = absurd (ground (arith, flag, k.flag))

-- What `dhmpDelFromInode` does below the child, whether it is a directory or not.
delete_below :
    (time c : ℕ) (s : Store) (k : Forest)
    → IsConsistent s
    → Node s c (roots k)
    → Holds s k
    → IsDistinct (all k)
    → length (all k) ≤ s.next_inode
    → (t : Store) × ((if (s.inode c).is_directories then dhmp_delete_all time c s else ok s) ≡ ok t)
      × Emptied s (all k) t
unfolding dhmp_delete_all
delete_below time c s k good (inl d) hk distinct le =
    let (t, run, e) =
      delete_sons-Emptied s.next_inode time s (s.inode c).son k le good d.family.chain distinct
        hk in
    (t, rw d.flag run, e)
delete_below time c s nil good (inr f) hk distinct le = (s, rw f.flag refl, Emptied-nil s good)
delete_below time c s (node d x y) good (inr f) hk distinct le =
    absurd (let e = ap length f.children in omega (arith, e))

-- From the table on.
drop_run :
    (time h c : ℕ) (filename : Name) (u v t : Store) (m : HashMap ℕ)
    → (u.inode h).d_hash ≡ some m
    → IsHashMap m
    → view m filename ≡ some c
    → (if ((cut u h m filename).inode c).is_directories
        then dhmp_delete_all time c (cut u h m filename)
        else ok (cut u h m filename))
      ≡ ok v
    → reset_indoe time c v ≡ ok t
    → drop_entry time filename h c u ≡ ok (pos 1, t)
unfolding drop_entry
drop_run time h c filename u v t m e good there below own =
    elim (Option-cases (default_remove m filename).0) [
      | inl null ↦
          absurd
            (let k = (default_remove-Removed m filename good).null null in ground (arith, k, there))
      | inr (key, found) ↦
          rw (e, of_option, ◌>>=◌) (rw found (rw (below, ◌>>=◌) (rw (own, ◌>>=◌) refl)))
    ]

-- What is left in the tree is not deleted.
pub left_over :
    {h : ℕ} {f f' : Forest} (g c : ℕ) (b : Forest)
    → IsDistinct (all b)
    → contains c (roots b) ≡ true
    → Edit h b (drop_root c b) f f'
    → IsDistinct (all f)
    → contains g (all f') ≡ true
    → contains g (deleted c b) ≡ false
left_over g c b d at e df on = off_of_not_on g (deleted c b) (λ q.
    let gone =
      Edit-gone g e df (deleted_inside g c b at q)
        (off_of_not_on g (all (drop_root c b)) (λ k. clash q (stays_apart g c b d at k))) in
    clash on gone)

-- The name is looked up as absent, and every other name as before.
abbrev pub Lost : Store → ℕ → Name → Store → Type 0
Lost s h filename t =
    (lookup_in t filename h ≡ ok none)
    × ((g : Name) → default_equal filename g ≡ false → lookup_in t g h ≡ lookup_in s g h)

removed-Lost :
    (s t : Store) (h : ℕ) (m : HashMap ℕ) (filename : Name)
    → (s.inode h).d_hash ≡ some m
    → IsHashMap m
    → (t.inode h).d_hash ≡ some (default_remove m filename).1
    → Lost s h filename t
unfolding lookup_in
removed-Lost s t h m filename e good e' =
    let p = default_remove-Removed m filename good in
    let m' = (default_remove m filename).1 in
    (
      rw (e', default_get-view m' filename, p.reads filename, default_equal_refl filename) refl,
      λ g other. rw (e', e, default_get-view m' g, default_get-view m g, p.reads g, other) refl,
    )

module _ (time : ℕ) (path : Name) (s : Store) (h c : ℕ) (b f f' : Forest) (w : IsTree s f)
    (e : Edit h b (drop_root c b) f f') (flag : (s.inode h).is_directories ≡ true)
    (short : (length path == 1) ≡ false) (fit : deal_fits path ≡ true)
    (found : search_d_hash s (deal path).0 ≡ ok (some h))
    (named : lookup_in s (deal path).1 h ≡ ok (some c)) where
  abbrev name : Name
  name = (deal path).1

  abbrev at : Entry s h c name (roots b)
  at = entry s h c name (roots b) (Edit-Node s e w.holds).0 flag named

  abbrev m : HashMap ℕ
  m = at.directory.table

  -- There are no more inodes below the directory than inodes.
  few :
      (l : List ℕ)
      → IsDistinct l
      → ((g : ℕ) → contains g l ≡ true → contains g (all b) ≡ true)
      → length l ≤ s.next_inode
  few l d sub =
      length-le_of_range s.next_inode l d (λ g on. w.in_range g (Edit-inside g e (sub g on)))

  -- What the deletion goes through: `u` has the child off the list.
  record Course (t : Store) : Type 0 where
    u : Store
    run : dhmp_del_from_inode time (some h) name s ≡ ok (pos 1, t)
    links : Relinked s h (roots b) u
    family : IsFamily u h at.directory.stale (without c (roots b))
    gone : Emptied (cut u h m name) (deleted c b) t

  course : (t : Store) × Course t
  unfolding dhmp_del_from_inode
  course =
      let d = at.directory in
      let (n, hb) = Edit-Node s e w.holds in
      let (db, off) = Edit-Apart e w.distinct in
      let k = below_root c b in
      let (u, run, family) =
        del_from_father-IsFamily s h c d.stale (roots b) d.family at.child
          (few (roots b) d.family.distinct (λ g on. roots-all g b on)) in
      let links = del_from_father-Relinked s u h c (roots b) d.family.chain run in
      let (nc, hk) = cut-Holds s u h m name b links c db off at.child hb in
      let (dk, own) = below_root-IsDistinct c b db at.child in
      let (v, below, ev) =
        delete_below time c (cut u h m name) k (cut-IsConsistent s u h m name b links w.index) nc hk
          dk
          (let le = few (all k) dk (λ g on. below_root_part g c b on) in
            omega (arith, le, links.next)) in
      let (t, last, et) = delete_one time (cut u h m name) v c k nc own ev in
      (
        t,
        record {
          u = u;
          run =
              rw (flag, d.d_hash, of_option, ◌>>=◌)
                (rw (at.default_got) (
                  rw (run, ◌>>=◌)
                    (drop_run time h c name u v t m (links.d_hash h ∙ d.d_hash) d.good at.there
                      below last)));
          links = links;
          family = family;
          gone = et;
        },
      )

  -- Deleting a file or a directory, empty or not (though a comment says of `dhmp_fs_rmdir` that it
  -- deletes an empty one), whose directory is in the tree, by a path that fits into the buffers,
  -- returns 0: the tree is without it and what is below it then, its name is looked up as absent there and every
  -- other name, there and in all other directories that are left, as before, and the chunks of
  -- all that was deleted, and no others, are free.
  pub dhmp_fs_unlink-IsTree :
      (t : Store) × (dhmp_fs_unlink time path s ≡ ok (pos 0, t))
      × IsTree t f'
      × Lost s h (deal path).1 t
      × Elsewhere s f' h t
      × ((x : ℕ)
          → t.chunks.bitmap x ≡ (if held s (deleted c b) x then false else s.chunks.bitmap x))
  unfolding dhmp_fs_unlink dhmp_delete
  dhmp_fs_unlink-IsTree =
      let d = at.directory in
      let (t, k) = course in
      let (db, off) = Edit-Apart e w.distinct in
      let above : contains h (deleted c b) ≡ false =
        off_of_not_on h (deleted c b) (λ q. clash (deleted_inside h c b at.child q) off) in
      (
        t,
        rw (short, fit, found, ◌>>=◌) (rw (k.run, ◌>>=◌) refl),
        pruned-IsTree s k.u t h c d.stale m name b f f' w e at.child d.d_hash at.there d k.links
            k.family k.gone,
        removed-Lost s t h m name d.d_hash d.good
            (ap (λ n. n.d_hash) (kept_father s k.u t h c d.stale m name b k.links k.gone above)),
        λ g on ne q.
            let stays = left_over g c b db at.child e w.distinct on in
            lookup_in-same s t g q
              (kept-SameNode s k.u t h c d.stale m name b k.links k.gone above g ne stays).d_hash,
        λ x.
            k.gone.bitmap x
            ∙ (rw (cut-held s k.u h m name b k.links (deleted c b) x) (
                ap (λ y. if held s (deleted c b) x then false else y)
                  (ap (λ y. y.bitmap x) k.links.chunks))),
      )
