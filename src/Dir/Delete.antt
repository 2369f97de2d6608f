-- ===== src/Dir/Delete.antt =====
-- `dhmpDelFromInode`, `dhmpDeleteALL` and `dhmpDelete` of src/dhmp_fs_dir_ops.c, which
-- `dhmp_fs_unlink` and `dhmp_fs_rmdir` call. `time` is the value of `time(NULL)`.
use fuse_node.Prelude.{
  ℕ, zero, suc, true, false, ◌&&◌, not, Option, none, some, length, ◌==◌, if◌then◌else◌, ℤ, pos,
  negsuc,
}
use fuse_node.Outcome.{fault, Run, ok, more, ◌>>=◌, of_option}
use fuse_node.HashMap.Hash.{Name}
use fuse_node.HashMap.{default_get, default_remove}
use fuse_node.Inode.{Store, set_inode}
use fuse_node.Inode.Slab.{reset_indoe}
use fuse_node.Dir.Path.{deal, deal_fits}
use fuse_node.Dir.Walk.{search_d_hash}
use fuse_node.Dir.Links.{del_from_father}
use fuse_node.Dir.Create.{or_zero}

-- The loop of `dhmpDeleteALL` from a child on, its recursive calls included, on fuel: first what is
-- below the child, then the child, then the children behind it.
unfoldable pub delete_sons : ℕ → ℕ → Option ℕ → Store → Run Store
delete_sons fuel time none s = ok s
delete_sons zero time (some son) s = more
delete_sons (suc fuel) time (some son) s =
    let n = s.inode son in
    let below = delete_sons fuel time n.son s in
    let s1 : Run Store = elim (n.is_directories && not (n.son_nums == 0)) [
      | true ↦ below
      | false ↦ ok s
    ] in
    s1 >>= λ t. reset_indoe time son t >>= λ u. delete_sons fuel time (t.inode son).bro u

-- `dhmpDeleteALL`. The fuel is one round for each inode.
unfoldable pub dhmp_delete_all : ℕ → ℕ → Store → Run Store
unfolding delete_sons
dhmp_delete_all time father s = delete_sons s.next_inode time (s.inode father).son s

-- The end of `dhmpDelFromInode`: the entry is off the list, and goes off the table.
unfoldable pub drop_entry : ℕ → Name → ℕ → ℕ → Store → Run (ℤ × Store)
unfolding dhmp_delete_all
drop_entry time filename father to_del s = of_option (s.inode father).d_hash >>= λ m.
    let r = default_remove m filename in
    let t = set_inode s father (record (s.inode father) { d_hash = some r.1 }) in
    elim r.0 [
      | none ↦ ok (negsuc 0, t)
      | some key ↦
          (if (t.inode to_del).is_directories then dhmp_delete_all time to_del t else ok t) >>= λ u.
          reset_indoe time to_del u >>= λ v. ok (pos 1, v)
    ]

unfoldable pub dhmp_del_from_inode : ℕ → Option ℕ → Name → Store → Run (ℤ × Store)
unfolding drop_entry
dhmp_del_from_inode time none filename s = ok (negsuc 0, s)
dhmp_del_from_inode time (some father) filename s =
    if not (s.inode father).is_directories
    then ok (negsuc 0, s)
    else of_option (s.inode father).d_hash >>= λ m. elim (default_get m filename) [
      | none ↦ ok (negsuc 0, s)
      | some to_del ↦
          del_from_father father to_del s >>= λ t. drop_entry time filename father to_del t
    ]

unfoldable pub dhmp_delete : ℕ → Name → Store → Run (ℤ × Store)
unfolding dhmp_del_from_inode
dhmp_delete time path s =
    let names = deal path in
    if length path == 1
    then ok (pos 0, s)
    else if not (deal_fits path)
    then fault
    else search_d_hash s names.0 >>= λ father. dhmp_del_from_inode time father names.1 s

-- `dhmp_fs_unlink` and `dhmp_fs_rmdir`, which are the same.
unfoldable pub dhmp_fs_unlink : ℕ → Name → Store → Run (ℤ × Store)
unfolding dhmp_delete
dhmp_fs_unlink time path s = dhmp_delete time path s >>= λ r. ok (or_zero (negsuc 1) r.0, r.1)
