-- ===== src/Dir/Links.antt =====
-- The list of the children of a directory: `add_to_father` and `del_from_father` of
-- src/dhmp_fs_dir_ops.c, over the fields `son`, `bro` and `son_nums`.
use fuse_node.Prelude.{ℕ, zero, suc, ◌+◌, ◌-◌, Option, none, some, ◌==◌, if◌then◌else◌}
use fuse_node.Outcome.{Run, ok, more}
use fuse_node.Inode.{Store, set_inode}

unfoldable pub add_to_father : ℕ → ℕ → Store → Store
add_to_father father now s =
    let tmp = (s.inode father).son in
    let s1 = set_inode s father (record (s.inode father) { son = some now }) in
    let s2 = set_inode s1 now (record (s1.inode now) { bro = tmp }) in
    set_inode s2 father (record (s2.inode father) { son_nums = (s2.inode father).son_nums + 1 })

-- `father->son_nums--`; a directory with a child counts it, so the count is not 0 here.
abbrev pub count_out : ℕ → Store → Store
count_out father s =
    set_inode s father (record (s.inode father) { son_nums = (s.inode father).son_nums - 1 })

-- The loop over the children behind the first, on fuel.
unfoldable pub del_loop : ℕ → ℕ → ℕ → ℕ → Option ℕ → Store → Run Store
del_loop fuel father del bef none s = ok s
del_loop zero father del bef (some now) s = more
del_loop (suc fuel) father del bef (some now) s =
    if now == del
    then ok (count_out father (set_inode s bef (record (s.inode bef) { bro = (s.inode now).bro })))
    else del_loop fuel father del now (s.inode now).bro s

unfoldable pub del_from_father : ℕ → ℕ → Store → Run Store
unfolding del_loop
del_from_father father del s = elim (s.inode father).son [
  | none ↦ ok s
  | some h ↦
      if h == del
      then ok (
          count_out father (set_inode s father (record (s.inode father) { son = (s.inode h).bro })))
      else del_loop s.next_inode father del h (s.inode h).bro s
]
