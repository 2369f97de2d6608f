-- ===== src/Dir/Rename.antt =====
-- `dhmp_fs_rename` of src/dhmp_fs_dir_ops.c.
use fuse_node.Prelude.{not, none, some, if◌then◌else◌, ℤ, pos, negsuc}
use fuse_node.Outcome.{Run, ok, fault, ◌>>=◌, of_option}
use fuse_node.HashMap.Hash.{Name}
use fuse_node.HashMap.{default_get, default_remove}
use fuse_node.Inode.{Store, set_inode}
use fuse_node.Dir.Path.{deal, deal_fits}
use fuse_node.Dir.Walk.{search_d_hash}
use fuse_node.Dir.Create.{put_entry}

-- The entry gets the last name of the target path, in the directory that it was in: the directory of
-- the target is split off and not used. A missing source directory is a fault, and so is a path that
-- does not fit into the buffers.
unfoldable pub dhmp_fs_rename : Name → Name → Store → Run (ℤ × Store)
dhmp_fs_rename source target s =
    let names = deal source in
    if not (deal_fits source)
    then fault
    else search_d_hash s names.0 >>= λ o. of_option o >>= λ father.
        of_option (s.inode father).d_hash >>= λ m. elim (default_get m names.1) [
          | none ↦ ok (negsuc 16, s)
          | some head ↦
              let t =
                set_inode s father
                  (record (s.inode father) { d_hash = some (default_remove m names.1).1 }) in
              let u = set_inode t head (record (t.inode head) { filename = (deal target).1 }) in
              if deal_fits target then (put_entry father head u >>= λ v. ok (pos 0, v)) else fault
        ]
