-- ===== src/Dir/Create.antt =====
-- `dhmpMknod` and `dhmpCreateDirectory` of src/dhmp_fs_dir_ops.c with their FUSE callbacks.
-- `time` is the value of `time(NULL)`, for an inode that `malloc_inode` makes.
use fuse_node.Prelude.{
  ℕ, true, not, none, some, length, ◌==◌, if◌then◌else◌, ℤ, pos, negsuc, is_negative,
}
use fuse_node.Outcome.{Run, ok, fault, ◌>>=◌, of_option}
use fuse_node.HashMap.Hash.{Name}
use fuse_node.HashMap.{create_hash_map, default_get, put}
use fuse_node.Inode.{Store, set_inode}
use fuse_node.Inode.Slab.{get_free_inode}
use fuse_node.Dir.Path.{deal, deal_fits}
use fuse_node.Dir.Walk.{search_d_hash}
use fuse_node.Dir.Links.{add_to_father}

-- `father->d_hash->put(father->d_hash, now->filename, now)`. The key is the string that the name
-- holds now: a name changes only after its entry is removed, or with the whole table.
unfoldable pub put_entry : ℕ → ℕ → Store → Run Store
put_entry father now s = of_option (s.inode father).d_hash >>= λ m. ok (
    set_inode s father
      (record (s.inode father) { d_hash = some (put m (s.inode now).filename now) }))

-- `dhmpMknod` once the parent is found: the table comes before the list of children. `strcpy` copies
-- the name from a buffer of the same size, so it fits.
unfoldable pub mknod_in : ℕ → Name → ℕ → Store → Run (ℤ × Store)
unfolding put_entry
mknod_in time filename father s = of_option (s.inode father).d_hash >>= λ m.
    elim (default_get m filename) [
      | some n ↦ ok (negsuc 0, s)
      | none ↦
          let r = get_free_inode time s in
          let now = r.0 in
          let t = set_inode r.1 now (record (r.1.inode now) { filename = filename }) in
          put_entry father now t >>= λ u. ok (pos 1, add_to_father father now u)
    ]

-- A missing parent is a fault: the error message reads its name. So is a path that `deal` copies past
-- the end of its buffer.
unfoldable pub dhmp_mknod : ℕ → Name → Store → Run (ℤ × Store)
unfolding mknod_in
dhmp_mknod time path s =
    let names = deal path in
    if length path == 1
    then ok (pos 0, s)
    else if not (deal_fits path)
    then fault
    else search_d_hash s names.0 >>= λ father. elim father [
      | none ↦ fault
      | some h ↦ mknod_in time names.1 h s
    ]

-- `dhmpCreateDirectory` once the parent is found: the list of children comes before the table. The
-- name fits here too.
unfoldable pub mkdir_in : ℕ → Name → ℕ → Store → Run (ℤ × Store)
unfolding put_entry
mkdir_in time filename father s =
    if not (s.inode father).is_directories
    then ok (negsuc 0, s)
    else of_option (s.inode father).d_hash >>= λ m. elim (default_get m filename) [
      | some n ↦ ok (negsuc 0, s)
      | none ↦
          let r = get_free_inode time s in
          let now = r.0 in
          let dir = record (r.1.inode now) {
            is_directories = true;
            d_hash = some (create_hash_map none);
            filename = filename;
          } in
          put_entry father now (add_to_father father now (set_inode r.1 now dir)) >>= λ u.
          ok (pos 1, u)
    ]

unfoldable pub dhmp_create_directory : ℕ → Name → Store → Run (ℤ × Store)
unfolding mkdir_in
dhmp_create_directory time path s =
    let names = deal path in
    if length path == 1
    then ok (pos 0, s)
    else if not (deal_fits path)
    then fault
    else search_d_hash s names.0 >>= λ father. elim father [
      | none ↦ ok (negsuc 0, s)
      | some h ↦ mkdir_in time names.1 h s
    ]

-- What the callbacks return for a result: `bad` if it is negative, else 0.
abbrev pub or_zero : ℤ → ℤ → ℤ
or_zero bad res = if is_negative res then bad else pos 0

unfoldable pub dhmp_fs_mknod : ℕ → Name → Store → Run (ℤ × Store)
unfolding dhmp_mknod
dhmp_fs_mknod time path s = dhmp_mknod time path s >>= λ r. ok (or_zero (negsuc 0) r.0, r.1)

unfoldable pub dhmp_fs_mkdir : ℕ → Name → Store → Run (ℤ × Store)
unfolding dhmp_create_directory
dhmp_fs_mkdir time path s =
    dhmp_create_directory time path s >>= λ r. ok (or_zero (negsuc 0) r.0, r.1)
