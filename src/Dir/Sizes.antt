-- ===== src/Dir/Sizes.antt =====
-- The size that `dhmp_fs_getattr` reports, through the `int` field of `struct attr`.
use fuse_node.Prelude.{ℕ, ◌^◌, ◌≤◌, ◌<◌, ◌≡◌, ◌≢◌, refl, sym, ◌∙◌, false, some, length, ◌==◌, arith}
use fuse_node.Outcome.{ok, ◌>>=◌}
use fuse_node.HashMap.Hash.{Name}
use fuse_node.Inode.{Store}
use fuse_node.Dir.Walk.{search_d_hash, Attr, int_size, dhmp_fs_getattr}
use fuse_node.Dir.Listing.{search_walk}

small_size : (n : ℕ) → n < 2 ^ 31 → int_size n ≡ n
small_size n lt = ground arith

large_size : (n : ℕ) → 2 ^ 31 ≤ n → n < 2 ^ 63 → int_size n ≢ n
large_size n le lt e = ground (arith, e)

-- The attributes of a file that a path other than the root leads to: its time, and its size exactly if
-- that is below 2^31. A larger size, below the 2^63 that offsets allow, is reported wrongly.
pub dhmp_fs_getattr-file :
    (s : Store) (path : Name) (h : ℕ)
    → (length path == 1) ≡ false
    → search_d_hash s path ≡ ok (some h)
    → (s.inode h).is_directories ≡ false
    → (s.inode h).size < 2 ^ 63
    → (a : Attr) × (dhmp_fs_getattr s path ≡ ok (some a))
      × (a.time_last_modified ≡ (s.inode h).time_last_modified)
      × (a.is_directories ≡ false)
      × ((s.inode h).size < 2 ^ 31 → a.size ≡ (s.inode h).size)
      × (2 ^ 31 ≤ (s.inode h).size → a.size ≢ (s.inode h).size)
unfolding dhmp_fs_getattr
dhmp_fs_getattr-file s path h long found file small =
    let f = sym (search_walk s path long) ∙ found in
    (
      record {
        size = int_size (s.inode h).size;
        time_last_modified = (s.inode h).time_last_modified;
        is_directories = (s.inode h).is_directories;
      },
      rw long (rw (f, ◌>>=◌) (rw file refl)),
      refl,
      file,
      λ lt. small_size (s.inode h).size lt,
      λ le. large_size (s.inode h).size le small,
    )
