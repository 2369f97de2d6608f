-- ===== src/Tests/Families.antt =====
-- The properties of the lists of children, at a directory with two of them.
use fuse_node.Prelude.{
  ℕ, ◌+◌, Bool, ◌==◌, ◌≤◌, ◌<◌, ◌^◌, ◌≡◌, ◌≢◌, refl, false, some, pos, [], ◌∷◌, arith,
}
use fuse_node.Outcome.{ok}
use fuse_node.Inode.{Store, set_inode}
use fuse_node.Dir.Path.{slash}
use fuse_node.Dir.Walk.{search_d_hash, lookup_in, Attr, dhmp_fs_getattr, Listed, dhmp_fs_readdir}
use fuse_node.Dir.Children.{IsFamily}
use fuse_node.Dir.Listing.{listing, Handed, dhmp_fs_readdir-IsFamily}
use fuse_node.Dir.Sizes.{dhmp_fs_getattr-file}
use fuse_node.HashMap.{put}
use fuse_node.HashMap.Hash.{default_equal}
use fuse_node.HashMap.Methods.{put-Put, default_get-view, create_hash_map-IsHashMap}
use fuse_node.Tests.{empty_inode, empty_map}
use fuse_node.Tests.Names.{ab, root_store}

-- The root with the children 3 and 4.
abbrev two_children : Store
two_children =
    let s = record root_store { next_inode = 5 } in
    let t = set_inode s 0 (record (s.inode 0) { son = some 3; son_nums = 2 }) in
    set_inode (set_inode t 3 (record empty_inode { filename = ab; bro = some 4 })) 4 empty_inode

two_children-IsFamily : IsFamily two_children 0 0 (3 ∷ 4 ∷ [])
two_children-IsFamily = record {
  chain = (refl, (refl, refl));
  distinct = (refl, (refl, tt));
  count = refl;
}

found_root : search_d_hash two_children (slash ∷ []) ≡ ok (some 0)
unfolding search_d_hash
found_root = refl

-- A buffer that takes one entry.
abbrev take_one : ℕ → Listed → Bool × ℕ
take_one n e = (n == 1, n + 1)

dhmp_fs_readdir-IsFamily_example :
    (out : ℕ) × (dhmp_fs_readdir two_children (slash ∷ []) take_one 0 ≡ ok (pos 0, out))
    × Handed take_one (listing two_children (3 ∷ 4 ∷ [])) 0 out
dhmp_fs_readdir-IsFamily_example =
    dhmp_fs_readdir-IsFamily two_children (slash ∷ []) 0 0 (3 ∷ 4 ∷ []) take_one 0 found_root refl
      two_children-IsFamily (omega arith)

-- The root with the file 3, which is named in the table and holds 5000 bytes.
abbrev with_file : Store
with_file =
    let s =
      set_inode root_store 0 (record (root_store.inode 0) { d_hash = some (put empty_map ab 3) }) in
    set_inode s 3 (record empty_inode { filename = ab; size = 5000 })

found_file : search_d_hash with_file (slash ∷ ab) ≡ ok (some 3)
unfolding search_d_hash lookup_in default_equal
found_file =
    rw
      (
        default_get-view (put empty_map ab 3) ab,
        (put-Put empty_map ab 3 create_hash_map-IsHashMap.0).reads ab,
      )
      refl

dhmp_fs_getattr-file_example :
    (a : Attr) × (dhmp_fs_getattr with_file (slash ∷ ab) ≡ ok (some a))
    × (a.time_last_modified ≡ 0)
    × (a.is_directories ≡ false)
    × (5000 < 2 ^ 31 → a.size ≡ 5000)
    × (2 ^ 31 ≤ 5000 → a.size ≢ 5000)
dhmp_fs_getattr-file_example =
    dhmp_fs_getattr-file with_file (slash ∷ ab) 3 refl found_file refl (omega arith)
