-- ===== src/Tests/Names.antt =====
-- The properties of the directory table, at concrete tables and names.
use fuse_node.Prelude.{◌≡◌, [], ◌∷◌, ◌++◌, refl, arith, true, some}
use fuse_node.HashMap.Hash.{Name}
use fuse_node.HashMap.{create_hash_map, default_put, default_remove, reset_hash_map}
use fuse_node.HashMap.Resize.{Reset, reset_hash_map-Reset}
use fuse_node.HashMap.Methods.{
  Put, Removed, create_hash_map-IsHashMap, default_put-Put, default_remove-Removed,
}
use fuse_node.Outcome.{◌>>=◌}
use fuse_node.Dir.Path.{slash, deal}
use fuse_node.Dir.Split.{IsName}
use fuse_node.Dir.Walk.{search_d_hash, lookup_in, or_null}
use fuse_node.Dir.Lookup.{search_d_hash-deal}
use fuse_node.Inode.{Store, set_inode}
use fuse_node.Tests.{empty_map, empty_store, empty_inode}

-- "ab"
abbrev pub ab : Name
ab = 97 ∷ 98 ∷ []

default_put-Put_example : Put empty_map ab 3 (default_put 2 empty_map ab 3)
default_put-Put_example = default_put-Put 0 empty_map ab 3 create_hash_map-IsHashMap.0

default_remove-Removed_example :
    Removed (default_put 2 empty_map ab 3) ab (default_remove (default_put 2 empty_map ab 3) ab)
default_remove-Removed_example =
    default_remove-Removed (default_put 2 empty_map ab 3) ab
      (default_put-Put 0 empty_map ab 3 create_hash_map-IsHashMap.0).good

reset_hash_map-Reset_example : Reset empty_map 100 (reset_hash_map (default_put 2) empty_map 100)
unfolding create_hash_map
reset_hash_map-Reset_example =
    reset_hash_map-Reset 1 empty_map 100 create_hash_map-IsHashMap.0.valid (omega arith)
      (omega arith)

pub ab-IsName : IsName ab
ab-IsName = record { plain = refl; some_letter = refl; fits = refl }

search_d_hash-deal_example : search_d_hash empty_store (slash ∷ ab ++ slash ∷ ab) ≡ (
    search_d_hash empty_store (deal (slash ∷ ab ++ slash ∷ ab)).0
    >>= or_null (lookup_in empty_store (deal (slash ∷ ab ++ slash ∷ ab)).1))
search_d_hash-deal_example = search_d_hash-deal empty_store (slash ∷ ab) ab ab-IsName

-- The store with an empty root directory.
abbrev pub root_store : Store
root_store =
    set_inode empty_store 0 (record empty_inode { is_directories = true; d_hash = some empty_map })
