-- ===== src/Tests/Trees.antt =====
-- The properties of the tree of files, at the first store and at one with a file below the root.
use fuse_node.Prelude.{
  ℕ, ◌≡◌, ◌≢◌, ◌↔◌, refl, ◌∙◌, true, false, some, none, pos, [], ◌∷◌, if◌then◌else◌,
}
use fuse_node.Outcome.{ok}
use fuse_node.HashMap.Hash.{Name, default_equal}
use fuse_node.Inode.{Store}
use fuse_node.Inode.Slab.{init_store, get_free_inode}
use fuse_node.Io.{Fs}
use fuse_node.Dir.Path.{slash, deal}
use fuse_node.Dir.Walk.{root, search_d_hash, lookup_in}
use fuse_node.Dir.Create.{dhmp_fs_mknod, dhmp_fs_mkdir}
use fuse_node.Dir.Delete.{dhmp_fs_unlink}
use fuse_node.Dir.Rename.{dhmp_fs_rename}
use fuse_node.Dir.Tree.{Forest, nil, node}
use fuse_node.Dir.Tree.Edit.{here}
use fuse_node.Dir.Tree.System.{IsTree, Elsewhere}
use fuse_node.Dir.Tree.Dropped.{drop_root}
use fuse_node.Dir.Tree.Emptied.{held}
use fuse_node.Dir.Tree.Shrinking.{deleted}
use fuse_node.Dir.Tree.Start.{init_store-IsTree, init_store-lookup_in}
use fuse_node.Dir.Tree.Creation.{Found, dhmp_fs_mknod-IsTree, dhmp_fs_mkdir-IsTree}
use fuse_node.Dir.Tree.Deletion.{Lost, dhmp_fs_unlink-IsTree}
use fuse_node.Dir.Tree.Renaming.{dhmp_fs_rename-IsTree}
use fuse_node.Index.Claim.{contains}
use fuse_node.Dir.Tree.Follows.{search_d_hash-joined}
use fuse_node.Dir.Tree.NewPaths.{dhmp_fs_mknod-search_d_hash, dhmp_fs_mkdir-search_d_hash}
use fuse_node.Dir.Tree.LostPaths.{dhmp_fs_unlink-search_d_hash}
use fuse_node.Dir.Split.{IsName}
use fuse_node.Dir.Tree.MovedPaths.{dhmp_fs_rename-search_d_hash}
use fuse_node.Dir.Tree.Session.{Calls, first, then_call, mknod, Calls-IsTree}
use fuse_node.Tests.{Memory, tested, cached}
use fuse_node.Tests.Names.{ab, ab-IsName}

-- "c"
abbrev other_name : Name
other_name = 99 ∷ []

abbrev path : Name
path = slash ∷ ab

abbrev start : Store
start = init_store 7

abbrev now : ℕ
now = (get_free_inode 9 start).0

-- The root with the file "ab".
abbrev one_file : Forest
one_file = node root (node now nil nil) nil

start_flag : (start.inode root).is_directories ≡ true
start_flag = (init_store-IsTree 7).root_flag

root_found : (s : Store) → search_d_hash s (deal path).0 ≡ ok (some root)
unfolding search_d_hash deal
root_found s = refl

making :
    (t : Store) × (dhmp_fs_mknod 9 path start ≡ ok (pos 0, t))
    × IsTree t one_file
    × ((t.inode now).is_directories ≡ false)
    × Found start root (deal path).1 now t
    × Elsewhere start (node root nil nil) root t
making =
    dhmp_fs_mknod-IsTree 9 path start root nil (node root nil nil) one_file (init_store-IsTree 7)
      (here nil) start_flag refl refl (root_found start) (init_store-lookup_in 7 (deal path).1)

dhmp_fs_mknod-IsTree_example :
    (t : Store) × (dhmp_fs_mknod 9 path start ≡ ok (pos 0, t))
    × IsTree t one_file
    × ((t.inode now).is_directories ≡ false)
    × Found start root (deal path).1 now t
    × Elsewhere start (node root nil nil) root t
dhmp_fs_mknod-IsTree_example =
    dhmp_fs_mknod-IsTree 9 path start root nil (node root nil nil) one_file (init_store-IsTree 7)
      (here nil) start_flag refl refl (root_found start) (init_store-lookup_in 7 (deal path).1)

dhmp_fs_mkdir-IsTree_example :
    (t : Store) × (dhmp_fs_mkdir 9 path start ≡ ok (pos 0, t))
    × IsTree t one_file
    × ((t.inode now).is_directories ≡ true)
    × Found start root (deal path).1 now t
    × Elsewhere start (node root nil nil) root t
dhmp_fs_mkdir-IsTree_example =
    dhmp_fs_mkdir-IsTree 9 path start root nil (node root nil nil) one_file (init_store-IsTree 7)
      (here nil) start_flag refl refl (root_found start) (init_store-lookup_in 7 (deal path).1)

abbrev with_file : Store
with_file = making.0

dhmp_fs_unlink-IsTree_example :
    let rest = drop_root now (node now nil nil) in
    (t : Store) × (dhmp_fs_unlink 9 path with_file ≡ ok (pos 0, t))
    × IsTree t (node root rest nil)
    × Lost with_file root (deal path).1 t
    × Elsewhere with_file (node root rest nil) root t
    × ((x : ℕ)
        → t.chunks.bitmap x ≡ (
            if held with_file (deleted now (node now nil nil)) x
            then false
            else with_file.chunks.bitmap x))
dhmp_fs_unlink-IsTree_example =
    dhmp_fs_unlink-IsTree 9 path with_file root now (node now nil nil) one_file
      (node root (drop_root now (node now nil nil)) nil) making.2 (here nil) making.2.root_flag refl
      refl (root_found with_file) making.4.0

abbrev target : Name
target = slash ∷ other_name

target_unused : lookup_in with_file (deal target).1 root ≡ ok none
unfolding deal default_equal
target_unused = making.4.1 other_name refl ∙ init_store-lookup_in 7 other_name

dhmp_fs_rename-IsTree_example :
    (t : Store) × (dhmp_fs_rename path target with_file ≡ ok (pos 0, t))
    × IsTree t one_file
    × (lookup_in t (deal target).1 root ≡ ok (some now))
    × (lookup_in t (deal path).1 root ≡ ok none)
    × ((g : Name)
        → default_equal (deal path).1 g ≡ false
        → default_equal (deal target).1 g ≡ false
        → lookup_in t g root ≡ lookup_in with_file g root)
    × Elsewhere with_file one_file root t
dhmp_fs_rename-IsTree_example =
    dhmp_fs_rename-IsTree path target with_file root now (node now nil nil) one_file making.2
      (here nil) making.2.root_flag (root_found with_file) making.4.0 target_unused refl refl

-- The whole state with the new file.
abbrev after_mknod : Fs Memory
after_mknod = record { store = with_file; disk = cached }

one_call : Calls tested (record { store = start; disk = cached }) after_mknod
one_call = then_call first (mknod 9 path (pos 0) with_file making.1)

Calls-IsTree_example : (f : Forest) × IsTree after_mknod.store f
Calls-IsTree_example = Calls-IsTree tested 7 cached after_mknod one_call

at_root : (s : Store) → search_d_hash s (slash ∷ []) ≡ ok (some root)
unfolding search_d_hash
at_root s = refl

path_unused : search_d_hash start path ≡ ok none
path_unused =
    search_d_hash-joined start [] ab root ab-IsName (at_root start) ∙ init_store-lookup_in 7 ab

path_there : search_d_hash with_file path ≡ ok (some now)
unfolding deal
path_there = search_d_hash-joined with_file [] ab root ab-IsName (at_root with_file) ∙ making.4.0

dhmp_fs_mknod-search_d_hash_example :
    (t : Store) × (dhmp_fs_mknod 9 path start ≡ ok (pos 0, t))
    × (search_d_hash t path ≡ ok (some now))
    × ((t.inode now).is_directories ≡ false)
    × ((q : Name) (c : ℕ) → search_d_hash start q ≡ ok (some c) → search_d_hash t q ≡ ok (some c))
dhmp_fs_mknod-search_d_hash_example =
    dhmp_fs_mknod-search_d_hash 9 [] ab start root (node root nil nil) (init_store-IsTree 7)
      ab-IsName (at_root start) path_unused refl

dhmp_fs_mkdir-search_d_hash_example :
    (t : Store) × (dhmp_fs_mkdir 9 path start ≡ ok (pos 0, t))
    × (search_d_hash t path ≡ ok (some now))
    × ((t.inode now).is_directories ≡ true)
    × ((q : Name) (c : ℕ) → search_d_hash start q ≡ ok (some c) → search_d_hash t q ≡ ok (some c))
dhmp_fs_mkdir-search_d_hash_example =
    dhmp_fs_mkdir-search_d_hash 9 [] ab start root (node root nil nil) (init_store-IsTree 7)
      ab-IsName (at_root start) path_unused refl

dhmp_fs_unlink-search_d_hash_example :
    (t : Store) × (dhmp_fs_unlink 9 path with_file ≡ ok (pos 0, t))
    × ((x : ℕ) → search_d_hash t path ≢ ok (some x))
    × ((q : Name) (x : ℕ)
        → search_d_hash t q ≡ ok (some x)
          ↔ (search_d_hash with_file q ≡ ok (some x))
            × (contains x (deleted now (node now nil nil)) ≡ false))
dhmp_fs_unlink-search_d_hash_example =
    dhmp_fs_unlink-search_d_hash 9 [] ab with_file root now (node now nil nil) one_file
      (node root (drop_root now (node now nil nil)) nil) making.2 (here nil) ab-IsName
      (at_root with_file) path_there refl

other_name-IsName : IsName other_name
other_name-IsName = record { plain = refl; some_letter = refl; fits = refl }

target_absent : search_d_hash with_file target ≡ ok none
unfolding deal
target_absent =
    search_d_hash-joined with_file [] other_name root other_name-IsName (at_root with_file)
    ∙ target_unused

dhmp_fs_rename-search_d_hash_example :
    (t : Store) × (dhmp_fs_rename path target with_file ≡ ok (pos 0, t))
    × (search_d_hash t target ≡ ok (some now))
    × (search_d_hash t path ≡ ok none)
    × ((q : Name) (x : ℕ)
        → search_d_hash with_file q ≡ ok (some x)
        → contains x (deleted now (node now nil nil)) ≡ false
        → search_d_hash t q ≡ ok (some x))
dhmp_fs_rename-search_d_hash_example =
    dhmp_fs_rename-search_d_hash [] ab [] other_name with_file root now (node now nil nil) one_file
      making.2 (here nil) ab-IsName other_name-IsName (at_root with_file) path_there target_absent
      refl refl
