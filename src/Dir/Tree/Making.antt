-- ===== src/Dir/Tree/Making.antt =====
-- The stores that `dhmpMknod` and `dhmpCreateDirectory` of src/dhmp_fs_dir_ops.c make.
use fuse_node.Prelude.{ℕ, ◌≡◌, ◌≢◌, inl, inr, refl, true, none, some, [], arith, pos, false}
use fuse_node.Outcome.{ok, ◌>>=◌, of_option}
use fuse_node.HashMap.{HashMap, create_hash_map, default_get, put}
use fuse_node.HashMap.Hash.{Name}
use fuse_node.HashMap.Methods.{create_hash_map-IsHashMap}
use fuse_node.Inode.{Store, set_inode}
use fuse_node.Inode.Slab.{get_free_inode}
use fuse_node.Dir.Links.{add_to_father}
use fuse_node.Dir.Create.{put_entry, mknod_in, mkdir_in}
use fuse_node.Dir.Tree.{Forest, Node}
use fuse_node.Index.Same.{SameIndex}
use fuse_node.Dir.Tree.Fresh.{Got}
use fuse_node.Dir.Tree.Growing.{Added}

module _ (time : ℕ) (filename : Name) (h : ℕ) (m : HashMap ℕ) (s : Store) (f : Forest)
    (got : Got s f (get_free_inode time s).0 (get_free_inode time s).1)
    (ne : (get_free_inode time s).0 ≢ h) where
  abbrev pub now : ℕ
  now = (get_free_inode time s).0

  abbrev pub s1 : Store
  s1 = (get_free_inode time s).1

  abbrev pub file : Store
  file = set_inode s1 now (record (s1.inode now) { filename = filename })

  abbrev pub made : Store
  made =
      add_to_father h now
        (set_inode file h (record (file.inode h) { d_hash = some (put m filename now) }))

  pub mknod_run :
      (s.inode h).d_hash ≡ some m
      → default_get m filename ≡ none
      → mknod_in time filename h s ≡ ok (pos 1, made)
  unfolding mknod_in put_entry
  mknod_run e free =
      let e' : (file.inode h).d_hash ≡ some m = ground (arith, ne, got.others h ne, e) in
      let name : (file.inode now).filename ≡ filename = ground arith in
      rw (e, free, e', name, ◌>>=◌, of_option) refl

  pub made-Added : Added s h now m filename made
  unfolding add_to_father
  made-Added = record {
    father = ground (arith, ne, got.others h ne);
    others = λ g a b. ground (arith, a, b, got.others g b);
    bro = ground (arith, ne, got.others h ne);
    named = ground (arith, ne);
    child = inr record {
      flag = ground (arith, ne, got.flag);
      son = ground (arith, ne, got.son);
      d_hash = ground (arith, ne, got.d_hash);
      children = refl;
    };
  }

  pub made_flag : (made.inode now).is_directories ≡ false
  unfolding add_to_father
  made_flag = ground (arith, ne, got.flag)

  pub made-SameIndex : (g : ℕ) → SameIndex s1 made g
  unfolding add_to_father
  made-SameIndex g = record {
    addr = ground arith;
    contexts = ground arith;
    in1addr = ground arith;
    in2addr = ground arith;
    in3addr = ground arith;
  }

  pub made_rest :
      (made.chunks ≡ s1.chunks)
      × (made.which ≡ s1.which)
      × (made.free_inode_slab ≡ s1.free_inode_slab)
      × (made.next_inode ≡ s1.next_inode)
  unfolding add_to_father
  made_rest = (refl, refl, refl, refl)

  -- The store of `dhmpCreateDirectory` before the new inode is in the table.
  abbrev directory : Store
  directory = add_to_father h now (
      set_inode s1 now (record (s1.inode now) {
        is_directories = true;
        d_hash = some (create_hash_map none);
        filename = filename;
      }))

  abbrev pub made_dir : Store
  made_dir =
      set_inode directory h (record (directory.inode h) { d_hash = some (put m filename now) })

  pub mkdir_run :
      (s.inode h).is_directories ≡ true
      → (s.inode h).d_hash ≡ some m
      → default_get m filename ≡ none
      → mkdir_in time filename h s ≡ ok (pos 1, made_dir)
  unfolding mkdir_in put_entry add_to_father
  mkdir_run flag e free =
      let e' : (directory.inode h).d_hash ≡ some m = ground (arith, ne, got.others h ne, e) in
      let name : (directory.inode now).filename ≡ filename = ground (arith, ne) in
      rw (flag, e, free, e', name, ◌>>=◌, of_option) refl

  -- The new directory is empty. Its count is the one that the inode had.
  empty_directory : Node made_dir now []
  unfolding add_to_father
  empty_directory = inl record {
    stale = (s1.inode now).son_nums;
    table = create_hash_map none;
    flag = ground (arith, ne);
    family = record {
      chain = ground (arith, ne, got.son);
      distinct = tt;
      count = ground (arith, ne);
    };
    d_hash = ground (arith, ne);
    good = create_hash_map-IsHashMap.0;
    named = λ c on. ground (arith, on);
    listed = λ q c k. absurd (ground (arith, k, (create_hash_map-IsHashMap {V = ℕ}).1 q));
  }

  pub made_dir-Added : Added s h now m filename made_dir
  unfolding add_to_father
  made_dir-Added = record {
    father = ground (arith, ne, got.others h ne);
    others = λ g a b. ground (arith, a, b, got.others g b);
    bro = ground (arith, ne, got.others h ne);
    named = ground (arith, ne);
    child = empty_directory;
  }

  pub made_dir_flag : (made_dir.inode now).is_directories ≡ true
  unfolding add_to_father
  made_dir_flag = ground (arith, ne)

  pub made_dir-SameIndex : (g : ℕ) → SameIndex s1 made_dir g
  unfolding add_to_father
  made_dir-SameIndex g = record {
    addr = ground arith;
    contexts = ground arith;
    in1addr = ground arith;
    in2addr = ground arith;
    in3addr = ground arith;
  }

  pub made_dir_rest :
      (made_dir.chunks ≡ s1.chunks)
      × (made_dir.which ≡ s1.which)
      × (made_dir.free_inode_slab ≡ s1.free_inode_slab)
      × (made_dir.next_inode ≡ s1.next_inode)
  unfolding add_to_father
  made_dir_rest = (refl, refl, refl, refl)
