-- ===== src/HashMap/Methods.antt =====
-- The methods of src/dhmp_fs_hashmap.c over the finite map of names that a table stands for.
use fuse_node.Prelude.{
  ℕ, suc, ◌+◌, ◌-◌, ◌*◌, ◌/◌, ◌≤◌, ◌<◌, ◌≡◌, refl, ◌∙◌, true, ◌&&◌, Option, none, some, [], length,
  arith, if◌then◌else◌, Bool-cases, Option-cases, inl, inr, ltb, leb, ltb→le, ltb→lt, List-cases,
  ◌≢◌,
}
use fuse_node.Config.{default_map_size}
use fuse_node.HashMap.Hash.{Name, default_equal, default_equal_sound}
use fuse_node.HashMap.Chain.{
  Bucket, added, unlink, exists-find, overwrite, count-overwrite-none, find-unlink, count-unlink-le,
  length-unlink, find-unlink-none, find-unlink-some,
}
use fuse_node.HashMap.Table.{
  IsValid, view, home, home-lt, length-entries-set, replaced-IsValid, view-replaced,
}
use fuse_node.HashMap.Resize.{
  Stored, insert-Stored, overwrite-Stored, reset_hash_map-Reset, reset_hash_map_small,
  fresh-IsValid, fresh-view, grow_small, grow_large,
}
use fuse_node.HashMap.{
  HashMap, create_hash_map, bucket_of, with_bucket, default_get, grow, default_put, put,
  default_remove, shrink,
}

module _ {V : Type 0} where
  -- A table as `createHashMap` makes it and `put` and `remove` keep it.
  pub record IsHashMap (m : HashMap V) : Type 0 where
    pub valid : IsValid m
    pub wide : default_map_size ≤ m.list_size
    pub loaded : m.size < m.list_size
    pub resizes : m.change_size ≡ true

  -- A new table of at least fifty buckets satisfies the invariant and is empty.
  pub create_hash_map-IsHashMap :
      IsHashMap (create_hash_map {V = V} none)
      × ((q : Name) → view (create_hash_map {V = V} none) q ≡ none)
  unfolding create_hash_map
  create_hash_map-IsHashMap = (
    record {
      valid = fresh-IsValid true default_map_size (omega arith);
      wide = omega arith;
      loaded = omega arith;
      resizes = refl;
    },
    fresh-view true default_map_size,
  )

  -- `get` reads the abstract map: its call of `exists` first changes nothing.
  pub default_get-view : (m : HashMap V) (k : Name) → default_get m k ≡ view m k
  unfolding default_get
  default_get-view m k = ground (arith, exists-find k (bucket_of m k))

  -- A write of `v` at `k`: the invariant, the number of entries, and every lookup.
  pub record Put (m : HashMap V) (k : Name) (v : V) (r : HashMap V) : Type 0 where
    pub good : IsHashMap r
    pub size : r.size ≡ m.size + added (view m k)
    pub reads : (q : Name) → view r q ≡ (if default_equal k q then some v else view m q)

  added-le : (o : Option V) → added o ≤ 1
  added-le none = omega arith
  added-le (some v) = omega arith

  grow-Put :
      (depth : ℕ) (m s : HashMap V) (k : Name) (v : V)
      → IsHashMap m
      → Stored m k v s
      → Put m k v (grow (default_put (suc depth)) s)
  grow-Put depth m s k v ok t = elim (Bool-cases (leb s.list_size s.size)) [
    | inl full ↦
        let r =
          reset_hash_map-Reset depth s (s.list_size * 2) t.valid (omega (arith, t.width, ok.wide))
            (omega (arith, t.size, t.width, ok.loaded, added-le (view m k), ok.wide)) in
        rw (grow_large (default_put (suc depth)) s (ground arith) (t.resizes ∙ ok.resizes)) record {
          good = record {
            valid = r.valid;
            wide = omega (arith, r.width, t.width, ok.wide);
            loaded =
                omega (
                  arith,
                  r.size,
                  r.width,
                  t.size,
                  t.width,
                  ok.loaded,
                  added-le (view m k),
                  ok.wide,
                );
            resizes = r.resizes ∙ t.resizes ∙ ok.resizes;
          };
          size = r.size ∙ t.size;
          reads = λ q. r.reads q ∙ t.reads q;
        }
    | inr small ↦ rw (grow_small (default_put (suc depth)) s (ground arith)) record {
      good = record {
        valid = t.valid;
        wide = omega (arith, t.width, ok.wide);
        loaded = ground arith;
        resizes = t.resizes ∙ ok.resizes;
      };
      size = t.size;
      reads = t.reads;
    }
  ]

  -- `defaultPut` keeps the invariant, counts a new key and no other, and makes the key and no other
  -- read as the new value, through a resize too; every recursion depth above one gives this, so
  -- the recursion through `resetHashMap` ends.
  pub default_put-Put :
      (depth : ℕ) (m : HashMap V) (k : Name) (v : V)
      → IsHashMap m
      → Put m k v (default_put (suc (suc depth)) m k v)
  unfolding default_put
  default_put-Put depth m k v ok = elim (Option-cases (overwrite k v (bucket_of m k))) [
    | inl e ↦
        let b : Bucket V = bucket_of m k in
        let s = insert-Stored m k v ok.valid (count-overwrite-none k v b e) in
        rw (e, default_put) (grow-Put depth m _ k v ok s)
    | inr (c, e) ↦
        let s = overwrite-Stored m k v ok.valid c e in
        rw (e, default_put)
          record {
            good = record {
              valid = s.valid;
              wide = ok.wide;
              loaded = ok.loaded;
              resizes = ok.resizes;
            };
            size = s.size;
            reads = s.reads;
          }
  ]

  pub put-Put : (m : HashMap V) (k : Name) (v : V) → IsHashMap m → Put m k v (put m k v)
  unfolding put
  put-Put m k v ok = default_put-Put 0 m k v ok

  -- A removal of `k`: the invariant, the number of entries, every lookup, and when the returned key
  -- is NULL.
  pub record Removed (m : HashMap V) (k : Name) (r : Option Name × HashMap V) : Type 0 where
    pub good : IsHashMap r.1
    pub size : r.1.size + 1 ≡ m.size + added (view m k)
    pub reads : (q : Name) → view r.1 q ≡ (if default_equal k q then none else view m q)
    pub null : r.0 ≡ none → view m k ≡ none

  -- The shrinking resize keeps the table: it goes to more buckets than entries, or does nothing.
  shrink-Reset :
      (m : HashMap V)
      → IsHashMap m
      → IsHashMap (shrink m)
        × ((shrink m).size ≡ m.size)
        × ((q : Name) → view (shrink m) q ≡ view m q)
  unfolding shrink put
  shrink-Reset m ok = elim (Bool-cases (ltb m.size (m.list_size / 2) && m.change_size)) [
    | inr stay ↦ rw stay (ok, refl, λ q. refl)
    | inl go ↦ elim (Bool-cases (ltb (m.list_size / 2) default_map_size)) [
      | inl small ↦
          rw (go, reset_hash_map_small (default_put 2) m (m.list_size / 2) (ltb→lt _ _ small))
            (ok, refl, λ q. refl)
      | inr wide ↦
          let r =
            reset_hash_map-Reset 1 m (m.list_size / 2) ok.valid (ltb→le _ _ wide) (ground arith) in
          rw go (
            record {
              valid = r.valid;
              wide = ground (arith, r.width);
              loaded = ground (arith, r.width, r.size);
              resizes = r.resizes ∙ ok.resizes;
            },
            r.size,
            r.reads,
          )
    ]
  ]

  remove_absent :
      (m : HashMap V) (k : Name) → unlink k (bucket_of m k) ≡ none → (default_remove m k).1 ≡ m
  unfolding default_remove
  remove_absent m k e = elim (List-cases (bucket_of m k)) [
    | inl empty ↦ ground (arith, empty)
    | inr (h, t, full) ↦ ground (arith, full, e)
  ]

  remove_found :
      (m : HashMap V) (k : Name) (b : Bucket V)
      → unlink k (bucket_of m k) ≡ some b
      → ((default_remove m k).0 ≢ none)
        × ((default_remove m k).1 ≡ shrink (with_bucket m k b (m.size - 1)))
  unfolding default_remove unlink
  remove_found m k b e = elim (List-cases (bucket_of m k)) [
    | inl empty ↦ ground (arith, empty, e)
    | inr (h, t, full) ↦ ground (arith, full, e)
  ]

  unlinked-IsHashMap :
      (m : HashMap V) (k : Name) (b : Bucket V)
      → IsHashMap m
      → unlink k (bucket_of m k) ≡ some b
      → IsHashMap (with_bucket m k b (m.size - 1))
        × (m.size - 1 + 1 ≡ m.size)
        × ((q : Name)
            → view (with_bucket m k b (m.size - 1)) q
              ≡ (if default_equal k q then none else view m q))
  unlinked-IsHashMap m k b ok e =
      let shorter = length-unlink k (bucket_of m k) b e in
      let lt : home m k < length m.hash_list = home-lt m k [] 0 ok.valid in
      let some_entry : 0 < m.size =
        omega (arith, ok.valid.counted, length-entries-set m.hash_list (home m k) [] lt) in
      (
        record {
          valid =
              replaced-IsValid m k b (m.size - 1) ok.valid
                (λ q. ground (
                  arith,
                  count-unlink-le k q (bucket_of m k) b,
                  ok.valid.placed q (home m k),
                  default_equal_sound k q,
                ))
                (omega arith);
          wide = ok.wide;
          loaded = omega arith;
          resizes = ok.resizes;
        },
        omega arith,
        view-replaced m k b (m.size - 1) ok.valid none (λ q.
            find-unlink k q (bucket_of m k) b (ground (arith, ok.valid.placed q (home m k))) e),
      )

  -- `defaultRemove` keeps the invariant, counts one entry less exactly if the key was there, makes
  -- the key and no other read as absent, and returns NULL only if the key was absent.
  pub default_remove-Removed :
      (m : HashMap V) (k : Name) → IsHashMap m → Removed m k (default_remove m k)
  default_remove-Removed m k ok = elim (Option-cases (unlink k (bucket_of m k))) [
    | inl e ↦
        let absent = find-unlink-none k (bucket_of m k) e in
        let same = remove_absent m k e in
        record {
          good = rw same ok;
          size = rw (same, absent) refl;
          reads = λ q. rw same (ground (arith, absent, default_equal_sound k q));
          null = λ _. absent;
        }
    | inr (b, e) ↦
        let (some_key, result) = remove_found m k b e in
        let (good, size, reads) = unlinked-IsHashMap m k b ok e in
        let (good', size', reads') = shrink-Reset (with_bucket m k b (m.size - 1)) good in
        record {
          good = rw result good';
          size = rw result (omega (arith, size', size, find-unlink-some k (bucket_of m k) b e));
          reads = λ q. rw result (reads' q ∙ reads q);
          null = λ h. absurd (some_key h);
        }
  ]
