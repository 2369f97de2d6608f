-- ===== src/HashMap/Resize.antt =====
-- `resetHashMap` of src/dhmp_fs_hashmap.c: the entries saved and put into a new array.
use fuse_node.Prelude.{
  ℕ, zero, suc, ◌+◌, ◌*◌, ◌≤◌, ◌<◌, ◌≡◌, ◌≢◌, refl, ap, ◌∙◌, Bool, true, none, some, List, [], ◌∷◌,
  length, get_or, replicate, take, take_all, length-replicate, get_or-replicate, arith,
  if◌then◌else◌, Option-cases, inl, inr, le→ltb,
}
use fuse_node.Config.{default_map_size}
use fuse_node.HashMap.Hash.{Name, default_equal, default_equal_sound, default_equal_refl}
use fuse_node.HashMap.Chain.{
  first, added, find-append, count-append, find-overwrite-some, Bucket, find, count, overwrite,
  insert, find-count, count-overwrite, count-overwrite-none, count-insert, find-overwrite,
  find-insert, length-overwrite, length-insert,
}
use fuse_node.HashMap.Table.{
  IsValid, view, home, replaced-IsValid, view-replaced, entries-replicate,
}
use fuse_node.HashMap.{
  HashMap, bucket_of, entries, refill, reset_hash_map, grow, default_put, with_bucket,
}

module _ {V : Type 0} where
  count-entries_none :
      (q : Name) (bs : List (Bucket V))
      → ((i : ℕ) → count q (get_or bs i []) ≡ 0)
      → count q (entries bs) ≡ 0
  unfolding entries count
  count-entries_none q [] h = refl
  count-entries_none q (b ∷ bs) h =
      omega (arith, count-append q b (entries bs), h 0, count-entries_none q bs (λ i. h (suc i)))

  -- Where only one bucket can hold a key, the saved entries read as that bucket.
  entries_only :
      (q : Name) (bs : List (Bucket V)) (j : ℕ)
      → ((i : ℕ) → i ≢ j → count q (get_or bs i []) ≡ 0)
      → (find q (entries bs) ≡ find q (get_or bs j []))
        × (count q (entries bs) ≡ count q (get_or bs j []))
  unfolding entries
  entries_only q [] j h = (refl, refl)
  entries_only q (b ∷ bs) zero h =
      let rest = count-entries_none q bs (λ i. h (suc i) (omega arith)) in
      (
        rw (find-append q b (entries bs), find-count q (entries bs) rest) (ground arith),
        omega (arith, count-append q b (entries bs)),
      )
  entries_only q (b ∷ bs) (suc j) h =
      let here = h 0 (omega arith) in
      let (found, counted) = entries_only q bs j (λ i ne. h (suc i) (λ e. ne (omega arith))) in
      (
        rw (find-append q b (entries bs), find-count q b here) found,
        omega (arith, count-append q b (entries bs)),
      )

  pub entries-view :
      (m : HashMap V) (q : Name)
      → IsValid m
      → (find q (entries m.hash_list) ≡ view m q) × (count q (entries m.hash_list) ≤ 1)
  entries-view m q ok =
      let (found, counted) =
        entries_only q m.hash_list (home m q) (λ i ne. ground (arith, ok.placed q i)) in
      (found, ground (arith, ok.placed q (home m q)))

  -- What one write of `w` at `k` into `m` leaves behind, before any resize.
  pub record Stored (m : HashMap V) (k : Name) (v : V) (r : HashMap V) : Type 0 where
    pub valid : IsValid r
    pub width : r.list_size ≡ m.list_size
    pub resizes : r.change_size ≡ m.change_size
    pub size : r.size ≡ m.size + added (view m k)
    pub reads : (q : Name) → view r q ≡ (if default_equal k q then some v else view m q)

  module _ (m : HashMap V) (k : Name) (v : V) (ok : IsValid m) where
    pub at_home : count k (bucket_of m k) ≤ 1
    at_home = ground (arith, ok.placed k (home m k))

    pub insert-Stored :
        count k (bucket_of m k) ≡ 0
        → Stored m k v (with_bucket m k (insert k v (bucket_of m k)) (m.size + 1))
    insert-Stored free =
        let b : Bucket V = bucket_of m k in
        record {
          valid =
              replaced-IsValid m k _ (m.size + 1) ok
                (λ q. ground (arith, count-insert k q v b, default_equal_sound k q))
                (omega (arith, length-insert k v b));
          width = refl;
          resizes = refl;
          size = rw (find-count k b free) refl;
          reads = view-replaced m k _ (m.size + 1) ok (some v) (λ q. find-insert k q v b free);
        }

    pub overwrite-Stored :
        (c : Bucket V)
        → overwrite k v (bucket_of m k) ≡ some c
        → Stored m k v (with_bucket m k c m.size)
    overwrite-Stored c e =
        let b : Bucket V = bucket_of m k in
        record {
          valid =
              replaced-IsValid m k c m.size ok
                (λ q. ground (arith, count-overwrite k q v b c, default_equal_sound k q, at_home))
                (omega (arith, length-overwrite k v b c e));
          width = refl;
          resizes = refl;
          size = omega (arith, find-overwrite-some k v b c e);
          reads = view-replaced m k c m.size ok (some v) (λ q. find-overwrite k q v b c e);
        }

  pub grow_small :
      (put : HashMap V → Name → V → HashMap V) (m : HashMap V)
      → m.size < m.list_size
      → grow put m ≡ m
  unfolding grow
  grow_small put m h = ground arith

  pub grow_large :
      (put : HashMap V → Name → V → HashMap V) (m : HashMap V)
      → m.list_size ≤ m.size
      → m.change_size ≡ true
      → grow put m ≡ reset_hash_map put m (m.list_size * 2)
  unfolding grow
  grow_large put m h c = ground arith

  pub reset_hash_map_small :
      (put : HashMap V → Name → V → HashMap V) (m : HashMap V) (n : ℕ)
      → n < default_map_size
      → reset_hash_map put m n ≡ m
  unfolding reset_hash_map
  reset_hash_map_small put m n h = ground arith

  default_put-Stored :
      (depth : ℕ) (m : HashMap V) (k : Name) (v : V)
      → IsValid m
      → m.size + 1 < m.list_size
      → Stored m k v (default_put (suc depth) m k v)
  unfolding default_put
  default_put-Stored depth m k v ok room = elim (Option-cases (overwrite k v (bucket_of m k))) [
    | inl e ↦
        rw (e, default_put)
          (rw (grow_small _ (with_bucket m k (insert k v (bucket_of m k)) (m.size + 1)) room)
            (insert-Stored m k v ok (count-overwrite-none k v (bucket_of m k) e)))
    | inr (c, e) ↦ rw (e, default_put) (overwrite-Stored m k v ok c e)
  ]

  -- What putting the entries `es` into `m` leaves behind.
  record Filled (m : HashMap V) (es : Bucket V) (r : HashMap V) : Type 0 where
    valid : IsValid r
    width : r.list_size ≡ m.list_size
    resizes : r.change_size ≡ m.change_size
    size : r.size ≡ m.size + length es
    reads : (q : Name) → view r q ≡ first (find q es) (view m q)

  refill-Filled :
      (depth : ℕ) (es : Bucket V) (m : HashMap V)
      → IsValid m
      → m.size + length es < m.list_size
      → ((q : Name) → count q es ≤ 1)
      → ((q : Name) → 0 < count q es → view m q ≡ none)
      → Filled m es (refill (default_put (suc depth)) es m)
  unfolding refill find count
  refill-Filled depth [] m ok room once apart = record {
    valid = ok;
    width = refl;
    resizes = refl;
    size = omega arith;
    reads = λ q. refl;
  }
  refill-Filled depth ((k, v) ∷ es) m ok room once apart =
      let s = default_put-Stored depth m k v ok (omega arith) in
      let free : added (view m k) ≡ 1 = rw (apart k (rw default_equal_refl (omega arith))) refl in
      let t =
        refill-Filled depth es (default_put (suc depth) m k v) s.valid
          (omega (arith, s.size, s.width, free)) (λ q. omega (arith, once q))
          (λ q h. ground (arith, s.reads q, once q, apart q)) in
      record {
        valid = t.valid;
        width = t.width ∙ s.width;
        resizes = t.resizes ∙ s.resizes;
        size = omega (arith, t.size, s.size, free);
        reads = λ q. ground (arith, t.reads q, s.reads q, once q, find-count q es);
      }

  abbrev pub fresh : Bool → ℕ → HashMap V
  fresh c n = record { size = 0; list_size = n; change_size = c; hash_list = replicate n [] }

  pub fresh-view : (c : Bool) (n : ℕ) (q : Name) → view (fresh c n) q ≡ none
  unfolding find
  fresh-view c n q = rw get_or-replicate refl

  pub fresh-IsValid : (c : Bool) (n : ℕ) → 0 < n → IsValid (fresh c n)
  unfolding count
  fresh-IsValid c n h = record {
    buckets = length-replicate n [];
    some_bucket = h;
    counted = ap length (entries-replicate V n);
    placed = λ q i. rw get_or-replicate (omega arith);
  }

  -- What a resize to `n` buckets leaves behind.
  pub record Reset (m : HashMap V) (n : ℕ) (r : HashMap V) : Type 0 where
    pub valid : IsValid r
    pub width : r.list_size ≡ n
    pub resizes : r.change_size ≡ m.change_size
    pub size : r.size ≡ m.size
    pub reads : (q : Name) → view r q ≡ view m q

  -- `resetHashMap` to more buckets than entries keeps every entry, and its `put` never resizes, so
  -- any depth above zero does.
  pub reset_hash_map-Reset :
      (depth : ℕ) (m : HashMap V) (n : ℕ)
      → IsValid m
      → default_map_size ≤ n
      → m.size < n
      → Reset m n (reset_hash_map (default_put (suc depth)) m n)
  unfolding reset_hash_map
  reset_hash_map-Reset depth m n ok wide room =
      let es = entries m.hash_list in
      let whole : take m.size es ≡ es = take_all m.size es (omega (arith, ok.counted)) in
      let t =
        refill-Filled depth es (fresh m.change_size n) (fresh-IsValid m.change_size n (omega arith))
          (omega (arith, ok.counted)) (λ q. (entries-view m q ok).1)
          (λ q _. fresh-view m.change_size n q) in
      rw (le→ltb n default_map_size wide, whole)
        record {
          valid = t.valid;
          width = t.width;
          resizes = t.resizes;
          size = omega (arith, t.size, ok.counted);
          reads = λ q. ground (arith, t.reads q, fresh-view m.change_size n q, entries-view m q ok);
        }
