-- ===== src/HashMap/Table.antt =====
-- The bucket array: what replacing one bucket does to lookups and to the number of entries.
use fuse_node.Prelude.{
  ℕ, zero, suc, ◌+◌, ◌≤◌, ◌<◌, ◌≡◌, refl, ◌∙◌, Option, List, [], ◌∷◌, length, get_or, set,
  replicate, length-append, length-set, get_or-set_self, get_or-set_ne, arith, if◌then◌else◌,
  Bool-cases, ==_iff, ◌==◌, inl, inr,
}
use fuse_node.HashMap.Hash.{
  Name, default_equal, default_equal_sound, default_hash_code, default_hash_code-lt,
}
use fuse_node.HashMap.Chain.{Bucket, find, count}
use fuse_node.HashMap.{HashMap, bucket_of, entries}

pub entries-replicate : (V : Type 0) (n : ℕ) → entries {V = V} (replicate n []) ≡ []
unfolding entries
entries-replicate V zero = refl
entries-replicate V (suc n) = entries-replicate V n

module _ {V : Type 0} where
  pub length-entries-set :
      (bs : List (Bucket V)) (i : ℕ) (b : Bucket V)
      → i < length bs
      → length (entries (set bs i b)) + length (get_or bs i []) ≡ length (entries bs) + length b
  unfolding entries
  length-entries-set [] i b h = absurd (omega arith)
  length-entries-set (c ∷ bs) zero b h =
      omega (arith, length-append c (entries bs), length-append b (entries bs))
  length-entries-set (c ∷ bs) (suc i) b h = omega (
    arith,
    length-append c (entries bs),
    length-append c (entries (set bs i b)),
    length-entries-set bs i b,
  )

  -- Every key stands once, in the bucket of its hash code.
  abbrev pub IsPlaced : HashMap V → Type 0
  IsPlaced m =
      (q : Name) (i : ℕ)
      → count q (get_or m.hash_list i []) ≤ (if i == default_hash_code m.list_size q then 1 else 0)

  -- The invariant of a table: as many buckets as it says, as many entries as it says, all placed.
  pub record IsValid (m : HashMap V) : Type 0 where
    pub buckets : length m.hash_list ≡ m.list_size
    pub some_bucket : 0 < m.list_size
    pub counted : length (entries m.hash_list) ≡ m.size
    pub placed : IsPlaced m

  -- The abstract view: a finite map from names to values.
  abbrev pub view : HashMap V → Name → Option V
  view m q = find q (bucket_of m q)

  abbrev pub home : HashMap V → Name → ℕ
  home m k = default_hash_code m.list_size k

  module _ (m : HashMap V) (k : Name) (b : Bucket V) (n : ℕ) (ok : IsValid m) where
    abbrev replaced : HashMap V
    replaced = record m { size = n; hash_list = set m.hash_list (home m k) b }

    pub home-lt : home m k < length m.hash_list
    home-lt = omega (arith, default_hash_code-lt m.list_size k ok.some_bucket, ok.buckets)

    -- A table stays valid when the bucket of a key is replaced by one with no more of any other
    -- key, and the size follows the number of entries.
    pub replaced-IsValid :
        ((q : Name) → count q b ≤ (if default_equal k q then 1 else count q (bucket_of m k)))
        → n + length (bucket_of m k) ≡ m.size + length b
        → IsValid replaced
    replaced-IsValid few size = record {
      buckets = length-set m.hash_list (home m k) b ∙ ok.buckets;
      some_bucket = ok.some_bucket;
      counted = omega (arith, length-entries-set m.hash_list (home m k) b home-lt, ok.counted);
      placed = λ q i. elim (Bool-cases (i == home m k)) [
        | inl same ↦ rw ((==_iff i (home m k)).0 same) (
            rw (get_or-set_self m.hash_list (home m k) b [] home-lt)
              (ground (arith, few q, ok.placed q (home m k), default_equal_sound k q)))
        | inr other ↦
            rw (get_or-set_ne m.hash_list (home m k) i b [] (λ e. ground arith)) (ok.placed q i)
      ];
    }

    -- Lookups after the replacement, where the new bucket reads as the old one but at the key.
    pub view-replaced :
        (w : Option V)
        → ((q : Name) → find q b ≡ (if default_equal k q then w else find q (bucket_of m k)))
        → (q : Name) → view replaced q ≡ (if default_equal k q then w else view m q)
    view-replaced w reads q = elim (Bool-cases (home m q == home m k)) [
      | inl same ↦
          rw ((==_iff (home m q) (home m k)).0 same)
            (rw (get_or-set_self m.hash_list (home m k) b [] home-lt) (reads q))
      | inr other ↦
          rw (get_or-set_ne m.hash_list (home m k) (home m q) b [] (λ e. ground arith))
            (ground (arith, default_equal_sound k q))
    ]
