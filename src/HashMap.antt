-- ===== src/HashMap.antt =====
-- src/dhmp_fs_hashmap.c: the chained hash table of directory entries. Keys are the bytes of a name
-- before its NUL, values are pointers. `malloc` succeeds, and the `int` fields stay below 2^31.
pub mod Hash
pub mod Chain
pub mod Table
pub mod Resize
pub mod Methods
use fuse_node.Prelude.{
  ℕ, zero, suc, ◌+◌, ◌-◌, ◌*◌, ◌/◌, ◌^◌, Bool, true, false, ◌&&◌, Option, none, some, List, [], ◌∷◌,
  ◌++◌, get_or, set, take, replicate, ltb, leb, if◌then◌else◌,
}
use fuse_node.Config.{default_map_size}
use fuse_node.HashMap.Hash.{Name, default_hash_code}
use fuse_node.HashMap.Chain.{Bucket, exists, find, overwrite, insert, unlink}

pub record HashMap (V : Type 0) : Type 0 where
  pub size : ℕ
  pub list_size : ℕ
  pub change_size : Bool
  pub hash_list : List (Bucket V)

module _ {V : Type 0} where
  -- `createHashMap(NULL, NULL, -1)` and `createHashMap(NULL, NULL, n)`.
  unfoldable pub create_hash_map : Option ℕ → HashMap V
  create_hash_map given =
      let n : ℕ = elim given [ none ↦ default_map_size | some n ↦ n ] in
      record { size = 0; list_size = n; change_size = true; hash_list = replicate n [] }

  -- `&hashMap->hash_list[hashCode(hashMap, key)]`
  abbrev pub bucket_of : HashMap V → Name → Bucket V
  bucket_of m k = get_or m.hash_list (default_hash_code m.list_size k) []

  unfoldable pub default_exists : HashMap V → Name → Bool
  default_exists m k = exists k (bucket_of m k)

  unfoldable pub default_get : HashMap V → Name → Option V
  unfolding default_exists
  default_get m k = if default_exists m k then find k (bucket_of m k) else none

  abbrev pub with_bucket : HashMap V → Name → Bucket V → ℕ → HashMap V
  with_bucket m k b n = record m {
    size = n;
    hash_list = set m.hash_list (default_hash_code m.list_size k) b;
  }

  -- The copy to `tempList`: bucket by bucket, each in the order of its chain.
  unfoldable pub entries : List (Bucket V) → Bucket V
  entries [] = []
  entries (b ∷ bs) = b ++ entries bs

  -- The last loop of `resetHashMap`, which calls `put` for each saved entry.
  unfoldable pub refill : (HashMap V → Name → V → HashMap V) → Bucket V → HashMap V → HashMap V
  refill put [] m = m
  refill put ((k, v) ∷ es) m = refill put es (put m k v)

  -- `resetHashMap(hashMap, n)`. The loop runs over `size` saved entries.
  unfoldable pub reset_hash_map : (HashMap V → Name → V → HashMap V) → HashMap V → ℕ → HashMap V
  reset_hash_map put m n =
      if ltb n default_map_size
      then m
      else refill put (take m.size (entries m.hash_list))
          (record m { size = 0; list_size = n; hash_list = replicate n [] })

  -- The test at the end of `defaultPut`.
  unfoldable pub grow : (HashMap V → Name → V → HashMap V) → HashMap V → HashMap V
  grow put m =
      if leb m.list_size m.size && m.change_size then reset_hash_map put m (m.list_size * 2) else m

  -- `defaultPut` calls `resetHashMap`, which calls `put`: the first argument bounds the depth.
  unfoldable pub default_put : ℕ → HashMap V → Name → V → HashMap V
  default_put zero m k v = m
  default_put (suc depth) m k v = elim (overwrite k v (bucket_of m k)) [
    | some b ↦ with_bucket m k b m.size
    | none ↦ grow (default_put depth) (with_bucket m k (insert k v (bucket_of m k)) (m.size + 1))
  ]

  -- Two levels are enough: the `put` of a resize never resizes.
  unfoldable pub put : HashMap V → Name → V → HashMap V
  unfolding default_put
  put m k v = default_put 2 m k v

  -- The test at the end of `defaultRemove`.
  unfoldable pub shrink : HashMap V → HashMap V
  shrink m =
      if ltb m.size (m.list_size / 2) && m.change_size
      then reset_hash_map put m (m.list_size / 2)
      else m

  -- `defaultRemove`, with the key that it returns: that of the inline entry of the bucket, whether
  -- or not the key was found, and NULL for an empty bucket.
  unfoldable pub default_remove : HashMap V → Name → Option Name × HashMap V
  unfolding shrink
  default_remove m k = elim (bucket_of m k) [
    | [] ↦ (none, m)
    | (head, w) ∷ rest ↦ elim (unlink k (bucket_of m k)) [
      | none ↦ (some head, m)
      | some b ↦ (some head, shrink (with_bucket m k b (m.size - 1)))
    ]
  ]

  -- `defaultClear`: `size = -1`, as a bit pattern.
  unfoldable pub default_clear : HashMap V → HashMap V
  default_clear m = record m { size = 2 ^ 32 - 1; list_size = 0; hash_list = [] }
