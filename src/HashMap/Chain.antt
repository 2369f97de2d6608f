-- ===== src/HashMap/Chain.antt =====
-- One bucket: its inline entry and the entries hung on `next`, in order. A bucket whose inline key
-- is NULL is the empty list.
use mathlib.Core.Option
use fuse_node.Prelude.{
  ℕ, ◌+◌, ◌≤◌, ◌≡◌, refl, Bool, true, false, Option, none, some, List, [], ◌∷◌, ◌++◌, length, arith,
  if◌then◌else◌, inl, inr, Option-cases,
}
use fuse_node.HashMap.Hash.{Name, default_equal, default_equal_refl, default_equal_sound}

abbrev pub Bucket : Type 0 → Type 0
Bucket V = List (Name × V)

-- A lookup in a chain of entries, and behind it another lookup.
abbrev pub first : {V : Type 0} → Option V → Option V → Option V
first (some v) o = some v
first none o = o

-- How many entries a write adds, given what stood there.
abbrev pub added : {V : Type 0} → Option V → ℕ
added none = 1
added (some _) = 0

module _ {V : Type 0} where
  -- The loop of `defaultExists`.
  unfoldable pub exists : Name → Bucket V → Bool
  exists k [] = false
  exists k ((j, v) ∷ b) = if default_equal j k then true else exists k b

  -- The loop of `defaultGet`.
  unfoldable pub find : Name → Bucket V → Option V
  find k [] = none
  find k ((j, v) ∷ b) = if default_equal j k then some v else find k b

  -- The loop of `defaultPut`: at an equal key the value is replaced and the stored key stays;
  -- `none` is the end of the chain.
  unfoldable pub overwrite : Name → V → Bucket V → Option (Bucket V)
  overwrite k v [] = none
  overwrite k v ((j, w) ∷ b) =
      if default_equal k j
      then some ((j, v) ∷ b)
      else Option.map (λ c. (j, w) ∷ c) (overwrite k v b)

  -- A new entry goes into an empty bucket, or behind the inline entry.
  unfoldable pub insert : Name → V → Bucket V → Bucket V
  insert k v [] = (k, v) ∷ []
  insert k v (e ∷ b) = e ∷ (k, v) ∷ b

  -- The unlinking of `defaultRemove`; `none` if no key is equal.
  unfoldable pub unlink : Name → Bucket V → Option (Bucket V)
  unlink k [] = none
  unlink k ((j, v) ∷ b) =
      if default_equal j k then some b else Option.map (λ c. (j, v) ∷ c) (unlink k b)

  -- How often a key stands in a bucket.
  unfoldable pub count : Name → Bucket V → ℕ
  count k [] = 0
  count k ((j, v) ∷ b) = (if default_equal j k then 1 else 0) + count k b

  pub exists-find : (k : Name) (b : Bucket V) → exists k b ≡ false → find k b ≡ none
  unfolding exists find
  exists-find k [] h = refl
  exists-find k ((j, v) ∷ b) h = ground (arith, exists-find k b)

  pub find-count : (k : Name) (b : Bucket V) → count k b ≡ 0 → find k b ≡ none
  unfolding count find
  find-count k [] h = refl
  find-count k ((j, v) ∷ b) h = ground (arith, find-count k b)

  pub count-overwrite-none :
      (k : Name) (v : V) (b : Bucket V) → overwrite k v b ≡ none → count k b ≡ 0
  unfolding count overwrite
  count-overwrite-none k v [] h = refl
  count-overwrite-none k v ((j, w) ∷ b) h =
      ground (arith, count-overwrite-none k v b, default_equal_sound j k, default_equal_refl k)

  module _ (k q : Name) (v : V) where
    pub find-overwrite :
        (b c : Bucket V)
        → overwrite k v b ≡ some c
        → find q c ≡ (if default_equal k q then some v else find q b)
    unfolding find overwrite
    find-overwrite [] c h = ground arith
    find-overwrite ((j, w) ∷ b) c h = elim (Option-cases (overwrite k v b)) [
      | inl e ↦
          ground (arith, e, default_equal_sound k j, default_equal_refl q, default_equal_sound j q)
      | inr (d, e) ↦ ground (
        arith,
        e,
        find-overwrite b d,
        default_equal_sound k j,
        default_equal_sound j q,
        default_equal_sound k q,
        default_equal_refl q,
      )
    ]

    pub count-overwrite : (b c : Bucket V) → overwrite k v b ≡ some c → count q c ≡ count q b
    unfolding count overwrite
    count-overwrite [] c h = ground arith
    count-overwrite ((j, w) ∷ b) c h = elim (Option-cases (overwrite k v b)) [
      | inl e ↦ ground (arith, e)
      | inr (d, e) ↦ ground (arith, e, count-overwrite b d)
    ]

    pub find-insert :
        (b : Bucket V)
        → count k b ≡ 0
        → find q (insert k v b) ≡ (if default_equal k q then some v else find q b)
    unfolding find count insert
    find-insert [] h = refl
    find-insert ((j, w) ∷ b) h = ground (
      arith,
      default_equal_sound j q,
      default_equal_sound k q,
      default_equal_refl q,
      default_equal_refl k,
    )

    pub count-insert :
        (b : Bucket V) → count q (insert k v b) ≡ (if default_equal k q then 1 else 0) + count q b
    unfolding count insert
    count-insert [] = refl
    count-insert ((j, w) ∷ b) = ground arith

  module _ (k q : Name) where
    pub find-unlink :
        (b c : Bucket V)
        → count q b ≤ 1
        → unlink k b ≡ some c
        → find q c ≡ (if default_equal k q then none else find q b)
    unfolding find unlink count
    find-unlink [] c u h = ground arith
    find-unlink ((j, w) ∷ b) c u h = elim (Option-cases (unlink k b)) [
      | inl e ↦ ground (
        arith,
        e,
        find-count q b,
        default_equal_sound j k,
        default_equal_refl q,
        default_equal_sound k q,
        default_equal_sound j q,
        default_equal_refl k,
      )
      | inr (d, e) ↦ ground (
        arith,
        e,
        find-unlink b d,
        find-count q b,
        default_equal_sound j k,
        default_equal_sound j q,
        default_equal_sound k q,
        default_equal_refl q,
        default_equal_refl k,
      )
    ]

    pub count-unlink-le : (b c : Bucket V) → unlink k b ≡ some c → count q c ≤ count q b
    unfolding unlink count
    count-unlink-le [] c h = ground arith
    count-unlink-le ((j, w) ∷ b) c h = elim (Option-cases (unlink k b)) [
      | inl e ↦ ground (arith, e)
      | inr (d, e) ↦ ground (arith, e, count-unlink-le b d)
    ]

  pub find-unlink-none : (k : Name) (b : Bucket V) → unlink k b ≡ none → find k b ≡ none
  unfolding unlink find
  find-unlink-none k [] h = refl
  find-unlink-none k ((j, w) ∷ b) h = ground (arith, find-unlink-none k b)

  pub length-overwrite :
      (k : Name) (v : V) (b c : Bucket V) → overwrite k v b ≡ some c → length c ≡ length b
  unfolding overwrite
  length-overwrite k v [] c h = ground arith
  length-overwrite k v ((j, w) ∷ b) c h = elim (Option-cases (overwrite k v b)) [
    | inl e ↦ ground (arith, e)
    | inr (d, e) ↦ ground (arith, e, length-overwrite k v b d)
  ]

  pub length-insert : (k : Name) (v : V) (b : Bucket V) → length (insert k v b) ≡ length b + 1
  unfolding insert
  length-insert k v [] = omega arith
  length-insert k v (e ∷ b) = omega arith

  pub length-unlink : (k : Name) (b c : Bucket V) → unlink k b ≡ some c → length c + 1 ≡ length b
  unfolding unlink
  length-unlink k [] c h = ground arith
  length-unlink k ((j, w) ∷ b) c h = elim (Option-cases (unlink k b)) [
    | inl e ↦ ground (arith, e)
    | inr (d, e) ↦ ground (arith, e, length-unlink k b d)
  ]

  pub find-append : (q : Name) (a b : Bucket V) → find q (a ++ b) ≡ first (find q a) (find q b)
  unfolding find
  find-append q [] b = refl
  find-append q ((j, v) ∷ a) b = ground (arith, find-append q a b)

  pub count-append : (q : Name) (a b : Bucket V) → count q (a ++ b) ≡ count q a + count q b
  unfolding count
  count-append q [] b = omega arith
  count-append q ((j, v) ∷ a) b = omega (arith, count-append q a b)

  pub find-overwrite-some :
      (k : Name) (v : V) (b c : Bucket V) → overwrite k v b ≡ some c → added (find k b) ≡ 0
  unfolding overwrite find
  find-overwrite-some k v [] c h = ground arith
  find-overwrite-some k v ((j, w) ∷ b) c h = elim (Option-cases (overwrite k v b)) [
    | inl e ↦ ground (arith, e, default_equal_sound k j, default_equal_refl k)
    | inr (d, e) ↦
        ground
          (arith, e, find-overwrite-some k v b d, default_equal_sound k j, default_equal_refl k)
  ]

  pub find-unlink-some : (k : Name) (b c : Bucket V) → unlink k b ≡ some c → added (find k b) ≡ 0
  unfolding unlink find
  find-unlink-some k [] c h = ground arith
  find-unlink-some k ((j, w) ∷ b) c h = elim (Option-cases (unlink k b)) [
    | inl e ↦ ground (arith, e)
    | inr (d, e) ↦ ground (arith, e, find-unlink-some k b d)
  ]
