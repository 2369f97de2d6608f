-- ===== src/Inode/Slot.antt =====
-- The places of a `file_index` that hold a context: `addr[i]`, `in1addr->addr[i]`,
-- `in2addr->addr[i]->addr[j]` and `in3addr->addr[i]->addr[j]->addr[k]`.
use fuse_node.Prelude.{ℕ, ◌+◌, ◌*◌, ◌<◌, ◌≡◌, ap, ap₂, Bool, true, false, ◌&&◌, ◌==◌, arith}
use fuse_node.Config.{direct_index_nums, indirect_index_nums}

pub data Slot : Type 0 where
  direct : ℕ → Slot
  first : ℕ → Slot
  second : ℕ → ℕ → Slot
  third : ℕ → ℕ → ℕ → Slot

-- Equality of two addresses `&…->addr[…]`.
unfoldable pub slot_eq : Slot → Slot → Bool
slot_eq (direct i) (direct j) = i == j
slot_eq (first i) (first j) = i == j
slot_eq (second i a) (second j b) = (i == j) && (a == b)
slot_eq (third i a m) (third j b n) = (i == j) && ((a == b) && (m == n))
slot_eq _ _ = false

pub slot_eq_refl : (p : Slot) → slot_eq p p ≡ true
unfolding slot_eq
slot_eq_refl (direct i) = ground arith
slot_eq_refl (first i) = ground arith
slot_eq_refl (second i j) = ground arith
slot_eq_refl (third i j k) = ground arith

pub slot_eq_sound : (p q : Slot) → slot_eq p q ≡ true → p ≡ q
unfolding slot_eq
slot_eq_sound (direct i) (direct j) h = ground arith
slot_eq_sound (first i) (first j) h = ground arith
slot_eq_sound (second i a) (second j b) h = ground arith
slot_eq_sound (third i a m) (third j b n) h = ground arith
slot_eq_sound _ _ h = ground arith

-- The places that exist.
abbrev pub InRange : Slot → Type 0
InRange (direct i) = i < direct_index_nums
InRange (first i) = i < indirect_index_nums
InRange (second i j) = (i < indirect_index_nums) × (j < indirect_index_nums)
InRange (third i j k) =
    (i < indirect_index_nums) × (j < indirect_index_nums) × (k < indirect_index_nums)

-- Which chunk of a file a place holds, counted from 0: the direct places come first, then the three
-- indirect levels, each in the order of its indices.
abbrev pub number : Slot → ℕ
number (direct i) = i
number (first i) = direct_index_nums + i
number (second i j) = direct_index_nums + indirect_index_nums + indirect_index_nums * i + j
number (third i j k) =
    direct_index_nums
    + indirect_index_nums
    + indirect_index_nums * indirect_index_nums
    + indirect_index_nums * indirect_index_nums * i
    + indirect_index_nums * j
    + k

-- Two places in range that hold the same chunk of a file are one.
pub number_injective : (p q : Slot) → InRange p → InRange q → number p ≡ number q → p ≡ q
number_injective (direct i) (direct j) hp hq e = ap direct e
number_injective (first i) (first j) hp hq e = ground arith
number_injective (second i a) (second j b) hp hq e = ap₂ second (omega arith) (omega arith)
number_injective (third i a m) (third j b n) hp hq e =
    let e0 : i ≡ j = omega arith in
    let e1 : a ≡ b = omega arith in let e2 : m ≡ n = omega arith in ground arith
number_injective _ _ hp hq e = absurd (omega arith)
