-- ===== src/HashMap/Hash.antt =====
-- `defaultEqual` and `defaultHashCode` of src/dhmp_fs_hashmap.c.
use Prim.Native.Nat.{bit_and, bit_xor}
use fuse_node.Prelude.{
  ℕ, ◌+◌, ◌-◌, ◌*◌, ◌/◌, ◌%◌, ◌^◌, ◌<◌, ◌≡◌, refl, Bool, true, false, ◌&&◌, List, [], ◌∷◌, ltb,
  ◌==◌, if◌then◌else◌, arith,
}
use native.Mathlib.Nat.{mod-lt}

-- The bytes of a C string, without the NUL.
abbrev pub Name : Type 0
Name = List ℕ

-- `strcmp(a, b) ? 0 : 1`
unfoldable pub default_equal : Name → Name → Bool
default_equal [] [] = true
default_equal [] (y ∷ ys) = false
default_equal (x ∷ xs) [] = false
default_equal (x ∷ xs) (y ∷ ys) = (x == y) && default_equal xs ys

-- `char` is signed: a byte from 128 on is added as a negative number, modulo 2^64.
sign_extend : ℕ → ℕ
sign_extend c = if ltb c 128 then c else 2 ^ 64 - 256 + c

-- One round of the loop on an `unsigned long`. The mask `g` holds bits 28 to 31.
hash_step : ℕ → ℕ → ℕ
unfolding sign_extend
hash_step h0 c =
    let h = (h0 * 2 ^ 4 + sign_extend c) % 2 ^ 64 in
    let g = bit_and h 0xF0000000 in
    let h' = if g == 0 then h else bit_xor h (g / 2 ^ 24) in bit_and h' (2 ^ 64 - 1 - g)

hash_loop : ℕ → Name → ℕ
unfolding hash_step
hash_loop h [] = h
hash_loop h (c ∷ k) = hash_loop (hash_step h c) k

unfoldable pub default_hash_code : ℕ → Name → ℕ
unfolding hash_loop
default_hash_code list_size k = hash_loop 0 k % list_size

pub default_hash_code-lt : (n : ℕ) (k : Name) → 0 < n → default_hash_code n k < n
unfolding default_hash_code
default_hash_code-lt n k h = mod-lt (hash_loop 0 k) h

pub default_equal_refl : (a : Name) → default_equal a a ≡ true
unfolding default_equal
default_equal_refl [] = refl
default_equal_refl (x ∷ xs) = ground (arith, default_equal_refl xs)

pub default_equal_sound : (a b : Name) → default_equal a b ≡ true → a ≡ b
unfolding default_equal
default_equal_sound [] [] h = refl
default_equal_sound [] (y ∷ ys) h = ground arith
default_equal_sound (x ∷ xs) [] h = ground arith
default_equal_sound (x ∷ xs) (y ∷ ys) h = ground (arith, default_equal_sound xs ys)

-- `hash("ab")` is `'a' * 16 + 'b'`.
default_hash_code_runs : default_hash_code 50 (b'a' ∷ b'b' ∷ []) ≡ (97 * 16 + 98) % 50
unfolding default_hash_code
default_hash_code_runs = refl
