-- ===== src/Dir/Lookup.antt =====
-- `search_d_hash` on a path and on its directory.
use fuse_node.Prelude.{
  ℕ, ◌≡◌, ◌<◌, refl, sym, ap, ◌∙◌, Bool, true, false, Option, none, some, [], ◌∷◌, ◌++◌, length,
  ◌==◌, if◌then◌else◌, arith, Bool-cases, inl, inr,
}
use mathlib.Core.List.{append_assoc}
use fuse_node.Outcome.{Run, ok, fault, more, ◌>>=◌}
use fuse_node.HashMap.Hash.{Name}
use fuse_node.Inode.{Store}
use fuse_node.Dir.Path.{slash, is_empty, deal}
use fuse_node.Dir.Split.{has_slash, IsName, deal_joined}
use fuse_node.Dir.Walk.{root, lookup_in, lookup_buffer, or_null, walk, search_d_hash}

or_null-some : (r : Run (Option ℕ)) → (r >>= or_null (λ n. ok (some n))) ≡ r
or_null-some (ok none) = refl
or_null-some (ok (some n)) = refl
or_null-some fault = refl
or_null-some more = refl

-- The end of a chain of lookups taken apart.
or_null_last :
    (r : Run (Option ℕ)) (k l l' : ℕ → Run (Option ℕ))
    → ((n : ℕ) → l n ≡ (l' n >>= or_null k))
    → (r >>= or_null l) ≡ ((r >>= or_null l') >>= or_null k)
or_null_last (ok none) k l l' h = refl
or_null_last (ok (some n)) k l l' h = h n
or_null_last fault k l l' h = refl
or_null_last more k l l' h = refl

-- A walk without a slash left is one lookup.
walk_name :
    (s : Store) (f name : Name) (h : ℕ)
    → has_slash f ≡ false
    → is_empty f ≡ false
    → walk s false name h f ≡ lookup_buffer s (name ++ f) h
unfolding walk
walk_name s [] name h plain letter = ground (arith, letter)
walk_name s (c ∷ []) name h plain letter =
    let off : (c == slash) ≡ false = ground arith in
    rw (off, walk) (rw off (or_null-some (lookup_buffer s (name ++ c ∷ []) h)))
walk_name s (c ∷ d ∷ f) name h plain letter =
    let off : (c == slash) ≡ false = ground arith in
    rw (off, walk)
      (walk_name s (d ∷ f) (name ++ c ∷ []) h (ground arith) refl
        ∙ ap (λ x. lookup_buffer s x h) (append_assoc name (c ∷ []) (d ∷ f)))

longer : (d f : Name) → is_empty (d ++ slash ∷ f) ≡ false
longer [] f = refl
longer (c ∷ d) f = refl

walk_joined :
    (s : Store) (d f name : Name) (b : Bool) (h : ℕ)
    → IsName f
    → walk s b name h (d ++ slash ∷ f)
      ≡ (walk s b name h (d ++ slash ∷ []) >>= or_null (lookup_buffer s f))
unfolding walk
walk_joined s [] f name true h good = walk_name s f [] h good.plain good.some_letter
walk_joined s [] f name false h good =
    or_null_last (lookup_buffer s name h) (lookup_buffer s f) (λ n. walk s false [] n f)
      (λ n. ok (some n)) (λ n. walk_name s f [] n good.plain good.some_letter)
walk_joined s (c ∷ d) f name true h good = elim (Bool-cases (c == slash)) [
  | inl at ↦ rw (at, walk) (walk_joined s d f [] false h good)
  | inr off ↦
      rw (off, walk, longer d f, longer d []) (walk_joined s d f (name ++ c ∷ []) false h good)
]
walk_joined s (c ∷ d) f name false h good = elim (Bool-cases (c == slash)) [
  | inl at ↦
      rw (at, walk)
        (or_null_last (lookup_buffer s (if c == slash then name else name ++ c ∷ []) h)
          (lookup_buffer s f) (λ n. walk s false [] n (d ++ slash ∷ f))
          (λ n. walk s false [] n (d ++ slash ∷ [])) (λ n. walk_joined s d f [] false n good))
  | inr off ↦
      rw (off, walk, longer d f, longer d []) (walk_joined s d f (name ++ c ∷ []) false h good)
]

pub length_joined : (d f : Name) → is_empty f ≡ false → (length (d ++ slash ∷ f) == 1) ≡ false
length_joined [] [] h = ground (arith, h)
length_joined [] (c ∷ f) h = ground arith
length_joined (x ∷ d) f h = ground (arith, length_pos d)
  where
    length_pos : (d : Name) → 0 < length (d ++ slash ∷ f)
    length_pos [] = omega arith
    length_pos (c ∷ d) = omega arith

search_directory :
    (s : Store) (d : Name)
    → search_d_hash s (d ++ slash ∷ []) ≡ walk s true [] root (d ++ slash ∷ [])
unfolding search_d_hash walk
search_directory s [] = refl
search_directory s (c ∷ d) = rw (two_letters d) refl
  where
    two_letters : (d : Name) → (length (c ∷ d ++ slash ∷ []) == 1) ≡ false
    two_letters [] = refl
    two_letters (x ∷ d) = ground arith

search_path :
    (s : Store) (d f : Name)
    → is_empty f ≡ false
    → search_d_hash s (d ++ slash ∷ f) ≡ walk s true [] root (d ++ slash ∷ f)
unfolding search_d_hash
search_path s d f letter = rw (length_joined d f letter) refl

-- The name of a path fits into the buffer.
name_lookup :
    (s : Store) (f : Name)
    → IsName f
    → (r : Run (Option ℕ)) → (r >>= or_null (lookup_buffer s f)) ≡ (r >>= or_null (lookup_in s f))
unfolding lookup_buffer
name_lookup s f n (ok none) = refl
name_lookup s f n (ok (some h)) = rw (n.fits) refl
name_lookup s f n fault = refl
name_lookup s f n more = refl

-- A path that is a directory, a slash and a name that fits into a buffer is looked up as `deal` splits it: its directory is
-- looked up first, and the name then in the table of that directory; NULL and faults on the way are
-- the result.
pub search_d_hash-deal :
    (s : Store) (d f : Name)
    → IsName f
    → let names = deal (d ++ slash ∷ f) in
      search_d_hash s (d ++ slash ∷ f) ≡ (search_d_hash s names.0 >>= or_null (lookup_in s names.1))
search_d_hash-deal s d f n = rw ((deal_joined d f n).0) (
    search_path s d f n.some_letter
    ∙ (walk_joined s d f [] true root n
        ∙ (ap (λ r. r >>= or_null (lookup_buffer s f)) (sym (search_directory s d))
            ∙ name_lookup s f n (search_d_hash s (d ++ slash ∷ [])))))
