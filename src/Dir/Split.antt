-- ===== src/Dir/Split.antt =====
-- What `deal` gives: the directory with its slash, and the last name.
use fuse_node.Prelude.{
  ℕ, suc, ◌+◌, ◌≡◌, refl, ap, ap₂, ◌∙◌, Bool, true, false, ◌&&◌, ◌||◌, not, [], ◌∷◌, ◌++◌, length,
  take, ◌==◌, if◌then◌else◌, arith,
}
use fuse_node.HashMap.Hash.{Name}
use fuse_node.Dir.Path.{slash, is_empty, name_fits, last_slash, drop, strip, deal}

abbrev pub has_slash : Name → Bool
has_slash [] = false
has_slash (c ∷ cs) = (c == slash) || has_slash cs

-- The text of a last name: not empty, without a slash, and with its end not over the buffer.
pub record IsName (f : Name) : Type 0 where
  pub plain : has_slash f ≡ false
  pub some_letter : is_empty f ≡ false
  pub fits : name_fits f ≡ true

last_slash_plain : (i j : ℕ) (f : Name) → has_slash f ≡ false → last_slash i j f ≡ j
unfolding last_slash
last_slash_plain i j [] h = refl
last_slash_plain i j (c ∷ f) h =
    let no : (c == slash) ≡ false = ground arith in
    rw no (last_slash_plain (i + 1) j f (ground arith))

last_slash_trailing :
    (i j : ℕ) (f : Name) → has_slash f ≡ false → last_slash i j (f ++ slash ∷ []) ≡ j
unfolding last_slash
last_slash_trailing i j [] h = refl
last_slash_trailing i j (c ∷ f) h =
    let no : (c == slash) ≡ false = ground arith in
    rw (no, last_slash) (last_slash_trailing (i + 1) j f (ground arith))

-- Behind `d` and a slash, the rest decides.
last_slash_behind :
    (i j : ℕ) (d f : Name)
    → is_empty f ≡ false
    → last_slash i j (d ++ slash ∷ f) ≡ last_slash (i + length d + 1) (i + length d) f
unfolding last_slash
last_slash_behind i j [] f h =
    rw (h, last_slash) (ap₂ (λ a b. last_slash a b f) (omega arith) (omega arith))
last_slash_behind i j (c ∷ d) f h =
    last_slash_behind (i + 1) (if (c == slash) && not (is_empty (d ++ slash ∷ f)) then i else j) d f
      h
    ∙ ap₂ (λ a b. last_slash a b f) (omega arith) (omega arith)

take_joined : (d f : Name) → take (length d + 1) (d ++ slash ∷ f) ≡ d ++ slash ∷ []
take_joined [] f = refl
take_joined (c ∷ d) f =
    let e : suc (length d) + 1 ≡ suc (length d + 1) = omega arith in
    ap (λ n. take n (c ∷ d ++ slash ∷ f)) e ∙ ap (λ x. c ∷ x) (take_joined d f)

drop_joined : (d f : Name) → drop (length d + 1) (d ++ slash ∷ f) ≡ f
drop_joined [] f = refl
drop_joined (c ∷ d) f =
    let e : suc (length d) + 1 ≡ suc (length d + 1) = omega arith in
    ap (λ n. drop n (c ∷ d ++ slash ∷ f)) e ∙ drop_joined d f

strip_plain : (f : Name) → has_slash f ≡ false → strip f ≡ f
unfolding strip
strip_plain [] h = refl
strip_plain (c ∷ []) h = ground arith
strip_plain (c ∷ d ∷ f) h = ap (λ x. c ∷ x) (strip_plain (d ∷ f) (ground arith))

strip_trailing : (f : Name) → strip (f ++ slash ∷ []) ≡ f
unfolding strip
strip_trailing [] = refl
strip_trailing (c ∷ []) = refl
strip_trailing (c ∷ d ∷ f) = ap (λ x. c ∷ x) (strip_trailing (d ∷ f))

-- The split of `d`, a slash and any rest whose last slash is not inside it.
deal_behind :
    (d f g : Name)
    → is_empty f ≡ false
    → last_slash (length d + 1) (length d) f ≡ length d
    → strip f ≡ g
    → deal (d ++ slash ∷ f) ≡ (d ++ slash ∷ [], g)
unfolding deal
deal_behind d f g h at e =
    let m : last_slash 0 0 (d ++ slash ∷ f) ≡ length d =
      last_slash_behind 0 0 d f h
      ∙ (ap₂ (λ a b. last_slash a b f) (omega arith) (omega arith) ∙ at) in
    rw m (rw (take_joined d f, drop_joined d f, e) refl)

-- A path that is a directory, a slash and a name, with or without a slash at its end, is split into
-- the directory with its slash and the name.
pub deal_joined :
    (d f : Name)
    → IsName f
    → (deal (d ++ slash ∷ f) ≡ (d ++ slash ∷ [], f))
      × (deal (d ++ slash ∷ (f ++ slash ∷ [])) ≡ (d ++ slash ∷ [], f))
deal_joined d f n = (
  deal_behind d f f n.some_letter (last_slash_plain (length d + 1) (length d) f n.plain)
      (strip_plain f n.plain),
  deal_behind d (f ++ slash ∷ []) f (longer f n.some_letter)
      (last_slash_trailing (length d + 1) (length d) f n.plain) (strip_trailing f),
)
  where
    longer : (f : Name) → is_empty f ≡ false → is_empty (f ++ slash ∷ []) ≡ false
    longer [] h = refl
    longer (c ∷ f) h = refl
