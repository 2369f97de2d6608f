-- ===== src/Chunk/Scan.antt =====
-- What the allocator's scan finds.
use native.Mathlib.Nat.{mod-eq_of_lt, mod-add-mod, mod-lt, add-mod-mod, add-mod_left}
use fuse_node.Prelude.{
  ℕ, zero, suc, ◌+◌, ◌-◌, ◌%◌, ◌<◌, ◌≡◌, refl, sym, ap, ◌∙◌, Bool, true, false, Option, none, some,
  arith,
}
use mathlib.Core.Path.{subst}
use fuse_node.Config.{chunk_num}
use fuse_node.Chunk.{Chunks, mark, scan_chunks, get_free_chunk}

-- A chunk that the scan returns is in range and was free.
pub scan_chunks_sound :
    (n k : ℕ) (b : ℕ → Bool) (i c : ℕ)
    → i < n
    → scan_chunks n k b i ≡ some c
    → (c < n) × (b c ≡ false)
unfolding scan_chunks
scan_chunks_sound n zero b i c h e = ground arith
scan_chunks_sound n (suc k) b i c h e =
    ground (arith, scan_chunks_sound n k b ((i + 1) % n) c (mod_lt n i h))
  where
    mod_lt : (n i : ℕ) → i < n → (i + 1) % n < n
    mod_lt n i h = grind arith

step_mod : (n i d : ℕ) → ((i + 1) % n + d) % n ≡ (i + (d + 1)) % n
step_mod n i d = mod-add-mod (i + 1) n d ∙ ap (λ x. x % n) (omega arith)

-- A scan that returns nothing saw every chunk of its rounds in use.
scan_chunks_seen :
    (n k : ℕ) (b : ℕ → Bool) (i d : ℕ)
    → i < n
    → scan_chunks n k b i ≡ none
    → d < k
    → b ((i + d) % n) ≡ true
unfolding scan_chunks
scan_chunks_seen n zero b i d h e lt = absurd (omega arith)
scan_chunks_seen n (suc k) b i zero h e lt =
    let at : (i + 0) % n ≡ i = mod-eq_of_lt {n = i + 0} {m = n} (omega arith) ∙ (omega arith) in
    rw at (ground arith)
scan_chunks_seen n (suc k) b i (suc d) h e lt =
    let at : (i + suc d) % n ≡ ((i + 1) % n + d) % n =
      sym (step_mod n i d ∙ ap (λ x. (i + x) % n) (omega arith)) in
    rw at (
      scan_chunks_seen n k b ((i + 1) % n) d (mod-lt (i + 1) (omega arith)) (ground arith)
        (omega arith))

-- Every index is met on the way round.
round_trip : (n i j : ℕ) → i < n → j < n → (i + (j + n - i) % n) % n ≡ j
round_trip n i j h hj =
    add-mod-mod i (j + n - i) n ∙ ap (λ x. x % n) (omega arith) ∙ add-mod_left n j ∙ mod-eq_of_lt hj

-- A full round that returns nothing has seen every chunk in use.
pub scan_chunks_full :
    (n : ℕ) (b : ℕ → Bool) (i j : ℕ) → i < n → j < n → scan_chunks n n b i ≡ none → b j ≡ true
scan_chunks_full n b i j h hj e =
    subst (λ x. b x ≡ true) (round_trip n i j h hj)
      (scan_chunks_seen n n b i ((j + n - i) % n) h e (mod-lt (j + n - i) (omega arith)))

-- What one call of the allocator did to the bitmap.
pub data Allocated (s : Chunks) : Option ℕ × Chunks → Type 0 where
  full : ((j : ℕ) → j < chunk_num → s.bitmap j ≡ true) → Allocated s (none, s)
  got :
      (c : ℕ)
      → c < chunk_num
      → s.bitmap c ≡ false
      → Allocated s (some c, record { bitmap = mark s.bitmap c true; cursor = c })

-- From a cursor in range, `getFreeChunk` either returns a chunk in range that was free, marks
-- exactly that one and leaves the cursor on it, or changes nothing, and then every chunk of the
-- disk is in use.
pub get_free_chunk-Allocated : (s : Chunks) → s.cursor < chunk_num → Allocated s (get_free_chunk s)
unfolding get_free_chunk
get_free_chunk-Allocated s h = go (scan_chunks chunk_num chunk_num s.bitmap s.cursor) refl
  where
    go :
        (o : Option ℕ)
        → scan_chunks chunk_num chunk_num s.bitmap s.cursor ≡ o
        → Allocated s (elim o [
          | none ↦ (none, s)
          | some i ↦ (some i, record { bitmap = mark s.bitmap i true; cursor = i })
        ])
    go none e = full (λ j hj. scan_chunks_full chunk_num s.bitmap s.cursor j h hj e)
    go (some c) e =
        let (lt, free) = scan_chunks_sound chunk_num chunk_num s.bitmap s.cursor c h e in
        got c lt free
