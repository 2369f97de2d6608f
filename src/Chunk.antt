-- ===== src/Chunk.antt =====
-- The chunk allocator of src/dhmp_fs_index.c: `getFreeChunk` and `get_free_context` over the
-- global `bitmap` and the static cursor `i` of `getFreeChunk`.
pub mod Scan
use fuse_node.Prelude.{
  ℕ, zero, suc, ◌+◌, ◌%◌, Bool, true, false, Option, none, some, ◌==◌, if◌then◌else◌,
}
use fuse_node.Config.{chunk_num}

pub record Chunks : Type 0 where
  pub bitmap : ℕ → Bool
  pub cursor : ℕ

-- `bitmap[i] = v`
abbrev pub mark : (ℕ → Bool) → ℕ → Bool → ℕ → Bool
mark b i v j = if i == j then v else b j

-- The `while` loop with `k` rounds left and the static `i`. `& (n - 1)` is `% n`, since the size
-- of the bitmap is a power of two. `none` is the exit with `count == CHUNK_NUM`.
unfoldable pub scan_chunks : ℕ → ℕ → (ℕ → Bool) → ℕ → Option ℕ
scan_chunks n zero b i = none
scan_chunks n (suc k) b i = elim (b i) [ true ↦ scan_chunks n k b ((i + 1) % n) | false ↦ some i ]

-- After `CHUNK_NUM` rounds the cursor is where it started.
unfoldable pub get_free_chunk : Chunks → Option ℕ × Chunks
get_free_chunk s = elim (scan_chunks chunk_num chunk_num s.bitmap s.cursor) [
  | none ↦ (none, s)
  | some i ↦ (some i, record { bitmap = mark s.bitmap i true; cursor = i })
]
