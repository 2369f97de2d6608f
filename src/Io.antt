-- ===== src/Io.antt =====
-- `dhmp_fs_write` and `dhmp_fs_read` of src/dhmp_fs_io.c: the loops over the chunks of a request.
-- `rand` gives the value of `rand()` in each round. The offset of a file stays below 2^63 and a size
-- below 2^64 - 2^63, so that their sum does not wrap.
pub mod Total
pub mod Names
pub mod Reading
pub mod Single
pub mod Again
use fuse_node.Prelude.{
  ℕ, zero, suc, ◌+◌, ◌-◌, ◌*◌, ◌/◌, ◌%◌, ◌^◌, Bool, true, false, Option, none, some, ltb, leb, ◌==◌,
  if◌then◌else◌, ℤ, pos, negsuc,
}
use fuse_node.Config.{bank_size, chunk_size}
use fuse_node.Outcome.{Run, ok, fault, more, ◌>>=◌, of_option}
use fuse_node.Dhmp.{Dhmp, Bytes, memcpy}
use fuse_node.Inode.{Inode, Store, update, set_inode}
use fuse_node.Index.{level3_local_index}
use fuse_node.Cache.{Disk, read_from_cache, write_to_cache}

pub record Fs (M : Type 0) : Type 0 where
  pub store : Store
  pub disk : Disk M

-- A `size_t` that is returned as an `int`: its low 32 bits, with their sign.
unfoldable pub int_of : ℕ → ℤ
int_of n = let low = n % 2 ^ 32 in if ltb low (2 ^ 31) then pos low else negsuc (2 ^ 32 - 1 - low)

-- `chunk_index * CHUNK_SIZE`, as a bank and an offset in it.
abbrev pub bank_of : ℕ → ℕ
bank_of c = c * chunk_size / bank_size

abbrev pub bank_offset : ℕ → ℕ
bank_offset c = c * chunk_size % bank_size

-- `buf + at`
abbrev pub from : Bytes → ℕ → Bytes
from buf at i = buf (at + i)

-- `head->size += n - cnt->size; cnt->size = n`
unfoldable pub grow_context : ℕ → ℕ → ℕ → Store → Store
grow_context h c n s =
    let f = s.inode h in
    record (set_inode s h (record f { size = f.size + (n - s.context_size c) })) {
      context_size = update s.context_size c n;
    }

-- What one round does to the sizes after `n` bytes at `chunk_offset`: a chunk that is written to
-- its end, or the rest of the request.
unfoldable pub account : ℕ → ℕ → ℕ → ℕ → Store → Store
unfolding grow_context
account h c chunk_offset un_write_size s =
    let end_offset = un_write_size + chunk_offset in
    if leb (chunk_size - chunk_offset) un_write_size
    then grow_context h c chunk_size s
    else if ltb (s.context_size c) end_offset
    then grow_context h c end_offset s
    else s

module _ {M : Type 0} (net : Dhmp M) (rand : ℕ → ℕ) (h : ℕ) where
  -- The context that a round of the write loop works on.
  unfoldable pub write_context : ℕ → Store → Run ((ℕ × ℕ) × Store)
  write_context offset s = do
    r ← of_option (level3_local_index offset h false s)
    cnt ← of_option r.0
    ok (cnt, r.1)

  -- The write loop on fuel. `buf` is the caller's buffer, which a cache miss overwrites.
  unfoldable pub write_loop : ℕ → Bytes → ℕ → ℕ → ℕ → Fs M → Run (Bytes × Fs M)
  unfolding write_context account
  write_loop fuel buf write_size zero offset s = ok (buf, s)
  write_loop zero buf write_size (suc k) offset s = more
  write_loop (suc fuel) buf write_size (suc k) offset s = do
    r ← write_context offset s.store
    let c = r.0.0
    let o = r.0.1
    let n = if leb (chunk_size - o) (suc k) then chunk_size - o else suc k
    w ← of_option (
        write_to_cache net (rand fuel) (bank_of c) (from buf write_size) n (bank_offset c + o)
          s.disk)
    write_loop fuel (memcpy buf write_size w.0 n) (write_size + n) (suc k - n) (offset + n)
        (record { store = account h c o (suc k) r.1; disk = w.1 })

  -- `dhmp_fs_write`. `head == NULL` is not modelled: an open file has an inode.
  unfoldable pub dhmp_fs_write : Bytes → ℕ → ℕ → Fs M → Run (ℤ × (Bytes × Fs M))
  unfolding write_loop int_of
  dhmp_fs_write buf size offset s =
      if (s.store.inode h).is_directories
      then ok (negsuc 0, (buf, s))
      else write_loop size buf 0 size offset s >>= λ r. ok (int_of size, r)

  -- `cnt->size - chunk_offset`, a `size_t`.
  abbrev pub left_in : ℕ → ℕ → ℕ
  left_in context_size chunk_offset = (context_size + 2 ^ 64 - chunk_offset) % 2 ^ 64

  -- The read loop on fuel: how many bytes were read, and the caller's buffer. The test
  -- `cnt->size - chunk_offset < 0` compares an unsigned value and never holds:
  -- a read that this takes past the end of the bank in the cache is a fault.
  unfoldable pub read_loop : ℕ → Bytes → ℕ → ℕ → ℕ → Fs M → Run (ℕ × (Bytes × Fs M))
  read_loop fuel buf read_size zero offset s = ok (read_size, (buf, s))
  read_loop zero buf read_size (suc k) offset s = more
  read_loop (suc fuel) buf read_size (suc k) offset s = do
    r ← of_option (level3_local_index offset h true s.store)
    elim r.0 [
      | none ↦ ok (read_size, (buf, record s { store = r.1 }))
      | some cnt ↦
          let left = left_in (s.store.context_size cnt.0) cnt.1 in
          let n = if leb left (suc k) then left else suc k in
          let w = of_option (
            read_from_cache net (rand fuel) (bank_of cnt.0) (from buf read_size) n
              (bank_offset cnt.0 + cnt.1) s.disk) in
          let rest = w >>= λ v.
          read_loop fuel (memcpy buf read_size v.0 n) (read_size + n) (suc k - n) (offset + n)
            (record { store = r.1; disk = v.1 }) in
          let over = ltb bank_size (bank_offset cnt.0 + cnt.1 + n) in
          elim (n == 0) [
            | true ↦ ok (read_size, (buf, record s { store = r.1 }))
            | false ↦ if over then fault else rest
          ]
    ]

  -- `dhmp_fs_read`.
  unfoldable pub dhmp_fs_read : Bytes → ℕ → ℕ → Fs M → Run (ℤ × (Bytes × Fs M))
  unfolding read_loop int_of
  dhmp_fs_read buf size offset s =
      if (s.store.inode h).is_directories
      then ok (negsuc 0, (buf, s))
      else read_loop size buf 0 size offset s >>= λ r. ok (int_of r.0, r.1)
