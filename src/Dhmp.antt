-- ===== src/Dhmp.antt =====
-- The calls of the DHMP client that the file system makes for one server (`dhmp_read` and
-- `dhmp_write` of dhmp_client/include/dhmp.h), as an interface.
use fuse_node.Prelude.{ℕ, ◌+◌, ◌-◌, ◌<◌, ◌≡◌, Bool, true, ◌&&◌, ltb, leb, if◌then◌else◌, ◌==◌}

-- A buffer, by the index of its bytes.
abbrev pub Bytes : Type 0
Bytes = ℕ → ℕ

-- `memcpy(dst + at, src, size)`
abbrev pub memcpy : Bytes → ℕ → Bytes → ℕ → Bytes
memcpy dst at src size i = if leb at i && ltb i (at + size) then src (i - at) else dst i

-- `M` is the client's view of one server, with the bytes of its banks. A call returns whether it
-- succeeded (it did not return -1), and a call may fail at any time. A successful read delivers the
-- bytes of the bank, a successful write puts the bytes of the buffer there, and no call changes any
-- other byte. What a failed write leaves in the bytes it was to write is open.
pub record Dhmp (M : Type 0) : Type 0 where
  pub dhmp_read : M → ℕ → ℕ → ℕ → Bool × Bytes × M
  pub dhmp_write : M → ℕ → Bytes → ℕ → ℕ → Bool × M
  pub bytes : M → ℕ → Bytes
  pub read_bytes :
      (m : M) (bank size offset : ℕ) (i : ℕ)
      → (dhmp_read m bank size offset).0 ≡ true
      → i < size
      → (dhmp_read m bank size offset).1 i ≡ bytes m bank (offset + i)
  pub read_keeps :
      (m : M) (bank size offset : ℕ) (b i : ℕ)
      → bytes (dhmp_read m bank size offset).2 b i ≡ bytes m b i
  pub write_bytes :
      (m : M) (bank : ℕ) (buf : Bytes) (size offset : ℕ) (b i : ℕ)
      → (dhmp_write m bank buf size offset).0 ≡ true
      → bytes (dhmp_write m bank buf size offset).1 b i
        ≡ (if b == bank then memcpy (bytes m b) offset buf size i else bytes m b i)
