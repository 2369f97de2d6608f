-- ===== src/File.antt =====
-- Files as the requests see them: the byte at an offset of a file, through its index, its chunk and
-- the cache (src/dhmp_fs_io.c over src/dhmp_fs_index.c).
pub mod Place
pub mod Room
pub mod Account
pub mod Written
pub mod Put
pub mod Round
pub mod Write
pub mod Read
pub mod RoundTrip
use mathlib.Core.Option
use fuse_node.Prelude.{ℕ, ◌+◌, ◌/◌, ◌%◌, ◌<◌, ◌≡◌, Option, none, some}
use fuse_node.Config.{chunk_size}
use fuse_node.Dhmp.{Bytes}
use fuse_node.Inode.{Store}
use fuse_node.Cache.View.{view}
use fuse_node.Io.{Fs, bank_of, bank_offset}
use fuse_node.File.Place.{slot_of}

-- The context of the chunk that holds offset `x` of the file at `h`.
abbrev pub context_at : Store → ℕ → ℕ → Option ℕ
context_at s h x = (s.inode h).addr (slot_of (x / chunk_size))

module _ {M : Type 0} where
  -- The byte of a chunk on the disk that the cache presents, where the servers hold `d`.
  abbrev pub chunk_byte : Fs M → (ℕ → Bytes) → ℕ → ℕ → ℕ
  chunk_byte s d c o = view s.disk d (bank_of c) (bank_offset c + o)

  -- The byte at offset `x` of the file at `h`, where the file has a chunk.
  abbrev pub file_byte : Fs M → (ℕ → Bytes) → ℕ → ℕ → Option ℕ
  file_byte s d h x = Option.map (λ c. chunk_byte s d c (x % chunk_size)) (context_at s.store h x)
