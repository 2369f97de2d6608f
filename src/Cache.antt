-- ===== src/Cache.antt =====
-- The DRAM cache of banks in src/dhmp_fs_io.c: `try_visit_cache`, `expel_cache_rewrite`,
-- `rewrite_dirty_cache`, `dhmp_fs_read_from_cache` and `dhmp_fs_write_to_cache`.
-- A result `none` is a fault of the read from the servers: `rand() % SERVERNUM` with no server.
pub mod View
pub mod Expel
pub mod Rewrite
pub mod Access
pub mod History
use mathlib.Core.Option
use fuse_node.Prelude.{
  ℕ, zero, suc, ◌+◌, ◌%◌, Bool, true, false, ◌&&◌, not, Option, none, some, List, ◌==◌,
  if◌then◌else◌,
}
use fuse_node.Config.{bank_size, cache_size}
use fuse_node.Dhmp.{Dhmp, Bytes, memcpy}
use fuse_node.Remote.{ServerNode, write_to_remote, read_from_remote}
use fuse_node.Inode.{update}

-- `cache_DRAM`
pub record CacheDram : Type 0 where
  pub contents : Bytes
  pub bank_id : ℕ
  pub dirty : Bool

-- `cache_hash[i]->bank_id`, the line `*cache_hash[i]->cache_ptr`, which never changes, and the
-- servers behind the cache.
pub record Disk (M : Type 0) : Type 0 where
  pub hash_bank_id : ℕ → ℕ
  pub line : ℕ → CacheDram
  pub servers : List (ServerNode M)

-- `bank_id & (CACHE_SIZE - 1)`, for a `CACHE_SIZE` that is a power of two.
abbrev pub cache_key : ℕ → ℕ
cache_key bank = bank % cache_size

-- `memcpy(buf, data + offset, size)`
abbrev pub copy_out : Bytes → Bytes → ℕ → ℕ → Bytes
copy_out buf bytes size offset = memcpy buf 0 (λ k. bytes (offset + k)) size

-- The argument `type` of `try_visit_cache`.
pub data Visit : Type 0 where
  reading writing : Visit

-- The start of `dhmp_init`: line `i` holds bank `i`, zero and clean.
unfoldable pub init_cache : {M : Type 0} → List (ServerNode M) → Disk M
init_cache ns = record {
  hash_bank_id = λ i. i;
  line = λ i. record { contents = λ _. 0; bank_id = i; dirty = false };
  servers = ns;
}

module _ {M : Type 0} where
  -- Whether the cache was hit, the buffer and the state after it.
  unfoldable pub try_visit_cache : ℕ → Bytes → ℕ → ℕ → Visit → Disk M → Bool × Bytes × Disk M
  try_visit_cache bank buf size offset visit s =
      let k = cache_key bank in
      let l = s.line k in
      if not (s.hash_bank_id k == bank) then (false, buf, s) else elim visit [
        | reading ↦ (true, copy_out buf l.contents size offset, s)
        | writing ↦ (
          true,
          buf,
          record s {
            line =
                update s.line k
                  (record l { contents = memcpy l.contents offset buf size; dirty = true });
          },
        )
      ]

module _ {M : Type 0} (net : Dhmp M) where
  -- The write-back of a line to the servers, if it is dirty.
  unfoldable pub write_back : CacheDram → List (ServerNode M) → List (ServerNode M)
  write_back l ns = if l.dirty then write_to_remote net l.bank_id l.contents bank_size 0 ns else ns

  -- One line in a round of `rewrite_dirty_cache`; `locked` says that its `trylock` fails.
  unfoldable pub rewrite_line : Bool → ℕ → Disk M → Disk M
  unfolding write_back
  rewrite_line locked i s =
      let l = s.line i in
      if l.dirty && not locked
      then record s {
        line = update s.line i (record l { dirty = false });
        servers = write_back l s.servers;
      }
      else s

  -- The rounds from line `i` on, `n` of them left.
  unfoldable pub rewrite_lines : (ℕ → Bool) → ℕ → ℕ → Disk M → Disk M
  unfolding rewrite_line
  rewrite_lines locked zero i s = s
  rewrite_lines locked (suc n) i s = rewrite_lines locked n (i + 1) (rewrite_line (locked i) i s)

  -- One pass of the thread over the whole cache.
  unfoldable pub rewrite_dirty_cache : (ℕ → Bool) → Disk M → Disk M
  unfolding rewrite_lines
  rewrite_dirty_cache locked s = rewrite_lines locked cache_size 0 s

  -- `expel_cache_rewrite`, with the value of `rand()`. Whether the fetch delivered is not looked at.
  unfoldable pub expel_cache_rewrite : ℕ → ℕ → Disk M → Option (Disk M)
  unfolding write_back
  expel_cache_rewrite rand new s =
      let k = cache_key new in
      let l = s.line k in
      if l.bank_id == new
      then some s
      else Option.map
          (λ r. record {
            hash_bank_id = update s.hash_bank_id (cache_key l.bank_id) new;
            line = update s.line k (record { contents = r.1; bank_id = new; dirty = false });
            servers = r.2;
          })
          (read_from_remote net rand new bank_size 0 l.contents (write_back l s.servers))

  unfoldable pub read_from_cache : ℕ → ℕ → Bytes → ℕ → ℕ → Disk M → Option (Bytes × Disk M)
  unfolding try_visit_cache expel_cache_rewrite
  read_from_cache rand bank buf size offset s =
      let t = try_visit_cache bank buf size offset reading s in
      if t.0
      then some (t.1, t.2)
      else Option.map (λ s'. let u = try_visit_cache bank buf size offset reading s' in (u.1, u.2))
          (expel_cache_rewrite rand bank s)

  -- After a miss the second visit has `type` 1 in the source: it reads into the buffer.
  unfoldable pub write_to_cache : ℕ → ℕ → Bytes → ℕ → ℕ → Disk M → Option (Bytes × Disk M)
  unfolding try_visit_cache expel_cache_rewrite
  write_to_cache rand bank buf size offset s =
      let t = try_visit_cache bank buf size offset writing s in
      if t.0
      then some (t.1, t.2)
      else Option.map (λ s'. let u = try_visit_cache bank buf size offset reading s' in (u.1, u.2))
          (expel_cache_rewrite rand bank s)
