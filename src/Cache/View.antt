-- ===== src/Cache/View.antt =====
-- The disk that the cache presents: each bank as its line holds it, or as the servers do.
use fuse_node.Prelude.{
  ℕ, ◌<◌, ◌≡◌, ◌≢◌, false, List, ◌==◌, if◌then◌else◌, arith, Bool-cases, inl, inr,
}
use fuse_node.Config.{bank_size, cache_size}
use fuse_node.Dhmp.{Dhmp, Bytes}
use fuse_node.Remote.Replicas.{Synced, written, write_to_remote-Synced}
use fuse_node.Remote.{ServerNode}
use fuse_node.Cache.{CacheDram, Disk, cache_key, write_back}

module _ {M : Type 0} where
  -- The byte `i` of a bank, where the connected servers hold `d`.
  abbrev pub view : Disk M → (ℕ → Bytes) → ℕ → Bytes
  view s d b i =
      if s.hash_bank_id (cache_key b) == b then (s.line (cache_key b)).contents i else d b i

module _ {M : Type 0} (net : Dhmp M) where
  -- Each line stands under the key of its bank, a clean line holds what the servers hold, and the
  -- connected servers hold the same.
  pub record IsCoherent (s : Disk M) (d : ℕ → Bytes) : Type 0 where
    pub hashed : (k : ℕ) → k < cache_size → s.hash_bank_id k ≡ (s.line k).bank_id
    pub home : (k : ℕ) → k < cache_size → cache_key (s.hash_bank_id k) ≡ k
    pub clean :
        (k i : ℕ)
        → k < cache_size
        → i < bank_size
        → (s.line k).dirty ≡ false
        → (s.line k).contents i ≡ d (s.hash_bank_id k) i
    pub synced : Synced net s.servers d

  -- The shared bytes after the write-back of a line.
  abbrev pub after_write_back : CacheDram → (ℕ → Bytes) → ℕ → Bytes
  after_write_back l d = if l.dirty then written net d l.bank_id l.contents bank_size 0 else d

  pub write_back-Synced :
      (l : CacheDram) (ns : List (ServerNode M)) (d : ℕ → Bytes)
      → Synced net ns d
      → Synced net (write_back net l ns) (after_write_back l d)
  unfolding write_back
  write_back-Synced l ns d h = elim (Bool-cases l.dirty) [
    | inl e ↦ rw e (write_to_remote-Synced net ns d l.bank_id l.contents bank_size 0 h)
    | inr e ↦ rw e h
  ]

  -- The write-back changes no other bank, and puts the line into its own.
  pub after_write_back_other :
      (l : CacheDram) (d : ℕ → Bytes) (b i : ℕ) → b ≢ l.bank_id → after_write_back l d b i ≡ d b i
  after_write_back_other l d b i ne = ground arith

  pub after_write_back_own :
      (l : CacheDram) (d : ℕ → Bytes) (i : ℕ)
      → i < bank_size
      → (l.dirty ≡ false → l.contents i ≡ d l.bank_id i)
      → after_write_back l d l.bank_id i ≡ l.contents i
  after_write_back_own l d i lt same = ground arith
