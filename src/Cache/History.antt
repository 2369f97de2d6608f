-- ===== src/Cache/History.antt =====
-- Histories of the cache: reads and writes of the requests and passes of the write-back thread, in
-- any order.
use fuse_node.Prelude.{
  ℕ, ◌+◌, ◌≤◌, ◌<◌, ◌≡◌, ◌≢◌, ◌⊎◌, refl, sym, ◌∙◌, Bool, none, some, List, [], ◌∷◌, ◌==◌,
  if◌then◌else◌, arith, inl, inr,
}
use fuse_node.Config.{bank_size, cache_size}
use fuse_node.Dhmp.{Dhmp, Bytes, memcpy}
use fuse_node.Remote.{ServerNode, find_alive_server}
use fuse_node.Remote.Replicas.{Synced}
use fuse_node.Cache.{
  Disk, cache_key, copy_out, init_cache, read_from_cache, write_to_cache, rewrite_dirty_cache,
}
use fuse_node.Cache.View.{view, IsCoherent}
use fuse_node.Cache.Access.{
  IsHit, read_from_cache-Delivered, copy_out_same, write_to_cache_hit, write_to_cache_as_read,
}
use fuse_node.Cache.Expel.{SameView, IsPicked}
use fuse_node.Cache.Rewrite.{rewrite_dirty_cache-SameView}

-- A write to a cached bank, as the history keeps it.
pub record Put : Type 0 where
  pub bank : ℕ
  pub offset : ℕ
  pub buf : Bytes
  pub size : ℕ

-- The disk after some writes, the last one first.
abbrev pub after : List Put → (ℕ → Bytes) → ℕ → Bytes
after [] v b = v b
after (w ∷ ws) v b =
    if b == w.bank then memcpy (after ws v b) w.offset w.buf w.size else after ws v b

module _ {M : Type 0} (net : Dhmp M) where
  -- The states that the cache reaches from `s` while a server stays connected, with the writes to
  -- cached banks on the way. A write to a bank that is not in the cache is a read.
  pub data Run (s : Disk M) : List Put → Disk M → Type 0 where
    begin : Run s [] s
    read :
        (ws : List Put) (t u : Disk M) (rand bank : ℕ) (buf got : Bytes) (size offset : ℕ)
        → Run s ws t
        → IsPicked net rand bank t
        → offset + size ≤ bank_size
        → read_from_cache net rand bank buf size offset t ≡ some (got, u)
        → find_alive_server u.servers ≢ none
        → Run s ws u
    written :
        (ws : List Put) (t u : Disk M) (rand : ℕ) (w : Put) (got : Bytes)
        → Run s ws t
        → IsHit t w.bank
        → write_to_cache net rand w.bank w.buf w.size w.offset t ≡ some (got, u)
        → Run s (w ∷ ws) u
    missed :
        (ws : List Put) (t u : Disk M) (rand bank : ℕ) (buf got : Bytes) (size offset : ℕ)
        → Run s ws t
        → t.hash_bank_id (cache_key bank) ≢ bank
        → IsPicked net rand bank t
        → offset + size ≤ bank_size
        → write_to_cache net rand bank buf size offset t ≡ some (got, u)
        → find_alive_server u.servers ≢ none
        → Run s ws u
    passed :
        (ws : List Put) (t : Disk M) (locked : ℕ → Bool)
        → Run s ws t
        → Run s ws (rewrite_dirty_cache net locked t)

  -- The cache is coherent and presents `v`.
  record Presents (t : Disk M) (v : ℕ → Bytes) : Type 0 where
    rest : ℕ → Bytes
    coherent : IsCoherent net t rest
    same : (b i : ℕ) → i < bank_size → view t rest b i ≡ v b i

  SameView-Presents :
      (t u : Disk M) (d d' : ℕ → Bytes) (v : ℕ → Bytes)
      → SameView net t d u d'
      → ((b i : ℕ) → i < bank_size → view t d b i ≡ v b i)
      → Presents u v
  SameView-Presents t u d d' v s same = record {
    rest = d';
    coherent = s.coherent;
    same = λ b i small. s.same b i small ∙ same b i small;
  }

  read-Presents :
      (t u : Disk M) (v : ℕ → Bytes) (rand bank : ℕ) (buf got : Bytes) (size offset : ℕ)
      → Presents t v
      → IsPicked net rand bank t
      → offset + size ≤ bank_size
      → read_from_cache net rand bank buf size offset t ≡ some (got, u)
      → find_alive_server u.servers ≢ none
      → Presents u v
  read-Presents t u v rand bank buf got size offset p picked fits run up =
      let (r, run', end) =
        read_from_cache-Delivered net rand bank buf size offset t p.rest p.coherent picked fits in
      let same : r.1 ≡ u = ground (arith, run, run') in
      elim end [
        | inl e ↦ SameView-Presents t u p.rest e.rest v (rw same at e.view_same) p.same
        | inr off ↦ absurd (up (rw same at off))
      ]

  written-Presents :
      (t u : Disk M) (v : ℕ → Bytes) (rand : ℕ) (w : Put) (got : Bytes)
      → Presents t v
      → IsHit t w.bank
      → write_to_cache net rand w.bank w.buf w.size w.offset t ≡ some (got, u)
      → Presents u (after (w ∷ []) v)
  written-Presents t u v rand w got p hit run =
      let (x, run', coherent, bytes) =
        write_to_cache_hit net rand w.bank w.buf w.size w.offset t p.rest p.coherent hit in
      let same : x ≡ u = ground (arith, run, run') in
      record {
        rest = p.rest;
        coherent = rw same at coherent;
        same = λ b i small. rw same at (bytes b i) ∙ ground (arith, p.same b i small);
      }

  Run-Presents :
      (s t : Disk M) (v : ℕ → Bytes) (ws : List Put)
      → Presents s v
      → Run s ws t
      → Presents t (after ws v)
  Run-Presents s t v _ p begin = p
  Run-Presents s t v _ p (read ws t0 u rand bank buf got size offset r picked fits run up) =
      read-Presents t0 t (after ws v) rand bank buf got size offset (Run-Presents s t0 v ws p r)
        picked fits run up
  Run-Presents s t v _ p (written ws' t0 u rand w got r hit run) =
      written-Presents t0 t (after ws' v) rand w got (Run-Presents s t0 v ws' p r) hit run
  Run-Presents s t v _ p (missed ws t0 u rand bank buf got size offset r miss picked fits run up) =
      read-Presents t0 t (after ws v) rand bank buf got size offset (Run-Presents s t0 v ws p r)
        picked fits (sym (write_to_cache_as_read net rand bank buf size offset t0 miss) ∙ run) up
  Run-Presents s t v _ p (passed ws t0 locked r) =
      let q = Run-Presents s t0 v ws p r in
      let (d', same) = rewrite_dirty_cache-SameView net locked t0 q.rest q.coherent in
      SameView-Presents t0 t q.rest d' (after ws v) same q.same

  -- From a coherent cache, over any history of reads, writes and passes of the write-back thread during
  -- which a server stays connected and `rand()` picks no server that is marked disconnected, reading
  -- within a bank, if `rand()` picks no such server for it either, delivers the bytes that the start
  -- presented with the writes to cached banks done in their order, unless no server is connected any
  -- more.
  pub read_from_cache-Run :
      (s t : Disk M) (d : ℕ → Bytes) (ws : List Put) (rand bank : ℕ) (buf : Bytes) (size offset : ℕ)
      → IsCoherent net s d
      → Run s ws t
      → IsPicked net rand bank t
      → offset + size ≤ bank_size
      → (r : Bytes × Disk M) × (read_from_cache net rand bank buf size offset t ≡ some r)
        × (((i : ℕ) → r.0 i ≡ copy_out buf (after ws (view s d) bank) size offset i)
            ⊎ (find_alive_server r.1.servers ≡ none))
  read_from_cache-Run s t d ws rand bank buf size offset good run picked fits =
      let p =
        Run-Presents s t (view s d) ws
          record { rest = d; coherent = good; same = λ b i small. refl } run in
      let (r, go, end) =
        read_from_cache-Delivered net rand bank buf size offset t p.rest p.coherent picked fits in
      (
        r,
        go,
        elim end [
          | inl e ↦ inl (λ i.
              e.read i
              ∙ copy_out_same buf (view t p.rest bank) (after ws (view s d) bank) size offset fits
                  (λ k small. p.same bank k small) i)
          | inr off ↦ inr off
        ],
      )

  -- The cache that `dhmp_init` builds is coherent, over servers that hold the same bytes and zeros in the
  -- banks that the cache starts with.
  pub init_cache-IsCoherent :
      (ns : List (ServerNode M)) (d : ℕ → Bytes)
      → Synced net ns d
      → ((b i : ℕ) → b < cache_size → i < bank_size → d b i ≡ 0)
      → IsCoherent net (init_cache ns) d
  unfolding init_cache
  init_cache-IsCoherent ns d synced zero_banks = record {
    hashed = λ k lt. refl;
    home = λ k lt. omega (arith, lt);
    clean = λ k i lt small c. sym (zero_banks k i lt small);
    synced = synced;
  }
