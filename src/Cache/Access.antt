-- ===== src/Cache/Access.antt =====
-- `dhmp_fs_read_from_cache` and `dhmp_fs_write_to_cache`, over the disk that the cache presents.
use fuse_node.Prelude.{
  ℕ, ◌+◌, ◌-◌, ◌≤◌, ◌<◌, ◌≡◌, ◌≢◌, ◌⊎◌, refl, sym, ◌∙◌, true, none, some, ◌==◌, if◌then◌else◌,
  arith, Bool-cases, ==_iff, ==_refl, inl, inr,
}
use fuse_node.Config.{bank_size}
use fuse_node.Dhmp.{Dhmp, Bytes, memcpy}
use fuse_node.Remote.{find_alive_server}
use fuse_node.Inode.{update}
use fuse_node.Cache.{
  Disk, cache_key, copy_out, reading, try_visit_cache, read_from_cache, write_to_cache,
}
use fuse_node.Cache.View.{view, IsCoherent}
use fuse_node.Cache.Expel.{SameView, IsPicked, expel_cache_rewrite-Brought}

-- The bank is in the cache.
abbrev pub IsHit : {M : Type 0} → Disk M → ℕ → Type 0
IsHit s bank = s.hash_bank_id (cache_key bank) ≡ bank

visit_read_bytes :
    {M : Type 0} (s : Disk M) (bank size offset : ℕ) (buf : Bytes)
    → IsHit s bank
    → (try_visit_cache bank buf size offset reading s).1
      ≡ copy_out buf (s.line (cache_key bank)).contents size offset
unfolding try_visit_cache
visit_read_bytes s bank size offset buf hit =
    rw ((==_iff (s.hash_bank_id (cache_key bank)) bank).1 hit) refl

-- A cached bank reads as its line.
pub view_hit :
    {M : Type 0} (s : Disk M) (d : ℕ → Bytes) (bank i : ℕ)
    → IsHit s bank
    → view s d bank i ≡ (s.line (cache_key bank)).contents i
view_hit s d bank i hit = rw ((==_iff (s.hash_bank_id (cache_key bank)) bank).1 hit) refl

pub copy_out_same :
    (buf f g : Bytes) (size offset : ℕ)
    → offset + size ≤ bank_size
    → ((i : ℕ) → i < bank_size → f i ≡ g i)
    → (i : ℕ) → copy_out buf f size offset i ≡ copy_out buf g size offset i
copy_out_same buf f g size offset fits same i = ground (arith, same (offset + (i - 0)))

visit_read_state :
    {M : Type 0} (s : Disk M) (bank size offset : ℕ) (buf : Bytes)
    → (try_visit_cache bank buf size offset reading s).2 ≡ s
unfolding try_visit_cache
visit_read_state s bank size offset buf = ground arith

module _ {M : Type 0} (net : Dhmp M) where
  -- What reading the cache leaves behind: the same disk and its bytes in the buffer, or no server.
  pub record Delivered (s : Disk M) (d : ℕ → Bytes) (bank : ℕ) (buf : Bytes) (size offset : ℕ)
      (r : Bytes × Disk M) : Type 0 where
    pub rest : ℕ → Bytes
    pub view_same : SameView net s d r.1 rest
    pub read : (i : ℕ) → r.0 i ≡ copy_out buf (view s d bank) size offset i

  -- A visit that reads a cached bank delivers the disk that an earlier state presented.
  delivered :
      (s : Disk M) (d : ℕ → Bytes) (bank : ℕ) (buf : Bytes) (size offset : ℕ) (d' : ℕ → Bytes)
      (t : Disk M)
      → IsHit t bank
      → SameView net s d t d'
      → offset + size ≤ bank_size
      → let u = try_visit_cache bank buf size offset reading t in
        Delivered s d bank buf size offset (u.1, u.2)
  delivered s d bank buf size offset d' t at same fits = record {
    rest = d';
    view_same = rw (visit_read_state t bank size offset buf) same;
    read = λ i. rw (visit_read_bytes t bank size offset buf at) (
        copy_out_same buf (t.line (cache_key bank)).contents (view s d bank) size offset fits
          (λ k small. sym (view_hit t d' bank k at) ∙ same.same bank k small) i);
  }

  visit_hit_run :
      (rand bank : ℕ) (buf : Bytes) (size offset : ℕ) (s : Disk M)
      → (s.hash_bank_id (cache_key bank) == bank) ≡ true
      → let u = try_visit_cache bank buf size offset reading s in
        read_from_cache net rand bank buf size offset s ≡ some (u.1, u.2)
  unfolding read_from_cache try_visit_cache
  visit_hit_run rand bank buf size offset s hit = rw hit refl

  -- A read of a cached bank delivers the bytes of its line and changes nothing.
  pub read_from_cache_hit :
      (rand bank : ℕ) (buf : Bytes) (size offset : ℕ) (s : Disk M)
      → IsHit s bank
      → read_from_cache net rand bank buf size offset s
        ≡ some (copy_out buf (s.line (cache_key bank)).contents size offset, s)
  read_from_cache_hit rand bank buf size offset s hit =
      visit_hit_run rand bank buf size offset s
        ((==_iff (s.hash_bank_id (cache_key bank)) bank).1 hit)
      ∙ (rw (visit_read_bytes s bank size offset buf hit, visit_read_state s bank size offset buf)
          refl)

  -- From a coherent cache, reading `size` bytes within a bank, hit or miss, delivers the bytes that the disk presents and
  -- leaves it presenting the same ones, unless no server is connected any more, if `rand()` picks no
  -- server that is marked disconnected.
  pub read_from_cache-Delivered :
      (rand bank : ℕ) (buf : Bytes) (size offset : ℕ) (s : Disk M) (d : ℕ → Bytes)
      → IsCoherent net s d
      → IsPicked net rand bank s
      → offset + size ≤ bank_size
      → (r : Bytes × Disk M) × (read_from_cache net rand bank buf size offset s ≡ some r)
        × (Delivered s d bank buf size offset r ⊎ (find_alive_server r.1.servers ≡ none))
  unfolding read_from_cache
  read_from_cache-Delivered rand bank buf size offset s d ok picked fits =
      elim (Bool-cases (s.hash_bank_id (cache_key bank) == bank)) [
        | inl hit ↦
            let at : IsHit s bank = (==_iff (s.hash_bank_id (cache_key bank)) bank).0 hit in
            let u = try_visit_cache bank buf size offset reading s in
            (
              (u.1, u.2),
              visit_hit_run rand bank buf size offset s hit,
              inl (
                  delivered s d bank buf size offset d s at
                    record { coherent = ok; same = λ b i small. refl } fits),
            )
        | inr miss ↦
            let (t, run, brought) = expel_cache_rewrite-Brought net rand bank s d ok picked in
            let u = try_visit_cache bank buf size offset reading t in
            (
              (u.1, u.2),
              rw (miss, run) refl,
              elim brought [
                | inl (d', same, at) ↦ inl (delivered s d bank buf size offset d' t at same fits)
                | inr off ↦ inr (rw (visit_read_state t bank size offset buf) off)
              ],
            )
      ]

  -- A write whose bank is in the cache puts exactly its bytes into the disk.
  pub write_to_cache_hit :
      (rand bank : ℕ) (buf : Bytes) (size offset : ℕ) (s : Disk M) (d : ℕ → Bytes)
      → IsCoherent net s d
      → IsHit s bank
      → (t : Disk M) × (write_to_cache net rand bank buf size offset s ≡ some (buf, t))
        × IsCoherent net t d
        × ((b i : ℕ)
            → view t d b i
              ≡ (if b == bank then memcpy (view s d b) offset buf size i else view s d b i))
  unfolding write_to_cache try_visit_cache
  write_to_cache_hit rand bank buf size offset s d ok hit =
      let e : (s.hash_bank_id (cache_key bank) == bank) ≡ true = (==_iff _ _).1 hit in
      let l = s.line (cache_key bank) in
      let t : Disk M = record s {
        line =
            update s.line (cache_key bank)
              (record l { contents = memcpy l.contents offset buf size; dirty = true });
      } in
      (
        t,
        rw e refl,
        record {
          hashed = λ k lt. ground (arith, ok.hashed k lt);
          home = ok.home;
          clean = λ k i lt small c. elim (Bool-cases (cache_key bank == k)) [
            | inl q ↦ ground (arith, q, rw q at c)
            | inr q ↦ rw q (ok.clean k i lt small (rw q at c))
          ];
          synced = ok.synced;
        },
        λ b i. elim (Bool-cases (b == bank)) [
          | inl q ↦
              let p : b ≡ bank = (==_iff b bank).0 q in
              rw (p, ==_refl, e) (ground (arith, view_hit s d bank i hit))
          | inr q ↦ elim (Bool-cases (cache_key bank == cache_key b)) [
            | inl k ↦
                let p : cache_key b ≡ cache_key bank = ground (arith, k) in
                rw (q, p, hit) (ground (arith, q))
            | inr k ↦ rw (q, k) refl
          ]
        ],
      )

  -- Such a write brings no bank into the cache and expels none.
  pub write_to_cache_lines :
      (rand bank : ℕ) (buf buf' : Bytes) (size offset : ℕ) (s t : Disk M)
      → IsHit s bank
      → write_to_cache net rand bank buf size offset s ≡ some (buf', t)
      → (b : ℕ) → IsHit s b
      → IsHit t b
  unfolding write_to_cache try_visit_cache
  write_to_cache_lines rand bank buf buf' size offset s t hit run =
      let e : (s.hash_bank_id (cache_key bank) == bank) ≡ true = (==_iff _ _).1 hit in
      λ b h. ground (arith, rw e at run)

  -- A write whose bank is not in the cache does what a read does.
  pub write_to_cache_as_read :
      (rand bank : ℕ) (buf : Bytes) (size offset : ℕ) (s : Disk M)
      → s.hash_bank_id (cache_key bank) ≢ bank
      → write_to_cache net rand bank buf size offset s
        ≡ read_from_cache net rand bank buf size offset s
  unfolding write_to_cache read_from_cache try_visit_cache
  write_to_cache_as_read rand bank buf size offset s miss =
      elim (Bool-cases (s.hash_bank_id (cache_key bank) == bank)) [
        | inl e ↦ absurd (miss ((==_iff _ _).0 e))
        | inr e ↦ rw e refl
      ]

  -- From a coherent cache, a write within a bank that is not in the cache is lost, if `rand()` picks
  -- no server that is marked disconnected: it returns, with the bytes that the disk presents there in the caller's buffer
  -- and the disk presenting the same bytes as before, unless no server is connected any more.
  pub write_to_cache_miss :
      (rand bank : ℕ) (buf : Bytes) (size offset : ℕ) (s : Disk M) (d : ℕ → Bytes)
      → s.hash_bank_id (cache_key bank) ≢ bank
      → IsCoherent net s d
      → IsPicked net rand bank s
      → offset + size ≤ bank_size
      → (r : Bytes × Disk M) × (write_to_cache net rand bank buf size offset s ≡ some r)
        × (Delivered s d bank buf size offset r ⊎ (find_alive_server r.1.servers ≡ none))
  write_to_cache_miss rand bank buf size offset s d miss good picked fits =
      let (r, run, end) =
        read_from_cache-Delivered rand bank buf size offset s d good picked fits in
      (r, write_to_cache_as_read rand bank buf size offset s miss ∙ run, end)
