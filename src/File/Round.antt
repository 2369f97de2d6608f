-- ===== src/File/Round.antt =====
-- One round of the write loop of `dhmp_fs_write`, where the chunk that it reaches is in the cache.
use fuse_node.Prelude.{
  ℕ, suc, ◌+◌, ◌-◌, ◌/◌, ◌%◌, ◌<◌, ◌≡◌, ◌⊎◌, refl, sym, ◌∙◌, some, arith, inl, inr,
}
use fuse_node.Config.{chunk_size, size_third_direct_end}
use fuse_node.Dhmp.{Dhmp, Bytes}
use fuse_node.Outcome.{◌>>=◌, of_option}
use fuse_node.Cache.{Disk, write_to_cache}
use fuse_node.Cache.View.{IsCoherent}
use fuse_node.Cache.Access.{IsHit, write_to_cache_hit, write_to_cache_lines}
use fuse_node.Io.{Fs, bank_of, bank_offset, from, account, write_loop}
use fuse_node.Io.Single.{write_context_run}
use fuse_node.Io.Total.{account-IsSound}
use fuse_node.File.{context_at}
use fuse_node.File.Place.{slot_of}
use fuse_node.File.Room.{Room-le, Gives-Room}
use fuse_node.File.Account.{
  Looked, looked, account-addr, account-chunks, account-is_directories, account-grows,
  account-reaches,
}
use fuse_node.File.Put.{memcpy_self, piece, put-Written, Gives-from}
use fuse_node.File.Written.{Written, Ready, Supply-le, Supply-lines}

module _ {M : Type 0} (net : Dhmp M) (rand : ℕ → ℕ) (h : ℕ) where
  -- The chunk that a lookup for writing gives is in the cache.
  Looked-IsHit :
      (s : Fs M) (d : ℕ → Bytes) (offset m : ℕ)
      → Ready net h s d (suc m)
      → (l : Looked offset h s.store) → IsHit s.disk (bank_of l.cnt)
  Looked-IsHit s d offset m ready l = elim l.gives.origin [
    | inl old ↦ ready.file_cached offset l.cnt old
    | inr (_, lt, free) ↦ elim l.gives.drawn [
      | inr e ↦ (ready.supply l.cnt l.after.chunks e).0
      | inl same ↦ absurd (let k = l.gives.bitmap l.cnt in ground (arith, rw same at k, free))
    ]
  ]

  -- What one round leaves behind.
  pub record Round (s : Fs M) (d : ℕ → Bytes) (fuel : ℕ) (buf : Bytes) (ws un offset m : ℕ)
      : Type 0 where
    pub n : ℕ
    pub size : n ≡ piece (offset % chunk_size) un
    pub after : Fs M
    pub run :
        write_loop net rand h (suc fuel) buf ws un offset s
        ≡ write_loop net rand h fuel buf (ws + n) (un - n) (offset + n) after
    pub written : Written s after d h offset n (λ x. buf (ws + (x - offset)))
    pub ready : Ready net h after d m

  round_run :
      (s : Fs M) (fuel : ℕ) (buf : Bytes) (ws k offset : ℕ) (l : Looked offset h s.store)
      (t : Disk M)
      → write_to_cache net
          (rand fuel)
          (bank_of l.cnt)
          (from buf ws)
          (piece (offset % chunk_size) (suc k))
          (bank_offset l.cnt + offset % chunk_size)
          s.disk
        ≡ some (from buf ws, t)
      → let n = piece (offset % chunk_size) (suc k) in
        write_loop net rand h (suc fuel) buf ws (suc k) offset s
        ≡ write_loop net rand h fuel buf
            (ws + n)
            (suc k - n)
            (offset + n)
            (record { store = account h l.cnt (offset % chunk_size) (suc k) l.after; disk = t })
  unfolding write_loop
  round_run s fuel buf ws k offset l t put =
      rw
        (
          write_context_run net rand h offset l.cnt (offset % chunk_size) s.store l.after l.run,
          ◌>>=◌,
        )
        (rw (put, ◌>>=◌, of_option)
          (rw (memcpy_self buf ws (piece (offset % chunk_size) (suc k))) refl))

  round_Ready :
      (s : Fs M) (d : ℕ → Bytes) (offset un m : ℕ) (l : Looked offset h s.store) (t : Disk M)
      → Ready net h s d (suc m)
      → IsCoherent net t d
      → ((b : ℕ) → IsHit s.disk b → IsHit t b)
      → Ready net h
          (record { store = account h l.cnt (offset % chunk_size) un l.after; disk = t })
          d
          m
  round_Ready s d offset un m l t ready coherent lines = record {
    sound = account-IsSound h l.cnt (offset % chunk_size) un l.after record {
      consistent = l.gives.consistent;
      bounded = λ c. rw l.gives.sizes (ready.sound.bounded c);
    };
    coherent = coherent;
    room =
        (let r =
            Gives-Room s.store l.after h l.cnt m (slot_of (offset / chunk_size)) l.gives
              ready.room in
          record {
            spare = r.spare;
            distinct = r.distinct;
            free =
                λ c at. rw (account-chunks h l.cnt (offset % chunk_size) un l.after) (r.free c at);
            enough = r.enough;
          });
    supply = rw (account-chunks h l.cnt (offset % chunk_size) un l.after) (
        Supply-lines s.disk t lines m l.after.chunks (elim l.gives.drawn [
          | inr e ↦ (ready.supply l.cnt l.after.chunks e).1
          | inl same ↦
              rw same (Supply-le s.disk m (suc m) (omega arith) s.store.chunks ready.supply)
        ]));
    file_cached = λ x c at. lines (bank_of c) (elim (file_from x c at) [
      | inl old ↦ ready.file_cached x c old
      | inr new ↦ rw new (Looked-IsHit s d offset m ready l)
    ]);
  }
    where
      file_from :
          (x c : ℕ)
          → context_at (account h l.cnt (offset % chunk_size) un l.after) h x ≡ some c
          → (context_at s.store h x ≡ some c) ⊎ (c ≡ l.cnt)
      file_from x c at =
          Gives-from s.store l.after h l.cnt h c (slot_of (offset / chunk_size))
            (slot_of (x / chunk_size)) l.gives
            (sym
                (account-addr h l.cnt (offset % chunk_size) un l.after h (slot_of (x / chunk_size)))
              ∙ at)

  pub round :
      (s : Fs M) (d : ℕ → Bytes) (fuel : ℕ) (buf : Bytes) (ws k offset m : ℕ)
      → offset < size_third_direct_end
      → Ready net h s d (suc m)
      → Round s d fuel buf ws (suc k) offset m
  round s d fuel buf ws k offset m lt ready =
      let room1 = Room-le s.store 1 (suc m) (omega arith) ready.room in
      let l = looked offset h s.store lt ready.sound.consistent room1 in
      let o = offset % chunk_size in
      let n = piece o (suc k) in
      let hit = Looked-IsHit s d offset m ready l in
      let (t, put, coherent, bytes) =
        write_to_cache_hit net (rand fuel) (bank_of l.cnt) (from buf ws) n (bank_offset l.cnt + o)
          s.disk d ready.coherent hit in
      let lines =
        write_to_cache_lines net (rand fuel) (bank_of l.cnt) (from buf ws) (from buf ws) n
          (bank_offset l.cnt + o) s.disk t hit put in
      let u : Fs M = record { store = account h l.cnt o (suc k) l.after; disk = t } in
      record {
        n = n;
        size = refl;
        after = u;
        run = round_run s fuel buf ws k offset l t put;
        written =
            put-Written s u d h l.cnt offset n l.after (from buf ws) ready.sound.consistent l.gives
              (account-addr h l.cnt o (suc k) l.after)
              (account-is_directories h l.cnt o (suc k) l.after)
              (account-grows h l.cnt o (suc k) l.after
                (λ c. rw l.gives.sizes (ready.sound.bounded c)))
              (λ x small. account-reaches h l.cnt o (suc k) l.after x small (omega arith))
              (ground arith) bytes;
        ready = round_Ready s d offset (suc k) m l t ready coherent lines;
      }
