-- ===== src/File/Write.antt =====
-- `dhmp_fs_write` over any number of chunks, as a write to the bytes of a file.
use fuse_node.Prelude.{
  ℕ, zero, suc, ◌+◌, ◌-◌, ◌*◌, ◌%◌, ◌≤◌, ◌<◌, ◌≡◌, ◌≢◌, refl, ap, ◌∙◌, false, none, some, leb,
  arith, Bool-cases, Option-cases, inl, inr,
}
use fuse_node.Config.{chunk_size, size_third_direct_end}
use fuse_node.Dhmp.{Dhmp, Bytes}
use fuse_node.Outcome.{ok, ◌>>=◌}
use fuse_node.Io.{Fs, write_loop, dhmp_fs_write, int_of}
use fuse_node.File.{context_at, file_byte}
use fuse_node.File.Put.{piece}
use fuse_node.File.Round.{Round, round}
use fuse_node.File.Written.{Written, Written-none, Written-trans, Ready, Ready-le}

-- What is left after a piece, where `m` more chunks are enough for it.
piece_rest :
    (offset k m n : ℕ)
    → n ≡ piece (offset % chunk_size) (suc k)
    → suc k ≤ chunk_size * suc m - offset % chunk_size
    → (n ≤ suc k) × (0 < n) × (suc k - n ≤ chunk_size * m - (offset + n) % chunk_size)
piece_rest offset k m n size enough =
    elim (Bool-cases (leb (chunk_size - offset % chunk_size) (suc k))) [
      | inl e ↦
          let f = rw e at size in (ground (arith, e, f), omega (arith, f), omega (arith, f, enough))
      | inr e ↦ let f = rw e at size in (omega (arith, f), omega (arith, f), ground (arith, e, f))
    ]

module _ {M : Type 0} (net : Dhmp M) (rand : ℕ → ℕ) (h : ℕ) where
  -- What the rounds of a write leave behind.
  pub record Rounds (s : Fs M) (d : ℕ → Bytes) (fuel : ℕ) (buf : Bytes) (ws un offset : ℕ)
      : Type 0 where
    pub after : Fs M
    pub run : write_loop net rand h fuel buf ws un offset s ≡ ok (buf, after)
    pub written : Written s after d h offset un (λ x. buf (ws + (x - offset)))
    pub ready : Ready net h after d 0

  Written-inside :
      (s t : Fs M) (d : ℕ → Bytes) (size offset : ℕ) (buf : Bytes)
      → Written s t d h offset size (λ x. buf (0 + (x - offset)))
      → (x : ℕ) → offset ≤ x
      → x < offset + size
      → file_byte t d h x ≡ some (buf (x - offset))
  Written-inside s t d size offset buf w x le lt =
      let (c, held, byte) = w.inside x le lt in
      let e : 0 + (x - offset) ≡ x - offset = omega arith in
      rw (file_byte, held.at) (ap some (byte ∙ ap buf e))

  Written-outside :
      (s t : Fs M) (d : ℕ → Bytes) (size offset : ℕ) (f : Bytes)
      → Written s t d h offset size f
      → (g x : ℕ) → (g ≡ h → offset ≤ x → x < offset + size → ⊥)
      → file_byte s d g x ≢ none
      → file_byte t d g x ≡ file_byte s d g x
  Written-outside s t d size offset f w g x off had = elim (Option-cases (context_at s.store g x)) [
    | inl e ↦ absurd (had (rw (file_byte, e) refl))
    | inr (c, e) ↦ rw (file_byte, e, w.contexts g x c e) (ap some (w.outside g x c e off))
  ]

  join_more :
      (s : Fs M) (d : ℕ → Bytes) (fuel : ℕ) (buf : Bytes) (ws k offset m : ℕ)
      → (r : Round net rand h s d fuel buf ws (suc k) offset m) → r.n ≤ suc k
      → Rounds r.after d fuel buf (ws + r.n) (suc k - r.n) (offset + r.n)
      → Rounds s d (suc fuel) buf ws (suc k) offset
  join_more s d fuel buf ws k offset m r le rest =
      let all : r.n + (suc k - r.n) ≡ suc k = omega (arith, le) in
      record {
        after = rest.after;
        run = r.run ∙ rest.run;
        written = rw all at (
            Written-trans s r.after rest.after d h offset r.n (suc k - r.n)
              (λ x. buf (ws + (x - offset))) (λ x. buf (ws + r.n + (x - (offset + r.n)))) r.written
              rest.written (λ x past. ap buf (omega (arith, past))));
        ready = rest.ready;
      }

  pub write_all :
      (s : Fs M) (d : ℕ → Bytes) (fuel : ℕ) (buf : Bytes) (ws un offset m : ℕ)
      → un ≤ fuel
      → offset + un ≤ size_third_direct_end
      → un ≤ chunk_size * m - offset % chunk_size
      → Ready net h s d m
      → Rounds s d fuel buf ws un offset
  unfolding write_loop
  write_all s d fuel buf ws zero offset m le small enough ready = record {
    after = s;
    run = refl;
    written = Written-none s d h offset (λ x. buf (ws + (x - offset)));
    ready = Ready-le net h s d 0 m (omega arith) ready;
  }
  write_all s d zero buf ws (suc k) offset m le small enough ready = absurd (omega arith)
  write_all s d (suc fuel) buf ws (suc k) offset zero le small enough ready = absurd (omega arith)
  write_all s d (suc fuel) buf ws (suc k) offset (suc m) le small enough ready =
      let r = round net rand h s d fuel buf ws k offset m (omega arith) ready in
      let facts = piece_rest offset k m r.n r.size enough in
      join_more s d fuel buf ws k offset m r facts.0 (
        write_all r.after d fuel buf (ws + r.n) (suc k - r.n) (offset + r.n) m
          (omega (arith, facts.1)) (omega (arith, facts.0)) facts.2 r.ready)

  -- With sound files and a coherent cache, a write to a file that ends within the largest file size,
  -- with as many free chunks as it can need, and with the banks of the next ones
  -- that the allocator gives and those of the file's chunks in the cache, returns its size as an
  -- `int`. The bytes of the file from `offset` on are those of
  -- the buffer afterwards, and every other byte that this file or another one had is as before.
  pub dhmp_fs_write-file :
      (buf : Bytes) (size offset n : ℕ) (s : Fs M) (d : ℕ → Bytes)
      → (s.store.inode h).is_directories ≡ false
      → offset + size ≤ size_third_direct_end
      → offset % chunk_size + size ≤ chunk_size * n
      → Ready net h s d n
      → (t : Fs M) × (dhmp_fs_write net rand h buf size offset s ≡ ok (int_of size, (buf, t)))
        × ((x : ℕ) → offset ≤ x → x < offset + size → file_byte t d h x ≡ some (buf (x - offset)))
        × ((g x : ℕ)
            → (g ≡ h → offset ≤ x → x < offset + size → ⊥)
            → file_byte s d g x ≢ none
            → file_byte t d g x ≡ file_byte s d g x)
  unfolding dhmp_fs_write
  dhmp_fs_write-file buf size offset n s d file small enough ready =
      let r =
        write_all s d size buf 0 size offset n (omega arith) small (omega (arith, enough)) ready in
      (
        r.after,
        rw (file, r.run, ◌>>=◌) refl,
        Written-inside s r.after d size offset buf r.written,
        Written-outside s r.after d size offset (λ x. buf (0 + (x - offset))) r.written,
      )
