-- ===== src/File/Written.antt =====
-- What a write does to the bytes of all files, and the states in which it needs no server.
use fuse_node.Prelude.{
  ℕ, zero, suc, ◌+◌, ◌%◌, ◌≤◌, ◌<◌, ◌≡◌, refl, ◌∙◌, some, ltb, arith, Bool-cases, inl, inr, ltb→lt,
  ltb→le,
}
use fuse_node.Config.{chunk_size}
use fuse_node.Dhmp.{Dhmp, Bytes}
use fuse_node.Chunk.{Chunks, get_free_chunk}
use fuse_node.Cache.{Disk}
use fuse_node.Cache.View.{IsCoherent}
use fuse_node.Cache.Access.{IsHit}
use fuse_node.Io.{Fs, bank_of}
use fuse_node.Io.Total.{IsSound}
use fuse_node.File.{context_at, chunk_byte}
use fuse_node.File.Room.{Room, Room-le}

module _ {M : Type 0} where
  -- Byte `x` of the file at `h` stands in chunk `c`, within the size of that chunk.
  pub record Held (s : Fs M) (h x c : ℕ) : Type 0 where
    pub at : context_at s.store h x ≡ some c
    pub within : x % chunk_size < s.store.context_size c

  -- Between `s` and `t`, the bytes `offset` up to `offset + n` of the file at `h` became `bytes`, and
  -- no other byte that a file had changed.
  pub record Written (s t : Fs M) (d : ℕ → Bytes) (h offset n : ℕ) (bytes : Bytes) : Type 0 where
    pub contexts : (g x c : ℕ) → context_at s.store g x ≡ some c → context_at t.store g x ≡ some c
    pub sizes : (c : ℕ) → s.store.context_size c ≤ t.store.context_size c
    pub kinds : (g : ℕ) → (t.store.inode g).is_directories ≡ (s.store.inode g).is_directories
    pub inside :
        (x : ℕ)
        → offset ≤ x
        → x < offset + n
        → (c : ℕ) × Held t h x c × (chunk_byte t d c (x % chunk_size) ≡ bytes x)
    pub outside :
        (g x c : ℕ)
        → context_at s.store g x ≡ some c
        → (g ≡ h → offset ≤ x → x < offset + n → ⊥)
        → chunk_byte t d c (x % chunk_size) ≡ chunk_byte s d c (x % chunk_size)

  pub Written-none :
      (s : Fs M) (d : ℕ → Bytes) (h offset : ℕ) (bytes : Bytes) → Written s s d h offset 0 bytes
  Written-none s d h offset bytes = record {
    contexts = λ g x c e. e;
    sizes = λ c. omega arith;
    kinds = λ g. refl;
    inside = λ x le lt. absurd (omega arith);
    outside = λ g x c e off. refl;
  }

  -- Two writes in a row, one after the other in the file, are one.
  pub Written-trans :
      (s t u : Fs M) (d : ℕ → Bytes) (h offset n m : ℕ) (f g : Bytes)
      → Written s t d h offset n f
      → Written t u d h (offset + n) m g
      → ((x : ℕ) → offset + n ≤ x → g x ≡ f x)
      → Written s u d h offset (n + m) f
  Written-trans s t u d h offset n m f g w v same = record {
    contexts = λ k x c e. v.contexts k x c (w.contexts k x c e);
    sizes = λ c. omega (arith, w.sizes c, v.sizes c);
    kinds = λ k. v.kinds k ∙ w.kinds k;
    inside = λ x le lt. elim (Bool-cases (ltb x (offset + n))) [
      | inl e ↦
          let (c, held, byte) = w.inside x le (ltb→lt _ _ e) in
          (
            c,
            record {
              at = v.contexts h x c held.at;
              within = omega (arith, v.sizes c, held.within);
            },
            v.outside h x c held.at (λ _ from _. (let l = ltb→lt _ _ e in omega arith)) ∙ byte,
          )
      | inr e ↦
          let past = ltb→le _ _ e in
          let (c, held, byte) = v.inside x past (omega arith) in (c, held, byte ∙ same x past)
    ];
    outside = λ k x c e off.
        v.outside k x c (w.contexts k x c e) (λ q le lt. off q (omega arith) (omega arith))
        ∙ w.outside k x c e (λ q le lt. off q le (omega arith));
  }

  -- The next `n` chunks that the allocator gives are in banks that are in the cache.
  abbrev pub Supply : Disk M → ℕ → Chunks → Type 0
  Supply disk zero chunks = Unit
  Supply disk (suc n) chunks =
      (c : ℕ) (rest : Chunks)
      → get_free_chunk chunks ≡ (some c, rest)
      → IsHit disk (bank_of c) × Supply disk n rest

  pub Supply-lines :
      (disk other : Disk M)
      → ((b : ℕ) → IsHit disk b → IsHit other b)
      → (n : ℕ) (chunks : Chunks) → Supply disk n chunks
      → Supply other n chunks
  Supply-lines disk other lines zero chunks k = tt
  Supply-lines disk other lines (suc n) chunks k = λ c rest e.
      let (hit, more) = k c rest e in
      (lines (bank_of c) hit, Supply-lines disk other lines n rest more)

  pub Supply-le :
      (disk : Disk M) (n m : ℕ)
      → n ≤ m
      → (chunks : Chunks) → Supply disk m chunks
      → Supply disk n chunks
  Supply-le disk zero m le chunks k = tt
  Supply-le disk (suc n) zero le chunks k = absurd (omega arith)
  Supply-le disk (suc n) (suc m) le chunks k =
      λ c rest e. let (hit, more) = k c rest e in (hit, Supply-le disk n m (omega arith) rest more)

module _ {M : Type 0} (net : Dhmp M) where
  -- The file at `h` can be written with at most `n` new chunks: the files are sound, the cache is
  -- coherent with the servers' bytes `d`, `n` chunks are free, and the banks of the next `n` chunks
  -- that the allocator gives and of the file's own are in the cache.
  pub record Ready (h : ℕ) (s : Fs M) (d : ℕ → Bytes) (n : ℕ) : Type 0 where
    pub sound : IsSound s.store
    pub coherent : IsCoherent net s.disk d
    pub room : Room s.store n
    pub supply : Supply s.disk n s.store.chunks
    pub file_cached : (x c : ℕ) → context_at s.store h x ≡ some c → IsHit s.disk (bank_of c)

  pub Ready-le :
      (h : ℕ) (s : Fs M) (d : ℕ → Bytes) (n m : ℕ) → n ≤ m → Ready h s d m → Ready h s d n
  Ready-le h s d n m le r = record {
    sound = r.sound;
    coherent = r.coherent;
    room = Room-le s.store n m le r.room;
    supply = Supply-le s.disk n m le s.store.chunks r.supply;
    file_cached = r.file_cached;
  }
