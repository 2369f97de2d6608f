-- ===== src/File/Read.antt =====
-- `dhmp_fs_read` over any number of chunks, as a read of the bytes of a file.
use std.Path.{fun_ext}
use fuse_node.Prelude.{
  ℕ, zero, suc, ◌+◌, ◌-◌, ◌/◌, ◌%◌, ◌≤◌, ◌<◌, ◌≡◌, refl, sym, ap, ◌∙◌, true, false, ◌&&◌, some, leb,
  ltb, ◌==◌, if◌then◌else◌, arith, Bool-cases, inl, inr,
}
use fuse_node.Config.{chunk_size, size_third_direct_end, bank_size}
use fuse_node.Dhmp.{Dhmp, Bytes, memcpy}
use fuse_node.Outcome.{ok, ◌>>=◌, of_option}
use fuse_node.Inode.{Store}
use fuse_node.Index.{level3_local_index}
use fuse_node.Index.Claim.{IsConsistent}
use fuse_node.Index.Locate.{level3_local_index-Located}
use fuse_node.Index.Lookup.{claim_at_read}
use fuse_node.Cache.{cache_key, copy_out}
use fuse_node.Cache.Access.{IsHit, read_from_cache_hit, view_hit}
use fuse_node.Io.{Fs, bank_of, bank_offset, from, left_in, read_loop, dhmp_fs_read, int_of}
use fuse_node.Io.Total.{IsSound}
use fuse_node.File.{context_at, chunk_byte}
use fuse_node.File.Place.{Located-slot_of}
use fuse_node.File.Written.{Held}

-- A lookup for reading finds the chunk that holds the offset.
lookup_held :
    (offset h c : ℕ) (s : Store)
    → offset < size_third_direct_end
    → IsConsistent s
    → context_at s h offset ≡ some c
    → level3_local_index offset h true s ≡ some (some (c, offset % chunk_size), s)
lookup_held offset h c s lt good at =
    let (p, o, located, run) = level3_local_index-Located offset h true s lt in
    let (place, in_chunk) = Located-slot_of located in
    let there = rw (context_at, place) at at in
    run ∙ (rw (claim_at_read s h p good, there, in_chunk) refl)

module _ {M : Type 0} where
  -- The bytes `offset` up to `offset + n` of the file at `h` are `bytes`, and all of them stand in
  -- the cache.
  abbrev pub Holds : Fs M → (ℕ → Bytes) → ℕ → ℕ → ℕ → Bytes → Type 0
  Holds s d h offset n bytes =
      (x : ℕ)
      → offset ≤ x
      → x < offset + n
      → (c : ℕ) × Held s h x c
        × IsHit s.disk (bank_of c)
        × (chunk_byte s d c (x % chunk_size) ≡ bytes x)

  Holds-later :
      (s : Fs M) (d : ℕ → Bytes) (h offset n m : ℕ) (bytes : Bytes)
      → m ≤ n
      → Holds s d h offset n bytes
      → Holds s d h (offset + m) (n - m) bytes
  Holds-later s d h offset n m bytes le held x from_there lt =
      held x (omega (arith, from_there)) (omega (arith, lt, le))

module _ {M : Type 0} (net : Dhmp M) (rand : ℕ → ℕ) (h : ℕ) where
  -- The bytes that a round reads, of a chunk that holds its first one.
  portion : ℕ → ℕ → ℕ → ℕ
  portion size o un = let left = left_in net rand h size o in if leb left un then left else un

  -- The buffer with the bytes from `offset` on at `rs`.
  filled : Bytes → ℕ → ℕ → ℕ → Bytes → Bytes
  filled buf rs n offset bytes i =
      if leb rs i && ltb i (rs + n) then bytes (offset + (i - rs)) else buf i

  portion_facts :
      (size o k : ℕ)
      → size ≤ chunk_size
      → o < size
      → let n = portion size o (suc k) in (0 < n) × (n ≤ suc k) × (o + n ≤ size)
  unfolding portion
  portion_facts size o k small within =
      let left : left_in net rand h size o ≡ size - o = omega (arith, small, within) in
      rw left (ground (arith, within))

  -- A read within a chunk stays in its bank.
  in_bank : (c o n : ℕ) → o + n ≤ chunk_size → ltb bank_size (bank_offset c + o + n) ≡ false
  in_bank c o n le =
      let fits : bank_offset c + chunk_size ≤ bank_size = omega arith in ground (arith, fits, le)

  read_round :
      (s : Fs M) (fuel : ℕ) (buf : Bytes) (rs k offset c : ℕ)
      → offset < size_third_direct_end
      → IsSound s.store
      → Held s h offset c
      → IsHit s.disk (bank_of c)
      → let o = offset % chunk_size in
        let n = portion (s.store.context_size c) o (suc k) in
        read_loop net rand h (suc fuel) buf rs (suc k) offset s
        ≡ read_loop net rand h fuel
            (memcpy buf rs
              (copy_out
                (from buf rs)
                (s.disk.line (cache_key (bank_of c))).contents
                n
                (bank_offset c + o))
              n)
            (rs + n)
            (suc k - n)
            (offset + n)
            s
  unfolding read_loop portion portion_facts
  read_round s fuel buf rs k offset c lt good held hit =
      let o = offset % chunk_size in
      let n = portion (s.store.context_size c) o (suc k) in
      let facts = portion_facts (s.store.context_size c) o k (good.bounded c) held.within in
      let take =
        read_from_cache_hit net (rand fuel) (bank_of c) (from buf rs) n (bank_offset c + o) s.disk
          hit in
      let some_bytes : (n == 0) ≡ false = ground (arith, facts.0) in
      let inside : ltb bank_size (bank_offset c + o + n) ≡ false =
        in_bank c o n (omega (arith, facts.2, good.bounded c)) in
      rw (lookup_held offset h c s.store lt good.consistent held.at, ◌>>=◌, of_option)
        (rw (some_bytes, inside) (rw (take, ◌>>=◌, of_option) refl))

  round_filled :
      (s : Fs M) (d : ℕ → Bytes) (buf bytes : Bytes) (rs n offset c i : ℕ)
      → offset % chunk_size + n ≤ chunk_size
      → IsHit s.disk (bank_of c)
      → ((x : ℕ) → offset ≤ x → x < offset + n → chunk_byte s d c (x % chunk_size) ≡ bytes x)
      → memcpy buf rs
          (copy_out
            (from buf rs)
            (s.disk.line (cache_key (bank_of c))).contents
            n
            (bank_offset c + offset % chunk_size))
          n
          i
        ≡ filled buf rs n offset bytes i
  unfolding filled
  round_filled s d buf bytes rs n offset c i fits hit same =
      elim (Bool-cases (leb rs i && ltb i (rs + n))) [
        | inr e ↦ rw e refl
        | inl e ↦
            let byte = same (offset + (i - rs)) (omega arith) (ground (arith, e)) in
            let line =
              view_hit s.disk d (bank_of c) (bank_offset c + (offset + (i - rs)) % chunk_size)
                hit in
            let at : bank_offset c + offset % chunk_size + (i - rs)
                ≡ bank_offset c + (offset + (i - rs)) % chunk_size =
              ground (arith, e, fits) in
            let at0 : i - rs - 0 ≡ i - rs = omega arith in
            let inside : (leb 0 (i - rs) && ltb (i - rs) (0 + n)) ≡ true = ground (arith, e) in
            rw (e, inside, at0, at) (sym line ∙ byte)
      ]

  -- The bytes of one round stand in one chunk.
  one_chunk :
      (s : Fs M) (d : ℕ → Bytes) (bytes : Bytes) (offset un n c : ℕ)
      → n ≤ un
      → offset % chunk_size + n ≤ chunk_size
      → Holds s d h offset un bytes
      → context_at s.store h offset ≡ some c
      → (x : ℕ) → offset ≤ x
      → x < offset + n
      → chunk_byte s d c (x % chunk_size) ≡ bytes x
  one_chunk s d bytes offset un n c le fits held at x from_there lt =
      let (e, there, _, byte) = held x from_there (omega (arith, lt, le)) in
      let same : x / chunk_size ≡ offset / chunk_size = omega (arith, from_there, lt, fits) in
      let one : e ≡ c = let f = rw (context_at, same) at there.at in ground (arith, f, at) in
      rw (← one) byte

  filled-filled :
      (buf bytes : Bytes) (rs n un offset i : ℕ)
      → n ≤ un
      → filled (filled buf rs n offset bytes) (rs + n) (un - n) (offset + n) bytes i
        ≡ filled buf rs un offset bytes i
  unfolding filled
  filled-filled buf bytes rs n un offset i le = elim (Bool-cases (leb (rs + n) i)) [
    | inl e ↦
        let f : offset + n + (i - (rs + n)) ≡ offset + (i - rs) = ground (arith, e) in
        rw (e, f) (ground (arith, e, le))
    | inr e ↦ rw e (ground (arith, e, le))
  ]

  -- What the rounds of a read leave behind: the files as they were, and the bytes in the buffer.
  record Filled (s : Fs M) (fuel : ℕ) (buf bytes : Bytes) (rs un offset : ℕ) : Type 0 where
    buffer : Bytes
    run : read_loop net rand h fuel buf rs un offset s ≡ ok (rs + un, (buffer, s))
    bytes_read : (i : ℕ) → buffer i ≡ filled buf rs un offset bytes i

  read_rounds :
      (s : Fs M) (d : ℕ → Bytes) (fuel : ℕ) (buf bytes : Bytes) (rs un offset : ℕ)
      → un ≤ fuel
      → offset + un ≤ size_third_direct_end
      → IsSound s.store
      → Holds s d h offset un bytes
      → Filled s fuel buf bytes rs un offset
  unfolding read_loop filled
  read_rounds s d fuel buf bytes rs zero offset le small good held = record {
    buffer = buf;
    run = ap (λ m. ok (m, (buf, s))) (omega arith);
    bytes_read = λ i. ground arith;
  }
  read_rounds s d zero buf bytes rs (suc k) offset le small good held = absurd (omega arith)
  read_rounds s d (suc fuel) buf bytes rs (suc k) offset le small good held =
      let (c, there, hit, byte) = held offset (omega arith) (omega arith) in
      let o = offset % chunk_size in
      let n = portion (s.store.context_size c) o (suc k) in
      let facts = portion_facts (s.store.context_size c) o k (good.bounded c) there.within in
      let fits : o + n ≤ chunk_size = omega (arith, facts.2, good.bounded c) in
      let buf1 =
        memcpy buf rs
          (copy_out (from buf rs) (s.disk.line (cache_key (bank_of c))).contents n
            (bank_offset c + o))
          n in
      let rest =
        read_rounds s d fuel buf1 bytes (rs + n) (suc k - n) (offset + n) (omega (arith, facts.0))
          (omega (arith, facts.1)) good (Holds-later s d h offset (suc k) n bytes facts.1 held) in
      let all : rs + n + (suc k - n) ≡ rs + suc k = omega (arith, facts.1) in
      record {
        buffer = rest.buffer;
        run =
            read_round s fuel buf rs k offset c (omega arith) good there hit ∙ (rw all at rest.run);
        bytes_read = λ i.
            rest.bytes_read i
            ∙ ap (λ f. filled f (rs + n) (suc k - n) (offset + n) bytes i)
                (fun_ext (λ j.
                  round_filled s d buf bytes rs n offset c j fits hit
                    (one_chunk s d bytes offset (suc k) n c facts.1 fits held there.at)))
            ∙ filled-filled buf bytes rs n (suc k) offset i facts.1;
      }

  -- A read of a file, all of whose bytes in the range of the request are within the sizes of chunks that
  -- are in the cache, returns the size of the request as an `int`, changes nothing, and leaves in the buffer
  -- the bytes of the file.
  pub dhmp_fs_read-file :
      (buf bytes : Bytes) (size offset : ℕ) (s : Fs M) (d : ℕ → Bytes)
      → (s.store.inode h).is_directories ≡ false
      → offset + size ≤ size_third_direct_end
      → IsSound s.store
      → Holds s d h offset size bytes
      → (buf' : Bytes) × (dhmp_fs_read net rand h buf size offset s ≡ ok (int_of size, (buf', s)))
        × ((i : ℕ) → i < size → buf' i ≡ bytes (offset + i))
  unfolding dhmp_fs_read filled
  dhmp_fs_read-file buf bytes size offset s d file small good held =
      let r = read_rounds s d size buf bytes 0 size offset (omega arith) small good held in
      let e : 0 + size ≡ size = omega arith in
      (
        r.buffer,
        rw (file, r.run, ◌>>=◌) (rw e refl),
        λ i lt. let f : i - 0 ≡ i = omega arith in r.bytes_read i ∙ (rw f (ground (arith, lt))),
      )
