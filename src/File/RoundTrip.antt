-- ===== src/File/RoundTrip.antt =====
-- `dhmp_fs_read` after `dhmp_fs_write`.
use fuse_node.Prelude.{ℕ, ◌+◌, ◌-◌, ◌*◌, ◌%◌, ◌≤◌, ◌<◌, ◌≡◌, refl, ap, ◌∙◌, false, arith}
use fuse_node.Config.{chunk_size, size_third_direct_end}
use fuse_node.Dhmp.{Dhmp, Bytes}
use fuse_node.Outcome.{ok, ◌>>=◌}
use fuse_node.Io.{Fs, dhmp_fs_write, dhmp_fs_read, int_of}
use fuse_node.File.Write.{write_all}
use fuse_node.File.Read.{Holds, dhmp_fs_read-file}
use fuse_node.File.Written.{Written, Ready}

module _ {M : Type 0} (net : Dhmp M) (rand : ℕ → ℕ) (h : ℕ) where
  -- What a write put into the file can be read, in any part.
  Written-Holds :
      (s t : Fs M) (d : ℕ → Bytes) (offset size at n : ℕ) (bytes : Bytes)
      → Written s t d h offset size bytes
      → Ready net h t d 0
      → offset ≤ at
      → at + n ≤ offset + size
      → Holds t d h at n bytes
  Written-Holds s t d offset size at n bytes w ready le fits x from_there lt =
      let (c, held, byte) = w.inside x (omega (arith, le, from_there)) (omega (arith, lt, fits)) in
      (c, held, ready.file_cached x c held.at, byte)

  -- With sound files and a coherent cache, a write to a file that ends within the largest file size,
  -- with as many free chunks as it can need, and with the banks of the next ones
  -- that the allocator gives and those of the file's chunks in the cache, returns its size as an
  -- `int`, and a read of any part of what was written then returns the size of that part and delivers the bytes that were written there.
  pub dhmp_fs_read-dhmp_fs_write :
      (rand' : ℕ → ℕ) (buf buf' : Bytes) (size offset at n m : ℕ) (s : Fs M) (d : ℕ → Bytes)
      → (s.store.inode h).is_directories ≡ false
      → offset + size ≤ size_third_direct_end
      → offset % chunk_size + size ≤ chunk_size * m
      → Ready net h s d m
      → offset ≤ at
      → at + n ≤ offset + size
      → (t : Fs M) × (r : Bytes) × (dhmp_fs_write net rand h buf size offset s
          ≡ ok (int_of size, (buf, t)))
        × (dhmp_fs_read net rand' h buf' n at t ≡ ok (int_of n, (r, t)))
        × ((i : ℕ) → i < n → r i ≡ buf (at - offset + i))
  unfolding dhmp_fs_write
  dhmp_fs_read-dhmp_fs_write rand' buf buf' size offset at n m s d file small enough ready le fits =
      let w =
        write_all net rand h s d size buf 0 size offset m (omega arith) small
          (omega (arith, enough)) ready in
      let bytes : Bytes = λ x. buf (0 + (x - offset)) in
      let (r, run, read) =
        dhmp_fs_read-file net rand' h buf' bytes n at w.after d (w.written.kinds h ∙ file)
          (omega (arith, small, fits)) w.ready.sound
          (Written-Holds s w.after d offset size at n bytes w.written w.ready le fits) in
      (
        w.after,
        r,
        rw (file, w.run, ◌>>=◌) refl,
        run,
        λ i lt. read i lt ∙ ap buf (omega (arith, le)),
      )
