-- ===== src/Tests/Requests.antt =====
-- The properties of reads and writes of whole files, at concrete states.
use fuse_node.Prelude.{
  ℕ, ◌+◌, ◌-◌, ◌/◌, ◌%◌, ◌≤◌, ◌<◌, ◌≡◌, ◌≢◌, refl, none, some, [], ◌∷◌, arith, pos, false, Option,
  ap, sym,
}
use mathlib.Core.Path.{subst}
use fuse_node.Config.{chunk_size}
use fuse_node.Dhmp.{Bytes}
use fuse_node.Outcome.{ok}
use fuse_node.Inode.{Store}
use fuse_node.Inode.Slab.{init_store}
use fuse_node.Chunk.{Chunks, get_free_chunk, scan_chunks}
use fuse_node.Dir.Tree.Start.{init_store-file}
use fuse_node.Index.Start.{
  init_store-IsConsistent, init_store-context_size, init_store-chunks, init_store-IsEmpty,
}
use fuse_node.Index.Claim.{attached, attached-IsConsistent}
use fuse_node.Inode.Slot.{direct, slot_eq}
use fuse_node.Cache.{init_cache}
use fuse_node.Io.{Fs, int_of, dhmp_fs_write, dhmp_fs_read}
use fuse_node.Io.Total.{IsSound}
use fuse_node.File.{context_at, chunk_byte, file_byte}
use fuse_node.File.Place.{slot_of}
use fuse_node.File.Read.{Holds, dhmp_fs_read-file}
use fuse_node.File.Write.{dhmp_fs_write-file}
use fuse_node.File.RoundTrip.{dhmp_fs_read-dhmp_fs_write}
use fuse_node.File.Written.{Ready, Supply}
use fuse_node.Tests.{
  Memory, tested, counting, zeros, cached, cached-IsCoherent, empty_store, empty_store-IsConsistent,
}

-- The program after its start, with a cached disk. The inode at address 1 is the first one that a
-- new file gets.
abbrev near_fs : Fs Memory
near_fs = record { store = init_store 7; disk = cached }

near_fs-file : ((init_store 7).inode 1).is_directories ≡ false
near_fs-file = init_store-file 7 1 (omega arith) (omega arith)

-- The chunk that is given, where the result is known.
given :
    {c c' : ℕ} {r r' : Chunks}
    → (◌≡◌ {A = Option ℕ × Chunks} (some c, r) (some c', r'))
    → (c ≡ c') × (r ≡ r')
given {c} e = (
  ap (λ (x : Option ℕ × Chunks). elim x.0 [ none ↦ c | some n ↦ n ]) e,
  ap (λ (x : Option ℕ × Chunks). x.1) e,
)

-- Chunks 0 and 1 are the first ones that the allocator gives.
near_fs-Supply : Supply cached 2 (init_store 7).chunks
unfolding get_free_chunk scan_chunks init_cache
near_fs-Supply = subst (Supply cached 2) (sym (init_store-chunks 7)) (λ c rest e. (
  omega (arith, (given e).0),
  subst (Supply cached 1) (given e).1 (λ c' rest' e'. (omega (arith, (given e').0), tt)),
))

near_fs-Ready : Ready tested 1 near_fs zeros 2
unfolding init_cache
near_fs-Ready = record {
  sound = record {
    consistent = init_store-IsConsistent 7;
    bounded = λ c. omega (arith, init_store-context_size 7 c);
  };
  coherent = cached-IsCoherent;
  room = record {
    spare = 0 ∷ 1 ∷ [];
    distinct = (refl, (refl, tt));
    free = λ c at. rw (init_store-chunks 7) (ground (arith, at));
    enough = omega arith;
  };
  supply = near_fs-Supply;
  file_cached = λ x c at.
      let nothing = (init_store-IsEmpty 7).no_place 1 (slot_of (x / chunk_size)) in
      absurd (ground (arith, nothing, at));
}

dhmp_fs_write-file_example :
    (t : Fs Memory) × (dhmp_fs_write tested (λ i. 0) 1 counting 5000 100 near_fs
      ≡ ok (pos 5000, (counting, t)))
    × ((x : ℕ) → 100 ≤ x → x < 100 + 5000 → file_byte t zeros 1 x ≡ some (counting (x - 100)))
    × ((g x : ℕ)
        → (g ≡ 1 → 100 ≤ x → x < 100 + 5000 → ⊥)
        → file_byte near_fs zeros g x ≢ none
        → file_byte t zeros g x ≡ file_byte near_fs zeros g x)
unfolding int_of
dhmp_fs_write-file_example =
    dhmp_fs_write-file tested (λ i. 0) 1 counting 5000 100 2 near_fs zeros near_fs-file
      (omega arith) (omega arith) near_fs-Ready

dhmp_fs_read-dhmp_fs_write_example :
    (t : Fs Memory) × (r : Bytes) × (dhmp_fs_write tested (λ i. 0) 1 counting 5000 100 near_fs
      ≡ ok (pos 5000, (counting, t)))
    × (dhmp_fs_read tested (λ i. 3) 1 counting 300 4000 t ≡ ok (pos 300, (r, t)))
    × ((i : ℕ) → i < 300 → r i ≡ counting (4000 - 100 + i))
unfolding int_of
dhmp_fs_read-dhmp_fs_write_example =
    dhmp_fs_read-dhmp_fs_write tested (λ i. 0) 1 (λ i. 3) counting counting 5000 100 4000 300 2
      near_fs zeros near_fs-file (omega arith) (omega arith) near_fs-Ready (omega arith)
      (omega arith)

-- The file at address 1 holds the first 100 bytes of chunk 9.
abbrev short_store : Store
short_store = record (attached empty_store 1 (direct 0) 9) { context_size = λ c. 100 }

abbrev short_fs : Fs Memory
short_fs = record { store = short_store; disk = cached }

short_store-IsSound : IsSound short_store
short_store-IsSound =
    let c =
      attached-IsConsistent empty_store 1 9 (direct 0) empty_store-IsConsistent refl refl
        (omega arith) refl in
    record {
      consistent = record {
        cursor = c.cursor;
        owned = c.owned;
        listed = c.listed;
        placed = c.placed;
        distinct = c.distinct;
        absent = c.absent;
      };
      bounded = λ d. omega arith;
    }

short_context : (x : ℕ) → x < 100 → context_at short_store 1 x ≡ some 9
unfolding slot_of slot_eq
short_context x lt =
    let first_chunk : x / chunk_size ≡ 0 = omega arith in rw (context_at, first_chunk) refl

short_byte : (o : ℕ) → chunk_byte short_fs zeros 9 o ≡ 0
unfolding init_cache
short_byte o = ground arith

short_fs-Holds : Holds short_fs zeros 1 20 50 (λ x. 0)
unfolding init_cache
short_fs-Holds x le lt = (
  9,
  record { at = short_context x (omega arith); within = omega arith },
  refl,
  short_byte (x % chunk_size),
)

dhmp_fs_read-file_example :
    (b : Bytes) × (dhmp_fs_read tested (λ i. 0) 1 counting 50 20 short_fs
      ≡ ok (pos 50, (b, short_fs)))
    × ((i : ℕ) → i < 50 → b i ≡ 0)
unfolding int_of
dhmp_fs_read-file_example =
    dhmp_fs_read-file tested (λ i. 0) 1 counting (λ x. 0) 50 20 short_fs zeros refl (omega arith)
      short_store-IsSound short_fs-Holds
