-- ===== src/Tests/Files.antt =====
-- The properties of the allocator, the file index and the request loops, at concrete states.
use fuse_node.Prelude.{ℕ, ◌≤◌, ◌≡◌, refl, false, some, arith}
use fuse_node.Chunk.{get_free_chunk}
use fuse_node.Chunk.Scan.{Allocated, get_free_chunk-Allocated}
use fuse_node.Inode.{Store}
use fuse_node.Inode.Slot.{Slot, third, direct}
use fuse_node.Index.{with_offset, level3_local_index}
use fuse_node.Index.Claim.{attached, attached-IsConsistent, attached_new}
use fuse_node.Index.Free.{Freed, reset_indoe-Freed}
use fuse_node.Outcome.{ok}
use fuse_node.Inode.Slab.{reset_indoe, no_table}
use fuse_node.Index.Locate.{Located, claim_at, level3_local_index-Located}
use fuse_node.Index.Lookup.{Claimed, claim_at-Claimed}
use fuse_node.Io.{dhmp_fs_write, dhmp_fs_read, int_of}
use fuse_node.Outcome.{Ends}
use fuse_node.Io.Total.{IsSound, dhmp_fs_write-Ends}
use fuse_node.Io.Reading.{dhmp_fs_read-Ends}
use fuse_node.Tests.{
  tested, counting, empty_chunks, empty_store, empty_store-IsConsistent, empty_store-IsSound,
  empty_fs,
}

get_free_chunk-Allocated_example : Allocated empty_chunks (get_free_chunk empty_chunks)
get_free_chunk-Allocated_example = get_free_chunk-Allocated empty_chunks (omega arith)

level3_local_index-Located_example :
    (p : Slot) × (o : ℕ) × Located 300000000 p o
    × (level3_local_index 300000000 1 false empty_store
        ≡ with_offset o (claim_at 1 p false empty_store))
level3_local_index-Located_example =
    level3_local_index-Located 300000000 1 false empty_store (omega arith)

claim_at-Claimed_example :
    Claimed empty_store 1 (third 2 3 4) (claim_at 1 (third 2 3 4) false empty_store)
claim_at-Claimed_example = claim_at-Claimed empty_store 1 (third 2 3 4) empty_store-IsConsistent

-- The file at address 1 holds chunk 9 at its first place.
abbrev one_chunk : Store
one_chunk = attached empty_store 1 (direct 0) 9

one_chunk_holds : (one_chunk.inode 1).addr (direct 0) ≡ some 9
one_chunk_holds = attached_new empty_store 1 9 (direct 0)

dhmp_fs_write-Ends_example :
    Ends
      (λ r. IsSound r.1.1.store × (r.0 ≡ int_of 5000))
      (dhmp_fs_write tested (λ i. 0) 1 counting 5000 100 empty_fs)
dhmp_fs_write-Ends_example =
    dhmp_fs_write-Ends tested (λ i. 0) 1 counting 5000 100 empty_fs empty_store-IsSound

dhmp_fs_read-Ends_example :
    Ends
      (λ r. (r.1.1.store ≡ empty_store) × ((m : ℕ) × (r.0 ≡ int_of m) × (m ≤ 5000)))
      (dhmp_fs_read tested (λ i. 0) 1 counting 5000 100 empty_fs)
dhmp_fs_read-Ends_example =
    dhmp_fs_read-Ends tested (λ i. 0) 1 counting 5000 100 empty_fs empty_store-IsConsistent

no_table_one_chunk : no_table (one_chunk.inode 1) ≡ false
unfolding no_table
no_table_one_chunk = refl

reset_indoe-Freed_example : (t : Store) × (reset_indoe 9 1 one_chunk ≡ ok t) × Freed one_chunk 1 t
reset_indoe-Freed_example =
    reset_indoe-Freed 9 1 one_chunk
      (attached-IsConsistent empty_store 1 9 (direct 0) empty_store-IsConsistent refl refl
        (omega arith) refl)
      no_table_one_chunk
