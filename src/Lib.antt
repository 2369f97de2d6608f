-- ===== src/Lib.antt =====
-- fuse_node: a FUSE file system that keeps the chunks of its files in the memory of remote servers,
-- with a cache of banks in DRAM. This library models its C code and proves how the parts work.
--
-- Parts, with paths from the root of the repository:
-- - Prelude: numbers, tests, lists and options that all parts share.
-- - Config: the constants of include/dhmp_fs.h and include/dhmp_fs_hashmap.h.
-- - Chunk: `getFreeChunk` and `get_free_context` of src/dhmp_fs_index.c, over the bitmap and the static
--   cursor.
-- - HashMap: src/dhmp_fs_hashmap.c, the table of the names in a directory. Hash has the hash function and
--   the comparison of names, Chain one bucket, Table the invariant and the abstract map, Resize
--   `resetHashMap`, Methods `put`, `get` and `remove`.
-- - Inode: `struct inode` and the shared state of include/dhmp_fs.h. Slot has the places of a file
--   index.
-- - Index: `level3_local_index` of src/dhmp_fs_index.c with the index blocks. Locate says which place an
--   offset reaches, Claim has the invariant, Same stores that say the same of it, Allocated the index
--   blocks, Lookup what a lookup does, Start that the first state
--   satisfies the invariant, Free what `reset_indoe` frees.
-- - Dhmp: the calls of the DHMP client for one server, as an interface: a record of the calls with the
--   laws that the file system relies on. The client itself is not modelled.
-- - Remote: the server pool of include/dhmp_fs.h, `dhmp_fs_write_to_remote` and
--   `dhmp_fs_read_from_remote` of src/dhmp_fs_io.c and `find_alive_server` of src/dhmp_fs_recovery.c.
-- - Cache: the bank cache of src/dhmp_fs_io.c. View has the disk that the cache presents, Expel the
--   exchange of a line, Rewrite the thread that writes dirty lines back, Access the two entry points,
--   History any order of all of these.
-- - Io: `dhmp_fs_write` and `dhmp_fs_read` of src/dhmp_fs_io.c, over Index and Cache. Total has their
--   ends, Reading what a read keeps, Names what both leave of the directories, Single the lookup
--   of a round, Again a lookup for reading after one for writing.
-- - File: the bytes of a file through its index, its chunks and the cache. Place has the place of a
--   chunk, Room the free chunks, Account and Put what one round of a write does, Written
--   what a write does to all files, Round and Write the write loop, Read the read loop, RoundTrip both.
-- - Recovery: src/dhmp_fs_recovery.c. Pool has the servers by their index, Copy the copy of the banks,
--   Paused the writes during it, Shrunk and Replay the writes that a server missed, Begin and Finish the
--   two halves of `fuse_recover`, Whole, Alone and Idle its outcomes.
-- - Start: `dhmp_init` of src/dhmp_fs.c, the state that the program starts with.
-- - Dir: src/dhmp_fs_dir_ops.c. Path has `deal`, Walk the lookup of a path and what only reads, Links the
--   lists of children, Create, Delete and Rename the operations; Split and Lookup prove how paths are
--   split and looked up, Children and Removal are about the lists of children, Made about a new child of
--   one directory, Listing about `readdir`, Sizes about the size that `getattr` reports.
--   Inode/Slab has the slab of inodes of src/dhmp_fs_index.c.
-- - Dir/Tree: the tree of inodes that a store holds, and the callbacks over it. Edit has a tree in which
--   what is below a directory is replaced, System the invariant, Start its first state. Fresh, Growing,
--   Making and Creation are about `mknod` and `mkdir`; Emptied, Dropped, Relinked, Shrinking, Pruned, Cut
--   and Deletion about `unlink` and `rmdir`; Renamed and Renaming about `rename`. Reached says where paths
--   lead, Calls and Session put calls in any order, with the reads and writes of Io/Names. Follows relates
--   the paths of two stores; NewPaths, LostPaths and MovedPaths have the calls above in terms of paths.
-- - Outcome: how a computation ends that runs on fuel and may fault.
-- - Tests: the properties at concrete states.
--
-- The configuration is the one with `DHMP_ON` and `CACHE_ON`. Pointers to inodes and contexts are
-- numbers, an array is a function of its index, NULL is `none`. A computation that follows a NULL, or
-- divides by an empty pool, ends in a fault that the model makes explicit. `malloc` succeeds.
--
-- Bounds: a path and a name are lists of any length, and what the code copies past the end of a
-- buffer of `FILE_NAME_LEN` bytes is a fault: `deal_fits` and `name_fits` are the tests for it. `strcpy`
-- into the `filename` of an inode copies from such a buffer and fits. A `size_t` that is returned as
-- an `int` is cut by `int_of`, and a read past the end of a bank in the cache is a fault. The bitmap and the cache have sizes that are powers of two, so `& (n - 1)` is `% n`. Loops
-- that are not structural run on fuel: a scan of the bitmap takes one round for each chunk, a read of
-- the pool one round for each server, a request one round for each byte (each round moves at least
-- one), a list of children one round for each inode (a list has an inode once), and a resize of the
-- hash table calls `put` one level deep. Offsets stay below 2^63 and the counts in `int` fields below
-- 2^31. The product `chunk_index * CHUNK_SIZE` is below 2^33 and does not wrap in 64 bits.
--
-- Locks are not modelled: an operation runs as one step, except that a pass of the write-back thread
-- finds an arbitrary set of lines locked. The threads of a write to the servers touch one server each
-- and are taken in order; their array of flags is taken as it was meant to be initialised. The values of
-- `rand()` and of the clock are parameters. What other threads write during the copy of a
-- recovery stands before or after it. No code sets `use_bank_len`, so Copy, Replay, Whole and Alone,
-- which have all banks in use, are about runs that the program does not reach yet. Left out: the builds for a local
-- disk and for an SSD, logging, timing, the start of the client and of the threads in `dhmp_init`,
-- the callbacks that do nothing, code that nothing calls, the DHMP client library, and the programs and
-- old versions under src/test.
pub mod Prelude
pub mod Config
pub mod Outcome
pub mod Chunk
pub mod HashMap
pub mod Inode
pub mod Index
pub mod Dhmp
pub mod Remote
pub mod Cache
pub mod Dir
pub mod Io
pub mod Recovery
pub mod Start
pub mod File
pub mod Tests
