-- ===== src/Inode/Slab.antt =====
-- Inodes: `malloc_inode`, `init_inode_slab`, `init_context`, `get_free_inode` and `reset_indoe` of
-- src/dhmp_fs_index.c, and the first state of `dhmp_init` (src/dhmp_fs.c). `time` gives the value of
-- `time(NULL)`. Fields that the code leaves uninitialised are 0 or NULL here.
use fuse_node.Prelude.{
  ℕ, zero, suc, ◌+◌, Bool, true, false, none, some, List, [], ◌∷◌, ◌++◌, if◌then◌else◌,
}
use fuse_node.Config.{slab_nums}
use fuse_node.Outcome.{Run, ok, fault, ◌>>=◌}
use fuse_node.Chunk.{mark}
use fuse_node.HashMap.{create_hash_map}
use fuse_node.Inode.{Inode, Store, update, set_addr, set_inode}
use fuse_node.Inode.Slot.{Slot}

-- The fields that `malloc_inode` sets.
unfoldable pub new_inode : ℕ → Inode
new_inode time = record {
  filename = [];
  size = 0;
  space = 0;
  time_last_modified = time;
  is_directories = false;
  son_nums = 0;
  addr = λ p. none;
  in1addr = true;
  in2addr = true;
  in3addr = false;
  contexts = [];
  d_hash = none;
  son = none;
  bro = none;
}

unfoldable pub malloc_inode : ℕ → Store → ℕ × Store
unfolding new_inode
malloc_inode time s = (
  s.next_inode,
  record s { inode = update s.inode s.next_inode (new_inode time); next_inode = s.next_inode + 1 },
)

-- The loop of `init_inode_slab`, `n` rounds left.
unfoldable pub init_slab_loop : ℕ → ℕ → Store → Store
unfolding malloc_inode
init_slab_loop zero time s = s
init_slab_loop (suc n) time s =
    let r = malloc_inode time s in
    init_slab_loop n time (record r.1 { free_inode_slab = r.1.free_inode_slab ++ r.0 ∷ [] })

unfoldable pub init_inode_slab : ℕ → Store → Store
unfolding init_slab_loop
init_inode_slab time s = init_slab_loop slab_nums time (record s { free_inode_slab = [] })

unfoldable pub init_context : Store → Store
init_context s = record s { context_size = λ c. 0; which = λ c. none }

-- `root` is the inode at address 0.
unfoldable pub root_inode : ℕ → Inode
unfolding new_inode
root_inode time = record (new_inode time) {
  filename = 47 ∷ [];
  is_directories = true;
  d_hash = some (create_hash_map none);
}

-- The root and the bitmap. No inode is allocated yet but the root at address 0.
unfoldable pub with_root : ℕ → Store
unfolding root_inode
with_root time = record {
  chunks = record { bitmap = λ i. false; cursor = 0 };
  context_size = λ c. 0;
  which = λ c. none;
  inode = λ h. root_inode time;
  free_inode_slab = [];
  next_inode = 1;
}

-- The end of `dhmp_init`: the root, the bitmap, the contexts and the slab.
unfoldable pub init_store : ℕ → Store
unfolding with_root init_context init_inode_slab
init_store time = init_inode_slab time (init_context (with_root time))

-- The first free inode, or a new one.
unfoldable pub get_free_inode : ℕ → Store → ℕ × Store
unfolding malloc_inode
get_free_inode time s = elim s.free_inode_slab [
  | [] ↦ malloc_inode time s
  | h ∷ rest ↦ (h, record s { free_inode_slab = rest })
]

-- One round of the loop over the contexts of an inode: the place of context `c` becomes NULL, and
-- its chunk free.
unfoldable pub free_context : ℕ → ℕ → Slot → Store → Store
free_context c h p s = record s {
  chunks = record s.chunks { bitmap = mark s.chunks.bitmap c false };
  context_size = update s.context_size c 0;
  which = update s.which c none;
  inode = update s.inode h (record (s.inode h) { addr = set_addr (s.inode h).addr p none });
}

unfoldable pub free_contexts : List ℕ → Store → Run Store
unfolding free_context
free_contexts [] s = ok s
free_contexts (c ∷ cs) s = elim (s.which c) [
  | none ↦ fault
  | some (h, p) ↦ free_contexts cs (free_context c h p s)
]

-- The first fields that `reset_indoe` writes. `clear` empties the table before it is dropped.
unfoldable pub reset_fields : ℕ → Inode → Inode
reset_fields time n = record n {
  is_directories = false;
  d_hash = if n.is_directories then none else n.d_hash;
  son = none;
  bro = none;
  size = 0;
  space = 0;
  time_last_modified = time;
  contexts = [];
}

-- `now->d_hash->clear` is a fault for a directory without a table.
unfoldable pub no_table : Inode → Bool
no_table n = if n.is_directories then (elim n.d_hash [ none ↦ true | some m ↦ false ]) else false

unfoldable pub reset_indoe : ℕ → ℕ → Store → Run Store
unfolding free_contexts reset_fields no_table
reset_indoe time h s =
    if no_table (s.inode h)
    then fault
    else free_contexts (s.inode h).contexts (set_inode s h (reset_fields time (s.inode h))) >>= λ t.
        ok (record (set_inode t h (record (t.inode h) { filename = [] })) {
          free_inode_slab = t.free_inode_slab ++ h ∷ [];
        })
