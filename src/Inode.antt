-- ===== src/Inode.antt =====
-- The inode and its file index (include/dhmp_fs.h), and the store of all of them with the chunk
-- contexts. An inode is named by its address, a chunk context by its `chunk_index`.
pub mod Slot
pub mod Slab
pub mod Names
use fuse_node.Prelude.{
  ℕ, ◌+◌, Bool, true, false, ◌&&◌, Option, none, some, List, [], ◌==◌, if◌then◌else◌,
}
use fuse_node.Chunk.{Chunks}
use fuse_node.HashMap.Hash.{Name}
use fuse_node.HashMap.{HashMap}
use fuse_node.Inode.Slot
use fuse_node.Inode.Slot.{slot_eq}

-- `struct inode`. The arrays of `cnt_id` are one function of the slot, and a flag says whether
-- `in1addr`, `in2addr` or `in3addr` is allocated. `contexts` is the list that hangs on the head
-- node `context`.
pub record Inode : Type 0 where
  pub filename : Name
  pub size : ℕ
  pub space : ℕ
  pub time_last_modified : ℕ
  pub is_directories : Bool
  pub son_nums : ℕ
  pub addr : Slot.Slot → Option ℕ
  pub in1addr : Bool
  pub in2addr : Bool
  pub in3addr : Bool
  pub contexts : List ℕ
  pub d_hash : Option (HashMap ℕ)
  pub son : Option ℕ
  pub bro : Option ℕ

-- The shared state: the allocator, the fields `size` and `which_inode_it_is` of each context, the
-- inodes, the list `free_inode_slab` and the next address that `malloc` gives to an inode.
pub record Store : Type 0 where
  pub chunks : Chunks
  pub context_size : ℕ → ℕ
  pub which : ℕ → Option (ℕ × Slot.Slot)
  pub inode : ℕ → Inode
  pub free_inode_slab : List ℕ
  pub next_inode : ℕ

-- Writes to one index of an array or to one address.
abbrev pub update {ℓ} : {A : Type ℓ} → (ℕ → A) → ℕ → A → ℕ → A
update f i v j = if i == j then v else f j

abbrev pub set_addr : (Slot.Slot → Option ℕ) → Slot.Slot → Option ℕ → Slot.Slot → Option ℕ
set_addr f p v q = if slot_eq p q then v else f q

abbrev pub set_inode : Store → ℕ → Inode → Store
set_inode s h i = record s { inode = update s.inode h i }
