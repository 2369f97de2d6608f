-- ===== src/Tests.antt =====
-- Concrete data for the tests: one server whose memory is a table of banks, a cache over it, an
-- empty store and an empty directory.
pub mod Servers
pub mod Histories
pub mod Files
pub mod Requests
pub mod Recoveries
pub mod Names
pub mod Families
pub mod Trees
use fuse_node.Prelude.{
  ℕ, ◌+◌, ◌%◌, ◌<◌, ◌≡◌, refl, Bool, true, false, Option, none, some, List, [], ◌∷◌, ◌==◌,
  if◌then◌else◌, arith,
}
use fuse_node.Config.{cache_size, chunk_size}
use fuse_node.Chunk.{Chunks}
use fuse_node.Dhmp.{Dhmp, Bytes, memcpy}
use fuse_node.Remote.{ServerNode, connected, disconnect}
use fuse_node.Remote.Replicas.{Synced}
use fuse_node.Cache.{Disk, init_cache, cache_key}
use fuse_node.Cache.View.{IsCoherent}
use fuse_node.HashMap.{HashMap, create_hash_map}
use fuse_node.Inode.{Inode, Store}
use fuse_node.Index.{present}
use fuse_node.Index.Claim.{IsConsistent}
use fuse_node.Inode.Slot.{Slot, direct}
use fuse_node.Io.{Fs}
use fuse_node.Io.Total.{IsSound}

pub record Memory : Type 0 where
  pub online : Bool
  pub banks : ℕ → Bytes

abbrev pub tested : Dhmp Memory
tested = record {
  dhmp_read = λ m bank size offset. (m.online, (λ i. m.banks bank (offset + i)), m);
  dhmp_write = λ m bank buf size offset. (
    m.online,
    record m {
      banks = λ b i. if b == bank then memcpy (m.banks b) offset buf size i else m.banks b i;
    },
  );
  bytes = λ m. m.banks;
  read_bytes = λ m bank size offset i done lt. refl;
  read_keeps = λ m bank size offset b i. refl;
  write_bytes = λ m bank buf size offset b i done. refl;
}

abbrev pub zeros : ℕ → Bytes
zeros b i = 0

abbrev pub server : ServerNode Memory
server = record {
  server_id = 0;
  alive = true;
  banks = record { online = true; banks = zeros };
  rw_task_head = [];
  rw_tasks_len = 0;
  server_state = connected;
}

-- A server that holds other bytes and is marked disconnected.
abbrev pub stale_server : ServerNode Memory
stale_server = record server {
  banks = record { online = true; banks = λ b i. 7 };
  server_state = disconnect;
}

abbrev pub servers : List (ServerNode Memory)
servers = server ∷ stale_server ∷ []

pub servers-Synced : Synced tested servers zeros
servers-Synced = ((λ on b i. refl), ((λ on b i. ground (arith, on)), tt))

abbrev pub cached : Disk Memory
cached = init_cache servers

pub cached-IsCoherent : IsCoherent tested cached zeros
unfolding init_cache
cached-IsCoherent = record {
  hashed = λ k lt. refl;
  home = λ k lt. omega arith;
  clean = λ k i lt small c. refl;
  synced = servers-Synced;
}

abbrev pub counting : Bytes
counting i = i

abbrev pub empty_inode : Inode
empty_inode = record {
  filename = [];
  size = 0;
  space = 0;
  time_last_modified = 0;
  is_directories = false;
  son_nums = 0;
  addr = λ p. none;
  in1addr = true;
  in2addr = true;
  in3addr = false;
  contexts = [];
  d_hash = none;
  son = none;
  bro = none;
}

abbrev pub empty_chunks : Chunks
empty_chunks = record { bitmap = λ i. false; cursor = 5 }

abbrev pub empty_store : Store
empty_store = record {
  chunks = empty_chunks;
  context_size = λ c. 0;
  which = λ c. none;
  inode = λ h. empty_inode;
  free_inode_slab = [];
  next_inode = 2;
}

pub empty_store-IsConsistent : IsConsistent empty_store
empty_store-IsConsistent = record {
  cursor = omega arith;
  owned = λ h p c e. ground (arith, e);
  listed = λ h p c e. ground (arith, e);
  placed = λ h c e. ground (arith, e);
  distinct = λ h. tt;
  absent = λ h p e. refl;
}

pub empty_store-IsSound : IsSound empty_store
empty_store-IsSound = record { consistent = empty_store-IsConsistent; bounded = λ c. omega arith }

-- The store with the file at address 1 holding chunk 5 at its first place.
abbrev pub empty_fs : Fs Memory
empty_fs = record { store = empty_store; disk = cached }

abbrev pub empty_map : HashMap ℕ
empty_map = create_hash_map none
