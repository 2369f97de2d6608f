-- ===== src/File/Account.antt =====
-- The chunk that one round of the write loop works on, and what its accounting leaves as it was.
use fuse_node.Prelude.{
  ℕ, ◌+◌, ◌-◌, ◌/◌, ◌%◌, ◌≤◌, ◌<◌, ◌≡◌, false, true, Option, some, List, [], ◌∷◌, length, leb,
  if◌then◌else◌, arith,
}
use fuse_node.Config.{chunk_size, chunk_num, size_third_direct_end}
use fuse_node.Inode.{Store}
use fuse_node.Inode.Slot.{Slot}
use fuse_node.Index.{level3_local_index, with_offset}
use fuse_node.Index.Claim.{IsConsistent, contains}
use fuse_node.Index.Locate.{claim_at, level3_local_index-Located}
use fuse_node.Index.Lookup.{Gives, Claimed, faults, claimed, claim_at-Claimed}
use fuse_node.Io.{account, grow_context}
use fuse_node.File.Place.{slot_of, Located-slot_of}
use fuse_node.File.Room.{Room}

-- A lookup for writing that finds a chunk or a free one.
pub record Looked (offset h : ℕ) (s : Store) : Type 0 where
  pub cnt : ℕ
  pub after : Store
  pub run : level3_local_index offset h false s ≡ some (some (cnt, offset % chunk_size), after)
  pub gives : Gives s h (slot_of (offset / chunk_size)) cnt after

-- With a free chunk the lookup does not fault.
Claimed-Looked :
    (offset h : ℕ) (s : Store) (r : Option (Option ℕ × Store))
    → Room s 1
    → level3_local_index offset h false s ≡ with_offset (offset % chunk_size) r
    → Claimed s h (slot_of (offset / chunk_size)) r
    → Looked offset h s
Claimed-Looked offset h s r room run (faults null every) =
    absurd (no_room room.spare room.enough room.free)
  where
    no_room :
        (l : List ℕ)
        → 1 ≤ length l
        → ((c : ℕ) → contains c l ≡ true → (c < chunk_num) × (s.chunks.bitmap c ≡ false))
        → ⊥
    no_room [] some_free free = omega arith
    no_room (c ∷ l) some_free free =
        let (lt, e) = free c (ground arith) in ground (arith, every c lt, e)
Claimed-Looked offset h s r room run (claimed c s' g) = record {
  cnt = c;
  after = s';
  run = run;
  gives = g;
}

pub looked :
    (offset h : ℕ) (s : Store)
    → offset < size_third_direct_end
    → IsConsistent s
    → Room s 1
    → Looked offset h s
looked offset h s lt good room =
    let (p, o, located, run) = level3_local_index-Located offset h false s lt in
    let (here_p, here_o) = Located-slot_of located in
    Claimed-Looked offset h s (claim_at h p false s) room (rw (here_o) run)
      (rw (here_p) (claim_at-Claimed s h p good))

module _ (h c o un : ℕ) (s : Store) where
  pub account-addr : (g : ℕ) (q : Slot) → ((account h c o un s).inode g).addr q ≡ (s.inode g).addr q
  unfolding account grow_context
  account-addr g q = ground arith

  pub account-chunks : (account h c o un s).chunks ≡ s.chunks
  unfolding account grow_context
  account-chunks = ground arith

  pub account-is_directories :
      (g : ℕ) → ((account h c o un s).inode g).is_directories ≡ (s.inode g).is_directories
  unfolding account grow_context
  account-is_directories g = ground arith

  pub account-grows :
      ((d : ℕ) → s.context_size d ≤ chunk_size)
      → (d : ℕ) → s.context_size d ≤ (account h c o un s).context_size d
  unfolding account grow_context
  account-grows small d = ground (arith, small d)

  -- The chunk's size reaches to the end of the piece that a round writes.
  pub account-reaches :
      (x : ℕ)
      → x < o + (if leb (chunk_size - o) un then chunk_size - o else un)
      → o < chunk_size
      → x < (account h c o un s).context_size c
  unfolding account grow_context
  account-reaches x lt in_chunk = ground arith
