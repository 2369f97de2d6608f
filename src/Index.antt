-- ===== src/Index.antt =====
-- `level3_local_index`, `get_free_context` and the indirect index blocks of src/dhmp_fs_index.c.
-- A result `none` is a fault: the write through a NULL context when the disk is full.
pub mod Locate
pub mod Claim
pub mod Same
pub mod Allocated
pub mod Lookup
pub mod Start
pub mod Free
use fuse_node.Prelude.{
  ℕ, ◌-◌, ◌/◌, ◌%◌, Bool, true, false, ◌&&◌, not, Option, none, some, List, ◌∷◌, ltb, if◌then◌else◌,
}
use mathlib.Core.Option
use fuse_node.Config.{
  size_direct_unit, size_first_direct_unit, size_second_direct_unit, size_third_direct_unit,
  size_direct_end, size_first_direct_end, size_second_direct_end, size_third_direct_end,
}
use fuse_node.Chunk.{Chunks, get_free_chunk}
use fuse_node.Inode.{Inode, Store, update, set_addr, set_inode}
use fuse_node.Inode.Slot.{Slot, direct, first, second, third}

-- `init_indirect_class1`, `2` and `3`: a new block, its places NULL.
unfoldable pub init_indirect_class1 : Inode → Inode
init_indirect_class1 n = record n {
  in1addr = true;
  addr = λ p. elim p [ first _ ↦ none | q ↦ n.addr q ];
}

unfoldable pub init_indirect_class2 : Inode → Inode
init_indirect_class2 n = record n {
  in2addr = true;
  addr = λ p. elim p [ second _ _ ↦ none | q ↦ n.addr q ];
}

unfoldable pub init_indirect_class3 : Inode → Inode
init_indirect_class3 n = record n {
  in3addr = true;
  addr = λ p. elim p [ third _ _ _ ↦ none | q ↦ n.addr q ];
}

-- Whether the block of a place is allocated; its allocation.
abbrev pub present : Inode → Slot → Bool
present n (direct i) = true
present n (first i) = n.in1addr
present n (second i j) = n.in2addr
present n (third i j k) = n.in3addr

abbrev pub allocate : Inode → Slot → Inode
allocate n (direct i) = n
allocate n (first i) = init_indirect_class1 n
allocate n (second i j) = init_indirect_class2 n
allocate n (third i j k) = init_indirect_class3 n

-- `insert_list(head->context, cnt)`.
abbrev pub insert_list : List ℕ → ℕ → List ℕ
insert_list l c = c ∷ l

-- What follows `get_free_context` at the place `p` of the inode at `h`.
unfoldable pub attach : ℕ → Slot → Option ℕ × Chunks → Store → Option (Option ℕ × Store)
attach h p (none, cs) s = none
attach h p (some c, cs) s =
    let n = s.inode h in
    some (
      some c,
      record s {
        chunks = cs;
        which = update s.which c (some (h, p));
        inode =
            update s.inode h
              (record n { addr = set_addr n.addr p (some c); contexts = insert_list n.contexts c });
      },
    )

-- The context at a place, which a write allocates where it is NULL.
unfoldable pub claim : ℕ → Slot → Bool → Store → Option (Option ℕ × Store)
unfolding attach
claim h p only_read s = elim ((s.inode h).addr p) [
  | some c ↦ some (some c, s)
  | none ↦ if only_read then some (none, s) else attach h p (get_free_chunk s.chunks) s
]

-- A place behind an indirect block, which a write allocates and a read does not.
unfoldable pub claim_indirect : ℕ → Slot → Bool → Store → Option (Option ℕ × Store)
claim_indirect h p only_read s =
    if present (s.inode h) p
    then claim h p only_read s
    else if only_read
    then some (none, s)
    else claim h p only_read (set_inode s h (allocate (s.inode h) p))

-- The context with the offset in it, `*offset` at the return.
abbrev pub with_offset : ℕ → Option (Option ℕ × Store) → Option (Option (ℕ × ℕ) × Store)
with_offset o r = Option.map (λ x. (Option.map (λ c. (c, o)) x.0, x.1)) r

unfoldable pub level3_local_index : ℕ → ℕ → Bool → Store → Option (Option (ℕ × ℕ) × Store)
level3_local_index offset h only_read s =
    let o1 = offset - size_direct_end in
    let o2 = offset - size_first_direct_end in
    let o2' = o2 % size_second_direct_unit in
    let o3 = offset - size_second_direct_end in
    let o3' = o3 % size_third_direct_unit in
    let o3'' = o3' % size_second_direct_unit in
    if ltb offset size_direct_end
    then with_offset (offset % size_direct_unit)
        (claim h (direct (offset / size_direct_unit)) only_read s)
    else if ltb offset size_first_direct_end
    then with_offset (o1 % size_first_direct_unit)
        (claim_indirect h (first (o1 / size_first_direct_unit)) only_read s)
    else if ltb offset size_second_direct_end
    then with_offset (o2' % size_first_direct_unit) (
        claim_indirect h (second (o2 / size_second_direct_unit) (o2' / size_first_direct_unit))
          only_read s)
    else if ltb offset size_third_direct_end
    then with_offset (o3'' % size_first_direct_unit) (
        claim_indirect h
          (third (o3 / size_third_direct_unit) (o3' / size_second_direct_unit)
            (o3'' / size_first_direct_unit))
          only_read s)
    else some (none, s)
