-- ===== src/Index/Locate.antt =====
-- Which place of the file index an offset reaches.
use fuse_node.Prelude.{
  ℕ, ◌+◌, ◌-◌, ◌*◌, ◌/◌, ◌%◌, ◌<◌, ◌≤◌, ◌≡◌, refl, Bool, Option, none, some, ltb, arith, Bool-cases,
  ltb→lt, ltb→le, le→ltb, lt→ltb, inl, inr,
}
use fuse_node.Config.{
  chunk_size, size_direct_unit, size_first_direct_unit, size_second_direct_unit,
  size_third_direct_unit, size_direct_end, size_first_direct_end, size_second_direct_end,
  size_third_direct_end,
}
use fuse_node.Inode.{Store}
use fuse_node.Inode.Slot.{Slot, direct, first, second, third, InRange, number}
use fuse_node.Index.{claim, claim_indirect, with_offset, level3_local_index}

-- The lookup of one place; the direct places need no block.
abbrev pub claim_at : ℕ → Slot → Bool → Store → Option (Option ℕ × Store)
claim_at h (direct i) = claim h (direct i)
claim_at h p = claim_indirect h p

-- Where the index finds byte `offset` of a file: place `p`, byte `o` of its chunk.
pub record Located (offset : ℕ) (p : Slot) (o : ℕ) : Type 0 where
  pub in_range : InRange p
  pub in_chunk : o < chunk_size
  pub exact : number p * chunk_size + o ≡ offset

-- Every offset below the largest file size is looked up at one place in range, at an offset within
-- its chunk, and the number of that place and the offset in the chunk make up the file offset.
pub level3_local_index-Located :
    (offset h : ℕ) (only_read : Bool) (s : Store)
    → offset < size_third_direct_end
    → (p : Slot) × (o : ℕ) × Located offset p o
      × (level3_local_index offset h only_read s ≡ with_offset o (claim_at h p only_read s))
unfolding level3_local_index
level3_local_index-Located offset h only_read s lt =
    elim (Bool-cases (ltb offset size_direct_end)) [
      | inl a ↦ (
        direct (offset / size_direct_unit),
        offset % size_direct_unit,
        (let l = ltb→lt _ _ a in omega arith),
        rw a refl,
      )
      | inr a ↦ elim (Bool-cases (ltb offset size_first_direct_end)) [
        | inl b ↦
            let o = offset - size_direct_end in
            (
              first (o / size_first_direct_unit),
              o % size_first_direct_unit,
              (let l = ltb→lt _ _ b in let k = ltb→le _ _ a in omega arith),
              rw (a, b) refl,
            )
        | inr b ↦ elim (Bool-cases (ltb offset size_second_direct_end)) [
          | inl c ↦
              let o = offset - size_first_direct_end in
              let in_2 = o % size_second_direct_unit in
              (
                second (o / size_second_direct_unit) (in_2 / size_first_direct_unit),
                in_2 % size_first_direct_unit,
                (let l = ltb→lt _ _ c in let k = ltb→le _ _ b in omega arith),
                rw (a, b, c) refl,
              )
          | inr c ↦
              let o = offset - size_second_direct_end in
              let in_3 = o % size_third_direct_unit in
              let in_2 = in_3 % size_second_direct_unit in
              (
                third (o / size_third_direct_unit) (in_3 / size_second_direct_unit)
                    (in_2 / size_first_direct_unit),
                in_2 % size_first_direct_unit,
                (let k = ltb→le _ _ c in omega arith),
                rw (a, b, c, lt→ltb offset size_third_direct_end lt) refl,
              )
        ]
      ]
    ]

-- Beyond the largest file size the index returns NULL and changes nothing.
pub level3_local_index_beyond :
    (offset h : ℕ) (only_read : Bool) (s : Store)
    → size_third_direct_end ≤ offset
    → level3_local_index offset h only_read s ≡ some (none, s)
unfolding level3_local_index
level3_local_index_beyond offset h only_read s le =
    rw
      (
        le→ltb offset size_direct_end (omega arith),
        le→ltb offset size_first_direct_end (omega arith),
        le→ltb offset size_second_direct_end (omega arith),
        le→ltb offset size_third_direct_end le,
      )
      refl
