-- ===== src/File/Place.antt =====
-- The place of a chunk by its number, and the bytes of a bank that a chunk takes.
use fuse_node.Prelude.{
  ℕ, ◌+◌, ◌-◌, ◌*◌, ◌/◌, ◌%◌, ◌<◌, ◌≤◌, ◌≡◌, ap, ◌∙◌, ltb, if◌then◌else◌, arith,
}
use fuse_node.Config.{
  bank_size, bank_num, chunk_size, chunk_num, direct_index_nums, indirect_index_nums,
}
use fuse_node.Inode.Slot.{Slot, direct, first, second, third, InRange, number}
use fuse_node.Index.Locate.{Located}
use fuse_node.Io.{bank_of, bank_offset}

-- The place of chunk `n` of a file.
unfoldable pub slot_of : ℕ → Slot
slot_of n =
    let n1 = n - direct_index_nums in
    let n2 = n1 - indirect_index_nums in
    let n3 = n2 - indirect_index_nums * indirect_index_nums in
    if ltb n direct_index_nums
    then direct n
    else if ltb n1 indirect_index_nums
    then first n1
    else if ltb n2 (indirect_index_nums * indirect_index_nums)
    then second (n2 / indirect_index_nums) (n2 % indirect_index_nums)
    else third (n3 / (indirect_index_nums * indirect_index_nums))
        (n3 / indirect_index_nums % indirect_index_nums) (n3 % indirect_index_nums)

slot_of-number : (p : Slot) → InRange p → slot_of (number p) ≡ p
unfolding slot_of
slot_of-number (direct i) h = ground arith
slot_of-number (first i) h = ground arith
slot_of-number (second i j) h = ground arith
slot_of-number (third i j k) h = ground arith

pub number-slot_of : (n : ℕ) → number (slot_of n) ≡ n
unfolding slot_of
number-slot_of n = ground arith

-- Where an offset is located is a function of it.
pub Located-slot_of :
    {offset o : ℕ} {p : Slot}
    → Located offset p o
    → (slot_of (offset / chunk_size) ≡ p) × (offset % chunk_size ≡ o)
Located-slot_of {offset} {o} {p} l =
    let e : offset / chunk_size ≡ number p = omega (arith, l.exact, l.in_chunk) in
    (ap slot_of e ∙ slot_of-number p l.in_range, omega (arith, l.exact, l.in_chunk))

-- The chunk of one number stands in a bank of the disk, and does not reach into the next one.
pub bank_of-lt :
    (c : ℕ) → c < chunk_num → (bank_of c < bank_num) × (bank_offset c + chunk_size ≤ bank_size)
bank_of-lt c lt = (omega arith, omega arith)

-- Two chunks do not share a byte of the disk.
pub chunks_apart :
    (c c' o o' : ℕ)
    → o < chunk_size
    → o' < chunk_size
    → bank_of c ≡ bank_of c'
    → bank_offset c + o ≡ bank_offset c' + o'
    → (c ≡ c') × (o ≡ o')
chunks_apart c c' o o' lt lt' b e = (omega arith, omega arith)
