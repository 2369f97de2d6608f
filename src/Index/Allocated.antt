-- ===== src/Index/Allocated.antt =====
-- What the allocation of an index block of src/dhmp_fs_index.c changes of an inode.
use fuse_node.Prelude.{◌≡◌, refl, sym, true, false, none, arith}
use fuse_node.Inode.{Inode}
use fuse_node.Inode.Slot.{Slot, direct, first, second, third}
use fuse_node.Index.{
  init_indirect_class1, init_indirect_class2, init_indirect_class3, present, allocate,
}
use fuse_node.Inode.Names.{SameFields}

pub allocate-addr :
    (n : Inode) (p q : Slot)
    → ((r : Slot) → present n r ≡ false → n.addr r ≡ none)
    → present n p ≡ false
    → (allocate n p).addr q ≡ n.addr q
unfolding init_indirect_class1 init_indirect_class2 init_indirect_class3
allocate-addr n (direct i) q off e = refl
allocate-addr n (first i) (first j) off e = sym (off (first j) e)
allocate-addr n (first i) _ off e = refl
allocate-addr n (second i k) (second j l) off e = sym (off (second j l) e)
allocate-addr n (second i k) _ off e = refl
allocate-addr n (third i k m) (third j l o) off e = sym (off (third j l o) e)
allocate-addr n (third i k m) _ off e = refl

pub allocate-contexts : (n : Inode) (p : Slot) → (allocate n p).contexts ≡ n.contexts
unfolding init_indirect_class1 init_indirect_class2 init_indirect_class3
allocate-contexts n (direct i) = refl
allocate-contexts n _ = refl

pub allocate-present :
    (n : Inode) (p q : Slot) → present (allocate n p) q ≡ false → present n q ≡ false
unfolding init_indirect_class1 init_indirect_class2 init_indirect_class3
allocate-present n (direct i) q e = e
allocate-present n (first i) (first j) e = ground arith
allocate-present n (first i) _ e = e
allocate-present n (second i k) (second j l) e = ground arith
allocate-present n (second i k) _ e = e
allocate-present n (third i k m) (third j l o) e = ground arith
allocate-present n (third i k m) _ e = e

pub present-allocate : (n : Inode) (p : Slot) → present (allocate n p) p ≡ true
unfolding init_indirect_class1 init_indirect_class2 init_indirect_class3
present-allocate n (direct i) = refl
present-allocate n _ = refl

same_fields : (n : Inode) → SameFields n n
same_fields n = record {
  flag = refl;
  d_hash = refl;
  son = refl;
  son_nums = refl;
  bro = refl;
  filename = refl;
}

pub allocate-SameFields : (n : Inode) (p : Slot) → SameFields n (allocate n p)
unfolding init_indirect_class1 init_indirect_class2 init_indirect_class3
allocate-SameFields n (direct i) = same_fields n
allocate-SameFields n (first i) = record {
  flag = refl;
  d_hash = refl;
  son = refl;
  son_nums = refl;
  bro = refl;
  filename = refl;
}
allocate-SameFields n (second i k) = record {
  flag = refl;
  d_hash = refl;
  son = refl;
  son_nums = refl;
  bro = refl;
  filename = refl;
}
allocate-SameFields n (third i k m) = record {
  flag = refl;
  d_hash = refl;
  son = refl;
  son_nums = refl;
  bro = refl;
  filename = refl;
}
