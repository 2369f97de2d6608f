-- ===== src/Index/Same.antt =====
-- Stores that say the same of the file index.
use fuse_node.Prelude.{ℕ, ◌≡◌, refl, sym, ap, ◌∙◌, arith}
use fuse_node.Inode.{Store}
use fuse_node.Inode.Slot.{Slot, direct, first, second, third}
use fuse_node.Index.{present}
use fuse_node.Index.Claim.{IsConsistent, contains}

-- What two stores say alike of the file index of an inode.
pub record SameIndex (s t : Store) (g : ℕ) : Type 0 where
  pub addr : (t.inode g).addr ≡ (s.inode g).addr
  pub contexts : (t.inode g).contexts ≡ (s.inode g).contexts
  pub in1addr : (t.inode g).in1addr ≡ (s.inode g).in1addr
  pub in2addr : (t.inode g).in2addr ≡ (s.inode g).in2addr
  pub in3addr : (t.inode g).in3addr ≡ (s.inode g).in3addr

pub SameIndex-same : (s t : Store) (g : ℕ) → t.inode g ≡ s.inode g → SameIndex s t g
SameIndex-same s t g e = record {
  addr = ap (λ n. n.addr) e;
  contexts = ap (λ n. n.contexts) e;
  in1addr = ap (λ n. n.in1addr) e;
  in2addr = ap (λ n. n.in2addr) e;
  in3addr = ap (λ n. n.in3addr) e;
}

SameIndex-present :
    (s t : Store) (g : ℕ) (p : Slot)
    → SameIndex s t g
    → present (t.inode g) p ≡ present (s.inode g) p
SameIndex-present s t g (direct i) e = refl
SameIndex-present s t g (first i) e = ground (arith, e.in1addr)
SameIndex-present s t g (second i j) e = ground (arith, e.in2addr)
SameIndex-present s t g (third i j k) e = ground (arith, e.in3addr)

-- The file index is consistent where all its parts are as before.
pub IsConsistent-same :
    (s t : Store)
    → t.chunks ≡ s.chunks
    → t.which ≡ s.which
    → ((g : ℕ) → SameIndex s t g)
    → IsConsistent s
    → IsConsistent t
IsConsistent-same s t chunks which same good = record {
  cursor = rw chunks good.cursor;
  owned = λ h p c e.
      let (lt, used, back) = good.owned h p c (ap (λ f. f p) (sym (same h).addr) ∙ e) in
      (lt, ap (λ k. k.bitmap c) chunks ∙ used, ap (λ f. f c) which ∙ back);
  listed =
      λ h p c e. rw ((same h).contexts) (good.listed h p c (ap (λ f. f p) (sym (same h).addr) ∙ e));
  placed = λ h c e.
      let (p, at) = good.placed h c (ap (contains c) (sym (same h).contexts) ∙ e) in
      (p, ap (λ f. f p) (same h).addr ∙ at);
  distinct = λ h. rw ((same h).contexts) (good.distinct h);
  absent = λ h p e.
      ap (λ f. f p) (same h).addr ∙ good.absent h p (sym (SameIndex-present s t h p (same h)) ∙ e);
}
