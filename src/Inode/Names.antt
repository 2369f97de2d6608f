-- ===== src/Inode/Names.antt =====
-- What the store says of directories and of free inodes, but not of the chunks of files.
use fuse_node.Prelude.{ℕ, ◌≡◌, refl, ◌∙◌, arith}
use fuse_node.Inode.{Inode, Store, set_inode}

-- Two stores say the same of directories and of free inodes.
pub record SameNames (s t : Store) : Type 0 where
  pub flag : (g : ℕ) → (t.inode g).is_directories ≡ (s.inode g).is_directories
  pub d_hash : (g : ℕ) → (t.inode g).d_hash ≡ (s.inode g).d_hash
  pub son : (g : ℕ) → (t.inode g).son ≡ (s.inode g).son
  pub son_nums : (g : ℕ) → (t.inode g).son_nums ≡ (s.inode g).son_nums
  pub bro : (g : ℕ) → (t.inode g).bro ≡ (s.inode g).bro
  pub filename : (g : ℕ) → (t.inode g).filename ≡ (s.inode g).filename
  pub slab : t.free_inode_slab ≡ s.free_inode_slab
  pub next : t.next_inode ≡ s.next_inode

pub SameNames-refl : (s : Store) → SameNames s s
SameNames-refl s = record {
  flag = λ g. refl;
  d_hash = λ g. refl;
  son = λ g. refl;
  son_nums = λ g. refl;
  bro = λ g. refl;
  filename = λ g. refl;
  slab = refl;
  next = refl;
}

pub SameNames-trans : (s t u : Store) → SameNames s t → SameNames t u → SameNames s u
SameNames-trans s t u a b = record {
  flag = λ g. b.flag g ∙ a.flag g;
  d_hash = λ g. b.d_hash g ∙ a.d_hash g;
  son = λ g. b.son g ∙ a.son g;
  son_nums = λ g. b.son_nums g ∙ a.son_nums g;
  bro = λ g. b.bro g ∙ a.bro g;
  filename = λ g. b.filename g ∙ a.filename g;
  slab = b.slab ∙ a.slab;
  next = b.next ∙ a.next;
}

-- A change of one inode that leaves these fields.
pub record SameFields (m n : Inode) : Type 0 where
  pub flag : n.is_directories ≡ m.is_directories
  pub d_hash : n.d_hash ≡ m.d_hash
  pub son : n.son ≡ m.son
  pub son_nums : n.son_nums ≡ m.son_nums
  pub bro : n.bro ≡ m.bro
  pub filename : n.filename ≡ m.filename

pub set_inode-SameNames :
    (s : Store) (h : ℕ) (n : Inode) → SameFields (s.inode h) n → SameNames s (set_inode s h n)
set_inode-SameNames s h n k = record {
  flag = λ g. ground (arith, k.flag);
  d_hash = λ g. ground (arith, k.d_hash);
  son = λ g. ground (arith, k.son);
  son_nums = λ g. ground (arith, k.son_nums);
  bro = λ g. ground (arith, k.bro);
  filename = λ g. ground (arith, k.filename);
  slab = refl;
  next = refl;
}
