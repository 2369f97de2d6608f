-- ===== src/Dir/Tree/System.antt =====
-- The invariant of the directories: the inodes in use are a tree below the root, and the other ones
-- are free.
use fuse_node.Prelude.{ℕ, ◌<◌, ◌≡◌, ◌≢◌, refl, true, false, none, [], ◌∷◌}
use fuse_node.Inode.{Store}
use fuse_node.Index.Claim.{IsConsistent, contains, IsDistinct}
use fuse_node.HashMap.Hash.{Name}
use fuse_node.Dir.Walk.{root, lookup_in}
use fuse_node.Dir.Tree.{Forest, roots, all, Node, Holds, IsDistinct-Apart}
use fuse_node.Dir.Tree.Edit.{Edit, here, below, later}

-- The inodes in use are those of the tree `f`, whose root is `root`, a directory. All other inodes
-- are on the slab, and those on it are other ones, files without children or a table, each once.
pub record IsTree (s : Store) (f : Forest) : Type 0 where
  pub index : IsConsistent s
  pub holds : Holds s f
  pub distinct : IsDistinct (all f)
  pub at_root : roots f ≡ root ∷ []
  pub root_flag : (s.inode root).is_directories ≡ true
  pub in_range : (g : ℕ) → contains g (all f) ≡ true → g < s.next_inode
  pub slab_distinct : IsDistinct s.free_inode_slab
  pub slab_range : (g : ℕ) → contains g s.free_inode_slab ≡ true → g < s.next_inode
  pub slab_apart : (g : ℕ) → contains g s.free_inode_slab ≡ true → contains g (all f) ≡ false
  pub all_free :
      (g : ℕ) → g < s.next_inode → contains g (all f) ≡ false → contains g s.free_inode_slab ≡ true
  pub slab_flag : (g : ℕ) → contains g s.free_inode_slab ≡ true → (s.inode g).is_directories ≡ false
  pub slab_son : (g : ℕ) → contains g s.free_inode_slab ≡ true → (s.inode g).son ≡ none
  pub slab_d_hash : (g : ℕ) → contains g s.free_inode_slab ≡ true → (s.inode g).d_hash ≡ none

-- In every other directory of the tree, all names are looked up as before.
abbrev pub Elsewhere : Store → Forest → ℕ → Store → Type 0
Elsewhere s f h t =
    (g : ℕ) → contains g (all f) ≡ true → h ≢ g → (q : Name) → lookup_in t q g ≡ lookup_in s q g

pub lookup_in-same :
    (s t : Store) (g : ℕ) (q : Name)
    → (t.inode g).d_hash ≡ (s.inode g).d_hash
    → lookup_in t q g ≡ lookup_in s q g
unfolding lookup_in
lookup_in-same s t g q e = rw e refl

module _ {h : ℕ} {b b' : Forest} where
  -- The directory that is changed, in the tree as it was.
  pub Edit-Node :
      {f f' : Forest} (s : Store) → Edit h b b' f f' → Holds s f → Node s h (roots b) × Holds s b
  Edit-Node s (here r) k = (k.0, k.1)
  Edit-Node s (below c f f' r e) k = Edit-Node s e k.1
  Edit-Node s (later c f r r' e) k = Edit-Node s e k.2

  pub Edit-Apart :
      {f f' : Forest}
      → Edit h b b' f f'
      → IsDistinct (all f)
      → IsDistinct (all b) × (contains h (all b) ≡ false)
  Edit-Apart (here r) d = let a = IsDistinct-Apart h b r d in (a.below_distinct, a.not_below)
  Edit-Apart (below c f f' r e) d = Edit-Apart e (IsDistinct-Apart c f r d).below_distinct
  Edit-Apart (later c f r r' e) d = Edit-Apart e (IsDistinct-Apart c f r d).rest_distinct
