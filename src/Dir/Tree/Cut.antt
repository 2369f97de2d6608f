-- ===== src/Dir/Tree/Cut.antt =====
-- The store of `dhmpDelFromInode` of src/dhmp_fs_dir_ops.c before it deletes the inodes.
use fuse_node.Prelude.{ℕ, ◌≡◌, ◌≢◌, refl, ap, ◌∙◌, true, false, List, [], ◌∷◌, arith}
use fuse_node.HashMap.{HashMap}
use fuse_node.HashMap.Hash.{Name}
use fuse_node.Inode.{Store}
use fuse_node.Index.Claim.{IsConsistent, contains, IsDistinct}
use fuse_node.File.Room.{without, contains-without}
use fuse_node.Dir.Tree.{
  Forest, roots, all, Node, Holds, roots-all, SameNode, SameNode-own, Node-frame, Holds-frame,
}
use fuse_node.Dir.Tree.Edit.{off_of_not_on, clash, ne_of_contains}
use fuse_node.Dir.Tree.Emptied.{held}
use fuse_node.Index.Same.{SameIndex, IsConsistent-same}
use fuse_node.Dir.Tree.Dropped.{
  drop_root, below_root, roots-drop_root, drop_root_apart, below_root_part, below_root-IsDistinct,
  Holds-below_root,
}
use fuse_node.Dir.Tree.Relinked.{Relinked}
use fuse_node.Dir.Tree.Shrinking.{cut}

-- What is below a child is no child itself.
pub below_no_child :
    (g c : ℕ) (b : Forest)
    → IsDistinct (all b)
    → contains c (roots b) ≡ true
    → contains g (all (below_root c b)) ≡ true
    → contains g (roots b) ≡ false
below_no_child g c b d at on = off_of_not_on g (roots b) (λ q.
    let ne = ne_of_contains (all (below_root c b)) (below_root-IsDistinct c b d at).1 on in
    let k : contains g (without c (roots b)) ≡ true =
      contains-without c g (roots b) ∙ (ground (arith, ne, q)) in
    let deep = roots-all g (drop_root c b) (rw (roots-drop_root c b) k) in
    clash on (drop_root_apart g c b d at deep).1)

-- The store `cut` before the deletion, where the child is off the list of `h` in `u`.
module _ (s u : Store) (h : ℕ) (m : HashMap ℕ) (filename : Name) (b : Forest)
    (links : Relinked s h (roots b) u) where
  pub cut-SameNode : (g : ℕ) → h ≢ g → SameNode s (cut u h m filename) g
  cut-SameNode g ne = record {
    flag = ground (arith, ne, links.flag g);
    d_hash = ground (arith, ne, links.d_hash g);
    son = ground (arith, ne, links.son g ne);
    son_nums = ground (arith, ne, links.son_nums g ne);
    filename = ground (arith, ne, links.filename g);
  }

  cut-bro :
      (g : ℕ) → contains g (roots b) ≡ false → ((cut u h m filename).inode g).bro ≡ (s.inode g).bro
  cut-bro g off = ground (arith, links.bro g off)

  cut-SameIndex : (g : ℕ) → SameIndex s (cut u h m filename) g
  cut-SameIndex g =
      let k = links.index g in
      record {
        addr = ground (arith, k.addr);
        contexts = ground (arith, k.contexts);
        in1addr = ground (arith, k.in1addr);
        in2addr = ground (arith, k.in2addr);
        in3addr = ground (arith, k.in3addr);
      }

  pub cut-IsConsistent : IsConsistent s → IsConsistent (cut u h m filename)
  cut-IsConsistent = IsConsistent-same s (cut u h m filename) links.chunks links.which cut-SameIndex

  pub cut-held : (gs : List ℕ) (x : ℕ) → held (cut u h m filename) gs x ≡ held s gs x
  cut-held [] x = refl
  cut-held (g ∷ gs) x =
      let e = ap (contains x) (cut-SameIndex g).contexts in rw (e, cut-held gs x) refl

  -- The child and what is below it are there until they are deleted.
  pub cut-Holds :
      (c : ℕ)
      → IsDistinct (all b)
      → contains h (all b) ≡ false
      → contains c (roots b) ≡ true
      → Holds s b
      → Node (cut u h m filename) c (roots (below_root c b))
        × Holds (cut u h m filename) (below_root c b)
  cut-Holds c d off at hb =
      let k = below_root c b in
      let (n, hk) = Holds-below_root s c b at hb in
      let ne : (g : ℕ) → contains g (all k) ≡ true → h ≢ g =
        λ g on. ne_of_contains (all b) off (below_root_part g c b on) in
      (
        Node-frame s (cut u h m filename) c (roots k)
            (SameNode-own s (cut u h m filename) c
              (cut-SameNode c (ne_of_contains (all b) off (roots-all c b at))))
            (λ g on.
              let deep = roots-all g k on in
              (cut-bro g (below_no_child g c b d at deep), (cut-SameNode g (ne g deep)).filename))
            n,
        Holds-frame s (cut u h m filename) k (λ g on. cut-SameNode g (ne g on))
            (λ g on _. cut-bro g (below_no_child g c b d at on)) (below_root-IsDistinct c b d at).0
            hk,
      )
