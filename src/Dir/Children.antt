-- ===== src/Dir/Children.antt =====
-- The list of the children of a directory, and `add_to_father`.
use mathlib.Core.Path.{subst}
use fuse_node.Prelude.{
  ℕ, ◌+◌, ◌≡◌, sym, ◌∙◌, true, false, Option, none, some, List, [], ◌∷◌, length, arith, ==_refl,
}
use fuse_node.Inode.{Store}
use fuse_node.Index.Claim.{contains, IsDistinct}
use fuse_node.Dir.Links.{add_to_father}

-- The inodes from `o` on, along `bro`, are those of the list.
abbrev pub IsChain : Store → Option ℕ → List ℕ → Type 0
IsChain s o [] = o ≡ none
IsChain s o (c ∷ cs) = (o ≡ some c) × IsChain s (s.inode c).bro cs

-- The children of a directory, each once. Its count is `stale` too high: an inode that is used again
-- keeps the count that it had.
pub record IsFamily (s : Store) (father stale : ℕ) (cs : List ℕ) : Type 0 where
  pub chain : IsChain s (s.inode father).son cs
  pub distinct : IsDistinct cs
  pub count : (s.inode father).son_nums ≡ length cs + stale

pub IsChain-same :
    (s t : Store) (o : Option ℕ) (cs : List ℕ)
    → ((g : ℕ) → contains g cs ≡ true → (t.inode g).bro ≡ (s.inode g).bro)
    → IsChain s o cs
    → IsChain t o cs
IsChain-same s t o [] same h = h
IsChain-same s t o (c ∷ cs) same h = (
  h.0,
  rw (same c (ground (arith, ==_refl c)))
      (IsChain-same s t (s.inode c).bro cs (λ g at. same g (ground (arith, at))) h.1),
)

-- A new child comes first, before the other ones.
pub add_to_father-IsFamily :
    (s : Store) (father now stale : ℕ) (cs : List ℕ)
    → IsFamily s father stale cs
    → contains now cs ≡ false
    → IsFamily (add_to_father father now s) father stale (now ∷ cs)
unfolding add_to_father
add_to_father-IsFamily s father now stale cs h new =
    let t = add_to_father father now s in
    let behind : (s.inode father).son ≡ (t.inode now).bro = ground arith in
    record {
      chain = (
        ground arith,
        IsChain-same s t (t.inode now).bro cs (λ g at. ground (arith, new, at))
            (subst (λ o. IsChain s o cs) behind h.chain),
      );
      distinct = (new, h.distinct);
      count = ground (arith, h.count);
    }

-- The children are the same where the store has the same links.
pub IsFamily-same :
    (s t : Store) (father stale : ℕ) (cs : List ℕ)
    → (t.inode father).son ≡ (s.inode father).son
    → (t.inode father).son_nums ≡ (s.inode father).son_nums
    → ((g : ℕ) → contains g cs ≡ true → (t.inode g).bro ≡ (s.inode g).bro)
    → IsFamily s father stale cs
    → IsFamily t father stale cs
IsFamily-same s t father stale cs son nums bro h = record {
  chain =
      IsChain-same s t (t.inode father).son cs bro (subst (λ o. IsChain s o cs) (sym son) h.chain);
  distinct = h.distinct;
  count = nums ∙ h.count;
}
