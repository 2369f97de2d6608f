-- ===== src/Dir/Tree/Shrinking.antt =====
-- What a directory and the tree are once a child and what is below it are deleted.
use mathlib.Core.Path.{subst}
use fuse_node.Prelude.{
  ℕ, zero, suc, ◌<◌, ◌≤◌, ◌≡◌, ◌≢◌, inl, inr, sym, ap, ◌∙◌, true, false, some, List, [], ◌∷◌, ◌++◌,
  length, ◌==◌, arith, Bool-cases, ==_iff, ==_refl,
}
use fuse_node.HashMap.{HashMap, default_remove}
use fuse_node.HashMap.Hash.{Name, default_equal, default_equal_refl, default_equal_sound}
use fuse_node.HashMap.Table.{view}
use fuse_node.HashMap.Methods.{default_remove-Removed}
use fuse_node.Inode.{Store, set_inode}
use fuse_node.Index.Claim.{contains, IsDistinct}
use fuse_node.File.Room.{without, contains-without, length-without, without-IsDistinct}
use fuse_node.Dir.Children.{IsFamily, IsFamily-same}
use fuse_node.Dir.Tree.{Forest, roots, all, IsDir, SameNode}
use fuse_node.Dir.Tree.Edit.{clash}
use fuse_node.Dir.Tree.Emptied.{Emptied}
use fuse_node.Dir.Tree.Dropped.{below_root}
use fuse_node.Dir.Tree.Relinked.{Relinked}

-- As many different numbers below `n` as there are.
pub length-le_of_range :
    (n : ℕ) (l : List ℕ) → IsDistinct l → ((g : ℕ) → contains g l ≡ true → g < n) → length l ≤ n
length-le_of_range n [] d lt = omega arith
length-le_of_range zero (c ∷ l) d lt =
    absurd (let k = lt c (ground (arith, ==_refl c)) in omega (arith, k))
length-le_of_range (suc n) (c ∷ l) d lt =
    let rest = length-le_of_range n (without n (c ∷ l)) (without-IsDistinct n (c ∷ l) d) (λ g on.
      let on' = sym (contains-without n g (c ∷ l)) ∙ on in
      let k = lt g (ground (arith, on')) in ground (arith, on', k)) in
    omega (arith, rest, length-without n (c ∷ l) d)

-- The deleted inodes: those below the child `c`, and the child.
abbrev pub deleted : ℕ → Forest → List ℕ
deleted c b = all (below_root c b) ++ c ∷ []

-- The store once the name is off the table of the directory.
abbrev pub cut : Store → ℕ → HashMap ℕ → Name → Store
cut u h m filename =
    set_inode u h (record (u.inode h) { d_hash = some (default_remove m filename).1 })

-- The child `c` of `h` is off the list in `u`, then off the table `m`, where it was under `filename`; then
-- it and what is below it are deleted.
module _ (s u t : Store) (h c stale : ℕ) (m : HashMap ℕ) (filename : Name) (b : Forest)
    (links : Relinked s h (roots b) u) (gone : Emptied (cut u h m filename) (deleted c b) t)
    (above : contains h (deleted c b) ≡ false) where
  pub kept_other : (g : ℕ) → h ≢ g → contains g (deleted c b) ≡ false → t.inode g ≡ u.inode g
  kept_other g ne off = gone.others g off ∙ (ground (arith, ne))

  pub kept_father : t.inode h ≡ record (u.inode h) { d_hash = some (default_remove m filename).1 }
  kept_father = gone.others h above ∙ (ground arith)

  -- An inode that is not deleted keeps what it is, and its place if it is no child of the directory.
  pub kept :
      (g : ℕ)
      → contains g (deleted c b) ≡ false
      → ((t.inode g).is_directories ≡ (s.inode g).is_directories)
        × ((t.inode g).filename ≡ (s.inode g).filename)
        × ((t.inode g).bro ≡ (u.inode g).bro)
  kept g off = elim (Bool-cases (h == g)) [
    | inl q ↦
        let p : h ≡ g = (==_iff h g).0 q in
        rw (← p) (
          ap (λ n. n.is_directories) kept_father ∙ links.flag h,
          ap (λ n. n.filename) kept_father ∙ links.filename h,
          ap (λ n. n.bro) kept_father,
        )
    | inr q ↦
        let e = kept_other g (ground (arith, q)) off in
        (
          ap (λ n. n.is_directories) e ∙ links.flag g,
          ap (λ n. n.filename) e ∙ links.filename g,
          ap (λ n. n.bro) e,
        )
  ]

  pub kept-SameNode : (g : ℕ) → h ≢ g → contains g (deleted c b) ≡ false → SameNode s t g
  kept-SameNode g ne off =
      let e = kept_other g ne off in
      record {
        flag = ap (λ n. n.is_directories) e ∙ links.flag g;
        d_hash = ap (λ n. n.d_hash) e ∙ links.d_hash g;
        son = ap (λ n. n.son) e ∙ links.son g ne;
        son_nums = ap (λ n. n.son_nums) e ∙ links.son_nums g ne;
        filename = ap (λ n. n.filename) e ∙ links.filename g;
      }

  -- The other children stay, on the list and in the table.
  pub dropped-IsDir :
      (cs : List ℕ)
      → ((g : ℕ) → contains g (without c cs) ≡ true → contains g (deleted c b) ≡ false)
      → IsFamily u h stale (without c cs)
      → (s.inode h).d_hash ≡ some m
      → view m filename ≡ some c
      → IsDir s h cs
      → IsDir t h (without c cs)
  dropped-IsDir cs stays k e there d =
      let at : d.table ≡ m = ground (arith, e, d.d_hash) in
      let p = default_remove-Removed m filename (rw (← at) d.good) in
      let own : (s.inode c).filename ≡ filename =
        (d.listed filename c (subst (λ x. view x filename ≡ some c) (sym at) there)).1 in
      let named : (g : ℕ) → contains g cs ≡ true → view m (s.inode g).filename ≡ some g =
        λ g on. subst (λ x. view x (s.inode g).filename ≡ some g) at (d.named g on) in
      record {
        stale = stale;
        table = (default_remove m filename).1;
        flag = ap (λ n. n.is_directories) kept_father ∙ (links.flag h ∙ d.flag);
        family =
            IsFamily-same u t h stale (without c cs) (ap (λ n. n.son) kept_father)
              (ap (λ n. n.son_nums) kept_father) (λ g on. (kept g (stays g on)).2) k;
        d_hash = ap (λ n. n.d_hash) kept_father;
        good = p.good;
        named = λ g on.
            let on' = sym (contains-without c g cs) ∙ on in
            let old = named g (ground (arith, on')) in
            rw ((kept g (stays g on)).1) (
              p.reads (s.inode g).filename
              ∙ (rw (not_same g (s.inode g).filename (ground (arith, on')) there old) old));
        listed = λ q g k. elim (Bool-cases (default_equal filename q)) [
          | inl same ↦ absurd (ground (arith, sym (p.reads q) ∙ k, same))
          | inr other ↦
              let old : view m q ≡ some g = ground (arith, sym (p.reads q) ∙ k, other) in
              let (on, name) = d.listed q g (subst (λ x. view x q ≡ some g) (sym at) old) in
              let ne : c ≢ g =
                λ j. differs q other (sym own ∙ (ap (λ x. (s.inode x).filename) j ∙ name)) in
              let on' : contains g (without c cs) ≡ true =
                contains-without c g cs ∙ (ground (arith, on, ne)) in
              (on', (kept g (stays g on')).1 ∙ name)
        ];
      }
    where
      not_same :
          (g : ℕ) (q : Name)
          → c ≢ g
          → view m filename ≡ some c
          → view m q ≡ some g
          → default_equal filename q ≡ false
      not_same g q ne e f = elim (Bool-cases (default_equal filename q)) [
        | inr off ↦ off
        | inl same ↦
            absurd
              (let p = default_equal_sound filename q same in ne (ground (arith, e, rw (← p) at f)))
      ]

      differs : (q : Name) → default_equal filename q ≡ false → filename ≡ q → ⊥
      differs q off e = clash (default_equal_refl q) (rw e at off)
