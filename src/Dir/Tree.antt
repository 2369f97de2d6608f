-- ===== src/Dir/Tree.antt =====
-- A tree of files as the store holds it: what a directory and a file are, and what changes of the store
-- leave a tree as it is.
pub mod Edit
pub mod System
pub mod Reached
pub mod Start
pub mod Fresh
pub mod Growing
pub mod Making
pub mod Creation
pub mod Emptied
pub mod Dropped
pub mod Relinked
pub mod Shrinking
pub mod Pruned
pub mod Cut
pub mod Deletion
pub mod Renamed
pub mod Renaming
pub mod Calls
pub mod Session
pub mod Follows
pub mod NewPaths
pub mod LostPaths
pub mod MovedPaths
use mathlib.Core.Path.{subst}
use fuse_node.Prelude.{
  ℕ, ◌+◌, ◌≡◌, ◌≢◌, ◌⊎◌, inl, inr, refl, sym, ap, ◌∙◌, Bool, true, false, ◌||◌, Option, none, some,
  List, [], ◌∷◌, ◌++◌, length, length-append, ◌==◌, arith, Bool-cases, ==_iff, ==_refl,
}
use fuse_node.HashMap.{HashMap}
use fuse_node.HashMap.Hash.{Name}
use fuse_node.HashMap.Table.{view}
use fuse_node.HashMap.Methods.{IsHashMap}
use fuse_node.Inode.{Store}
use fuse_node.Index.Claim.{contains, IsDistinct}
use fuse_node.Dir.Children.{IsFamily, IsFamily-same}

-- Some siblings, each with what is below it.
pub data Forest : Type 0 where
  nil : Forest
  node : ℕ → Forest → Forest → Forest

abbrev pub roots : Forest → List ℕ
roots nil = []
roots (node c below rest) = c ∷ roots rest

-- All inodes, in the order in which `dhmpDeleteALL` reaches them: those below an inode, the inode, and
-- those behind it.
abbrev pub all : Forest → List ℕ
all nil = []
all (node c below rest) = all below ++ c ∷ all rest

-- A directory with its children: its list and its table have the same ones, by their names.
pub record IsDir (s : Store) (h : ℕ) (cs : List ℕ) : Type 0 where
  pub stale : ℕ
  pub table : HashMap ℕ
  pub flag : (s.inode h).is_directories ≡ true
  pub family : IsFamily s h stale cs
  pub d_hash : (s.inode h).d_hash ≡ some table
  pub good : IsHashMap table
  pub named : (c : ℕ) → contains c cs ≡ true → view table (s.inode c).filename ≡ some c
  pub listed :
      (q : Name) (c : ℕ)
      → view table q ≡ some c
      → (contains c cs ≡ true) × ((s.inode c).filename ≡ q)

-- A file has no children and no table.
pub record IsFile (s : Store) (h : ℕ) (cs : List ℕ) : Type 0 where
  pub flag : (s.inode h).is_directories ≡ false
  pub son : (s.inode h).son ≡ none
  pub d_hash : (s.inode h).d_hash ≡ none
  pub children : cs ≡ []

abbrev pub Node : Store → ℕ → List ℕ → Type 0
Node s h cs = IsDir s h cs ⊎ IsFile s h cs

-- The store holds the trees: every inode of them has the children that stand below it.
abbrev pub Holds : Store → Forest → Type 0
Holds s nil = Unit
Holds s (node c below rest) = Node s c (roots below) × Holds s below × Holds s rest

pub contains-append :
    (g : ℕ) (xs ys : List ℕ) → contains g (xs ++ ys) ≡ (contains g xs || contains g ys)
contains-append g [] ys = refl
contains-append g (a ∷ xs) ys = ground (arith, contains-append g xs ys)

-- A root is one of the inodes.
pub roots-all : (g : ℕ) (f : Forest) → contains g (roots f) ≡ true → contains g (all f) ≡ true
roots-all g nil h = h
roots-all g (node c below rest) h =
    rw (contains-append g (all below) (c ∷ all rest)) (ground (arith, h, roots-all g rest))

-- The two parts of a list without repetition, which share nothing.
pub IsDistinct-append :
    (xs ys : List ℕ)
    → IsDistinct (xs ++ ys)
    → IsDistinct xs × IsDistinct ys × ((g : ℕ) → contains g xs ≡ true → contains g ys ≡ false)
IsDistinct-append [] ys h = (tt, h, λ g on. ground (arith, on))
IsDistinct-append (a ∷ xs) ys h =
    let (l, r, apart) = IsDistinct-append xs ys h.1 in
    let off = sym (contains-append a xs ys) ∙ h.0 in
    (
      (ground (arith, off), l),
      r,
      λ g on. elim (Bool-cases (a == g)) [
        | inl same ↦ ground (arith, off, (==_iff a g).0 same)
        | inr other ↦ apart g (ground (arith, on, other))
      ],
    )

-- What two stores say alike of an inode, but for its place among its siblings.
pub record SameNode (s t : Store) (g : ℕ) : Type 0 where
  pub flag : (t.inode g).is_directories ≡ (s.inode g).is_directories
  pub d_hash : (t.inode g).d_hash ≡ (s.inode g).d_hash
  pub son : (t.inode g).son ≡ (s.inode g).son
  pub son_nums : (t.inode g).son_nums ≡ (s.inode g).son_nums
  pub filename : (t.inode g).filename ≡ (s.inode g).filename

pub SameNode-same : (s t : Store) (g : ℕ) → t.inode g ≡ s.inode g → SameNode s t g
SameNode-same s t g e = record {
  flag = ap (λ n. n.is_directories) e;
  d_hash = ap (λ n. n.d_hash) e;
  son = ap (λ n. n.son) e;
  son_nums = ap (λ n. n.son_nums) e;
  filename = ap (λ n. n.filename) e;
}

-- The same without the name.
pub record SameOwn (s t : Store) (g : ℕ) : Type 0 where
  pub flag : (t.inode g).is_directories ≡ (s.inode g).is_directories
  pub d_hash : (t.inode g).d_hash ≡ (s.inode g).d_hash
  pub son : (t.inode g).son ≡ (s.inode g).son
  pub son_nums : (t.inode g).son_nums ≡ (s.inode g).son_nums

pub SameNode-own : (s t : Store) (g : ℕ) → SameNode s t g → SameOwn s t g
SameNode-own s t g k = record {
  flag = k.flag;
  d_hash = k.d_hash;
  son = k.son;
  son_nums = k.son_nums;
}

pub Node-frame :
    (s t : Store) (h : ℕ) (cs : List ℕ)
    → SameOwn s t h
    → ((g : ℕ)
        → contains g cs ≡ true
        → ((t.inode g).bro ≡ (s.inode g).bro) × ((t.inode g).filename ≡ (s.inode g).filename))
    → Node s h cs
    → Node t h cs
Node-frame s t h cs same child (inl d) = inl record {
  stale = d.stale;
  table = d.table;
  flag = same.flag ∙ d.flag;
  family = IsFamily-same s t h d.stale cs same.son same.son_nums (λ g on. (child g on).0) d.family;
  d_hash = same.d_hash ∙ d.d_hash;
  good = d.good;
  named = λ c on. rw ((child c on).1) (d.named c on);
  listed = λ q c e. let (on, name) = d.listed q c e in (on, (child c on).1 ∙ name);
}
Node-frame s t h cs same child (inr f) = inr record {
  flag = same.flag ∙ f.flag;
  son = same.son ∙ f.son;
  d_hash = same.d_hash ∙ f.d_hash;
  children = f.children;
}

-- The parts of a node of a tree without repetition.
pub record Apart (c : ℕ) (below rest : Forest) : Type 0 where
  pub below_distinct : IsDistinct (all below)
  pub rest_distinct : IsDistinct (all rest)
  pub not_below : contains c (all below) ≡ false
  pub not_rest : contains c (all rest) ≡ false
  pub apart : (g : ℕ) → contains g (all below) ≡ true → contains g (all rest) ≡ false

pub IsDistinct-Apart :
    (c : ℕ) (below rest : Forest) → IsDistinct (all (node c below rest)) → Apart c below rest
IsDistinct-Apart c below rest h =
    let (l, r, apart) = IsDistinct-append (all below) (c ∷ all rest) h in
    record {
      below_distinct = l;
      rest_distinct = r.1;
      not_below = elim (Bool-cases (contains c (all below))) [
        | inl on ↦ let e = apart c on in ground (arith, e, ==_refl c)
        | inr off ↦ off
      ];
      not_rest = r.0;
      apart = λ g on. let e = apart g on in ground (arith, e);
    }

module _ (g c : ℕ) (below rest : Forest) where
  pub all_here : (c == g) ≡ true → contains g (all (node c below rest)) ≡ true
  all_here h = rw (contains-append g (all below) (c ∷ all rest)) (ground (arith, h))

  pub all_below : contains g (all below) ≡ true → contains g (all (node c below rest)) ≡ true
  all_below h = rw (contains-append g (all below) (c ∷ all rest)) (ground (arith, h))

  pub all_rest : contains g (all rest) ≡ true → contains g (all (node c below rest)) ≡ true
  all_rest h = rw (contains-append g (all below) (c ∷ all rest)) (ground (arith, h))

-- Trees stay where their inodes do, whatever becomes of the names of the first siblings and of the links
-- between them.
pub Holds-frame_links :
    (s t : Store) (f : Forest)
    → ((g : ℕ) → contains g (all f) ≡ true → SameOwn s t g)
    → ((g : ℕ)
        → contains g (all f) ≡ true
        → contains g (roots f) ≡ false
        → ((t.inode g).bro ≡ (s.inode g).bro) × ((t.inode g).filename ≡ (s.inode g).filename))
    → IsDistinct (all f)
    → Holds s f
    → Holds t f
Holds-frame_links s t nil own bro distinct h = tt
Holds-frame_links s t (node c below rest) own bro distinct h =
    let a = IsDistinct-Apart c below rest distinct in
    let inside : (g : ℕ)
        → contains g (all below) ≡ true
        → ((t.inode g).bro ≡ (s.inode g).bro) × ((t.inode g).filename ≡ (s.inode g).filename) =
      λ g on. bro g (all_below g c below rest on) (not_root g a on) in
    (
      Node-frame s t c (roots below) (own c (all_here c c below rest (==_refl c)))
          (λ g on. inside g (roots-all g below on)) h.0,
      Holds-frame_links s t below (λ g on. own g (all_below g c below rest on))
          (λ g on _. inside g on) a.below_distinct h.1,
      Holds-frame_links s t rest (λ g on. own g (all_rest g c below rest on))
          (λ g on off. bro g (all_rest g c below rest on) (not_first g a on off)) a.rest_distinct
          h.2,
    )
  where
    not_root :
        (g : ℕ)
        → Apart c below rest
        → contains g (all below) ≡ true
        → contains g (roots (node c below rest)) ≡ false
    not_root g a on = elim (Bool-cases (contains g (roots (node c below rest)))) [
      | inr off ↦ off
      | inl there ↦ absurd (elim (Bool-cases (c == g)) [
        | inl e ↦
            (let p : c ≡ g = (==_iff c g).0 e in
              let q = a.not_below in ground (arith, rw p at q, on))
        | inr e ↦
            (let q = roots-all g rest (ground (arith, there, e)) in ground (arith, a.apart g on, q))
      ])
    ]

    not_first :
        (g : ℕ)
        → Apart c below rest
        → contains g (all rest) ≡ true
        → contains g (roots rest) ≡ false
        → contains g (roots (node c below rest)) ≡ false
    not_first g a on off = elim (Bool-cases (c == g)) [
      | inl e ↦
          (let p : c ≡ g = (==_iff c g).0 e in
            let q = a.not_rest in absurd (ground (arith, rw p at q, on)))
      | inr e ↦ ground (arith, e, off)
    ]

-- The same where the first siblings keep their names too.
pub Holds-frame :
    (s t : Store) (f : Forest)
    → ((g : ℕ) → contains g (all f) ≡ true → SameNode s t g)
    → ((g : ℕ)
        → contains g (all f) ≡ true
        → contains g (roots f) ≡ false
        → (t.inode g).bro ≡ (s.inode g).bro)
    → IsDistinct (all f)
    → Holds s f
    → Holds t f
Holds-frame s t f own bro =
    Holds-frame_links s t f (λ g on. SameNode-own s t g (own g on))
      (λ g on off. (bro g on off, (own g on).filename))
