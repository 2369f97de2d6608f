-- ===== src/Dir/Tree/Follows.antt =====
-- `search_d_hash` of src/dhmp_fs_dir_ops.c in two stores.
use fuse_node.Prelude.{
  ℕ, ◌≡◌, ◌≢◌, ◌⊎◌, inl, inr, refl, sym, ◌∙◌, Bool, true, false, ◌||◌, some, [], ◌∷◌, ◌++◌, length,
  ◌==◌, if◌then◌else◌, arith, Bool-cases, ==_iff, ==_refl,
}
use mathlib.Core.Path.{subst}
use fuse_node.Outcome.{ok, ◌>>=◌}
use fuse_node.HashMap.Hash.{Name, default_equal, default_equal_sound}
use fuse_node.Inode.{Store}
use fuse_node.Index.Claim.{contains}
use fuse_node.Dir.Path.{slash, is_empty}
use fuse_node.Dir.Split.{IsName, deal_joined}
use fuse_node.Dir.Lookup.{search_d_hash-deal}
use fuse_node.Dir.Walk.{root, lookup_in, lookup_buffer, or_null, walk, search_d_hash}
use fuse_node.Dir.Tree.Edit.{clash}
use fuse_node.Dir.Tree.{Forest, nil, node, roots, Node, Holds, roots-all}
use fuse_node.Dir.Tree.System.{IsTree}
use fuse_node.Dir.Tree.Dropped.{below_root, Holds-below_root}
use fuse_node.Dir.Tree.Shrinking.{deleted}
use fuse_node.Dir.Tree.Deletion.{entry}
use fuse_node.Dir.Tree.Reached.{
  Holds-Stands, lookup_in-flag, lookup_in-inside, search_d_hash-inside, or_null-eq-some,
  lookup_buffer-eq-ok,
}

-- A lookup in one store that either succeeds in the other one too or enters the inodes of `D`, which
-- no lookup leaves.
pub record Follows (P D : ℕ → Type 0) (s t : Store) : Type 0 where
  pub step :
      (g x : ℕ) (q : Name)
      → P g
      → lookup_in s q g ≡ ok (some x)
      → ((lookup_in t q g ≡ ok (some x)) × P x) ⊎ D x
  pub closed : (g x : ℕ) (q : Name) → D g → lookup_in s q g ≡ ok (some x) → D x

module _ (P D : ℕ → Type 0) (s t : Store) (k : Follows P D s t) (h : ℕ) where
  walk-Closed :
      (b : Bool) (name : Name) (g : ℕ) (path : Name)
      → D g
      → walk s b name g path ≡ ok (some h)
      → D h
  unfolding walk
  walk-Closed b name g [] on e = subst D (ground (arith, e)) on
  walk-Closed b name g (c ∷ cs) on e = elim (Bool-cases ((c == slash) || is_empty cs)) [
    | inr q ↦ walk-Closed false (name ++ c ∷ []) g cs on (rw (q, walk) at e)
    | inl q ↦ elim (Bool-cases b) [
      | inl p ↦ walk-Closed false [] g cs on (rw (q, p, walk) at e)
      | inr p ↦
          let full : Name = if c == slash then name else name ++ c ∷ [] in
          let e' : (lookup_buffer s full g >>= or_null (λ n. walk s false [] n cs)) ≡ ok (some h) =
            rw (q, p, walk) at e in
          let (n, found, go) =
            or_null-eq-some (lookup_buffer s full g) (λ n. walk s false [] n cs) h e' in
          walk-Closed false [] n cs
            (k.closed g n full on (lookup_buffer-eq-ok s full g (some n) found).1) go
    ]
  ]

  walk-Follows :
      (b : Bool) (name : Name) (g : ℕ) (path : Name)
      → P g
      → walk s b name g path ≡ ok (some h)
      → (walk t b name g path ≡ ok (some h)) ⊎ D h
  unfolding walk
  walk-Follows b name g [] on e = inl e
  walk-Follows b name g (c ∷ cs) on e = elim (Bool-cases ((c == slash) || is_empty cs)) [
    | inr q ↦ rw (q, walk) (walk-Follows false (name ++ c ∷ []) g cs on (rw (q, walk) at e))
    | inl q ↦ elim (Bool-cases b) [
      | inl p ↦ rw (q, p, walk) (walk-Follows false [] g cs on (rw (q, p, walk) at e))
      | inr p ↦
          let full : Name = if c == slash then name else name ++ c ∷ [] in
          let e' : (lookup_buffer s full g >>= or_null (λ n. walk s false [] n cs)) ≡ ok (some h) =
            rw (q, p, walk) at e in
          let (n, found, go) =
            or_null-eq-some (lookup_buffer s full g) (λ n. walk s false [] n cs) h e' in
          let (fit, got) = lookup_buffer-eq-ok s full g (some n) found in
          elim (k.step g n full on got) [
            | inr d ↦ inr (walk-Closed false [] n cs d go)
            | inl (l, pn) ↦ elim (walk-Follows false [] n cs pn go) [
              | inl r ↦ inl (rw (q, p, walk) (rw (fit, l) r))
              | inr d ↦ inr d
            ]
          ]
    ]
  ]

  pub search_d_hash-Follows :
      (path : Name)
      → P root
      → search_d_hash s path ≡ ok (some h)
      → (search_d_hash t path ≡ ok (some h)) ⊎ D h
  unfolding search_d_hash
  search_d_hash-Follows path on e = elim (Bool-cases (length path == 1)) [
    | inl q ↦ inl (rw q (rw q at e))
    | inr q ↦ rw q (walk-Follows true [] root path on (rw q at e))
  ]

-- A path through a directory that is found is a lookup there.
pub search_d_hash-joined :
    (s : Store) (d f : Name) (h : ℕ)
    → IsName f
    → search_d_hash s (d ++ slash ∷ []) ≡ ok (some h)
    → search_d_hash s (d ++ slash ∷ f) ≡ lookup_in s f h
search_d_hash-joined s d f h n found =
    search_d_hash-deal s d f n ∙ rw ((deal_joined d f n).0, found, ◌>>=◌) refl

-- Another directory, the name in the directory, or another name there.
pub which_name :
    (h g : ℕ) (f q : Name)
    → (h ≢ g) ⊎ (((h ≡ g) × (f ≡ q)) ⊎ ((h ≡ g) × (default_equal f q ≡ false)))
which_name h g f q = elim (Bool-cases (h == g)) [
  | inr other ↦ inl (λ k. clash ((==_iff h g).1 k) other)
  | inl same ↦
      let k = (==_iff h g).0 same in
      elim (Bool-cases (default_equal f q)) [
        | inl z ↦ inr (inl (k, default_equal_sound f q z))
        | inr z ↦ inr (inr (k, z))
      ]
]

-- What the paths to a directory and to a child of it say of the two.
pub child_at :
    (s : Store) (d f : Name) (h c : ℕ) (b tree : Forest)
    → IsTree s tree
    → Node s h (roots b)
    → IsName f
    → search_d_hash s (d ++ slash ∷ []) ≡ ok (some h)
    → search_d_hash s (d ++ slash ∷ f) ≡ ok (some c)
    → (lookup_in s f h ≡ ok (some c))
      × ((s.inode h).is_directories ≡ true)
      × (contains c (roots b) ≡ true)
child_at s d f h c b tree w k n found there =
    let named : lookup_in s f h ≡ ok (some c) =
      sym (search_d_hash-joined s d f h n found) ∙ there in
    let on = search_d_hash-inside s tree (d ++ slash ∷ []) h w found in
    let flag = lookup_in-flag s tree h f (some c) (Holds-Stands s tree h w.holds on) named in
    (named, flag, (entry s h c f (roots b) k flag named).child)

pub own_deleted : (c : ℕ) (b : Forest) → contains c (deleted c b) ≡ true
own_deleted c b = roots-all c (node c (below_root c b) nil) (ground (arith, ==_refl c))

-- No lookup leaves what is below a child, and the child.
pub deleted_closed :
    (s : Store) (c : ℕ) (b : Forest)
    → contains c (roots b) ≡ true
    → Holds s b
    → (g x : ℕ) (q : Name) → contains g (deleted c b) ≡ true
    → lookup_in s q g ≡ ok (some x)
    → contains x (deleted c b) ≡ true
deleted_closed s c b child hb g x q on l =
    let k = node c (below_root c b) nil in
    let hk : Holds s k = let (nc, kb) = Holds-below_root s c b child hb in (nc, kb, tt) in
    lookup_in-inside s k g x q (Holds-Stands s k g hk on) l
