-- ===== src/Dir/Tree/Emptied.antt =====
-- `dhmpDeleteALL` of src/dhmp_fs_dir_ops.c over the trees below a directory.
use fuse_node.Prelude.{
  ℕ, zero, suc, ◌+◌, ◌≤◌, ◌≡◌, inl, inr, refl, sym, ap, ◌∙◌, Bool, true, false, ◌||◌, ◌&&◌, not,
  Option, none, List, [], ◌∷◌, ◌++◌, length, length-append, ◌==◌, if◌then◌else◌, arith, Bool-cases,
  ==_iff, ==_refl,
}
use mathlib.Core.Path.{subst}
use mathlib.Core.List.{append_assoc, append-nil}
use fuse_node.Outcome.{Run, ok, ◌>>=◌}
use fuse_node.Inode.{Store}
use fuse_node.Inode.Slab.{reset_indoe, no_table}
use fuse_node.Index.Claim.{IsConsistent, contains, IsDistinct}
use fuse_node.Index.Free.{Freed, reset_indoe-Freed}
use fuse_node.Dir.Children.{IsChain, IsChain-same}
use fuse_node.Dir.Delete.{delete_sons}
use fuse_node.Dir.Tree.{
  Forest, nil, node, roots, all, Node, Holds, roots-all, contains-append, SameNode-same, Apart,
  IsDistinct-Apart, Holds-frame,
}

-- Whether one of some inodes holds a chunk.
abbrev pub held : Store → List ℕ → ℕ → Bool
held s [] c = false
held s (g ∷ gs) c = contains c (s.inode g).contexts || held s gs c

-- What is left of the store when some inodes are deleted: they are files without children, at the end of the slab, their chunks and no others are free, and the other inodes
-- are as before.
pub record Emptied (s : Store) (gs : List ℕ) (t : Store) : Type 0 where
  pub consistent : IsConsistent t
  pub others : (g : ℕ) → contains g gs ≡ false → t.inode g ≡ s.inode g
  pub flag : (g : ℕ) → contains g gs ≡ true → (t.inode g).is_directories ≡ false
  pub son : (g : ℕ) → contains g gs ≡ true → (t.inode g).son ≡ none
  pub d_hash : (g : ℕ) → contains g gs ≡ true → (t.inode g).d_hash ≡ none
  pub bitmap : (c : ℕ) → t.chunks.bitmap c ≡ (if held s gs c then false else s.chunks.bitmap c)
  pub slab : t.free_inode_slab ≡ s.free_inode_slab ++ gs
  pub next : t.next_inode ≡ s.next_inode

pub Emptied-nil : (s : Store) → IsConsistent s → Emptied s [] s
Emptied-nil s good = record {
  consistent = good;
  others = λ g off. refl;
  flag = λ g on. ground (arith, on);
  son = λ g on. ground (arith, on);
  d_hash = λ g on. ground (arith, on);
  bitmap = λ c. refl;
  slab = sym (append-nil s.free_inode_slab);
  next = refl;
}

Freed-Emptied :
    (s t : Store) (h : ℕ)
    → (if (s.inode h).is_directories then none else (s.inode h).d_hash) ≡ none
    → Freed s h t
    → Emptied s (h ∷ []) t
Freed-Emptied s t h none_left f = record {
  consistent = f.consistent;
  others = λ g off. f.others g (ground (arith, off));
  flag = λ g on. rw (← (same g on)) f.flag;
  son = λ g on. rw (← (same g on)) f.son;
  d_hash = λ g on. rw (← (same g on)) (f.d_hash ∙ none_left);
  bitmap = λ c. f.bitmap c ∙ (ground arith);
  slab = f.slab;
  next = f.next;
}
  where
    same : (g : ℕ) → contains g (h ∷ []) ≡ true → h ≡ g
    same g on = ground (arith, on)

held-append :
    (s : Store) (xs ys : List ℕ) (c : ℕ) → held s (xs ++ ys) c ≡ (held s xs c || held s ys c)
held-append s [] ys c = refl
held-append s (x ∷ xs) ys c = ground (arith, held-append s xs ys c)

-- What inodes hold that are as before.
held-same :
    (s t : Store) (gs : List ℕ) (c : ℕ)
    → ((g : ℕ) → contains g gs ≡ true → t.inode g ≡ s.inode g)
    → held t gs c ≡ held s gs c
held-same s t [] c same = refl
held-same s t (g ∷ gs) c same =
    rw
      (same g (ground (arith, ==_refl g)), held-same s t gs c (λ h on. same h (ground (arith, on))))
      refl

-- One deletion after another, of other inodes.
Emptied-append :
    (s t u : Store) (xs ys : List ℕ)
    → ((g : ℕ) → contains g ys ≡ true → contains g xs ≡ false)
    → Emptied s xs t
    → Emptied t ys u
    → Emptied s (xs ++ ys) u
Emptied-append s t u xs ys apart e f = record {
  consistent = f.consistent;
  others = λ g off.
      let o = sym (contains-append g xs ys) ∙ off in
      f.others g (ground (arith, o)) ∙ e.others g (ground (arith, o));
  flag = λ g on. elim (Bool-cases (contains g ys)) [
    | inl there ↦ f.flag g there
    | inr off ↦ rw (f.others g off) (e.flag g (ground (arith, first g on, off)))
  ];
  son = λ g on. elim (Bool-cases (contains g ys)) [
    | inl there ↦ f.son g there
    | inr off ↦ rw (f.others g off) (e.son g (ground (arith, first g on, off)))
  ];
  d_hash = λ g on. elim (Bool-cases (contains g ys)) [
    | inl there ↦ f.d_hash g there
    | inr off ↦ rw (f.others g off) (e.d_hash g (ground (arith, first g on, off)))
  ];
  bitmap = λ c.
      let same = held-same s t ys c (λ g on. e.others g (apart g on)) in
      f.bitmap c ∙ (ground (arith, e.bitmap c, same, held-append s xs ys c));
  slab = f.slab ∙ (rw e.slab (append_assoc s.free_inode_slab xs ys));
  next = f.next ∙ e.next;
}
  where
    first : (g : ℕ) → contains g (xs ++ ys) ≡ true → (contains g xs || contains g ys) ≡ true
    first g on = sym (contains-append g xs ys) ∙ on

pub Node-IsChain : (s : Store) (h : ℕ) (cs : List ℕ) → Node s h cs → IsChain s (s.inode h).son cs
Node-IsChain s h cs (inl d) = d.family.chain
Node-IsChain s h cs (inr f) = rw (f.children) f.son

-- A directory has its table.
pub Node-no_table : (s : Store) (h : ℕ) (cs : List ℕ) → Node s h cs → no_table (s.inode h) ≡ false
unfolding no_table
Node-no_table s h cs (inl d) = rw (d.flag, d.d_hash) refl
Node-no_table s h cs (inr f) = rw f.flag refl

-- A file has none.
table_left :
    (s : Store) (h : ℕ) (cs : List ℕ)
    → Node s h cs
    → (if (s.inode h).is_directories then none else (s.inode h).d_hash) ≡ none
table_left s h cs (inl d) = rw d.flag refl
table_left s h cs (inr f) = rw f.flag f.d_hash

no_roots : (f : Forest) → length (roots f) ≡ 0 → all f ≡ []
no_roots nil h = refl
no_roots (node c below rest) h = absurd (omega (arith, h))

-- Where `dhmpDeleteALL` does not go below an inode, nothing is there.
nothing_below :
    (s : Store) (h : ℕ) (f : Forest)
    → Node s h (roots f)
    → ((s.inode h).is_directories && not ((s.inode h).son_nums == 0)) ≡ false
    → all f ≡ []
nothing_below s h f (inl d) e = no_roots f (ground (arith, d.flag, d.family.count, e))
nothing_below s h f (inr g) e = no_roots f (ap length g.children)

length-all :
    (c : ℕ) (below rest : Forest)
    → length (all (node c below rest)) ≡ length (all below) + suc (length (all rest))
length-all c below rest = length-append (all below) (c ∷ all rest)

-- The inode itself is deleted after what is below it.
pub delete_one :
    (time : ℕ) (s t : Store) (c : ℕ) (below : Forest)
    → Node s c (roots below)
    → contains c (all below) ≡ false
    → Emptied s (all below) t
    → (u : Store) × (reset_indoe time c t ≡ ok u) × Emptied s (all below ++ c ∷ []) u
delete_one time s t c below n off e =
    let (u, run, f) =
      reset_indoe-Freed time c t e.consistent
        (rw (e.others c off) (Node-no_table s c (roots below) n)) in
    (
      u,
      run,
      Emptied-append s t u (all below) (c ∷ [])
          (λ g on. let p : c ≡ g = ground (arith, on) in rw (← p) off) e
          (Freed-Emptied t u c (rw (e.others c off) (table_left s c (roots below) n)) f),
    )

-- What happens below an inode, whether `dhmpDeleteALL` goes there or not.
visit_below :
    (s t : Store) (c : ℕ) (below : Forest) (r : Run Store)
    → Node s c (roots below)
    → IsConsistent s
    → r ≡ ok t
    → Emptied s (all below) t
    → (u : Store) × ((elim ((s.inode c).is_directories && not ((s.inode c).son_nums == 0)) [
      | true ↦ r
      | false ↦ ok s
    ])
        ≡ ok u)
      × Emptied s (all below) u
visit_below s t c below r n good run e =
    elim (Bool-cases ((s.inode c).is_directories && not ((s.inode c).son_nums == 0))) [
      | inl go ↦ (t, rw go run, e)
      | inr stay ↦ (s, rw stay refl, rw (nothing_below s c below n stay) (Emptied-nil s good))
    ]

-- The trees beside the ones that are deleted.
beside :
    (s t : Store) (o : Option ℕ) (gs : List ℕ) (f : Forest)
    → Emptied s gs t
    → ((g : ℕ) → contains g (all f) ≡ true → contains g gs ≡ false)
    → IsDistinct (all f)
    → IsChain s o (roots f)
    → Holds s f
    → IsChain t o (roots f) × Holds t f
beside s t o gs f e apart distinct chain h = (
  IsChain-same s t o (roots f) (λ g on. ap (λ n. n.bro) (e.others g (apart g (roots-all g f on))))
      chain,
  Holds-frame s t f (λ g on. SameNode-same s t g (e.others g (apart g on)))
      (λ g on _. ap (λ n. n.bro) (e.others g (apart g on))) distinct h,
)

not_deleted :
    (c : ℕ) (below rest : Forest) (g : ℕ)
    → Apart c below rest
    → contains g (all rest) ≡ true
    → contains g (all below ++ c ∷ []) ≡ false
not_deleted c below rest g a on =
    rw (contains-append g (all below) (c ∷ [])) (elim (Bool-cases (contains g (all below))) [
      | inl in_below ↦ ground (arith, a.apart g in_below, on)
      | inr off ↦ elim (Bool-cases (c == g)) [
        | inl e ↦
            (let p : c ≡ g = (==_iff c g).0 e in
              let q = a.not_rest in ground (arith, rw p at q, on))
        | inr e ↦ ground (arith, off, e)
      ]
    ])

-- The loop of `dhmpDeleteALL` over the children of a directory ends, if there are no more inodes below
-- than rounds, and deletes all of them.
pub delete_sons-Emptied :
    (fuel time : ℕ) (s : Store) (o : Option ℕ) (f : Forest)
    → length (all f) ≤ fuel
    → IsConsistent s
    → IsChain s o (roots f)
    → IsDistinct (all f)
    → Holds s f
    → (t : Store) × (delete_sons fuel time o s ≡ ok t) × Emptied s (all f) t
unfolding delete_sons
delete_sons-Emptied fuel time s o nil le good chain distinct h =
    (s, rw (chain, delete_sons) refl, Emptied-nil s good)
delete_sons-Emptied zero time s o (node c below rest) le good chain distinct h =
    absurd (omega (arith, le, length-all c below rest))
delete_sons-Emptied (suc fuel) time s o (node c below rest) le good chain distinct h =
    let a = IsDistinct-Apart c below rest distinct in
    let (t, go, e) =
      delete_sons-Emptied fuel time s (s.inode c).son below
        (omega (arith, le, length-all c below rest)) good (Node-IsChain s c (roots below) h.0)
        a.below_distinct h.1 in
    let (t1, go1, e1) =
      visit_below s t c below (delete_sons fuel time (s.inode c).son s) h.0 good go e in
    let (u, go2, e2) = delete_one time s t1 c below h.0 a.not_below e1 in
    let (chain', h') =
      beside s u (s.inode c).bro (all below ++ c ∷ []) rest e2
        (λ g on. not_deleted c below rest g a on) a.rest_distinct chain.1 h.2 in
    let (v, go3, e3) =
      delete_sons-Emptied fuel time u (s.inode c).bro rest
        (omega (arith, le, length-all c below rest)) e2.consistent chain' a.rest_distinct h' in
    let next : (t1.inode c).bro ≡ (s.inode c).bro = ap (λ n. n.bro) (e1.others c a.not_below) in
    (
      v,
      rw (chain.0, delete_sons) (rw (go1, ◌>>=◌) (rw (go2, ◌>>=◌) (rw next go3))),
      subst (λ l. Emptied s l v) (append_assoc (all below) (c ∷ []) (all rest))
          (Emptied-append s u v (all below ++ c ∷ []) (all rest)
            (λ g on. not_deleted c below rest g a on) e2 e3),
    )
