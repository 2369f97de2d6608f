-- ===== src/Dir/Tree/Growing.antt =====
-- What a directory and the tree are once an inode is added below the directory.
use mathlib.Core.Path.{subst}
use fuse_node.Prelude.{
  ℕ, ◌+◌, ◌≡◌, ◌≢◌, ◌⊎◌, inl, inr, refl, sym, ap, ◌∙◌, true, false, none, some, List, [], ◌∷◌, ◌==◌,
  arith, Bool-cases, ==_iff, ==_refl,
}
use fuse_node.HashMap.{HashMap, put}
use fuse_node.HashMap.Hash.{Name, default_equal, default_equal_refl, default_equal_sound}
use fuse_node.HashMap.Table.{view}
use fuse_node.HashMap.Methods.{put-Put}
use fuse_node.Inode.{Store}
use fuse_node.Index.Claim.{IsConsistent, contains}
use fuse_node.Dir.Children.{IsChain, IsChain-same, IsFamily}
use fuse_node.Dir.Walk.{root}
use fuse_node.Dir.Tree.{
  Forest, nil, node, roots, all, IsDir, Node, roots-all, SameNode-same, Holds-frame,
}
use fuse_node.Dir.Tree.Edit.{
  Edit, Edit-roots, Edit-contains, Edit-inside, Edit-new, Edit-back, Edit-IsDistinct, Edit-Holds,
  clash, off_of_not_on,
}
use fuse_node.Dir.Tree.System.{IsTree, Edit-Node, Edit-Apart}
use fuse_node.Dir.Tree.Fresh.{Got}

-- The inode `now` is the first child of `h`, under its name in the table.
pub record Added (s : Store) (h now : ℕ) (m : HashMap ℕ) (filename : Name) (t : Store)
    : Type 0 where
  pub father : t.inode h ≡ record (s.inode h) {
    d_hash = some (put m filename now);
    son = some now;
    son_nums = (s.inode h).son_nums + 1;
  }
  pub others : (g : ℕ) → h ≢ g → now ≢ g → t.inode g ≡ s.inode g
  pub bro : (t.inode now).bro ≡ (s.inode h).son
  pub named : (t.inode now).filename ≡ filename
  pub child : Node t now []

module _ (s t : Store) (h now : ℕ) (m : HashMap ℕ) (filename : Name)
    (a : Added s h now m filename t) where
  -- The other children keep their names and the links between them.
  old_child :
      (g : ℕ)
      → now ≢ g
      → ((t.inode g).bro ≡ (s.inode g).bro) × ((t.inode g).filename ≡ (s.inode g).filename)
  old_child g ne = elim (Bool-cases (h == g)) [
    | inl q ↦
        let p : h ≡ g = (==_iff h g).0 q in
        rw (← p) (ap (λ n. n.bro) a.father, ap (λ n. n.filename) a.father)
    | inr q ↦
        let e = a.others g (ground (arith, q)) ne in (ap (λ n. n.bro) e, ap (λ n. n.filename) e)
  ]

  added-IsFamily :
      (stale : ℕ) (cs : List ℕ)
      → contains now cs ≡ false
      → IsFamily s h stale cs
      → IsFamily t h stale (now ∷ cs)
  added-IsFamily stale cs new k = record {
    chain = (
      ap (λ n. n.son) a.father,
      subst (λ o. IsChain t o cs) (sym a.bro)
          (IsChain-same s t (s.inode h).son cs
            (λ g on. (old_child g (λ q. ground (arith, rw (← q) at on, new))).0) k.chain),
    );
    distinct = (new, k.distinct);
    count =
        (let e : (t.inode h).son_nums ≡ (s.inode h).son_nums + 1 = ap (λ n. n.son_nums) a.father in
          omega (arith, e, k.count));
  }

  -- The directory has the new child, on its list and in its table.
  added-IsDir :
      (cs : List ℕ)
      → contains now cs ≡ false
      → (s.inode h).d_hash ≡ some m
      → view m filename ≡ none
      → IsDir s h cs
      → IsDir t h (now ∷ cs)
  added-IsDir cs new e free d =
      let at : d.table ≡ m = ground (arith, e, d.d_hash) in
      let p = put-Put m filename now (rw (← at) d.good) in
      record {
        stale = d.stale;
        table = put m filename now;
        flag = ap (λ n. n.is_directories) a.father ∙ d.flag;
        family = added-IsFamily d.stale cs new d.family;
        d_hash = ap (λ n. n.d_hash) a.father;
        good = p.good;
        named = λ c on. elim (Bool-cases (now == c)) [
          | inl q ↦
              let q' : now ≡ c = (==_iff now c).0 q in
              subst (λ x. view (put m filename now) (t.inode x).filename ≡ some x) q'
                (rw (a.named) (p.reads filename ∙ (rw (default_equal_refl filename) refl)))
          | inr q ↦
              let old : contains c cs ≡ true = ground (arith, on, q) in
              let there : view m (s.inode c).filename ≡ some c =
                subst (λ k. view k (s.inode c).filename ≡ some c) at (d.named c old) in
              rw ((old_child c (ground (arith, q))).1)
                (p.reads (s.inode c).filename ∙ (rw (not_taken (s.inode c).filename c there) there))
        ];
        listed = λ q c k. elim (Bool-cases (default_equal filename q)) [
          | inl same ↦
              let found : now ≡ c = ground (arith, sym (p.reads q) ∙ k, same) in
              (
                ground (arith, found, ==_refl c),
                subst (λ x. (t.inode x).filename ≡ q) found
                    (a.named ∙ default_equal_sound filename q same),
              )
          | inr other ↦
              let old : view m q ≡ some c = ground (arith, sym (p.reads q) ∙ k, other) in
              let (on, name) = d.listed q c (subst (λ x. view x q ≡ some c) (sym at) old) in
              let ne : now ≢ c = λ r. ground (arith, rw (← r) at on, new) in
              (ground (arith, on), (old_child c ne).1 ∙ name)
        ];
      }
    where
      not_taken : (q : Name) (c : ℕ) → view m q ≡ some c → default_equal filename q ≡ false
      not_taken q c k = elim (Bool-cases (default_equal filename q)) [
        | inr off ↦ off
        | inl same ↦
            absurd
              (let p = default_equal_sound filename q same in ground (arith, rw (← p) at k, free))
      ]

-- The tree with a new inode below a directory.
pub Added-IsTree :
    (s s1 t : Store) (h now : ℕ) (m : HashMap ℕ) (filename : Name) (b f f' : Forest)
    → IsTree s f
    → Edit h b (node now nil b) f f'
    → (s.inode h).is_directories ≡ true
    → (s.inode h).d_hash ≡ some m
    → view m filename ≡ none
    → Got s f now s1
    → Added s h now m filename t
    → IsConsistent t
    → t.free_inode_slab ≡ s1.free_inode_slab
    → t.next_inode ≡ s1.next_inode
    → IsTree t f'
Added-IsTree s s1 t h now m filename b f f' w e flag table free got a index slab next =
    let (n, hb) = Edit-Node s e w.holds in
    let (db, off) = Edit-Apart e w.distinct in
    let out : contains now (all b) ≡ false = not_in (all b) (λ q. Edit-inside now e q) in
    let old : (g : ℕ) → contains g (all f) ≡ true → now ≢ g =
      λ g on q. ground (arith, rw (← q) at on, got.fresh) in
    let kept : (g : ℕ) → contains g (all b) ≡ true → t.inode g ≡ s.inode g =
      λ g on. a.others g (λ q. ground (arith, rw (← q) at on, off)) (old g (Edit-inside g e on)) in
    let put_in : (g : ℕ) → contains g (all f') ≡ true → (contains g (all f) ≡ true) ⊎ (now ≡ g) =
      λ g on. elim (Edit-new g e on) [
        | inl q ↦ inl q
        | inr q ↦ elim (Bool-cases (now == g)) [
          | inl k ↦ inr ((==_iff now g).0 k)
          | inr k ↦ inl (Edit-inside g e (ground (arith, q, k)))
        ]
      ] in
    let spare : (g : ℕ)
        → contains g t.free_inode_slab ≡ true
        → (contains g s.free_inode_slab ≡ true) × (t.inode g ≡ s.inode g) × (now ≢ g) =
      λ g on.
        let on1 : contains g s1.free_inode_slab ≡ true = rw slab at on in
        let on' = got.slab_part g on1 in
        let ne : now ≢ g = λ q. ground (arith, rw (← q) at on1, got.off_slab) in
        (
          on',
          a.others g (λ q. ground (arith, rw (← q) at on', w.slab_apart h, Edit-contains e)) ne,
          ne,
        ) in
    record {
      index = index;
      holds =
          Edit-Holds s t e
            (λ g on _. (
              λ ne. SameNode-same s t g (a.others g ne (old g on)),
              (old_child s t h now m filename a g (old g on)).0,
              (old_child s t h now m filename a g (old g on)).1,
            ))
            (added-Node n)
            (
              a.child,
              tt,
              Holds-frame s t b (λ g on. SameNode-same s t g (kept g on))
                  (λ g on _. ap (λ n. n.bro) (kept g on)) db hb,
            )
            w.distinct w.holds;
      distinct = Edit-IsDistinct e w.distinct (
        (out, db),
        λ g on. elim (Bool-cases (now == g)) [
          | inl k ↦ inr (rw (← ((==_iff now g).0 k)) got.fresh)
          | inr k ↦ inl (ground (arith, on, k))
        ],
      );
      at_root = Edit-roots e ∙ w.at_root;
      root_flag = elim (Bool-cases (h == root)) [
        | inl q ↦
            let p : h ≡ root = (==_iff h root).0 q in
            rw (← p) (ap (λ n. n.is_directories) a.father ∙ flag)
        | inr q ↦
            ap (λ n. n.is_directories) (a.others root (ground (arith, q)) (old root on_root))
            ∙ w.root_flag
      ];
      in_range = λ g on. elim (put_in g on) [
        | inl q ↦ (let lt = w.in_range g q in omega (arith, lt, next, got.next))
        | inr q ↦ omega (arith, q, next, got.in_range)
      ];
      slab_distinct = rw slab got.slab_distinct;
      slab_range =
          λ g on. let lt = w.slab_range g (spare g on).0 in omega (arith, lt, next, got.next);
      slab_apart = λ g on. elim (Bool-cases (contains g (all f'))) [
        | inr q ↦ q
        | inl q ↦ absurd (elim (put_in g q) [
          | inl k ↦ ground (arith, k, w.slab_apart g (spare g on).0)
          | inr k ↦ (spare g on).2 k
        ])
      ];
      all_free = λ g lt off_new.
          let into : contains g (all (node now nil b)) ≡ true → contains g (all f') ≡ true =
            Edit-inside g (Edit-back e) in
          let ne : now ≢ g = λ q. clash (into (ground (arith, (==_iff now g).1 q))) off_new in
          let gone : contains g (all f) ≡ false = off_of_not_on g (all f) (λ q.
            elim (Edit-new g (Edit-back e) q) [
              | inl k ↦ clash k off_new
              | inr k ↦ clash (into (ground (arith, k))) off_new
            ]) in
          let (lt', keep) = got.slab_rest g ne (omega (arith, lt, next)) in
          rw slab (keep (w.all_free g lt' gone));
      slab_flag = λ g on. let k = spare g on in ap (λ n. n.is_directories) k.1 ∙ w.slab_flag g k.0;
      slab_son = λ g on. let k = spare g on in ap (λ n. n.son) k.1 ∙ w.slab_son g k.0;
      slab_d_hash = λ g on. let k = spare g on in ap (λ n. n.d_hash) k.1 ∙ w.slab_d_hash g k.0;
    }
  where
    not_in :
        (l : List ℕ)
        → (contains now l ≡ true → contains now (all f) ≡ true)
        → contains now l ≡ false
    not_in l sub = elim (Bool-cases (contains now l)) [
      | inl on ↦ absurd (ground (arith, sub on, got.fresh))
      | inr off ↦ off
    ]

    on_root : contains root (all f) ≡ true
    on_root = roots-all root f (rw (w.at_root) (ground arith))

    added-Node : Node s h (roots b) → Node t h (now ∷ roots b)
    added-Node (inl d) = inl (
        added-IsDir s t h now m filename a (roots b)
          (not_in (roots b) (λ q. Edit-inside now e (roots-all now b q))) table free d)
    added-Node (inr k) = absurd (ground (arith, flag, k.flag))
