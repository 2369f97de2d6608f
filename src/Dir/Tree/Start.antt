-- ===== src/Dir/Tree/Start.antt =====
-- The tree of files that `dhmp_init` of src/dhmp_fs.c starts with.
use fuse_node.Prelude.{
  ℕ, zero, suc, ◌<◌, ◌≡◌, inl, inr, refl, sym, ap, ◌∙◌, true, false, ◌||◌, none, some, [], ◌∷◌,
  ◌++◌, arith, Bool-cases, ◌==◌, ◌≢◌, ◌+◌,
}
use fuse_node.Config.{slab_nums}
use fuse_node.HashMap.{create_hash_map}
use fuse_node.HashMap.Hash.{Name}
use fuse_node.HashMap.Methods.{create_hash_map-IsHashMap, default_get-view}
use fuse_node.Inode.{Store}
use fuse_node.Inode.Slab.{
  new_inode, malloc_inode, init_slab_loop, init_inode_slab, init_context, root_inode, with_root,
  init_store,
}
use fuse_node.Index.Claim.{contains, IsDistinct}
use fuse_node.Index.Start.{init_store-IsConsistent}
use fuse_node.Outcome.{ok}
use fuse_node.Dir.Walk.{root, lookup_in}
use fuse_node.Dir.Tree.{nil, node, Node, contains-append}
use fuse_node.Dir.Tree.Edit.{IsDistinct-join}
use fuse_node.Dir.Tree.System.{IsTree}

-- The slab of a store whose only other inode is the root.
record IsStocked (time : ℕ) (s : Store) : Type 0 where
  at_root : s.inode root ≡ root_inode time
  some_inode : 0 < s.next_inode
  distinct : IsDistinct s.free_inode_slab
  in_range : (g : ℕ) → contains g s.free_inode_slab ≡ true → (0 < g) × (g < s.next_inode)
  all_free : (g : ℕ) → 0 < g → g < s.next_inode → contains g s.free_inode_slab ≡ true
  flag : (g : ℕ) → contains g s.free_inode_slab ≡ true → (s.inode g).is_directories ≡ false
  son : (g : ℕ) → contains g s.free_inode_slab ≡ true → (s.inode g).son ≡ none
  d_hash : (g : ℕ) → contains g s.free_inode_slab ≡ true → (s.inode g).d_hash ≡ none

-- One more inode.
abbrev stock : ℕ → Store → Store
stock time s =
    let r = malloc_inode time s in record r.1 { free_inode_slab = r.1.free_inode_slab ++ r.0 ∷ [] }

stock-IsStocked : (time : ℕ) (s : Store) → IsStocked time s → IsStocked time (stock time s)
unfolding malloc_inode new_inode
stock-IsStocked time s k = record {
  at_root = ground (arith, k.some_inode, k.at_root);
  some_inode = omega arith;
  distinct =
      IsDistinct-join s.free_inode_slab (s.next_inode ∷ []) k.distinct (refl, tt)
        (λ g on. let (a, lt) = k.in_range g on in ground (arith, lt));
  in_range = λ g on.
      let e = split g on in
      elim (Bool-cases (contains g s.free_inode_slab)) [
        | inl q ↦ (let (a, lt) = k.in_range g q in (a, omega (arith, lt)))
        | inr q ↦
            (let p : s.next_inode ≡ g = ground (arith, e, q) in
              (omega (arith, k.some_inode, p), omega (arith, p)))
      ];
  all_free = λ g some lt.
      rw (contains-append g s.free_inode_slab (s.next_inode ∷ []))
        (elim (Bool-cases (s.next_inode == g)) [
          | inl q ↦ ground (arith, q)
          | inr q ↦
              (let ne : s.next_inode ≢ g = ground (arith, q) in
                let on = k.all_free g some (omega (arith, lt, ne)) in ground (arith, on))
        ]);
  flag = λ g on. let e = split g on in ground (arith, e, k.flag g);
  son = λ g on. let e = split g on in ground (arith, e, k.son g);
  d_hash = λ g on. let e = split g on in ground (arith, e, k.d_hash g);
}
  where
    split :
        (g : ℕ)
        → contains g (s.free_inode_slab ++ s.next_inode ∷ []) ≡ true
        → (contains g s.free_inode_slab || contains g (s.next_inode ∷ [])) ≡ true
    split g on = sym (contains-append g s.free_inode_slab (s.next_inode ∷ [])) ∙ on

init_slab_loop-IsStocked :
    (n time : ℕ) (s : Store) → IsStocked time s → IsStocked time (init_slab_loop n time s)
unfolding init_slab_loop
init_slab_loop-IsStocked zero time s k = k
init_slab_loop-IsStocked (suc n) time s k =
    init_slab_loop-IsStocked n time (stock time s) (stock-IsStocked time s k)

init_store-IsStocked : (time : ℕ) → IsStocked time (init_store time)
unfolding init_store init_inode_slab init_context with_root
init_store-IsStocked time =
    init_slab_loop-IsStocked slab_nums time
      (record (init_context (with_root time)) { free_inode_slab = [] })
      record {
        at_root = refl;
        some_inode = omega arith;
        distinct = tt;
        in_range = λ g on. absurd (ground (arith, on));
        all_free = λ g some lt. absurd (omega (arith, some, lt));
        flag = λ g on. ground (arith, on);
        son = λ g on. ground (arith, on);
        d_hash = λ g on. ground (arith, on);
      }

-- The root is an empty directory.
root-Node : (time : ℕ) (s : Store) → IsStocked time s → Node s root []
unfolding root_inode new_inode
root-Node time s k = inl record {
  stale = 0;
  table = create_hash_map none;
  flag = ap (λ n. n.is_directories) k.at_root;
  family = record {
    chain = ap (λ n. n.son) k.at_root;
    distinct = tt;
    count = ap (λ n. n.son_nums) k.at_root;
  };
  d_hash = ap (λ n. n.d_hash) k.at_root;
  good = create_hash_map-IsHashMap.0;
  named = λ c on. ground (arith, on);
  listed = λ q c e. absurd (ground (arith, e, (create_hash_map-IsHashMap {V = ℕ}).1 q));
}

-- The tree that `dhmp_init` sets up is the root alone, and all other inodes are free.
pub init_store-IsTree : (time : ℕ) → IsTree (init_store time) (node root nil nil)
unfolding root_inode new_inode
init_store-IsTree time =
    let k = init_store-IsStocked time in
    record {
      index = init_store-IsConsistent time;
      holds = (root-Node time (init_store time) k, tt, tt);
      distinct = (refl, tt);
      at_root = refl;
      root_flag = ap (λ n. n.is_directories) k.at_root;
      in_range = λ g on. (let lt = k.some_inode in ground (arith, on, lt));
      slab_distinct = k.distinct;
      slab_range = λ g on. (k.in_range g on).1;
      slab_apart = λ g on. (let lt = (k.in_range g on).0 in ground (arith, lt));
      all_free = λ g lt off. k.all_free g (ground (arith, off)) lt;
      slab_flag = k.flag;
      slab_son = k.son;
      slab_d_hash = k.d_hash;
    }

-- The root has no entry at the start.
pub init_store-lookup_in : (time : ℕ) (q : Name) → lookup_in (init_store time) q root ≡ ok none
unfolding lookup_in root_inode
init_store-lookup_in time q =
    let e : ((init_store time).inode root).d_hash ≡ some (create_hash_map none) =
      ap (λ n. n.d_hash) (init_store-IsStocked time).at_root in
    rw
      (
        e,
        default_get-view (create_hash_map {V = ℕ} none) q,
        (create_hash_map-IsHashMap {V = ℕ}).1 q,
      )
      refl

init_slab_loop-next :
    (n time : ℕ) (s : Store) → (init_slab_loop n time s).next_inode ≡ s.next_inode + n
unfolding init_slab_loop malloc_inode
init_slab_loop-next zero time s = omega arith
init_slab_loop-next (suc n) time s = init_slab_loop-next n time (stock time s) ∙ (omega arith)

-- An inode of the slab is a file at the start.
pub init_store-file :
    (time h : ℕ) → 0 < h → h < 1 + slab_nums → ((init_store time).inode h).is_directories ≡ false
unfolding init_store init_inode_slab init_context with_root
init_store-file time h pos_h lt =
    let k = init_store-IsStocked time in
    let next =
      init_slab_loop-next slab_nums time
        (record (init_context (with_root time)) { free_inode_slab = [] }) in
    k.flag h (k.all_free h pos_h (omega (arith, lt, next)))
