-- ===== src/Index/Start.antt =====
-- The first state of `dhmp_init` and the invariant of the file index.
use fuse_node.Prelude.{
  ℕ, zero, suc, ◌<◌, ◌≡◌, refl, ap, true, false, none, List, [], ◌∷◌, ◌++◌, ◌==◌, arith, Bool-cases,
  inl, inr,
}
use fuse_node.Config.{slab_nums, chunk_num}
use fuse_node.Inode.{Store}
use fuse_node.Inode.Slot.{Slot}
use fuse_node.Inode.Slab.{
  with_root, new_inode, root_inode, malloc_inode, init_slab_loop, init_inode_slab, init_context,
  init_store,
}
use fuse_node.Index.Claim.{IsConsistent, contains}

-- No inode holds anything.
pub record IsEmpty (s : Store) : Type 0 where
  cursor : s.chunks.cursor < chunk_num
  pub no_place : (h : ℕ) (p : Slot) → (s.inode h).addr p ≡ none
  no_context : (h : ℕ) → (s.inode h).contexts ≡ []

malloc_inode-IsEmpty :
    (time : ℕ) (s : Store) (l : List ℕ)
    → IsEmpty s
    → IsEmpty (record (malloc_inode time s).1 { free_inode_slab = l })
unfolding malloc_inode new_inode
malloc_inode-IsEmpty time s l e = record {
  cursor = e.cursor;
  no_place = λ h p. elim (Bool-cases (s.next_inode == h)) [
    | inl t ↦ rw t refl
    | inr t ↦ rw t (e.no_place h p)
  ];
  no_context = λ h. elim (Bool-cases (s.next_inode == h)) [
    | inl t ↦ rw t refl
    | inr t ↦ rw t (e.no_context h)
  ];
}

init_slab_loop-IsEmpty : (n time : ℕ) (s : Store) → IsEmpty s → IsEmpty (init_slab_loop n time s)
unfolding init_slab_loop
init_slab_loop-IsEmpty zero time s e = e
init_slab_loop-IsEmpty (suc n) time s e =
    let r = malloc_inode time s in
    init_slab_loop-IsEmpty n time (record r.1 { free_inode_slab = r.1.free_inode_slab ++ r.0 ∷ [] })
      (malloc_inode-IsEmpty time s (r.1.free_inode_slab ++ r.0 ∷ []) e)

IsEmpty-IsConsistent : (s : Store) → IsEmpty s → IsConsistent s
IsEmpty-IsConsistent s e = record {
  cursor = e.cursor;
  owned = λ h p c at. ground (arith, e.no_place h p, at);
  listed = λ h p c at. ground (arith, e.no_place h p, at);
  placed = λ h c at.
      let nothing : contains c [] ≡ true = rw (e.no_context h) at at in ground (arith, nothing);
  distinct = λ h. rw (e.no_context h) tt;
  absent = λ h p off. e.no_place h p;
}

init_inode_slab-IsEmpty : (time : ℕ) (s : Store) → IsEmpty s → IsEmpty (init_inode_slab time s)
unfolding init_inode_slab
init_inode_slab-IsEmpty time s e =
    init_slab_loop-IsEmpty slab_nums time (record s { free_inode_slab = [] })
      record { cursor = e.cursor; no_place = e.no_place; no_context = e.no_context }

init_context-IsEmpty : (s : Store) → IsEmpty s → IsEmpty (init_context s)
unfolding init_context
init_context-IsEmpty s e = record {
  cursor = e.cursor;
  no_place = e.no_place;
  no_context = e.no_context;
}

with_root-IsEmpty : (time : ℕ) → IsEmpty (with_root time)
unfolding with_root root_inode new_inode
with_root-IsEmpty time = record {
  cursor = omega arith;
  no_place = λ h p. refl;
  no_context = λ h. refl;
}

pub init_store-IsEmpty : (time : ℕ) → IsEmpty (init_store time)
unfolding init_store
init_store-IsEmpty time =
    init_inode_slab-IsEmpty time (init_context (with_root time))
      (init_context-IsEmpty (with_root time) (with_root-IsEmpty time))

-- The store that `dhmp_init` sets up satisfies the invariant of the file index.
pub init_store-IsConsistent : (time : ℕ) → IsConsistent (init_store time)
init_store-IsConsistent time = IsEmpty-IsConsistent (init_store time) (init_store-IsEmpty time)

init_slab_loop-context_size :
    (n time : ℕ) (s : Store) → (init_slab_loop n time s).context_size ≡ s.context_size
unfolding init_slab_loop malloc_inode
init_slab_loop-context_size zero time s = refl
init_slab_loop-context_size (suc n) time s =
    let r = malloc_inode time s in
    init_slab_loop-context_size n time
      (record r.1 { free_inode_slab = r.1.free_inode_slab ++ r.0 ∷ [] })

-- No context holds a byte at the start.
pub init_store-context_size : (time c : ℕ) → (init_store time).context_size c ≡ 0
unfolding init_store init_inode_slab init_context
init_store-context_size time c =
    ap (λ f. f c)
      (init_slab_loop-context_size slab_nums time
        (record (init_context (with_root time)) { free_inode_slab = [] }))

init_slab_loop-chunks : (n time : ℕ) (s : Store) → (init_slab_loop n time s).chunks ≡ s.chunks
unfolding init_slab_loop malloc_inode
init_slab_loop-chunks zero time s = refl
init_slab_loop-chunks (suc n) time s =
    let r = malloc_inode time s in
    init_slab_loop-chunks n time (record r.1 { free_inode_slab = r.1.free_inode_slab ++ r.0 ∷ [] })

-- All chunks are free at the start, and the first one is next.
pub init_store-chunks :
    (time : ℕ) → (init_store time).chunks ≡ (record { bitmap = λ i. false; cursor = 0 })
unfolding init_store init_inode_slab init_context with_root
init_store-chunks time =
    init_slab_loop-chunks slab_nums time
      (record (init_context (with_root time)) { free_inode_slab = [] })
