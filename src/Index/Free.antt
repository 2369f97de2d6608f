-- ===== src/Index/Free.antt =====
-- What `reset_indoe` of src/dhmp_fs_index.c frees.
use fuse_node.Prelude.{
  ℕ, ◌≡◌, ◌≢◌, refl, ap, ◌∙◌, true, false, none, some, List, [], ◌∷◌, ◌++◌, ◌==◌, if◌then◌else◌,
  arith, Bool-cases, Option-cases, ==_iff, ==_refl, inl, inr,
}
use mathlib.Core.Path.{subst}
use fuse_node.Outcome.{ok, ◌>>=◌}
use fuse_node.Inode.{Store, set_inode}
use fuse_node.Inode.Slot.{Slot, slot_eq_refl}
use fuse_node.Inode.Slab.{free_context, free_contexts, reset_fields, no_table, reset_indoe}
use fuse_node.Index.Claim.{IsConsistent, IsDistinct, contains}

-- The contexts on a list point at places of one inode.
abbrev Owned : Store → ℕ → List ℕ → Type 0
Owned s h cs = (c : ℕ) → contains c cs ≡ true → (p : Slot) × (s.which c ≡ some (h, p))

-- What the loop over the contexts of inode `h` does.
record FreedList (s : Store) (h : ℕ) (cs : List ℕ) (t : Store) : Type 0 where
  cursor : t.chunks.cursor ≡ s.chunks.cursor
  bitmap : (c : ℕ) → t.chunks.bitmap c ≡ (if contains c cs then false else s.chunks.bitmap c)
  which : (c : ℕ) → t.which c ≡ (if contains c cs then none else s.which c)
  others : (g : ℕ) → h ≢ g → t.inode g ≡ s.inode g
  slab : t.free_inode_slab ≡ s.free_inode_slab
  contexts : (t.inode h).contexts ≡ (s.inode h).contexts
  next : t.next_inode ≡ s.next_inode
  flag : (t.inode h).is_directories ≡ (s.inode h).is_directories
  son : (t.inode h).son ≡ (s.inode h).son
  d_hash : (t.inode h).d_hash ≡ (s.inode h).d_hash
  size : (t.inode h).size ≡ (s.inode h).size
  space : (t.inode h).space ≡ (s.inode h).space
  sizes : (c : ℕ) → t.context_size c ≡ (if contains c cs then 0 else s.context_size c)
  stays : (p : Slot) → (s.inode h).addr p ≡ none → (t.inode h).addr p ≡ none
  emptied :
      (c : ℕ) (p : Slot)
      → contains c cs ≡ true
      → s.which c ≡ some (h, p)
      → (t.inode h).addr p ≡ none

free_contexts-FreedList :
    (s : Store) (h : ℕ) (cs : List ℕ)
    → IsDistinct cs
    → Owned s h cs
    → (t : Store) × (free_contexts cs s ≡ ok t) × FreedList s h cs t
unfolding free_contexts free_context
free_contexts-FreedList s h [] apart owned = (
  s,
  refl,
  record {
    cursor = refl;
    bitmap = λ c. refl;
    which = λ c. refl;
    others = λ g ne. refl;
    slab = refl;
    contexts = refl;
    next = refl;
    flag = refl;
    son = refl;
    d_hash = refl;
    size = refl;
    space = refl;
    sizes = λ c. refl;
    stays = λ p e. e;
    emptied = λ c p at e. ground (arith, at);
  },
)
free_contexts-FreedList s h (c ∷ cs) apart owned =
    let (p, e) = owned c (ground (arith, ==_refl c)) in
    let s1 = free_context c h p s in
    let (t, run, f) =
      free_contexts-FreedList s1 h cs apart.1 (λ d at.
        let (q, g) = owned d (ground (arith, at)) in (q, ground (arith, at, apart.0, g))) in
    (
      t,
      rw (e, free_contexts) run,
      record {
        cursor = f.cursor;
        bitmap = λ d. f.bitmap d ∙ (ground arith);
        which = λ d. f.which d ∙ (ground arith);
        others = λ g ne. f.others g ne ∙ (ground (arith, ne));
        slab = f.slab;
        contexts = f.contexts ∙ (ground (arith, ==_refl h));
        next = f.next;
        flag = f.flag ∙ (ground (arith, ==_refl h));
        son = f.son ∙ (ground (arith, ==_refl h));
        d_hash = f.d_hash ∙ (ground (arith, ==_refl h));
        size = f.size ∙ (ground (arith, ==_refl h));
        space = f.space ∙ (ground (arith, ==_refl h));
        sizes = λ d. f.sizes d ∙ (ground arith);
        stays = λ q none_before. f.stays q (ground (arith, none_before));
        emptied = λ d q at g. elim (Bool-cases (c == d)) [
          | inl same ↦
              let pq : p ≡ q = ground (arith, e, g, same) in
              f.stays q (ground (arith, pq, slot_eq_refl p))
          | inr other ↦ f.emptied d q (ground (arith, at, other)) (ground (arith, other, g))
        ];
      },
    )

-- The store that the loop of `reset_indoe` starts from, and what it ends with.
abbrev unlinked : ℕ → ℕ → Store → Store
unlinked time h s = set_inode s h (reset_fields time (s.inode h))

abbrev returned : ℕ → Store → Store
returned h t = record (set_inode t h (record (t.inode h) { filename = [] })) {
  free_inode_slab = t.free_inode_slab ++ h ∷ [];
}

-- What `reset_indoe` leaves of the store: the inode holds nothing and has no name and size 0, its
-- chunks are free, of size 0 and of no place, no other chunks change, and the other inodes are as before.
pub record Freed (s : Store) (h : ℕ) (t : Store) : Type 0 where
  pub consistent : IsConsistent t
  pub empty : (p : Slot) → (t.inode h).addr p ≡ none
  pub bitmap :
      (c : ℕ)
      → t.chunks.bitmap c ≡ (if contains c (s.inode h).contexts then false else s.chunks.bitmap c)
  pub others : (g : ℕ) → h ≢ g → t.inode g ≡ s.inode g
  pub slab : t.free_inode_slab ≡ s.free_inode_slab ++ h ∷ []
  pub next : t.next_inode ≡ s.next_inode
  pub filename : (t.inode h).filename ≡ []
  pub size : (t.inode h).size ≡ 0
  pub space : (t.inode h).space ≡ 0
  pub contexts : (t.inode h).contexts ≡ []
  pub sizes :
      (c : ℕ) → t.context_size c ≡ (if contains c (s.inode h).contexts then 0 else s.context_size c)
  pub which : (c : ℕ) → t.which c ≡ (if contains c (s.inode h).contexts then none else s.which c)
  pub flag : (t.inode h).is_directories ≡ false
  pub son : (t.inode h).son ≡ none
  pub d_hash :
      (t.inode h).d_hash ≡ (if (s.inode h).is_directories then none else (s.inode h).d_hash)

module _ (time h : ℕ) (s t : Store) (ok_s : IsConsistent s)
    (f : FreedList (unlinked time h s) h (s.inode h).contexts t) where
  emptied_places : (p : Slot) → (t.inode h).addr p ≡ none
  unfolding reset_fields
  emptied_places p = elim (Option-cases ((s.inode h).addr p)) [
    | inl e ↦ f.stays p (rw (==_refl h) e)
    | inr (c, e) ↦ f.emptied c p (ok_s.listed h p c e) (ok_s.owned h p c e).2
  ]

  kept : (g : ℕ) → h ≢ g → (returned h t).inode g ≡ s.inode g
  kept g ne =
      let e : (h == g) ≡ false = ground (arith, ne) in
      let u : (unlinked time h s).inode g ≡ s.inode g = rw e refl in rw e (f.others g ne ∙ u)

  empty_places : (p : Slot) → ((returned h t).inode h).addr p ≡ none
  empty_places p = rw (==_refl h) (emptied_places p)

  empty_list : ((returned h t).inode h).contexts ≡ []
  unfolding reset_fields
  empty_list =
      let u : ((unlinked time h s).inode h).contexts ≡ [] = rw (==_refl h) refl in
      rw (==_refl h) (f.contexts ∙ u)

  blank_size : ((returned h t).inode h).size ≡ 0
  unfolding reset_fields
  blank_size =
      let u : ((unlinked time h s).inode h).size ≡ 0 = rw (==_refl h) refl in
      rw (==_refl h) (f.size ∙ u)

  blank_space : ((returned h t).inode h).space ≡ 0
  unfolding reset_fields
  blank_space =
      let u : ((unlinked time h s).inode h).space ≡ 0 = rw (==_refl h) refl in
      rw (==_refl h) (f.space ∙ u)

  blank_flag : ((returned h t).inode h).is_directories ≡ false
  unfolding reset_fields
  blank_flag =
      let u : ((unlinked time h s).inode h).is_directories ≡ false = rw (==_refl h) refl in
      rw (==_refl h) (f.flag ∙ u)

  blank_son : ((returned h t).inode h).son ≡ none
  unfolding reset_fields
  blank_son =
      let u : ((unlinked time h s).inode h).son ≡ none = rw (==_refl h) refl in
      rw (==_refl h) (f.son ∙ u)

  blank_d_hash :
      ((returned h t).inode h).d_hash
      ≡ (if (s.inode h).is_directories then none else (s.inode h).d_hash)
  unfolding reset_fields
  blank_d_hash =
      let u : ((unlinked time h s).inode h).d_hash
          ≡ (if (s.inode h).is_directories then none else (s.inode h).d_hash) =
        rw (==_refl h) refl in
      rw (==_refl h) (f.d_hash ∙ u)

  -- The inode holds nothing, by whichever name it is met.
  same_places : (g : ℕ) (q : Slot) → (h == g) ≡ true → ((returned h t).inode g).addr q ≡ none
  same_places g q same =
      subst (λ x. ((returned h t).inode x).addr q ≡ none) ((==_iff h g).0 same) (empty_places q)

  same_list : (g : ℕ) → (h == g) ≡ true → ((returned h t).inode g).contexts ≡ []
  same_list g same =
      subst (λ x. ((returned h t).inode x).contexts ≡ []) ((==_iff h g).0 same) empty_list

  -- A context of another inode is not freed.
  not_freed :
      (g : ℕ) (q : Slot) (c : ℕ)
      → h ≢ g
      → (s.inode g).addr q ≡ some c
      → contains c (s.inode h).contexts ≡ false
  not_freed g q c ne e = elim (Bool-cases (contains c (s.inode h).contexts)) [
    | inr off ↦ off
    | inl on ↦
        let (p, at) = ok_s.placed h c on in
        let mine = (ok_s.owned h p c at).2 in
        let theirs = (ok_s.owned g q c e).2 in ground (arith, ne, mine, theirs)
  ]

  returned-IsConsistent : IsConsistent (returned h t)
  returned-IsConsistent = record {
    cursor = rw f.cursor ok_s.cursor;
    owned = λ g q c e. elim (Bool-cases (h == g)) [
      | inl same ↦ absurd (let z = same_places g q same in ground (arith, z, e))
      | inr other ↦
          let ne : h ≢ g = ground (arith, other) in
          let e' : (s.inode g).addr q ≡ some c = rw (kept g ne) at e in
          let (lt, used, back) = ok_s.owned g q c e' in
          let off = not_freed g q c ne e' in
          (lt, f.bitmap c ∙ (rw off used), f.which c ∙ (rw off back))
    ];
    listed = λ g q c e. elim (Bool-cases (h == g)) [
      | inl same ↦ absurd (let z = same_places g q same in ground (arith, z, e))
      | inr other ↦
          let ne : h ≢ g = ground (arith, other) in
          rw (kept g ne) (ok_s.listed g q c (rw (kept g ne) at e))
    ];
    placed = λ g c e. elim (Bool-cases (h == g)) [
      | inl same ↦ absurd (
          let nothing : contains c [] ≡ true = rw (same_list g same) at e in
          ground (arith, nothing))
      | inr other ↦
          let ne : h ≢ g = ground (arith, other) in
          let (q, at) = ok_s.placed g c (rw (kept g ne) at e) in (q, rw (kept g ne) at)
    ];
    distinct = λ g. elim (Bool-cases (h == g)) [
      | inl same ↦ rw (same_list g same) tt
      | inr other ↦ let ne : h ≢ g = ground (arith, other) in rw (kept g ne) (ok_s.distinct g)
    ];
    absent = λ g q e. elim (Bool-cases (h == g)) [
      | inl same ↦ same_places g q same
      | inr other ↦
          let ne : h ≢ g = ground (arith, other) in
          rw (kept g ne) (ok_s.absent g q (rw (kept g ne) at e))
    ];
  }

unlinked-Owned :
    (time h : ℕ) (s : Store) → IsConsistent s → Owned (unlinked time h s) h (s.inode h).contexts
unlinked-Owned time h s good c on = let (p, at) = good.placed h c on in (p, (good.owned h p c at).2)

-- Resetting an inode, a directory only with its table, runs to its end: it keeps the invariant, the
-- inode is a file then without a name, children and chunks, of size 0, and without a table if a file
-- has none, exactly the chunks that it held are free, of size 0 and of no place, every other inode
-- is as before, and the inode is at the end of the slab.
pub reset_indoe-Freed :
    (time h : ℕ) (s : Store)
    → IsConsistent s
    → no_table (s.inode h) ≡ false
    → (t : Store) × (reset_indoe time h s ≡ ok t) × Freed s h t
unfolding reset_indoe
reset_indoe-Freed time h s good table =
    let (t, run, f) =
      free_contexts-FreedList (unlinked time h s) h (s.inode h).contexts (good.distinct h)
        (unlinked-Owned time h s good) in
    (
      returned h t,
      rw (table, run, ◌>>=◌) refl,
      record {
        consistent = returned-IsConsistent time h s t good f;
        empty = empty_places time h s t good f;
        bitmap = f.bitmap;
        others = kept time h s t good f;
        slab = ap (λ l. l ++ h ∷ []) f.slab;
        next = f.next;
        filename = rw (==_refl h) refl;
        size = blank_size time h s t good f;
        space = blank_space time h s t good f;
        contexts = empty_list time h s t good f;
        sizes = f.sizes;
        which = f.which;
        flag = blank_flag time h s t good f;
        son = blank_son time h s t good f;
        d_hash = blank_d_hash time h s t good f;
      },
    )
