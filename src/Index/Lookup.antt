-- ===== src/Index/Lookup.antt =====
-- What `level3_local_index` does at a place, for a read and for a write.
use fuse_node.Prelude.{
  ℕ, ◌<◌, ◌≡◌, ◌⊎◌, inl, inr, refl, sym, ◌∙◌, true, false, ◌&&◌, Option, none, some, ◌==◌,
  if◌then◌else◌, arith, Bool-cases, Option-cases, ==_iff, ==_refl,
}
use fuse_node.Config.{chunk_num}
use fuse_node.Chunk.{get_free_chunk, Chunks}
use fuse_node.Chunk.Scan.{Allocated, full, got, get_free_chunk-Allocated}
use fuse_node.Inode.{Inode, Store, set_inode}
use fuse_node.Inode.Slot.{Slot, direct, first, second, third, slot_eq}
use fuse_node.Index.{present, allocate, attach, claim, claim_indirect}
use fuse_node.Inode.Names.{SameNames, SameNames-refl, SameNames-trans, set_inode-SameNames}
use fuse_node.Index.Allocated.{
  allocate-addr, allocate-contexts, allocate-present, present-allocate, allocate-SameFields,
}
use fuse_node.Index.Claim.{
  IsConsistent, attached, attached-addr, attached-IsConsistent, attached_new,
}
use fuse_node.Index.Locate.{claim_at}

set_inode-addr :
    (s : Store) (h : ℕ) (n : Inode)
    → ((q : Slot) → n.addr q ≡ (s.inode h).addr q)
    → (h' : ℕ) (q : Slot) → ((set_inode s h n).inode h').addr q ≡ (s.inode h').addr q
set_inode-addr s h n same h' q = elim (Bool-cases (h == h')) [
  | inl e ↦ rw e (same q ∙ (rw ((==_iff h h').0 e) refl))
  | inr e ↦ rw e refl
]

-- A consistent state stays so when an inode is rewritten with the same places and contexts.
pub set_inode-IsConsistent :
    (s : Store) (h : ℕ) (n : Inode)
    → IsConsistent s
    → ((q : Slot) → n.addr q ≡ (s.inode h).addr q)
    → n.contexts ≡ (s.inode h).contexts
    → ((q : Slot) → present n q ≡ false → n.addr q ≡ none)
    → IsConsistent (set_inode s h n)
set_inode-IsConsistent s h n ok same list off = record {
  cursor = ok.cursor;
  owned = λ h' q d e. ok.owned h' q d (sym (addr h' q) ∙ e);
  listed = λ h' q d e. rw (contexts h') (ok.listed h' q d (sym (addr h' q) ∙ e));
  placed =
      λ h' d e. let (q, there) = ok.placed h' d (rw (contexts h') at e) in (q, addr h' q ∙ there);
  distinct = λ h'. rw (contexts h') (ok.distinct h');
  absent = λ h' q e. elim (Bool-cases (h == h')) [
    | inl t ↦ rw t (off q (rw t at e))
    | inr t ↦ rw t (ok.absent h' q (rw t at e))
  ];
}
  where
    addr : (h' : ℕ) (q : Slot) → ((set_inode s h n).inode h').addr q ≡ (s.inode h').addr q
    addr h' q = set_inode-addr s h n same h' q

    contexts : (h' : ℕ) → ((set_inode s h n).inode h').contexts ≡ (s.inode h').contexts
    contexts h' = elim (Bool-cases (h == h')) [
      | inl e ↦ rw e (list ∙ (rw ((==_iff h h').0 e) refl))
      | inr e ↦ rw e refl
    ]

claim_read : (s : Store) (h : ℕ) (p : Slot) → claim h p true s ≡ some ((s.inode h).addr p, s)
unfolding claim
claim_read s h p = elim (Option-cases ((s.inode h).addr p)) [
  | inl e ↦ rw (e, claim) refl
  | inr (c, e) ↦ rw (e, claim) refl
]

claim_indirect_read :
    (s : Store) (h : ℕ) (p : Slot)
    → IsConsistent s
    → claim_indirect h p true s ≡ some ((s.inode h).addr p, s)
unfolding claim_indirect
claim_indirect_read s h p ok = elim (Bool-cases (present (s.inode h) p)) [
  | inl e ↦ rw e (claim_read s h p)
  | inr e ↦ rw (e, ok.absent h p e) refl
]

-- A lookup for reading returns what stands at the place and changes nothing.
pub claim_at_read :
    (s : Store) (h : ℕ) (p : Slot)
    → IsConsistent s
    → claim_at h p true s ≡ some ((s.inode h).addr p, s)
claim_at_read s h (direct i) ok = claim_read s h (direct i)
claim_at_read s h (first i) ok = claim_indirect_read s h (first i) ok
claim_at_read s h (second i j) ok = claim_indirect_read s h (second i j) ok
claim_at_read s h (third i j k) ok = claim_indirect_read s h (third i j k) ok

-- What a lookup for writing does that gives place `p` of inode `h` the context `c`: the one it held,
-- or one that was free. All other places are as before, the sizes of all contexts, the directories with
-- the free inodes, and the bitmap but for `c`.
pub record Gives (s : Store) (h : ℕ) (p : Slot) (c : ℕ) (s' : Store) : Type 0 where
  pub consistent : IsConsistent s'
  pub at : (s'.inode h).addr p ≡ some c
  pub origin :
      ((s.inode h).addr p ≡ some c)
      ⊎ (((s.inode h).addr p ≡ none) × (c < chunk_num) × (s.chunks.bitmap c ≡ false))
  -- the chunks stay, or the context is the one that the allocator gives
  pub drawn : (s'.chunks ≡ s.chunks) ⊎ (get_free_chunk s.chunks ≡ (some c, s'.chunks))
  pub others :
      (h' : ℕ) (q : Slot)
      → ((h == h') && slot_eq p q) ≡ false
      → (s'.inode h').addr q ≡ (s.inode h').addr q
  pub sizes : s'.context_size ≡ s.context_size
  pub bitmap : (d : ℕ) → s'.chunks.bitmap d ≡ (if c == d then true else s.chunks.bitmap d)
  pub names : SameNames s s'

-- What a lookup for writing leaves behind.
pub data Claimed (s : Store) (h : ℕ) (p : Slot) : Option (Option ℕ × Store) → Type 0 where
  -- the disk is full and the place is NULL: the code writes through a NULL context
  faults :
      (s.inode h).addr p ≡ none
      → ((c : ℕ) → c < chunk_num → s.chunks.bitmap c ≡ true)
      → Claimed s h p none
  claimed : (c : ℕ) (s' : Store) → Gives s h p c s' → Claimed s h p (some (some c, s'))

attached-SameNames : (s : Store) (h c : ℕ) (p : Slot) → SameNames s (attached s h p c)
attached-SameNames s h c p = record {
  flag = λ g. ground arith;
  d_hash = λ g. ground arith;
  son = λ g. ground arith;
  son_nums = λ g. ground arith;
  bro = λ g. ground arith;
  filename = λ g. ground arith;
  slab = refl;
  next = refl;
}

attach-Claimed :
    (s : Store) (h : ℕ) (p : Slot)
    → IsConsistent s
    → (s.inode h).addr p ≡ none
    → present (s.inode h) p ≡ true
    → {r : Option ℕ × Chunks} → Allocated s.chunks r
    → get_free_chunk s.chunks ≡ r
    → Claimed s h p (attach h p r s)
unfolding attach
attach-Claimed s h p ok null there (full every) e = faults null every
attach-Claimed s h p ok null there (got c lt free) e = claimed c (attached s h p c) record {
  consistent = attached-IsConsistent s h c p ok null there lt free;
  at = attached_new s h c p;
  origin = inr (null, lt, free);
  drawn = inr e;
  others = λ h' q ne. rw (attached-addr s h c p h' q, ne) refl;
  sizes = refl;
  bitmap = λ d. refl;
  names = attached-SameNames s h c p;
}

-- A state with the same places, chunks, sizes and directories is as good a start.
Claimed-same :
    (s t : Store) (h : ℕ) (p : Slot)
    → ((h' : ℕ) (q : Slot) → (t.inode h').addr q ≡ (s.inode h').addr q)
    → t.chunks ≡ s.chunks
    → t.context_size ≡ s.context_size
    → SameNames s t
    → {r : Option (Option ℕ × Store)} → Claimed t h p r
    → Claimed s h p r
Claimed-same s t h p same cs size kind (faults null every) =
    faults (sym (same h p) ∙ null) (λ c lt. rw (← cs) (every c lt))
Claimed-same s t h p same cs size kind (claimed c s' g) = claimed c s' record {
  consistent = g.consistent;
  at = g.at;
  origin = elim g.origin [
    | inl e ↦ inl (sym (same h p) ∙ e)
    | inr (e, lt, f) ↦ inr (sym (same h p) ∙ e, lt, rw cs at f)
  ];
  drawn = elim g.drawn [ inl e ↦ inl (e ∙ cs) | inr e ↦ inr (rw cs at e) ];
  others = λ h' q ne. g.others h' q ne ∙ same h' q;
  sizes = g.sizes ∙ size;
  bitmap = λ d. rw cs at (g.bitmap d);
  names = SameNames-trans s t s' kind g.names;
}

claim-Claimed :
    (s : Store) (h : ℕ) (p : Slot)
    → IsConsistent s
    → present (s.inode h) p ≡ true
    → Claimed s h p (claim h p false s)
unfolding claim attach
claim-Claimed s h p ok there = elim (Option-cases ((s.inode h).addr p)) [
  | inr (c, e) ↦
      let used = (ok.owned h p c e).1 in
      rw (e, claim)
        (claimed c s record {
          consistent = ok;
          at = e;
          origin = inl e;
          drawn = inl refl;
          others = λ h' q _. refl;
          sizes = refl;
          bitmap = λ d. ground (arith, used);
          names = SameNames-refl s;
        })
  | inl null ↦
      rw (null, claim)
        (attach-Claimed s h p ok null there (get_free_chunk-Allocated s.chunks ok.cursor) refl)
]

claim_indirect-Claimed :
    (s : Store) (h : ℕ) (p : Slot) → IsConsistent s → Claimed s h p (claim_indirect h p false s)
unfolding claim_indirect
claim_indirect-Claimed s h p ok = elim (Bool-cases (present (s.inode h) p)) [
  | inl there ↦ rw there (claim-Claimed s h p ok there)
  | inr off ↦
      let n = allocate (s.inode h) p in
      let same = λ (q : Slot). allocate-addr (s.inode h) p q (ok.absent h) off in
      let ok' =
        set_inode-IsConsistent s h n ok same (allocate-contexts (s.inode h) p)
          (λ q e. same q ∙ ok.absent h q (allocate-present (s.inode h) p q e)) in
      rw off (
        Claimed-same s (set_inode s h n) h p (set_inode-addr s h n same) refl refl
          (set_inode-SameNames s h n (allocate-SameFields (s.inode h) p))
          (claim-Claimed (set_inode s h n) h p ok'
            (rw (==_refl h) (present-allocate (s.inode h) p))))
]

-- A lookup for writing, behind an index block or not, keeps the state consistent and gives the
-- place a context, its own or a free one, or faults where the place is NULL and the disk full;
-- every other place of every file, every context's size and every directory is as before.
pub claim_at-Claimed :
    (s : Store) (h : ℕ) (p : Slot) → IsConsistent s → Claimed s h p (claim_at h p false s)
claim_at-Claimed s h (direct i) ok = claim-Claimed s h (direct i) ok refl
claim_at-Claimed s h (first i) ok = claim_indirect-Claimed s h (first i) ok
claim_at-Claimed s h (second i j) ok = claim_indirect-Claimed s h (second i j) ok
claim_at-Claimed s h (third i j k) ok = claim_indirect-Claimed s h (third i j k) ok
