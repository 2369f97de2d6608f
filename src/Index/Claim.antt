-- ===== src/Index/Claim.antt =====
-- The invariant of the file index of include/dhmp_fs.h: places and contexts point at one another.
use fuse_node.Prelude.{
  ℕ, ◌<◌, ◌≡◌, inl, inr, refl, sym, ◌∙◌, Bool, true, false, ◌||◌, ◌&&◌, none, some, List, [], ◌∷◌,
  ◌==◌, if◌then◌else◌, arith, Bool-cases, ==_iff, ==_refl,
}
use fuse_node.Config.{chunk_num}
use fuse_node.Chunk.{mark}
use fuse_node.Inode.{Store, update, set_addr}
use fuse_node.Inode.Slot.{Slot, direct, first, second, third, slot_eq, slot_eq_refl, slot_eq_sound}
use fuse_node.Index.{present}

-- Whether a context is on a list.
abbrev pub contains : ℕ → List ℕ → Bool
contains c [] = false
contains c (d ∷ l) = (d == c) || contains c l

-- No context stands on a list twice.
abbrev pub IsDistinct : List ℕ → Type 0
IsDistinct [] = Unit
IsDistinct (c ∷ l) = (contains c l ≡ false) × IsDistinct l

pub record IsConsistent (s : Store) : Type 0 where
  pub cursor : s.chunks.cursor < chunk_num
  -- a context at a place is in range, in use, and points back at the place
  pub owned :
      (h : ℕ) (p : Slot) (c : ℕ)
      → (s.inode h).addr p ≡ some c
      → (c < chunk_num) × (s.chunks.bitmap c ≡ true) × (s.which c ≡ some (h, p))
  -- the list of an inode holds the contexts at its places
  pub listed :
      (h : ℕ) (p : Slot) (c : ℕ)
      → (s.inode h).addr p ≡ some c
      → contains c (s.inode h).contexts ≡ true
  pub placed :
      (h c : ℕ)
      → contains c (s.inode h).contexts ≡ true
      → (p : Slot) × ((s.inode h).addr p ≡ some c)
  pub distinct : (h : ℕ) → IsDistinct (s.inode h).contexts
  -- an index block that is not allocated holds nothing
  pub absent : (h : ℕ) (p : Slot) → present (s.inode h) p ≡ false → (s.inode h).addr p ≡ none

-- No two places of any files hold one chunk.
pub chunks_not_shared :
    (s : Store) (h h' c : ℕ) (p p' : Slot)
    → IsConsistent s
    → (s.inode h).addr p ≡ some c
    → (s.inode h').addr p' ≡ some c
    → (h ≡ h') × (p ≡ p')
chunks_not_shared s h h' c p p' ok e e' =
    let a = (ok.owned h p c e).2 in let b = (ok.owned h' p' c e').2 in (cc, cc)

-- A free context is on no list.
free-contains :
    (s : Store) (h c : ℕ)
    → IsConsistent s
    → s.chunks.bitmap c ≡ false
    → contains c (s.inode h).contexts ≡ false
free-contains s h c ok free = elim (Bool-cases (contains c (s.inode h).contexts)) [
  | inr off ↦ off
  | inl on ↦
      let (p, at) = ok.placed h c on in let used = (ok.owned h p c at).1 in ground (arith, used)
]

abbrev pub attached : Store → ℕ → Slot → ℕ → Store
attached s h p c = record s {
  chunks = record { bitmap = mark s.chunks.bitmap c true; cursor = c };
  which = update s.which c (some (h, p));
  inode = update s.inode h (record (s.inode h) {
    addr = set_addr (s.inode h).addr p (some c);
    contexts = c ∷ (s.inode h).contexts;
  });
}

module _ (s : Store) (h c : ℕ) (p : Slot) where
  pub attached-addr :
      (h' : ℕ) (q : Slot)
      → ((attached s h p c).inode h').addr q
        ≡ (if (h == h') && slot_eq p q then some c else (s.inode h').addr q)
  attached-addr h' q = elim (Bool-cases (h == h')) [
    | inl e ↦ rw ((==_iff h h').0 e, ==_refl) refl
    | inr e ↦ rw e refl
  ]

  attached-contexts :
      (h' : ℕ)
      → ((attached s h p c).inode h').contexts
        ≡ (if h == h' then c ∷ (s.inode h').contexts else (s.inode h').contexts)
  attached-contexts h' = elim (Bool-cases (h == h')) [
    | inl e ↦ rw ((==_iff h h').0 e, ==_refl) refl
    | inr e ↦ rw e refl
  ]

  attached-present :
      (h' : ℕ) (q : Slot) → present ((attached s h p c).inode h') q ≡ present (s.inode h') q
  attached-present h' (direct i) = refl
  attached-present h' (first i) = ground arith
  attached-present h' (second i j) = ground arith
  attached-present h' (third i j k) = ground arith

  pub attached_old :
      (h' d : ℕ) (q : Slot)
      → (s.inode h).addr p ≡ none
      → (s.inode h').addr q ≡ some d
      → ((attached s h p c).inode h').addr q ≡ some d
  attached_old h' d q null e = rw (attached-addr h' q) (ground (arith, slot_eq_sound p q, e))

  pub attached_new : ((attached s h p c).inode h).addr p ≡ some c
  attached_new = rw (attached-addr h p) (ground (arith, slot_eq_refl p))

  -- Where the new context goes, the state is consistent again.
  pub attached-IsConsistent :
      IsConsistent s
      → (s.inode h).addr p ≡ none
      → present (s.inode h) p ≡ true
      → c < chunk_num
      → s.chunks.bitmap c ≡ false
      → IsConsistent (attached s h p c)
  attached-IsConsistent ok null there lt free = record {
    cursor = lt;
    owned = λ h' q d e.
        let e' = sym (attached-addr h' q) ∙ e in
        ground (arith, e', ok.owned h' q d, slot_eq_sound p q, lt, free);
    listed = λ h' q d e.
        let e' = sym (attached-addr h' q) ∙ e in
        rw (attached-contexts h') (ground (arith, e', ok.listed h' q d));
    placed = λ h' d e.
        let e' : contains d (if h == h' then c ∷ (s.inode h').contexts else (s.inode h').contexts)
            ≡ true =
          rw (attached-contexts h') at e in
        elim (Bool-cases ((h == h') && (c == d))) [
          | inl new ↦ (p, ground (arith, new, attached_new))
          | inr old ↦
              let (q, there) = ok.placed h' d (ground (arith, e', old)) in
              (q, attached_old h' d q null there)
        ];
    distinct = λ h'.
        let new : contains c (s.inode h').contexts ≡ false = free-contains s h' c ok free in
        rw (attached-contexts h') (elim (Bool-cases (h == h')) [
          | inl e ↦ rw e (new, ok.distinct h')
          | inr e ↦ rw e (ok.distinct h')
        ]);
    absent = λ h' q e.
        let e' = sym (attached-present h' q) ∙ e in
        rw (attached-addr h' q) (ground (arith, ok.absent h' q e', slot_eq_sound p q, there, e'));
  }
