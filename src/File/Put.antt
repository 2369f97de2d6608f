-- ===== src/File/Put.antt =====
-- What the lookup of a chunk and a copy of bytes into it do to the files.
use std.Path.{fun_ext}
use fuse_node.Prelude.{
  ℕ, ◌+◌, ◌-◌, ◌/◌, ◌%◌, ◌≤◌, ◌<◌, ◌≡◌, ◌⊎◌, refl, sym, ap, ◌∙◌, false, ◌&&◌, some, leb, ltb, ◌==◌,
  if◌then◌else◌, arith, Bool-cases, inl, inr, ==_iff, ==_refl,
}
use fuse_node.Config.{chunk_size}
use fuse_node.Dhmp.{Bytes, memcpy}
use fuse_node.Inode.{Store}
use fuse_node.Inode.Slot.{Slot, slot_eq, slot_eq_sound, number}
use fuse_node.Index.Claim.{IsConsistent, chunks_not_shared}
use fuse_node.Index.Lookup.{Gives}
use fuse_node.Cache.View.{view}
use fuse_node.Io.{Fs, bank_of, bank_offset, from}
use fuse_node.File.{context_at, chunk_byte}
use fuse_node.File.Place.{slot_of, number-slot_of, chunks_apart}
use fuse_node.File.Written.{Held, Written}

-- A memory copy of a part of a buffer onto itself.
pub memcpy_self : (buf : Bytes) (at n : ℕ) → memcpy buf at (from buf at) n ≡ buf
memcpy_self buf at n = fun_ext (λ i. ground arith)

-- What a lookup for writing leaves of a context that a place had.
pub Gives-keeps :
    (s s' : Store) (h c g d : ℕ) (p q : Slot)
    → Gives s h p c s'
    → (s.inode g).addr q ≡ some d
    → (s'.inode g).addr q ≡ some d
Gives-keeps s s' h c g d p q gives e = elim (Bool-cases ((h == g) && slot_eq p q)) [
  | inr off ↦ gives.others g q off ∙ e
  | inl on ↦
      let hg : h ≡ g = ground (arith, on, ==_iff h g) in
      let pq : p ≡ q = slot_eq_sound p q (ground (arith, on)) in
      elim gives.origin [
        | inl old ↦
            let f = rw (← hg, ← pq) at e in
            let same : c ≡ d = ground (arith, old, f) in rw (← hg, ← pq, ← same) gives.at
        | inr (null, _, _) ↦ let f = rw (← hg, ← pq) at e in ground (arith, null, f)
      ]
]

-- A context of a place afterwards is the one given, or stood there before.
pub Gives-from :
    (s s' : Store) (h c g d : ℕ) (p q : Slot)
    → Gives s h p c s'
    → (s'.inode g).addr q ≡ some d
    → ((s.inode g).addr q ≡ some d) ⊎ (d ≡ c)
Gives-from s s' h c g d p q gives e = elim (Bool-cases ((h == g) && slot_eq p q)) [
  | inr off ↦ inl (sym (gives.others g q off) ∙ e)
  | inl on ↦
      let hg : h ≡ g = ground (arith, on, ==_iff h g) in
      let pq : p ≡ q = slot_eq_sound p q (ground (arith, on)) in
      let f = rw (← hg, ← pq) at e in inr (ground (arith, gives.at, f))
]

-- A context that a place had, and that the lookup gave, is the one of this place.
Gives-own :
    (s s' : Store) (h c g : ℕ) (p q : Slot)
    → IsConsistent s
    → Gives s h p c s'
    → (s.inode g).addr q ≡ some c
    → (g ≡ h) × (q ≡ p)
Gives-own s s' h c g p q good gives e = elim gives.origin [
  | inl old ↦ chunks_not_shared s g h c q p good e old
  | inr (_, _, free) ↦ let used = (good.owned g q c e).1 in absurd (ground (arith, used, free))
]

-- How many bytes a round writes.
abbrev pub piece : ℕ → ℕ → ℕ
piece o un = if leb (chunk_size - o) un then chunk_size - o else un

-- The bytes of a chunk, after `n` bytes were put into chunk `c` at `o`.
chunk_byte-put :
    (v w : ℕ → Bytes) (buf : Bytes) (c o n : ℕ)
    → o + n ≤ chunk_size
    → ((b i : ℕ)
        → w b i ≡ (if b == bank_of c then memcpy (v b) (bank_offset c + o) buf n i else v b i))
    → (e a : ℕ) → a < chunk_size
    → w (bank_of e) (bank_offset e + a) ≡ (
        if (e == c) && (leb o a && ltb a (o + n))
        then buf (a - o)
        else v (bank_of e) (bank_offset e + a))
chunk_byte-put v w buf c o n fits put e a lt = elim (Bool-cases (e == c)) [
  | inl q ↦
      let p : e ≡ c = (==_iff e c).0 q in
      let sub : bank_offset c + a - (bank_offset c + o) ≡ a - o = omega arith in
      put (bank_of e) (bank_offset e + a) ∙ (rw (p, ==_refl, ==_refl) (ground (arith, sub)))
  | inr q ↦
      put (bank_of e) (bank_offset e + a)
      ∙ (rw q (elim (Bool-cases (bank_of e == bank_of c)) [
        | inr z ↦ rw z refl
        | inl z ↦
            elim (Bool-cases (
              leb (bank_offset c + o) (bank_offset e + a)
              && ltb (bank_offset e + a) (bank_offset c + o + n))) [
                | inr y ↦ rw (z, y) refl
                | inl y ↦
                    let apart =
                      chunks_apart c e (o + (bank_offset e + a - (bank_offset c + o))) a
                        (ground (arith, y)) lt (sym ((==_iff _ _).0 z)) (ground (arith, y)) in
                    absurd (ground (arith, q, apart.0))
              ]
      ]))
]

-- What a lookup that gave chunk `c` and a copy of `n` bytes into it do to the files.
module _ {M : Type 0} (s u : Fs M) (d : ℕ → Bytes) (h c offset n : ℕ) (s' : Store) (buf : Bytes)
    (good : IsConsistent s.store) (gives : Gives s.store h (slot_of (offset / chunk_size)) c s')
    (addr : (g : ℕ) (q : Slot) → (u.store.inode g).addr q ≡ (s'.inode g).addr q)
    (kinds : (g : ℕ) → (u.store.inode g).is_directories ≡ (s'.inode g).is_directories)
    (grows : (e : ℕ) → s'.context_size e ≤ u.store.context_size e)
    (reaches : (x : ℕ) → x < offset % chunk_size + n → x < u.store.context_size c)
    (fits : offset % chunk_size + n ≤ chunk_size)
    (put : (b i : ℕ)
      → view u.disk d b i ≡ (
          if b == bank_of c
          then memcpy (view s.disk d b) (bank_offset c + offset % chunk_size) buf n i
          else view s.disk d b i)) where
  put_inside :
      (x : ℕ)
      → offset ≤ x
      → x < offset + n
      → (e : ℕ) × Held u h x e × (chunk_byte u d e (x % chunk_size) ≡ buf (x - offset))
  put_inside x le lt =
      let same : x / chunk_size ≡ offset / chunk_size = omega (arith, le, lt, fits) in
      let sub : x % chunk_size - offset % chunk_size ≡ x - offset = omega (arith, le, lt, fits) in
      (
        c,
        record {
          at = rw (context_at, same) (addr h (slot_of (offset / chunk_size)) ∙ gives.at);
          within = reaches (x % chunk_size) (omega (arith, le, lt, fits));
        },
        chunk_byte-put (view s.disk d) (view u.disk d) buf c (offset % chunk_size) n fits put c
              (x % chunk_size) (omega arith)
            ∙ (rw (==_refl, sub) (ground (arith, le, lt, fits))),
      )

  put_outside :
      (g x e : ℕ)
      → context_at s.store g x ≡ some e
      → (g ≡ h → offset ≤ x → x < offset + n → ⊥)
      → chunk_byte u d e (x % chunk_size) ≡ chunk_byte s d e (x % chunk_size)
  put_outside g x e at off =
      chunk_byte-put (view s.disk d) (view u.disk d) buf c (offset % chunk_size) n fits put e
        (x % chunk_size) (omega arith)
      ∙ (elim (Bool-cases (e == c)) [
        | inr q ↦ rw q refl
        | inl q ↦
            let own =
              Gives-own s.store s' h c g (slot_of (offset / chunk_size)) (slot_of (x / chunk_size))
                good gives (rw ((==_iff e c).0 q) at at) in
            let same : x / chunk_size ≡ offset / chunk_size =
              sym (number-slot_of (x / chunk_size))
              ∙ ap number own.1
              ∙ number-slot_of (offset / chunk_size) in
            elim (Bool-cases (leb offset x && ltb x (offset + n))) [
              | inl y ↦ absurd (off own.0 (ground (arith, y)) (ground (arith, y)))
              | inr y ↦
                  let z : (leb (offset % chunk_size) (x % chunk_size)
                        && ltb (x % chunk_size) (offset % chunk_size + n))
                      ≡ false =
                    ground (arith, y, same) in
                  rw (q, z) refl
            ]
      ])

  pub put-Written : Written s u d h offset n (λ x. buf (x - offset))
  put-Written = record {
    contexts = λ g x e at.
        addr g (slot_of (x / chunk_size))
        ∙ Gives-keeps s.store s' h c g e (slot_of (offset / chunk_size)) (slot_of (x / chunk_size))
            gives at;
    sizes = λ e. rw gives.sizes at (grows e);
    kinds = λ g. kinds g ∙ gives.names.flag g;
    inside = put_inside;
    outside = put_outside;
  }
