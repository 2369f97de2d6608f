-- ===== src/Dir/Tree/Edit.antt =====
-- A tree in which what is below one directory is replaced, as the operations on directories do it.
use fuse_node.Prelude.{
  ℕ, ◌≡◌, ◌≢◌, ◌⊎◌, inl, inr, refl, ap, ◌∙◌, sym, Bool, true, false, List, [], ◌∷◌, ◌++◌, ◌==◌,
  arith, Bool-cases, ==_iff, ==_refl,
}
use fuse_node.Inode.{Store}
use fuse_node.Index.Claim.{contains, IsDistinct}
use fuse_node.Dir.Tree.{
  Forest, node, roots, all, Node, Holds, contains-append, roots-all, SameNode, SameNode-own,
  Node-frame, IsDistinct-Apart, all_here, all_below, all_rest, Holds-frame,
}

-- The second forest is the first one with `b'` in place of `b` below the inode `h`.
pub data Edit (h : ℕ) (b b' : Forest) : Forest → Forest → Type 0 where
  here : (r : Forest) → Edit h b b' (node h b r) (node h b' r)
  below : (c : ℕ) (f f' r : Forest) → Edit h b b' f f' → Edit h b b' (node c f r) (node c f' r)
  later : (c : ℕ) (f r r' : Forest) → Edit h b b' r r' → Edit h b b' (node c f r) (node c f r')

-- Where an inode of a node stands.
pub all_cases :
    (g c : ℕ) (f r : Forest)
    → contains g (all (node c f r)) ≡ true
    → (contains g (all f) ≡ true) ⊎ ((c ≡ g) ⊎ (contains g (all r) ≡ true))
all_cases g c f r on = elim (Bool-cases (contains g (all f))) [
  | inl e ↦ inl e
  | inr off ↦
      (let o = sym (contains-append g (all f) (c ∷ all r)) ∙ on in
        elim (Bool-cases (c == g)) [
          | inl e ↦ inr (inl ((==_iff c g).0 e))
          | inr e ↦ inr (inr (ground (arith, o, off, e)))
        ])
]

all_none :
    (g c : ℕ) (f r : Forest)
    → contains g (all f) ≡ false
    → c ≢ g
    → contains g (all r) ≡ false
    → contains g (all (node c f r)) ≡ false
all_none g c f r off ne off' =
    rw (contains-append g (all f) (c ∷ all r)) (ground (arith, off, ne, off'))

pub ne_of_contains : {c g : ℕ} (l : List ℕ) → contains c l ≡ false → contains g l ≡ true → c ≢ g
ne_of_contains l off on e = let o = rw e at off in ground (arith, o, on)

pub off_of_not_on : (g : ℕ) (l : List ℕ) → (contains g l ≡ true → ⊥) → contains g l ≡ false
off_of_not_on g l no_way = elim (Bool-cases (contains g l)) [
  | inl on ↦ absurd (no_way on)
  | inr off ↦ off
]

pub clash : {x : Bool} → x ≡ true → x ≡ false → ⊥
clash p q = ground (arith, p, q)

pub IsDistinct-join :
    (xs ys : List ℕ)
    → IsDistinct xs
    → IsDistinct ys
    → ((g : ℕ) → contains g xs ≡ true → contains g ys ≡ false)
    → IsDistinct (xs ++ ys)
IsDistinct-join [] ys p q apart = q
IsDistinct-join (x ∷ xs) ys p q apart = (
  contains-append x xs ys ∙ (ground (arith, p.0, apart x (ground (arith, ==_refl x)))),
  IsDistinct-join xs ys p.1 q (λ g on. apart g (ground (arith, on))),
)

pub node-IsDistinct :
    (c : ℕ) (f r : Forest)
    → IsDistinct (all f)
    → IsDistinct (all r)
    → contains c (all f) ≡ false
    → contains c (all r) ≡ false
    → ((g : ℕ) → contains g (all f) ≡ true → contains g (all r) ≡ false)
    → IsDistinct (all (node c f r))
node-IsDistinct c f r p q off off' apart =
    IsDistinct-join (all f) (c ∷ all r) p (off', q)
      (λ g on. ground (arith, apart g on, ne_of_contains (all f) off on))

-- What is put in for `b` comes from `b` or is new in `f`, and is there once.
abbrev pub Fits : Forest → Forest → Forest → Type 0
Fits b b' f =
    IsDistinct (all b')
    × ((g : ℕ)
        → contains g (all b') ≡ true
        → (contains g (all b) ≡ true) ⊎ (contains g (all f) ≡ false))

Fits-inside :
    (b b' f f1 : Forest)
    → ((g : ℕ) → contains g (all f1) ≡ true → contains g (all f) ≡ true)
    → Fits b b' f
    → Fits b b' f1
Fits-inside b b' f f1 sub p = (
  p.0,
  λ g on. elim (p.1 g on) [
    | inl q ↦ inl q
    | inr off ↦ inr (off_of_not_on g (all f1) (λ q. clash (sub g q) off))
  ],
)

module _ {h : ℕ} {b b' : Forest} where
  pub Edit-roots : {f f' : Forest} → Edit h b b' f f' → roots f' ≡ roots f
  Edit-roots (here r) = refl
  Edit-roots (below c f f' r e) = refl
  Edit-roots (later c f r r' e) = ap (λ l. c ∷ l) (Edit-roots e)

  -- The directory and what is below it are inodes of the tree.
  pub Edit-contains : {f f' : Forest} → Edit h b b' f f' → contains h (all f) ≡ true
  Edit-contains (here r) = all_here h h b r (==_refl h)
  Edit-contains (below c f f' r e) = all_below h c f r (Edit-contains e)
  Edit-contains (later c f r r' e) = all_rest h c f r (Edit-contains e)

  -- Putting back what was replaced.
  pub Edit-back : {f f' : Forest} → Edit h b b' f f' → Edit h b' b f' f
  Edit-back (here r) = here r
  Edit-back (below c f f' r e) = below c f' f r (Edit-back e)
  Edit-back (later c f r r' e) = later c f r' r (Edit-back e)

  pub Edit-inside :
      {f f' : Forest} (g : ℕ)
      → Edit h b b' f f'
      → contains g (all b) ≡ true
      → contains g (all f) ≡ true
  Edit-inside g (here r) on = all_below g h b r on
  Edit-inside g (below c f f' r e) on = all_below g c f r (Edit-inside g e on)
  Edit-inside g (later c f r r' e) on = all_rest g c f r (Edit-inside g e on)

  -- An inode of the new tree is one of the old tree or of the part that is put in.
  pub Edit-new :
      {f f' : Forest} (g : ℕ)
      → Edit h b b' f f'
      → contains g (all f') ≡ true
      → (contains g (all f) ≡ true) ⊎ (contains g (all b') ≡ true)
  Edit-new g (here r) on = elim (all_cases g h b' r on) [
    | inl e ↦ inr e
    | inr (inl e) ↦ inl (all_here g h b r ((==_iff h g).1 e))
    | inr (inr e) ↦ inl (all_rest g h b r e)
  ]
  Edit-new g (below c f f' r e) on = elim (all_cases g c f' r on) [
    | inl q ↦ elim (Edit-new g e q) [ inl p ↦ inl (all_below g c f r p) | inr p ↦ inr p ]
    | inr (inl q) ↦ inl (all_here g c f r ((==_iff c g).1 q))
    | inr (inr q) ↦ inl (all_rest g c f r q)
  ]
  Edit-new g (later c f r r' e) on = elim (all_cases g c f r' on) [
    | inl q ↦ inl (all_below g c f r q)
    | inr (inl q) ↦ inl (all_here g c f r ((==_iff c g).1 q))
    | inr (inr q) ↦ elim (Edit-new g e q) [ inl p ↦ inl (all_rest g c f r p) | inr p ↦ inr p ]
  ]

  -- What is taken out is gone.
  pub Edit-gone :
      {f f' : Forest} (g : ℕ)
      → Edit h b b' f f'
      → IsDistinct (all f)
      → contains g (all b) ≡ true
      → contains g (all b') ≡ false
      → contains g (all f') ≡ false
  Edit-gone g (here r) d on off =
      let a = IsDistinct-Apart h b r d in
      all_none g h b' r off (ne_of_contains (all b) a.not_below on) (a.apart g on)
  Edit-gone g (below c f f' r e) d on off =
      let a = IsDistinct-Apart c f r d in
      let deep = Edit-inside g e on in
      all_none g c f' r (Edit-gone g e a.below_distinct on off)
        (ne_of_contains (all f) a.not_below deep) (a.apart g deep)
  Edit-gone g (later c f r r' e) d on off =
      let a = IsDistinct-Apart c f r d in
      let deep = Edit-inside g e on in
      all_none g c f r' (off_of_not_on g (all f) (λ q. clash deep (a.apart g q)))
        (ne_of_contains (all r) a.not_rest deep) (Edit-gone g e a.rest_distinct on off)

  -- The siblings of the directory are not below it.
  pub Edit-beside :
      {f f' : Forest} (g : ℕ)
      → Edit h b b' f f'
      → IsDistinct (all f)
      → contains g (roots f) ≡ true
      → contains g (all b) ≡ false
  Edit-beside g e d on = off_of_not_on g (all b) (λ deep. not_both e d on deep)
    where
      not_both :
          {f f' : Forest}
          → Edit h b b' f f'
          → IsDistinct (all f)
          → contains g (roots f) ≡ true
          → contains g (all b) ≡ true
          → ⊥
      not_both (here r) d on deep =
          let a = IsDistinct-Apart h b r d in
          let ne = ne_of_contains (all b) a.not_below deep in
          let at : contains g (roots r) ≡ true = ground (arith, on, ne) in
          clash (roots-all g r at) (a.apart g deep)
      not_both (below c f f' r e) d on deep =
          let a = IsDistinct-Apart c f r d in
          let in_f = Edit-inside g e deep in
          let ne = ne_of_contains (all f) a.not_below in_f in
          let at : contains g (roots r) ≡ true = ground (arith, on, ne) in
          clash (roots-all g r at) (a.apart g in_f)
      not_both (later c f r r' e) d on deep =
          let a = IsDistinct-Apart c f r d in
          let in_r = Edit-inside g e deep in
          let ne = ne_of_contains (all r) a.not_rest in_r in
          not_both e a.rest_distinct (ground (arith, on, ne)) deep

  pub Edit-IsDistinct :
      {f f' : Forest} → Edit h b b' f f' → IsDistinct (all f) → Fits b b' f → IsDistinct (all f')
  Edit-IsDistinct (here r) d p =
      let a = IsDistinct-Apart h b r d in
      node-IsDistinct h b' r p.0 a.rest_distinct
        (off_of_not_on h (all b') (λ on. elim (p.1 h on) [
          | inl q ↦ clash q a.not_below
          | inr q ↦ clash (all_here h h b r (==_refl h)) q
        ]))
        a.not_rest
        (λ g on. off_of_not_on g (all r) (λ there. elim (p.1 g on) [
          | inl q ↦ clash there (a.apart g q)
          | inr q ↦ clash (all_rest g h b r there) q
        ]))
  Edit-IsDistinct (below c f f' r e) d p =
      let a = IsDistinct-Apart c f r d in
      node-IsDistinct c f' r
        (Edit-IsDistinct e a.below_distinct
          (Fits-inside b b' (node c f r) f (λ g on. all_below g c f r on) p))
        a.rest_distinct
        (off_of_not_on c (all f') (λ on. elim (Edit-new c e on) [
          | inl q ↦ clash q a.not_below
          | inr q ↦ elim (p.1 c q) [
            | inl k ↦ clash (Edit-inside c e k) a.not_below
            | inr k ↦ clash (all_here c c f r (==_refl c)) k
          ]
        ]))
        a.not_rest
        (λ g on. off_of_not_on g (all r) (λ there. elim (Edit-new g e on) [
          | inl q ↦ clash there (a.apart g q)
          | inr q ↦ elim (p.1 g q) [
            | inl k ↦ clash there (a.apart g (Edit-inside g e k))
            | inr k ↦ clash (all_rest g c f r there) k
          ]
        ]))
  Edit-IsDistinct (later c f r r' e) d p =
      let a = IsDistinct-Apart c f r d in
      node-IsDistinct c f r' a.below_distinct
        (Edit-IsDistinct e a.rest_distinct
          (Fits-inside b b' (node c f r) r (λ g on. all_rest g c f r on) p))
        a.not_below
        (off_of_not_on c (all r') (λ on. elim (Edit-new c e on) [
          | inl q ↦ clash q a.not_rest
          | inr q ↦ elim (p.1 c q) [
            | inl k ↦ clash (Edit-inside c e k) a.not_rest
            | inr k ↦ clash (all_here c c f r (==_refl c)) k
          ]
        ]))
        (λ g on. off_of_not_on g (all r') (λ there. elim (Edit-new g e there) [
          | inl q ↦ clash q (a.apart g on)
          | inr q ↦ elim (p.1 g q) [
            | inl k ↦ clash (Edit-inside g e k) (a.apart g on)
            | inr k ↦ clash (all_below g c f r on) k
          ]
        ]))

  -- The trees stay where the other inodes stay, and the directory holds what is put in.
  pub Edit-Holds :
      {f f' : Forest} (s t : Store)
      → Edit h b b' f f'
      → ((g : ℕ)
          → contains g (all f) ≡ true
          → contains g (all b) ≡ false
          → (h ≢ g → SameNode s t g)
            × ((t.inode g).bro ≡ (s.inode g).bro)
            × ((t.inode g).filename ≡ (s.inode g).filename))
      → Node t h (roots b')
      → Holds t b'
      → IsDistinct (all f)
      → Holds s f
      → Holds t f'
  Edit-Holds s t (here r) same n hb d hf =
      let a = IsDistinct-Apart h b r d in
      let at : (g : ℕ) → contains g (all r) ≡ true → contains g (all b) ≡ false =
        λ g on. off_of_not_on g (all b) (λ q. clash on (a.apart g q)) in
      (
        n,
        hb,
        Holds-frame s t r
            (λ g on.
              (same g (all_rest g h b r on) (at g on)).0 (ne_of_contains (all r) a.not_rest on))
            (λ g on _. (same g (all_rest g h b r on) (at g on)).1) a.rest_distinct hf.2,
      )
  Edit-Holds s t (below c f f' r e) same n hb d hf =
      let a = IsDistinct-Apart c f r d in
      let in_f = Edit-contains e in
      let ne : h ≢ c = λ q. ne_of_contains (all f) a.not_below in_f (sym q) in
      let out : (g : ℕ) → contains g (all r) ≡ true → contains g (all b) ≡ false =
        λ g on. off_of_not_on g (all b) (λ q. clash on (a.apart g (Edit-inside g e q))) in
      let own : contains c (all b) ≡ false =
        off_of_not_on c (all b) (λ q. clash (Edit-inside c e q) a.not_below) in
      (
        rw (Edit-roots e) (
            Node-frame s t c (roots f)
              (SameNode-own s t c ((same c (all_here c c f r (==_refl c)) own).0 ne))
              (λ g on.
                let k =
                  same g (all_below g c f r (roots-all g f on))
                    (Edit-beside g e a.below_distinct on) in
                (k.1, k.2))
              hf.0),
        Edit-Holds s t e (λ g on off. same g (all_below g c f r on) off) n hb a.below_distinct hf.1,
        Holds-frame s t r
            (λ g on.
              (same g (all_rest g c f r on) (out g on)).0
                (λ q. clash on (a.apart g (rw q at in_f))))
            (λ g on _. (same g (all_rest g c f r on) (out g on)).1) a.rest_distinct hf.2,
      )
  Edit-Holds s t (later c f r r' e) same n hb d hf =
      let a = IsDistinct-Apart c f r d in
      let in_r = Edit-contains e in
      let ne : h ≢ c = λ q. ne_of_contains (all r) a.not_rest in_r (sym q) in
      let out : (g : ℕ) → contains g (all f) ≡ true → contains g (all b) ≡ false =
        λ g on. off_of_not_on g (all b) (λ q. clash (Edit-inside g e q) (a.apart g on)) in
      let own : contains c (all b) ≡ false =
        off_of_not_on c (all b) (λ q. clash (Edit-inside c e q) a.not_rest) in
      (
        Node-frame s t c (roots f)
            (SameNode-own s t c ((same c (all_here c c f r (==_refl c)) own).0 ne))
            (λ g on.
              let deep = roots-all g f on in
              let k = same g (all_below g c f r deep) (out g deep) in (k.1, k.2))
            hf.0,
        Holds-frame s t f
            (λ g on.
              (same g (all_below g c f r on) (out g on)).0
                (λ q. clash in_r (a.apart h (rw (← q) at on))))
            (λ g on _. (same g (all_below g c f r on) (out g on)).1) a.below_distinct hf.1,
        Edit-Holds s t e (λ g on off. same g (all_rest g c f r on) off) n hb a.rest_distinct hf.2,
      )
