-- ===== src/Dir/Tree/Dropped.antt =====
-- A forest without one of its first siblings.
use fuse_node.Prelude.{
  ℕ, ◌≡◌, ◌≢◌, inl, inr, refl, ap, sym, ◌∙◌, true, false, ◌∷◌, ◌==◌, if◌then◌else◌, arith,
  Bool-cases, ==_iff, ◌⊎◌,
}
use mathlib.Core.Path.{subst}
use fuse_node.Inode.{Store}
use fuse_node.Index.Claim.{contains, IsDistinct}
use fuse_node.File.Room.{without}
use fuse_node.Dir.Tree.{
  Forest, nil, node, roots, all, Node, Holds, roots-all, IsDistinct-Apart, all_here, all_below,
  all_rest,
}
use fuse_node.Dir.Tree.Edit.{all_cases, node-IsDistinct, off_of_not_on, clash, ne_of_contains}

-- The forest without the sibling `c` and what is below it.
abbrev pub drop_root : ℕ → Forest → Forest
drop_root c nil = nil
drop_root c (node d f r) = if c == d then drop_root c r else node d f (drop_root c r)

-- What is below the sibling `c`.
abbrev pub below_root : ℕ → Forest → Forest
below_root c nil = nil
below_root c (node d f r) = if c == d then f else below_root c r

pub roots-drop_root : (c : ℕ) (b : Forest) → roots (drop_root c b) ≡ without c (roots b)
unfolding without
roots-drop_root c nil = refl
roots-drop_root c (node d f r) = elim (Bool-cases (c == d)) [
  | inl q ↦ rw q (roots-drop_root c r)
  | inr q ↦ rw q (ap (λ l. d ∷ l) (roots-drop_root c r))
]

-- What stays was there.
pub drop_root_part :
    (g c : ℕ) (b : Forest) → contains g (all (drop_root c b)) ≡ true → contains g (all b) ≡ true
drop_root_part g c nil on = on
drop_root_part g c (node d f r) on = elim (Bool-cases (c == d)) [
  | inl q ↦ all_rest g d f r (drop_root_part g c r (rw q at on))
  | inr q ↦ elim (all_cases g d f (drop_root c r) (rw q at on)) [
    | inl k ↦ all_below g d f r k
    | inr (inl k) ↦ all_here g d f r ((==_iff d g).1 k)
    | inr (inr k) ↦ all_rest g d f r (drop_root_part g c r k)
  ]
]

-- What is below the sibling was there.
pub below_root_part :
    (g c : ℕ) (b : Forest) → contains g (all (below_root c b)) ≡ true → contains g (all b) ≡ true
below_root_part g c nil on = on
below_root_part g c (node d f r) on = elim (Bool-cases (c == d)) [
  | inl q ↦ all_below g d f r (rw q at on)
  | inr q ↦ all_rest g d f r (below_root_part g c r (rw q at on))
]

behind :
    (c d : ℕ) (f r : Forest)
    → contains c (roots (node d f r)) ≡ true
    → (c == d) ≡ false
    → contains c (roots r) ≡ true
behind c d f r on q = ground (arith, on, q)

drop_root_off : (c : ℕ) (b : Forest) → contains c (roots b) ≡ false → drop_root c b ≡ b
drop_root_off c nil off = refl
drop_root_off c (node d f r) off =
    let q : (c == d) ≡ false = ground (arith, off) in
    rw q (ap (λ x. node d f x) (drop_root_off c r (ground (arith, off))))

-- What there was stays, or is the sibling or below it.
pub drop_root_cases :
    (g c : ℕ) (b : Forest)
    → IsDistinct (all b)
    → contains c (roots b) ≡ true
    → contains g (all b) ≡ true
    → (contains g (all (drop_root c b)) ≡ true)
      ⊎ ((c ≡ g) ⊎ (contains g (all (below_root c b)) ≡ true))
drop_root_cases g c nil d at on = absurd (clash at refl)
drop_root_cases g c (node e f r) d at on =
    let a = IsDistinct-Apart e f r d in
    elim (Bool-cases (c == e)) [
      | inl q ↦
          let p : c ≡ e = (==_iff c e).0 q in
          let whole : drop_root c r ≡ r =
            drop_root_off c r
              (off_of_not_on c (roots r) (λ k. clash (roots-all c r k) (rw p a.not_rest))) in
          rw q (elim (all_cases g e f r on) [
            | inl k ↦ inr (inr k)
            | inr (inl k) ↦ inr (inl (p ∙ k))
            | inr (inr k) ↦ inl (rw whole k)
          ])
      | inr q ↦ rw q (elim (all_cases g e f r on) [
        | inl k ↦ inl (all_below g e f (drop_root c r) k)
        | inr (inl k) ↦ inl (all_here g e f (drop_root c r) ((==_iff e g).1 k))
        | inr (inr k) ↦ elim (drop_root_cases g c r a.rest_distinct (behind c e f r at q) k) [
          | inl j ↦ inl (all_rest g e f (drop_root c r) j)
          | inr j ↦ inr j
        ]
      ])
    ]

-- What stays is neither the sibling nor below it.
pub drop_root_apart :
    (g c : ℕ) (b : Forest)
    → IsDistinct (all b)
    → contains c (roots b) ≡ true
    → contains g (all (drop_root c b)) ≡ true
    → (c ≢ g) × (contains g (all (below_root c b)) ≡ false)
drop_root_apart g c nil d at on = absurd (clash at refl)
drop_root_apart g c (node e f r) d at on =
    let a = IsDistinct-Apart e f r d in
    elim (Bool-cases (c == e)) [
      | inl q ↦
          let p : c ≡ e = (==_iff c e).0 q in
          let in_r = drop_root_part g c r (rw q at on) in
          rw q (
            λ k. ne_of_contains (all r) a.not_rest in_r (sym p ∙ k),
            off_of_not_on g (all f) (λ k. clash in_r (a.apart g k)),
          )
      | inr q ↦
          let at' = behind c e f r at q in
          let in_r = roots-all c r at' in
          rw q (elim (all_cases g e f (drop_root c r) (rw q at on)) [
            | inl k ↦ (
              λ j. clash in_r (a.apart c (rw (← j) at k)),
              off_of_not_on g (all (below_root c r))
                  (λ j. clash (below_root_part g c r j) (a.apart g k)),
            )
            | inr (inl k) ↦ (
              λ j. clash in_r (rw (k ∙ sym j) at a.not_rest),
              off_of_not_on g (all (below_root c r))
                  (λ j. clash (below_root_part g c r j) (rw k at a.not_rest)),
            )
            | inr (inr k) ↦ drop_root_apart g c r a.rest_distinct at' k
          ])
    ]

pub drop_root-IsDistinct :
    (c : ℕ) (b : Forest) → IsDistinct (all b) → IsDistinct (all (drop_root c b))
drop_root-IsDistinct c nil d = tt
drop_root-IsDistinct c (node e f r) d =
    let a = IsDistinct-Apart e f r d in
    elim (Bool-cases (c == e)) [
      | inl q ↦ rw q (drop_root-IsDistinct c r a.rest_distinct)
      | inr q ↦ rw q (
          node-IsDistinct e f (drop_root c r) a.below_distinct
            (drop_root-IsDistinct c r a.rest_distinct) a.not_below
            (off_of_not_on e (all (drop_root c r)) (λ k. clash (drop_root_part e c r k) a.not_rest))
            (λ g on.
              off_of_not_on g (all (drop_root c r))
                (λ k. clash (drop_root_part g c r k) (a.apart g on))))
    ]

pub below_root-IsDistinct :
    (c : ℕ) (b : Forest)
    → IsDistinct (all b)
    → contains c (roots b) ≡ true
    → IsDistinct (all (below_root c b)) × (contains c (all (below_root c b)) ≡ false)
below_root-IsDistinct c nil d at = absurd (clash at refl)
below_root-IsDistinct c (node e f r) d at =
    let a = IsDistinct-Apart e f r d in
    elim (Bool-cases (c == e)) [
      | inl q ↦
          let p : e ≡ c = sym ((==_iff c e).0 q) in rw q (a.below_distinct, rw p at a.not_below)
      | inr q ↦ rw q (below_root-IsDistinct c r a.rest_distinct (behind c e f r at q))
    ]

pub Holds-drop_root : (s : Store) (c : ℕ) (b : Forest) → Holds s b → Holds s (drop_root c b)
Holds-drop_root s c nil h = tt
Holds-drop_root s c (node e f r) h = elim (Bool-cases (c == e)) [
  | inl q ↦ rw q (Holds-drop_root s c r h.2)
  | inr q ↦ rw q (h.0, h.1, Holds-drop_root s c r h.2)
]

pub Holds-below_root :
    (s : Store) (c : ℕ) (b : Forest)
    → contains c (roots b) ≡ true
    → Holds s b
    → Node s c (roots (below_root c b)) × Holds s (below_root c b)
Holds-below_root s c nil at h = absurd (clash at refl)
Holds-below_root s c (node e f r) at h = elim (Bool-cases (c == e)) [
  | inl q ↦
      (let p : e ≡ c = sym ((==_iff c e).0 q) in rw q (subst (λ x. Node s x (roots f)) p h.0, h.1))
  | inr q ↦ rw q (Holds-below_root s c r (behind c e f r at q) h.2)
]
