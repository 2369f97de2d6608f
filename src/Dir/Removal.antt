-- ===== src/Dir/Removal.antt =====
-- `del_from_father`: a child that is taken off the list of its directory.
use mathlib.Core.Path.{subst}
use fuse_node.Prelude.{
  ℕ, zero, suc, ◌+◌, ◌-◌, ◌≤◌, ◌≡◌, ◌≢◌, refl, sym, ap, ◌∙◌, true, false, Option, some, List, [],
  ◌∷◌, length, ◌==◌, arith, Bool-cases, inl, inr, ==_iff, ==_refl,
}
use fuse_node.Outcome.{ok}
use fuse_node.Inode.{Store, set_inode}
use fuse_node.Index.Claim.{contains, IsDistinct}
use fuse_node.File.Room.{without, without-contains, without-IsDistinct}
use fuse_node.Dir.Links.{count_out, del_loop, del_from_father}
use fuse_node.Dir.Children.{IsChain, IsChain-same, IsFamily}

-- What the loop behind a child `bef` does, which takes `del` off the chain behind it.
record Unlinked (s : Store) (father del bef : ℕ) (cs : List ℕ) (t : Store) : Type 0 where
  chain : IsChain t (t.inode bef).bro (without del cs)
  frame : (g : ℕ) → contains g cs ≡ false → g ≢ bef → (t.inode g).bro ≡ (s.inode g).bro
  son : (t.inode father).son ≡ (s.inode father).son
  count : (t.inode father).son_nums ≡ (s.inode father).son_nums - 1

-- The effect of taking out the child behind `bef`.
unlink_here :
    (s : Store) (father del bef : ℕ) (cs : List ℕ)
    → contains bef (del ∷ cs) ≡ false
    → contains del cs ≡ false
    → IsChain s (s.inode del).bro cs
    → Unlinked s father del bef
        (del ∷ cs)
        (count_out father (set_inode s bef (record (s.inode bef) { bro = (s.inode del).bro })))
unfolding without
unlink_here s father del bef cs apart new h =
    let t = count_out father (set_inode s bef (record (s.inode bef) { bro = (s.inode del).bro })) in
    let behind : (s.inode del).bro ≡ (t.inode bef).bro = ground arith in
    record {
      chain =
          rw (==_refl del, without-contains del cs new)
            (IsChain-same s t (t.inode bef).bro cs (λ g at. ground (arith, apart, at))
              (subst (λ o. IsChain s o cs) behind h));
      frame = λ g off ne. ground (arith, ne);
      son = ground arith;
      count = ground arith;
    }

del_loop-Unlinked :
    (fuel father del bef : ℕ) (s : Store) (o : Option ℕ) (cs : List ℕ)
    → length cs ≤ fuel
    → IsChain s o cs
    → o ≡ (s.inode bef).bro
    → contains del cs ≡ true
    → IsDistinct (bef ∷ cs)
    → (t : Store) × (del_loop fuel father del bef o s ≡ ok t) × Unlinked s father del bef cs t
unfolding del_loop without
del_loop-Unlinked fuel father del bef s o [] le h e on apart = ground (arith, on)
del_loop-Unlinked zero father del bef s o (c ∷ cs) le h e on apart = absurd (omega (arith, le))
del_loop-Unlinked (suc fuel) father del bef s o (c ∷ cs) le h e on apart =
    elim (Bool-cases (c == del)) [
      | inl q ↦
          let p : c ≡ del = (==_iff c del).0 q in
          (
            count_out father (set_inode s bef (record (s.inode bef) { bro = (s.inode c).bro })),
            rw (h.0, del_loop, q) refl,
            rw (p) (
                unlink_here s father del bef cs (rw p at apart.0) (rw p at apart.1.0)
                  (rw p at h.1)),
          )
      | inr q ↦
          let (t, run, u) =
            del_loop-Unlinked fuel father del c s (s.inode c).bro cs (omega (arith, le)) h.1 refl
              (ground (arith, on, q)) apart.1 in
          (
            t,
            rw (h.0, del_loop, q) run,
            record {
              chain =
                  (let q' : (del == c) ≡ false = ground (arith, q) in
                    rw q' (
                      u.frame bef (ground (arith, apart.0)) (ground (arith, apart.0, ==_iff c bef))
                          ∙ (sym e ∙ h.0),
                      u.chain,
                    ));
              frame = λ g off ne. u.frame g (ground (arith, off)) (ground (arith, off, ==_refl g));
              son = u.son;
              count = u.count;
            },
          )
    ]

length-without_own :
    (c : ℕ) (cs : List ℕ)
    → IsDistinct cs
    → contains c cs ≡ true
    → length (without c cs) ≡ length cs - 1
unfolding without
length-without_own c [] apart on = refl
length-without_own c (d ∷ cs) apart on = elim (Bool-cases (c == d)) [
  | inl q ↦
      (let p : c ≡ d = (==_iff c d).0 q in
        rw (q, without-contains c cs (rw p apart.0)) (omega arith))
  | inr q ↦
      let rest = length-without_own c cs apart.1 (ground (arith, on, q)) in
      let some_left : 1 ≤ length cs = not_empty cs (ground (arith, on, q)) in
      rw q (omega (arith, rest, some_left))
]
  where
    not_empty : (cs : List ℕ) → contains c cs ≡ true → 1 ≤ length cs
    not_empty [] on = ground (arith, on)
    not_empty (d ∷ cs) on = omega arith

-- The count stays as much too high as it was.
counted_out :
    (c : ℕ) (cs : List ℕ) (stale : ℕ) {n m : ℕ}
    → IsDistinct cs
    → contains c cs ≡ true
    → n ≡ m - 1
    → m ≡ length cs + stale
    → n ≡ length (without c cs) + stale
counted_out c [] stale apart on e f = ground (arith, on)
counted_out c (d ∷ cs) stale apart on e f =
    omega (arith, length-without_own c (d ∷ cs) apart on, e, f)

-- The store once the first child of a directory is taken off.
abbrev without_first : ℕ → ℕ → Store → Store
without_first father c s =
    count_out father (set_inode s father (record (s.inode father) { son = (s.inode c).bro }))

first_run :
    (s : Store) (father del c : ℕ) (t : Store)
    → (s.inode father).son ≡ some c
    → (c == del) ≡ true
    → without_first father c s ≡ t
    → del_from_father father del s ≡ ok t
unfolding del_from_father
first_run s father del c t e q same = rw (del_from_father, e) (rw q (ap ok same))

without_first-bro :
    (s : Store) (father c g : ℕ) → ((without_first father c s).inode g).bro ≡ (s.inode g).bro
without_first-bro s father c g = ground arith

without_first_links :
    (s : Store) (father c : ℕ)
    → (((without_first father c s).inode father).son ≡ (s.inode c).bro)
      × (((without_first father c s).inode father).son_nums ≡ (s.inode father).son_nums - 1)
without_first_links s father c = ground arith

without_first-IsChain :
    (s t : Store) (father del c : ℕ) (cs : List ℕ)
    → IsChain s (s.inode c).bro cs
    → ((g : ℕ) → (t.inode g).bro ≡ (s.inode g).bro)
    → (t.inode father).son ≡ (s.inode c).bro
    → c ≡ del
    → contains c cs ≡ false
    → IsChain t (t.inode father).son (without del (c ∷ cs))
unfolding without
without_first-IsChain s t father del c cs h same son at_del new =
    let q : (del == c) ≡ true = ground (arith, at_del) in
    rw q (
      rw (without-contains del cs (rw at_del at new)) (
        IsChain-same s t (t.inode father).son cs (λ g _. same g)
          (subst (λ o. IsChain s o cs) (sym son) h)))

swapped : (a b : ℕ) → (a == b) ≡ false → (b == a) ≡ false
swapped a b h = ground arith

-- The child to be taken off is a later one.
later_child :
    (s t : Store) (father del c stale : ℕ) (cs : List ℕ)
    → IsFamily s father stale (c ∷ cs)
    → contains del (c ∷ cs) ≡ true
    → (c == del) ≡ false
    → del_loop s.next_inode father del c (s.inode c).bro s ≡ ok t
    → Unlinked s father del c cs t
    → (del_from_father father del s ≡ ok t) × IsFamily t father stale (without del (c ∷ cs))
unfolding del_from_father without
later_child s t father del c stale cs h on q run u =
    let q' : (del == c) ≡ false = swapped c del q in
    (
      rw (del_from_father, h.chain.0) (rw q run),
      record {
        chain = rw q' (u.son ∙ h.chain.0, u.chain);
        distinct = without-IsDistinct del (c ∷ cs) h.distinct;
        count = counted_out del (c ∷ cs) stale h.distinct on u.count h.count;
      },
    )

-- A child that is taken off the list leaves the other ones in their order and the count as much too
-- high as it was, and the loop ends if there are no more children than inodes.
pub del_from_father-IsFamily :
    (s : Store) (father del stale : ℕ) (cs : List ℕ)
    → IsFamily s father stale cs
    → contains del cs ≡ true
    → length cs ≤ s.next_inode
    → (t : Store) × (del_from_father father del s ≡ ok t) × IsFamily t father stale (without del cs)
unfolding del_from_father without
del_from_father-IsFamily s father del stale [] h on le = ground (arith, on)
del_from_father-IsFamily s father del stale (c ∷ cs) h on le = elim (Bool-cases (c == del)) [
  | inl q ↦
      let p : c ≡ del = (==_iff c del).0 q in
      let t = without_first father c s in
      let at = without_first_links s father c in
      (
        t,
        first_run s father del c t h.chain.0 q refl,
        record {
          chain =
              without_first-IsChain s t father del c cs h.chain.1 (without_first-bro s father c)
                at.0 p h.distinct.0;
          distinct = without-IsDistinct del (c ∷ cs) h.distinct;
          count = counted_out del (c ∷ cs) stale h.distinct on at.1 h.count;
        },
      )
  | inr q ↦
      let (t, run, u) =
        del_loop-Unlinked s.next_inode father del c s (s.inode c).bro cs (omega (arith, le))
          h.chain.1 refl (ground (arith, on, q)) h.distinct in
      let (go, family) = later_child s t father del c stale cs h on q run u in (t, go, family)
]
