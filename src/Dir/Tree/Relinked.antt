-- ===== src/Dir/Tree/Relinked.antt =====
-- What `del_from_father` of src/dhmp_fs_dir_ops.c leaves alone.
use fuse_node.Prelude.{
  ℕ, zero, suc, ◌≡◌, ◌≢◌, inl, inr, refl, true, false, Option, List, [], ◌∷◌, ◌==◌, arith,
  Bool-cases, ==_refl,
}
use mathlib.Core.Path.{subst}
use fuse_node.Outcome.{ok}
use fuse_node.Inode.{Store, set_inode}
use fuse_node.Index.Claim.{contains}
use fuse_node.Dir.Links.{count_out, del_loop, del_from_father}
use fuse_node.Dir.Children.{IsChain}
use fuse_node.Index.Same.{SameIndex}

-- Only the links of the children `cs` and the first child and the count of `h` may change.
pub record Relinked (s : Store) (h : ℕ) (cs : List ℕ) (t : Store) : Type 0 where
  pub chunks : t.chunks ≡ s.chunks
  pub which : t.which ≡ s.which
  pub slab : t.free_inode_slab ≡ s.free_inode_slab
  pub next : t.next_inode ≡ s.next_inode
  pub index : (g : ℕ) → SameIndex s t g
  pub flag : (g : ℕ) → (t.inode g).is_directories ≡ (s.inode g).is_directories
  pub d_hash : (g : ℕ) → (t.inode g).d_hash ≡ (s.inode g).d_hash
  pub filename : (g : ℕ) → (t.inode g).filename ≡ (s.inode g).filename
  pub son : (g : ℕ) → h ≢ g → (t.inode g).son ≡ (s.inode g).son
  pub son_nums : (g : ℕ) → h ≢ g → (t.inode g).son_nums ≡ (s.inode g).son_nums
  pub bro : (g : ℕ) → contains g cs ≡ false → (t.inode g).bro ≡ (s.inode g).bro

same-Relinked : (s : Store) (h : ℕ) (cs : List ℕ) → Relinked s h cs s
same-Relinked s h cs = record {
  chunks = refl;
  which = refl;
  slab = refl;
  next = refl;
  index =
      λ g. record { addr = refl; contexts = refl; in1addr = refl; in2addr = refl; in3addr = refl };
  flag = λ g. refl;
  d_hash = λ g. refl;
  filename = λ g. refl;
  son = λ g ne. refl;
  son_nums = λ g ne. refl;
  bro = λ g off. refl;
}

-- A child that is taken out behind the child `bef`.
behind-Relinked :
    (s : Store) (h bef : ℕ) (o : Option ℕ) (cs : List ℕ)
    → contains bef cs ≡ true
    → Relinked s h cs (count_out h (set_inode s bef (record (s.inode bef) { bro = o })))
behind-Relinked s h bef o cs on = record {
  chunks = refl;
  which = refl;
  slab = refl;
  next = refl;
  index = λ g. record {
    addr = ground arith;
    contexts = ground arith;
    in1addr = ground arith;
    in2addr = ground arith;
    in3addr = ground arith;
  };
  flag = λ g. ground arith;
  d_hash = λ g. ground arith;
  filename = λ g. ground arith;
  son = λ g ne. ground (arith, ne);
  son_nums = λ g ne. ground (arith, ne);
  bro = λ g off. ground (arith, on, off);
}

first-Relinked :
    (s : Store) (h : ℕ) (o : Option ℕ) (cs : List ℕ)
    → Relinked s h cs (count_out h (set_inode s h (record (s.inode h) { son = o })))
first-Relinked s h o cs = record {
  chunks = refl;
  which = refl;
  slab = refl;
  next = refl;
  index = λ g. record {
    addr = ground arith;
    contexts = ground arith;
    in1addr = ground arith;
    in2addr = ground arith;
    in3addr = ground arith;
  };
  flag = λ g. ground arith;
  d_hash = λ g. ground arith;
  filename = λ g. ground arith;
  son = λ g ne. ground (arith, ne);
  son_nums = λ g ne. ground (arith, ne);
  bro = λ g off. ground arith;
}

del_loop-Relinked :
    (fuel h del bef : ℕ) (s t : Store) (o : Option ℕ) (all cs : List ℕ)
    → IsChain s o cs
    → contains bef all ≡ true
    → ((g : ℕ) → contains g cs ≡ true → contains g all ≡ true)
    → del_loop fuel h del bef o s ≡ ok t
    → Relinked s h all t
unfolding del_loop
del_loop-Relinked fuel h del bef s t o all [] chain on sub run =
    let e : s ≡ t = ground (arith, rw (chain, del_loop) at run) in
    subst (Relinked s h all) e (same-Relinked s h all)
del_loop-Relinked zero h del bef s t o all (c ∷ cs) chain on sub run =
    absurd (ground (arith, rw (chain.0, del_loop) at run))
del_loop-Relinked (suc fuel) h del bef s t o all (c ∷ cs) chain on sub run =
    let run' = rw (chain.0, del_loop) at run in
    elim (Bool-cases (c == del)) [
      | inl q ↦
          let e : count_out h (set_inode s bef (record (s.inode bef) { bro = (s.inode c).bro }))
              ≡ t =
            ground (arith, rw q at run') in
          subst (Relinked s h all) e (behind-Relinked s h bef (s.inode c).bro all on)
      | inr q ↦
          del_loop-Relinked fuel h del c s t (s.inode c).bro all cs chain.1
            (sub c (ground (arith, ==_refl c))) (λ g there. sub g (ground (arith, there)))
            (rw q at run')
    ]

pub del_from_father-Relinked :
    (s t : Store) (h del : ℕ) (cs : List ℕ)
    → IsChain s (s.inode h).son cs
    → del_from_father h del s ≡ ok t
    → Relinked s h cs t
unfolding del_from_father
del_from_father-Relinked s t h del [] chain run =
    let e : s ≡ t = ground (arith, chain, run) in subst (Relinked s h []) e (same-Relinked s h [])
del_from_father-Relinked s t h del (c ∷ cs) chain run =
    let run' = rw (chain.0, del_from_father) at run in
    elim (Bool-cases (c == del)) [
      | inl q ↦
          let e : count_out h (set_inode s h (record (s.inode h) { son = (s.inode c).bro })) ≡ t =
            ground (arith, rw q at run') in
          subst (Relinked s h (c ∷ cs)) e (first-Relinked s h (s.inode c).bro (c ∷ cs))
      | inr q ↦
          del_loop-Relinked s.next_inode h del c s t (s.inode c).bro (c ∷ cs) cs chain.1
            (ground (arith, ==_refl c)) (λ g there. ground (arith, there)) (rw q at run')
    ]
