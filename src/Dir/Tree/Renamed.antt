-- ===== src/Dir/Tree/Renamed.antt =====
-- The store of `dhmp_fs_rename` of src/dhmp_fs_dir_ops.c, and the directory in it.
use mathlib.Core.Path.{subst}
use fuse_node.Prelude.{
  ℕ, ◌≡◌, ◌≢◌, inl, inr, refl, sym, ap, ◌∙◌, true, false, none, some, List, ◌==◌, if◌then◌else◌,
  arith, Bool-cases, ==_iff,
}
use fuse_node.HashMap.{HashMap, default_remove, put}
use fuse_node.HashMap.Hash.{Name, default_equal, default_equal_refl, default_equal_sound}
use fuse_node.HashMap.Table.{view}
use fuse_node.HashMap.Methods.{IsHashMap, put-Put, default_remove-Removed}
use fuse_node.Inode.{Store, set_inode}
use fuse_node.Index.Claim.{contains}
use fuse_node.Dir.Children.{IsFamily-same}
use fuse_node.Dir.Tree.{IsDir, SameOwn}
use fuse_node.Index.Same.{SameIndex}

module _ (s : Store) (h c : ℕ) (m : HashMap ℕ) (old new : Name) (ne : h ≢ c) where
  abbrev pub table : HashMap ℕ
  table = put (default_remove m old).1 new c

  -- The store after the call.
  abbrev pub renamed : Store
  renamed =
      let t = set_inode s h (record (s.inode h) { d_hash = some (default_remove m old).1 }) in
      let u = set_inode t c (record (t.inode c) { filename = new }) in
      set_inode u h (record (u.inode h) { d_hash = some table })

  pub at_father : renamed.inode h ≡ record (s.inode h) { d_hash = some table }
  at_father = ground (arith, ne)

  pub at_child : renamed.inode c ≡ record (s.inode c) { filename = new }
  at_child = ground (arith, ne)

  pub at_other : (g : ℕ) → h ≢ g → c ≢ g → renamed.inode g ≡ s.inode g
  at_other g a b = ground (arith, a, b)

  pub renamed-bro : (g : ℕ) → (renamed.inode g).bro ≡ (s.inode g).bro
  renamed-bro g = ground arith

  pub renamed-filename : (g : ℕ) → c ≢ g → (renamed.inode g).filename ≡ (s.inode g).filename
  renamed-filename g a = ground (arith, a)

  pub renamed-SameOwn : (g : ℕ) → h ≢ g → SameOwn s renamed g
  renamed-SameOwn g a = record {
    flag = ground (arith, a);
    d_hash = ground (arith, a);
    son = ground (arith, a);
    son_nums = ground (arith, a);
  }

  pub renamed-flag : (g : ℕ) → (renamed.inode g).is_directories ≡ (s.inode g).is_directories
  renamed-flag g = ground arith

  pub renamed-SameIndex : (g : ℕ) → SameIndex s renamed g
  renamed-SameIndex g = record {
    addr = ground arith;
    contexts = ground arith;
    in1addr = ground arith;
    in2addr = ground arith;
    in3addr = ground arith;
  }

  -- What the table reads after the old name is removed and the new one is put.
  pub table-view :
      IsHashMap m
      → IsHashMap table
        × ((q : Name)
            → view table q ≡ (
                if default_equal new q
                then some c
                else (if default_equal old q then none else view m q)))
  table-view good =
      let r = default_remove-Removed m old good in
      let p = put-Put (default_remove m old).1 new c r.good in
      (p.good, λ q. p.reads q ∙ (ground (arith, r.reads q)))

  differ :
      (p q : Name) (g : ℕ)
      → c ≢ g
      → view m p ≡ some c
      → view m q ≡ some g
      → default_equal p q ≡ false
  differ p q g a e k = elim (Bool-cases (default_equal p q)) [
    | inr off ↦ off
    | inl same ↦
        absurd (let j = default_equal_sound p q same in a (ground (arith, e, rw (← j) at k)))
  ]

  unused : (q : Name) (g : ℕ) → view m new ≡ none → view m q ≡ some g → default_equal new q ≡ false
  unused q g e k = elim (Bool-cases (default_equal new q)) [
    | inr off ↦ off
    | inl same ↦ absurd (let j = default_equal_sound new q same in ground (arith, e, rw (← j) at k))
  ]

  -- The children are the same, one of them under the new name.
  pub renamed-IsDir :
      (cs : List ℕ)
      → (s.inode h).d_hash ≡ some m
      → view m old ≡ some c
      → view m new ≡ none
      → IsDir s h cs
      → IsDir renamed h cs
  renamed-IsDir cs e there free d =
      let at : d.table ≡ m = ground (arith, e, d.d_hash) in
      let (good, reads) = table-view (rw (← at) d.good) in
      let named : (g : ℕ) → contains g cs ≡ true → view m (s.inode g).filename ≡ some g =
        λ g on. subst (λ x. view x (s.inode g).filename ≡ some g) at (d.named g on) in
      let listed : (q : Name) (g : ℕ)
          → view m q ≡ some g
          → (contains g cs ≡ true) × ((s.inode g).filename ≡ q) =
        λ q g k. d.listed q g (subst (λ x. view x q ≡ some g) (sym at) k) in
      let mine = listed old c there in
      let child : (renamed.inode c).filename ≡ new = ap (λ n. n.filename) at_child in
      record {
        stale = d.stale;
        table = table;
        flag = renamed-flag h ∙ d.flag;
        family =
            IsFamily-same s renamed h d.stale cs (ap (λ n. n.son) at_father)
              (ap (λ n. n.son_nums) at_father) (λ g _. renamed-bro g) d.family;
        d_hash = ap (λ n. n.d_hash) at_father;
        good = good;
        named = λ g on. elim (Bool-cases (c == g)) [
          | inl q ↦
              subst (λ x. view table (renamed.inode x).filename ≡ some x) ((==_iff c g).0 q)
                (rw child (reads new ∙ (rw (default_equal_refl new) refl)))
          | inr q ↦
              let a : c ≢ g = ground (arith, q) in
              let k = named g on in
              let name = (s.inode g).filename in
              rw (renamed-filename g a)
                (reads name ∙ (rw (unused name g free k, differ old name g a there k) k))
        ];
        listed = λ q g k. elim (Bool-cases (default_equal new q)) [
          | inl same ↦
              let found : c ≡ g = ground (arith, sym (reads q) ∙ k, same) in
              (
                subst (λ x. contains x cs ≡ true) found mine.0,
                subst (λ x. (renamed.inode x).filename ≡ q) found
                    (child ∙ default_equal_sound new q same),
              )
          | inr other ↦
              let k1 : (if default_equal old q then none else view m q) ≡ some g =
                ground (arith, sym (reads q) ∙ k, other) in
              let off : default_equal old q ≡ false = ground (arith, k1) in
              let (on, name) = listed q g (ground (arith, k1, off)) in
              let a : c ≢ g = λ j.
                let p : old ≡ q = sym mine.1 ∙ (ap (λ x. (s.inode x).filename) j ∙ name) in
                let same : default_equal old q ≡ true = rw p (default_equal_refl q) in
                ground (arith, off, same) in
              (on, renamed-filename g a ∙ name)
        ];
      }
