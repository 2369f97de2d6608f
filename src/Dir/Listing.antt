-- ===== src/Dir/Listing.antt =====
-- `dhmpReadDir` over the children of a directory.
use fuse_node.Prelude.{
  ap, pos, Bool, ℕ, zero, suc, ◌≤◌, ◌≡◌, refl, sym, ◌∙◌, true, false, Option, some, List, [], ◌∷◌,
  length, ◌==◌, arith, Bool, Bool-cases, inl, inr,
}
use fuse_node.Outcome.{ok, ◌>>=◌}
use fuse_node.HashMap.Hash.{Name}
use fuse_node.Inode.{Store}
use fuse_node.Dir.Walk.{
  root, walk, search_d_hash, Listed, list_sons, dhmp_read_dir, fill, dhmp_fs_readdir,
}
use fuse_node.Dir.Children.{IsChain, IsFamily}

-- What is listed of a child.
abbrev pub entry : Store → ℕ → Listed
entry s c = record { filename = (s.inode c).filename; is_directories = (s.inode c).is_directories }

-- The entries of some children, the last one first, before others.
abbrev pub onto : Store → List ℕ → List Listed → List Listed
onto s [] acc = acc
onto s (c ∷ cs) acc = onto s cs (entry s c ∷ acc)

-- The entries of a directory: its first child, then the other ones from the last on.
abbrev pub listing : Store → List ℕ → List Listed
listing s [] = []
listing s (c ∷ cs) = entry s c ∷ onto s cs []

list_more :
    (fuel : ℕ) (s : Store) (o : Option ℕ) (cs : List ℕ) (head : Listed) (rest : List Listed)
    → length cs ≤ fuel
    → IsChain s o cs
    → list_sons fuel s o (head ∷ rest) ≡ ok (head ∷ onto s cs rest)
unfolding list_sons
list_more fuel s o [] head rest le h = rw (h, list_sons) refl
list_more zero s o (c ∷ cs) head rest le h = absurd (omega (arith, le))
list_more (suc fuel) s o (c ∷ cs) head rest le h =
    rw (h.0, list_sons)
      (list_more fuel s (s.inode c).bro cs head (entry s c ∷ rest) (omega (arith, le)) h.1)

list_all :
    (fuel : ℕ) (s : Store) (o : Option ℕ) (cs : List ℕ)
    → length cs ≤ fuel
    → IsChain s o cs
    → list_sons fuel s o [] ≡ ok (listing s cs)
unfolding list_sons
list_all fuel s o [] le h = rw (h, list_sons) refl
list_all zero s o (c ∷ cs) le h = absurd (omega (arith, le))
list_all (suc fuel) s o (c ∷ cs) le h =
    rw (h.0, list_sons) (list_more fuel s (s.inode c).bro cs (entry s c) [] (omega (arith, le)) h.1)

search_root :
    (s : Store) (path : Name) → (length path == 1) ≡ true → search_d_hash s path ≡ ok (some root)
unfolding search_d_hash
search_root s path q = rw q refl

pub search_walk :
    (s : Store) (path : Name)
    → (length path == 1) ≡ false
    → search_d_hash s path ≡ walk s true [] root path
unfolding search_d_hash
search_walk s path q = rw q refl

-- What `dhmpReadDir` gives for a directory.
pub dhmp_read_dir-IsFamily :
    (s : Store) (path : Name) (h stale : ℕ) (cs : List ℕ)
    → search_d_hash s path ≡ ok (some h)
    → (s.inode h).is_directories ≡ true
    → IsFamily s h stale cs
    → length cs ≤ s.next_inode
    → dhmp_read_dir s path ≡ ok (listing s cs)
unfolding dhmp_read_dir
dhmp_read_dir-IsFamily s path h stale cs found directory family le =
    elim (Bool-cases (length path == 1)) [
      | inl q ↦
          let f = sym (search_root s path q) ∙ found in
          let at : root ≡ h = ground (arith, f) in
          rw q (rw at (list_all s.next_inode s (s.inode h).son cs le family.chain))
      | inr q ↦
          let f = sym (search_walk s path q) ∙ found in
          rw q (
            rw (f, ◌>>=◌)
              (rw directory (list_all s.next_inode s (s.inode h).son cs le family.chain)))
    ]

-- What a loop over the entries does with a function that is called once for each entry, in order, up
-- to the first call that returns other than 0.
pub data Handed {B : Type 0} (filler : B → Listed → Bool × B) : List Listed → B → B → Type 0 where
  no_more : (buf : B) → Handed filler [] buf buf
  stopped :
      (x : Listed) (xs : List Listed) (buf out : B)
      → filler buf x ≡ (true, out)
      → Handed filler (x ∷ xs) buf out
  handed :
      (x : Listed) (xs : List Listed) (buf between out : B)
      → filler buf x ≡ (false, between)
      → Handed filler xs between out
      → Handed filler (x ∷ xs) buf out

fill-Handed :
    {B : Type 0} (filler : B → Listed → Bool × B) (xs : List Listed) (buf : B)
    → Handed filler xs buf (fill filler xs buf)
unfolding fill
fill-Handed filler [] buf = no_more buf
fill-Handed filler (x ∷ xs) buf = elim (Bool-cases (filler buf x).0) [
  | inl e ↦ rw e (stopped x xs buf (filler buf x).1 (ap (λ b. (b, (filler buf x).1)) e))
  | inr e ↦ rw e (
      handed x xs buf (filler buf x).1 (fill filler xs (filler buf x).1)
        (ap (λ b. (b, (filler buf x).1)) e) (fill-Handed filler xs (filler buf x).1))
]

-- Reading a directory that a path leads to, if it has no more children than there are inodes, hands
-- each of its children to `filler` once, the first child and then the other ones from the last on,
-- up to the first call that returns other than 0, and returns 0.
pub dhmp_fs_readdir-IsFamily :
    {B : Type 0} (s : Store) (path : Name) (h stale : ℕ) (cs : List ℕ)
    (filler : B → Listed → Bool × B) (buf : B)
    → search_d_hash s path ≡ ok (some h)
    → (s.inode h).is_directories ≡ true
    → IsFamily s h stale cs
    → length cs ≤ s.next_inode
    → (out : B) × (dhmp_fs_readdir s path filler buf ≡ ok (pos 0, out))
      × Handed filler (listing s cs) buf out
unfolding dhmp_fs_readdir
dhmp_fs_readdir-IsFamily s path h stale cs filler buf found directory family le = (
  fill filler (listing s cs) buf,
  ap (λ r. r >>= λ tmp. ok (pos 0, fill filler tmp buf))
      (dhmp_read_dir-IsFamily s path h stale cs found directory family le),
  fill-Handed filler (listing s cs) buf,
)
