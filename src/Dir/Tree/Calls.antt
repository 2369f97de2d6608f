-- ===== src/Dir/Tree/Calls.antt =====
-- The callbacks of src/dhmp_fs_dir_ops.c that change the store, whatever they return.
use mathlib.Core.Path.{subst}
use fuse_node.Prelude.{
  ℕ, ◌≡◌, ◌⊎◌, inl, inr, refl, sym, ap, ◌∙◌, true, Option, none, some, length, ◌==◌, arith,
  Bool-cases, Option-cases, ℤ, negsuc,
}
use fuse_node.Outcome.{Run, ok, fault, more, ◌>>=◌, of_option}
use fuse_node.HashMap.Hash.{Name}
use fuse_node.HashMap.{default_get}
use fuse_node.Inode.{Store}
use fuse_node.Inode.Slab.{get_free_inode}
use fuse_node.Dir.Path.{deal, deal_fits}
use fuse_node.Dir.Walk.{search_d_hash, lookup_in}
use fuse_node.Dir.Create.{
  mknod_in, mkdir_in, dhmp_mknod, dhmp_create_directory, dhmp_fs_mknod, dhmp_fs_mkdir,
}
use fuse_node.Dir.Delete.{dhmp_del_from_inode, dhmp_delete, dhmp_fs_unlink}
use fuse_node.Dir.Rename.{dhmp_fs_rename}
use fuse_node.Dir.Tree.{Forest, nil, node}
use fuse_node.Dir.Tree.Edit.{Edit}
use fuse_node.Dir.Tree.System.{IsTree}
use fuse_node.Dir.Tree.Dropped.{drop_root}
use fuse_node.Dir.Tree.Reached.{
  Holds-Stands, lookup_in-flag, search_d_hash-inside, Edit-any, Edit-same,
}
use fuse_node.Dir.Tree.Creation.{dhmp_fs_mknod-IsTree, dhmp_fs_mkdir-IsTree}
use fuse_node.Dir.Tree.Deletion.{dhmp_fs_unlink-IsTree}
use fuse_node.Dir.Tree.Renaming.{dhmp_fs_rename-IsTree}

-- How a lookup ends, with the equation.
data Ending {A : Type 0} (r : Run (Option A)) : Type 0 where
  absent : r ≡ ok none → Ending r
  present : (a : A) → r ≡ ok (some a) → Ending r
  faulty : r ≡ fault → Ending r
  endless : r ≡ more → Ending r

ending : {A : Type 0} (r : Run (Option A)) → Ending r
ending (ok none) = absent refl
ending (ok (some a)) = present a refl
ending fault = faulty refl
ending more = endless refl

-- The store of a run that returned.
returned : {s t : Store} {a b : ℤ} {r : Run (ℤ × Store)} → r ≡ ok (a, s) → r ≡ ok (b, t) → s ≡ t
returned e k = ground (arith, sym e ∙ k)

-- The tree, whatever it is.
abbrev pub Planted : Store → Type 0
Planted s = (f : Forest) × IsTree s f

module _ (time : ℕ) (filename : Name) (h : ℕ) (s : Store) where
  mknod_in_taken :
      (n : ℕ) → lookup_in s filename h ≡ ok (some n) → mknod_in time filename h s ≡ ok (negsuc 0, s)
  unfolding mknod_in lookup_in
  mknod_in_taken n e = elim (Option-cases (s.inode h).d_hash) [
    | inl k ↦ absurd (ground (arith, k, e))
    | inr (m, k) ↦
        let got : default_get m filename ≡ some n = ground (arith, k, e) in
        rw (k, of_option, ◌>>=◌) (rw got refl)
  ]

  mknod_in_fault : lookup_in s filename h ≡ fault → mknod_in time filename h s ≡ fault
  unfolding mknod_in lookup_in
  mknod_in_fault e = elim (Option-cases (s.inode h).d_hash) [
    | inl k ↦ rw (k, of_option, ◌>>=◌) refl
    | inr (m, k) ↦ absurd (ground (arith, k, e))
  ]

  mkdir_in_taken :
      (n : ℕ) → lookup_in s filename h ≡ ok (some n) → mkdir_in time filename h s ≡ ok (negsuc 0, s)
  unfolding mkdir_in lookup_in
  mkdir_in_taken n e = elim (Option-cases (s.inode h).d_hash) [
    | inl k ↦ absurd (ground (arith, k, e))
    | inr (m, k) ↦
        let got : default_get m filename ≡ some n = ground (arith, k, e) in
        elim (Bool-cases (s.inode h).is_directories) [
          | inl d ↦ rw (d, k, of_option, ◌>>=◌) (rw got refl)
          | inr d ↦ rw d refl
        ]
  ]

  -- A file has no table, and is no directory either.
  mkdir_in_fault :
      lookup_in s filename h ≡ fault
      → (mkdir_in time filename h s ≡ ok (negsuc 0, s)) ⊎ (mkdir_in time filename h s ≡ fault)
  unfolding mkdir_in lookup_in
  mkdir_in_fault e = elim (Bool-cases (s.inode h).is_directories) [
    | inr d ↦ inl (rw d refl)
    | inl d ↦ inr (elim (Option-cases (s.inode h).d_hash) [
      | inl k ↦ rw (d, k, of_option, ◌>>=◌) refl
      | inr (m, k) ↦ absurd (ground (arith, k, e))
    ])
  ]

  delete_absent :
      lookup_in s filename h ≡ ok none
      → dhmp_del_from_inode time (some h) filename s ≡ ok (negsuc 0, s)
  unfolding dhmp_del_from_inode lookup_in
  delete_absent e = elim (Option-cases (s.inode h).d_hash) [
    | inl k ↦ absurd (ground (arith, k, e))
    | inr (m, k) ↦
        let got : default_get m filename ≡ none = ground (arith, k, e) in
        elim (Bool-cases (s.inode h).is_directories) [
          | inl d ↦ rw (d, k, of_option, ◌>>=◌) (rw got refl)
          | inr d ↦ rw d refl
        ]
  ]

  delete_fault :
      lookup_in s filename h ≡ fault
      → (dhmp_del_from_inode time (some h) filename s ≡ ok (negsuc 0, s))
        ⊎ (dhmp_del_from_inode time (some h) filename s ≡ fault)
  unfolding dhmp_del_from_inode lookup_in
  delete_fault e = elim (Bool-cases (s.inode h).is_directories) [
    | inr d ↦ inl (rw d refl)
    | inl d ↦ inr (elim (Option-cases (s.inode h).d_hash) [
      | inl k ↦ rw (d, k, of_option, ◌>>=◌) refl
      | inr (m, k) ↦ absurd (ground (arith, k, e))
    ])
  ]

  lookup_in_ends : lookup_in s filename h ≡ more → ⊥
  unfolding lookup_in
  lookup_in_ends e = elim (Option-cases (s.inode h).d_hash) [
    | inl k ↦ ground (arith, k, e)
    | inr (m, k) ↦ ground (arith, k, e)
  ]

module _ (time : ℕ) (path : Name) (s t : Store) (r : ℤ) (f : Forest) (w : IsTree s f) where
  stay : s ≡ t → Planted t
  stay e = subst Planted e (f, w)

  -- A directory that is found.
  flag_of :
      (h : ℕ) (o : Option ℕ)
      → search_d_hash s (deal path).0 ≡ ok (some h)
      → lookup_in s (deal path).1 h ≡ ok o
      → (s.inode h).is_directories ≡ true
  flag_of h o k u =
      lookup_in-flag s f h (deal path).1 o
        (Holds-Stands s f h w.holds (search_d_hash-inside s f (deal path).0 h w k)) u

  pub dhmp_fs_mknod-Planted : dhmp_fs_mknod time path s ≡ ok (r, t) → Planted t
  unfolding dhmp_fs_mknod dhmp_mknod
  dhmp_fs_mknod-Planted e = elim (Bool-cases (length path == 1)) [
    | inl short ↦ stay (ground (arith, rw short at e))
    | inr long ↦ elim (Bool-cases (deal_fits path)) [
      | inr over ↦ absurd (ground (arith, rw (long, over) at e))
      | inl fit ↦ elim (ending (search_d_hash s (deal path).0)) [
        | absent k ↦ absurd (ground (arith, rw (long, fit, k, ◌>>=◌) at e))
        | faulty k ↦ absurd (ground (arith, rw (long, fit, k, ◌>>=◌) at e))
        | endless k ↦ absurd (ground (arith, rw (long, fit, k, ◌>>=◌) at e))
        | present h k ↦
            let e' = rw (long, fit, k, ◌>>=◌) at e in
            elim (ending (lookup_in s (deal path).1 h)) [
              | absent u ↦
                  let (b, any) = Edit-any f h (search_d_hash-inside s f (deal path).0 h w k) in
                  let (f', ed) = any (node (get_free_inode time s).0 nil b) in
                  let (t', run, w', is_file, lookups, rest) =
                    dhmp_fs_mknod-IsTree time path s h b f f' w ed (flag_of h none k u) long fit k
                      u in
                  subst Planted (returned run e) (f', w')
              | present n u ↦
                  stay (ground (arith, rw (mknod_in_taken time (deal path).1 h s n u, ◌>>=◌) at e'))
              | faulty u ↦
                  absurd (ground (arith, rw (mknod_in_fault time (deal path).1 h s u, ◌>>=◌) at e'))
              | endless u ↦ absurd (lookup_in_ends time (deal path).1 h s u)
            ]
      ]
    ]
  ]

  pub dhmp_fs_mkdir-Planted : dhmp_fs_mkdir time path s ≡ ok (r, t) → Planted t
  unfolding dhmp_fs_mkdir dhmp_create_directory
  dhmp_fs_mkdir-Planted e = elim (Bool-cases (length path == 1)) [
    | inl short ↦ stay (ground (arith, rw short at e))
    | inr long ↦ elim (Bool-cases (deal_fits path)) [
      | inr over ↦ absurd (ground (arith, rw (long, over) at e))
      | inl fit ↦ elim (ending (search_d_hash s (deal path).0)) [
        | absent k ↦ stay (ground (arith, rw (long, fit, k, ◌>>=◌) at e))
        | faulty k ↦ absurd (ground (arith, rw (long, fit, k, ◌>>=◌) at e))
        | endless k ↦ absurd (ground (arith, rw (long, fit, k, ◌>>=◌) at e))
        | present h k ↦
            let e' = rw (long, fit, k, ◌>>=◌) at e in
            elim (ending (lookup_in s (deal path).1 h)) [
              | absent u ↦
                  let (b, any) = Edit-any f h (search_d_hash-inside s f (deal path).0 h w k) in
                  let (f', ed) = any (node (get_free_inode time s).0 nil b) in
                  let (t', run, w', is_dir, lookups, rest) =
                    dhmp_fs_mkdir-IsTree time path s h b f f' w ed (flag_of h none k u) long fit k
                      u in
                  subst Planted (returned run e) (f', w')
              | present n u ↦
                  stay (ground (arith, rw (mkdir_in_taken time (deal path).1 h s n u, ◌>>=◌) at e'))
              | faulty u ↦ elim (mkdir_in_fault time (deal path).1 h s u) [
                | inl q ↦ stay (ground (arith, rw (q, ◌>>=◌) at e'))
                | inr q ↦ absurd (ground (arith, rw (q, ◌>>=◌) at e'))
              ]
              | endless u ↦ absurd (lookup_in_ends time (deal path).1 h s u)
            ]
      ]
    ]
  ]

  pub dhmp_fs_unlink-Planted : dhmp_fs_unlink time path s ≡ ok (r, t) → Planted t
  unfolding dhmp_fs_unlink dhmp_delete
  dhmp_fs_unlink-Planted e = elim (Bool-cases (length path == 1)) [
    | inl short ↦ stay (ground (arith, rw short at e))
    | inr long ↦ elim (Bool-cases (deal_fits path)) [
      | inr over ↦ absurd (ground (arith, rw (long, over) at e))
      | inl fit ↦ elim (ending (search_d_hash s (deal path).0)) [
        | absent k ↦ stay (ground (arith, rw (long, fit, k, ◌>>=◌) at e))
        | faulty k ↦ absurd (ground (arith, rw (long, fit, k, ◌>>=◌) at e))
        | endless k ↦ absurd (ground (arith, rw (long, fit, k, ◌>>=◌) at e))
        | present h k ↦
            let e' = rw (long, fit, k, ◌>>=◌) at e in
            elim (ending (lookup_in s (deal path).1 h)) [
              | absent u ↦
                  stay (ground (arith, rw (delete_absent time (deal path).1 h s u, ◌>>=◌) at e'))
              | present c u ↦
                  let (b, any) = Edit-any f h (search_d_hash-inside s f (deal path).0 h w k) in
                  let (f', ed) = any (drop_root c b) in
                  let (t', run, w', lookups, rest, chunks) =
                    dhmp_fs_unlink-IsTree time path s h c b f f' w ed (flag_of h (some c) k u) long
                      fit k u in
                  subst Planted (returned run e) (f', w')
              | faulty u ↦ elim (delete_fault time (deal path).1 h s u) [
                | inl q ↦ stay (ground (arith, rw (q, ◌>>=◌) at e'))
                | inr q ↦ absurd (ground (arith, rw (q, ◌>>=◌) at e'))
              ]
              | endless u ↦ absurd (lookup_in_ends time (deal path).1 h s u)
            ]
      ]
    ]
  ]

-- A new name that the directory does not use yet.
abbrev pub IsUnused : Store → Name → Name → Type 0
IsUnused s source target =
    (h : ℕ)
    → search_d_hash s (deal source).0 ≡ ok (some h)
    → lookup_in s (deal target).1 h ≡ ok none

module _ (source target : Name) (s t : Store) (r : ℤ) (f : Forest) (w : IsTree s f) where
  pub dhmp_fs_rename-Planted :
      IsUnused s source target → dhmp_fs_rename source target s ≡ ok (r, t) → Planted t
  unfolding dhmp_fs_rename lookup_in
  dhmp_fs_rename-Planted free e = elim (Bool-cases (deal_fits source)) [
    | inr over ↦ absurd (ground (arith, rw over at e))
    | inl fit ↦ elim (ending (search_d_hash s (deal source).0)) [
      | absent k ↦ absurd (ground (arith, rw (fit, k, of_option, ◌>>=◌) at e))
      | faulty k ↦ absurd (ground (arith, rw (fit, k, of_option, ◌>>=◌) at e))
      | endless k ↦ absurd (ground (arith, rw (fit, k, of_option, ◌>>=◌) at e))
      | present h k ↦ elim (Option-cases (s.inode h).d_hash) [
        | inl n ↦ absurd (ground (arith, rw (fit, k, n, of_option, ◌>>=◌) at e))
        | inr (m, n) ↦
            let name = (deal source).1 in
            let e' = rw (fit, k, n, of_option, ◌>>=◌) at e in
            elim (Option-cases (default_get m name)) [
              | inl none_there ↦
                  let q : s ≡ t = ground (arith, rw none_there at e') in subst Planted q (f, w)
              | inr (c, there) ↦ elim (Bool-cases (deal_fits target)) [
                | inr over ↦ absurd (ground (arith, rw (there, over) at e'))
                | inl fit_target ↦
                    let named : lookup_in s name h ≡ ok (some c) =
                      rw (n, of_option, ◌>>=◌) (ap (λ x. ok x) there) in
                    let on = search_d_hash-inside s f (deal source).0 h w k in
                    let flag =
                      lookup_in-flag s f h name (some c) (Holds-Stands s f h w.holds on) named in
                    let (b, any) = Edit-any f h on in
                    let (f', ed) = any b in
                    let ed' : Edit h b b f f = subst (Edit h b b f) (Edit-same ed) ed in
                    let (t', run, w', new, old, others, elsewhere) =
                      dhmp_fs_rename-IsTree source target s h c b f w ed' flag k named (free h k)
                        fit fit_target in
                    subst Planted (returned run e) (f, w')
              ]
            ]
      ]
    ]
  ]
