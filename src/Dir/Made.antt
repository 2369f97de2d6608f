-- ===== src/Dir/Made.antt =====
-- What `dhmpMknod` does to the directory it makes a file in.
use fuse_node.Prelude.{
  ℕ, ◌≡◌, ◌≢◌, refl, ap, ◌∙◌, false, none, some, pos, arith, List-cases, inl, inr, List, ◌∷◌, ◌==◌,
  Option, Bool-cases, ==_iff,
}
use fuse_node.Outcome.{ok, ◌>>=◌, of_option}
use fuse_node.HashMap.Hash.{Name, default_equal, default_equal_refl}
use fuse_node.HashMap.{HashMap, default_get, put}
use fuse_node.HashMap.Methods.{IsHashMap, put-Put, default_get-view}
use fuse_node.Inode.{Inode, Store, update, set_inode}
use fuse_node.Inode.Slab.{malloc_inode, get_free_inode}
use fuse_node.Dir.Walk.{lookup_in}
use fuse_node.Dir.Links.{add_to_father}
use fuse_node.Dir.Create.{put_entry, mknod_in}
use fuse_node.Dir.Children.{IsFamily, IsFamily-same, add_to_father-IsFamily}
use fuse_node.Index.Claim.{contains}

update_ne : {A : Type 0} (f : ℕ → A) (i j : ℕ) (v : A) → i ≢ j → update f i v j ≡ f j
update_ne f i j v ne = ground arith

update_self : {A : Type 0} (f : ℕ → A) (i : ℕ) (v : A) → update f i v i ≡ v
update_self f i v = ground arith

-- A new inode leaves every other one alone.
get_free_inode_other :
    (time : ℕ) (s : Store) (h : ℕ)
    → (get_free_inode time s).0 ≢ h
    → (get_free_inode time s).1.inode h ≡ s.inode h
unfolding get_free_inode malloc_inode
get_free_inode_other time s h ne = elim (List-cases s.free_inode_slab) [
  | inl e ↦ ground (arith, e)
  | inr (c, rest, e) ↦ ground (arith, e)
]

-- The list of children changes, the tables do not.
add_to_father-d_hash :
    (father now : ℕ) (s : Store) (h : ℕ)
    → ((add_to_father father now s).inode h).d_hash ≡ (s.inode h).d_hash
unfolding add_to_father
add_to_father-d_hash father now s h = ground arith

module _ (time : ℕ) (filename : Name) (father : ℕ) (m : HashMap ℕ) (s : Store) where
  abbrev now : ℕ
  now = (get_free_inode time s).0

  -- The store once the new inode has its name.
  abbrev named : Store
  named =
      let t = (get_free_inode time s).1 in
      set_inode t now (record (t.inode now) { filename = filename })

  abbrev entered : Store
  entered =
      set_inode named father
        (record (named.inode father) { d_hash = some (put m (named.inode now).filename now) })

  named_father : now ≢ father → named.inode father ≡ s.inode father
  named_father ne =
      update_ne (get_free_inode time s).1.inode now father _ ne
      ∙ get_free_inode_other time s father ne

  named_filename : (named.inode now).filename ≡ filename
  named_filename = ap (λ n. n.filename) (update_self (get_free_inode time s).1.inode now _)

  -- The parent's table after the call.
  entered-d_hash :
      ((add_to_father father now entered).inode father).d_hash ≡ some (put m filename now)
  entered-d_hash =
      add_to_father-d_hash father now entered father
      ∙ (ap (λ n. n.d_hash) (update_self named.inode father _)
          ∙ ap (λ f. some (put m f now)) named_filename)

  mknod_run :
      now ≢ father
      → (s.inode father).d_hash ≡ some m
      → default_get m filename ≡ none
      → mknod_in time filename father s ≡ ok (pos 1, add_to_father father now entered)
  unfolding mknod_in put_entry
  mknod_run ne e free =
      let e' : (named.inode father).d_hash ≡ some m = ap (λ n. n.d_hash) (named_father ne) ∙ e in
      rw (e, free, e', ◌>>=◌, of_option) refl

  -- If the name is free in the table of the parent and the new inode is not the parent, `dhmpMknod`
  -- returns 1, and then the name is looked up in the parent as the new inode and every other name as
  -- before.
  mknod_in-lookup_in :
      now ≢ father
      → IsHashMap m
      → (s.inode father).d_hash ≡ some m
      → default_get m filename ≡ none
      → (t : Store) × (mknod_in time filename father s ≡ ok (pos 1, t))
        × (lookup_in t filename father ≡ ok (some now))
        × ((g : Name)
            → default_equal filename g ≡ false
            → lookup_in t g father ≡ lookup_in s g father)
  unfolding lookup_in
  mknod_in-lookup_in ne good e free =
      let p = put-Put m filename now good in
      (
        add_to_father father now entered,
        mknod_run ne e free,
        rw
            (
              entered-d_hash,
              default_get-view (put m filename now) filename,
              p.reads filename,
              default_equal_refl filename,
            )
            refl,
        λ g other.
            rw
              (
                entered-d_hash,
                e,
                default_get-view (put m filename now) g,
                default_get-view m g,
                p.reads g,
                other,
              )
              refl,
      )

  entered_keeps :
      {A : Type 0} (f : Inode → A) (g : ℕ)
      → ((n : Inode) (h : Option (HashMap ℕ)) → f (record n { d_hash = h }) ≡ f n)
      → f (entered.inode g) ≡ f (named.inode g)
  entered_keeps f g same = elim (Bool-cases (father == g)) [
    | inl q ↦
        rw q (same (named.inode father) _ ∙ ap (λ h. f (named.inode h)) ((==_iff father g).0 q))
    | inr q ↦ rw q refl
  ]

  -- An inode of the store before the list of children changes, other than the new one.
  entered_links :
      (g : ℕ)
      → now ≢ g
      → ((entered.inode g).bro ≡ (s.inode g).bro)
        × ((entered.inode g).son ≡ (s.inode g).son)
        × ((entered.inode g).son_nums ≡ (s.inode g).son_nums)
  entered_links g ne =
      let old =
        update_ne (get_free_inode time s).1.inode now g _ ne ∙ get_free_inode_other time s g ne in
      (
        entered_keeps (λ n. n.bro) g (λ n h. refl) ∙ ap (λ n. n.bro) old,
        entered_keeps (λ n. n.son) g (λ n h. refl) ∙ ap (λ n. n.son) old,
        entered_keeps (λ n. n.son_nums) g (λ n h. refl) ∙ ap (λ n. n.son_nums) old,
      )

  -- If the name is free in the table of the parent, and the new inode is neither the parent nor one of
  -- its children, `dhmpMknod` puts the new inode before the other children of the parent.
  mknod_in-IsFamily :
      (stale : ℕ) (cs : List ℕ)
      → now ≢ father
      → contains now cs ≡ false
      → (s.inode father).d_hash ≡ some m
      → default_get m filename ≡ none
      → IsFamily s father stale cs
      → (t : Store) × (mknod_in time filename father s ≡ ok (pos 1, t))
        × IsFamily t father stale (now ∷ cs)
  mknod_in-IsFamily stale cs ne new e free family =
      let links = entered_links father ne in
      (
        add_to_father father now entered,
        mknod_run ne e free,
        add_to_father-IsFamily entered father now stale cs
            (IsFamily-same s entered father stale cs links.1 links.2
              (λ g at. (entered_links g (λ q. ground (arith, rw (← q) at at, new))).0) family)
            new,
      )
