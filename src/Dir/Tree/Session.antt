-- ===== src/Dir/Tree/Session.antt =====
-- Any calls of the callbacks in src/dhmp_fs.c that change the store, in any order.
use mathlib.Core.Path.{subst}
use fuse_node.Prelude.{ℕ, ◌≡◌, sym, ℤ}
use fuse_node.Outcome.{Run, ok, Ends}
use fuse_node.Dhmp.{Dhmp, Bytes}
use fuse_node.HashMap.Hash.{Name}
use fuse_node.Inode.{Store}
use fuse_node.Inode.Slab.{init_store}
use fuse_node.Cache.{Disk}
use fuse_node.Io.{Fs, dhmp_fs_write, dhmp_fs_read}
use fuse_node.Io.Names.{dhmp_fs_write-SameNames}
use fuse_node.Io.Reading.{dhmp_fs_read-Ends}
use fuse_node.Dir.Walk.{root}
use fuse_node.Dir.Create.{dhmp_fs_mknod, dhmp_fs_mkdir}
use fuse_node.Dir.Delete.{dhmp_fs_unlink}
use fuse_node.Dir.Rename.{dhmp_fs_rename}
use fuse_node.Dir.Tree.{Forest, nil, node}
use fuse_node.Dir.Tree.System.{IsTree}
use fuse_node.Dir.Tree.Reached.{IsTree-same}
use fuse_node.Dir.Tree.Calls.{
  Planted, IsUnused, dhmp_fs_mknod-Planted, dhmp_fs_mkdir-Planted, dhmp_fs_unlink-Planted,
  dhmp_fs_rename-Planted,
}
use fuse_node.Dir.Tree.Start.{init_store-IsTree}

Ends-value : {A : Type 0} (P : A → Type 0) (r : Run A) {a : A} → Ends P r → r ≡ ok a → P a
Ends-value P r h e = subst (Ends P) e h

module _ {M : Type 0} (net : Dhmp M) where
  -- One call that returns, or a change of the cache and the servers, as the write-back thread and a
  -- recovery make it. A rename gives a name that the directory does not use yet.
  pub data Call (s : Fs M) : Fs M → Type 0 where
    mknod :
        (time : ℕ) (path : Name) (r : ℤ) (t : Store)
        → dhmp_fs_mknod time path s.store ≡ ok (r, t)
        → Call s (record s { store = t })
    mkdir :
        (time : ℕ) (path : Name) (r : ℤ) (t : Store)
        → dhmp_fs_mkdir time path s.store ≡ ok (r, t)
        → Call s (record s { store = t })
    unlink :
        (time : ℕ) (path : Name) (r : ℤ) (t : Store)
        → dhmp_fs_unlink time path s.store ≡ ok (r, t)
        → Call s (record s { store = t })
    rename :
        (source target : Name) (r : ℤ) (t : Store)
        → IsUnused s.store source target
        → dhmp_fs_rename source target s.store ≡ ok (r, t)
        → Call s (record s { store = t })
    write :
        (rand : ℕ → ℕ) (h : ℕ) (buf buf' : Bytes) (size offset : ℕ) (r : ℤ) (t : Fs M)
        → dhmp_fs_write net rand h buf size offset s ≡ ok (r, (buf', t))
        → Call s t
    read :
        (rand : ℕ → ℕ) (h : ℕ) (buf buf' : Bytes) (size offset : ℕ) (r : ℤ) (t : Fs M)
        → dhmp_fs_read net rand h buf size offset s ≡ ok (r, (buf', t))
        → Call s t
    behind : (d : Disk M) → Call s (record s { disk = d })

  pub data Calls (s : Fs M) : Fs M → Type 0 where
    first : Calls s s
    then_call : {t u : Fs M} → Calls s t → Call t u → Calls s u

  Call-Planted : {s t : Fs M} → Planted s.store → Call s t → Planted t.store
  Call-Planted (f, w) (mknod time path r t e) = dhmp_fs_mknod-Planted time path _ t r f w e
  Call-Planted (f, w) (mkdir time path r t e) = dhmp_fs_mkdir-Planted time path _ t r f w e
  Call-Planted (f, w) (unlink time path r t e) = dhmp_fs_unlink-Planted time path _ t r f w e
  Call-Planted (f, w) (rename source target r t free e) =
      dhmp_fs_rename-Planted source target _ t r f w free e
  Call-Planted {s = s} (f, w) (write rand h buf buf' size offset r t e) =
      let k = Ends-value _ _ (dhmp_fs_write-SameNames net rand h buf size offset s w.index) e in
      (f, IsTree-same s.store t.store f k.0 k.1 w)
  Call-Planted {s = s} (f, w) (read rand h buf buf' size offset r t e) =
      let k = Ends-value _ _ (dhmp_fs_read-Ends net rand h buf size offset s w.index) e in
      (f, subst (λ x. IsTree x f) (sym k.0) w)
  Call-Planted (f, w) (behind d) = (f, w)

  Calls-Planted : {s t : Fs M} → Planted s.store → Calls s t → Planted t.store
  Calls-Planted p first = p
  Calls-Planted p (then_call calls call) = Call-Planted (Calls-Planted p calls) call

  -- After any calls of the callbacks that returned, from the store that `dhmp_init` sets up, with
  -- whatever the write-back thread and recoveries do in between and with renames only to names that
  -- are not in use, the file index is consistent, the inodes in use are a tree below the root, every
  -- directory has the same children on its list and in its table, and all other inodes that were
  -- allocated are on the slab, as files without children and without a table.
  pub Calls-IsTree :
      (time : ℕ) (d : Disk M) (t : Fs M)
      → Calls (record { store = init_store time; disk = d }) t
      → (f : Forest) × IsTree t.store f
  Calls-IsTree time d t calls =
      Calls-Planted {s = record { store = init_store time; disk = d }}
        (node root nil nil, init_store-IsTree time) calls
