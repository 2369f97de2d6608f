-- ===== src/Dir/Walk.antt =====
-- The walk along a path and the operations that only read: `search_d_hash`, `dhmpGetAttr`,
-- `dhmp_fs_getattr`, `dhmpReadDir` and `dhmp_fs_open` of src/dhmp_fs_dir_ops.c.
use fuse_node.Prelude.{
  ℕ, zero, suc, ◌+◌, ◌-◌, ◌%◌, ◌^◌, Bool, true, false, ◌||◌, Option, none, some, List, [], ◌∷◌,
  ◌++◌, length, ltb, ◌==◌, if◌then◌else◌, ℤ, pos,
}
use fuse_node.Outcome.{Run, ok, fault, more, ◌>>=◌, of_option}
use fuse_node.HashMap.Hash.{Name}
use fuse_node.HashMap.{default_get}
use fuse_node.Inode.{Store}
use fuse_node.Dir.Path.{slash, is_empty, name_fits}

-- The address of the root inode.
abbrev pub root : ℕ
root = 0

-- `now_node->d_hash->get(now_node->d_hash, name)`. An inode without a table is a fault.
unfoldable pub lookup_in : Store → Name → ℕ → Run (Option ℕ)
lookup_in s name now_node = of_option (s.inode now_node).d_hash >>= λ m. ok (default_get m name)

-- The lookup of a name collected in `name[FILE_NAME_LEN]`. A longer one is a fault.
unfoldable pub lookup_buffer : Store → Name → ℕ → Run (Option ℕ)
unfolding lookup_in
lookup_buffer s name now_node = if name_fits name then lookup_in s name now_node else fault

-- What follows a lookup, where NULL is the result.
abbrev pub or_null : (ℕ → Run (Option ℕ)) → Option ℕ → Run (Option ℕ)
or_null k none = ok none
or_null k (some n) = k n

-- The loop of `search_d_hash`: whether `i` is 0, the name collected so far and the inode reached.
unfoldable pub walk : Store → Bool → Name → ℕ → Name → Run (Option ℕ)
unfolding lookup_buffer
walk s at_start name now_node [] = ok (some now_node)
walk s at_start name now_node (c ∷ cs) =
    let rest = walk s false (name ++ c ∷ []) now_node cs in
    let past_root = walk s false [] now_node cs in
    let full_name = if c == slash then name else name ++ c ∷ [] in
    let below : ℕ → Run (Option ℕ) = λ n. walk s false [] n cs in
    elim ((c == slash) || is_empty cs) [
      | false ↦ rest
      | true ↦ elim at_start [
        | true ↦ past_root
        | false ↦ lookup_buffer s full_name now_node >>= or_null below
      ]
    ]

unfoldable pub search_d_hash : Store → Name → Run (Option ℕ)
unfolding walk
search_d_hash s path = if length path == 1 then ok (some root) else walk s true [] root path

-- `struct attr`.
pub record Attr : Type 0 where
  pub size : ℕ
  pub time_last_modified : ℕ
  pub is_directories : Bool

-- A `size_t` stored in the `int` field `size` and read as an `off_t`: 64 bits.
abbrev pub int_size : ℕ → ℕ
int_size n = let low = n % 2 ^ 32 in if ltb low (2 ^ 31) then low else 2 ^ 64 - 2 ^ 32 + low

-- `dhmpGetAttr`; `none` is -1.
unfoldable pub dhmp_get_attr : Store → Name → Run (Option Attr)
unfolding search_d_hash
dhmp_get_attr s path = search_d_hash s path >>= λ head. elim head [
  | none ↦ ok none
  | some h ↦
      let n = s.inode h in
      ok (
        some record {
          size = int_size n.size;
          time_last_modified = n.time_last_modified;
          is_directories = n.is_directories;
        })
]

-- What `dhmp_fs_getattr` puts into `st_mode` and `st_size`: a directory has size 0.
unfoldable pub fill_stat : Attr → Attr
fill_stat a = if a.is_directories then record a { size = 0 } else a

-- `dhmp_fs_getattr`; `none` is -2.
unfoldable pub dhmp_fs_getattr : Store → Name → Run (Option Attr)
unfolding dhmp_get_attr fill_stat
dhmp_fs_getattr s path =
    if length path == 1
    then ok (
        some (
          fill_stat record {
            size = 0;
            time_last_modified = (s.inode root).time_last_modified;
            is_directories = (s.inode root).is_directories;
          }))
    else dhmp_get_attr s path >>= λ r. elim r [ none ↦ ok none | some a ↦ ok (some (fill_stat a)) ]

-- `inode_list`
pub record Listed : Type 0 where
  pub filename : Name
  pub is_directories : Bool

-- `Li` goes behind the head of the list, or becomes the head.
abbrev pub insert_listed : List Listed → Listed → List Listed
insert_listed [] x = x ∷ []
insert_listed (head ∷ rest) x = head ∷ x ∷ rest

-- The loop of `dhmpReadDir` over the children, on fuel.
unfoldable pub list_sons : ℕ → Store → Option ℕ → List Listed → Run (List Listed)
list_sons fuel s none acc = ok acc
list_sons zero s (some h) acc = more
list_sons (suc fuel) s (some h) acc =
    let n = s.inode h in
    list_sons fuel s n.bro
      (insert_listed acc record { filename = n.filename; is_directories = n.is_directories })

-- `dhmpReadDir`. A file, a missing path and an empty directory all give NULL. The fuel is one round for
-- each inode.
unfoldable pub dhmp_read_dir : Store → Name → Run (List Listed)
unfolding search_d_hash list_sons
dhmp_read_dir s path =
    if length path == 1
    then list_sons s.next_inode s (s.inode root).son []
    else search_d_hash s path >>= λ father. elim father [
      | none ↦ ok []
      | some h ↦
          if (s.inode h).is_directories then list_sons s.next_inode s (s.inode h).son [] else ok []
    ]

-- The loop of `dhmp_fs_readdir`, which hands the entries to `filler` until it returns other than 0.
unfoldable pub fill : {B : Type 0} → (B → Listed → Bool × B) → List Listed → B → B
fill filler [] buf = buf
fill filler (tmp ∷ rest) buf =
    let r = filler buf tmp in let later = fill filler rest r.1 in if r.0 then r.1 else later

unfoldable pub dhmp_fs_readdir :
    {B : Type 0} → Store → Name → (B → Listed → Bool × B) → B → Run (ℤ × B)
unfolding dhmp_read_dir fill
dhmp_fs_readdir s path filler buf = dhmp_read_dir s path >>= λ tmp. ok (pos 0, fill filler tmp buf)

-- `dhmp_fs_open`, with the inode that it puts into `fi->fh`; `none` is -1.
unfoldable pub dhmp_fs_open : Store → Name → Run (Option ℕ)
unfolding search_d_hash
dhmp_fs_open s path = search_d_hash s path
