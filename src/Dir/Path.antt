-- ===== src/Dir/Path.antt =====
-- `deal` of src/dhmp_fs_dir_ops.c: a path split into its directory and its last name.
use fuse_node.Prelude.{
  ℕ, zero, suc, ◌+◌, Bool, true, false, ◌&&◌, not, [], ◌∷◌, take, length, leb, ltb, ◌==◌,
  if◌then◌else◌,
}
use fuse_node.Config.{file_name_len}
use fuse_node.HashMap.Hash.{Name}

-- `'/'`
abbrev pub slash : ℕ
slash = 47

abbrev pub is_empty : Name → Bool
is_empty [] = true
is_empty (c ∷ cs) = false

-- The first loop: the last `i` with `path[i] == '/' && path[i+1] != 0`, or the `j` at the start.
unfoldable pub last_slash : ℕ → ℕ → Name → ℕ
last_slash i j [] = j
last_slash i j (c ∷ cs) = last_slash (i + 1) (if (c == slash) && not (is_empty cs) then i else j) cs

abbrev pub drop : ℕ → Name → Name
drop zero cs = cs
drop (suc n) [] = []
drop (suc n) (c ∷ cs) = drop n cs

-- `if(filename[k-1] == '/') k--;`
unfoldable pub strip : Name → Name
strip [] = []
strip (c ∷ []) = if c == slash then [] else c ∷ []
strip (c ∷ d ∷ cs) = c ∷ strip (d ∷ cs)

-- Whether `deal` writes inside `dirname[FILE_NAME_LEN]`, into which it copies all of the path before
-- it cuts it, and inside `filename[FILE_NAME_LEN]`, into which it copies less.
abbrev pub deal_fits : Name → Bool
deal_fits path = leb (length path) file_name_len

-- Whether a name and the 0 at its end are inside `name[FILE_NAME_LEN]`.
abbrev pub name_fits : Name → Bool
name_fits name = ltb (length name) file_name_len

-- `deal(path, dirname, filename)`, for a path longer than one character that `deal_fits`: for a
-- longer one the callers fault.
unfoldable pub deal : Name → Name × Name
unfolding last_slash strip
deal path = let m = last_slash 0 0 path in (take (m + 1) path, strip (drop (m + 1) path))
