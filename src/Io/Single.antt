-- ===== src/Io/Single.antt =====
-- The lookup of one round of a write.
use fuse_node.Prelude.{ℕ, ◌≡◌, refl, false, some}
use fuse_node.Outcome.{ok, ◌>>=◌, of_option}
use fuse_node.Dhmp.{Dhmp}
use fuse_node.Inode.{Store}
use fuse_node.Index.{level3_local_index}
use fuse_node.Io.{write_context}

module _ {M : Type 0} (net : Dhmp M) (rand : ℕ → ℕ) (h : ℕ) where
  pub write_context_run :
      (offset c o : ℕ) (s s' : Store)
      → level3_local_index offset h false s ≡ some (some (c, o), s')
      → write_context net rand h offset s ≡ ok ((c, o), s')
  unfolding write_context
  write_context_run offset c o s s' run = rw (run, ◌>>=◌, of_option) refl
