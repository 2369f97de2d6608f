-- ===== src/Cache/Rewrite.antt =====
-- `rewrite_dirty_cache`: a pass of the write-back thread.
use fuse_node.Prelude.{
  ℕ, zero, suc, ◌+◌, ◌≤◌, ◌<◌, ◌≡◌, refl, sym, ap, ◌∙◌, Bool, false, ◌&&◌, not, ◌==◌, if◌then◌else◌,
  arith, Bool-cases, ==_iff, inl, inr,
}
use fuse_node.Config.{bank_size, cache_size}
use fuse_node.Dhmp.{Dhmp, Bytes}
use fuse_node.Inode.{update}
use fuse_node.Cache.{Disk, cache_key, write_back, rewrite_line, rewrite_lines, rewrite_dirty_cache}
use fuse_node.Cache.View.{
  view, IsCoherent, after_write_back, write_back-Synced, after_write_back_other,
  after_write_back_own,
}
use fuse_node.Cache.Expel.{SameView}

module _ {M : Type 0} (net : Dhmp M) where
  module _ (s : Disk M) (d : ℕ → Bytes) (k : ℕ) (ok : IsCoherent net s d)
      (lt : k < cache_size) where
    abbrev flushed : Disk M
    flushed = record s {
      line = update s.line k (record (s.line k) { dirty = false });
      servers = write_back net (s.line k) s.servers;
    }

    -- The servers after the write-back agree with the presented disk at every bank of a line.
    flushed_bytes :
        (j i : ℕ)
        → j < cache_size
        → i < bank_size
        → after_write_back net (s.line k) d (s.hash_bank_id j) i
          ≡ (if k == j then (s.line k).contents i else d (s.hash_bank_id j) i)
    flushed_bytes j i lt_j small = elim (Bool-cases (k == j)) [
      | inl e ↦
          let same : k ≡ j = (==_iff k j).0 e in
          rw (e, ← same, ok.hashed k lt)
            (after_write_back_own net (s.line k) d i small
              (λ c. ok.clean k i lt small c ∙ ap (λ b. d b i) (ok.hashed k lt)))
      | inr e ↦ rw e (
          after_write_back_other net (s.line k) d (s.hash_bank_id j) i
            (λ x. absurd (ground (arith, e, ok.home j lt_j, ok.home k lt, ok.hashed k lt, x))))
    ]

    flushed_contents : (j i : ℕ) → (flushed.line j).contents i ≡ (s.line j).contents i
    flushed_contents j i = elim (Bool-cases (k == j)) [
      | inl e ↦ rw e (ap (λ x. (s.line x).contents i) ((==_iff k j).0 e))
      | inr e ↦ rw e refl
    ]

    flushed-view :
        (b i : ℕ)
        → i < bank_size
        → view flushed (after_write_back net (s.line k) d) b i ≡ view s d b i
    flushed-view b i small = elim (Bool-cases (s.hash_bank_id (cache_key b) == b)) [
      | inl e ↦ rw e (flushed_contents (cache_key b) i)
      | inr e ↦ rw e (
          after_write_back_other net (s.line k) d b i
            (λ x. absurd (ground (arith, e, ok.home k lt, ok.hashed k lt, x))))
    ]

    flushed-SameView : SameView net s d flushed (after_write_back net (s.line k) d)
    flushed-SameView = record {
      coherent = record {
        hashed = λ j lt_j. ground (arith, ok.hashed j lt_j);
        home = ok.home;
        clean = λ j i lt_j small c. elim (Bool-cases (k == j)) [
          | inl e ↦ let fb = rw e at (flushed_bytes j i lt_j small) in rw e (sym fb)
          | inr e ↦
              let fb = rw e at (flushed_bytes j i lt_j small) in
              rw e (ok.clean j i lt_j small (rw e at c) ∙ sym fb)
        ];
        synced = write_back-Synced net (s.line k) s.servers d ok.synced;
      };
      same = flushed-view;
    }

  rewrite_line-SameView :
      (locked : Bool) (k : ℕ) (s : Disk M) (d : ℕ → Bytes)
      → IsCoherent net s d
      → k < cache_size
      → (d' : ℕ → Bytes) × SameView net s d (rewrite_line net locked k s) d'
  unfolding rewrite_line
  rewrite_line-SameView locked k s d ok lt = elim (Bool-cases ((s.line k).dirty && not locked)) [
    | inl e ↦ (after_write_back net (s.line k) d, rw e (flushed-SameView s d k ok lt))
    | inr e ↦ (d, rw e record { coherent = ok; same = λ b i small. refl })
  ]

  rewrite_lines-SameView :
      (locked : ℕ → Bool) (n k : ℕ) (s : Disk M) (d : ℕ → Bytes)
      → IsCoherent net s d
      → k + n ≤ cache_size
      → (d' : ℕ → Bytes) × SameView net s d (rewrite_lines net locked n k s) d'
  unfolding rewrite_lines
  rewrite_lines-SameView locked zero k s d ok le =
      (d, record { coherent = ok; same = λ b i small. refl })
  rewrite_lines-SameView locked (suc n) k s d ok le =
      let (d1, one) = rewrite_line-SameView (locked k) k s d ok (omega arith) in
      let (d2, rest) =
        rewrite_lines-SameView locked n (k + 1) (rewrite_line net (locked k) k s) d1 one.coherent
          (omega arith) in
      (
        d2,
        record {
          coherent = rest.coherent;
          same = λ b i small. rest.same b i small ∙ one.same b i small;
        },
      )

  -- A pass of the write-back thread over the cache, whichever lines are locked meanwhile, leaves the
  -- cache presenting the same disk.
  pub rewrite_dirty_cache-SameView :
      (locked : ℕ → Bool) (s : Disk M) (d : ℕ → Bytes)
      → IsCoherent net s d
      → (d' : ℕ → Bytes) × SameView net s d (rewrite_dirty_cache net locked s) d'
  unfolding rewrite_dirty_cache
  rewrite_dirty_cache-SameView locked s d ok =
      rewrite_lines-SameView locked cache_size 0 s d ok (omega arith)
