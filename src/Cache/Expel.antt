-- ===== src/Cache/Expel.antt =====
-- `expel_cache_rewrite` of src/dhmp_fs_io.c, over the disk that the cache presents.
use fuse_node.Prelude.{
  ℕ, ◌%◌, ◌<◌, ◌≡◌, ◌≢◌, ◌⊎◌, refl, sym, ap, ◌∙◌, Bool, true, false, none, some, List, length, ◌==◌,
  if◌then◌else◌, arith, Bool-cases, ==_iff, ==_refl, inl, inr,
}
use fuse_node.Config.{bank_size, cache_size}
use fuse_node.Dhmp.{Dhmp, Bytes}
use fuse_node.Remote.Replicas.{Synced}
use fuse_node.Remote.ReadLoop.{read_from_remote-Read}
use fuse_node.Remote.{ServerNode, disconnect, state_of, find_alive_server}
use fuse_node.Inode.{update}
use fuse_node.Cache.{CacheDram, Disk, cache_key, write_back, expel_cache_rewrite}
use fuse_node.Cache.View.{
  view, IsCoherent, after_write_back, write_back-Synced, after_write_back_other,
  after_write_back_own,
}

module _ {M : Type 0} (net : Dhmp M) where
  -- The state `t` presents the disk that `s` presents.
  pub record SameView (s : Disk M) (d : ℕ → Bytes) (t : Disk M) (d' : ℕ → Bytes) : Type 0 where
    pub coherent : IsCoherent net t d'
    pub same : (b i : ℕ) → i < bank_size → view t d' b i ≡ view s d b i

  module _ (s : Disk M) (d : ℕ → Bytes) (new : ℕ) (ok : IsCoherent net s d) where
    abbrev line_at : CacheDram
    line_at = s.line (cache_key new)

    -- The line that is expelled, its bytes replaced by those of the new bank.
    abbrev replaced : Bytes → List (ServerNode M) → Disk M
    replaced bytes ns = record {
      hash_bank_id = update s.hash_bank_id (cache_key line_at.bank_id) new;
      line =
          update s.line (cache_key new) (record { contents = bytes; bank_id = new; dirty = false });
      servers = ns;
    }

    key-lt : cache_key new < cache_size
    key-lt = omega arith

    own_hash : s.hash_bank_id (cache_key new) ≡ line_at.bank_id
    own_hash = ok.hashed (cache_key new) key-lt

    own_key : cache_key line_at.bank_id ≡ cache_key new
    own_key = ap cache_key (sym own_hash) ∙ ok.home (cache_key new) key-lt

    own_clean :
        (i : ℕ) → i < bank_size → line_at.dirty ≡ false → line_at.contents i ≡ d line_at.bank_id i
    own_clean i small e = ok.clean (cache_key new) i key-lt small e ∙ ap (λ b. d b i) own_hash

    -- Another line's bank is another bank.
    elsewhere : (b : ℕ) → cache_key b ≢ cache_key new → b ≢ line_at.bank_id
    elsewhere b ne e = ne (ap cache_key e ∙ own_key)

    module _ (bytes : Bytes) (ns : List (ServerNode M)) (ne : line_at.bank_id ≢ new) where
      replaced_clean :
          ((i : ℕ) → i < bank_size → bytes i ≡ after_write_back net line_at d new i)
          → (k i : ℕ) → k < cache_size
          → i < bank_size
          → ((replaced bytes ns).line k).dirty ≡ false
          → ((replaced bytes ns).line k).contents i
            ≡ after_write_back net line_at d ((replaced bytes ns).hash_bank_id k) i
      replaced_clean fetched k i lt small e = elim (Bool-cases (cache_key new == k)) [
        | inl t ↦ rw (own_key, t) (fetched i small)
        | inr t ↦
            let clean = rw t at e in
            let other = elsewhere (s.hash_bank_id k) (λ x. ground (arith, x, ok.home k lt)) in
            rw (own_key, t)
              (ok.clean k i lt small clean
                ∙ sym (after_write_back_other net line_at d (s.hash_bank_id k) i other))
      ]

      here :
          (x y : Bool) (b i : ℕ)
          → i < bank_size
          → ((i : ℕ) → i < bank_size → bytes i ≡ after_write_back net line_at d new i)
          → (new == b) ≡ x
          → (line_at.bank_id == b) ≡ y
          → (if x then bytes i else after_write_back net line_at d b i)
            ≡ (if y then line_at.contents i else d b i)
      here true true b i small fetched p q =
          absurd (ne ((==_iff _ _).0 q ∙ sym ((==_iff new b).0 p)))
      here true false b i small fetched p q =
          let e : new ≡ b = (==_iff new b).0 p in
          fetched i small
          ∙ after_write_back_other net line_at d new i (λ x. ne (sym x))
          ∙ ap (λ z. d z i) e
      here false true b i small fetched p q =
          let e : line_at.bank_id ≡ b = (==_iff line_at.bank_id b).0 q in
          rw (← e) (after_write_back_own net line_at d i small (own_clean i small))
      here false false b i small fetched p q =
          after_write_back_other net line_at d b i (λ x. ground arith)

      replaced_same :
          ((i : ℕ) → i < bank_size → bytes i ≡ after_write_back net line_at d new i)
          → (b i : ℕ) → i < bank_size
          → view (replaced bytes ns) (after_write_back net line_at d) b i ≡ view s d b i
      replaced_same fetched b i small = elim (Bool-cases (cache_key new == cache_key b)) [
        | inl t ↦
            let e : cache_key b ≡ cache_key new = ground (arith, t) in
            rw (own_key, e, ==_refl, own_hash)
              (here (new == b) (line_at.bank_id == b) b i small fetched refl refl)
        | inr t ↦
            let other = elsewhere b (λ x. ground (arith, x)) in
            rw (own_key, t)
              (ap
                (λ z.
                  if s.hash_bank_id (cache_key b) == b
                  then (s.line (cache_key b)).contents i
                  else z)
                (after_write_back_other net line_at d b i other))
      ]

      replaced-SameView :
          Synced net ns (after_write_back net line_at d)
          → ((i : ℕ) → i < bank_size → bytes i ≡ after_write_back net line_at d new i)
          → SameView s d (replaced bytes ns) (after_write_back net line_at d)
      replaced-SameView synced fetched = record {
        coherent = record {
          hashed = λ k lt. rw own_key (ground (arith, ok.hashed k lt));
          home = λ k lt. rw own_key (ground (arith, ok.home k lt));
          clean = replaced_clean fetched;
          synced = synced;
        };
        same = replaced_same fetched;
      }

  -- The server that `rand()` picks for the fetch of a bank, after the write-back of the line that is
  -- expelled, is not marked disconnected, and there is one.
  abbrev pub IsPicked : ℕ → ℕ → Disk M → Type 0
  IsPicked rand new s =
      let ns = write_back net (s.line (cache_key new)) s.servers in
      (0 < length ns) × (state_of ns (rand % length ns) ≢ disconnect)

  -- What bringing a bank in leaves behind: the same disk, with the bank cached, or no server.
  abbrev pub Brought : ℕ → Disk M → (ℕ → Bytes) → Disk M → Type 0
  Brought new s d t =
      ((d' : ℕ → Bytes) × SameView s d t d' × (t.hash_bank_id (cache_key new) ≡ new))
      ⊎ (find_alive_server t.servers ≡ none)

  -- From a coherent cache, expelling a line for another bank, if `rand()` picks no server that is
  -- marked disconnected, ends.
  -- It presents the same disk as before, byte for byte,
  -- with the new bank in the cache, unless no server is connected any more.
  pub expel_cache_rewrite-Brought :
      (rand new : ℕ) (s : Disk M) (d : ℕ → Bytes)
      → IsCoherent net s d
      → IsPicked rand new s
      → (t : Disk M) × (expel_cache_rewrite net rand new s ≡ some t) × Brought new s d t
  unfolding expel_cache_rewrite
  expel_cache_rewrite-Brought rand new s d ok picked =
      let l = s.line (cache_key new) in
      elim (Bool-cases (l.bank_id == new)) [
        | inl here ↦ (
          s,
          rw here refl,
          inl (
            d,
            record { coherent = ok; same = λ b i small. refl },
            ok.hashed (cache_key new) (key-lt s d new ok) ∙ (==_iff l.bank_id new).0 here,
          ),
        )
        | inr away ↦
            let synced = write_back-Synced net l s.servers d ok.synced in
            let (r, run, read) =
              read_from_remote-Read net (after_write_back net l d) new bank_size 0 l.contents rand
                (write_back net l s.servers) picked.0 synced picked.1 in
            (
              replaced s d new ok r.1 r.2,
              rw (away, run) refl,
              elim (Bool-cases r.0) [
                | inr bad ↦ inr (read.failed bad).1
                | inl done ↦ inl (
                  after_write_back net l d,
                  replaced-SameView s d new ok r.1 r.2 (λ e. ground arith) read.synced
                      (λ i small. read.filled done i ∙ (ground arith)),
                  rw (own_key s d new ok, ==_refl) refl,
                )
              ],
            )
      ]
