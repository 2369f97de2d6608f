-- ===== src/Recovery/Copy.antt =====
-- The copy of all banks in `fuse_recover`.
use fuse_node.Prelude.{
  ℕ, zero, suc, ◌+◌, ◌≤◌, ◌<◌, ◌≡◌, ◌≢◌, refl, sym, ◌∙◌, true, false, some, List, ◌==◌,
  if◌then◌else◌, arith, Bool-cases, inl, inr, ==_iff,
}
use fuse_node.Config.{bank_size}
use fuse_node.Dhmp.{Dhmp, Bytes}
use fuse_node.Remote.{connected, disconnect, ServerNode}
use fuse_node.Recovery.{Course, went, lost, modify, set_state, fetch, store, copy_banks}
use fuse_node.Recovery.Pool.{
  state_at, tasks_at, byte_at, down-state_at, modify-same, fetch-state_at, fetch-tasks_at,
  fetch-byte_at, fetch-buffer, store-state_at, store-tasks_at, store-other, store-byte_at,
}

module _ {M : Type 0} (net : Dhmp M) (a re : ℕ) where
  -- A copy that went through: the banks `i` up to `i + n` of server `re` are those of server `a`.
  pub record Done (n i : ℕ) (ns ms : List (ServerNode M)) : Type 0 where
    pub states : (k : ℕ) → state_at ms k ≡ state_at ns k
    pub tasks : (k : ℕ) → tasks_at ms k ≡ tasks_at ns k
    pub copied :
        (b j : ℕ) → i ≤ b → b < i + n → j < bank_size → byte_at net ms re b j ≡ byte_at net ns a b j
    pub kept : (b j : ℕ) → b < i → j < bank_size → byte_at net ms re b j ≡ byte_at net ns re b j

  -- What a copy leaves behind, whether it went through or lost a server.
  pub record Copied (n i : ℕ) (ns : List (ServerNode M)) (r : Course × Bytes × List (ServerNode M))
      : Type 0 where
    pub connected_before :
        (k : ℕ) → state_at r.2 k ≡ some connected → state_at ns k ≡ some connected
    pub others : (k b j : ℕ) → re ≢ k → byte_at net r.2 k b j ≡ byte_at net ns k b j
    pub done : r.0 ≡ went → Done n i ns r.2

  -- The servers after one bank.
  abbrev after_bank : ℕ → Bytes → List (ServerNode M) → List (ServerNode M)
  after_bank i buf ns =
      (store net re i (fetch net a i buf ns).1 bank_size 0 (fetch net a i buf ns).2).1

  bank-state_at :
      (i : ℕ) (buf : Bytes) (ns : List (ServerNode M)) (k : ℕ)
      → state_at (after_bank i buf ns) k ≡ state_at ns k
  bank-state_at i buf ns k =
      store-state_at net re i (fetch net a i buf ns).1 bank_size 0 (fetch net a i buf ns).2 k
      ∙ fetch-state_at net a i buf ns k

  bank_other :
      (i : ℕ) (buf : Bytes) (ns : List (ServerNode M)) (k b j : ℕ)
      → re ≢ k
      → byte_at net (after_bank i buf ns) k b j ≡ byte_at net ns k b j
  bank_other i buf ns k b j off =
      store-other net re i (fetch net a i buf ns).1 bank_size 0 (fetch net a i buf ns).2 k b j off
      ∙ fetch-byte_at net a i buf ns k b j

  one_bank :
      (i : ℕ) (buf : Bytes) (ns : List (ServerNode M)) (b j : ℕ)
      → (fetch net a i buf ns).0 ≡ true
      → (store net re i (fetch net a i buf ns).1 bank_size 0 (fetch net a i buf ns).2).0 ≡ true
      → j < bank_size
      → byte_at net (after_bank i buf ns) re b j
        ≡ (if b == i then byte_at net ns a i j else byte_at net ns re b j)
  one_bank i buf ns b j read_done write_done lt =
      store-byte_at net re i (fetch net a i buf ns).1 (fetch net a i buf ns).2 b j write_done lt
      ∙ (rw (fetch-byte_at net a i buf ns re b j, fetch-buffer net a i buf ns j read_done lt) refl)

  read_lost :
      (n i : ℕ) (buf : Bytes) (ns : List (ServerNode M))
      → Copied n i ns (
        lost a,
        (fetch net a i buf ns).1,
        modify (fetch net a i buf ns).2 a (set_state disconnect),
      )
  read_lost n i buf ns = record {
    connected_before = λ k on.
        sym (fetch-state_at net a i buf ns k)
        ∙ (down-state_at (fetch net a i buf ns).2 a k disconnect (λ z. ground (arith, z)) on).0;
    others = λ k b j off.
        modify-same (λ n. net.bytes n.banks b j) (fetch net a i buf ns).2 a k (set_state disconnect)
          (λ n. refl)
        ∙ fetch-byte_at net a i buf ns k b j;
    done = λ e. ground (arith, e);
  }

  write_lost :
      (n i : ℕ) (buf : Bytes) (ns : List (ServerNode M))
      → Copied n i ns (
        lost re,
        (fetch net a i buf ns).1,
        modify (after_bank i buf ns) re (set_state disconnect),
      )
  write_lost n i buf ns = record {
    connected_before = λ k on.
        sym (bank-state_at i buf ns k)
        ∙ (down-state_at (after_bank i buf ns) re k disconnect (λ z. ground (arith, z)) on).0;
    others = λ k b j off.
        modify-same (λ n. net.bytes n.banks b j) (after_bank i buf ns) re k (set_state disconnect)
          (λ n. refl)
        ∙ bank_other i buf ns k b j off;
    done = λ e. ground (arith, e);
  }

  next_bank :
      (n i : ℕ) (buf : Bytes) (ns : List (ServerNode M))
      → a ≢ re
      → (fetch net a i buf ns).0 ≡ true
      → (store net re i (fetch net a i buf ns).1 bank_size 0 (fetch net a i buf ns).2).0 ≡ true
      → (r : Course × Bytes × List (ServerNode M)) → Copied n (i + 1) (after_bank i buf ns) r
      → Copied (suc n) i ns r
  next_bank n i buf ns ne e f r rest = record {
    connected_before = λ k on. sym (bank-state_at i buf ns k) ∙ rest.connected_before k on;
    others = λ k b j off. rest.others k b j off ∙ bank_other i buf ns k b j off;
    done = λ g.
        let d = rest.done g in
        record {
          states = λ k. d.states k ∙ bank-state_at i buf ns k;
          tasks = λ k.
              d.tasks k
              ∙ store-tasks_at net re i (fetch net a i buf ns).1 bank_size 0
                  (fetch net a i buf ns).2 k
              ∙ fetch-tasks_at net a i buf ns k;
          copied = λ b j le lt small. elim (Bool-cases (b == i)) [
            | inr q ↦
                d.copied b j (ground (arith, q, le)) (omega (arith, lt)) small
                ∙ bank_other i buf ns a b j (λ z. ne (sym z))
            | inl q ↦
                let p : b ≡ i = (==_iff b i).0 q in
                d.kept b j (omega (arith, p)) small
                ∙ one_bank i buf ns b j e f small
                ∙ (rw (q, p) refl)
          ];
          kept = λ b j lt small.
              let q : (b == i) ≡ false = ground (arith, lt) in
              d.kept b j (omega (arith, lt)) small ∙ one_bank i buf ns b j e f small ∙ (rw q refl);
        };
  }

  -- The copy of `n` banks puts those of server `a` into server `re`, unless one of the two is lost; it
  -- changes no byte of another server, and no server becomes connected by it.
  pub copy_banks-Copied :
      (n i : ℕ) (buf : Bytes) (ns : List (ServerNode M))
      → a ≢ re
      → Copied n i ns (copy_banks net a re n i buf ns)
  unfolding copy_banks
  copy_banks-Copied zero i buf ns ne = record {
    connected_before = λ k on. on;
    others = λ k b j off. refl;
    done = λ e. record {
      states = λ k. refl;
      tasks = λ k. refl;
      copied = λ b j le lt small. absurd (omega arith);
      kept = λ b j lt small. refl;
    };
  }
  copy_banks-Copied (suc n) i buf ns ne = elim (Bool-cases (fetch net a i buf ns).0) [
    | inr e ↦ rw e (read_lost (suc n) i buf ns)
    | inl e ↦
        let w = store net re i (fetch net a i buf ns).1 bank_size 0 (fetch net a i buf ns).2 in
        elim (Bool-cases w.0) [
          | inr f ↦ rw (e, f) (write_lost (suc n) i buf ns)
          | inl f ↦
              rw (e, f)
                (next_bank n i buf ns ne e f
                  (copy_banks net a re n (i + 1) (fetch net a i buf ns).1 (after_bank i buf ns))
                  (copy_banks-Copied n (i + 1) (fetch net a i buf ns).1 (after_bank i buf ns) ne))
        ]
  ]
