-- ===== src/Recovery/Shrunk.antt =====
-- Steps of a recovery that leave the connected servers as they are.
use fuse_node.Prelude.{ℕ, ◌≡◌, ◌≢◌, refl, sym, ◌∙◌, some, List, arith}
use fuse_node.Dhmp.{Dhmp, Bytes}
use fuse_node.Remote.{ServerState, connected, disconnect, ServerNode}
use fuse_node.Recovery.{modify, set_state, fetch, store}
use fuse_node.Recovery.Pool.{
  state_at, byte_at, InStep, down-state_at, modify-same, fetch-state_at, fetch-byte_at,
  store-state_at, store-other,
}

module _ {M : Type 0} (net : Dhmp M) where
  -- Servers of which none became connected, and whose connected ones kept their bytes.
  pub record Shrunk (ns ms : List (ServerNode M)) : Type 0 where
    pub still : (k : ℕ) → state_at ms k ≡ some connected → state_at ns k ≡ some connected
    pub same :
        (k b j : ℕ) → state_at ms k ≡ some connected → byte_at net ms k b j ≡ byte_at net ns k b j

  pub Shrunk-InStep :
      (ns ms : List (ServerNode M)) (d : ℕ → Bytes)
      → Shrunk ns ms
      → InStep net ns d
      → InStep net ms d
  Shrunk-InStep ns ms d s held k b j in_disk in_bank on =
      s.same k b j on ∙ held k b j in_disk in_bank (s.still k on)

  pub Shrunk-trans : (ns ms os : List (ServerNode M)) → Shrunk ns ms → Shrunk ms os → Shrunk ns os
  Shrunk-trans ns ms os s t = record {
    still = λ k on. s.still k (t.still k on);
    same = λ k b j on. t.same k b j on ∙ s.same k b j (t.still k on);
  }

  pub lost-Shrunk :
      (ns : List (ServerNode M)) (i : ℕ) → Shrunk ns (modify ns i (set_state disconnect))
  lost-Shrunk ns i = record {
    still = λ k on. (down-state_at ns i k disconnect (λ z. ground (arith, z)) on).0;
    same = λ k b j on.
        modify-same (λ n. net.bytes n.banks b j) ns i k (set_state disconnect) (λ n. refl);
  }

  pub fetch-Shrunk :
      (i bank : ℕ) (buf : Bytes) (ns : List (ServerNode M)) → Shrunk ns (fetch net i bank buf ns).2
  fetch-Shrunk i bank buf ns = record {
    still = λ k on. sym (fetch-state_at net i bank buf ns k) ∙ on;
    same = λ k b j on. fetch-byte_at net i bank buf ns k b j;
  }

  -- A write to a server that is not connected touches none that is.
  pub store-Shrunk :
      (i bank : ℕ) (buf : Bytes) (size offset : ℕ) (ns : List (ServerNode M))
      → state_at ns i ≢ some connected
      → Shrunk ns (store net i bank buf size offset ns).1
  store-Shrunk i bank buf size offset ns off = record {
    still = λ k on. sym (store-state_at net i bank buf size offset ns k) ∙ on;
    same = λ k b j on.
        store-other net i bank buf size offset ns k b j
          (λ e. off (rw e (sym (store-state_at net i bank buf size offset ns k) ∙ on)));
  }

  pub not_connected :
      (st : ServerState)
      → st ≢ connected
      → (ns : List (ServerNode M)) (k : ℕ) → state_at ns k ≡ some st
      → state_at ns k ≢ some connected
  not_connected st other ns k is on = other (ground (arith, is, on))

  pub lost-InStep :
      {ns ms : List (ServerNode M)} (i : ℕ) (d : ℕ → Bytes)
      → Shrunk ns ms
      → InStep net ns d
      → InStep net (modify ms i (set_state disconnect)) d
  lost-InStep {ns} {ms} i d s held =
      let os = modify ms i (set_state disconnect) in
      Shrunk-InStep ns os d (Shrunk-trans ns ms os s (lost-Shrunk ms i)) held
