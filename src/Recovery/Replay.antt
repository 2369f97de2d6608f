-- ===== src/Recovery/Replay.antt =====
-- The replay of missed writes in `fuse_recover`.
use fuse_node.Prelude.{
  ℕ, zero, suc, ◌<◌, ◌≡◌, ◌≢◌, refl, sym, ap, ◌∙◌, Bool, true, false, Option, none, some, List, [],
  ◌∷◌, ◌==◌, if◌then◌else◌, arith, Bool-cases, Option-cases, inl, inr, ==_iff,
}
use fuse_node.Config.{bank_size, bank_num}
use fuse_node.Dhmp.{Dhmp, Bytes}
use fuse_node.Remote.{
  connected, disconnect, recovering, reconnect, RwTask, ServerNode, find_alive_server,
}
use fuse_node.Remote.ReadLoop.{find_alive_server-some}
use fuse_node.Recovery.{Course, went, lost, modify, set_state, fetch, store, replay}
use fuse_node.Recovery.Pool.{
  state_at, byte_at, InStep, fetch-state_at, fetch-byte_at, fetch-buffer, store-state_at,
  store-other, store-byte_at,
}
use fuse_node.Recovery.Paused.{waits, AllWhole, Behind}
use fuse_node.Recovery.Shrunk.{
  Shrunk, Shrunk-InStep, Shrunk-trans, fetch-Shrunk, store-Shrunk, not_connected, lost-InStep,
}

module _ {M : Type 0} (net : Dhmp M) where
  -- How a replay ends: without a third server, with a server lost, or with all tasks done.
  pub data Replayed (a re : ℕ) (ns : List (ServerNode M)) (d : ℕ → Bytes)
      : Option (Course × List (ServerNode M)) → Type 0 where
    alone : ((k : ℕ) → state_at ns k ≢ some connected) → Replayed a re ns d none
    broken :
        (x : ℕ) (ms : List (ServerNode M))
        → InStep net ms d
        → Replayed a re ns d (some (lost x, ms))
    caught_up :
        (ms : List (ServerNode M)) → Behind net a re ms d [] → Replayed a re ns d (some (went, ms))

  pub find_alive_server-none :
      (ns : List (ServerNode M))
      → find_alive_server ns ≡ none
      → (k : ℕ) → state_at ns k ≢ some connected
  unfolding find_alive_server
  find_alive_server-none [] e k on = ground (arith, on)
  find_alive_server-none (n ∷ ns) e zero on = ground (arith, on, e)
  find_alive_server-none (n ∷ ns) e (suc k) on = find_alive_server-none ns (ground (arith, e)) k on

  -- The three calls for one task.
  module _ (a re l bank : ℕ) (buf : Bytes) (ns : List (ServerNode M)) where
    abbrev f : Bool × Bytes × List (ServerNode M)
    f = fetch net l bank buf ns

    abbrev v : Bool × List (ServerNode M)
    v = store net a bank f.1 bank_size 0 f.2

    abbrev w : Bool × List (ServerNode M)
    w = store net re bank f.1 bank_size 0 v.1

    states : (k : ℕ) → state_at w.1 k ≡ state_at ns k
    states k =
        store-state_at net re bank f.1 bank_size 0 v.1 k
        ∙ store-state_at net a bank f.1 bank_size 0 f.2 k
        ∙ fetch-state_at net l bank buf ns k

    read_Shrunk : Shrunk net ns f.2
    read_Shrunk = fetch-Shrunk net l bank buf ns

    source_Shrunk : state_at ns a ≢ some connected → Shrunk net ns v.1
    source_Shrunk off = Shrunk-trans net ns f.2 v.1 read_Shrunk (
        store-Shrunk net a bank f.1 bank_size 0 f.2
          (λ on. off (sym (fetch-state_at net l bank buf ns a) ∙ on)))

    target_Shrunk :
        state_at ns a ≢ some connected → state_at ns re ≢ some connected → Shrunk net ns w.1
    target_Shrunk off off' = Shrunk-trans net ns v.1 w.1 (source_Shrunk off) (
        store-Shrunk net re bank f.1 bank_size 0 v.1 (λ on. off' (
          sym
            (store-state_at net a bank f.1 bank_size 0 f.2 re ∙ fetch-state_at net l bank buf ns re)
          ∙ on)))

    replayed_bytes :
        (d : ℕ → Bytes) (b j : ℕ)
        → (b ≡ bank → byte_at net ns l bank j ≡ some (d bank j))
        → f.0 ≡ true
        → v.0 ≡ true
        → w.0 ≡ true
        → a ≢ re
        → j < bank_size
        → (byte_at net w.1 a b j ≡ (if b == bank then some (d bank j) else byte_at net ns a b j))
          × (byte_at net w.1 re b j
              ≡ (if b == bank then some (d bank j) else byte_at net ns re b j))
    replayed_bytes d b j held read_done source_done target_done ne lt =
        let source =
          store-other net re bank f.1 bank_size 0 v.1 a b j (λ e. ne (sym e))
          ∙ store-byte_at net a bank f.1 f.2 b j source_done lt in
        let target = store-byte_at net re bank f.1 v.1 b j target_done lt in
        elim (Bool-cases (b == bank)) [
          | inl q ↦
              let got =
                fetch-buffer net l bank buf ns j read_done lt ∙ held ((==_iff b bank).0 q) in
              (source ∙ (rw (q, got) refl), target ∙ (rw (q, got) refl))
          | inr q ↦ (
            source ∙ (rw (q, fetch-byte_at net l bank buf ns a b j) refl),
            target
                ∙ (rw
                    (
                      q,
                      store-other net a bank f.1 bank_size 0 f.2 re b j ne,
                      fetch-byte_at net l bank buf ns re b j,
                    )
                    refl),
          )
        ]

    task_byte :
        (d : ℕ → Bytes) (b j : ℕ) (ts : List RwTask) (t : RwTask) {x : Option ℕ}
        → t.bank_id ≡ bank
        → waits b ts ≡ false
        → (waits b (t ∷ ts) ≡ false → x ≡ some (d b j))
        → (if b == bank then some (d bank j) else x) ≡ some (d b j)
    task_byte d b j ts t at gone old = elim (Bool-cases (b == bank)) [
      | inl q ↦ rw (q, (==_iff b bank).0 q) refl
      | inr q ↦ rw q (old (ground (arith, at, gone, q)))
    ]

    task_done :
        (d : ℕ → Bytes) (t : RwTask) (ts : List RwTask)
        → t.bank_id ≡ bank
        → Behind net a re ns d (t ∷ ts)
        → ((j : ℕ) → bank < bank_num → j < bank_size → byte_at net ns l bank j ≡ some (d bank j))
        → f.0 ≡ true
        → v.0 ≡ true
        → w.0 ≡ true
        → a ≢ re
        → Behind net a re w.1 d ts
    task_done d t ts at h held read_done source_done target_done ne =
        let bytes = λ (b : ℕ) (j : ℕ) (in_disk : b < bank_num) (in_bank : j < bank_size).
          replayed_bytes d b j (λ e. held j (omega (arith, e, in_disk)) in_bank) read_done
            source_done target_done ne in_bank in
        record {
          step =
              Shrunk-InStep net ns w.1 d
                (target_Shrunk (not_connected net recovering (λ e. ground (arith, e)) ns a h.source)
                  (not_connected net reconnect (λ e. ground (arith, e)) ns re h.target))
                h.step;
          source = states a ∙ h.source;
          target = states re ∙ h.target;
          source_bytes = λ b j in_disk in_bank gone.
              (bytes b j in_disk in_bank).0
              ∙ task_byte d b j ts t at gone (h.source_bytes b j in_disk in_bank);
          target_bytes = λ b j in_disk in_bank gone.
              (bytes b j in_disk in_bank).1
              ∙ task_byte d b j ts t at gone (h.target_bytes b j in_disk in_bank);
        }

  -- The states of the servers are those of the start as long as no server is lost.
  Replayed-later :
      (a re : ℕ) (d : ℕ → Bytes) {ns ms : List (ServerNode M)}
      {r : Option (Course × List (ServerNode M))}
      → ((k : ℕ) → state_at ms k ≡ state_at ns k)
      → Replayed a re ms d r
      → Replayed a re ns d r
  Replayed-later a re d same (alone off) = alone (λ k on. off k (same k ∙ on))
  Replayed-later a re d same (broken x ms held) = broken x ms held
  Replayed-later a re d same (caught_up ms h) = caught_up ms h

  -- The replay of writes of whole banks, where the connected servers hold `d`: it faults where no server
  -- is connected, or loses a server and leaves the connected ones alike, or brings both servers to `d`.
  pub replay-Replayed :
      (a re : ℕ) (ts : List RwTask) (buf : Bytes) (ns : List (ServerNode M)) (d : ℕ → Bytes)
      → a ≢ re
      → AllWhole ts
      → Behind net a re ns d ts
      → Replayed a re ns d (replay net a re ts buf ns)
  unfolding replay
  replay-Replayed a re [] buf ns d ne all h = caught_up ns h
  replay-Replayed a re (t ∷ ts) buf ns d ne all h = elim (Option-cases (find_alive_server ns)) [
    | inl e ↦ rw (replay, e) (alone (find_alive_server-none ns e))
    | inr (l, e) ↦
        let bank = t.bank_id in
        let (n, at, on) = find_alive_server-some net ns l e in
        let live : state_at ns l ≡ some connected = rw at (ap some on) in
        let off = not_connected net recovering (λ z. ground (arith, z)) ns a h.source in
        let off' = not_connected net reconnect (λ z. ground (arith, z)) ns re h.target in
        rw (replay, e)
          (rw (all.0, all.1)
            (elim (Bool-cases (f a re l bank buf ns).0) [
              | inr q ↦ rw q (
                  broken l (modify (f a re l bank buf ns).2 l (set_state disconnect))
                    (lost-InStep net l d (read_Shrunk a re l bank buf ns) h.step))
              | inl q ↦ elim (Bool-cases (v a re l bank buf ns).0) [
                | inr q' ↦
                    rw (q, q')
                      (broken a (modify (v a re l bank buf ns).1 a (set_state disconnect))
                        (lost-InStep net a d (source_Shrunk a re l bank buf ns off) h.step))
                | inl q' ↦ elim (Bool-cases (w a re l bank buf ns).0) [
                  | inr q'' ↦
                      rw (q, q', q'')
                        (broken re (modify (w a re l bank buf ns).1 re (set_state disconnect))
                          (lost-InStep net re d (target_Shrunk a re l bank buf ns off off') h.step))
                  | inl q'' ↦
                      rw (q, q', q'')
                        (Replayed-later a re d (states a re l bank buf ns) (
                          replay-Replayed a re ts (f a re l bank buf ns).1 (w a re l bank buf ns).1
                            d ne all.2
                            (task_done a re l bank buf ns d t ts refl h
                              (λ j in_disk in_bank. h.step l bank j in_disk in_bank live) q q' q''
                              ne)))
                ]
              ]
            ]))
  ]
