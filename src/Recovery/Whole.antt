-- ===== src/Recovery/Whole.antt =====
-- `fuse_recover` as a whole, where all banks are in use.
use fuse_node.Prelude.{
  ℕ, zero, suc, ◌≤◌, ◌≡◌, ◌≢◌, ◌⊎◌, refl, sym, ◌∙◌, true, false, Option, none, some, List, [], ◌∷◌,
  ◌==◌, get_elem?, arith, inl, inr,
}
use fuse_node.Config.{bank_size, bank_num}
use fuse_node.Dhmp.{Dhmp, Bytes}
use fuse_node.Remote.{
  connected, recovering, reconnect, ServerNode, find_alive_server, write_to_remote,
}
use fuse_node.Remote.Replicas.{written}
use fuse_node.Recovery.{
  Recovery, Course, went, lost, modify, set_state, alive_num, remalloc, copy_banks, finish_recover,
  start_recover, fuse_recover,
}
use fuse_node.Recovery.Pool.{state_at, InStep}
use fuse_node.Recovery.Copy.{Copied, copy_banks-Copied}
use fuse_node.Recovery.Paused.{write_banks, wrote, write_to_remote-InStep, write_banks-Waiting}
use fuse_node.Recovery.Replay.{replay-Replayed}
use fuse_node.Recovery.Begin.{
  Begun, Copied-InStep, Done-Waiting, remalloc-server_state, start_recover-Copied,
}
use fuse_node.Recovery.Finish.{
  Recovered, recovered, stranded, finish_recover_run, Replayed-Recovered,
}

module _ {M : Type 0} (net : Dhmp M) where
  write_banks-InStep :
      (ws : List (ℕ × Bytes)) (ns : List (ServerNode M)) (d : ℕ → Bytes)
      → InStep net ns d
      → InStep net (write_banks net ws ns) (wrote net ws d)
  write_banks-InStep [] ns d h = h
  write_banks-InStep (w ∷ ws) ns d h =
      write_banks-InStep ws (write_to_remote net w.0 w.1 bank_size 0 ns)
        (written net d w.0 w.1 bank_size 0) (write_to_remote-InStep net w.0 w.1 bank_size 0 ns d h)

  pub find_alive_server-alive_num :
      (ns : List (ServerNode M)) → find_alive_server ns ≡ none → alive_num ns ≡ 0
  unfolding find_alive_server
  find_alive_server-alive_num [] e = refl
  find_alive_server-alive_num (n ∷ ns) e = ground (arith, e, find_alive_server-alive_num ns)

  pub alive_num-modify :
      (ns : List (ServerNode M)) (i : ℕ) (f : ServerNode M → ServerNode M)
      → ((n : ServerNode M) → (f n).server_state ≡ n.server_state)
      → alive_num (modify ns i f) ≡ alive_num ns
  alive_num-modify [] i f same = refl
  alive_num-modify (n ∷ ns) zero f same = ground (arith, same n)
  alive_num-modify (n ∷ ns) (suc i) f same = ground (arith, alive_num-modify ns i f same)

  module _ (dhmp_free : ℕ → M → M) (dhmp_malloc : ℕ → ℕ → ℕ → M → M) (buf : Bytes)
      (ws : List (ℕ × Bytes)) (re : ℕ) (s : Recovery M) where
    abbrev marks : List (ServerNode M)
    marks = modify s.servers re (set_state reconnect)

    abbrev result : Option (Recovery M)
    result = fuse_recover net dhmp_free dhmp_malloc buf (λ ns. ns) (write_banks net ws) re s

    abbrev start : Option (ℕ × (Course × Bytes × List (ServerNode M)))
    start =
        start_recover net dhmp_free dhmp_malloc buf (λ ns. ns) re s.use_bank_len s.fuse_journal_list
          marks

    -- A recovery that goes on to the end, by the course of its copy.
    recover_lost :
        (a x : ℕ) (buf' : Bytes) (ms : List (ServerNode M))
        → s.recovery_in_use ≡ false
        → 2 ≤ alive_num marks
        → start ≡ some (a, (lost x, buf', ms))
        → result ≡ some (record s { servers = write_banks net ws ms; recovery_in_use = false })
    unfolding fuse_recover
    recover_lost a x buf' ms idle two e =
        let z : (alive_num marks == 0) ≡ false = ground (arith, two) in rw (idle, z, e) refl

    recover_went :
        (a : ℕ) (buf' : Bytes) (ms : List (ServerNode M))
        → s.recovery_in_use ≡ false
        → 2 ≤ alive_num marks
        → start ≡ some (a, (went, buf', ms))
        → result
          ≡ finish_recover net a re buf'
              (record s { servers = write_banks net ws ms; recovery_in_use = true })
    unfolding fuse_recover
    recover_went a buf' ms idle two e =
        let z : (alive_num marks == 0) ≡ false = ground (arith, two) in
        let o : (alive_num marks == 1) ≡ false = ground (arith, two) in rw (idle, z, e, o) refl

    -- How it ends with more than one server alive, for a copy that began and left `c`.
    abbrev pub EndsAlike : (ℕ → Bytes) → Type 0
    EndsAlike d =
        ((t : Recovery M) × (result ≡ some t)
          × InStep net t.servers (wrote net ws d)
          × (t.recovery_in_use ≡ false))
        ⊎ ((c : ℕ × (Course × Bytes × List (ServerNode M))) × (start ≡ some c)
            × (result ≡ none)
            × ((k : ℕ) → state_at (write_banks net ws c.1.2) k ≢ some connected))

    Recovered-EndsAlike :
        (d : ℕ → Bytes) (c : ℕ × (Course × Bytes × List (ServerNode M))) {o : Option (Recovery M)}
        → start ≡ some c
        → Recovered net (write_banks net ws c.1.2) (wrote net ws d) o
        → result ≡ o
        → EndsAlike d
    Recovered-EndsAlike d c e (recovered t held idle) run = inl (t, run, held, idle)
    Recovered-EndsAlike d c e (stranded off) run = inr (c, e, run, off)

    Copied-EndsAlike :
        (a : ℕ) (ns : List (ServerNode M)) (d : ℕ → Bytes)
        (c : Course × Bytes × List (ServerNode M))
        → s.recovery_in_use ≡ false
        → 2 ≤ alive_num marks
        → start ≡ some (a, c)
        → Begun net a re ns d
        → Copied net a re bank_num 0 ns c
        → EndsAlike d
    Copied-EndsAlike a ns d (lost x, buf', ms) idle two e h c = inl (
      record s { servers = write_banks net ws ms; recovery_in_use = false },
      recover_lost a x buf' ms idle two e,
      write_banks-InStep ws ms d (Copied-InStep net a re bank_num 0 ns d (lost x, buf', ms) h c),
      refl,
    )
    Copied-EndsAlike a ns d (went, buf', ms) idle two e h c =
        let step = Copied-InStep net a re bank_num 0 ns d (went, buf', ms) h c in
        let waiting = write_banks-Waiting net a re ws ms d (
          Done-Waiting net a re ns ms d h step (λ b j. c.others a b j (λ z. h.apart (sym z)))
            (c.done refl)) in
        let now : Recovery M = record s {
          servers = write_banks net ws ms;
          recovery_in_use = true;
        } in
        Recovered-EndsAlike d (a, (went, buf', ms)) e
          (Replayed-Recovered net a re now (wrote net ws d) (
            replay-Replayed net a re waiting.tasks buf' now.servers (wrote net ws d) h.apart
              waiting.whole waiting.behind))
          (recover_went a buf' ms idle two e
            ∙ finish_recover_run net a re buf' now waiting.tasks waiting.at)

  -- A recovery with all banks in use and more than one server alive, where the connected servers hold
  -- `d` and no server has a missed write waiting: whatever fails, the connected servers are alike
  -- afterwards, and hold `d` with the writes of whole banks that came in meanwhile. The only
  -- other end is a fault, where no connected server was left at the end of the copy.
  pub fuse_recover-InStep :
      (dhmp_free : ℕ → M → M) (dhmp_malloc : ℕ → ℕ → ℕ → M → M) (buf : Bytes)
      (ws : List (ℕ × Bytes)) (re : ℕ) (r : ServerNode M) (s : Recovery M) (d : ℕ → Bytes)
      → s.recovery_in_use ≡ false
      → s.use_bank_len ≡ bank_num
      → 2 ≤ alive_num (modify s.servers re (set_state reconnect))
      → get_elem? s.servers re ≡ some r
      → InStep net s.servers d
      → ((k : ℕ) (n : ServerNode M) → get_elem? s.servers k ≡ some n → n.rw_task_head ≡ [])
      → EndsAlike dhmp_free dhmp_malloc buf ws re s d
  fuse_recover-InStep dhmp_free dhmp_malloc buf ws re r s d idle all two there held no_tasks =
      elim (start_recover-Copied net dhmp_free dhmp_malloc re r s.servers d there held no_tasks buf
        s.fuse_journal_list) [
          | inl (a, _, begun_a, e) ↦
              let ns =
                modify
                  (modify (modify s.servers re (set_state reconnect)) re
                    (remalloc dhmp_free dhmp_malloc))
                  a (set_state recovering) in
              Copied-EndsAlike dhmp_free dhmp_malloc buf ws re s a ns d
                (copy_banks net a re bank_num 0 buf ns) idle two (rw all e) begun_a
                (copy_banks-Copied net a re bank_num 0 buf ns begun_a.apart)
          | inr e ↦
              let none_alive =
                find_alive_server-alive_num
                  (modify (modify s.servers re (set_state reconnect)) re
                    (remalloc dhmp_free dhmp_malloc))
                  e in
              let same =
                alive_num-modify (modify s.servers re (set_state reconnect)) re
                  (remalloc dhmp_free dhmp_malloc)
                  (remalloc-server_state net dhmp_free dhmp_malloc) in
              absurd (omega (arith, none_alive, same, two))
        ]
