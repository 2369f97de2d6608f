-- ===== src/Recovery/Alone.antt =====
-- `fuse_recover` where one server is alive.
use fuse_node.Prelude.{
  ℕ, zero, suc, ◌≡◌, ◌≢◌, ◌⊎◌, refl, sym, ap, ◌∙◌, true, false, Option, some, List, [], ◌∷◌, ◌==◌,
  get_elem?, arith, inl, inr,
}
use fuse_node.Config.{bank_size, bank_num}
use fuse_node.Dhmp.{Dhmp, Bytes}
use fuse_node.Remote.{ServerState, connected, recovering, reconnect, ServerNode, write_to_remote}
use fuse_node.Remote.ReadLoop.{find_alive_server-some}
use fuse_node.Recovery.{
  Recovery, Course, went, lost, modify, set_state, alive_num, remalloc, copy_banks, reconnected,
  start_recover, fuse_recover,
}
use fuse_node.Recovery.Pool.{state_at, byte_at, InStep}
use fuse_node.Recovery.Copy.{Copied, copy_banks-Copied}
use fuse_node.Recovery.Paused.{write_banks, write_to_remote_paused, write_to_remote_connected}
use fuse_node.Recovery.Begin.{Begun, start_recover-Copied, remalloc-server_state}
use fuse_node.Recovery.Finish.{reconnected-InStep}
use fuse_node.Recovery.Whole.{find_alive_server-alive_num, alive_num-modify}

module _ {M : Type 0} (net : Dhmp M) where
  alive_num-down :
      (ns : List (ServerNode M)) (a : ℕ) (st : ServerState)
      → st ≢ connected
      → state_at ns a ≡ some connected
      → suc (alive_num (modify ns a (set_state st))) ≡ alive_num ns
  alive_num-down [] a st off on = ground (arith, on)
  alive_num-down (n ∷ ns) zero st off on = ground (arith, off, on)
  alive_num-down (n ∷ ns) (suc a) st off on = ground (arith, alive_num-down ns a st off on)

  alive_num-none :
      (ns : List (ServerNode M)) (k : ℕ) → alive_num ns ≡ 0 → state_at ns k ≢ some connected
  alive_num-none [] k e on = ground (arith, on)
  alive_num-none (n ∷ ns) zero e on = ground (arith, on, e)
  alive_num-none (n ∷ ns) (suc k) e on = alive_num-none ns k (ground (arith, e)) on

  write_banks_connected :
      (ws : List (ℕ × Bytes)) (ns : List (ServerNode M)) (k : ℕ)
      → state_at (write_banks net ws ns) k ≡ some connected
      → state_at ns k ≡ some connected
  write_banks_connected [] ns k on = on
  write_banks_connected (w ∷ ws) ns k on =
      write_to_remote_connected net w.0 w.1 bank_size 0 ns k
        (write_banks_connected ws (write_to_remote net w.0 w.1 bank_size 0 ns) k on)

  write_banks_paused :
      (ws : List (ℕ × Bytes)) (ns : List (ServerNode M)) (k b j : ℕ)
      → (state_at ns k ≡ some recovering) ⊎ (state_at ns k ≡ some reconnect)
      → byte_at net (write_banks net ws ns) k b j ≡ byte_at net ns k b j
  write_banks_paused [] ns k b j st = refl
  write_banks_paused (w ∷ ws) ns k b j st =
      let p = write_to_remote_paused net w.0 w.1 bank_size 0 ns k st in
      write_banks_paused ws (write_to_remote net w.0 w.1 bank_size 0 ns) k b j (rw (p.0) st)
      ∙ p.1 b j

  module _ (dhmp_free : ℕ → M → M) (dhmp_malloc : ℕ → ℕ → ℕ → M → M) (buf : Bytes)
      (ws : List (ℕ × Bytes)) (re : ℕ) (s : Recovery M) (d : ℕ → Bytes) where
    abbrev marked : List (ServerNode M)
    marked = modify s.servers re (set_state reconnect)

    abbrev result : Option (Recovery M)
    result = fuse_recover net dhmp_free dhmp_malloc buf (λ ns. ns) (write_banks net ws) re s

    -- How it ends: the connected servers hold `d`.
    abbrev pub EndsBefore : Type 0
    EndsBefore =
        (t : Recovery M) × (result ≡ some t) × InStep net t.servers d × (t.recovery_in_use ≡ false)

    single_end :
        (a : ℕ) (ns : List (ServerNode M)) (c : Course × Bytes × List (ServerNode M))
        → s.recovery_in_use ≡ false
        → alive_num marked ≡ 1
        → start_recover net dhmp_free dhmp_malloc buf
            (λ ns. ns)
            re
            s.use_bank_len
            s.fuse_journal_list
            marked
          ≡ some (a, c)
        → alive_num ns ≡ 0
        → Begun net a re ns d
        → Copied net a re bank_num 0 ns c
        → EndsBefore
    unfolding fuse_recover
    single_end a ns (lost x, buf', ms) idle one e off h c =
        let z : (alive_num marked == 0) ≡ false = ground (arith, one) in
        (
          record s { servers = write_banks net ws ms; recovery_in_use = false },
          rw (idle, z, e) refl,
          λ k b j in_disk in_bank on.
              absurd
                (alive_num-none ns k off (c.connected_before k (write_banks_connected ws ms k on))),
          refl,
        )
    single_end a ns (went, buf', ms) idle one e off h c =
        let z : (alive_num marked == 0) ≡ false = ground (arith, one) in
        let o : (alive_num marked == 1) ≡ true = ground (arith, one) in
        let c' = c.done refl in
        (
          record s { servers = reconnected a re (write_banks net ws ms); recovery_in_use = false },
          rw (idle, z, e, o) refl,
          reconnected-InStep net a re (write_banks net ws ms) d
              (λ k b j in_disk in_bank on.
                absurd (
                  alive_num-none ns k off
                    (c.connected_before k (write_banks_connected ws ms k on))))
              (λ b j in_disk in_bank.
                write_banks_paused ws ms a b j (inl (c'.states a ∙ h.source))
                ∙ c.others a b j (λ q. h.apart (sym q))
                ∙ h.source_bytes b j in_disk in_bank)
              (λ b j in_disk in_bank.
                write_banks_paused ws ms re b j (inr (c'.states re ∙ h.target))
                ∙ c'.copied b j (omega arith) (omega (arith, in_disk)) in_bank
                ∙ h.source_bytes b j in_disk in_bank),
          refl,
        )

  -- A recovery with all banks in use and one server alive, which holds `d`: afterwards the connected
  -- servers hold `d`, whatever writes of whole banks came in meanwhile. No server has those writes.
  pub fuse_recover_single :
      (dhmp_free : ℕ → M → M) (dhmp_malloc : ℕ → ℕ → ℕ → M → M) (buf : Bytes)
      (ws : List (ℕ × Bytes)) (re : ℕ) (r : ServerNode M) (s : Recovery M) (d : ℕ → Bytes)
      → s.recovery_in_use ≡ false
      → s.use_bank_len ≡ bank_num
      → alive_num (modify s.servers re (set_state reconnect)) ≡ 1
      → get_elem? s.servers re ≡ some r
      → InStep net s.servers d
      → ((k : ℕ) (n : ServerNode M) → get_elem? s.servers k ≡ some n → n.rw_task_head ≡ [])
      → EndsBefore dhmp_free dhmp_malloc buf ws re s d
  fuse_recover_single dhmp_free dhmp_malloc buf ws re r s d idle all one there held no_tasks =
      let fresh =
        modify (modify s.servers re (set_state reconnect)) re (remalloc dhmp_free dhmp_malloc) in
      let same =
        alive_num-modify net (modify s.servers re (set_state reconnect)) re
          (remalloc dhmp_free dhmp_malloc) (remalloc-server_state net dhmp_free dhmp_malloc) in
      elim (start_recover-Copied net dhmp_free dhmp_malloc re r s.servers d there held no_tasks buf
        s.fuse_journal_list) [
          | inl (a, found, begun_a, e) ↦
              let (n, at, on) = find_alive_server-some net fresh a found in
              let down =
                alive_num-down fresh a recovering (λ q. ground (arith, q))
                  (rw (state_at, at) (ap some on)) in
              let ns = modify fresh a (set_state recovering) in
              single_end dhmp_free dhmp_malloc buf ws re s d a ns
                (copy_banks net a re bank_num 0 buf ns) idle one (rw all e)
                (omega (arith, down, same, one)) begun_a
                (copy_banks-Copied net a re bank_num 0 buf ns begun_a.apart)
          | inr e ↦ absurd (omega (arith, find_alive_server-alive_num net fresh e, same, one))
        ]
