-- ===== src/Recovery/Finish.antt =====
-- The end of `fuse_recover`: the replay's outcome and the servers that are connected again.
use mathlib.Core.Option
use fuse_node.Prelude.{
  ℕ, ◌<◌, ◌≡◌, ◌≢◌, refl, sym, ◌∙◌, false, Option, none, some, List, ◌==◌, get_elem?, arith,
  Bool-cases, Option-cases, inl, inr, ==_iff,
}
use fuse_node.Config.{bank_size, bank_num}
use fuse_node.Dhmp.{Dhmp, Bytes}
use fuse_node.Remote.{connected, RwTask, ServerNode}
use fuse_node.Recovery.{
  Recovery, Course, went, lost, modify, set_state, replay, free_tasks, reconnected, finish_recover,
}
use fuse_node.Recovery.Pool.{state_at, byte_at, tasks_at, InStep, modify-same, modify-state_at}
use fuse_node.Recovery.Replay.{Replayed, alone, broken, caught_up}

module _ {M : Type 0} (net : Dhmp M) where
  -- Both servers hold the bytes when they are connected again.
  pub reconnected-InStep :
      (a re : ℕ) (ns : List (ServerNode M)) (d : ℕ → Bytes)
      → InStep net ns d
      → ((b j : ℕ) → b < bank_num → j < bank_size → byte_at net ns a b j ≡ some (d b j))
      → ((b j : ℕ) → b < bank_num → j < bank_size → byte_at net ns re b j ≡ some (d b j))
      → InStep net (reconnected a re ns) d
  reconnected-InStep a re ns d step source target k b j in_disk in_bank on =
      let g : ServerNode M → ℕ = λ n. net.bytes n.banks b j in
      modify-same g (modify ns a (set_state connected)) re k (set_state connected) (λ n. refl)
      ∙ modify-same g ns a k (set_state connected) (λ n. refl)
      ∙ (elim (Bool-cases (re == k)) [
        | inl q ↦ rw (← (==_iff re k).0 q) (target b j in_disk in_bank)
        | inr q ↦ elim (Bool-cases (a == k)) [
          | inl p ↦ rw (← (==_iff a k).0 p) (source b j in_disk in_bank)
          | inr p ↦
              let f =
                rw (modify-state_at (modify ns a (set_state connected)) re k connected) at on in
              let f' = rw (q) at f in
              let f'' = rw (modify-state_at ns a k connected) at f' in
              step k b j in_disk in_bank (rw p at f'')
        ]
      ])

  -- The tasks that the end of a recovery replays.
  pub finish_recover_run :
      (a re : ℕ) (buf : Bytes) (s : Recovery M) (ts : List RwTask)
      → tasks_at s.servers a ≡ some ts
      → finish_recover net a re buf s
        ≡ Option.map
            (λ r. elim r.0 [
              | lost _ ↦ record s { servers = r.1; recovery_in_use = false }
              | went ↦ record s {
                servers = reconnected a re (modify r.1 a free_tasks);
                recovery_in_use = false;
              }
            ])
            (replay net a re ts buf s.servers)
  unfolding finish_recover
  finish_recover_run a re buf s ts at = elim (Option-cases (get_elem? s.servers a)) [
    | inl e ↦ (let z = rw (tasks_at, e) at at in ground (arith, z))
    | inr (n, e) ↦
        let z = rw (tasks_at, e) at at in
        let f : n.rw_task_head ≡ ts = ground (arith, z) in rw (e, f) refl
  ]

  -- How a recovery ends: with the connected servers alike, or in a fault without a third server.
  pub data Recovered (ns : List (ServerNode M)) (d : ℕ → Bytes) : Option (Recovery M) → Type 0 where
    recovered :
        (t : Recovery M)
        → InStep net t.servers d
        → t.recovery_in_use ≡ false
        → Recovered ns d (some t)
    stranded : ((k : ℕ) → state_at ns k ≢ some connected) → Recovered ns d none

  pub Replayed-Recovered :
      (a re : ℕ) (s : Recovery M) (d : ℕ → Bytes) {r : Option (Course × List (ServerNode M))}
      → Replayed net a re s.servers d r
      → Recovered s.servers d (
          Option.map
            (λ r. elim r.0 [
              | lost _ ↦ record s { servers = r.1; recovery_in_use = false }
              | went ↦ record s {
                servers = reconnected a re (modify r.1 a free_tasks);
                recovery_in_use = false;
              }
            ])
            r)
  unfolding free_tasks
  Replayed-Recovered a re s d (alone off) = stranded off
  Replayed-Recovered a re s d (broken x ms held) =
      recovered (record s { servers = ms; recovery_in_use = false }) held refl
  Replayed-Recovered a re s d (caught_up ms h) =
      let freed = modify ms a free_tasks in
      let same = λ (k : ℕ) (b : ℕ) (j : ℕ).
        modify-same (λ n. net.bytes n.banks b j) ms a k free_tasks (λ n. refl) in
      let states = λ (k : ℕ). modify-same (λ n. n.server_state) ms a k free_tasks (λ n. refl) in
      recovered (record s { servers = reconnected a re freed; recovery_in_use = false })
        (reconnected-InStep a re freed d
          (λ k b j in_disk in_bank on.
            same k b j ∙ h.step k b j in_disk in_bank (sym (states k) ∙ on))
          (λ b j in_disk in_bank. same a b j ∙ h.source_bytes b j in_disk in_bank refl)
          (λ b j in_disk in_bank. same re b j ∙ h.target_bytes b j in_disk in_bank refl))
        refl
