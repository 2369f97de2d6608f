-- ===== src/Recovery/Begin.antt =====
-- The start of `fuse_recover`: which servers are paused, and what the copy finds and leaves.
use mathlib.Core.Option
use fuse_node.Prelude.{
  ℕ, ◌<◌, ◌≡◌, ◌≢◌, ◌⊎◌, refl, sym, ap, ◌∙◌, false, none, some, List, [], ◌==◌, get_elem?, arith,
  Option-cases, inl, inr, ==_iff, ==_refl,
}
use fuse_node.Config.{bank_size, bank_num}
use fuse_node.Dhmp.{Dhmp, Bytes}
use fuse_node.Remote.{connected, recovering, reconnect, RwTask, ServerNode, find_alive_server}
use fuse_node.Remote.ReadLoop.{find_alive_server-some}
use fuse_node.Recovery.{Course, modify, set_state, remalloc, copy_banks, start_recover}
use fuse_node.Recovery.Pool.{
  state_at, byte_at, tasks_at, InStep, modify-same, modify-other, modify-state_at, down-state_at,
}
use fuse_node.Recovery.Copy.{Copied, Done}
use fuse_node.Recovery.Paused.{Waiting}

module _ {M : Type 0} (net : Dhmp M) where
  -- The servers when the copy begins: `a` is paused and `re` waits; both and the connected ones are as
  -- they were but for the new memory of `re`.
  pub record Begun (a re : ℕ) (ns : List (ServerNode M)) (d : ℕ → Bytes) : Type 0 where
    pub step : InStep net ns d
    pub source : state_at ns a ≡ some recovering
    pub target : state_at ns re ≡ some reconnect
    pub source_bytes :
        (b j : ℕ) → b < bank_num → j < bank_size → byte_at net ns a b j ≡ some (d b j)
    pub tasks : tasks_at ns a ≡ some []
    pub apart : a ≢ re

  -- The copy keeps the connected servers alike.
  pub Copied-InStep :
      (a re n i : ℕ) (ns : List (ServerNode M)) (d : ℕ → Bytes)
      (r : Course × Bytes × List (ServerNode M))
      → Begun a re ns d
      → Copied net a re n i ns r
      → InStep net r.2 d
  Copied-InStep a re n i ns d r h c k b j in_disk in_bank on =
      let was = c.connected_before k on in
      c.others k b j (λ e. ground (arith, rw (← e) at was, h.target))
      ∙ h.step k b j in_disk in_bank was

  pub Done-Waiting :
      (a re : ℕ) (ns ms : List (ServerNode M)) (d : ℕ → Bytes)
      → Begun a re ns d
      → InStep net ms d
      → ((b j : ℕ) → byte_at net ms a b j ≡ byte_at net ns a b j)
      → Done net a re bank_num 0 ns ms
      → Waiting net a re ms d
  Done-Waiting a re ns ms d h step source c = record {
    tasks = [];
    at = c.tasks a ∙ h.tasks;
    whole = tt;
    behind = record {
      step = step;
      source = c.states a ∙ h.source;
      target = c.states re ∙ h.target;
      source_bytes = λ b j in_disk in_bank off. source b j ∙ h.source_bytes b j in_disk in_bank;
      target_bytes = λ b j in_disk in_bank off.
          c.copied b j (omega arith) (omega (arith, in_disk)) in_bank
          ∙ h.source_bytes b j in_disk in_bank;
    };
  }

  pub remalloc-server_state :
      (dhmp_free : ℕ → M → M) (dhmp_malloc : ℕ → ℕ → ℕ → M → M) (n : ServerNode M)
      → (remalloc dhmp_free dhmp_malloc n).server_state ≡ n.server_state
  unfolding remalloc
  remalloc-server_state dhmp_free dhmp_malloc n = refl

  module _ (dhmp_free : ℕ → M → M) (dhmp_malloc : ℕ → ℕ → ℕ → M → M) (re : ℕ) (r : ServerNode M)
      (ns : List (ServerNode M)) (d : ℕ → Bytes) (there : get_elem? ns re ≡ some r)
      (held : InStep net ns d)
      (no_tasks : (k : ℕ) (n : ServerNode M) → get_elem? ns k ≡ some n → n.rw_task_head ≡ []) where
    abbrev marked : List (ServerNode M)
    marked = modify ns re (set_state reconnect)

    abbrev fresh : List (ServerNode M)
    fresh = modify marked re (remalloc dhmp_free dhmp_malloc)

    abbrev paused : ℕ → List (ServerNode M)
    paused a = modify fresh a (set_state recovering)

    fresh-state_at : (k : ℕ) → state_at fresh k ≡ state_at marked k
    fresh-state_at k =
        modify-same (λ n. n.server_state) marked re k (remalloc dhmp_free dhmp_malloc)
          (remalloc-server_state dhmp_free dhmp_malloc)

    -- A server that is connected now was so before, and is not the one that comes back.
    fresh_connected :
        (k : ℕ) → state_at fresh k ≡ some connected → (state_at ns k ≡ some connected) × (re ≢ k)
    fresh_connected k on =
        down-state_at ns re k reconnect (λ z. ground (arith, z)) (sym (fresh-state_at k) ∙ on)

    fresh_other :
        {A : Type 0} (g : ServerNode M → A) (k : ℕ)
        → re ≢ k
        → Option.map g (get_elem? fresh k) ≡ Option.map g (get_elem? ns k)
    fresh_other g k off =
        modify-other g marked re k (remalloc dhmp_free dhmp_malloc) off
        ∙ modify-other g ns re k (set_state reconnect) off

    begun : (a : ℕ) → state_at fresh a ≡ some connected → Begun a re (paused a) d
    begun a on =
        let (was, off) = fresh_connected a on in
        record {
          step = λ k b j in_disk in_bank now.
              let (up, other) = down-state_at fresh a k recovering (λ z. ground (arith, z)) now in
              let (before, not_re) = fresh_connected k up in
              modify-other (λ n. net.bytes n.banks b j) fresh a k (set_state recovering) other
              ∙ fresh_other (λ n. net.bytes n.banks b j) k not_re
              ∙ held k b j in_disk in_bank before;
          source = modify-state_at fresh a a recovering ∙ (rw (==_refl a, on) refl);
          target =
              (let q : (a == re) ≡ false = ground (arith, off, ==_iff a re) in
                modify-state_at fresh a re recovering
                ∙ (rw (q, fresh-state_at re, modify-state_at ns re re reconnect, ==_refl re, there)
                    refl));
          source_bytes = λ b j in_disk in_bank.
              modify-same (λ n. net.bytes n.banks b j) fresh a a (set_state recovering) (λ n. refl)
              ∙ fresh_other (λ n. net.bytes n.banks b j) a off
              ∙ held a b j in_disk in_bank was;
          tasks =
              modify-same (λ n. n.rw_task_head) fresh a a (set_state recovering) (λ n. refl)
              ∙ fresh_other (λ n. n.rw_task_head) a off
              ∙ (elim (Option-cases (get_elem? ns a)) [
                | inl e ↦ (let z = rw (state_at, e) at was in ground (arith, z))
                | inr (n, e) ↦ rw (e, no_tasks a n e) refl
              ]);
          apart = λ e. off (sym e);
        }

    -- What the start of a recovery leaves, where all banks are copied.
    pub start_recover-Copied :
        (buf : Bytes) (journal : List RwTask)
        → ((a : ℕ) × (find_alive_server fresh ≡ some a)
            × Begun a re (paused a) d
            × (start_recover net dhmp_free dhmp_malloc buf (λ ns. ns) re bank_num journal marked
                ≡ some (a, copy_banks net a re bank_num 0 buf (paused a))))
          ⊎ (find_alive_server fresh ≡ none)
    unfolding start_recover
    start_recover-Copied buf journal = elim (Option-cases (find_alive_server fresh)) [
      | inl e ↦ inr e
      | inr (a, e) ↦
          let (n, at, on) = find_alive_server-some net fresh a e in
          inl (a, e, begun a (rw (state_at, at) (ap some on)), rw e refl)
    ]
