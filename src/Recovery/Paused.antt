-- ===== src/Recovery/Paused.antt =====
-- The servers while one of them is copied to another, and the writes of other threads meanwhile.
use mathlib.Core.Option
use fuse_node.Prelude.{
  ℕ, zero, suc, ◌<◌, ◌≡◌, ◌⊎◌, refl, ap, ◌∙◌, Bool, false, ◌||◌, some, List, [], ◌∷◌, ◌++◌, ◌==◌,
  get_elem?, arith, Option-cases, inl, inr,
}
use fuse_node.Config.{bank_size, bank_num}
use fuse_node.Dhmp.{Dhmp, Bytes}
use fuse_node.Remote.{
  connected, recovering, reconnect, RwTask, ServerNode, write_server, write_to_remote,
}
use fuse_node.Remote.Replicas.{written, write_server-written}
use fuse_node.Recovery.Pool.{state_at, tasks_at, byte_at, InStep}

-- Whether a task is on the list for a bank.
abbrev pub waits : ℕ → List RwTask → Bool
waits b [] = false
waits b (t ∷ ts) = (t.bank_id == b) || waits b ts

waits-append :
    (b : ℕ) (ts : List RwTask) (t : RwTask)
    → waits b (ts ++ t ∷ []) ≡ (waits b ts || (t.bank_id == b))
waits-append b [] t = ground arith
waits-append b (u ∷ ts) t = ground (arith, waits-append b ts t)

-- Tasks that write a whole bank.
abbrev pub AllWhole : List RwTask → Type 0
AllWhole [] = Unit
AllWhole (t ∷ ts) = (t.size ≡ bank_size) × (t.bank_offset ≡ 0) × AllWhole ts

AllWhole-append :
    (ts : List RwTask) (t : RwTask)
    → AllWhole ts
    → t.size ≡ bank_size
    → t.bank_offset ≡ 0
    → AllWhole (ts ++ t ∷ [])
AllWhole-append [] t all size offset = (size, offset, tt)
AllWhole-append (u ∷ ts) t all size offset = (all.0, all.1, AllWhole-append ts t all.2 size offset)

module _ {M : Type 0} (net : Dhmp M) where
  get_elem?-write_to_remote :
      (bank : ℕ) (buf : Bytes) (size offset : ℕ) (ns : List (ServerNode M)) (k : ℕ)
      → get_elem? (write_to_remote net bank buf size offset ns) k
        ≡ Option.map (λ n. (write_server net bank buf size offset n).0) (get_elem? ns k)
  unfolding write_to_remote
  get_elem?-write_to_remote bank buf size offset [] k = refl
  get_elem?-write_to_remote bank buf size offset (n ∷ ns) zero = refl
  get_elem?-write_to_remote bank buf size offset (n ∷ ns) (suc k) =
      get_elem?-write_to_remote bank buf size offset ns k

  -- A write reaches the servers that stay connected.
  pub write_to_remote-InStep :
      (bank : ℕ) (buf : Bytes) (size offset : ℕ) (ns : List (ServerNode M)) (d : ℕ → Bytes)
      → InStep net ns d
      → InStep net
          (write_to_remote net bank buf size offset ns)
          (written net d bank buf size offset)
  write_to_remote-InStep bank buf size offset ns d held k b j in_disk in_bank on =
      elim (Option-cases (get_elem? ns k)) [
        | inl e ↦
            let f = rw (state_at, get_elem?-write_to_remote bank buf size offset ns k, e) at on in
            ground (arith, f)
        | inr (n, e) ↦
            let f = rw (state_at, get_elem?-write_to_remote bank buf size offset ns k, e) at on in
            let old : n.server_state ≡ connected → net.bytes n.banks b j ≡ d b j = λ was.
              (let g = rw (state_at, byte_at, e) at (held k b j in_disk in_bank) in
                ground (arith, g, was)) in
            rw (byte_at, get_elem?-write_to_remote bank buf size offset ns k, e)
              (ap some
                (write_server-written net n d bank buf size offset b j old (ground (arith, f))))
      ]

  -- A write connects no server.
  pub write_to_remote_connected :
      (bank : ℕ) (buf : Bytes) (size offset : ℕ) (ns : List (ServerNode M)) (k : ℕ)
      → state_at (write_to_remote net bank buf size offset ns) k ≡ some connected
      → state_at ns k ≡ some connected
  unfolding write_server
  write_to_remote_connected bank buf size offset ns k on = elim (Option-cases (get_elem? ns k)) [
    | inl e ↦
        (let f = rw (state_at, get_elem?-write_to_remote bank buf size offset ns k, e) at on in
          ground (arith, f))
    | inr (n, e) ↦
        let f = rw (state_at, get_elem?-write_to_remote bank buf size offset ns k, e) at on in
        rw (state_at, e) (ground (arith, f))
  ]

  -- A write passes over a server that is to come back, and one that is copied gets a task.
  pub write_to_remote_paused :
      (bank : ℕ) (buf : Bytes) (size offset : ℕ) (ns : List (ServerNode M)) (k : ℕ)
      → (state_at ns k ≡ some recovering) ⊎ (state_at ns k ≡ some reconnect)
      → (state_at (write_to_remote net bank buf size offset ns) k ≡ state_at ns k)
        × ((b j : ℕ)
            → byte_at net (write_to_remote net bank buf size offset ns) k b j
              ≡ byte_at net ns k b j)
  unfolding write_server
  write_to_remote_paused bank buf size offset ns k st = elim (Option-cases (get_elem? ns k)) [
    | inl e ↦ (
      rw (state_at, get_elem?-write_to_remote bank buf size offset ns k, e) refl,
      λ b j. rw (byte_at, get_elem?-write_to_remote bank buf size offset ns k, e) refl,
    )
    | inr (n, e) ↦
        let f = rw (state_at, e) at st in
        (
          rw (state_at, get_elem?-write_to_remote bank buf size offset ns k, e) (ground (arith, f)),
          λ b j.
              rw (byte_at, get_elem?-write_to_remote bank buf size offset ns k, e)
                (ground (arith, f)),
        )
  ]

  write_to_remote-tasks_at :
      (bank : ℕ) (buf : Bytes) (size offset : ℕ) (ns : List (ServerNode M)) (k : ℕ)
      (ts : List RwTask)
      → state_at ns k ≡ some recovering
      → tasks_at ns k ≡ some ts
      → tasks_at (write_to_remote net bank buf size offset ns) k
        ≡ some (ts ++ record { bank_id = bank; size = size; bank_offset = offset } ∷ [])
  unfolding write_server
  write_to_remote-tasks_at bank buf size offset ns k ts st at =
      elim (Option-cases (get_elem? ns k)) [
        | inl e ↦ (let f = rw (tasks_at, e) at at in ground (arith, f))
        | inr (n, e) ↦
            let f = rw (state_at, e) at st in
            let g = rw (tasks_at, e) at at in
            let same : n.rw_task_head ≡ ts = ground (arith, g) in
            let on : n.server_state ≡ recovering = ground (arith, f) in
            rw (tasks_at, get_elem?-write_to_remote bank buf size offset ns k, e, on, same) refl
      ]

  -- Server `a` is copied to server `re`: both hold `d` but for the banks that tasks `ts` wait for, and
  -- the connected servers hold `d`.
  pub record Behind (a re : ℕ) (ns : List (ServerNode M)) (d : ℕ → Bytes) (ts : List RwTask)
      : Type 0 where
    pub step : InStep net ns d
    pub source : state_at ns a ≡ some recovering
    pub target : state_at ns re ≡ some reconnect
    pub source_bytes :
        (b j : ℕ)
        → b < bank_num
        → j < bank_size
        → waits b ts ≡ false
        → byte_at net ns a b j ≡ some (d b j)
    pub target_bytes :
        (b j : ℕ)
        → b < bank_num
        → j < bank_size
        → waits b ts ≡ false
        → byte_at net ns re b j ≡ some (d b j)

  -- Writes of whole banks, as the cache does them, and what they make of the bytes.
  abbrev pub write_banks : List (ℕ × Bytes) → List (ServerNode M) → List (ServerNode M)
  write_banks [] ns = ns
  write_banks (w ∷ ws) ns = write_banks ws (write_to_remote net w.0 w.1 bank_size 0 ns)

  abbrev pub wrote : List (ℕ × Bytes) → (ℕ → Bytes) → ℕ → Bytes
  wrote [] d = d
  wrote (w ∷ ws) d = wrote ws (written net d w.0 w.1 bank_size 0)

  written_other :
      (d : ℕ → Bytes) (bank : ℕ) (buf : Bytes) (b j : ℕ)
      → (b == bank) ≡ false
      → d b j ≡ written net d bank buf bank_size 0 b j
  written_other d bank buf b j off = rw off refl

  write_to_remote-Behind :
      (a re bank : ℕ) (buf : Bytes) (ns : List (ServerNode M)) (d : ℕ → Bytes) (ts : List RwTask)
      → Behind a re ns d ts
      → Behind a re
          (write_to_remote net bank buf bank_size 0 ns)
          (written net d bank buf bank_size 0)
          (ts ++ record { bank_id = bank; size = bank_size; bank_offset = 0 } ∷ [])
  write_to_remote-Behind a re bank buf ns d ts h =
      let p = write_to_remote_paused bank buf bank_size 0 ns a (inl h.source) in
      let q = write_to_remote_paused bank buf bank_size 0 ns re (inr h.target) in
      let t : RwTask = record { bank_id = bank; size = bank_size; bank_offset = 0 } in
      record {
        step = write_to_remote-InStep bank buf bank_size 0 ns d h.step;
        source = p.0 ∙ h.source;
        target = q.0 ∙ h.target;
        source_bytes = λ b j in_disk in_bank off.
            let w = rw (waits-append b ts t) at off in
            p.1 b j
            ∙ h.source_bytes b j in_disk in_bank (ground (arith, w))
            ∙ ap some (written_other d bank buf b j (ground (arith, w)));
        target_bytes = λ b j in_disk in_bank off.
            let w = rw (waits-append b ts t) at off in
            q.1 b j
            ∙ h.target_bytes b j in_disk in_bank (ground (arith, w))
            ∙ ap some (written_other d bank buf b j (ground (arith, w)));
      }

  -- What the writes of other threads leave of the two servers.
  pub record Waiting (a re : ℕ) (ns : List (ServerNode M)) (d : ℕ → Bytes) : Type 0 where
    pub tasks : List RwTask
    pub at : tasks_at ns a ≡ some tasks
    pub whole : AllWhole tasks
    pub behind : Behind a re ns d tasks

  pub write_banks-Waiting :
      (a re : ℕ) (ws : List (ℕ × Bytes)) (ns : List (ServerNode M)) (d : ℕ → Bytes)
      → Waiting a re ns d
      → Waiting a re (write_banks ws ns) (wrote ws d)
  write_banks-Waiting a re [] ns d h = h
  write_banks-Waiting a re (w ∷ ws) ns d h =
      let t : RwTask = record { bank_id = w.0; size = bank_size; bank_offset = 0 } in
      write_banks-Waiting a re ws (write_to_remote net w.0 w.1 bank_size 0 ns)
        (written net d w.0 w.1 bank_size 0)
        record {
          tasks = h.tasks ++ t ∷ [];
          at = write_to_remote-tasks_at w.0 w.1 bank_size 0 ns a h.tasks h.behind.source h.at;
          whole = AllWhole-append h.tasks t h.whole refl refl;
          behind = write_to_remote-Behind a re w.0 w.1 ns d h.tasks h.behind;
        }
