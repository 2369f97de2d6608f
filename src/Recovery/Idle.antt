-- ===== src/Recovery/Idle.antt =====
-- `fuse_recover` where no server is alive, and where no bank is on the journal.
use mathlib.Core.Option
use fuse_node.Prelude.{
  ℕ, zero, suc, ◌≤◌, ◌≡◌, ◌≢◌, refl, sym, ap, ◌∙◌, true, false, some, List, [], ◌∷◌, ◌==◌,
  get_elem?, arith, Bool-cases, Option-cases, inl, inr, ==_iff, ==_refl,
}
use fuse_node.Config.{bank_num}
use fuse_node.Dhmp.{Dhmp, Bytes}
use fuse_node.Remote.{ServerState, connected, recovering, reconnect, ServerNode, find_alive_server}
use fuse_node.Remote.ReadLoop.{find_alive_server-some}
use fuse_node.Recovery.{
  Recovery, went, modify, set_state, alive_num, free_tasks, remalloc, copy_journal, replay,
  reconnected, start_recover, fuse_recover,
}
use fuse_node.Recovery.Pool.{
  state_at, byte_at, tasks_at, modify-same, modify-state_at, get_elem?-modify,
}
use fuse_node.Recovery.Begin.{remalloc-server_state}
use fuse_node.Recovery.Finish.{finish_recover_run}
use fuse_node.Recovery.Whole.{find_alive_server-alive_num, alive_num-modify}

module _ {M : Type 0} (net : Dhmp M) where
  -- A recovery that starts when no server is alive, when no other one goes on, does nothing but to mark the server, and no later
  -- recovery, of any server, does anything.
  pub fuse_recover_stuck :
      (dhmp_free : ℕ → M → M) (dhmp_malloc : ℕ → ℕ → ℕ → M → M) (buf : Bytes)
      (early writes : List (ServerNode M) → List (ServerNode M)) (re : ℕ) (s : Recovery M)
      → s.recovery_in_use ≡ false
      → alive_num (modify s.servers re (set_state reconnect)) ≡ 0
      → (t : Recovery M) × (fuse_recover net dhmp_free dhmp_malloc buf early writes re s ≡ some t)
        × (t.servers ≡ modify s.servers re (set_state reconnect))
        × ((later : List (ServerNode M)) (buf' : Bytes)
              (early' writes' : List (ServerNode M) → List (ServerNode M)) (re' : ℕ)
            → fuse_recover net dhmp_free dhmp_malloc buf' early' writes' re'
                (record t { servers = later })
              ≡ some (record t { servers = later }))
  unfolding fuse_recover
  fuse_recover_stuck dhmp_free dhmp_malloc buf early writes re s idle off =
      let z : (alive_num (modify s.servers re (set_state reconnect)) == 0) ≡ true =
        ground (arith, off) in
      (
        record s { servers = modify s.servers re (set_state reconnect); recovery_in_use = true },
        rw (idle, z) refl,
        refl,
        λ later buf' early' writes' re'. refl,
      )

  module _ (dhmp_free : ℕ → M → M) (dhmp_malloc : ℕ → ℕ → ℕ → M → M) (re : ℕ) (r : ServerNode M)
      (ns : List (ServerNode M)) (there : get_elem? ns re ≡ some r) where
    abbrev fresh : List (ServerNode M)
    fresh = modify (modify ns re (set_state reconnect)) re (remalloc dhmp_free dhmp_malloc)

    fresh-byte_at :
        (b j : ℕ)
        → byte_at net fresh re b j ≡ some (net.bytes (remalloc dhmp_free dhmp_malloc r).banks b j)
    unfolding remalloc
    fresh-byte_at b j =
        rw
          (
            byte_at,
            get_elem?-modify (modify ns re (set_state reconnect)) re re
                (remalloc dhmp_free dhmp_malloc),
            get_elem?-modify ns re re (set_state reconnect),
          )
          (rw (==_refl re, there) refl)

  -- A server that is there gets the state that it is given.
  there-state_at :
      (ns : List (ServerNode M)) (i b j x : ℕ) (st : ServerState)
      → byte_at net ns i b j ≡ some x
      → state_at (modify ns i (set_state st)) i ≡ some st
  there-state_at ns i b j x st at =
      modify-state_at ns i i st
      ∙ (rw (==_refl i) (elim (Option-cases (get_elem? ns i)) [
        | inl e ↦ (let z = rw (byte_at, e) at at in ground (arith, z))
        | inr (n, e) ↦ rw e refl
      ]))

  reconnected_fresh :
      (a re b j x : ℕ) (ns ms : List (ServerNode M))
      → byte_at net ns re b j ≡ some x
      → byte_at net ms re b j ≡ byte_at net ns re b j
      → (state_at (reconnected a re ms) re ≡ some connected)
        × (byte_at net (reconnected a re ms) re b j ≡ some x)
  reconnected_fresh a re b j x ns ms at same =
      let g : ServerNode M → ℕ = λ n. net.bytes n.banks b j in
      let up = modify-same g ms a re (set_state connected) (λ n. refl) ∙ same ∙ at in
      (
        there-state_at (modify ms a (set_state connected)) re b j x connected up,
        modify-same g (modify ms a (set_state connected)) re re (set_state connected) (λ n. refl)
            ∙ up,
      )

  module _ (dhmp_free : ℕ → M → M) (dhmp_malloc : ℕ → ℕ → ℕ → M → M) (buf : Bytes) (re : ℕ)
      (s : Recovery M) where
    abbrev marked : List (ServerNode M)
    marked = modify s.servers re (set_state reconnect)

    abbrev renewed : List (ServerNode M)
    renewed = modify marked re (remalloc dhmp_free dhmp_malloc)

    abbrev paused : ℕ → List (ServerNode M)
    paused a = modify renewed a (set_state recovering)

    -- What no change of a recovery's start touches.
    paused-same :
        {A : Type 0} (g : ServerNode M → A) (a k : ℕ)
        → ((n : ServerNode M) (st : ServerState) → g (set_state st n) ≡ g n)
        → ((n : ServerNode M) → g (remalloc dhmp_free dhmp_malloc n) ≡ g n)
        → Option.map g (get_elem? (paused a) k) ≡ Option.map g (get_elem? s.servers k)
    paused-same g a k states memory =
        modify-same g renewed a k (set_state recovering) (λ n. states n recovering)
        ∙ modify-same g marked re k (remalloc dhmp_free dhmp_malloc) memory
        ∙ modify-same g s.servers re k (set_state reconnect) (λ n. states n reconnect)

    paused-tasks_at :
        (a : ℕ)
        → find_alive_server renewed ≡ some a
        → ((k : ℕ) (n : ServerNode M) → get_elem? s.servers k ≡ some n → n.rw_task_head ≡ [])
        → tasks_at (paused a) a ≡ some []
    unfolding remalloc
    paused-tasks_at a e no_tasks =
        paused-same (λ n. n.rw_task_head) a a (λ n st. refl) (λ n. refl)
        ∙ (elim (Option-cases (get_elem? s.servers a)) [
          | inr (n, at) ↦ rw (at, no_tasks a n at) refl
          | inl off ↦
              let (n, at, on) = find_alive_server-some net renewed a e in
              let same =
                modify-same (λ n. n.alive) marked re a (remalloc dhmp_free dhmp_malloc) (λ n. refl)
                ∙ modify-same (λ n. n.alive) s.servers re a (set_state reconnect) (λ n. refl) in
              let z = rw (at, off) at same in absurd (ground (arith, z))
        ])

    start_empty :
        (a : ℕ)
        → (s.use_bank_len == bank_num) ≡ false
        → s.fuse_journal_list ≡ []
        → find_alive_server renewed ≡ some a
        → start_recover net dhmp_free dhmp_malloc buf
            (λ ns. ns)
            re
            s.use_bank_len
            s.fuse_journal_list
            marked
          ≡ some (a, (went, buf, paused a))
    unfolding start_recover copy_journal
    start_empty a part journal e = rw (e, part, journal) refl

    modify-id : (ns : List (ServerNode M)) (i : ℕ) → modify ns i (λ n. n) ≡ ns
    modify-id [] i = refl
    modify-id (n ∷ ns) zero = refl
    modify-id (n ∷ ns) (suc i) = ap (λ l. n ∷ l) (modify-id ns i)

    -- The servers at the end, up to a count of tasks.
    empty_end :
        (a : ℕ)
        → s.recovery_in_use ≡ false
        → (alive_num marked == 0) ≡ false
        → start_recover net dhmp_free dhmp_malloc buf
            (λ ns. ns)
            re
            s.use_bank_len
            s.fuse_journal_list
            marked
          ≡ some (a, (went, buf, paused a))
        → tasks_at (paused a) a ≡ some []
        → (f : ServerNode M → ServerNode M) × ((n : ServerNode M) → (f n).banks ≡ n.banks)
          × (fuse_recover net dhmp_free dhmp_malloc buf (λ ns. ns) (λ ns. ns) re s
              ≡ some (record s {
                servers = reconnected a re (modify (paused a) a f);
                recovery_in_use = false;
              }))
    unfolding fuse_recover replay free_tasks
    empty_end a idle alive e at = elim (Bool-cases (alive_num marked == 1)) [
      | inl one ↦ (
        λ n. n,
        λ n. refl,
        rw (idle, alive, e, one)
            (ap (λ l. some (record s { servers = reconnected a re l; recovery_in_use = false }))
              (sym (modify-id (paused a) a))),
      )
      | inr more ↦ (
        free_tasks,
        λ n. refl,
        rw (idle, alive, e, more)
            (finish_recover_run net a re buf
              (record s { servers = paused a; recovery_in_use = true }) [] at),
      )
    ]

  -- A recovery with no bank on the journal and not all banks in use, when no other one goes on, with
  -- another server alive, with no task waiting on any server and without writes meanwhile, connects
  -- the server with its new memory as `dhmp_malloc` gave it: it copies nothing.
  pub fuse_recover_empty :
      (dhmp_free : ℕ → M → M) (dhmp_malloc : ℕ → ℕ → ℕ → M → M) (buf : Bytes) (re : ℕ)
      (r : ServerNode M) (s : Recovery M)
      → s.recovery_in_use ≡ false
      → s.use_bank_len ≢ bank_num
      → s.fuse_journal_list ≡ []
      → 1 ≤ alive_num (modify s.servers re (set_state reconnect))
      → get_elem? s.servers re ≡ some r
      → ((k : ℕ) (n : ServerNode M) → get_elem? s.servers k ≡ some n → n.rw_task_head ≡ [])
      → (t : Recovery M) × (fuse_recover net dhmp_free dhmp_malloc buf (λ ns. ns) (λ ns. ns) re s
          ≡ some t)
        × (state_at t.servers re ≡ some connected)
        × ((b j : ℕ)
            → byte_at net t.servers re b j
              ≡ some (net.bytes (remalloc dhmp_free dhmp_malloc r).banks b j))
  fuse_recover_empty dhmp_free dhmp_malloc buf re r s idle part journal alive there no_tasks =
      let z : (alive_num (modify s.servers re (set_state reconnect)) == 0) ≡ false =
        ground (arith, alive) in
      let p : (s.use_bank_len == bank_num) ≡ false =
        ground (arith, part, ==_iff s.use_bank_len bank_num) in
      elim (Option-cases (find_alive_server (renewed dhmp_free dhmp_malloc buf re s))) [
        | inl e ↦
            let none_alive =
              find_alive_server-alive_num net (renewed dhmp_free dhmp_malloc buf re s) e in
            let same =
              alive_num-modify net (marked dhmp_free dhmp_malloc buf re s) re
                (remalloc dhmp_free dhmp_malloc)
                (remalloc-server_state net dhmp_free dhmp_malloc) in
            absurd (omega (arith, none_alive, same, alive))
        | inr (a, e) ↦
            let (f, keeps, run) =
              empty_end dhmp_free dhmp_malloc buf re s a idle z
                (start_empty dhmp_free dhmp_malloc buf re s a p journal e)
                (paused-tasks_at dhmp_free dhmp_malloc buf re s a e no_tasks) in
            let ms = modify (paused dhmp_free dhmp_malloc buf re s a) a f in
            let at = λ (b : ℕ) (j : ℕ).
              reconnected_fresh a re b j (net.bytes (remalloc dhmp_free dhmp_malloc r).banks b j)
                (renewed dhmp_free dhmp_malloc buf re s) ms
                (fresh-byte_at dhmp_free dhmp_malloc re r s.servers there b j)
                (modify-same (λ n. net.bytes n.banks b j) (paused dhmp_free dhmp_malloc buf re s a)
                    a re f (λ n. ap (λ m. net.bytes m b j) (keeps n))
                  ∙ modify-same (λ n. net.bytes n.banks b j)
                      (renewed dhmp_free dhmp_malloc buf re s) a re (set_state recovering)
                      (λ n. refl)) in
            (
              record s { servers = reconnected a re ms; recovery_in_use = false },
              run,
              (at 0 0).0,
              λ b j. (at b j).1,
            )
      ]
