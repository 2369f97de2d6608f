-- ===== src/Recovery.antt =====
-- src/dhmp_fs_recovery.c: `judege_alive` and `fuse_recover`, which brings a server back.
-- `dhmp_free`, `dhmp_malloc` and `dhmp_send` of the DHMP client are parameters, as are the writes of
-- other threads during the copy. They touch other servers than the copy does and add to the list of
-- tasks, so they stand after it. No writer takes `fuse_mutex` or a `server_mutex`. A result `none` is a
-- fault: a server that `find_alive_server` does not find is followed.
pub mod Pool
pub mod Copy
pub mod Paused
pub mod Shrunk
pub mod Replay
pub mod Begin
pub mod Finish
pub mod Whole
pub mod Idle
pub mod Alone
use mathlib.Core.Option
use fuse_node.Prelude.{
  ℕ, zero, suc, ◌+◌, ◌-◌, Bool, true, false, ◌&&◌, not, Option, none, some, List, [], ◌∷◌, length,
  ◌==◌, if◌then◌else◌, get_elem?, set,
}
use fuse_node.Config.{bank_size, bank_num}
use fuse_node.Dhmp.{Dhmp, Bytes, memcpy}
use fuse_node.Inode.{update}
use fuse_node.Remote.{
  ServerState, connected, disconnect, recovering, reconnect, RwTask, ServerNode, find_alive_server,
}

-- `fuse_sList` and the globals that a recovery reads or sets.
pub record Recovery (M : Type 0) : Type 0 where
  pub servers : List (ServerNode M)
  pub recovery_in_use : Bool
  pub use_bank_len : ℕ
  pub fuse_journal_list : List RwTask

-- How a copy or a replay ends: it went through, or a server was lost.
pub data Course : Type 0 where
  went : Course
  lost : ℕ → Course

module _ {M : Type 0} where
  abbrev pub modify : List (ServerNode M) → ℕ → (ServerNode M → ServerNode M) → List (ServerNode M)
  modify [] i f = []
  modify (n ∷ ns) zero f = f n ∷ ns
  modify (n ∷ ns) (suc i) f = n ∷ modify ns i f

  abbrev pub set_state : ServerState → ServerNode M → ServerNode M
  set_state st n = record n { server_state = st }

  -- The end of a recovery: both servers are connected again.
  abbrev pub reconnected : ℕ → ℕ → List (ServerNode M) → List (ServerNode M)
  reconnected a re ns = modify (modify ns a (set_state connected)) re (set_state connected)

  -- `alive_num`
  abbrev pub alive_num : List (ServerNode M) → ℕ
  alive_num [] = 0
  alive_num (n ∷ ns) = elim n.server_state [ connected ↦ suc (alive_num ns) | _ ↦ alive_num ns ]

  -- One server in the loop of `judege_alive`; `sent` is what `dhmp_send` does for it.
  unfoldable pub judege_alive : (ServerNode M → Bool) → List (ServerNode M) → List (ServerNode M)
  judege_alive sent [] = []
  judege_alive sent (n ∷ ns) =
      (if n.alive && not (sent n) then record n { alive = false } else n) ∷ judege_alive sent ns

  -- The loop that frees the tasks of a server. It takes none of them off the list.
  unfoldable pub free_tasks : ServerNode M → ServerNode M
  free_tasks n = record n { rw_tasks_len = n.rw_tasks_len - length n.rw_task_head }

module _ {M : Type 0} (dhmp_free : ℕ → M → M) (dhmp_malloc : ℕ → ℕ → ℕ → M → M) where
  -- The loops over all banks of a server: `n` left, from bank `i` on.
  unfoldable pub free_banks : ℕ → ℕ → M → M
  free_banks zero i m = m
  free_banks (suc n) i m = free_banks n (i + 1) (dhmp_free i m)

  unfoldable pub malloc_banks : ℕ → ℕ → ℕ → M → M
  malloc_banks server_id zero i m = m
  malloc_banks server_id (suc n) i m =
      malloc_banks server_id n (i + 1) (dhmp_malloc i bank_size server_id m)

  unfoldable pub remalloc : ServerNode M → ServerNode M
  remalloc n = record n {
    banks = malloc_banks n.server_id bank_num 0 (free_banks bank_num 0 n.banks);
  }

module _ {M : Type 0} (net : Dhmp M) where
  -- `dhmp_read(fuse_sList[i]->bank[bank], buf, BANK_SIZE, 0)`, and whether it was not -1.
  abbrev pub fetch : ℕ → ℕ → Bytes → List (ServerNode M) → Bool × Bytes × List (ServerNode M)
  fetch i bank buf ns = elim (get_elem? ns i) [
    | none ↦ (false, buf, ns)
    | some n ↦
        let r = net.dhmp_read n.banks bank bank_size 0 in
        (
          r.0,
          (if r.0 then memcpy buf 0 r.1 bank_size else buf),
          set ns i (record n { banks = r.2 }),
        )
  ]

  -- `dhmp_write(fuse_sList[i]->bank[bank], buf, size, offset)`, and whether it was not -1.
  abbrev pub store : ℕ → ℕ → Bytes → ℕ → ℕ → List (ServerNode M) → Bool × List (ServerNode M)
  store i bank buf size offset ns = elim (get_elem? ns i) [
    | none ↦ (false, ns)
    | some n ↦
        let r = net.dhmp_write n.banks bank buf size offset in
        (r.0, set ns i (record n { banks = r.1 }))
  ]

  -- The copy of all banks from server `a` to server `re`: `n` left, from bank `i` on.
  unfoldable pub copy_banks :
      ℕ → ℕ → ℕ → ℕ → Bytes → List (ServerNode M) → Course × Bytes × List (ServerNode M)
  copy_banks a re zero i buf ns = (went, buf, ns)
  copy_banks a re (suc n) i buf ns =
      let f = fetch a i buf ns in
      let w = store re i f.1 bank_size 0 f.2 in
      let rest = copy_banks a re n (i + 1) f.1 w.1 in
      if not f.0
      then (lost a, f.1, modify f.2 a (set_state disconnect))
      else if not w.0
      then (lost re, f.1, modify w.1 re (set_state disconnect))
      else rest

  -- The copy of the banks on the journal, each once; `flag` is `bank_flag`. No result is looked at.
  unfoldable pub copy_journal :
      ℕ
      → ℕ
      → List RwTask
      → (ℕ → Bool)
      → Bytes
      → List (ServerNode M)
      → Course × Bytes × List (ServerNode M)
  copy_journal a re [] flag buf ns = (went, buf, ns)
  copy_journal a re (t ∷ ts) flag buf ns =
      let f = fetch a t.bank_id buf ns in
      let w = store re t.bank_id f.1 bank_size 0 f.2 in
      let skipped = copy_journal a re ts flag buf ns in
      let copied = copy_journal a re ts (update flag t.bank_id true) f.1 w.1 in
      if flag t.bank_id then skipped else copied

  -- The replay of the writes that server `a` missed, from a third server. The source of each write is
  -- the start of the buffer, into which the whole bank was read.
  unfoldable pub replay :
      ℕ → ℕ → List RwTask → Bytes → List (ServerNode M) → Option (Course × List (ServerNode M))
  replay a re [] buf ns = some (went, ns)
  replay a re (t ∷ ts) buf ns = elim (find_alive_server ns) [
    | none ↦ none
    | some latest ↦
        let f = fetch latest t.bank_id buf ns in
        let v = store a t.bank_id f.1 t.size t.bank_offset f.2 in
        let w = store re t.bank_id f.1 t.size t.bank_offset v.1 in
        let rest = replay a re ts f.1 w.1 in
        if not f.0
        then some (lost latest, modify f.2 latest (set_state disconnect))
        else if not v.0
        then some (lost a, modify v.1 a (set_state disconnect))
        else if not w.0
        then some (lost re, modify w.1 re (set_state disconnect))
        else rest
  ]

  -- The part after the copy, where more than one server was alive.
  unfoldable pub finish_recover : ℕ → ℕ → Bytes → Recovery M → Option (Recovery M)
  unfolding replay free_tasks
  finish_recover a re buf s =
      let tasks : List RwTask = elim (get_elem? s.servers a) [
        | none ↦ []
        | some n ↦ n.rw_task_head
      ] in
      Option.map
        (λ r. elim r.0 [
          | lost _ ↦ record s { servers = r.1; recovery_in_use = false }
          | went ↦ record s {
            servers = reconnected a re (modify r.1 a free_tasks);
            recovery_in_use = false;
          }
        ])
        (replay a re tasks buf s.servers)

  -- The start of `fuse_recover`, up to the end of the copy, for servers that are marked already: the
  -- new memory of server `re`, the server `a` that is copied, the course of the copy, the buffer and
  -- the servers. `buf` is what `malloc` gives, and `early` what other threads do to the servers before
  -- the copy, when their writes go to the list of server `a`.
  unfoldable pub start_recover :
      (ℕ → M → M)
      → (ℕ → ℕ → ℕ → M → M)
      → Bytes
      → (List (ServerNode M) → List (ServerNode M))
      → ℕ
      → ℕ
      → List RwTask
      → List (ServerNode M)
      → Option (ℕ × (Course × Bytes × List (ServerNode M)))
  start_recover dhmp_free dhmp_malloc buf early re use_bank_len journal ns =
      let fresh = modify ns re (remalloc dhmp_free dhmp_malloc) in
      Option.map
        (λ a.
          let paused = early (modify fresh a (set_state recovering)) in
          (
            a,
            (if use_bank_len == bank_num
                then copy_banks a re bank_num 0 buf paused
                else copy_journal a re journal (λ _. false) buf paused),
          ))
        (find_alive_server fresh)

  -- `fuse_recover`. `early` is what other threads do to the servers before the copy and `writes` what
  -- they do after it: writes during the copy are before or after it here. Where the copy loses a
  -- server, the tasks that `early` put on the list of server `a` stay there.
  unfoldable pub fuse_recover :
      (ℕ → M → M)
      → (ℕ → ℕ → ℕ → M → M)
      → Bytes
      → (List (ServerNode M) → List (ServerNode M))
      → (List (ServerNode M) → List (ServerNode M))
      → ℕ
      → Recovery M
      → Option (Recovery M)
  fuse_recover dhmp_free dhmp_malloc buf early writes re s =
      let ns = modify s.servers re (set_state reconnect) in
      let alive = alive_num ns in
      let started =
        start_recover dhmp_free dhmp_malloc buf early re s.use_bank_len s.fuse_journal_list ns in
      if s.recovery_in_use
      then some s
      else if alive == 0
      then some (record s { servers = ns; recovery_in_use = true })
      else elim started [
        | none ↦ none
        | some c ↦
            let now = writes c.1.2 in
            let ended = record s { servers = reconnected c.0 re now; recovery_in_use = false } in
            let rest =
              finish_recover c.0 re c.1.1 (record s { servers = now; recovery_in_use = true }) in
            elim c.1.0 [
              | lost _ ↦ some (record s { servers = now; recovery_in_use = false })
              | went ↦ if alive == 1 then some ended else rest
            ]
      ]
