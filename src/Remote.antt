-- ===== src/Remote.antt =====
-- The server pool and its replicas: `server_node`, `rw_task` (include/dhmp_fs.h), the writes to and
-- reads from the servers (src/dhmp_fs_io.c) and `find_alive_server` (src/dhmp_fs_recovery.c).
-- The DHMP client, which moves bytes to and from the memory of a server, is a parameter.
pub mod Replicas
pub mod ReadLoop
pub mod Served
use fuse_node.Prelude.{
  ℕ, zero, suc, ◌+◌, ◌-◌, ◌%◌, Bool, true, false, ◌&&◌, ◌||◌, Option, none, some, List, [], ◌∷◌,
  ◌++◌, length, ltb, leb, ◌==◌, if◌then◌else◌, get_elem?, set,
}
use mathlib.Core.Option
use fuse_node.Dhmp.{Dhmp, Bytes, memcpy}

-- `enum fuse_server_state`
pub data ServerState : Type 0 where
  connected disconnect recovering reconnect : ServerState

-- `rw_task`; its `data` is not used.
pub record RwTask : Type 0 where
  pub bank_id : ℕ
  pub size : ℕ
  pub bank_offset : ℕ

-- `server_node`. `banks` is the client's connection to the memory behind `bank[]`.
pub record ServerNode (M : Type 0) : Type 0 where
  pub server_id : ℕ
  pub alive : Bool
  pub banks : M
  pub rw_task_head : List RwTask
  pub rw_tasks_len : ℕ
  pub server_state : ServerState

-- Whether the loop of `dhmp_fs_read_from_remote` passes a server over.
abbrev pub not_readable : ServerState → Bool
not_readable reconnect = true
not_readable recovering = true
not_readable connected = false
not_readable disconnect = false

module _ {M : Type 0} where
  -- `find_alive_server`: the index of the first connected server.
  unfoldable pub find_alive_server : List (ServerNode M) → Option ℕ
  find_alive_server [] = none
  find_alive_server (n ∷ ns) =
      let rest = Option.map suc (find_alive_server ns) in
      elim n.server_state [ connected ↦ some 0 | _ ↦ rest ]

  abbrev pub state_of : List (ServerNode M) → ℕ → ServerState
  state_of ns i = elim (get_elem? ns i) [ none ↦ connected | some n ↦ n.server_state ]

  -- The server that a round of the loop reads: the one at hand, unless it is passed over.
  abbrev pub pick : List (ServerNode M) → ℕ → Option ℕ
  pick ns i = if not_readable (state_of ns i) then find_alive_server ns else some i

module _ {M : Type 0} (net : Dhmp M) where
  -- What `dhmp_fs_write_to_remote` does for one server: the first loop picks the servers and hands
  -- each its write, the second takes the results. The threads touch one server each. The `Bool` is
  -- what `sucess_count` counts.
  unfoldable pub write_server : ℕ → Bytes → ℕ → ℕ → ServerNode M → ServerNode M × Bool
  write_server bank buf size offset n = elim n.server_state [
    | disconnect ↦ (n, false)
    | reconnect ↦ (n, false)
    | recovering ↦ (
      record n {
        rw_task_head =
            n.rw_task_head ++ record { bank_id = bank; size = size; bank_offset = offset } ∷ [];
        rw_tasks_len = n.rw_tasks_len + 1;
      },
      false,
    )
    | connected ↦
        let r = net.dhmp_write n.banks bank buf size offset in
        if r.0
        then (record n { banks = r.1 }, true)
        else (record n { banks = r.1; alive = false; server_state = disconnect }, false)
  ]

  unfoldable pub write_to_remote : ℕ → Bytes → ℕ → ℕ → List (ServerNode M) → List (ServerNode M)
  unfolding write_server
  write_to_remote bank buf size offset [] = []
  write_to_remote bank buf size offset (n ∷ ns) =
      (write_server bank buf size offset n).0 ∷ write_to_remote bank buf size offset ns

  -- One call of `dhmp_read` on server `i`, with what the loop does at -1. The `Bool` says whether
  -- the buffer was filled; a failed read leaves it alone.
  unfoldable pub read_server :
      ℕ → ℕ → ℕ → ℕ → Bytes → List (ServerNode M) → Bool × Bytes × List (ServerNode M)
  read_server i bank size offset buf ns = elim (get_elem? ns i) [
    | none ↦ (false, buf, ns)
    | some n ↦
        let r = net.dhmp_read n.banks bank size offset in
        if r.0 then (true, memcpy buf 0 r.1 size, set ns i (record n { banks = r.2 })) else (
          false,
          buf,
          set ns i (record n { banks = r.2; alive = false; server_state = disconnect }),
        )
  ]

  -- The `while` loop on fuel, from server `i`; `none` is that the fuel ran out.
  unfoldable pub read_loop :
      ℕ
      → Option ℕ
      → ℕ
      → ℕ
      → ℕ
      → Bytes
      → List (ServerNode M)
      → Option (Bool × Bytes × List (ServerNode M))
  unfolding read_server find_alive_server
  read_loop fuel none bank size offset buf ns = some (false, buf, ns)
  read_loop zero (some i) bank size offset buf ns = none
  read_loop (suc fuel) (some i) bank size offset buf ns = elim (pick ns i) [
    | none ↦ some (false, buf, ns)
    | some j ↦
        let r = read_server j bank size offset buf ns in
        elim r.0 [
          | true ↦ some r
          | false ↦ read_loop fuel (find_alive_server r.2) bank size offset buf r.2
        ]
  ]

  -- `dhmp_fs_read_from_remote`, with the value of `rand()`; one round for each server is enough.
  unfoldable pub read_from_remote :
      ℕ → ℕ → ℕ → ℕ → Bytes → List (ServerNode M) → Option (Bool × Bytes × List (ServerNode M))
  unfolding read_loop
  read_from_remote rand bank size offset buf ns =
      read_loop (length ns) (some (rand % length ns)) bank size offset buf ns
