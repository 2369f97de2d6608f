-- ===== src/Tests/Recoveries.antt =====
-- The properties of `fuse_recover`, at a server that comes back with another one alive, and alone.
use fuse_node.Prelude.{
  ℕ, zero, suc, ◌≡◌, refl, false, some, List, [], ◌∷◌, get_elem?, ◌==◌, if◌then◌else◌, arith,
}
use fuse_node.Dhmp.{Bytes}
use fuse_node.Remote.{ServerNode, connected, reconnect}
use fuse_node.Recovery.{Recovery, modify, set_state, remalloc, fuse_recover}
use fuse_node.Recovery.Pool.{state_at, byte_at}
use fuse_node.Recovery.Idle.{fuse_recover_stuck, fuse_recover_empty}
use fuse_node.Tests.{Memory, tested, counting, server, stale_server}

abbrev keep : ℕ → Memory → Memory
keep i m = m

abbrev garbage : ℕ → ℕ → ℕ → Memory → Memory
garbage i size id m = record m { banks = λ b j. if b == i then 9 else m.banks b j }

abbrev three : Recovery Memory
three = record {
  servers = server ∷ server ∷ stale_server ∷ [];
  recovery_in_use = false;
  use_bank_len = 2048;
  fuse_journal_list = [];
}

-- One of the two servers has to come back, so that one is alive.
abbrev two : Recovery Memory
two = record three { servers = server ∷ stale_server ∷ [] }

two_no_tasks :
    (k : ℕ) (n : ServerNode Memory) → get_elem? two.servers k ≡ some n → n.rw_task_head ≡ []
two_no_tasks zero n e = ground (arith, e)
two_no_tasks (suc zero) n e = ground (arith, e)
two_no_tasks (suc (suc k)) n e = ground (arith, e)

-- No server but the one that comes back.
abbrev one : Recovery Memory
one = record three { servers = stale_server ∷ [] }

fuse_recover_stuck_example :
    (t : Recovery Memory) × (fuse_recover tested keep garbage counting (λ ns. ns) (λ ns. ns) 0 one
      ≡ some t)
    × (t.servers ≡ modify one.servers 0 (set_state reconnect))
    × ((later : List (ServerNode Memory)) (buf : Bytes)
          (early writes : List (ServerNode Memory) → List (ServerNode Memory)) (re : ℕ)
        → fuse_recover tested keep garbage buf early writes re (record t { servers = later })
          ≡ some (record t { servers = later }))
fuse_recover_stuck_example =
    fuse_recover_stuck tested keep garbage counting (λ ns. ns) (λ ns. ns) 0 one refl refl

-- The start of the program: no bank in use and nothing on the journal.
abbrev started : Recovery Memory
started = record two { use_bank_len = 0 }

fuse_recover_empty_example :
    (t : Recovery Memory) × (fuse_recover tested keep garbage counting
        (λ ns. ns)
        (λ ns. ns)
        1
        started
      ≡ some t)
    × (state_at t.servers 1 ≡ some connected)
    × ((b j : ℕ)
        → byte_at tested t.servers 1 b j
          ≡ some (tested.bytes (remalloc keep garbage stale_server).banks b j))
fuse_recover_empty_example =
    fuse_recover_empty tested keep garbage counting 1 stale_server started refl (omega arith) refl
      (omega arith) refl two_no_tasks
