-- ===== src/Tests/Histories.antt =====
-- The properties of the cache over a history, and of its first state.
use fuse_node.Prelude.{◌+◌, zero, suc, ℕ, ◌≡◌, ◌⊎◌, refl, true, none, some, [], ◌∷◌, arith}
use fuse_node.Dhmp.{Bytes, memcpy}
use fuse_node.Inode.{update}
use fuse_node.Remote.{find_alive_server, write_to_remote, write_server}
use fuse_node.Cache.{
  Disk, init_cache, copy_out, write_back, try_visit_cache, read_from_cache, write_to_cache,
}
use fuse_node.Cache.View.{view}
use fuse_node.Cache.Expel.{IsPicked}
use fuse_node.Cache.History.{Put, after, Run, begin, written, read_from_cache-Run}
use fuse_node.Start.{init_banks}
use fuse_node.Tests.{Memory, tested, zeros, cached, cached-IsCoherent, counting}

abbrev one_put : Put
one_put = record { bank = 3; offset = 5; buf = counting; size = 10 }

-- The cache after that write.
abbrev put_cache : Disk Memory
put_cache = record cached {
  line = update cached.line 3 (record (cached.line 3) {
    contents = memcpy (cached.line 3).contents 5 counting 10;
    dirty = true;
  });
}

put_run : write_to_cache tested 0 3 counting 10 5 cached ≡ some (counting, put_cache)
unfolding write_to_cache try_visit_cache init_cache
put_run = refl

one_put-Run : Run tested cached (one_put ∷ []) put_cache
unfolding init_cache
one_put-Run = written [] cached put_cache 0 one_put counting begin refl put_run

put_cache-IsPicked : IsPicked tested 0 131 put_cache
unfolding init_cache write_back write_to_remote write_server
put_cache-IsPicked = (omega arith, λ e. ground (arith, e))

read_from_cache-Run_example :
    (r : Bytes × Disk Memory) × (read_from_cache tested 0 131 counting 10 5 put_cache ≡ some r)
    × (((i : ℕ) → r.0 i ≡ copy_out counting (after (one_put ∷ []) (view cached zeros) 131) 10 5 i)
        ⊎ (find_alive_server r.1.servers ≡ none))
read_from_cache-Run_example =
    read_from_cache-Run tested cached put_cache zeros (one_put ∷ []) 0 131 counting 10 5
      cached-IsCoherent one_put-Run put_cache-IsPicked (omega arith)

-- An allocation that changes nothing, on servers whose memory is zero.
abbrev untouched : ℕ → ℕ → ℕ → Memory → Memory
untouched b size id m = m

abbrev zeroed : ℕ → Memory
zeroed i = record { online = true; banks = zeros }

init_banks-untouched : (n b i : ℕ) (m : Memory) → init_banks zeroed untouched i n b m ≡ m
unfolding init_banks
init_banks-untouched zero b i m = refl
init_banks-untouched (suc n) b i m = init_banks-untouched n (b + 1) i m
