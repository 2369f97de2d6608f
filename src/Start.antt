-- ===== src/Start.antt =====
-- `dhmp_init` of src/dhmp_fs.c: the server pool, the cache and the files that the program starts with.
-- `conn` is the client's connection to a server, `dhmp_malloc` the client's allocation of a bank. The
-- field `rw_tasks_len` is not set by the code, and is 0 here.
use fuse_node.Prelude.{
  ℕ, zero, suc, ◌+◌, ◌<◌, ◌≡◌, refl, ap, ◌∙◌, true, some, List, [], ◌∷◌, get_elem?, arith,
}
use fuse_node.Config.{bank_size, bank_num, cache_size}
use fuse_node.Dhmp.{Dhmp, Bytes}
use fuse_node.Remote.{ServerNode, connected}
use fuse_node.Remote.Replicas.{Synced}
use fuse_node.Cache.{init_cache}
use fuse_node.Cache.View.{IsCoherent}
use fuse_node.Cache.History.{init_cache-IsCoherent}
use fuse_node.Inode.Slab.{init_store}
use fuse_node.Index.Start.{init_store-IsConsistent, init_store-context_size}
use fuse_node.Io.{Fs}
use fuse_node.Io.Total.{IsSound}

module _ {M : Type 0} (conn : ℕ → M) (dhmp_malloc : ℕ → ℕ → ℕ → M → M) where
  -- The loop over the banks of server `i`: `n` left, from bank `b` on.
  unfoldable pub init_banks : ℕ → ℕ → ℕ → M → M
  init_banks i zero b m = m
  init_banks i (suc n) b m = init_banks i n (b + 1) (dhmp_malloc b bank_size i m)

  unfoldable pub init_server : ℕ → ServerNode M
  init_server i = record {
    server_id = i;
    alive = true;
    banks = init_banks i bank_num 0 (conn i);
    rw_task_head = [];
    rw_tasks_len = 0;
    server_state = connected;
  }

  -- The loop over the servers: `n` left, from server `i` on.
  unfoldable pub init_servers : ℕ → ℕ → List (ServerNode M)
  init_servers zero i = []
  init_servers (suc n) i = init_server i ∷ init_servers n (i + 1)

  -- The state that `dhmp_init` leaves, for `servernum` servers.
  unfoldable pub dhmp_init : ℕ → ℕ → Fs M
  dhmp_init time servernum = record {
    store = init_store time;
    disk = init_cache (init_servers servernum 0);
  }

  init_servers-get :
      (n i k : ℕ) → k < n → get_elem? (init_servers n i) k ≡ some (init_server (i + k))
  unfolding init_servers
  init_servers-get zero i k lt = absurd (omega arith)
  init_servers-get (suc n) i zero lt = ap (λ j. some (init_server j)) (omega arith)
  init_servers-get (suc n) i (suc k) lt =
      init_servers-get n (i + 1) k (omega (arith, lt))
      ∙ ap (λ j. some (init_server j)) (omega arith)

  init_servers-Synced :
      (net : Dhmp M) (d : ℕ → Bytes) (n i : ℕ)
      → ((k b j : ℕ) → net.bytes (init_banks k bank_num 0 (conn k)) b j ≡ d b j)
      → Synced net (init_servers n i) d
  unfolding init_servers init_server
  init_servers-Synced net d zero i same = tt
  init_servers-Synced net d (suc n) i same =
      ((λ on b j. same i b j), init_servers-Synced net d n (i + 1) same)

  init_store-IsSound : (time : ℕ) → IsSound (init_store time)
  init_store-IsSound time = record {
    consistent = init_store-IsConsistent time;
    bounded = λ c. omega (arith, init_store-context_size time c);
  }

  -- The program starts with sound files, a coherent cache, and as many servers as there are, all
  -- connected and without a task, if the new memory of all servers holds the same, zeros in the banks that
  -- the cache starts with.
  pub dhmp_init-IsSound :
      (net : Dhmp M) (d : ℕ → Bytes) (time servernum : ℕ)
      → ((k b j : ℕ) → net.bytes (init_banks k bank_num 0 (conn k)) b j ≡ d b j)
      → ((b j : ℕ) → b < cache_size → j < bank_size → d b j ≡ 0)
      → let s = dhmp_init time servernum in
        IsSound s.store
        × IsCoherent net s.disk d
        × ((k : ℕ)
            → k < servernum
            → (n : ServerNode M) × (get_elem? s.disk.servers k ≡ some n)
              × (n.server_id ≡ k)
              × (n.server_state ≡ connected)
              × (n.rw_task_head ≡ []))
  unfolding dhmp_init init_server init_cache
  dhmp_init-IsSound net d time servernum same zero_banks = (
    init_store-IsSound time,
    init_cache-IsCoherent net (init_servers servernum 0) d
        (init_servers-Synced net d servernum 0 same) zero_banks,
    λ k lt. (
      init_server (0 + k),
      init_servers-get servernum 0 k lt,
      (let z : 0 + k ≡ k = omega arith in z),
      refl,
      refl,
    ),
  )
