-- ===== src/Tests/Servers.antt =====
-- The properties of the servers and of the cache, at concrete states.
use fuse_node.Prelude.{
  ℕ, ◌+◌, ◌<◌, ◌≡◌, ◌≢◌, ◌⊎◌, refl, Bool, true, none, some, List, ◌==◌, if◌then◌else◌, arith,
}
use fuse_node.Dhmp.{Bytes, memcpy}
use fuse_node.Remote.{ServerNode, write_to_remote, read_from_remote, find_alive_server}
use fuse_node.Remote.Replicas.{Synced, written, Read, write_to_remote-Synced}
use fuse_node.Remote.ReadLoop.{read_from_remote-Read, read_from_remote_disconnected}
use fuse_node.Cache.{
  Disk, init_cache, write_back, read_from_cache, write_to_cache, expel_cache_rewrite,
  rewrite_dirty_cache,
}
use fuse_node.Cache.View.{view, IsCoherent}
use fuse_node.Cache.Expel.{SameView, IsPicked, Brought, expel_cache_rewrite-Brought}
use fuse_node.Cache.Rewrite.{rewrite_dirty_cache-SameView}
use fuse_node.Cache.Access.{
  IsHit, Delivered, read_from_cache-Delivered, write_to_cache_hit, write_to_cache_miss,
}
use fuse_node.Remote.Served.{read_from_remote-Served}
use fuse_node.Tests.{
  Memory, tested, zeros, server, stale_server, servers, servers-Synced, cached, cached-IsCoherent,
  counting,
}

cached-IsHit : IsHit cached 3
unfolding init_cache
cached-IsHit = refl

-- Bank 131 shares its line with bank 3.
cached_miss : cached.hash_bank_id 3 ≢ 131
unfolding init_cache
cached_miss e = absurd (omega arith)

cached-IsPicked : IsPicked tested 0 131 cached
unfolding init_cache write_back
cached-IsPicked = (omega arith, λ e. ground (arith, e))

write_to_cache_hit_example :
    (t : Disk Memory) × (write_to_cache tested 0 3 counting 10 5 cached ≡ some (counting, t))
    × IsCoherent tested t zeros
    × ((b i : ℕ)
        → view t zeros b i ≡ (
            if b == 3 then memcpy (view cached zeros b) 5 counting 10 i else view cached zeros b i))
write_to_cache_hit_example =
    write_to_cache_hit tested 0 3 counting 10 5 cached zeros cached-IsCoherent cached-IsHit

read_from_cache-Delivered_example :
    (r : Bytes × Disk Memory) × (read_from_cache tested 0 131 counting 10 5 cached ≡ some r)
    × (Delivered tested cached zeros 131 counting 10 5 r ⊎ (find_alive_server r.1.servers ≡ none))
read_from_cache-Delivered_example =
    read_from_cache-Delivered tested 0 131 counting 10 5 cached zeros cached-IsCoherent
      cached-IsPicked (omega arith)

expel_cache_rewrite-Brought_example :
    (t : Disk Memory) × (expel_cache_rewrite tested 0 131 cached ≡ some t)
    × Brought tested 131 cached zeros t
expel_cache_rewrite-Brought_example =
    expel_cache_rewrite-Brought tested 0 131 cached zeros cached-IsCoherent cached-IsPicked

rewrite_dirty_cache-SameView_example :
    (d : ℕ → Bytes) × SameView tested cached zeros
      (rewrite_dirty_cache tested (λ i. i == 4) cached)
      d
rewrite_dirty_cache-SameView_example =
    rewrite_dirty_cache-SameView tested (λ i. i == 4) cached zeros cached-IsCoherent

write_to_cache_miss_example :
    (r : Bytes × Disk Memory) × (write_to_cache tested 0 131 counting 10 5 cached ≡ some r)
    × (Delivered tested cached zeros 131 counting 10 5 r ⊎ (find_alive_server r.1.servers ≡ none))
write_to_cache_miss_example =
    write_to_cache_miss tested 0 131 counting 10 5 cached zeros cached_miss cached-IsCoherent
      cached-IsPicked (omega arith)

write_to_remote-Synced_example :
    Synced tested
      (write_to_remote tested 3 counting 10 5 servers)
      (written tested zeros 3 counting 10 5)
write_to_remote-Synced_example =
    write_to_remote-Synced tested servers zeros 3 counting 10 5 servers-Synced

read_from_remote-Read_example :
    (r : Bool × Bytes × List (ServerNode Memory)) × (read_from_remote tested 4 3 10 5 counting
        servers
      ≡ some r)
    × Read tested zeros 3 10 5 counting r
read_from_remote-Read_example =
    read_from_remote-Read tested zeros 3 10 5 counting 4 servers (omega arith) servers-Synced
      (λ e. ground (arith, e))

read_from_remote-Served_example :
    (r : Bool × Bytes × List (ServerNode Memory)) × (read_from_remote tested 4 3 10 5 counting
        servers
      ≡ some r)
    × (r.0 ≡ true)
    × ((k : ℕ) → r.1 k ≡ memcpy counting 0 (λ j. zeros 3 (5 + j)) 10 k)
read_from_remote-Served_example =
    read_from_remote-Served tested zeros 3 10 5 0 counting 4 servers server refl refl refl
      servers-Synced (λ e. ground (arith, e))

read_from_remote_disconnected_example :
    (r : Bool × Bytes × List (ServerNode Memory)) × (read_from_remote tested 1 3 10 5 counting
        servers
      ≡ some r)
    × ((r.0 ≡ true) × ((k : ℕ) → k < 10 → r.1 k ≡ tested.bytes stale_server.banks 3 (5 + k)))
read_from_remote_disconnected_example =
    read_from_remote_disconnected tested 1 3 10 5 counting servers stale_server (omega arith) refl
      refl refl
