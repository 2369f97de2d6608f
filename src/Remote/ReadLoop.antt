-- ===== src/Remote/ReadLoop.antt =====
-- The loop of `dhmp_fs_read_from_remote`.
use fuse_node.Prelude.{
  ℕ, zero, suc, ◌+◌, ◌%◌, ◌≤◌, ◌<◌, ◌≡◌, ◌≢◌, refl, ◌⊎◌, Bool, true, false, Option, none, some,
  List, [], ◌∷◌, length, get_elem?, arith, Bool-cases, Option-cases, inl, inr,
}
use native.Mathlib.Nat.{mod-lt}
use fuse_node.Dhmp.{Dhmp, Bytes}
use fuse_node.Remote.{
  ServerState, connected, disconnect, recovering, reconnect, ServerNode, find_alive_server,
  not_readable, read_server, state_of, pick, read_loop, read_from_remote,
}
use fuse_node.Remote.Replicas.{
  live, live_pos, live-le-length, Synced, Read, read_server-Synced, read_server_filled,
  read_server-Failed,
}

get_elem?-some :
    {A : Type 0} (xs : List A) (i : ℕ) → i < length xs → (x : A) × (get_elem? xs i ≡ some x)
get_elem?-some [] i lt = absurd (omega arith)
get_elem?-some (x ∷ xs) zero lt = (x, refl)
get_elem?-some (x ∷ xs) (suc i) lt = get_elem?-some xs i (omega arith)

connected_of : (t : ServerState) → not_readable t ≡ false → t ≢ disconnect → t ≡ connected
connected_of connected e ne = refl
connected_of disconnect e ne = absurd (ne refl)
connected_of recovering e ne = cc
connected_of reconnect e ne = cc

module _ {M : Type 0} (net : Dhmp M) where
  pub find_alive_server-some :
      (ns : List (ServerNode M)) (j : ℕ)
      → find_alive_server ns ≡ some j
      → (n : ServerNode M) × (get_elem? ns j ≡ some n) × (n.server_state ≡ connected)
  unfolding find_alive_server
  find_alive_server-some [] j e = cc
  find_alive_server-some (n ∷ ns) zero e = (n, refl, ground arith)
  find_alive_server-some (n ∷ ns) (suc j) e = find_alive_server-some ns j (ground arith)

  module _ (d : ℕ → Bytes) (bank size offset : ℕ) (buf : Bytes) where
    -- The loop ends, and what it leaves is a read.
    abbrev Ends : ℕ → Option ℕ → List (ServerNode M) → Type 0
    Ends fuel o ns =
        (r : Bool × Bytes × List (ServerNode M)) × (read_loop net fuel o bank size offset buf ns
          ≡ some r)
        × Read net d bank size offset buf r

    no_server :
        (fuel : ℕ) (ns : List (ServerNode M))
        → Synced net ns d
        → find_alive_server ns ≡ none
        → Read net d bank size offset buf (false, buf, ns)
    no_server fuel ns h e = record { synced = h; filled = λ c i. cc; failed = λ _. (refl, e) }

    -- One round that reads a connected server `j`, if the rounds after it end.
    read_round :
        (fuel : ℕ) (ns : List (ServerNode M)) (i j : ℕ) (n : ServerNode M)
        → pick ns i ≡ some j
        → get_elem? ns j ≡ some n
        → n.server_state ≡ connected
        → Synced net ns d
        → ((ms : List (ServerNode M))
            → live ms < live ns
            → Synced net ms d
            → Ends fuel (find_alive_server ms) ms)
        → Ends (suc fuel) (some i) ns
    unfolding read_loop
    read_round fuel ns i j n picked e on h rest =
        let r = read_server net j bank size offset buf ns in
        let synced = read_server-Synced net d j bank size offset buf ns h in
        let on_j : state_of ns j ≡ connected = ground (arith, e, on) in
        elim (Bool-cases r.0) [
          | inl done ↦ (
            r,
            rw (picked, read_loop, done) refl,
            record {
              synced = synced;
              filled = λ _ k. read_server_filled net d j bank size offset buf ns h on_j done k;
              failed = λ bad. cc;
            },
          )
          | inr bad ↦
              let f = read_server-Failed net j bank size offset buf ns n e bad in
              let (r', run, read) = rest r.2 (f.fewer_live on_j) synced in
              (r', rw (picked, read_loop, bad) run, read)
        ]

    -- From a connected server on, as many rounds as servers are connected are enough.
    read_loop_live :
        (fuel : ℕ) (ns : List (ServerNode M))
        → live ns ≤ fuel
        → Synced net ns d
        → Ends fuel (find_alive_server ns) ns
    unfolding read_loop
    read_loop_live zero ns enough h = elim (Option-cases (find_alive_server ns)) [
      | inl e ↦ ((false, buf, ns), rw e refl, no_server 0 ns h e)
      | inr (j, e) ↦
          let (n, at, on) = find_alive_server-some ns j e in
          absurd (omega (arith, live_pos net ns j n at on))
    ]
    read_loop_live (suc fuel) ns enough h = elim (Option-cases (find_alive_server ns)) [
      | inl e ↦ ((false, buf, ns), rw e refl, no_server 0 ns h e)
      | inr (j, e) ↦
          let (n, at, on) = find_alive_server-some ns j e in
          rw e (
            read_round fuel ns j j n (ground (arith, at, on)) at on h
              (λ ms fewer h'. read_loop_live fuel ms (omega arith) h'))
    ]

    -- What a round reads, from a server that is not disconnected: a connected one, or none is left.
    pick_connected :
        (ns : List (ServerNode M)) (i : ℕ)
        → i < length ns
        → state_of ns i ≢ disconnect
        → ((pick ns i ≡ none) × (find_alive_server ns ≡ none))
          ⊎ ((j : ℕ) × (n : ServerNode M) × (pick ns i ≡ some j)
              × (get_elem? ns j ≡ some n)
              × (n.server_state ≡ connected))
    pick_connected ns i lt ne = elim (Bool-cases (not_readable (state_of ns i))) [
      | inl over ↦ elim (Option-cases (find_alive_server ns)) [
        | inl e ↦ inl (rw over e, e)
        | inr (j, e) ↦
            let (n, at, on) = find_alive_server-some ns j e in inr (j, n, rw over e, at, on)
      ]
      | inr stay ↦
          let (n, at) = get_elem?-some ns i lt in
          inr (
            i,
            n,
            rw stay refl,
            at,
            connected_of n.server_state (ground (arith, at, stay))
                (λ e. ne (ground (arith, at, e))),
          )
    ]

    loop_total :
        (fuel : ℕ) (ns : List (ServerNode M)) (i : ℕ)
        → fuel ≡ length ns
        → i < length ns
        → Synced net ns d
        → state_of ns i ≢ disconnect
        → Ends fuel (some i) ns
    unfolding read_loop
    loop_total zero ns i size_eq lt h ne = absurd (omega arith)
    loop_total (suc fuel) ns i size_eq lt h ne = elim (pick_connected ns i lt ne) [
      | inl (e, off) ↦ ((false, buf, ns), rw (e, read_loop) refl, no_server 0 ns h off)
      | inr (j, n, e, at, on) ↦
          read_round fuel ns i j n e at on h
            (λ ms fewer h'. read_loop_live fuel ms (omega (arith, live-le-length net ns)) h')
    ]

    -- If the connected servers hold the bytes `d` and the server that `rand()` picks is not marked
    -- disconnected, a read from the servers ends within one round for each, keeps the connected
    -- servers alike, and either fills the buffer with the bytes of `d` or leaves it untouched with
    -- no server connected.
    pub read_from_remote-Read :
        (rand : ℕ) (ns : List (ServerNode M))
        → 0 < length ns
        → Synced net ns d
        → state_of ns (rand % length ns) ≢ disconnect
        → (r : Bool × Bytes × List (ServerNode M)) × (read_from_remote net rand bank size offset buf
              ns
            ≡ some r)
          × Read net d bank size offset buf r
    unfolding read_from_remote
    read_from_remote-Read rand ns pos h ne =
        loop_total (length ns) ns (rand % length ns) refl (mod-lt rand pos) h ne

loop_disconnected :
    {M : Type 0} (net : Dhmp M) (fuel i bank size offset : ℕ) (buf : Bytes)
    (ns : List (ServerNode M)) (n : ServerNode M)
    → get_elem? ns i ≡ some n
    → n.server_state ≡ disconnect
    → (net.dhmp_read n.banks bank size offset).0 ≡ true
    → let r = read_server net i bank size offset buf ns in
      (read_loop net (suc fuel) (some i) bank size offset buf ns ≡ some r)
      × ((r.0 ≡ true) × ((k : ℕ) → k < size → r.1 k ≡ net.bytes n.banks bank (offset + k)))
unfolding read_loop read_server
loop_disconnected net fuel i bank size offset buf ns n at off ok = (
  rw (at, read_loop) (ground (arith, at, off, ok)),
  (
    ground (arith, at, ok),
    λ k lt.
        rw (at, read_server, ok) (ground (arith, net.read_bytes n.banks bank size offset k ok lt)),
  ),
)

-- A server that is marked disconnected is read all the same when `rand()` picks it: if its call
-- succeeds, the buffer gets whatever that server holds, whether or not the connected servers agree.
pub read_from_remote_disconnected :
    {M : Type 0} (net : Dhmp M) (rand bank size offset : ℕ) (buf : Bytes) (ns : List (ServerNode M))
    (n : ServerNode M)
    → 0 < length ns
    → get_elem? ns (rand % length ns) ≡ some n
    → n.server_state ≡ disconnect
    → (net.dhmp_read n.banks bank size offset).0 ≡ true
    → (r : Bool × Bytes × List (ServerNode M)) × (read_from_remote net rand bank size offset buf ns
        ≡ some r)
      × ((r.0 ≡ true) × ((k : ℕ) → k < size → r.1 k ≡ net.bytes n.banks bank (offset + k)))
unfolding read_from_remote
read_from_remote_disconnected net rand bank size offset buf [] n pos at off ok =
    absurd (omega arith)
read_from_remote_disconnected net rand bank size offset buf (m ∷ ms) n pos at off ok =
    let ns = m ∷ ms in
    let i = rand % length ns in
    let (run, filled) = loop_disconnected net (length ms) i bank size offset buf ns n at off ok in
    (read_server net i bank size offset buf ns, run, filled)
