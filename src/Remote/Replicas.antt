-- ===== src/Remote/Replicas.antt =====
-- `dhmp_fs_write_to_remote` and one call of `dhmp_read`, over the bytes that the servers share.
use fuse_node.Prelude.{
  ℕ, zero, suc, ◌+◌, ◌≤◌, ◌<◌, ◌≡◌, refl, ◌∙◌, Bool, true, false, none, some, List, [], ◌∷◌, length,
  ◌==◌, if◌then◌else◌, get_elem?, set, arith, Bool-cases, Option-cases, inl, inr,
}
use fuse_node.Dhmp.{Dhmp, Bytes, memcpy}
use fuse_node.Remote.{
  ServerState, connected, disconnect, ServerNode, write_server, write_to_remote, find_alive_server,
  read_server, state_of,
}

-- How many servers are connected.
live_one : ServerState → ℕ
live_one connected = 1
live_one _ = 0

unfoldable pub live : {M : Type 0} → List (ServerNode M) → ℕ
unfolding live_one
live [] = 0
live (n ∷ ns) = live_one n.server_state + live ns

module _ {M : Type 0} (net : Dhmp M) where
  -- Every connected server holds the bytes `d`.
  abbrev pub Synced : List (ServerNode M) → (ℕ → Bytes) → Type 0
  Synced [] d = Unit
  Synced (n ∷ ns) d =
      (n.server_state ≡ connected → (b i : ℕ) → net.bytes n.banks b i ≡ d b i) × Synced ns d

  -- The bytes after a write into one bank.
  abbrev pub written : (ℕ → Bytes) → ℕ → Bytes → ℕ → ℕ → ℕ → Bytes
  written d bank buf size offset b i = if b == bank then memcpy (d b) offset buf size i else d b i

  pub write_server-written :
      (n : ServerNode M) (d : ℕ → Bytes) (bank : ℕ) (buf : Bytes) (size offset b i : ℕ)
      → (n.server_state ≡ connected → net.bytes n.banks b i ≡ d b i)
      → (write_server net bank buf size offset n).0.server_state ≡ connected
      → net.bytes (write_server net bank buf size offset n).0.banks b i
        ≡ written d bank buf size offset b i
  unfolding write_server
  write_server-written n d bank buf size offset b i same now =
      ground (arith, net.write_bytes n.banks bank buf size offset b i, same)

  -- Writing to the servers keeps the connected ones alike: each of them then holds the bytes with
  -- the write done; a server whose write failed is no longer connected.
  pub write_to_remote-Synced :
      (ns : List (ServerNode M)) (d : ℕ → Bytes) (bank : ℕ) (buf : Bytes) (size offset : ℕ)
      → Synced ns d
      → Synced (write_to_remote net bank buf size offset ns) (written d bank buf size offset)
  unfolding write_to_remote
  write_to_remote-Synced [] d bank buf size offset h = tt
  write_to_remote-Synced (n ∷ ns) d bank buf size offset h = (
    λ now b i. write_server-written n d bank buf size offset b i (λ on. h.0 on b i) now,
    write_to_remote-Synced ns d bank buf size offset h.1,
  )

  pub Synced-get :
      (ns : List (ServerNode M)) (d : ℕ → Bytes) (i : ℕ) (n : ServerNode M)
      → Synced ns d
      → get_elem? ns i ≡ some n
      → n.server_state ≡ connected
      → (b k : ℕ) → net.bytes n.banks b k ≡ d b k
  Synced-get [] d i n h e c b k = ground arith
  Synced-get (m ∷ ns) d zero n h e c b k =
      let same : m ≡ n = cc in rw (← same) (h.0 (rw same c) b k)
  Synced-get (m ∷ ns) d (suc i) n h e c b k = Synced-get ns d i n h.1 e c b k

  Synced-set :
      (ns : List (ServerNode M)) (d : ℕ → Bytes) (i : ℕ) (n : ServerNode M)
      → Synced ns d
      → (n.server_state ≡ connected → (b k : ℕ) → net.bytes n.banks b k ≡ d b k)
      → Synced (set ns i n) d
  Synced-set [] d i n h ok = tt
  Synced-set (m ∷ ns) d zero n h ok = (ok, h.1)
  Synced-set (m ∷ ns) d (suc i) n h ok = (h.0, Synced-set ns d i n h.1 ok)

  -- What a read into `buf` leaves behind: the servers still alike, and the buffer filled with the
  -- bytes that they share, or untouched and no server connected.
  pub record Read (d : ℕ → Bytes) (bank size offset : ℕ) (buf : Bytes)
      (r : Bool × Bytes × List (ServerNode M)) : Type 0 where
    pub synced : Synced r.2 d
    pub filled : r.0 ≡ true → (i : ℕ) → r.1 i ≡ memcpy buf 0 (λ k. d bank (offset + k)) size i
    pub failed : r.0 ≡ false → (r.1 ≡ buf) × (find_alive_server r.2 ≡ none)

  -- One read of a server that is connected.
  pub read_server-Synced :
      (d : ℕ → Bytes) (j bank size offset : ℕ) (buf : Bytes) (ns : List (ServerNode M))
      → Synced ns d
      → Synced (read_server net j bank size offset buf ns).2 d
  unfolding read_server
  read_server-Synced d j bank size offset buf ns h = elim (Option-cases (get_elem? ns j)) [
    | inl e ↦ rw (e, read_server) h
    | inr (n, e) ↦
        let r = net.dhmp_read n.banks bank size offset in
        elim (Bool-cases r.0) [
          | inl done ↦
              rw (e, read_server, done)
                (Synced-set ns d j _ h (λ c b i.
                  net.read_keeps n.banks bank size offset b i ∙ Synced-get ns d j n h e c b i))
          | inr bad ↦ rw (e, read_server, bad) (Synced-set ns d j _ h (λ c b i. ground arith))
        ]
  ]

  pub read_server_filled :
      (d : ℕ → Bytes) (j bank size offset : ℕ) (buf : Bytes) (ns : List (ServerNode M))
      → Synced ns d
      → state_of ns j ≡ connected
      → (read_server net j bank size offset buf ns).0 ≡ true
      → (i : ℕ)
      → (read_server net j bank size offset buf ns).1 i
        ≡ memcpy buf 0 (λ k. d bank (offset + k)) size i
  unfolding read_server
  read_server_filled d j bank size offset buf ns h c ok i = elim (Option-cases (get_elem? ns j)) [
    | inl e ↦ ground (arith, e)
    | inr (n, e) ↦
        let r = net.dhmp_read n.banks bank size offset in
        elim (Bool-cases r.0) [
          | inr bad ↦ ground (arith, e, bad)
          | inl done ↦
              rw (e, read_server, done)
                (ground (
                  arith,
                  net.read_bytes n.banks bank size offset i done,
                  Synced-get ns d j n h e (ground (arith, e)) bank (offset + i),
                ))
        ]
  ]

  live_one-le : (t : ServerState) → live_one t ≤ 1
  unfolding live_one
  live_one-le connected = omega arith
  live_one-le _ = omega arith

  pub live-le-length : (ns : List (ServerNode M)) → live ns ≤ length ns
  unfolding live
  live-le-length [] = omega arith
  live-le-length (n ∷ ns) = omega (arith, live_one-le n.server_state, live-le-length ns)

  live-set :
      (ns : List (ServerNode M)) (j : ℕ) (n m : ServerNode M)
      → get_elem? ns j ≡ some n
      → m.server_state ≡ disconnect
      → live (set ns j m) + live_one n.server_state ≡ live ns
  unfolding live
  live-set [] j n m e off = ground arith
  live-set (k ∷ ns) zero n m e off =
      let same : k ≡ n = cc in
      let gone : live_one m.server_state ≡ 0 = rw off refl in
      let one : live_one n.server_state ≡ live_one k.server_state = rw same refl in omega arith
  live-set (k ∷ ns) (suc j) n m e off = omega (arith, live-set ns j n m e off)

  pub live_pos :
      (ns : List (ServerNode M)) (j : ℕ) (n : ServerNode M)
      → get_elem? ns j ≡ some n
      → n.server_state ≡ connected
      → 0 < live ns
  unfolding live_one
  live_pos ns j n e on =
      let one : live_one n.server_state ≡ 1 = rw on refl in
      omega (arith, live-set ns j n (record n { server_state = disconnect }) e refl, one)

  live-set_lt :
      (ns : List (ServerNode M)) (j : ℕ) (n m : ServerNode M)
      → get_elem? ns j ≡ some n
      → m.server_state ≡ disconnect
      → live (set ns j m) < length ns
  unfolding live
  live-set_lt [] j n m e off = ground arith
  live-set_lt (k ∷ ns) zero n m e off =
      let gone : live_one m.server_state ≡ 0 = rw off refl in omega (arith, live-le-length ns)
  live-set_lt (k ∷ ns) (suc j) n m e off =
      omega (arith, live-set_lt ns j n m e off, live_one-le k.server_state)

  -- What a failed read of server `j` leaves behind.
  pub record Failed (j : ℕ) (buf : Bytes) (ns : List (ServerNode M))
      (r : Bool × Bytes × List (ServerNode M)) : Type 0 where
    pub kept : r.1 ≡ buf
    pub fewer : live r.2 < length ns
    pub fewer_live : state_of ns j ≡ connected → live r.2 < live ns

  pub read_server-Failed :
      (j bank size offset : ℕ) (buf : Bytes) (ns : List (ServerNode M)) (n : ServerNode M)
      → get_elem? ns j ≡ some n
      → (read_server net j bank size offset buf ns).0 ≡ false
      → Failed j buf ns (read_server net j bank size offset buf ns)
  unfolding read_server live_one
  read_server-Failed j bank size offset buf ns n e bad =
      let r = net.dhmp_read n.banks bank size offset in
      elim (Bool-cases r.0) [
        | inl done ↦ ground (arith, e, done)
        | inr no_read ↦
            rw (e, read_server, no_read)
              record {
                kept = refl;
                fewer = live-set_lt ns j n _ e refl;
                fewer_live = λ c.
                    let on : n.server_state ≡ connected = ground (arith, e, c) in
                    let one : live_one n.server_state ≡ 1 = rw on refl in
                    omega (arith, live-set ns j n _ e refl, one);
              }
      ]

  pub find_alive_server-none :
      (ns : List (ServerNode M)) → find_alive_server ns ≡ none → live ns ≡ 0
  unfolding find_alive_server live live_one
  find_alive_server-none [] e = refl
  find_alive_server-none (n ∷ ns) e = ground (arith, find_alive_server-none ns)
