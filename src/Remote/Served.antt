-- ===== src/Remote/Served.antt =====
-- When `dhmp_fs_read_from_remote` fills the buffer: as long as one connected server answers.
use fuse_node.Prelude.{
  ℕ, zero, suc, ◌+◌, ◌%◌, ◌<◌, ◌≡◌, ◌≢◌, ◌⊎◌, refl, ap, Bool, true, false, Option, none, some, List,
  [], ◌∷◌, length, ◌==◌, get_elem?, set, arith, Bool-cases, Option-cases, inl, inr, ==_iff,
}
use fuse_node.Dhmp.{Dhmp, Bytes, memcpy}
use fuse_node.Remote.{
  connected, disconnect, ServerNode, find_alive_server, state_of, pick, read_server, read_loop,
  read_from_remote,
}
use fuse_node.Remote.Replicas.{Synced, live_pos, find_alive_server-none}
use fuse_node.Remote.ReadLoop.{read_from_remote-Read}

get_elem?-set_other :
    {A : Type 0} (l : List A) (j i : ℕ) (v x : A)
    → j ≢ i
    → get_elem? l i ≡ some x
    → get_elem? (set l j v) i ≡ some x
get_elem?-set_other [] j i v x ne e = e
get_elem?-set_other (y ∷ l) zero zero v x ne e = absurd (ne refl)
get_elem?-set_other (y ∷ l) zero (suc i) v x ne e = e
get_elem?-set_other (y ∷ l) (suc j) zero v x ne e = e
get_elem?-set_other (y ∷ l) (suc j) (suc i) v x ne e =
    get_elem?-set_other l j i v x (λ q. ne (ap suc q)) e

module _ {M : Type 0} (net : Dhmp M) (bank size offset i : ℕ) (n : ServerNode M)
    (answers : (net.dhmp_read n.banks bank size offset).0 ≡ true) where
  -- One call fills the buffer or leaves the answering server as it is.
  read_server_steady :
      (j : ℕ) (buf : Bytes) (ns : List (ServerNode M))
      → get_elem? ns i ≡ some n
      → (read_server net j bank size offset buf ns).0 ≡ false
      → get_elem? (read_server net j bank size offset buf ns).2 i ≡ some n
  unfolding read_server
  read_server_steady j buf ns at bad = elim (Option-cases (get_elem? ns j)) [
    | inl e ↦ rw (read_server, e) at
    | inr (m, e) ↦ elim (Bool-cases (j == i)) [
      | inl q ↦
          let p : j ≡ i = (==_iff j i).0 q in
          let same : m ≡ n = (let f = rw p at e in ground (arith, f, at)) in
          (let z = rw (read_server, e, same, answers) at bad in ground (arith, z))
      | inr q ↦
          let ne : j ≢ i = λ p. ground (arith, q, p, ==_iff j i) in
          rw (read_server, e)
            (elim (Bool-cases (net.dhmp_read m.banks bank size offset).0) [
              | inl f ↦ rw f (
                  get_elem?-set_other ns j i
                    (record m { banks = (net.dhmp_read m.banks bank size offset).2 }) n ne at)
              | inr f ↦ rw f (
                  get_elem?-set_other ns j i
                    (record m {
                      banks = (net.dhmp_read m.banks bank size offset).2;
                      alive = false;
                      server_state = disconnect;
                    })
                    n ne at)
            ])
    ]
  ]

  read_loop_steady :
      (fuel : ℕ) (o : Option ℕ) (buf : Bytes) (ns : List (ServerNode M))
      (r : Bool × Bytes × List (ServerNode M))
      → get_elem? ns i ≡ some n
      → read_loop net fuel o bank size offset buf ns ≡ some r
      → (r.0 ≡ true) ⊎ (get_elem? r.2 i ≡ some n)
  unfolding read_loop
  read_loop_steady fuel none buf ns r at run =
      inr (let same : ns ≡ r.2 = ground (arith, run) in rw (← same) at)
  read_loop_steady zero (some j) buf ns r at run = ground (arith, run)
  read_loop_steady (suc fuel) (some j) buf ns r at run = elim (Option-cases (pick ns j)) [
    | inl e ↦
        (let f = rw (read_loop, e) at run in
          let same : ns ≡ r.2 = ground (arith, f) in inr (rw (← same) at))
    | inr (k, e) ↦
        let c = read_server net k bank size offset buf ns in
        elim (Bool-cases c.0) [
          | inl done ↦ (let f = rw (read_loop, e, done) at run in inl (ground (arith, f, done)))
          | inr bad ↦
              read_loop_steady fuel (find_alive_server c.2) buf c.2 r
                (read_server_steady k buf ns at bad) (rw (read_loop, e, bad) at run)
        ]
  ]

-- If the connected servers hold the bytes `d`, one of them answers the read, and the server that
-- `rand()` picks is not marked disconnected, then the read ends and fills the buffer with
-- the bytes of `d`, whichever other servers fail.
pub read_from_remote-Served :
    {M : Type 0} (net : Dhmp M) (d : ℕ → Bytes) (bank size offset i : ℕ) (buf : Bytes) (rand : ℕ)
    (ns : List (ServerNode M)) (n : ServerNode M)
    → get_elem? ns i ≡ some n
    → n.server_state ≡ connected
    → (net.dhmp_read n.banks bank size offset).0 ≡ true
    → Synced net ns d
    → state_of ns (rand % length ns) ≢ disconnect
    → (r : Bool × Bytes × List (ServerNode M)) × (read_from_remote net rand bank size offset buf ns
        ≡ some r)
      × (r.0 ≡ true)
      × ((k : ℕ) → r.1 k ≡ memcpy buf 0 (λ j. d bank (offset + j)) size k)
unfolding read_from_remote
read_from_remote-Served {M = M} net d bank size offset i buf rand ns n at on answers synced picked =
    let (r, run, read) =
      read_from_remote-Read net d bank size offset buf rand ns (some_server ns i n at) synced
        picked in
    let filled : r.0 ≡ true = elim (Bool-cases r.0) [
      | inl e ↦ e
      | inr e ↦
          elim (read_loop_steady net bank size offset i n answers (length ns)
            (some (rand % length ns)) buf ns r at run) [
              | inl f ↦ f
              | inr f ↦
                  let none_live = find_alive_server-none net r.2 (read.failed e).1 in
                  let one_live = live_pos net r.2 i n f on in
                  absurd (omega (arith, none_live, one_live))
            ]
    ] in
    (r, run, filled, λ k. read.filled filled k)
  where
    some_server :
        (ns : List (ServerNode M)) (i : ℕ) (n : ServerNode M)
        → get_elem? ns i ≡ some n
        → 0 < length ns
    some_server [] i n at = ground (arith, at)
    some_server (m ∷ ms) i n at = omega arith
