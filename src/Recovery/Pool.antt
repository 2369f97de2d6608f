-- ===== src/Recovery/Pool.antt =====
-- The servers of the pool by their index, and what the calls of a recovery do to them.
use mathlib.Core.Option
use fuse_node.Prelude.{
  ℕ, zero, suc, ◌+◌, ◌-◌, ◌<◌, ◌≡◌, ◌≢◌, refl, ap, ◌∙◌, true, false, ◌&&◌, Option, some, List, [],
  ◌∷◌, ltb, leb, ◌==◌, if◌then◌else◌, get_elem?, set, arith, Bool-cases, Option-cases, ==_iff, inl,
  inr,
}
use fuse_node.Config.{bank_size, bank_num}
use fuse_node.Dhmp.{Dhmp, Bytes}
use fuse_node.Remote.{ServerState, connected, RwTask, ServerNode}
use fuse_node.Recovery.{modify, set_state, fetch, store}

module _ {M : Type 0} where
  get_elem?-set :
      (ns : List (ServerNode M)) (i k : ℕ) (n : ServerNode M)
      → get_elem? (set ns i n) k
        ≡ (if i == k then Option.map (λ _. n) (get_elem? ns k) else get_elem? ns k)
  get_elem?-set [] i k n = ground arith
  get_elem?-set (m ∷ ns) zero zero n = ground arith
  get_elem?-set (m ∷ ns) zero (suc k) n = ground arith
  get_elem?-set (m ∷ ns) (suc i) zero n = ground arith
  get_elem?-set (m ∷ ns) (suc i) (suc k) n = ground (arith, get_elem?-set ns i k n)

  pub get_elem?-modify :
      (ns : List (ServerNode M)) (i k : ℕ) (f : ServerNode M → ServerNode M)
      → get_elem? (modify ns i f) k
        ≡ (if i == k then Option.map f (get_elem? ns k) else get_elem? ns k)
  get_elem?-modify [] i k f = ground arith
  get_elem?-modify (m ∷ ns) zero zero f = ground arith
  get_elem?-modify (m ∷ ns) zero (suc k) f = ground arith
  get_elem?-modify (m ∷ ns) (suc i) zero f = ground arith
  get_elem?-modify (m ∷ ns) (suc i) (suc k) f = ground (arith, get_elem?-modify ns i k f)

  abbrev pub state_at : List (ServerNode M) → ℕ → Option ServerState
  state_at ns k = Option.map (λ n. n.server_state) (get_elem? ns k)

  abbrev pub tasks_at : List (ServerNode M) → ℕ → Option (List RwTask)
  tasks_at ns k = Option.map (λ n. n.rw_task_head) (get_elem? ns k)

  -- A change of one server keeps what the change does not touch.
  pub modify-same :
      {A : Type 0} (g : ServerNode M → A) (ns : List (ServerNode M)) (i k : ℕ)
      (f : ServerNode M → ServerNode M)
      → ((n : ServerNode M) → g (f n) ≡ g n)
      → Option.map g (get_elem? (modify ns i f) k) ≡ Option.map g (get_elem? ns k)
  modify-same g ns i k f same = rw (get_elem?-modify ns i k f) (elim (Bool-cases (i == k)) [
    | inr q ↦ rw q refl
    | inl q ↦ rw q (elim (Option-cases (get_elem? ns k)) [
      | inl e ↦ rw e refl
      | inr (n, e) ↦ rw e (ap some (same n))
    ])
  ])

  pub modify-other :
      {A : Type 0} (g : ServerNode M → A) (ns : List (ServerNode M)) (i k : ℕ)
      (f : ServerNode M → ServerNode M)
      → i ≢ k
      → Option.map g (get_elem? (modify ns i f) k) ≡ Option.map g (get_elem? ns k)
  modify-other g ns i k f off =
      let q : (i == k) ≡ false = ground (arith, off, ==_iff i k) in
      rw (get_elem?-modify ns i k f) (rw q refl)

  -- The state of a server that is given a new one, and of the others.
  pub modify-state_at :
      (ns : List (ServerNode M)) (i k : ℕ) (st : ServerState)
      → state_at (modify ns i (set_state st)) k
        ≡ (if i == k then Option.map (λ _. st) (state_at ns k) else state_at ns k)
  modify-state_at ns i k st =
      rw (state_at, get_elem?-modify ns i k (set_state st))
        (elim (Bool-cases (i == k)) [
          | inr q ↦ rw q refl
          | inl q ↦
              rw q (elim (Option-cases (get_elem? ns k)) [
                | inl e ↦ rw e refl
                | inr (n, e) ↦ rw e refl
              ])
        ])

  -- A server that gets a state that is not connected.
  pub down-state_at :
      (ns : List (ServerNode M)) (i k : ℕ) (st : ServerState)
      → st ≢ connected
      → state_at (modify ns i (set_state st)) k ≡ some connected
      → (state_at ns k ≡ some connected) × (i ≢ k)
  down-state_at ns i k st off on =
      let f = rw (modify-state_at ns i k st) at on in
      elim (Bool-cases (i == k)) [
        | inr q ↦ (rw q at f, λ e. ground (arith, e, q, ==_iff i k))
        | inl q ↦
            (let g = rw q at f in
              elim (Option-cases (state_at ns k)) [
                | inl e ↦ (let z = rw e at g in ground (arith, z))
                | inr (st', e) ↦ (let z = rw e at g in absurd (off (ground (arith, z))))
              ])
      ]

module _ {M : Type 0} (net : Dhmp M) where
  -- Byte `j` of bank `b` of server `k`.
  abbrev pub byte_at : List (ServerNode M) → ℕ → ℕ → ℕ → Option ℕ
  byte_at ns k b j = Option.map (λ n. net.bytes n.banks b j) (get_elem? ns k)

  -- Every connected server holds `d`, in all banks of the disk.
  abbrev pub InStep : List (ServerNode M) → (ℕ → Bytes) → Type 0
  InStep ns d =
      (k b j : ℕ)
      → b < bank_num
      → j < bank_size
      → state_at ns k ≡ some connected
      → byte_at ns k b j ≡ some (d b j)

  -- A value of server `k` is as before, where the new server `i` has the same one.
  set-same :
      {A : Type 0} (g : ServerNode M → A) (ns : List (ServerNode M)) (i k : ℕ) (n m : ServerNode M)
      → get_elem? ns i ≡ some n
      → g m ≡ g n
      → Option.map g (get_elem? (set ns i m) k) ≡ Option.map g (get_elem? ns k)
  set-same g ns i k n m e same = rw (get_elem?-set ns i k m) (elim (Bool-cases (i == k)) [
    | inr q ↦ rw q refl
    | inl q ↦
        let f : get_elem? ns k ≡ some n = rw ((==_iff i k).0 q) at e in rw (q, f) (ap some same)
  ])

  -- Reading a bank of a server changes no state and no byte.
  pub fetch-state_at :
      (i bank : ℕ) (buf : Bytes) (ns : List (ServerNode M)) (k : ℕ)
      → state_at (fetch net i bank buf ns).2 k ≡ state_at ns k
  fetch-state_at i bank buf ns k = elim (Option-cases (get_elem? ns i)) [
    | inl e ↦ rw (fetch, e) refl
    | inr (n, e) ↦
        rw (fetch, e)
          (set-same (λ m. m.server_state) ns i k n
            (record n { banks = (net.dhmp_read n.banks bank bank_size 0).2 }) e refl)
  ]

  pub fetch-byte_at :
      (i bank : ℕ) (buf : Bytes) (ns : List (ServerNode M)) (k b j : ℕ)
      → byte_at (fetch net i bank buf ns).2 k b j ≡ byte_at ns k b j
  fetch-byte_at i bank buf ns k b j = elim (Option-cases (get_elem? ns i)) [
    | inl e ↦ rw (fetch, e) refl
    | inr (n, e) ↦
        rw (fetch, e)
          (set-same (λ m. net.bytes m.banks b j) ns i k n
            (record n { banks = (net.dhmp_read n.banks bank bank_size 0).2 }) e
            (net.read_keeps n.banks bank bank_size 0 b j))
  ]

  pub fetch-tasks_at :
      (i bank : ℕ) (buf : Bytes) (ns : List (ServerNode M)) (k : ℕ)
      → tasks_at (fetch net i bank buf ns).2 k ≡ tasks_at ns k
  fetch-tasks_at i bank buf ns k = elim (Option-cases (get_elem? ns i)) [
    | inl e ↦ rw (fetch, e) refl
    | inr (n, e) ↦
        rw (fetch, e)
          (set-same (λ m. m.rw_task_head) ns i k n
            (record n { banks = (net.dhmp_read n.banks bank bank_size 0).2 }) e refl)
  ]

  -- What a successful read puts into the buffer.
  pub fetch-buffer :
      (i bank : ℕ) (buf : Bytes) (ns : List (ServerNode M)) (j : ℕ)
      → (fetch net i bank buf ns).0 ≡ true
      → j < bank_size
      → some ((fetch net i bank buf ns).1 j) ≡ byte_at ns i bank j
  fetch-buffer i bank buf ns j done lt = elim (Option-cases (get_elem? ns i)) [
    | inl e ↦ (let f = rw (fetch, e) at done in ground (arith, f))
    | inr (n, e) ↦
        let f = rw (fetch, e) at done in
        let r = net.read_bytes n.banks bank bank_size 0 j f lt in
        let z : j - 0 ≡ j = omega arith in
        let inside : (leb 0 j && ltb j (0 + bank_size)) ≡ true = ground (arith, lt) in
        rw (fetch, e, byte_at)
          (rw f (rw (inside, z) (ap some (r ∙ ap (net.bytes n.banks bank) (omega arith)))))
  ]

  pub store-state_at :
      (i bank : ℕ) (buf : Bytes) (size offset : ℕ) (ns : List (ServerNode M)) (k : ℕ)
      → state_at (store net i bank buf size offset ns).1 k ≡ state_at ns k
  store-state_at i bank buf size offset ns k = elim (Option-cases (get_elem? ns i)) [
    | inl e ↦ rw (store, e) refl
    | inr (n, e) ↦
        rw (store, e)
          (set-same (λ m. m.server_state) ns i k n
            (record n { banks = (net.dhmp_write n.banks bank buf size offset).1 }) e refl)
  ]

  pub store-tasks_at :
      (i bank : ℕ) (buf : Bytes) (size offset : ℕ) (ns : List (ServerNode M)) (k : ℕ)
      → tasks_at (store net i bank buf size offset ns).1 k ≡ tasks_at ns k
  store-tasks_at i bank buf size offset ns k = elim (Option-cases (get_elem? ns i)) [
    | inl e ↦ rw (store, e) refl
    | inr (n, e) ↦
        rw (store, e)
          (set-same (λ m. m.rw_task_head) ns i k n
            (record n { banks = (net.dhmp_write n.banks bank buf size offset).1 }) e refl)
  ]

  -- A write to one server leaves the others as they are.
  pub store-other :
      (i bank : ℕ) (buf : Bytes) (size offset : ℕ) (ns : List (ServerNode M)) (k b j : ℕ)
      → i ≢ k
      → byte_at (store net i bank buf size offset ns).1 k b j ≡ byte_at ns k b j
  store-other i bank buf size offset ns k b j ne = elim (Option-cases (get_elem? ns i)) [
    | inl e ↦ rw (store, e) refl
    | inr (n, e) ↦
        let q : (i == k) ≡ false = ground (arith, ne, ==_iff i k) in
        rw (store, e)
          (rw
            (
              byte_at,
              get_elem?-set ns i k
                  (record n { banks = (net.dhmp_write n.banks bank buf size offset).1 }),
            )
            (rw q refl))
  ]

  -- A successful write of a whole bank.
  pub store-byte_at :
      (i bank : ℕ) (buf : Bytes) (ns : List (ServerNode M)) (b j : ℕ)
      → (store net i bank buf bank_size 0 ns).0 ≡ true
      → j < bank_size
      → byte_at (store net i bank buf bank_size 0 ns).1 i b j
        ≡ (if b == bank then some (buf j) else byte_at ns i b j)
  store-byte_at i bank buf ns b j done lt = elim (Option-cases (get_elem? ns i)) [
    | inl e ↦ (let f = rw (store, e) at done in ground (arith, f))
    | inr (n, e) ↦
        let f = rw (store, e) at done in
        let r = net.write_bytes n.banks bank buf bank_size 0 b j f in
        let z : j - 0 ≡ j = omega arith in
        let inside : (leb 0 j && ltb j (0 + bank_size)) ≡ true = ground (arith, lt) in
        let q : (i == i) ≡ true = ground arith in
        rw (store, e)
          (rw
            (
              byte_at,
              get_elem?-set ns i i
                  (record n { banks = (net.dhmp_write n.banks bank buf bank_size 0).1 }),
            )
            (rw (q, e)
              (elim (Bool-cases (b == bank)) [
                | inl x ↦ rw x (ap some ((rw x at r) ∙ (rw (inside, z) refl)))
                | inr x ↦ rw x (ap some (rw x at r))
              ])))
  ]
