-- ===== src/Socket/Server/Bounds.antt =====
-- How many clients a server has, whatever connects, leaves and is closed, in any order.
use openlan.Base.{
  ℕ, ◌+◌, ◌-◌, ◌^◌, ◌≤◌, ◌≡◌, ◌⊎◌, refl, inl, inr, true, some, List, [], ◌∷◌, String, string_eq,
  nat_eq, if◌then◌else◌, leb, length, length-append, arith, Option-cases,
}
use openlan.Base.Assoc.{
  lookup, has_key, Distinct, has_key-lookup, length-insert, length-erase, Distinct-insert,
  Distinct-erase,
}
use openlan.Safe.StrInt64
use openlan.Safe.StrInt64.Totals.{get-add}
use openlan.Safe.StrMap
use openlan.Socket.Client.{Conn, Messager}
use openlan.Socket.Server.{
  Server, on_close, remote_addr, new_socket_server, count, alive, total_client, pre_accept,
  accept_failed, off_client, do_on_client, accept, close_client, do_off_client, loop_on, loop_off,
}

pub data Step (M : Type 0) : Type 0 where
  accepts : ℕ → Conn → M → Step M
  errs : String → Step M
  leaves : ℕ → Step M
  closes_client : ℕ → ℕ → Step M
  turns_on : Step M
  turns_off : ℕ → Step M

List-cases : {A : Type 0} (xs : List A) → (xs ≡ []) ⊎ ((y : A) × (ys : List A) × (xs ≡ y ∷ ys))
List-cases [] = inl refl
List-cases (y ∷ ys) = inr (y, ys, refl)

module _ {M P : Type 0} where
  -- As many as are counted, at most 128, cover the clients in the table and in the queue.
  abbrev Bounded : Server M P → Type 0
  Bounded t =
      (t.max_client ≡ 128)
      × (alive t ≤ 128)
      × (length t.clients.entries + length t.on_clients ≤ alive t)
      × Distinct t.clients.entries

  pre_accept-alive :
      (conn : Conn) (t : Server M P)
      → t.max_client ≡ 128
      → alive t ≤ 128
      → ((pre_accept conn t).1 ≡ leb (alive t + 1) 128)
        × (alive (pre_accept conn t).0 ≡ (if leb (alive t + 1) 128 then alive t + 1 else alive t))
        × ((pre_accept conn t).0.max_client ≡ 128)
        × ((pre_accept conn t).0.clients ≡ t.clients)
        × ((pre_accept conn t).0.on_clients ≡ t.on_clients)
  unfolding pre_accept alive count
  pre_accept-alive conn t m b =
      let s1 = StrInt64.add "accept" 1 t.statistics in
      let s2 = StrInt64.add "deny" 1 s1 in
      ground (
        arith,
        get-add "accept" "alive" 1 t.statistics (omega arith),
        get-add "deny" "alive" 1 s1 (omega arith),
        get-add "closed" "alive" 1 s2 (omega arith),
        get-add "alive" "alive" 1 s1 (omega arith),
      )

  do_on_client-Bounded :
      (c : ℕ) (cs : List ℕ) (t : Server M P)
      → t.on_clients ≡ c ∷ cs
      → Bounded t
      → Bounded (do_on_client c (record t { on_clients = cs }))
  unfolding do_on_client alive StrMap.set StrMap.add
  do_on_client-Bounded c cs t e (m, b, l, d) =
      let addr = remote_addr c (record t { on_clients = cs }) in
      (
        m,
        b,
        ground (arith, e, l, length-insert addr (some c) t.clients.entries),
        ground (arith, Distinct-insert addr (some c) t.clients.entries d),
      )

module _ {M P : Type 0} (i : Messager M) where
  accept-Bounded :
      (now : ℕ) (conn : Conn) (message : M) (t : Server M P)
      → Bounded t
      → Bounded (accept i now conn message t)
  unfolding accept alive
  accept-Bounded now conn message t (m, b, l, d) =
      let r = pre_accept-alive conn t m b in
      ground (arith, r, l, d, length-append t.on_clients (t.next ∷ []))

  close_client-keeps :
      (now c : ℕ) (t : Server M P)
      → ((close_client i now c t).statistics ≡ t.statistics)
        × ((close_client i now c t).clients ≡ t.clients)
        × ((close_client i now c t).on_clients ≡ t.on_clients)
        × ((close_client i now c t).max_client ≡ t.max_client)
  unfolding close_client
  close_client-keeps now c t = ground arith

  do_off_client-Bounded :
      (now c : ℕ) (t : Server M P) → Bounded t → Bounded (do_off_client i now c t)
  unfolding do_off_client alive count StrMap.del StrMap.get_ex
  do_off_client-Bounded now c t (m, b, l, d) =
      let addr = remote_addr c t in
      let stats = StrInt64.add "closed" 1 t.statistics in
      let k =
        close_client-keeps now c (record t { statistics = stats; calls = on_close c ∷ t.calls }) in
      elim (Option-cases (lookup addr t.clients.entries)) [
        | inl e ↦ ground (arith, e, m, b, l, d)
        | inr (v, e) ↦
            let there : has_key addr t.clients.entries ≡ true =
              ground (arith, has_key-lookup addr t.clients.entries) in
            ground (
              arith,
              e,
              there,
              m,
              b,
              l,
              k,
              get-add "closed" "alive" 1 t.statistics (omega arith),
              get-add "alive" "alive" (2 ^ 64 - 1) stats (omega arith),
              length-erase addr t.clients.entries e,
              Distinct-erase addr t.clients.entries d,
            )
      ]

  unfoldable pub step : Step M → Server M P → Server M P
  step (accepts now conn message) t = accept i now conn message t
  step (errs err) t = accept_failed err t
  step (leaves c) t = off_client c t
  step (closes_client now c) t = close_client i now c t
  step turns_on t = loop_on t
  step (turns_off now) t = loop_off i now t

  unfoldable pub run : List (Step M) → Server M P → Server M P
  run [] t = t
  run (x ∷ xs) t = run xs (step x t)

  loop_on-Bounded : (t : Server M P) → Bounded t → Bounded (loop_on t)
  unfolding loop_on
  loop_on-Bounded t b = elim (List-cases t.on_clients) [
    | inl e ↦ rw (loop_on, e) b
    | inr (c, cs, e) ↦ rw (loop_on, e) (do_on_client-Bounded c cs t e b)
  ]

  loop_off-Bounded : (now : ℕ) (t : Server M P) → Bounded t → Bounded (loop_off i now t)
  unfolding loop_off alive
  loop_off-Bounded now t b = elim (List-cases t.off_clients) [
    | inl e ↦ rw (loop_off, e) b
    | inr (c, cs, e) ↦
        rw (loop_off, e) (do_off_client-Bounded now c (record t { off_clients = cs }) b)
  ]

  step-Bounded : (x : Step M) (t : Server M P) → Bounded t → Bounded (step x t)
  unfolding step accept_failed off_client alive
  step-Bounded (accepts now conn message) t b = accept-Bounded now conn message t b
  step-Bounded (errs err) t b = b
  step-Bounded (leaves c) t b = b
  step-Bounded (closes_client now c) t b =
      let k = close_client-keeps now c t in ground (arith, b, k)
  step-Bounded turns_on t b = loop_on-Bounded t b
  step-Bounded (turns_off now) t b = loop_off-Bounded now t b

  run-Bounded : (xs : List (Step M)) (t : Server M P) → Bounded t → Bounded (run xs t)
  unfolding run
  run-Bounded [] t b = b
  run-Bounded (x ∷ xs) t b = run-Bounded xs (step x t) (step-Bounded x t b)

-- After any connections, failures to accept, turns of the loop, calls of OffClient and closes of
-- clients, in any order, a new server counts at most 128 clients alive, and at least those in its
-- table and those that wait for its loop; the next connection is allowed exactly if fewer than 128
-- are counted.
pub run-new_socket_server :
    {M : Type 0} (P : Type 0) (i : Messager M) (xs : List (Step M)) (listen : String) (conn : Conn)
    → let t : Server M P = run i xs (new_socket_server listen) in
      (total_client t + length t.on_clients ≤ alive t)
      × (alive t ≤ 128)
      × ((pre_accept conn t).1 ≡ leb (alive t + 1) 128)
unfolding total_client StrMap.len new_socket_server StrMap.new alive StrInt64.get lookup
run-new_socket_server {M = M} P i xs listen conn =
    let t : Server M P = run i xs (new_socket_server listen) in
    let b = run-Bounded i xs (new_socket_server listen) (refl, omega arith, omega arith, tt) in
    (b.2, b.1, (pre_accept-alive conn t b.0 b.1).0)
