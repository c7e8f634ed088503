-- ===== src/Point/SocketWorker/Sleeps.antt =====
-- How long a point waits before it connects again, and that it does.
use openlan.Base.{
  ℕ, ◌+◌, ◌*◌, ◌≤◌, ◌<◌, ◌≡◌, refl, ap, sym, ◌∙◌, inl, inr, true, false, Option, none, some, List,
  [], ◌∷◌, ◌++◌, String, string_eq, if◌then◌else◌, ltb, leb, arith, Option-cases, Bool-cases,
}
use mathlib.Core.Path.{subst}
use openlan.Base.Assoc.{lookup-insert}
use openlan.Base.Slices.{◌>>=◌}
use openlan.Safe.StrInt64
use openlan.Safe.StrInt64.Totals.{get-add}
use openlan.Socket.Client
use openlan.Socket.Client.{
  Status, connected, connecting, Conn, Call, Messager, Socket, closes, on_connected, on_close,
  on_status,
}
use openlan.Point.SocketWorker.{
  SocketWorker, Json, with_client, set, get, sleep_now, sleep_idle, is_stopped, reconnect,
}
use openlan.Point.SocketWorker.Auth.{hear-client}
use openlan.Point.SocketWorker.Turns.{connect, job, run_jobs, check_jobber}

module _ {M : Type 0} where
  pub get-set :
      (k j : String) (v : ℕ) (t : SocketWorker M)
      → get k (set j v t) ≡ (if string_eq.beq j k then v else get k t)
  unfolding get set StrInt64.get StrInt64.set
  get-set k j v t = ground (arith, lookup-insert j k v t.timers)

  sleep_idle-fields :
      (t : SocketWorker M)
      → get "sleeps" t ≤ 20
      → let r = sleep_idle t in
        (get "sleeps" r.0 ≤ 20)
        × (get "sleeps" t ≤ get "sleeps" r.0)
        × (r.1 ≡ get "sleeps" r.0 * 5)
        × (get "reconnAt" r.0 ≡ get "reconnAt" t)
        × (get "connAt" r.0 ≡ get "connAt" t)
        × (get "conns" r.0 ≡ get "conns" t)
        × (r.0.client ≡ t.client)
  unfolding sleep_idle sleep_now get
  sleep_idle-fields t b = elim (Bool-cases (ltb (StrInt64.get "sleeps" t.timers) 20)) [
    | inl e ↦ ground (
      arith,
      e,
      b,
      get-add "sleeps" "sleeps" 1 t.timers (omega arith),
      get-add "sleeps" "reconnAt" 1 t.timers (omega arith),
      get-add "sleeps" "connAt" 1 t.timers (omega arith),
      get-add "sleeps" "conns" 1 t.timers (omega arith),
    )
    | inr e ↦ ground (arith, e, b)
  ]

  -- What a reconnect leaves: a job later by the sleeps, times five, and the present time.
  Scheduled : ℕ → SocketWorker M → SocketWorker M → Type 0
  Scheduled now t r =
      (r.jobber ≡ t.jobber ++ ((now + get "sleeps" r * 5) ∷ []))
      × (get "sleeps" r ≤ 20)
      × (get "sleeps" t ≤ get "sleeps" r)
      × (get "reconnAt" r ≡ now)
      × (get "connAt" r ≡ get "connAt" t)
      × (get "conns" r ≡ get "conns" t)
      × (r.client ≡ t.client)

  reconnect-Scheduled :
      (now : ℕ) (t : SocketWorker M)
      → get "sleeps" t ≤ 20
      → is_stopped t ≡ false
      → Scheduled now t (reconnect now t)
  unfolding Scheduled reconnect get set
  reconnect-Scheduled now t b r =
      let t1 = set "reconnAt" now t in
      let q = sleep_idle t1 in
      let f = sleep_idle-fields t1 (rw (get-set "sleeps" "reconnAt" now t) b) in
      let eq : reconnect now t ≡ record q.0 { jobber = t.jobber ++ ((now + q.1) ∷ []) } =
        ground (arith, r) in
      rw eq (
        rw f.2 refl,
        f.0,
        rw (sym (get-set "sleeps" "reconnAt" now t)) f.1,
        f.3 ∙ get-set "reconnAt" "reconnAt" now t,
        f.4 ∙ get-set "connAt" "reconnAt" now t,
        f.5 ∙ get-set "conns" "reconnAt" now t,
        f.6,
      )

-- What dialing leaves: connected, or without a connection and still connecting.
abbrev pub dialed_status : Option Conn → Status
dialed_status none = connecting
dialed_status (some c) = connected

-- A socket that has dialed, with what that gave.
abbrev pub HasDialed : {M : Type 0} → Option Conn → Option (Socket M Unit) → Type 0
HasDialed c o =
    (s : Socket _ Unit) × (o ≡ some s) × (s.connection ≡ c) × (s.status ≡ dialed_status c)

module _ {M : Type 0} (i : Messager M) (j : Json) (dial : ℕ → Option Conn) where
  -- A client that is closed and made initial dials.
  dials_again :
      (now : ℕ) (s : Socket M Unit) (c : Option Conn)
      → let s1 = Client.set_status Status.init (Client.close i now s) in
        ((Client.connect i now c s1).0.connection ≡ c)
        × ((Client.connect i now c s1).0.status ≡ dialed_status c)
  unfolding Client.connect Client.close Client.set_status Client.retry Client.is_ok Client.call
      Client.update_conn Client.set_connection Client.status_eq
  dials_again now s none = elim (Option-cases s.connection) [
    | inl e ↦ ground (arith, e)
    | inr (d, e) ↦ ground (arith, e)
  ]
  dials_again now s (some c) = elim (Option-cases s.connection) [
    | inl e ↦ ground (arith, e)
    | inr (d, e) ↦ ground (arith, e)
  ]

  connect-dials :
      (now : ℕ) (s : Socket M Unit) (t : SocketWorker M)
      → t.client ≡ some s
      → (t1 : SocketWorker M) × (connect i j dial now t ≡ some t1)
        × HasDialed (dial (get "conns" t)) t1.client
  unfolding connect with_client get
  connect-dials now s t e =
      let c = dial (get "conns" t) in
      let s2 = (Client.connect i now c (Client.set_status Status.init (Client.close i now s))).0 in
      let t0 : SocketWorker M = record t { timers = StrInt64.add "conns" 1 t.timers } in
      (
        with_client now s2 t0,
        rw (connect, e) refl,
        (
          record s2 { calls = [] },
          hear-client now s2.calls (record t0 { client = some (record s2 { calls = [] }) }),
          (dials_again now s c).0,
          (dials_again now s c).1,
        ),
      )

  -- One job that is due, and no connection since the reconnect.
  job_connects :
      (later : ℕ) (u t1 : SocketWorker M)
      → leb (get "reconnAt" u) (get "connAt" u) ≡ false
      → connect i j dial later u ≡ some t1
      → job i j dial later u ≡ some t1
  unfolding job
  job_connects later u t1 l e = ground (arith, l, e)

  check_jobber-one :
      (later time : ℕ) (u t1 : SocketWorker M)
      → u.jobber ≡ time ∷ []
      → leb time later ≡ true
      → job i j dial later u ≡ some t1
      → check_jobber i j dial later u ≡ some (record t1 { jobber = [] })
  unfolding check_jobber run_jobs
  check_jobber-one later time u t1 q d e =
      let one : run_jobs i j dial later (time ∷ []) u ≡ some (t1, []) = ground (arith, d, e) in
      let rest : List ℕ → Option (SocketWorker M) =
        λ js. run_jobs i j dial later js u >>= λ r. some (record r.0 { jobber = r.1 }) in
      ap rest q ∙ ap (λ o. o >>= λ r. some (record r.0 { jobber = r.1 })) one

  -- Where the client is not stopped, no connection has come up since and no other job waits, a
  -- reconnect that a point with at most twenty sleeps is told of leads to a connect when the jobs are
  -- checked, a hundred seconds later or more and with nothing else in between. The job is then gone,
  -- whether dialing succeeds or not. If it succeeds the client is connected with what was dialed; if it
  -- fails the client has no connection and is still connecting.
  pub check_jobber-reconnect :
      (now later : ℕ) (s : Socket M Unit) (t : SocketWorker M)
      → t.client ≡ some s
      → is_stopped t ≡ false
      → get "sleeps" t ≤ 20
      → t.jobber ≡ []
      → get "connAt" t < now
      → now + 100 ≤ later
      → (t1 : SocketWorker M) × (check_jobber i j dial later (reconnect now t) ≡ some t1)
        × (t1.jobber ≡ [])
        × HasDialed (dial (get "conns" t)) t1.client
  unfolding Scheduled
  check_jobber-reconnect now later s t e r b q l w =
      let p = reconnect-Scheduled now t b r in
      let u = reconnect now t in
      let time = now + get "sleeps" u * 5 in
      let (t1, e1, ic) = connect-dials later s u (p.6 ∙ e) in
      let due : leb time later ≡ true = ground (arith, p.1, w) in
      let late : leb (get "reconnAt" u) (get "connAt" u) ≡ false = ground (arith, p.3, p.4, l) in
      let waits : u.jobber ≡ time ∷ [] = p.0 ∙ ap (λ js. js ++ (time ∷ [])) q in
      (
        record t1 { jobber = [] },
        check_jobber-one later time u t1 waits due (job_connects later u t1 late e1),
        refl,
        subst (λ n. HasDialed (dial n) t1.client) p.5 ic,
      )
