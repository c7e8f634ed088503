-- ===== src/Socket/Client/Dialing.antt =====
-- What Connect, Close, Terminal and SetStatus leave of connections, in any order.
use mathlib.Core.List.{append_assoc, append-nil}
use openlan.Base.{
  ℕ, ◌+◌, ◌≡◌, refl, inl, inr, Bool, true, false, ◌&&◌, Option, none, some, List, [], ◌∷◌, ◌++◌,
  String, length, arith, Option-cases,
}
use openlan.Socket.Client.{
  Status, terminal, Conn, Call, closes, on_connected, on_close, on_status, Messager, Socket,
  new_socket_client, is_ok, retry, set_status, status_eq, call, update_conn, set_connection,
  connect, close, terminate,
}

-- A call of the socket: its time, and what dialing would give.
pub data Op : Type 0 where
  connects : ℕ → Option Conn → Op
  ends : ℕ → Op
  stops : ℕ → Op
  sets : Status → Op

-- The connections that were closed, and how often the listeners were told, of the calls.
abbrev pub closed_conns : List Call → List Conn
closed_conns [] = []
closed_conns (closes c ∷ cs) = c ∷ closed_conns cs
closed_conns (on_connected ∷ cs) = closed_conns cs
closed_conns (on_close ∷ cs) = closed_conns cs
closed_conns (on_status a b ∷ cs) = closed_conns cs

abbrev pub count_connected : List Call → ℕ
count_connected [] = 0
count_connected (closes c ∷ cs) = count_connected cs
count_connected (on_connected ∷ cs) = count_connected cs + 1
count_connected (on_close ∷ cs) = count_connected cs
count_connected (on_status a b ∷ cs) = count_connected cs

abbrev pub count_close : List Call → ℕ
count_close [] = 0
count_close (closes c ∷ cs) = count_close cs
count_close (on_connected ∷ cs) = count_close cs
count_close (on_close ∷ cs) = count_close cs + 1
count_close (on_status a b ∷ cs) = count_close cs

-- The connection that Connect dials, if it dials and that succeeds.
abbrev pub dials : Bool → Option Conn → List Conn
dials false c = []
dials true none = []
dials true (some c) = c ∷ []

abbrev pub current : Option Conn → List Conn
current none = []
current (some c) = c ∷ []

-- The calls of a client that is not given another status by hand.
abbrev pub is_plain : Op → Bool
is_plain (connects now d) = true
is_plain (ends now) = true
is_plain (stops now) = true
is_plain (sets v) = false

abbrev pub all_plain : List Op → Bool
all_plain [] = true
all_plain (o ∷ os) = is_plain o && all_plain os

module _ {M P : Type 0} (i : Messager M) where
  unfoldable pub step : Op → Socket M P → Socket M P
  step (connects now dialed) s = (connect i now dialed s).0
  step (ends now) s = close i now s
  step (stops now) s = terminate i now s
  step (sets v) s = set_status v s

  unfoldable pub run : List Op → Socket M P → Socket M P
  run [] s = s
  run (o ∷ os) s = run os (step o s)

  -- The connections that a step opens.
  unfoldable pub step_opens : Op → Socket M P → List Conn
  step_opens (connects now dialed) s = dials (retry s).1 dialed
  step_opens (ends now) s = []
  step_opens (stops now) s = []
  step_opens (sets v) s = []

  -- Those that a run opens, the latest first.
  unfoldable pub opens : List Op → Socket M P → List Conn
  opens [] s = []
  opens (o ∷ os) s = opens os (step o s) ++ step_opens o s

  abbrev Accounted : List Conn → Socket M P → Type 0
  Accounted before s =
      (before ≡ current s.connection ++ closed_conns s.calls)
      × (count_connected s.calls ≡ length before)
      × (count_close s.calls ≡ length (closed_conns s.calls))

  set_status-Accounted :
      (v : Status) (b : List Conn) (s : Socket M P) → Accounted b s → Accounted b (set_status v s)
  unfolding set_status call
  set_status-Accounted v b s a = ground (arith, a)

  close-Accounted :
      (now : ℕ) (b : List Conn) (s : Socket M P) → Accounted b s → Accounted b (close i now s)
  unfolding close call update_conn
  close-Accounted now b s a = elim (Option-cases s.connection) [
    | inl e ↦ ground (arith, a, e)
    | inr (c, e) ↦ ground (arith, a, e)
  ]

  connect-Accounted :
      (now : ℕ) (d : Option Conn) (b : List Conn) (s : Socket M P)
      → Accounted b s
      → Accounted (dials (retry s).1 d ++ b) (connect i now d s).0
  unfolding connect call set_connection update_conn retry is_ok
  connect-Accounted now none b s a = ground (arith, a)
  connect-Accounted now (some c) b s a = ground (arith, a)

  step-Accounted :
      (o : Op) (b : List Conn) (s : Socket M P)
      → Accounted b s
      → Accounted (step_opens o s ++ b) (step o s)
  unfolding step step_opens terminate
  step-Accounted (connects now d) b s a = connect-Accounted now d b s a
  step-Accounted (ends now) b s a = close-Accounted now b s a
  step-Accounted (stops now) b s a =
      close-Accounted now b (set_status terminal s) (set_status-Accounted terminal b s a)
  step-Accounted (sets v) b s a = set_status-Accounted v b s a

  run-Accounted :
      (os : List Op) (b : List Conn) (s : Socket M P)
      → Accounted b s
      → Accounted (opens os s ++ b) (run os s)
  unfolding run opens
  run-Accounted [] b s a = a
  run-Accounted (o ∷ os) b s a =
      let r = run-Accounted os (step_opens o s ++ b) (step o s) (step-Accounted o b s a) in
      rw (append_assoc (opens os (step o s)) (step_opens o s) b) r

  abbrev Stopped : Socket M P → Type 0
  Stopped s = (s.connection ≡ none) × (s.status ≡ terminal)

  step-Stopped :
      (o : Op) (s : Socket M P)
      → is_plain o ≡ true
      → Stopped s
      → Stopped (step o s) × (step_opens o s ≡ [])
  unfolding step step_opens connect retry is_ok close terminate set_status status_eq
  step-Stopped (connects now d) s h (c, t) = ground (arith, c, t)
  step-Stopped (ends now) s h (c, t) = ground (arith, c, t)
  step-Stopped (stops now) s h (c, t) = ground (arith, c, t)
  step-Stopped (sets v) s h (c, t) = absurd (ground arith)

  run-Stopped :
      (os : List Op) (s : Socket M P)
      → all_plain os ≡ true
      → Stopped s
      → Stopped (run os s) × (opens os s ≡ [])
  unfolding run opens
  run-Stopped [] s h t = (t, refl)
  run-Stopped (o ∷ os) s h t =
      let r = step-Stopped o s (ground (arith, h)) t in
      let q = run-Stopped os (step o s) (ground (arith, h)) r.0 in (q.0, ground (arith, q.1, r.1))

  -- After Terminal a client has no connection and is terminal, and it stays so and opens no
  -- connection whatever Connect, Close and Terminal follow.
  pub terminate_stays :
      (os : List Op) (now : ℕ) (s : Socket M P)
      → all_plain os ≡ true
      → let s1 = run os (terminate i now s) in
        (s1.connection ≡ none) × (s1.status ≡ terminal) × (opens os (terminate i now s) ≡ [])
  unfolding terminate close set_status call update_conn status_eq
  terminate_stays os now s h =
      let t : Stopped (terminate i now s) = ground arith in
      let r = run-Stopped os (terminate i now s) h t in (r.0.0, r.0.1, r.1)

-- In any order of Connect, Close, Terminal and SetStatus on a new client, and whatever dialing
-- gives, the connections that were opened are the present one and those that were closed, in
-- their order: none is leaked and none is closed twice. OnConnected was called once for each that
-- was opened and OnClose once for each that was closed.
pub run-new_socket_client :
    {M : Type 0} (P : Type 0) (i : Messager M) (os : List Op) (now : ℕ) (address : String)
    (message : M)
    → let s : Socket M P = new_socket_client now address message in
      (opens i os s ≡ current (run i os s).connection ++ closed_conns (run i os s).calls)
      × (count_connected (run i os s).calls ≡ length (opens i os s))
      × (count_close (run i os s).calls ≡ length (closed_conns (run i os s).calls))
unfolding new_socket_client
run-new_socket_client {M = M} P i os now address message =
    let s : Socket M P = new_socket_client now address message in
    let start : Accounted i [] s = (refl, refl, refl) in
    let r = run-Accounted i os [] s start in ground (arith, r, append-nil (opens i os s))
