-- ===== src/Point/SocketWorker.antt =====
-- pkg/olap/socket.go with KeepAlive and jobTimer of worker.go: the worker of a point's connection to
-- the switch, on the client of pkg/libol/socket.go. A call of the client tells its listeners, which
-- Initialize sets, at once. The bodies of messages are made and read by encoding/json, a parameter, as
-- are dialing, by how many connects there were, and the listeners of the worker. The only job is that
-- of reconnect, so a job is its time. Time is in seconds. `none` is the panic of a slice out of range.
pub mod Turns
pub mod Sleeps
pub mod Auth
use openlan.Base.{
  ℕ, suc, ◌+◌, ◌-◌, ◌*◌, ◌/◌, Bool, true, false, not, ◌&&◌, ◌||◌, Option, none, some, List, [], ◌∷◌,
  ◌++◌, String, string_eq, if◌then◌else◌, ltb, leb, ◌==◌, take,
}
use openlan.Base.Slices.{◌>>=◌}
use openlan.Base.Text.{codes, bytes_eq}
use openlan.Message.Frame
use openlan.Message.Frame.{FrameMessage, login_req, login_resp, new_control_frame}
use openlan.Safe.StrInt64
use openlan.Safe.StrInt64.{Counts}
use openlan.Socket.Client
use openlan.Socket.Client.{
  Status, Conn, Call, Messager, Socket, closes, on_connected, on_close, on_status,
}

abbrev pub ip_addr_req : List ℕ
ip_addr_req = codes "ipad= "

abbrev pub ip_addr_resp : List ℕ
ip_addr_resp = codes "ipad: "

abbrev pub left_req : List ℕ
left_req = codes "left= "

abbrev pub sign_req : List ℕ
sign_req = codes "sign= "

abbrev pub ping_req : List ℕ
ping_req = codes "ping= "

abbrev pub pong_resp : List ℕ
pong_resp = codes "pong: "

-- WorkerEvent, by its type.
pub data Event : Type 0 where
  soc_coned soc_recon soc_closed soc_success soc_sign_in soc_login : Event

-- What the listeners of the worker are called with, in order.
pub data Told : Type 0 where
  success : Told
  ip_addr : List ℕ → Told
  frame : FrameMessage → Told

pub record KeepAlive : Type 0 where
  pub interval : ℕ
  pub last_time : ℕ

-- The body of each message that is sent, whether a network body can be read and the address in it,
-- and the time in a pong.
pub record Json : Type 0 where
  pub user : List ℕ
  pub network : String → List ℕ
  pub ping : ℕ → List ℕ
  pub leave : ℕ → List ℕ
  pub read_network : List ℕ → Option String
  pub read_pong : List ℕ → Option ℕ

pub record SocketWorker (M : Type 0) : Type 0 where
  pub client : Option (Socket M Unit)
  pub if_addr : String  -- of the network
  pub request_addr : Bool
  pub timeout : ℕ
  pub timers : Counts  -- `record` of the source
  pub keepalive : KeepAlive
  pub event_queue : List Event
  pub jobber : List ℕ
  pub told : List Told

-- KeepAlive
unfoldable pub should : ℕ → KeepAlive → Bool
should now k = leb (k.last_time + k.interval) now

-- strings.HasPrefix
unfoldable pub is_okay : List ℕ → Bool
is_okay resp = bytes_eq (take 4 resp) (codes "okay")

module _ {M : Type 0} where
  unfoldable pub get : String → SocketWorker M → ℕ
  get k t = StrInt64.get k t.timers

  unfoldable pub set : String → ℕ → SocketWorker M → SocketWorker M
  set k v t = record t { timers = StrInt64.set k v t.timers }

  unfoldable pub push : Event → SocketWorker M → SocketWorker M
  push e t = record t { event_queue = t.event_queue ++ (e ∷ []) }

  unfoldable pub tell : Told → SocketWorker M → SocketWorker M
  tell x t = record t { told = t.told ++ (x ∷ []) }

  -- The listeners of the client, on its calls, the latest first.
  unfoldable pub hear : ℕ → List Call → SocketWorker M → SocketWorker M
  hear now [] t = t
  hear now (on_connected ∷ cs) t = push soc_coned (set "connAt" now (hear now cs t))
  hear now (on_close ∷ cs) t = push soc_closed (set "clsAt" now (hear now cs t))
  hear now (closes c ∷ cs) t = hear now cs t
  hear now (on_status old new ∷ cs) t = hear now cs t

  -- What a call left of the client: the worker keeps it and hears its calls.
  unfoldable pub with_client : ℕ → Socket M Unit → SocketWorker M → SocketWorker M
  with_client now s t = hear now s.calls (record t { client = some (record s { calls = [] }) })

  -- Initialize
  unfoldable pub initialize : ℕ → ℕ → SocketWorker M → SocketWorker M
  initialize now ip_mtu t =
      let t1 : SocketWorker M = elim t.client [
        | none ↦ t
        | some s ↦ record t { client = some (Client.set_max_size ip_mtu s) }
      ] in
      set "reconnAt" now (set "lastAt" now t1)

  unfoldable pub sleep_now : SocketWorker M → ℕ
  sleep_now t = get "sleeps" t * 5

  unfoldable pub sleep_idle : SocketWorker M → SocketWorker M × ℕ
  sleep_idle t =
      let t1 : SocketWorker M =
        if ltb (get "sleeps" t) 20
        then record t { timers = StrInt64.add "sleeps" 1 t.timers }
        else t in
      (t1, sleep_now t1)

  unfoldable pub is_stopped : SocketWorker M → Bool
  is_stopped t = elim t.client [ none ↦ true | some s ↦ Client.have Status.terminal s ]

  unfoldable pub has_auth : SocketWorker M → Bool
  has_auth t = elim t.client [ none ↦ false | some s ↦ Client.have Status.auth s ]

  unfoldable pub reconnect : ℕ → SocketWorker M → SocketWorker M
  reconnect now t =
      if is_stopped t
      then t
      else (let r = sleep_idle (set "reconnAt" now t) in
          record r.0 { jobber = t.jobber ++ ((now + r.1) ∷ []) })

  unfoldable pub can_req_addr : SocketWorker M → Bool
  can_req_addr t = t.request_addr || not (string_eq.beq t.if_addr "")

  unfoldable pub check_alive : ℕ → SocketWorker M → SocketWorker M
  check_alive now t =
      if ltb now (get "lastAt" t + t.timeout) || ltb now (get "liveAt" t + t.timeout)
      then t
      else if ltb now (get "reconnAt" t + t.timeout)
      then t
      else push soc_recon t

  -- SetStatus of the client, whose listener for that is not set.
  unfoldable pub set_status : ℕ → Status → SocketWorker M → SocketWorker M
  set_status now v t = elim t.client [
    | none ↦ t
    | some s ↦ with_client now (Client.set_status v s) t
  ]

  unfoldable pub on_login : ℕ → List ℕ → SocketWorker M → SocketWorker M
  on_login now resp t =
      if has_auth t
      then t
      else if is_okay resp
      then push soc_success (
          set "succAt" now
            (set "addrAt" 0 (set "sleeps" 0 (tell success (set_status now Status.auth t)))))
      else set_status now Status.un_auth t

  -- The flag tells an error.
  unfoldable pub on_ip_addr : Json → List ℕ → SocketWorker M → SocketWorker M × Bool
  on_ip_addr j resp t =
      if t.request_addr
      then (elim (j.read_network resp) [
        | none ↦ (t, true)
        | some addr ↦ (tell (ip_addr resp) (record t { if_addr = addr }), false)
      ])
      else (t, false)

  unfoldable pub on_sign_in : SocketWorker M → SocketWorker M
  on_sign_in t = push soc_sign_in t

  -- The latency in milliseconds, of clocks in nanoseconds; a pong is not from the future.
  unfoldable pub on_pong : Json → ℕ → List ℕ → SocketWorker M → SocketWorker M × Bool
  on_pong j now_nano resp t = elim (j.read_pong resp) [
    | none ↦ (t, true)
    | some sent ↦ (set "latency" ((now_nano - sent) / 1000000) t, false)
  ]
