-- ===== src/Socket/Client.antt =====
-- The client of pkg/libol/socket.go, with Connect, Close, Terminal and SetStatus of tcpsocket.go, which
-- kcpsocket.go, udpsocket.go and websocket.go repeat. A connection is its number and its two
-- addresses; dialing is a parameter, as is the messager, the interface of message.go. What listeners
-- are called with, and what is closed, is the list `calls`, the latest first. Time is in seconds.
-- Connect takes its lock twice and dials without it; it is one step here, as its callers in pkg/olap call
-- it from one goroutine.
pub mod Dialing
use openlan.Base.{
  ℕ, ◌-◌, Bool, true, false, not, ◌&&◌, ◌||◌, Option, none, some, List, [], ◌∷◌, String,
  if◌then◌else◌, ◌==◌, length,
}
use openlan.Message.Frame.{FrameMessage}
use openlan.Safe.StrInt64
use openlan.Safe.StrInt64.{Counts}

-- SocketStatus
pub data Status : Type 0 where
  init connected un_auth auth connecting terminal closed : Status

unfoldable pub status_eq : Status → Status → Bool
status_eq init init = true
status_eq connected connected = true
status_eq un_auth un_auth = true
status_eq auth auth = true
status_eq connecting connecting = true
status_eq terminal terminal = true
status_eq closed closed = true
status_eq _ _ = false

-- String of SocketStatus
unfoldable pub status_text : Status → String
status_text init = "initialized"
status_text connected = "connected"
status_text un_auth = "unauthenticated"
status_text auth = "authenticated"
status_text closed = "closed"
status_text connecting = "connecting"
status_text terminal = "terminal"

pub record Conn : Type 0 where
  pub id : ℕ
  pub local_addr : String
  pub remote_addr : String

pub data Call : Type 0 where
  closes : Conn → Call
  on_connected on_close : Call
  on_status : Status → Status → Call

-- Messager of message.go: Send gives the number of bytes and Receive a frame, or neither.
pub record Messager (M : Type 0) : Type 0 where
  pub send : Conn → FrameMessage → M → M × Option ℕ
  pub receive : Conn → ℕ → ℕ → M → M × Option FrameMessage
  pub flush : M → M

pub record Socket (M P : Type 0) : Type 0 where
  pub message : M
  pub connection : Option Conn
  pub statistics : Counts
  pub max_size : ℕ
  pub min_size : ℕ
  pub remote_addr : String
  pub local_addr : String
  pub address : String
  pub new_time : ℕ
  pub connected_time : ℕ
  pub private : Option P
  pub status : Status
  pub calls : List Call

module _ {M P : Type 0} where
  -- NewSocketClient
  unfoldable pub new_socket_client : ℕ → String → M → Socket M P
  new_socket_client now address message = record {
    message = message;
    connection = none;
    statistics = [];
    max_size = 1514;
    min_size = 15;
    remote_addr = address;
    local_addr = "";
    address = address;
    new_time = now;
    connected_time = 0;
    private = none;
    status = init;
    calls = [];
  }

  unfoldable pub is_ok : Socket M P → Bool
  is_ok s = elim s.connection [ none ↦ false | some _ ↦ true ]

  unfoldable pub have : Status → Socket M P → Bool
  have state s = status_eq s.status state

  unfoldable pub up_time : ℕ → Socket M P → ℕ
  up_time now s = now - s.new_time

  unfoldable pub alive_time : ℕ → Socket M P → ℕ
  alive_time now s = if s.connected_time == 0 then 0 else now - s.connected_time

  unfoldable pub set_private : Option P → Socket M P → Socket M P
  set_private v s = record s { private = v }

  unfoldable pub set_max_size : ℕ → Socket M P → Socket M P
  set_max_size value s = record s { max_size = value }

  unfoldable pub call : Call → Socket M P → Socket M P
  call c s = record s { calls = c ∷ s.calls }

  -- Retry: whether to connect.
  unfoldable pub retry : Socket M P → Socket M P × Bool
  retry s =
      if is_ok s || status_eq s.status terminal || status_eq s.status un_auth
      then (s, false)
      else (record s { status = connecting }, true)

  unfoldable pub set_status : Status → Socket M P → Socket M P
  set_status v s =
      if status_eq s.status v then s else record (call (on_status s.status v) s) { status = v }

module _ {M P : Type 0} (i : Messager M) where
  -- updateConn with a connection, and with nil.
  unfoldable pub update_conn : ℕ → Option Conn → Socket M P → Socket M P
  update_conn now (some conn) s = record s {
    connection = some conn;
    connected_time = now;
    local_addr = conn.local_addr;
    remote_addr = conn.remote_addr;
  }
  update_conn now none s =
      let s1 : Socket M P = elim s.connection [ none ↦ s | some c ↦ call (closes c) s ] in
      record s1 {
        connection = none;
        local_addr = "";
        remote_addr = "";
        message = i.flush s.message;
      }

  -- New…ClientFromConn, of a connection that a server has accepted.
  unfoldable pub from_conn : ℕ → Conn → M → Socket M P
  from_conn now conn message =
      update_conn now (some conn) (new_socket_client now conn.remote_addr message)

  unfoldable pub set_connection : ℕ → Option Conn → Socket M P → Socket M P
  set_connection now conn s = record (update_conn now conn s) { status = connected }

  -- Connect, with what dialing gives; the flag tells an error.
  unfoldable pub connect : ℕ → Option Conn → Socket M P → Socket M P × Bool
  connect now dialed s =
      let r = retry s in
      if r.1
      then (elim dialed [
        | none ↦ (r.0, true)
        | some conn ↦ (call on_connected (set_connection now (some conn) r.0), false)
      ])
      else (r.0, false)

  unfoldable pub close : ℕ → Socket M P → Socket M P
  close now s = elim s.connection [
    | none ↦ s
    | some _ ↦
        let s1 : Socket M P = record s {
          status = if status_eq s.status terminal then terminal else closed;
        } in
        call on_close (record (update_conn now none s1) { private = none })
  ]

  -- Terminal
  unfoldable pub terminate : ℕ → Socket M P → Socket M P
  terminate now s = close now (set_status terminal s)

  -- WriteMsg: the flag tells an error.
  unfoldable pub write_msg : FrameMessage → Socket M P → Socket M P × Bool
  write_msg frame s = elim s.connection [
    | none ↦ (record s { statistics = StrInt64.add "dropped" 1 s.statistics }, true)
    | some conn ↦
        let r = i.send conn frame s.message in
        elim r.1 [
          | none ↦
              (record s { message = r.0; statistics = StrInt64.add "error" 1 s.statistics }, true)
          | some size ↦ (
            record s { message = r.0; statistics = StrInt64.add "send" size s.statistics },
            false,
          )
        ]
  ]

  -- ReadMsg: `none` is an error.
  unfoldable pub read_msg : Socket M P → Socket M P × Option FrameMessage
  read_msg s = elim s.connection [
    | none ↦ (s, none)
    | some conn ↦
        let r = i.receive conn s.max_size s.min_size s.message in
        elim r.1 [
          | none ↦ (record s { message = r.0 }, none)
          | some frame ↦ (
            record s {
              message = r.0;
              statistics = StrInt64.add "recv" (length frame.frame) s.statistics;
            },
            some frame,
          )
        ]
  ]
