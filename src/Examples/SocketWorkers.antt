-- ===== src/Examples/SocketWorkers.antt =====
-- The theorems on the connection of a point at a concrete worker and switch.
use openlan.Base.{ℕ, ◌≡◌, refl, true, none, some, List, [], ◌∷◌, ◌++◌, arith, string_eq}
use openlan.Base.Assoc.{lookup}
use openlan.Safe.StrInt64
use openlan.Access
use openlan.Access.{Access, replies}
use openlan.Socket.Client
use openlan.Socket.Client.{Status, Conn, Socket, new_socket_client, is_ok}
use openlan.Point.SocketWorker.{SocketWorker, Json, has_auth, on_login, reconnect, is_stopped, get}
use openlan.Point.SocketWorker.Auth.{on_login-on_frame}
use openlan.Point.SocketWorker.Sleeps.{HasDialed, check_jobber-reconnect}
use openlan.Point.SocketWorker.Turns.{check_jobber}
use openlan.Examples.Sockets.{messager, conn}
use openlan.Examples.Logins.{phone, start, login, env}

abbrev client : Socket Unit Unit
client = new_socket_client 0 "10.0.0.2:10002" tt

abbrev worker : SocketWorker Unit
worker = record {
  client = some client;
  if_addr = "";
  request_addr = true;
  timeout = 60;
  timers = [];
  keepalive = record { interval = 15; last_time = 0 };
  event_queue = [];
  jobber = [];
  told = [];
}

abbrev json : Json
json = record {
  user = [];
  network = λ addr. [];
  ping = λ now. [];
  leave = λ now. [];
  read_network = λ bytes. none;
  read_pong = λ bytes. none;
}

check_jobber-reconnect_example :
    (t1 : SocketWorker Unit) × (check_jobber messager json
        (λ n. some (conn n))
        150
        (reconnect 50 worker)
      ≡ some t1)
    × (t1.jobber ≡ [])
    × HasDialed (some (conn 0)) t1.client
unfolding is_stopped get StrInt64.get lookup new_socket_client Client.have Client.status_eq
check_jobber-reconnect_example =
    check_jobber-reconnect messager json (λ n. some (conn n)) 50 150 client worker refl refl
      (omega arith) refl (omega arith) (omega arith)

on_login-on_frame_example :
    (before : List Access.Action) × (resp : List ℕ) × ((Access.on_frame env phone login
        start).0.actions
      ≡ before ++ (replies phone.id resp ∷ []))
    × (has_auth (on_login 9 resp worker)
        ≡ Access.has_auth phone (Access.on_frame env phone login start).0)
unfolding has_auth new_socket_client Client.have Client.status_eq
on_login-on_frame_example =
    on_login-on_frame env phone login start 9 client worker refl refl refl refl
