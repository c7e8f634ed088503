-- ===== src/Examples/Sockets.antt =====
-- The theorems on sockets at a concrete messager and concrete histories.
use openlan.Base.{ℕ, ◌+◌, ◌≤◌, ◌≡◌, refl, none, some, List, [], ◌∷◌, ◌++◌, length, leb}
use openlan.Socket.Client.{
  connected, un_auth, terminal, Conn, Messager, Socket, new_socket_client, terminate,
}
use openlan.Socket.Client.Dialing.{
  Op, connects, ends, stops, sets, run, opens, current, closed_conns, count_connected, count_close,
  run-new_socket_client, terminate_stays,
}
use openlan.Socket.Server
use openlan.Socket.Server.{Server, new_socket_server, total_client, alive, pre_accept}
use openlan.Socket.Server.Bounds.{Step, accepts, leaves, turns_on, turns_off, run-new_socket_server}

-- A messager without state, that takes every frame and never gives one.
abbrev pub messager : Messager Unit
messager = record {
  send = λ conn m u. (u, some m.size);
  receive = λ conn max min u. (u, none);
  flush = λ u. u;
}

abbrev pub conn : ℕ → Conn
conn n = record { id = n; local_addr = "10.0.0.1:9000"; remote_addr = "10.0.0.2:10002" }

abbrev ops : List Op
ops =
    connects 1 (some (conn 1))
    ∷ connects 2 (some (conn 2))
    ∷ ends 3
    ∷ sets un_auth
    ∷ connects 4 (some (conn 4))
    ∷ sets connected
    ∷ connects 5 (some (conn 5))
    ∷ stops 6
    ∷ []

abbrev client : Socket Unit Unit
client = new_socket_client 0 "10.0.0.2:10002" tt

run-new_socket_client_example :
    (opens messager ops client
      ≡ current (run messager ops client).connection
        ++ closed_conns (run messager ops client).calls)
    × (count_connected (run messager ops client).calls ≡ length (opens messager ops client))
    × (count_close (run messager ops client).calls
        ≡ length (closed_conns (run messager ops client).calls))
run-new_socket_client_example = run-new_socket_client Unit messager ops 0 "10.0.0.2:10002" tt

abbrev later : List Op
later = connects 8 (some (conn 8)) ∷ ends 9 ∷ []

terminate_stays_example :
    ((run messager later (terminate messager 7 client)).connection ≡ none)
    × ((run messager later (terminate messager 7 client)).status ≡ terminal)
    × (opens messager later (terminate messager 7 client) ≡ [])
terminate_stays_example = terminate_stays messager later 7 client refl

abbrev steps : List (Step Unit)
steps =
    accepts 1 (conn 1) tt
    ∷ turns_on
    ∷ accepts 2 (conn 2) tt
    ∷ leaves 0
    ∷ turns_off 3
    ∷ turns_on
    ∷ []

abbrev server : Server Unit Unit
server = Server.Bounds.run messager steps (new_socket_server ":10002")

run-new_socket_server_example :
    (total_client server + length server.on_clients ≤ alive server)
    × (alive server ≤ 128)
    × ((pre_accept (conn 3) server).1 ≡ leb (alive server + 1) 128)
run-new_socket_server_example = run-new_socket_server Unit messager steps ":10002" (conn 3)
