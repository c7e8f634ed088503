-- ===== src/Socket/Server.antt =====
-- The server of pkg/libol/socket.go, with Accept of tcpsocket.go, kcpsocket.go and udpsocket.go. A
-- client is the number of its pointer; the store says what each is, since a server looks a client up
-- by an address that closing it resets. The channels are lists, what went in last at the end; the
-- loops of the source are steps, which happen in any order: an accepted connection, a call of
-- OffClient from anywhere, a turn of Loop, a Close of a client by others. Channels that are full,
-- which make a sender wait, are left out: here they have no bound.
pub mod Bounds
use openlan.Base.{
  ℕ, ◌+◌, ◌-◌, ◌%◌, ◌^◌, Bool, true, false, not, Option, none, some, List, [], ◌∷◌, ◌++◌, String,
  string_eq, nat_eq, if◌then◌else◌, leb, length,
}
use openlan.Base.Assoc.{lookup, insert}
use openlan.Safe.StrInt64
use openlan.Safe.StrInt64.{Counts}
use openlan.Safe.StrMap
use openlan.Safe.StrMap.{SafeStrMap}
use openlan.Socket.Client
use openlan.Socket.Client.{Conn, Messager, Socket}

-- Calls of the listener, the latest first.
pub data Call : Type 0 where
  on_client on_close : ℕ → Call
  starts_read : ℕ → Call
  denies : Conn → Call

pub record Server (M P : Type 0) : Type 0 where
  pub statistics : Counts
  pub address : String
  pub max_client : ℕ
  pub clients : SafeStrMap ℕ
  pub on_clients : List ℕ
  pub off_clients : List ℕ
  pub store : List (ℕ × Socket M P)
  pub next : ℕ  -- the pointer that is allocated next
  pub failed : Option String  -- the error of the last Accept
  pub calls : List Call

module _ {M P : Type 0} where
  -- NewSocketServer
  unfoldable pub new_socket_server : String → Server M P
  new_socket_server listen = record {
    statistics = [];
    address = listen;
    max_client = 128;
    clients = StrMap.new 1024;
    on_clients = [];
    off_clients = [];
    store = [];
    next = 0;
    failed = none;
    calls = [];
  }

  unfoldable pub count : String → ℕ → Server M P → Server M P
  count k v t = record t { statistics = StrInt64.add k v t.statistics }

  unfoldable pub alive : Server M P → ℕ
  alive t = StrInt64.get "alive" t.statistics

  unfoldable pub total_client : Server M P → ℕ
  total_client t = StrMap.len t.clients

  -- preAccept, with a connection: whether it is allowed. `alive` is compared as an int64.
  unfoldable pub pre_accept : Conn → Server M P → Server M P × Bool
  pre_accept conn t =
      let t1 = count "accept" 1 (record t { failed = none }) in
      if leb (t1.max_client + 2 ^ 63) ((alive t1 + 2 ^ 63) % 2 ^ 64)
      then (record (count "closed" 1 (count "deny" 1 t1)) { calls = denies conn ∷ t.calls }, false)
      else (count "alive" 1 t1, true)

  -- preAccept, with an error.
  unfoldable pub accept_failed : String → Server M P → Server M P
  accept_failed err t = record t { failed = some err }

  -- RemoteAddr of a client.
  unfoldable pub remote_addr : ℕ → Server M P → String
  remote_addr c t = elim (lookup c t.store) [ none ↦ "" | some s ↦ s.remote_addr ]

  unfoldable pub off_client : ℕ → Server M P → Server M P
  off_client c t = record t { off_clients = t.off_clients ++ (c ∷ []) }

  -- doOnClient, with the listener of a switch, which has all three functions.
  unfoldable pub do_on_client : ℕ → Server M P → Server M P
  do_on_client c t = record t {
    clients = (StrMap.set (remote_addr c t) (some c) t.clients).0;
    calls = starts_read c ∷ on_client c ∷ t.calls;
  }

  -- One turn of Loop: `select` takes from either channel.
  unfoldable pub loop_on : Server M P → Server M P
  loop_on t = elim t.on_clients [ [] ↦ t | c ∷ cs ↦ do_on_client c (record t { on_clients = cs }) ]

module _ {M P : Type 0} (i : Messager M) where
  -- The rest of Accept's loop: the client that is made of the connection is queued.
  unfoldable pub accept : ℕ → Conn → M → Server M P → Server M P
  accept now conn message t =
      let r = pre_accept conn t in
      if r.1
      then (record r.0 {
        store = insert t.next (Client.from_conn i now conn message) t.store;
        next = t.next + 1;
        on_clients = t.on_clients ++ (t.next ∷ []);
      })
      else r.0

  unfoldable pub close_client : ℕ → ℕ → Server M P → Server M P
  close_client now c t = elim (lookup c t.store) [
    | none ↦ t
    | some s ↦ record t { store = insert c (Client.close i now s) t.store }
  ]

  unfoldable pub do_off_client : ℕ → ℕ → Server M P → Server M P
  do_off_client now c t =
      let addr = remote_addr c t in
      if (StrMap.get_ex addr t.clients).1
      then (let t1 : Server M P = record (count "closed" 1 t) { calls = on_close c ∷ t.calls } in
          let t2 = close_client now c t1 in
          count "alive" (2 ^ 64 - 1) (record t2 { clients = StrMap.del addr t2.clients }))
      else t

  unfoldable pub loop_off : ℕ → Server M P → Server M P
  loop_off now t = elim t.off_clients [
    | [] ↦ t
    | c ∷ cs ↦ do_off_client now c (record t { off_clients = cs })
  ]
