-- ===== src/Point/SocketWorker/Turns.antt =====
-- The turns of SocketWorker in pkg/olap/socket.go: what it sends, the messages that it handles, the
-- ticker, the jobs and the loop over all of them.
use openlan.Base.{
  ℕ, Bool, true, false, not, ◌&&◌, Option, none, some, List, [], ◌∷◌, if◌then◌else◌, ltb, leb, ◌==◌,
}
use openlan.Base.Slices.{◌>>=◌}
use openlan.Base.Text.{bytes_eq}
use openlan.Message.Frame
use openlan.Message.Frame.{FrameMessage, login_req, login_resp, new_control_frame}
use openlan.Safe.StrInt64
use openlan.Socket.Client
use openlan.Socket.Client.{Status, Conn, Messager, Socket}
use openlan.Point.SocketWorker.{
  SocketWorker, Json, Event, soc_coned, soc_recon, soc_closed, soc_success, soc_sign_in, soc_login,
  frame, get, set, push, tell, with_client, is_stopped, has_auth, reconnect, can_req_addr, should,
  check_alive, on_login, on_ip_addr, on_sign_in, on_pong, ip_addr_req, ip_addr_resp, left_req,
  sign_req, ping_req, pong_resp,
}

-- The instants that a turn reads, in seconds and in nanoseconds.
pub record Clock : Type 0 where
  pub now : ℕ
  pub nano : ℕ

module _ {M : Type 0} (i : Messager M) (j : Json) (dial : ℕ → Option Conn) where
  -- WriteMsg of the client; the flag tells an error.
  unfoldable pub write : ℕ → FrameMessage → SocketWorker M → SocketWorker M × Bool
  write now m t = elim t.client [
    | none ↦ (t, true)
    | some s ↦ let r = Client.write_msg i m s in (with_client now r.0 t, r.1)
  ]

  -- What sendLogin, sendIpAddr, sendPing and sendLeave share.
  unfoldable pub send : ℕ → List ℕ → List ℕ → SocketWorker M → Option (SocketWorker M × Bool)
  send now action body t = elim t.client [
    | none ↦ some (t, true)
    | some s ↦ (new_control_frame action body >>= λ m. some (write now m t))
  ]

  unfoldable pub send_login : Clock → SocketWorker M → Option (SocketWorker M)
  send_login c t = send c.now login_req j.user t >>= λ r. some r.0

  unfoldable pub send_ping : Clock → SocketWorker M → Option (SocketWorker M)
  send_ping c t = send c.now ping_req (j.ping c.nano) t >>= λ r. some r.0

  unfoldable pub leave : Clock → SocketWorker M → Option (SocketWorker M)
  leave c t = send c.now left_req (j.leave c.now) t >>= λ r. some r.0

  unfoldable pub to_network : Clock → SocketWorker M → Option (SocketWorker M)
  to_network c t =
      if can_req_addr t
      then (send c.now ip_addr_req (j.network t.if_addr) t >>= λ r. some r.0)
      else some t

  unfoldable pub close : ℕ → SocketWorker M → SocketWorker M
  close now t = elim t.client [ none ↦ t | some s ↦ with_client now (Client.close i now s) t ]

  -- Stop, but for the ticker and the end of Loop.
  unfoldable pub stop : Clock → SocketWorker M → Option (SocketWorker M)
  stop c t = leave c t >>= λ t1. elim t1.client [
    | none ↦ none
    | some s ↦ some (record (with_client c.now (Client.terminate i c.now s) t1) { client = none })
  ]

  -- connect: closed first, and made initial again, whatever it was. Its error is only logged.
  unfoldable pub connect : ℕ → SocketWorker M → Option (SocketWorker M)
  connect now t = elim t.client [
    | none ↦ none
    | some s ↦
        let s1 = Client.set_status Status.init (Client.close i now s) in
        let t1 : SocketWorker M = record t { timers = StrInt64.add "conns" 1 t.timers } in
        some (with_client now (Client.connect i now (dial (get "conns" t)) s1).0 t1)
  ]

  -- The job of reconnect.
  unfoldable pub job : ℕ → SocketWorker M → Option (SocketWorker M)
  job now t = if leb (get "reconnAt" t) (get "connAt" t) then some t else connect now t

  -- The loop of checkJobber: the jobs that are due are done, in order, the others stay.
  unfoldable pub run_jobs : ℕ → List ℕ → SocketWorker M → Option (SocketWorker M × List ℕ)
  run_jobs now [] t = some (t, [])
  run_jobs now (time ∷ rest) t =
      if leb time now
      then (job now t >>= λ t1. run_jobs now rest t1)
      else (run_jobs now rest t >>= λ r. some (r.0, time ∷ r.1))

  unfoldable pub check_jobber : ℕ → SocketWorker M → Option (SocketWorker M)
  check_jobber now t = run_jobs now t.jobber t >>= λ r. some (record r.0 { jobber = r.1 })

  -- The address is asked for again while none has come since the login.
  unfoldable pub keep_network : Clock → SocketWorker M → Option (SocketWorker M)
  keep_network c t =
      if can_req_addr t && ltb (get "addrAt" t) (get "succAt" t) then to_network c t else some t

  unfoldable pub keep_alive : Clock → SocketWorker M → Option (SocketWorker M)
  keep_alive c t =
      if should c.now t.keepalive
      then (let t1 : SocketWorker M = record t {
        keepalive = record t.keepalive { last_time = c.now };
      } in
          if has_auth t1 then (keep_network c t1 >>= λ t2. send_ping c t2) else send_login c t1)
      else some t

  unfoldable pub do_ticker : Clock → SocketWorker M → Option (SocketWorker M)
  do_ticker c t = keep_alive c (check_alive c.now t) >>= λ t1. check_jobber c.now t1

  -- onInstruct, on a control frame.
  unfoldable pub on_instruct : Clock → FrameMessage → SocketWorker M → SocketWorker M
  on_instruct c m t =
      if not m.control
      then t
      else if bytes_eq m.action login_resp
      then on_login c.now m.params t
      else if bytes_eq m.action ip_addr_resp
      then (on_ip_addr j m.params (set "addrAt" c.now t)).0
      else if bytes_eq m.action pong_resp
      then (on_pong j c.nano m.params (set "liveAt" c.now t)).0
      else if bytes_eq m.action sign_req
      then on_sign_in t
      else if bytes_eq m.action left_req
      then close c.now t
      else t

  -- dispatch; the goroutine that reads is started by the first.
  unfoldable pub dispatch : Clock → Event → SocketWorker M → Option (SocketWorker M)
  dispatch c soc_coned t = send_login c t
  dispatch c soc_success t = to_network c t >>= λ t1. send_ping c t1
  dispatch c soc_recon t = some (reconnect c.now t)
  dispatch c soc_sign_in t = send_login c t
  dispatch c soc_login t = send_login c t
  dispatch c soc_closed t = some t

  -- Read, on a frame that has come.
  unfoldable pub on_read : Clock → FrameMessage → SocketWorker M → SocketWorker M
  on_read c m t =
      if m.size == 0
      then t
      else (let data' = (Frame.decode m).0 in
          if data'.control
          then on_instruct c data' t
          else tell (frame data') (set "lastAt" c.now t))

  -- Read, on an error: it ends.
  unfoldable pub end_read : ℕ → SocketWorker M → SocketWorker M
  end_read now t = let t1 = close now t in if is_stopped t1 then t1 else push soc_recon t1

  -- DoWrite; the flag tells an error.
  unfoldable pub do_write : ℕ → FrameMessage → SocketWorker M → SocketWorker M × Bool
  do_write now m t =
      let t1 = check_alive now t in
      elim t1.client [
        | none ↦ (t1, true)
        | some s ↦ if has_auth t1 then write now m t1 else (t1, false)
      ]
