-- ===== src/Point/SocketWorker/Auth.antt =====
-- The login of a point, from the switch's answer to what the point sends from then on.
use openlan.Base.{
  ℕ, ◌≡◌, refl, sym, ◌∙◌, ◌↔◌, true, false, Option, none, some, List, [], ◌∷◌, ◌++◌, arith,
  Bool-cases,
}
use openlan.Base.Text.{codes, bytes_eq_iff}
use openlan.Message.Frame.{FrameMessage, login_req}
use openlan.Cache.Points
use openlan.Access
use openlan.Access.{Access, Env, Err, invalid_json, auth_failed, un_auth_client, replies, text}
use openlan.Access.Guard.{handle_login-status}
use openlan.Socket.Client
use openlan.Socket.Client.{
  Status, Conn, Call, Messager, Socket, closes, on_connected, on_close, on_status,
}
use openlan.Point.SocketWorker.{
  SocketWorker, hear, with_client, set, push, tell, set_status, has_auth, is_okay, on_login,
}

module _ {M : Type 0} where
  pub hear-client :
      (now : ℕ) (cs : List Call) (t : SocketWorker M) → (hear now cs t).client ≡ t.client
  unfolding hear push set
  hear-client now [] t = refl
  hear-client now (on_connected ∷ cs) t = hear-client now cs t
  hear-client now (on_close ∷ cs) t = hear-client now cs t
  hear-client now (closes c ∷ cs) t = hear-client now cs t
  hear-client now (on_status a b ∷ cs) t = hear-client now cs t

  set_status-client :
      (now : ℕ) (v : Status) (s : Socket M Unit) (t : SocketWorker M)
      → t.client ≡ some s
      → (set_status now v t).client ≡ some (record (Client.set_status v s) { calls = [] })
  unfolding set_status with_client
  set_status-client now v s t e =
      rw (set_status, e)
        (hear-client now (Client.set_status v s).calls
          (record t { client = some (record (Client.set_status v s) { calls = [] }) }))

  status-set_status : (v : Status) (s : Socket M Unit) → (Client.set_status v s).status ≡ v
  unfolding Client.set_status Client.call Client.status_eq
  status-set_status v s = ground arith

  on_login-has_auth :
      (now : ℕ) (resp : List ℕ) (s : Socket M Unit) (t : SocketWorker M)
      → t.client ≡ some s
      → has_auth t ≡ false
      → has_auth (on_login now resp t) ≡ is_okay resp
  unfolding on_login has_auth push set tell Client.have Client.status_eq
  on_login-has_auth now resp s t e h = ground (
    arith,
    h,
    set_status-client now Status.auth s t e,
    set_status-client now Status.un_auth s t e,
    status-set_status Status.auth s,
    status-set_status Status.un_auth s,
  )

is_okay-text : (e : Err) → is_okay (text e) ≡ false
unfolding is_okay
is_okay-text invalid_json = refl
is_okay-text auth_failed = refl
is_okay-text un_auth_client = refl

-- The reply to a login.
answer : Option Err → List ℕ
answer none = codes "okay"
answer (some err) = text err

answered :
    (c : Points.Client) (r : Access × Option Err)
    → ((r.1 ≡ none) ↔ (Access.has_auth c r.0 ≡ true))
    → ((Access.after_login c r).0.actions ≡ r.0.actions ++ (replies c.id (answer r.1) ∷ []))
      × (is_okay (answer r.1) ≡ Access.has_auth c (Access.after_login c r).0)
unfolding Access.after_login Access.gate Access.act Access.has_auth answer is_okay
answered c (p, none) g = (refl, sym (g.0 refl))
answered c (p, some err) g =
    (refl, is_okay-text err ∙ ground (arith, g, Bool-cases (Access.has_auth c p)))

-- A point that is not logged in yet, and a switch that gets its login: whatever the switch decides,
-- the last thing that it does is to send one reply, and once the point has read that, the point takes
-- itself for logged in exactly if the switch does.
pub on_login-on_frame :
    {M : Type 0} (env : Env) (c : Points.Client) (m : FrameMessage) (p : Access) (now : ℕ)
    (s : Socket M Unit) (t : SocketWorker M)
    → m.control ≡ true
    → m.action ≡ login_req
    → t.client ≡ some s
    → has_auth t ≡ false
    → let after = (Access.on_frame env c m p).0 in
      (before : List Access.Action) × (resp : List ℕ) × (after.actions
        ≡ before ++ (replies c.id resp ∷ []))
      × (has_auth (on_login now resp t) ≡ Access.has_auth c after)
unfolding Access.on_frame
on_login-on_frame env c m p now s t mc ma e h =
    let r = Access.handle_login env c m.params p in
    let taken : Access.on_frame env c m p ≡ Access.after_login c r =
      ground (arith, mc, ma, bytes_eq_iff m.action login_req) in
    let a = answered c r (handle_login-status env c c m.params p).0 in
    (
      r.0.actions,
      answer r.1,
      rw taken a.0,
      rw taken (on_login-has_auth now (answer r.1) s t e h ∙ a.1),
    )
