-- ===== src/Access/Guard.antt =====
-- Frames pass only from clients that have logged in, and only Check logs them in.
use openlan.Base.{
  ℕ, ◌+◌, ◌≡◌, ◌≢◌, ◌↔◌, refl, ◌⊎◌, inl, inr, true, false, ◌&&◌, Option, none, some, List,
  string_eq, nat_eq, arith, if◌then◌else◌, Option-cases, Bool-cases,
}
use openlan.Base.Assoc.{insert, lookup-insert}
use openlan.Base.Text.{bytes_eq, bytes_eq_iff}
use openlan.Message.Frame.{FrameMessage, login_req}
use openlan.Cache.Users
use openlan.Cache.Users.{User, Users, Checked, stored, fresh, out_of_date, wrong_password, check}
use openlan.Cache.Users.Login.{Reason, check-Reason}
use openlan.Cache.Points
use openlan.Cache.Points.{Client, Point}
use openlan.Access.{
  Access, Env, Err, Status, auth, un_auth, has_auth, set_status, act, join, on_auth, off_last,
  set_last, admits, login_as, handle_login, gate, after_login, on_frame, auth_failed, set_user,
}

-- The states of the clients are the same.
abbrev Same : Access → Access → Type 0
Same p q = p.status ≡ q.status

join-Same : (c : Client) (m : Point) (dev : ℕ) (p : Access) → Same (join c m dev p) p
unfolding join act
join-Same c m dev p = elim (Option-cases (Points.get_by_uuid m.uuid p.points)) [
  | inl e ↦ ground (arith, e)
  | inr (om, e) ↦ ground (arith, e)
]

on_auth-Same : (env : Env) (c : Client) (u : User) (p : Access) → Same (on_auth env c u p) p
unfolding on_auth
on_auth-Same env c u p = elim (Option-cases (env.new_tap u.network)) [
  | inl e ↦ ground (arith, e)
  | inr (dev, e) ↦
      ground (arith, e, join-Same c (set_user u (Points.new_point c (some dev) env.protocol)) dev p)
]

off_last-Same : (r : Checked) (p : Access) → Same (off_last r p) p
unfolding off_last act
off_last-Same (stored u) p = elim (Option-cases u.last) [
  | inl e ↦ ground (arith, e)
  | inr (c, e) ↦ ground (arith, e)
]
off_last-Same (fresh u) p = refl
off_last-Same out_of_date p = refl
off_last-Same wrong_password p = refl

-- What a login makes of the states: the client's own is set, by the answer of Check.
login_as-status :
    (env : Env) (c : Client) (user : User) (p : Access)
    → let ok = admits (check env.lower env.now env.ldap user p.users).1 in
      ((login_as env c user p).1 ≡ (if ok then none else some auth_failed))
      × ((login_as env c user p).0.status ≡ insert c.id (if ok then auth else un_auth) p.status)
unfolding login_as set_status
login_as-status env c user p =
    let r = check env.lower env.now env.ldap user p.users in
    let p1 = off_last r.1 (record p { users = r.0 }) in
    let p2 : Access = record p1 {
      success = p1.success + 1;
      users = set_last c user r.1 p.users p1.users;
    } in
    ground (
      arith,
      off_last-Same r.1 (record p { users = r.0 }),
      on_auth-Same env c user (record p2 { status = insert c.id auth p2.status }),
      Bool-cases (admits r.1),
    )

-- What handleLogin makes of the states: nothing, or it sets the client's own.
pub handle_login-status :
    (env : Env) (c d : Client) (data' : List ℕ) (p : Access)
    → (((handle_login env c data' p).1 ≡ none) ↔ (has_auth c (handle_login env c data' p).0 ≡ true))
      × (d.id ≢ c.id → has_auth d (handle_login env c data' p).0 ≡ has_auth d p)
unfolding handle_login has_auth
handle_login-status env c d data' p = elim (Option-cases (env.unmarshal data')) [
  | inl e ↦ ground (arith, e)
  | inr (user, e) ↦
      let u = Users.update env.lower env.now user in
      let ok = admits (check env.lower env.now env.ldap u p.users).1 in
      let s : Status = if ok then auth else un_auth in
      ground (
        arith,
        e,
        login_as-status env c u p,
        lookup-insert c.id c.id s p.status,
        lookup-insert c.id d.id s p.status,
        nat_eq.beq_iff c.id c.id,
        nat_eq.beq_iff c.id d.id,
        Bool-cases ok,
      )
]

pub after_login-gate :
    (c d : Client) (r : Access × Option Err)
    → (((after_login c r).1 ≡ none) ↔ ((r.1 ≡ none) × (has_auth c r.0 ≡ true)))
      × (has_auth d (after_login c r).0 ≡ has_auth d r.0)
unfolding after_login gate has_auth act
after_login-gate c d (p, none) = ground arith
after_login-gate c d (p, some e) = ground arith

-- OnFrame returns no error exactly where the client has logged in by the time that it returns, so
-- every other frame, of whatever kind, is refused; and no client's state changes but the sender's.
pub on_frame-has_auth :
    (env : Env) (c d : Client) (m : FrameMessage) (p : Access)
    → (((on_frame env c m p).1 ≡ none) ↔ (has_auth c (on_frame env c m p).0 ≡ true))
      × (d.id ≢ c.id → has_auth d (on_frame env c m p).0 ≡ has_auth d p)
unfolding on_frame gate
on_frame-has_auth env c d m p = elim (Bool-cases (m.control && bytes_eq m.action login_req)) [
  | inl e ↦ ground (
    arith,
    e,
    handle_login-status env c d m.params p,
    after_login-gate c c (handle_login env c m.params p),
    after_login-gate c d (handle_login env c m.params p),
  )
  | inr e ↦ ground (arith, e)
]

admits-cases : (r : Checked) → admits r ≡ true → (u : User) × ((r ≡ stored u) ⊎ (r ≡ fresh u))
admits-cases (stored u) h = (u, inl refl)
admits-cases (fresh u) h = (u, inr refl)
admits-cases out_of_date h = absurd (ground arith)
admits-cases wrong_password h = absurd (ground arith)

-- The user that a client sent, if any, and why Check let it in.
abbrev pub Login : Env → List ℕ → Access → Type 0
Login env data' p =
    (user : User) × (env.unmarshal data' ≡ some user)
    × Reason env.lower env.now env.ldap (Users.update env.lower env.now user) p.users

handle_login-Login :
    (env : Env) (c : Client) (data' : List ℕ) (p : Access)
    → has_auth c p ≡ false
    → has_auth c (handle_login env c data' p).0 ≡ true
    → Login env data' p
unfolding handle_login has_auth
handle_login-Login env c data' p before now = elim (Option-cases (env.unmarshal data')) [
  | inl e ↦ absurd (ground (arith, e))
  | inr (user, e) ↦
      let u = Users.update env.lower env.now user in
      let r = (check env.lower env.now env.ldap u p.users).1 in
      let s : Status = if admits r then auth else un_auth in
      let ok : admits r ≡ true = ground (
        arith,
        e,
        login_as-status env c u p,
        lookup-insert c.id c.id s p.status,
        nat_eq.beq_iff c.id c.id,
        Bool-cases (admits r),
      ) in
      let (v, h) = admits-cases r ok in
      (user, e, check-Reason env.lower env.now env.ldap u p.users v h)
]

-- A client that had not logged in before a frame and has after it sent a login, whose user Check had
-- a reason to let in: the entry's password and lease, or the LDAP service.
pub on_frame-Login :
    (env : Env) (c : Client) (m : FrameMessage) (p : Access)
    → has_auth c p ≡ false
    → has_auth c (on_frame env c m p).0 ≡ true
    → (m.control ≡ true) × (m.action ≡ login_req) × Login env m.params p
unfolding on_frame gate
on_frame-Login env c m p before now = elim (Bool-cases (m.control && bytes_eq m.action login_req)) [
  | inl e ↦ (
    ground (arith, e),
    ground (arith, e, bytes_eq_iff m.action login_req),
    handle_login-Login env c m.params p before
        (ground (arith, e, now, after_login-gate c c (handle_login env c m.params p))),
  )
  | inr e ↦ absurd (ground (arith, e, before, now))
]
