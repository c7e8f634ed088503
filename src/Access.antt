-- ===== src/Access.antt =====
-- pkg/olsw/app/access.go: a client logs in with a control frame, and until it has, its frames are
-- refused. What the switch is asked to do, in order, is the list `actions`: OffClient only queues the
-- client. Making a tap and decoding JSON are parameters, as is the clock.
pub mod Guard
use openlan.Base.{
  ℕ, zero, suc, ◌+◌, Bool, true, false, Option, none, some, List, [], ◌∷◌, ◌++◌, String, string_eq,
  nat_eq, if◌then◌else◌, ◌&&◌,
}
use openlan.Base.Assoc.{lookup, insert}
use openlan.Base.Text.{codes, bytes_eq}
use openlan.Message.Frame.{FrameMessage, login_req}
use openlan.Cache.Users
use openlan.Cache.Users.{User, Users, Checked, stored, fresh, out_of_date, wrong_password}
use openlan.Cache.Points
use openlan.Cache.Points.{Client, Point, PointCache}

-- The states of libol.SocketStatus that matter here; a client that is not in the table is connected.
pub data Status : Type 0 where
  connected un_auth auth : Status

pub data Err : Type 0 where
  invalid_json auth_failed un_auth_client : Err

-- The text of an error.
abbrev pub text : Err → List ℕ
text invalid_json = codes "Invalid json data."
text auth_failed = codes "Auth failed."
text un_auth_client = codes "unAuth client."

-- Calls of the master and of clients, in order.
pub data Action : Type 0 where
  offs : ℕ → Action
  replies : ℕ → List ℕ → Action
  attaches : ℕ → Point → Action
  reads : ℕ → ℕ → Action

pub record Env : Type 0 where
  pub lower : String → String
  pub now : ℕ
  pub ldap : Option (String → String → Bool)
  pub new_tap : String → Option ℕ
  pub protocol : String
  pub unmarshal : List ℕ → Option User

pub record Access : Type 0 where
  pub success : ℕ
  pub failed : ℕ
  pub users : Users
  pub points : PointCache
  pub status : List (ℕ × Status)
  pub actions : List Action

abbrev pub is_auth_status : Option Status → Bool
is_auth_status (some auth) = true
is_auth_status (some connected) = false
is_auth_status (some un_auth) = false
is_auth_status none = false

-- `client.Have(libol.ClAuth)`
unfoldable pub has_auth : Client → Access → Bool
has_auth client p = is_auth_status (lookup client.id p.status)

unfoldable pub set_status : Client → Status → Access → Access
set_status client s p = record p { status = insert client.id s p.status }

unfoldable pub act : Action → Access → Access
act a p = record p { actions = p.actions ++ (a ∷ []) }

-- The first n characters: UUIDs are ASCII, and a character is a byte.
abbrev pub front : ℕ → String → String
front zero s = ""
front (suc n) String.[] = ""
front (suc n) (String.◌∷◌ c s) = String.◌∷◌ c (front n s)

-- SetUser of models.Point
unfoldable pub set_user : User → Point → Point
set_user u m = record m {
  user = u.name;
  uuid = front 13 u.uuid;
  network = u.network;
  system = u.system;
  alias = u.alias;
}

-- onAuth, once the tap is there: an older connection of the point is closed, then the new one takes
-- its place.
unfoldable pub join : Client → Point → ℕ → Access → Access
join client m dev p =
    let p1 : Access = elim (Points.get_by_uuid m.uuid p.points) [
      | none ↦ p
      | some om ↦ act (offs om.client.id) p
    ] in
    let p2 = act (attaches client.id m) p1 in
    act (reads dev client.id) (record p2 { points = Points.add m p2.points })

-- onAuth; its error is dropped by the caller.
unfoldable pub on_auth : Env → Client → User → Access → Access
on_auth env client user p =
    if has_auth client p
    then (elim (env.new_tap user.network) [
      | none ↦ p
      | some dev ↦
          join client (set_user user (Points.new_point client (some dev) env.protocol)) dev p
    ])
    else p

-- `now.Last = client`, through the pointer that Check returned: that of an entry, or that of the new
-- account, which is an entry if there was none before.
unfoldable pub set_last : Client → User → Checked → Users → Users → Users
set_last client user (stored u) before w =
    Users.write (Users.id user) (record u { last = some client.id }) w
set_last client user (fresh u) before w = elim (Users.get (Users.id u) before) [
  | none ↦ Users.write (Users.id u) (record u { last = some client.id }) w
  | some older ↦ w
]
set_last client user out_of_date before w = w
set_last client user wrong_password before w = w

-- The last client of the account is closed, unless it is an administrator's.
unfoldable pub off_last : Checked → Access → Access
off_last (stored u) p =
    if string_eq.beq u.role "admin" then p else (elim u.last [ none ↦ p | some c ↦ act (offs c) p ])
off_last (fresh u) p = p
off_last out_of_date p = p
off_last wrong_password p = p

abbrev pub admits : Checked → Bool
admits (stored u) = true
admits (fresh u) = true
admits out_of_date = false
admits wrong_password = false

-- handleLogin from Check on.
unfoldable pub login_as : Env → Client → User → Access → Access × Option Err
login_as env client user p =
    let r = Users.check env.lower env.now env.ldap user p.users in
    if admits r.1
    then (let p1 = off_last r.1 (record p { users = r.0 }) in
        let p2 : Access = record p1 {
          success = p1.success + 1;
          users = set_last client user r.1 p.users p1.users;
        } in
        (on_auth env client user (set_status client auth p2), none))
    else (
      set_status client un_auth (record p { users = r.0; failed = p.failed + 1 }),
      some auth_failed,
    )

unfoldable pub handle_login : Env → Client → List ℕ → Access → Access × Option Err
handle_login env client data' p =
    if has_auth client p then (p, none) else (elim (env.unmarshal data') [
      | none ↦ (p, some invalid_json)
      | some user ↦ login_as env client (Users.update env.lower env.now user) p
    ])

-- The end of OnFrame: all frames of a client that has not logged in are dropped.
unfoldable pub gate : Client → Access → Access × Option Err
gate client p = (p, if has_auth client p then none else some un_auth_client)

unfoldable pub after_login : Client → Access × Option Err → Access × Option Err
after_login client (p, some e) = (act (replies client.id (text e)) p, some e)
after_login client (p, none) = gate client (act (replies client.id (codes "okay")) p)

unfoldable pub on_frame : Env → Client → FrameMessage → Access → Access × Option Err
on_frame env client m p =
    if m.control && bytes_eq m.action login_req
    then after_login client (handle_login env client m.params p)
    else gate client p
