-- ===== src/Examples/Logins.antt =====
-- The theorems on points, accounts and logins at concrete caches.
use openlan.Base.{◌≡◌, ◌≢◌, ◌↔◌, refl, inl, true, none, some, [], ◌∷◌, String, string_eq, nat_eq}
use openlan.Base.Assoc.{lookup, insert, has_key}
use openlan.Examples.Texts.{differs}
use openlan.Safe.StrMap
use openlan.Safe.StrStr
use openlan.Message.Frame.{FrameMessage, login_req}
use openlan.Cache.Points
use openlan.Cache.Points.{Client, Point, PointCache, new_point, get_by_uuid, get_addr, get}
use openlan.Cache.Points.Lookup.{get_by_uuid-add}
use openlan.Cache.Users
use openlan.Cache.Users.{User, Users, Time, stored, fresh, check, id, merged}
use openlan.Cache.Users.Login.{Reason, check-Reason}
use openlan.Access
use openlan.Access.{Access, Env, Err, has_auth, on_frame}
use openlan.Access.Guard.{on_frame-has_auth, on_frame-Login, Login}

abbrev pub phone : Client
phone = record { id = 1; name = "10.0.0.9:5000"; local_addr = "10.0.0.1:10002" }

abbrev laptop : Client
laptop = record { id = 2; name = "10.0.0.8:5000"; local_addr = "10.0.0.1:10002" }

abbrev point : Client → Point
point c = record (new_point c (some 7) "tcp") { uuid = "u1" }

abbrev no_points : PointCache
no_points = record {
  clients = record { size = 4; entries = [] };
  uuid_addr = record { size = 4; entries = [] };
  addr_uuid = record { size = 4; entries = [] };
}

abbrev pub moved : PointCache
moved = record {
  clients = record {
    size = 4;
    entries = (phone.name, some (point phone)) ∷ (laptop.name, some (point laptop)) ∷ [];
  };
  uuid_addr = record { size = 4; entries = ("u1", laptop.name) ∷ [] };
  addr_uuid = record { size = 4; entries = (phone.name, "u1") ∷ (laptop.name, "u1") ∷ [] };
}

get_by_uuid-add_example : get_by_uuid "u1" (Points.add (point phone) no_points) ≡ some (point phone)
unfolding StrMap.get_ex lookup new_point
get_by_uuid-add_example =
    get_by_uuid-add (point phone) no_points (differs phone.name "" refl) refl refl refl

abbrev ann : User
ann = record {
  alias = "ann";
  name = "ann";
  network = "office";
  password = "secret";
  uuid = "u1";
  system = "linux";
  role = "guest";
  last = none;
  lease = record { instant = 0; year = 1 };
  update_at = 5;
}

abbrev users : Users
users = record { size = 4; entries = ("ann@office", some ann) ∷ [] }

abbrev same : String → String
same s = s

check-Reason_example : Reason same 9 none ann users
unfolding check Users.get StrMap.get lookup id
check-Reason_example = check-Reason same 9 none ann users ann (inl refl)

abbrev pub env : Env
env = record {
  lower = same;
  now = 9;
  ldap = none;
  new_tap = λ name. some 7;
  protocol = "tcp";
  unmarshal = λ bs. some ann;
}

abbrev pub start : Access
start = record {
  success = 0;
  failed = 0;
  users = users;
  points = no_points;
  status = [];
  actions = [];
}

abbrev pub login : FrameMessage
login = record {
  control = true;
  action = login_req;
  params = 123 ∷ 125 ∷ [];
  head = [];
  frame = [];
  tail = [];
  size = 0;
  total = 0;
  parsed = none;
}

on_frame-has_auth_example :
    (((on_frame env phone login start).1 ≡ none)
      ↔ (has_auth phone (on_frame env phone login start).0 ≡ true))
    × (laptop.id ≢ phone.id
        → has_auth laptop (on_frame env phone login start).0 ≡ has_auth laptop start)
on_frame-has_auth_example = on_frame-has_auth env phone laptop login start

on_frame-Login_example :
    (login.control ≡ true) × (login.action ≡ login_req) × Login env login.params start
unfolding has_auth lookup on_frame Access.after_login Access.handle_login Access.login_as check
    Users.get StrMap.get id Users.update Access.gate Access.act Access.on_auth Access.set_status
    insert Access.off_last Access.join Access.set_last Access.set_user has_key Points.add get
    get_addr get_by_uuid new_point Users.add Users.check_ldap Users.check_other merged Users.write
    StrMap.add StrMap.get_ex StrMap.modify StrMap.set StrStr.get StrStr.get_ex StrStr.reset
    StrStr.set
on_frame-Login_example = on_frame-Login env phone login start refl refl
