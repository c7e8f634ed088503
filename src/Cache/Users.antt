-- ===== src/Cache/Users.antt =====
-- pkg/models/user.go and pkg/olsw/cache/user.go: the accounts, and who may log in. The map holds
-- pointers, which nobody else keeps, so a change through one is a change of the entry. Time is an
-- instant in seconds and the year that Year reads from it; the instant 0 is Go's zero time.
-- strings.ToLower and the LDAP service are parameters. Load and Save, on a file, are left out.
pub mod Login
use openlan.Base.{
  ℕ, ◌-◌, Bool, true, false, not, ◌&&◌, ◌||◌, Option, none, some, String, string_eq, if◌then◌else◌,
  ltb, ◌==◌,
}
use Prim.Native.Char.{code}
use openlan.Base.Text.{append}
use openlan.Safe.Full.{is_full}
use openlan.Safe.StrMap
use openlan.Safe.StrMap.{SafeStrMap}

-- strings.Contains(s, "@"), and the two parts of strings.SplitN(s, "@", 2).
abbrev pub has_at : String → Bool
has_at String.[] = false
has_at (String.◌∷◌ c s) = code c == 64 || has_at s

abbrev pub before_at : String → String
before_at String.[] = ""
before_at (String.◌∷◌ c s) =
    let rest = before_at s in if code c == 64 then "" else String.◌∷◌ c rest

abbrev pub after_at : String → String
after_at String.[] = ""
after_at (String.◌∷◌ c s) = let rest = after_at s in if code c == 64 then s else rest

abbrev pub is_empty : String → Bool
is_empty s = string_eq.beq s ""

pub record Time : Type 0 where
  pub instant : ℕ
  pub year : ℕ

pub record User : Type 0 where
  pub alias : String
  pub name : String
  pub network : String
  pub password : String
  pub uuid : String
  pub system : String
  pub role : String
  pub last : Option ℕ
  pub lease : Time
  pub update_at : ℕ

-- Id
unfoldable pub id : User → String
id u = append u.name (append "@" u.network)

-- Update, with strings.ToLower.
unfoldable pub update : (String → String) → ℕ → User → User
update lower now u =
    let given = if is_empty u.network && has_at u.name then after_at u.name else u.network in
    let alias = lower u.alias in
    record u {
      network = if is_empty given then "default" else given;
      name = if has_at u.name then before_at u.name else u.name;
      alias = alias;
      uuid = if is_empty u.uuid then alias else u.uuid;
      update_at = now;
    }

abbrev pub Users : Type 0
Users = SafeStrMap User

unfoldable pub get : String → Users → Option User
get key w = StrMap.get key w

unfoldable pub del : String → Users → Users
del key w = StrMap.del key w

-- What Add leaves of the older entry.
unfoldable pub merged : User → User → User
merged older user = record older {
  role = if is_empty user.role then older.role else user.role;
  password = if is_empty user.password then older.password else user.password;
  alias = if is_empty user.alias then older.alias else user.alias;
  update_at = user.update_at;
  lease = if user.lease.instant == 0 then older.lease else user.lease;
}

-- A change of the entry through its pointer.
unfoldable pub write : String → User → Users → Users
write key u w = (StrMap.modify key (some u) w).0

unfoldable pub add : User → Users → Users
add user w = elim (get (id user) w) [
  | none ↦ (StrMap.set (id user) (some user) w).0
  | some older ↦ write (id user) (merged older user) w
]

-- The outcome of Check: the account, and whether the pointer is that of the entry under its key.
pub data Checked : Type 0 where
  stored : User → Checked
  fresh : User → Checked
  out_of_date wrong_password : Checked

-- The role that LDAP accounts have.
abbrev pub is_ldap : User → Bool
is_ldap u = string_eq.beq u.role "ldap"

-- CheckLdap, with Login of the service that GetLdap returns, if there is one.
unfoldable pub check_ldap :
    (String → String) → ℕ → Option (String → String → Bool) → User → Users → Users × Option User
check_ldap lower now none obj w = (w, none)
check_ldap lower now (some login) obj w =
    let other : Bool = elim (get (id obj) w) [ none ↦ false | some u ↦ not (is_ldap u) ] in
    if other || not (login (id obj) obj.password)
    then (w, none)
    else (let user : User = update lower now (record {
      alias = obj.alias;
      name = id obj;
      network = "";
      password = obj.password;
      uuid = "";
      system = "";
      role = "ldap";
      last = none;
      lease = record { instant = 0; year = 1 };
      update_at = 0;
    }) in
        (add user w, some user))

-- Timeout
unfoldable pub timeout : ℕ → ℕ → User → Bool
timeout now limit user = if is_ldap user then ltb limit (now - user.update_at) else true

abbrev pub is_local : User → Bool
is_local u = is_empty u.role || string_eq.beq u.role "admin" || string_eq.beq u.role "guest"

-- The lease has no end, or one that is to come.
abbrev pub is_open : ℕ → User → Bool
is_open now u = ltb u.lease.year 2000 || ltb now u.lease.instant

-- The second half of Check: LDAP.
unfoldable pub check_other :
    (String → String) → ℕ → Option (String → String → Bool) → User → Users → Users × Checked
check_other lower now ldap obj w = elim (check_ldap lower now ldap obj w).1 [
  | none ↦ ((check_ldap lower now ldap obj w).0, wrong_password)
  | some u ↦ ((check_ldap lower now ldap obj w).0, fresh u)
]

unfoldable pub check :
    (String → String) → ℕ → Option (String → String → Bool) → User → Users → Users × Checked
check lower now ldap obj w = elim (get (id obj) w) [
  | none ↦ check_other lower now ldap obj w
  | some u ↦
      if is_local u && string_eq.beq u.password obj.password
      then (w, if is_open now u then stored u else out_of_date)
      else check_other lower now ldap obj w
]
