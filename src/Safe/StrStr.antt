-- ===== src/Safe/StrStr.antt =====
-- SafeStrStr of pkg/libol/safe.go: a missing key reads as "".
pub mod Laws
use openlan.Base.{
  ℕ, ◌≡◌, Bool, true, false, not, Option, none, some, List, [], ◌∷◌, String, if◌then◌else◌, length,
  string_eq,
}
use openlan.Base.Assoc.{lookup, insert, erase, has_key}
use openlan.Safe.Full.{Err, already_full, is_full}

pub record SafeStrStr : Type 0 where
  pub size : ℕ
  pub entries : List (String × String)

-- NewSafeStrStr: 128, the hint taken for size 0, changes only the memory that is reserved.
unfoldable pub new : ℕ → SafeStrStr
new size = record { size = size; entries = [] }

unfoldable pub len : SafeStrStr → ℕ
len sm = length sm.entries

-- The last value of a key stays, but a full map refuses a key that it has too.
unfoldable pub reset : String → String → SafeStrStr → SafeStrStr × Option Err
reset k v sm =
    if is_full sm.size sm.entries
    then (sm, some already_full)
    else (record sm { entries = insert k v sm.entries }, none)

-- The first value of a key stays.
unfoldable pub set : String → String → SafeStrStr → SafeStrStr × Option Err
set k v sm =
    if is_full sm.size sm.entries
    then (sm, some already_full)
    else if has_key k sm.entries
    then (sm, none)
    else (record sm { entries = insert k v sm.entries }, none)

unfoldable pub del : String → SafeStrStr → SafeStrStr
del k sm = if has_key k sm.entries then record sm { entries = erase k sm.entries } else sm

unfoldable pub get_ex : String → SafeStrStr → String × Bool
get_ex k sm = elim (lookup k sm.entries) [ none ↦ ("", false) | some v ↦ (v, true) ]

unfoldable pub get : String → SafeStrStr → String
unfolding get_ex
get k sm = (get_ex k sm).0

-- The pairs that `proc` is called with: the entry of the empty key is passed over.
visits : List (String × String) → List (String × String)
visits [] = []
visits ((k, u) ∷ m) = let rest = visits m in if string_eq.beq k "" then rest else (k, u) ∷ rest

unfoldable pub iter : SafeStrStr → List (String × String) × ℕ
unfolding visits
iter sm = let calls = visits sm.entries in (calls, length calls)
