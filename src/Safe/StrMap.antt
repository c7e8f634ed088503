-- ===== src/Safe/StrMap.antt =====
-- SafeStrMap of pkg/libol/safe.go. A value is an interface: `none` is nil.
pub mod Laws
pub mod Runs
use openlan.Base.{
  ℕ, ◌≡◌, Bool, true, false, Option, none, some, List, [], ◌∷◌, String, if◌then◌else◌, length,
  string_eq,
}
use openlan.Base.Assoc.{lookup, insert, erase, has_key}
use openlan.Safe.Full.{Err, already_full, is_full}

pub record SafeStrMap (V : Type 0) : Type 0 where
  pub size : ℕ
  pub entries : List (String × Option V)

module _ {V : Type 0} where
  -- NewSafeStrMap: 128, the hint taken for size 0, changes only the memory that is reserved.
  unfoldable pub new : ℕ → SafeStrMap V
  new size = record { size = size; entries = [] }

  unfoldable pub len : SafeStrMap V → ℕ
  len sm = length sm.entries

  -- The first value of a key stays.
  unfoldable pub add : String → Option V → SafeStrMap V → SafeStrMap V × Option Err
  add k v sm =
      if is_full sm.size sm.entries
      then (sm, some already_full)
      else if has_key k sm.entries
      then (sm, none)
      else (record sm { entries = insert k v sm.entries }, none)

  unfoldable pub set : String → Option V → SafeStrMap V → SafeStrMap V × Option Err
  unfolding add
  set k v sm = add k v sm

  -- The last value of a key stays; `mod` of the source.
  unfoldable pub modify : String → Option V → SafeStrMap V → SafeStrMap V × Option Err
  unfolding add
  modify k v sm =
      if has_key k sm.entries
      then (record sm { entries = insert k v sm.entries }, none)
      else add k v sm

  unfoldable pub del : String → SafeStrMap V → SafeStrMap V
  del k sm = if has_key k sm.entries then record sm { entries = erase k sm.entries } else sm

  unfoldable pub clear : SafeStrMap V → SafeStrMap V
  clear sm = record sm { entries = [] }

  -- The value, and whether the key is there.
  unfoldable pub get_ex : String → SafeStrMap V → Option V × Bool
  get_ex k sm = elim (lookup k sm.entries) [ none ↦ (none, false) | some v ↦ (v, true) ]

  unfoldable pub get : String → SafeStrMap V → Option V
  unfolding get_ex
  get k sm = (get_ex k sm).0

  -- The pairs that `proc` is called with, in order; the method returns their number.
  visits : List (String × Option V) → List (String × V)
  visits [] = []
  visits ((k, none) ∷ m) = visits m
  visits ((k, some u) ∷ m) = (k, u) ∷ visits m

  unfoldable pub iter : SafeStrMap V → List (String × V) × ℕ
  unfolding visits
  iter sm = let calls = visits sm.entries in (calls, length calls)
