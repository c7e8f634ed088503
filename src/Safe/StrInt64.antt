-- ===== src/Safe/StrInt64.antt =====
-- SafeStrInt64 of pkg/libol/safe.go. An int64 is its bit pattern, a number below 2 ^ 64.
pub mod Totals
use openlan.Base.{
  ℕ, ◌+◌, ◌%◌, ◌^◌, ◌≡◌, none, some, List, [], ◌∷◌, String, string_eq, if◌then◌else◌,
}
use openlan.Base.Assoc.{lookup, insert, has_key}

abbrev pub Counts : Type 0
Counts = List (String × ℕ)

unfoldable pub get : String → Counts → ℕ
get k s = elim (lookup k s) [ some v ↦ v | none ↦ 0 ]

unfoldable pub set : String → ℕ → Counts → Counts
set k v s = insert k v s

-- `s.data[k] += v` wraps at 64 bits.
unfoldable pub add : String → ℕ → Counts → Counts
unfolding get
add k v s = if has_key k s then insert k ((get k s + v) % 2 ^ 64) s else insert k v s

-- `dst[k] = v` for each pair of the map.
unfoldable pub copy : Counts → Counts → Counts
copy [] dst = dst
copy ((k, v) ∷ s) dst = copy s (insert k v dst)

unfoldable pub to_map : Counts → Counts
to_map s = copy s []
