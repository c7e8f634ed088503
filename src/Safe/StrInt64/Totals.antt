-- ===== src/Safe/StrInt64/Totals.antt =====
-- Counters that are only added to hold the sum of what was added, and a copy reads like the map.
use openlan.Base.{
  ℕ, ◌+◌, ◌%◌, ◌^◌, ◌<◌, ◌≡◌, refl, none, some, List, [], ◌∷◌, String, string_eq, arith,
  if◌then◌else◌, All,
}
use openlan.Base.Assoc.{lookup, insert, has_key-lookup, lookup-insert, Distinct}
use openlan.Safe.StrInt64.{Counts, get, add, copy, to_map}

pub get-add :
    (k j : String) (v : ℕ) (s : Counts)
    → v < 2 ^ 64
    → get j (add k v s) ≡ (if string_eq.beq k j then (get j s + v) % 2 ^ 64 else get j s)
unfolding get add
get-add k j v s h = ground (
  arith,
  has_key-lookup k s,
  lookup-insert k j v s,
  lookup-insert k j ((get k s + v) % 2 ^ 64) s,
  string_eq.beq_iff k j,
)

-- The calls of `Add`, oldest first, and what they add to one key.
pub add_all : List (String × ℕ) → Counts → Counts
add_all [] s = s
add_all ((k, v) ∷ cs) s = add_all cs (add k v s)

abbrev pub total : String → List (String × ℕ) → ℕ
total j [] = 0
total j ((k, v) ∷ cs) = (if string_eq.beq k j then v else 0) + total j cs

get-add_all_from :
    (j : String) (cs : List (String × ℕ)) (s : Counts)
    → All (λ c. c.1 < 2 ^ 64) cs
    → get j s < 2 ^ 64
    → get j (add_all cs s) ≡ (get j s + total j cs) % 2 ^ 64
unfolding add_all
get-add_all_from j [] s h b = ground arith
get-add_all_from j ((k, v) ∷ cs) s h b =
    ground (arith, get-add k j v s, get-add_all_from j cs (add k v s) h.1)

-- From an empty map, after any calls of `Add` a counter reads the sum of what was added to it,
-- modulo 2 ^ 64. Each value added is below 2 ^ 64, as a bit pattern.
pub get-add_all :
    (j : String) (cs : List (String × ℕ))
    → All (λ c. c.1 < 2 ^ 64) cs
    → get j (add_all cs []) ≡ total j cs % 2 ^ 64
unfolding get lookup
get-add_all j cs h = ground (arith, get-add_all_from j cs [] h)

lookup-copy :
    (k : String) (s dst : Counts)
    → Distinct s
    → lookup k (copy s dst) ≡ (elim (lookup k s) [ some v ↦ some v | none ↦ lookup k dst ])
unfolding lookup copy
lookup-copy k [] dst d = refl
lookup-copy k ((j, v) ∷ s) dst d =
    ground
      (arith, lookup-copy k s (insert j v dst) d.1, lookup-insert j k v dst, string_eq.beq_iff j k)

-- `Data` reads like the map that it copies.
pub lookup-to_map : (k : String) (s : Counts) → Distinct s → lookup k (to_map s) ≡ lookup k s
unfolding to_map lookup
lookup-to_map k s d = ground (arith, lookup-copy k s [] d)
