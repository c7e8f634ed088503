-- ===== src/Examples/SafeMaps.antt =====
-- The theorems on the maps of pkg/libol/safe.go at concrete maps.
use openlan.Base.{ℕ, some, List, [], ◌∷◌, String, string_eq, arith, ◌≤◌}
use openlan.Base.Assoc.{Distinct}
use openlan.Safe.StrMap
use openlan.Safe.StrMap.{SafeStrMap}
use openlan.Safe.StrMap.Runs.{Call, sets, mods, dels, run, run-new-Valid}
use openlan.Safe.StrStr.{SafeStrStr}

abbrev two : SafeStrMap ℕ
two = record { size = 2; entries = ("a", some 1) ∷ ("b", some 2) ∷ [] }

abbrev calls : List (Call ℕ)
calls =
    sets "a" (some 1) ∷ sets "b" (some 2) ∷ mods "c" (some 3) ∷ dels "a" ∷ mods "c" (some 4) ∷ []

run-new-Valid_example :
    Distinct (run (StrMap.new 2) calls).entries × (StrMap.len (run (StrMap.new 2) calls) ≤ 2)
run-new-Valid_example = run-new-Valid 2 calls (λ h. ground (arith, h))

abbrev names : SafeStrStr
names = record { size = 1; entries = ("a", "x") ∷ [] }

abbrev added : List (String × ℕ)
added = ("rx", 5) ∷ ("tx", 7) ∷ ("rx", 18446744073709551614) ∷ []
