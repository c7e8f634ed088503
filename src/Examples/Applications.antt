-- ===== src/Examples/Applications.antt =====
-- The theorems on the applications of the switch at concrete flows and packets.
use openlan.Base.{ℕ, ◌≤◌, ◌≡◌, ◌⊎◌, true, none, some, List, [], ◌∷◌, String, string_eq, length}
use Prim.Native.Nat.{max}
use openlan.Base.Assoc.{has_key}
use openlan.Safe.Full.{is_full}
use openlan.App.Online
use openlan.App.Online.{Printer, Line, Online, new_line}
use openlan.App.Online.Agreement.{run, names, member, NoRepeats, run-new-Agrees}
use openlan.App.NeighborTable.{Client, Table, get, init}
use openlan.App.NeighborTable.Learning
use openlan.App.NeighborTable.Learning.{Sighting, first_of, first_sighting, run-init-first}
use openlan.Examples.Texts.{count}

-- Numbers are printed by so many characters, addresses by their last byte.
abbrev last : List ℕ → ℕ
last [] = 0
last (x ∷ []) = x
last (x ∷ y ∷ xs) = last (y ∷ xs)

abbrev print : List ℕ → String
print ip = count (last ip)

abbrev printer : Printer
printer = record { uint = count; ip = print }

abbrev flow : ℕ → Line
flow port = record (new_line 1 4) { ip_source = 1 ∷ []; ip_dest = 2 ∷ []; port_dest = port }

abbrev flows : List (ℕ × Line)
flows = (1, flow 1) ∷ (2, flow 2) ∷ (3, flow 1) ∷ (4, flow 3) ∷ []

abbrev seen : Online
seen = run printer flows (Online.new 2 2)

run-new-Agrees_example :
    NoRepeats (names printer seen.line_list)
    × (length seen.line_list ≤ max 1 2)
    × (length seen.lines.entries ≡ length seen.line_list)
    × ((k : String)
        → (has_key k seen.line_map ≡ member k (names printer seen.line_list))
          × (has_key k seen.lines.entries ≡ member k (names printer seen.line_list)))
run-new-Agrees_example = run-new-Agrees printer 2 flows

abbrev phone : Client
phone = record { name = "10.0.0.9:5000"; point = some ("office", "tap0") }

abbrev sightings : List Sighting
sightings =
    record { now = 1; hw_addr = 2 ∷ 1 ∷ []; ip_addr = 10 ∷ 7 ∷ []; client = phone }
    ∷ record { now = 5; hw_addr = 2 ∷ 9 ∷ []; ip_addr = 10 ∷ 7 ∷ []; client = phone }
    ∷ []

abbrev learnt : Table
learnt = Learning.run print sightings (init 4)

run-init-first_example :
    (first_of print (get (print (7 ∷ [])) learnt) ≡ first_sighting print (print (7 ∷ [])) sightings)
    ⊎ ((first_of print (get (print (7 ∷ [])) learnt) ≡ none)
        × (is_full learnt.size learnt.entries ≡ true))
run-init-first_example = run-init-first print (print (7 ∷ [])) 4 sightings
