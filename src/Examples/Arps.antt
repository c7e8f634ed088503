-- ===== src/Examples/Arps.antt =====
-- The theorems on neighbours at concrete tables.
use openlan.Base.{◌⊎◌, none, ℕ, ◌≡◌, refl, some, [], ◌∷◌, nat_eq, if◌then◌else◌, ◌==◌}
use openlan.Base.Slices.{u32_part}
use openlan.Neighbors.{Neighbor, Neighbors, add, get, get_by_bytes}
use openlan.Neighbors.Table.{get_by_bytes-add}

abbrev printer : Neighbor
printer = record {
  hw_addr = 2 ∷ 0 ∷ 0 ∷ 0 ∷ 0 ∷ 1 ∷ [];
  ip_addr = 10 ∷ 0 ∷ 0 ∷ 7 ∷ [];
  uptime = 50;
  new_time = 40;
}

abbrev table : Neighbors
table = record { neighbors = (167772167, printer) ∷ []; timeout = 60; interval = 30 }

abbrev moved : Neighbor
moved = record printer { hw_addr = 2 ∷ 0 ∷ 0 ∷ 0 ∷ 0 ∷ 2 ∷ []; uptime = 90; new_time = 90 }

get_by_bytes-add_example :
    (n' : Neighbors) × (k : ℕ) × (l : Neighbor) × (add (some moved) table ≡ some n')
    × (u32_part 0 moved.ip_addr ≡ some k)
    × (get_by_bytes moved.ip_addr n' ≡ some (some l))
    × (l.hw_addr ≡ moved.hw_addr)
    × (l.uptime ≡ moved.uptime)
    × (((get k table ≡ none) × (l.ip_addr ≡ moved.ip_addr) × (l.new_time ≡ moved.new_time))
        ⊎ ((older : Neighbor) × (get k table ≡ some older)
            × (l.ip_addr ≡ older.ip_addr)
            × (l.new_time ≡ older.new_time)))
    × (get 5 n' ≡ (if k == 5 then some l else get 5 table))
get_by_bytes-add_example = get_by_bytes-add moved table 5 refl refl
