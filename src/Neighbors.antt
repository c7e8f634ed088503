-- ===== src/Neighbors.antt =====
-- pkg/olap/neighbor.go: the neighbours that a point has heard of by ARP, by their IPv4 address as a
-- number. Time is an argument, in seconds. Add takes the address apart; `none` is the panic of a slice
-- out of range. Start and Stop drive the ticker.
pub mod Table
use openlan.Base.{
  ℕ, ◌+◌, Option, none, some, List, [], ◌∷◌, ◌++◌, nat_eq, if◌then◌else◌, leb, take, drop, length,
}
use openlan.Base.Assoc.{lookup, insert, erase, has_key}
use openlan.Base.Slices.{◌>>=◌, upto, u32_part}

pub record Neighbor : Type 0 where
  pub hw_addr : List ℕ
  pub ip_addr : List ℕ
  pub uptime : ℕ
  pub new_time : ℕ

pub record Neighbors : Type 0 where
  pub neighbors : List (ℕ × Neighbor)
  pub timeout : ℕ
  pub interval : ℕ

-- The keys of the neighbours that were last heard of so long ago: `now-learn.Uptime >= limit`.
unfoldable pub collect : ℕ → ℕ → List (ℕ × Neighbor) → List ℕ
collect now limit [] = []
collect now limit ((k, l) ∷ m) =
    let rest = collect now limit m in if leb (l.uptime + limit) now then k ∷ rest else rest

unfoldable pub delete_all : List ℕ → List (ℕ × Neighbor) → List (ℕ × Neighbor)
delete_all [] m = m
delete_all (k ∷ ks) m = delete_all ks (if has_key k m then erase k m else m)

unfoldable pub expire : ℕ → Neighbors → Neighbors
expire now n = record n { neighbors = delete_all (collect now n.timeout n.neighbors) n.neighbors }

-- The addresses of the keys that are there.
unfoldable pub addresses : List ℕ → List (ℕ × Neighbor) → List (List ℕ)
addresses [] m = []
addresses (k ∷ ks) m = elim (lookup k m) [
  | none ↦ addresses ks m
  | some l ↦ l.ip_addr ∷ addresses ks m
]

-- Interval: the addresses that the listener is called with, in order.
unfoldable pub keep_alive : ℕ → Neighbors → List (List ℕ)
keep_alive now n = addresses (collect now n.interval n.neighbors) n.neighbors

-- What Add leaves of an entry: its own address and first time, the new hardware address and time.
unfoldable pub refreshed : Neighbor → List ℕ → List ℕ → Option Neighbor → Neighbor
refreshed h hw ip none = record {
  hw_addr = hw;
  ip_addr = ip;
  uptime = h.uptime;
  new_time = h.new_time;
}
refreshed h hw ip (some l) = record l { uptime = h.uptime; hw_addr = hw }

-- Add; `none` for the neighbour is nil.
unfoldable pub add : Option Neighbor → Neighbors → Option Neighbors
add none n = some n
add (some h) n = u32_part 0 h.ip_addr >>= λ k. upto 6 h.hw_addr >>= λ hw. upto 4 h.ip_addr >>= λ ip.
    some (record n { neighbors = insert k (refreshed h hw ip (lookup k n.neighbors)) n.neighbors })

unfoldable pub get : ℕ → Neighbors → Option Neighbor
get d n = lookup d n.neighbors

unfoldable pub get_by_bytes : List ℕ → Neighbors → Option (Option Neighbor)
get_by_bytes d n = u32_part 0 d >>= λ k. some (lookup k n.neighbors)

abbrev pub keys : List (ℕ × Neighbor) → List ℕ
keys [] = []
keys ((k, l) ∷ m) = k ∷ keys m

unfoldable pub clear : Neighbors → Neighbors
clear n = record n { neighbors = delete_all (keys n.neighbors) n.neighbors }
