-- ===== src/Neighbors/Table.antt =====
-- What the table of neighbours holds after each operation.
use openlan.Base.{
  ℕ, ◌+◌, ◌*◌, ◌≡◌, ◌⊎◌, inl, inr, refl, Bool, false, ◌||◌, Option, none, some, List, [], ◌∷◌,
  nat_eq, arith, if◌then◌else◌, leb, ◌==◌, length, take_all, get_or,
}
use openlan.Base.Assoc.{
  lookup, insert, erase, lookup-insert, lookup-erase, has_key-lookup, Distinct, Distinct-erase,
}
use openlan.Base.Slices.{u32_part}
use openlan.Neighbors.{
  Neighbor, Neighbors, collect, delete_all, expire, add, refreshed, get, get_by_bytes, clear, keys,
}

abbrev contains : ℕ → List ℕ → Bool
contains k [] = false
contains k (j ∷ ks) = nat_eq.beq j k || contains k ks

lookup-delete_all :
    (k : ℕ) (ks : List ℕ) (m : List (ℕ × Neighbor))
    → Distinct m
    → lookup k (delete_all ks m) ≡ (if contains k ks then none else lookup k m)
unfolding delete_all
lookup-delete_all k [] m d = refl
lookup-delete_all k (j ∷ ks) m d = ground (
  arith,
  has_key-lookup j m,
  lookup-erase j k m d,
  nat_eq.beq_iff j k,
  lookup-delete_all k ks (erase j m) (Distinct-erase j m d),
  lookup-delete_all k ks m d,
)

abbrev pub is_old : ℕ → ℕ → Neighbor → Bool
is_old now limit l = leb (l.uptime + limit) now

abbrev old_at : ℕ → ℕ → Option Neighbor → Bool
old_at now limit none = false
old_at now limit (some l) = is_old now limit l

contains-collect :
    (k now limit : ℕ) (m : List (ℕ × Neighbor))
    → Distinct m
    → contains k (collect now limit m) ≡ old_at now limit (lookup k m)
unfolding collect lookup
contains-collect k now limit [] d = refl
contains-collect k now limit ((j, l) ∷ m) d =
    ground (arith, nat_eq.beq_iff j k, contains-collect k now limit m d.1)

abbrev pub young : ℕ → ℕ → Option Neighbor → Option Neighbor
young now limit none = none
young now limit (some l) = if is_old now limit l then none else some l

-- Where no address has two entries, after Expire an address is known exactly if it was and was heard of
-- less than `timeout` seconds ago, with its entry unchanged.
pub get-expire :
    (k now : ℕ) (n : Neighbors)
    → Distinct n.neighbors
    → get k (expire now n) ≡ young now n.timeout (get k n)
unfolding expire get
get-expire k now n d = ground (
  arith,
  lookup-delete_all k (collect now n.timeout n.neighbors) n.neighbors d,
  contains-collect k now n.timeout n.neighbors d,
)

contains-keys :
    (k : ℕ) (m : List (ℕ × Neighbor))
    → lookup k m ≡ (if contains k (keys m) then lookup k m else none)
unfolding lookup
contains-keys k [] = refl
contains-keys k ((j, l) ∷ m) = ground (arith, nat_eq.beq_iff j k, contains-keys k m)

-- Where no address has two entries, after Clear none is known.
pub get-clear : (k : ℕ) (n : Neighbors) → Distinct n.neighbors → get k (clear n) ≡ none
unfolding clear get
get-clear k n d =
    ground
      (arith, lookup-delete_all k (keys n.neighbors) n.neighbors d, contains-keys k n.neighbors)

refreshed-fields :
    (h : Neighbor) (hw ip : List ℕ) (o : Option Neighbor)
    → let l = refreshed h hw ip o in
      (l.hw_addr ≡ hw)
      × (l.uptime ≡ h.uptime)
      × (((o ≡ none) × (l.ip_addr ≡ ip) × (l.new_time ≡ h.new_time))
          ⊎ ((older : Neighbor) × (o ≡ some older)
              × (l.ip_addr ≡ older.ip_addr)
              × (l.new_time ≡ older.new_time)))
unfolding refreshed
refreshed-fields h hw ip none = (refl, refl, inl (refl, refl, refl))
refreshed-fields h hw ip (some l) = (refl, refl, inr (l, refl, refl, refl))

-- Where the addresses have 4 and 6 bytes, Add succeeds; from then on the bytes of the address lead to
-- an entry with the neighbour's hardware address and its time. The address and the first time of that
-- entry are those of the older entry if there was one, and the neighbour's if there was none. Every
-- other address leads to what it did before.
pub get_by_bytes-add :
    (h : Neighbor) (n : Neighbors) (other : ℕ)
    → length h.ip_addr ≡ 4
    → length h.hw_addr ≡ 6
    → (n' : Neighbors) × (k : ℕ) × (l : Neighbor) × (add (some h) n ≡ some n')
      × (u32_part 0 h.ip_addr ≡ some k)
      × (get_by_bytes h.ip_addr n' ≡ some (some l))
      × (l.hw_addr ≡ h.hw_addr)
      × (l.uptime ≡ h.uptime)
      × (((get k n ≡ none) × (l.ip_addr ≡ h.ip_addr) × (l.new_time ≡ h.new_time))
          ⊎ ((older : Neighbor) × (get k n ≡ some older)
              × (l.ip_addr ≡ older.ip_addr)
              × (l.new_time ≡ older.new_time)))
      × (get other n' ≡ (if k == other then some l else get other n))
unfolding add get_by_bytes get
get_by_bytes-add h n other four six =
    let k =
      get_or h.ip_addr 0 0 * 16777216
      + get_or h.ip_addr 1 0 * 65536
      + get_or h.ip_addr 2 0 * 256
      + get_or h.ip_addr 3 0 in
    let new = refreshed h h.hw_addr h.ip_addr (lookup k n.neighbors) in
    let (hw, up, first) = refreshed-fields h h.hw_addr h.ip_addr (lookup k n.neighbors) in
    (
      record n { neighbors = insert k new n.neighbors },
      k,
      new,
      ground (arith, take_all 6 h.hw_addr, take_all 4 h.ip_addr),
      ground arith,
      ground (arith, lookup-insert k k new n.neighbors, nat_eq.beq_iff k k),
      hw,
      up,
      first,
      ground (arith, lookup-insert k other new n.neighbors, nat_eq.beq_iff k other),
    )
