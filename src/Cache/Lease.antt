-- ===== src/Cache/Lease.antt =====
-- network.go of pkg/olsw/cache: networks and address leases.
-- Leases are shared by pointer between the two maps and with the callers, so they live in a heap:
-- a pointer is the position of a lease in `heap`, which only grows.
pub mod Alloc
pub mod Store
pub mod Mirror
pub mod Release
pub mod Grant
use openlan.Base.{
  ℕ, zero, suc, ◌+◌, ◌%◌, ◌^◌, ◌≡◌, ◌<◌, ◌≢◌, Bool, true, false, not, ◌||◌, Option, none, some,
  List, [], ◌∷◌, ◌++◌, String, string_eq, if◌then◌else◌, leb, ◌==◌, length, arith,
}
use openlan.Safe.StrMap
use openlan.Safe.StrMap.{SafeStrMap}

-- net.ParseIP gives nil, an IPv4 address as its number, or an IPv6 address.
pub data Ip : Type 0 where
  v4 : ℕ → Ip
  v6 : Ip

-- net.ParseIP and String of net.IP on 4 bytes, which are Go's: an address is printed in one way, and
-- not as the empty text.
pub record IpText : Type 0 where
  pub parse : String → Option Ip
  pub print : ℕ → String
  pub print_injective : (a b : ℕ) → a < 2 ^ 32 → b < 2 ^ 32 → print a ≡ print b → a ≡ b
  pub print_nonempty : (a : ℕ) → print a ≢ ""

-- models.Network, the fields that leases use.
pub record Network : Type 0 where
  pub name : String
  pub ip_start : String
  pub ip_end : String

-- schema.Lease
pub record Lease : Type 0 where
  pub address : String
  pub uuid : String
  pub alias : String
  pub client : String
  pub type : String
  pub network : String

abbrev pub Ref : Type 0
Ref = ℕ

pub record Cache : Type 0 where
  pub networks : SafeStrMap Network
  pub uuids : SafeStrMap Ref
  pub addrs : SafeStrMap Ref
  pub heap : List Lease

-- `*p`, for a pointer that was given out; `none` is a nil dereference.
unfoldable pub deref : List Lease → Ref → Option Lease
deref [] p = none
deref (l ∷ ls) zero = some l
deref (l ∷ ls) (suc p) = deref ls p

unfoldable pub add : Network → Cache → Cache
add n w = record w { networks = (StrMap.set n.name (some n) w.networks).0 }

unfoldable pub del : String → Cache → Cache
del name w = record w { networks = StrMap.del name w.networks }

unfoldable pub get : String → Cache → Option Network
get name w = StrMap.get name w.networks

-- GetLease, and GetLeaseByAlias, which is the same look-up by another name.
unfoldable pub get_lease : String → Cache → Option Ref
get_lease uuid w = (StrMap.get_ex uuid w.uuids).0

unfoldable pub get_lease_by_alias : String → Cache → Option Ref
get_lease_by_alias name w = (StrMap.get_ex name w.uuids).0

-- AddLease: a new lease in the heap, under both names where there is room and none before.
unfoldable pub add_lease : String → String → Cache → Cache × Option Ref
add_lease uuid ip_str w =
    if string_eq.beq ip_str ""
    then (w, none)
    else (let l : Lease = record {
      address = ip_str;
      uuid = uuid;
      alias = uuid;
      client = "";
      type = "";
      network = "";
    } in
        let p = length w.heap in
        (
          record w {
            uuids = (StrMap.set uuid (some p) w.uuids).0;
            addrs = (StrMap.set ip_str (some p) w.addrs).0;
            heap = w.heap ++ (l ∷ []);
          },
          some p,
        ))

unfoldable pub is_static : Lease → Bool
is_static l = string_eq.beq l.type "static"

-- The first half of DelLease: by UUID. The address that it found, "" for none.
unfoldable pub del_by_uuid : String → Cache → Option (Cache × String)
del_by_uuid uuid w = elim (StrMap.get_ex uuid w.uuids).0 [
  | none ↦ some (w, "")
  | some p ↦ elim (deref w.heap p) [
    | none ↦ none
    | some l ↦
        some (if is_static l then w else record w { uuids = StrMap.del uuid w.uuids }, l.address)
  ]
]

-- The second half: by address, unless the address has gone to another.
unfoldable pub del_by_addr : String → String → Cache → Option Cache
del_by_addr uuid addr w = elim (StrMap.get_ex addr w.addrs).0 [
  | none ↦ some w
  | some p ↦ elim (deref w.heap p) [
    | none ↦ none
    | some l ↦ some (
        if string_eq.beq l.uuid uuid
        then if is_static l then w else record w { addrs = StrMap.del addr w.addrs }
        else w)
  ]
]

unfoldable pub del_lease : String → Cache → Option Cache
del_lease uuid w = elim (del_by_uuid uuid w) [ none ↦ none | some r ↦ del_by_addr uuid r.1 r.0 ]

-- How the loop of allocLease ends.
pub data Allocated : Type 0 where
  address : String → Allocated
  -- the source returns ""
  exhausted : Allocated
  -- the source panics: an address is not an IPv4 one
  panics : Allocated
  -- the rounds given are used up
  unfinished : Allocated

module _ (ip : IpText) where
  -- `for i := start; i <= end; i++` on uint32
  unfoldable pub alloc_loop : ℕ → ℕ → ℕ → Cache → Allocated
  alloc_loop zero i last w = unfinished
  alloc_loop (suc fuel) i last w =
      let next = alloc_loop fuel ((i + 1) % 2 ^ 32) last w in
      if leb i last
      then if (StrMap.get_ex (ip.print i) w.addrs).1 then next else address (ip.print i)
      else exhausted

  unfoldable pub alloc_between : ℕ → Option Ip → Option Ip → Cache → Allocated
  alloc_between fuel none e w = exhausted
  alloc_between fuel (some s) none w = exhausted
  alloc_between fuel (some v6) (some e) w = panics
  alloc_between fuel (some (v4 s)) (some v6) w = panics
  alloc_between fuel (some (v4 s)) (some (v4 e)) w = alloc_loop fuel s e w

  unfoldable pub alloc_lease : ℕ → String → String → Cache → Allocated
  alloc_lease fuel s_addr e_addr w = alloc_between fuel (ip.parse s_addr) (ip.parse e_addr) w

  -- NewLease: `none` where the allocation panics or is unfinished.
  unfoldable pub granted : String → Allocated → Cache → Option (Cache × Option Ref)
  granted uuid (address a) w = let w' = (add_lease uuid a w).0 in some (w', get_lease uuid w')
  granted uuid exhausted w = some (w, none)
  granted uuid panics w = none
  granted uuid unfinished w = none

  unfoldable pub new_lease : ℕ → String → String → Cache → Option (Cache × Option Ref)
  new_lease fuel uuid network w = elim (get network w) [
    | none ↦ some (w, none)
    | some n ↦
        if string_eq.beq uuid ""
        then some (w, none)
        else if (StrMap.get_ex uuid w.uuids).1
        then some (w, (StrMap.get_ex uuid w.uuids).0)
        else granted uuid (alloc_lease fuel n.ip_start n.ip_end w) w
  ]
