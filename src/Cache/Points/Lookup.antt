-- ===== src/Cache/Points/Lookup.antt =====
-- Which point a UUID leads to after a point is added, and after an older one is dropped.
use openlan.Base.{◌≡◌, ◌≢◌, false, none, some, String, string_eq, arith, Option-cases, inl, inr}
use openlan.Base.Assoc.{Distinct}
use openlan.Safe.Full.{is_full}
use openlan.Safe.StrMap
use openlan.Safe.StrStr
use openlan.Safe.StrMap.Laws.{get_ex-set}
use openlan.Safe.StrStr.Laws.{get_ex-reset}
use openlan.Cache.Points.{Point, PointCache, add, get, get_addr, get_by_uuid, del}

-- A point that is added from an address that is not "" and not taken, while neither the map of points
-- nor that of UUIDs is full, is the one that its
-- UUID leads to from then on, whatever that led to before.
pub get_by_uuid-add :
    (m : Point) (p : PointCache)
    → m.client.name ≢ ""
    → (StrMap.get_ex m.client.name p.clients).1 ≡ false
    → is_full p.clients.size p.clients.entries ≡ false
    → is_full p.uuid_addr.size p.uuid_addr.entries ≡ false
    → get_by_uuid m.uuid (add m p) ≡ some m
unfolding get_by_uuid add get get_addr StrMap.get StrStr.get
get_by_uuid-add m p named free room room' = ground (
  arith,
  named,
  free,
  room,
  room',
  get_ex-set m.client.name m.client.name (some m) p.clients,
  get_ex-reset m.uuid m.client.name m.client.name p.uuid_addr,
  get_ex-reset m.uuid m.uuid m.client.name p.uuid_addr,
  string_eq.beq_iff m.client.name "",
  string_eq.beq_iff m.client.name m.client.name,
  string_eq.beq_iff m.uuid m.uuid,
)

-- Where no key has two entries, dropping an address leaves every UUID that leads to another address as it was: a client that is
-- closed late does not take the newer connection of its point with it.
pub get_by_uuid-del :
    (uuid addr : String) (p : PointCache)
    → Distinct p.clients.entries
    → Distinct p.uuid_addr.entries
    → get_addr uuid p ≢ addr
    → (get_addr uuid (del addr p).0 ≡ get_addr uuid p)
      × (get_by_uuid uuid (del addr p).0 ≡ get_by_uuid uuid p)
unfolding get_by_uuid del get get_addr StrMap.get StrStr.get
get_by_uuid-del uuid addr p d d' other = elim (Option-cases (StrMap.get_ex addr p.clients).0) [
  | inl e ↦ ground (arith, e)
  | inr (m, e) ↦ ground (
    arith,
    e,
    other,
    StrMap.Laws.get_ex-del addr (get_addr uuid p) p.clients d,
    StrStr.Laws.get_ex-del m.uuid uuid p.uuid_addr d',
    string_eq.beq_iff m.uuid uuid,
    string_eq.beq_iff addr (get_addr uuid p),
    string_eq.beq_iff (StrStr.get m.uuid p.uuid_addr) addr,
  )
]

-- After Del the address has no point, and the tap of the one that it had is closed.
pub get-del :
    (addr : String) (p : PointCache)
    → Distinct p.clients.entries
    → (get addr (del addr p).0 ≡ none)
      × ((m : Point) → get addr p ≡ some m → (del addr p).1 ≡ m.device)
unfolding del get StrMap.get
get-del addr p d = elim (Option-cases (StrMap.get_ex addr p.clients).0) [
  | inl e ↦ (ground (arith, e), λ m h. ground (arith, e, h))
  | inr (m0, e) ↦ (
    ground (arith, e, StrMap.Laws.get_ex-del addr addr p.clients d, string_eq.beq_iff addr addr),
    λ m h. ground (arith, e, h),
  )
]
