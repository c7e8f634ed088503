-- ===== src/Switch/Closing.antt =====
-- What the end of a connection leaves of its point and its lease.
use openlan.Base.{◌≡◌, ◌≢◌, refl, sym, inl, inr, Option, none, some, String, string_eq, Bool-cases}
use openlan.Base.Assoc.{Distinct}
use openlan.Cache.Points
use openlan.Cache.Points.{PointCache}
use openlan.Cache.Points.Lookup.{get_by_uuid-del, get-del}
use openlan.Cache.Lease.{Cache}
use openlan.Cache.Lease.Mirror.{Mirror}
use openlan.Cache.Lease.Release.{Release, kept, removed, del_lease-Release}
use openlan.Switch.{on_close}

Release-some :
    {uuid : String} {w : Cache} {o : Option Cache} → Release uuid w o → (w1 : Cache) × (o ≡ some w1)
Release-some {w = w} kept = (w, refl)
Release-some {o = o} (removed p l h d u a s) = (_, refl)

-- Where the maps of leases mirror each other and no key of the maps of points has two entries, the
-- end of a connection never panics. Its point is gone from the table; every point that has a newer
-- connection is found as before; and of the leases at most that of the connection's own point is
-- given up, and none if that point has a newer connection.
pub on_close-Release :
    (addr : String) (points : PointCache) (w : Cache)
    → Mirror w
    → Distinct points.clients.entries
    → Distinct points.uuid_addr.entries
    → let uuid = Points.get_uuid addr points in
      let after = Points.del addr points in
      (w1 : Cache) × (on_close addr points w ≡ some (after.0, w1, after.1))
      × Release uuid w (some w1)
      × (Points.get_addr uuid points ≢ addr → w1 ≡ w)
      × (Points.get addr after.0 ≡ none)
      × ((other : String)
          → Points.get_addr other points ≢ addr
          → Points.get_by_uuid other after.0 ≡ Points.get_by_uuid other points)
unfolding on_close
on_close-Release addr points w m d d' =
    let uuid = Points.get_uuid addr points in
    let keeps = λ (other : String). get_by_uuid-del other addr points d d' in
    let gone = (get-del addr points d).0 in
    elim (Bool-cases (string_eq.beq (Points.get_addr uuid points) addr)) [
      | inl own ↦
          let r = del_lease-Release uuid w m in
          let (w1, e) = Release-some r in
          (
            w1,
            rw (on_close, own, e) refl,
            rw (sym e) r,
            λ newer. absurd (newer ((string_eq.beq_iff _ _).0 own)),
            gone,
            λ other h. (keeps other h).1,
          )
      | inr newer ↦
          (w, rw (on_close, newer) refl, kept, λ h. refl, gone, λ other h. (keeps other h).1)
    ]
