-- ===== src/Cache/Lease/Release.antt =====
-- DelLease keeps the two maps mirrored.
use openlan.Base.{
  ◌≡◌, inl, inr, false, Option, none, some, String, arith, string_eq, Bool-cases, Option-cases,
}
use openlan.Base.Assoc.{has_key-lookup, length-erase}
use openlan.Safe.StrMap
use openlan.Safe.StrMap.{SafeStrMap}
use openlan.Safe.StrMap.Laws.{get_ex-del}
use openlan.Safe.StrMap.Runs.{del-Valid}
use openlan.Cache.Lease.{Cache, Lease, Ref, deref, del_lease, del_by_uuid, del_by_addr, is_static}
use openlan.Cache.Lease.Mirror.{Mirror, Holds}

get_ex-Holds :
    (k : String) (m : SafeStrMap Ref) (p : Ref) → (StrMap.get_ex k m).0 ≡ some p → Holds m k p
unfolding StrMap.get_ex
get_ex-Holds k m p h = ground arith

-- What a call of DelLease did: nothing, or the removal of one lease, that is not static, from both
-- maps.
abbrev pub released : String → String → Cache → Cache
released uuid a w = record w { uuids = StrMap.del uuid w.uuids; addrs = StrMap.del a w.addrs }

pub data Release (uuid : String) (w : Cache) : Option Cache → Type 0 where
  kept : Release uuid w (some w)
  removed :
      (p : Ref) (l : Lease)
      → Holds w.uuids uuid p
      → deref w.heap p ≡ some l
      → l.uuid ≡ uuid
      → Holds w.addrs l.address p
      → is_static l ≡ false
      → Release uuid w (some (released uuid l.address w))

absent :
    (uuid : String) (w : Cache)
    → Mirror w
    → (StrMap.get_ex uuid w.uuids).0 ≡ none
    → del_lease uuid w ≡ some w
unfolding del_lease del_by_uuid del_by_addr
absent uuid w m e = elim (Option-cases (StrMap.get_ex "" w.addrs).0) [
  | inl none_there ↦ ground (arith, e, none_there)
  | inr (p, there) ↦
      let (l, d, a, x) = m.by_addr "" p (get_ex-Holds "" w.addrs p there) in
      ground (arith, e, there, d, x, string_eq.beq_iff l.uuid uuid)
]

-- On mirrored maps DelLease returns the cache as it was, or, only where the client holds a lease that
-- is not static, the cache without its entries in both maps, the client's and its address's.
pub del_lease-Release : (uuid : String) (w : Cache) → Mirror w → Release uuid w (del_lease uuid w)
del_lease-Release uuid w m = elim (Option-cases (StrMap.get_ex uuid w.uuids).0) [
  | inl e ↦ rw (absent uuid w m e) kept
  | inr (p, e) ↦
      let h = get_ex-Holds uuid w.uuids p e in
      let (l, d, u, x) = m.by_uuid uuid p h in
      elim (Bool-cases (is_static l)) [
        | inl st ↦
            let same : del_lease uuid w ≡ some w =
              unfold del_lease del_by_uuid del_by_addr in ground (arith, h, d, x, st) in
            rw same kept
        | inr st ↦
            let gone : del_lease uuid w ≡ some (released uuid l.address w) =
              unfold del_lease del_by_uuid del_by_addr in
              ground (arith, h, d, x, u, st, string_eq.beq_iff l.uuid uuid) in
            rw gone (removed p l h d u x st)
      ]
]

module _ (uuid : String) (w : Cache) (m : Mirror w) (p : Ref) (l : Lease) (h : Holds w.uuids uuid p)
    (d : deref w.heap p ≡ some l) (u : l.uuid ≡ uuid) (x : Holds w.addrs l.address p) where
  released_by_uuid :
      (k : String) (q : Ref)
      → Holds (released uuid l.address w).uuids k q
      → (l' : Lease) × (deref w.heap q ≡ some l')
        × (l'.uuid ≡ k)
        × Holds (released uuid l.address w).addrs l'.address q
  released_by_uuid k q hk =
      let g = get_ex-del uuid k w.uuids m.uuids_valid.distinct in
      let old : Holds w.uuids k q = ground (arith, g) in
      let (l', d', u', x') = m.by_uuid k q old in
      (
        l',
        d',
        u',
        ground (
          arith,
          g,
          x,
          x',
          d,
          d',
          u,
          u',
          get_ex-del l.address l'.address w.addrs m.addrs_valid.distinct,
          string_eq.beq_iff l.address l'.address,
          string_eq.beq_iff uuid k,
        ),
      )

  released_by_addr :
      (a : String) (q : Ref)
      → Holds (released uuid l.address w).addrs a q
      → (l' : Lease) × (deref w.heap q ≡ some l')
        × (l'.address ≡ a)
        × Holds (released uuid l.address w).uuids l'.uuid q
  released_by_addr a q ha =
      let g = get_ex-del l.address a w.addrs m.addrs_valid.distinct in
      let old : Holds w.addrs a q = ground (arith, g) in
      let (l', d', a', x') = m.by_addr a q old in
      (
        l',
        d',
        a',
        ground (
          arith,
          g,
          h,
          x',
          d,
          d',
          u,
          a',
          get_ex-del uuid l'.uuid w.uuids m.uuids_valid.distinct,
          string_eq.beq_iff uuid l'.uuid,
          string_eq.beq_iff l.address a,
        ),
      )

  released_sizes :
      let w' = released uuid l.address w in
      (w'.uuids.size ≡ w'.addrs.size) × (StrMap.len w'.uuids ≡ StrMap.len w'.addrs)
  unfolding StrMap.del StrMap.len StrMap.get_ex
  released_sizes = ground (
    arith,
    m.same_size,
    m.same_len,
    h,
    x,
    has_key-lookup uuid w.uuids.entries,
    has_key-lookup l.address w.addrs.entries,
    length-erase uuid {v = some p} w.uuids.entries,
    length-erase l.address {v = some p} w.addrs.entries,
  )

  released-Mirror : Mirror (released uuid l.address w)
  released-Mirror = record {
    uuids_valid = del-Valid uuid w.uuids m.uuids_valid;
    addrs_valid = del-Valid l.address w.addrs m.addrs_valid;
    same_size = released_sizes.0;
    same_len = released_sizes.1;
    by_uuid = released_by_uuid;
    by_addr = released_by_addr;
  }

-- What holds of a result, if there is one.
abbrev pub OnSome : {A : Type 0} → (A → Type 0) → Option A → Type 0
OnSome P none = ⊥
OnSome P (some a) = P a

Release-Mirror :
    (uuid : String) (w : Cache) {r : Option Cache} → Mirror w → Release uuid w r → OnSome Mirror r
Release-Mirror uuid w m kept = m
Release-Mirror uuid w m (removed p l h d u x st) = released-Mirror uuid w m p l h d u x

-- DelLease does not fail on mirrored maps, and leaves them mirrored.
pub del_lease-Mirror : (uuid : String) (w : Cache) → Mirror w → OnSome Mirror (del_lease uuid w)
del_lease-Mirror uuid w m = Release-Mirror uuid w m (del_lease-Release uuid w m)
