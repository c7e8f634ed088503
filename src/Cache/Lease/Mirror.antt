-- ===== src/Cache/Lease/Mirror.antt =====
-- The two maps of leases mirror one another, so no address has two holders.
use openlan.Base.{
  ◌≡◌, ◌≢◌, ◌∙◌, inl, inr, Bool, true, false, Option, none, some, [], ◌∷◌, ◌++◌, String, arith,
  string_eq, length, Bool-cases, Option-cases, if◌then◌else◌,
}
use openlan.Safe.StrMap
use openlan.Safe.StrMap.{SafeStrMap}
use openlan.Safe.StrMap.Laws.{get_ex-set}
use openlan.Safe.StrMap.Runs.{Valid, set-Valid}
use openlan.Base.Assoc.{has_key-lookup, length-insert}
use openlan.Safe.Full.{is_full}
use openlan.Cache.Lease.{Cache, Lease, Ref, deref, add_lease, get_lease}
use openlan.Cache.Lease.Store.{deref-append, deref_new, deref-lt}

-- The map has the pointer under the name.
abbrev pub Holds : SafeStrMap Ref → String → Ref → Type 0
Holds m k p = StrMap.get_ex k m ≡ (some p, true)

-- Each entry of one map is the lease that the other map has under the lease's other name.
pub record Mirror (w : Cache) : Type 0 where
  pub uuids_valid : Valid w.uuids
  pub addrs_valid : Valid w.addrs
  pub same_size : w.uuids.size ≡ w.addrs.size
  pub same_len : StrMap.len w.uuids ≡ StrMap.len w.addrs
  pub by_uuid :
      (k : String) (p : Ref)
      → Holds w.uuids k p
      → (l : Lease) × (deref w.heap p ≡ some l) × (l.uuid ≡ k) × Holds w.addrs l.address p
  pub by_addr :
      (a : String) (p : Ref)
      → Holds w.addrs a p
      → (l : Lease) × (deref w.heap p ≡ some l) × (l.address ≡ a) × Holds w.uuids l.uuid p

-- The address that a client's lease holds.
unfoldable pub address_of : String → Cache → Option String
address_of uuid w = elim (get_lease uuid w) [
  | none ↦ none
  | some p ↦ elim (deref w.heap p) [ none ↦ none | some l ↦ some l.address ]
]

get_lease-Holds : (k : String) (w : Cache) (p : Ref) → get_lease k w ≡ some p → Holds w.uuids k p
unfolding get_lease StrMap.get_ex
get_lease-Holds k w p h = ground arith

address_of_inv :
    (w : Cache) (k a : String)
    → Mirror w
    → address_of k w ≡ some a
    → (p : Ref) × (l : Lease) × (deref w.heap p ≡ some l) × (l.uuid ≡ k) × Holds w.addrs a p
unfolding address_of
address_of_inv w k a m h = elim (Option-cases (get_lease k w)) [
  | inl e ↦ absurd (ground (arith, e))
  | inr (p, e) ↦
      let (l, d, u, x) = m.by_uuid k p (get_lease-Holds k w p e) in
      (p, l, d, u, ground (arith, e, d, x))
]

-- Two clients with the same address are one.
pub Mirror-distinct :
    (w : Cache) (k j a : String)
    → Mirror w
    → address_of k w ≡ some a
    → address_of j w ≡ some a
    → k ≡ j
Mirror-distinct w k j a m hk hj =
    let (p, l, d, u, x) = address_of_inv w k a m hk in
    let (p', l', d', u', x') = address_of_inv w j a m hj in ground (arith, d, u, x, d', u', x')

pub fresh_lease : String → String → Lease
fresh_lease uuid ip_str = record {
  address = ip_str;
  uuid = uuid;
  alias = uuid;
  client = "";
  type = "";
  network = "";
}

-- A lease for a name and an address that are both new.
module _ (uuid ip_str : String) (w : Cache) (m : Mirror w)
    (new_uuid : (StrMap.get_ex uuid w.uuids).1 ≡ false)
    (new_addr : (StrMap.get_ex ip_str w.addrs).1 ≡ false) (present : ip_str ≢ "") where
  abbrev added : Cache
  added = (add_lease uuid ip_str w).0

  abbrev full : Bool
  full = is_full w.uuids.size w.uuids.entries

  abbrev top : Ref
  top = length w.heap

  same_full : is_full w.addrs.size w.addrs.entries ≡ full
  unfolding StrMap.len
  same_full = ground (arith, m.same_size, m.same_len)

  added-heap : added.heap ≡ w.heap ++ (fresh_lease uuid ip_str ∷ [])
  unfolding add_lease fresh_lease
  added-heap = ground (arith, string_eq.beq_iff ip_str "")

  added-uuids :
      (k : String)
      → StrMap.get_ex k added.uuids ≡ (
          if full
          then StrMap.get_ex k w.uuids
          else if string_eq.beq uuid k
          then (some top, true)
          else StrMap.get_ex k w.uuids)
  unfolding add_lease
  added-uuids k = ground (arith, string_eq.beq_iff ip_str "", get_ex-set uuid k (some top) w.uuids)

  added-addrs :
      (a : String)
      → StrMap.get_ex a added.addrs ≡ (
          if full
          then StrMap.get_ex a w.addrs
          else if string_eq.beq ip_str a
          then (some top, true)
          else StrMap.get_ex a w.addrs)
  unfolding add_lease
  added-addrs a =
      ground (arith, string_eq.beq_iff ip_str "", get_ex-set ip_str a (some top) w.addrs, same_full)

  add_by_uuid :
      (k : String) (p : Ref)
      → Holds added.uuids k p
      → (l : Lease) × (deref added.heap p ≡ some l) × (l.uuid ≡ k) × Holds added.addrs l.address p
  unfolding fresh_lease
  add_by_uuid k p h = elim (Bool-cases full) [
    | inl f ↦
        let (l, d, u, x) = m.by_uuid k p (ground (arith, added-uuids k, f)) in
        (
          l,
          rw added-heap (deref-append w.heap _ p (deref-lt w.heap p d) ∙ d),
          u,
          ground (arith, added-addrs l.address, f, x),
        )
    | inr f ↦ elim (Bool-cases (string_eq.beq uuid k)) [
      | inl e ↦ (
        fresh_lease uuid ip_str,
        ground (arith, added-heap, added-uuids k, f, e, deref_new w.heap (fresh_lease uuid ip_str)),
        (string_eq.beq_iff uuid k).0 e,
        ground (arith, added-uuids k, added-addrs ip_str, f, e, string_eq.beq_iff ip_str ip_str),
      )
      | inr e ↦
          let (l, d, u, x) = m.by_uuid k p (ground (arith, added-uuids k, f, e)) in
          (
            l,
            rw added-heap (deref-append w.heap _ p (deref-lt w.heap p d) ∙ d),
            u,
            ground (arith, added-addrs l.address, f, x, string_eq.beq_iff ip_str l.address),
          )
    ]
  ]

  add_by_addr :
      (a : String) (p : Ref)
      → Holds added.addrs a p
      → (l : Lease) × (deref added.heap p ≡ some l) × (l.address ≡ a) × Holds added.uuids l.uuid p
  unfolding fresh_lease
  add_by_addr a p h = elim (Bool-cases full) [
    | inl f ↦
        let (l, d, u, x) = m.by_addr a p (ground (arith, added-addrs a, f)) in
        (
          l,
          rw added-heap (deref-append w.heap _ p (deref-lt w.heap p d) ∙ d),
          u,
          ground (arith, added-uuids l.uuid, f, x),
        )
    | inr f ↦ elim (Bool-cases (string_eq.beq ip_str a)) [
      | inl e ↦ (
        fresh_lease uuid ip_str,
        ground (arith, added-heap, added-addrs a, f, e, deref_new w.heap (fresh_lease uuid ip_str)),
        (string_eq.beq_iff ip_str a).0 e,
        ground (arith, added-addrs a, added-uuids uuid, f, e, string_eq.beq_iff uuid uuid),
      )
      | inr e ↦
          let (l, d, u, x) = m.by_addr a p (ground (arith, added-addrs a, f, e)) in
          (
            l,
            rw added-heap (deref-append w.heap _ p (deref-lt w.heap p d) ∙ d),
            u,
            ground (arith, added-uuids l.uuid, f, x, string_eq.beq_iff uuid l.uuid),
          )
    ]
  ]

  added_sizes :
      (added.uuids.size ≡ added.addrs.size) × (StrMap.len added.uuids ≡ StrMap.len added.addrs)
  unfolding add_lease StrMap.set StrMap.len StrMap.get_ex
  added_sizes = ground (
    arith,
    m.same_size,
    m.same_len,
    string_eq.beq_iff ip_str "",
    has_key-lookup uuid w.uuids.entries,
    has_key-lookup ip_str w.addrs.entries,
    length-insert uuid (some top) w.uuids.entries,
    length-insert ip_str (some top) w.addrs.entries,
  )

  added-Valid : Valid added.uuids × Valid added.addrs
  unfolding add_lease
  added-Valid = ground (
    arith,
    m.uuids_valid,
    m.addrs_valid,
    set-Valid uuid (some top) w.uuids m.uuids_valid,
    set-Valid ip_str (some top) w.addrs m.addrs_valid,
  )

  pub add_lease-Mirror : Mirror added
  add_lease-Mirror = record {
    uuids_valid = added-Valid.0;
    addrs_valid = added-Valid.1;
    same_size = added_sizes.0;
    same_len = added_sizes.1;
    by_uuid = add_by_uuid;
    by_addr = add_by_addr;
  }
