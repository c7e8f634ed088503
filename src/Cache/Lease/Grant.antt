-- ===== src/Cache/Lease/Grant.antt =====
-- NewLease keeps the two maps mirrored, and what follows for whole histories.
use openlan.Base.{
  ℕ, zero, suc, ◌+◌, ◌%◌, ◌^◌, ◌≡◌, ◌≢◌, refl, inl, inr, false, Option, none, some, List, [], ◌∷◌,
  String, arith, string_eq, Bool-cases, Option-cases,
}
use mathlib.Core.Path.{subst}
use openlan.Base.Slices.{◌>>=◌}
use openlan.Base.Assoc.{lookup}
use openlan.Safe.StrMap
use openlan.Safe.StrMap.{SafeStrMap}
use openlan.Cache.Lease.{
  IpText, Ip, v4, v6, Cache, Network, Ref, Allocated, address, exhausted, panics, unfinished, add,
  get, alloc_loop, alloc_between, alloc_lease, granted, new_lease, del_lease, add_lease,
}
use openlan.Cache.Lease.Mirror.{Mirror, add_lease-Mirror, address_of, Mirror-distinct}
use openlan.Cache.Lease.Release.{OnSome, del_lease-Mirror}

module _ (ip : IpText) where
  alloc_loop_free :
      (fuel i last : ℕ) (w : Cache) (a : String)
      → alloc_loop ip fuel i last w ≡ address a
      → ((StrMap.get_ex a w.addrs).1 ≡ false) × (a ≢ "")
  unfolding alloc_loop
  alloc_loop_free zero i last w a h = absurd (ground arith)
  alloc_loop_free (suc fuel) i last w a h =
      let ih = alloc_loop_free fuel ((i + 1) % 2 ^ 32) last w a in
      ground (arith, ih, ip.print_nonempty i)

  -- An address that allocLease returns is free.
  pub alloc_lease_free :
      (fuel : ℕ) (s e : String) (w : Cache) (a : String)
      → alloc_lease ip fuel s e w ≡ address a
      → ((StrMap.get_ex a w.addrs).1 ≡ false) × (a ≢ "")
  unfolding alloc_lease
  alloc_lease_free fuel s e w a h = go (ip.parse s) (ip.parse e) h
    where
      go :
          (x y : Option Ip)
          → alloc_between ip fuel x y w ≡ address a
          → ((StrMap.get_ex a w.addrs).1 ≡ false) × (a ≢ "")
      go none y p = absurd (unfold alloc_between in ground arith)
      go (some x) none p = absurd (unfold alloc_between in ground arith)
      go (some v6) (some y) p = absurd (unfold alloc_between in ground arith)
      go (some (v4 i)) (some v6) p = absurd (unfold alloc_between in ground arith)
      go (some (v4 i)) (some (v4 j)) p = alloc_loop_free fuel i j w a (unfold alloc_between in p)

  granted-Mirror :
      (uuid : String) (r : Allocated) (w w' : Cache) (l : Option Ref)
      → Mirror w
      → (StrMap.get_ex uuid w.uuids).1 ≡ false
      → ((a : String) → r ≡ address a → ((StrMap.get_ex a w.addrs).1 ≡ false) × (a ≢ ""))
      → granted ip uuid r w ≡ some (w', l)
      → Mirror w'
  unfolding granted
  granted-Mirror uuid (address a) w w' l m new free h =
      let (f, e) = free a refl in
      let m' = add_lease-Mirror uuid a w m new f e in
      let same : (add_lease uuid a w).0 ≡ w' = ground arith in subst Mirror same m'
  granted-Mirror uuid exhausted w w' l m new free h =
      let same : w ≡ w' = ground arith in subst Mirror same m
  granted-Mirror uuid panics w w' l m new free h = absurd (ground arith)
  granted-Mirror uuid unfinished w w' l m new free h = absurd (ground arith)

  pub new_lease-Mirror :
      (fuel : ℕ) (uuid network : String) (w w' : Cache) (l : Option Ref)
      → Mirror w
      → new_lease ip fuel uuid network w ≡ some (w', l)
      → Mirror w'
  unfolding new_lease
  new_lease-Mirror fuel uuid network w w' l m h = elim (Option-cases (get network w)) [
    | inl e ↦ let same : w ≡ w' = ground (arith, e) in subst Mirror same m
    | inr (n, e) ↦ elim (Bool-cases (string_eq.beq uuid "")) [
      | inl b ↦ let same : w ≡ w' = ground (arith, e, b) in subst Mirror same m
      | inr b ↦ elim (Bool-cases (StrMap.get_ex uuid w.uuids).1) [
        | inl c ↦ let same : w ≡ w' = ground (arith, e, b, c) in subst Mirror same m
        | inr c ↦
            granted-Mirror uuid (alloc_lease ip fuel n.ip_start n.ip_end w) w w' l m c
              (λ a p. alloc_lease_free fuel n.ip_start n.ip_end w a p) (ground (arith, e, b, c))
      ]
    ]
  ]

  pub data Call : Type 0 where
    adds : Network → Call
    leases : String → String → Call
    frees : String → Call

  -- One call; `none` where it panics or its loop is unfinished.
  unfoldable pub step : ℕ → Call → Cache → Option Cache
  step fuel (adds n) w = some (add n w)
  step fuel (leases uuid network) w = new_lease ip fuel uuid network w >>= λ r. some r.0
  step fuel (frees uuid) w = del_lease uuid w

  unfoldable pub run : ℕ → List Call → Cache → Option Cache
  run fuel [] w = some w
  run fuel (c ∷ cs) w = step fuel c w >>= λ w'. run fuel cs w'

  step-Mirror :
      (fuel : ℕ) (c : Call) (w w' : Cache) → Mirror w → step fuel c w ≡ some w' → Mirror w'
  unfolding step add
  step-Mirror fuel (adds n) w w' m h =
      subst Mirror
        (let same : record w { networks = (StrMap.set n.name (some n) w.networks).0 } ≡ w' =
            ground arith in
          same)
        (record {
          uuids_valid = m.uuids_valid;
          addrs_valid = m.addrs_valid;
          same_size = m.same_size;
          same_len = m.same_len;
          by_uuid = m.by_uuid;
          by_addr = m.by_addr;
        })
  step-Mirror fuel (leases uuid network) w w' m h =
      elim (Option-cases (new_lease ip fuel uuid network w)) [
        | inl e ↦ absurd (ground (arith, e))
        | inr ((v, l), e) ↦ new_lease-Mirror fuel uuid network w w' l m (ground (arith, e))
      ]
  step-Mirror fuel (frees uuid) w w' m h = subst (OnSome Mirror) h (del_lease-Mirror uuid w m)

  pub run-Mirror :
      (fuel : ℕ) (cs : List Call) (w w' : Cache) → Mirror w → run fuel cs w ≡ some w' → Mirror w'
  unfolding run
  run-Mirror fuel [] w w' m h = let same : w ≡ w' = ground arith in subst Mirror same m
  run-Mirror fuel (c ∷ cs) w w' m h = elim (Option-cases (step fuel c w)) [
    | inl e ↦ absurd (ground (arith, e))
    | inr (v, e) ↦ run-Mirror fuel cs v w' (step-Mirror fuel c w v m e) (ground (arith, e))
  ]

-- The cache at the start: `network` of the source has 1024 places in each map.
unfoldable pub empty : ℕ → Cache
empty n = record { networks = StrMap.new n; uuids = StrMap.new n; addrs = StrMap.new n; heap = [] }

pub empty-Mirror : (n : ℕ) → Mirror (empty n)
unfolding empty StrMap.new StrMap.get_ex StrMap.len lookup
empty-Mirror n = record {
  uuids_valid = record { distinct = tt; bounded = λ h. omega arith };
  addrs_valid = record { distinct = tt; bounded = λ h. omega arith };
  same_size = refl;
  same_len = refl;
  by_uuid = λ k p h. absurd (ground arith);
  by_addr = λ k p h. absurd (ground arith);
}

-- After any history of networks added, leases asked for and leases given back, from the empty cache,
-- no two clients have the same address, whatever bound the maps have.
pub run_distinct :
    (ip : IpText) (n fuel : ℕ) (cs : List (Call ip)) (w : Cache) (k j a : String)
    → run ip fuel cs (empty n) ≡ some w
    → address_of k w ≡ some a
    → address_of j w ≡ some a
    → k ≡ j
run_distinct ip n fuel cs w k j a h hk hj =
    Mirror-distinct w k j a (run-Mirror ip fuel cs (empty n) w (empty-Mirror n) h) hk hj
