-- ===== src/Point/Worker/NextHop.antt =====
-- The next hop that a point takes after the switch has handed out a network.
use openlan.Base.{
  ℕ, ◌≡◌, refl, inl, inr, Bool, false, ◌||◌, none, some, List, [], ◌∷◌, ◌++◌, if◌then◌else◌, arith,
  Option-cases,
}
use openlan.Point.Routes.{Network, Route, network_equal}
use openlan.Point.Worker.{
  Worker, Parser, IpNet, PrefixRule, contains, bytes, masked, find, find_next, own_rule,
  route_rules, on_ip_addr, free_ip_addr, on_open, call,
}

-- Whether some rule is for the address.
abbrev pub covers : List PrefixRule → List ℕ → Bool
covers [] dest = false
covers (rt ∷ rest) dest = contains rt.destination dest || covers rest dest

find_append :
    (dest : List ℕ) (xs ys : List PrefixRule)
    → find dest (xs ++ ys) ≡ (if covers xs dest then find dest xs else find dest ys)
unfolding find
find_append dest [] ys = refl
find_append dest (x ∷ xs) ys = ground (arith, find_append dest xs ys)

module _ (p : Parser) where
  -- The worker's own subnet.
  abbrev pub subnet : Network → IpNet
  subnet n =
      let m = bytes (p.ip n.netmask) in record { ip = masked (bytes (p.ip n.if_addr)) m; mask = m }

  -- The next hop by the first of the routes that has the address, or the address itself.
  unfoldable pub by_routes : List Route → List ℕ → List ℕ
  by_routes [] dest = dest
  by_routes (rt ∷ rest) dest =
      let later = by_routes rest dest in
      elim (p.cidr rt.prefix) [
        | none ↦ later
        | some net ↦ if contains net dest then bytes (p.ip rt.next_hop) else later
      ]

  find-route_rules :
      (dest : List ℕ) (rts : List Route) → find dest (route_rules p rts) ≡ by_routes rts dest
  unfolding find route_rules by_routes
  find-route_rules dest [] = refl
  find-route_rules dest (rt ∷ rest) = elim (Option-cases (p.cidr rt.prefix)) [
    | inl e ↦ ground (arith, e, find-route_rules dest rest)
    | inr (net, e) ↦ ground (arith, e, find-route_rules dest rest)
  ]

  -- After a network that differs from the last one has come, an address that a rule of the earlier
  -- networks has still goes the way it went before. Any other goes straight to itself within the
  -- worker's own subnet, else by the first of the network's routes that has it, else to itself.
  pub find_next-on_ip_addr :
      (n : Network) (w : Worker) (dest : List ℕ)
      → network_equal w.network (some n) ≡ false
      → find_next dest (on_ip_addr p n w) ≡ (
          if covers w.routes dest
          then find_next dest w
          else if contains (subnet n) dest
          then dest
          else by_routes n.routes dest)
  unfolding find_next on_ip_addr own_rule find
  find_next-on_ip_addr n w dest h = ground (
    arith,
    h,
    find_append dest w.routes (own_rule p n ∷ route_rules p n.routes),
    find-route_rules dest n.routes,
  )

  -- A tap that is opened again leaves the next hops as they were, if the worker has only had one network.
  find_next-on_open :
      (n : Network) (w : Worker) (dest : List ℕ)
      → w.network ≡ none
      → w.routes ≡ []
      → find_next dest (on_open p (on_ip_addr p n w)) ≡ find_next dest (on_ip_addr p n w)
  unfolding find_next on_open free_ip_addr on_ip_addr call network_equal
  find_next-on_open n w dest h e = ground (arith, h, e)
