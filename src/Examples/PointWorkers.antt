-- ===== src/Examples/PointWorkers.antt =====
-- The theorems on the networks of a point at concrete routes.
use openlan.Base.{ℕ, ◌≡◌, ◌↔◌, refl, true, none, some, List, [], ◌∷◌, string_eq, if◌then◌else◌, map}
use openlan.Point.Routes.{Network, new_route, text, equal, network_equal}
use openlan.Point.Routes.Sorting.{count}
use openlan.Point.Routes.Equal.{equal_iff}
use openlan.Point.Worker.{Worker, Parser, contains, find_next, on_ip_addr}
use openlan.Point.Worker.NextHop.{covers, subnet, by_routes, find_next-on_ip_addr}

abbrev office : Network
office = record {
  name = "office";
  if_addr = "own";
  netmask = "mask";
  routes = new_route "lab" "gate" "" ∷ new_route "web" "gate" "" ∷ [];
}

abbrev turned : Network
turned = record office { routes = new_route "web" "gate" "" ∷ new_route "lab" "gate" "" ∷ [] }

equal_iff_example : (equal office turned ≡ true) ↔ (
    (office.if_addr ≡ turned.if_addr)
    × (office.netmask ≡ turned.netmask)
    × ((k : List ℕ) → count k (map text office.routes) ≡ count k (map text turned.routes)))
equal_iff_example = equal_iff office turned

abbrev parser : Parser
parser = record {
  ip = λ s.
      if string_eq.beq s "own"
      then some (10 ∷ 0 ∷ 0 ∷ 5 ∷ [])
      else if string_eq.beq s "mask"
      then some (255 ∷ 255 ∷ 255 ∷ 0 ∷ [])
      else some (10 ∷ 0 ∷ 0 ∷ 1 ∷ []);
  cidr = λ s.
      if string_eq.beq s "lab"
      then some (record { ip = 10 ∷ 9 ∷ 0 ∷ 0 ∷ []; mask = 255 ∷ 255 ∷ 0 ∷ 0 ∷ [] })
      else none;
  prefix_len = λ s. 24;
}

abbrev worker : Worker
worker = record { if_addr = ""; network = none; routes = []; calls = [] }

abbrev dest : List ℕ
dest = 10 ∷ 9 ∷ 3 ∷ 3 ∷ []

find_next-on_ip_addr_example : find_next dest (on_ip_addr parser office worker) ≡ (
    if covers worker.routes dest
    then find_next dest worker
    else if contains (subnet parser office) dest
    then dest
    else by_routes parser office.routes dest)
unfolding network_equal
find_next-on_ip_addr_example = find_next-on_ip_addr parser office worker dest refl
