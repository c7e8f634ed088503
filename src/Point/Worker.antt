-- ===== src/Point/Worker.antt =====
-- The worker of pkg/olap/worker.go, which joins the connection and the tap of a point: the address and
-- the routes that the switch hands out, and the next hop of a packet. Parsing addresses is a
-- parameter; an IPv4 address is its four bytes, and a text that is none is none. What the listeners
-- and the tap are called with is the list `calls`, in order; a listener that is not set does nothing.
pub mod NextHop
use openlan.Base.{
  ℕ, Bool, true, false, ◌&&◌, Option, none, some, List, [], ◌∷◌, ◌++◌, String, if◌then◌else◌, ◌==◌,
  length, bit_and,
}
use openlan.Point.Routes.{Network, Route, network_equal}

-- net.IPNet
pub record IpNet : Type 0 where
  pub ip : List ℕ
  pub mask : List ℕ

pub record Parser : Type 0 where
  pub ip : String → Option (List ℕ)
  pub cidr : String → Option IpNet
  pub prefix_len : String → ℕ  -- Netmask2Len

pub record PrefixRule : Type 0 where
  pub is_route : Bool  -- Type, 0x00 or 0x01
  pub destination : IpNet
  pub next_hop : List ℕ

pub data Call : Type 0 where
  tap_addr add_addr del_addr : String → ℕ → Call
  add_if_addr : String → Call
  add_routes del_routes : List Route → Call

pub record Worker : Type 0 where
  pub if_addr : String
  pub network : Option Network
  pub routes : List PrefixRule
  pub calls : List Call

-- Mask of net.IP: nil if the lengths differ.
abbrev pub and_bytes : List ℕ → List ℕ → List ℕ
and_bytes [] ms = []
and_bytes (x ∷ xs) [] = []
and_bytes (x ∷ xs) (m ∷ ms) = bit_and x m ∷ and_bytes xs ms

unfoldable pub masked : List ℕ → List ℕ → List ℕ
masked ip mask = if length ip == length mask then and_bytes ip mask else []

-- Contains of net.IPNet
abbrev pub same_masked : List ℕ → List ℕ → List ℕ → Bool
same_masked [] ms [] = true
same_masked [] ms (y ∷ ys) = false
same_masked (x ∷ xs) ms [] = false
same_masked (x ∷ xs) [] (y ∷ ys) = false
same_masked (x ∷ xs) (m ∷ ms) (y ∷ ys) = (bit_and x m == bit_and y m) && same_masked xs ms ys

unfoldable pub contains : IpNet → List ℕ → Bool
contains n ip = same_masked n.ip n.mask ip

-- The bytes of an address, none if it is nil.
abbrev pub bytes : Option (List ℕ) → List ℕ
bytes none = []
bytes (some ip) = ip

-- The loop of FindNext, on the rules.
unfoldable pub find : List ℕ → List PrefixRule → List ℕ
find dest [] = dest
find dest (rt ∷ rest) =
    let later = find dest rest in
    if contains rt.destination dest then if rt.is_route then rt.next_hop else dest else later

unfoldable pub find_next : List ℕ → Worker → List ℕ
find_next dest w = find dest w.routes

unfoldable pub call : Call → Worker → Worker
call c w = record w { calls = w.calls ++ (c ∷ []) }

module _ (p : Parser) where
  -- The rule of the worker's own subnet, and those of the routes that can be parsed.
  unfoldable pub own_rule : Network → PrefixRule
  own_rule n =
      let m = bytes (p.ip n.netmask) in
      record {
        is_route = false;
        destination = record { ip = masked (bytes (p.ip n.if_addr)) m; mask = m };
        next_hop = [];
      }

  unfoldable pub route_rules : List Route → List PrefixRule
  route_rules [] = []
  route_rules (rt ∷ rest) =
      let more = route_rules rest in
      elim (p.cidr rt.prefix) [
        | none ↦ more
        | some dest ↦
            record { is_route = true; destination = dest; next_hop = bytes (p.ip rt.next_hop) }
            ∷ more
      ]

  unfoldable pub on_ip_addr : Network → Worker → Worker
  on_ip_addr n w =
      if network_equal w.network (some n)
      then w
      else (let len = p.prefix_len n.netmask in
          let w1 =
            call (add_routes n.routes)
              (call (add_addr n.if_addr len) (call (tap_addr n.if_addr len) w)) in
          record w1 { network = some n; routes = w.routes ++ (own_rule n ∷ route_rules n.routes) })

  unfoldable pub free_ip_addr : Worker → Worker
  free_ip_addr w = elim w.network [
    | none ↦ w
    | some n ↦
        let w1 =
          call (del_addr n.if_addr (p.prefix_len n.netmask)) (call (del_routes n.routes) w) in
        record w1 { network = none; routes = [] }
  ]

  -- OnOpen of the tap, as Initialize sets it: the address is set again on the new device.
  unfoldable pub on_open : Worker → Worker
  on_open w = elim w.network [ none ↦ w | some n ↦ on_ip_addr n (free_ip_addr w) ]

-- OnSuccess
unfoldable pub on_success : Worker → Worker
on_success w = call (add_if_addr w.if_addr) w
