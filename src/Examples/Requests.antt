-- ===== src/Examples/Requests.antt =====
-- The theorem on requests for an address at a concrete cache of leases.
use openlan.Base.{◌≡◌, ◌≢◌, refl, none, some, Option, [], ◌∷◌, string_eq}
use openlan.Base.Assoc.{lookup}
use openlan.Safe.StrMap
use openlan.Cache.Lease.{Cache, Lease, Network, Ref, deref, get_lease_by_alias}
use openlan.Cache.Points.{Point, new_point}
use openlan.App.Request.{get_lease, lease_of, owned, modify, change}
use openlan.App.Request.Addresses.{get_lease-Keeps}
use openlan.Examples.Texts.{ip_text}
use openlan.Examples.Logins.{phone}

abbrev lease : Lease
lease = record {
  address = "a";
  uuid = "u0";
  alias = "desk";
  client = "";
  type = "static";
  network = "office";
}

abbrev cache : Cache
cache = record {
  networks = record { size = 4; entries = [] };
  uuids = record { size = 4; entries = ("desk", some 0) ∷ ("u2", some 1) ∷ [] };
  addrs = record { size = 4; entries = ("a", some 0) ∷ ("b", some 1) ∷ [] };
  heap = lease ∷ record lease { address = "b"; uuid = "u2"; type = "" } ∷ [];
}

abbrev office : Network
office = record { name = "office"; ip_start = "::"; ip_end = "::::" }

abbrev desk : Point
desk = record (new_point phone none "tcp") { uuid = "u1"; alias = "desk" }

abbrev after : Cache
after = record cache {
  heap =
      record lease { uuid = "u1"; client = phone.name }
      ∷ record lease { address = "b"; uuid = "u2"; type = "" }
      ∷ [];
}

abbrev given_out : Option Ref
given_out = some 0

given : get_lease ip_text 9 "" desk (some office) cache ≡ some (after, given_out)
unfolding get_lease lease_of get_lease_by_alias StrMap.get_ex lookup owned modify change new_point
given = refl

there : deref cache.heap 1 ≡ some (record lease { address = "b"; uuid = "u2"; type = "" })
unfolding deref
there = refl

get_lease-Keeps_example :
    (l1 : Lease) × (deref after.heap 1 ≡ some l1)
    × (l1.address ≡ "b")
    × (given_out ≢ some 1 → l1 ≡ record lease { address = "b"; uuid = "u2"; type = "" })
get_lease-Keeps_example =
    get_lease-Keeps ip_text 9 "" desk (some office) cache after given_out 1
      (record lease { address = "b"; uuid = "u2"; type = "" }) given there
