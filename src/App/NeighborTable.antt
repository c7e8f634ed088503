-- ===== src/App/NeighborTable.antt =====
-- pkg/olsw/app/neighbors.go with pkg/olsw/cache/neighbor.go and pkg/models/neigbor.go: the neighbours
-- that the switch learns from the ARP packets of its points, by the text of their address. The cache
-- holds pointers, which nobody else keeps, so a change through one is a change of the entry. How an
-- address is printed is a parameter, as is the clock; `none` is a panic.
pub mod Learning
use openlan.Base.{
  ℕ, Bool, ◌&&◌, ◌||◌, Option, none, some, List, [], ◌∷◌, ◌++◌, String, if◌then◌else◌,
}
use openlan.Base.Slices.{◌>>=◌}
use openlan.Protocol.Ether
use openlan.Protocol.Ether.{Ether}
use openlan.Protocol.Arp
use openlan.Protocol.Arp.{Arp}
use openlan.Message.Proto
use openlan.Message.Proto.{FrameProto}
use openlan.Message.Frame
use openlan.Message.Frame.{FrameMessage}
use openlan.Safe.StrMap
use openlan.Safe.StrMap.{SafeStrMap}

pub record Neighbor : Type 0 where
  pub network : String
  pub device : String
  pub client : String
  pub hw_addr : List ℕ
  pub ip_addr : List ℕ
  pub new_time : ℕ
  pub hit_time : ℕ

-- What the table reads of a client: its text, and the network and the interface of the point that
-- its private value is, if it is one.
pub record Client : Type 0 where
  pub name : String
  pub point : Option (String × String)

-- Update of models.Neighbor
unfoldable pub update : Client → Neighbor → Neighbor
update client e = elim client.point [
  | none ↦ e
  | some (network, device) ↦ record e { network = network; device = device; client = client.name }
]

-- NewNeighbor
unfoldable pub new_neighbor : ℕ → List ℕ → List ℕ → Client → Neighbor
new_neighbor now hw ip client = update client (record {
  network = "";
  device = "";
  client = client.name;
  hw_addr = hw;
  ip_addr = ip;
  new_time = now;
  hit_time = now;
})

abbrev pub Table : Type 0
Table = SafeStrMap Neighbor

-- init of the cache
unfoldable pub init : ℕ → Table
init size = StrMap.new size

unfoldable pub get : String → Table → Option Neighbor
get key p = StrMap.get key p

unfoldable pub del : String → Table → Table
del key p = StrMap.del key p

-- The neighbours that List sends, before the nil that ends them.
values : List (String × Neighbor) → List Neighbor
values [] = []
values ((k, n) ∷ m) = n ∷ values m

unfoldable pub list : Table → List Neighbor
unfolding values
list p = values (StrMap.iter p).0

module _ (print : List ℕ → String) where
  -- Add of the cache
  unfoldable pub add : Neighbor → Table → Table
  add m p =
      let key = print m.ip_addr in
      let p1 : Table = elim (StrMap.get key p) [ none ↦ p | some _ ↦ StrMap.del key p ] in
      (StrMap.set key (some m) p1).0

  -- Update of the cache: the entry is changed through its pointer, and what is returned is nil.
  unfoldable pub refresh : Neighbor → Table → Table × Option Neighbor
  refresh m p = elim (StrMap.get (print m.ip_addr) p) [
    | none ↦ (p, none)
    | some n ↦ (
      (StrMap.modify (print m.ip_addr)
          (some (record n { hw_addr = m.hw_addr; hit_time = m.hit_time })) p).0,
      none,
    )
  ]

  unfoldable pub add_neighbor : ℕ → Neighbor → Client → Table → Table
  add_neighbor now m client p = elim (get (print m.ip_addr) p) [
    | none ↦ add m p
    | some n ↦
        (StrMap.modify (print m.ip_addr) (some (record (update client n) { hit_time = now })) p).0
  ]

  unfoldable pub del_neighbor : List ℕ → Table → Table
  del_neighbor ip p = elim (get (print ip) p) [ none ↦ p | some n ↦ del (print ip) p ]

  -- The ARP part of OnFrame.
  unfoldable pub learn : ℕ → Client → Arp → Table → Table
  learn now client a p =
      if Arp.is_ip4 a && (Arp.is_reply a || Arp.is_request a)
      then add_neighbor now (new_neighbor now a.s_hw_addr a.s_ip_addr client) client p
      else p

  -- OnFrame: the frame with what was parsed, the table and the error.
  unfoldable pub on_frame :
      ℕ → Client → FrameMessage → Table → Option (FrameMessage × Table × Option Proto.Err)
  on_frame now client m p =
      if m.control
      then some (m, p, none)
      else (Frame.proto m >>= λ r. elim r.2 [
        | some err ↦ some (r.0, p, some err)
        | none ↦
            (r.1.eth >>= λ eth.
            if Ether.is_arp eth
            then (r.1.arp_packet >>= λ a. some (r.0, learn now client a p, none))
            else some (r.0, p, none))
      ])
