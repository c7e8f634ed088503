-- ===== src/Cache/Points.antt =====
-- pkg/olsw/cache/point.go and pkg/models/point.go: the points that are connected, by the address of
-- their client and by their UUID. Uptime, Status and IfName, which Update copies from the client and
-- the tap whenever a point is read, are left out.
pub mod Lookup
use openlan.Base.{ℕ, Option, none, some, List, String, string_eq, if◌then◌else◌, ltb}
use openlan.Base.Slices.{◌>>=◌}
use openlan.Safe.StrMap
use openlan.Safe.StrMap.{SafeStrMap}
use openlan.Safe.StrStr
use openlan.Safe.StrStr.{SafeStrStr}

-- libol.SocketClient: a number for the pointer, and its String and LocalAddr.
pub record Client : Type 0 where
  pub id : ℕ
  pub name : String
  pub local_addr : String

pub record Point : Type 0 where
  pub uuid : String
  pub alias : String
  pub network : String
  pub user : String
  pub protocol : String
  pub server : String
  pub client : Client
  pub device : Option ℕ
  pub system : String

pub record PointCache : Type 0 where
  pub clients : SafeStrMap Point
  pub uuid_addr : SafeStrStr
  pub addr_uuid : SafeStrStr

-- NewPoint
unfoldable pub new_point : Client → Option ℕ → String → Point
new_point client device proto = record {
  uuid = "";
  alias = "";
  network = "";
  user = "";
  protocol = proto;
  server = client.local_addr;
  client = client;
  device = device;
  system = "";
}

-- Init, which replaces the points only.
unfoldable pub init : ℕ → PointCache → PointCache
init size p = record p { clients = StrMap.new size }

unfoldable pub add : Point → PointCache → PointCache
add m p = record {
  uuid_addr = (StrStr.reset m.uuid m.client.name p.uuid_addr).0;
  addr_uuid = (StrStr.set m.client.name m.uuid p.addr_uuid).0;
  clients = (StrMap.set m.client.name (some m) p.clients).0;
}

unfoldable pub get : String → PointCache → Option Point
get addr p = StrMap.get addr p.clients

unfoldable pub get_uuid : String → PointCache → String
get_uuid addr p = StrStr.get addr p.addr_uuid

unfoldable pub get_addr : String → PointCache → String
get_addr uuid p = StrStr.get uuid p.uuid_addr

unfoldable pub get_by_uuid : String → PointCache → Option Point
get_by_uuid uuid p = if string_eq.beq (get_addr uuid p) "" then none else get (get_addr uuid p) p

-- Del, and the tap that it closes.
unfoldable pub del : String → PointCache → PointCache × Option ℕ
del addr p = elim (StrMap.get addr p.clients) [
  | none ↦ (p, none)
  | some m ↦ (
    record {
      uuid_addr =
          if string_eq.beq (StrStr.get m.uuid p.uuid_addr) addr
          then StrStr.del m.uuid p.uuid_addr
          else p.uuid_addr;
      addr_uuid = StrStr.del m.client.name p.addr_uuid;
      clients = StrMap.del addr p.clients;
    },
    m.device,
  )
]

-- The points that List sends, in order.
unfoldable pub list : PointCache → List (String × Point)
list p = (StrMap.iter p.clients).0
