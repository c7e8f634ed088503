-- ===== src/Message/Proto.antt =====
-- FrameProto of pkg/libol/message.go: the headers of a frame, parsed from the outside in.
pub mod Safety
pub mod Layers
use openlan.Base.{ℕ, ◌≡◌, Bool, Option, none, some, List, [], ◌∷◌, if◌then◌else◌, ◌==◌}
use openlan.Base.Slices.{◌>>=◌, from}
use openlan.Protocol.Ether
use openlan.Protocol.Ether.{Ether, eth_ip4, eth_arp}
use openlan.Protocol.Vlan
use openlan.Protocol.Vlan.{Vlan}
use openlan.Protocol.Arp
use openlan.Protocol.Arp.{Arp}
use openlan.Protocol.Ip4
use openlan.Protocol.Ip4.{Ipv4, ip_tcp, ip_udp}
use openlan.Protocol.Tcp
use openlan.Protocol.Tcp.{Tcp}
use openlan.Protocol.Udp
use openlan.Protocol.Udp.{Udp}

pub data Err : Type 0 where
  ether : Ether.Err → Err
  vlan : Vlan.Err → Err
  arp : Arp.Err → Err
  ip4 : Ip4.Err → Err
  tcp : Tcp.Err → Err
  udp : Udp.Err → Err

-- `none` is a nil pointer; a header that failed to decode is there as far as it was filled.
pub record FrameProto : Type 0 where
  pub eth : Option Ether
  pub vlan_tag : Option Vlan
  pub arp_packet : Option Arp
  pub ip4_header : Option Ipv4
  pub udp_header : Option Udp
  pub tcp_header : Option Tcp
  pub err : Option Err
  pub frame : List ℕ

unfoldable pub new : List ℕ → FrameProto
new frame = record {
  eth = none;
  vlan_tag = none;
  arp_packet = none;
  ip4_header = none;
  udp_header = none;
  tcp_header = none;
  err = none;
  frame = frame;
}

-- The error just recorded, if any, is what the method returns.
abbrev pub wrap : {E : Type 0} → (E → Err) → Option E → Option Err
wrap f none = none
wrap f (some x) = some (f x)

abbrev pub Outcome : Type 0
Outcome = Option (FrameProto × Option Err)

unfoldable pub decode_tcp : FrameProto → List ℕ → Outcome
decode_tcp i rest = do
  (t, e) ← Tcp.from_frame rest
  some (record i { tcp_header = some t; err = wrap tcp e }, wrap tcp e)

unfoldable pub decode_udp : FrameProto → List ℕ → Outcome
decode_udp i rest = do
  (u, e) ← Udp.from_frame rest
  some (record i { udp_header = some u; err = wrap udp e }, wrap udp e)

unfoldable pub decode_arp : FrameProto → List ℕ → Outcome
decode_arp i rest = do
  (a, e) ← Arp.from_frame rest
  some (record i { arp_packet = some a; err = wrap arp e }, wrap arp e)

-- `switch i.Ip4.Protocol`, on what follows the first `Len` bytes of the header.
unfoldable pub decode_payload : FrameProto → Ipv4 → List ℕ → Outcome
decode_payload i p rest = do
  data' ← from p.len rest
  if p.protocol == ip_tcp
      then decode_tcp i data'
      else if p.protocol == ip_udp
      then decode_udp i data'
      else some (i, none)

unfoldable pub decode_ip4 : FrameProto → List ℕ → Outcome
decode_ip4 i rest = do
  (p, e) ← Ip4.from_frame rest
  let i' = record i { ip4_header = some p; err = wrap ip4 e }
  elim e [ some x ↦ some (i', some (ip4 x)) | none ↦ decode_payload i' p rest ]

-- `switch i.Eth.Type`
unfoldable pub decode_network : FrameProto → Ether → List ℕ → Outcome
decode_network i e rest =
    if e.type == eth_ip4
    then decode_ip4 i rest
    else if e.type == eth_arp
    then decode_arp i rest
    else some (i, none)

unfoldable pub decode_vlan : FrameProto → Ether → List ℕ → Outcome
decode_vlan i e rest = do
  (v, x) ← Vlan.from_frame rest
  let i' = record i { vlan_tag = some v; err = wrap vlan x }
  elim x [
    | some y ↦ some (i', some (vlan y))
    | none ↦ from v.len rest >>= λ rest'. decode_network i' e rest'
  ]

unfoldable pub decode_link : FrameProto → Ether → List ℕ → Outcome
decode_link i e rest = if Ether.is_vlan e then decode_vlan i e rest else decode_network i e rest

unfoldable pub decode : FrameProto → Outcome
decode i = do
  (e, x) ← Ether.from_frame i.frame
  let i' = record i { eth = some e; err = wrap ether x }
  elim x [
    | some y ↦ some (i', some (ether y))
    | none ↦ from e.len i.frame >>= λ rest. decode_link i' e rest
  ]
