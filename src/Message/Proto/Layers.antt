-- ===== src/Message/Proto/Layers.antt =====
-- What the parser makes of whole frames: TCP over IPv4, tagged frames, and the recorded error.
use openlan.Base.{
  ℕ, ◌≡◌, Option, none, some, List, ◌++◌, arith, length, drop, drop_append, length-append,
  Option-cases, inl, inr,
}
use openlan.Protocol.Ether
use openlan.Protocol.Ether.{Ether, eth_ip4, eth_vlan}
use openlan.Protocol.Ip4
use openlan.Protocol.Ip4.{Ipv4, ip_tcp}
use openlan.Protocol.Tcp
use openlan.Protocol.Tcp.{Tcp}
use openlan.Message.Proto.{
  FrameProto, Err, new, decode, decode_tcp, decode_udp, decode_arp, decode_payload, decode_ip4,
  decode_network, decode_vlan, decode_link,
}

decode_payload-tcp :
    (i : FrameProto) (p : Ipv4) (t : Tcp) (bp bt rest : List ℕ)
    → p.len ≡ length bp
    → p.protocol ≡ ip_tcp
    → Tcp.from_frame (bt ++ rest) ≡ some (t, none)
    → decode_payload i p (bp ++ (bt ++ rest))
      ≡ some (record i { tcp_header = some t; err = none }, none)
unfolding decode_payload decode_tcp
decode_payload-tcp i p t bp bt rest l pr h =
    ground (arith, drop_append p.len bp (bt ++ rest), length-append bp (bt ++ rest))

-- The bytes of a valid Ethernet header of type IPv4, a valid IPv4 header of protocol TCP and a valid
-- TCP header, with any payload, parse to those three headers, no others, and no error.
pub decode-tcp :
    (e : Ether) (p : Ipv4) (t : Tcp) (be bp bt rest : List ℕ)
    → Ether.RoundTrip.IsValid e
    → Ip4.RoundTrip.IsValid p
    → Tcp.RoundTrip.IsValid t
    → e.type ≡ eth_ip4
    → p.protocol ≡ ip_tcp
    → Ether.encode e ≡ some be
    → Ip4.encode p ≡ some bp
    → Tcp.encode t ≡ some bt
    → decode (new (be ++ (bp ++ (bt ++ rest))))
      ≡ some (
        record (new (be ++ (bp ++ (bt ++ rest)))) {
          eth = some e;
          ip4_header = some p;
          tcp_header = some t;
        },
        none,
      )
unfolding decode decode_link decode_network decode_ip4 Ether.is_vlan new
decode-tcp e p t be bp bt rest ve vp vt et pt he hp ht =
    let (b1, h1, r1) = Ether.RoundTrip.from_frame-encode e (bp ++ (bt ++ rest)) ve in
    let (b2, h2, r2) = Ip4.RoundTrip.from_frame-encode p (bt ++ rest) vp in
    let (b3, h3, r3) = Tcp.RoundTrip.from_frame-encode t rest vt in
    ground (
      arith,
      r1,
      r2,
      r3,
      h1,
      h2,
      h3,
      Ether.RoundTrip.length-encode e be ve he,
      Ip4.RoundTrip.length-encode p bp vp hp,
      drop_append 14 be (bp ++ (bt ++ rest)),
      length-append be (bp ++ (bt ++ rest)),
      decode_payload-tcp
          (record (new (be ++ (bp ++ (bt ++ rest)))) { eth = some e; ip4_header = some p }) p t bp
          bt rest,
    )

-- The error returned is the error recorded.
pub decode_err :
    (frame : List ℕ) (r : FrameProto) (x : Option Err)
    → decode (new frame) ≡ some (r, x)
    → r.err ≡ x
unfolding decode decode_link decode_network decode_vlan decode_ip4 decode_payload decode_tcp
    decode_udp decode_arp new
decode_err frame r x h = ground arith

link_eth :
    (i : FrameProto) (e : Ether) (rest : List ℕ) (r : FrameProto) (x : Option Err)
    → decode_link i e rest ≡ some (r, x)
    → r.eth ≡ i.eth
unfolding decode_link decode_network decode_vlan decode_ip4 decode_payload decode_tcp decode_udp
    decode_arp
link_eth i e rest r x h = ground arith

link_vlan :
    (i : FrameProto) (e : Ether) (rest : List ℕ) (r : FrameProto) (x : Option Err)
    → e.type ≡ eth_vlan
    → decode_link i e rest ≡ some (r, x)
    → (r.ip4_header ≡ i.ip4_header)
      × (r.arp_packet ≡ i.arp_packet)
      × (r.tcp_header ≡ i.tcp_header)
      × (r.udp_header ≡ i.udp_header)
unfolding decode_link decode_network decode_vlan Ether.is_vlan
link_vlan i e rest r x t h = ground arith

-- A frame of type VLAN never has its inner packet parsed.
pub decode-vlan :
    (frame : List ℕ) (r : FrameProto) (x : Option Err) (e : Ether)
    → decode (new frame) ≡ some (r, x)
    → r.eth ≡ some e
    → e.type ≡ eth_vlan
    → (r.ip4_header ≡ none) × (r.arp_packet ≡ none) × (r.tcp_header ≡ none) × (r.udp_header ≡ none)
unfolding decode new
decode-vlan frame r x e h he ht = elim (Option-cases (Ether.from_frame frame)) [
  | inl p ↦ ground (arith, p)
  | inr ((e', some y), p) ↦ ground (arith, p)
  | inr ((e', none), p) ↦
      let i : FrameProto = record (new frame) { eth = some e' } in
      ground
        (arith, p, link_eth i e' (drop e'.len frame) r x, link_vlan i e' (drop e'.len frame) r x)
]
