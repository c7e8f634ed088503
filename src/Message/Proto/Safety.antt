-- ===== src/Message/Proto/Safety.antt =====
-- No input makes the parser panic.
use openlan.Base.{
  ℕ, ◌≤◌, ◌≡◌, ◌≢◌, Option, none, some, List, arith, length, Option-cases, inl, inr, drop,
}
use openlan.Protocol.Ether
use openlan.Protocol.Vlan
use openlan.Protocol.Arp
use openlan.Protocol.Ip4
use openlan.Protocol.Tcp
use openlan.Protocol.Udp
use openlan.Protocol.Ether.{Ether}
use openlan.Message.Proto.{
  FrameProto, Err, decode, decode_tcp, decode_udp, decode_arp, decode_payload, decode_ip4,
  decode_network, decode_vlan, decode_link,
}

ether_total : (frame : List ℕ) → Ether.from_frame frame ≢ none
unfolding Ether.from_frame
ether_total frame = ground arith

ether_ok :
    (frame : List ℕ) (e : Ether)
    → Ether.from_frame frame ≡ some (e, none)
    → (e.len ≡ 14) × (14 ≤ length frame)
unfolding Ether.from_frame
ether_ok frame e h = ground arith

vlan_total : (frame : List ℕ) → Vlan.from_frame frame ≢ none
unfolding Vlan.from_frame
vlan_total frame = ground arith

vlan_ok :
    (frame : List ℕ) (n : Vlan.Vlan)
    → Vlan.from_frame frame ≡ some (n, none)
    → (n.len ≡ 4) × (4 ≤ length frame)
unfolding Vlan.from_frame
vlan_ok frame n h = ground arith

ip4_total : (frame : List ℕ) → Ip4.from_frame frame ≢ none
unfolding Ip4.from_frame
ip4_total frame = ground arith

ip4_ok :
    (frame : List ℕ) (i : Ip4.Ipv4)
    → Ip4.from_frame frame ≡ some (i, none)
    → (i.len ≡ 20) × (20 ≤ length frame)
unfolding Ip4.from_frame
ip4_ok frame i h = ground arith

arp_total : (frame : List ℕ) → Arp.from_frame frame ≢ none
unfolding Arp.from_frame
arp_total frame = ground arith

tcp_total : (frame : List ℕ) → Tcp.from_frame frame ≢ none
unfolding Tcp.from_frame
tcp_total frame = ground arith

udp_total : (frame : List ℕ) → Udp.from_frame frame ≢ none
unfolding Udp.from_frame
udp_total frame = ground arith

payload_total :
    (i : FrameProto) (p : Ip4.Ipv4) (rest : List ℕ)
    → p.len ≤ length rest
    → decode_payload i p rest ≢ none
unfolding decode_payload decode_tcp decode_udp
payload_total i p rest h = ground (arith, tcp_total (drop p.len rest), udp_total (drop p.len rest))

decode_ip4_total : (i : FrameProto) (rest : List ℕ) → decode_ip4 i rest ≢ none
unfolding decode_ip4
decode_ip4_total i rest = elim (Option-cases (Ip4.from_frame rest)) [
  | inl e ↦ absurd (ip4_total rest e)
  | inr ((p, some y), e) ↦ rw e (λ c. cc)
  | inr ((p, none), e) ↦ let (a, b) = ip4_ok rest p e in rw e (payload_total _ p rest (omega arith))
]

decode_network_total : (i : FrameProto) (e : Ether) (rest : List ℕ) → decode_network i e rest ≢ none
unfolding decode_network decode_arp
decode_network_total i e rest = ground (arith, decode_ip4_total i rest, arp_total rest)

decode_vlan_total : (i : FrameProto) (e : Ether) (rest : List ℕ) → decode_vlan i e rest ≢ none
unfolding decode_vlan
decode_vlan_total i e rest = elim (Option-cases (Vlan.from_frame rest)) [
  | inl p ↦ absurd (vlan_total rest p)
  | inr ((v, some y), p) ↦ rw p (λ c. cc)
  | inr ((v, none), p) ↦
      let (a, b) = vlan_ok rest v p in
      rw p (
        ground (
          arith,
          decode_network_total (record i { vlan_tag = some v; err = none }) e (drop v.len rest),
        ))
]

decode_link_total : (i : FrameProto) (e : Ether) (rest : List ℕ) → decode_link i e rest ≢ none
unfolding decode_link
decode_link_total i e rest =
    ground (arith, decode_vlan_total i e rest, decode_network_total i e rest)

decode-ne-none : (i : FrameProto) → decode i ≢ none
unfolding decode
decode-ne-none i = elim (Option-cases (Ether.from_frame i.frame)) [
  | inl p ↦ absurd (ether_total i.frame p)
  | inr ((e, some y), p) ↦ rw p (λ c. cc)
  | inr ((e, none), p) ↦
      let (a, b) = ether_ok i.frame e p in
      rw p (
        ground
          (arith, decode_link_total (record i { eth = some e; err = none }) e (drop e.len i.frame)))
]

-- Parsing a frame returns, with a result or an error, whatever the bytes: no index is out of range.
pub decode_total : (i : FrameProto) → (r : FrameProto × Option Err) × (decode i ≡ some r)
decode_total i = elim (Option-cases (decode i)) [
  | inl e ↦ absurd (decode-ne-none i e)
  | inr (r, e) ↦ (r, e)
]
