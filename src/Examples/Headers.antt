-- ===== src/Examples/Headers.antt =====
-- The theorems on headers at concrete headers and frames.
use openlan.Base.{ℕ, ◌≡◌, refl, Option, none, some, List, [], ◌∷◌, ◌++◌, arith}
use openlan.Protocol.Ether
use openlan.Protocol.Ether.{Ether}
use openlan.Protocol.Ip4
use openlan.Protocol.Ip4.{Ipv4}
use openlan.Protocol.Ip4.RoundTrip.{from_frame-encode}
use openlan.Protocol.Tcp
use openlan.Protocol.Tcp.{Tcp}
use openlan.Protocol.Vlan
use openlan.Message.Proto.{FrameProto, Err, new, decode, decode_link, decode_vlan, decode_network}
use openlan.Message.Proto.Safety.{decode_total}
use openlan.Message.Proto.Layers.{decode-tcp, decode-vlan}

abbrev ether : Ether
ether = record {
  dst = 1 ∷ 2 ∷ 3 ∷ 4 ∷ 5 ∷ 6 ∷ [];
  src = 7 ∷ 8 ∷ 9 ∷ 10 ∷ 11 ∷ 12 ∷ [];
  type = 2048;
  len = 14;
}

ether-IsValid : Ether.RoundTrip.IsValid ether
ether-IsValid = record { dst_len = refl; src_len = refl; type_u16 = omega arith; len_eq = refl }

abbrev pub packet : Ipv4
packet = record {
  version = 4;
  header_len = 5;
  tos = 0;
  total_len = 40;
  identifier = 7;
  flag = 2;
  offset = 0;
  tol = 64;
  protocol = 6;
  header_checksum = 4660;
  source = 10 ∷ 0 ∷ 0 ∷ 1 ∷ [];
  destination = 10 ∷ 0 ∷ 0 ∷ 2 ∷ [];
  len = 20;
}

packet-IsValid : Ip4.RoundTrip.IsValid packet
packet-IsValid = record {
  version_eq = refl;
  header_len_u4 = omega arith;
  tos_u8 = omega arith;
  total_len_u16 = omega arith;
  identifier_u16 = omega arith;
  flag_u3 = omega arith;
  offset_u13 = omega arith;
  tol_u8 = omega arith;
  protocol_u8 = omega arith;
  header_checksum_u16 = omega arith;
  source_len = refl;
  destination_len = refl;
  len_eq = refl;
}

abbrev segment : Tcp
segment = record {
  source = 80;
  destination = 1024;
  sequence = 70000;
  acknowledgment = 3;
  data_offset = 80;
  control_bits = 2;
  window = 512;
  checksum = 99;
  urgent_pointer = 0;
  len = 20;
}

segment-IsValid : Tcp.RoundTrip.IsValid segment
segment-IsValid = record {
  source_u16 = omega arith;
  destination_u16 = omega arith;
  sequence_u32 = omega arith;
  acknowledgment_u32 = omega arith;
  data_offset_u8 = omega arith;
  control_bits_u8 = omega arith;
  window_u16 = omega arith;
  checksum_u16 = omega arith;
  urgent_pointer_u16 = omega arith;
  len_eq = refl;
}

abbrev ether_bytes : List ℕ
ether_bytes = 1 ∷ 2 ∷ 3 ∷ 4 ∷ 5 ∷ 6 ∷ 7 ∷ 8 ∷ 9 ∷ 10 ∷ 11 ∷ 12 ∷ 8 ∷ 0 ∷ []

abbrev pub packet_bytes : List ℕ
packet_bytes =
    69 ∷ 0 ∷ 0 ∷ 40 ∷ 0 ∷ 7 ∷ 64 ∷ 0 ∷ 64 ∷ 6 ∷ 18 ∷ 52 ∷ 10 ∷ 0 ∷ 0 ∷ 1 ∷ 10 ∷ 0 ∷ 0 ∷ 2 ∷ []

abbrev segment_bytes : List ℕ
segment_bytes =
    0 ∷ 80 ∷ 4 ∷ 0 ∷ 0 ∷ 1 ∷ 17 ∷ 112 ∷ 0 ∷ 0 ∷ 0 ∷ 3 ∷ 80 ∷ 2 ∷ 2 ∷ 0 ∷ 0 ∷ 99 ∷ 0 ∷ 0 ∷ []

ether_encoded : Ether.encode ether ≡ some ether_bytes
unfolding Ether.encode
ether_encoded = refl

packet_encoded : Ip4.encode packet ≡ some packet_bytes
unfolding Ip4.encode
packet_encoded = refl

segment_encoded : Tcp.encode segment ≡ some segment_bytes
unfolding Tcp.encode
segment_encoded = refl

decode-tcp_example :
    decode (new (ether_bytes ++ (packet_bytes ++ (segment_bytes ++ (42 ∷ [])))))
    ≡ some (
      record (new (ether_bytes ++ (packet_bytes ++ (segment_bytes ++ (42 ∷ []))))) {
        eth = some ether;
        ip4_header = some packet;
        tcp_header = some segment;
      },
      none,
    )
decode-tcp_example =
    decode-tcp ether packet segment ether_bytes packet_bytes segment_bytes (42 ∷ []) ether-IsValid
      packet-IsValid segment-IsValid refl refl ether_encoded packet_encoded segment_encoded

decode_total_example : (r : FrameProto × Option Err) × (decode (new (1 ∷ 2 ∷ [])) ≡ some r)
decode_total_example = decode_total (new (1 ∷ 2 ∷ []))

abbrev tagged : List ℕ
tagged = 1 ∷ 2 ∷ 3 ∷ 4 ∷ 5 ∷ 6 ∷ 7 ∷ 8 ∷ 9 ∷ 10 ∷ 11 ∷ 12 ∷ 129 ∷ 0 ∷ 0 ∷ 5 ∷ 8 ∷ 0 ∷ packet_bytes

abbrev tagged_ether : Ether
tagged_ether = record ether { type = 33024 }

abbrev tagged_proto : FrameProto
tagged_proto = record (new tagged) {
  eth = some tagged_ether;
  vlan_tag = some (record { tci = 0; vid = 5; pro = 2048; len = 4 });
}

tagged_decoded : decode (new tagged) ≡ some (tagged_proto, none)
unfolding decode Ether.from_frame Ether.decode new decode_link Ether.is_vlan decode_vlan
    Vlan.from_frame Vlan.decode decode_network Ether.new
tagged_decoded = refl

decode-vlan_example :
    (tagged_proto.ip4_header ≡ none)
    × (tagged_proto.arp_packet ≡ none)
    × (tagged_proto.tcp_header ≡ none)
    × (tagged_proto.udp_header ≡ none)
decode-vlan_example = decode-vlan tagged tagged_proto none tagged_ether tagged_decoded refl refl

abbrev query : List ℕ
query =
    0 ∷ 1 ∷ 8 ∷ 0 ∷ 6 ∷ 4 ∷ 0 ∷ 1 ∷ 1 ∷ 2 ∷ 3 ∷ 4 ∷ 5 ∷ 6 ∷ 10 ∷ 0 ∷ 0 ∷ 1 ∷ 0 ∷ 0 ∷ 0 ∷ 0 ∷ 0 ∷ 0
    ∷ 10 ∷ 0 ∷ 0 ∷ 2 ∷ []
