-- ===== src/Protocol/Ip4.antt =====
-- Ipv4 of pkg/libol/protocol.go. Options is never filled or written, so it is left out.
pub mod RoundTrip
use openlan.Base.{
  ℕ, ◌*◌, ◌/◌, ◌%◌, ◌≡◌, Bool, Option, none, some, List, [], ◌∷◌, ◌++◌, if◌then◌else◌, ltb, ◌==◌,
  length, replicate, not, bit_or,
}
use openlan.Base.Bytes.{put_u16}
use openlan.Base.Slices.{◌>>=◌, upto, part, byte_at, u16_part, copy_to}

pub data Err : Type 0 where
  too_small_header not_right_version : Err

abbrev pub ip_tcp : ℕ
ip_tcp = 0x06

abbrev pub ip_udp : ℕ
ip_udp = 0x11

pub record Ipv4 : Type 0 where
  pub version : ℕ  -- uint8
  pub header_len : ℕ  -- uint8
  pub tos : ℕ  -- uint8
  pub total_len : ℕ  -- uint16
  pub identifier : ℕ  -- uint16
  pub flag : ℕ  -- uint16
  pub offset : ℕ  -- uint16
  pub tol : ℕ  -- uint8
  pub protocol : ℕ  -- uint8
  pub header_checksum : ℕ  -- uint16
  pub source : List ℕ
  pub destination : List ℕ
  pub len : ℕ

unfoldable pub new : Ipv4
new = record {
  version = 0x04;
  header_len = 0x05;
  tos = 0;
  total_len = 0;
  identifier = 0;
  flag = 0;
  offset = 0;
  tol = 0xff;
  protocol = 0;
  header_checksum = 0;
  source = replicate 4 0;
  destination = replicate 4 0;
  len = 20;
}

unfoldable pub is_ip4 : Ipv4 → Bool
is_ip4 i = i.version == 0x04

-- The two addresses, read last and only from a header of version 4.
read_addresses : Ipv4 → List ℕ → Option (Ipv4 × Option Err)
unfolding is_ip4
read_addresses i frame = if not (is_ip4 i) then some (i, some not_right_version) else do
  s ← copy_to 4 i.source (← part 12 4 frame)
  d ← copy_to 4 i.destination (← part 16 4 frame)
  some (record i { source = s; destination = d }, none)

-- `h >> 4` and `h & 0x0f`, `f >> 13` and `f & 0x1fff`, as quotients and remainders.
unfoldable pub decode : Ipv4 → List ℕ → Option (Ipv4 × Option Err)
unfolding read_addresses
decode i frame = if ltb (length frame) 20 then some (i, some too_small_header) else do
  h ← byte_at 0 frame
  ts ← byte_at 1 frame
  tl ← u16_part 2 frame
  id ← u16_part 4 frame
  f ← u16_part 6 frame
  tt' ← byte_at 8 frame
  pr ← byte_at 9 frame
  hc ← u16_part 10 frame
  read_addresses
      (record i {
        version = h / 16;
        header_len = h % 16;
        tos = ts;
        total_len = tl;
        identifier = id;
        offset = f % 8192;
        flag = f / 8192;
        tol = tt';
        protocol = pr;
        header_checksum = hc;
      })
      frame

-- NewIpv4FromFrame
unfoldable pub from_frame : List ℕ → Option (Ipv4 × Option Err)
unfolding decode new
from_frame frame = decode new frame

-- A buffer of 32 bytes, cut at `i.Len`. The shifts are on 8 and 16 bits.
unfoldable pub encode : Ipv4 → Option (List ℕ)
encode i = do
  s ← upto 4 i.source
  d ← upto 4 i.destination
  upto i.len (
      bit_or (i.version * 16 % 256) i.header_len
      ∷ i.tos
      ∷ (put_u16 i.total_len
          ++ (put_u16 i.identifier
              ++ (put_u16 (bit_or (i.flag * 8192 % 65536) i.offset)
                  ++ (i.tol
                      ∷ i.protocol
                      ∷ (put_u16 i.header_checksum ++ (s ++ (d ++ replicate 12 0))))))))
