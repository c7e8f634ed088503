-- ===== src/Protocol/Udp.antt =====
-- Udp of pkg/libol/protocol.go.
pub mod RoundTrip
use openlan.Base.{
  ℕ, ◌≡◌, Option, none, some, List, [], ◌∷◌, ◌++◌, if◌then◌else◌, ltb, length, replicate,
}
use openlan.Base.Bytes.{put_u16}
use openlan.Base.Slices.{◌>>=◌, upto, u16_part}

pub data Err : Type 0 where
  too_small_header : Err

pub record Udp : Type 0 where
  pub source : ℕ  -- uint16, like the next three
  pub destination : ℕ
  pub length_field : ℕ
  pub checksum : ℕ
  pub len : ℕ

unfoldable pub new : Udp
new = record { source = 0; destination = 0; length_field = 0; checksum = 0; len = 8 }

unfoldable pub decode : Udp → List ℕ → Option (Udp × Option Err)
decode u frame = if ltb (length frame) 8 then some (u, some too_small_header) else do
  src ← u16_part 0 frame
  dst ← u16_part 2 frame
  ln ← u16_part 4 frame
  sum ← u16_part 6 frame
  some (record u { source = src; destination = dst; length_field = ln; checksum = sum }, none)

-- NewUdpFromFrame
unfoldable pub from_frame : List ℕ → Option (Udp × Option Err)
unfolding decode new
from_frame frame = decode new frame

-- A buffer of 32 bytes, cut at `u.Len`.
unfoldable pub encode : Udp → Option (List ℕ)
encode u = upto u.len (
    put_u16 u.source
    ++ (put_u16 u.destination
        ++ (put_u16 u.length_field ++ (put_u16 u.checksum ++ replicate 24 0))))
