-- ===== src/Protocol/Tcp.antt =====
-- Tcp of pkg/libol/protocol.go. Options and Padding are never filled or written, so they are left out.
pub mod RoundTrip
use openlan.Base.{
  ℕ, ◌≡◌, Bool, Option, none, some, List, [], ◌∷◌, ◌++◌, if◌then◌else◌, ltb, ◌==◌, length,
  replicate, bit_and,
}
use openlan.Base.Bytes.{put_u16, put_u32}
use openlan.Base.Slices.{◌>>=◌, upto, byte_at, u16_part, u32_part}

pub data Err : Type 0 where
  too_small_header : Err

pub record Tcp : Type 0 where
  pub source : ℕ  -- uint16
  pub destination : ℕ  -- uint16
  pub sequence : ℕ  -- uint32
  pub acknowledgment : ℕ  -- uint32
  pub data_offset : ℕ  -- uint8
  pub control_bits : ℕ  -- uint8
  pub window : ℕ  -- uint16
  pub checksum : ℕ  -- uint16
  pub urgent_pointer : ℕ  -- uint16
  pub len : ℕ

unfoldable pub new : Tcp
new = record {
  source = 0;
  destination = 0;
  sequence = 0;
  acknowledgment = 0;
  data_offset = 0;
  control_bits = 0;
  window = 0;
  checksum = 0;
  urgent_pointer = 0;
  len = 20;
}

unfoldable pub decode : Tcp → List ℕ → Option (Tcp × Option Err)
decode t frame = if ltb (length frame) 20 then some (t, some too_small_header) else do
  src ← u16_part 0 frame
  dst ← u16_part 2 frame
  seq ← u32_part 4 frame
  ack ← u32_part 8 frame
  off ← byte_at 12 frame
  ctl ← byte_at 13 frame
  win ← u16_part 14 frame
  sum ← u16_part 16 frame
  urg ← u16_part 18 frame
  some (
    record {
      source = src;
      destination = dst;
      sequence = seq;
      acknowledgment = ack;
      data_offset = off;
      control_bits = ctl;
      window = win;
      checksum = sum;
      urgent_pointer = urg;
      len = t.len;
    },
    none,
  )

-- NewTcpFromFrame
unfoldable pub from_frame : List ℕ → Option (Tcp × Option Err)
unfolding decode new
from_frame frame = decode new frame

-- A buffer of 32 bytes, cut at `t.Len`.
unfoldable pub encode : Tcp → Option (List ℕ)
encode t = upto t.len (
    put_u16 t.source
    ++ (put_u16 t.destination
        ++ (put_u32 t.sequence
            ++ (put_u32 t.acknowledgment
                ++ (t.data_offset
                    ∷ t.control_bits
                    ∷ (put_u16 t.window
                        ++ (put_u16 t.checksum
                            ++ (put_u16 t.urgent_pointer ++ replicate 12 0))))))))

unfoldable pub has_flag : Tcp → ℕ → Bool
has_flag t flag = bit_and t.control_bits flag == flag
