-- ===== src/Protocol/Vlan.antt =====
-- Vlan of pkg/libol/protocol.go.
pub mod RoundTrip
use openlan.Base.{
  ℕ, ◌*◌, ◌/◌, ◌%◌, ◌≡◌, Option, none, some, List, [], ◌∷◌, ◌++◌, if◌then◌else◌, ltb, length,
  bit_or,
}
use openlan.Base.Bytes.{put_u16}
use openlan.Base.Slices.{◌>>=◌, u16_part}

pub data Err : Type 0 where
  too_small_header : Err

pub record Vlan : Type 0 where
  pub tci : ℕ  -- uint16, like the next two
  pub vid : ℕ
  pub pro : ℕ
  pub len : ℕ

unfoldable pub new : ℕ → ℕ → Vlan
new tci vid = record { tci = tci; vid = vid; pro = 0; len = 4 }

-- `v >> 12` is `v / 4096` and `0x0fff & v` is `v % 4096`.
unfoldable pub decode : Vlan → List ℕ → Option (Vlan × Option Err)
decode n frame = if ltb (length frame) 4 then some (n, some too_small_header) else do
  v ← u16_part 0 frame
  p ← u16_part 2 frame
  some (record n { tci = v / 4096; vid = v % 4096; pro = p }, none)

-- NewVlanFromFrame
unfoldable pub from_frame : List ℕ → Option (Vlan × Option Err)
unfolding decode
from_frame frame = decode (record { tci = 0; vid = 0; pro = 0; len = 4 }) frame

-- `(n.Tci << 12) | n.Vid` on 16 bits
unfoldable pub encode : Vlan → List ℕ
encode n = put_u16 (bit_or (n.tci * 4096 % 65536) n.vid) ++ put_u16 n.pro
