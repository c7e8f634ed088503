-- ===== src/Protocol/Ether.antt =====
-- Ether of pkg/libol/protocol.go.
pub mod RoundTrip
use openlan.Base.{
  ℕ, ◌≡◌, Bool, Option, none, some, List, [], ◌∷◌, ◌++◌, if◌then◌else◌, ltb, ◌==◌, length,
  replicate,
}
use openlan.Base.Bytes.{put_u16}
use openlan.Base.Slices.{◌>>=◌, upto, part, u16_part, copy_to}

pub data Err : Type 0 where
  too_small_header : Err

abbrev pub eth_arp : ℕ
eth_arp = 0x0806

abbrev pub eth_ip4 : ℕ
eth_ip4 = 0x0800

abbrev pub eth_vlan : ℕ
eth_vlan = 0x8100

abbrev pub eth_zero : List ℕ
eth_zero = 0 ∷ 0 ∷ 0 ∷ 0 ∷ 0 ∷ 0 ∷ []

pub record Ether : Type 0 where
  pub dst : List ℕ
  pub src : List ℕ
  pub type : ℕ  -- uint16
  pub len : ℕ

unfoldable pub new : ℕ → Ether
new t = record { type = t; src = replicate 6 0; dst = replicate 6 0; len = 14 }

unfoldable pub decode : Ether → List ℕ → Option (Ether × Option Err)
decode e frame = if ltb (length frame) 14 then some (e, some too_small_header) else do
  d ← copy_to 6 e.dst (← upto 6 frame)
  s ← copy_to 6 e.src (← part 6 6 frame)
  t ← u16_part 12 frame
  some (record e { dst = d; src = s; type = t; len = 14 }, none)

-- NewEtherFromFrame
unfoldable pub from_frame : List ℕ → Option (Ether × Option Err)
unfolding decode new
from_frame frame = decode (new 0) frame

unfoldable pub encode : Ether → Option (List ℕ)
encode e = do d ← upto 6 e.dst; s ← upto 6 e.src; some (d ++ (s ++ put_u16 e.type))

unfoldable pub is_vlan : Ether → Bool
is_vlan e = e.type == eth_vlan

unfoldable pub is_arp : Ether → Bool
is_arp e = e.type == eth_arp

unfoldable pub is_ip4 : Ether → Bool
is_ip4 e = e.type == eth_ip4
