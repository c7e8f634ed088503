-- ===== src/Protocol/Udp/RoundTrip.antt =====
-- UDP headers read back as they were written, and the other way round.
use openlan.Base.{ℕ, ◌*◌, ◌+◌, ◌≤◌, ◌<◌, ◌≡◌, none, some, List, ◌∷◌, ◌++◌, arith, length, take}
use openlan.Base.Bytes.{Bytes, put_u16}
use openlan.Protocol.Udp.{Udp, from_frame, encode}

pub record IsValid (u : Udp) : Type 0 where
  pub source_u16 : u.source < 65536
  pub destination_u16 : u.destination < 65536
  pub length_u16 : u.length_field < 65536
  pub checksum_u16 : u.checksum < 65536
  pub len_eq : u.len ≡ 8

-- What `Encode` writes, with anything behind it, `NewUdpFromFrame` reads back.
pub from_frame-encode :
    (u : Udp) (rest : List ℕ)
    → IsValid u
    → (b : List ℕ) × (encode u ≡ some b) × (from_frame (b ++ rest) ≡ some (u, none))
unfolding encode from_frame
from_frame-encode u rest v = (
  put_u16 u.source ++ (put_u16 u.destination ++ (put_u16 u.length_field ++ put_u16 u.checksum)),
  ground arith,
  ground arith,
)

-- Any 8 bytes or more are read, and `Encode` writes the first 8 of them back.
pub encode-from_frame :
    (frame : List ℕ)
    → 8 ≤ length frame
    → Bytes frame
    → (u : Udp) × (from_frame frame ≡ some (u, none)) × (encode u ≡ some (take 8 frame))
unfolding encode from_frame
encode-from_frame (a ∷ b ∷ c ∷ d ∷ e ∷ f ∷ g ∷ h ∷ rest) len bytes = (
  record {
    source = a * 256 + b;
    destination = c * 256 + d;
    length_field = e * 256 + f;
    checksum = g * 256 + h;
    len = 8;
  },
  ground arith,
  ground arith,
)
encode-from_frame _ len bytes = absurd (omega arith)
