-- ===== src/Protocol/Vlan/RoundTrip.antt =====
-- VLAN tags read back as they were written, and the other way round.
use openlan.Base.{
  ℕ, ◌*◌, ◌+◌, ◌/◌, ◌%◌, ◌≤◌, ◌<◌, ◌≡◌, none, some, List, ◌∷◌, ◌++◌, arith, length, take,
}
use openlan.Base.Bytes.{Bytes, bit_or_fields}
use openlan.Protocol.Vlan.{Vlan, from_frame, encode}

pub record IsValid (n : Vlan) : Type 0 where
  pub tci_u4 : n.tci < 16
  pub vid_u12 : n.vid < 4096
  pub pro_u16 : n.pro < 65536
  pub len_eq : n.len ≡ 4

-- A tag whose priority has 4 bits and whose identifier has 12 is read back as it was written, with
-- anything behind it.
pub from_frame-encode :
    (n : Vlan) (rest : List ℕ) → IsValid n → from_frame (encode n ++ rest) ≡ some (n, none)
unfolding encode from_frame
from_frame-encode n rest v = ground (arith, bit_or_fields 12 n.tci n.vid)

-- Any 4 bytes or more are read, and `Encode` writes the first 4 of them back.
pub encode-from_frame :
    (frame : List ℕ)
    → 4 ≤ length frame
    → Bytes frame
    → (n : Vlan) × (from_frame frame ≡ some (n, none)) × (encode n ≡ take 4 frame)
unfolding encode from_frame
encode-from_frame (a ∷ b ∷ c ∷ d ∷ rest) len bytes = (
  record { tci = (a * 256 + b) / 4096; vid = (a * 256 + b) % 4096; pro = c * 256 + d; len = 4 },
  ground arith,
  ground (arith, bit_or_fields 12 ((a * 256 + b) / 4096) ((a * 256 + b) % 4096)),
)
encode-from_frame _ len bytes = absurd (omega arith)
