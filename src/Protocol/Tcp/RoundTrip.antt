-- ===== src/Protocol/Tcp/RoundTrip.antt =====
-- TCP headers read back as they were written, and the other way round.
use openlan.Base.{ℕ, ◌*◌, ◌+◌, ◌≤◌, ◌<◌, ◌≡◌, none, some, List, ◌∷◌, ◌++◌, arith, length, take}
use openlan.Base.Bytes.{Bytes, put_u16, put_u32}
use openlan.Protocol.Tcp.{Tcp, from_frame, encode}

pub record IsValid (t : Tcp) : Type 0 where
  pub source_u16 : t.source < 65536
  pub destination_u16 : t.destination < 65536
  pub sequence_u32 : t.sequence < 4294967296
  pub acknowledgment_u32 : t.acknowledgment < 4294967296
  pub data_offset_u8 : t.data_offset < 256
  pub control_bits_u8 : t.control_bits < 256
  pub window_u16 : t.window < 65536
  pub checksum_u16 : t.checksum < 65536
  pub urgent_pointer_u16 : t.urgent_pointer < 65536
  pub len_eq : t.len ≡ 20

abbrev header : Tcp → List ℕ
header t =
    put_u16 t.source
    ++ (put_u16 t.destination
        ++ (put_u32 t.sequence
            ++ (put_u32 t.acknowledgment
                ++ (t.data_offset
                    ∷ t.control_bits
                    ∷ (put_u16 t.window ++ (put_u16 t.checksum ++ put_u16 t.urgent_pointer))))))

-- What `Encode` writes, with anything behind it, `NewTcpFromFrame` reads back.
pub from_frame-encode :
    (t : Tcp) (rest : List ℕ)
    → IsValid t
    → (b : List ℕ) × (encode t ≡ some b) × (from_frame (b ++ rest) ≡ some (t, none))
unfolding encode from_frame
from_frame-encode t rest v = (header t, ground arith, ground arith)

-- Any 20 bytes or more are read, and `Encode` writes the first 20 of them back.
pub encode-from_frame :
    (frame : List ℕ)
    → 20 ≤ length frame
    → Bytes frame
    → (t : Tcp) × (from_frame frame ≡ some (t, none)) × (encode t ≡ some (take 20 frame))
unfolding encode from_frame
encode-from_frame
      (a ∷ b ∷ c ∷ d ∷ e ∷ f ∷ g ∷ h ∷ i ∷ j ∷ k ∷ l ∷ m ∷ n ∷ o ∷ p ∷ q ∷ r ∷ s ∷ t ∷ rest) len
      bytes =
    (
      record {
        source = a * 256 + b;
        destination = c * 256 + d;
        sequence = e * 16777216 + f * 65536 + g * 256 + h;
        acknowledgment = i * 16777216 + j * 65536 + k * 256 + l;
        data_offset = m;
        control_bits = n;
        window = o * 256 + p;
        checksum = q * 256 + r;
        urgent_pointer = s * 256 + t;
        len = 20;
      },
      ground arith,
      ground arith,
    )
encode-from_frame _ len bytes = absurd (omega arith)
