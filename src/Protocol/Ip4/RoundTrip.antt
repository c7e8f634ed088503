-- ===== src/Protocol/Ip4/RoundTrip.antt =====
-- IPv4 headers read back as they were written, and the other way round.
use openlan.Base.{
  ℕ, ◌*◌, ◌+◌, ◌/◌, ◌%◌, ◌≤◌, ◌<◌, ◌≡◌, none, some, List, [], ◌∷◌, ◌++◌, arith, length, take,
  get_or, four,
}
use openlan.Base.Bytes.{Bytes, put_u16, bit_or_fields}
use openlan.Protocol.Ip4.{Ipv4, from_frame, encode}

pub record IsValid (i : Ipv4) : Type 0 where
  pub version_eq : i.version ≡ 4
  pub header_len_u4 : i.header_len < 16
  pub tos_u8 : i.tos < 256
  pub total_len_u16 : i.total_len < 65536
  pub identifier_u16 : i.identifier < 65536
  pub flag_u3 : i.flag < 8
  pub offset_u13 : i.offset < 8192
  pub tol_u8 : i.tol < 256
  pub protocol_u8 : i.protocol < 256
  pub header_checksum_u16 : i.header_checksum < 65536
  pub source_len : length i.source ≡ 4
  pub destination_len : length i.destination ≡ 4
  pub len_eq : i.len ≡ 20

abbrev header : Ipv4 → List ℕ → List ℕ
header i addresses =
    (i.version * 16 + i.header_len)
    ∷ i.tos
    ∷ (put_u16 i.total_len
        ++ (put_u16 i.identifier
            ++ (put_u16 (i.flag * 8192 + i.offset)
                ++ (i.tol ∷ i.protocol ∷ (put_u16 i.header_checksum ++ addresses)))))

-- A version 4 header whose fields fit their bits is read back as it was written, with anything
-- behind it.
pub from_frame-encode :
    (i : Ipv4) (rest : List ℕ)
    → IsValid i
    → (b : List ℕ) × (encode i ≡ some b) × (from_frame (b ++ rest) ≡ some (i, none))
unfolding encode from_frame
from_frame-encode i rest v =
    let (a, b, c, d, p) = four i.source v.source_len in
    let (a', b', c', d', q) = four i.destination v.destination_len in
    let h = bit_or_fields 4 i.version i.header_len in
    let f = bit_or_fields 13 i.flag i.offset in
    (
      header i (a ∷ b ∷ c ∷ d ∷ a' ∷ b' ∷ c' ∷ d' ∷ []),
      ground (arith, h, f, p, q),
      ground (arith, p, q),
    )

-- Any 20 bytes or more that begin with version 4 are read, and `Encode` writes the first 20 of them
-- back, whatever header length they announce.
pub encode-from_frame :
    (frame : List ℕ)
    → 20 ≤ length frame
    → Bytes frame
    → get_or frame 0 0 / 16 ≡ 4
    → (i : Ipv4) × (from_frame frame ≡ some (i, none)) × (encode i ≡ some (take 20 frame))
unfolding encode from_frame
encode-from_frame
      (a ∷ b ∷ c ∷ d ∷ e ∷ f ∷ g ∷ h ∷ i ∷ j ∷ k ∷ l ∷ m ∷ n ∷ o ∷ p ∷ q ∷ r ∷ s ∷ t ∷ rest) len
      bytes ver =
    (
      record {
        version = a / 16;
        header_len = a % 16;
        tos = b;
        total_len = c * 256 + d;
        identifier = e * 256 + f;
        flag = (g * 256 + h) / 8192;
        offset = (g * 256 + h) % 8192;
        tol = i;
        protocol = j;
        header_checksum = k * 256 + l;
        source = m ∷ n ∷ o ∷ p ∷ [];
        destination = q ∷ r ∷ s ∷ t ∷ [];
        len = 20;
      },
      ground arith,
      ground (
        arith,
        bit_or_fields 4 (a / 16) (a % 16),
        bit_or_fields 13 ((g * 256 + h) / 8192) ((g * 256 + h) % 8192),
      ),
    )
encode-from_frame _ len bytes ver = absurd (omega arith)

pub length-encode : (i : Ipv4) (b : List ℕ) → IsValid i → encode i ≡ some b → length b ≡ 20
unfolding encode
length-encode i x v h =
    let (a, b, c, d, p) = four i.source v.source_len in
    let (a', b', c', d', q) = four i.destination v.destination_len in ground (arith, p, q)
