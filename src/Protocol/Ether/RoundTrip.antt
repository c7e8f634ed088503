-- ===== src/Protocol/Ether/RoundTrip.antt =====
-- Ethernet headers read back as they were written, and the other way round.
use openlan.Base.{
  six, ◌*◌, ◌+◌, ℕ, ◌≤◌, ◌<◌, ◌≡◌, none, some, List, [], ◌∷◌, ◌++◌, arith, length, take,
}
use openlan.Base.Bytes.{Bytes, put_u16}
use openlan.Protocol.Ether.{Ether, from_frame, encode}

-- The fields in their ranges.
pub record IsValid (e : Ether) : Type 0 where
  pub dst_len : length e.dst ≡ 6
  pub src_len : length e.src ≡ 6
  pub type_u16 : e.type < 65536
  pub len_eq : e.len ≡ 14

-- What `Encode` writes, with anything behind it, `NewEtherFromFrame` reads back.
pub from_frame-encode :
    (e : Ether) (rest : List ℕ)
    → IsValid e
    → (b : List ℕ) × (encode e ≡ some b) × (from_frame (b ++ rest) ≡ some (e, none))
unfolding encode from_frame
from_frame-encode e rest v =
    let (a, b, c, d, f, g, p) = six e.dst v.dst_len in
    let (a', b', c', d', f', g', q) = six e.src v.src_len in
    (
      a ∷ b ∷ c ∷ d ∷ f ∷ g ∷ a' ∷ b' ∷ c' ∷ d' ∷ f' ∷ g' ∷ put_u16 e.type,
      ground arith,
      ground arith,
    )

-- Any 14 bytes or more are read, and `Encode` writes the first 14 of them back.
pub encode-from_frame :
    (frame : List ℕ)
    → 14 ≤ length frame
    → Bytes frame
    → (e : Ether) × (from_frame frame ≡ some (e, none)) × (encode e ≡ some (take 14 frame))
unfolding encode from_frame
encode-from_frame (a ∷ b ∷ c ∷ d ∷ e ∷ f ∷ g ∷ h ∷ i ∷ j ∷ k ∷ l ∷ m ∷ n ∷ rest) len bytes = (
  record {
    dst = a ∷ b ∷ c ∷ d ∷ e ∷ f ∷ [];
    src = g ∷ h ∷ i ∷ j ∷ k ∷ l ∷ [];
    type = m * 256 + n;
    len = 14;
  },
  ground arith,
  ground arith,
)
encode-from_frame _ len bytes = absurd (omega arith)

pub length-encode : (e : Ether) (b : List ℕ) → IsValid e → encode e ≡ some b → length b ≡ 14
unfolding encode
length-encode e x v h =
    let (a, b, c, d, f, g, p) = six e.dst v.dst_len in
    let (a', b', c', d', f', g', q) = six e.src v.src_len in ground (arith, p, q)
