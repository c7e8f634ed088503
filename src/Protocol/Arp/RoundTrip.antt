-- ===== src/Protocol/Arp/RoundTrip.antt =====
-- ARP packets read back as they were written, and the other way round.
use openlan.Base.{
  ℕ, ◌*◌, ◌+◌, ◌≤◌, ◌<◌, ◌≡◌, none, some, List, [], ◌∷◌, ◌++◌, arith, length, take, get_or, four,
  six,
}
use openlan.Base.Bytes.{Bytes, put_u16}
use openlan.Protocol.Arp.{Arp, from_frame, encode}

-- An Ethernet and IPv4 packet, with its fields in their ranges.
pub record IsValid (a : Arp) : Type 0 where
  pub hrd_code_u16 : a.hrd_code < 65536
  pub pro_code_u16 : a.pro_code < 65536
  pub hrd_len_eq : a.hrd_len ≡ 6
  pub pro_len_eq : a.pro_len ≡ 4
  pub op_code_u16 : a.op_code < 65536
  pub s_hw_addr_len : length a.s_hw_addr ≡ 6
  pub s_ip_addr_len : length a.s_ip_addr ≡ 4
  pub t_hw_addr_len : length a.t_hw_addr ≡ 6
  pub t_ip_addr_len : length a.t_ip_addr ≡ 4

abbrev packet : Arp → List ℕ → List ℕ
packet a addresses =
    put_u16 a.hrd_code ++ (put_u16 a.pro_code ++ (6 ∷ 4 ∷ (put_u16 a.op_code ++ addresses)))

-- A packet with addresses of 6 and 4 bytes is written in 28 bytes, which set its Len, and is read
-- back as it was written, with anything behind it.
pub from_frame-encode :
    (a : Arp) (rest : List ℕ)
    → IsValid a
    → (b : List ℕ) × (encode a ≡ some (b, record a { len = 28 }))
      × (from_frame (b ++ rest) ≡ some (record a { len = 28 }, none))
unfolding encode from_frame
from_frame-encode a rest v =
    let (b, c, d, e, f, g, p) = six a.s_hw_addr v.s_hw_addr_len in
    let (h, i, j, k, q) = four a.s_ip_addr v.s_ip_addr_len in
    let (b', c', d', e', f', g', p') = six a.t_hw_addr v.t_hw_addr_len in
    let (h', i', j', k', q') = four a.t_ip_addr v.t_ip_addr_len in
    (
      packet a (
          b ∷ c ∷ d ∷ e ∷ f ∷ g ∷ h ∷ i ∷ j ∷ k ∷ b' ∷ c' ∷ d' ∷ e' ∷ f' ∷ g' ∷ h' ∷ i' ∷ j' ∷ k'
          ∷ []),
      ground (arith, p, q, p', q'),
      ground (arith, p, q, p', q'),
    )

-- Any 28 bytes or more that announce addresses of 6 and 4 bytes are read, and `Encode` writes the
-- first 28 of them back. Each is below 256.
pub encode-from_frame :
    (frame : List ℕ)
    → 28 ≤ length frame
    → Bytes frame
    → get_or frame 4 0 ≡ 6
    → get_or frame 5 0 ≡ 4
    → (a : Arp) × (from_frame frame ≡ some (a, none)) × (encode a ≡ some (take 28 frame, a))
unfolding encode from_frame
encode-from_frame
      (a ∷ b ∷ c ∷ d ∷ e ∷ f ∷ g ∷ h ∷ i ∷ j ∷ k ∷ l ∷ m ∷ n ∷ o ∷ p ∷ q ∷ r ∷ s ∷ t ∷ a' ∷ b' ∷ c'
        ∷ d' ∷ e' ∷ f' ∷ g' ∷ h' ∷ rest)
      len bytes he fe =
    (
      record {
        hrd_code = a * 256 + b;
        pro_code = c * 256 + d;
        hrd_len = e;
        pro_len = f;
        op_code = g * 256 + h;
        s_hw_addr = i ∷ j ∷ k ∷ l ∷ m ∷ n ∷ [];
        s_ip_addr = o ∷ p ∷ q ∷ r ∷ [];
        t_hw_addr = s ∷ t ∷ a' ∷ b' ∷ c' ∷ d' ∷ [];
        t_ip_addr = e' ∷ f' ∷ g' ∷ h' ∷ [];
        len = 28;
      },
      ground arith,
      ground arith,
    )
encode-from_frame _ len bytes he fe = absurd (omega arith)

pub length-encode : (a : Arp) (r : List ℕ × Arp) → IsValid a → encode a ≡ some r → length r.0 ≡ 28
unfolding encode
length-encode a r v e =
    let (b, c, d, e', f, g, p) = six a.s_hw_addr v.s_hw_addr_len in
    let (h, i, j, k, q) = four a.s_ip_addr v.s_ip_addr_len in
    let (b', c', d', e'', f', g', p') = six a.t_hw_addr v.t_hw_addr_len in
    let (h', i', j', k', q') = four a.t_ip_addr v.t_ip_addr_len in ground (arith, p, q, p', q')
