-- ===== src/Protocol/Arp.antt =====
-- Arp of pkg/libol/protocol.go.
pub mod RoundTrip
use openlan.Base.{
  ℕ, ◌+◌, ◌*◌, ◌%◌, ◌≡◌, Bool, ◌||◌, Option, none, some, List, [], ◌∷◌, ◌++◌, if◌then◌else◌, ltb,
  leb, ◌==◌, length, replicate, not,
}
use openlan.Base.Bytes.{put_u16}
use openlan.Base.Slices.{◌>>=◌, upto, part, byte_at, u16_part, copy_to}

pub data Err : Type 0 where
  too_small_header addr_len too_small_frame : Err

abbrev pub arp_request : ℕ
arp_request = 1

abbrev pub arp_reply : ℕ
arp_reply = 2

pub record Arp : Type 0 where
  pub hrd_code : ℕ  -- uint16
  pub pro_code : ℕ  -- uint16
  pub hrd_len : ℕ  -- uint8
  pub pro_len : ℕ  -- uint8
  pub op_code : ℕ  -- uint16
  pub s_hw_addr : List ℕ
  pub s_ip_addr : List ℕ
  pub t_hw_addr : List ℕ
  pub t_ip_addr : List ℕ
  pub len : ℕ

unfoldable pub new : Arp
new = record {
  hrd_code = 1;
  pro_code = 0x0800;
  hrd_len = 6;
  pro_len = 4;
  op_code = arp_request;
  s_hw_addr = replicate 6 0;
  s_ip_addr = replicate 4 0;
  t_hw_addr = replicate 6 0;
  t_ip_addr = replicate 4 0;
  len = 0;
}

-- `p`, a uint8, starts at 8 and goes on by the two lengths in turn.
read_addresses : Arp → List ℕ → Option (Arp × Option Err)
read_addresses a frame =
    let p0 : ℕ = 8 in
    let p1 = (p0 + a.hrd_len) % 256 in
    let p2 = (p1 + a.pro_len) % 256 in
    let p3 = (p2 + a.hrd_len) % 256 in
    let p4 = (p3 + a.pro_len) % 256 in
    if ltb (length frame) ((p0 + 2 * ((a.hrd_len + a.pro_len) % 256) % 256) % 256)
    then some (a, some too_small_frame)
    else do
      sh ← copy_to 6 a.s_hw_addr (← part p0 6 frame)
      si ← copy_to 4 a.s_ip_addr (← part p1 4 frame)
      th ← copy_to 6 a.t_hw_addr (← part p2 6 frame)
      ti ← copy_to 4 a.t_ip_addr (← part p3 4 frame)
      some (
        record a { s_hw_addr = sh; s_ip_addr = si; t_hw_addr = th; t_ip_addr = ti; len = p4 },
        none,
      )

-- The operation, read once the two lengths are known to be 6 and 4.
read_op_code : Arp → List ℕ → Option (Arp × Option Err)
unfolding read_addresses
read_op_code a frame =
    if not (a.hrd_len == 6) || not (a.pro_len == 4)
    then some (a, some addr_len)
    else do op ← u16_part 6 frame; read_addresses (record a { op_code = op }) frame

unfoldable pub decode : Arp → List ℕ → Option (Arp × Option Err)
unfolding read_op_code
decode a frame = if ltb (length frame) 8 then some (a, some too_small_header) else do
  hc ← u16_part 0 frame
  pc ← u16_part 2 frame
  hl ← byte_at 4 frame
  pl ← byte_at 5 frame
  read_op_code (record a { hrd_code = hc; pro_code = pc; hrd_len = hl; pro_len = pl }) frame

-- NewArpFromFrame
unfoldable pub from_frame : List ℕ → Option (Arp × Option Err)
unfolding decode new
from_frame frame = decode new frame

-- `buffer[p : p + n]` for a uint8 sum: it panics where the sum wraps. The new `p`.
advance : ℕ → ℕ → Option ℕ
advance p n = let q = (p + n) % 256 in if leb p q then some q else none

-- The bytes, and the record with its new Len. The buffer has 1024 bytes, more than `p` can reach.
unfoldable pub encode : Arp → Option (List ℕ × Arp)
unfolding advance
encode a = do
  p1 ← advance 8 a.hrd_len
  sh ← upto a.hrd_len a.s_hw_addr
  p2 ← advance p1 a.pro_len
  si ← upto a.pro_len a.s_ip_addr
  p3 ← advance p2 a.hrd_len
  th ← upto a.hrd_len a.t_hw_addr
  p4 ← advance p3 a.pro_len
  ti ← upto a.pro_len a.t_ip_addr
  some (
    put_u16 a.hrd_code
        ++ (put_u16 a.pro_code
            ++ (a.hrd_len ∷ a.pro_len ∷ (put_u16 a.op_code ++ (sh ++ (si ++ (th ++ ti)))))),
    record a { len = p4 },
  )

unfoldable pub is_ip4 : Arp → Bool
is_ip4 a = a.pro_code == 0x0800

unfoldable pub is_reply : Arp → Bool
is_reply a = a.op_code == arp_reply

unfoldable pub is_request : Arp → Bool
is_request a = a.op_code == arp_request
