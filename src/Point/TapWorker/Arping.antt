-- ===== src/Point/TapWorker/Arping.antt =====
-- What goes over the wire for ARP: requests for our address are answered, replies are learnt, and
-- packets leave under the address learnt.
use openlan.Base.{
  ℕ, ◌<◌, ◌≡◌, refl, true, none, some, List, [], ◌++◌, arith, length, take, length-append,
  drop_append,
}
use mathlib.Core.List.{append-nil}
use openlan.Base.Text.{bytes_eq_iff}
use openlan.Base.Slices.{from}
use openlan.Protocol.Ether
use openlan.Protocol.Ether.{Ether, eth_arp, eth_ip4, eth_zero}
use openlan.Protocol.Arp
use openlan.Protocol.Arp.{Arp, arp_request, arp_reply}
use openlan.Message.Frame.{FrameMessage, new_frame_message}
use openlan.Message.Frame.Append.{append-Holds, new-Holds, take-Holds}
use openlan.Point.TapWorker.{
  TapWorker, new_eth, new_arp, arp_frame, read_at, answer, to_arp, do_write,
}

-- The addresses of the worker have the lengths that addresses have.
pub record IsValid (a : TapWorker) : Type 0 where
  pub hw_len : length a.hw_addr ≡ 6
  pub ip_len : length a.ip_addr ≡ 4

pub new_eth-IsValid :
    (a : TapWorker) (t : ℕ) (dst : List ℕ)
    → IsValid a
    → t < 65536
    → length dst ≡ 6
    → Ether.RoundTrip.IsValid (new_eth a t dst)
unfolding new_eth Ether.new
new_eth-IsValid a t dst v small len = record {
  dst_len = len;
  src_len = v.hw_len;
  type_u16 = small;
  len_eq = refl;
}

pub new_arp-IsValid :
    (a : TapWorker) (op : ℕ) (ip hw : List ℕ)
    → IsValid a
    → op < 65536
    → length ip ≡ 4
    → length hw ≡ 6
    → Arp.RoundTrip.IsValid (new_arp a op ip hw)
unfolding new_arp Arp.new
new_arp-IsValid a op ip hw v small li lh = record {
  hrd_code_u16 = omega arith;
  pro_code_u16 = omega arith;
  hrd_len_eq = refl;
  pro_len_eq = refl;
  op_code_u16 = small;
  s_hw_addr_len = v.hw_len;
  s_ip_addr_len = v.ip_len;
  t_hw_addr_len = lh;
  t_ip_addr_len = li;
}

-- The frame is sent with these two headers and nothing else.
pub record Carries (e : Ether) (q : Arp) (m : FrameMessage) : Type 0 where
  pub body : List ℕ
  pub ether_read : Ether.from_frame (take m.size m.frame) ≡ some (e, none)
  pub body_eq : from 14 (take m.size m.frame) ≡ some body
  pub arp_read : Arp.from_frame body ≡ some (record q { len = 28 }, none)

pub arp_frame-Carries :
    (e : Ether) (q : Arp)
    → Ether.RoundTrip.IsValid e
    → Arp.RoundTrip.IsValid q
    → (m : FrameMessage) × (arp_frame e q ≡ some m) × Carries e q m
unfolding arp_frame
arp_frame-Carries e q ve vq =
    let (ba, ha, ra) = Arp.RoundTrip.from_frame-encode q [] vq in
    let (be, he, re) = Ether.RoundTrip.from_frame-encode e ba ve in
    let le = Ether.RoundTrip.length-encode e be ve he in
    let la = Arp.RoundTrip.length-encode q (ba, record q { len = 28 }) vq ha in
    let (h0, room0) = new-Holds 0 in
    let (m1, e1, h1, room1) =
      append-Holds [] be (new_frame_message 0) h0 (omega (arith, le, room0)) in
    let (m2, e2, h2, room2) = append-Holds be ba m1 h1 (omega (arith, le, la, room0, room1)) in
    let all : take m2.size m2.frame ≡ be ++ ba = take-Holds (be ++ ba) m2 h2 in
    (
      m2,
      ground (arith, he, e1, ha, e2),
      record {
        body = ba;
        ether_read = rw all re;
        body_eq = rw all (ground (arith, drop_append 14 be ba le, length-append be ba, le));
        arp_read = rw (append-nil ba) at ra;
      },
    )

-- An ARP packet in its Ethernet frame, from the station that the frame is from.
pub record Asks (e : Ether) (q : Arp) (frame : FrameMessage) : Type 0 where
  pub valid_ether : Ether.RoundTrip.IsValid e
  pub valid_arp : Arp.RoundTrip.IsValid q
  pub is_arp : e.type ≡ eth_arp
  pub is_ip4 : q.pro_code ≡ 0x0800
  pub same_station : e.src ≡ q.s_hw_addr
  pub ether_bytes : List ℕ
  pub arp_bytes : List ℕ
  pub padding : List ℕ
  pub ether_encoded : Ether.encode e ≡ some ether_bytes
  pub arp_encoded : Arp.encode q ≡ some (arp_bytes, record q { len = 28 })
  pub frame_eq : frame.frame ≡ ether_bytes ++ (arp_bytes ++ padding)

to_arp-answer :
    (now : ℕ) (a a' : TapWorker) (e : Ether) (q : Arp) (frame : FrameMessage)
    → Asks e q frame
    → answer now (record q { len = 28 }) a ≡ some a'
    → to_arp now frame.frame a ≡ some (a', true)
unfolding to_arp Ether.is_arp Arp.is_ip4
to_arp-answer now a a' e q frame k h =
    let (bq, hq, rq) = Arp.RoundTrip.from_frame-encode q k.padding k.valid_arp in
    let (be, he, re) =
      Ether.RoundTrip.from_frame-encode e (k.arp_bytes ++ k.padding) k.valid_ether in
    ground (
      arith,
      k.frame_eq,
      k.ether_encoded,
      k.arp_encoded,
      hq,
      rq,
      he,
      re,
      h,
      k.is_arp,
      k.is_ip4,
      k.same_station,
      k.valid_ether.len_eq,
      Ether.RoundTrip.length-encode e k.ether_bytes k.valid_ether k.ether_encoded,
      drop_append 14 k.ether_bytes (k.arp_bytes ++ k.padding),
      length-append k.ether_bytes (k.arp_bytes ++ k.padding),
      bytes_eq_iff e.src q.s_hw_addr,
    )

pub do_write-answer :
    (now : ℕ) (a a' : TapWorker) (e : Ether) (q : Arp) (frame : FrameMessage)
    → a.device ≡ true
    → a.is_tun ≡ true
    → Asks e q frame
    → answer now (record q { len = 28 }) a ≡ some a'
    → do_write now frame a ≡ some a'
unfolding do_write
do_write-answer now a a' e q frame up tun k h =
    ground (arith, up, tun, to_arp-answer now a a' e q frame k h)

-- On a worker for IP packets (a TUN device) that has its device, and whose two addresses have 6 and 4
-- bytes, an ARP request of IPv4 for the worker's own address that comes in over the socket is answered
-- at once, if the frame's source is the station that the request names as its sender: one frame goes
-- back, to that station, and it carries a reply with the worker's two addresses. Nothing is written to
-- the device.
pub do_write_request :
    (now : ℕ) (a : TapWorker) (e : Ether) (q : Arp) (frame : FrameMessage)
    → IsValid a
    → a.device ≡ true
    → a.is_tun ≡ true
    → Asks e q frame
    → q.op_code ≡ arp_request
    → q.t_ip_addr ≡ a.ip_addr
    → (m : FrameMessage) × (do_write now frame a ≡ some (read_at m a))
      × Carries (new_eth a eth_arp q.s_hw_addr) (new_arp a arp_reply q.s_ip_addr q.s_hw_addr) m
unfolding answer
do_write_request now a e q frame v up tun k op ours =
    let (m, h, c) =
      arp_frame-Carries (new_eth a eth_arp q.s_hw_addr)
        (new_arp a arp_reply q.s_ip_addr q.s_hw_addr)
        (new_eth-IsValid a eth_arp q.s_hw_addr v (omega arith) k.valid_arp.s_hw_addr_len)
        (new_arp-IsValid a arp_reply q.s_ip_addr q.s_hw_addr v (omega arith)
          k.valid_arp.s_ip_addr_len k.valid_arp.s_hw_addr_len) in
    (
      m,
      do_write-answer now a (read_at m a) e q frame up tun k
          (ground (arith, op, ours, h, bytes_eq_iff q.t_ip_addr a.ip_addr)),
      c,
    )
