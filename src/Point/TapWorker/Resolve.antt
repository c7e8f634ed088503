-- ===== src/Point/TapWorker/Resolve.antt =====
-- From the reply of a neighbour to the packets that go to it.
use openlan.Base.{
  ℕ, ◌+◌, ◌≤◌, ◌≡◌, refl, sym, ◌∙◌, ap, true, none, some, List, [], ◌++◌, arith, length, drop, take,
  length-append, length-take, length-drop, drop_append, take_append,
}
use mathlib.Core.List.{append_assoc}
use openlan.Base.Slices.{from}
use openlan.Protocol.Ether
use openlan.Protocol.Ether.{Ether, eth_ip4, eth_arp, eth_zero}
use openlan.Protocol.Arp.{Arp, arp_reply, arp_request}
use openlan.Protocol.Ip4
use openlan.Protocol.Ip4.{Ipv4}
use openlan.Message.Frame.{FrameMessage, new_frame_message, copy_at, append}
use openlan.Message.Frame.Append.{Holds, new-Holds, append_front, copy_at_fits}
use openlan.Neighbors
use openlan.Neighbors.{Neighbor, Neighbors, refreshed}
use openlan.Neighbors.Table.{get_by_bytes-add}
use openlan.Base.Text.{bytes_eq_iff}
use openlan.Point.TapWorker.{
  TapWorker, new_eth, new_arp, eth_all, read_at, answer, do_write, read, on_frame, to_neighbor,
  on_miss,
}
use openlan.Point.TapWorker.Arping.{
  IsValid, Asks, do_write-answer, new_eth-IsValid, new_arp-IsValid, Carries, arp_frame-Carries,
}

-- The frame that a packet leaves in: the header of the next hop, then the packet.
pub record Wraps (a : TapWorker) (hw packet : List ℕ) (m : FrameMessage) : Type 0 where
  pub ether_read : Ether.from_frame (take m.size m.frame) ≡ some (new_eth a eth_ip4 hw, none)
  pub body_eq : from 14 (take m.size m.frame) ≡ some packet

-- A message whose buffer has a packet behind the room for the header.
record Filled (packet : List ℕ) (m : FrameMessage) : Type 0 where
  gap : List ℕ
  rest : List ℕ
  gap_len : length gap ≡ 14
  frame_eq : m.frame ≡ gap ++ (packet ++ rest)
  size_eq : m.size ≡ 0
  total_eq : m.total ≡ length m.frame

read_Filled :
    (packet : List ℕ) (m : FrameMessage) (h : Holds [] m)
    → 14 + length packet ≤ length h.back
    → (buf : List ℕ) × (copy_at 14 m.frame packet ≡ some buf)
      × Filled packet (record m { frame = buf })
read_Filled packet m h room =
    let z = m.frame in
    let lz : length z ≡ length h.back = ap length h.frame_eq in
    let rest = drop (length packet) (drop 14 z) in
    (
      take 14 z ++ (packet ++ rest),
      copy_at_fits 14 z packet (omega (arith, lz, room)),
      record {
        gap = take 14 z;
        rest = rest;
        gap_len = omega (arith, length-take 14 z, lz, room);
        frame_eq = refl;
        size_eq = h.size_eq;
        total_eq = omega (
          arith,
          h.total_eq,
          lz,
          room,
          length-append (take 14 z) (packet ++ rest),
          length-append packet rest,
          length-take 14 z,
          length-drop 14 z,
          length-drop (length packet) (drop 14 z),
        );
      },
    )

wrapped :
    (a : TapWorker) (hw packet : List ℕ) (m : FrameMessage)
    → IsValid a
    → length hw ≡ 6
    → Filled packet m
    → (be : List ℕ) × (m' : FrameMessage) × (Ether.encode (new_eth a eth_ip4 hw) ≡ some be)
      × (append be m ≡ some m')
      × Wraps a hw packet (record m' { size = length packet + 14 })
wrapped a hw packet m v len f =
    let e = new_eth a eth_ip4 hw in
    let ve = new_eth-IsValid a eth_ip4 hw v (omega arith) len in
    let (be, he, re) = Ether.RoundTrip.from_frame-encode e packet ve in
    let lb = Ether.RoundTrip.length-encode e be ve he in
    let tail : drop (length be) m.frame ≡ packet ++ f.rest =
      rw f.frame_eq (drop_append (length be) f.gap (packet ++ f.rest) (f.gap_len ∙ sym lb)) in
    let lf : length m.frame ≡ 14 + length (packet ++ f.rest) =
      ap length f.frame_eq ∙ omega (arith, f.gap_len, length-append f.gap (packet ++ f.rest)) in
    let m' = record m { frame = be ++ (packet ++ f.rest); size = length be } in
    let whole : take (length packet + 14) m'.frame ≡ be ++ packet =
      ap (take (length packet + 14)) (sym (append_assoc be packet f.rest))
      ∙ take_append (length packet + 14) (be ++ packet) f.rest
          (omega (arith, lb, length-append be packet)) in
    (
      be,
      m',
      he,
      ground (arith, append_front be m f.size_eq f.total_eq, tail, lf, lb),
      record {
        ether_read = rw whole re;
        body_eq =
            rw whole (ground (arith, drop_append 14 be packet lb, length-append be packet, lb));
      },
    )

-- A packet to a next hop whose neighbour is known goes out under its hardware address.
read_known :
    (find_next : List ℕ → List ℕ) (packet : List ℕ) (iph : Ipv4) (a : TapWorker) (neb : Neighbor)
    → IsValid a
    → a.is_tun ≡ true
    → length neb.hw_addr ≡ 6
    → length packet ≤ 4088
    → Ip4.from_frame packet ≡ some (iph, none)
    → Neighbors.get_by_bytes (find_next iph.destination) a.neighbor ≡ some (some neb)
    → (m : FrameMessage) × (read find_next packet a ≡ some (read_at m a))
      × Wraps a neb.hw_addr packet m
unfolding read on_frame to_neighbor
read_known find_next packet iph a neb v tun len small hi found =
    let (h0, room) = new-Holds 0 in
    let (buf, hb, f) = read_Filled packet (new_frame_message 0) h0 (omega (arith, room, small)) in
    let (be, m', he, ha, w) =
      wrapped a neb.hw_addr packet (record (new_frame_message 0) { frame = buf }) v len f in
    (record m' { size = length packet + 14 }, ground (arith, tun, hb, hi, found, he, ha), w)

-- Once a reply to an ARP request of the worker has come in, a packet of at most 4088 bytes whose next
-- hop is the address that replied goes to the socket in a frame to the hardware address that replied,
-- from the worker's own; the packet in it is as the device gave it.
pub read-do_write_reply :
    (now : ℕ) (a : TapWorker) (e : Ether) (q : Arp) (frame : FrameMessage)
    (find_next : List ℕ → List ℕ) (packet : List ℕ) (iph : Ipv4)
    → IsValid a
    → a.device ≡ true
    → a.is_tun ≡ true
    → Asks e q frame
    → q.op_code ≡ arp_reply
    → q.t_hw_addr ≡ a.hw_addr
    → Ip4.from_frame packet ≡ some (iph, none)
    → find_next iph.destination ≡ q.s_ip_addr
    → length packet ≤ 4088
    → (a' : TapWorker) × (m : FrameMessage) × (do_write now frame a ≡ some a')
      × (read find_next packet a' ≡ some (read_at m a'))
      × Wraps a q.s_hw_addr packet m
unfolding answer new_eth
read-do_write_reply now a e q frame find_next packet iph v up tun k op ours hi next small =
    let h : Neighbor = record {
      hw_addr = q.s_hw_addr;
      ip_addr = q.s_ip_addr;
      uptime = now;
      new_time = now;
    } in
    let (n', key, neb, added, known, found, same, up_to, first, others) =
      get_by_bytes-add h a.neighbor 0 k.valid_arp.s_ip_addr_len k.valid_arp.s_hw_addr_len in
    let a' = record a { neighbor = n' } in
    let (m, r, w) =
      read_known find_next packet iph a' neb (record { hw_len = v.hw_len; ip_len = v.ip_len }) tun
        (ap length same ∙ k.valid_arp.s_hw_addr_len) small hi
        (ap (λ d. Neighbors.get_by_bytes d n') next ∙ found) in
    (
      a',
      m,
      do_write-answer now a a' e q frame up tun k
          (ground (arith, op, ours, added, bytes_eq_iff q.t_hw_addr a.hw_addr)),
      r,
      record { ether_read = ground (arith, w.ether_read, same); body_eq = w.body_eq },
    )

-- A packet to a next hop that is not known is not sent: an ARP request for the next hop goes out to all
-- in its place.
pub read_unknown :
    (find_next : List ℕ → List ℕ) (packet : List ℕ) (iph : Ipv4) (a : TapWorker)
    → IsValid a
    → a.is_tun ≡ true
    → length packet ≤ 4088
    → length (find_next iph.destination) ≡ 4
    → Ip4.from_frame packet ≡ some (iph, none)
    → Neighbors.get_by_bytes (find_next iph.destination) a.neighbor ≡ some none
    → (m : FrameMessage) × (read find_next packet a ≡ some (read_at m a))
      × Carries
          (new_eth a eth_arp eth_all)
          (new_arp a arp_request (find_next iph.destination) eth_zero)
          m
unfolding read on_frame to_neighbor on_miss
read_unknown find_next packet iph a v tun small four hi unknown =
    let (h0, room) = new-Holds 0 in
    let (buf, hb, f) = read_Filled packet (new_frame_message 0) h0 (omega (arith, room, small)) in
    let (m, h, c) =
      arp_frame-Carries (new_eth a eth_arp eth_all)
        (new_arp a arp_request (find_next iph.destination) eth_zero)
        (new_eth-IsValid a eth_arp eth_all v (omega arith) refl)
        (new_arp-IsValid a arp_request (find_next iph.destination) eth_zero v (omega arith) four
          refl) in
    (m, ground (arith, tun, hb, hi, unknown, h), c)
