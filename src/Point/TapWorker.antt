-- ===== src/Point/TapWorker.antt =====
-- pkg/olap/tap.go: the worker of a point's tap. A TUN device carries IPv4 packets, so the worker
-- writes and strips the Ethernet header itself, answers ARP requests for its address and learns from
-- the replies. `none` is the panic of a slice out of range. `sent` are the frames given to the socket
-- (ReadAt), `written` the bytes given to the device, and `events` the queue, each in order.
-- The device is whether there is one; opening one succeeds or fails as the caller says.
pub mod Arping
pub mod Resolve
use openlan.Base.{
  ℕ, ◌+◌, ◌≡◌, Bool, true, false, not, ◌&&◌, ◌||◌, Option, none, some, List, [], ◌∷◌, ◌++◌, String,
  string_eq, if◌then◌else◌, ◌==◌, length, drop, take,
}
use openlan.Base.Slices.{◌>>=◌, from}
use openlan.Base.Text.{bytes_eq}
use openlan.Protocol.Ether
use openlan.Protocol.Ether.{Ether, eth_arp, eth_ip4, eth_zero}
use openlan.Protocol.Arp
use openlan.Protocol.Arp.{Arp, arp_request, arp_reply}
use openlan.Protocol.Ip4
use openlan.Protocol.Ip4.{Ipv4}
use openlan.Message.Frame
use openlan.Message.Frame.{FrameMessage, new_frame_message, append, copy_at}
use openlan.Neighbors
use openlan.Neighbors.{Neighbor, Neighbors}

abbrev pub eth_all : List ℕ
eth_all = 255 ∷ 255 ∷ 255 ∷ 255 ∷ 255 ∷ 255 ∷ []

pub data Event : Type 0 where
  ip_addr : String → Event
  read_err open_err reset : Event

pub record TapWorker : Type 0 where
  pub is_tun : Bool
  pub device : Bool
  pub hw_addr : List ℕ
  pub ip_addr : List ℕ
  pub if_addr : String
  pub neighbor : Neighbors
  pub events : List Event
  pub sent : List FrameMessage
  pub written : List (List ℕ)

unfoldable pub new_eth : TapWorker → ℕ → List ℕ → Ether
new_eth a t dst = record (Ether.new t) { dst = dst; src = a.hw_addr }

-- `listener.ReadAt`
unfoldable pub read_at : FrameMessage → TapWorker → TapWorker
read_at frame a = record a { sent = a.sent ++ (frame ∷ []) }

-- The two Appends of an ARP frame to a new message.
unfoldable pub arp_frame : Ether → Arp → Option FrameMessage
arp_frame eth arp = do
  be ← Ether.encode eth
  m ← append be (new_frame_message 0)
  ba ← Arp.encode arp
  append ba.0 m

-- The ARP packet of this worker.
unfoldable pub new_arp : TapWorker → ℕ → List ℕ → List ℕ → Arp
new_arp a op t_ip t_hw = record Arp.new {
  op_code = op;
  s_ip_addr = a.ip_addr;
  t_ip_addr = t_ip;
  s_hw_addr = a.hw_addr;
  t_hw_addr = t_hw;
}

-- onMiss, and OnArpAlive under the lock
unfoldable pub on_miss : List ℕ → TapWorker → Option TapWorker
on_miss dest a =
    arp_frame (new_eth a eth_arp eth_all) (new_arp a arp_request dest eth_zero) >>= λ frame.
    some (read_at frame a)

-- onFrame for a TUN device, once the header is read: the Ethernet header of the neighbour goes in
-- front, or an ARP request goes out.
unfoldable pub to_neighbor :
    (List ℕ → List ℕ)
    → FrameMessage
    → ℕ
    → Ipv4
    → TapWorker
    → Option (TapWorker × Option FrameMessage)
to_neighbor find_next frame size iph a =
    let dest = find_next iph.destination in
    Neighbors.get_by_bytes dest a.neighbor >>= λ found. elim found [
      | none ↦ on_miss dest a >>= λ a'. some (a', none)
      | some neb ↦ Ether.encode (new_eth a eth_ip4 neb.hw_addr) >>= λ be.
          append be frame >>= λ frame'. some (a, some (record frame' { size = size + 14 }))
    ]

-- onFrame on `size` bytes in the frame: the frame to send, or none where the size returned is 0. An
-- empty read of a TAP is such too.
unfoldable pub on_frame :
    (List ℕ → List ℕ) → FrameMessage → List ℕ → TapWorker → Option (TapWorker × Option FrameMessage)
on_frame find_next frame bytes a =
    if a.is_tun
    then (Ip4.from_frame bytes >>= λ r. elim r.1 [
      | some err ↦ some (a, none)
      | none ↦ to_neighbor find_next frame (length bytes) r.0 a
    ])
    else some (a, if length bytes == 0 then none else some (record frame { size = length bytes }))

-- One round of Read: the device puts `bytes` into the frame, behind the room for the header.
unfoldable pub read : (List ℕ → List ℕ) → List ℕ → TapWorker → Option TapWorker
read find_next bytes a = do
  let frame = new_frame_message 0
  buf ← copy_at (if a.is_tun then 14 else 0) frame.frame bytes
  r ← on_frame find_next (record frame { frame = buf }) bytes a
  some (elim r.1 [ none ↦ r.0 | some m ↦ read_at m r.0 ])

-- toArp on an IPv4 packet whose sender is the frame's: an answer for our address, or a neighbour.
unfoldable pub answer : ℕ → Arp → TapWorker → Option TapWorker
answer now arp a =
    if arp.op_code == arp_request
    then if bytes_eq arp.t_ip_addr a.ip_addr
      then (arp_frame (new_eth a eth_arp arp.s_hw_addr)
            (new_arp a arp_reply arp.s_ip_addr arp.s_hw_addr)
          >>= λ frame. some (read_at frame a))
      else some a
    else if (arp.op_code == arp_reply) && bytes_eq arp.t_hw_addr a.hw_addr
    then (Neighbors.add
          (some (record {
            hw_addr = arp.s_hw_addr;
            ip_addr = arp.s_ip_addr;
            uptime = now;
            new_time = now;
          }))
          a.neighbor
        >>= λ n. some (record a { neighbor = n }))
    else some a

-- toArp: whether the frame was ARP.
unfoldable pub to_arp : ℕ → List ℕ → TapWorker → Option (TapWorker × Bool)
to_arp now bytes a = Ether.from_frame bytes >>= λ e. elim e.1 [
  | some err ↦ some (a, false)
  | none ↦
      if not (Ether.is_arp e.0)
      then some (a, false)
      else (from e.0.len bytes >>= λ rest. Arp.from_frame rest >>= λ r. elim r.1 [
        | some err ↦ some (a, false)
        | none ↦
            if Arp.is_ip4 r.0 && bytes_eq e.0.src r.0.s_hw_addr
            then (answer now r.0 a >>= λ a'. some (a', true))
            else some (a, true)
      ])
]

-- What DoWrite writes of a frame that is no ARP to a TUN device: the packet of an IPv4 frame.
unfoldable pub strip : List ℕ → Option (Option (List ℕ))
strip bytes = Ether.from_frame bytes >>= λ e. elim e.1 [
  | some err ↦ some none
  | none ↦ if Ether.is_ip4 e.0 then (from 14 bytes >>= λ rest. some (some rest)) else some none
]

-- `device.Write`, whose error only goes back to the loop.
unfoldable pub device_write : List ℕ → TapWorker → TapWorker
device_write bytes a = record a { written = a.written ++ (bytes ∷ []) }

unfoldable pub do_write : ℕ → FrameMessage → TapWorker → Option TapWorker
do_write now frame a =
    if not a.device
    then some a
    else if a.is_tun
    then (to_arp now frame.frame a >>= λ r.
        if r.1
        then some r.0
        else (strip frame.frame >>= λ out.
            some (elim out [ none ↦ r.0 | some packet ↦ device_write packet r.0 ])))
    else some (device_write frame.frame a)

-- `eventQueue <- NewEvent(…)`
unfoldable pub emit : Event → TapWorker → TapWorker
emit ev a = record a { events = a.events ++ (ev ∷ []) }

-- open, whose device comes up or not.
unfoldable pub reopen : Bool → TapWorker → TapWorker
reopen ok a = if ok then record a { device = true } else a

-- setEther, on the address after IPNetmask, which may fail, and its IPv4 part, which may be none.
unfoldable pub set_ether :
    Option (String × Option (List ℕ)) → Option (List ℕ) → TapWorker → TapWorker
set_ether parsed hw a0 =
    let a = record a0 { neighbor = Neighbors.clear a0.neighbor } in
    elim parsed [
      | none ↦ a
      | some (addr, ip) ↦
          let a1 : TapWorker = record a {
            ip_addr = elim ip [ none ↦ 0 ∷ 0 ∷ 0 ∷ 0 ∷ [] | some b ↦ b ];
            hw_addr = elim hw [ none ↦ a.hw_addr | some b ↦ b ];
            if_addr = addr;
          } in
          if not (string_eq.beq a.if_addr "") && not (string_eq.beq a.if_addr addr)
          then emit reset a1
          else a1
    ]

-- dispatch; `parse` is IPNetmask and net.ParseIP on the reason of the event.
unfoldable pub dispatch :
    (String → Option (String × Option (List ℕ))) → Bool → Event → TapWorker → TapWorker
dispatch parse ok (ip_addr reason) a = set_ether (parse reason) none a
dispatch parse ok read_err a = if ok then reopen ok a else emit open_err a
dispatch parse ok open_err a = if ok then reopen ok a else emit open_err a
dispatch parse ok reset a = if ok then reopen ok a else emit open_err a
