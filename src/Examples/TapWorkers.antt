-- ===== src/Examples/TapWorkers.antt =====
-- The theorems on the tap of a point at concrete ARP packets.
use openlan.Base.{ℕ, ◌≡◌, refl, true, false, none, some, [], ◌∷◌, ◌++◌, List, arith, nat_eq}
use openlan.Base.Assoc.{lookup}
use openlan.Protocol.Ether
use openlan.Protocol.Ether.{Ether, eth_arp, eth_zero}
use openlan.Protocol.Arp
use openlan.Protocol.Arp.{Arp, arp_request, arp_reply}
use openlan.Protocol.Ip4
use openlan.Protocol.Ip4.{Ipv4}
use openlan.Message.Frame.{FrameMessage}
use openlan.Neighbors
use openlan.Neighbors.{Neighbors}
use openlan.Point.TapWorker.{TapWorker, new_eth, new_arp, eth_all, read_at, do_write, read}
use openlan.Point.TapWorker.Arping.{IsValid, Asks, Carries, do_write_request}
use openlan.Point.TapWorker.Resolve.{Wraps, read-do_write_reply, read_unknown}
use openlan.Examples.Headers.{packet, packet_bytes}

abbrev worker : TapWorker
worker = record {
  is_tun = true;
  device = true;
  hw_addr = 2 ∷ 0 ∷ 0 ∷ 0 ∷ 0 ∷ 1 ∷ [];
  ip_addr = 10 ∷ 0 ∷ 0 ∷ 1 ∷ [];
  if_addr = "10.0.0.1/24";
  neighbor = record { neighbors = []; timeout = 60; interval = 30 };
  events = [];
  sent = [];
  written = [];
}

worker-IsValid : IsValid worker
worker-IsValid = record { hw_len = refl; ip_len = refl }

abbrev ether : Ether
ether = record { dst = worker.hw_addr; src = 2 ∷ 0 ∷ 0 ∷ 0 ∷ 0 ∷ 2 ∷ []; type = 2054; len = 14 }

abbrev arp : ℕ → Arp
arp op = record {
  hrd_code = 1;
  pro_code = 2048;
  hrd_len = 6;
  pro_len = 4;
  op_code = op;
  s_hw_addr = ether.src;
  s_ip_addr = 10 ∷ 0 ∷ 0 ∷ 2 ∷ [];
  t_hw_addr = worker.hw_addr;
  t_ip_addr = worker.ip_addr;
  len = 28;
}

abbrev ether_bytes : List ℕ
ether_bytes = 2 ∷ 0 ∷ 0 ∷ 0 ∷ 0 ∷ 1 ∷ 2 ∷ 0 ∷ 0 ∷ 0 ∷ 0 ∷ 2 ∷ 8 ∷ 6 ∷ []

abbrev arp_bytes : ℕ → List ℕ
arp_bytes op =
    0 ∷ 1 ∷ 8 ∷ 0 ∷ 6 ∷ 4 ∷ 0 ∷ op ∷ 2 ∷ 0 ∷ 0 ∷ 0 ∷ 0 ∷ 2 ∷ 10 ∷ 0 ∷ 0 ∷ 2 ∷ 2 ∷ 0 ∷ 0 ∷ 0 ∷ 0 ∷ 1
    ∷ 10 ∷ 0 ∷ 0 ∷ 1 ∷ []

abbrev frame : ℕ → FrameMessage
frame op = record {
  control = false;
  action = [];
  params = [];
  head = [];
  frame = ether_bytes ++ (arp_bytes op ++ (0 ∷ 0 ∷ []));
  tail = [];
  size = 44;
  total = 44;
  parsed = none;
}

request-Asks : Asks ether (arp 1) (frame 1)
unfolding Ether.encode Arp.encode
request-Asks = record {
  valid_ether = record { dst_len = refl; src_len = refl; type_u16 = omega arith; len_eq = refl };
  valid_arp = record {
    hrd_code_u16 = omega arith;
    pro_code_u16 = omega arith;
    hrd_len_eq = refl;
    pro_len_eq = refl;
    op_code_u16 = omega arith;
    s_hw_addr_len = refl;
    s_ip_addr_len = refl;
    t_hw_addr_len = refl;
    t_ip_addr_len = refl;
  };
  is_arp = refl;
  is_ip4 = refl;
  same_station = refl;
  ether_bytes = ether_bytes;
  arp_bytes = arp_bytes 1;
  padding = 0 ∷ 0 ∷ [];
  ether_encoded = refl;
  arp_encoded = refl;
  frame_eq = refl;
}

reply-Asks : Asks ether (arp 2) (frame 2)
unfolding Ether.encode Arp.encode
reply-Asks = record {
  valid_ether = request-Asks.valid_ether;
  valid_arp = record {
    hrd_code_u16 = omega arith;
    pro_code_u16 = omega arith;
    hrd_len_eq = refl;
    pro_len_eq = refl;
    op_code_u16 = omega arith;
    s_hw_addr_len = refl;
    s_ip_addr_len = refl;
    t_hw_addr_len = refl;
    t_ip_addr_len = refl;
  };
  is_arp = refl;
  is_ip4 = refl;
  same_station = refl;
  ether_bytes = ether_bytes;
  arp_bytes = arp_bytes 2;
  padding = 0 ∷ 0 ∷ [];
  ether_encoded = refl;
  arp_encoded = refl;
  frame_eq = refl;
}

do_write_request_example :
    (m : FrameMessage) × (do_write 9 (frame 1) worker ≡ some (read_at m worker))
    × Carries
        (new_eth worker eth_arp ether.src)
        (new_arp worker arp_reply (10 ∷ 0 ∷ 0 ∷ 2 ∷ []) ether.src)
        m
do_write_request_example =
    do_write_request 9 worker ether (arp 1) (frame 1) worker-IsValid refl refl request-Asks refl
      refl

parsed : Ip4.from_frame packet_bytes ≡ some (packet, none)
unfolding Ip4.from_frame Ip4.decode Ip4.new
parsed = refl

read-do_write_reply_example :
    (a' : TapWorker) × (m : FrameMessage) × (do_write 9 (frame 2) worker ≡ some a')
    × (read (λ dest. dest) packet_bytes a' ≡ some (read_at m a'))
    × Wraps worker ether.src packet_bytes m
read-do_write_reply_example =
    read-do_write_reply 9 worker ether (arp 2) (frame 2) (λ dest. dest) packet_bytes packet
      worker-IsValid refl refl reply-Asks refl refl parsed refl (omega arith)

read_unknown_example :
    (m : FrameMessage) × (read (λ dest. dest) packet_bytes worker ≡ some (read_at m worker))
    × Carries
        (new_eth worker eth_arp eth_all)
        (new_arp worker arp_request (10 ∷ 0 ∷ 0 ∷ 2 ∷ []) eth_zero)
        m
unfolding Neighbors.get_by_bytes Neighbors.get lookup
read_unknown_example =
    read_unknown (λ dest. dest) packet_bytes packet worker worker-IsValid refl (omega arith) refl
      parsed refl
