-- ===== src/Examples/Bridging.antt =====
-- The theorems on the bridge at concrete tables and frames.
use openlan.Base.{
  ℕ, ◌+◌, ◌≡◌, refl, Bool, true, none, some, List, [], ◌∷◌, ◌++◌, String, string_eq, arith, length,
  map,
}
use openlan.Base.Assoc.{lookup, insert, erase, has_key, Distinct}
use openlan.Bridge
use openlan.Bridge.{
  MacFdb, Taper, Framer, VirtualBridge, expire, learn_mac, forward, outs, flood, input, add_slave,
  del_slave, eth2str, Sends, get_mac, add_mac, update_mac, learn, unicast_to, u64,
}
use openlan.Bridge.Forwarding.{forward-Away, forward-learn_mac, forward_unknown, Away}
use openlan.Bridge.Slaves.{Call, joins, leaves, receives, ticks, run, slave_at, others}
use openlan.Bridge.Groups.{run-new-flood}
use openlan.Examples.Texts.{hw_text}

abbrev mac_a : List ℕ
mac_a = 2 ∷ 0 ∷ 0 ∷ 0 ∷ 0 ∷ 1 ∷ []

abbrev mac_b : List ℕ
mac_b = 2 ∷ 0 ∷ 0 ∷ 0 ∷ 0 ∷ 2 ∷ []

abbrev mac_all : List ℕ
mac_all = 255 ∷ 255 ∷ 255 ∷ 255 ∷ 255 ∷ 255 ∷ []

abbrev up : Taper → Bool
up t = true

abbrev key : List ℕ → String
key = hw_text.print

abbrev bridge : VirtualBridge
bridge = record {
  ports = ("t1", 1) ∷ ("t2", 2) ∷ ("t3", 3) ∷ [];
  macs = (key mac_a, record { address = mac_a; device = 1; uptime = 100; new_time = 100 }) ∷ [];
  timeout = 300;
  sts = record { recv = 0; send = 0; drop = 0 };
}

abbrev b_to_a : Framer
b_to_a = record { bytes = mac_a ++ (mac_b ++ (8 ∷ 0 ∷ [])); spare = []; source = 2 }

abbrev a_to_all : Framer
a_to_all = record { bytes = mac_all ++ (mac_a ++ (8 ∷ 6 ∷ [])); spare = []; source = 1 }

forward-learn_mac_example :
    forward hw_text up b_to_a (learn_mac hw_text 7 3 mac_a bridge)
    ≡ some (
      record (learn_mac hw_text 7 3 mac_a bridge) {
        sts = record (learn_mac hw_text 7 3 mac_a bridge).sts {
          send = u64 ((learn_mac hw_text 7 3 mac_a bridge).sts.send + 1);
        };
      },
      (3, b_to_a.bytes) ∷ [],
    )
forward-learn_mac_example =
    forward-learn_mac hw_text 7 up 3 mac_a bridge b_to_a refl (omega arith) refl (omega arith) refl

flooded :
    forward hw_text up a_to_all bridge
    ≡ some (
      record bridge { sts = record { recv = 0; send = 2; drop = 0 } },
      (2, a_to_all.bytes) ∷ (3, a_to_all.bytes) ∷ [],
    )
unfolding lookup outs eth2str
flooded = forward_unknown hw_text up a_to_all bridge (omega arith) refl

forward-Away_example : Away 1 ((2, a_to_all.bytes) ∷ (3, a_to_all.bytes) ∷ [])
forward-Away_example =
    forward-Away hw_text up a_to_all bridge
      (record bridge { sts = record { recv = 0; send = 2; drop = 0 } })
      ((2, a_to_all.bytes) ∷ (3, a_to_all.bytes) ∷ []) flooded

abbrev history : List Call
history =
    joins "a" 1
    ∷ joins "b" 2
    ∷ joins "c" 4
    ∷ receives 5 up a_to_all
    ∷ ticks 9
    ∷ leaves "c"
    ∷ receives 10 up b_to_a
    ∷ joins "d" 3
    ∷ []

abbrev seen : VirtualBridge
seen = elim (run hw_text history Bridge.new) [ none ↦ bridge | some b ↦ b ]

run-seen : run hw_text history Bridge.new ≡ some seen
unfolding run add_slave del_slave input learn forward unicast_to lookup learn_mac Bridge.new insert
    erase has_key expire flood outs
run-seen = refl

seen-ports : seen.ports ≡ ("a", 1) ∷ ("b", 2) ∷ ("d", 3) ∷ []
unfolding run add_slave del_slave input learn forward unicast_to lookup learn_mac Bridge.new insert
    erase has_key expire flood outs
seen-ports = refl

run-new-flood_example :
    (forward hw_text up a_to_all seen
      ≡ some (
        record seen {
          sts = record seen.sts { send = u64 (seen.sts.send + length (others 1 seen.ports)) };
        },
        map (λ port. (port.1, a_to_all.bytes)) (others 1 seen.ports),
      ))
    × Distinct seen.ports
    × ((name : String) → lookup name seen.ports ≡ slave_at name history none)
run-new-flood_example = run-new-flood hw_text history up a_to_all seen run-seen (omega arith) refl
