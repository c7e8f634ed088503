-- ===== src/Bridge.antt =====
-- pkg/network/bridge_virtual.go: the learning bridge that connects the taps of a network.
-- A tap is a number, which stands for the pointer; whether it is up is asked of the caller. What the
-- bridge sends is the list of the taps and frames, in order: a tap that fails to send is only logged.
-- Time is an argument, in seconds. The counters are int64, held as their bit patterns.
pub mod Slaves
pub mod Table
pub mod Forwarding
pub mod Groups
use openlan.Base.{
  ℕ, zero, suc, ◌+◌, ◌-◌, ◌%◌, ◌^◌, ◌≡◌, ◌≢◌, Bool, true, false, not, ◌&&◌, Option, none, some,
  List, [], ◌∷◌, ◌++◌, String, string_eq, if◌then◌else◌, ltb, leb, ◌==◌, length, map, take, get_or,
}
use openlan.Base.Assoc.{lookup, insert, erase, has_key}
use openlan.Base.Slices.{◌>>=◌, upto, part}

-- String of net.HardwareAddr, which is Go's: six bytes are printed in one way.
pub record HwText : Type 0 where
  pub print : List ℕ → String
  pub print_injective : (a b : List ℕ) → length a ≡ 6 → length b ≡ 6 → print a ≡ print b → a ≡ b

abbrev pub Taper : Type 0
Taper = ℕ

-- MacFdb
pub record MacFdb : Type 0 where
  pub address : List ℕ
  pub device : Taper
  pub uptime : ℕ
  pub new_time : ℕ

-- Framer; `spare` is what lies behind the frame in its buffer, which a slice of the frame may reach.
pub record Framer : Type 0 where
  pub bytes : List ℕ
  pub spare : List ℕ
  pub source : Taper

pub record Stats : Type 0 where
  pub recv : ℕ
  pub send : ℕ
  pub drop : ℕ

pub record VirtualBridge : Type 0 where
  pub ports : List (String × Taper)
  pub macs : List (String × MacFdb)
  pub timeout : ℕ
  pub sts : Stats

abbrev pub u64 : ℕ → ℕ
u64 n = n % 2 ^ 64

-- NewVirtualBridge
unfoldable pub new : VirtualBridge
new = record { ports = []; macs = []; timeout = 300; sts = record { recv = 0; send = 0; drop = 0 } }

-- AddSlave, once the tap of that name is found; its reader calls `input`.
unfoldable pub add_slave : String → Taper → VirtualBridge → VirtualBridge
add_slave name tap b = record b { ports = insert name tap b.ports }

unfoldable pub del_slave : String → VirtualBridge → VirtualBridge
del_slave name b = if has_key name b.ports then record b { ports = erase name b.ports } else b

unfoldable pub get_mac : String → VirtualBridge → Option MacFdb
get_mac mac b = lookup mac b.macs

unfoldable pub add_mac : String → MacFdb → VirtualBridge → VirtualBridge
add_mac mac fdb b = record b { macs = insert mac fdb b.macs }

unfoldable pub update_mac : ℕ → String → Taper → VirtualBridge → VirtualBridge
update_mac now mac device b = elim (lookup mac b.macs) [
  | none ↦ b
  | some fdb ↦ record b { macs = insert mac (record fdb { uptime = now; device = device }) b.macs }
]

-- The first half of Expire: the keys that are too old. `now-learn.Uptime > timeout` is on int64: a
-- time before the entry's is no difference, as it is on numbers.
unfoldable pub collect : ℕ → ℕ → List (String × MacFdb) → List String
collect now timeout [] = []
collect now timeout ((k, l) ∷ m) =
    let rest = collect now timeout m in if ltb timeout (now - l.uptime) then k ∷ rest else rest

-- The second half: they are deleted, as far as they are still there.
unfoldable pub delete_all : List String → List (String × MacFdb) → List (String × MacFdb)
delete_all [] m = m
delete_all (k ∷ ks) m = delete_all ks (if has_key k m then erase k m else m)

unfoldable pub expire : ℕ → VirtualBridge → VirtualBridge
unfolding collect delete_all
expire now b = record b { macs = delete_all (collect now b.timeout b.macs) b.macs }

-- The taps that Flood sends to: every port but the one that the frame came from.
unfoldable pub outs : Taper → List (String × Taper) → List Taper
outs from [] = []
outs from ((name, port) ∷ ps) =
    let rest = outs from ps in if from == port then rest else port ∷ rest

abbrev pub Sends : Type 0
Sends = List (Taper × List ℕ)

unfoldable pub flood : Framer → VirtualBridge → VirtualBridge × Sends
flood m b =
    let ports = outs m.source b.ports in
    (
      record b { sts = record b.sts { send = u64 (b.sts.send + length ports) } },
      map (λ port. (port, m.bytes)) ports,
    )

module _ (hw : HwText) where
  unfoldable pub eth2str : List ℕ → String
  eth2str addr = if ltb (length addr) 6 then "" else hw.print addr

  -- `mac[0]&0x01 == 0x01` is a group address, which is not learnt.
  unfoldable pub learn_mac : ℕ → Taper → List ℕ → VirtualBridge → VirtualBridge
  unfolding eth2str get_mac add_mac
  learn_mac now source mac b =
      if get_or mac 0 0 % 2 == 1 then b else elim (get_mac (eth2str mac) b) [
        | some l ↦ update_mac now (eth2str mac) source b
        | none ↦
            add_mac (eth2str mac)
              (record { device = source; uptime = now; new_time = now; address = mac }) b
      ]

  -- `none` where the buffer of the frame is shorter than 12 bytes.
  unfoldable pub learn : ℕ → Framer → VirtualBridge → Option VirtualBridge
  learn now m b = part 6 6 (m.bytes ++ m.spare) >>= λ mac. some (learn_mac now m.source mac b)

  -- UniCast to a destination; `none` is the error that it is not found.
  unfoldable pub unicast_to :
      (Taper → Bool) → Framer → List ℕ → VirtualBridge → Option (VirtualBridge × Sends)
  unfolding eth2str get_mac
  unicast_to up m dest b = elim (get_mac (eth2str dest) b) [
    | none ↦ none
    | some learn ↦ some (
        if not (learn.device == m.source) && up learn.device
        then (
          record b { sts = record b.sts { send = u64 (b.sts.send + 1) } },
          (learn.device, m.bytes) ∷ [],
        )
        else (record b { sts = record b.sts { drop = u64 (b.sts.drop + 1) } }, []))
  ]

  unfoldable pub forward : (Taper → Bool) → Framer → VirtualBridge → Option (VirtualBridge × Sends)
  forward up m b = upto 6 (m.bytes ++ m.spare) >>= λ dest. elim (unicast_to up m dest b) [
    | some r ↦ some r
    | none ↦ some (flood m b)
  ]

  unfoldable pub input :
      ℕ → (Taper → Bool) → Framer → VirtualBridge → Option (VirtualBridge × Sends)
  input now up m b =
      learn now m (record b { sts = record b.sts { recv = u64 (b.sts.recv + 1) } }) >>= λ b'.
      forward up m b'
