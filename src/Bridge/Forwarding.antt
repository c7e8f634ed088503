-- ===== src/Bridge/Forwarding.antt =====
-- Where frames go.
use openlan.Base.{
  ℕ, ◌+◌, ◌%◌, ◌≤◌, ◌≡◌, ◌≢◌, Bool, true, none, some, List, [], ◌∷◌, ◌++◌, String, string_eq, arith,
  length, get_or, map, All, ◌⊎◌, inl, inr, take,
}
use mathlib.Core.Path.{subst}
use openlan.Base.Assoc.{lookup}
use openlan.Bridge.{
  HwText, Taper, Framer, VirtualBridge, Sends, outs, flood, eth2str, learn_mac, unicast_to, forward,
  u64,
}
use openlan.Bridge.Table.{lookup-learn_mac}

abbrev pub Away : Taper → Sends → Type 0
Away from = All (λ s. s.0 ≢ from)

outs-Away :
    (from : Taper) (bytes : List ℕ) (ps : List (String × Taper))
    → Away from (map (λ port. (port, bytes)) (outs from ps))
unfolding outs
outs-Away from bytes [] = tt
outs-Away from bytes ((name, port) ∷ ps) = ground (arith, outs-Away from bytes ps)

unicast_to-Away :
    (hw : HwText) (up : Taper → Bool) (m : Framer) (dest : List ℕ) (b b' : VirtualBridge)
    (sends : Sends)
    → unicast_to hw up m dest b ≡ some (b', sends)
    → Away m.source sends
unfolding unicast_to
unicast_to-Away hw up m dest b b' sends h = ground arith

forward-cases :
    (hw : HwText) (up : Taper → Bool) (m : Framer) (b b' : VirtualBridge) (sends : Sends)
    → forward hw up m b ≡ some (b', sends)
    → (unicast_to hw up m (take 6 (m.bytes ++ m.spare)) b ≡ some (b', sends))
      ⊎ (flood m b ≡ (b', sends))
unfolding forward
forward-cases hw up m b b' sends h = ground arith

-- No frame goes back to the tap that it came from, whether its destination is known or not.
pub forward-Away :
    (hw : HwText) (up : Taper → Bool) (m : Framer) (b b' : VirtualBridge) (sends : Sends)
    → forward hw up m b ≡ some (b', sends)
    → Away m.source sends
forward-Away hw up m b b' sends h = elim (forward-cases hw up m b b' sends h) [
  | inl e ↦ unicast_to-Away hw up m _ b b' sends e
  | inr e ↦
      let same : map (λ port. (port, m.bytes)) (outs m.source b.ports) ≡ sends =
        unfold flood in ground arith in
      subst (Away m.source) same (outs-Away m.source m.bytes b.ports)
]

-- Once a frame from an address that is not a group's has come in on a tap, a frame to that address
-- that comes from another tap goes to that tap alone, if it is up. The frame has 6 bytes or more, with
-- what lies behind it in its buffer.
pub forward-learn_mac :
    (hw : HwText) (now : ℕ) (up : Taper → Bool) (tap : Taper) (mac : List ℕ) (b : VirtualBridge)
    (m : Framer)
    → get_or mac 0 0 % 2 ≡ 0
    → 6 ≤ length (m.bytes ++ m.spare)
    → take 6 (m.bytes ++ m.spare) ≡ mac
    → tap ≢ m.source
    → up tap ≡ true
    → let b1 = learn_mac hw now tap mac b in
      forward hw up m b1
      ≡ some
          (record b1 { sts = record b1.sts { send = u64 (b1.sts.send + 1) } }, (tap, m.bytes) ∷ [])
unfolding forward unicast_to
forward-learn_mac hw now up tap mac b m single len dest other is_up = ground (
  arith,
  lookup-learn_mac hw (eth2str hw mac) now tap mac b,
  string_eq.beq_iff (eth2str hw mac) (eth2str hw mac),
)

-- A frame whose destination is not known goes to every port but the one that it came from, in the
-- order of the ports, and each counts as sent. It has 6 bytes or more, with what lies behind it in its
-- buffer.
pub forward_unknown :
    (hw : HwText) (up : Taper → Bool) (m : Framer) (b : VirtualBridge)
    → 6 ≤ length (m.bytes ++ m.spare)
    → lookup (eth2str hw (take 6 (m.bytes ++ m.spare))) b.macs ≡ none
    → forward hw up m b
      ≡ some (
        record b {
          sts = record b.sts { send = u64 (b.sts.send + length (outs m.source b.ports)) };
        },
        map (λ port. (port, m.bytes)) (outs m.source b.ports),
      )
unfolding forward unicast_to flood
forward_unknown hw up m b len unknown = ground arith
