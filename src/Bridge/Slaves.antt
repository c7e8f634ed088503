-- ===== src/Bridge/Slaves.antt =====
-- The ports of a bridge over a history: taps that join and leave, frames that come in, ticks.
use openlan.Base.{
  ℕ, ◌+◌, ◌%◌, ◌^◌, ◌≡◌, refl, Bool, not, Option, none, some, List, [], ◌∷◌, ◌++◌, String,
  string_eq, arith, if◌then◌else◌, ◌==◌, Option-cases, inl, inr, ◌∙◌, ap, sym, map, filter,
  Bool-cases, take, drop,
}
use mathlib.Core.Path.{subst}
use openlan.Base.Assoc.{
  lookup, has_key, has_key-lookup, lookup-insert, lookup-erase, Distinct, Distinct-insert,
  Distinct-erase,
}
use openlan.Bridge.{
  HwText, Taper, Framer, VirtualBridge, Sends, new, add_slave, del_slave, learn_mac, learn, forward,
  input, flood, outs, expire, unicast_to, update_mac, get_mac, add_mac,
}

-- What happens to a bridge: a tap becomes a port under a name, or leaves; a frame that a tap read; a
-- tick of the timer.
pub data Call : Type 0 where
  joins : String → Taper → Call
  leaves : String → Call
  receives : ℕ → (Taper → Bool) → Framer → Call
  ticks : ℕ → Call

-- The tap under a name by the history alone, from the one there was.
abbrev pub slave_at : String → List Call → Option Taper → Option Taper
slave_at name [] o = o
slave_at name (joins other tap ∷ cs) o =
    slave_at name cs (if string_eq.beq other name then some tap else o)
slave_at name (leaves other ∷ cs) o =
    slave_at name cs (if string_eq.beq other name then none else o)
slave_at name (receives now up m ∷ cs) o = slave_at name cs o
slave_at name (ticks now ∷ cs) o = slave_at name cs o

-- The taps of the ports but one.
abbrev pub others : Taper → List (String × Taper) → List (String × Taper)
others from = filter (λ p. not (from == p.1))

pub outs-others :
    (from : Taper) (ps : List (String × Taper)) → outs from ps ≡ map (λ p. p.1) (others from ps)
unfolding outs
outs-others from [] = refl
outs-others from ((name, port) ∷ ps) = ground (arith, outs-others from ps)

del_slave-ports :
    (other : String) (b : VirtualBridge)
    → Distinct b.ports
    → Distinct (del_slave other b).ports
      × ((name : String)
          → lookup name (del_slave other b).ports
            ≡ (if string_eq.beq other name then none else lookup name b.ports))
unfolding del_slave
del_slave-ports other b d = elim (Bool-cases (has_key other b.ports)) [
  | inl e ↦ rw e (Distinct-erase other b.ports d, λ name. lookup-erase other name b.ports d)
  | inr e ↦
      rw e
        (d, λ name. ground (arith, e, has_key-lookup other b.ports, string_eq.beq_iff other name))
]

expire-ports : (now : ℕ) (b : VirtualBridge) → (expire now b).ports ≡ b.ports
unfolding expire
expire-ports now b = refl

module _ (hw : HwText) where
  -- A frame that is too short panics; nothing happens after that.
  unfoldable pub run : List Call → VirtualBridge → Option VirtualBridge
  run [] b = some b
  run (joins name tap ∷ cs) b = run cs (add_slave name tap b)
  run (leaves name ∷ cs) b = run cs (del_slave name b)
  run (receives now up m ∷ cs) b = elim (input hw now up m b) [ none ↦ none | some r ↦ run cs r.0 ]
  run (ticks now ∷ cs) b = run cs (expire now b)

  learn_mac-ports :
      (now : ℕ) (source : Taper) (mac : List ℕ) (b : VirtualBridge)
      → (learn_mac hw now source mac b).ports ≡ b.ports
  unfolding learn_mac update_mac get_mac add_mac
  learn_mac-ports now source mac b = ground arith

  input-ports :
      (now : ℕ) (up : Taper → Bool) (m : Framer) (b b' : VirtualBridge) (sends : Sends)
      → input hw now up m b ≡ some (b', sends)
      → b'.ports ≡ b.ports
  unfolding input learn forward unicast_to flood
  input-ports now up m b b' sends h =
      let mac = take 6 (drop 6 (m.bytes ++ m.spare)) in
      ground (
        arith,
        h,
        learn_mac-ports now m.source mac
            (record b { sts = record b.sts { recv = (b.sts.recv + 1) % 2 ^ 64 } }),
      )

  -- The ports of `b` are those of the history `cs` from `o`.
  run-ports :
      (cs : List Call) (b b' : VirtualBridge)
      → Distinct b.ports
      → run cs b ≡ some b'
      → Distinct b'.ports
        × ((name : String) → lookup name b'.ports ≡ slave_at name cs (lookup name b.ports))
  unfolding run
  run-ports [] b b' d h =
      let e : b ≡ b' = ground (arith, h) in
      subst
        (λ (x : VirtualBridge).
          Distinct x.ports × ((name : String) → lookup name x.ports ≡ lookup name b.ports))
        e (d, λ name. refl)
  run-ports (joins other tap ∷ cs) b b' d h =
      let r =
        run-ports cs (add_slave other tap b) b'
          (unfold add_slave in Distinct-insert other tap b.ports d) h in
      (
        r.0,
        λ name.
            r.1 name
            ∙ ap (slave_at name cs) (unfold add_slave in lookup-insert other name tap b.ports),
      )
  run-ports (leaves other ∷ cs) b b' d h =
      let q = del_slave-ports other b d in
      let r = run-ports cs (del_slave other b) b' q.0 h in
      (r.0, λ name. r.1 name ∙ ap (slave_at name cs) (q.1 name))
  run-ports (receives now up m ∷ cs) b b' d h = elim (Option-cases (input hw now up m b)) [
    | inl o ↦ absurd (ground (arith, o, h))
    | inr ((b1, sends), o) ↦
        let e = input-ports now up m b b1 sends o in
        let r = run-ports cs b1 b' (subst Distinct (sym e) d) (ground (arith, o, h)) in
        (r.0, λ name. r.1 name ∙ ap (λ ps. slave_at name cs (lookup name ps)) e)
  ]
  run-ports (ticks now ∷ cs) b b' d h =
      let e = expire-ports now b in
      let r = run-ports cs (expire now b) b' (subst Distinct (sym e) d) h in
      (r.0, λ name. r.1 name ∙ ap (λ ps. slave_at name cs (lookup name ps)) e)

  -- On a new bridge.
  pub run-new-ports :
      (cs : List Call) (b : VirtualBridge)
      → run cs new ≡ some b
      → Distinct b.ports × ((name : String) → lookup name b.ports ≡ slave_at name cs none)
  unfolding new lookup
  run-new-ports cs b h = run-ports cs new b tt h
