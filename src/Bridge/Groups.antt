-- ===== src/Bridge/Groups.antt =====
-- Group addresses, whose first byte is odd: they are never learnt, so what is sent to one is flooded.
use openlan.Base.{
  ℕ, ◌+◌, ◌%◌, ◌≤◌, ◌≡◌, refl, Bool, Option, none, some, List, [], ◌∷◌, ◌++◌, String, string_eq,
  arith, length, get_or, Option-cases, inl, inr, take, drop, length-take, length-drop, length-map,
  map, ◌∙◌, ap, sym,
}
use mathlib.Core.Path.{subst}
use openlan.Base.Assoc.{lookup, Distinct}
use openlan.Bridge.{
  HwText, MacFdb, Taper, Framer, VirtualBridge, Sends, new, eth2str, learn_mac, learn, forward,
  input, flood, expire, u64, unicast_to, add_slave, del_slave,
}
use openlan.Bridge.Table.{lookup-learn_mac, lookup-expire, learn_mac-Distinct, expire-Distinct}
use openlan.Bridge.Forwarding.{forward_unknown}
use openlan.Bridge.Slaves.{
  Call, joins, leaves, receives, ticks, run, slave_at, others, outs-others, run-new-ports,
}

macs_kept :
    (name : String) (tap : Taper) (b : VirtualBridge)
    → ((add_slave name tap b).macs ≡ b.macs) × ((del_slave name b).macs ≡ b.macs)
unfolding add_slave del_slave
macs_kept name tap b = (refl, ground arith)

map_ports :
    (bytes : List ℕ) (ps : List (String × Taper))
    → map {B = Taper × List ℕ} (λ port. (port, bytes)) (map (λ p. p.1) ps)
      ≡ map {B = Taper × List ℕ} (λ p. (p.1, bytes)) ps
map_ports bytes [] = refl
map_ports bytes (p ∷ ps) = ap (◌∷◌ (p.1, bytes)) (map_ports bytes ps)

module _ (hw : HwText) where
  -- Every entry is under its own address, which is six bytes and no group's.
  abbrev Single : VirtualBridge → Type 0
  Single b =
      Distinct b.macs
      × ((k : String) (l : MacFdb)
          → lookup k b.macs ≡ some l
          → (hw.print l.address ≡ k) × (length l.address ≡ 6) × (get_or l.address 0 0 % 2 ≡ 0))

  learn_mac-Single :
      (now : ℕ) (tap : Taper) (mac : List ℕ) (b : VirtualBridge)
      → length mac ≡ 6
      → Single b
      → Single (learn_mac hw now tap mac b)
  unfolding eth2str
  learn_mac-Single now tap mac b len (d, s) = (
    learn_mac-Distinct hw now tap mac b d,
    λ k l e. elim (Option-cases (lookup (eth2str hw mac) b.macs)) [
      | inl o ↦ ground (
        arith,
        o,
        e,
        lookup-learn_mac hw k now tap mac b,
        s k l,
        string_eq.beq_iff (eth2str hw mac) k,
      )
      | inr (l0, o) ↦ ground (
        arith,
        o,
        e,
        lookup-learn_mac hw k now tap mac b,
        s k l,
        s (eth2str hw mac) l0 o,
        string_eq.beq_iff (eth2str hw mac) k,
      )
    ],
  )

  expire-Single : (now : ℕ) (b : VirtualBridge) → Single b → Single (expire now b)
  expire-Single now b (d, s) = (
    expire-Distinct now b d,
    λ k l e. elim (Option-cases (lookup k b.macs)) [
      | inl o ↦ ground (arith, o, e, lookup-expire k now b d)
      | inr (l0, o) ↦ ground (arith, o, e, lookup-expire k now b d, s k l0 o)
    ],
  )

  -- A frame that goes to a group's address finds no entry.
  lookup-group :
      (b : VirtualBridge) (dest : List ℕ)
      → Single b
      → length dest ≡ 6
      → get_or dest 0 0 % 2 ≡ 1
      → lookup (eth2str hw dest) b.macs ≡ none
  unfolding eth2str
  lookup-group b dest (d, s) len group = elim (Option-cases (lookup (eth2str hw dest) b.macs)) [
    | inl o ↦ o
    | inr (l, o) ↦
        let f = s (eth2str hw dest) l o in
        let same : l.address ≡ dest =
          hw.print_injective l.address dest f.1 len (ground (arith, f.0)) in
        absurd (ground (arith, f.2, group, ap (λ a. get_or a 0 0) same))
  ]

  forward-macs :
      (up : Taper → Bool) (m : Framer) (b b' : VirtualBridge) (sends : Sends)
      → forward hw up m b ≡ some (b', sends)
      → b.macs ≡ b'.macs
  unfolding forward unicast_to flood
  forward-macs up m b b' sends h = ground arith

  kept : (b b' : VirtualBridge) → b.macs ≡ b'.macs → Single b → Single b'
  kept b b' e s =
      subst
        (λ (ms : List (String × MacFdb)).
          Distinct ms
          × ((k : String) (l : MacFdb)
              → lookup k ms ≡ some l
              → (hw.print l.address ≡ k) × (length l.address ≡ 6) × (get_or l.address 0 0 % 2 ≡ 0)))
        e s

  input-Single :
      (now : ℕ) (up : Taper → Bool) (m : Framer) (b b' : VirtualBridge) (sends : Sends)
      → Single b
      → input hw now up m b ≡ some (b', sends)
      → Single b'
  unfolding input learn
  input-Single now up m b b' sends s h =
      let mac = take 6 (drop 6 (m.bytes ++ m.spare)) in
      let b0 = record b { sts = record b.sts { recv = u64 (b.sts.recv + 1) } } in
      let b1 = learn_mac hw now m.source mac b0 in
      let r : (6 + 6 ≤ length (m.bytes ++ m.spare)) × (forward hw up m b1 ≡ some (b', sends)) =
        ground (arith, h) in
      let len : length mac ≡ 6 = ground (
        arith,
        length-take 6 (drop 6 (m.bytes ++ m.spare)),
        length-drop 6 (m.bytes ++ m.spare),
        r.0,
      ) in
      kept b1 b' (forward-macs up m b1 b' sends r.1) (learn_mac-Single now m.source mac b0 len s)

  run-Single :
      (cs : List Call) (b b' : VirtualBridge) → Single b → run hw cs b ≡ some b' → Single b'
  unfolding run
  run-Single [] b b' s h = let e : b ≡ b' = ground (arith, h) in subst Single e s
  run-Single (joins name tap ∷ cs) b b' s h =
      run-Single cs (add_slave name tap b) b'
        (kept b (add_slave name tap b) (sym (macs_kept name tap b).0) s) h
  run-Single (leaves name ∷ cs) b b' s h =
      run-Single cs (del_slave name b) b' (kept b (del_slave name b) (sym (macs_kept name 0 b).1) s)
        h
  run-Single (receives now up m ∷ cs) b b' s h = elim (Option-cases (input hw now up m b)) [
    | inl o ↦ absurd (ground (arith, o, h))
    | inr ((b1, sends), o) ↦
        run-Single cs b1 b' (input-Single now up m b b1 sends s o) (ground (arith, o, h))
  ]
  run-Single (ticks now ∷ cs) b b' s h = run-Single cs (expire now b) b' (expire-Single now b s) h

  new-Single : Single new
  unfolding new lookup
  new-Single = (tt, λ k l e. absurd (ground (arith, e)))

  group_take : (xs : List ℕ) → get_or xs 0 0 % 2 ≡ 1 → get_or (take 6 xs) 0 0 % 2 ≡ 1
  group_take [] h = h
  group_take (x ∷ xs) h = h

  -- Whatever taps joined and left, and whatever frames and ticks came, on a new bridge, a frame of 6
  -- bytes or more, with what lies behind it, to a group's address, whose first byte is odd, is sent as
  -- it is to the tap of every port but the one that it came from, once for each and in the order of
  -- the ports; nothing else changes but the count of frames sent. The ports are those of the history:
  -- under each name the tap that joined last, unless the name has left since.
  pub run-new-flood :
      (cs : List Call) (up : Taper → Bool) (m : Framer) (b : VirtualBridge)
      → run hw cs new ≡ some b
      → 6 ≤ length (m.bytes ++ m.spare)
      → get_or (m.bytes ++ m.spare) 0 0 % 2 ≡ 1
      → (forward hw up m b
          ≡ some (
            record b {
              sts = record b.sts { send = u64 (b.sts.send + length (others m.source b.ports)) };
            },
            map (λ port. (port.1, m.bytes)) (others m.source b.ports),
          ))
        × Distinct b.ports
        × ((name : String) → lookup name b.ports ≡ slave_at name cs none)
  run-new-flood cs up m b h len group =
      let all = m.bytes ++ m.spare in
      let s : Single b = run-Single cs new b new-Single h in
      let n6 : length (take 6 all) ≡ 6 = ground (arith, length-take 6 all, len) in
      let unknown = lookup-group b (take 6 all) s n6 (group_take all group) in
      let taps = others m.source b.ports in
      let (d, at) = run-new-ports hw cs b h in
      let result : ℕ → Sends → Option (VirtualBridge × Sends) =
        λ n sends. some (record b { sts = record b.sts { send = u64 (b.sts.send + n) } }, sends) in
      (
        forward_unknown hw up m b len unknown
            ∙ (ap (λ ports. result (length ports) (map (λ port. (port, m.bytes)) ports))
                  (outs-others m.source b.ports)
                ∙ ap (λ n. result n (map (λ port. (port, m.bytes)) (map (λ p. p.1) taps)))
                    (length-map taps (λ p. p.1))
                ∙ ap (result (length taps)) (map_ports m.bytes taps)),
        d,
        at,
      )
