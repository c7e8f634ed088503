-- ===== src/Switch/Rules/Steps.antt =====
-- Each step of Initialize keeps the rules in chains that are there, or that it adds at its end.
use openlan.Base.{
  ◌≡◌, refl, sym, ap, ◌∙◌, inl, inr, Bool, true, false, ◌||◌, Option, none, some, List, [], ◌∷◌,
  ◌++◌, String, string_eq, map, arith, Bool-cases, Option-cases,
}
use openlan.Firewall.{FireWall, IpChain, IpRule, add_chain, add_rule, hooks, chain_of}
use openlan.Switch.Rules.{
  Acl, AclRule, Breed, Bridge, Conf, Network, OpenVpn, PrefixRoute, Texts, acl_rules, pre_acl,
  pre_acl_one, vpn, next, last,
}
use openlan.Switch.Rules.Nets.{
  pre_allow, pre_nets, pre_allow_vpn, allow_breed, allow_nets, pre_route, pre_routes, pre_ways,
  pre_server, pre_bridge, pre_net,
}
use openlan.Switch.Rules.Chains.{
  Soon, fits, is_builtin, later, has_chain, has_chain-append, All-map, add_rule-Soon,
  enable_fwd-Soon, enable_port-Soon, enable_masq-Soon, enable_snat-Soon, enable_acl-Soon,
  enable_mss-Soon, pre_net_vpn0-Soon, pre_net_vpn1-Soon,
}

or_grows : (a b c d : Bool) → a || (b || d) ≡ true → a || ((b || c) || d) ≡ true
or_grows true b c d h = refl
or_grows false true c d h = refl
or_grows false false true d h = refl
or_grows false false false d h = h

has_chain-later :
    (t n : String) (cs : List IpChain)
    → has_chain t n (later cs) ≡ has_chain t n cs || has_chain t n (map chain_of hooks)
has_chain-later t n cs = has_chain-append t n cs (map chain_of hooks)

fits_grows :
    (cs : List IpChain) (c : IpChain) (r : IpRule)
    → fits (later cs) r ≡ true
    → fits (later (cs ++ (c ∷ []))) r ≡ true
fits_grows cs c r h =
    ap (λ x. is_builtin r.chain || x) (has_chain-later r.table r.chain (cs ++ (c ∷ [])))
    ∙ (ap (λ x. is_builtin r.chain || (x || has_chain r.table r.chain (map chain_of hooks)))
          (has_chain-append r.table r.chain cs (c ∷ []))
        ∙ or_grows (is_builtin r.chain) (has_chain r.table r.chain cs)
            (has_chain r.table r.chain (c ∷ [])) (has_chain r.table r.chain (map chain_of hooks))
            (ap (λ x. is_builtin r.chain || x) (sym (has_chain-later r.table r.chain cs)) ∙ h))

module _ {K : Type 0} where
  add_chain-Soon : (c : IpChain) (f : FireWall K) → Soon f → Soon (add_chain c f)
  unfolding add_chain
  add_chain-Soon c f h =
      All-map (λ q. fits (later f.chains) q ≡ true) f.rules (λ r. fits_grows f.chains c r) h

  -- The chain of an access list is there while its rules are added.
  acl_rules-Soon :
      (name : String) (rs : List AclRule) (f : FireWall K)
      → has_chain "raw" name f.chains ≡ true
      → Soon f
      → Soon (acl_rules name rs f)
  unfolding acl_rules add_rule
  acl_rules-Soon name [] f c h = h
  acl_rules-Soon name (r ∷ rs) f c h = acl_rules-Soon name rs _ c (
      add_rule-Soon _ f
        (ground (arith, c, has_chain-append "raw" name f.chains (map chain_of hooks))) h)

  there :
      (name : String) (f : FireWall K)
      → has_chain "raw" name (add_chain (record { table = "raw"; name = name }) f).chains ≡ true
  unfolding add_chain
  there name f =
      let found =
        has_chain-append "raw" name f.chains (record { table = "raw"; name = name } ∷ []) in
      ground (arith, found, (string_eq.beq_iff name name).1 refl)

  pre_acl_one-Soon : (a : Acl) (f : FireWall K) → Soon f → Soon (pre_acl_one a f)
  unfolding pre_acl_one
  pre_acl_one-Soon a f h = elim (Bool-cases (string_eq.beq a.name "")) [
    | inl e ↦ rw e h
    | inr e ↦ rw e (acl_rules-Soon a.name a.rules _ (there a.name f) (add_chain-Soon _ f h))
  ]

  pub pre_acl-Soon : (acls : List Acl) (f : FireWall K) → Soon f → Soon (pre_acl acls f)
  unfolding pre_acl
  pre_acl-Soon [] f h = h
  pre_acl-Soon (a ∷ rest) f h = pre_acl-Soon rest _ (pre_acl_one-Soon a f h)

mutual
  unfolding pre_allow_vpn allow_breed

  pre_allow_vpn-Soon :
      {K : Type 0} (t : Texts) (o : OpenVpn) (f : FireWall K) → Soon f → Soon (pre_allow_vpn t o f)
  pre_allow_vpn-Soon t (vpn v b) f h = allow_breed-Soon t b _ (enable_port-Soon _ _ f h)

  allow_breed-Soon :
      {K : Type 0} (t : Texts) (b : Breed) (f : FireWall K) → Soon f → Soon (allow_breed t b f)
  allow_breed-Soon t last f h = h
  allow_breed-Soon t (next o b) f h = allow_breed-Soon t b _ (pre_allow_vpn-Soon t o f h)

module _ {K : Type 0} (t : Texts) where
  allow_nets-Soon : (ns : List Network) (f : FireWall K) → Soon f → Soon (allow_nets t ns f)
  unfolding allow_nets
  allow_nets-Soon [] f h = h
  allow_nets-Soon (n ∷ ns) f h = elim (Option-cases n.open_vpn) [
    | inl e ↦ rw e (allow_nets-Soon ns f h)
    | inr (o, e) ↦ rw e (allow_nets-Soon ns _ (pre_allow_vpn-Soon t o f h))
  ]

  pub pre_allow-Soon : (c : Conf) (f : FireWall K) → Soon f → Soon (pre_allow t c f)
  unfolding pre_allow
  pre_allow-Soon c f h =
      allow_nets-Soon c.networks _ (enable_port-Soon _ _ _ (enable_port-Soon _ _ f h))

  -- A route, once the OpenVPN server has been dealt with.
  routed-Soon :
      (br : Bridge) (subnet if_addr : String) (rt : PrefixRoute) (f : FireWall K)
      → Soon f
      → Soon (pre_route t br subnet if_addr none rt f)
  unfolding pre_route
  routed-Soon br subnet if_addr rt f h =
      let fwd = enable_fwd-Soon br.name "" subnet rt.prefix f h in
      elim (Bool-cases (string_eq.beq rt.next_hop if_addr)) [
        | inl e ↦ elim (Bool-cases rt.has_multi_path) [
          | inl m ↦ rw (e, m) (enable_snat-Soon if_addr rt.prefix _ fwd)
          | inr m ↦ elim (Bool-cases (string_eq.beq rt.mode "snat")) [
            | inl s ↦ rw (e, m, s) (enable_masq-Soon subnet rt.prefix _ fwd)
            | inr s ↦ rw (e, m, s) fwd
          ]
        ]
        | inr e ↦ rw e h
      ]

  pre_route-Soon :
      (br : Bridge) (subnet if_addr : String) (o : Option OpenVpn) (rt : PrefixRoute)
      (f : FireWall K)
      → Soon f
      → Soon (pre_route t br subnet if_addr o rt f)
  unfolding pre_route
  pre_route-Soon br subnet if_addr none rt f h = routed-Soon br subnet if_addr rt f h
  pre_route-Soon br subnet if_addr (some v) rt f h =
      routed-Soon br subnet if_addr rt _ (pre_net_vpn1-Soon br.name rt.prefix v f h)

  pre_routes-Soon :
      (br : Bridge) (subnet if_addr : String) (o : Option OpenVpn) (rts : List PrefixRoute)
      (f : FireWall K)
      → Soon f
      → Soon (pre_routes t br subnet if_addr o rts f)
  unfolding pre_routes
  pre_routes-Soon br subnet if_addr o [] f h = h
  pre_routes-Soon br subnet if_addr o (rt ∷ rts) f h =
      pre_routes-Soon br subnet if_addr o rts _ (pre_route-Soon br subnet if_addr o rt f h)

  bridged-Soon :
      (get_subnet : Network → String) (n : Network) (br : Bridge) (o : Option OpenVpn)
      (f : FireWall K)
      → Soon f
      → Soon (pre_ways t get_subnet n br o f)
  unfolding pre_ways
  bridged-Soon get_subnet n br o f h =
      elim (Bool-cases (string_eq.beq (t.split2 br.address "/").0 "")) [
        | inl e ↦ rw e h
        | inr e ↦ rw e (pre_routes-Soon br _ _ o n.routes f h)
      ]

  pre_server-Soon :
      (get_subnet : Network → String) (n : Network) (br : Bridge) (o : Option OpenVpn)
      (f : FireWall K)
      → Soon f
      → Soon (pre_server t get_subnet n br o f)
  unfolding pre_server
  pre_server-Soon get_subnet n br none f h = bridged-Soon get_subnet n br none f h
  pre_server-Soon get_subnet n br (some v) f h =
      bridged-Soon get_subnet n br _ _ (pre_net_vpn0-Soon n.acl _ f h)

  pre_bridge-Soon :
      (get_subnet : Network → String) (n : Network) (br : Bridge) (f : FireWall K)
      → Soon f
      → Soon (pre_bridge t get_subnet n br f)
  unfolding pre_bridge
  pre_bridge-Soon get_subnet n br f h = pre_server-Soon get_subnet n br n.open_vpn _ (
      enable_fwd-Soon br.name br.name "" "" _
        (enable_acl-Soon n.acl br.name _ (enable_mss-Soon br f h)))

  pre_net-Soon :
      (get_subnet : Network → String) (n : Network) (br : Option Bridge) (f : FireWall K)
      → Soon f
      → Soon (pre_net t get_subnet n br f)
  unfolding pre_net
  pre_net-Soon get_subnet n none f h = h
  pre_net-Soon get_subnet n (some br) f h = pre_bridge-Soon get_subnet n br f h

  pub pre_nets-Soon :
      (get_subnet : Network → String) (ns : List Network) (f : FireWall K)
      → Soon f
      → Soon (pre_nets t get_subnet ns f)
  unfolding pre_nets
  pre_nets-Soon get_subnet [] f h = h
  pre_nets-Soon get_subnet (n ∷ ns) f h =
      pre_nets-Soon get_subnet ns _ (pre_net-Soon get_subnet n n.bridge f h)
