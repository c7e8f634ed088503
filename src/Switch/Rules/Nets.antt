-- ===== src/Switch/Rules/Nets.antt =====
-- pkg/olsw/switch.go: the networks in preAllow and preNets, and what Initialize does to the firewall.
use openlan.Base.{Option, none, some, List, [], ◌∷◌, ◌++◌, String, string_eq, if◌then◌else◌}
use openlan.Firewall.{FireWall, initialize}
use openlan.Switch.Rules.{
  Breed, Bridge, Conf, Network, OpenVpn, PrefixRoute, Texts, VpnConf, enable_acl, enable_fwd,
  enable_masq, enable_mss, enable_port, enable_snat, pre_acl, pre_net_vpn0, pre_net_vpn1, vpn, next,
  last,
}

module _ (t : Texts) where
  abbrev pub get_port : String → String
  get_port listen = let r = t.split2 listen ":" in elim r.1 [ none ↦ "" | some port ↦ port ]

  -- The loop on the routes of the network in preWorkerVPN.
  unfoldable pub pushed : List PrefixRoute → VpnConf → VpnConf
  pushed [] v = v
  pushed (rt ∷ rts) v =
      if string_eq.beq rt.prefix "0.0.0.0/0"
      then pushed rts (record v { push = v.push ++ ("redirect-gateway def1" ∷ []) })
      else elim (t.parse_cidr rt.prefix) [
        | none ↦ pushed rts v
        | some inet ↦ pushed rts (record v { routes = v.routes ++ (inet ∷ []) })
      ]

  -- preWorkerVPN on one configuration: its routes are set at the end.
  unfoldable pub pre_vpn : String → List PrefixRoute → VpnConf → VpnConf
  pre_vpn subnet rts v =
      let own = v.routes ++ (v.subnet ∷ []) in
      let with_subnet = if string_eq.beq subnet "" then own else own ++ (subnet ∷ []) in
      pushed rts (record v { routes = with_subnet })

  unfoldable mutual
    pub pre_worker_vpn : String → List PrefixRoute → OpenVpn → OpenVpn
    pre_worker_vpn subnet rts (vpn v b) = vpn (pre_vpn subnet rts v) (breed_vpn subnet rts b)

    pub breed_vpn : String → List PrefixRoute → Breed → Breed
    breed_vpn subnet rts last = last
    breed_vpn subnet rts (next o b) = next (pre_worker_vpn subnet rts o) (breed_vpn subnet rts b)

  module _ {K : Type 0} where
    unfoldable mutual
      pub pre_allow_vpn : OpenVpn → FireWall K → FireWall K
      pre_allow_vpn (vpn v b) f = allow_breed b (
          enable_port (if string_eq.beq v.protocol "udp" then "udp" else "tcp") (get_port v.listen)
            f)

      pub allow_breed : Breed → FireWall K → FireWall K
      allow_breed last f = f
      allow_breed (next o b) f = allow_breed b (pre_allow_vpn o f)

    -- The loop on the networks in preAllow.
    unfoldable pub allow_nets : List Network → FireWall K → FireWall K
    allow_nets [] f = f
    allow_nets (n ∷ ns) f =
        allow_nets ns (elim n.open_vpn [ none ↦ f | some o ↦ pre_allow_vpn o f ])

    unfoldable pub pre_allow : Conf → FireWall K → FireWall K
    pre_allow c f =
        let port = get_port c.listen in
        let http : List String = elim c.http_listen [ none ↦ [] | some h ↦ get_port h ∷ [] ] in
        let udp = t.join ("4500" ∷ "4600" ∷ "8472" ∷ "4789" ∷ port ∷ []) "," in
        let tcp = t.join ("7471" ∷ port ∷ http) "," in
        allow_nets c.networks (enable_port "tcp" tcp (enable_port "udp" udp f))

    -- preNets on one route, once the address of the bridge is known.
    unfoldable pub pre_route :
        Bridge → String → String → Option OpenVpn → PrefixRoute → FireWall K → FireWall K
    pre_route br subnet if_addr o rt f =
        let over : FireWall K = elim o [ none ↦ f | some v ↦ pre_net_vpn1 br.name rt.prefix v f ] in
        let fwd = enable_fwd br.name "" subnet rt.prefix over in
        if string_eq.beq rt.next_hop if_addr
        then (if rt.has_multi_path
            then enable_snat if_addr rt.prefix fwd
            else if string_eq.beq rt.mode "snat"
            then enable_masq subnet rt.prefix fwd
            else fwd)
        else over

    unfoldable pub pre_routes :
        Bridge → String → String → Option OpenVpn → List PrefixRoute → FireWall K → FireWall K
    pre_routes br subnet if_addr o [] f = f
    pre_routes br subnet if_addr o (rt ∷ rts) f =
        pre_routes br subnet if_addr o rts (pre_route br subnet if_addr o rt f)

    -- The end of preNets on one network, if the bridge has an address.
    unfoldable pub pre_ways :
        (Network → String) → Network → Bridge → Option OpenVpn → FireWall K → FireWall K
    pre_ways get_subnet n br o f =
        let if_addr = (t.split2 br.address "/").0 in
        if string_eq.beq if_addr "" then f else pre_routes br (get_subnet n) if_addr o n.routes f

    -- preNets with an OpenVPN server or without: preWorkerVPN has set the routes before.
    unfoldable pub pre_server :
        (Network → String) → Network → Bridge → Option OpenVpn → FireWall K → FireWall K
    pre_server get_subnet n br none f = pre_ways get_subnet n br none f
    pre_server get_subnet n br (some v) f =
        let o = pre_worker_vpn (get_subnet n) n.routes v in
        pre_ways get_subnet n br (some o) (pre_net_vpn0 n.acl o f)

    -- preNets on one network that has a bridge.
    unfoldable pub pre_bridge : (Network → String) → Network → Bridge → FireWall K → FireWall K
    pre_bridge get_subnet n br f =
        pre_server get_subnet n br n.open_vpn
          (enable_fwd br.name br.name "" "" (enable_acl n.acl br.name (enable_mss br f)))

    -- preNets on one network
    unfoldable pub pre_net : (Network → String) → Network → Option Bridge → FireWall K → FireWall K
    pre_net get_subnet n none f = f
    pre_net get_subnet n (some br) f = pre_bridge get_subnet n br f

    unfoldable pub pre_nets : (Network → String) → List Network → FireWall K → FireWall K
    pre_nets get_subnet [] f = f
    pre_nets get_subnet (n ∷ ns) f = pre_nets get_subnet ns (pre_net get_subnet n n.bridge f)

    -- What Switch.Initialize does to the firewall.
    unfoldable pub init_rules : (Network → String) → Conf → FireWall K → FireWall K
    init_rules get_subnet c f =
        initialize (pre_nets get_subnet c.networks (pre_allow c (pre_acl c.acls f)))
