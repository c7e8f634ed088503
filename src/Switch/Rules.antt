-- ===== src/Switch/Rules.antt =====
-- pkg/olsw/switch.go, the rules that a switch gives its firewall before it starts: preAcl, preAllow and
-- preNets with what they call. A string that strings.SplitN cuts in two, the network that
-- net.ParseCIDR finds and strings.Join are parameters. GetSubnet of a worker, an interface that each
-- kind of network implements, is a parameter too. The table of workers is left out.
pub mod Nets
pub mod Chains
pub mod Steps
pub mod Placed
use openlan.Base.{
  ℕ, Bool, true, false, not, ◌&&◌, ◌||◌, Option, none, some, List, [], ◌∷◌, ◌++◌, String, string_eq,
  if◌then◌else◌, ltb,
}
use openlan.Firewall.{FireWall, IpChain, IpRule, add_chain, add_rule, initialize}

pub record Texts : Type 0 where
  pub split2 : String → String → String × Option String
  pub parse_cidr : String → Option String
  pub join : List String → String → String

pub record AclRule : Type 0 where
  pub src_ip : String
  pub dst_ip : String
  pub proto : String
  pub src_port : String
  pub dst_port : String
  pub action : String

pub record Acl : Type 0 where
  pub name : String
  pub rules : List AclRule

pub record VpnConf : Type 0 where
  pub listen : String
  pub protocol : String
  pub subnet : String
  pub device : String
  pub routes : List String
  pub push : List String

mutual
  -- OpenVPN, with its Breed.
  pub data OpenVpn : Type 0 where
    vpn : VpnConf → Breed → OpenVpn

  pub data Breed : Type 0 where
    last : Breed
    next : OpenVpn → Breed → Breed

pub record PrefixRoute : Type 0 where
  pub prefix : String
  pub next_hop : String
  pub has_multi_path : Bool
  pub mode : String

pub record Bridge : Type 0 where
  pub name : String
  pub address : String
  pub mss : ℕ

pub record Network : Type 0 where
  pub name : String
  pub bridge : Option Bridge
  pub open_vpn : Option OpenVpn
  pub routes : List PrefixRoute
  pub acl : String

-- The configuration of the switch.
pub record Conf : Type 0 where
  pub listen : String
  pub http_listen : Option String
  pub networks : List Network
  pub acls : List Acl

-- A rule of which nothing is set but its place.
abbrev pub rule_at : String → String → IpRule
rule_at table chain = record {
  table = table;
  chain = chain;
  source = "";
  to_source = "";
  dest = "";
  to_dest = "";
  proto = "";
  dst_port = "";
  src_port = "";
  input = "";
  output = "";
  comment = "";
  jump = "";
  set_mss = 0;
  order = "";
  match = "";
  tcp_flag = [];
}

module _ {K : Type 0} where
  unfoldable pub enable_port : String → String → FireWall K → FireWall K
  enable_port protocol port f =
      add_rule
        (record (rule_at "filter" "OPENLAN-IN") {
          proto = protocol;
          match = "multiport";
          dst_port = port;
        })
        f

  unfoldable pub enable_fwd : String → String → String → String → FireWall K → FireWall K
  enable_fwd inp out source prefix f =
      let there =
        add_rule
          (record (rule_at "filter" "OPENLAN-FWD") {
            input = inp;
            output = out;
            source = source;
            dest = prefix;
          })
          f in
      if string_eq.beq source prefix
      then there
      else add_rule
          (record (rule_at "filter" "OPENLAN-FWD") {
            output = inp;
            input = out;
            source = prefix;
            dest = source;
          })
          there

  unfoldable pub enable_masq : String → String → FireWall K → FireWall K
  enable_masq source prefix f =
      if string_eq.beq source prefix
      then f
      else add_rule
          (record (rule_at "nat" "OPENLAN-POST") {
            source = source;
            dest = prefix;
            jump = "MASQUERADE";
          })
          f

  unfoldable pub enable_snat : String → String → FireWall K → FireWall K
  enable_snat source prefix f =
      if string_eq.beq source prefix
      then f
      else add_rule
          (record (rule_at "nat" "OPENLAN-POST") {
            to_source = source;
            dest = prefix;
            jump = "SNAT";
          })
          f

  unfoldable pub enable_acl : String → String → FireWall K → FireWall K
  enable_acl acl inp f =
      if string_eq.beq inp "" || string_eq.beq acl ""
      then f
      else add_rule (record (rule_at "raw" "OPENLAN-PRE") { input = inp; jump = acl }) f

  -- preWorker, the rule on the size of segments
  unfoldable pub enable_mss : Bridge → FireWall K → FireWall K
  enable_mss br f =
      if ltb 0 br.mss
      then add_rule
          (record (rule_at "mangle" "OPENLAN-POST") {
            output = br.name;
            proto = "tcp";
            match = "tcp";
            tcp_flag = "SYN,RST" ∷ "SYN" ∷ [];
            jump = "TCPMSS";
            set_mss = br.mss;
          })
          f
      else f

  -- preAcl: its inner loop, its body and the loop
  unfoldable pub acl_rules : String → List AclRule → FireWall K → FireWall K
  acl_rules name [] f = f
  acl_rules name (r ∷ rs) f = acl_rules name rs (
      add_rule
        (record (rule_at "raw" name) {
          source = r.src_ip;
          dest = r.dst_ip;
          proto = r.proto;
          src_port = r.src_port;
          dst_port = r.dst_port;
          jump = r.action;
        })
        f)

  unfoldable pub pre_acl_one : Acl → FireWall K → FireWall K
  pre_acl_one a f =
      if string_eq.beq a.name ""
      then f
      else acl_rules a.name a.rules (add_chain (record { table = "raw"; name = a.name }) f)

  unfoldable pub pre_acl : List Acl → FireWall K → FireWall K
  pre_acl [] f = f
  pre_acl (a ∷ rest) f = pre_acl rest (pre_acl_one a f)

  -- The loop on the routes in preNetVPN0.
  unfoldable pub vpn_routes : VpnConf → List String → FireWall K → FireWall K
  vpn_routes v [] f = f
  vpn_routes v (rt ∷ rts) f =
      vpn_routes v rts (enable_masq v.subnet rt (enable_fwd v.device "" v.subnet rt f))

  unfoldable mutual
    pub pre_net_vpn0 : String → OpenVpn → FireWall K → FireWall K
    pre_net_vpn0 acl (vpn v b) f =
        breed_vpn0 acl b (vpn_routes v v.routes (enable_acl acl v.device f))

    pub breed_vpn0 : String → Breed → FireWall K → FireWall K
    breed_vpn0 acl last f = f
    breed_vpn0 acl (next o b) f = breed_vpn0 acl b (pre_net_vpn0 acl o f)

  unfoldable mutual
    pub pre_net_vpn1 : String → String → OpenVpn → FireWall K → FireWall K
    pre_net_vpn1 bridge prefix (vpn v b) f =
        breed_vpn1 bridge prefix b
          (enable_masq v.subnet prefix (enable_fwd "" bridge v.subnet prefix f))

    pub breed_vpn1 : String → String → Breed → FireWall K → FireWall K
    breed_vpn1 bridge prefix last f = f
    breed_vpn1 bridge prefix (next o b) f =
        breed_vpn1 bridge prefix b (pre_net_vpn1 bridge prefix o f)
