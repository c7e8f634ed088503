-- ===== src/Examples/Firewalls.antt =====
-- The theorem on the rules of the firewall at a concrete state.
use openlan.Base.{◌⊎◌, string_eq, if◌then◌else◌, ◌≡◌, refl, ℕ, suc, false, none, some, [], ◌∷◌}
use openlan.Firewall.{
  FireWall, IpRule, IpTables, Printer, args, flag_args, jump_args, jump_of, rule_opr, revoke_rule,
}
use openlan.Switch.Rules.{Acl, Conf, Network, Texts, VpnConf, last, next, vpn}
use openlan.Switch.Rules.Nets.{init_rules}
use openlan.Switch.Rules.Chains.{Placed}
use openlan.Switch.Rules.Placed.{init_rules-Placed}
use openlan.Firewall.Revoke.{IsOnly, revoke_rule-IsOnly}

abbrev printer : Printer
printer = record { itoa = λ n. "1360"; to_upper = λ s. s }

-- Iptables that counts its calls and never fails.
abbrev tables : IpTables ℕ
tables = record {
  exists = λ a b c k. false;
  raw = λ a k. (suc k, false);
  exist_chain = λ a b k. false;
  new_chain = λ a b k. (suc k, false);
  remove_chain = λ a b k. (suc k, false);
}

abbrev to_in : IpRule
to_in = jump_of (record { table = "filter"; chain = "INPUT"; to = "OPENLAN-IN" })

abbrev to_out : IpRule
to_out = jump_of (record { table = "filter"; chain = "OUTPUT"; to = "OPENLAN-OUT" })

abbrev wall : FireWall ℕ
wall = record { chains = []; rules = to_in ∷ to_out ∷ []; kernel = 2 }

deletes : rule_opr printer tables "-D" to_out wall.kernel ≡ some (3, false)
unfolding rule_opr args flag_args jump_args
deletes = refl

revoke_rule-IsOnly_example :
    (IsOnly to_out wall.rules
      × (revoke_rule printer tables to_out wall
          ≡ some (record wall { kernel = 3; rules = [] }, false)))
    ⊎ ((¬ IsOnly to_out wall.rules) × (revoke_rule printer tables to_out wall ≡ none))
revoke_rule-IsOnly_example = revoke_rule-IsOnly printer tables to_out wall 3 deletes

abbrev server : VpnConf
server = record {
  listen = "0.0.0.0:1194";
  protocol = "udp";
  subnet = "172.16.0.0/24";
  device = "tun0";
  routes = [];
  push = [];
}

abbrev office : Network
office = record {
  name = "office";
  bridge = some (record { name = "br-office"; address = "10.0.0.1/24"; mss = 1360 });
  open_vpn = some (vpn server (next (vpn (record server { protocol = "tcp" }) last) last));
  routes =
      record {
        prefix = "10.1.0.0/24";
        next_hop = "10.0.0.1";
        has_multi_path = false;
        mode = "snat";
      }
      ∷ record { prefix = "10.2.0.0/24"; next_hop = "10.0.0.9"; has_multi_path = false; mode = "" }
      ∷ [];
  acl = "guests";
}

abbrev guests : Acl
guests = record {
  name = "guests";
  rules =
      record {
        src_ip = "10.0.0.7";
        dst_ip = "";
        proto = "tcp";
        src_port = "";
        dst_port = "22";
        action = "DROP";
      }
      ∷ [];
}

abbrev conf : Conf
conf = record {
  listen = "0.0.0.0:10002";
  http_listen = none;
  networks = office ∷ [];
  acls = guests ∷ [];
}

abbrev texts : Texts
texts = record {
  split2 =
      λ s sep. if string_eq.beq sep "/" then ("10.0.0.1", some "24") else ("0.0.0.0", some "10002");
  parse_cidr = λ s. some s;
  join = λ xs sep. "4500,10002";
}

init_rules-Placed_example : Placed (init_rules texts (λ n. "10.0.0.0/24") conf wall)
init_rules-Placed_example =
    init_rules-Placed texts (λ n. "10.0.0.0/24") conf wall (refl, (refl, tt))
