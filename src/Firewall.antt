-- ===== src/Firewall.antt =====
-- pkg/network/firewall.go and iptables.go on Linux: the rules and chains that the switch keeps, and what
-- it asks iptables to do. The package iptables of libnetwork is a parameter on a state of its own;
-- strconv.Itoa and strings.ToUpper are parameters too. `none` is the panic of an index out of range.
-- SetMss is not negative here. The callback on a reload of firewalld, the locks and the log are left out.
pub mod Revoke
use openlan.Base.{
  ℕ, suc, Bool, true, false, not, ◌&&◌, ◌||◌, Option, none, some, List, [], ◌∷◌, ◌++◌, String,
  string_eq, if◌then◌else◌, ltb, map,
}
use openlan.Base.Slices.{◌>>=◌}

pub record IpRule : Type 0 where
  pub table : String
  pub chain : String
  pub source : String
  pub to_source : String
  pub dest : String
  pub to_dest : String
  pub proto : String
  pub dst_port : String
  pub src_port : String
  pub input : String
  pub output : String
  pub comment : String
  pub jump : String
  pub set_mss : ℕ
  pub order : String
  pub match : String
  pub tcp_flag : List String

pub record IpChain : Type 0 where
  pub table : String
  pub name : String

-- The flag of `raw`, `new_chain` and `remove_chain` tells an error.
pub record IpTables (K : Type 0) : Type 0 where
  pub exists : String → String → List String → K → Bool
  pub raw : List String → K → K × Bool
  pub exist_chain : String → String → K → Bool
  pub new_chain : String → String → K → K × Bool
  pub remove_chain : String → String → K → K × Bool

pub record Printer : Type 0 where
  pub itoa : ℕ → String
  pub to_upper : String → String

abbrev pub is_set : String → Bool
is_set s = not (string_eq.beq s "")

-- Two arguments, unless the value is empty.
abbrev pub option : String → String → List String
option flag value = if is_set value then flag ∷ value ∷ [] else []

unfoldable pub flag_args : List String → Option (List String)
flag_args [] = some []
flag_args (a ∷ []) = none
flag_args (a ∷ b ∷ rest) = some ("--tcp-flags" ∷ a ∷ b ∷ [])

unfoldable pub jump_args : Printer → IpRule → List String
jump_args p ru =
    if is_set ru.jump
    then (let jump = p.to_upper ru.jump in
        let target =
          if string_eq.beq jump "DROP" || string_eq.beq jump "ACCEPT" then jump else ru.jump in
        "-j" ∷ target ∷ (if ltb 0 ru.set_mss then "--set-mss" ∷ p.itoa ru.set_mss ∷ [] else []))
    else "-j" ∷ "ACCEPT" ∷ []

-- Args
unfoldable pub args : Printer → IpRule → Option (List String)
args p ru = flag_args ru.tcp_flag >>= λ flags. some (
    option "-s" ru.source
    ++ (option "-d" ru.dest
        ++ (option "-p" ru.proto
            ++ (option "-m" ru.match
                ++ (flags
                    ++ (option "--sport" ru.src_port
                        ++ (option
                              (if string_eq.beq ru.match "multiport" then "--dports" else "--dport")
                              ru.dst_port
                            ++ (option "-i" ru.input
                                ++ (option "-o" ru.output
                                    ++ (jump_args p ru
                                        ++ (option "--to-source" ru.to_source
                                            ++ option "--to-destination" ru.to_dest)))))))))))

-- Eq of rules
unfoldable pub eq : IpRule → IpRule → Bool
eq ru obj =
    string_eq.beq ru.table obj.table
    && string_eq.beq ru.chain obj.chain
    && string_eq.beq ru.input obj.input
    && string_eq.beq ru.source obj.source
    && string_eq.beq ru.to_source obj.to_source
    && string_eq.beq ru.dest obj.dest
    && string_eq.beq ru.to_dest obj.to_dest
    && string_eq.beq ru.proto obj.proto
    && string_eq.beq ru.src_port obj.src_port
    && string_eq.beq ru.dst_port obj.dst_port

-- The loop of Pop: `news` has length 0, so an item that is kept is written out of range.
unfoldable pub pop_loop : IpRule → Bool → List IpRule → Option (List IpRule)
pop_loop obj found [] = some []
pop_loop obj found (item ∷ rest) =
    let later = pop_loop obj true rest in if not found && eq item obj then later else none

unfoldable pub pop : IpRule → List IpRule → Option (List IpRule)
pop obj rules = pop_loop obj false rules

-- Of the switch's state: the rules, the chains, and the state of iptables.
pub record FireWall (K : Type 0) : Type 0 where
  pub chains : List IpChain
  pub rules : List IpRule
  pub kernel : K

-- FlowRule of the configuration, in the source's order of its fields.
pub record FlowRule : Type 0 where
  pub table : String
  pub chain : String
  pub input : String
  pub source : String
  pub to_source : String
  pub dest : String
  pub to_dest : String
  pub output : String
  pub comment : String
  pub proto : String
  pub match : String
  pub dst_port : String
  pub src_port : String
  pub jump : String

abbrev pub of_flow : FlowRule → IpRule
of_flow r = record {
  table = r.table;
  chain = r.chain;
  source = r.source;
  to_source = r.to_source;
  dest = r.dest;
  to_dest = r.to_dest;
  proto = r.proto;
  dst_port = r.dst_port;
  src_port = r.src_port;
  input = r.input;
  output = r.output;
  comment = r.comment;
  jump = r.jump;
  set_mss = 0;
  order = "";
  match = r.match;
  tcp_flag = [];
}

unfoldable pub new_fire_wall : {K : Type 0} → List FlowRule → K → FireWall K
new_fire_wall flows k = record { chains = []; rules = map of_flow flows; kernel = k }

-- A chain of iptables, and the chain of the switch that it jumps to.
pub record Hook : Type 0 where
  pub table : String
  pub chain : String
  pub to : String

abbrev pub hooks : List Hook
hooks =
    record { table = "filter"; chain = "INPUT"; to = "OPENLAN-IN" }
    ∷ record { table = "filter"; chain = "FORWARD"; to = "OPENLAN-FWD" }
    ∷ record { table = "filter"; chain = "OUTPUT"; to = "OPENLAN-OUT" }
    ∷ record { table = "nat"; chain = "PREROUTING"; to = "OPENLAN-PRE" }
    ∷ record { table = "nat"; chain = "INPUT"; to = "OPENLAN-IN" }
    ∷ record { table = "nat"; chain = "POSTROUTING"; to = "OPENLAN-POST" }
    ∷ record { table = "nat"; chain = "OUTPUT"; to = "OPENLAN-OUT" }
    ∷ record { table = "mangle"; chain = "PREROUTING"; to = "OPENLAN-PRE" }
    ∷ record { table = "mangle"; chain = "INPUT"; to = "OPENLAN-IN" }
    ∷ record { table = "mangle"; chain = "FORWARD"; to = "OPENLAN-FWD" }
    ∷ record { table = "mangle"; chain = "POSTROUTING"; to = "OPENLAN-POST" }
    ∷ record { table = "mangle"; chain = "OUTPUT"; to = "OPENLAN-OUT" }
    ∷ record { table = "raw"; chain = "PREROUTING"; to = "OPENLAN-PRE" }
    ∷ record { table = "raw"; chain = "OUTPUT"; to = "OPENLAN-OUT" }
    ∷ []

abbrev pub chain_of : Hook → IpChain
chain_of h = record { table = h.table; name = h.to }

abbrev pub jump_of : Hook → IpRule
jump_of h = record {
  table = h.table;
  chain = h.chain;
  source = "";
  to_source = "";
  dest = "";
  to_dest = "";
  proto = "";
  dst_port = "";
  src_port = "";
  input = "";
  output = "";
  comment = "";
  jump = h.to;
  set_mss = 0;
  order = "-I";
  match = "";
  tcp_flag = [];
}

module _ {K : Type 0} where
  unfoldable pub add_chain : IpChain → FireWall K → FireWall K
  add_chain c f = record f { chains = f.chains ++ (c ∷ []) }

  unfoldable pub add_rule : IpRule → FireWall K → FireWall K
  add_rule r f = record f { rules = f.rules ++ (r ∷ []) }

  -- addOLC and jumpOLC
  unfoldable pub add_olc : List Hook → FireWall K → FireWall K
  add_olc [] f = f
  add_olc (h ∷ hs) f = add_olc hs (add_chain (chain_of h) f)

  unfoldable pub jump_olc : List Hook → FireWall K → FireWall K
  jump_olc [] f = f
  jump_olc (h ∷ hs) f = jump_olc hs (add_rule (jump_of h) f)

  unfoldable pub initialize : FireWall K → FireWall K
  initialize f = jump_olc hooks (add_olc hooks f)

module _ {K : Type 0} (p : Printer) (t : IpTables K) where
  -- Opr of a rule: one that is there is not added again.
  unfoldable pub rule_opr : String → IpRule → K → Option (K × Bool)
  rule_opr opr ru k = args p ru >>= λ given.
      if (string_eq.beq opr "-I" || string_eq.beq opr "-A") && t.exists ru.table ru.chain given k
      then some (k, false)
      else some (t.raw ("-t" ∷ ru.table ∷ opr ∷ ru.chain ∷ given) k)

  -- Opr of a chain
  unfoldable pub chain_opr : String → IpChain → K → K × Bool
  chain_opr opr ch k =
      if string_eq.beq opr "-N"
      then if t.exist_chain ch.name ch.table k then (k, false) else t.new_chain ch.name ch.table k
      else if string_eq.beq opr "-X"
      then t.remove_chain ch.name ch.table k
      else (k, false)

  abbrev pub order_of : IpRule → String
  order_of r = if is_set r.order then r.order else "-A"

  unfoldable pub apply_rule : IpRule → FireWall K → Option (FireWall K × Bool)
  apply_rule rule f = rule_opr (order_of rule) rule f.kernel >>= λ r.
      if r.1
      then some (record f { kernel = r.0 }, true)
      else some (add_rule rule (record f { kernel = r.0 }), false)

  unfoldable pub revoke_rule : IpRule → FireWall K → Option (FireWall K × Bool)
  revoke_rule rule f = rule_opr "-D" rule f.kernel >>= λ r.
      if r.1
      then some (record f { kernel = r.0 }, true)
      else (pop rule f.rules >>= λ rules. some (record f { kernel = r.0; rules = rules }, false))

  -- The loops of install and uninstall.
  unfoldable pub chains_do : String → List IpChain → K → K
  chains_do opr [] k = k
  chains_do opr (c ∷ cs) k = chains_do opr cs (chain_opr opr c k).0

  unfoldable pub rules_install : List IpRule → K → Option K
  rules_install [] k = some k
  rules_install (r ∷ rs) k = rule_opr (order_of r) r k >>= λ x. rules_install rs x.0

  unfoldable pub rules_delete : List IpRule → K → Option K
  rules_delete [] k = some k
  rules_delete (r ∷ rs) k = rule_opr "-D" r k >>= λ x. rules_delete rs x.0

  unfoldable pub install : FireWall K → Option (FireWall K)
  install f = rules_install f.rules (chains_do "-N" f.chains f.kernel) >>= λ k.
      some (record f { kernel = k })

  unfoldable pub uninstall : FireWall K → Option (FireWall K)
  uninstall f =
      rules_delete f.rules f.kernel >>= λ k. some (record f { kernel = chains_do "-X" f.chains k })

  unfoldable pub refresh : FireWall K → Option (FireWall K)
  refresh f = uninstall f >>= install
