-- ===== src/Switch/Rules/Placed.antt =====
-- The rules of the switch once it has been initialized.
use openlan.Base.{◌≡◌, refl, sym, ap, ◌∙◌, true, List, [], ◌∷◌, ◌++◌, String, string_eq, map}
use openlan.Firewall.{
  FireWall, Hook, add_chain, add_rule, add_olc, jump_olc, initialize, hooks, chain_of, jump_of,
}
use openlan.Switch.Rules.{Conf, Network, Texts}
use openlan.Switch.Rules.Nets.{init_rules}
use openlan.Switch.Rules.Chains.{Placed, Soon, fits, later, All-append, append_one, append_nil}
use openlan.Switch.Rules.Steps.{pre_acl-Soon, pre_allow-Soon, pre_nets-Soon}

module _ {K : Type 0} where
  add_olc_lem :
      (hs : List Hook) (f : FireWall K)
      → add_olc hs f ≡ record f { chains = f.chains ++ map chain_of hs }
  unfolding add_olc add_chain
  add_olc_lem [] f = ap (λ c. record f { chains = c }) (sym (append_nil f.chains))
  add_olc_lem (h ∷ hs) f =
      add_olc_lem hs _
      ∙ ap (λ c. record f { chains = c }) (append_one f.chains (chain_of h) (map chain_of hs))

  jump_olc_lem :
      (hs : List Hook) (f : FireWall K)
      → jump_olc hs f ≡ record f { rules = f.rules ++ map jump_of hs }
  unfolding jump_olc add_rule
  jump_olc_lem [] f = ap (λ c. record f { rules = c }) (sym (append_nil f.rules))
  jump_olc_lem (h ∷ hs) f =
      jump_olc_lem hs _
      ∙ ap (λ c. record f { rules = c }) (append_one f.rules (jump_of h) (map jump_of hs))

  initialize_lem :
      (f : FireWall K)
      → initialize f ≡ record f { chains = later f.chains; rules = f.rules ++ map jump_of hooks }
  unfolding initialize
  initialize_lem f = ap (jump_olc hooks) (add_olc_lem hooks f) ∙ jump_olc_lem hooks _

  initialize-Placed : (f : FireWall K) → Soon f → Placed (initialize f)
  initialize-Placed f h = rw (initialize_lem f) (
      All-append (λ q. fits (later f.chains) q ≡ true) f.rules (map jump_of hooks) h
        (
          refl,
          (
            refl,
            (
              refl,
              (
                refl,
                (refl, (refl, (refl, (refl, (refl, (refl, (refl, (refl, (refl, (refl, tt)))))))))),
              ),
            ),
          ),
        ))

-- After the switch has set up its firewall, from a firewall whose rules stand in chains of iptables or
-- in those that Initialize adds, every rule stands in a chain of iptables or in one that the firewall
-- keeps.
pub init_rules-Placed :
    {K : Type 0} (t : Texts) (get_subnet : Network → String) (c : Conf) (f : FireWall K)
    → Soon f
    → Placed (init_rules t get_subnet c f)
unfolding init_rules
init_rules-Placed t get_subnet c f h =
    initialize-Placed _
      (pre_nets-Soon t get_subnet c.networks _ (pre_allow-Soon t c _ (pre_acl-Soon c.acls f h)))
