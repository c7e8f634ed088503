-- ===== src/Switch/Rules/Chains.antt =====
-- Where the rules of the switch stand.
use openlan.Base.{
  ◌≡◌, refl, ap, inl, inr, Bool, true, false, ◌||◌, ◌&&◌, List, [], ◌∷◌, ◌++◌, String, string_eq,
  ltb, map, All, arith, Bool-cases,
}
use openlan.Firewall.{FireWall, IpChain, IpRule, add_rule, hooks, chain_of}
use openlan.Switch.Rules.{
  Breed, Bridge, OpenVpn, VpnConf, enable_acl, enable_fwd, enable_masq, enable_mss, enable_port,
  enable_snat, pre_net_vpn0, pre_net_vpn1, vpn_routes, vpn, next, last, breed_vpn0, breed_vpn1,
}

abbrev pub is_builtin : String → Bool
is_builtin c =
    string_eq.beq c "INPUT"
    || string_eq.beq c "FORWARD"
    || string_eq.beq c "OUTPUT"
    || string_eq.beq c "PREROUTING"
    || string_eq.beq c "POSTROUTING"

abbrev pub has_chain : String → String → List IpChain → Bool
has_chain table name [] = false
has_chain table name (c ∷ cs) =
    (string_eq.beq c.table table && string_eq.beq c.name name) || has_chain table name cs

abbrev pub fits : List IpChain → IpRule → Bool
fits cs r = is_builtin r.chain || has_chain r.table r.chain cs

-- With the chains that initialize adds.
abbrev pub later : List IpChain → List IpChain
later cs = cs ++ map chain_of hooks

module _ {K : Type 0} where
  -- Every rule stands in a chain of iptables or in one of the firewall's.
  abbrev pub Placed : FireWall K → Type 0
  Placed f = All (λ r. fits f.chains r ≡ true) f.rules

  abbrev pub Soon : FireWall K → Type 0
  Soon f = All (λ r. fits (later f.chains) r ≡ true) f.rules

pub has_chain-append :
    (t n : String) (xs ys : List IpChain)
    → has_chain t n (xs ++ ys) ≡ has_chain t n xs || has_chain t n ys
has_chain-append t n [] ys = refl
has_chain-append t n (x ∷ xs) ys = ground (arith, has_chain-append t n xs ys)

module _ {A : Type 0} (P : A → Type 0) where
  pub All-append : (xs ys : List A) → All P xs → All P ys → All P (xs ++ ys)
  All-append [] ys h i = i
  All-append (x ∷ xs) ys h i = (h.0, All-append xs ys h.1 i)

  pub All-map : {Q : A → Type 0} (xs : List A) → ((a : A) → P a → Q a) → All P xs → All Q xs
  All-map [] g h = tt
  All-map (x ∷ xs) g h = (g x h.0, All-map xs g h.1)

pub append_one :
    {A : Type 0} (xs : List A) (y : A) (ys : List A) → (xs ++ (y ∷ [])) ++ ys ≡ xs ++ (y ∷ ys)
append_one [] y ys = refl
append_one (x ∷ xs) y ys = ap (◌∷◌ x) (append_one xs y ys)

pub append_nil : {A : Type 0} (xs : List A) → xs ++ [] ≡ xs
append_nil [] = refl
append_nil (x ∷ xs) = ap (◌∷◌ x) (append_nil xs)

module _ {K : Type 0} where
  pub add_rule-Soon :
      (r : IpRule) (f : FireWall K) → fits (later f.chains) r ≡ true → Soon f → Soon (add_rule r f)
  unfolding add_rule
  add_rule-Soon r f h s =
      All-append (λ q. fits (later f.chains) q ≡ true) f.rules (r ∷ []) s (h, tt)

  -- A rule in a chain of the hooks.
  own-Soon :
      (r : IpRule) (f : FireWall K)
      → has_chain r.table r.chain (map chain_of hooks) ≡ true
      → Soon f
      → Soon (add_rule r f)
  own-Soon r f h s =
      add_rule-Soon r f
        (ground (arith, has_chain-append r.table r.chain f.chains (map chain_of hooks), h)) s

  pub enable_fwd-Soon : (i o s d : String) (f : FireWall K) → Soon f → Soon (enable_fwd i o s d f)
  unfolding enable_fwd
  enable_fwd-Soon i o s d f h = elim (Bool-cases (string_eq.beq s d)) [
    | inl e ↦ rw e (own-Soon _ f refl h)
    | inr e ↦ rw e (own-Soon _ _ refl (own-Soon _ f refl h))
  ]

  pub enable_port-Soon : (pr po : String) (f : FireWall K) → Soon f → Soon (enable_port pr po f)
  unfolding enable_port
  enable_port-Soon pr po f h = own-Soon _ f refl h

  pub enable_masq-Soon : (s d : String) (f : FireWall K) → Soon f → Soon (enable_masq s d f)
  unfolding enable_masq
  enable_masq-Soon s d f h = elim (Bool-cases (string_eq.beq s d)) [
    | inl e ↦ rw e h
    | inr e ↦ rw e (own-Soon _ f refl h)
  ]

  pub enable_snat-Soon : (s d : String) (f : FireWall K) → Soon f → Soon (enable_snat s d f)
  unfolding enable_snat
  enable_snat-Soon s d f h = elim (Bool-cases (string_eq.beq s d)) [
    | inl e ↦ rw e h
    | inr e ↦ rw e (own-Soon _ f refl h)
  ]

  pub enable_acl-Soon : (a i : String) (f : FireWall K) → Soon f → Soon (enable_acl a i f)
  unfolding enable_acl
  enable_acl-Soon a i f h = elim (Bool-cases (string_eq.beq i "" || string_eq.beq a "")) [
    | inl e ↦ rw e h
    | inr e ↦ rw e (own-Soon _ f refl h)
  ]

  pub enable_mss-Soon : (br : Bridge) (f : FireWall K) → Soon f → Soon (enable_mss br f)
  unfolding enable_mss
  enable_mss-Soon br f h = elim (Bool-cases (ltb 0 br.mss)) [
    | inl e ↦ rw e (own-Soon _ f refl h)
    | inr e ↦ rw e h
  ]

  vpn_routes-Soon :
      (v : VpnConf) (rts : List String) (f : FireWall K) → Soon f → Soon (vpn_routes v rts f)
  unfolding vpn_routes
  vpn_routes-Soon v [] f h = h
  vpn_routes-Soon v (rt ∷ rts) f h =
      vpn_routes-Soon v rts _
        (enable_masq-Soon v.subnet rt _ (enable_fwd-Soon v.device "" v.subnet rt f h))

mutual
  unfolding pre_net_vpn0 breed_vpn0

  pub pre_net_vpn0-Soon :
      {K : Type 0} (a : String) (o : OpenVpn) (f : FireWall K) → Soon f → Soon (pre_net_vpn0 a o f)
  pre_net_vpn0-Soon a (vpn v b) f h =
      breed_vpn0-Soon a b _ (vpn_routes-Soon v v.routes _ (enable_acl-Soon a v.device f h))

  breed_vpn0-Soon :
      {K : Type 0} (a : String) (b : Breed) (f : FireWall K) → Soon f → Soon (breed_vpn0 a b f)
  breed_vpn0-Soon a last f h = h
  breed_vpn0-Soon a (next o b) f h = breed_vpn0-Soon a b _ (pre_net_vpn0-Soon a o f h)

mutual
  unfolding pre_net_vpn1 breed_vpn1

  pub pre_net_vpn1-Soon :
      {K : Type 0} (n p : String) (o : OpenVpn) (f : FireWall K)
      → Soon f
      → Soon (pre_net_vpn1 n p o f)
  pre_net_vpn1-Soon n p (vpn v b) f h =
      breed_vpn1-Soon n p b _ (enable_masq-Soon v.subnet p _ (enable_fwd-Soon "" n v.subnet p f h))

  breed_vpn1-Soon :
      {K : Type 0} (n p : String) (b : Breed) (f : FireWall K) → Soon f → Soon (breed_vpn1 n p b f)
  breed_vpn1-Soon n p last f h = h
  breed_vpn1-Soon n p (next o b) f h = breed_vpn1-Soon n p b _ (pre_net_vpn1-Soon n p o f h)
