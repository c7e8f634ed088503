-- ===== src/Firewall/Revoke.antt =====
-- When a rule can be revoked.
use mathlib.Core.Path.{subst}
use openlan.Base.{
  ◌≡◌, ◌⊎◌, refl, sym, inl, inr, true, false, none, some, List, [], ◌∷◌, string_eq, arith,
  Bool-cases,
}
use openlan.Firewall.{IpRule, IpTables, Printer, FireWall, eq, pop, pop_loop, rule_opr, revoke_rule}

-- Two rules agree in what tells rules apart: all but Output, Comment, Jump, SetMss, Order, Match and
-- TcpFlag.
abbrev pub Same : IpRule → IpRule → Type 0
Same r q =
    (r.table ≡ q.table)
    × (r.chain ≡ q.chain)
    × (r.input ≡ q.input)
    × (r.source ≡ q.source)
    × (r.to_source ≡ q.to_source)
    × (r.dest ≡ q.dest)
    × (r.to_dest ≡ q.to_dest)
    × (r.proto ≡ q.proto)
    × (r.src_port ≡ q.src_port)
    × (r.dst_port ≡ q.dst_port)

eq_iff : (r q : IpRule) → (eq r q ≡ true → Same r q) × (Same r q → eq r q ≡ true)
unfolding eq
eq_iff r q = ground (
  arith,
  string_eq.beq_iff r.table q.table,
  string_eq.beq_iff r.chain q.chain,
  string_eq.beq_iff r.input q.input,
  string_eq.beq_iff r.source q.source,
  string_eq.beq_iff r.to_source q.to_source,
  string_eq.beq_iff r.dest q.dest,
  string_eq.beq_iff r.to_dest q.to_dest,
  string_eq.beq_iff r.proto q.proto,
  string_eq.beq_iff r.src_port q.src_port,
  string_eq.beq_iff r.dst_port q.dst_port,
)

-- There are no rules, or one that agrees with the rule.
abbrev pub IsOnly : IpRule → List IpRule → Type 0
IsOnly rule rules = (rules ≡ []) ⊎ ((item : IpRule) × (rules ≡ item ∷ []) × Same item rule)

IsOnly-other : (item rule : IpRule) → eq item rule ≡ false → ¬ IsOnly rule (item ∷ [])
IsOnly-other item rule e (inl h) = absurd (ground (arith, h))
IsOnly-other item rule e (inr (other, h, same)) =
    let first : item ≡ other = ground (arith, h) in
    absurd (ground (arith, e, (eq_iff item rule).1 (subst (λ x. Same x rule) (sym first) same)))

IsOnly-many :
    (item next : IpRule) (rest : List IpRule) (rule : IpRule) → ¬ IsOnly rule (item ∷ next ∷ rest)
IsOnly-many item next rest rule (inl h) = absurd (ground (arith, h))
IsOnly-many item next rest rule (inr (other, h, same)) = absurd (ground (arith, h))

pop-IsOnly :
    (rule : IpRule) (rules : List IpRule)
    → (IsOnly rule rules × (pop rule rules ≡ some []))
      ⊎ ((¬ IsOnly rule rules) × (pop rule rules ≡ none))
unfolding pop pop_loop
pop-IsOnly rule [] = inl (inl refl, refl)
pop-IsOnly rule (item ∷ []) = elim (Bool-cases (eq item rule)) [
  | inl e ↦ inl (inr (item, refl, (eq_iff item rule).0 e), ground (arith, e))
  | inr e ↦ inr (IsOnly-other item rule e, ground (arith, e))
]
pop-IsOnly rule (item ∷ next ∷ rest) = inr (IsOnly-many item next rest rule, ground arith)

-- Where iptables deletes a rule without an error, RevokeRule returns exactly if the firewall has no
-- rules, or one alone that agrees with the given one in its table, chain, input interface, addresses,
-- translated addresses, protocol and ports, whatever else the two hold. It then has no rules left.
-- With any other rules it panics.
pub revoke_rule-IsOnly :
    {K : Type 0} (p : Printer) (t : IpTables K) (rule : IpRule) (f : FireWall K) (k : K)
    → rule_opr p t "-D" rule f.kernel ≡ some (k, false)
    → (IsOnly rule f.rules
        × (revoke_rule p t rule f ≡ some (record f { kernel = k; rules = [] }, false)))
      ⊎ ((¬ IsOnly rule f.rules) × (revoke_rule p t rule f ≡ none))
unfolding revoke_rule
revoke_rule-IsOnly p t rule f k h = elim (pop-IsOnly rule f.rules) [
  | inl (o, e) ↦ inl (o, rw (h, e) refl)
  | inr (n, e) ↦ inr (n, rw (h, e) refl)
]
