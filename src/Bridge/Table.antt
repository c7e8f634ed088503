-- ===== src/Bridge/Table.antt =====
-- What the bridge remembers of addresses after learning and after expiry.
use openlan.Base.{
  ℕ, ◌-◌, ◌%◌, ◌≡◌, refl, Bool, false, ◌||◌, Option, none, some, List, [], ◌∷◌, String, string_eq,
  arith, if◌then◌else◌, ltb, ◌==◌, get_or, Option-cases, inl, inr,
}
use openlan.Base.Assoc.{
  lookup, erase, lookup-insert, lookup-erase, has_key-lookup, Distinct, Distinct-erase,
  Distinct-insert,
}
use openlan.Bridge.{
  HwText, MacFdb, Taper, VirtualBridge, collect, delete_all, expire, learn_mac, eth2str, update_mac,
}

abbrev contains : String → List String → Bool
contains k [] = false
contains k (j ∷ ks) = string_eq.beq j k || contains k ks

lookup-delete_all :
    (k : String) (ks : List String) (m : List (String × MacFdb))
    → Distinct m
    → lookup k (delete_all ks m) ≡ (if contains k ks then none else lookup k m)
unfolding delete_all
lookup-delete_all k [] m d = refl
lookup-delete_all k (j ∷ ks) m d = ground (
  arith,
  has_key-lookup j m,
  lookup-erase j k m d,
  string_eq.beq_iff j k,
  lookup-delete_all k ks (erase j m) (Distinct-erase j m d),
  lookup-delete_all k ks m d,
)

-- An entry is too old.
abbrev pub is_old : ℕ → ℕ → MacFdb → Bool
is_old now timeout l = ltb timeout (now - l.uptime)

abbrev old_at : ℕ → ℕ → Option MacFdb → Bool
old_at now timeout none = false
old_at now timeout (some l) = is_old now timeout l

contains-collect :
    (k : String) (now timeout : ℕ) (m : List (String × MacFdb))
    → Distinct m
    → contains k (collect now timeout m) ≡ old_at now timeout (lookup k m)
unfolding collect lookup
contains-collect k now timeout [] d = refl
contains-collect k now timeout ((j, l) ∷ m) d =
    ground (arith, string_eq.beq_iff j k, contains-collect k now timeout m d.1)

abbrev pub young : ℕ → ℕ → Option MacFdb → Option MacFdb
young now timeout none = none
young now timeout (some l) = if is_old now timeout l then none else some l

-- Where no address has two entries, after Expire an address is known exactly if it was and was last
-- seen at most `timeout` seconds ago, with its entry unchanged.
pub lookup-expire :
    (k : String) (now : ℕ) (b : VirtualBridge)
    → Distinct b.macs
    → lookup k (expire now b).macs ≡ young now b.timeout (lookup k b.macs)
unfolding expire
lookup-expire k now b d = ground (
  arith,
  lookup-delete_all k (collect now b.timeout b.macs) b.macs d,
  contains-collect k now b.timeout b.macs d,
)

Distinct-delete_all :
    (ks : List String) (m : List (String × MacFdb)) → Distinct m → Distinct (delete_all ks m)
unfolding delete_all
Distinct-delete_all [] m d = d
Distinct-delete_all (k ∷ ks) m d =
    ground
      (arith, Distinct-delete_all ks m d, Distinct-delete_all ks (erase k m) (Distinct-erase k m d))

pub expire-Distinct : (now : ℕ) (b : VirtualBridge) → Distinct b.macs → Distinct (expire now b).macs
unfolding expire
expire-Distinct now b d = Distinct-delete_all (collect now b.timeout b.macs) b.macs d

-- The entry of an address that was just seen.
abbrev pub refreshed : ℕ → Taper → List ℕ → Option MacFdb → MacFdb
refreshed now source mac none = record {
  address = mac;
  device = source;
  uptime = now;
  new_time = now;
}
refreshed now source mac (some l) = record l { device = source; uptime = now }

-- Learning an address that is not a group's makes its entry name the source and the time, keeps the
-- rest of an older entry, and leaves every other address alone. A group's address changes nothing.
pub lookup-learn_mac :
    (hw : HwText) (k : String) (now : ℕ) (source : Taper) (mac : List ℕ) (b : VirtualBridge)
    → lookup k (learn_mac hw now source mac b).macs ≡ (
        if get_or mac 0 0 % 2 == 1
        then lookup k b.macs
        else if string_eq.beq (eth2str hw mac) k
        then some (refreshed now source mac (lookup (eth2str hw mac) b.macs))
        else lookup k b.macs)
unfolding learn_mac update_mac
lookup-learn_mac hw k now source mac b = elim (Option-cases (lookup (eth2str hw mac) b.macs)) [
  | inl e ↦
      ground (arith, e, lookup-insert (eth2str hw mac) k (refreshed now source mac none) b.macs)
  | inr (l, e) ↦
      ground (arith, e, lookup-insert (eth2str hw mac) k (refreshed now source mac (some l)) b.macs)
]

pub learn_mac-Distinct :
    (hw : HwText) (now : ℕ) (source : Taper) (mac : List ℕ) (b : VirtualBridge)
    → Distinct b.macs
    → Distinct (learn_mac hw now source mac b).macs
unfolding learn_mac update_mac
learn_mac-Distinct hw now source mac b d = elim (Option-cases (lookup (eth2str hw mac) b.macs)) [
  | inl e ↦
      ground (arith, e, Distinct-insert (eth2str hw mac) (refreshed now source mac none) b.macs d)
  | inr (l, e) ↦
      ground
        (arith, e, Distinct-insert (eth2str hw mac) (refreshed now source mac (some l)) b.macs d)
]
