-- ===== src/Safe/StrMap/Laws.antt =====
-- What each method of SafeStrMap does to the reads.
use openlan.Base.{◌≡◌, true, false, Option, none, some, String, if◌then◌else◌, arith, string_eq}
use openlan.Base.Assoc.{Distinct, has_key-lookup, lookup-insert, lookup-erase}
use openlan.Safe.Full.{already_full, is_full}
use openlan.Safe.StrMap.{SafeStrMap, set, modify, del, get_ex}

module _ {V : Type 0} (k j : String) (v : Option V) (sm : SafeStrMap V) where
  -- After `Set` a full map is unchanged and the error says so; otherwise a key that was there keeps
  -- its value, a new key reads the value given, and every other key reads as before.
  pub get_ex-set :
      ((set k v sm).1 ≡ (if is_full sm.size sm.entries then some already_full else none))
      × (get_ex j (set k v sm).0 ≡ (
          if is_full sm.size sm.entries
          then get_ex j sm
          else if (get_ex k sm).1
          then get_ex j sm
          else if string_eq.beq k j
          then (v, true)
          else get_ex j sm))
  unfolding set get_ex
  get_ex-set = ground (arith, has_key-lookup k sm.entries, lookup-insert k j v sm.entries)

  -- After `Mod` a key that was there reads the value given, also in a full map; a new key does so
  -- unless the map is full, and every other key reads as before.
  pub get_ex-modify :
      ((modify k v sm).1 ≡ (
        if (get_ex k sm).1
        then none
        else if is_full sm.size sm.entries
        then some already_full
        else none))
      × (get_ex j (modify k v sm).0 ≡ (
          if (get_ex k sm).1
          then (if string_eq.beq k j then (v, true) else get_ex j sm)
          else if is_full sm.size sm.entries
          then get_ex j sm
          else if string_eq.beq k j
          then (v, true)
          else get_ex j sm))
  unfolding modify get_ex
  get_ex-modify = ground (arith, has_key-lookup k sm.entries, lookup-insert k j v sm.entries)

-- After `Del` the key is gone and every other key reads as before; no key is there twice.
pub get_ex-del :
    {V : Type 0} (k j : String) (sm : SafeStrMap V)
    → Distinct sm.entries
    → get_ex j (del k sm) ≡ (if string_eq.beq k j then (none, false) else get_ex j sm)
unfolding del get_ex
get_ex-del k j sm d =
    ground
      (arith, has_key-lookup k sm.entries, lookup-erase k j sm.entries d, string_eq.beq_iff k j)
