-- ===== src/Safe/StrStr/Laws.antt =====
-- What each method of SafeStrStr does to the reads, and what it keeps.
use openlan.Base.{◌≡◌, true, false, none, some, String, if◌then◌else◌, arith, string_eq}
use openlan.Base.Assoc.{
  Distinct, has_key-lookup, lookup-insert, lookup-erase, length-insert, length-erase-le,
  Distinct-insert, Distinct-erase,
}
use openlan.Safe.Full.{already_full, is_full, IsValid}
use openlan.Safe.StrStr.{SafeStrStr, reset, set, del, get_ex}

module _ (k j v : String) (sm : SafeStrStr) where
  -- A full map refuses `Reset` and is unchanged, also where it has the key. Otherwise the key reads
  -- the value given, and every other key reads as before.
  pub get_ex-reset :
      ((reset k v sm).1 ≡ (if is_full sm.size sm.entries then some already_full else none))
      × (get_ex j (reset k v sm).0 ≡ (
          if is_full sm.size sm.entries
          then get_ex j sm
          else if string_eq.beq k j
          then (v, true)
          else get_ex j sm))
  unfolding reset get_ex
  get_ex-reset = ground (arith, lookup-insert k j v sm.entries)

  pub get_ex-set :
      ((set k v sm).1 ≡ (if is_full sm.size sm.entries then some already_full else none))
      × (get_ex j (set k v sm).0 ≡ (
          if is_full sm.size sm.entries
          then get_ex j sm
          else if (get_ex k sm).1
          then get_ex j sm
          else if string_eq.beq k j
          then (v, true)
          else get_ex j sm))
  unfolding set get_ex
  get_ex-set = ground (arith, has_key-lookup k sm.entries, lookup-insert k j v sm.entries)

pub get_ex-del :
    (k j : String) (sm : SafeStrStr)
    → Distinct sm.entries
    → get_ex j (del k sm) ≡ (if string_eq.beq k j then ("", false) else get_ex j sm)
unfolding del get_ex
get_ex-del k j sm d =
    ground
      (arith, has_key-lookup k sm.entries, lookup-erase k j sm.entries d, string_eq.beq_iff k j)

abbrev pub Valid : SafeStrStr → Type 0
Valid sm = IsValid sm.size sm.entries

module _ (k v : String) (sm : SafeStrStr) (h : Valid sm) where
  pub reset-Valid : Valid (reset k v sm).0
  unfolding reset
  reset-Valid =
      ground (arith, length-insert k v sm.entries, Distinct-insert k v sm.entries h.distinct)

  pub set-Valid : Valid (set k v sm).0
  unfolding set
  set-Valid = ground (
    arith,
    has_key-lookup k sm.entries,
    length-insert k v sm.entries,
    Distinct-insert k v sm.entries h.distinct,
  )

pub del-Valid : (k : String) (sm : SafeStrStr) → Valid sm → Valid (del k sm)
unfolding del
del-Valid k sm h =
    ground (arith, length-erase-le k sm.entries, Distinct-erase k sm.entries h.distinct)
