-- ===== src/Safe/StrMap/Runs.antt =====
-- SafeStrMap over any history of calls.
use openlan.Base.{ℕ, ◌≤◌, ◌≡◌, ◌≢◌, refl, sym, ◌∙◌, Option, List, [], ◌∷◌, String, arith, string_eq}
use openlan.Base.Assoc.{
  Distinct, Distinct-insert, Distinct-erase, length-insert, length-erase-le, has_key-lookup,
}
use openlan.Safe.Full.{IsValid}
use openlan.Safe.StrMap.{SafeStrMap, new, set, modify, del, clear, len}

pub data Call (V : Type 0) : Type 0 where
  sets mods : String → Option V → Call V
  dels : String → Call V
  clears : Call V

module _ {V : Type 0} where
  pub step : SafeStrMap V → Call V → SafeStrMap V
  step sm (sets k v) = (set k v sm).0
  step sm (mods k v) = (modify k v sm).0
  step sm (dels k) = del k sm
  step sm clears = clear sm

  pub run : SafeStrMap V → List (Call V) → SafeStrMap V
  run sm [] = sm
  run sm (c ∷ cs) = run (step sm c) cs

  abbrev pub Valid : SafeStrMap V → Type 0
  Valid sm = IsValid sm.size sm.entries

  pub set-Valid : (k : String) (v : Option V) (sm : SafeStrMap V) → Valid sm → Valid (set k v sm).0
  unfolding set
  set-Valid k v sm h = ground (
    arith,
    has_key-lookup k sm.entries,
    length-insert k v sm.entries,
    Distinct-insert k v sm.entries h.distinct,
  )

  pub modify-Valid :
      (k : String) (v : Option V) (sm : SafeStrMap V) → Valid sm → Valid (modify k v sm).0
  unfolding modify
  modify-Valid k v sm h = ground (
    arith,
    has_key-lookup k sm.entries,
    length-insert k v sm.entries,
    Distinct-insert k v sm.entries h.distinct,
  )

  pub del-Valid : (k : String) (sm : SafeStrMap V) → Valid sm → Valid (del k sm)
  unfolding del
  del-Valid k sm h =
      ground (arith, length-erase-le k sm.entries, Distinct-erase k sm.entries h.distinct)

  clear-Valid : (sm : SafeStrMap V) → Valid (clear sm)
  unfolding clear
  clear-Valid sm = record { distinct = tt; bounded = λ h. omega arith }

  step-Valid : (sm : SafeStrMap V) (c : Call V) → Valid sm → Valid (step sm c)
  unfolding step
  step-Valid sm (sets k v) h = set-Valid k v sm h
  step-Valid sm (mods k v) h = modify-Valid k v sm h
  step-Valid sm (dels k) h = del-Valid k sm h
  step-Valid sm clears h = clear-Valid sm

  run-Valid : (sm : SafeStrMap V) (cs : List (Call V)) → Valid sm → Valid (run sm cs)
  unfolding run
  run-Valid sm [] h = h
  run-Valid sm (c ∷ cs) h = run-Valid (step sm c) cs (step-Valid sm c h)

  step-size : (sm : SafeStrMap V) (c : Call V) → (step sm c).size ≡ sm.size
  unfolding step set modify del clear
  step-size sm (sets k v) = ground arith
  step-size sm (mods k v) = ground arith
  step-size sm (dels k) = ground arith
  step-size sm clears = refl

  run-size : (sm : SafeStrMap V) (cs : List (Call V)) → (run sm cs).size ≡ sm.size
  unfolding run
  run-size sm [] = refl
  run-size sm (c ∷ cs) = run-size (step sm c) cs ∙ step-size sm c

  new-Valid : (size : ℕ) → Valid (new size)
  unfolding new
  new-Valid size = record { distinct = tt; bounded = λ h. omega arith }

  -- A map made with a bound other than 0 never holds more entries than the bound, nor a key twice,
  -- whatever is called on it.
  pub run-new-Valid :
      (size : ℕ) (cs : List (Call V))
      → size ≢ 0
      → Distinct (run (new size) cs).entries × (len (run (new size) cs) ≤ size)
  unfolding len new
  run-new-Valid size cs h =
      let v = run-Valid (new size) cs (new-Valid size) in
      (
        v.distinct,
        omega
            (arith, v.bounded (λ e. h (sym (run-size (new size) cs) ∙ e)), run-size (new size) cs),
      )
