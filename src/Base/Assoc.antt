-- ===== src/Base/Assoc.antt =====
-- A Go map as an association list with distinct keys; the order is the one that `range` takes.
use Prim.Native.Nat.{suc, ◌+◌, ◌≤◌}
use mathlib.Core.Path.{◌≡◌, refl}
use mathlib.Core.Bool.{Bool, true, false}
use mathlib.Core.Option.{Option, none, some}
use mathlib.Core.List.{List, [], ◌∷◌}
use native.Mathlib.Omega.{arith}
use openlan.Base.Tests.{Eq, if◌then◌else◌}
use openlan.Base.Lists.{length}

module _ {ℓ} {K V : Type ℓ} ⦃e : Eq K⦄ where
  -- `v, ok := m[k]`
  unfoldable pub lookup : K → List (K × V) → Option V
  lookup k [] = none
  lookup k ((j, v) ∷ m) = if e.beq j k then some v else lookup k m

  -- `m[k] = v`
  unfoldable pub insert : K → V → List (K × V) → List (K × V)
  insert k v [] = (k, v) ∷ []
  insert k v ((j, w) ∷ m) = if e.beq j k then (j, v) ∷ m else (j, w) ∷ insert k v m

  -- `delete(m, k)`
  unfoldable pub erase : K → List (K × V) → List (K × V)
  erase k [] = []
  erase k ((j, w) ∷ m) = if e.beq j k then m else (j, w) ∷ erase k m

  unfoldable pub has_key : K → List (K × V) → Bool
  has_key k [] = false
  has_key k ((j, v) ∷ m) = if e.beq j k then true else has_key k m

  -- No key occurs twice.
  abbrev pub Distinct : List (K × V) → Type ℓ
  Distinct [] = Unit {ℓ}
  Distinct ((j, v) ∷ m) = (lookup j m ≡ none) × Distinct m

  pub lookup-insert :
      (k j : K) (v : V) (m : List (K × V))
      → lookup j (insert k v m) ≡ (if e.beq k j then some v else lookup j m)
  unfolding lookup insert
  lookup-insert k j v [] = refl
  lookup-insert k j v ((i, w) ∷ m) =
      ground (arith, e.beq_iff k j, e.beq_iff i k, e.beq_iff i j, lookup-insert k j v m)

  pub lookup-erase :
      (k j : K) (m : List (K × V))
      → Distinct m
      → lookup j (erase k m) ≡ (if e.beq k j then none else lookup j m)
  unfolding lookup erase
  lookup-erase k j [] d = ground arith
  lookup-erase k j ((i, w) ∷ m) d =
      ground (arith, e.beq_iff k j, e.beq_iff i k, e.beq_iff i j, lookup-erase k j m d.1)

  pub length-insert :
      (k : K) (v : V) (m : List (K × V))
      → length (insert k v m) ≡ (elim (lookup k m) [ none ↦ suc (length m) | some _ ↦ length m ])
  unfolding lookup insert
  length-insert k v [] = refl
  length-insert k v ((i, w) ∷ m) = ground (arith, length-insert k v m)

  pub length-erase :
      (k : K) {v : V} (m : List (K × V)) → lookup k m ≡ some v → length (erase k m) + 1 ≡ length m
  unfolding lookup erase
  length-erase k [] h = cc
  length-erase k {v} ((i, w) ∷ m) h = ground (arith, length-erase k {v = v} m)

  pub erase_absent : (k : K) (m : List (K × V)) → lookup k m ≡ none → erase k m ≡ m
  unfolding lookup erase
  erase_absent k [] h = refl
  erase_absent k ((i, w) ∷ m) h = ground (arith, erase_absent k m)

  pub length-erase-le : (k : K) (m : List (K × V)) → length (erase k m) ≤ length m
  unfolding erase
  length-erase-le k [] = omega arith
  length-erase-le k ((i, w) ∷ m) = ground (arith, length-erase-le k m)

  pub has_key-lookup :
      (k : K) (m : List (K × V))
      → has_key k m ≡ (elim (lookup k m) [ none ↦ false | some _ ↦ true ])
  unfolding has_key lookup
  has_key-lookup k [] = refl
  has_key-lookup k ((i, w) ∷ m) = ground (arith, has_key-lookup k m)

  pub has_key-insert :
      (k j : K) (v : V) (m : List (K × V))
      → has_key j (insert k v m) ≡ (if e.beq k j then true else has_key j m)
  has_key-insert k j v m =
      ground (arith, has_key-lookup j (insert k v m), has_key-lookup j m, lookup-insert k j v m)

  pub has_key-erase :
      (k j : K) (m : List (K × V))
      → Distinct m
      → has_key j (erase k m) ≡ (if e.beq k j then false else has_key j m)
  has_key-erase k j m d =
      ground (arith, has_key-lookup j (erase k m), has_key-lookup j m, lookup-erase k j m d)

  pub Distinct-insert : (k : K) (v : V) (m : List (K × V)) → Distinct m → Distinct (insert k v m)
  unfolding insert lookup
  Distinct-insert k v [] d = (refl, tt)
  Distinct-insert k v ((i, w) ∷ m) d =
      ground (arith, e.beq_iff i k, e.beq_iff k i, lookup-insert k i v m, Distinct-insert k v m d.1)

  pub Distinct-erase : (k : K) (m : List (K × V)) → Distinct m → Distinct (erase k m)
  unfolding erase
  Distinct-erase k [] d = d
  Distinct-erase k ((i, w) ∷ m) d = ground (arith, lookup-erase k i m d.1, Distinct-erase k m d.1)
