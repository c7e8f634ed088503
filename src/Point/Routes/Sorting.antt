-- ===== src/Point/Routes/Sorting.antt =====
-- Texts are sorted in one way only.
use openlan.Base.{
  ℕ, suc, ◌≤◌, ◌≡◌, refl, sym, inl, inr, true, false, List, [], ◌∷◌, if◌then◌else◌, All, arith,
  Bool-cases,
}
use openlan.Base.Text.{bytes_eq, bytes_eq_iff}
use openlan.Point.Routes.{at_most, place, sort}

at_most_total : (xs ys : List ℕ) → at_most xs ys ≡ false → at_most ys xs ≡ true
at_most_total [] ys h = absurd (ground arith)
at_most_total (x ∷ xs) [] h = refl
at_most_total (x ∷ xs) (y ∷ ys) h = ground (arith, at_most_total xs ys)

at_most_antisym : (xs ys : List ℕ) → at_most xs ys ≡ true → at_most ys xs ≡ true → xs ≡ ys
at_most_antisym [] [] h k = refl
at_most_antisym [] (y ∷ ys) h k = absurd (ground arith)
at_most_antisym (x ∷ xs) [] h k = absurd (ground arith)
at_most_antisym (x ∷ xs) (y ∷ ys) h k = ground (arith, at_most_antisym xs ys)

at_most_trans :
    (xs ys zs : List ℕ) → at_most xs ys ≡ true → at_most ys zs ≡ true → at_most xs zs ≡ true
at_most_trans [] ys zs h k = refl
at_most_trans (x ∷ xs) [] zs h k = absurd (ground arith)
at_most_trans (x ∷ xs) (y ∷ ys) [] h k = absurd (ground arith)
at_most_trans (x ∷ xs) (y ∷ ys) (z ∷ zs) h k = ground (arith, at_most_trans xs ys zs)

abbrev pub IsSorted : List (List ℕ) → Type 0
IsSorted [] = Unit
IsSorted (x ∷ xs) = All (λ y. at_most x y ≡ true) xs × IsSorted xs

All-weaken :
    (x y : List ℕ) (zs : List (List ℕ))
    → at_most x y ≡ true
    → All (λ z. at_most y z ≡ true) zs
    → All (λ z. at_most x z ≡ true) zs
All-weaken x y [] h a = tt
All-weaken x y (z ∷ zs) h a = (at_most_trans x y z h a.0, All-weaken x y zs h a.1)

All-place :
    (x y : List ℕ) (zs : List (List ℕ))
    → at_most x y ≡ true
    → All (λ z. at_most x z ≡ true) zs
    → All (λ z. at_most x z ≡ true) (place y zs)
All-place x y [] h a = (h, tt)
All-place x y (z ∷ zs) h a = elim (Bool-cases (at_most y z)) [
  | inl e ↦ rw e (h, a)
  | inr e ↦ rw e (a.0, All-place x y zs h a.1)
]

place-IsSorted : (x : List ℕ) (ys : List (List ℕ)) → IsSorted ys → IsSorted (place x ys)
place-IsSorted x [] s = (tt, tt)
place-IsSorted x (y ∷ ys) s = elim (Bool-cases (at_most x y)) [
  | inl e ↦ rw e ((e, All-weaken x y ys e s.0), s)
  | inr e ↦ rw e (All-place y x ys (at_most_total x y e) s.0, place-IsSorted x ys s.1)
]

pub sort-IsSorted : (xs : List (List ℕ)) → IsSorted (sort xs)
sort-IsSorted [] = tt
sort-IsSorted (x ∷ xs) = place-IsSorted x (sort xs) (sort-IsSorted xs)

-- How often a text occurs.
abbrev pub count : List ℕ → List (List ℕ) → ℕ
count k [] = 0
count k (x ∷ xs) = if bytes_eq x k then suc (count k xs) else count k xs

count-place : (k x : List ℕ) (ys : List (List ℕ)) → count k (place x ys) ≡ count k (x ∷ ys)
count-place k x [] = refl
count-place k x (y ∷ ys) = ground (arith, count-place k x ys)

pub count-sort : (k : List ℕ) (xs : List (List ℕ)) → count k (sort xs) ≡ count k xs
count-sort k [] = refl
count-sort k (x ∷ xs) = ground (arith, count-place k x (sort xs), count-sort k xs)

-- The head of a sorted list is at most what occurs in it.
at_most-head :
    (x k : List ℕ) (xs : List (List ℕ))
    → All (λ y. at_most x y ≡ true) xs
    → 1 ≤ count k xs
    → at_most x k ≡ true
at_most-head x k [] a c = absurd (ground arith)
at_most-head x k (y ∷ ys) a c = ground (arith, bytes_eq_iff y k, a.0, at_most-head x k ys a.1)

at_most_refl : (xs : List ℕ) → at_most xs xs ≡ true
at_most_refl [] = refl
at_most_refl (x ∷ xs) = ground (arith, at_most_refl xs)

heads_agree :
    (x y : List ℕ) (xs ys : List (List ℕ))
    → All (λ z. at_most y z ≡ true) ys
    → count x (x ∷ xs) ≡ count x (y ∷ ys)
    → at_most y x ≡ true
heads_agree x y xs ys a h = elim (Bool-cases (bytes_eq y x)) [
  | inl e ↦ ground (arith, bytes_eq_iff y x, at_most_refl x, e)
  | inr e ↦ at_most-head y x ys a (ground (arith, bytes_eq_iff x x))
]

-- Sorted lists in which every text occurs equally often are the same.
pub sorted_unique :
    (xs ys : List (List ℕ))
    → IsSorted xs
    → IsSorted ys
    → ((k : List ℕ) → count k xs ≡ count k ys)
    → xs ≡ ys
sorted_unique [] [] s t c = refl
sorted_unique [] (y ∷ ys) s t c = absurd (ground (arith, c y, bytes_eq_iff y y))
sorted_unique (x ∷ xs) [] s t c = absurd (ground (arith, c x, bytes_eq_iff x x))
sorted_unique (x ∷ xs) (y ∷ ys) s t c =
    let same : x ≡ y =
      at_most_antisym x y (heads_agree y x ys xs s.0 (sym (c y)))
        (heads_agree x y xs ys t.0 (c x)) in
    let rest = sorted_unique xs ys s.1 t.1 (λ k. ground (arith, c k, same)) in
    ground (arith, same, rest)
