-- ===== src/Examples/Texts.antt =====
-- Texts for addresses: an IPv4 address as so many characters, six bytes as six runs of characters.
-- They stand in for the printing and parsing of package net.
use Prim.Native.Char.{code}
use openlan.Base.{
  ℕ, string_eq, ◌==◌, Bool, false, zero, suc, ◌-◌, ◌≡◌, ◌≢◌, refl, ap, sym, ◌∙◌, some, List, [],
  ◌∷◌, String, arith, length,
}
use openlan.Cache.Lease.{v4, IpText}
use openlan.Bridge.{HwText}

abbrev size : String → ℕ
size String.[] = 0
size (String.◌∷◌ c s) = suc (size s)

abbrev tick : ℕ → String → String
tick zero s = String.◌∷◌ ":" s
tick (suc n) s = String.◌∷◌ "a" (tick n s)

abbrev pub count : ℕ → String
count n = tick n ""

size-count : (n : ℕ) → size (count n) ≡ suc n
size-count zero = refl
size-count (suc n) = ap suc (size-count n)

pub count_injective : (a b : ℕ) → count a ≡ count b → a ≡ b
count_injective a b h = ground (arith, size-count a, size-count b, h)

pub count_nonempty : (n : ℕ) → count n ≢ ""
count_nonempty zero h = ground (arith, ap size h)
count_nonempty (suc n) h = ground (arith, ap size h)

abbrev pub ip_text : IpText
ip_text = record {
  parse = λ s. some (v4 (size s - 1));
  print = count;
  print_injective = λ a b p q h. count_injective a b h;
  print_nonempty = count_nonempty;
}

abbrev rest : String → String
rest String.[] = ""
rest (String.◌∷◌ c s) = s

-- It begins with the character of a run.
abbrev marked : String → Bool
marked String.[] = false
marked (String.◌∷◌ c s) = code c == 97

tick_inj : (a b : ℕ) (s t : String) → tick a s ≡ tick b t → (a ≡ b) × (s ≡ t)
tick_inj zero zero s t h = (refl, ap rest h)
tick_inj zero (suc b) s t h = absurd (ground (arith, ap marked h))
tick_inj (suc a) zero s t h = absurd (ground (arith, ap marked h))
tick_inj (suc a) (suc b) s t h = ground (arith, tick_inj a b s t (ap rest h))

abbrev runs : List ℕ → String
runs [] = "."
runs (x ∷ xs) = tick x (runs xs)

pub runs_injective : (xs ys : List ℕ) → length xs ≡ length ys → runs xs ≡ runs ys → xs ≡ ys
runs_injective [] [] n h = refl
runs_injective [] (y ∷ ys) n h = absurd (ground (arith, n))
runs_injective (x ∷ xs) [] n h = absurd (ground (arith, n))
runs_injective (x ∷ xs) (y ∷ ys) n h =
    ground (arith, tick_inj x y (runs xs) (runs ys) h, runs_injective xs ys (ground (arith, n)))

abbrev pub hw_text : HwText
hw_text = record { print = runs; print_injective = λ a b p q h. runs_injective a b (p ∙ sym q) h }

pub differs : (a b : String) → string_eq.beq a b ≡ false → a ≢ b
differs a b h e = ground (arith, string_eq.beq_iff a b, h, e)
