-- ===== src/Cache/Lease/Alloc.antt =====
-- Which address allocLease finds.
use openlan.Base.{
  ℕ, zero, suc, ◌+◌, ◌%◌, ◌^◌, ◌≤◌, ◌<◌, ◌≡◌, ◌∙◌, ◌⊎◌, inl, inr, Bool, true, false, some, String,
  arith, Bool-cases,
}
use mathlib.Core.Path.{subst}
use native.Mathlib.Decide.{dec_lt, dec_le}
use openlan.Safe.StrMap
use openlan.Cache.Lease.{
  IpText, v4, Cache, Allocated, address, exhausted, alloc_loop, alloc_between, alloc_lease,
}

module _ (ip : IpText) where
  -- An address that some lease is recorded under.
  abbrev pub taken : Cache → ℕ → Bool
  taken w j = (StrMap.get_ex (ip.print j) w.addrs).1

  -- The first free address from i to `last`, or none where all are taken.
  abbrev pub FirstFree : Cache → ℕ → ℕ → Allocated → Type 0
  FirstFree w i last r =
      ((a : ℕ) × (r ≡ address (ip.print a))
        × (i ≤ a)
        × (a ≤ last)
        × (taken w a ≡ false)
        × ((j : ℕ) → i ≤ j → j < a → taken w j ≡ true))
      ⊎ ((r ≡ exhausted) × ((j : ℕ) → i ≤ j → j ≤ last → taken w j ≡ true))

  at_or_after : (P : ℕ → Type 0) (i j : ℕ) → P i → i ≤ j → ((i + 1) ≤ j → P j) → P j
  at_or_after P i j here h later = elim (dec_lt i j) [
    | yes lt ↦ later (omega arith)
    | no ge ↦ let e : i ≡ j = omega arith in subst P e here
  ]

  -- One more taken address in front.
  FirstFree-step :
      (w : Cache) (i last : ℕ) (r : Allocated)
      → i ≤ last
      → taken w i ≡ true
      → FirstFree w (i + 1) last r
      → FirstFree w i last r
  FirstFree-step w i last r inside used (inl (a, e, lo, hi, free, before)) = inl (
    a,
    e,
    omega arith,
    hi,
    free,
    λ j p q.
        at_or_after (λ k. k < a → taken w k ≡ true) i j (λ _. used) p (λ l lt. before j l lt) q,
  )
  FirstFree-step w i last r inside used (inr (e, all)) = inr (
    e,
    λ j p q.
        at_or_after (λ k. k ≤ last → taken w k ≡ true) i j (λ _. used) p (λ l le. all j l le) q,
  )

  alloc_loop-FirstFree :
      (fuel i last : ℕ) (w : Cache)
      → last + 1 < 2 ^ 32
      → i ≤ last + 1
      → last + 1 < fuel + i
      → FirstFree w i last (alloc_loop ip fuel i last w)
  unfolding alloc_loop
  alloc_loop-FirstFree zero i last w big h f = absurd (omega arith)
  alloc_loop-FirstFree (suc fuel) i last w big h f = elim (dec_le i last) [
    | no past ↦ inr (ground arith, λ j a b. absurd (omega arith))
    | yes inside ↦ elim (Bool-cases (taken w i)) [
      | inr free ↦
          inl (i, ground (arith, free), omega arith, inside, free, λ j a b. absurd (omega arith))
      | inl used ↦
          let wraps_not : (i + 1) % 2 ^ 32 ≡ i + 1 = omega arith in
          let ih = alloc_loop-FirstFree fuel (i + 1) last w big (omega arith) (omega arith) in
          let step : alloc_loop ip (suc fuel) i last w ≡ alloc_loop ip fuel (i + 1) last w =
            ground (arith, wraps_not, used) in
          rw step (FirstFree-step w i last _ inside used ih)
    ]
  ]

  -- Where both ends parse as IPv4 addresses and the last is not 255.255.255.255, allocLease ends,
  -- with the first address of the range that no lease is recorded under, or with none where they all
  -- are taken.
  pub alloc_lease-FirstFree :
      (fuel first last : ℕ) (s_addr e_addr : String) (w : Cache)
      → ip.parse s_addr ≡ some (v4 first)
      → ip.parse e_addr ≡ some (v4 last)
      → last + 1 < 2 ^ 32
      → first ≤ last + 1
      → last + 1 < fuel + first
      → FirstFree w first last (alloc_lease ip fuel s_addr e_addr w)
  unfolding alloc_lease alloc_between
  alloc_lease-FirstFree fuel first last s_addr e_addr w ps pe big h f =
      rw (ps, pe) (alloc_loop-FirstFree fuel first last w big h f)

  -- Where the range ends at 255.255.255.255 and all of it is taken, the counter wraps and allocLease
  -- hands out 0.0.0.0, if that is free, although the range does not hold it.
  pub alloc_loop_wraps :
      (fuel i : ℕ) (w : Cache)
      → 0 < i
      → i < 2 ^ 32
      → 2 ^ 32 < fuel + i
      → ((j : ℕ) → i ≤ j → j < 2 ^ 32 → taken w j ≡ true)
      → taken w 0 ≡ false
      → alloc_loop ip fuel i 4294967295 w ≡ address (ip.print 0)
  unfolding alloc_loop
  alloc_loop_wraps zero i w pos h f all free = absurd (omega arith)
  alloc_loop_wraps (suc zero) i w pos h f all free = absurd (omega arith)
  alloc_loop_wraps (suc (suc fuel)) i w pos h f all free = elim (dec_lt (i + 1) (2 ^ 32)) [
    | yes within ↦
        let next : (i + 1) % 2 ^ 32 ≡ i + 1 = omega arith in
        let ih =
          alloc_loop_wraps (suc fuel) (i + 1) w (omega arith) (omega arith) (omega arith)
            (λ j p q. all j (omega arith) q) free in
        let step : alloc_loop ip (suc (suc fuel)) i 4294967295 w
            ≡ alloc_loop ip (suc fuel) (i + 1) 4294967295 w =
          ground (arith, next, all i) in
        step ∙ ih
    | no at_end ↦ let next : (i + 1) % 2 ^ 32 ≡ 0 = omega arith in ground (arith, next, all i)
  ]
