-- ===== src/Point/Routes/Equal.antt =====
-- NetworkEqual does not see the order of routes, and sees all else of them.
use openlan.Base.{
  ℕ, ◌≡◌, ◌↔◌, refl, ap, sym, ◌∙◌, true, List, [], ◌∷◌, length, map, string_eq, arith,
}
use openlan.Base.Text.{bytes_eq_iff}
use openlan.Point.Routes.{Network, text, sort, place, all_equal, routes_equal, equal}
use openlan.Point.Routes.Sorting.{count, count-sort, sort-IsSorted, sorted_unique}

length-place : (x : List ℕ) (ys : List (List ℕ)) → length (place x ys) ≡ length (x ∷ ys)
length-place x [] = refl
length-place x (y ∷ ys) = ground (arith, length-place x ys)

length-sort : (xs : List (List ℕ)) → length (sort xs) ≡ length xs
length-sort [] = refl
length-sort (x ∷ xs) = ground (arith, length-place x (sort xs), length-sort xs)

all_equal_iff :
    (xs ys : List (List ℕ)) → length xs ≡ length ys → (all_equal xs ys ≡ true) ↔ (xs ≡ ys)
all_equal_iff [] [] h = (λ e. refl, λ e. refl)
all_equal_iff [] (y ∷ ys) h = absurd (ground arith)
all_equal_iff (x ∷ xs) [] h = absurd (ground arith)
all_equal_iff (x ∷ xs) (y ∷ ys) h = ground (arith, bytes_eq_iff x y, all_equal_iff xs ys)

routes_equal_iff :
    (xs ys : List (List ℕ)) → (routes_equal xs ys ≡ true) ↔ ((k : List ℕ) → count k xs ≡ count k ys)
unfolding routes_equal
routes_equal_iff xs ys = (
  λ h k.
      let same : sort xs ≡ sort ys =
        (all_equal_iff (sort xs) (sort ys) (ground (arith, length-sort xs, length-sort ys, h))).0
          (ground (arith, h)) in
      sym (count-sort k xs) ∙ ap (count k) same ∙ count-sort k ys,
  λ h.
      let same : sort xs ≡ sort ys =
        sorted_unique (sort xs) (sort ys) (sort-IsSorted xs) (sort-IsSorted ys)
          (λ k. count-sort k xs ∙ h k ∙ sym (count-sort k ys)) in
      let len : length xs ≡ length ys = sym (length-sort xs) ∙ ap length same ∙ length-sort ys in
      let eq = (all_equal_iff (sort xs) (sort ys) (ap length same)).1 same in
      ground (arith, len, eq),
)

-- Two networks count as equal exactly if they have the same address and netmask and every route, by
-- its text, stands equally often in both, in whatever order.
pub equal_iff :
    (o n : Network)
    → (equal o n ≡ true) ↔ (
        (o.if_addr ≡ n.if_addr)
        × (o.netmask ≡ n.netmask)
        × ((k : List ℕ) → count k (map text o.routes) ≡ count k (map text n.routes)))
unfolding equal
equal_iff o n =
    let r = routes_equal_iff (map text o.routes) (map text n.routes) in
    (
      λ h. (
        ground (arith, h, string_eq.beq_iff o.if_addr n.if_addr),
        ground (arith, h, string_eq.beq_iff o.netmask n.netmask),
        r.0 (ground (arith, h)),
      ),
      λ h. ground (
        arith,
        h.0,
        h.1,
        r.1 h.2,
        string_eq.beq_iff o.if_addr n.if_addr,
        string_eq.beq_iff o.netmask n.netmask,
      ),
    )
