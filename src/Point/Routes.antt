-- ===== src/Point/Routes.antt =====
-- NetworkEqual of pkg/models/network.go: the routes of two networks, as texts, are sorted and compared
-- one by one. A text is its bytes; sort.Strings, of the standard library, puts texts in the order of
-- their bytes, and sorts that agree on that give one result.
pub mod Sorting
pub mod Equal
use openlan.Base.{
  ℕ, Bool, true, false, ◌&&◌, ◌||◌, not, Option, none, some, List, [], ◌∷◌, ◌++◌, String, string_eq,
  if◌then◌else◌, ltb, ◌==◌, length, map,
}
use openlan.Base.Text.{codes, bytes_eq}

pub record Route : Type 0 where
  pub prefix : String
  pub next_hop : String
  pub metric : ℕ
  pub mode : String

pub record Network : Type 0 where
  pub name : String
  pub if_addr : String
  pub netmask : String
  pub routes : List Route

-- NewRoute
unfoldable pub new_route : String → String → String → Route
new_route prefix next_hop mode = record {
  prefix = prefix;
  next_hop = next_hop;
  metric = 250;
  mode = mode;
}

-- String of Route
unfoldable pub text : Route → List ℕ
text u = codes u.prefix ++ (codes ", " ++ codes u.next_hop)

-- `<=` on strings
abbrev pub at_most : List ℕ → List ℕ → Bool
at_most [] ys = true
at_most (x ∷ xs) [] = false
at_most (x ∷ xs) (y ∷ ys) = if x == y then at_most xs ys else ltb x y

-- sort.Strings
abbrev pub place : List ℕ → List (List ℕ) → List (List ℕ)
place x [] = x ∷ []
place x (y ∷ ys) = if at_most x y then x ∷ y ∷ ys else y ∷ place x ys

abbrev pub sort : List (List ℕ) → List (List ℕ)
sort [] = []
sort (x ∷ xs) = place x (sort xs)

-- The last loop: texts are compared one by one.
abbrev pub all_equal : List (List ℕ) → List (List ℕ) → Bool
all_equal [] ys = true
all_equal (x ∷ xs) [] = false
all_equal (x ∷ xs) (y ∷ ys) = bytes_eq x y && all_equal xs ys

unfoldable pub routes_equal : List (List ℕ) → List (List ℕ) → Bool
routes_equal ors nrs =
    if not (length ors == length nrs) then false else all_equal (sort ors) (sort nrs)

-- NetworkEqual on two networks that are not nil; equal pointers are equal networks.
unfoldable pub equal : Network → Network → Bool
equal o n =
    if not (string_eq.beq o.if_addr n.if_addr) || not (string_eq.beq o.netmask n.netmask)
    then false
    else routes_equal (map text o.routes) (map text n.routes)

-- NetworkEqual
unfoldable pub network_equal : Option Network → Option Network → Bool
network_equal none none = true
network_equal none (some n) = false
network_equal (some o) none = false
network_equal (some o) (some n) = equal o n
