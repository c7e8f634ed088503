-- ===== src/App/Request/Addresses.antt =====
-- What a request for an address leaves of the leases.
use openlan.Base.{
  ℕ, zero, suc, ◌≡◌, ◌≢◌, ◌⊎◌, refl, ◌∙◌, inl, inr, Option, none, some, List, [], ◌∷◌, ◌++◌, String,
  string_eq, if◌then◌else◌, ◌==◌, arith, Option-cases, Bool-cases,
}
use openlan.Base.Slices.{◌>>=◌}
use openlan.Safe.StrMap
use openlan.Cache.Lease
use openlan.Cache.Lease.{
  Cache, Lease, Network, IpText, Ref, deref, Allocated, address, exhausted, panics, unfinished,
  granted, new_lease, add_lease, get_lease_by_alias, alloc_lease,
}
use openlan.Cache.Lease.Store.{deref-append, deref-lt}
use openlan.Cache.Points.{Point}
use openlan.App.Request.{
  change, modify, aliased, lease_of, lease_added, lease_at, owned, get_lease, before_slash,
}

-- Every lease keeps its address, and all but one keep everything.
abbrev pub Keeps : Option Ref → List Lease → List Lease → Type 0
Keeps o ls ls1 =
    (q : Ref) (l : Lease)
    → deref ls q ≡ some l
    → (l1 : Lease) × (deref ls1 q ≡ some l1) × (l1.address ≡ l.address) × (o ≢ some q → l1 ≡ l)

deref-change :
    (f : Lease → Lease) (p q : Ref) (ls : List Lease) (l : Lease)
    → deref ls q ≡ some l
    → deref (change f p ls) q ≡ some (if p == q then f l else l)
unfolding deref change
deref-change f p q [] l h = cc
deref-change f zero zero (x ∷ ls) l h = ground (arith, h)
deref-change f zero (suc q) (x ∷ ls) l h = ground (arith, h)
deref-change f (suc p) zero (x ∷ ls) l h = ground (arith, h)
deref-change f (suc p) (suc q) (x ∷ ls) l h = ground (arith, deref-change f p q ls l h)

change-Keeps :
    (f : Lease → Lease) (p : Ref) (ls : List Lease)
    → ((l : Lease) → (f l).address ≡ l.address)
    → Keeps (some p) ls (change f p ls)
change-Keeps f p ls k q l h = elim (Bool-cases (p == q)) [
  | inl e ↦ (
    f l,
    ground (arith, deref-change f p q ls l h, e),
    k l,
    λ other. absurd (other (ground (arith, e))),
  )
  | inr e ↦ (l, ground (arith, deref-change f p q ls l h, e), refl, λ other. refl)
]

same-Keeps : (o : Option Ref) (ls : List Lease) → Keeps o ls ls
same-Keeps o ls q l h = (l, h, refl, λ other. refl)

append-Keeps : (o : Option Ref) (ls : List Lease) (x : Lease) → Keeps o ls (ls ++ (x ∷ []))
append-Keeps o ls x q l h =
    (l, deref-append ls (x ∷ []) q (deref-lt ls q h) ∙ h, refl, λ other. refl)

Keeps-then :
    (o : Option Ref) (ls ms ns : List Lease) → Keeps o ls ms → Keeps o ms ns → Keeps o ls ns
Keeps-then o ls ms ns a b q l h =
    let (l1, h1, e1, s1) = a q l h in
    let (l2, h2, e2, s2) = b q l1 h1 in (l2, h2, e2 ∙ e1, λ other. s2 other ∙ s1 other)

add_lease-Keeps :
    (o : Option Ref) (uuid addr : String) (w : Cache)
    → Keeps o w.heap (add_lease uuid addr w).0.heap
unfolding add_lease
add_lease-Keeps o uuid addr w = elim (Bool-cases (string_eq.beq addr "")) [
  | inl e ↦ rw e (same-Keeps o w.heap)
  | inr e ↦ rw e (append-Keeps o w.heap _)
]

-- What a result keeps of a heap.
abbrev KeepsIn : List Lease → Option (Cache × Option Ref) → Type 0
KeepsIn ls none = Unit
KeepsIn ls (some (w, o)) = Keeps o ls w.heap

-- A change through the pointer of the result.
modified :
    (f : Lease → Lease) (ls : List Lease) (w : Cache) (p : Ref)
    → ((l : Lease) → (f l).address ≡ l.address)
    → Keeps (some p) ls w.heap
    → Keeps (some p) ls (modify f p w).heap
unfolding modify
modified f ls w p k a =
    Keeps-then (some p) ls w.heap (change f p w.heap) a (change-Keeps f p w.heap k)

owned-KeepsIn :
    (p : Point) (n : Network) (ls : List Lease) (r : Cache × Option Ref)
    → KeepsIn ls (some r)
    → KeepsIn ls (some (owned p n r))
unfolding owned
owned-KeepsIn p n ls (w, none) k = k
owned-KeepsIn p n ls (w, some l) k =
    modified (λ x. record x { network = n.name; client = p.client.name }) ls w l (λ x. refl) k

aliased-KeepsIn :
    (p : Point) (ls : List Lease) (o : Option (Cache × Option Ref))
    → KeepsIn ls o
    → KeepsIn ls (o >>= aliased p)
unfolding aliased
aliased-KeepsIn p ls none k = tt
aliased-KeepsIn p ls (some (w, none)) k = k
aliased-KeepsIn p ls (some (w, some l)) k =
    modified (λ x. record x { alias = p.alias }) ls w l (λ x. refl) k

lease_added-KeepsIn :
    (addr : String) (p : Point) (w : Cache) → KeepsIn w.heap (lease_added addr p w)
unfolding lease_added
lease_added-KeepsIn addr p w = elim (Option-cases (add_lease p.uuid addr w).1) [
  | inl e ↦ rw (lease_added, e) tt
  | inr (l, e) ↦
      rw (lease_added, e)
        (modified (λ x. record x { alias = p.alias }) w.heap (add_lease p.uuid addr w).0 l
          (λ x. refl) (add_lease-Keeps (some l) p.uuid addr w))
]

renamed-Keeps :
    (p : Point) (w : Cache) (l : Ref)
    → Keeps (some l) w.heap (modify (λ x. record x { uuid = p.uuid }) l w).heap
renamed-Keeps p w l =
    modified (λ x. record x { uuid = p.uuid }) w.heap w l (λ x. refl) (same-Keeps (some l) w.heap)

lease_at-KeepsIn : (addr : String) (p : Point) (w : Cache) → KeepsIn w.heap (lease_at addr p w)
unfolding lease_at
lease_at-KeepsIn addr p w = elim (Option-cases (get_lease_by_alias p.alias w)) [
  | inl e ↦ rw (lease_at, e) (lease_added-KeepsIn addr p w)
  | inr (l, e) ↦ elim (Option-cases (deref w.heap l)) [
    | inl d ↦ rw (lease_at, e, d) tt
    | inr (x, d) ↦ elim (Bool-cases (string_eq.beq x.address addr)) [
      | inl q ↦ rw (lease_at, e, d, q) (renamed-Keeps p w l)
      | inr q ↦ rw (lease_at, e, d, q) (lease_added-KeepsIn addr p w)
    ]
  ]
]

module _ (ip : IpText) where
  -- NewLease returns the cache as it was, or what it makes of an allocation.
  new_lease-cases :
      (fuel : ℕ) (uuid network : String) (w : Cache)
      → ((o : Option Ref) × (new_lease ip fuel uuid network w ≡ some (w, o)))
        ⊎ ((a : Allocated) × (new_lease ip fuel uuid network w ≡ granted ip uuid a w))
  unfolding new_lease
  new_lease-cases fuel uuid network w = elim (Option-cases (Lease.get network w)) [
    | inl e ↦ inl (none, ground (arith, e))
    | inr (n, e) ↦ elim (Bool-cases (string_eq.beq uuid "")) [
      | inl u ↦ inl (none, ground (arith, e, u))
      | inr u ↦ elim (Bool-cases (StrMap.get_ex uuid w.uuids).1) [
        | inl t ↦ inl ((StrMap.get_ex uuid w.uuids).0, ground (arith, e, u, t))
        | inr t ↦ inr (alloc_lease ip fuel n.ip_start n.ip_end w, ground (arith, e, u, t))
      ]
    ]
  ]

  granted-KeepsIn :
      (uuid : String) (a : Allocated) (w : Cache) → KeepsIn w.heap (granted ip uuid a w)
  unfolding granted
  granted-KeepsIn uuid (address a) w =
      add_lease-Keeps (Lease.get_lease uuid (add_lease uuid a w).0) uuid a w
  granted-KeepsIn uuid exhausted w = same-Keeps none w.heap
  granted-KeepsIn uuid panics w = tt
  granted-KeepsIn uuid unfinished w = tt

  new_lease-KeepsIn :
      (fuel : ℕ) (uuid network : String) (w : Cache)
      → KeepsIn w.heap (new_lease ip fuel uuid network w)
  new_lease-KeepsIn fuel uuid network w = elim (new_lease-cases fuel uuid network w) [
    | inl (o, e) ↦ rw e (same-Keeps o w.heap)
    | inr (a, e) ↦ rw e (granted-KeepsIn uuid a w)
  ]

  lease_of-KeepsIn :
      (fuel : ℕ) (p : Point) (n : Network) (w : Cache) → KeepsIn w.heap (lease_of ip fuel p n w)
  unfolding lease_of
  lease_of-KeepsIn fuel p n w = elim (Option-cases (get_lease_by_alias p.alias w)) [
    | inl e ↦
        rw (lease_of, e)
          (aliased-KeepsIn p w.heap (new_lease ip fuel p.uuid n.name w)
            (new_lease-KeepsIn fuel p.uuid n.name w))
    | inr (l, e) ↦ rw (lease_of, e) (renamed-Keeps p w l)
  ]

  owned-bind :
      (p : Point) (n : Network) (ls : List Lease) (o : Option (Cache × Option Ref))
      → KeepsIn ls o
      → KeepsIn ls (o >>= λ r. some (owned p n r))
  owned-bind p n ls none k = tt
  owned-bind p n ls (some r) k = owned-KeepsIn p n ls r k

  get_lease-KeepsIn :
      (fuel : ℕ) (if_addr : String) (p : Point) (n : Option Network) (w : Cache)
      → KeepsIn w.heap (get_lease ip fuel if_addr p n w)
  unfolding get_lease
  get_lease-KeepsIn fuel if_addr p none w = same-Keeps none w.heap
  get_lease-KeepsIn fuel if_addr p (some n) w = elim (Bool-cases (string_eq.beq if_addr "")) [
    | inl e ↦
        rw (get_lease, e)
          (owned-bind p n w.heap (lease_of ip fuel p n w) (lease_of-KeepsIn fuel p n w))
    | inr e ↦
        let addr = before_slash if_addr in
        rw (get_lease, e) (owned-bind p n w.heap (lease_at addr p w) (lease_at-KeepsIn addr p w))
  ]

  -- Whatever address a point asks for, if any: once getLease returns, every lease that was there has
  -- the address that it had, and every one but that which getLease returns is as it was.
  pub get_lease-Keeps :
      (fuel : ℕ) (if_addr : String) (p : Point) (n : Option Network) (w w1 : Cache) (o : Option Ref)
      (q : Ref) (l : Lease)
      → get_lease ip fuel if_addr p n w ≡ some (w1, o)
      → deref w.heap q ≡ some l
      → (l1 : Lease) × (deref w1.heap q ≡ some l1)
        × (l1.address ≡ l.address)
        × (o ≢ some q → l1 ≡ l)
  get_lease-Keeps fuel if_addr p n w w1 o q l h d =
      let k : Keeps o w.heap w1.heap = rw h at (get_lease-KeepsIn fuel if_addr p n w) in k q l d
