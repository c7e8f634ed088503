-- ===== src/Cache/Users/Login.antt =====
-- Who Check lets in, and what Add keeps.
use openlan.Base.{
  ℕ, ◌≡◌, ◌≢◌, ◌⊎◌, inl, inr, Bool, true, false, ◌&&◌, Option, none, some, String, string_eq, arith,
  if◌then◌else◌, Option-cases, Bool-cases,
}
use openlan.Safe.StrMap
use openlan.Safe.StrMap.Laws.{get_ex-set, get_ex-modify}
use openlan.Safe.Full.{is_full}
use openlan.Cache.Users.{
  User, Users, stored, fresh, id, get, add, merged, write, check, check_other, check_ldap, is_local,
  is_open,
}

there :
    (k : String) (w : Users) (u : User)
    → (StrMap.get_ex k w).0 ≡ some u
    → (StrMap.get_ex k w).1 ≡ true
unfolding StrMap.get_ex
there k w u h = ground (arith, h)

-- The entry that Add leaves under the user's key, from what was there and whether the map was full.
abbrev pub added : User → Option User × Bool → Bool → Option User
added u (some older, there) full = some (merged older u)
added u (none, true) full = none
added u (none, false) full = if full then none else some u

-- Add merges a user into the entry that is there, or stores it if there is room, and leaves all other
-- accounts as they were.
pub get-add :
    (u : User) (w : Users) (k : String)
    → get k (add u w) ≡ (
        if string_eq.beq (id u) k
        then added u (StrMap.get_ex (id u) w) (is_full w.size w.entries)
        else get k w)
unfolding add get write StrMap.get
get-add u w k = elim (Option-cases (StrMap.get_ex (id u) w).0) [
  | inl e ↦ ground (arith, e, get_ex-set (id u) k (some u) w, string_eq.beq_iff (id u) k)
  | inr (older, e) ↦ ground (
    arith,
    e,
    there (id u) w older e,
    get_ex-modify (id u) k (some (merged older u)) w,
    string_eq.beq_iff (id u) k,
  )
]

module _ (lower : String → String) (now : ℕ) (ldap : Option (String → String → Bool)) where
  -- The reasons for which Check lets a user in.
  pub data Reason (obj : User) (w : Users) : Type 0 where
    password_matches :
        (u : User)
        → get (id obj) w ≡ some u
        → u.password ≡ obj.password
        → is_local u ≡ true
        → is_open now u ≡ true
        → Reason obj w
    ldap_accepts :
        (login : String → String → Bool)
        → ldap ≡ some login
        → login (id obj) obj.password ≡ true
        → Reason obj w

  check_ldap_accepts :
      (obj : User) (w : Users) (u : User)
      → (check_ldap lower now ldap obj w).1 ≡ some u
      → Reason obj w
  unfolding check_ldap
  check_ldap_accepts obj w u h = elim (Option-cases ldap) [
    | inl e ↦ absurd (ground (arith, e, h))
    | inr (login, e) ↦
        ldap_accepts login e (ground (arith, e, h, Bool-cases (login (id obj) obj.password)))
  ]

  check_other_accepts :
      (obj : User) (w : Users) (u : User)
      → (check_other lower now ldap obj w).1 ≡ fresh u
      → Reason obj w
  unfolding check_other
  check_other_accepts obj w u h = elim (Option-cases (check_ldap lower now ldap obj w).1) [
    | inl e ↦ absurd (ground (arith, e, h))
    | inr (v, e) ↦ check_ldap_accepts obj w v e
  ]

  check_other_fresh :
      (obj : User) (w : Users) (u : User) → (check_other lower now ldap obj w).1 ≢ stored u
  unfolding check_other
  check_other_fresh obj w u h = elim (Option-cases (check_ldap lower now ldap obj w).1) [
    | inl e ↦ ground (arith, e, h)
    | inr (v, e) ↦ ground (arith, e, h)
  ]

  check-stored :
      (obj : User) (w : Users) (u : User) → (check lower now ldap obj w).1 ≡ stored u → Reason obj w
  unfolding check
  check-stored obj w u h = elim (Option-cases (get (id obj) w)) [
    | inl e ↦ absurd (check_other_fresh obj w u (ground (arith, e, h)))
    | inr (v, e) ↦ elim (Bool-cases (is_local v && string_eq.beq v.password obj.password)) [
      | inr f ↦ absurd (check_other_fresh obj w u (ground (arith, e, f, h)))
      | inl t ↦
          password_matches v e (ground (arith, t, string_eq.beq_iff v.password obj.password))
            (ground (arith, t)) (ground (arith, e, t, h))
    ]
  ]

  check-fresh :
      (obj : User) (w : Users) (u : User) → (check lower now ldap obj w).1 ≡ fresh u → Reason obj w
  unfolding check
  check-fresh obj w u h = elim (Option-cases (get (id obj) w)) [
    | inl e ↦ check_other_accepts obj w u (ground (arith, e, h))
    | inr (v, e) ↦ elim (Bool-cases (is_local v && string_eq.beq v.password obj.password)) [
      | inr f ↦ check_other_accepts obj w u (ground (arith, e, f, h))
      | inl t ↦ absurd (ground (arith, e, t, h))
    ]
  ]

  -- Check lets a user in, with the entry or with a new account, only where the entry has the password
  -- given, a role that is not LDAP's and a lease that has not ended, or where there is an LDAP service
  -- and it accepts the name and the password.
  pub check-Reason :
      (obj : User) (w : Users) (u : User)
      → ((check lower now ldap obj w).1 ≡ stored u) ⊎ ((check lower now ldap obj w).1 ≡ fresh u)
      → Reason obj w
  check-Reason obj w u (inl h) = check-stored obj w u h
  check-Reason obj w u (inr h) = check-fresh obj w u h
