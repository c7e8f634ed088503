-- ===== src/App/NeighborTable/Learning.antt =====
-- What the switch's table of neighbours holds after the ARP packets that it has seen.
use openlan.Base.{
  ℕ, ◌≡◌, ◌≢◌, ◌⊎◌, ◌∙◌, refl, true, false, inl, inr, Option, none, some, List, [], ◌∷◌, String,
  string_eq, if◌then◌else◌, arith, Option-cases, Bool-cases,
}
use openlan.Base.Assoc.{lookup, insert, has_key-lookup, lookup-insert, length-insert}
use openlan.Safe.Full.{is_full}
use openlan.Safe.StrMap
use openlan.App.NeighborTable.{
  Neighbor, Client, Table, update, new_neighbor, init, get, add, add_neighbor,
}

-- A packet's sender as the handler passes it on: the time, its addresses, and the client.
pub record Sighting : Type 0 where
  pub now : ℕ
  pub hw_addr : List ℕ
  pub ip_addr : List ℕ
  pub client : Client

module _ (print : List ℕ → String) where
  unfoldable pub sight : Sighting → Table → Table
  sight s p = add_neighbor print s.now (new_neighbor s.now s.hw_addr s.ip_addr s.client) s.client p

  unfoldable pub run : List Sighting → Table → Table
  run [] p = p
  run (s ∷ ss) p = run ss (sight s p)

  -- The hardware address and the first time that an entry has.
  abbrev pub first_of : Option Neighbor → Option (List ℕ × ℕ)
  first_of none = none
  first_of (some n) = some (n.hw_addr, n.new_time)

  -- The first sighting of an address.
  abbrev pub first_sighting : String → List Sighting → Option (List ℕ × ℕ)
  first_sighting k [] = none
  first_sighting k (s ∷ ss) =
      if string_eq.beq (print s.ip_addr) k then some (s.hw_addr, s.now) else first_sighting k ss

  abbrev pub or_else : Option (List ℕ × ℕ) → Option (List ℕ × ℕ) → Option (List ℕ × ℕ)
  or_else none o = o
  or_else (some a) o = some a

  -- No entry is nil.
  abbrev HasNoNil : Table → Type 0
  HasNoNil p = (k : String) → lookup k p.entries ≢ some none

  entry_of : Sighting → Neighbor
  entry_of s = new_neighbor s.now s.hw_addr s.ip_addr s.client

  entry_of-fields :
      (s : Sighting)
      → ((entry_of s).ip_addr ≡ s.ip_addr)
        × ((entry_of s).hw_addr ≡ s.hw_addr)
        × ((entry_of s).new_time ≡ s.now)
  unfolding entry_of new_neighbor update
  entry_of-fields s = elim (Option-cases s.client.point) [
    | inl e ↦ ground (arith, e)
    | inr ((n, d), e) ↦ ground (arith, e)
  ]

  -- The entries after a packet whose sender is new, where there is room.
  sight-new :
      (s : Sighting) (p : Table)
      → lookup (print s.ip_addr) p.entries ≡ none
      → is_full p.size p.entries ≡ false
      → sight s p ≡ record p { entries = insert (print s.ip_addr) (some (entry_of s)) p.entries }
  unfolding sight add_neighbor add get StrMap.get StrMap.get_ex StrMap.set StrMap.add entry_of
  sight-new s p h f =
      ground (arith, h, f, entry_of-fields s, has_key-lookup (print s.ip_addr) p.entries)

  sight-full :
      (s : Sighting) (p : Table)
      → lookup (print s.ip_addr) p.entries ≡ none
      → is_full p.size p.entries ≡ true
      → sight s p ≡ p
  unfolding sight add_neighbor add get StrMap.get StrMap.get_ex StrMap.set StrMap.add entry_of
  sight-full s p h f =
      ground (arith, h, f, entry_of-fields s, has_key-lookup (print s.ip_addr) p.entries)

  sight-known :
      (s : Sighting) (n : Neighbor) (p : Table)
      → lookup (print s.ip_addr) p.entries ≡ some (some n)
      → sight s p ≡ record p {
        entries =
            insert
              (print s.ip_addr)
              (some (record (update s.client n) { hit_time = s.now }))
              p.entries;
      }
  unfolding sight add_neighbor get StrMap.get StrMap.get_ex StrMap.modify entry_of
  sight-known s n p h =
      ground (arith, h, entry_of-fields s, has_key-lookup (print s.ip_addr) p.entries)

  sight-NoNil : (s : Sighting) (p : Table) → HasNoNil p → HasNoNil (sight s p)
  sight-NoNil s p g k = elim (Option-cases (lookup (print s.ip_addr) p.entries)) [
    | inl h ↦ elim (Bool-cases (is_full p.size p.entries)) [
      | inl f ↦ rw (sight-full s p h f) (g k)
      | inr f ↦
          rw (sight-new s p h f)
            (ground (arith, g k, lookup-insert (print s.ip_addr) k (some (entry_of s)) p.entries))
    ]
    | inr (none, h) ↦ absurd (g (print s.ip_addr) h)
    | inr (some n, h) ↦ rw (sight-known s n p h) (
        ground (
          arith,
          g k,
          lookup-insert (print s.ip_addr) k (some (record (update s.client n) { hit_time = s.now }))
              p.entries,
        ))
  ]

  kept-update :
      (c : Client) (n : Neighbor)
      → ((update c n).hw_addr ≡ n.hw_addr) × ((update c n).new_time ≡ n.new_time)
  unfolding update
  kept-update c n = elim (Option-cases c.point) [
    | inl e ↦ ground (arith, e)
    | inr ((w, d), e) ↦ ground (arith, e)
  ]

  -- What one packet does to the entry of an address: it stays what it is, or it comes in.
  sight-first :
      (k : String) (s : Sighting) (p : Table)
      → HasNoNil p
      → first_of (get k (sight s p))
        ≡ or_else
            (first_of (get k p))
            (if is_full p.size p.entries then none else first_sighting k (s ∷ []))
  unfolding get StrMap.get StrMap.get_ex
  sight-first k s p g = elim (Option-cases (lookup (print s.ip_addr) p.entries)) [
    | inl h ↦ elim (Bool-cases (is_full p.size p.entries)) [
      | inl f ↦ rw (sight-full s p h f) (ground (arith, f))
      | inr f ↦ rw (sight-new s p h f) (
          ground (
            arith,
            f,
            h,
            string_eq.beq_iff (print s.ip_addr) k,
            entry_of-fields s,
            lookup-insert (print s.ip_addr) k (some (entry_of s)) p.entries,
          ))
    ]
    | inr (none, h) ↦ absurd (g (print s.ip_addr) h)
    | inr (some n, h) ↦ rw (sight-known s n p h) (
        ground (
          arith,
          h,
          string_eq.beq_iff (print s.ip_addr) k,
          kept-update s.client n,
          lookup-insert (print s.ip_addr) k (some (record (update s.client n) { hit_time = s.now }))
              p.entries,
        ))
  ]

  sight-is_full :
      (s : Sighting) (p : Table)
      → HasNoNil p
      → is_full p.size p.entries ≡ true
      → is_full (sight s p).size (sight s p).entries ≡ true
  sight-is_full s p g f = elim (Option-cases (lookup (print s.ip_addr) p.entries)) [
    | inl h ↦ rw (sight-full s p h f) f
    | inr (none, h) ↦ absurd (g (print s.ip_addr) h)
    | inr (some n, h) ↦
        let e = record (update s.client n) { hit_time = s.now } in
        rw (sight-known s n p h)
          (ground (arith, f, h, length-insert (print s.ip_addr) (some e) p.entries))
  ]

  -- An address that is not there when the table is full stays out.
  run_full :
      (k : String) (ss : List Sighting) (p : Table)
      → HasNoNil p
      → is_full p.size p.entries ≡ true
      → (first_of (get k (run ss p)) ≡ first_of (get k p))
        × (is_full (run ss p).size (run ss p).entries ≡ true)
  unfolding run
  run_full k [] p g f = (refl, f)
  run_full k (s ∷ ss) p g f =
      let r = run_full k ss (sight s p) (sight-NoNil s p g) (sight-is_full s p g f) in
      let or_none : or_else (first_of (get k p)) none ≡ first_of (get k p) =
        ground (arith, Option-cases (first_of (get k p))) in
      (r.0 ∙ (ground (arith, sight-first k s p g, f, or_none)), r.1)

  run-first :
      (k : String) (ss : List Sighting) (p : Table)
      → HasNoNil p
      → (first_of (get k (run ss p)) ≡ or_else (first_of (get k p)) (first_sighting k ss))
        ⊎ ((first_of (get k (run ss p)) ≡ none)
            × (is_full (run ss p).size (run ss p).entries ≡ true))
  unfolding run
  run-first k [] p g = inl (ground (arith, Option-cases (first_of (get k p))))
  run-first k (s ∷ ss) p g = elim (Bool-cases (is_full p.size p.entries)) [
    | inl f ↦
        let r = run_full k (s ∷ ss) p g f in
        elim (Option-cases (first_of (get k p))) [
          | inl e ↦ inr (r.0 ∙ e, r.1)
          | inr (a, e) ↦ inl (ground (arith, r.0, e))
        ]
    | inr f ↦ ground (
      arith,
      f,
      sight-first k s p g,
      Option-cases (first_of (get k p)),
      run-first k ss (sight s p) (sight-NoNil s p g),
    )
  ]

  -- Whatever ARP packets the switch has seen since its table was made, an address that is in it has
  -- the hardware address and the time of the first packet that came from it; later packets, also
  -- those with another hardware address, change neither. An address that is not in it has sent
  -- nothing, unless the table has become full.
  pub run-init-first :
      (k : String) (size : ℕ) (ss : List Sighting)
      → (first_of (get k (run ss (init size))) ≡ first_sighting k ss)
        ⊎ ((first_of (get k (run ss (init size))) ≡ none)
            × (is_full (run ss (init size)).size (run ss (init size)).entries ≡ true))
  unfolding init get StrMap.new StrMap.get StrMap.get_ex lookup
  run-init-first k size ss = run-first k ss (init size) (λ j e. absurd (ground arith))
