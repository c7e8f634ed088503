-- ===== src/App/Online/Agreement.antt =====
-- The list, the map and the cache of the flows name the same flows, whatever comes in.
use openlan.Base.{
  ℕ, suc, ◌+◌, ◌≤◌, ◌≡◌, refl, ◌∙◌, inl, inr, Bool, true, false, Option, none, some, List, [], ◌∷◌,
  ◌++◌, String, string_eq, if◌then◌else◌, ltb, length, arith, Option-cases, Bool-cases,
}
use Prim.Native.Nat.{max}
use openlan.Base.Assoc.{
  lookup, has_key, Distinct, has_key-lookup, lookup-erase, length-insert, length-erase,
  Distinct-insert, Distinct-erase, has_key-insert, has_key-erase,
}
use openlan.Safe.Full.{is_full}
use openlan.Safe.StrMap
use openlan.App.Online.{
  Printer, Line, Online, new, key_of, cache_add, cache_update, drop_front, pop_line, push_line,
  add_line, hit_line,
}

abbrev pub member : String → List String → Bool
member k [] = false
member k (j ∷ ks) = if string_eq.beq j k then true else member k ks

abbrev pub NoRepeats : List String → Type 0
NoRepeats [] = Unit
NoRepeats (k ∷ ks) = (member k ks ≡ false) × NoRepeats ks

member_snoc :
    (k j : String) (ks : List String)
    → member k (ks ++ (j ∷ [])) ≡ (if string_eq.beq j k then true else member k ks)
member_snoc k j [] = refl
member_snoc k j (i ∷ ks) = ground (arith, member_snoc k j ks)

NoRepeats-snoc :
    (j : String) (ks : List String)
    → member j ks ≡ false
    → NoRepeats ks
    → NoRepeats (ks ++ (j ∷ []))
NoRepeats-snoc j [] h d = (refl, tt)
NoRepeats-snoc j (i ∷ ks) h d =
    ground
      (arith, member_snoc i j ks, string_eq.beq_iff i j, string_eq.beq_iff j i, NoRepeats-snoc j ks)

module _ (pr : Printer) where
  abbrev pub names : List Line → List String
  names [] = []
  names (l ∷ ls) = key_of pr l ∷ names ls

  -- The events: the clock and the flow of a packet.
  unfoldable pub run : List (ℕ × Line) → Online → Online
  run [] o = o
  run ((now, line) ∷ es) o = run es (add_line pr now line o)

  names_snoc : (ls : List Line) (l : Line) → names (ls ++ (l ∷ [])) ≡ names ls ++ (key_of pr l ∷ [])
  names_snoc [] l = refl
  names_snoc (x ∷ ls) l = ground (arith, names_snoc ls l)

  length_snoc : (ls : List Line) (l : Line) → length (ls ++ (l ∷ [])) ≡ length ls + 1
  length_snoc [] l = refl
  length_snoc (x ∷ ls) l = omega (arith, length_snoc ls l)

  abbrev Agrees : Online → Type 0
  Agrees o =
      NoRepeats (names o.line_list)
      × Distinct o.line_map
      × Distinct o.lines.entries
      × (length o.lines.entries ≡ length o.line_list)
      × (o.lines.size ≡ o.max_size)
      × ((k : String)
          → (has_key k o.line_map ≡ member k (names o.line_list))
            × (has_key k o.lines.entries ≡ member k (names o.line_list)))

  drop_front-Agrees :
      (l : Line) (ls : List Line) (o : Online)
      → o.line_list ≡ l ∷ ls
      → Agrees o
      → Agrees (drop_front pr (l ∷ ls) o)
  unfolding drop_front StrMap.del
  drop_front-Agrees l ls o h (n, dm, dc, len, size, keys) =
      let k0 = key_of pr l in
      let there : has_key k0 o.lines.entries ≡ true =
        ground (arith, h, (keys k0).1, string_eq.beq_iff k0 k0) in
      (
        ground (arith, h),
        Distinct-erase k0 o.line_map dm,
        ground (arith, there, Distinct-erase k0 o.lines.entries dc),
        elim (Option-cases (lookup k0 o.lines.entries)) [
          | inl e ↦ absurd (ground (arith, there, has_key-lookup k0 o.lines.entries))
          | inr (v, e) ↦ ground (arith, h, there, len, length-erase k0 o.lines.entries e)
        ],
        ground (arith, there),
        λ k. (
          ground (arith, h, (keys k).0, has_key-erase k0 k o.line_map dm, string_eq.beq_iff k0 k),
          ground (
            arith,
            h,
            there,
            (keys k).1,
            has_key-erase k0 k o.lines.entries dc,
            string_eq.beq_iff k0 k,
          ),
        ),
      )

  push_line-Agrees :
      (l : Line) (o : Online)
      → lookup (key_of pr l) o.line_map ≡ none
      → is_full o.lines.size o.lines.entries ≡ false
      → Agrees o
      → Agrees (push_line pr l o)
  unfolding push_line cache_add StrMap.set StrMap.add
  push_line-Agrees l o h f (n, dm, dc, len, size, keys) =
      let k0 = key_of pr l in
      let new : member k0 (names o.line_list) ≡ false =
        ground (arith, h, (keys k0).0, has_key-lookup k0 o.line_map) in
      let absent : has_key k0 o.lines.entries ≡ false = (keys k0).1 ∙ new in
      (
        rw (names_snoc o.line_list l) (NoRepeats-snoc k0 (names o.line_list) new n),
        Distinct-insert k0 l o.line_map dm,
        ground (arith, f, absent, Distinct-insert k0 (some l) o.lines.entries dc),
        ground (
          arith,
          f,
          absent,
          len,
          length_snoc o.line_list l,
          length-insert k0 (some l) o.lines.entries,
          has_key-lookup k0 o.lines.entries,
        ),
        ground (arith, f, absent),
        λ k. (
          ground (
            arith,
            names_snoc o.line_list l,
            member_snoc k k0 (names o.line_list),
            (keys k).0,
            has_key-insert k0 k l o.line_map,
          ),
          ground (
            arith,
            f,
            absent,
            names_snoc o.line_list l,
            member_snoc k k0 (names o.line_list),
            (keys k).1,
            has_key-insert k0 k (some l) o.lines.entries,
          ),
        ),
      )

  -- What popLine leaves for a flow that is new: room in the list and in the cache.
  Ready : ℕ → String → Online → Type 0
  Ready max_size k o =
      Agrees o
      × (suc (length o.line_list) ≤ max 1 max_size)
      × (is_full o.lines.size o.lines.entries ≡ false)
      × (o.max_size ≡ max_size)
      × (lookup k o.line_map ≡ none)

  below-Ready :
      (k : String) (o : Online)
      → Agrees o
      → ltb (length o.line_list) o.max_size ≡ true
      → lookup k o.line_map ≡ none
      → Ready o.max_size k o
  unfolding Ready
  below-Ready k o a p h = (a, ground arith, ground (arith, a.3, a.4), refl, h)

  drop_front-Ready :
      (k : String) (ls : List Line) (o : Online)
      → o.line_list ≡ ls
      → Agrees o
      → length ls ≤ max 1 o.max_size
      → ltb (length ls) o.max_size ≡ false
      → lookup k o.line_map ≡ none
      → Ready o.max_size k (drop_front pr ls o)
  unfolding Ready drop_front
  drop_front-Ready k [] o e a b p h = (a, ground (arith, e), ground (arith, e, a.3, a.4), refl, h)
  drop_front-Ready k (l ∷ ls) o e a b p h =
      let a1 = drop_front-Agrees l ls o e a in
      (
        a1,
        ground arith,
        ground (arith, a1.3, a1.4),
        refl,
        ground (arith, lookup-erase (key_of pr l) k o.line_map a.1),
      )

  pop_line-Ready :
      (k : String) (o : Online)
      → Agrees o
      → length o.line_list ≤ max 1 o.max_size
      → lookup k o.line_map ≡ none
      → Ready o.max_size k (pop_line pr o)
  unfolding pop_line
  pop_line-Ready k o a b h = elim (Bool-cases (ltb (length o.line_list) o.max_size)) [
    | inl p ↦ rw p (below-Ready k o a p h)
    | inr p ↦ rw p (drop_front-Ready k o.line_list o refl a b p h)
  ]

  -- The three agree, and there is room for what they hold.
  Holds : ℕ → Online → Type 0
  Holds max_size o = Agrees o × (o.max_size ≡ max_size) × (length o.line_list ≤ max 1 max_size)

  cache_update-keys :
      (l : Line) (lines : StrMap.SafeStrMap Line)
      → Distinct lines.entries
      → Distinct (cache_update pr l lines).entries
        × (length (cache_update pr l lines).entries ≡ length lines.entries)
        × ((cache_update pr l lines).size ≡ lines.size)
        × ((k : String) → has_key k (cache_update pr l lines).entries ≡ has_key k lines.entries)
  unfolding cache_update StrMap.get StrMap.get_ex StrMap.modify
  cache_update-keys l lines d = elim (Option-cases (lookup (key_of pr l) lines.entries)) [
    | inl e ↦ ground (arith, e)
    | inr (none, e) ↦ ground (arith, e)
    | inr (some v, e) ↦
        let new : Option Line = some (record v { hit_time = l.hit_time }) in
        let k0 = key_of pr l in
        let there : has_key k0 lines.entries ≡ true =
          ground (arith, has_key-lookup k0 lines.entries) in
        (
          ground (arith, e, there, Distinct-insert k0 new lines.entries d),
          ground (arith, e, there, length-insert k0 new lines.entries),
          ground (arith, e, there),
          λ k.
              ground
                (arith, e, there, has_key-insert k0 k new lines.entries, string_eq.beq_iff k0 k),
        )
  ]

  hit_line-Holds :
      (now max_size : ℕ) (line find : Line) (o : Online)
      → lookup (key_of pr line) o.line_map ≡ some find
      → Holds max_size o
      → Holds max_size (hit_line pr now line find o)
  unfolding Holds hit_line
  hit_line-Holds now max_size line find o h ((n, dm, dc, len, size, keys), e, b) =
      let k0 = key_of pr line in
      let hit : Line = record find { hit_time = now } in
      let c = cache_update-keys hit o.lines dc in
      (
        (
          n,
          Distinct-insert k0 hit o.line_map dm,
          c.0,
          c.1 ∙ len,
          c.2 ∙ size,
          λ k. (
            ground (
              arith,
              (keys k).0,
              has_key-insert k0 k hit o.line_map,
              has_key-lookup k0 o.line_map,
              string_eq.beq_iff k0 k,
            ),
            c.3 k ∙ (keys k).1,
          ),
        ),
        e,
        b,
      )

  push_line-Holds :
      (max_size : ℕ) (l : Line) (o : Online)
      → Ready max_size (key_of pr l) o
      → Holds max_size (push_line pr l o)
  unfolding Holds Ready push_line
  push_line-Holds max_size l o (a, b, f, e, h) =
      (push_line-Agrees l o h f a, e, omega (arith, length_snoc o.line_list l))

  add_line-Holds :
      (now max_size : ℕ) (line : Line) (o : Online)
      → Holds max_size o
      → Holds max_size (add_line pr now line o)
  unfolding Holds add_line
  add_line-Holds now max_size line o g = elim (Option-cases (lookup (key_of pr line) o.line_map)) [
    | inl h ↦
        rw (add_line, h)
          (let by_size : Ready o.max_size (key_of pr line) (pop_line pr o)
                → Ready max_size (key_of pr line) (pop_line pr o) =
              rw g.1 (λ r. r) in
            let ready : Ready max_size (key_of pr line) (pop_line pr o) =
              by_size (pop_line-Ready (key_of pr line) o g.0 (omega (arith, g.1, g.2)) h) in
            push_line-Holds max_size line (pop_line pr o) ready)
    | inr (find, h) ↦ rw (add_line, h) (hit_line-Holds now max_size line find o h g)
  ]

  run-Holds :
      (max_size : ℕ) (es : List (ℕ × Line)) (o : Online)
      → Holds max_size o
      → Holds max_size (run es o)
  unfolding run
  run-Holds max_size [] o g = g
  run-Holds max_size ((now, line) ∷ es) o g =
      run-Holds max_size es (add_line pr now line o) (add_line-Holds now max_size line o g)

  -- Whatever flows come in at whatever times, the flows of the application and of its cache, which
  -- have one size in the configuration, name the same flows: no flow stands twice in the list, which
  -- is never longer than the size allows (one, for size 0), the map and the cache have an entry for a
  -- name exactly if the list has it, and the cache has as many entries as the list.
  pub run-new-Agrees :
      (max_size : ℕ) (es : List (ℕ × Line))
      → let o = run es (new max_size max_size) in
        NoRepeats (names o.line_list)
        × (length o.line_list ≤ max 1 max_size)
        × (length o.lines.entries ≡ length o.line_list)
        × ((k : String)
            → (has_key k o.line_map ≡ member k (names o.line_list))
              × (has_key k o.lines.entries ≡ member k (names o.line_list)))
  unfolding Holds new StrMap.new has_key
  run-new-Agrees max_size es =
      let start : Holds max_size (new max_size max_size) =
        ((tt, tt, tt, refl, refl, λ k. (refl, refl)), refl, omega arith) in
      let g = run-Holds max_size es (new max_size max_size) start in (g.0.0, g.2, g.0.3, g.0.5)
