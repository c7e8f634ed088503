-- ===== src/Tap/Session.antt =====
-- One queue of a tap from Up to Down, with any number of readers that are between the receive and the
-- count.
use openlan.Base.{
  ℕ, ◌+◌, ◌-◌, ◌≤◌, ◌≡◌, ◌≢◌, ◌<◌, ◌⊎◌, inl, inr, refl, ap, sym, ◌∙◌, true, false, none, some, List,
  [], ◌∷◌, ◌++◌, arith, length, length-append, if◌then◌else◌, ltb,
}
use mathlib.Core.List.{append_assoc, append-nil}
use native.Mathlib.Decide.{dec_le}
use openlan.Tap.{
  Queue, Put, dropped, not_up, accepted, blocks, put, enqueue, receive, finish, opened,
}

pub data Event : Type 0 where
  puts : List ℕ → Event
  takes : Event
  finishes : Event

pub record Session : Type 0 where
  pub queue : Queue
  -- readers that received and have not counted yet
  pub pending : ℕ
  -- what was accepted, and what was received, in order
  pub taken_in : List (List ℕ)
  pub given_out : List (List ℕ)

-- The bytes as far as they were accepted.
abbrev pub kept : List ℕ → Put → List (List ℕ)
kept bytes (accepted n) = bytes ∷ []
kept bytes dropped = []
kept bytes not_up = []
kept bytes blocks = []

-- A reader that finds nothing waits, which is no event; nor is a count with no reader.
unfoldable pub step : Session → Event → Session
step s (puts bytes) =
    let r = put bytes true s.queue in
    record s { queue = r.0; taken_in = s.taken_in ++ kept bytes r.1 }
step s takes = elim (receive s.queue) [
  | none ↦ s
  | some r ↦ record s {
    queue = r.1;
    pending = s.pending + 1;
    given_out = s.given_out ++ (r.0 ∷ []);
  }
]
step s finishes =
    if ltb 0 s.pending then record s { queue = finish s.queue; pending = s.pending - 1 } else s

unfoldable pub run : Session → List Event → Session
run s [] = s
run s (e ∷ es) = run (step s e) es

unfoldable pub start : ℕ → Session
start n = record { queue = opened n; pending = 0; taken_in = []; given_out = [] }

-- The count covers what is queued and the readers that have not counted, and stays within the size.
record Inv (n : ℕ) (s : Session) : Type 0 where
  queued : List (List ℕ)
  chan_eq : s.queue.chan ≡ some queued
  size_eq : s.queue.size ≡ n
  count : s.queue.ins ≡ s.queue.outs + (length queued + s.pending)
  bounded : s.queue.ins ≤ n + s.queue.outs
  in_order : s.taken_in ≡ s.given_out ++ queued

put-full : (bytes : List ℕ) (q : Queue) → q.size + q.outs ≤ q.ins → put bytes true q ≡ (q, dropped)
unfolding put
put-full bytes q h = ground arith

put-room :
    (bytes : List ℕ) (q : Queue) (xs : List (List ℕ))
    → q.ins < q.size + q.outs
    → q.chan ≡ some xs
    → length xs < q.size
    → put bytes true q
      ≡ (record q { ins = q.ins + 1; chan = some (xs ++ (bytes ∷ [])) }, accepted (length bytes))
unfolding put enqueue
put-room bytes q xs h e room = ground (arith, e)

-- While the invariant holds, what does not find the count at its bound finds room in the channel.
put-Inv :
    (n : ℕ) (s : Session) (bytes : List ℕ) (i : Inv n s)
    → (put bytes true s.queue ≡ (s.queue, dropped))
      ⊎ (put bytes true s.queue ≡ (
        record s.queue { ins = s.queue.ins + 1; chan = some (i.queued ++ (bytes ∷ [])) },
        accepted (length bytes),
      )
          × (s.queue.ins < n + s.queue.outs))
put-Inv n s bytes i = elim (dec_le (s.queue.size + s.queue.outs) s.queue.ins) [
  | yes h ↦ inl (put-full bytes s.queue h)
  | no h ↦ inr (
    put-room bytes s.queue i.queued (omega arith) i.chan_eq
        (omega (arith, i.count, i.bounded, i.size_eq)),
    omega (arith, i.size_eq),
  )
]

receive-queued :
    (q : Queue) (xs : List (List ℕ))
    → q.chan ≡ some xs
    → ((receive q ≡ none) × (xs ≡ []))
      ⊎ ((x : List ℕ) × (rest : List (List ℕ)) × (xs ≡ x ∷ rest)
          × (receive q ≡ some (x, record q { chan = some rest })))
unfolding receive
receive-queued q [] e = inl (ground (arith, e), refl)
receive-queued q (x ∷ rest) e = inr (x, rest, refl, ground (arith, e))

step-Inv : (n : ℕ) (s : Session) (e : Event) → Inv n s → Inv n (step s e)
unfolding step finish
step-Inv n s (puts bytes) i = elim (put-Inv n s bytes i) [
  | inl h ↦ rw h (record {
    queued = i.queued;
    chan_eq = i.chan_eq;
    size_eq = i.size_eq;
    count = i.count;
    bounded = i.bounded;
    in_order = append-nil s.taken_in ∙ i.in_order;
  })
  | inr (h, room) ↦ rw h (record {
    queued = i.queued ++ (bytes ∷ []);
    chan_eq = refl;
    size_eq = i.size_eq;
    count = ground (arith, i.count, length-append i.queued (bytes ∷ []));
    bounded = omega (arith, room);
    in_order =
        ap (λ xs. xs ++ (bytes ∷ [])) i.in_order ∙ append_assoc s.given_out i.queued (bytes ∷ []);
  })
]
step-Inv n s takes i = elim (receive-queued s.queue i.queued i.chan_eq) [
  | inl (h, empty) ↦ let same : step s takes ≡ s = ground (arith, h) in rw same i
  | inr (x, rest, split, h) ↦
      let next : step s takes ≡ record s {
        queue = record s.queue { chan = some rest };
        pending = s.pending + 1;
        given_out = s.given_out ++ (x ∷ []);
      } =
        ground (arith, h) in
      rw next (record {
        queued = rest;
        chan_eq = refl;
        size_eq = i.size_eq;
        count = ground (arith, i.count, ap length split);
        bounded = i.bounded;
        in_order =
            i.in_order
            ∙ ap (λ xs. s.given_out ++ xs) split
            ∙ sym (append_assoc s.given_out (x ∷ []) rest);
      })
]
step-Inv n s finishes i = elim (dec_le 1 s.pending) [
  | yes h ↦
      let e : ltb 0 s.pending ≡ true = ground arith in
      rw e (record {
        queued = i.queued;
        chan_eq = i.chan_eq;
        size_eq = i.size_eq;
        count = omega (arith, i.count, h);
        bounded = omega (arith, i.bounded);
        in_order = i.in_order;
      })
  | no h ↦ let e : ltb 0 s.pending ≡ false = ground arith in rw e i
]

run-Inv : (n : ℕ) (s : Session) (es : List Event) → Inv n s → Inv n (run s es)
unfolding run
run-Inv n s [] i = i
run-Inv n s (e ∷ es) i = run-Inv n (step s e) es (step-Inv n s e i)

start-Inv : (n : ℕ) → Inv n (start n)
unfolding start
start-Inv n = record {
  queued = [];
  chan_eq = refl;
  size_eq = refl;
  count = refl;
  bounded = omega arith;
  in_order = refl;
}

-- From Up on, however writers and readers come between one another, what readers received and what is
-- queued is what was accepted, in order; no more is queued than the size; and a writer, which holds
-- the lock, never waits for the channel.
pub run-start-Fifo :
    (n : ℕ) (es : List Event) (bytes : List ℕ)
    → let s = run (start n) es in
      (xs : List (List ℕ)) × (s.queue.chan ≡ some xs)
      × (s.taken_in ≡ s.given_out ++ xs)
      × (length xs ≤ n)
      × ((put bytes true s.queue).1 ≢ blocks)
run-start-Fifo n es bytes =
    let s = run (start n) es in
    let i = run-Inv n (start n) es (start-Inv n) in
    (
      i.queued,
      i.chan_eq,
      i.in_order,
      omega (arith, i.count, i.bounded),
      λ h. elim (put-Inv n s bytes i) [
        | inl e ↦ ground (arith, e, h)
        | inr (e, room) ↦ ground (arith, e, h)
      ],
    )
