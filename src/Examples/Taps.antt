-- ===== src/Examples/Taps.antt =====
-- The theorem on the queues of a tap at a concrete run.
use openlan.Base.{ℕ, true, ◌≤◌, ◌≡◌, ◌≢◌, some, List, [], ◌∷◌, ◌++◌, length}
use openlan.Tap.{put, blocks}
use openlan.Tap.Session.{Event, puts, takes, finishes, Session, run, start, run-start-Fifo}

abbrev events : List Event
events =
    puts (1 ∷ []) ∷ takes ∷ puts (2 ∷ []) ∷ puts (3 ∷ []) ∷ finishes ∷ puts (4 ∷ []) ∷ takes ∷ []

abbrev ended : Session
ended = run (start 2) events

run-start-Fifo_example :
    (xs : List (List ℕ)) × (ended.queue.chan ≡ some xs)
    × (ended.taken_in ≡ ended.given_out ++ xs)
    × (length xs ≤ 2)
    × ((put (5 ∷ []) true ended.queue).1 ≢ blocks)
run-start-Fifo_example = run-start-Fifo 2 events (5 ∷ [])
