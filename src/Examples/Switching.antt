-- ===== src/Examples/Switching.antt =====
-- The theorems on the frames and the end of a client at concrete hooks and caches.
use openlan.Base.{
  ℕ, ◌+◌, ◌≡◌, ◌≢◌, ◌⊎◌, refl, inl, true, false, Option, none, some, List, [], ◌∷◌, String,
  if◌then◌else◌,
}
use openlan.Base.Assoc.{lookup}
use openlan.Base.Text.{bytes_eq}
use openlan.Message.Frame
use openlan.Message.Frame.{FrameMessage}
use openlan.Cache.Points
use openlan.Cache.Lease.{Cache}
use openlan.Cache.Lease.Release.{Release}
use openlan.Switch.{point, unset, Hook, Env, read_client, serve, on_close, ping_req}
use openlan.Switch.Reading.{
  Delivered, Refuses, Passes, done, next, read_client-hooks, serve-read_client,
}
use openlan.Switch.Closing.{on_close-Release}
use openlan.Examples.Leases.{after, after-Mirror}
use openlan.Examples.Logins.{moved, phone}

-- The state counts the frames that the first hook saw; the second refuses nothing.
abbrev counts : Hook ℕ String
counts m s = (s + 1, none)

abbrev hooks : List (Option (Hook ℕ String))
hooks = some counts ∷ none ∷ []

abbrev env : Env ℕ
env = record {
  private = λ s. unset;
  device_write = λ dev bytes s. (s, false);
  sign_in = λ s. (s, false);
}

abbrev frame : FrameMessage
frame = record {
  control = false;
  action = [];
  params = [];
  head = [];
  frame = 2 ∷ 0 ∷ 0 ∷ 0 ∷ 0 ∷ 1 ∷ 2 ∷ 0 ∷ 0 ∷ 0 ∷ 0 ∷ 2 ∷ 8 ∷ 0 ∷ 1 ∷ [];
  tail = [];
  size = 15;
  total = 15;
  parsed = none;
}

abbrev decoded : FrameMessage
decoded = (Frame.decode frame).0

-- A client with a point and a tap.
abbrev tapped : Env ℕ
tapped = record env { private = λ s. point (some 3) }

read_client-hooks_example :
    ((t : ℕ) × (err : String) × Refuses decoded hooks 0 t err
      × (read_client tapped hooks frame 0
          ≡ (if bytes_eq decoded.action ping_req then (tapped.sign_in t).0 else t, none)))
    ⊎ ((t : ℕ) × Passes decoded hooks 0 t
        × Delivered tapped decoded t (read_client tapped hooks frame 0))
read_client-hooks_example = read_client-hooks tapped hooks frame 0

serve-read_client_example : serve (read_client env hooks) (frame ∷ frame ∷ []) 0 ≡ (1, true)
unfolding Frame.decode Frame.is_control
serve-read_client_example =
    serve-read_client env hooks frame (frame ∷ []) 0 1 refl (next refl (Passes.absent done))
      (inl refl)

on_close-Release_example :
    (w1 : Cache) × (on_close phone.name moved after
      ≡ some ((Points.del phone.name moved).0, w1, (Points.del phone.name moved).1))
    × Release (Points.get_uuid phone.name moved) after (some w1)
    × (Points.get_addr (Points.get_uuid phone.name moved) moved ≢ phone.name → w1 ≡ after)
    × (Points.get phone.name (Points.del phone.name moved).0 ≡ none)
    × ((other : String)
        → Points.get_addr other moved ≢ phone.name
        → Points.get_by_uuid other (Points.del phone.name moved).0 ≡ Points.get_by_uuid other moved)
unfolding lookup
on_close-Release_example =
    on_close-Release phone.name moved after after-Mirror (refl, (refl, tt)) (refl, tt)
