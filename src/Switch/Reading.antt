-- ===== src/Switch/Reading.antt =====
-- Which frames of a client reach its tap, and when its frames are no longer read.
use openlan.Base.{
  ℕ, Bool-cases, arith, sym, ◌≡◌, ◌⊎◌, refl, ap, ◌∙◌, inl, inr, true, false, Option, none, some,
  List, [], ◌∷◌, string_eq, if◌then◌else◌,
}
use mathlib.Core.Path.{subst}
use openlan.Base.Text.{bytes_eq}
use openlan.Message.Frame
use openlan.Message.Frame.{FrameMessage}
use openlan.Switch.{
  Private, unset, other, point, write_failed, not_right, Err, not_found, no_device, Hook, Env,
  on_frame, to_device, after_hooks, read_client, serve, ping_req,
}

pair_split : {A B : Type 0} (r : A × Option B) → (r ≡ (r.0, none)) ⊎ ((b : B) × (r ≡ (r.0, some b)))
pair_split (a, none) = inl refl
pair_split (a, some b) = inr (b, refl)

private_cases :
    (p : Private)
    → ((dev : ℕ) × (p ≡ point (some dev))) ⊎ ((p ≡ unset) ⊎ (p ≡ other) ⊎ (p ≡ point none))
private_cases unset = inr (inl refl)
private_cases other = inr (inr (inl refl))
private_cases (point none) = inr (inr (inr refl))
private_cases (point (some dev)) = inl (dev, refl)

module _ {S E : Type 0} where
  -- The first hook that refuses a frame, as the state that it leaves and its error.
  pub data Refuses (frame : FrameMessage) : List (Option (Hook S E)) → S → S → E → Type 0 where
    here :
        {h : Hook S E} {hooks : List (Option (Hook S E))} {s t : S} {err : E}
        → h frame s ≡ (t, some err)
        → Refuses frame (some h ∷ hooks) s t err
    absent :
        {hooks : List (Option (Hook S E))} {s t : S} {err : E}
        → Refuses frame hooks s t err
        → Refuses frame (none ∷ hooks) s t err
    later :
        {h : Hook S E} {hooks : List (Option (Hook S E))} {s u t : S} {err : E}
        → h frame s ≡ (u, none)
        → Refuses frame hooks u t err
        → Refuses frame (some h ∷ hooks) s t err

  pub data Passes (frame : FrameMessage) : List (Option (Hook S E)) → S → S → Type 0 where
    done : {s : S} → Passes frame [] s s
    absent :
        {hooks : List (Option (Hook S E))} {s t : S}
        → Passes frame hooks s t
        → Passes frame (none ∷ hooks) s t
    next :
        {h : Hook S E} {hooks : List (Option (Hook S E))} {s u t : S}
        → h frame s ≡ (u, none)
        → Passes frame hooks u t
        → Passes frame (some h ∷ hooks) s t

  on_frame-Refuses :
      {frame : FrameMessage} {hooks : List (Option (Hook S E))} {s t : S} {err : E}
      → Refuses frame hooks s t err
      → on_frame hooks frame s ≡ (t, some err)
  unfolding on_frame
  on_frame-Refuses (here {err = err} h) = rw (ap (λ r. r.1) h) (ap (λ r. (r.0, some err)) h)
  on_frame-Refuses (absent r) = on_frame-Refuses r
  on_frame-Refuses (later h r) = rw (ap (λ r. r.1) h, ap (λ r. r.0) h) (on_frame-Refuses r)

  on_frame-Passes :
      {frame : FrameMessage} {hooks : List (Option (Hook S E))} {s t : S}
      → Passes frame hooks s t
      → on_frame hooks frame s ≡ (t, none)
  unfolding on_frame
  on_frame-Passes done = refl
  on_frame-Passes (absent r) = on_frame-Passes r
  on_frame-Passes (next h r) = rw (ap (λ r. r.1) h, ap (λ r. r.0) h) (on_frame-Passes r)

  Outcome : FrameMessage → List (Option (Hook S E)) → S → Type 0
  Outcome frame hooks s =
      ((t : S) × (err : E) × Refuses frame hooks s t err) ⊎ ((t : S) × Passes frame hooks s t)

  refuses_or_passes :
      (frame : FrameMessage) (hooks : List (Option (Hook S E))) (s : S) → Outcome frame hooks s
  unfolding Outcome
  refuses_or_passes frame [] s = inr (s, done)
  refuses_or_passes frame (none ∷ hooks) s = elim (refuses_or_passes frame hooks s) [
    | inl (t, err, r) ↦ inl (t, err, absent r)
    | inr (t, r) ↦ inr (t, absent r)
  ]
  refuses_or_passes frame (some h ∷ hooks) s = elim (pair_split (h frame s)) [
    | inr (err, e) ↦ inl ((h frame s).0, err, here e)
    | inl e ↦ elim (refuses_or_passes frame hooks (h frame s).0) [
      | inl (t, err, r) ↦ inl (t, err, later e r)
      | inr (t, r) ↦ inr (t, next e r)
    ]
  ]

  -- What a frame that has passed the hooks leads to: nothing if it is a control frame; else a write
  -- of its bytes to the tap of the point, or an error where there is none, with nothing written.
  abbrev pub Delivered : Env S → FrameMessage → S → S × Option (Err E) → Type 0
  Delivered env frame t r =
      ((frame.control ≡ true) × (r ≡ (t, none)))
      ⊎ ((frame.control ≡ false)
          × (((dev : ℕ) × (env.private t ≡ point (some dev))
                × (r.0 ≡ (env.device_write dev frame.frame t).0)
                × (r.1
                    ≡ (if (env.device_write dev frame.frame t).1 then some write_failed else none)))
              ⊎ ((r.0 ≡ t)
                  × (((env.private t ≡ unset) × (r.1 ≡ some not_found))
                      ⊎ ((env.private t ≡ other) × (r.1 ≡ some not_right))
                      ⊎ ((env.private t ≡ point none) × (r.1 ≡ some no_device))))))

  to_device-Delivered :
      (env : Env S) (frame : FrameMessage) (t : S)
      → Delivered env frame t (after_hooks env frame (t, none))
  unfolding after_hooks to_device
  to_device-Delivered env frame t = elim (Bool-cases frame.control) [
    | inl c ↦ inl (c, rw c refl)
    | inr c ↦ elim (private_cases (env.private t)) [
      | inl (dev, p) ↦ inr (c, inl (dev, p, ground (arith, c, p), ground (arith, c, p)))
      | inr (inl p) ↦ inr (c, inr (ground (arith, c, p), inl (p, ground (arith, c, p))))
      | inr (inr (inl p)) ↦ inr (c, inr (ground (arith, c, p), inr (inl (p, ground (arith, c, p)))))
      | inr (inr (inr p)) ↦ inr (c, inr (ground (arith, c, p), inr (inr (p, ground (arith, c, p)))))
    ]
  ]

  -- A frame either is refused by the first hook that objects to it or passes all hooks, each seeing
  -- the state that the one before it left. A refused frame reaches no tap and is no error, and only
  -- a ping makes the switch ask for a login. A frame that passes stops there if it is a control
  -- frame. If it is not, its bytes are written to the tap of the point, with an error exactly if that
  -- fails; where the client has no point, or no tap, there is the error that says so and no write.
  pub read_client-hooks :
      (env : Env S) (hooks : List (Option (Hook S E))) (m : FrameMessage) (s : S)
      → let frame = (Frame.decode m).0 in
        ((t : S) × (err : E) × Refuses frame hooks s t err
          × (read_client env hooks m s
              ≡ (if bytes_eq frame.action ping_req then (env.sign_in t).0 else t, none)))
        ⊎ ((t : S) × Passes frame hooks s t × Delivered env frame t (read_client env hooks m s))
  unfolding read_client after_hooks Outcome
  read_client-hooks env hooks m s =
      let frame = (Frame.decode m).0 in
      elim (refuses_or_passes frame hooks s) [
        | inl (t, err, r) ↦ inl (t, err, r, ap (after_hooks env frame) (on_frame-Refuses r))
        | inr (t, r) ↦ inr (
          t,
          r,
          subst (λ h. Delivered env frame t (after_hooks env frame h)) (sym (on_frame-Passes r))
              (to_device-Delivered env frame t),
        )
      ]

  serve_stops :
      (read_at : FrameMessage → S → S × Option (Err E)) (m : FrameMessage)
      (rest : List FrameMessage) (s : S) {t : S} {err : Err E}
      → read_at m s ≡ (t, some err)
      → serve read_at (m ∷ rest) s ≡ (t, true)
  unfolding serve
  serve_stops read_at m rest s h = rw (serve, ap (λ r. r.1) h) (ap (λ r. (r.0, true)) h)

  -- Once a frame that all hooks let pass, and that is not a control frame, comes from a client that
  -- has no point or whose point has no tap, the frames that follow it are not read any more, whatever
  -- they are: the state stays as the hooks left it.
  pub serve-read_client :
      (env : Env S) (hooks : List (Option (Hook S E))) (m : FrameMessage) (rest : List FrameMessage)
      (s t : S)
      → (Frame.decode m).0.control ≡ false
      → Passes (Frame.decode m).0 hooks s t
      → (env.private t ≡ unset) ⊎ (env.private t ≡ point none)
      → serve (read_client env hooks) (m ∷ rest) s ≡ (t, true)
  unfolding read_client after_hooks to_device
  serve-read_client env hooks m rest s t c r p =
      let frame = (Frame.decode m).0 in
      let hooked = ap (after_hooks {S = S} {E = E} env frame) (on_frame-Passes r) in
      elim p [
        | inl e ↦
            serve_stops (read_client env hooks) m rest s {err = not_found}
              (hooked ∙ rw (c, to_device, e) refl)
        | inr e ↦
            serve_stops (read_client env hooks) m rest s {err = no_device}
              (hooked ∙ rw (c, to_device, e) refl)
      ]
