-- ===== src/Message/Frame/Control.antt =====
-- Control messages read back act they were written.
use openlan.Base.{
  ℕ, suc, ◌+◌, ◌<◌, ◌≡◌, refl, true, none, some, List, [], ◌∷◌, ◌++◌, arith, length, drop,
  replicate,
}
use openlan.Message.Frame.{
  FrameMessage, buffer, from_bytes, decode, append, new_control_frame, copy_at, new_frame_message,
  is_control,
}
use mathlib.Core.List.{append-nil}
use openlan.Base.{
  zero, false, ap, ◌∙◌, take_all, drop_all, take_append, drop_append, length-replicate,
  length-append, six,
}
use openlan.Protocol.Ether.{eth_zero}

-- A copy that fills the buffer from n on to its end.
copy_at-end :
    (n : ℕ) (dst src front back : List ℕ)
    → dst ≡ front ++ back
    → length front ≡ n
    → length back ≡ length src
    → copy_at n dst src ≡ some (front ++ src)
unfolding copy_at
copy_at-end n dst src front back e h k = ground (
  arith,
  take_append n front back h,
  drop_append n front back h,
  length-append front back,
  take_all (length (drop n dst)) src,
  drop_all (length src) (drop n dst),
  append-nil src,
)

replicate_add : (m n : ℕ) → replicate {A = ℕ} (n + m) 0 ≡ replicate m 0 ++ replicate n 0
replicate_add zero n = ap (λ k. replicate {A = ℕ} k 0) (omega arith)
replicate_add (suc m) n =
    ap (λ k. replicate {A = ℕ} k 0) (let e : n + suc m ≡ suc (n + m) = omega arith in e)
    ∙ ap (◌∷◌ 0) (replicate_add m n)

blank : (n : ℕ) → replicate {A = ℕ} (n + 6) 0 ≡ eth_zero ++ replicate n 0
blank n = replicate_add 6 n

append-zero :
    (n : ℕ) (m : FrameMessage)
    → m.frame ≡ eth_zero ++ replicate n 0
    → m.size ≡ 0
    → m.total ≡ n + 6
    → append eth_zero m ≡ some (record m { size = 6 })
unfolding append copy_at
append-zero n m hf hs ht =
    ground (
      arith,
      length-replicate {A = ℕ} n 0,
      hf,
      take_all {A = ℕ} (length (replicate {A = ℕ} n 0)) [],
    )

append_rest :
    (p : List ℕ) (m : FrameMessage)
    → m.frame ≡ eth_zero ++ replicate (length p) 0
    → m.size ≡ 6
    → m.total ≡ length p + 6
    → append p m ≡ some (record m { frame = eth_zero ++ p; size = 6 + length p })
unfolding append
append_rest p m hf hs ht = ground (
  arith,
  copy_at-end 6 m.frame p eth_zero (replicate (length p) 0) hf refl (length-replicate (length p) 0),
)

-- The frame that is sent for an action `act` of 6 bytes.
abbrev sent : List ℕ → List ℕ → FrameMessage
sent act body = record {
  control = true;
  action = act;
  params = body;
  head = replicate 4 0;
  frame = eth_zero ++ (act ++ body);
  tail = [];
  size = 6 + length (act ++ body);
  total = length (act ++ body) + 6;
  parsed = none;
}

abbrev empty : List ℕ → List ℕ → ℕ → FrameMessage
empty act body n = record (sent act body) { frame = replicate (n + 6) 0; size = 0; total = n + 6 }

new_frame_message-empty :
    (n : ℕ) → 0 < n → new_frame_message n ≡ record (empty [] [] n) { control = false }
unfolding new_frame_message
new_frame_message-empty n h = ground arith

new_control_frame-sent :
    (a b c d e f : ℕ) (body : List ℕ)
    → let act = a ∷ b ∷ c ∷ d ∷ e ∷ f ∷ [] in new_control_frame act body ≡ some (sent act body)
unfolding new_control_frame
new_control_frame-sent a b c d e f body =
    let act : List ℕ = a ∷ b ∷ c ∷ d ∷ e ∷ f ∷ [] in
    let n = length (act ++ body) in
    let m = empty act body n in
    ground (
      arith,
      new_frame_message-empty n (omega arith),
      append-zero n m (blank n) refl refl,
      append_rest (act ++ body) (record m { frame = eth_zero ++ replicate n 0; size = 6 }) refl refl
          refl,
      blank n,
    )

-- A control frame for an action of 6 bytes holds six zeros, the action and the body, and nothing
-- else; what arrives when its buffer is sent decodes to the same action and body.
pub decode-new_control_frame :
    (action body : List ℕ)
    → length action ≡ 6
    → (m n : FrameMessage) × (new_control_frame action body ≡ some m)
      × (m.frame ≡ eth_zero ++ (action ++ body))
      × (m.size ≡ length m.frame)
      × (from_bytes (buffer m) ≡ some n)
      × ((decode n).1 ≡ true)
      × ((decode n).0.action ≡ action)
      × ((decode n).0.params ≡ body)
unfolding buffer from_bytes decode is_control
decode-new_control_frame action body h =
    let (a, b, c, d, e, f, p) = six action h in
    let frame = eth_zero ++ (action ++ body) in
    (
      sent action body,
      record {
        control = false;
        action = [];
        params = [];
        head = replicate 4 0;
        frame = frame;
        tail = [];
        size = length frame;
        total = length frame;
        parsed = none;
      },
      rw p (new_control_frame-sent a b c d e f body),
      refl,
      omega arith,
      ground (arith, append-nil frame),
      ground arith,
      ground (arith, p),
      ground (arith, p),
    )
