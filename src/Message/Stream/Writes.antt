-- ===== src/Message/Stream/Writes.antt =====
-- What Send puts on the wire.
use openlan.Base.{
  ℕ, ◌+◌, ◌%◌, ◌≤◌, ◌<◌, ◌≡◌, refl, ◌∙◌, Option, none, some, List, [], ◌∷◌, ◌++◌, arith, length,
  take, drop, take-append-drop, length-drop, length-append, take_within, length-take, four, four,
}
use mathlib.Core.List.{append_assoc}
use openlan.Base.Bytes.{put_u16}
use openlan.Base.Slices.{upto}
use openlan.Message.Frame.{FrameMessage, buffer, magic, hl_size}
use openlan.Message.Stream.{Write, takes, refuses, write_x, send, encode, BlockCrypt, encrypted}
use openlan.Message.Stream.Wire.{wire}

-- What is written is a front part of the buffer, and all of it where the call returns no error.
pub write_x-prefix :
    (conn : List Write) (buf : List ℕ)
    → (back : List ℕ) × ((write_x conn buf).wire ++ back ≡ buf)
      × ((write_x conn buf).result ≡ some none → (write_x conn buf).wire ≡ buf)
unfolding write_x
write_x-prefix conn [] = ([], refl, λ h. refl)
write_x-prefix [] (b ∷ rest) = (b ∷ rest, refl, λ h. cc)
write_x-prefix (refuses ∷ conn) (b ∷ rest) = (b ∷ rest, refl, λ h. cc)
write_x-prefix (takes n ∷ conn) (b ∷ rest) =
    let (back, p, q) = write_x-prefix conn (drop n (b ∷ rest)) in
    (
      back,
      append_assoc (take n (b ∷ rest)) _ back ∙ rw p (take-append-drop n (b ∷ rest)),
      λ h. rw (q h) (take-append-drop n (b ∷ rest)),
    )

-- Where each write takes a byte at least, as many writes as there are bytes send them all.
abbrev pub Progress : List Write → Type 0
Progress [] = Unit {0}
Progress (refuses ∷ conn) = ⊥
Progress (takes n ∷ conn) = (0 < n) × Progress conn

-- Where each write takes a byte at least and there are as many writes as bytes, writeX returns no
-- error.
pub write_x_completes :
    (conn : List Write) (buf : List ℕ)
    → Progress conn
    → length buf ≤ length conn
    → (write_x conn buf).result ≡ some none
unfolding write_x
write_x_completes conn [] h l = refl
write_x_completes [] (b ∷ rest) h l = absurd (omega arith)
write_x_completes (refuses ∷ conn) (b ∷ rest) h l = absurd h
write_x_completes (takes n ∷ conn) (b ∷ rest) h l =
    write_x_completes conn (drop n (b ∷ rest)) h.1 (omega (arith, length-drop n (b ∷ rest), h.0))

-- The payload on the wire: the frame is encrypted whole, and cut at the size.
abbrev pub payload : Option BlockCrypt → FrameMessage → List ℕ
payload block m = take m.size (encrypted block m.frame)

take_header :
    (n : ℕ) (h : List ℕ) (xs : List ℕ) → length h ≡ 4 → take (n + 4) (h ++ xs) ≡ h ++ take n xs
take_header n h xs e = let (a, b, c, d, p) = four h e in ground (arith, p)

-- The buffer after `encode`, cut at the size, is the message of the payload.
pub upto-encode :
    (block : Option BlockCrypt) (m : FrameMessage)
    → m.size ≤ length m.frame
    → m.size < 65536
    → length (encrypted block m.frame) ≡ length m.frame
    → upto (m.size + hl_size) (buffer (encode block m)) ≡ some (wire (payload block m))
unfolding encode buffer
upto-encode block m h small same =
    let enc = encrypted block m.frame in
    let head = magic ++ put_u16 (m.size % 65536) in
    ground (
      arith,
      take_header m.size head (enc ++ m.tail) refl,
      take_within m.size enc m.tail,
      length-append enc m.tail,
      length-take m.size enc,
    )

-- Send writes the message of the payload, where the size lies in the frame and within 16 bits, and the
-- cipher keeps the frame's length.
pub send-wire :
    (block : Option BlockCrypt) (conn : List Write) (m : FrameMessage)
    → m.size ≤ length m.frame
    → m.size < 65536
    → length (encrypted block m.frame) ≡ length m.frame
    → send block conn m ≡ some (write_x conn (wire (payload block m)))
unfolding send
send-wire block conn m h small same = rw (upto-encode block m h small same)
