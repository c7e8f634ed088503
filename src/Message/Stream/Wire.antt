-- ===== src/Message/Stream/Wire.antt =====
-- One message on the wire, and what `decode` makes of it whole and in part.
use openlan.Base.{
  ℕ, ◌+◌, ◌*◌, ◌/◌, ◌%◌, ◌≤◌, ◌<◌, ◌≡◌, refl, false, some, none, List, [], ◌∷◌, ◌++◌, arith, length,
  length-append,
}
use openlan.Base.Bytes.{put_u16}
use openlan.Base.{take_append, drop_append}
use openlan.Message.Frame.{FrameMessage, magic}
use openlan.Message.Stream.{Stream, decode, nothing, message, decrypted}

-- The bytes of a message with the payload `p`.
abbrev pub wire : List ℕ → List ℕ
wire p = magic ++ (put_u16 (length p) ++ p)

-- The frame that is made of the payload `p` once it is decrypted to `q`.
abbrev pub delivered : List ℕ → List ℕ → FrameMessage
delivered p q = record {
  control = false;
  action = [];
  params = [];
  head = magic ++ put_u16 (length p);
  frame = q;
  tail = [];
  size = length q;
  total = length q;
  parsed = none;
}

pub decode-wire :
    (s : Stream) (p t : List ℕ) (min : ℕ)
    → length p < 65536
    → min ≤ length p + 4
    → decode s (wire p ++ t) min
      ≡ some (record s { buffer = t }, message (delivered p (decrypted s.block p)))
unfolding decode
decode-wire s p t min small h =
    ground
      (arith, take_append (length p) p t refl, drop_append (length p) p t refl, length-append p t)

-- Fewer bytes than the header announces are not yet a message, and not an error.
pub decode_short :
    (s : Stream) (tmp more t : List ℕ) (hi lo min : ℕ)
    → 4 ≤ min
    → length tmp < hi * 256 + lo + 4
    → tmp ++ more ≡ 255 ∷ 255 ∷ hi ∷ lo ∷ t
    → decode s tmp min ≡ some (s, nothing)
unfolding decode
decode_short s [] more t hi lo min h short e = ground arith
decode_short s (a ∷ []) more t hi lo min h short e = ground arith
decode_short s (a ∷ b ∷ []) more t hi lo min h short e = ground arith
decode_short s (a ∷ b ∷ c ∷ []) more t hi lo min h short e = ground arith
decode_short s (a ∷ b ∷ c ∷ d ∷ r) more t hi lo min h short e = ground arith

pub decode_part :
    (s : Stream) (tmp more p t : List ℕ) (min : ℕ)
    → length p < 65536
    → 4 ≤ min
    → length tmp < length p + 4
    → tmp ++ more ≡ wire p ++ t
    → decode s tmp min ≡ some (s, nothing)
decode_part s tmp more p t min small h short e =
    decode_short s tmp more (p ++ t) (length p / 256 % 256) (length p % 256) min h (omega arith) e
