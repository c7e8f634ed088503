-- ===== src/Message/Stream/EndToEnd.antt =====
-- From Send on one socket to Receive on the other.
use openlan.Base.{
  ℕ, ◌+◌, ◌≤◌, ◌<◌, ◌≡◌, refl, Option, none, some, List, [], ◌∷◌, ◌++◌, arith, length, take,
  length-take, length-map, map, All,
}
use mathlib.Core.Path.{ap₂}
use openlan.Message.Frame.{FrameMessage}
use openlan.Message.Stream.{Stream, Write, Written, send, BlockCrypt, encrypted, decrypted}
use openlan.Message.Stream.Wire.{wire}
use openlan.Message.Stream.Writes.{payload, send-wire, write_x-prefix}
use openlan.Message.Stream.Reassembly.{
  AllSendable, room, receives, receives_all, chunks, bytes, rounds, wires,
}

-- What the ciphers of kcp do: lengths stay, and a front part of 8 bytes or more decrypts by itself.
pub record IsCipher (block : Option BlockCrypt) : Type 0 where
  pub same_length : (xs : List ℕ) → length (encrypted block xs) ≡ length xs
  pub front :
      (n : ℕ) (xs : List ℕ) → 8 ≤ n → decrypted block (take n (encrypted block xs)) ≡ take n xs

-- Frames sent one after the other, each Send returning no error, and the bytes on the wire.
pub data Sent (block : Option BlockCrypt) : List FrameMessage → List ℕ → Type 0 where
  done : Sent block [] []
  next :
      (conn : List Write) (m : FrameMessage) (w : Written) {ms : List FrameMessage} {bs : List ℕ}
      → send block conn m ≡ some w
      → w.result ≡ some none
      → Sent block ms bs
      → Sent block (m ∷ ms) (w.wire ++ bs)

-- A frame that the other side accepts: its size lies in the buffer and between the bounds.
pub record Fits (room min : ℕ) (m : FrameMessage) : Type 0 where
  pub within : m.size ≤ length m.frame
  pub small : m.size < 65536
  pub least : min ≤ m.size + 4
  pub most : m.size + 4 ≤ room

abbrev pub contents : FrameMessage → List ℕ
contents m = take m.size m.frame

module _ (block : Option BlockCrypt) (cipher : IsCipher block) where
  length-payload : (m : FrameMessage) → m.size ≤ length m.frame → length (payload block m) ≡ m.size
  length-payload m h =
      omega (arith, length-take m.size (encrypted block m.frame), cipher.same_length m.frame)

  Sent-wires :
      (n min : ℕ) {ms : List FrameMessage} {bs : List ℕ}
      → Sent block ms bs
      → All (Fits n min) ms
      → bs ≡ wires (map (payload block) ms)
  Sent-wires n min done h = refl
  Sent-wires n min (next conn m w {ms = ms} e r rest) h =
      let s = send-wire block conn m h.0.within h.0.small (cipher.same_length m.frame) in
      let whole = (write_x-prefix conn (wire (payload block m))).2 in
      let same : w.wire ≡ wire (payload block m) = ground (arith, s, whole) in
      ap₂ ◌++◌ same (Sent-wires n min rest h.1)

  Fits-AllSendable :
      (s : Stream) (min : ℕ) (ms : List FrameMessage)
      → All (Fits (room s) min) ms
      → AllSendable s min (map (payload block) ms)
  Fits-AllSendable s min [] h = tt
  Fits-AllSendable s min (m ∷ ms) h =
      let l = length-payload m h.0.within in
      (
        record {
          small = omega (arith, l, h.0.small);
          least = omega (arith, l, h.0.least);
          fits = omega (arith, l, h.0.most);
        },
        Fits-AllSendable s min ms h.1,
      )

  decrypted-contents :
      (n min : ℕ) (ms : List FrameMessage)
      → 12 ≤ min
      → All (Fits n min) ms
      → map (decrypted block) (map (payload block) ms) ≡ map contents ms
  decrypted-contents n min [] low h = refl
  decrypted-contents n min (m ∷ ms) low h =
      ap₂ ◌∷◌ (cipher.front m.size m.frame (omega (arith, h.0.least)))
        (decrypted-contents n min ms low h.1)

  -- Frames that were sent with no error, whatever the writes took at a time, are received on the
  -- other side, whatever the reads give at a time: that many calls of Receive return their contents
  -- in order. Both sides use the same cipher, the receiver starts with nothing buffered, and each
  -- frame keeps within the receiver's bounds; the least size is at least 12, and the rounds given are
  -- more than the chunks that arrive and their bytes.
  pub receives-Sent :
      (ms : List FrameMessage) (bs : List ℕ) (s : Stream) (cs : List (List ℕ)) (fuel min : ℕ)
      → Sent block ms bs
      → s.block ≡ block
      → s.buffer ≡ []
      → 12 ≤ min
      → All (Fits (room s) min) ms
      → bytes cs ≡ bs
      → rounds cs < fuel
      → receives (length ms) fuel s (chunks cs) min ≡ some (map contents ms)
  receives-Sent ms bs s cs fuel min sent eb empty low fits e f =
      let w = Sent-wires (room s) min sent fits in
      let ps = map (payload block) ms in
      let r =
        receives_all ps fuel s cs min (omega arith) (Fits-AllSendable s min ms fits)
          (ground (arith, w)) f in
      ground (arith, r, length-map ms (payload block), decrypted-contents (room s) min ms low fits)
