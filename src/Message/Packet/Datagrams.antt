-- ===== src/Message/Packet/Datagrams.antt =====
-- What a datagram is received as.
use openlan.Base.{
  ℕ, ◌+◌, ◌-◌, ◌*◌, ◌%◌, ◌/◌, ◌≤◌, ◌<◌, ◌≡◌, refl, ◌∙◌, Option, some, List, [], ◌∷◌, ◌++◌, arith,
  length, length-append, length-replicate, length-take, take, drop, take_all, take_append,
  replicate, if◌then◌else◌, ◌==◌,
}
use openlan.Message.Frame.{FrameMessage, new_frame_message}
use openlan.Message.Stream.{BlockCrypt, decrypted, max_msg}
use openlan.Message.Stream.Wire.{wire}
use openlan.Message.Stream.Writes.{payload, upto-encode}
use openlan.Message.Stream.EndToEnd.{IsCipher, contents}
use openlan.Message.Stream.{encrypted}
use openlan.Message.Packet.{send, accepted, receive, filled}

-- The bytes that the read buffer has room for.
abbrev pub capacity : ℕ → ℕ
capacity buf_size = (if buf_size == 0 then max_msg else buf_size) + 10

-- What lies behind a datagram in the buffer.
abbrev pub zeros : ℕ → List ℕ → List ℕ
zeros buf_size datagram = replicate (capacity buf_size - length datagram) 0

abbrev fresh : ℕ → FrameMessage
fresh n = new_frame_message (if n == 0 then max_msg else n)

length-fresh : (n : ℕ) → length (fresh n).head + length (fresh n).frame ≡ capacity n
unfolding new_frame_message
length-fresh n = simp length-replicate (ground arith)

filled_lem : (n : ℕ) (xs : List ℕ) → length xs ≤ n → filled n xs ≡ xs ++ replicate (n - length xs) 0
unfolding filled
filled_lem n xs h = ground (arith, take_all n xs h)

-- A datagram with the magic and a payload, which the buffer has room for, and whose announced size
-- lies between the bounds and in the buffer, is accepted. Its frame is as long as announced: where
-- the payload is shorter, zeros follow it.
pub receive-datagram :
    (block : Option BlockCrypt) (n hi lo : ℕ) (p : List ℕ) (max min : ℕ)
    → 0 < length p
    → length p + 4 ≤ capacity n
    → min ≤ hi * 256 + lo
    → hi * 256 + lo ≤ max
    → hi * 256 + lo + 4 ≤ capacity n
    → (m : FrameMessage) × (receive block n (255 ∷ 255 ∷ hi ∷ lo ∷ p) max min ≡ some (accepted m))
      × (m.size ≡ hi * 256 + lo)
      × (m.frame ≡ decrypted block (take (hi * 256 + lo) (p ++ zeros n (255 ∷ 255 ∷ hi ∷ lo ∷ p))))
unfolding receive
receive-datagram block n hi lo p max min pos room least most within =
    let datagram : List ℕ = 255 ∷ 255 ∷ hi ∷ lo ∷ p in
    let rest = zeros n datagram in
    let size = hi * 256 + lo in
    (
      record (fresh n) {
        head = 255 ∷ 255 ∷ hi ∷ lo ∷ [];
        frame = decrypted block (take size (p ++ rest));
        tail = drop (size + 4) (datagram ++ rest);
        size = size;
      },
      rw (length-fresh n, filled_lem (capacity n) datagram (omega arith))
          (ground (
            arith,
            take_all (capacity n) datagram (omega arith),
            length-append p rest,
            length-replicate {A = ℕ} (capacity n - length datagram) 0,
          )),
      refl,
      refl,
    )

-- A frame that was sent is received with its contents: both sides use the same cipher, and the size
-- lies in the sender's frame, between the receiver's bounds and in its buffer, and is at least 8.
pub receive-send :
    (block : Option BlockCrypt) (m : FrameMessage) (n max min : ℕ)
    → IsCipher block
    → m.size ≤ length m.frame
    → m.size < 65536
    → 8 ≤ m.size
    → min ≤ m.size
    → m.size ≤ max
    → m.size + 4 ≤ capacity n
    → (bytes : List ℕ) × (m' : FrameMessage) × (send block m ≡ some (bytes, m.size))
      × (receive block n bytes max min ≡ some (accepted m'))
      × (m'.size ≡ m.size)
      × (m'.frame ≡ contents m)
unfolding send
receive-send block m n max min cipher within small big least most room =
    let p = payload block m in
    let same = cipher.same_length m.frame in
    let l : length p ≡ m.size = omega (arith, length-take m.size (encrypted block m.frame), same) in
    let hi = length p / 256 % 256 in
    let lo = length p % 256 in
    let size : hi * 256 + lo ≡ m.size = omega (arith, l) in
    let (m', e, s, f) =
      receive-datagram block n hi lo p max min (omega arith) (omega arith) (omega arith)
        (omega arith) (omega arith) in
    (
      wire p,
      m',
      rw (upto-encode block m within small same),
      e,
      s ∙ size,
      f
          ∙ ground
              (arith, size, take_append m.size p (zeros n (wire p)) l, cipher.front m.size m.frame),
    )
