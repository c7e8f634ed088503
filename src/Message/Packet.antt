-- ===== src/Message/Packet.antt =====
-- PacketMessagerImpl of pkg/libol/message.go, which carries a message in each datagram.
pub mod Datagrams
use openlan.Base.{
  ℕ, ◌+◌, ◌-◌, ◌≡◌, Bool, true, false, not, ◌||◌, Option, none, some, List, [], ◌∷◌, ◌++◌,
  if◌then◌else◌, ltb, leb, ◌==◌, length, take, drop, replicate,
}
use openlan.Base.Text.{bytes_eq}
use openlan.Base.Slices.{◌>>=◌, upto, part, u16_part}
use openlan.Message.Frame.{FrameMessage, hl_size, magic, new_frame_message, buffer}
use openlan.Message.Stream.{BlockCrypt, encode, decrypted, max_msg}

pub data Err : Type 0 where
  small_frame wrong_magic wrong_size : Err

pub data Received : Type 0 where
  accepted : FrameMessage → Received
  rejected : Err → Received

-- Send: the datagram written, and the size returned. The header and the cipher are those of the
-- stream; `none` where the slice is out of range.
unfoldable pub send : Option BlockCrypt → FrameMessage → Option (List ℕ × ℕ)
send block m = upto (m.size + hl_size) (buffer (encode block m)) >>= λ bytes. some (bytes, m.size)

-- The buffer after a read: the datagram as far as there is room, and zeros.
unfoldable pub filled : ℕ → List ℕ → List ℕ
filled n bytes = take n bytes ++ replicate (n - length bytes) 0

-- Receive, for a datagram that arrives; `none` where a slice is out of range.
unfoldable pub receive : Option BlockCrypt → ℕ → List ℕ → ℕ → ℕ → Option Received
receive block buf_size datagram max min =
    let frame = new_frame_message (if buf_size == 0 then max_msg else buf_size) in
    let capacity = length frame.head + length frame.frame in
    let buf = filled capacity datagram in
    let n = length (take capacity datagram) in
    if leb n 4
    then some (rejected small_frame)
    else if not (bytes_eq (take 2 buf) magic)
    then some (rejected wrong_magic)
    else (u16_part 2 buf >>= λ size.
        if ltb max size || ltb size min
        then some (rejected wrong_size)
        else (part hl_size size buf >>= λ tmp. some (
            accepted (record frame {
              head = take hl_size buf;
              frame = decrypted block tmp;
              tail = drop (size + hl_size) buf;
              size = size;
            }))))
