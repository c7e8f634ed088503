-- ===== src/Message/Stream.antt =====
-- StreamMessagerImpl of pkg/libol/message.go.
-- A connection is what it will do next, in order: the chunks that arrive or an error, and for writes
-- the numbers of bytes that it takes. A read with room for n bytes gives at most n of the next chunk.
-- Deadlines and the log are left out: a deadline that fails is an error of the connection.
pub mod Wire
pub mod Reassembly
pub mod Writes
pub mod EndToEnd
pub mod Wedge
use openlan.Base.{
  ℕ, zero, suc, ◌+◌, ◌-◌, ◌/◌, ◌%◌, ◌≡◌, Bool, true, false, not, ◌||◌, Option, none, some, List, [],
  ◌∷◌, ◌++◌, if◌then◌else◌, ltb, leb, ◌==◌, length, take, drop,
}
use openlan.Base.Bytes.{put_u16}
use openlan.Base.Text.{bytes_eq}
use openlan.Base.Slices.{◌>>=◌, upto, from, u16_part}
use openlan.Message.Frame.{FrameMessage, from_bytes, hl_size, magic, new_frame_message, buffer}

-- kcp.BlockCrypt, which is not part of the repository: in place, so lengths stay.
pub record BlockCrypt : Type 0 where
  pub encrypt : List ℕ → List ℕ
  pub decrypt : List ℕ → List ℕ

abbrev pub encrypted : Option BlockCrypt → List ℕ → List ℕ
encrypted none xs = xs
encrypted (some b) xs = b.encrypt xs

abbrev pub decrypted : Option BlockCrypt → List ℕ → List ℕ
decrypted none xs = xs
decrypted (some b) xs = b.decrypt xs

pub record Stream : Type 0 where
  pub block : Option BlockCrypt
  pub buffer : List ℕ
  pub buf_size : ℕ

abbrev pub max_msg : ℕ
max_msg = 12800

pub data Err : Type 0 where
  wrong_magic broken : Err

unfoldable pub flush : Stream → Stream
flush s = record s { buffer = [] }

-- `encode`: the header, and the whole frame slice encrypted in place.
unfoldable pub encode : Option BlockCrypt → FrameMessage → FrameMessage
encode block m = record m {
  head = magic ++ put_u16 (m.size % 65536);
  frame = encrypted block m.frame;
}

-- What a connection does with a write: takes so many bytes, or fails.
pub data Write : Type 0 where
  takes : ℕ → Write
  refuses : Write

-- The bytes put on the wire, and the error; `none` while the connection takes no more.
pub record Written : Type 0 where
  pub wire : List ℕ
  pub result : Option (Option Err)

-- writeX: the loop, over what the connection does. `rest` is `buf[offset:]`.
unfoldable pub write_x : List Write → List ℕ → Written
write_x conn [] = record { wire = []; result = some none }
write_x [] (b ∷ rest) = record { wire = []; result = none }
write_x (refuses ∷ conn) (b ∷ rest) = record { wire = []; result = some (some broken) }
write_x (takes n ∷ conn) (b ∷ rest) =
    let next = write_x conn (drop n (b ∷ rest)) in
    record { wire = take n (b ∷ rest) ++ next.wire; result = next.result }

-- Send: `none` where `frame.buffer[:fs]` is out of range.
unfoldable pub send : Option BlockCrypt → List Write → FrameMessage → Option Written
send block conn m =
    upto (m.size + hl_size) (buffer (encode block m)) >>= λ bytes. some (write_x conn bytes)

pub data Decoded : Type 0 where
  nothing : Decoded
  bad_magic : Decoded
  message : FrameMessage → Decoded

-- `decode`. Slices of `tmp` beyond its length, which Go allows up to its capacity, are a panic here:
-- with `min` at least 4, as every socket sets it, there are none.
unfoldable pub decode : Stream → List ℕ → ℕ → Option (Stream × Decoded)
unfolding from_bytes
decode s tmp min = if ltb (length tmp) min then some (s, nothing) else (do
  m ← upto 2 tmp
  if not (bytes_eq m magic)
      then some (s, bad_magic)
      else (u16_part 2 tmp >>= λ ps.
          if leb (ps + hl_size) (length tmp)
          then (from_bytes (take hl_size tmp ++ decrypted s.block (take ps (drop hl_size tmp)))
              >>= λ m'. some (record s { buffer = drop (ps + hl_size) tmp }, message m'))
          else some (s, nothing)))

-- What a connection will give, in order.
pub data Arrival : Type 0 where
  chunk : List ℕ → Arrival
  fails : Arrival

pub data Received : Type 0 where
  got : Stream → FrameMessage → List Arrival → Received
  failed : Stream → Err → List Arrival → Received
  -- nothing more arrives
  waiting : Received
  panic : Received
  -- the rounds given are used up
  unfinished : Received

-- One read with room for n bytes: the bytes and what is left.
unfoldable pub read : ℕ → List ℕ → List Arrival → List ℕ × List Arrival
read n bytes conn =
    (take n bytes, if leb (length bytes) n then conn else chunk (drop n bytes) ∷ conn)

-- The outcome of `decode` in the loop: return, or go round again.
abbrev pub after : Option (Stream × Decoded) → List Arrival → Received → Received
after none conn again = panic
after (some (s, bad_magic)) conn again = failed s wrong_magic conn
after (some (s, message m)) conn again = got s m conn
after (some (s, nothing)) conn again = again

-- The loop of Receive; `tmp` is `tmp[:bs]`, in a buffer of `s.buf_size` bytes.
unfoldable pub receive_loop : ℕ → Stream → List ℕ → List Arrival → ℕ → Received
receive_loop zero s tmp conn min = unfinished
receive_loop (suc fuel) s tmp [] min = waiting
receive_loop (suc fuel) s tmp (fails ∷ conn) min = failed s broken conn
receive_loop (suc fuel) s tmp (chunk bytes ∷ conn) min =
    let r = read (s.buf_size - length tmp) bytes conn in
    let again = receive_loop fuel s (tmp ++ r.0) r.1 min in
    after (decode s (tmp ++ r.0) min) r.1 again

-- Receive. `max` is not read by the source.
unfoldable pub receive : ℕ → Stream → List Arrival → ℕ → Received
receive fuel s conn min =
    let s' = record s { buf_size = if s.buf_size == 0 then max_msg else s.buf_size } in
    after (decode s s.buffer min) conn (receive_loop fuel s' s.buffer conn min)
