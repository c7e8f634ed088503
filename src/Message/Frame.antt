-- ===== src/Message/Frame.antt =====
-- FrameMessage and ControlMessage of pkg/libol/message.go. `frame` is a slice of `buffer`: the buffer
-- is held as the 4 bytes before the frame, the frame, and what lies behind it. The Go strings of
-- actions are their bytes. `seq` is never used and left out.
pub mod Append
pub mod Control
use openlan.Base.{
  ℕ, ◌+◌, ◌*◌, ◌≡◌, Bool, true, false, not, Option, none, some, List, [], ◌∷◌, ◌++◌, if◌then◌else◌,
  ltb, leb, ◌==◌, length, take, drop, replicate,
}
use openlan.Base.Text.{codes, bytes_eq}
use openlan.Base.Slices.{◌>>=◌, upto, from}
use openlan.Protocol.Ether.{eth_zero}
use openlan.Message.Proto
use openlan.Message.Proto.{FrameProto}

abbrev pub max_buf : ℕ
max_buf = 4096

abbrev pub hl_size : ℕ
hl_size = 4

abbrev pub eth_di : ℕ
eth_di = 6

abbrev pub magic : List ℕ
magic = 0xff ∷ 0xff ∷ []

abbrev pub login_req : List ℕ
login_req = codes "logi= "

abbrev pub login_resp : List ℕ
login_resp = codes "logi: "

unfoldable pub is_control : List ℕ → Bool
is_control bytes = if ltb (length bytes) 6 then false else bytes_eq (take 6 bytes) eth_zero

pub record FrameMessage : Type 0 where
  pub control : Bool
  pub action : List ℕ
  pub params : List ℕ
  pub head : List ℕ
  pub frame : List ℕ
  pub tail : List ℕ
  pub size : ℕ
  pub total : ℕ
  pub parsed : Option FrameProto

-- `m.buffer`
unfoldable pub buffer : FrameMessage → List ℕ
buffer m = m.head ++ (m.frame ++ m.tail)

-- NewFrameMessage. The argument is an int: the caller passes a length, so it is not negative.
unfoldable pub new_frame_message : ℕ → FrameMessage
new_frame_message max_size =
    let room = (if max_size == 0 then max_buf else max_size) + eth_di in
    record {
      control = false;
      action = [];
      params = [];
      head = replicate 4 0;
      frame = replicate room 0;
      tail = [];
      size = 0;
      total = room;
      parsed = none;
    }

-- NewFrameMessageFromBytes: `none` where the buffer is shorter than its header.
unfoldable pub from_bytes : List ℕ → Option FrameMessage
from_bytes bytes = do
  frame ← from hl_size bytes
  some (record {
    control = false;
    action = [];
    params = [];
    head = take hl_size bytes;
    frame = frame;
    tail = [];
    size = length frame;
    total = length frame;
    parsed = none;
  })

unfoldable pub decode : FrameMessage → FrameMessage × Bool
unfolding is_control
decode m =
    let m' = record m { control = is_control m.frame } in
    (
      if m'.control
          then (if ltb (length m.frame) 12
              then m'
              else record m' { action = take 6 (drop 6 m.frame); params = drop 12 m.frame })
          else m',
      m'.control,
    )

-- `copy(dst[n:], src)`, which writes no further than the end of `dst`; `none` where n lies beyond it.
unfoldable pub copy_at : ℕ → List ℕ → List ℕ → Option (List ℕ)
copy_at n dst src =
    if leb n (length dst)
    then some (take n dst ++ (take (length (drop n dst)) src ++ drop (length src) (drop n dst)))
    else none

-- `m.total - m.size >= add`, on ints
unfoldable pub append : List ℕ → FrameMessage → Option FrameMessage
append bytes m =
    if leb (m.size + length bytes) m.total
    then (copy_at m.size m.frame bytes >>= λ frame.
        some (record m { frame = frame; size = m.size + length bytes }))
    else some m

-- Proto, which parses once. The parsed frame and its error.
unfoldable pub proto : FrameMessage → Option (FrameMessage × FrameProto × Option Proto.Err)
proto m = elim m.parsed [
  | some p ↦ some (m, p, p.err)
  | none ↦
      Proto.decode (Proto.new m.frame) >>= λ r. some (record m { parsed = some r.0 }, r.0, r.0.err)
]

pub record ControlMessage : Type 0 where
  pub control : Bool
  pub operator : List ℕ
  pub action : List ℕ
  pub params : List ℕ

unfoldable pub new_control_message : List ℕ → List ℕ → List ℕ → ControlMessage
new_control_message action opr body = record {
  control = true;
  action = action;
  params = body;
  operator = opr;
}

unfoldable pub encode : ControlMessage → Option FrameMessage
unfolding append copy_at new_frame_message
encode c = do
  a ← upto 4 c.action
  o ← upto 2 c.operator
  let p = a ++ (o ++ c.params)
  let frame = new_frame_message (length p)
  m ←
      append eth_zero
        (record frame { control = c.control; action = c.action ++ c.operator; params = c.params })
  append p m

-- NewControlFrame
unfoldable pub new_control_frame : List ℕ → List ℕ → Option FrameMessage
unfolding encode new_control_message
new_control_frame action body = do
  a ← upto 4 action
  o ← from 4 action
  encode (new_control_message a o body)
