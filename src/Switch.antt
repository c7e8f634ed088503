-- ===== src/Switch.antt =====
-- What the switch does with its clients: onFrame, OnClient, ReadClient and OnClose of
-- pkg/olsw/switch.go, and the goroutine of Read in pkg/libol/socket.go that calls ReadClient. A hook
-- may change any state; a client's private value, writing to a tap and sending a message are the
-- fields of an environment. `none` is the panic of a dereference of nil.
pub mod Reading
pub mod Closing
pub mod Rules
use openlan.Base.{
  ℕ, Bool, true, false, Option, none, some, List, [], ◌∷◌, String, string_eq, if◌then◌else◌,
}
use openlan.Base.Text.{codes, bytes_eq}
use openlan.Message.Frame
use openlan.Message.Frame.{FrameMessage}
use openlan.Cache.Points
use openlan.Cache.Points.{PointCache}
use openlan.Cache.Lease
use openlan.Cache.Lease.{Cache}

abbrev pub ping_req : List ℕ
ping_req = codes "ping= "

-- The private value of a client: nil, something else, or a point with its tap, if it has one.
pub data Private : Type 0 where
  unset other : Private
  point : Option ℕ → Private

pub data Err (E : Type 0) : Type 0 where
  not_found not_right no_device : Err E
  write_failed : Err E
  refused : E → Err E

abbrev pub Hook : Type 0 → Type 0 → Type 0
Hook S E = FrameMessage → S → S × Option E

-- Writing to a tap tells whether that failed, as SignIn does.
pub record Env (S : Type 0) : Type 0 where
  pub private : S → Private
  pub device_write : ℕ → List ℕ → S → S × Bool
  pub sign_in : S → S × Bool

module _ {S E : Type 0} where
  -- onFrame: the hooks in their order, until one refuses; a hook may be nil.
  unfoldable pub on_frame : List (Option (Hook S E)) → FrameMessage → S → S × Option E
  on_frame [] frame s = (s, none)
  on_frame (none ∷ hooks) frame s = on_frame hooks frame s
  on_frame (some h ∷ hooks) frame s =
      let r = h frame s in
      let rest = on_frame hooks frame r.0 in elim r.1 [ some err ↦ (r.0, some err) | none ↦ rest ]

  -- The end of ReadClient: an Ethernet frame goes to the tap of the point.
  unfoldable pub to_device : Env S → FrameMessage → S → S × Option (Err E)
  to_device env frame s = elim (env.private s) [
    | unset ↦ (s, some not_found)
    | other ↦ (s, some not_right)
    | point none ↦ (s, some no_device)
    | point (some dev) ↦
        let r = env.device_write dev frame.frame s in
        if r.1 then (r.0, some write_failed) else (r.0, none)
  ]

  -- ReadClient once the hooks have seen the frame.
  unfoldable pub after_hooks : Env S → FrameMessage → S × Option E → S × Option (Err E)
  after_hooks env frame (s, some err) =
      (if bytes_eq frame.action ping_req then (env.sign_in s).0 else s, none)
  after_hooks env frame (s, none) = if frame.control then (s, none) else to_device env frame s

  unfoldable pub read_client :
      Env S → List (Option (Hook S E)) → FrameMessage → S → S × Option (Err E)
  read_client env hooks m s =
      let frame = (Frame.decode m).0 in after_hooks env frame (on_frame hooks frame s)

  -- The goroutine of Read that takes frames from the queue, on those that come: the state, and
  -- whether it has returned. What comes after that stays in the queue.
  unfoldable pub serve : (FrameMessage → S → S × Option (Err E)) → List FrameMessage → S → S × Bool
  serve read_at [] s = (s, false)
  serve read_at (frame ∷ frames) s =
      let r = read_at frame s in
      let rest = serve read_at frames r.0 in elim r.1 [ some err ↦ (r.0, true) | none ↦ rest ]

-- OnClose, by the address of the client: the caches, and the tap that is closed.
unfoldable pub on_close : String → PointCache → Cache → Option (PointCache × Cache × Option ℕ)
on_close addr points w =
    let uuid = Points.get_uuid addr points in
    let leases : Option Cache =
      if string_eq.beq (Points.get_addr uuid points) addr then Lease.del_lease uuid w else some w in
    let r = Points.del addr points in elim leases [ none ↦ none | some w1 ↦ some (r.0, w1, r.1) ]
