-- ===== src/Message/Frame/Append.antt =====
-- Append on a buffer that has room: the bytes come behind what was appended before.
use openlan.Base.{
  ℕ, ◌+◌, ◌≤◌, ◌≡◌, refl, sym, if◌then◌else◌, ◌==◌, some, List, [], ◌++◌, arith, length, take, drop,
  take_append, drop_append, length-append, take_all, length-drop, length-replicate, replicate,
}
use mathlib.Core.List.{append_assoc}
use openlan.Message.Frame.{FrameMessage, append, copy_at, new_frame_message, max_buf, eth_di}

-- What stands in front of the size is `front`, and the buffer goes on behind it.
pub record Holds (front : List ℕ) (m : FrameMessage) : Type 0 where
  pub back : List ℕ
  pub frame_eq : m.frame ≡ front ++ back
  pub size_eq : m.size ≡ length front
  pub total_eq : m.total ≡ length front + length back

pub append-Holds :
    (front bytes : List ℕ) (m : FrameMessage) (h : Holds front m)
    → length bytes ≤ length h.back
    → (m' : FrameMessage) × (append bytes m ≡ some m')
      × (h' : Holds (front ++ bytes) m') × (length h'.back + length bytes ≡ length h.back)
unfolding append copy_at
append-Holds front bytes m h room =
    let frame = front ++ (bytes ++ drop (length bytes) h.back) in
    (
      record m { frame = frame; size = m.size + length bytes },
      ground (
        arith,
        h.frame_eq,
        h.size_eq,
        h.total_eq,
        room,
        take_append m.size front h.back,
        drop_append m.size front h.back,
        length-append front h.back,
        take_all (length h.back) bytes,
      ),
      record {
        back = drop (length bytes) h.back;
        frame_eq = sym (append_assoc front bytes (drop (length bytes) h.back));
        size_eq = omega (arith, h.size_eq, length-append front bytes);
        total_eq =
            omega (arith, h.total_eq, length-append front bytes, length-drop (length bytes) h.back);
      },
      omega (arith, length-drop (length bytes) h.back),
    )

-- The room of a new buffer for n bytes, or for 4096 where n is 0.
abbrev pub room_of : ℕ → ℕ
room_of n = (if n == 0 then max_buf else n) + eth_di

pub new-Holds : (n : ℕ) → (h : Holds [] (new_frame_message n)) × (length h.back ≡ room_of n)
unfolding new_frame_message
new-Holds n = (
  record {
    back = replicate {A = ℕ} (room_of n) 0;
    frame_eq = refl;
    size_eq = refl;
    total_eq = omega (arith, length-replicate {A = ℕ} (room_of n) 0);
  },
  length-replicate {A = ℕ} (room_of n) 0,
)

pub take-Holds : (front : List ℕ) (m : FrameMessage) → Holds front m → take m.size m.frame ≡ front
take-Holds front m h = ground (arith, h.frame_eq, h.size_eq, take_append m.size front h.back)

-- The first Append overwrites the front of the buffer.
pub append_front :
    (bytes : List ℕ) (m : FrameMessage)
    → m.size ≡ 0
    → m.total ≡ length m.frame
    → length bytes ≤ length m.frame
    → append bytes m
      ≡ some (record m { frame = bytes ++ drop (length bytes) m.frame; size = length bytes })
unfolding append copy_at
append_front bytes m s t room = ground (arith, s, t, take_all (length m.frame) bytes)

-- A copy that fits goes over what was there.
pub copy_at_fits :
    (n : ℕ) (dst src : List ℕ)
    → n + length src ≤ length dst
    → copy_at n dst src ≡ some (take n dst ++ (src ++ drop (length src) (drop n dst)))
unfolding copy_at
copy_at_fits n dst src room = ground (arith, length-drop n dst, take_all (length (drop n dst)) src)
