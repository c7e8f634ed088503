-- ===== src/Message/Stream/Wedge.antt =====
-- A header that announces more than the buffer holds: Receive does not check it against `max`.
use openlan.Base.{
  ℕ, zero, suc, ◌+◌, ◌-◌, ◌*◌, ◌≤◌, ◌<◌, ◌≡◌, refl, ap, ◌∙◌, List, [], ◌∷◌, ◌++◌, arith, length,
  length-append, take, length-take,
}
use mathlib.Core.List.{append_assoc}
use openlan.Message.Stream.{Stream, unfinished, receive, receive_loop}
use openlan.Message.Stream.Wire.{decode_short}
use openlan.Message.Stream.Reassembly.{chunks, bytes, room, leftover, read-chunks, bytes-leftover}

receive_loop-spins :
    (fuel : ℕ) (s : Stream) (tmp t : List ℕ) (cs : List (List ℕ)) (hi lo min : ℕ)
    → 4 ≤ min
    → s.buf_size < hi * 256 + lo + 4
    → s.buf_size < length tmp + length (bytes cs)
    → length tmp ≤ s.buf_size
    → tmp ++ bytes cs ≡ 255 ∷ 255 ∷ hi ∷ lo ∷ t
    → receive_loop fuel s tmp (chunks cs) min ≡ unfinished
unfolding receive_loop
receive_loop-spins zero s tmp t cs hi lo min low big full fit e = refl
receive_loop-spins (suc fuel) s tmp t [] hi lo min low big full fit e = absurd (omega arith)
receive_loop-spins (suc fuel) s tmp t (c ∷ cs) hi lo min low big full fit e =
    let n = s.buf_size - length tmp in
    let cs' = leftover n c cs in
    let tmp' = tmp ++ take n c in
    let e' : tmp' ++ bytes cs' ≡ 255 ∷ 255 ∷ hi ∷ lo ∷ t =
      append_assoc tmp (take n c) (bytes cs') ∙ ap (◌++◌ tmp) (bytes-leftover n c cs) ∙ e in
    let grown = length-append tmp (take n c) in
    let taken = length-take n c in
    let sum = ap length (bytes-leftover n c cs) in
    let left = length-append (take n c) (bytes cs') in
    let nothing_yet =
      decode_short s tmp' (bytes cs') t hi lo min low (omega (arith, grown, taken)) e' in
    rw (read-chunks n c cs, nothing_yet)
      (receive_loop-spins fuel s tmp' t cs' hi lo min low big (omega (arith, grown, sum, left))
        (omega (arith, grown, taken)) e')

-- Once more bytes than the buffer holds are there, and they begin with a header that announces more
-- than the buffer holds, Receive returns neither a message nor an error, after any number of rounds. The
-- least size is at least 4, and what is left of earlier reads fits the buffer.
pub receive-spins :
    (fuel : ℕ) (s : Stream) (t : List ℕ) (cs : List (List ℕ)) (hi lo min : ℕ)
    → 4 ≤ min
    → room s < hi * 256 + lo + 4
    → room s < length (s.buffer ++ bytes cs)
    → length s.buffer ≤ room s
    → s.buffer ++ bytes cs ≡ 255 ∷ 255 ∷ hi ∷ lo ∷ t
    → receive fuel s (chunks cs) min ≡ unfinished
unfolding receive
receive-spins fuel s t cs hi lo min low big full fit e =
    let s' : Stream = record s { buf_size = room s } in
    rw (decode_short s s.buffer (bytes cs) t hi lo min low (omega arith) e) (
      receive_loop-spins fuel s' s.buffer t cs hi lo min low big
        (omega (arith, length-append s.buffer (bytes cs))) fit e)
