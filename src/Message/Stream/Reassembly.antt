-- ===== src/Message/Stream/Reassembly.antt =====
-- Messages come out of the stream whole and in order, however the connection cuts it.
use openlan.Base.{
  ℕ, zero, suc, ◌+◌, ◌-◌, ◌≤◌, ◌<◌, ◌≡◌, refl, ap, ◌∙◌, List, [], ◌∷◌, ◌++◌, arith, length,
  length-append, take, drop, take-append-drop, take_all, length-drop, leb, if◌then◌else◌, some,
  none, map,
}
use openlan.Message.Stream.{
  Stream, Arrival, chunk, Received, after, got, receive, receive_loop, read, decode, decrypted,
  max_msg,
}
use openlan.Message.Stream.Wire.{wire, delivered, decode-wire, decode_part}
use mathlib.Core.List.{append_assoc}
use openlan.Base.{◌==◌, Option}
use openlan.Base.Slices.{◌>>=◌}
use native.Mathlib.Decide.{dec_lt}

-- A connection that gives these chunks and does not fail, and the bytes that it gives.
abbrev pub chunks : List (List ℕ) → List Arrival
chunks [] = []
chunks (c ∷ cs) = chunk c ∷ chunks cs

abbrev pub bytes : List (List ℕ) → List ℕ
bytes [] = []
bytes (c ∷ cs) = c ++ bytes cs

-- More rounds than this are never needed: each takes a chunk or at least a byte of one.
abbrev pub rounds : List (List ℕ) → ℕ
rounds cs = length cs + length (bytes cs)

-- The size that the buffer has from the first read on.
abbrev pub room : Stream → ℕ
room s = if s.buf_size == 0 then max_msg else s.buf_size

-- The next message of the stream is returned, and what is left is the rest of the stream.
pub record Delivers (s : Stream) (r : Received) (p rest : List ℕ) (cs : List (List ℕ))
    : Type 0 where
  pub state : Stream
  pub chunks_left : List (List ℕ)
  pub result : r ≡ got state (delivered p (decrypted s.block p)) (chunks chunks_left)
  pub stream : state.buffer ++ bytes chunks_left ≡ rest
  pub same_block : state.block ≡ s.block
  pub same_room : room state ≡ room s
  pub shorter : rounds chunks_left ≤ rounds cs

-- Where `xs` reaches beyond `ys` it splits at its end.
split_at :
    (xs more ys t : List ℕ)
    → xs ++ more ≡ ys ++ t
    → length ys ≤ length xs
    → (u : List ℕ) × (xs ≡ ys ++ u) × (u ++ more ≡ t)
split_at xs more [] t e h = (xs, refl, e)
split_at [] more (y ∷ ys) t e h = absurd (omega arith)
split_at (x ∷ xs) more (y ∷ ys) t e h =
    let (u, p, q) = split_at xs more ys t (ground arith) (omega arith) in (u, ground (arith, p), q)

-- What a read with room for n bytes leaves of the chunks.
pub leftover : ℕ → List ℕ → List (List ℕ) → List (List ℕ)
leftover n c cs = if leb (length c) n then cs else drop n c ∷ cs

pub read-chunks :
    (n : ℕ) (c : List ℕ) (cs : List (List ℕ))
    → read n c (chunks cs) ≡ (take n c, chunks (leftover n c cs))
unfolding read leftover
read-chunks n c cs = ground arith

pub bytes-leftover :
    (n : ℕ) (c : List ℕ) (cs : List (List ℕ)) → take n c ++ bytes (leftover n c cs) ≡ c ++ bytes cs
unfolding leftover
bytes-leftover n c cs =
    ground
      (arith, take_all n c, take-append-drop n c, append_assoc (take n c) (drop n c) (bytes cs))

rounds-leftover :
    (n : ℕ) (c : List ℕ) (cs : List (List ℕ)) → 0 < n → rounds (leftover n c cs) < rounds (c ∷ cs)
unfolding leftover
rounds-leftover n c cs h =
    ground (arith, length-append c (bytes cs), length-append (drop n c) (bytes cs), length-drop n c)

-- A message that fits the buffer and is not below the least size.
pub record Sendable (s : Stream) (min : ℕ) (p : List ℕ) : Type 0 where
  pub small : length p < 65536
  pub least : min ≤ length p + 4
  pub fits : length p + 4 ≤ room s

after_read :
    (s : Stream) (tmp p rest : List ℕ) (cs before : List (List ℕ)) (min : ℕ) (again : Received)
    → 4 ≤ min
    → Sendable s min p
    → tmp ++ bytes cs ≡ wire p ++ rest
    → rounds cs ≤ rounds before
    → (length tmp < length p + 4 → Delivers s again p rest cs)
    → Delivers s (after (decode s tmp min) (chunks cs) again) p rest before
after_read s tmp p rest cs before min again low ok e fewer more =
    elim (dec_lt (length tmp) (length p + 4)) [
      | yes short ↦
          let d = more short in
          rw (decode_part s tmp (bytes cs) p rest min ok.small low short e) (record {
            state = d.state;
            chunks_left = d.chunks_left;
            result = d.result;
            stream = d.stream;
            same_block = d.same_block;
            same_room = d.same_room;
            shorter = omega (arith, d.shorter);
          })
      | no long ↦
          let (u, x, y) = split_at tmp (bytes cs) (wire p) rest e (omega arith) in
          rw (x, decode-wire s p u min ok.small ok.least)
            (record {
              state = record s { buffer = u };
              chunks_left = cs;
              result = refl;
              stream = y;
              same_block = refl;
              same_room = refl;
              shorter = omega arith;
            })
    ]

receive_loop-Delivers :
    (fuel : ℕ) (s : Stream) (tmp p rest : List ℕ) (cs : List (List ℕ)) (min : ℕ)
    → 4 ≤ min
    → Sendable s min p
    → s.buf_size ≡ room s
    → tmp ++ bytes cs ≡ wire p ++ rest
    → length tmp < length p + 4
    → rounds cs < fuel
    → Delivers s (receive_loop fuel s tmp (chunks cs) min) p rest cs
unfolding receive_loop
receive_loop-Delivers zero s tmp p rest cs min low ok size e short f = absurd (omega arith)
receive_loop-Delivers (suc fuel) s tmp p rest [] min low ok size e short f =
    absurd (omega (arith, ap length e, length-append tmp [], length-append p rest))
receive_loop-Delivers (suc fuel) s tmp p rest (c ∷ cs) min low ok size e short f =
    let n = s.buf_size - length tmp in
    let positive : 0 < n = omega (arith, ok.fits, size) in
    let cs' = leftover n c cs in
    let tmp' = tmp ++ take n c in
    let e' : tmp' ++ bytes cs' ≡ wire p ++ rest =
      append_assoc tmp (take n c) (bytes cs') ∙ ap (◌++◌ tmp) (bytes-leftover n c cs) ∙ e in
    let fewer = rounds-leftover n c cs positive in
    rw (read-chunks n c cs) (
      after_read s tmp' p rest cs' (c ∷ cs) min _ low ok e' (omega (arith, fewer)) λ short'.
        receive_loop-Delivers fuel s tmp' p rest cs' min low ok size e' short'
          (omega (arith, fewer)))

abbrev sized : Stream → Stream
sized s = record s { buf_size = room s }

sized-Delivers :
    (s : Stream) (r : Received) (p rest : List ℕ) (cs : List (List ℕ))
    → Delivers (sized s) r p rest cs
    → Delivers s r p rest cs
sized-Delivers s r p rest cs d = record {
  state = d.state;
  chunks_left = d.chunks_left;
  result = d.result;
  stream = d.stream;
  same_block = d.same_block;
  same_room = ground (arith, d.same_room);
  shorter = d.shorter;
}

-- One Receive, on what it had buffered and what arrives.
pub receive-Delivers :
    (fuel : ℕ) (s : Stream) (p rest : List ℕ) (cs : List (List ℕ)) (min : ℕ)
    → 4 ≤ min
    → Sendable s min p
    → s.buffer ++ bytes cs ≡ wire p ++ rest
    → rounds cs < fuel
    → Delivers s (receive fuel s (chunks cs) min) p rest cs
unfolding receive
receive-Delivers fuel s p rest cs min low ok e f =
    let ok' : Sendable (sized s) min p = record {
      small = ok.small;
      least = ok.least;
      fits = ground (arith, ok.fits);
    } in
    after_read s s.buffer p rest cs cs min _ low ok e (omega arith) λ short.
      sized-Delivers s _ p rest cs (
        receive_loop-Delivers fuel (sized s) s.buffer p rest cs min low ok' (ground arith) e short
          f)

-- The frames that so many Receives return; `none` if one of them returns no message.
pub receives : ℕ → ℕ → Stream → List Arrival → ℕ → Option (List (List ℕ))
receives zero fuel s conn min = some []
receives (suc n) fuel s conn min = elim (receive fuel s conn min) [
  | got s' m conn' ↦ receives n fuel s' conn' min >>= λ ms. some (m.frame ∷ ms)
  | _ ↦ none
]

-- The stream that the messages make.
abbrev pub wires : List (List ℕ) → List ℕ
wires [] = []
wires (p ∷ ps) = wire p ++ wires ps

abbrev pub AllSendable : Stream → ℕ → List (List ℕ) → Type 0
AllSendable s min [] = Unit {0}
AllSendable s min (p ∷ ps) = Sendable s min p × AllSendable s min ps

AllSendable-room :
    (s s' : Stream) (min : ℕ) (ps : List (List ℕ))
    → room s' ≡ room s
    → AllSendable s min ps
    → AllSendable s' min ps
AllSendable-room s s' min [] e h = tt
AllSendable-room s s' min (p ∷ ps) e h = (
  record { small = h.0.small; least = h.0.least; fits = omega (arith, h.0.fits, e) },
  AllSendable-room s s' min ps e h.1,
)

-- Where the bytes buffered and the bytes that arrive, however they are cut into chunks, are the
-- messages `ps` one after the other, that many Receives return the payloads, decrypted, in order.
-- Each payload is below 65536 bytes, fits the buffer and is not below the least size, which is at
-- least 4; the rounds given are more than the chunks and their bytes.
pub receives_all :
    (ps : List (List ℕ)) (fuel : ℕ) (s : Stream) (cs : List (List ℕ)) (min : ℕ)
    → 4 ≤ min
    → AllSendable s min ps
    → s.buffer ++ bytes cs ≡ wires ps
    → rounds cs < fuel
    → receives (length ps) fuel s (chunks cs) min ≡ some (map (decrypted s.block) ps)
unfolding receives
receives_all [] fuel s cs min low ok e f = refl
receives_all (p ∷ ps) fuel s cs min low ok e f =
    let d = receive-Delivers fuel s p (wires ps) cs min low ok.0 e f in
    let ok' = AllSendable-room s d.state min ps d.same_room ok.1 in
    let ih =
      receives_all ps fuel d.state d.chunks_left min low ok' d.stream (omega (arith, d.shorter)) in
    rw (d.result, receives) (rw ih (ground (arith, d.same_block)))
