-- ===== src/Examples/Messages.antt =====
-- The theorems on framing at concrete messages and connections.
use openlan.Base.{
  ℕ, zero, suc, ◌+◌, ◌-◌, ◌≡◌, refl, ap, true, false, Option, none, some, List, [], ◌∷◌, ◌++◌,
  arith, length, map, take,
}
use openlan.Protocol.Ether.{eth_zero}
use openlan.Message.Frame.{FrameMessage, new_control_frame, from_bytes, buffer, decode, login_req}
use openlan.Message.Frame.Control.{decode-new_control_frame}
use openlan.Message.Stream
use openlan.Message.Stream.{
  BlockCrypt, Stream, Write, takes, Written, unfinished, receive, send, write_x, encrypted,
  decrypted,
}
use openlan.Message.Stream.Writes.{write_x_completes}
use openlan.Message.Stream.Reassembly.{chunks, receives, receives_all}
use openlan.Message.Stream.EndToEnd.{IsCipher, Sent, done, next, receives-Sent}
use openlan.Message.Stream.Wedge.{receive-spins}
use openlan.Message.Packet
use openlan.Message.Packet.{accepted}
use openlan.Message.Packet.Datagrams.{receive-send}

-- A cipher that adds 1 to each byte, held as a number.
abbrev shift : Option BlockCrypt
shift = some (record { encrypt = map (λ x. x + 1); decrypt = map (λ x. x - 1) })

length-shift : (xs : List ℕ) → length (encrypted shift xs) ≡ length xs
length-shift [] = refl
length-shift (x ∷ xs) = ap suc (length-shift xs)

take-shift : (n : ℕ) (xs : List ℕ) → decrypted shift (take n (encrypted shift xs)) ≡ take n xs
take-shift zero xs = refl
take-shift (suc n) [] = refl
take-shift (suc n) (x ∷ xs) = ground (arith, take-shift n xs)

shift-IsCipher : IsCipher shift
shift-IsCipher = record { same_length = length-shift; front = λ n xs h. take-shift n xs }

abbrev frame_of : List ℕ → FrameMessage
frame_of xs = record {
  control = false;
  action = [];
  params = [];
  head = 0 ∷ 0 ∷ 0 ∷ 0 ∷ [];
  frame = xs;
  tail = [];
  size = length xs;
  total = length xs;
  parsed = none;
}

abbrev payload_a : List ℕ
payload_a = 1 ∷ 2 ∷ 3 ∷ 4 ∷ 5 ∷ 6 ∷ 7 ∷ 8 ∷ []

abbrev payload_b : List ℕ
payload_b = 255 ∷ 255 ∷ 0 ∷ 2 ∷ 9 ∷ 8 ∷ 7 ∷ 6 ∷ 5 ∷ []

abbrev cut : List (List ℕ)
cut =
    (255 ∷ []) ∷ (255 ∷ 0 ∷ 8 ∷ 1 ∷ 2 ∷ 3 ∷ 4 ∷ []) ∷ []
    ++ (5 ∷ 6 ∷ 7 ∷ 8 ∷ 255 ∷ 255 ∷ []) ∷ (0 ∷ 9 ∷ 255 ∷ 255 ∷ 0 ∷ 2 ∷ 9 ∷ 8 ∷ 7 ∷ 6 ∷ 5 ∷ []) ∷ []

abbrev plain : Stream
plain = record { block = none; buffer = []; buf_size = 64 }

receives_all_example : receives 2 40 plain (chunks cut) 12 ≡ some (payload_a ∷ payload_b ∷ [])
receives_all_example =
    receives_all (payload_a ∷ payload_b ∷ []) 40 plain cut 12 (omega arith)
      (
        record { small = omega arith; least = omega arith; fits = omega arith },
        (record { small = omega arith; least = omega arith; fits = omega arith }, tt),
      )
      refl (omega arith)

abbrev secret : Stream
secret = record { block = shift; buffer = []; buf_size = 64 }

abbrev written : Written
written = record {
  wire = 255 ∷ 255 ∷ 0 ∷ 8 ∷ 2 ∷ 3 ∷ 4 ∷ 5 ∷ 6 ∷ 7 ∷ 8 ∷ 9 ∷ [];
  result = some none;
}

written_by : send shift (takes 5 ∷ takes 7 ∷ []) (frame_of payload_a) ≡ some written
unfolding send write_x Stream.encode buffer
written_by = refl

sent : Sent shift (frame_of payload_a ∷ []) written.wire
sent = next (takes 5 ∷ takes 7 ∷ []) (frame_of payload_a) written written_by refl done

receives-Sent_example : receives 1 20 secret (chunks (written.wire ∷ [])) 12 ≡ some (payload_a ∷ [])
receives-Sent_example =
    receives-Sent shift shift-IsCipher (frame_of payload_a ∷ []) written.wire secret
      (written.wire ∷ []) 20 12 sent refl refl (omega arith)
      (
        record {
          within = omega arith;
          small = omega arith;
          least = omega arith;
          most = omega arith;
        },
        tt,
      )
      refl (omega arith)

write_x_completes_example :
    (write_x (takes 1 ∷ takes 2 ∷ takes 9 ∷ []) (7 ∷ 8 ∷ 9 ∷ [])).result ≡ some none
write_x_completes_example =
    write_x_completes (takes 1 ∷ takes 2 ∷ takes 9 ∷ []) (7 ∷ 8 ∷ 9 ∷ [])
      (omega arith, (omega arith, (omega arith, tt))) (omega arith)

abbrev tight : Stream
tight = record { block = none; buffer = []; buf_size = 4 }

receive-spins_example : receive 9 tight (chunks ((255 ∷ 255 ∷ 0 ∷ 9 ∷ 1 ∷ []) ∷ [])) 4 ≡ unfinished
receive-spins_example =
    receive-spins 9 tight (1 ∷ []) ((255 ∷ 255 ∷ 0 ∷ 9 ∷ 1 ∷ []) ∷ []) 0 9 4 (omega arith)
      (omega arith) (omega arith) (omega arith) refl

receive-send_example :
    (bs : List ℕ) × (m' : FrameMessage) × (Packet.send shift (frame_of payload_a) ≡ some (bs, 8))
    × (Packet.receive shift 20 bs 20 1 ≡ some (accepted m'))
    × (m'.size ≡ 8)
    × (m'.frame ≡ payload_a)
receive-send_example =
    receive-send shift (frame_of payload_a) 20 20 1 shift-IsCipher (omega arith) (omega arith)
      (omega arith) (omega arith) (omega arith) (omega arith)

decode-new_control_frame_example :
    (m n : FrameMessage) × (new_control_frame login_req (1 ∷ 2 ∷ []) ≡ some m)
    × (m.frame ≡ eth_zero ++ (login_req ++ (1 ∷ 2 ∷ [])))
    × (m.size ≡ length m.frame)
    × (from_bytes (buffer m) ≡ some n)
    × ((decode n).1 ≡ true)
    × ((decode n).0.action ≡ login_req)
    × ((decode n).0.params ≡ 1 ∷ 2 ∷ [])
decode-new_control_frame_example = decode-new_control_frame login_req (1 ∷ 2 ∷ []) refl
