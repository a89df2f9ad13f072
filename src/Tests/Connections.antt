-- ===== src/Tests/Connections.antt =====
-- The protocol on a short connection: each request is answered by itself twice, and counted.
use epochs.Common.{ℕ, suc, ◌+◌, ◌*◌, ◌/◌, ◌≡◌, ◌≤◌, refl, [], ◌∷◌, ◌++◌, List, some, length, arith}
use epochs.Codec.{Bytes}
use epochs.Epx.Base64.RoundTrip
use epochs.Epx.Base64.RoundTrip.{base64_decode}
use epochs.Epx.Base64.{base64_encode}
use epochs.Epx.Frame.Streams
use epochs.Epx.Frame.Streams.{frame, frames, Answers}
use epochs.Epx.Frame.{Outcome, ok, handle_conn, read_frame, read_payload, from_be_bytes, max_frame}
use epochs.Text.{codes}

abbrev answer : Bytes → ℕ → Outcome Bytes × ℕ
answer request n = (ok (request ++ request), suc n)

abbrev requests : List Bytes
requests = codes "ab" ∷ codes "c" ∷ []

abbrev responses : List Bytes
responses = codes "abab" ∷ codes "cc" ∷ []

answered : Answers answer requests 0 responses 2
answered =
    Answers.next (codes "ab") (codes "abab") (codes "c" ∷ []) (codes "cc" ∷ []) 0 1 2 (omega arith)
      (omega arith) refl
      (Answers.next (codes "c") (codes "cc") [] [] 1 2 2 (omega arith) (omega arith) refl
        (Answers.none_left 2))

handle_conn-frames_example :
    handle_conn answer 3 (frames requests) 0 ≡ (ok tt, (frames responses, 2))
handle_conn-frames_example =
    Streams.handle_conn-frames answer 3 requests responses 0 2 answered (omega arith)

abbrev socket : Bytes
socket = 0 ∷ 0 ∷ 0 ∷ 2 ∷ codes "abcd"

socket-read : read_frame socket ≡ ok (some (codes "ab", codes "cd"))
unfolding read_frame read_payload from_be_bytes
socket-read = refl

read_frame-inv_example :
    (a b c d : ℕ) × (socket ≡ a ∷ b ∷ c ∷ d ∷ (codes "ab" ++ codes "cd"))
    × (length (codes "ab") ≡ from_be_bytes a b c d)
    × (length (codes "ab") ≤ max_frame)
read_frame-inv_example = Streams.read_frame-inv socket (codes "ab") (codes "cd") socket-read

base64_decode-base64_encode_example :
    (text : Bytes) × (base64_encode (codes "foob") ≡ some text)
    × (base64_decode text ≡ some (codes "foob"))
    × (length text ≡ (length (codes "foob") + 2) / 3 * 4)
base64_decode-base64_encode_example =
    RoundTrip.base64_decode-base64_encode (codes "foob")
      (omega arith, (omega arith, (omega arith, (omega arith, tt))))
