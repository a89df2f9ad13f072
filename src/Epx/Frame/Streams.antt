-- ===== src/Epx/Frame/Streams.antt =====
-- Frames that are written one after the other are read one after the other.
use epochs.Common.{
  ℕ, zero, suc, ◌/◌, ◌%◌, ◌^◌, ◌≤◌, ◌<◌, ◌≡◌, refl, sym, ap, ◌∙◌, List, [], ◌∷◌, ◌++◌, false,
  Option, none, some, ltb, ◌==◌, length, length-append, take, drop, take_append_self,
  drop_append_self, arith, ltb→false, take_append_drop, ==_iff, Bool-cases, inl, inr, length-take,
}
use epochs.Codec.{Bytes}
use epochs.Epx.Frame.{
  Failure, Outcome, ok, err, max_frame, to_be_bytes, from_be_bytes, read_payload, read_frame,
  write_frame, send, respond, round, handle_conn,
}

be_bytes_lem :
    (v : ℕ)
    → v < 2 ^ 32
    → from_be_bytes (v / 2 ^ 24 % 256) (v / 2 ^ 16 % 256) (v / 2 ^ 8 % 256) (v % 256) ≡ v
unfolding from_be_bytes
be_bytes_lem v lt = omega arith

-- The bytes of a frame.
unfoldable pub frame : Bytes → Bytes
frame body = to_be_bytes (length body) ++ body

read_payload_lem :
    (body rest : Bytes)
    → length body ≤ max_frame
    → read_payload (length body) (body ++ rest) ≡ ok (some (body, rest))
unfolding read_payload
read_payload_lem [] rest le = refl
read_payload_lem (b ∷ body) rest le =
    let whole = b ∷ body in
    let small = ltb→false max_frame (length whole) le in
    let there =
      ltb→false (length (whole ++ rest)) (length whole) (omega (arith, length-append whole rest)) in
    let nonzero : (length whole == 0) ≡ false = ground arith in
    rw (nonzero, small, there, take_append_self whole rest, drop_append_self whole rest) refl

read_frame-frame :
    (body rest : Bytes)
    → length body ≤ max_frame
    → read_frame (frame body ++ rest) ≡ ok (some (body, rest))
unfolding read_frame frame to_be_bytes
read_frame-frame body rest le =
    rw (be_bytes_lem (length body) (omega arith)) (read_payload_lem body rest le)

write_frame-frame : (body : Bytes) → length body ≤ max_frame → write_frame body ≡ ok (frame body)
unfolding write_frame frame
write_frame-frame body le =
    let fits : length body % 2 ^ 32 ≡ length body = omega arith in
    let small = ltb→false max_frame (length body) le in rw (fits, small) refl

unfoldable pub frames : List Bytes → Bytes
frames [] = []
frames (body ∷ bodies) = frame body ++ frames bodies

-- What `read_payload` takes from the socket.
read_payload-inv :
    (len : ℕ) (socket body rest : Bytes)
    → read_payload len socket ≡ ok (some (body, rest))
    → (length body ≡ len) × (len ≤ max_frame) × (socket ≡ body ++ rest)
unfolding read_payload
read_payload-inv len socket body rest e = elim (Bool-cases (len == 0)) [
  | inl empty ↦
      let r : ◌≡◌ {A = Outcome (Option (Bytes × Bytes))} (ok (some ([], socket)))
          (ok (some (body, rest))) =
        rw empty at e in
      let none_taken : [] ≡ body = cc in
      let all_left : socket ≡ rest = cc in
      let zero_len = (==_iff len 0).0 empty in
      (rw (sym none_taken) (sym zero_len), omega (arith, zero_len), rw (sym none_taken) all_left)
  | inr some_bytes ↦ elim (Bool-cases (ltb max_frame len)) [
    | inl large ↦
        let r : ◌≡◌ {A = Outcome (Option (Bytes × Bytes))} (err (Failure.frame_too_large len))
            (ok (some (body, rest))) =
          rw (some_bytes, large) at e in
        cc
    | inr fits ↦ elim (Bool-cases (ltb (length socket) len)) [
      | inl short ↦
          let r : ◌≡◌ {A = Outcome (Option (Bytes × Bytes))} (err Failure.unexpected_end)
              (ok (some (body, rest))) =
            rw (some_bytes, fits, short) at e in
          cc
      | inr there ↦
          let r : ◌≡◌ {A = Outcome (Option (Bytes × Bytes))}
              (ok (some (take len socket, drop len socket))) (ok (some (body, rest))) =
            rw (some_bytes, fits, there) at e in
          let taken : take len socket ≡ body = cc in
          let left : drop len socket ≡ rest = cc in
          let enough : len ≤ length socket = ground (arith, there) in
          (
            omega (arith, ap length taken, length-take len socket),
            ground (arith, fits),
            rw (sym taken, sym left) (sym (take_append_drop len socket)),
          )
    ]
  ]
]

no_request :
    (x : Bytes × Bytes) → ◌≡◌ {A = Outcome (Option (Bytes × Bytes))} (ok none) (ok (some x)) → ⊥
no_request x e = cc

-- A request that `read_frame` takes from a socket is what stands behind a prefix of four bytes,
-- has the length that the prefix says, and has at most 16 MiB.
pub read_frame-inv :
    (socket request rest : Bytes)
    → read_frame socket ≡ ok (some (request, rest))
    → (a b c d : ℕ) × (socket ≡ a ∷ b ∷ c ∷ d ∷ (request ++ rest))
      × (length request ≡ from_be_bytes a b c d)
      × (length request ≤ max_frame)
unfolding read_frame
read_frame-inv (a ∷ b ∷ c ∷ d ∷ socket) request rest e =
    let (size, bound, parts) = read_payload-inv (from_be_bytes a b c d) socket request rest e in
    (a, b, c, d, rw parts refl, size, omega (arith, size, bound))
read_frame-inv [] request rest e = absurd (no_request (request, rest) e)
read_frame-inv (a ∷ []) request rest e = absurd (no_request (request, rest) e)
read_frame-inv (a ∷ b ∷ []) request rest e = absurd (no_request (request, rest) e)
read_frame-inv (a ∷ b ∷ c ∷ []) request rest e = absurd (no_request (request, rest) e)

module _ {S : Type 0} (answer : Bytes → S → Outcome Bytes × S) where
  -- The responses to requests in order, and the state behind them, where each is answered by a
  -- response that fits a frame.
  pub data Answers : List Bytes → S → List Bytes → S → Type 0 where
    none_left : (s : S) → Answers [] s [] s
    next :
        (request response : Bytes) (requests responses : List Bytes) (s s' s'' : S)
        → length request ≤ max_frame
        → length response ≤ max_frame
        → answer request s ≡ (ok response, s')
        → Answers requests s' responses s''
        → Answers (request ∷ requests) s (response ∷ responses) s''

  -- A connection on which the peer sends requests of at most 16 MiB as frames, and closes, gets
  -- the responses as frames in the same order and ends without an error, where each request is
  -- answered in turn by a response of at most 16 MiB. One round more than there are requests is
  -- enough.
  pub handle_conn-frames :
      (fuel : ℕ) (requests responses : List Bytes) (s s' : S)
      → Answers requests s responses s'
      → length requests < fuel
      → handle_conn answer fuel (frames requests) s ≡ (ok tt, (frames responses, s'))
  unfolding handle_conn frames round respond send
  handle_conn-frames zero requests responses s s' a lt = absurd (omega arith)
  handle_conn-frames (suc fuel) [] [] s s' (Answers.none_left _) lt = unfold read_frame in refl
  handle_conn-frames (suc fuel) [] (response ∷ responses) s s' a lt = elim a [ ]
  handle_conn-frames (suc fuel) (request ∷ requests) [] s s'' a lt = elim a [ ]
  handle_conn-frames (suc fuel) (request ∷ requests) (response ∷ responses) s s''
        (Answers.next _ _ _ _ _ s' _ fits fits' e more) lt =
      let k = handle_conn answer fuel in
      let rest = frames requests in
      let read =
        ap (λ (r : Outcome (Option (Bytes × Bytes))). round answer k r s)
          (read_frame-frame request rest fits) in
      let answered = ap (λ (r : Outcome Bytes × S). respond answer k r rest) e in
      let written =
        ap (λ (r : Outcome Bytes). send answer k r s' rest) (write_frame-frame response fits') in
      let followed =
        ap
          (λ (x : Outcome (Unit {0}) × (Bytes × S)).
            let y : Outcome (Unit {0}) × (Bytes × S) = (x.0, (frame response ++ x.1.0, x.1.1)) in y)
          (handle_conn-frames fuel requests responses s' s'' more (omega arith)) in
      read ∙ answered ∙ written ∙ followed
