-- ===== src/Epx/Frame.antt =====
-- The frames of epochs-server/src/epx.rs and the loop of a connection. What is left to read on the
-- socket is a list of bytes, which ends where the peer closes. Writing to the socket succeeds.
pub mod Streams
use epochs.Common.{
  ℕ, zero, suc, ◌+◌, ◌*◌, ◌/◌, ◌%◌, ◌^◌, List, [], ◌∷◌, ◌++◌, Option, none, some, ltb, ◌==◌,
  if◌then◌else◌, length, take, drop,
}
use epochs.Codec.{Bytes}

-- The texts of the errors of a connection. A request that is no JSON has the text of the parser.
pub data Failure : Type 0 where
  unexpected_end : Failure
  frame_too_large : (len : ℕ) → Failure
  response_too_large : Failure
  not_a_request : Bytes → Failure

pub data Outcome (A : Type 0) : Type 0 where
  ok : A → Outcome A
  err : Failure → Outcome A
  out_of_fuel : Outcome A

abbrev pub max_frame : ℕ
max_frame = 16 * 1024 * 1024

-- `u32::to_be_bytes` and `u32::from_be_bytes`.
unfoldable pub to_be_bytes : ℕ → Bytes
to_be_bytes v = v / 2 ^ 24 % 256 ∷ v / 2 ^ 16 % 256 ∷ v / 2 ^ 8 % 256 ∷ v % 256 ∷ []

unfoldable pub from_be_bytes : ℕ → ℕ → ℕ → ℕ → ℕ
from_be_bytes a b c d = a * 2 ^ 24 + b * 2 ^ 16 + c * 2 ^ 8 + d

-- The payload of `len` bytes, where the prefix is read.
unfoldable pub read_payload : ℕ → Bytes → Outcome (Option (Bytes × Bytes))
read_payload len socket =
    if len == 0
    then ok (some ([], socket))
    else if ltb max_frame len
    then err (frame_too_large len)
    else if ltb (length socket) len
    then err unexpected_end
    else ok (some (take len socket, drop len socket))

-- The end of the input within the prefix counts as the end of the connection.
unfoldable pub read_frame : Bytes → Outcome (Option (Bytes × Bytes))
read_frame (a ∷ b ∷ c ∷ d ∷ socket) = read_payload (from_be_bytes a b c d) socket
read_frame socket = ok none

-- `write_frame` behind the serialization of the response: the bytes that are sent.
unfoldable pub write_frame : Bytes → Outcome Bytes
write_frame body =
    let len = length body % 2 ^ 32 in
    if ltb max_frame len then err response_too_large else ok (to_be_bytes len ++ body)

-- `from_slice` and `dispatch` are arguments: what they make of a request, and of the store. The
-- result of a connection has the bytes it sent and the store.
module _ {S : Type 0} (answer : Bytes → S → Outcome Bytes × S) where
  -- The last part of a round, and the rounds that follow it.
  unfoldable pub send :
      (Bytes → S → Outcome (Unit {0}) × (Bytes × S))
      → Outcome Bytes
      → S
      → Bytes
      → Outcome (Unit {0}) × (Bytes × S)
  send next (ok sent) state socket =
      let (r, (out, state')) = next socket state in (r, (sent ++ out, state'))
  send next (err e) state socket = (err e, ([], state))
  send next out_of_fuel state socket = (out_of_fuel, ([], state))

  unfoldable pub respond :
      (Bytes → S → Outcome (Unit {0}) × (Bytes × S))
      → Outcome Bytes × S
      → Bytes
      → Outcome (Unit {0}) × (Bytes × S)
  respond next (ok body, state) socket = send next (write_frame body) state socket
  respond next (err e, state) socket = (err e, ([], state))
  respond next (out_of_fuel, state) socket = (out_of_fuel, ([], state))

  -- A round, behind the frame that was read.
  unfoldable pub round :
      (Bytes → S → Outcome (Unit {0}) × (Bytes × S))
      → Outcome (Option (Bytes × Bytes))
      → S
      → Outcome (Unit {0}) × (Bytes × S)
  round next (ok none) state = (ok tt, ([], state))
  round next (ok (some (request, socket))) state = respond next (answer request state) socket
  round next (err e) state = (err e, ([], state))
  round next out_of_fuel state = (out_of_fuel, ([], state))

  -- The loop of `handle_conn`.
  unfoldable pub handle_conn : ℕ → Bytes → S → Outcome (Unit {0}) × (Bytes × S)
  handle_conn zero socket state = (out_of_fuel, ([], state))
  handle_conn (suc fuel) socket state = round (handle_conn fuel) (read_frame socket) state
