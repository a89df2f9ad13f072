-- ===== src/Codec/Pool.antt =====
-- epochs-core/src/codec/pool.rs: the pool of encoders that a thread keeps. The pool is a list with
-- the encoder that was put back last in front, where `Vec::pop` takes it.
use epochs.Common.{ℕ, ◌≤◌, ◌≡◌, refl, List, [], ◌∷◌, ltb, if◌then◌else◌, length, arith}
use epochs.Codec.{Bytes, ByteEncoder, new_encoder, clear}

abbrev pub EncoderPool : Type 0
EncoderPool = List ByteEncoder

abbrev pub pool_cap : ℕ
pool_cap = 32

unfoldable pub take_encoder : EncoderPool → ByteEncoder × EncoderPool
unfolding clear
take_encoder [] = (clear new_encoder, [])
take_encoder (enc ∷ pool) = (clear enc, pool)

unfoldable pub put_encoder : ByteEncoder → EncoderPool → EncoderPool
unfolding clear
put_encoder enc pool = if ltb (length pool) pool_cap then clear enc ∷ pool else pool

-- `mem::take` leaves an empty buffer in the encoder that goes back.
unfoldable pub encode_with : (ByteEncoder → ByteEncoder) → EncoderPool → Bytes × EncoderPool
unfolding take_encoder put_encoder
encode_with f pool =
    let (enc, pool') = take_encoder pool in
    let enc' = f enc in (enc'.buf, put_encoder (record enc' { buf = [] }) pool')

-- A run on a fresh pool.
unfoldable pub encoded : (ByteEncoder → ByteEncoder) → Bytes
unfolding encode_with
encoded f = (encode_with f []).0

-- Whatever the pool holds, `encode_with` returns the bytes that `f` writes to an empty encoder,
-- and a pool of at most 32 encoders stays one.
pub encode_with_lem :
    (f : ByteEncoder → ByteEncoder) (pool : EncoderPool)
    → length pool ≤ pool_cap
    → ((encode_with f pool).0 ≡ (f new_encoder).buf) × (length (encode_with f pool).1 ≤ pool_cap)
unfolding encode_with
encode_with_lem f [] h = (refl, ground arith)
encode_with_lem f (enc ∷ pool) h = (refl, ground arith)
