-- ===== src/Codec.antt =====
-- epochs-core/src/codec: the byte encoder, the byte decoder and the encoder pool. A reader of the
-- decoder is a `Reader`: it takes the cursor and returns a value with the cursor moved on, so
-- a chain of `dec.read_*()?` is a `do` block.
pub mod RoundTrip
pub mod Pool
use epochs.Common.{
  ℕ, zero, suc, ◌+◌, ◌-◌, ◌*◌, ◌/◌, ◌%◌, List, [], ◌∷◌, ◌++◌, ltb, if◌then◌else◌, length, take,
  drop,
}
use epochs.Outcome.{Result, ok, err, panicked, out_of_fuel, EpochsError, Message}
use epochs.Outcome

abbrev pub Bytes : Type 0
Bytes = List ℕ

pub record ByteEncoder : Type 0 where
  pub buf : Bytes

abbrev pub new_encoder : ByteEncoder
new_encoder = record { buf = [] }

-- The `n` bytes of a word, lowest first: `to_le_bytes`.
unfoldable pub le_bytes : ℕ → ℕ → Bytes
le_bytes zero v = []
le_bytes (suc n) v = v % 256 ∷ le_bytes n (v / 256)

-- `from_le_bytes`.
unfoldable pub of_le_bytes : Bytes → ℕ
of_le_bytes [] = 0
of_le_bytes (b ∷ bs) = b + 256 * of_le_bytes bs

unfoldable pub write_bytes : Bytes → ByteEncoder → ByteEncoder
write_bytes bytes enc = record enc { buf = enc.buf ++ bytes }

unfoldable pub clear : ByteEncoder → ByteEncoder
clear enc = record { buf = [] }

unfoldable pub write_u8 : ℕ → ByteEncoder → ByteEncoder
write_u8 v enc = record enc { buf = enc.buf ++ v ∷ [] }

unfoldable pub write_u16 : ℕ → ByteEncoder → ByteEncoder
write_u16 v enc = record enc { buf = enc.buf ++ le_bytes 2 v }

unfoldable pub write_u32 : ℕ → ByteEncoder → ByteEncoder
write_u32 v enc = record enc { buf = enc.buf ++ le_bytes 4 v }

-- The first six of the eight bytes.
unfoldable pub write_u48 : ℕ → ByteEncoder → ByteEncoder
write_u48 v enc = record enc { buf = enc.buf ++ take 6 (le_bytes 8 v) }

unfoldable pub write_u64 : ℕ → ByteEncoder → ByteEncoder
write_u64 v enc = record enc { buf = enc.buf ++ le_bytes 8 v }

unfoldable pub write_hash : Bytes → ByteEncoder → ByteEncoder
write_hash hash enc = record enc { buf = enc.buf ++ hash }

-- The loop that writes a list of hashes.
unfoldable pub write_hashes : List Bytes → ByteEncoder → ByteEncoder
write_hashes [] enc = enc
write_hashes (h ∷ hs) enc = write_hashes hs (write_hash h enc)

pub record ByteDecoder : Type 0 where
  pub buf : Bytes
  pub pos : ℕ

unfoldable pub new_decoder : Bytes → ByteDecoder
new_decoder buf = record { buf = buf; pos = 0 }

unfoldable pub position : ByteDecoder → ℕ
position d = d.pos

-- `saturating_sub` is the subtraction of ℕ.
unfoldable pub remaining : ByteDecoder → ℕ
remaining d = length d.buf - d.pos

abbrev pub Reader {ℓ} : Type ℓ → Type ℓ
Reader A = ByteDecoder → Result (A × ByteDecoder)

infixl 5 ◌>>=◌
abbrev pub ◌>>=◌ {ℓ κ} : {A : Type ℓ} {B : Type κ} → Reader A → (A → Reader B) → Reader B
◌>>=◌ m f d = Outcome.◌>>=◌ (m d) (λ r. f r.0 r.1)

abbrev pub pure {ℓ} : {A : Type ℓ} → A → Reader A
pure a d = ok (a, d)

abbrev pub fail {ℓ} : {A : Type ℓ} → EpochsError → Reader A
fail e d = err e

abbrev pub lift {ℓ} : {A : Type ℓ} → Result A → Reader A
lift r d = Outcome.◌>>=◌ r (λ a. ok (a, d))

-- `pos + len` is below 2 ^ 64, since a length is read from at most four bytes.
unfoldable pub read_slice : ℕ → Reader Bytes
read_slice len d =
    if ltb (length d.buf) (d.pos + len)
    then err (EpochsError.codec (Message.unexpected_eof len (length d.buf - d.pos)))
    else ok (take len (drop d.pos d.buf), record d { pos = d.pos + len })

-- `slice[0]`.
unfoldable pub first_byte : Bytes → Reader ℕ
first_byte [] d = panicked
first_byte (b ∷ bs) d = ok (b, d)

unfoldable pub read_u8 : Reader ℕ
unfolding first_byte
read_u8 = read_slice 1 >>= first_byte

unfoldable pub read_u16 : Reader ℕ
read_u16 = read_slice 2 >>= λ s. pure (of_le_bytes s)

unfoldable pub read_u32 : Reader ℕ
read_u32 = read_slice 4 >>= λ s. pure (of_le_bytes s)

-- The six bytes are copied over the front of eight zero bytes.
unfoldable pub read_u48 : Reader ℕ
read_u48 = read_slice 6 >>= λ s. pure (of_le_bytes (s ++ 0 ∷ 0 ∷ []))

unfoldable pub read_u64 : Reader ℕ
read_u64 = read_slice 8 >>= λ s. pure (of_le_bytes s)

unfoldable pub read_hash : Reader Bytes
read_hash = read_slice 32

unfoldable pub read_rest : Reader Bytes
read_rest d = ok (drop d.pos d.buf, record d { pos = length d.buf })

-- The loop that pushes `n` hashes.
unfoldable pub read_hashes : ℕ → Reader (List Bytes)
read_hashes zero = pure []
read_hashes (suc n) = do hash ← read_hash; rest ← read_hashes n; pure (hash ∷ rest)
