-- ===== src/Tests/Digest.antt =====
-- A digest of 32 bytes to run the model with: the first bytes of the input.
use epochs.Common.{ℕ, zero, suc, ◌%◌, ◌≡◌, refl, ap, [], ◌∷◌, length, All, arith}
use epochs.Codec.{Bytes}
use epochs.Hash.{IsByte, IsHash, Blake3}

abbrev pub pad : ℕ → Bytes → Bytes
pad zero bytes = []
pad (suc n) [] = 0 ∷ pad n []
pad (suc n) (b ∷ bytes) = b % 256 ∷ pad n bytes

length-pad : (n : ℕ) (bytes : Bytes) → length (pad n bytes) ≡ n
length-pad zero bytes = refl
length-pad (suc n) [] = ap suc (length-pad n [])
length-pad (suc n) (b ∷ bytes) = ap suc (length-pad n bytes)

pad-IsByte : (n : ℕ) (bytes : Bytes) → All IsByte (pad n bytes)
pad-IsByte zero bytes = tt
pad-IsByte (suc n) [] = (omega arith, pad-IsByte n [])
pad-IsByte (suc n) (b ∷ bytes) = (omega arith, pad-IsByte n bytes)

pub pad-IsHash : (bytes : Bytes) → IsHash (pad 32 bytes)
pad-IsHash bytes = (length-pad 32 bytes, pad-IsByte 32 bytes)

abbrev pub digest : Blake3
digest = record { of_bytes = pad 32; of_bytes-IsHash = pad-IsHash }
