-- ===== src/Crc.antt =====
-- epochs-core/src/crc32.rs: CRC-32 by a table of 256 words.
pub mod Bitwise
use epochs.Common.{
  ℕ, zero, suc, ◌-◌, ◌/◌, bit_and, bit_xor, List, [], ◌∷◌, ◌++◌, not, ◌==◌, if◌then◌else◌, get_or,
}
use epochs.Codec.{Bytes}

abbrev pub polynomial : ℕ
polynomial = 0xedb8_8320

-- One round of the inner loop of `TABLE`.
unfoldable pub table_step : ℕ → ℕ
table_step c = if not (bit_and c 1 == 0) then bit_xor polynomial (c / 2) else c / 2

unfoldable pub steps : ℕ → ℕ → ℕ
steps zero c = c
steps (suc j) c = steps j (table_step c)

-- Entries `i` up to `i + n`.
unfoldable pub table_from : ℕ → ℕ → List ℕ
table_from zero i = []
table_from (suc n) i = steps 8 i ∷ table_from n (suc i)

unfoldable pub table : List ℕ
table = table_from 256 0

-- `idx` is below 256, so the default of the lookup is never read.
unfoldable pub crc_byte : ℕ → ℕ → ℕ
crc_byte crc byte =
    let idx = bit_and (bit_xor crc byte) 0xff in bit_xor (get_or table idx 0) (crc / 256)

unfoldable pub crc_loop : ℕ → Bytes → ℕ
crc_loop crc [] = crc
crc_loop crc (byte ∷ bytes) = crc_loop (crc_byte crc byte) bytes

-- `!crc` on 32 bits.
unfoldable pub crc32 : Bytes → ℕ
crc32 bytes = bit_xor (crc_loop 0xffff_ffff bytes) 0xffff_ffff
