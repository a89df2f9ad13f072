-- ===== src/Hamt/Chunk.antt =====
-- The five bits of a key's hash that choose a branch, from epochs-core/src/hamt/tree.rs.
pub mod Separates
use epochs.Common.{ℕ, ◌+◌, ◌*◌, ◌/◌, ◌%◌, ◌^◌, bit_and, bit_or, leb, if◌then◌else◌, get_or}
use epochs.Hash.{Hash}

-- The index is below 32, the length of a hash, so the default is never read. The cast to u16
-- of the sum of two bytes and the shift to the right by `bit_offset` lose nothing else.
unfoldable pub extract_5bits : Hash → ℕ → ℕ
extract_5bits key_hash depth =
    let bit_idx = depth * 5 in
    let byte_idx = bit_idx / 8 in
    let bit_offset = bit_idx % 8 in
    if leb 31 byte_idx
    then bit_and (get_or key_hash 31 0 / 2 ^ (bit_offset % 8)) 0x1f
    else let b0 = get_or key_hash byte_idx 0 in
      let b1 = get_or key_hash (byte_idx + 1) 0 in
      let combined = bit_or b0 (b1 * 2 ^ 8) / 2 ^ bit_offset in bit_and combined 0x1f
