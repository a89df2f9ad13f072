-- ===== src/Outcome.antt =====
-- The error values of epochs-core/src/error.rs, and what a call of the library comes to.
pub mod Action
use epochs.Common.{ℕ, ◌≡◌, refl, List}

-- The texts that the crate formats into an error, one constructor for a format string.
pub data Message : Type 0 where
  unexpected_eof : (need have : ℕ) → Message
  hash_length : (got : ℕ) → Message
  invalid_hex_encoding : Message
  invalid_hex_digit : Message
  unknown_record_type : (v : ℕ) → Message
  record_too_short : Message
  invalid_record_magic : Message
  segment_too_short : Message
  invalid_segment_magic : Message
  segment_id_overflow : Message
  not_a_hamt_node : Message
  not_a_commit : Message
  unsupported_commit_version : (v : ℕ) → Message
  message_not_utf8 : Message
  index_name_not_utf8 : Message
  parent_not_found : (parent : List ℕ) → Message
  head_not_set : Message
  cannot_delete_head : (name : List ℕ) → Message
  no_object_matches : (prefix : List ℕ) → Message
  ambiguous_prefix : (prefix : List ℕ) (matches : ℕ) → Message
  not_a_repository : Message
  os_error : Message

pub data StorageError : Type 0 where
  hash_mismatch : (expected computed : List ℕ) → StorageError
  not_found : (hash : List ℕ) → StorageError
  crc_mismatch : StorageError
  corrupt : Message → StorageError

pub data EpochsError : Type 0 where
  commit_not_found : (hash : List ℕ) → EpochsError
  branch_not_found : (name : List ℕ) → EpochsError
  branch_exists : (name : List ℕ) → EpochsError
  invalid_target : Message → EpochsError
  storage : StorageError → EpochsError
  codec : Message → EpochsError
  invalid_commit : Message → EpochsError
  io : Message → EpochsError

-- `ok` and `err` are Rust's `Result`. `panicked` is an index out of bounds, and `out_of_fuel`
-- marks a recursion of the model that was given too few rounds.
pub data Result {ℓ} (A : Type ℓ) : Type ℓ where
  ok : A → Result A
  err : EpochsError → Result A
  panicked : Result A
  out_of_fuel : Result A

infixl 5 ◌>>=◌
abbrev pub ◌>>=◌ {ℓ κ} : {A : Type ℓ} {B : Type κ} → Result A → (A → Result B) → Result B
out_of_fuel >>= next = out_of_fuel
panicked >>= next = panicked
err failure >>= next = err failure
ok value >>= next = next value

-- What a bind that succeeds went through.
pub >>=-eq-ok {ℓ κ} :
    {A : Type ℓ} {B : Type κ} (first : Result A) (next : A → Result B) {result : B}
    → (first >>= next) ≡ ok result
    → (value : A) × (first ≡ ok value) × (next value ≡ ok result)
>>=-eq-ok out_of_fuel next e = cc
>>=-eq-ok panicked next e = cc
>>=-eq-ok (err failure) next e = cc
>>=-eq-ok (ok value) next e = (value, refl, e)
