-- ===== src/Tests/Codecs.antt =====
-- The codecs of bytes, hashes, checksums, records, index entries, commits and nodes.
use epochs.Common.{
  ◌<◌, ◌≡◌, ◌≢◌, ◌^◌, refl, [], ◌∷◌, ◌++◌, length, bytes_eq, if◌then◌else◌, drop, some, bit_xor,
  arith,
}
use epochs.Codec.{Bytes}
use epochs.Commit.RoundTrip as CommitTrip
use epochs.Commit.{Commit}
use epochs.Commit
use epochs.Crc.Bitwise
use epochs.Crc.{crc32, crc_byte, crc_loop, steps, table_step, table, table_from}
use epochs.Hamt.Node.RoundTrip as NodeTrip
use epochs.Hamt.Node.{HamtNode, encode, decode}
use epochs.Hash.Hex
use epochs.Hash.{Hash, from_hex, to_hex, zero_hash}
use epochs.Index.Reload
use epochs.Index.{IndexEntry, Entries, open_index, get, contains, insert}
use epochs.Outcome.{ok}
use epochs.Record.RoundTrip as RecordTrip
use epochs.Record.{RecordType, encode_record, decode_record}
use epochs.Text.{codes, is_utf8}
use epochs.Assoc.{bytes_lt}
use epochs.Tests.Digest.{digest}

abbrev hello : Bytes
hello = codes "hello"

crc32_known_vector : crc32 (codes "123456789") ≡ 0xcbf4_3926
unfolding crc32 crc_loop crc_byte table table_from steps table_step
crc32_known_vector = refl

-- The theorems at these inputs.

crc32_bitwise_example : crc32 hello ≡ bit_xor (Bitwise.crc_bits 0xffff_ffff hello) 0xffff_ffff
crc32_bitwise_example = Bitwise.crc32_bitwise hello (omega arith)

crc32_detects_byte_example :
    (crc32 (hello ++ 1 ∷ hello) < 2 ^ 32)
    × (crc32 (hello ++ 1 ∷ hello) ≢ crc32 (hello ++ 2 ∷ hello))
crc32_detects_byte_example =
    Bitwise.crc32_detects_byte hello hello 1 2 (omega arith) (omega arith) (omega arith)
      (omega arith) (omega arith)

from_hex-to_hex_example :
    (length (to_hex zero_hash) ≡ 64) × (from_hex (to_hex zero_hash) ≡ ok zero_hash)
from_hex-to_hex_example = Hex.from_hex-to_hex zero_hash (refl, omega arith)

from_hex_sign-to_hex_example :
    (from_hex (b'+' ∷ drop 1 (to_hex zero_hash)) ≡ ok zero_hash)
    × (b'+' ∷ drop 1 (to_hex zero_hash) ≢ to_hex zero_hash)
from_hex_sign-to_hex_example =
    Hex.from_hex_sign-to_hex 0 (drop 1 zero_hash) (refl, omega arith) (omega arith)

decode_record-encode_record_example :
    decode_record digest (encode_record RecordType.hamt_leaf hello (digest.of_bytes hello))
    ≡ ok (record {
      record_type = RecordType.hamt_leaf;
      content_hash = digest.of_bytes hello;
      payload = hello;
    })
decode_record-encode_record_example =
    RecordTrip.decode_record-encode_record digest RecordType.hamt_leaf hello (omega arith)
      (omega arith)

abbrev location : IndexEntry
location = record { segment_id = 3; offset = 16; record_len = 100 }

location-IsStorable : (h : Hash) → length h ≡ 32 → Reload.IsStorable h location
location-IsStorable h e = record {
  hash_len = e;
  segment_fits = omega arith;
  offset_fits = omega arith;
  record_fits = omega arith;
}

abbrev two_entries : Entries
two_entries = (zero_hash, location) ∷ (digest.of_bytes hello, location) ∷ (zero_hash, location) ∷ []

open_index-insert_all_example :
    open_index (Reload.insert_all Reload.empty_index two_entries).file
    ≡ ok (Reload.insert_all Reload.empty_index two_entries)
open_index-insert_all_example = Reload.open_index-insert_all two_entries (
  location-IsStorable zero_hash refl,
  (location-IsStorable (digest.of_bytes hello) refl, (location-IsStorable zero_hash refl, tt)),
)

get-insert_example : get (insert Reload.empty_index zero_hash location) hello ≡ (
    if contains Reload.empty_index zero_hash
    then get Reload.empty_index hello
    else if bytes_eq zero_hash hello
    then some location
    else get Reload.empty_index hello)
get-insert_example = Reload.get-insert Reload.empty_index zero_hash hello location

abbrev sample : Commit
sample = record {
  parents = zero_hash ∷ [];
  root_hamt = zero_hash;
  timestamp = 1700000000000;
  message = hello;
  index_roots = (codes "items.by_id", zero_hash) ∷ (codes "items.by_name", zero_hash) ∷ [];
}

sample-IsStorable : CommitTrip.IsStorable sample
unfolding is_utf8 bytes_lt
sample-IsStorable = record {
  parents_fit = omega arith;
  parents_len = (refl, tt);
  root_len = refl;
  timestamp_fits = omega arith;
  message_fits = omega arith;
  message_text = refl;
  roots_fit = omega arith;
  roots_valid = ((refl, omega arith, refl), ((refl, omega arith, refl), tt));
  roots_ascend = ((refl, tt), (tt, tt));
}

decode_payload-encode_payload_example :
    Commit.decode_payload (Commit.encode_payload sample) ≡ ok sample
decode_payload-encode_payload_example =
    CommitTrip.decode_payload-encode_payload sample sample-IsStorable

decode_payload-v1_example :
    Commit.decode_payload (CommitTrip.v1_payload sample) ≡ ok (record sample { index_roots = [] })
decode_payload-v1_example = CommitTrip.decode_payload-v1 sample sample-IsStorable

decode-encode_example :
    decode (NodeTrip.type_of (HamtNode.leaf hello hello)) (encode (HamtNode.leaf hello hello))
    ≡ ok (HamtNode.leaf hello hello)
decode-encode_example = NodeTrip.decode-encode (HamtNode.leaf hello hello) (omega arith)
