-- ===== src/Cas.antt =====
-- epochs-core/src/cas: content-addressable storage. This file has the interface that the trie and
-- the commits use, `CasBackend`; its children have the two stores that implement it.
pub mod Laws
pub mod Mem
pub mod Segment
pub mod Store
use epochs.Common.{ℕ}
use epochs.Codec.{Bytes}
use epochs.Hash.{Hash}
use epochs.Outcome.Action.{Action}
use epochs.Record.{RecordType}

-- The trait `CasBackend`, over the state `S` of the store.
pub record CasBackend (S : Type 0) : Type 0 where
  pub put : RecordType → Bytes → Action S Hash
  pub get_record : Hash → Action S (RecordType × Bytes)
