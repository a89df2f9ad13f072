-- ===== src/Cas/Mem.antt =====
-- epochs-core/src/cas/mem.rs: the store in memory.
pub mod Laws
use epochs.Common.{none, some, List, Bool}
use epochs.Outcome.{ok, err, EpochsError, StorageError}
use epochs.Outcome.Action.{Action}
use epochs.Assoc
use epochs.Cas.{CasBackend}
use epochs.Codec.{Bytes}
use epochs.Hash.{Hash, Blake3}
use epochs.Record.{RecordType}

pub record MemCas : Type 0 where
  pub objects : List (Hash × (RecordType × Bytes))

unfoldable pub contains : MemCas → Hash → Bool
contains cas hash = Assoc.contains_key hash cas.objects

-- `entry(hash).or_insert_with(..)`: an object that is there stays, with the type it was put under.
pub put : Blake3 → RecordType → Bytes → Action MemCas Hash
put blake3 record_type payload cas =
    let hash = blake3.of_bytes payload in
    elim (Assoc.get hash cas.objects) [
      | none ↦ (ok hash, record { objects = Assoc.insert hash (record_type, payload) cas.objects })
      | some o ↦ (ok hash, cas)
    ]

pub get_record : Hash → Action MemCas (RecordType × Bytes)
get_record hash cas = elim (Assoc.get hash cas.objects) [
  | none ↦ (err (EpochsError.storage (StorageError.not_found hash)), cas)
  | some o ↦ (ok o, cas)
]

unfoldable pub mem_backend : Blake3 → CasBackend MemCas
unfolding put get_record
mem_backend blake3 = record { put = put blake3; get_record = get_record }
