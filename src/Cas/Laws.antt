-- ===== src/Cas/Laws.antt =====
-- What a client of epochs-core/src/cas relies on: the laws of a store behind `CasBackend`.
use epochs.Common.{◌≡◌, ◌⊎◌}
use epochs.Cas.{CasBackend}
use epochs.Codec.{Bytes}
use epochs.Hash.{Hash, Blake3}
use epochs.Outcome.{ok}
use epochs.Record.{RecordType}

abbrev pub Object : Type 0
Object = RecordType × Bytes

-- `Holds s h o`: the state `s` has the object `o` under the hash `h`. A read of a held object
-- returns it and leaves the objects as they are. A write of a payload whose hash no other object
-- has returns the hash, and adds that object and no other.
pub record CasLaws {S : Type 0} (cas : CasBackend S) (blake3 : Blake3) : Type 1 where
  pub Holds : S → Hash → Object → Type 0
  pub get_held :
      (s : S) (h : Hash) (o : Object)
      → Holds s h o
      → (s' : S) × (cas.get_record h s ≡ (ok o, s'))
        × ((k : Hash) (x : Object) → Holds s k x → Holds s' k x)
        × ((k : Hash) (x : Object) → Holds s' k x → Holds s k x)
  pub put_held :
      (s : S) (t : RecordType) (payload : Bytes)
      → ((x : Object) → Holds s (blake3.of_bytes payload) x → x ≡ (t, payload))
      → (s' : S) × (cas.put t payload s ≡ (ok (blake3.of_bytes payload), s'))
        × Holds s' (blake3.of_bytes payload) (t, payload)
        × ((k : Hash) (x : Object) → Holds s k x → Holds s' k x)
        × ((k : Hash) (x : Object)
            → Holds s' k x
            → Holds s k x ⊎ ((k ≡ blake3.of_bytes payload) × (x ≡ (t, payload))))
