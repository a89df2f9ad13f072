-- ===== src/Codec/RoundTrip.antt =====
-- What a reader finds ahead of the cursor it returns, and moves past it; readers compose.
use epochs.Common.{
  ℕ, zero, suc, ◌+◌, ◌/◌, ◌^◌, ◌<◌, ◌≡◌, refl, sym, ap, ◌∙◌, subst, List, [], ◌∷◌, ◌++◌,
  append_assoc, append-nil, length, length-append, take, take_append_self, drop_append_self, All,
  ltb, false, arith,
}
use epochs.Codec.{
  Bytes, ByteEncoder, ByteDecoder, new_decoder, write_hash, write_hashes, read_hashes, Reader,
  ◌>>=◌, pure, le_bytes, of_le_bytes, read_slice, read_u8, read_u16, read_u32, read_u48, read_u64,
  read_hash,
}
use epochs.Outcome.{ok}
use native.Mathlib.Nat.{pow-suc}

-- The cursor stands in front of `s`, behind some bytes that were read.
abbrev pub Ahead : ByteDecoder → Bytes → Type 0
Ahead d s = (front : Bytes) × (d.buf ≡ front ++ s) × (d.pos ≡ length front)

abbrev pub advance : ByteDecoder → ℕ → ByteDecoder
advance d n = record d { pos = d.pos + n }

-- With `s` ahead, the reader returns `v` and stands behind `s`, whatever follows.
pub record Reads {ℓ} {A : Type ℓ} (m : Reader A) (s : Bytes) (v : A) : Type ℓ where
  pub run :
      (d : ByteDecoder) (rest : Bytes) → Ahead d (s ++ rest) → m d ≡ ok (v, advance d (length s))

pub Ahead-new : (s : Bytes) → Ahead (new_decoder s) s
unfolding new_decoder
Ahead-new s = ([], refl, refl)

pub Ahead-advance :
    (d : ByteDecoder) (s rest : Bytes) → Ahead d (s ++ rest) → Ahead (advance d (length s)) rest
Ahead-advance d s rest (front, e, p) =
    (front ++ s, e ∙ sym (append_assoc front s rest), omega (arith, length-append front s))

pub read_slice-Reads : (s : Bytes) → Reads (read_slice (length s)) s s
unfolding read_slice
read_slice-Reads s = record {
  run = λ d rest a.
      let (front, e, p) = a in
      let fits : ltb (length d.buf) (d.pos + length s) ≡ false =
        rw e (ground (arith, length-append front (s ++ rest), length-append s rest)) in
      rw (fits, p, e, drop_append_self, take_append_self);
}

pub Reads-bind {ℓ κ} :
    {A : Type ℓ} {B : Type κ} {m : Reader A} (f : A → Reader B) {s t : Bytes} {v : A} {w : B}
    → Reads m s v
    → Reads (f v) t w
    → Reads (m >>= f) (s ++ t) w
Reads-bind f {s} {t} {w} hm hf = record {
  run = λ d rest a.
      let a' : Ahead d (s ++ (t ++ rest)) = rw (append_assoc s t rest) at a in
      rw
        (
          hm.run d (t ++ rest) a',
          hf.run (advance d (length s)) rest (Ahead-advance d s (t ++ rest) a'),
        )
        (rw (length-append s t) (ap (λ (n : ℕ). ok (w, record d { pos = n })) (omega arith)));
}

pub pure-Reads {ℓ} : {A : Type ℓ} (v : A) → Reads (pure v) [] v
pure-Reads v = record {
  run = λ d rest a. ap (λ (n : ℕ). ok (v, record d { pos = n })) (omega arith);
}

-- A check that passes reads nothing.
pub passes-Reads {ℓ} :
    {A : Type ℓ} {m : Reader A} {v : A} → ((d : ByteDecoder) → m d ≡ ok (v, d)) → Reads m [] v
passes-Reads {v} e = record { run = λ d rest a. e d ∙ (pure-Reads v).run d rest a }

-- The last of a chain of readers.
pub Reads-map {ℓ κ} :
    {A : Type ℓ} {B : Type κ} {m : Reader A} (f : A → B) {s : Bytes} {v : A}
    → Reads m s v
    → Reads (m >>= λ a. pure (f a)) s (f v)
Reads-map f h = record { run = λ d rest a. rw (h.run d rest a) }

pub read_u8-Reads : (v : ℕ) → Reads read_u8 (v ∷ []) v
unfolding read_u8
read_u8-Reads v = record { run = λ d rest a. rw ((read_slice-Reads (v ∷ [])).run d rest a) }

-- A slice whose length was read before it.
pub read_len-Reads : (n : ℕ) (s : Bytes) → length s ≡ n → Reads (read_slice n) s s
read_len-Reads n s e = rw (← e) (read_slice-Reads s)

pub length-le_bytes : (n v : ℕ) → length (le_bytes n v) ≡ n
unfolding le_bytes
length-le_bytes zero v = refl
length-le_bytes (suc n) v = ap suc (length-le_bytes n (v / 256))

pub le_bytes-IsByte : (n v : ℕ) → All (λ b. b < 256) (le_bytes n v)
unfolding le_bytes
le_bytes-IsByte zero v = tt
le_bytes-IsByte (suc n) v = (omega arith, le_bytes-IsByte n (v / 256))

pub of_le_bytes-le_bytes : (n v : ℕ) → v < 256 ^ n → of_le_bytes (le_bytes n v) ≡ v
unfolding le_bytes of_le_bytes
of_le_bytes-le_bytes zero v h = omega arith
of_le_bytes-le_bytes (suc n) v h =
    omega (arith, of_le_bytes-le_bytes n (v / 256) (omega (arith, pow-suc 256 n)), pow-suc 256 n)

word-Reads :
    (n v : ℕ) → v < 256 ^ n → Reads (read_slice n >>= λ s. pure (of_le_bytes s)) (le_bytes n v) v
word-Reads n v h =
    subst (Reads _ (le_bytes n v)) (of_le_bytes-le_bytes n v h)
      (Reads-map of_le_bytes (read_len-Reads n (le_bytes n v) (length-le_bytes n v)))

pub read_u16-Reads : (v : ℕ) → v < 2 ^ 16 → Reads read_u16 (le_bytes 2 v) v
unfolding read_u16
read_u16-Reads v h = word-Reads 2 v (omega arith)

pub read_u32-Reads : (v : ℕ) → v < 2 ^ 32 → Reads read_u32 (le_bytes 4 v) v
unfolding read_u32
read_u32-Reads v h = word-Reads 4 v (omega arith)

pub read_u64-Reads : (v : ℕ) → v < 2 ^ 64 → Reads read_u64 (le_bytes 8 v) v
unfolding read_u64
read_u64-Reads v h = word-Reads 8 v (omega arith)

pub read_hash-Reads : (h : Bytes) → length h ≡ 32 → Reads read_hash h h
unfolding read_hash
read_hash-Reads h e = read_len-Reads 32 h e

u48_zeros : (v : ℕ) → v < 2 ^ 48 → take 6 (le_bytes 8 v) ++ 0 ∷ 0 ∷ [] ≡ le_bytes 8 v
unfolding le_bytes
u48_zeros v h = ground arith

pub read_u48-Reads : (v : ℕ) → v < 2 ^ 48 → Reads read_u48 (take 6 (le_bytes 8 v)) v
unfolding read_u48
read_u48-Reads v h =
    let value : of_le_bytes (take 6 (le_bytes 8 v) ++ 0 ∷ 0 ∷ []) ≡ v =
      rw (u48_zeros v h) (of_le_bytes-le_bytes 8 v (omega arith)) in
    subst (Reads _ (take 6 (le_bytes 8 v))) value (
      Reads-map (λ s. of_le_bytes (s ++ 0 ∷ 0 ∷ []))
        (read_len-Reads 6 (take 6 (le_bytes 8 v)) (unfold le_bytes in refl)))

-- The whole of a buffer.
pub run_whole {ℓ} :
    {A : Type ℓ} {m : Reader A} {s : Bytes} {v : A}
    → Reads m s v
    → m (new_decoder s) ≡ ok (v, advance (new_decoder s) (length s))
run_whole {s} h = h.run (new_decoder s) [] (rw (append-nil s) (Ahead-new s))

abbrev pub concat : List Bytes → Bytes
concat [] = []
concat (h ∷ hs) = h ++ concat hs

pub write_hashes-concat :
    (hs : List Bytes) (enc : ByteEncoder) → (write_hashes hs enc).buf ≡ enc.buf ++ concat hs
unfolding write_hashes write_hash
write_hashes-concat [] enc = sym (append-nil enc.buf)
write_hashes-concat (h ∷ hs) enc =
    write_hashes-concat hs (write_hash h enc) ∙ append_assoc enc.buf h (concat hs)

pub read_hashes-Reads :
    (hs : List Bytes) → All (λ h. length h ≡ 32) hs → Reads (read_hashes (length hs)) (concat hs) hs
unfolding read_hashes
read_hashes-Reads [] a = pure-Reads []
read_hashes-Reads (h ∷ hs) a = rw (← append-nil (concat hs)) (
    Reads-bind _ (read_hash-Reads h a.0)
      (Reads-bind _ (read_hashes-Reads hs a.1) (pure-Reads (h ∷ hs))))
