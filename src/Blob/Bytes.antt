-- ===== src/Blob/Bytes.antt =====
-- The bytes that src/native/apxdb_collection.c writes for a scalar value are read back as the value.
use apx_db.Common.{
  ℕ, ◌+◌, ◌^◌, ◌≤◌, ◌<◌, ◌≡◌, ◌≢◌, refl, sym, ap, ◌∙◌, Bool, true, [], ◌++◌, append-nil, Option,
  none, some, Text, length, take, drop, take-append, arith,
}
use mathlib.Core.Option
use apx_db.Common.Int.{ℤ, pos, negsuc, in_range, int64_min, int64_max, int32_min, int32_max}
use apx_db.Common.Outcome.{returned, of_option, ◌>>=◌, ◌>>◌, require}
use apx_db.Libc.{Doubles}
use apx_db.Json.{Value, number}
use apx_db.Schema.{
  FieldType, byte, short, int, float, double, boolean, text, datetime, embedded, enumeration,
  list_of,
}
use apx_db.Blob.Scalars.{parse_integer_value, parse_numeric_value, le_bytes, pattern_of, Stores}
use apx_db.Blob.Write.{fits, write_scalar}
use apx_db.Blob.Read.{Loads, read_le, signed, if_long, payload_text, payload_number}
use apx_db.Blob.Written.{read_le-le_bytes}

read_le-le_bytes_all : (k n : ℕ) → n < 256 ^ k → read_le k (le_bytes k n) ≡ n
read_le-le_bytes_all k n h =
    ap (read_le k) (sym (append-nil (le_bytes k n))) ∙ read_le-le_bytes k n [] h

signed-pattern_of_64 :
    (z : ℤ) → in_range int64_min int64_max z ≡ true → signed 64 (pattern_of 64 z) ≡ z
signed-pattern_of_64 (pos n) h = ground arith
signed-pattern_of_64 (negsuc n) h = ground arith

signed-pattern_of_32 :
    (z : ℤ) → in_range int32_min int32_max z ≡ true → signed 32 (pattern_of 32 z) ≡ z
signed-pattern_of_32 (pos n) h = ground arith
signed-pattern_of_32 (negsuc n) h = ground arith

pattern_of_64-lt : (z : ℤ) → pattern_of 64 z < 2 ^ 64
pattern_of_64-lt (pos n) = ground arith
pattern_of_64-lt (negsuc n) = ground arith

pattern_of_32-lt : (z : ℤ) → pattern_of 32 z < 2 ^ 32
pattern_of_32-lt (pos n) = ground arith
pattern_of_32-lt (negsuc n) = ground arith

pub fits-returned :
    (b k : ℕ) (encoded bytes : Text) → fits b k encoded ≡ returned bytes → bytes ≡ encoded
fits-returned b k encoded bytes h = ground arith

-- A value that was read, tested and stored in a fixed number of bytes.
fixed-returned :
    {A : Type 0} (o : Option A) (test : A → Bool) (k b : ℕ) (encode : A → Text) (bytes : Text)
    → (of_option o >>= λ a. require (test a) >> fits b k (encode a)) ≡ returned bytes
    → (a : A) × (o ≡ some a) × (test a ≡ true) × (bytes ≡ encode a)
fixed-returned none test k b encode bytes h = cc
fixed-returned (some a) test k b encode bytes h = (a, refl, ground arith, ground arith)

payload_text-some :
    (payload s : Text)
    → 4 + read_le 4 payload ≤ length payload
    → take (read_le 4 payload) (drop 4 payload) ≡ s
    → payload_text payload ≡ some s
unfolding payload_text
payload_text-some payload s le e = ground arith

pub payload_text-le_bytes :
    (s : Text) → length s < 2 ^ 32 → payload_text (le_bytes 4 (length s) ++ s) ≡ some s
payload_text-le_bytes s h =
    let size : read_le 4 (le_bytes 4 (length s) ++ s) ≡ length s =
      read_le-le_bytes 4 (length s) s h in
    payload_text-some (le_bytes 4 (length s) ++ s) s (unfold le_bytes in omega arith) (
      ap (λ k. take k (drop 4 (le_bytes 4 (length s) ++ s))) size
      ∙ (unfold le_bytes in ap (take (length s)) (sym (append-nil s)) ∙ take-append s []))

-- What the C library is relied on for: the bits of a number fit, a `double` comes back from its bits as
-- it was, and an integer that a `double` is converted to is an `int64_t`.
pub record Exact (D : Type 0) ⦃st : Stores D⦄ ⦃ld : Loads D⦄ : Type 0 where
  pub double_bits-lt : (d : D) → st.double_bits d < 2 ^ 64
  pub float_bits-lt : (d : D) → st.float_bits d < 2 ^ 32
  pub of_double_bits-double_bits : (d : D) → ld.of_double_bits (st.double_bits d) ≡ d
  pub to_int64-in_range : (d : D) → in_range int64_min int64_max (st.to_int64 d) ≡ true

-- The integers of a JSON value are those of an `int64_t`, as the parser gives them.
abbrev pub IsInt64 : {D : Type 0} → Value D → Type 0
IsInt64 v = (z : ℤ) → parse_integer_value v ≡ some z → in_range int64_min int64_max z ≡ true

-- The number that a value is stored as.
unfoldable pub stored_number :
    {D : Type 0} ⦃fp : Doubles D⦄ ⦃st : Stores D⦄ ⦃ld : Loads D⦄ → FieldType → Value D → Option D
stored_number ⦃ld⦄ byte v = Option.map ld.of_int64 (parse_integer_value v)
stored_number ⦃ld⦄ short v = Option.map ld.of_int64 (parse_integer_value v)
stored_number ⦃ld⦄ int v = Option.map ld.of_int64 (parse_integer_value v)
stored_number ⦃ld⦄ enumeration v = Option.map ld.of_int64 (parse_integer_value v)
stored_number ⦃fp⦄ ⦃st⦄ ⦃ld⦄ datetime v =
    Option.map (λ d. ld.of_int64 (st.to_int64 d)) (parse_numeric_value v)
stored_number ⦃fp⦄ ⦃st⦄ ⦃ld⦄ float (number w z d) = some (ld.of_float_bits (st.float_bits d))
stored_number double (number w z d) = some d
stored_number _ v = none

module _ {D : Type 0} ⦃fp : Doubles D⦄ ⦃st : Stores D⦄ ⦃ld : Loads D⦄ where
  byte_back :
      (z : ℤ)
      → in_range (pos 0) (pos 255) z ≡ true
      → payload_number byte (le_bytes 1 (pattern_of 8 z)) ≡ some (ld.of_int64 z)
  unfolding payload_number le_bytes
  byte_back (pos n) h = ground arith
  byte_back (negsuc n) h = ground arith

  signed_32_back :
      (z : ℤ)
      → in_range int32_min int32_max z ≡ true
      → if_long 4
          (le_bytes 4 (pattern_of 32 z))
          (ld.of_int64 (signed 32 (read_le 4 (le_bytes 4 (pattern_of 32 z)))))
        ≡ some (ld.of_int64 z)
  signed_32_back z h =
      rw (read_le-le_bytes_all 4 (pattern_of 32 z) (pattern_of_32-lt z), signed-pattern_of_32 z h)
        (unfold le_bytes in refl)

  signed_64_back :
      (z : ℤ)
      → in_range int64_min int64_max z ≡ true
      → if_long 8
          (le_bytes 8 (pattern_of 64 z))
          (ld.of_int64 (signed 64 (read_le 8 (le_bytes 8 (pattern_of 64 z)))))
        ≡ some (ld.of_int64 z)
  signed_64_back z h =
      rw (read_le-le_bytes_all 8 (pattern_of 64 z) (pattern_of_64-lt z), signed-pattern_of_64 z h)
        (unfold le_bytes in refl)

  integer_payload :
      {o : Option ℤ} {bytes encoded : Text} {z : ℤ} (read : Text → Option D)
      → o ≡ some z
      → bytes ≡ encoded
      → read encoded ≡ some (ld.of_int64 z)
      → read bytes ≡ Option.map ld.of_int64 o
  integer_payload read e w back = rw (e, w) back

module _ {D : Type 0} ⦃fp : Doubles D⦄ ⦃st : Stores D⦄ ⦃ld : Loads D⦄ ⦃ex : Exact D⦄ where
  -- What `write_scalar` writes of a number is read back as the number that is stored.
  pub payload_number-write_scalar :
      (type : FieldType) (v : Value D) (b : ℕ) (bytes : Text)
      → IsInt64 v
      → type ≢ boolean
      → type ≢ text
      → write_scalar type v b ≡ returned bytes
      → payload_number type bytes ≡ stored_number type v
  unfolding write_scalar payload_number stored_number
  payload_number-write_scalar byte v b bytes i nb nt h =
      let (z, e, t, w) =
        fixed-returned (parse_integer_value v) (λ z. in_range (pos 0) (pos 255) z) 1 b
          (λ z. le_bytes 1 (pattern_of 8 z)) bytes h in
      integer_payload (payload_number byte) e w (byte_back z t)
  payload_number-write_scalar short v b bytes i nb nt h =
      let (z, e, t, w) =
        fixed-returned (parse_integer_value v) (λ z. in_range int32_min int32_max z) 4 b
          (λ z. le_bytes 4 (pattern_of 32 z)) bytes h in
      integer_payload (payload_number short) e w (signed_32_back z t)
  payload_number-write_scalar int v b bytes i nb nt h =
      let (z, e, t, w) =
        fixed-returned (parse_integer_value v) (λ z. true) 8 b (λ z. le_bytes 8 (pattern_of 64 z))
          bytes h in
      integer_payload (payload_number int) e w (signed_64_back z (i z e))
  payload_number-write_scalar float (number w z d) b bytes i nb nt h =
      rw
        (
          fits-returned b 4 (le_bytes 4 (st.float_bits d)) bytes h,
          read_le-le_bytes_all 4 (st.float_bits d) (ex.float_bits-lt d),
        )
        (unfold le_bytes in refl)
  payload_number-write_scalar float _ b bytes i nb nt h = cc
  payload_number-write_scalar double (number w z d) b bytes i nb nt h =
      rw
        (
          fits-returned b 8 (le_bytes 8 (st.double_bits d)) bytes h,
          read_le-le_bytes_all 8 (st.double_bits d) (ex.double_bits-lt d),
          ex.of_double_bits-double_bits d,
        )
        (unfold le_bytes in refl)
  payload_number-write_scalar double _ b bytes i nb nt h = cc
  payload_number-write_scalar datetime v b bytes i nb nt h =
      let (d, e, t, w) =
        fixed-returned (parse_numeric_value v) (λ d. true) 8 b
          (λ d. le_bytes 8 (pattern_of 64 (st.to_int64 d))) bytes h in
      rw (e, w) (signed_64_back (st.to_int64 d) (ex.to_int64-in_range d))
  payload_number-write_scalar enumeration v b bytes i nb nt h =
      let (z, e, t, w) =
        fixed-returned (parse_integer_value v) (λ z. true) 8 b (λ z. le_bytes 8 (pattern_of 64 z))
          bytes h in
      integer_payload (payload_number enumeration) e w (signed_64_back z (i z e))
  payload_number-write_scalar boolean v b bytes i nb nt h = absurd (nb refl)
  payload_number-write_scalar text v b bytes i nb nt h = absurd (nt refl)
  payload_number-write_scalar embedded v b bytes i nb nt h = cc
  payload_number-write_scalar list_of v b bytes i nb nt h = cc
