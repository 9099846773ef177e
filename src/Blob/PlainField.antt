-- ===== src/Blob/PlainField.antt =====
-- src/native/apxdb_collection.c: a field whose type is neither embedded nor a list is written, measured and
-- tested by its type alone.
use apx_db.Common.{
  ℕ, suc, ◌^◌, ◌<◌, ◌≡◌, refl, sym, ap, ◌∙◌, Bool, true, false, Option, none, some, Text, length,
  arith,
}
use apx_db.Common.Outcome.{Outcome, returned, of_option, ◌>>=◌, ◌>>◌, require}
use apx_db.Common.Int.{pos, in_range, int32_min, int32_max}
use apx_db.Libc.{Doubles}
use apx_db.Json.{Value, bool, number}
use apx_db.Schema.{
  Field, type_of, is_sized, FieldType, byte, short, int, float, double, boolean, text, datetime,
  embedded, enumeration, list_of,
}
use apx_db.Blob.Scalars.{parse_integer_value, parse_numeric_value, scalar_type_size, Stores}
use apx_db.Blob.Size.{is_null, scalar_size, size_by_type, compute_field_payload_size}
use apx_db.Blob.Write.{write_scalar, write_by_type, serialize_field_payload}
use apx_db.Blob.Read.{Loads}
use apx_db.Blob.Match.{matches_by_type, scalar_matches, blob_field_matches_value}
use apx_db.Blob.Agree.{returned-injective}
use apx_db.Blob.Bytes.{Exact, IsInt64}
use apx_db.Blob.Meets.{IsPlain, scalar_meets, scalar_matches-write_scalar}

tested_size :
    {A : Type 0} (o : Option A) (test : A → Bool) (k size : ℕ)
    → (of_option o >>= λ a. require (test a) >> returned k) ≡ returned size
    → k ≡ size
tested_size none test k size h = cc
tested_size (some a) test k size h = ground arith

module _ {D : Type 0} ⦃fp : Doubles D⦄ where
  pub scalar_size-scalar_type_size :
      (type : FieldType) (v : Value D) (size : ℕ)
      → is_sized type ≡ false
      → scalar_size type v ≡ returned size
      → scalar_type_size type ≡ size
  unfolding scalar_size scalar_type_size
  scalar_size-scalar_type_size byte v size flat h =
      tested_size (parse_integer_value v) (λ z. in_range (pos 0) (pos 255) z) 1 size h
  scalar_size-scalar_type_size short v size flat h =
      tested_size (parse_integer_value v) (λ z. in_range int32_min int32_max z) 4 size h
  scalar_size-scalar_type_size int v size flat h =
      tested_size (parse_integer_value v) (λ z. true) 8 size h
  scalar_size-scalar_type_size float (number w z d) size flat h = returned-injective 4 size h
  scalar_size-scalar_type_size float _ size flat h = cc
  scalar_size-scalar_type_size double (number w z d) size flat h = returned-injective 8 size h
  scalar_size-scalar_type_size double _ size flat h = cc
  scalar_size-scalar_type_size boolean (bool b) size flat h = returned-injective 1 size h
  scalar_size-scalar_type_size boolean _ size flat h = cc
  scalar_size-scalar_type_size text v size flat h = cc
  scalar_size-scalar_type_size datetime v size flat h =
      tested_size (parse_numeric_value v) (λ d. true) 8 size h
  scalar_size-scalar_type_size embedded v size flat h = cc
  scalar_size-scalar_type_size enumeration v size flat h =
      tested_size (parse_integer_value v) (λ z. true) 8 size h
  scalar_size-scalar_type_size list_of v size flat h = cc

module _ {D : Type 0} ⦃fp : Doubles D⦄ (size_of : Field → Value D → Outcome ℕ) (f : Field)
    (v : Value D) where
  pub size_by_type_plain :
      (type : FieldType) → IsPlain type → size_by_type size_of type f v ≡ scalar_size type v
  unfolding size_by_type
  size_by_type_plain byte plain = refl
  size_by_type_plain short plain = refl
  size_by_type_plain int plain = refl
  size_by_type_plain float plain = refl
  size_by_type_plain double plain = refl
  size_by_type_plain boolean plain = refl
  size_by_type_plain text plain = refl
  size_by_type_plain datetime plain = refl
  size_by_type_plain embedded plain = absurd (plain.0 refl)
  size_by_type_plain enumeration plain = refl
  size_by_type_plain list_of plain = absurd (plain.1 refl)

module _ {D : Type 0} ⦃fp : Doubles D⦄ ⦃st : Stores D⦄ (fresh : ℕ → ℕ)
    (size_of : Field → Value D → Outcome ℕ) (write : Field → Value D → ℕ → Outcome Text) (f : Field)
    (v : Value D) (b : ℕ) where
  write_by_type_plain :
      (type : FieldType)
      → IsPlain type
      → write_by_type fresh size_of write type f v b ≡ write_scalar type v b
  unfolding write_by_type
  write_by_type_plain byte plain = refl
  write_by_type_plain short plain = refl
  write_by_type_plain int plain = refl
  write_by_type_plain float plain = refl
  write_by_type_plain double plain = refl
  write_by_type_plain boolean plain = refl
  write_by_type_plain text plain = refl
  write_by_type_plain datetime plain = refl
  write_by_type_plain embedded plain = absurd (plain.0 refl)
  write_by_type_plain enumeration plain = refl
  write_by_type_plain list_of plain = absurd (plain.1 refl)

module _ {D : Type 0} ⦃fp : Doubles D⦄ ⦃ld : Loads D⦄
    (field_matches : Field → Text → Value D → Outcome Bool) (f : Field) (bytes : Text)
    (query : Value D) where
  matches_by_type_plain :
      (type : FieldType)
      → IsPlain type
      → matches_by_type field_matches type f bytes query
        ≡ returned (scalar_matches type bytes query)
  unfolding matches_by_type
  matches_by_type_plain byte plain = refl
  matches_by_type_plain short plain = refl
  matches_by_type_plain int plain = refl
  matches_by_type_plain float plain = refl
  matches_by_type_plain double plain = refl
  matches_by_type_plain boolean plain = refl
  matches_by_type_plain text plain = refl
  matches_by_type_plain datetime plain = refl
  matches_by_type_plain embedded plain = absurd (plain.0 refl)
  matches_by_type_plain enumeration plain = refl
  matches_by_type_plain list_of plain = absurd (plain.1 refl)

module _ {D : Type 0} ⦃fp : Doubles D⦄ ⦃st : Stores D⦄ ⦃ld : Loads D⦄ ⦃ex : Exact D⦄
    (fresh : ℕ → ℕ) where
  -- A plain field's bytes.
  pub plain_write :
      (n : ℕ) (f : Field) (v : Value D) (b : ℕ) (bytes : Text)
      → IsPlain (type_of f)
      → is_null v ≡ false
      → serialize_field_payload fresh (suc n) f v b ≡ returned bytes
      → write_scalar (type_of f) v b ≡ returned bytes
  unfolding serialize_field_payload
  plain_write n f v b bytes plain nn h =
      sym (
        write_by_type_plain fresh (compute_field_payload_size {D = D} n)
          (serialize_field_payload {D = D} fresh n) f v b (type_of f) plain)
      ∙ (rw nn at h)

  pub plain_matches :
      (m : ℕ) (f : Field) (query : Value D) (bytes : Text)
      → IsPlain (type_of f)
      → blob_field_matches_value (suc m) f bytes query
        ≡ returned (scalar_matches (type_of f) bytes query)
  unfolding blob_field_matches_value
  plain_matches m f query bytes plain =
      matches_by_type_plain (blob_field_matches_value m) f bytes query (type_of f) plain

  pub plain_field :
      (n m : ℕ) (f : Field) (v query : Value D) (b : ℕ) (bytes : Text)
      → IsPlain (type_of f)
      → is_null v ≡ false
      → IsInt64 v
      → length bytes < 2 ^ 32
      → serialize_field_payload fresh (suc n) f v b ≡ returned bytes
      → blob_field_matches_value (suc m) f bytes query ≡ returned (scalar_meets (type_of f) v query)
  plain_field n m f v query b bytes plain nn i le h =
      plain_matches m f query bytes plain
      ∙ ap returned (
          scalar_matches-write_scalar (type_of f) v query b bytes i le
            (plain_write n f v b bytes plain nn h))
