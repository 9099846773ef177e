-- ===== src/Collection/Storable.antt =====
-- A document that conforms to its schema has a size, where no field is a date or an enum by name.
use apx_db.Common.{ℕ, zero, suc, ◌≤◌, ◌<◌, ◌≡◌, refl, Bool, true, false, arith, if◌then◌else◌}
use apx_db.Common.Outcome.{returned, failed, require}
use apx_db.Libc.{Doubles}
use apx_db.Json.{Value, null, object}
use apx_db.Json.Depth.{depth}
use apx_db.Schema.{
  Schema, schema, Field, type_of, is_nullable, embedded_schema, FieldType, byte, short, int, float,
  double, boolean, text, datetime, embedded, enumeration, list_of, enum_strategy,
}
use apx_db.Blob.Size.{
  is_null, size_fields, document_size, size_by_type, compute_field_payload_size,
  compute_document_blob_size,
}
use apx_db.Collection.Validate.{validate_json_object, validate_by_type, validate_json_value}
use apx_db.Collection.CanStore.{
  not_less, is_storable, can_store, can_store_all, Returns, Returns->>=, scalar_size-Returns,
}
use apx_db.Collection.SizeLoops.{
  require-returned, IsSized, embedded_schema-can_store, type_of-is_storable, size_fields-Returns,
  size_embedded-Returns, size_list-Returns,
}

sized_null :
    (D : Type 0) ⦃fp : Doubles D⦄ (n : ℕ) (f : Field)
    → 0 < n
    → is_nullable f ≡ true
    → Returns (compute_field_payload_size {D = D} n f null)
unfolding compute_field_payload_size
sized_null D zero f h c = elim (not_less 0 h) [ ]
sized_null D (suc n) f h c = (0, rw c refl)

module _ {D : Type 0} ⦃fp : Doubles D⦄ where
  size_by_type-Returns :
      (k m : ℕ)
      → IsSized {D = D} k (validate_json_value m) (compute_field_payload_size k)
      → ((f : Field)
          → 0 < k
          → is_nullable f ≡ true
          → Returns (compute_field_payload_size {D = D} k f null))
      → (type : FieldType) (f : Field) (v : Value D) → depth v < suc k
      → is_null v ≡ false
      → can_store f ≡ true
      → is_storable type (enum_strategy f) ≡ true
      → validate_by_type (validate_json_value m) type f v ≡ returned tt
      → Returns (size_by_type (compute_field_payload_size k) type f v)
  unfolding size_by_type validate_by_type
  size_by_type-Returns k m sized nothing embedded f v h n c s e =
      size_embedded-Returns k (validate_json_value m) (compute_field_payload_size k) sized nothing
        (embedded_schema f) v h (embedded_schema-can_store f c) e
  size_by_type-Returns k m sized nothing list_of f v h n c s e =
      size_list-Returns k (validate_json_value m) (compute_field_payload_size k) sized nothing f v h
        n c e
  size_by_type-Returns k m sized nothing byte f v h n c s e =
      scalar_size-Returns byte f v s n (require-returned _ e)
  size_by_type-Returns k m sized nothing short f v h n c s e =
      scalar_size-Returns short f v s n (require-returned _ e)
  size_by_type-Returns k m sized nothing int f v h n c s e =
      scalar_size-Returns int f v s n (require-returned _ e)
  size_by_type-Returns k m sized nothing float f v h n c s e =
      scalar_size-Returns float f v s n (require-returned _ e)
  size_by_type-Returns k m sized nothing double f v h n c s e =
      scalar_size-Returns double f v s n (require-returned _ e)
  size_by_type-Returns k m sized nothing boolean f v h n c s e =
      scalar_size-Returns boolean f v s n (require-returned _ e)
  size_by_type-Returns k m sized nothing text f v h n c s e =
      scalar_size-Returns text f v s n (require-returned _ e)
  size_by_type-Returns k m sized nothing datetime f v h n c s e = cc
  size_by_type-Returns k m sized nothing enumeration f v h n c s e =
      scalar_size-Returns enumeration f v s n (require-returned _ e)

  -- A value that conforms to a field that is not made of dates or of enums by name has a size, with
  -- fuel for one level more than its nesting.
  compute_field_payload_size-validate_json_value :
      (n m : ℕ) (f : Field) (v : Value D)
      → depth v < n
      → can_store f ≡ true
      → validate_json_value m f v ≡ returned tt
      → Returns (compute_field_payload_size n f v)
  unfolding compute_field_payload_size validate_json_value
  compute_field_payload_size-validate_json_value zero m f v h c e = elim (not_less (depth v) h) [ ]
  compute_field_payload_size-validate_json_value (suc n) zero f v h c e = cc
  compute_field_payload_size-validate_json_value (suc n) (suc m) f v h c e =
      let sized : IsSized {D = D} n (validate_json_value m) (compute_field_payload_size n) =
        compute_field_payload_size-validate_json_value n m in
      let typed = size_by_type-Returns n m sized (sized_null D n) (type_of f) f v h in
      by_null (is_null v) (λ b e'. typed b c (type_of-is_storable f c) e') e
    where
      by_null :
          (b : Bool)
          → (b ≡ false
              → validate_by_type (validate_json_value m) (type_of f) f v ≡ returned tt
              → Returns (size_by_type (compute_field_payload_size n) (type_of f) f v))
          → (if b
              then require (is_nullable f)
              else validate_by_type (validate_json_value m) (type_of f) f v)
            ≡ returned tt
          → Returns (
              if b
              then (if is_nullable f then returned 0 else failed)
              else size_by_type (compute_field_payload_size n) (type_of f) f v)
      by_null true typed e' = (0, rw (require-returned (is_nullable f) e') refl)
      by_null false typed e' = typed refl e'

  -- A document that conforms to a schema of which no field is made of dates or of enums by name has a
  -- size, with the fuel that its nesting asks for.
  pub compute_document_blob_size-validate_json_object :
      (n m : ℕ) (s : Schema) (document : Value D)
      → depth document ≤ n
      → can_store_all s ≡ true
      → validate_json_object (validate_json_value m) s document ≡ returned tt
      → Returns (compute_document_blob_size n s document)
  unfolding validate_json_object can_store compute_document_blob_size document_size depth
  compute_document_blob_size-validate_json_object n m (schema name fs) (object ms) h c e =
      Returns->>= (size_fields (compute_field_payload_size n) fs (object ms)) _
        (size_fields-Returns n (validate_json_value m) (compute_field_payload_size n)
          (compute_field_payload_size-validate_json_value n m) (sized_null D n) fs ms (omega arith)
          c e)
        (λ _. (_, refl))
  compute_document_blob_size-validate_json_object n m _ _ h c e = cc
