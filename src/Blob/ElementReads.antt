-- ===== src/Blob/ElementReads.antt =====
-- src/native/apxdb_collection.c: what is written of a list's element is read again as one element.
use apx_db.Common.{
  ℕ, zero, suc, ◌≤◌, ◌≡◌, ◌≢◌, refl, sym, ap, ◌∙◌, true, false, ◌⊎◌, inl, inr, Bool-cases, [], Text,
  length,
}
use apx_db.Common.Outcome.{returned, failed, out_of_fuel}
use apx_db.Libc.{Doubles}
use apx_db.Json.{Value}
use apx_db.Schema.{Field, type_of, is_nullable, is_sized, FieldType, text, embedded}
use apx_db.Blob.Scalars.{scalar_type_size, Stores}
use apx_db.Blob.Size.{is_null, compute_field_payload_size}
use apx_db.Blob.Write.{serialize_field_payload}
use apx_db.Blob.Read.{Loads, payload_text}
use apx_db.Blob.Match.{scalar_matches, blob_field_matches_value}
use apx_db.Blob.Agree.{
  IsFlat, returned-injective, serialize_field_payload-compute_field_payload_size,
}
use apx_db.Blob.Bytes.{Exact, IsInt64}
use apx_db.Blob.Meets.{IsPlain}
use apx_db.Blob.ListMeets.{IsElement, IsNothing}
use apx_db.Blob.PlainField.{
  plain_field, plain_matches, size_by_type_plain, scalar_size-scalar_type_size,
}

pub returned-bytes : (a b : Text) → returned a ≡ returned b → a ≡ b
returned-bytes a b h = cc

no_fuel : (size : ℕ) → out_of_fuel ≢ returned size
no_fuel size h = cc

pub no_result : (size : ℕ) → failed ≢ returned size
no_result size h = cc

no_text :
    {D : Type 0} ⦃fp : Doubles D⦄ ⦃ld : Loads D⦄ (type : FieldType) (query : Value D)
    → IsPlain type
    → is_sized type ≡ true
    → scalar_matches type [] query ≡ false
unfolding scalar_matches payload_text
no_text text query plain sized = refl
no_text embedded query plain sized = absurd (plain.0 refl)
no_text _ query plain sized = cc

module _ {D : Type 0} ⦃fp : Doubles D⦄ ⦃st : Stores D⦄ ⦃ld : Loads D⦄ ⦃ex : Exact D⦄ (fresh : ℕ → ℕ)
    (n m : ℕ) (e : Field) (query : Value D) (plain : IsPlain (type_of e)) where
  null_element :
      (v : Value D) (size b : ℕ) (bytes : Text)
      → is_null v ≡ true
      → compute_field_payload_size (suc n) e v ≡ returned size
      → serialize_field_payload fresh (suc n) e v b ≡ returned bytes
      → (size ≡ 0) × (bytes ≡ [])
  unfolding compute_field_payload_size serialize_field_payload
  null_element v size b bytes is h k = elim (Bool-cases (is_nullable e)) [
    | inl may ↦ (
      returned-injective size 0 (sym (rw (is, may) at h)),
      returned-bytes bytes [] (sym (rw (is, may) at k)),
    )
    | inr not ↦ absurd (no_result size (rw (is, not) at h))
  ]

  element_size :
      (v : Value D) (size : ℕ)
      → is_null v ≡ false
      → is_sized (type_of e) ≡ false
      → compute_field_payload_size (suc n) e v ≡ returned size
      → scalar_type_size (type_of e) ≡ size
  unfolding compute_field_payload_size
  element_size v size nn flat h = scalar_size-scalar_type_size (type_of e) v size flat (
      sym (size_by_type_plain (compute_field_payload_size {D = D} n) e v (type_of e) plain)
      ∙ (rw nn at h))

  null_reads :
      (v : Value D) (size : ℕ) (bytes : Text)
      → is_null v ≡ true
      → size ≡ 0
      → bytes ≡ []
      → IsElement
          (compute_field_payload_size (suc n))
          (serialize_field_payload fresh (suc n))
          (blob_field_matches_value (suc m))
          e
          query
          v
          size
          bytes
        ⊎ IsNothing
            (compute_field_payload_size (suc n))
            (serialize_field_payload fresh (suc n))
            (blob_field_matches_value (suc m))
            e
            query
            v
            bytes
  null_reads v size bytes is zero_size no_bytes = elim (Bool-cases (is_sized (type_of e))) [
    | inl sized ↦ inl record {
      size_is = rw (zero_size, no_bytes) refl;
      read_again = inl sized;
      meets = λ le.
          rw (no_bytes, is)
            (plain_matches fresh m e query [] plain
              ∙ ap returned (no_text (type_of e) query plain sized));
    }
    | inr flat ↦ inr record { no_bytes = no_bytes; no_length = flat; not_met = rw is refl }
  ]

  value_reads :
      (v : Value D) (size b : ℕ) (bytes : Text)
      → is_null v ≡ false
      → IsInt64 v
      → length bytes ≡ size
      → compute_field_payload_size (suc n) e v ≡ returned size
      → serialize_field_payload fresh (suc n) e v b ≡ returned bytes
      → IsElement
          (compute_field_payload_size (suc n))
          (serialize_field_payload fresh (suc n))
          (blob_field_matches_value (suc m))
          e
          query
          v
          size
          bytes
  value_reads v size b bytes nn i len h k = record {
    size_is = len;
    read_again = elim (Bool-cases (is_sized (type_of e))) [
      | inl sized ↦ inl sized
      | inr flat ↦ inr (element_size v size nn flat h ∙ sym len)
    ];
    meets = λ le. rw nn (plain_field fresh n m e v query b bytes plain nn i le k);
  }

  IsElement-reads_on :
      IsFlat e
      → (v : Value D) (size b : ℕ) (bytes : Text) → IsInt64 v
      → size ≤ b
      → compute_field_payload_size (suc n) e v ≡ returned size
      → serialize_field_payload fresh (suc n) e v b ≡ returned bytes
      → IsElement
          (compute_field_payload_size (suc n))
          (serialize_field_payload fresh (suc n))
          (blob_field_matches_value (suc m))
          e
          query
          v
          size
          bytes
        ⊎ IsNothing
            (compute_field_payload_size (suc n))
            (serialize_field_payload fresh (suc n))
            (blob_field_matches_value (suc m))
            e
            query
            v
            bytes
  IsElement-reads_on flat v size b bytes i le h k = elim (Bool-cases (is_null v)) [
    | inl is ↦
        let (zero_size, no_bytes) = null_element v size b bytes is h k in
        null_reads v size bytes is zero_size no_bytes
    | inr nn ↦
        let (same, w, len) =
          serialize_field_payload-compute_field_payload_size D fresh (suc n) e v size b flat h le in
        let again = returned-bytes bytes same (sym k ∙ w) in
        inl (value_reads v size b bytes nn i (ap length again ∙ len) h k)
  ]

module _ {D : Type 0} ⦃fp : Doubles D⦄ ⦃st : Stores D⦄ ⦃ld : Loads D⦄ ⦃ex : Exact D⦄ (fresh : ℕ → ℕ)
    (m : ℕ) (e : Field) (query : Value D) (plain : IsPlain (type_of e)) where
  -- On any fuel.
  pub IsElement-reads :
      (n : ℕ)
      → IsFlat e
      → (v : Value D) (size b : ℕ) (bytes : Text) → IsInt64 v
      → size ≤ b
      → compute_field_payload_size n e v ≡ returned size
      → serialize_field_payload fresh n e v b ≡ returned bytes
      → IsElement
          (compute_field_payload_size n)
          (serialize_field_payload fresh n)
          (blob_field_matches_value (suc m))
          e
          query
          v
          size
          bytes
        ⊎ IsNothing
            (compute_field_payload_size n)
            (serialize_field_payload fresh n)
            (blob_field_matches_value (suc m))
            e
            query
            v
            bytes
  unfolding compute_field_payload_size
  IsElement-reads zero flat v size b bytes i le h k = absurd (no_fuel size h)
  IsElement-reads (suc n) flat v size b bytes i le h k =
      IsElement-reads_on fresh n m e query plain flat v size b bytes i le h k
