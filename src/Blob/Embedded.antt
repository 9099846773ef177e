-- ===== src/Blob/Embedded.antt =====
-- An embedded object does not fit into the size that `compute_field_payload_size` announces: the
-- header of its blob is counted twice when it is written.
use apx_db.Common.{
  ℕ, zero, suc, ◌+◌, ◌-◌, ◌≤◌, ◌<◌, ◌≡◌, refl, sym, subst, ap, ◌∙◌, ◌≢◌, Text, length,
  length-append, arith,
}
use apx_db.Common.Outcome.{Outcome, returned}
use apx_db.Libc.{Doubles}
use apx_db.Json.{Value, Members, object}
use apx_db.Schema.{
  Schema, Field, SchemaRef, no_schema, schema_at, fields_of, type_of, embedded_schema, embedded,
}
use apx_db.Blob.Scalars.{Stores}
use apx_db.Blob.Size.{
  header_size, document_size, size_embedded, size_by_type, compute_field_payload_size,
}
use apx_db.Blob.Write.{
  fits, unwritten, padded, write_fields, write_document, write_embedded, write_by_type,
  serialize_field_payload,
}
use apx_db.Blob.Agree.{>>=-eq-returned, returned-injective}

length-unwritten : (fresh : ℕ → ℕ) (k : ℕ) → length (unwritten fresh k) ≡ k
unfolding unwritten
length-unwritten fresh zero = refl
length-unwritten fresh (suc k) = ap suc (length-unwritten fresh k)

returned-injective_text : (a b : Text) → returned a ≡ returned b → a ≡ b
returned-injective_text a b h = cc

length-padded-ge :
    (fresh : ℕ → ℕ) (size : ℕ) (written : Text) → size ≤ length (padded fresh size written)
unfolding padded
length-padded-ge fresh size written = omega (
  arith,
  length-append written (unwritten fresh (size - length written)),
  length-unwritten fresh (size - length written),
)

padded-eq-returned :
    (fresh : ℕ → ℕ) (size : ℕ) (written : Text) {blob : Text}
    → returned (padded fresh size written) ≡ returned blob
    → size ≤ length blob
padded-eq-returned fresh size written {blob} h =
    subst (λ t. size ≤ length t) (returned-injective_text (padded fresh size written) blob h)
      (length-padded-ge fresh size written)

fits-eq-returned : (b k : ℕ) (bytes out : Text) → fits b k bytes ≡ returned out → k ≤ b
fits-eq-returned b k bytes out h = ground arith

module _ {D : Type 0} (size_of : Field → Value D → Outcome ℕ)
    (write : Field → Value D → ℕ → Outcome Text) (fresh : ℕ → ℕ) where
  -- The blob is as long as it was made.
  length-write_document :
      (s : Schema) (v : Value D) (payload : ℕ) (blob : Text)
      → document_size size_of s v ≡ returned payload
      → write_document size_of write fresh s v ≡ returned blob
      → header_size (fields_of s) + payload ≤ length blob
  unfolding write_document
  length-write_document s v payload blob e h =
      let header = header_size (fields_of s) in
      let (size, e₁, h₁) = >>=-eq-returned (document_size size_of s v) _ blob h in
      let (parts, e₂, h₂) =
        >>=-eq-returned (write_fields size_of write (fields_of s) v (header + size) header) _ blob
          h₁ in
      let same : size ≡ payload = returned-injective size payload (sym e₁ ∙ e) in
      let long : header + size ≤ length blob = padded-eq-returned fresh (header + size) _ h₂ in
      omega arith

  -- The buffer must have room for the header twice.
  write_embedded_short :
      (r : SchemaRef) (v : Value D) (size b : ℕ) (bytes : Text)
      → size_embedded size_of r v ≡ returned size
      → b < size + 12
      → write_embedded size_of write fresh r v b ≢ returned bytes
  unfolding size_embedded write_embedded
  write_embedded_short no_schema v size b bytes e lt h = cc
  write_embedded_short (schema_at s) (object ms) size b bytes e lt h =
      let (payload, e₁, e₂) = >>=-eq-returned (document_size size_of s (object ms)) _ size e in
      let same : 4 + payload ≡ size = returned-injective _ size e₂ in
      let (blob, h₁, h₂) =
        >>=-eq-returned (write_document size_of write fresh s (object ms)) _ bytes h in
      let room : 4 + length blob ≤ b = fits-eq-returned b (4 + length blob) _ bytes h₂ in
      let long : header_size (fields_of s) + payload ≤ length blob =
        length-write_document s (object ms) payload blob e₁ h₁ in
      omega arith
  write_embedded_short (schema_at s) _ size b bytes e lt h = cc

module _ (D : Type 0) ⦃fp : Doubles D⦄ ⦃st : Stores D⦄ (fresh : ℕ → ℕ) where
  -- A field that holds an embedded object for which `compute_field_payload_size` gives a size is
  -- not written into a buffer of that size, nor into one with less than twelve bytes more.
  pub serialize_field_payload-embedded :
      (n : ℕ) (f : Field) (ms : Members D) (size b : ℕ) (bytes : Text)
      → type_of f ≡ embedded
      → compute_field_payload_size n f (object ms) ≡ returned size
      → b < size + 12
      → serialize_field_payload fresh n f (object ms) b ≢ returned bytes
  unfolding compute_field_payload_size serialize_field_payload size_by_type write_by_type
  serialize_field_payload-embedded zero f ms size b bytes e h lt w = cc
  serialize_field_payload-embedded (suc n) f ms size b bytes e h lt w =
      write_embedded_short (compute_field_payload_size n) (serialize_field_payload fresh n) fresh
        (embedded_schema f) (object ms) size b bytes (rw (e, size_by_type) at h) lt
        (rw (e, write_by_type) at w)
