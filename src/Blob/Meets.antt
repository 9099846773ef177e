-- ===== src/Blob/Meets.antt =====
-- src/native/apxdb_collection.c: the bytes that are written for a scalar or a list of scalars meet a query
-- exactly when the value does.
use apx_db.Common.{
  ℕ, ◌+◌, ◌^◌, ◌<◌, ◌≡◌, ◌≢◌, refl, ap, ◌∙◌, Bool, true, false, ◌||◌, [], ◌∷◌, ◌++◌, if◌then◌else◌,
  Text, length, arith,
}
use apx_db.Common.Outcome.{returned}
use apx_db.Libc.{Doubles}
use apx_db.Json.{Value, Items, bool, string, no_items, item}
use apx_db.Schema.{
  FieldType, byte, short, int, float, double, boolean, text, datetime, embedded, enumeration,
  list_of,
}
use apx_db.Blob.Scalars.{le_bytes, Stores}
use apx_db.Blob.Size.{is_null}
use apx_db.Blob.Write.{write_scalar}
use apx_db.Blob.Read.{Loads, payload_text, payload_number, blob_payload_to_bool}
use apx_db.Blob.Match.{or_false, number_matches, bool_matches, text_matches, scalar_matches}
use apx_db.Blob.Bytes.{
  Exact, IsInt64, stored_number, fits-returned, payload_number-write_scalar, payload_text-le_bytes,
}

length_behind :
    (s bytes : Text)
    → bytes ≡ le_bytes 4 (length s) ++ s
    → length bytes < 2 ^ 32
    → length s < 2 ^ 32
unfolding le_bytes
length_behind s bytes w le = ground (arith, ap length w)

-- A type whose bytes hold no other field's.
abbrev pub IsPlain : FieldType → Type 0
IsPlain type = (type ≢ embedded) × (type ≢ list_of)

module _ {D : Type 0} ⦃fp : Doubles D⦄ ⦃st : Stores D⦄ ⦃ld : Loads D⦄ where
  -- What a query asks of a value, without its bytes.
  unfoldable pub scalar_meets : FieldType → Value D → Value D → Bool
  scalar_meets boolean (bool b) query = bool_matches b query
  scalar_meets text (string s) query = text_matches s query
  scalar_meets boolean v query = false
  scalar_meets text v query = false
  scalar_meets type v query = or_false (stored_number type v) (λ d. number_matches d query)

  abbrev pub item_meets : FieldType → Value D → Value D → Bool
  item_meets type v query = if is_null v then false else scalar_meets type v query

  unfoldable pub items_meet : FieldType → Items D → Value D → Bool
  items_meet type no_items query = false
  items_meet type (item v vs) query = item_meets type v query || items_meet type vs query

module _ {D : Type 0} ⦃fp : Doubles D⦄ ⦃st : Stores D⦄ ⦃ld : Loads D⦄ ⦃ex : Exact D⦄ where
  boolean_back :
      (v query : Value D) (b : ℕ) (bytes : Text)
      → write_scalar boolean v b ≡ returned bytes
      → or_false (blob_payload_to_bool bytes) (λ c. bool_matches c query)
        ≡ scalar_meets boolean v query
  unfolding write_scalar scalar_meets blob_payload_to_bool
  boolean_back (bool true) query b bytes h = rw (fits-returned b 1 (1 ∷ []) bytes h) refl
  boolean_back (bool false) query b bytes h = rw (fits-returned b 1 (0 ∷ []) bytes h) refl
  boolean_back _ query b bytes h = cc

  text_back :
      (v query : Value D) (b : ℕ) (bytes : Text)
      → length bytes < 2 ^ 32
      → write_scalar text v b ≡ returned bytes
      → or_false (payload_text bytes) (λ s. text_matches s query) ≡ scalar_meets text v query
  unfolding write_scalar scalar_meets
  text_back (string s) query b bytes le h =
      let w = fits-returned b (4 + length s) (le_bytes 4 (length s) ++ s) bytes h in
      let short : length s < 2 ^ 32 = length_behind s bytes w le in
      ap (λ o. or_false o (λ s. text_matches s query))
        (ap payload_text w ∙ payload_text-le_bytes s short)
  text_back _ query b bytes le h = cc

  numeric_back :
      (type : FieldType) (v query : Value D) (b : ℕ) (bytes : Text)
      → IsInt64 v
      → type ≢ boolean
      → type ≢ text
      → write_scalar type v b ≡ returned bytes
      → or_false (payload_number type bytes) (λ d. number_matches d query)
        ≡ or_false (stored_number type v) (λ d. number_matches d query)
  numeric_back type v query b bytes i nb nt h =
      ap (λ o. or_false o (λ d. number_matches d query))
        (payload_number-write_scalar type v b bytes i nb nt h)

  pub scalar_matches-write_scalar :
      (type : FieldType) (v query : Value D) (b : ℕ) (bytes : Text)
      → IsInt64 v
      → length bytes < 2 ^ 32
      → write_scalar type v b ≡ returned bytes
      → scalar_matches type bytes query ≡ scalar_meets type v query
  unfolding scalar_matches scalar_meets
  scalar_matches-write_scalar byte v query b bytes i le h =
      numeric_back byte v query b bytes i (λ e. cc) (λ e. cc) h
  scalar_matches-write_scalar short v query b bytes i le h =
      numeric_back short v query b bytes i (λ e. cc) (λ e. cc) h
  scalar_matches-write_scalar int v query b bytes i le h =
      numeric_back int v query b bytes i (λ e. cc) (λ e. cc) h
  scalar_matches-write_scalar float v query b bytes i le h =
      numeric_back float v query b bytes i (λ e. cc) (λ e. cc) h
  scalar_matches-write_scalar double v query b bytes i le h =
      numeric_back double v query b bytes i (λ e. cc) (λ e. cc) h
  scalar_matches-write_scalar boolean v query b bytes i le h = boolean_back v query b bytes h
  scalar_matches-write_scalar text v query b bytes i le h = text_back v query b bytes le h
  scalar_matches-write_scalar datetime v query b bytes i le h =
      numeric_back datetime v query b bytes i (λ e. cc) (λ e. cc) h
  scalar_matches-write_scalar embedded v query b bytes i le h =
      numeric_back embedded v query b bytes i (λ e. cc) (λ e. cc) h
  scalar_matches-write_scalar enumeration v query b bytes i le h =
      numeric_back enumeration v query b bytes i (λ e. cc) (λ e. cc) h
  scalar_matches-write_scalar list_of v query b bytes i le h =
      numeric_back list_of v query b bytes i (λ e. cc) (λ e. cc) h
