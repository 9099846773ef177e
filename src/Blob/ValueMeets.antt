-- ===== src/Blob/ValueMeets.antt =====
-- src/native/apxdb_collection.c: `blob_field_matches_value` on the bytes of `serialize_field_payload`.
use apx_db.Common.{
  ℕ, zero, suc, ◌-◌, ◌^◌, ◌<◌, ◌≡◌, ◌≢◌, refl, sym, subst, ap, ◌∙◌, Bool, false, ◌⊎◌, inl, inr, [],
  ◌++◌, leb, Text, length, arith,
}
use apx_db.Common.Outcome.{returned, failed, out_of_fuel}
use apx_db.Libc.{Doubles}
use apx_db.Json.{Value, Items, null, bool, string, number, array, object}
use apx_db.Schema.{
  Field, field, type_of, element_field, list_element_type, FieldType, byte, short, int, float,
  double, boolean, text, datetime, embedded, enumeration, list_of,
}
use apx_db.Blob.Scalars.{parse_integer_value, le_bytes, Stores}
use apx_db.Blob.Size.{is_null, compute_field_payload_size}
use apx_db.Blob.Write.{write_items, write_list, write_by_type, count_items, serialize_field_payload}
use apx_db.Blob.Read.{Loads}
use apx_db.Blob.Match.{blob_list_contains, matches_by_type, blob_field_matches_value}
use apx_db.Blob.Agree.{IsFlat, >>=-eq-returned, require-eq-returned, element_field-IsFlat}
use apx_db.Blob.Written.{read_le-le_bytes}
use apx_db.Blob.Bytes.{Exact, IsInt64}
use apx_db.Blob.Meets.{IsPlain, scalar_meets, items_meet}
use apx_db.Blob.ListMeets.{
  AllInt64, four_bytes, drop-le_bytes, shorter_last, contains_element-write_items,
}
use apx_db.Blob.ElementReads.{returned-bytes, IsElement-reads}
use apx_db.Blob.PlainField.{plain_field}

-- A value within the limits of its bytes: its integers are those of an `int64_t`, and its elements are
-- counted in 32 bits.
abbrev pub IsWithinLimits : {D : Type 0} → Value D → Type 0
IsWithinLimits (array vs) = (count_items vs < 2 ^ 32) × AllInt64 vs
IsWithinLimits v = IsInt64 v

module _ {D : Type 0} ⦃fp : Doubles D⦄ ⦃st : Stores D⦄ ⦃ld : Loads D⦄ where
  -- What a query asks of a field's value, without its bytes.
  abbrev list_meets : Field → Value D → Value D → Bool
  list_meets e (array vs) query = items_meet (type_of e) vs query
  list_meets e v query = false

  abbrev meets_by_type : Field → Value D → Value D → FieldType → Bool
  meets_by_type e v query list_of = list_meets e v query
  meets_by_type e v query type = scalar_meets type v query

  unfoldable pub value_meets : Field → Value D → Value D → Bool
  value_meets f v query = meets_by_type (element_field f) v query (type_of f)

element_IsPlain :
    (f : Field) → IsFlat f → list_element_type f ≢ list_of → IsPlain (type_of (element_field f))
element_IsPlain (field name type nullable embeds element_type element_schema strategy values) flat
      ne =
    (flat.1, ne)

no_bytes_on_no_fuel : (bytes : Text) → out_of_fuel ≢ returned bytes
no_bytes_on_no_fuel bytes h = cc

no_bytes : (bytes : Text) → failed ≢ returned bytes
no_bytes bytes h = cc

list_or_plain : (type : FieldType) → type ≢ embedded → (type ≡ list_of) ⊎ IsPlain type
list_or_plain byte ne = inr ((λ e. cc), (λ e. cc))
list_or_plain short ne = inr ((λ e. cc), (λ e. cc))
list_or_plain int ne = inr ((λ e. cc), (λ e. cc))
list_or_plain float ne = inr ((λ e. cc), (λ e. cc))
list_or_plain double ne = inr ((λ e. cc), (λ e. cc))
list_or_plain boolean ne = inr ((λ e. cc), (λ e. cc))
list_or_plain text ne = inr ((λ e. cc), (λ e. cc))
list_or_plain datetime ne = inr ((λ e. cc), (λ e. cc))
list_or_plain embedded ne = absurd (ne refl)
list_or_plain enumeration ne = inr ((λ e. cc), (λ e. cc))
list_or_plain list_of ne = inl refl

module _ {D : Type 0} ⦃fp : Doubles D⦄ ⦃st : Stores D⦄ ⦃ld : Loads D⦄ where
  IsWithinLimits-IsInt64 : (v : Value D) → IsWithinLimits v → IsInt64 v
  unfolding parse_integer_value
  IsWithinLimits-IsInt64 (array vs) h = λ z e. cc
  IsWithinLimits-IsInt64 null h = h
  IsWithinLimits-IsInt64 (bool b) h = h
  IsWithinLimits-IsInt64 (number w z d) h = h
  IsWithinLimits-IsInt64 (string s) h = h
  IsWithinLimits-IsInt64 (object ms) h = h

  meets_by_type-plain :
      (e : Field) (v query : Value D) (type : FieldType)
      → IsPlain type
      → meets_by_type e v query type ≡ scalar_meets type v query
  meets_by_type-plain e v query byte plain = refl
  meets_by_type-plain e v query short plain = refl
  meets_by_type-plain e v query int plain = refl
  meets_by_type-plain e v query float plain = refl
  meets_by_type-plain e v query double plain = refl
  meets_by_type-plain e v query boolean plain = refl
  meets_by_type-plain e v query text plain = refl
  meets_by_type-plain e v query datetime plain = refl
  meets_by_type-plain e v query embedded plain = refl
  meets_by_type-plain e v query enumeration plain = refl
  meets_by_type-plain e v query list_of plain = absurd (plain.1 refl)

module _ {D : Type 0} ⦃fp : Doubles D⦄ ⦃st : Stores D⦄ ⦃ld : Loads D⦄ ⦃ex : Exact D⦄
    (fresh : ℕ → ℕ) where
  list_field :
      (n m : ℕ) (f : Field) (vs : Items D) (query : Value D) (b : ℕ) (bytes : Text)
      → IsFlat f
      → IsPlain (type_of (element_field f))
      → count_items vs < 2 ^ 32
      → AllInt64 vs
      → length bytes < 2 ^ 32
      → write_list (compute_field_payload_size n) (serialize_field_payload fresh n) f (array vs) b
        ≡ returned bytes
      → blob_list_contains (blob_field_matches_value (suc m)) f bytes query
        ≡ returned (items_meet (type_of (element_field f)) vs query)
  unfolding blob_list_contains write_list
  list_field n m f vs query b bytes flat plain few ints le h =
      let (fit, h1) = require-eq-returned (leb 4 b) _ bytes h in
      let (rest, rest_eq, h2) =
        >>=-eq-returned
          (write_items (compute_field_payload_size {D = D} n)
            (serialize_field_payload {D = D} fresh n) (element_field f) vs (b - 4))
          (λ rest. returned (le_bytes 4 (count_items vs) ++ rest)) bytes h1 in
      let placed : bytes ≡ le_bytes 4 (count_items vs) ++ rest = returned-bytes bytes _ (sym h2) in
      let short : length (le_bytes 4 (count_items vs) ++ rest) < 2 ^ 32 =
        subst (λ t. length t < 2 ^ 32) placed le in
      rw
        (
          placed,
          four_bytes (count_items vs) rest,
          drop-le_bytes (count_items vs) rest,
          read_le-le_bytes 4 (count_items vs) rest few,
        )
        (contains_element-write_items (compute_field_payload_size n)
          (serialize_field_payload fresh n) (blob_field_matches_value (suc m)) (element_field f)
          query
          (IsElement-reads fresh m (element_field f) query plain n (element_field-IsFlat f flat))
          plain vs (count_items vs) (b - 4) rest ints (omega arith)
          (shorter_last (le_bytes 4 (count_items vs)) [] rest (2 ^ 32) short) rest_eq)

  list_value :
      (n m : ℕ) (f : Field) (v query : Value D) (b : ℕ) (bytes : Text)
      → IsFlat f
      → IsPlain (type_of (element_field f))
      → is_null v ≡ false
      → IsWithinLimits v
      → length bytes < 2 ^ 32
      → write_list (compute_field_payload_size n) (serialize_field_payload fresh n) f v b
        ≡ returned bytes
      → blob_list_contains (blob_field_matches_value (suc m)) f bytes query
        ≡ returned (list_meets (element_field f) v query)
  unfolding write_list
  list_value n m f (array vs) query b bytes flat plain nn limits le h =
      list_field n m f vs query b bytes flat plain limits.0 limits.1 le h
  list_value n m f _ query b bytes flat plain nn limits le h = absurd (no_bytes bytes h)

  -- For a field that is neither embedded nor a list of embedded objects or of lists, the bytes that
  -- `serialize_field_payload` returns for a value that is not null meet a query exactly when the value
  -- does, or, in a list, one of its elements that are not null. The bytes are less than 2^32, the elements
  -- too, the integers are those of an `int64_t`, and a `double` comes back from its bits.
  pub blob_field_matches_value-serialize_field_payload :
      (n m : ℕ) (f : Field) (v query : Value D) (b : ℕ) (bytes : Text)
      → IsFlat f
      → list_element_type f ≢ list_of
      → is_null v ≡ false
      → IsWithinLimits v
      → length bytes < 2 ^ 32
      → serialize_field_payload fresh n f v b ≡ returned bytes
      → blob_field_matches_value (suc (suc m)) f bytes query ≡ returned (value_meets f v query)
  unfolding value_meets serialize_field_payload write_by_type blob_field_matches_value
      matches_by_type
  blob_field_matches_value-serialize_field_payload zero m f v query b bytes flat ne nn limits le h =
      absurd (no_bytes_on_no_fuel bytes h)
  blob_field_matches_value-serialize_field_payload (suc n) m f v query b bytes flat ne nn limits le
        h =
      elim (list_or_plain (type_of f) flat.0) [
        | inr plain ↦
            plain_field fresh n (suc m) f v query b bytes plain nn (IsWithinLimits-IsInt64 v limits)
              le h
            ∙ ap returned (sym (meets_by_type-plain (element_field f) v query (type_of f) plain))
        | inl is ↦ rw is (
            list_value n m f v query b bytes flat (element_IsPlain f flat ne) nn limits le
              (rw (nn, is) at h))
      ]
