-- ===== src/Blob/Match.antt =====
-- src/native/apxdb_collection.c: whether the bytes of a field meet a query. The calls recur on fuel.
use apx_db.Common.{
  ℕ, zero, suc, Bool, true, false, ◌&&◌, Option, none, some, ltb, if◌then◌else◌, Text, text_eq,
  length, take, drop,
}
use apx_db.Common.Outcome.{Outcome, returned, out_of_fuel, ◌>>=◌}
use apx_db.Libc.{Doubles}
use apx_db.Json.{Value, Members, bool, string, object, no_members, member}
use apx_db.Schema.{
  Schema, Field, schema_at, no_schema, type_of, embedded_schema, element_field, is_sized,
  apxdb_schema_find_field, FieldType, boolean, text, embedded, list_of,
}
use apx_db.Blob.Scalars.{parse_numeric_value, scalar_type_size}
use apx_db.Blob.Read.{
  Loads, read_le, payload_text, nested_blob, payload_number, blob_payload_to_bool,
  get_blob_field_payload,
}
use apx_db.Query.Operators.{compare_numeric_operator}

-- The result of a test that does not recur.
abbrev pub or_false : {A : Type 0} → Option A → (A → Bool) → Bool
or_false none test = false
or_false (some a) test = test a

module _ {D : Type 0} ⦃fp : Doubles D⦄ where
  -- A number of a document against the value of a query: an operator in an object of one member, or a
  -- number that is equal.
  unfoldable pub number_matches : D → Value D → Bool
  number_matches doc_value (object (member op v no_members)) =
      or_false (parse_numeric_value v)
        (λ threshold. compare_numeric_operator doc_value op threshold)
  number_matches doc_value query =
      or_false (parse_numeric_value query) (λ expected. fp.equal doc_value expected)

  abbrev pub bool_matches : Bool → Value D → Bool
  bool_matches b (bool c) = if b then c else (if c then false else true)
  bool_matches b _ = false

  abbrev pub text_matches : Text → Value D → Bool
  text_matches s (string t) = text_eq s t
  text_matches s _ = false

  -- The loops, over the function for one value.
  module _ (field_matches : Field → Text → Value D → Outcome Bool) where
    -- The loop over a list's elements, with the elements that are left and `cursor`.
    unfoldable pub contains_element : ℕ → Field → Text → Value D → Outcome Bool
    unfolding read_le
    contains_element zero element cursor query = returned false
    contains_element (suc count) element cursor query =
        let body = if is_sized (type_of element) then drop 4 cursor else cursor in
        let size =
          if is_sized (type_of element)
          then read_le 4 cursor
          else scalar_type_size (type_of element) in
        let rest = contains_element count element (drop size body) query in
        if is_sized (type_of element) && ltb (length cursor) 4
        then returned false
        else if ltb (length body) size
        then returned false
        else (field_matches element (take size body) query >>= λ found.
            if found then returned true else rest)

    unfoldable pub blob_list_contains : Field → Text → Value D → Outcome Bool
    unfolding read_le
    blob_list_contains f payload query =
        if ltb (length payload) 4
        then returned false
        else contains_element (read_le 4 payload) (element_field f) (drop 4 payload) query

    -- The loop over the members of a query.
    unfoldable pub blob_has_members : Schema → Text → Members D → Outcome Bool
    blob_has_members s blob no_members = returned true
    blob_has_members s blob (member name v ms) =
        let rest = blob_has_members s blob ms in
        elim (apxdb_schema_find_field s name) [
          | none ↦ returned false
          | some _ ↦ elim (get_blob_field_payload s blob name) [
            | none ↦ returned false
            | some (f, payload) ↦
                (field_matches f payload v >>= λ found. if found then rest else returned false)
          ]
        ]

    unfoldable pub blob_embedded_object_matches : Schema → Text → Value D → Outcome Bool
    blob_embedded_object_matches s blob (object ms) = blob_has_members s blob ms
    blob_embedded_object_matches s blob _ = returned false

    unfoldable pub embedded_matches : Field → Text → Value D → Outcome Bool
    unfolding payload_text
    embedded_matches f payload (object ms) = elim (embedded_schema f) [
      | no_schema ↦ returned false
      | schema_at s ↦ elim (nested_blob payload) [
        | none ↦ returned false
        | some blob ↦ blob_embedded_object_matches s blob (object ms)
      ]
    ]
    embedded_matches f payload _ = returned false

module _ {D : Type 0} ⦃fp : Doubles D⦄ ⦃ld : Loads D⦄ where
  -- The types without a recursive call.
  unfoldable pub scalar_matches : FieldType → Text → Value D → Bool
  scalar_matches boolean payload query =
      or_false (blob_payload_to_bool payload) (λ b. bool_matches b query)
  scalar_matches text payload query = or_false (payload_text payload) (λ s. text_matches s query)
  scalar_matches type payload query =
      or_false (payload_number type payload) (λ d. number_matches d query)

  -- The tests of the type.
  unfoldable pub matches_by_type :
      (Field → Text → Value D → Outcome Bool) → FieldType → Field → Text → Value D → Outcome Bool
  matches_by_type field_matches embedded f payload query =
      embedded_matches field_matches f payload query
  matches_by_type field_matches list_of f payload query =
      blob_list_contains field_matches f payload query
  matches_by_type field_matches type f payload query = returned (scalar_matches type payload query)

  unfoldable pub blob_field_matches_value : ℕ → Field → Text → Value D → Outcome Bool
  blob_field_matches_value zero f payload query = out_of_fuel
  blob_field_matches_value (suc n) f payload query =
      matches_by_type (blob_field_matches_value n) (type_of f) f payload query
