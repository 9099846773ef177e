-- ===== src/Blob/Print.antt =====
-- src/native/apxdb_collection.c: the JSON text of a document from its blob. What is appended to the
-- buffer is returned; memory for the buffer is there. The calls recur on fuel.
use apx_db.Common.{
  ℕ, zero, suc, Bool, true, false, ◌&&◌, [], ◌∷◌, ◌++◌, none, some, ltb, ◌==◌, if◌then◌else◌, Text,
  codes, length, take, drop,
}
use apx_db.Common.Outcome.{Outcome, returned, failed, out_of_fuel, of_option, ◌>>=◌}
use apx_db.Json.Strings.{append_json_string}
use apx_db.Schema.{
  Fields, Field, SchemaRef, no_fields, with_field, schema_at, no_schema, fields_of, name_of,
  type_of, embedded_schema, element_field, is_sized, text, embedded, list_of,
}
use apx_db.Blob.Scalars.{scalar_type_size}
use apx_db.Blob.Read.{
  Loads, read_le, payload_text, nested_blob, blob_value_to_string, get_blob_field_entry,
  entry_payload,
}

-- The text up to the first NUL, for `strlen`.
unfoldable pub c_string : Text → Text
c_string [] = []
c_string (c ∷ s) = if c == 0 then [] else c ∷ c_string s

-- The comma in front of every field or element but the first.
abbrev pub comma : Bool → Text
comma first = if first then [] else codes ","

-- The loops, over the function for one payload.
module _ (append : Field → Text → Outcome Text) where
  -- The loop over the fields from the index on.
  unfoldable pub append_fields : Fields → Text → ℕ → Bool → Outcome Text
  append_fields no_fields blob i first = returned (codes "}")
  append_fields (with_field f fs) blob i first =
      let rest = append_fields fs blob (suc i) false in
      let name = comma first ++ (append_json_string (c_string (name_of f)) ++ codes ":") in
      elim (get_blob_field_entry blob i) [
        | none ↦ failed
        | some entry ↦ do
          shown ←
              (if entry.null_flag == 0
                then append f (entry_payload blob entry)
                else returned (codes "null"))
          others ← rest
          returned (name ++ (shown ++ others))
      ]

  unfoldable pub append_json_object_from_blob : SchemaRef → Text → Outcome Text
  append_json_object_from_blob no_schema blob = failed
  append_json_object_from_blob (schema_at s) blob =
      append_fields (fields_of s) blob 0 true >>= λ fields. returned (codes "{" ++ fields)

  -- One element of a list. A text is taken as its bytes stand, behind the length of the element.
  unfoldable pub append_element : Field → Text → Outcome Text
  append_element element bytes = elim (type_of element) [
    | text ↦ returned (append_json_string (c_string bytes))
    | embedded ↦ append_json_object_from_blob (embedded_schema element) bytes
    | _ ↦ append element bytes
  ]

  -- The loop over the elements that are left, with `cursor`.
  unfoldable pub append_elements : ℕ → Field → Text → Bool → Outcome Text
  unfolding read_le
  append_elements zero element cursor first = returned (codes "]")
  append_elements (suc count) element cursor first =
      let body = if is_sized (type_of element) then drop 4 cursor else cursor in
      let size =
        if is_sized (type_of element)
        then read_le 4 cursor
        else scalar_type_size (type_of element) in
      let rest = append_elements count element (drop size body) false in
      if is_sized (type_of element) && ltb (length cursor) 4
      then failed
      else if ltb (length body) size
      then failed
      else (do
        shown ← append_element element (take size body)
        others ← rest
        returned (comma first ++ (shown ++ others)))

  unfoldable pub append_list : Field → Text → Outcome Text
  unfolding read_le
  append_list f payload =
      if ltb (length payload) 4
      then failed
      else (append_elements (read_le 4 payload) (element_field f) (drop 4 payload) true
          >>= λ elements. returned (codes "[" ++ elements))

module _ (D : Type 0) ⦃ld : Loads D⦄ where
  unfoldable pub append_json_from_payload : ℕ → Field → Text → Outcome Text
  unfolding payload_text
  append_json_from_payload zero f payload = out_of_fuel
  append_json_from_payload (suc n) f payload = elim (type_of f) [
    | embedded ↦ elim (nested_blob payload) [
      | none ↦ failed
      | some blob ↦
          append_json_object_from_blob (append_json_from_payload n) (embedded_schema f) blob
    ]
    | list_of ↦ append_list (append_json_from_payload n) f payload
    | text ↦
        (of_option (blob_value_to_string D f payload) >>= λ s.
        returned (append_json_string (c_string s)))
    | _ ↦ of_option (blob_value_to_string D f payload)
  ]
