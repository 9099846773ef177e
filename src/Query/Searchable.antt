-- ===== src/Query/Searchable.antt =====
-- The names of fields that a query can ask for, as a test.
use apx_db.Common.{
  ℕ, ◌<◌, ◌≡◌, ◌≢◌, sym, ap, ◌∙◌, Bool, true, false, ◌&&◌, not, [], ◌∷◌, Option, none, some, ltb,
  ◌==◌, Text, length, arith,
}
use apx_db.Schema.{Schema, Field, type_of, list_element_type, FieldType, embedded, list_of}
use apx_db.Blob.Read.{get_schema_field_index}
use apx_db.Blob.Parts.{IsSegment}
use apx_db.Query.ScanMeets.{IsSearchable}

-- A name that is one segment of a path.
unfoldable pub is_segment : Text → Bool
is_segment [] = false
is_segment (c ∷ []) = not (c == b'.')
is_segment (c ∷ d ∷ s) = not (c == b'.') && is_segment (d ∷ s)

abbrev is_nested : FieldType → Bool
is_nested embedded = true
is_nested list_of = true
is_nested _ = false

abbrev pub is_embedded_type : FieldType → Bool
is_embedded_type embedded = true
is_embedded_type _ = false

-- A field that is neither embedded, nor a list of embedded objects or of lists.
abbrev has_plain_values : Option (ℕ × Field) → Bool
has_plain_values none = true
has_plain_values (some (i, f)) =
    not (is_embedded_type (type_of f)) && not (is_nested (list_element_type f))

-- A name that a query can ask for: one segment, and a field of plain values if there is such a field.
unfoldable pub is_searchable : Schema → Text → Bool
unfolding is_segment
is_searchable s name =
    is_segment name && (ltb (length name) 256 && has_plain_values (get_schema_field_index s name))

is_segment-IsSegment : (name : Text) → is_segment name ≡ true → IsSegment name
unfolding is_segment
is_segment-IsSegment [] h = cc
is_segment-IsSegment (c ∷ []) h = ((λ e. cc), (ground arith, tt))
is_segment-IsSegment (c ∷ d ∷ s) h =
    ((λ e. cc), (ground arith, (is_segment-IsSegment (d ∷ s) (ground arith)).1))

pub clash : (b : Bool) → b ≡ false → b ≢ true
clash b h e = cc

plain_type :
    (type element : FieldType)
    → (not (is_embedded_type type) && not (is_nested element)) ≡ true
    → ((type ≢ embedded) × (element ≢ embedded)) × (element ≢ list_of)
plain_type type element h =
    let outer : is_embedded_type type ≡ false = ground arith in
    let inner : is_nested element ≡ false = ground arith in
    (
      (
        (λ e. clash (is_embedded_type type) outer (ap is_embedded_type e)),
        (λ e. clash (is_nested element) inner (ap is_nested e)),
      ),
      (λ e. clash (is_nested element) inner (ap is_nested e)),
    )

pub has_plain_values-IsSearchable :
    (s : Schema) (name : Text)
    → has_plain_values (get_schema_field_index s name) ≡ true
    → IsSearchable s name
has_plain_values-IsSearchable s name h i f k =
    plain_type (type_of f) (list_element_type f) (sym (ap has_plain_values k) ∙ h)

three_tests : (a b c : Bool) → (a && (b && c)) ≡ true → (a ≡ true) × (b ≡ true) × (c ≡ true)
three_tests a b c h = (ground arith, ground arith, ground arith)

below : (a b : ℕ) → ltb a b ≡ true → a < b
below a b h = ground arith

pub is_searchable_parts :
    (s : Schema) (name : Text)
    → is_searchable s name ≡ true
    → IsSegment name × (length name < 256) × IsSearchable s name
unfolding is_searchable
is_searchable_parts s name h =
    let (seg, len, plain) =
      three_tests (is_segment name) (ltb (length name) 256)
        (has_plain_values (get_schema_field_index s name)) h in
    (
      is_segment-IsSegment name seg,
      below (length name) 256 len,
      has_plain_values-IsSearchable s name plain,
    )
