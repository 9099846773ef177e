-- ===== src/Query/ScanMeets.antt =====
-- src/native/apxdb_collection.c: the scan of the documents' bytes finds the documents whose values meet the
-- query.
use apx_db.Common.{
  ℕ, ◌^◌, ◌<◌, ◌≡◌, ◌≢◌, refl, ap, ◌∙◌, Bool, false, List, [], ◌∷◌, Option, none, some, inl, inr,
  Option-cases, Bool-cases, text_eq, if◌then◌else◌, Text, length,
}
use apx_db.Common.Outcome.{returned}
use apx_db.Libc.{Doubles}
use apx_db.Json.{Value, Members, object, no_members, member, find_member, apxdb_json_object_get}
use apx_db.Schema.{Schema, Field, name_of, list_of, list_element_type}
use apx_db.Blob.Scalars.{Stores, parse_integer_value}
use apx_db.Blob.Size.{or_null, is_null}
use apx_db.Blob.Write.{serialize_document_blob, serialize_field_payload}
use apx_db.Blob.Agree.{IsFlat}
use apx_db.Blob.Read.{Loads, get_schema_field_index, field_payload, get_blob_field_payload}
use apx_db.Blob.LayoutRead.{get_collection_blob_field_payload}
use apx_db.Blob.Fetch.{of_field}
use apx_db.Blob.FieldPayload.{Found, get_blob_field_payload-serialize_document_blob}
use apx_db.Blob.Parts.{IsSegment, get_blob_field_payload-segment}
use apx_db.Blob.Bytes.{Exact}
use apx_db.Blob.ValueMeets.{
  value_meets, IsWithinLimits, blob_field_matches_value-serialize_field_payload,
}
use apx_db.Query.Ids.{Ids}
use apx_db.Query.Scan.{
  Gpu, gpu_ids, found_matches, document_matches, scan_documents, scan_docs_for_member, is_match,
}
use apx_db.Collection.{Collection, StoredDocument}

module _ {D : Type 0} ⦃fp : Doubles D⦄ ⦃st : Stores D⦄ ⦃ld : Loads D⦄ where
  abbrev field_meets : Field → Value D → Value D → Bool
  field_meets f v query = if is_null v then false else value_meets f v query

  -- Whether the value of a document meets the query at that field, without any bytes.
  unfoldable pub document_meets : Schema → Text → Value D → Value D → Bool
  document_meets s name query document = elim (get_schema_field_index s name) [
    | none ↦ false
    | some (i, f) ↦ field_meets f (of_field document f) query
  ]

  unfoldable pub ids_meeting : Schema → Text → Value D → List (StoredDocument × Value D) → Ids
  ids_meeting s name query [] = []
  ids_meeting s name query (row ∷ rows) =
      let rest = ids_meeting s name query rows in
      if document_meets s name query row.1 then row.0.id ∷ rest else rest

-- Documents with the values that they were stored from.
abbrev pub documents_of : {D : Type 0} → List (StoredDocument × Value D) → List StoredDocument
documents_of [] = []
documents_of (row ∷ rows) = row.0 ∷ documents_of rows

-- A field that is neither embedded, nor a list of embedded objects or of lists.
abbrev pub IsSearchable : Schema → Text → Type 0
IsSearchable s name =
    (i : ℕ) (f : Field)
    → get_schema_field_index s name ≡ some (i, f)
    → IsFlat f × (list_element_type f ≢ list_of)

-- The values of a document are within the limits of their bytes.
abbrev AllWithinLimits : {D : Type 0} → Members D → Type 0
AllWithinLimits no_members = Unit {0}
AllWithinLimits (member name v ms) = IsWithinLimits v × AllWithinLimits ms

abbrev pub IsDocumentWithinLimits : {D : Type 0} → Value D → Type 0
IsDocumentWithinLimits (object ms) = AllWithinLimits ms
IsDocumentWithinLimits v = Unit {0}

find_member-IsWithinLimits :
    {D : Type 0} (ms : Members D) (name : Text)
    → AllWithinLimits ms
    → IsWithinLimits (or_null (find_member ms name))
unfolding find_member parse_integer_value
find_member-IsWithinLimits no_members name h = λ z e. cc
find_member-IsWithinLimits (member key v ms) name h = elim (Bool-cases (text_eq key name)) [
  | inl e ↦ rw e h.0
  | inr e ↦ rw e (find_member-IsWithinLimits ms name h.1)
]

of_field-IsWithinLimits :
    {D : Type 0} (document : Value D) (f : Field)
    → IsDocumentWithinLimits document
    → IsWithinLimits (of_field document f)
unfolding apxdb_json_object_get parse_integer_value
of_field-IsWithinLimits (object ms) f h = find_member-IsWithinLimits ms (name_of f) h
of_field-IsWithinLimits _ f h = λ z e. cc

module _ {D : Type 0} ⦃fp : Doubles D⦄ ⦃st : Stores D⦄ (fresh : ℕ → ℕ) where
  -- The bytes of a document are those that the program writes of its value.
  pub record IsStoredFrom (s : Schema) (blob : Text) (document : Value D) : Type 0 where
    pub fuel : ℕ
    pub written : serialize_document_blob fresh fuel s document ≡ returned blob
    pub short : length blob < 2 ^ 32
    pub limits : IsDocumentWithinLimits document

  abbrev pub AreStored : Schema → List (StoredDocument × Value D) → Type 0
  AreStored s [] = Unit {0}
  AreStored s (row ∷ rows) = IsStoredFrom s row.0.blob row.1 × AreStored s rows

module _ {D : Type 0} ⦃fp : Doubles D⦄ ⦃st : Stores D⦄ ⦃ld : Loads D⦄ ⦃ex : Exact D⦄ (fresh : ℕ → ℕ)
    (c : Collection D) (name : Text) (query : Value D) (seg : IsSegment name)
    (len : length name < 256) (plain : c.layout ≡ none)
    (searchable : IsSearchable c.collection_schema name) where
  payload_meets :
      (n : ℕ) (f : Field) (v : Value D) (r : Option (Field × Text))
      → IsFlat f × (list_element_type f ≢ list_of)
      → IsWithinLimits v
      → Found (serialize_field_payload fresh n) f v r
      → found_matches r query ≡ field_meets f v query
  payload_meets n f v r flat limits (inl (is, nothing)) = rw (is, nothing) refl
  payload_meets n f v r flat limits (inr (nn, (b, bytes, wr, short, found))) =
      rw (nn, found)
        (ap is_match (
          blob_field_matches_value-serialize_field_payload fresh n (length bytes) f v query b bytes
            flat.0 flat.1 nn limits short wr))

  no_layout :
      (blob : Text)
      → get_collection_blob_field_payload c blob name
        ≡ get_blob_field_payload c.collection_schema blob name
  unfolding get_collection_blob_field_payload get_blob_field_payload
  no_layout blob = rw (plain, get_collection_blob_field_payload) refl

  no_field :
      (blob : Text)
      → get_schema_field_index c.collection_schema name ≡ none
      → get_blob_field_payload c.collection_schema blob name ≡ none
  unfolding field_payload
  no_field blob h =
      get_blob_field_payload-segment c.collection_schema blob name seg len
      ∙ rw (h, field_payload) refl

  document_matches-IsStoredFrom :
      (blob : Text) (document : Value D)
      → IsStoredFrom fresh c.collection_schema blob document
      → document_matches c name query blob ≡ document_meets c.collection_schema name query document
  unfolding document_matches document_meets
  document_matches-IsStoredFrom blob document stored =
      elim (Option-cases (get_schema_field_index c.collection_schema name)) [
        | inl missing ↦
            rw (no_layout blob, no_field blob missing, missing, document_matches, document_meets)
              refl
        | inr (r, k) ↦
            rw (no_layout blob, k, document_matches, document_meets)
              (payload_meets stored.fuel r.1 (of_field document r.1)
                (get_blob_field_payload c.collection_schema blob name) (searchable r.0 r.1 k)
                (of_field-IsWithinLimits document r.1 stored.limits)
                (get_blob_field_payload-serialize_document_blob fresh stored.fuel
                  c.collection_schema document blob name r.0 r.1 stored.written stored.short seg len
                  k))
      ]

  scan_documents-ids_meeting :
      (rows : List (StoredDocument × Value D))
      → AreStored fresh c.collection_schema rows
      → scan_documents c name query (documents_of rows)
        ≡ ids_meeting c.collection_schema name query rows
  unfolding scan_documents ids_meeting
  scan_documents-ids_meeting [] stored = refl
  scan_documents-ids_meeting (row ∷ rows) stored =
      rw
        (
          document_matches-IsStoredFrom row.0.blob row.1 stored.0,
          scan_documents-ids_meeting rows stored.1,
        )
        refl

  without_gpu :
      (gpu : Gpu D)
      → gpu_ids gpu c name query ≡ none
      → scan_docs_for_member gpu c name query ≡ some (scan_documents c name query c.documents)
  unfolding scan_docs_for_member
  without_gpu gpu no_gpu = rw (no_gpu, scan_docs_for_member) refl

  -- In a collection without a layout, and where no GPU answers, `scan_docs_for_member` finds exactly the ids
  -- of the documents whose value for the field meets the query, in their order. The name is one segment of
  -- less than 256 bytes, its field is neither embedded nor a list of embedded objects or of lists, each
  -- document's blob is what `serialize_document_blob` returned for its value, of less than 2^32 bytes, its
  -- integers are those of an `int64_t`, and its lists have less than 2^32 elements; a `double` comes back
  -- from its bits.
  pub scan_docs_for_member-ids_meeting :
      (gpu : Gpu D) (rows : List (StoredDocument × Value D))
      → gpu_ids gpu c name query ≡ none
      → c.documents ≡ documents_of rows
      → AreStored fresh c.collection_schema rows
      → scan_docs_for_member gpu c name query
        ≡ some (ids_meeting c.collection_schema name query rows)
  scan_docs_for_member-ids_meeting gpu rows no_gpu same stored =
      without_gpu gpu no_gpu
      ∙ ap (λ ds. some (scan_documents c name query ds)) same
      ∙ ap some (scan_documents-ids_meeting rows stored)
