-- ===== src/Collection/Indexing.antt =====
-- src/native/apxdb_collection.c: a document into the indexes of its collection.
use apx_db.Common.{
  ℕ, zero, suc, ◌+◌, ◌*◌, Bool, true, false, ◌&&◌, List, [], ◌∷◌, ◌++◌, Option, none, some, Text,
  if◌then◌else◌, ltb, leb, length, take, drop, get_elem?, peek, advance,
}
use apx_db.Libc.{Doubles}
use apx_db.Schema.{Field, list_of, type_of, element_field, apxdb_schema_find_field, is_sized}
use apx_db.Blob.Scalars.{scalar_type_size}
use apx_db.Json.{Value, object}
use apx_db.Collection.{
  IndexType, Entry, IndexData, IndexDefinition, StoredDocument, Collection, by_elements, change_at,
}
use apx_db.Collection.Entries.{
  find_index_data, find_index_entry, find_index_entry_by_numeric, add_doc_id_to_entry,
}

-- The functions on the bytes of a field that this component uses.
pub record Payloads (D : Type 0) : Type 0 where
  pub blob_value_to_string : Field → Text → Option Text
  pub blob_payload_to_double : Field → Text → Option D
  pub get_collection_blob_field_payload : Collection D → Text → Text → Option (Field × Text)
  -- What stands in the two numeric fields of an entry that was just allocated.
  pub uninitialised : Bool × D
  -- `0.0`.
  pub zero_double : D

-- `memcpy` into a `uint32_t`, of the four bytes in front.
abbrev pub read_uint32 : Text → ℕ
read_uint32 s =
    peek s
    + 256
      * (peek (advance s)
          + 256 * (peek (advance (advance s)) + 256 * peek (advance (advance (advance s)))))

abbrev pub is_list : Field → Bool
is_list f = elim (type_of f) [ list_of ↦ true | _ ↦ false ]

abbrev pub by_index_type : {A : Type 0} → IndexType → A → A → A
by_index_type by_elements elements whole = elements
by_index_type _ elements whole = whole

abbrev pub or_else : Option ℕ → Option ℕ → Option ℕ
or_else none b = b
or_else (some i) b = some i

module _ {D : Type 0} where
  abbrev new_entry : Text → Bool → D → Text → Entry D
  new_entry key numeric? numeric id = record {
    key = some key;
    has_numeric_key = numeric?;
    numeric_key = numeric;
    doc_ids = id ∷ [];
  }

  -- The entry at a position gets the id, or a new one at the end.
  abbrev pub add_at : Option ℕ → (Entry D → Entry D) → Entry D → List (Entry D) → List (Entry D)
  add_at none change new es = es ++ new ∷ []
  add_at (some i) change new es = change_at i change es

  -- The body of the loop over a list's elements.
  unfoldable pub add_element_key : Payloads D → Text → Text → List (Entry D) → List (Entry D)
  add_element_key p id key es =
      add_at (find_index_entry es key) (add_doc_id_to_entry id)
        (new_entry key p.uninitialised.0 p.uninitialised.1 id) es

  -- The loop, with the elements that are left and `cursor`; the result says whether it went through.
  unfoldable pub add_element_keys :
      Payloads D → Text → Field → ℕ → Text → List (Entry D) → Bool × List (Entry D)
  add_element_keys p id f zero cursor es = (true, es)
  add_element_keys p id f (suc count) cursor es =
      let body = if is_sized (type_of f) then drop 4 cursor else cursor in
      let size =
        if is_sized (type_of f) then read_uint32 cursor else scalar_type_size (type_of f) in
      let go = add_element_keys p id f count (drop size body) in
      if is_sized (type_of f) && ltb (length cursor) 4
      then (false, es)
      else if ltb (length body) size
      then (false, es)
      else elim (p.blob_value_to_string f (take size body)) [
        | none ↦ (false, es)
        | some key ↦ go (add_element_key p id key es)
      ]

  -- A key of an entry that has none, and a numeric key of one that has none.
  abbrev pub fill_entry : Text → Option D → Entry D → Entry D
  fill_entry key numeric e = record {
    key = elim e.key [ none ↦ some key | some k ↦ some k ];
    has_numeric_key = elim numeric [ none ↦ e.has_numeric_key | some d ↦ true ];
    numeric_key = elim numeric [
      | none ↦ e.numeric_key
      | some d ↦ if e.has_numeric_key then e.numeric_key else d
    ];
    doc_ids = e.doc_ids;
  }

  abbrev pub entry_of_key : ⦃fp : Doubles D⦄ → List (Entry D) → Text → Option D → Option ℕ
  entry_of_key es key none = find_index_entry es key
  entry_of_key es key (some d) =
      or_else (find_index_entry_by_numeric es d) (find_index_entry es key)

  abbrev pub new_value_entry : Text → D → Option D → Text → Entry D
  new_value_entry key zero_double none id = new_entry key false zero_double id
  new_value_entry key zero_double (some d) id = new_entry key true d id

  -- The index of one value for each document.
  unfoldable pub add_value_key :
      ⦃fp : Doubles D⦄ → D → Text → Text → Option D → List (Entry D) → List (Entry D)
  add_value_key zero_double id key numeric es =
      add_at (entry_of_key es key numeric) (λ e. add_doc_id_to_entry id (fill_entry key numeric e))
        (new_value_entry key zero_double numeric id) es

  -- The entries of the index that `add_index_key` found.
  unfoldable pub add_keys :
      ⦃fp : Doubles D⦄ → Payloads D → Text → Field → Text → IndexData D → Bool × List (Entry D)
  add_keys p id f payload x =
      let elements =
        add_element_keys p id (element_field f) (read_uint32 payload) (drop 4 payload) x.entries in
      let whole : Bool × List (Entry D) = elim (p.blob_value_to_string f payload) [
        | none ↦ (false, x.entries)
        | some key ↦ (
          true,
          add_value_key p.zero_double id key (p.blob_payload_to_double f payload) x.entries,
        )
      ] in
      by_index_type x.definition.index_type
        (if is_list f && leb 4 (length payload) then elements else (false, x.entries)) whole

  abbrev pub with_entries : List (Entry D) → IndexData D → IndexData D
  with_entries es x = record x { entries = es }

  unfoldable pub add_index_key :
      ⦃fp : Doubles D⦄
      → Payloads D
      → Text
      → Text
      → Field
      → Text
      → List (IndexData D)
      → Bool × List (IndexData D)
  add_index_key p id name f payload xs = elim (find_index_data xs name) [
    | none ↦ (false, xs)
    | some i ↦ elim (get_elem? xs i) [
      | none ↦ (false, xs)
      | some x ↦
          let (done, es) = add_keys p id f payload x in (done, change_at i (with_entries es) xs)
    ]
  ]

  -- A round of the loop of `index_document`. A field that the schema has not, or of which the blob has
  -- no payload, is passed over.
  unfoldable pub index_field :
      ⦃fp : Doubles D⦄
      → Payloads D
      → StoredDocument
      → IndexDefinition
      → Collection D
      → Bool × Collection D
  index_field p doc d c = elim (apxdb_schema_find_field c.collection_schema d.field_name) [
    | none ↦ (true, c)
    | some _ ↦ elim (p.get_collection_blob_field_payload c doc.blob d.field_name) [
      | none ↦ (true, c)
      | some (f, payload) ↦
          let (done, xs) = add_index_key p doc.id d.field_name f payload c.index_data in
          (done, record c { index_data = xs })
    ]
  ]

  unfoldable pub index_fields :
      ⦃fp : Doubles D⦄
      → Payloads D
      → StoredDocument
      → List IndexDefinition
      → Collection D
      → Bool × Collection D
  index_fields p doc [] c = (true, c)
  index_fields p doc (d ∷ ds) c =
      let (done, c') = index_field p doc d c in
      let rest = index_fields p doc ds c' in if done then rest else (false, c')

  abbrev pub definitions : List (IndexData D) → List IndexDefinition
  definitions [] = []
  definitions (x ∷ xs) = x.definition ∷ definitions xs

  -- The document is the one at `doc_index`.
  unfoldable pub index_document :
      ⦃fp : Doubles D⦄ → Payloads D → StoredDocument → Value D → Collection D → Bool × Collection D
  index_document p doc (object ms) c = index_fields p doc (definitions c.index_data) c
  index_document p doc _ c = (false, c)
