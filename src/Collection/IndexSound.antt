-- ===== src/Collection/IndexSound.antt =====
-- Indexing a document of the collection keeps the indexes sound.
use apx_db.Common.{
  ℕ, zero, suc, ◌≡◌, refl, subst, ◌∙◌, Bool, true, false, ◌&&◌, List, [], ◌∷◌, Option, none, some,
  Text, if◌then◌else◌, All, ltb, leb, length, take, drop, get_elem?, Option-cases, inl, inr,
}
use apx_db.Libc.{Doubles}
use apx_db.Json.{Value, object}
use apx_db.Schema.{Field, type_of, is_sized, apxdb_schema_find_field, element_field}
use apx_db.Blob.Scalars.{scalar_type_size}
use apx_db.Query.Ids.{Ids, has_id}
use apx_db.Collection.{
  Entry, IndexData, IndexDefinition, StoredDocument, Collection, IndexType, by_value, by_hash,
  by_elements,
}
use apx_db.Collection.Entries.{find_index_data, find_index_entry, add_doc_id_to_entry}
use apx_db.Collection.Indexing.{
  Payloads, add_at, add_element_key, add_element_keys, fill_entry, entry_of_key, new_value_entry,
  add_value_key, add_keys, add_index_key, index_field, index_fields, index_document, definitions,
  by_index_type, is_list, read_uint32,
}
use apx_db.Collection.Sound.{
  IsEntrySound, IsIndexSound, All-change_at, All-append_last, add_doc_id_to_entry_sound,
  one_id_sound,
}

All-get_elem? :
    {A : Type 0} (P : A → Type 0) (xs : List A) (i : ℕ) (x : A)
    → All P xs
    → get_elem? xs i ≡ some x
    → P x
All-get_elem? P [] i x a h = cc
All-get_elem? P (y ∷ xs) zero x (p, a) h = subst P (same h) p
  where
    same : some y ≡ some x → y ≡ x
    same k = cc
All-get_elem? P (y ∷ xs) (suc i) x (p, a) h = All-get_elem? P xs i x a h

module _ {D : Type 0} (ids : Ids) (id : Text) (here : has_id id ids ≡ true) where
  add_at_sound :
      (o : Option ℕ) (change : Entry D → Entry D) (new : Entry D) (es : List (Entry D))
      → ((e : Entry D) → IsEntrySound ids e → IsEntrySound ids (change e))
      → IsEntrySound ids new
      → All (IsEntrySound ids) es
      → All (IsEntrySound ids) (add_at o change new es)
  add_at_sound none change new es k p a = All-append_last (IsEntrySound ids) es new a p
  add_at_sound (some i) change new es k p a = All-change_at (IsEntrySound ids) i change es k a

  add_element_key_sound :
      (p : Payloads D) (key : Text) (es : List (Entry D))
      → All (IsEntrySound ids) es
      → All (IsEntrySound ids) (add_element_key p id key es)
  unfolding add_element_key
  add_element_key_sound p key es a =
      add_at_sound (find_index_entry es key) (add_doc_id_to_entry id) _ es
        (λ e. add_doc_id_to_entry_sound ids id e here) (one_id_sound ids id here) a

  either_sound :
      (b : Bool) (r r' : Bool × List (Entry D))
      → All (IsEntrySound ids) r.1
      → All (IsEntrySound ids) r'.1
      → All (IsEntrySound ids) (if b then r else r').1
  either_sound true r r' a a' = a
  either_sound false r r' a a' = a'

  -- What the loop over the elements does with a key.
  abbrev on_key :
      Payloads D
      → List (Entry D)
      → Option Text
      → (List (Entry D) → Bool × List (Entry D))
      → Bool × List (Entry D)
  on_key p es o go = elim o [ none ↦ (false, es) | some key ↦ go (add_element_key p id key es) ]

  on_key_sound :
      (p : Payloads D) (es : List (Entry D)) (o : Option Text)
      (go : List (Entry D) → Bool × List (Entry D))
      → All (IsEntrySound ids) es
      → ((key : Text) → All (IsEntrySound ids) (go (add_element_key p id key es)).1)
      → All (IsEntrySound ids) (on_key p es o go).1
  on_key_sound p es none go a k = a
  on_key_sound p es (some key) go a k = k key

  add_element_keys_sound :
      (p : Payloads D) (f : Field) (count : ℕ) (cursor : Text) (es : List (Entry D))
      → All (IsEntrySound ids) es
      → All (IsEntrySound ids) (add_element_keys p id f count cursor es).1
  unfolding add_element_keys
  add_element_keys_sound p f zero cursor es a = a
  add_element_keys_sound p f (suc count) cursor es a =
      either_sound (is_sized (type_of f) && ltb (length cursor) 4) _ _ a (
        either_sound (ltb (length body) size) _ _ a (
          on_key_sound p es (p.blob_value_to_string f (take size body))
            (add_element_keys p id f count (drop size body)) a
            (λ key.
              add_element_keys_sound p f count (drop size body) (add_element_key p id key es)
                (add_element_key_sound p key es a))))
    where
      body : Text
      body = if is_sized (type_of f) then drop 4 cursor else cursor

      size : ℕ
      size = if is_sized (type_of f) then read_uint32 cursor else scalar_type_size (type_of f)

  add_value_key_sound :
      ⦃fp : Doubles D⦄ (zero_double : D) (key : Text) (numeric : Option D) (es : List (Entry D))
      → All (IsEntrySound ids) es
      → All (IsEntrySound ids) (add_value_key zero_double id key numeric es)
  unfolding add_value_key
  add_value_key_sound zero_double key numeric es a =
      add_at_sound (entry_of_key es key numeric) _ (new_value_entry key zero_double numeric id) es
        (λ e s. add_doc_id_to_entry_sound ids id (fill_entry key numeric e) here s)
        (new_sound numeric) a
    where
      new_sound : (o : Option D) → IsEntrySound ids (new_value_entry key zero_double o id)
      new_sound none = one_id_sound ids id here
      new_sound (some d) = one_id_sound ids id here

  add_keys_sound :
      ⦃fp : Doubles D⦄ (p : Payloads D) (f : Field) (payload : Text) (x : IndexData D)
      → IsIndexSound ids x
      → All (IsEntrySound ids) (add_keys p id f payload x).1
  unfolding add_keys
  add_keys_sound p f payload x a =
      by_type-sound x.definition.index_type _ _
        (either_sound (is_list f && leb 4 (length payload)) _ _
          (add_element_keys_sound p (element_field f) (read_uint32 payload) (drop 4 payload)
            x.entries a)
          a)
        (by_key (p.blob_value_to_string f payload))
    where
      by_type-sound :
          (t : IndexType) (r r' : Bool × List (Entry D))
          → All (IsEntrySound ids) r.1
          → All (IsEntrySound ids) r'.1
          → All (IsEntrySound ids) (by_index_type t r r').1
      by_type-sound by_elements r r' k l = k
      by_type-sound by_value r r' k l = l
      by_type-sound by_hash r r' k l = l

      keyed : Option Text → Bool × List (Entry D)
      keyed o = elim o [
        | none ↦ (false, x.entries)
        | some key ↦ (
          true,
          add_value_key p.zero_double id key (p.blob_payload_to_double f payload) x.entries,
        )
      ]

      by_key : (o : Option Text) → All (IsEntrySound ids) (keyed o).1
      by_key none = a
      by_key (some key) =
          add_value_key_sound p.zero_double key (p.blob_payload_to_double f payload) x.entries a

  add_index_key-sound :
      ⦃fp : Doubles D⦄ (p : Payloads D) (name : Text) (f : Field) (payload : Text)
      (xs : List (IndexData D))
      → All (IsIndexSound ids) xs
      → All (IsIndexSound ids) (add_index_key p id name f payload xs).1
  unfolding add_index_key
  add_index_key-sound p name f payload xs a = elim (Option-cases (find_index_data xs name)) [
    | inl e ↦ rw (e, add_index_key) a
    | inr (i, e) ↦ elim (Option-cases (get_elem? xs i)) [
      | inl g ↦ rw (e, g, add_index_key) a
      | inr (x, g) ↦
          rw (e, g, add_index_key)
            (All-change_at (IsIndexSound ids) i _ xs
              (λ y s. add_keys_sound p f payload x (All-get_elem? (IsIndexSound ids) xs i x a g)) a)
    ]
  ]

  -- What indexing keeps of a collection.
  abbrev Kept : Collection D → Collection D → Type 0
  Kept c c' = All (IsIndexSound ids) c'.index_data × (c'.documents ≡ c.documents)

  index_field-Kept :
      ⦃fp : Doubles D⦄ (p : Payloads D) (doc : StoredDocument) (d : IndexDefinition)
      (c : Collection D)
      → doc.id ≡ id
      → All (IsIndexSound ids) c.index_data
      → Kept c (index_field p doc d c).1
  unfolding index_field
  index_field-Kept p doc d c e a =
      elim (Option-cases (apxdb_schema_find_field c.collection_schema d.field_name)) [
        | inl g ↦ rw (g, index_field) (a, refl)
        | inr (_, g) ↦
            elim (Option-cases (p.get_collection_blob_field_payload c doc.blob d.field_name)) [
              | inl h ↦ rw (g, h, index_field) (a, refl)
              | inr ((f, payload), h) ↦
                  rw (g, h, e, index_field)
                    (add_index_key-sound p d.field_name f payload c.index_data a, refl)
            ]
      ]

  index_fields-Kept :
      ⦃fp : Doubles D⦄ (p : Payloads D) (doc : StoredDocument) (ds : List IndexDefinition)
      (c : Collection D)
      → doc.id ≡ id
      → All (IsIndexSound ids) c.index_data
      → Kept c (index_fields p doc ds c).1
  unfolding index_fields
  index_fields-Kept p doc [] c e a = (a, refl)
  index_fields-Kept p doc (d ∷ ds) c e a =
      let c' = (index_field p doc d c).1 in
      let (a', same) = index_field-Kept p doc d c e a in
      let (a'', same') = index_fields-Kept p doc ds c' e a' in
      by_done (index_field p doc d c).0 (a', same) (a'', same' ∙ same)
    where
      by_done :
          (b : Bool)
          → Kept c (index_field p doc d c).1
          → Kept c (index_fields p doc ds (index_field p doc d c).1).1
          → Kept c
              (if b
                then index_fields p doc ds (index_field p doc d c).1
                else (false, (index_field p doc d c).1)).1
      by_done true k l = l
      by_done false k l = k

  -- Indexing a document of the collection keeps the indexes sound, and the documents.
  pub index_document-Kept :
      ⦃fp : Doubles D⦄ (p : Payloads D) (doc : StoredDocument) (v : Value D) (c : Collection D)
      → doc.id ≡ id
      → All (IsIndexSound ids) c.index_data
      → All (IsIndexSound ids) (index_document p doc v c).1.index_data
        × ((index_document p doc v c).1.documents ≡ c.documents)
  unfolding index_document
  index_document-Kept p doc (object ms) c e a =
      index_fields-Kept p doc (definitions c.index_data) c e a
  index_document-Kept p doc _ c e a = (a, refl)
