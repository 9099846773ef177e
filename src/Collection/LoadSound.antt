-- ===== src/Collection/LoadSound.antt =====
-- src/native/apxdb_collection.c: `load_collection_from_file` keeps a collection sound, whatever is in the
-- file and wherever it fails.
use apx_db.Common.{
  ℕ, zero, suc, ◌≡◌, refl, sym, subst, ◌∙◌, Option, some, Bool, true, false, List, [], ◌∷◌, ◌++◌,
  none, ◌>>=◌, inl, inr, Bool-cases, Option-cases, Text, text_eq_refl, length, All, ◌==◌,
  if◌then◌else◌, arith,
}
use apx_db.Libc.{Doubles}
use apx_db.Json.Parser.{apxdb_json_parse}
use apx_db.Blob.Read.{Loads}
use apx_db.Query.Ids.{has_id}
use apx_db.Query.IdLaws.{Distinct-append_one}
use apx_db.Collection.{Collection, StoredDocument, document_ids}
use apx_db.Collection.Sound.{IsSound, IsIndexSound, IsSubset, IsIndexSound-subset}
use apx_db.Collection.Indexing.{Payloads, index_document}
use apx_db.Collection.IndexSound.{index_document-Kept}
use apx_db.Collection.PutDelete.{document_ids-append, IsSubset-append}
use apx_db.Collection.Operations.{append_document, parsed}
use apx_db.Schema.{Schema}
use apx_db.Collection.Loaded.{
  LoadResult, load_done, load_failed, blob_freed_twice, index_freed, refused_document,
  read_document, read_uint_from_file, read_collection_header, load_documents,
  update_document_counter_from_id,
}
use apx_db.Collection.IndexRefused.{load_collection_index_file-none}
use apx_db.Collection.IndexFile.{match_signature, read_index_header}
use apx_db.Collection.LoadFile.{
  indexed_again, index_all, set_clean, load_indexes, finish_loading, load_collection,
}

module _ {D : Type 0} where
  append_document-IsSound :
      (d : StoredDocument) (c : Collection D) → IsSound c → IsSound (append_document d c).1
  unfolding append_document
  append_document-IsSound d c s = elim (Bool-cases (has_id d.id (document_ids c.documents))) [
    | inl e ↦ rw e s
    | inr e ↦ rw e (record {
      distinct =
          rw (document_ids-append c.documents d)
            (Distinct-append_one (document_ids c.documents) d.id s.distinct e);
      indexed = rw (document_ids-append c.documents d) (
          IsIndexSound-subset (document_ids c.documents) (document_ids c.documents ++ d.id ∷ [])
            c.index_data (IsSubset-append (document_ids c.documents) (d.id ∷ [])) s.indexed);
    })
  ]

  -- What the loop over the documents keeps: the collection is sound, and has the schema.
  record IsGoing (sch : Schema) (c : Collection D) : Type 0 where
    sound : IsSound c
    same : c.collection_schema ≡ sch

  by_appended :
      (sch : Schema) (b : Bool) (r : LoadResult) (counter : ℕ) (c : Collection D)
      (later : LoadResult × (ℕ × Collection D))
      → IsGoing sch c
      → IsGoing sch later.1.1
      → IsGoing sch (if b then later else (r, (counter, c))).1.1
  by_appended sch true r counter c later s t = t
  by_appended sch false r counter c later s t = s

  append_document-same :
      (d : StoredDocument) (c : Collection D)
      → (append_document d c).1.collection_schema ≡ c.collection_schema
  unfolding append_document
  append_document-same d c = elim (Bool-cases (has_id d.id (document_ids c.documents))) [
    | inl e ↦ rw e refl
    | inr e ↦ rw e refl
  ]

  load_documents-IsGoing :
      (sch : Schema) (count : ℕ) (bytes : Text) (counter : ℕ) (c : Collection D)
      → IsGoing sch c
      → IsGoing sch (load_documents count bytes counter c).1.1
  unfolding load_documents
  load_documents-IsGoing sch zero bytes counter c s = s
  load_documents-IsGoing sch (suc count) bytes counter c s =
      elim (Option-cases (read_document bytes)) [
        | inl e ↦ rw (e, load_documents) s
        | inr ((d, rest), e) ↦
            let t : IsGoing sch (append_document d c).1 = record {
              sound = append_document-IsSound d c s.sound;
              same = append_document-same d c ∙ s.same;
            } in
            rw (e, load_documents)
              (by_appended sch (append_document d c).0 (refused_document d.blob) counter
                (append_document d c).1
                (load_documents count rest (update_document_counter_from_id d.id counter)
                  (append_document d c).1)
                t (load_documents-IsGoing sch count rest _ (append_document d c).1 t))
      ]

first_id :
    (d : StoredDocument) (ds : List StoredDocument) → has_id d.id (document_ids (d ∷ ds)) ≡ true
unfolding has_id document_ids
first_id d ds = rw (text_eq_refl d.id) refl

later_ids :
    (d : StoredDocument) (ds : List StoredDocument) (ids : List Text)
    → IsSubset (document_ids (d ∷ ds)) ids
    → IsSubset (document_ids ds) ids
unfolding has_id document_ids
later_ids d ds ids sub x h = sub x (ground (arith, h))

module _ {D : Type 0} where
  kept-IsSound :
      (c c' : Collection D)
      → IsSound c
      → All (IsIndexSound (document_ids c.documents)) c'.index_data
      → c'.documents ≡ c.documents
      → IsSound c'
  kept-IsSound c c' s a same = record { distinct = rw same s.distinct; indexed = rw same a }

  by_done :
      (b : Bool) (c : Collection D) (rest : Bool × Collection D)
      → IsSound c
      → IsSound rest.1
      → IsSound (if b then rest else (false, c)).1
  by_done true c rest s t = t
  by_done false c rest s t = s

  again-IsSound : (r : Bool × Collection D) → IsSound r.1 → IsSound (indexed_again r).1
  again-IsSound (done, c) s = s

  clean-IsSound : (r : LoadResult × Collection D) → IsSound r.1 → IsSound (set_clean r).1
  clean-IsSound (load_done, c) s = record { distinct = s.distinct; indexed = s.indexed }
  clean-IsSound (load_failed, c) s = s
  clean-IsSound (blob_freed_twice, c) s = s
  clean-IsSound (index_freed, c) s = s

-- There is no index file, or it is refused by its magic, its version, its name or its signature.
abbrev pub IsRefusedIndex : {D : Type 0} → Option Text → Collection D → Type 0
IsRefusedIndex none c = Unit {0}
IsRefusedIndex (some s) c = read_index_header c s ≡ none

read_index_header-same :
    {D : Type 0} (c c' : Collection D) (s : Text)
    → c'.collection_schema ≡ c.collection_schema
    → read_index_header c' s ≡ read_index_header c s
unfolding read_index_header match_signature
read_index_header-same c c' s same = rw same refl

module _ {D : Type 0} ⦃fp : Doubles D⦄ ⦃ld : Loads D⦄ (payloads : Payloads D) where
  index_all-IsSound :
      (ds : List StoredDocument) (c : Collection D)
      → IsSubset (document_ids ds) (document_ids c.documents)
      → IsSound c
      → IsSound (index_all payloads ds c).1
  unfolding index_all
  index_all-IsSound [] c sub s = s
  index_all-IsSound (d ∷ ds) c sub s =
      elim (Option-cases (parsed (apxdb_json_parse {D = D} ⦃fp = fp⦄ d.json))) [
        | inl e ↦ rw (e, index_all) s
        | inr (v, e) ↦
            let (a, same) =
              index_document-Kept (document_ids c.documents) d.id (sub d.id (first_id d ds))
                payloads d v c refl s.indexed in
            let t = kept-IsSound c (index_document payloads d v c).1 s a same in
            rw (e, index_all)
              (by_done (index_document payloads d v c).0 (index_document payloads d v c).1
                (index_all payloads ds (index_document payloads d v c).1) t
                (index_all-IsSound ds (index_document payloads d v c).1
                  (subst (λ es. IsSubset (document_ids ds) (document_ids es)) (sym same)
                    (later_ids d ds _ sub))
                  t))
      ]

  load_indexes-IsSound :
      (index_bytes : Option Text) (c : Collection D)
      → IsRefusedIndex index_bytes c
      → IsSound c
      → IsSound (load_indexes payloads index_bytes c).1
  unfolding load_indexes
  load_indexes-IsSound none c refused s = elim (Bool-cases (length c.indexes == 0)) [
    | inl e ↦ rw e s
    | inr e ↦ rw e (
        again-IsSound (index_all payloads c.documents c)
          (index_all-IsSound c.documents c (λ x h. h) s))
  ]
  load_indexes-IsSound (some b) c refused s = elim (Bool-cases (length c.indexes == 0)) [
    | inl e ↦ rw e s
    | inr e ↦
        rw (e, load_collection_index_file-none payloads.zero_double c b refused)
          (again-IsSound (index_all payloads c.documents c)
            (index_all-IsSound c.documents c (λ x h. h) s))
  ]

  finish_loading-IsSound :
      (index_bytes : Option Text) (sch : Collection D) (r : LoadResult × (ℕ × Collection D))
      → IsRefusedIndex index_bytes sch
      → IsGoing sch.collection_schema r.1.1
      → IsSound (finish_loading payloads index_bytes r).1.1
  unfolding finish_loading
  finish_loading-IsSound index_bytes sch (load_failed, (counter, c)) refused s = s.sound
  finish_loading-IsSound index_bytes sch (blob_freed_twice, (counter, c)) refused s = s.sound
  finish_loading-IsSound index_bytes sch (index_freed, (counter, c)) refused s = s.sound
  finish_loading-IsSound index_bytes sch (load_done, (counter, c)) refused s =
      clean-IsSound (load_indexes payloads index_bytes c)
        (load_indexes-IsSound index_bytes c (refused_here index_bytes refused) s.sound)
    where
      refused_here : (o : Option Text) → IsRefusedIndex o sch → IsRefusedIndex o c
      refused_here none h = tt
      refused_here (some b) h = read_index_header-same sch c b s.same ∙ h

  -- Whatever bytes the file of a collection has and wherever loading fails, a sound collection is sound
  -- afterwards: its documents have distinct ids, and its indexes hold each id once per entry and only ids
  -- of its documents. There is no index file, or its header is refused. Where the result is
  -- `blob_freed_twice`, that is so up to the second `free`.
  pub load_collection-IsSound :
      (bytes : Text) (index_bytes : Option Text) (counter : ℕ) (c : Collection D)
      → IsRefusedIndex index_bytes c
      → IsSound c
      → IsSound (load_collection payloads bytes index_bytes counter c).1.1
  unfolding load_collection
  load_collection-IsSound bytes index_bytes counter c refused s =
      elim (Option-cases (read_collection_header c bytes >>= λ s1. read_uint_from_file 4 s1)) [
        | inl e ↦ rw (e, load_collection) s
        | inr ((count, rest), e) ↦
            rw (e, load_collection)
              (finish_loading-IsSound index_bytes c (load_documents count rest counter c) refused (
                load_documents-IsGoing c.collection_schema count rest counter c
                  (record { sound = s; same = refl })))
      ]
