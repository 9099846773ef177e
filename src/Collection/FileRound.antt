-- ===== src/Collection/FileRound.antt =====
-- src/native/apxdb_collection.c: `load_collection_from_file` on what `save_collection_to_file` wrote.
use apx_db.Common.{
  ℕ, suc, ◌^◌, ◌<◌, ◌≡◌, ◌≢◌, refl, sym, subst, ap, ◌∙◌, true, false, List, [], ◌∷◌, ◌++◌,
  append-nil, append_assoc, Option, some, Text, text_eq, text_eq_refl, length, ◌==◌, All, arith,
}
use apx_db.Libc.{Doubles}
use apx_db.Schema.{collection_name}
use apx_db.Blob.Scalars.{le_bytes}
use apx_db.Blob.Read.{Loads}
use apx_db.Query.Ids.{has_id}
use apx_db.Query.IdLaws.{Distinct}
use apx_db.Collection.{Collection, StoredDocument, document_ids}
use apx_db.Collection.Indexing.{Payloads}
use apx_db.Collection.Operations.{append_document}
use apx_db.Collection.Signature.{compute_schema_signature}
use apx_db.Collection.SignatureBound.{compute_schema_signature-lt}
use apx_db.Query.RowIds.{differs}
use apx_db.Collection.Saved.{
  text_or_empty, sized_text, saved_document, saved_documents, saved_header, collection_magic,
  collection_file_version, collection_file, signature_of, name_text,
}
use apx_db.Collection.Loaded.{
  LoadResult, load_done, load_failed, blob_freed_twice, index_freed, read_bytes_from_file,
  read_uint_from_file, read_some_text, read_document, read_collection_header, load_documents,
  update_document_counter_from_id,
}
use apx_db.Collection.LoadFile.{load_indexes, finish_loading, load_collection}
use apx_db.Collection.ReadBack.{
  read_uint-le_bytes, read_bytes-append, read_some_text-sized_text, read_document-saved_document,
  IsStorableText, IsSavable,
}

-- The counter after all the documents.
unfoldable pub counter_after : List StoredDocument → ℕ → ℕ
counter_after [] counter = counter
counter_after (d ∷ ds) counter = counter_after ds (update_document_counter_from_id d.id counter)

same_number : (n : ℕ) → (n == n) ≡ true
same_number n = ground arith

has_id-document_ids_last :
    (cs : List StoredDocument) (x : StoredDocument) (ds : List StoredDocument)
    → has_id x.id (document_ids (cs ++ x ∷ ds)) ≡ true
unfolding has_id document_ids
has_id-document_ids_last [] x ds = rw (text_eq_refl x.id) refl
has_id-document_ids_last (c ∷ cs) x ds = rw (has_id-document_ids_last cs x ds) (ground arith)

-- The id of a document is not among those in front of it.
not_in_front :
    (cs : List StoredDocument) (x : StoredDocument) (ds : List StoredDocument)
    → Distinct (document_ids (cs ++ x ∷ ds))
    → has_id x.id (document_ids cs) ≡ false
unfolding has_id document_ids
not_in_front [] x ds h = refl
not_in_front (c ∷ cs) x ds h =
    rw
      (
        differs c.id x.id (document_ids (cs ++ x ∷ ds)) h.0 (has_id-document_ids_last cs x ds),
        not_in_front cs x ds h.1,
      )
      refl

four_parts : (a b d e rest : Text) → (a ++ (b ++ (d ++ e))) ++ rest ≡ a ++ (b ++ (d ++ (e ++ rest)))
four_parts a b d e rest =
    append_assoc a (b ++ (d ++ e)) rest
    ∙ ap (λ t. a ++ t) (append_assoc b (d ++ e) rest)
    ∙ ap (λ t. a ++ (b ++ t)) (append_assoc d e rest)

module _ {D : Type 0} where
  header_parts :
      (c0 : Collection D) (s s1 s2 s3 s4 magic name : Text) (signature : ℕ)
      → read_bytes_from_file 8 s ≡ some (magic, s1)
      → text_eq magic collection_magic ≡ true
      → read_uint_from_file 4 s1 ≡ some (2, s2)
      → read_uint_from_file 8 s2 ≡ some (signature, s3)
      → (signature == signature_of c0) ≡ true
      → read_some_text s3 ≡ some (name, s4)
      → text_eq name (name_text c0) ≡ true
      → read_collection_header c0 s ≡ some s4
  unfolding read_collection_header
  header_parts c0 s s1 s2 s3 s4 magic name signature a b d e f g h = rw (a, b, d, e, f, g, h) refl

  header_read :
      (c0 c : Collection D) (rest : Text)
      → c0.collection_schema ≡ c.collection_schema
      → IsStorableText (name_text c)
      → name_text c ≢ []
      → signature_of c < 2 ^ 64
      → read_collection_header c0 (saved_header collection_magic collection_file_version c ++ rest)
        ≡ some rest
  unfolding saved_header
  header_read c0 c rest same fits ne small =
      let name_part = sized_text (name_text c) ++ rest in
      let signed = le_bytes 8 (signature_of c) ++ name_part in
      let versioned = le_bytes 4 2 ++ signed in
      ap (read_collection_header c0) (
        four_parts collection_magic (le_bytes 4 2) (le_bytes 8 (signature_of c))
          (sized_text (name_text c)) rest)
      ∙ header_parts c0 (collection_magic ++ versioned) versioned signed name_part rest
          collection_magic (name_text c) (signature_of c)
          (read_bytes-append collection_magic versioned) (text_eq_refl collection_magic)
          (read_uint-le_bytes 4 2 signed (omega arith))
          (read_uint-le_bytes 8 (signature_of c) name_part small)
          (ap (λ s. signature_of c == compute_schema_signature s) same
            ∙ same_number (signature_of c))
          (read_some_text-sized_text (name_text c) rest fits ne)
          (ap (λ s. text_eq (name_text c) (text_or_empty (collection_name s))) same
            ∙ text_eq_refl (name_text c))

  -- The documents were added to those of `c`, and the counter went up with them.
  record IsLoaded (ds : List StoredDocument) (counter : ℕ) (c : Collection D)
      (r : LoadResult × (ℕ × Collection D)) : Type 0 where
    went_through : r.0 ≡ load_done
    counted : r.1.0 ≡ counter_after ds counter
    added : r.1.1.documents ≡ c.documents ++ ds
    indexes_kept : r.1.1.indexes ≡ c.indexes

  load_step :
      (n : ℕ) (s rest : Text) (x : StoredDocument) (counter : ℕ) (c : Collection D)
      → read_document s ≡ some (x, rest)
      → has_id x.id (document_ids c.documents) ≡ false
      → load_documents (suc n) s counter c
        ≡ load_documents n rest
            (update_document_counter_from_id x.id counter)
            (record c { documents = c.documents ++ x ∷ []; gpu_column_caches = [] })
  unfolding load_documents append_document
  load_step n s rest x counter c a b = rw (a, load_documents) (rw (b, append_document) refl)

  load_documents-saved_documents :
      (ds : List StoredDocument) (rest : Text) (counter : ℕ) (c : Collection D)
      → All IsSavable ds
      → Distinct (document_ids (c.documents ++ ds))
      → IsLoaded ds counter c (load_documents (length ds) (saved_documents ds ++ rest) counter c)
  unfolding saved_documents counter_after
  load_documents-saved_documents [] rest counter c a d = record {
    went_through = unfold load_documents in refl;
    counted = unfold load_documents in refl;
    added = unfold load_documents in sym (append-nil c.documents);
    indexes_kept = unfold load_documents in refl;
  }
  load_documents-saved_documents (x ∷ ds) rest counter c a d =
      let read =
        ap read_document (append_assoc (saved_document x) (saved_documents ds) rest)
        ∙ read_document-saved_document x (saved_documents ds ++ rest) a.0 in
      let step =
        load_step (length ds) (saved_documents (x ∷ ds) ++ rest) (saved_documents ds ++ rest) x
          counter c read (not_in_front c.documents x ds d) in
      let regroup = append_assoc c.documents (x ∷ []) ds in
      let later =
        load_documents-saved_documents ds rest (update_document_counter_from_id x.id counter)
          (record c { documents = c.documents ++ x ∷ []; gpu_column_caches = [] }) a.1
          (subst (λ es. Distinct (document_ids es)) (sym regroup) d) in
      subst (IsLoaded (x ∷ ds) counter c) (sym step) (record {
        went_through = later.went_through;
        counted = later.counted;
        added = later.added ∙ regroup;
        indexes_kept = later.indexes_kept;
      })

-- Loading went through: the documents are those of the file, in their order, and nothing is to be saved.
abbrev pub IsRestored :
    {D : Type 0} → List StoredDocument → ℕ → LoadResult × (ℕ × Collection D) → Type 0
IsRestored ds counter r =
    (r.0 ≡ load_done)
    × (r.1.0 ≡ counter_after ds counter)
    × (r.1.1.documents ≡ ds)
    × (r.1.1.dirty ≡ false)

module _ {D : Type 0} ⦃fp : Doubles D⦄ ⦃ld : Loads D⦄ (payloads : Payloads D) where
  load_indexes-none :
      (index_bytes : Option Text) (c : Collection D)
      → c.indexes ≡ []
      → load_indexes payloads index_bytes c ≡ (load_done, c)
  unfolding load_indexes
  load_indexes-none index_bytes c h =
      let none_there : (length c.indexes == 0) ≡ true = ap (λ xs. length xs == 0) h in
      rw none_there refl

  finish_loading-none :
      (index_bytes : Option Text) (ds : List StoredDocument) (counter : ℕ) (c : Collection D)
      (r : LoadResult × (ℕ × Collection D))
      → IsLoaded ds counter c r
      → c.indexes ≡ []
      → c.documents ≡ []
      → IsRestored ds counter (finish_loading payloads index_bytes r)
  unfolding finish_loading
  finish_loading-none index_bytes ds counter c (load_failed, r) l e k = cc l.went_through
  finish_loading-none index_bytes ds counter c (blob_freed_twice, r) l e k = cc l.went_through
  finish_loading-none index_bytes ds counter c (index_freed, r) l e k = cc l.went_through
  finish_loading-none index_bytes ds counter c (load_done, (n, c')) l e k =
      rw (load_indexes-none index_bytes c' (l.indexes_kept ∙ e))
        (refl, l.counted, l.added ∙ ap (λ es. es ++ ds) k, refl)

  load_collection-parts :
      (s s1 s2 : Text) (count counter : ℕ) (c : Collection D) (index_bytes : Option Text)
      → read_collection_header c s ≡ some s1
      → read_uint_from_file 4 s1 ≡ some (count, s2)
      → load_collection payloads s index_bytes counter c
        ≡ finish_loading payloads index_bytes (load_documents count s2 counter c)
  unfolding load_collection
  load_collection-parts s s1 s2 count counter c index_bytes h k = rw (h, k, load_collection) refl

  -- From the bytes that `save_collection_to_file` writes of a collection, a collection of the same schema
  -- without documents and indexes is loaded with the same documents in the same order, its counter is
  -- raised by each of their ids, and it is not dirty. The ids are distinct and not empty, the name is not
  -- empty, no text has a NUL, and all of them, and the documents, are less than 2^32, a blob less than 2^64
  -- bytes.
  pub load_collection-collection_file :
      (c c0 : Collection D) (index_bytes : Option Text) (counter : ℕ)
      → c0.collection_schema ≡ c.collection_schema
      → c0.documents ≡ []
      → c0.indexes ≡ []
      → IsStorableText (name_text c)
      → name_text c ≢ []
      → length c.documents < 2 ^ 32
      → All IsSavable c.documents
      → Distinct (document_ids c.documents)
      → IsRestored c.documents counter
          (load_collection payloads (collection_file c) index_bytes counter c0)
  unfolding collection_file
  load_collection-collection_file c c0 index_bytes counter same empty no_index fits ne few a d =
      let docs = saved_documents c.documents in
      let counted = le_bytes 4 (length c.documents) ++ docs in
      let loaded =
        load_documents-saved_documents c.documents [] counter c0 a
          (subst (λ es. Distinct (document_ids (es ++ c.documents))) (sym empty) d) in
      subst (IsRestored c.documents counter)
        (sym (
          load_collection-parts _ counted docs (length c.documents) counter c0 index_bytes
            (header_read c0 c counted same fits ne
              (compute_schema_signature-lt c.collection_schema))
            (read_uint-le_bytes 4 (length c.documents) docs few)))
        (finish_loading-none index_bytes c.documents counter c0 _
          (subst
            (λ t.
              IsLoaded c.documents counter c0 (load_documents (length c.documents) t counter c0))
            (append-nil docs) loaded)
          no_index empty)
