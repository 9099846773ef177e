-- ===== src/Query/Answers.antt =====
-- src/native/apxdb_collection.c: a query of a collection without an index and without a layout finds the
-- documents whose values satisfy it.
use apx_db.Common.{
  ℕ, ◌≡◌, subst, ap, ◌∙◌, true, false, List, [], Option, none, some, Text, get_elem?,
}
use apx_db.Libc.{Doubles}
use apx_db.Json.{Value}
use apx_db.Blob.Scalars.{Stores}
use apx_db.Blob.Read.{Loads}
use apx_db.Blob.Bytes.{Exact}
use apx_db.Query.Ids.{has_id}
use apx_db.Query.IdLaws.{Distinct}
use apx_db.Query.Combine.{or_empty}
use apx_db.Query.Matches.{has_empty_and}
use apx_db.Query.Meaning.{find_docs_by_query-matches}
use apx_db.Query.Member.{find_docs_for_member}
use apx_db.Query.Scan.{Gpu, scan_docs_for_member}
use apx_db.Query.ScanMeets.{
  document_meets, documents_of, AreStored, scan_docs_for_member-ids_meeting,
}
use apx_db.Query.Satisfies.{satisfies, asks_only, matches-satisfies}
use apx_db.Query.Calls.{query_ids}
use apx_db.Collection.{Collection, StoredDocument, document_ids}
use apx_db.Collection.Store.{Files, Blobs}
use apx_db.Query.Searchable.{is_searchable, is_searchable_parts}
use apx_db.Query.ScanOnly.{gpu_ids-none, find_docs_for_member-scan}
use apx_db.Query.RowIds.{has_id-ids_meeting}

module _ {D : Type 0} ⦃fp : Doubles D⦄ ⦃st : Stores D⦄ ⦃ld : Loads D⦄ ⦃ex : Exact D⦄ (fresh : ℕ → ℕ)
    (files : Files D) (blobs : Blobs D) (gpu : Gpu D) (json_value_to_string : Value D → Option Text)
    (c : Collection D) (rows : List (StoredDocument × Value D)) (no_layout : c.layout ≡ none)
    (no_index : c.index_data ≡ []) (no_gpu : gpu.is_gpu_runtime_available ≡ false)
    (same : c.documents ≡ documents_of rows) (stored : AreStored fresh c.collection_schema rows)
    (distinct : Distinct (document_ids c.documents)) where
  find_docs_for_member-meets :
      (i : ℕ) (row : StoredDocument × Value D) (name : Text) (query : Value D)
      → get_elem? rows i ≡ some row
      → is_searchable c.collection_schema name ≡ true
      → has_id row.0.id (
          or_empty (
            find_docs_for_member json_value_to_string
              (scan_docs_for_member gpu c)
              c.index_data
              name
              query))
        ≡ document_meets c.collection_schema name query row.1
  find_docs_for_member-meets i row name query h ok =
      let parts = is_searchable_parts c.collection_schema name ok in
      ap (λ o. has_id row.0.id (or_empty o))
        (find_docs_for_member-scan json_value_to_string (scan_docs_for_member gpu c) c.index_data
            name query no_index
          ∙ scan_docs_for_member-ids_meeting fresh c name query parts.0 parts.1 no_layout parts.2
              gpu rows (gpu_ids-none gpu c name query no_gpu) same stored)
      ∙ has_id-ids_meeting c.collection_schema name query rows i row
          (subst (λ ds. Distinct (document_ids ds)) same distinct) h

  -- In a collection without a layout, an index and a GPU, a query finds a document exactly when the
  -- document's value satisfies it: all members of an object, all children of `$and`, some child of `$or`,
  -- and for a field what its value meets. The ids are distinct; the blobs are what
  -- `serialize_document_blob` returned for the values, within the limits of 64-bit integers, of 2^32 bytes
  -- and of 2^32 elements; the query has no empty `$and` and asks only for names of one segment of less
  -- than 256 bytes, whose fields, if there are any, are neither embedded nor lists of embedded objects or
  -- of lists; a `double` comes back from its bits.
  pub has_id-query_ids :
      (i : ℕ) (row : StoredDocument × Value D) (query : Value D)
      → get_elem? rows i ≡ some row
      → has_empty_and query ≡ false
      → asks_only (is_searchable c.collection_schema) query ≡ true
      → has_id row.0.id (or_empty (query_ids files blobs gpu json_value_to_string c query))
        ≡ satisfies (λ name v. document_meets c.collection_schema name v row.1) query
  unfolding query_ids
  has_id-query_ids i row query h regular ok =
      find_docs_by_query-matches
        (find_docs_for_member json_value_to_string (scan_docs_for_member gpu c) c.index_data)
        row.0.id query regular
      ∙ matches-satisfies
          (find_docs_for_member json_value_to_string (scan_docs_for_member gpu c) c.index_data)
          row.0.id (λ name v. document_meets c.collection_schema name v row.1)
          (is_searchable c.collection_schema)
          (λ name v ok. find_docs_for_member-meets i row name v h ok) query ok
