-- ===== src/Query/Calls.antt =====
-- src/native/apxdb_collection.c: `apxdb_find_documents` and `apxdb_count_documents`, and the array of the
-- documents that are found. Memory for the result is there; the metrics of a query are not kept.
use apx_db.Common.{
  ◌-◌, ◌^◌, Bool, true, false, List, [], ◌∷◌, ◌++◌, Option, none, some, ltb, if◌then◌else◌, Text,
  codes, length,
}
use apx_db.Common.Int.{ℤ, pos}
use apx_db.Libc.{Doubles}
use apx_db.Json.{Value}
use apx_db.Json.Parser.{apxdb_json_parse}
use apx_db.Blob.Read.{Loads}
use apx_db.Engine.Documents.{contains}
use apx_db.Query.Ids.{Ids}
use apx_db.Query.Combine.{find_docs_by_query, or_empty}
use apx_db.Query.Member.{find_docs_for_member}
use apx_db.Query.Scan.{Gpu, scan_docs_for_member}
use apx_db.Collection.{Collection, StoredDocument, find_document_by_id}
use apx_db.Collection.Transactions.{failure}
use apx_db.Collection.Store.{Store, Files, Blobs, loaded_collection}
use apx_db.Collection.Operations.{parsed, document_text}

-- The texts of an array's documents, with a comma in front of each but the first.
unfoldable append_documents : Bool → List Text → Text
append_documents first [] = []
append_documents true (json ∷ texts) = json ++ append_documents false texts
append_documents false (json ∷ texts) = b',' ∷ (json ++ append_documents false texts)

abbrev in_brackets : Text → Text
in_brackets texts = b'[' ∷ (texts ++ codes "]")

-- `!query || strstr(json, query) != NULL`.
abbrev has_query : Option Text → Text → Bool
has_query none json = true
has_query (some query) json = contains query json

-- `query_json && *query_json`.
abbrev is_given : Option Text → Bool
is_given none = false
is_given (some []) = false
is_given (some (c ∷ query)) = true

abbrev given_text : Option Text → Text
given_text none = []
given_text (some query) = query

abbrev cons_text : Option Text → List Text → List Text
cons_text none texts = texts
cons_text (some json) texts = json ∷ texts

-- The text of a document that matches: by its blob's text, or by the text that it was stored with.
abbrev matched_text : Option Text → Option Text → StoredDocument → Option Text
matched_text none query d = if has_query query d.json then some d.json else none
matched_text (some json) query d =
    if has_query query json then some json else if has_query query d.json then some json else none

module _ {D : Type 0} where
  unfoldable texts_of_ids : Blobs D → Collection D → Ids → List Text
  texts_of_ids blobs c [] = []
  texts_of_ids blobs c (id ∷ ids) =
      let rest = texts_of_ids blobs c ids in
      elim (find_document_by_id c.documents id) [
        | none ↦ rest
        | some d ↦ document_text blobs c d ∷ rest
      ]

  unfoldable build_documents_array_from_ids : Blobs D → Collection D → Ids → Text
  unfolding texts_of_ids append_documents
  build_documents_array_from_ids blobs c ids =
      in_brackets (append_documents true (texts_of_ids blobs c ids))

  -- The text from the document's blob, if there is a layout.
  abbrev blob_json : Blobs D → Collection D → StoredDocument → Option Text
  blob_json blobs c d = elim c.layout [
    | none ↦ none
    | some l ↦ blobs.build_document_json_from_blob c d.blob
  ]

  unfoldable matched_texts : Blobs D → Collection D → Option Text → List StoredDocument → List Text
  matched_texts blobs c query [] = []
  matched_texts blobs c query (d ∷ ds) =
      cons_text (matched_text (blob_json blobs c d) query d) (matched_texts blobs c query ds)

  unfoldable build_documents_array : Blobs D → Collection D → Option Text → Text
  unfolding matched_texts append_documents
  build_documents_array blobs c query =
      in_brackets (append_documents true (matched_texts blobs c query c.documents))

-- `(int32_t)count`, or -1 where it does not fit.
abbrev int32_count : {A : Type 0} → List A → ℤ
int32_count xs = if ltb (2 ^ 31 - 1) (length xs) then failure else pos (length xs)

module _ {D : Type 0} ⦃fp : Doubles D⦄ ⦃ld : Loads D⦄ (files : Files D) (blobs : Blobs D)
    (gpu : Gpu D) (json_value_to_string : Value D → Option Text) where
  -- `find_docs_by_query` on a collection.
  unfoldable pub query_ids : Collection D → Value D → Option Ids
  unfolding find_docs_by_query find_docs_for_member scan_docs_for_member
  query_ids c query =
      find_docs_by_query
        (find_docs_for_member json_value_to_string (scan_docs_for_member gpu c) c.index_data) query

  -- The query's value, if it is given and parses.
  abbrev query_value : Option Text → Option (Value D)
  query_value query_json =
      if is_given query_json then parsed (apxdb_json_parse (given_text query_json)) else none

  -- `NULL` with a count of 0 is an empty result.
  unfoldable find_in : Collection D → Option Text → Text
  unfolding query_ids build_documents_array build_documents_array_from_ids
  find_in c query_json = elim (query_value query_json) [
    | some query ↦ build_documents_array_from_ids blobs c (or_empty (query_ids c query))
    | none ↦ build_documents_array blobs c query_json
  ]

  unfoldable count_in : Collection D → Option Text → ℤ
  unfolding query_ids
  count_in c query_json =
      if is_given query_json
      then elim (query_value query_json) [
        | some query ↦ int32_count (or_empty (query_ids c query))
        | none ↦ failure
      ]
      else int32_count c.documents

  unfoldable apxdb_find_documents : Option Text → Option Text → Store D → Option Text × Store D
  unfolding find_in
  apxdb_find_documents none query_json s = (none, s)
  apxdb_find_documents (some name) query_json s =
      let (found, s') = loaded_collection files (some name) s in
      elim found [ none ↦ (none, s') | some (i, c) ↦ (some (find_in c query_json), s') ]

  unfoldable apxdb_count_documents : Option Text → Option Text → Store D → ℤ × Store D
  unfolding count_in
  apxdb_count_documents none query_json s = (failure, s)
  apxdb_count_documents (some name) query_json s =
      let (found, s') = loaded_collection files (some name) s in
      elim found [ none ↦ (failure, s') | some (i, c) ↦ (count_in c query_json, s') ]
