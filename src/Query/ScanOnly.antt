-- ===== src/Query/ScanOnly.antt =====
-- src/native/apxdb_collection.c: without a GPU and without an index, the scan answers.
use apx_db.Common.{
  ℕ, ◌≡◌, refl, Bool, true, false, List, [], Option, none, some, if◌then◌else◌, Text,
}
use apx_db.Libc.{Doubles}
use apx_db.Json.{Value}
use apx_db.Schema.{Field}
use apx_db.Query.Ids.{Ids}
use apx_db.Query.Member.{find_docs_for_member}
use apx_db.Common.Int.{ℤ}
use apx_db.Collection.Entries.{find_index_data}
use apx_db.Query.Scan.{
  Gpu, gpu_answer, gpu_for_field, gpu_ids, parse_numeric_query_op, apxdb_schema_find_field_path,
}
use apx_db.Collection.{Collection, IndexData}

if_false : {A : Type 0} (b : Bool) (o : Option A) → b ≡ false → (if b then o else none) ≡ none
if_false true o h = cc
if_false false o h = refl

either_none : (b : Bool) (o : Option Ids) → o ≡ none → (if b then o else none) ≡ none
either_none true o h = h
either_none false o h = refl

module _ {D : Type 0} ⦃fp : Doubles D⦄ where
  -- Without a GPU, no answer comes from it.
  gpu_answer-none :
      (gpu : Gpu D) (c : Collection D) (name : Text) (f : Field) (o : Option (ℕ × ℤ))
      → gpu.is_gpu_runtime_available ≡ false
      → gpu_answer gpu c name f o ≡ none
  gpu_answer-none gpu c name f none h = refl
  gpu_answer-none gpu c name f (some (op, z)) h =
      if_false gpu.is_gpu_runtime_available (gpu.gpu_scan_numeric_docs c name f op z) h

  gpu_for_field-none :
      (gpu : Gpu D) (c : Collection D) (name : Text) (query : Value D) (o : Option Field)
      → gpu.is_gpu_runtime_available ≡ false
      → gpu_for_field gpu c name query o ≡ none
  unfolding gpu_for_field
  gpu_for_field-none gpu c name query none h = refl
  gpu_for_field-none gpu c name query (some f) h =
      either_none _ _ (gpu_answer-none gpu c name f (parse_numeric_query_op gpu.to_int32 query) h)

  pub gpu_ids-none :
      (gpu : Gpu D) (c : Collection D) (name : Text) (query : Value D)
      → gpu.is_gpu_runtime_available ≡ false
      → gpu_ids gpu c name query ≡ none
  unfolding gpu_ids
  gpu_ids-none gpu c name query h =
      gpu_for_field-none gpu c name query (apxdb_schema_find_field_path c.collection_schema name) h

  -- Without an index, a member is answered by the scan.
  pub find_docs_for_member-scan :
      (json_value_to_string : Value D → Option Text) (scan : Text → Value D → Option Ids)
      (xs : List (IndexData D)) (name : Text) (query : Value D)
      → xs ≡ []
      → find_docs_for_member json_value_to_string scan xs name query ≡ scan name query
  unfolding find_docs_for_member find_index_data
  find_docs_for_member-scan json_value_to_string scan xs name query h = rw h refl
