-- ===== src/Examples/Engine.antt =====
-- Calls of the engine.
use apx_db.Common.{
  ℕ, ◌+◌, ◌≡◌, ◌≢◌, ◌⊎◌, refl, ◌&&◌, true, false, [], ◌∷◌, none, some, Text, codes, text_eq, arith,
}
use apx_db.Engine.{
  Engine, closed, opened, failed, unavailable, Document, Collections, ok, ok_gpu_fallback,
  err_not_open, err_io, err_unknown, err_partial_recovery, err_invalid_argument, start,
}
use apx_db.Libc.Decimal.{decimal, decimal_ℤ}
use apx_db.Engine.Documents.{
  Memory, to_int32, document_id, contains, apxdb_create_document, apxdb_create_document_bytes,
  apxdb_get_document_bytes, apxdb_find_document,
}
use apx_db.Engine.Lifecycle.{
  Host, android, is_directory, is_file, ensure_directory_exists_native, unregister, saved,
  apxdb_open, apxdb_close, apxdb_initialize, apxdb_shutdown, apxdb_set_gpu_enabled,
}
use apx_db.Engine.Invariant.{
  IsValid, Reach, opens, create_json, create_bytes, here, then_step, Reach-IsValid,
}
use apx_db.Engine.Opening.{apxdb_open-closed, apxdb_close_iff, failed_until_closed}
use apx_db.Engine.Lookup.{
  Numbered, get_document_bytes-create, find_document-create, find_document-create_hidden,
}
use apx_db.Engine.Numbering.{Rising, Reach-Rising}

-- A store that counts what was saved and emptied.
abbrev counting : Collections ℕ
counting = record {
  save_all_collections = λ path n. n + 1;
  collection_unregister_all = λ n. n + 10;
  schema_unregister_all = λ n. n + 100;
  unregister_all_schemas = λ n. n + 1000;
}

abbrev good_host : Host
good_host = record {
  platform = android;
  backend_starts = true;
  stat = is_directory;
  mkdir_succeeds = true;
  path_copied = true;
}

abbrev bad_host : Host
bad_host = record good_host { stat = is_file }

abbrev enough_memory : Memory
enough_memory = record { grows = true; copies = true }

abbrev data_path : Text
data_path = codes "/data"

-- The engine after opening, and after two documents.
abbrev opened_engine : Engine ℕ
opened_engine = (apxdb_open good_host counting (some data_path) (start 0)).1

abbrev two_documents : Engine ℕ
two_documents =
    (apxdb_create_document_bytes enough_memory (some (1 ∷ 2 ∷ []))
      (apxdb_create_document enough_memory (some (codes "{\"next\":\"doc_3\"}")) opened_engine).1).1

two_documents-Reach : Reach counting (start 0) two_documents
two_documents-Reach =
    then_step
      (then_step (then_step here (opens good_host (some data_path)))
        (create_json enough_memory (some (codes "{\"next\":\"doc_3\"}"))))
      (create_bytes enough_memory (some (1 ∷ 2 ∷ [])))

Reach-IsValid_example : IsValid two_documents
Reach-IsValid_example = Reach-IsValid counting 0 two_documents-Reach

two_documents-IsValid : IsValid two_documents
two_documents-IsValid = Reach-IsValid counting 0 two_documents-Reach

two_documents-counter : two_documents.document_counter ≡ 2
unfolding apxdb_open apxdb_create_document apxdb_create_document_bytes
two_documents-counter = refl

Reach-Rising_example : Rising 0 two_documents.document_counter two_documents.documents
Reach-Rising_example =
    Reach-Rising counting 0 two_documents-Reach (omega (arith, two_documents-counter))

abbrev closed_engine : Engine ℕ
closed_engine = start 5

closed_engine-IsValid : IsValid closed_engine
closed_engine-IsValid = ground arith

-- A directory whose path is a file.
apxdb_open-closed_example :
    let (code, e') = apxdb_open bad_host counting (some data_path) closed_engine in
    ((ensure_directory_exists_native bad_host ≡ true)
      × (bad_host.path_copied ≡ true)
      × ((code ≡ ok) ⊎ (code ≡ ok_gpu_fallback))
      × (e'.state ≡ opened)
      × (e'.storage_directory ≡ some data_path)
      × (e'.documents ≡ [])
      × (e'.document_counter ≡ 0)
      × (e'.store ≡ closed_engine.store))
    ⊎ ((ensure_directory_exists_native bad_host ≡ true)
        × (bad_host.path_copied ≡ false)
        × (code ≡ err_unknown)
        × (e'.state ≡ failed)
        × (e'.storage_directory ≡ none)
        × (e'.store ≡ unregister counting closed_engine.store))
    ⊎ ((ensure_directory_exists_native bad_host ≡ false)
        × (code ≡ err_io)
        × (e'.state ≡ failed)
        × (e'.storage_directory ≡ none)
        × (e'.store ≡ closed_engine.store))
apxdb_open-closed_example =
    apxdb_open-closed counting bad_host data_path closed_engine closed_engine-IsValid refl

apxdb_close_iff_example :
    let (code, e') = apxdb_close counting two_documents in
    ((two_documents.state ≢ closed)
      × (code ≡ ok)
      × (e'.state ≡ closed)
      × (e'.documents ≡ [])
      × (e'.storage_directory ≡ none)
      × (e'.gpu_status ≡ unavailable)
      × (e'.store
          ≡ unregister counting
              (saved counting two_documents.storage_directory two_documents.store)))
    ⊎ ((two_documents.state ≡ closed) × (code ≡ err_not_open) × (e' ≡ two_documents))
apxdb_close_iff_example = apxdb_close_iff counting two_documents two_documents-IsValid

abbrev failed_engine : Engine ℕ
failed_engine = record closed_engine { state = failed }

failed_until_closed_example :
    ((apxdb_open good_host counting (some data_path) failed_engine
        ≡ (err_partial_recovery, failed_engine))
      ⊎ ((some data_path ≡ none)
          × (apxdb_open good_host counting (some data_path) failed_engine
              ≡ (err_invalid_argument, failed_engine))))
    × (apxdb_initialize good_host failed_engine ≡ (err_partial_recovery, failed_engine))
    × ((apxdb_create_document enough_memory (some (codes "{}")) failed_engine).1 ≡ failed_engine)
    × ((apxdb_create_document_bytes enough_memory (some (7 ∷ [])) failed_engine).1 ≡ failed_engine)
    × ((apxdb_set_gpu_enabled false failed_engine).state ≡ failed)
    × ((apxdb_close counting failed_engine).0 ≡ ok)
    × ((apxdb_close counting failed_engine).1.state ≡ closed)
    × (apxdb_shutdown counting failed_engine ≡ apxdb_close counting failed_engine)
failed_until_closed_example =
    failed_until_closed counting good_host (some data_path) (some (codes "{}")) (some (7 ∷ []))
      enough_memory false failed_engine refl

-- A document whose text is the next id.
abbrev hiding_document : Document
hiding_document = record { id = document_id 1; bytes = codes "see doc_2"; is_json = true }

abbrev hiding_engine : Engine ℕ
hiding_engine = record closed_engine {
  state = opened;
  documents = hiding_document ∷ [];
  document_counter = 1;
}

hiding_engine-Numbered : Numbered 0 1 (hiding_document ∷ [])
hiding_engine-Numbered = (1, omega arith, refl, omega arith)

get_document_bytes-create_example :
    let (id, e') = apxdb_create_document_bytes enough_memory (some (7 ∷ [])) hiding_engine in
    (apxdb_get_document_bytes (some id) e' ≡ some (7 ∷ []))
    × ((other : Text)
        → text_eq id other ≡ false
        → apxdb_get_document_bytes (some other) e'
          ≡ apxdb_get_document_bytes (some other) hiding_engine)
    × Numbered 0 e'.document_counter e'.documents
get_document_bytes-create_example =
    get_document_bytes-create enough_memory 7 [] hiding_engine refl hiding_engine-Numbered
      (omega arith) refl refl

abbrev quiet_document : Document
quiet_document = record { id = document_id 1; bytes = codes "{}"; is_json = true }

abbrev quiet_engine : Engine ℕ
quiet_engine = record closed_engine {
  state = opened;
  documents = quiet_document ∷ [];
  document_counter = 1;
}

quiet_document-Silent :
    (quiet_document.is_json && contains (document_id 2) quiet_document.bytes) ≡ false
unfolding contains document_id decimal_ℤ to_int32 decimal
quiet_document-Silent = refl

find_document-create_example :
    let (id, e') = apxdb_create_document enough_memory (some (codes "[1]")) quiet_engine in
    apxdb_find_document (some id) e' ≡ codes "[1]"
find_document-create_example =
    find_document-create enough_memory (codes "[1]") quiet_engine refl
      (1, omega arith, refl, omega arith) (omega arith) refl refl (quiet_document-Silent, tt)

hiding_document-contains : contains (document_id 2) hiding_document.bytes ≡ true
unfolding contains document_id decimal_ℤ to_int32 decimal
hiding_document-contains = refl

find_document-create_hidden_example :
    let (id, e') = apxdb_create_document enough_memory (some (codes "[1]")) hiding_engine in
    apxdb_find_document (some id) e' ≡ hiding_document.bytes
find_document-create_hidden_example =
    find_document-create_hidden enough_memory (codes "[1]") hiding_engine hiding_document [] refl
      refl hiding_engine-Numbered (omega arith) refl refl refl hiding_document-contains
