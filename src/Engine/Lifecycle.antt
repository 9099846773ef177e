-- ===== src/Engine/Lifecycle.antt =====
-- src/native/apxdb.c: opening, closing, and the GPU backend's status.
use apx_db.Common.{Bool, true, false, Option, none, some, if◌then◌else◌, Text}
use apx_db.Engine.{
  Engine, State, closed, opening, opened, closing, failed, GpuStatus, unavailable, metal_active,
  vulkan_active, init_failed, Code, ok, ok_gpu_fallback, err_already_open, err_not_open,
  err_partial_recovery, err_invalid_argument, err_io, err_unknown, Collections, is_open,
}
use apx_db.Engine.Documents.{free_documents}

-- The four ways in which the preprocessor selects a backend: Apple with and without Objective-C,
-- Android, and any other.
pub data Platform : Type 0 where
  apple_objc apple_c android other : Platform

-- What `stat` says of a path.
pub data Stat : Type 0 where
  is_directory is_file is_missing stat_failed : Stat

-- What a call meets outside of the engine.
pub record Host : Type 0 where
  pub platform : Platform
  pub backend_starts : Bool
  pub stat : Stat
  pub mkdir_succeeds : Bool
  pub path_copied : Bool

unfoldable pub ensure_directory_exists_native : Host → Bool
ensure_directory_exists_native h = elim h.stat [
  | is_directory ↦ true
  | is_file ↦ false
  | is_missing ↦ h.mkdir_succeeds
  | stat_failed ↦ false
]

module _ {S : Type 0} where
  unfoldable pub set_state : State → Engine S → Engine S
  set_state s e = record e { state = s; initialized = is_open s }

  unfoldable pub apxdb_set_gpu_enabled : Bool → Engine S → Engine S
  apxdb_set_gpu_enabled enabled e = record e {
    gpu_force_disabled = if enabled then false else true;
  }

  unfoldable pub cleanup_gpu_backend : Engine S → Engine S
  cleanup_gpu_backend e = record e { gpu_available = false; gpu_status = unavailable }

  abbrev pub started : Bool → GpuStatus → Engine S → Engine S
  started starts active e = record e {
    gpu_available = starts;
    gpu_status = if starts then active else init_failed;
  }

  unfoldable pub start_backend : Platform → Bool → Engine S → Engine S
  unfolding cleanup_gpu_backend
  start_backend apple_objc starts e = started starts metal_active (cleanup_gpu_backend e)
  start_backend apple_c starts e = record e { gpu_available = false; gpu_status = unavailable }
  start_backend android starts e = started starts vulkan_active (cleanup_gpu_backend e)
  start_backend other starts e = record e { gpu_available = false; gpu_status = unavailable }

  unfoldable pub init_gpu_backend : Host → Engine S → Engine S
  unfolding start_backend
  init_gpu_backend h e =
      if e.gpu_force_disabled
      then cleanup_gpu_backend e
      else start_backend h.platform h.backend_starts e

  unfoldable pub initialize_internal : Host → Engine S → Code × Engine S
  unfolding init_gpu_backend free_documents
  initialize_internal h e =
      let e' = init_gpu_backend h (record (free_documents e) { document_counter = 0 }) in
      (if e'.gpu_available then ok else ok_gpu_fallback, e')

  unfoldable pub set_storage_directory : Host → Text → Engine S → Bool × Engine S
  set_storage_directory h path e =
      if h.path_copied then (true, record e { storage_directory = some path }) else (false, e)

  -- The collections and both schema registries are emptied.
  abbrev pub unregister : Collections S → S → S
  unregister c s =
      c.unregister_all_schemas (c.schema_unregister_all (c.collection_unregister_all s))

  abbrev pub saved : Collections S → Option Text → S → S
  saved c none s = s
  saved c (some path) s = c.save_all_collections path s

  unfoldable pub transition_to_closed : Collections S → Engine S → Engine S
  unfolding free_documents cleanup_gpu_backend set_state
  transition_to_closed c e =
      let e' = free_documents (cleanup_gpu_backend e) in
      set_state closed (record e' {
        store = unregister c (saved c e.storage_directory e.store);
        storage_directory = none;
      })

  unfoldable pub cleanup_partial_open : Collections S → Engine S → Engine S
  unfolding free_documents cleanup_gpu_backend
  cleanup_partial_open c e =
      let e' = free_documents (cleanup_gpu_backend e) in
      record e' { store = unregister c e.store; storage_directory = none; initialized = false }

  unfoldable pub apxdb_initialize : Host → Engine S → Code × Engine S
  unfolding initialize_internal set_state
  apxdb_initialize h e = elim e.state [
    | opened ↦ (ok, e)
    | closed ↦
        let (result, e') = initialize_internal h (set_state opening e) in
        (result, set_state opened e')
    | _ ↦ (err_partial_recovery, e)
  ]

  unfoldable pub apxdb_shutdown : Collections S → Engine S → Code × Engine S
  unfolding transition_to_closed
  apxdb_shutdown c e = elim e.state [
    | closed ↦ (ok, e)
    | opening ↦ (err_partial_recovery, e)
    | closing ↦ (err_partial_recovery, e)
    | _ ↦ (ok, transition_to_closed c e)
  ]

  -- `apxdb_open` behind its tests of the state.
  unfoldable pub open_closed : Host → Collections S → Text → Engine S → Code × Engine S
  unfolding initialize_internal set_storage_directory cleanup_partial_open set_state
      ensure_directory_exists_native
  open_closed h c path e =
      let (result, e') = initialize_internal h (set_state opening e) in
      let (stored, e'') = set_storage_directory h path e' in
      if ensure_directory_exists_native h
      then (if stored
          then (result, set_state opened e'')
          else (err_unknown, set_state failed (cleanup_partial_open c e'')))
      else (err_io, set_state failed (set_state opening e))

  unfoldable pub apxdb_open : Host → Collections S → Option Text → Engine S → Code × Engine S
  unfolding open_closed
  apxdb_open h c none e = (err_invalid_argument, e)
  apxdb_open h c (some path) e = elim e.state [
    | opened ↦ (err_already_open, e)
    | closed ↦ open_closed h c path e
    | _ ↦ (err_partial_recovery, e)
  ]

  unfoldable pub apxdb_close : Collections S → Engine S → Code × Engine S
  unfolding transition_to_closed
  apxdb_close c e = elim e.state [
    | closed ↦ (err_not_open, e)
    | opening ↦ (err_partial_recovery, e)
    | closing ↦ (err_partial_recovery, e)
    | _ ↦ (ok, transition_to_closed c e)
  ]
