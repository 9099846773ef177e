-- ===== src/Engine/Opening.antt =====
-- When src/native/apxdb.c opens and closes, and what is left after a failure.
use apx_db.Common.{
  ◌≡◌, refl, ◌≢◌, ◌⊎◌, inl, inr, Bool, true, false, [], ◌∷◌, Option, none, some, Text, arith,
}
use apx_db.Engine.{
  Engine, closed, opened, failed, unavailable, ok, ok_gpu_fallback, err_not_open, err_io,
  err_unknown, err_partial_recovery, err_invalid_argument, Collections,
}
use apx_db.Engine.Lifecycle.{
  Host, ensure_directory_exists_native, apxdb_set_gpu_enabled, apxdb_initialize, apxdb_shutdown,
  apxdb_open, apxdb_close, unregister, saved,
}
use apx_db.Engine.Invariant.{IsValid}
use apx_db.Engine.Documents.{Memory, create, apxdb_create_document, apxdb_create_document_bytes}

module _ {S : Type 0} (c : Collections S) where
  -- What `apxdb_open` leaves of a closed engine: with a directory that is there or can be made, and
  -- its name copied, an open engine without documents that stores under it; else a failed engine,
  -- which reports an I/O error in the first case and an unknown error in the second, with no
  -- directory; the collections are emptied only in the second.
  pub apxdb_open-closed :
      (h : Host) (path : Text) (e : Engine S)
      → IsValid e
      → e.state ≡ closed
      → let (code, e') = apxdb_open h c (some path) e in
        ((ensure_directory_exists_native h ≡ true)
          × (h.path_copied ≡ true)
          × ((code ≡ ok) ⊎ (code ≡ ok_gpu_fallback))
          × (e'.state ≡ opened)
          × (e'.storage_directory ≡ some path)
          × (e'.documents ≡ [])
          × (e'.document_counter ≡ 0)
          × (e'.store ≡ e.store))
        ⊎ ((ensure_directory_exists_native h ≡ true)
            × (h.path_copied ≡ false)
            × (code ≡ err_unknown)
            × (e'.state ≡ failed)
            × (e'.storage_directory ≡ none)
            × (e'.store ≡ unregister c e.store))
        ⊎ ((ensure_directory_exists_native h ≡ false)
            × (code ≡ err_io)
            × (e'.state ≡ failed)
            × (e'.storage_directory ≡ none)
            × (e'.store ≡ e.store))
  unfolding apxdb_open
  apxdb_open-closed h path e v s = ground arith

  -- `apxdb_close` succeeds exactly on a valid engine that is open or failed. It saves the
  -- collections under the directory, if there is one, before it empties them, and leaves the engine
  -- closed, with no documents and no directory; a closed engine it leaves as it is.
  pub apxdb_close_iff :
      (e : Engine S)
      → IsValid e
      → let (code, e') = apxdb_close c e in
        ((e.state ≢ closed)
          × (code ≡ ok)
          × (e'.state ≡ closed)
          × (e'.documents ≡ [])
          × (e'.storage_directory ≡ none)
          × (e'.gpu_status ≡ unavailable)
          × (e'.store ≡ unregister c (saved c e.storage_directory e.store)))
        ⊎ ((e.state ≡ closed) × (code ≡ err_not_open) × (e' ≡ e))
  unfolding apxdb_close
  apxdb_close_iff e v = ground arith

  open-failed :
      (h : Host) (path : Option Text) (e : Engine S)
      → e.state ≡ failed
      → (apxdb_open h c path e ≡ (err_partial_recovery, e))
        ⊎ ((path ≡ none) × (apxdb_open h c path e ≡ (err_invalid_argument, e)))
  unfolding apxdb_open
  open-failed h none e f = inr (refl, refl)
  open-failed h (some path) e f = inl (rw f refl)

  create-failed :
      (m : Memory) (json : Option Text) (e : Engine S)
      → e.state ≡ failed
      → (apxdb_create_document m json e).1 ≡ e
  unfolding apxdb_create_document create
  create-failed m none e f = refl
  create-failed m (some json) e f = rw f refl

  create_bytes-failed :
      (m : Memory) (bytes : Option Text) (e : Engine S)
      → e.state ≡ failed
      → (apxdb_create_document_bytes m bytes e).1 ≡ e
  unfolding apxdb_create_document_bytes create
  create_bytes-failed m none e f = refl
  create_bytes-failed m (some []) e f = refl
  create_bytes-failed m (some (b ∷ bytes)) e f = rw f refl

  -- Opening and initializing a failed engine returns an error and leaves it as it is, and the calls that
  -- store a document leave it as it is; the switch for the GPU leaves it failed. `apxdb_close` succeeds and
  -- leaves it closed, and `apxdb_shutdown` does the same.
  pub failed_until_closed :
      (h : Host) (path json bytes : Option Text) (m : Memory) (enabled : Bool) (e : Engine S)
      → e.state ≡ failed
      → ((apxdb_open h c path e ≡ (err_partial_recovery, e))
          ⊎ ((path ≡ none) × (apxdb_open h c path e ≡ (err_invalid_argument, e))))
        × (apxdb_initialize h e ≡ (err_partial_recovery, e))
        × ((apxdb_create_document m json e).1 ≡ e)
        × ((apxdb_create_document_bytes m bytes e).1 ≡ e)
        × ((apxdb_set_gpu_enabled enabled e).state ≡ failed)
        × ((apxdb_close c e).0 ≡ ok)
        × ((apxdb_close c e).1.state ≡ closed)
        × (apxdb_shutdown c e ≡ apxdb_close c e)
  unfolding apxdb_initialize apxdb_shutdown apxdb_close apxdb_set_gpu_enabled
  failed_until_closed h path json bytes m enabled e f = (
    open-failed h path e f,
    rw f refl,
    create-failed m json e f,
    create_bytes-failed m bytes e f,
    f,
    rw f refl,
    rw f refl,
    rw f refl,
  )

  -- Opening a closed engine, with any outcome, and closing it again leaves it closed, without
  -- documents and without a directory.
  apxdb_close-apxdb_open :
      (h : Host) (path : Text) (e : Engine S)
      → e.state ≡ closed
      → let e' = (apxdb_close c (apxdb_open h c (some path) e).1).1 in
        (e'.state ≡ closed) × (e'.documents ≡ []) × (e'.storage_directory ≡ none)
  unfolding apxdb_open apxdb_close
  apxdb_close-apxdb_open h path e s = ground arith
