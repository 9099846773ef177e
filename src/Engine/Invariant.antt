-- ===== src/Engine/Invariant.antt =====
-- The states that the calls of src/native/apxdb.c reach, and what holds in each.
use apx_db.Common.{
  ◌≤◌, ◌≡◌, ◌⊎◌, Bool, true, false, [], ◌∷◌, Option, none, some, Text, arith, length, length-append,
}
use apx_db.Engine.{
  Engine, closed, opened, failed, unavailable, metal_active, vulkan_active, init_failed,
  Collections, is_open, start,
}
use apx_db.Engine.Documents.{
  Memory, new_document, create, apxdb_create_document, apxdb_create_document_bytes,
}
use apx_db.Engine.Lifecycle.{
  Host, apxdb_set_gpu_enabled, apxdb_initialize, apxdb_shutdown, apxdb_open, apxdb_close,
}

-- Between two calls the engine is closed, open or failed; it counts as initialized exactly when it
-- is open; only then has it documents or a directory; the table of documents is within its
-- capacity; and the backend's status agrees with whether the backend is there.
pub record IsValid {S : Type 0} (e : Engine S) : Type 0 where
  pub settled : (e.state ≡ closed) ⊎ (e.state ≡ opened) ⊎ (e.state ≡ failed)
  pub initialized_iff : e.initialized ≡ is_open e.state
  pub no_documents : (e.state ≡ opened) ⊎ ((e.documents ≡ []) × (e.storage_directory ≡ none))
  pub within : length e.documents ≤ e.document_capacity
  pub gpu :
      ((e.gpu_available ≡ true) × ((e.gpu_status ≡ metal_active) ⊎ (e.gpu_status ≡ vulkan_active)))
      ⊎ ((e.gpu_available ≡ false) × ((e.gpu_status ≡ unavailable) ⊎ (e.gpu_status ≡ init_failed)))

module _ {S : Type 0} where
  start-IsValid : (store : S) → IsValid (start store)
  start-IsValid store = ground arith

  apxdb_close-IsValid : (c : Collections S) (e : Engine S) → IsValid e → IsValid (apxdb_close c e).1
  unfolding apxdb_close
  apxdb_close-IsValid c e v = ground arith

  apxdb_shutdown-IsValid :
      (c : Collections S) (e : Engine S) → IsValid e → IsValid (apxdb_shutdown c e).1
  unfolding apxdb_shutdown
  apxdb_shutdown-IsValid c e v = ground arith

  apxdb_initialize-IsValid :
      (h : Host) (e : Engine S) → IsValid e → IsValid (apxdb_initialize h e).1
  unfolding apxdb_initialize
  apxdb_initialize-IsValid h e v = ground arith

  apxdb_open-IsValid :
      (h : Host) (c : Collections S) (path : Option Text) (e : Engine S)
      → IsValid e
      → IsValid (apxdb_open h c path e).1
  unfolding apxdb_open
  apxdb_open-IsValid h c path e v = ground arith

  set_gpu_enabled-IsValid :
      (enabled : Bool) (e : Engine S) → IsValid e → IsValid (apxdb_set_gpu_enabled enabled e)
  unfolding apxdb_set_gpu_enabled
  set_gpu_enabled-IsValid enabled e v = ground arith

  create-IsValid :
      (memory : Memory) (bytes : Text) (is_json : Bool) (e : Engine S)
      → IsValid e
      → IsValid (create memory bytes is_json e).1
  unfolding create
  create-IsValid memory bytes is_json e v =
      ground (arith, length-append e.documents (new_document bytes is_json e ∷ []))

  create_document-IsValid :
      (memory : Memory) (json : Option Text) (e : Engine S)
      → IsValid e
      → IsValid (apxdb_create_document memory json e).1
  unfolding apxdb_create_document
  create_document-IsValid memory none e v = v
  create_document-IsValid memory (some json) e v = create-IsValid memory json true e v

  create_document_bytes-IsValid :
      (memory : Memory) (bytes : Option Text) (e : Engine S)
      → IsValid e
      → IsValid (apxdb_create_document_bytes memory bytes e).1
  unfolding apxdb_create_document_bytes
  create_document_bytes-IsValid memory none e v = v
  create_document_bytes-IsValid memory (some []) e v = v
  create_document_bytes-IsValid memory (some (b ∷ bytes)) e v =
      create-IsValid memory (b ∷ bytes) false e v

-- A call that changes the engine, with what it meets outside.
pub data Step {S : Type 0} (c : Collections S) (e : Engine S) : Engine S → Type 0 where
  initialize : (h : Host) → Step c e (apxdb_initialize h e).1
  shutdown : Step c e (apxdb_shutdown c e).1
  opens : (h : Host) (path : Option Text) → Step c e (apxdb_open h c path e).1
  closes : Step c e (apxdb_close c e).1
  set_gpu : (enabled : Bool) → Step c e (apxdb_set_gpu_enabled enabled e)
  create_json : (m : Memory) (json : Option Text) → Step c e (apxdb_create_document m json e).1
  create_bytes :
      (m : Memory) (bytes : Option Text) → Step c e (apxdb_create_document_bytes m bytes e).1

-- The calls of all threads in the order in which they hold the mutex.
pub data Reach {S : Type 0} (c : Collections S) (s : Engine S) : Engine S → Type 0 where
  here : Reach c s s
  then_step : {t u : Engine S} → Reach c s t → Step c t u → Reach c s u

module _ {S : Type 0} (c : Collections S) where
  Step-IsValid : {e e' : Engine S} → Step c e e' → IsValid e → IsValid e'
  Step-IsValid {e} (initialize h) v = apxdb_initialize-IsValid h e v
  Step-IsValid {e} shutdown v = apxdb_shutdown-IsValid c e v
  Step-IsValid {e} (opens h path) v = apxdb_open-IsValid h c path e v
  Step-IsValid {e} closes v = apxdb_close-IsValid c e v
  Step-IsValid {e} (set_gpu enabled) v = set_gpu_enabled-IsValid enabled e v
  Step-IsValid {e} (create_json m json) v = create_document-IsValid m json e v
  Step-IsValid {e} (create_bytes m bytes) v = create_document_bytes-IsValid m bytes e v

  -- Whatever calls were made since the start, in whatever order: the engine is closed, open or
  -- failed, counts as initialized exactly when it is open, has documents or a directory only
  -- then, keeps its table within its capacity, and the status of the backend agrees with whether
  -- it is there.
  pub Reach-IsValid : (store : S) {e : Engine S} → Reach c (start store) e → IsValid e
  Reach-IsValid store here = start-IsValid store
  Reach-IsValid store (then_step r s) = Step-IsValid s (Reach-IsValid store r)
