-- ===== src/Engine.antt =====
-- src/native/apxdb.c, the engine's state: one mutex guards all of it, so a call is one step. The
-- names of the enumerations follow src/native/apxdb.h.
pub mod Documents
pub mod Lifecycle
pub mod Invariant
pub mod Opening
pub mod Lookup
pub mod Numbering
use apx_db.Common.{ℕ, Bool, true, false, List, [], Option, none, Text, if◌then◌else◌}

-- `apxdb_state_t`; `opened` is `APXDB_STATE_OPEN`.
pub data State : Type 0 where
  closed opening opened closing failed : State

-- `apxdb_gpu_status_t`.
pub data GpuStatus : Type 0 where
  unavailable metal_active vulkan_active disabled_by_threshold init_failed : GpuStatus

-- The result codes.
pub data Code : Type 0 where
  ok ok_gpu_fallback err_already_open err_not_open err_gpu_init_failed err_partial_recovery : Code
  err_invalid_argument err_io err_unknown : Code

-- `apxdb_document_t`; the bytes of a JSON document are followed by a terminator.
pub record Document : Type 0 where
  pub id : Text
  pub bytes : Text
  pub is_json : Bool

-- What the engine calls of the collections and of the schema registries, whose state is `S`.
pub record Collections (S : Type 0) : Type 0 where
  pub save_all_collections : Text → S → S
  pub collection_unregister_all : S → S
  pub schema_unregister_all : S → S
  pub unregister_all_schemas : S → S

-- The globals of the file.
pub record Engine (S : Type 0) : Type 0 where
  pub state : State
  pub initialized : Bool
  pub gpu_available : Bool
  pub gpu_status : GpuStatus
  pub gpu_force_disabled : Bool
  pub storage_directory : Option Text
  pub documents : List Document
  pub document_capacity : ℕ
  -- Without its wrap: the code reads the counter only as an `int32_t`, which `to_int32` makes of it.
  pub document_counter : ℕ
  pub store : S

abbrev pub is_open : State → Bool
is_open opened = true
is_open _ = false

-- The globals as the program starts with them.
abbrev pub start : {S : Type 0} → S → Engine S
start store = record {
  state = closed;
  initialized = false;
  gpu_available = false;
  gpu_status = unavailable;
  gpu_force_disabled = false;
  storage_directory = none;
  documents = [];
  document_capacity = 0;
  document_counter = 0;
  store = store;
}
