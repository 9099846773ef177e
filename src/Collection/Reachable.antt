-- ===== src/Collection/Reachable.antt =====
-- The stores that the calls reach: every collection in them is sound.
use apx_db.Common.{ℕ, Bool, [], Option, none, Text}
use apx_db.Libc.{Doubles}
use apx_db.Schema.{Schema}
use apx_db.Schema.Registry.{Registries}
use apx_db.Blob.Scalars.{Stores}
use apx_db.Collection.{IndexDefinition}
use apx_db.Collection.Transactions.{
  Transactions, no_transactions, apxdb_begin_write_txn, apxdb_commit_write_txn,
  apxdb_rollback_write_txn, apxdb_free_transaction,
}
use apx_db.Collection.Store.{Store, Files, Blobs, apxdb_register_collection, apxdb_add_index}
use apx_db.Collection.Operations.{
  apxdb_put_document, apxdb_delete_document, apxdb_get_document, apxdb_collection_unregister_all,
}
use apx_db.Collection.Loading.{AllSound, LoadsSound}
use apx_db.Collection.Disk.{Disk, files_of, RefusesIndexes, files_of-LoadsSound}
use apx_db.Blob.Read.{Loads}
use apx_db.Collection.Calls.{
  apxdb_register_collection-AllSound, apxdb_add_index-AllSound, apxdb_delete_document-AllSound,
  apxdb_get_document-AllSound, apxdb_put_document-AllSound,
}

-- The store as the program starts with it.
abbrev pub no_collections : {D : Type 0} → Store D
no_collections = record {
  collections = [];
  collection_counter = 0;
  transactions = no_transactions;
  storage_directory = none;
}

abbrev with_transactions : {D : Type 0} → Transactions → Store D → Store D
with_transactions t s = record s { transactions = t }

-- A call that may change the store; the directory is that of src/native/apxdb.c.
pub data StoreStep {D : Type 0} ⦃fp : Doubles D⦄ ⦃st : Stores D⦄ (files : Files D) (blobs : Blobs D)
    (s : Store D) : Store D → Type 0 where
  register :
      (r : Registries) (sch : Schema)
      → StoreStep files blobs s (apxdb_register_collection r sch s).1
  add_index :
      (name : Option Text) (d : IndexDefinition)
      → StoreStep files blobs s (apxdb_add_index name d s).1
  put :
      (name json : Option Text)
      → StoreStep files blobs s (apxdb_put_document files blobs name json s).1
  delete :
      (name id : Option Text) → StoreStep files blobs s (apxdb_delete_document files name id s).1
  get :
      (name id : Option Text) → StoreStep files blobs s (apxdb_get_document files blobs name id s).1
  begin :
      (allocated : Bool)
      → StoreStep files blobs s
          (with_transactions (apxdb_begin_write_txn allocated s.transactions).1 s)
  commit :
      (h : Option ℕ)
      → StoreStep files blobs s (with_transactions (apxdb_commit_write_txn h s.transactions).1 s)
  rollback :
      (h : Option ℕ)
      → StoreStep files blobs s (with_transactions (apxdb_rollback_write_txn h s.transactions).1 s)
  free :
      (h : Option ℕ)
      → StoreStep files blobs s (with_transactions (apxdb_free_transaction h s.transactions) s)
  set_directory :
      (path : Option Text) → StoreStep files blobs s (record s { storage_directory = path })
  unregister_all : StoreStep files blobs s (apxdb_collection_unregister_all s)

pub data StoreReach {D : Type 0} ⦃fp : Doubles D⦄ ⦃st : Stores D⦄ (files : Files D)
    (blobs : Blobs D) : Store D → Type 0 where
  at_start : StoreReach files blobs no_collections
  after :
      {s t : Store D}
      → StoreReach files blobs s
      → StoreStep files blobs s t
      → StoreReach files blobs t

module _ {D : Type 0} ⦃fp : Doubles D⦄ ⦃st : Stores D⦄ (files : Files D) (blobs : Blobs D)
    (loads : LoadsSound files) where
  StoreStep-AllSound : {s t : Store D} → StoreStep files blobs s t → AllSound s → AllSound t
  unfolding apxdb_collection_unregister_all
  StoreStep-AllSound {s} (register r sch) a = apxdb_register_collection-AllSound r sch s a
  StoreStep-AllSound {s} (add_index name d) a = apxdb_add_index-AllSound name d s a
  StoreStep-AllSound {s} (put name json) a =
      apxdb_put_document-AllSound files loads blobs name json s a
  StoreStep-AllSound {s} (delete name id) a = apxdb_delete_document-AllSound files loads name id s a
  StoreStep-AllSound {s} (get name id) a = apxdb_get_document-AllSound files loads blobs name id s a
  StoreStep-AllSound {s} (begin allocated) a = a
  StoreStep-AllSound {s} (commit h) a = a
  StoreStep-AllSound {s} (rollback h) a = a
  StoreStep-AllSound {s} (free h) a = a
  StoreStep-AllSound {s} (set_directory path) a = a
  StoreStep-AllSound {s} unregister_all a = tt

  reached-AllSound : {s : Store D} → StoreReach files blobs s → AllSound s
  reached-AllSound at_start = tt
  reached-AllSound (after r step) = StoreStep-AllSound step (reached-AllSound r)

-- Whatever files are on the disk, as long as the header of no index file is accepted: after any calls, with
-- the loading of collections by `load_collection_from_file` in them, every collection is sound. No two
-- documents have the same id, and no index has an id twice in an entry, or one of no document. Where a
-- load frees a blob twice, this is about what it leaves up to there.
pub StoreReach-AllSound :
    {D : Type 0} ⦃fp : Doubles D⦄ ⦃st : Stores D⦄ ⦃ld : Loads D⦄ (blobs : Blobs D) (disk : Disk)
    {s : Store D}
    → RefusesIndexes blobs.payloads disk
    → StoreReach (files_of blobs.payloads disk) blobs s
    → AllSound s
StoreReach-AllSound blobs disk refused r =
    reached-AllSound (files_of blobs.payloads disk) blobs
      (files_of-LoadsSound blobs.payloads disk refused) r
