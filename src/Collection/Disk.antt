-- ===== src/Collection/Disk.antt =====
-- src/native/apxdb_collection.c: the files that `load_collection_from_file` opens, and the loading of a
-- collection from them, as `ensure_collection_loaded` calls it.
use apx_db.Common.{ℕ, Bool, true, false, Option, none, some, Text}
use apx_db.Libc.{Doubles}
use apx_db.Blob.Read.{Loads}
use apx_db.Collection.{Collection}
use apx_db.Collection.Indexing.{Payloads}
use apx_db.Collection.Store.{Files, FileStat}
use apx_db.Collection.Saved.{name_text}
use apx_db.Collection.Loaded.{LoadResult, load_done}
use apx_db.Collection.LoadFile.{load_collection}
use apx_db.Collection.Sound.{IsSound}
use apx_db.Collection.Loading.{LoadsSound}
use apx_db.Collection.LoadSound.{IsRefusedIndex, load_collection-IsSound}

-- What is on the disk: the bytes of a collection's file, if it can be opened, and those of the index file
-- beside it, by the collection's name.
pub record Disk : Type 0 where
  pub stat : Text → FileStat
  pub collection_bytes : Text → Option Text
  pub index_bytes : Text → Text → Option Text

-- The result of `load_collection_from_file`.
abbrev is_done : LoadResult → Bool
is_done load_done = true
is_done r = false

module _ {D : Type 0} ⦃fp : Doubles D⦄ ⦃ld : Loads D⦄ (payloads : Payloads D) (disk : Disk) where
  unfoldable pub load_collection_from_file : Text → ℕ → Collection D → Bool × (ℕ × Collection D)
  load_collection_from_file path counter c = elim (disk.collection_bytes path) [
    | none ↦ (false, (counter, c))
    | some bytes ↦
        let (result, loaded) =
          load_collection payloads bytes (disk.index_bytes path (name_text c)) counter c in
        (is_done result, loaded)
  ]

  -- The files of the calls on documents.
  abbrev pub files_of : Files D
  files_of = record { stat = disk.stat; load_collection_from_file = load_collection_from_file }

  -- No index file on the disk is accepted by its header.
  abbrev pub RefusesIndexes : Type 0
  RefusesIndexes =
      (path : Text) (c : Collection D) → IsRefusedIndex (disk.index_bytes path (name_text c)) c

  pub files_of-LoadsSound : RefusesIndexes → LoadsSound files_of
  unfolding load_collection_from_file
  files_of-LoadsSound refused path counter c s = by_bytes (disk.collection_bytes path)
    where
      by_bytes :
          (o : Option Text)
          → IsSound
              (elim o as (λ _. Bool × (ℕ × Collection D)) [
                | none ↦ (false, (counter, c))
                | some bytes ↦
                    let (result, loaded) =
                      load_collection payloads bytes
                        (disk.index_bytes path (name_text c))
                        counter
                        c in
                    (is_done result, loaded)
              ]).1.1
      by_bytes none = s
      by_bytes (some bytes) =
          load_collection-IsSound payloads bytes (disk.index_bytes path (name_text c)) counter c
            (refused path c) s
