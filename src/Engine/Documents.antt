-- ===== src/Engine/Documents.antt =====
-- src/native/apxdb.c: the documents outside of any collection.
use apx_db.Common.{
  ℕ, ◌+◌, ◌-◌, ◌*◌, ◌%◌, ◌^◌, Bool, true, false, ◌&&◌, List, [], ◌∷◌, ◌++◌, Option, none, some,
  ◌==◌, ltb, leb, if◌then◌else◌, Text, codes, text_eq, length,
}
use apx_db.Common.Int.{ℤ, pos, negsuc}
use apx_db.Libc.Decimal.{decimal_ℤ}
use apx_db.Engine.{Engine, Document, is_open}

-- Whether the two allocations of `push_document` succeed: that of the table, and those of the copies.
pub record Memory : Type 0 where
  pub grows : Bool
  pub copies : Bool

-- The conversion of the counter to `int32_t`.
unfoldable pub to_int32 : ℕ → ℤ
to_int32 n = let m = n % 2 ^ 32 in if ltb m (2 ^ 31) then pos m else negsuc (2 ^ 32 - 1 - m)

-- `snprintf(id_string, sizeof(id_string), "doc_%d", next_id)`.
unfoldable pub document_id : ℕ → Text
document_id n = codes "doc_" ++ decimal_ℤ (to_int32 n)

-- The capacity after the test for growth.
unfoldable pub grown_capacity : ℕ → ℕ → ℕ
grown_capacity count capacity =
    if leb capacity count then (if capacity == 0 then 8 else capacity * 2) else capacity

-- `strstr(text, word) != NULL`.
unfoldable pub is_prefix : Text → Text → Bool
is_prefix [] text = true
is_prefix (w ∷ word) [] = false
is_prefix (w ∷ word) (c ∷ text) = w == c && is_prefix word text

unfoldable pub contains : Text → Text → Bool
unfolding is_prefix
contains word [] = is_prefix word []
contains word (c ∷ text) = if is_prefix word (c ∷ text) then true else contains word text

module _ {S : Type 0} where
  unfoldable pub push_document : Memory → Document → Engine S → Bool × Engine S
  unfolding grown_capacity
  push_document memory document e =
      let count = length e.documents in
      let table = record e { document_capacity = grown_capacity count e.document_capacity } in
      if leb e.document_capacity count && (if memory.grows then false else true)
      then (false, e)
      else if memory.copies
      then (true, record table { documents = e.documents ++ document ∷ [] })
      else (false, table)

  unfoldable pub free_documents : Engine S → Engine S
  free_documents e = record e { documents = []; document_capacity = 0 }

  abbrev pub new_document : Text → Bool → Engine S → Document
  new_document bytes is_json e = record {
    id = document_id (e.document_counter + 1);
    bytes = bytes;
    is_json = is_json;
  }

  -- The part that the two `create` functions share, the lock held.
  unfoldable pub create : Memory → Text → Bool → Engine S → Text × Engine S
  unfolding push_document
  create memory bytes is_json e =
      let id = document_id (e.document_counter + 1) in
      let counted = record e { document_counter = e.document_counter + 1 } in
      let (pushed, e') = push_document memory (new_document bytes is_json e) counted in
      if is_open e.state
      then (if pushed then (id, e') else (codes "error:allocation_failed", e'))
      else (codes "error:uninitialized", e)

  unfoldable pub apxdb_create_document : Memory → Option Text → Engine S → Text × Engine S
  unfolding create
  apxdb_create_document memory none e = (codes "error:invalid_input", e)
  apxdb_create_document memory (some json) e = create memory json true e

  -- `bytes` with `length == 0` is refused too.
  unfoldable pub apxdb_create_document_bytes : Memory → Option Text → Engine S → Text × Engine S
  unfolding create
  apxdb_create_document_bytes memory none e = (codes "error:invalid_input", e)
  apxdb_create_document_bytes memory (some []) e = (codes "error:invalid_input", e)
  apxdb_create_document_bytes memory (some (b ∷ bytes)) e = create memory (b ∷ bytes) false e

-- The loop of `apxdb_get_document_bytes`.
unfoldable pub find_bytes : Text → List Document → Option Text
find_bytes id [] = none
find_bytes id (d ∷ documents) = if text_eq d.id id then some d.bytes else find_bytes id documents

-- The loop of `apxdb_find_document`.
unfoldable pub find_text : Text → List Document → Text
find_text query [] = codes "not_found"
find_text query (d ∷ documents) =
    if text_eq d.id query
    then (if d.is_json then d.bytes else codes "binary_document")
    else if d.is_json && contains query d.bytes
    then d.bytes
    else find_text query documents

module _ {S : Type 0} where
  unfoldable pub apxdb_get_document_bytes : Option Text → Engine S → Option Text
  apxdb_get_document_bytes none e = none
  apxdb_get_document_bytes (some id) e = if is_open e.state then find_bytes id e.documents else none

  unfoldable pub apxdb_find_document : Option Text → Engine S → Text
  apxdb_find_document none e = codes "error:invalid_input"
  apxdb_find_document (some query) e =
      if is_open e.state then find_text query e.documents else codes "error:uninitialized"
