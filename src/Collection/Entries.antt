-- ===== src/Collection/Entries.antt =====
-- src/native/apxdb_collection.c: the entries of an index.
use apx_db.Common.{
  ℕ, suc, Bool, false, ◌&&◌, List, [], ◌∷◌, Option, none, some, Text, if◌then◌else◌, text_eq,
}
use apx_db.Libc.{Doubles}
use apx_db.Query.Ids.{has_id, add_doc_id, remove_doc_id}
use apx_db.Collection.{Entry, IndexData}

abbrev next : Option ℕ → Option ℕ
next none = none
next (some i) = some (suc i)

abbrev has_key : Option Text → Text → Bool
has_key none key = false
has_key (some k) key = text_eq k key

module _ {D : Type 0} where
  -- `find_index_data`, as the position of the index.
  unfoldable pub find_index_data : List (IndexData D) → Text → Option ℕ
  find_index_data [] name = none
  find_index_data (x ∷ xs) name =
      let rest = next (find_index_data xs name) in
      if text_eq x.definition.field_name name then some 0 else rest

  -- `find_index_entry`, as the position of the entry.
  unfoldable pub find_index_entry : List (Entry D) → Text → Option ℕ
  find_index_entry [] key = none
  find_index_entry (e ∷ es) key =
      let rest = next (find_index_entry es key) in if has_key e.key key then some 0 else rest

  unfoldable pub find_index_entry_by_numeric : ⦃fp : Doubles D⦄ → List (Entry D) → D → Option ℕ
  find_index_entry_by_numeric [] d = none
  find_index_entry_by_numeric ⦃fp⦄ (e ∷ es) d =
      let rest = next (find_index_entry_by_numeric es d) in
      if e.has_numeric_key && fp.equal e.numeric_key d then some 0 else rest

  -- Memory for one id more is there.
  unfoldable pub add_doc_id_to_entry : Text → Entry D → Entry D
  add_doc_id_to_entry id e = record e { doc_ids = add_doc_id e.doc_ids id }

  -- The result that the code returns says whether the id was there.
  unfoldable pub remove_doc_id_from_entry : Text → Entry D → Bool × Entry D
  remove_doc_id_from_entry id e =
      (has_id id e.doc_ids, record e { doc_ids = remove_doc_id id e.doc_ids })

  unfoldable pub remove_from_entries : Text → List (Entry D) → List (Entry D)
  remove_from_entries id [] = []
  remove_from_entries id (e ∷ es) = (remove_doc_id_from_entry id e).1 ∷ remove_from_entries id es

  unfoldable pub remove_doc_from_indexes : Text → List (IndexData D) → List (IndexData D)
  remove_doc_from_indexes id [] = []
  remove_doc_from_indexes id (x ∷ xs) =
      record x { entries = remove_from_entries id x.entries } ∷ remove_doc_from_indexes id xs
