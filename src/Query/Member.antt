-- ===== src/Query/Member.antt =====
-- src/native/apxdb_collection.c: the ids for one member of a query, by an index where there is one. The
-- scan of the documents, and the text of a number, are parameters.
use apx_db.Common.{
  ℕ, Bool, true, false, List, [], ◌∷◌, ◌++◌, Option, none, some, if◌then◌else◌, Text, get_elem?,
}
use apx_db.Libc.{Doubles}
use apx_db.Json.{Value, string, object, no_members, member}
use apx_db.Blob.Scalars.{parse_numeric_value}
use apx_db.Query.Ids.{Ids, copy_doc_id_list}
use apx_db.Query.Operators.{compare_numeric_operator}
use apx_db.Collection.{Entry, IndexData, by_value}
use apx_db.Collection.Entries.{find_index_data, find_index_entry, find_index_entry_by_numeric}

-- `apxdb_query_plan_t`.
pub data QueryPlan : Type 0 where
  plan_scan plan_index_exact plan_index_range : QueryPlan

-- Without any id, the code returns the `NULL` that it starts with.
abbrev pub null_if_empty : Ids → Option Ids
null_if_empty [] = none
null_if_empty (x ∷ ids) = some (x ∷ ids)

abbrev pub is_some : {A : Type 0} → Option A → Bool
is_some none = false
is_some (some a) = true

module _ {D : Type 0} where
  abbrev is_string : Value D → Bool
  is_string (string s) = true
  is_string _ = false

  abbrev is_value_index : IndexData D → Bool
  is_value_index x = elim x.definition.index_type [ by_value ↦ true | _ ↦ false ]

  -- The ids of an entry, or none of them.
  abbrev entry_ids : IndexData D → Option ℕ → Ids
  entry_ids x none = copy_doc_id_list []
  entry_ids x (some i) = elim (get_elem? x.entries i) [
    | none ↦ copy_doc_id_list []
    | some e ↦ copy_doc_id_list e.doc_ids
  ]

  abbrev index_of : List (IndexData D) → Text → Option (IndexData D)
  index_of xs name = elim (find_index_data xs name) [ none ↦ none | some i ↦ get_elem? xs i ]

module _ {D : Type 0} ⦃fp : Doubles D⦄ where
  -- The number that an entry stands for.
  unfoldable pub entry_number : Entry D → Option D
  entry_number e =
      if e.has_numeric_key
      then some e.numeric_key
      else elim e.key [ none ↦ none | some key ↦ parse_numeric_value (string key) ]

  unfoldable pub entry_in_range : Text → D → Entry D → Bool
  entry_in_range op threshold e = elim (entry_number e) [
    | none ↦ false
    | some d ↦ compare_numeric_operator d op threshold
  ]

  unfoldable pub range_ids : Text → D → List (Entry D) → Ids
  range_ids op threshold [] = []
  range_ids op threshold (e ∷ es) =
      let rest = range_ids op threshold es in
      if entry_in_range op threshold e then e.doc_ids ++ rest else rest

  unfoldable pub collect_docs_by_range : IndexData D → Text → D → Option Ids
  collect_docs_by_range x op threshold = null_if_empty (range_ids op threshold x.entries)

  abbrev exact_plan : Value D → QueryPlan
  exact_plan v =
      if is_some (parse_numeric_value v)
      then plan_index_exact
      else if is_string v
      then plan_index_exact
      else plan_scan

  unfoldable pub determine_query_plan : Option (IndexData D) → Value D → QueryPlan
  determine_query_plan none v = plan_scan
  determine_query_plan (some x) (object (member op threshold no_members)) =
      if is_value_index x
      then (if is_some (parse_numeric_value threshold) then plan_index_range else plan_scan)
      else plan_scan
  determine_query_plan (some x) v = exact_plan v

  module _ (json_value_to_string : Value D → Option Text)
      (scan_docs_for_member : Text → Value D → Option Ids) where
    unfoldable pub exact_docs : IndexData D → Text → Value D → Option Ids
    exact_docs x name v = elim (parse_numeric_value v) [
      | some d ↦ some (entry_ids x (find_index_entry_by_numeric x.entries d))
      | none ↦ elim (json_value_to_string v) [
        | some key ↦ some (entry_ids x (find_index_entry x.entries key))
        | none ↦ scan_docs_for_member name v
      ]
    ]

    unfoldable pub range_docs : IndexData D → Text → Value D → Option Ids
    range_docs x name (object (member op v no_members)) = elim (parse_numeric_value v) [
      | some threshold ↦ collect_docs_by_range x op threshold
      | none ↦ scan_docs_for_member name (object (member op v no_members))
    ]
    range_docs x name v = scan_docs_for_member name v

    unfoldable pub find_docs_for_member : List (IndexData D) → Text → Value D → Option Ids
    find_docs_for_member xs name v = elim (index_of xs name) [
      | none ↦ scan_docs_for_member name v
      | some x ↦ elim (determine_query_plan (some x) v) [
        | plan_index_range ↦ range_docs x name v
        | plan_index_exact ↦ exact_docs x name v
        | plan_scan ↦ scan_docs_for_member name v
      ]
    ]
