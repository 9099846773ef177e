-- ===== src/Query/Ids.antt =====
-- src/native/apxdb_collection.c: the lists of document ids. A list of ids stands for a pointer that is
-- not `NULL` with its count.
use apx_db.Common.{Bool, true, false, List, [], ◌∷◌, ◌++◌, if◌then◌else◌, Text, text_eq}

abbrev pub Ids : Type 0
Ids = List Text

-- The inner loops that look for an id by `strcmp`.
unfoldable pub has_id : Text → Ids → Bool
has_id x [] = false
has_id x (y ∷ ys) = if text_eq y x then true else has_id x ys

unfoldable pub intersect_doc_id_lists : Ids → Ids → Ids
intersect_doc_id_lists [] b = []
intersect_doc_id_lists (x ∷ a) b =
    let rest = intersect_doc_id_lists a b in if has_id x b then x ∷ rest else rest

-- One id at the end of the result, if it is not there.
unfoldable pub add_doc_id : Ids → Text → Ids
add_doc_id result x = if has_id x result then result else result ++ x ∷ []

unfoldable pub add_doc_ids : Ids → Ids → Ids
add_doc_ids result [] = result
add_doc_ids result (x ∷ a) = add_doc_ids (add_doc_id result x) a

unfoldable pub union_doc_id_lists : Ids → Ids → Ids
union_doc_id_lists a b = add_doc_ids (add_doc_ids [] a) b

unfoldable pub copy_doc_id_list : Ids → Ids
copy_doc_id_list source = source

-- `remove_doc_id_from_entry` on the entry's ids: the first occurrence goes, the others move up.
unfoldable pub remove_doc_id : Text → Ids → Ids
remove_doc_id x [] = []
remove_doc_id x (y ∷ ys) = if text_eq y x then ys else y ∷ remove_doc_id x ys
