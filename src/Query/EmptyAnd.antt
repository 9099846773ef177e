-- ===== src/Query/EmptyAnd.antt =====
-- A `$and` over an empty array: what it contributes depends on where it stands.
use apx_db.Common.{◌≡◌, refl, [], ◌∷◌, Option, some, ap, Text, text_eq_refl, codes}
use apx_db.Json.{Value, array, object, no_items, no_members, member, string}
use apx_db.Query.Ids.{Ids, has_id, intersect_doc_id_lists}
use apx_db.Query.Combine.{find_docs_by_query}

intersect-[] : (a : Ids) → intersect_doc_id_lists a [] ≡ []
unfolding intersect_doc_id_lists has_id
intersect-[] [] = refl
intersect-[] (x ∷ a) = intersect-[] a

module _ {D : Type 0} (find_docs_for_member : Text → Value D → Option Ids) where
  -- For a member over a text whose documents are found, an empty `$and` in front of it leaves
  -- those documents, and one behind it leaves none.
  pub find_docs_by_query-empty_and :
      (name s : Text) (ids : Ids)
      → find_docs_for_member name (string s) ≡ some ids
      → (find_docs_by_query find_docs_for_member
            (object (member (codes "$and") (array no_items) (member name (string s) no_members)))
          ≡ some ids)
        × (find_docs_by_query find_docs_for_member
              (object (member name (string s) (member (codes "$and") (array no_items) no_members)))
            ≡ some [])
  unfolding find_docs_by_query
  find_docs_by_query-empty_and name s ids h = (
    rw (text_eq_refl (codes "$and"), find_docs_by_query, h) refl,
    rw (h, text_eq_refl (codes "$and"), find_docs_by_query) (ap some (intersect-[] ids)),
  )
