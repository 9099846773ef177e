-- ===== src/Examples/Query.antt =====
-- A collection of two documents, of which one is red, and queries of it.
use apx_db.Common.{
  ℕ, ◌≡◌, refl, true, false, [], ◌∷◌, Option, none, some, Text, codes, text_eq, if◌then◌else◌,
}
use apx_db.Json.{Value, string, array, object, item, no_items, member, no_members}
use apx_db.Query.Ids.{Ids, has_id}
use apx_db.Query.Combine.{or_empty, find_docs_by_query}
use apx_db.Query.Matches.{matches, has_empty_and}
use apx_db.Query.Meaning.{find_docs_by_query-matches}
use apx_db.Query.EmptyAnd.{find_docs_by_query-empty_and}
use apx_db.Collection.{IndexData, by_value}

abbrev first_id : Text
first_id = codes "doc_1"

abbrev second_id : Text
second_id = codes "doc_2"

-- Both documents have a colour, and only the first one has a size.
abbrev by_name_only : Text → Value ℕ → Option Ids
by_name_only [] v = none
by_name_only (c ∷ name) v =
    if text_eq (c ∷ name) (codes "size")
    then some (first_id ∷ [])
    else some (first_id ∷ second_id ∷ [])

-- {"colour": "red", "$or": [{"size": "L"}]}
abbrev red_query : Value ℕ
red_query = object (
    member (codes "colour") (string (codes "red")) (
      member (codes "$or")
        (array (item (object (member (codes "size") (string (codes "L")) no_members)) no_items))
        no_members))

red_query-regular : has_empty_and red_query ≡ false
unfolding has_empty_and text_eq
red_query-regular = refl

find_docs_by_query-matches_example :
    has_id first_id (or_empty (find_docs_by_query by_name_only red_query))
    ≡ matches by_name_only first_id red_query
find_docs_by_query-matches_example =
    find_docs_by_query-matches by_name_only first_id red_query red_query-regular

-- An index with the numbers 3 and 9.
abbrev size_index : IndexData ℕ
size_index = record {
  definition = record {
    field_name = codes "size";
    index_type = by_value;
    composite = false;
    multi_entry = false;
  };
  entries =
      record {
        key = some (codes "3");
        has_numeric_key = true;
        numeric_key = 3;
        doc_ids = first_id ∷ [];
      }
      ∷ record {
        key = some (codes "9");
        has_numeric_key = true;
        numeric_key = 9;
        doc_ids = second_id ∷ [];
      }
      ∷ [];
}

hue-found : by_name_only (codes "hue") (string (codes "red")) ≡ some (first_id ∷ second_id ∷ [])
unfolding text_eq
hue-found = refl

find_docs_by_query-empty_and_example :
    (find_docs_by_query by_name_only (
        object (
          member
            (codes "$and")
            (array no_items)
            (member (codes "hue") (string (codes "red")) no_members)))
      ≡ some (first_id ∷ second_id ∷ []))
    × (find_docs_by_query by_name_only (
          object (
            member
              (codes "hue")
              (string (codes "red"))
              (member (codes "$and") (array no_items) no_members)))
        ≡ some [])
find_docs_by_query-empty_and_example =
    find_docs_by_query-empty_and by_name_only (codes "hue") (codes "red")
      (first_id ∷ second_id ∷ []) hue-found
