-- ===== src/Query/Combine.antt =====
-- src/native/apxdb_collection.c, `find_docs_by_query`, over `find_docs_for_member`. `none` stands for
-- `NULL`; the functions recur on the query.
use apx_db.Common.{[], Option, none, some, if◌then◌else◌, Text, codes, text_eq}
use apx_db.Json.{Value, Items, Members, array, object, no_items, item, no_members, member}
use apx_db.Query.Ids.{Ids, intersect_doc_id_lists, union_doc_id_lists}

-- One round of a loop returns `NULL` from the function, or goes on with the member's ids.
pub data Round : Type 0 where
  stop : Round
  go : Option Ids → Round

-- A `NULL` list counts as empty.
abbrev pub or_empty : Option Ids → Ids
or_empty none = []
or_empty (some ids) = ids

-- `result` after a member's ids.
abbrev pub narrowed : Option Ids → Option Ids → Option Ids
narrowed none ids = ids
narrowed (some result) ids = some (intersect_doc_id_lists result (or_empty ids))

-- `or_result` after a child's ids.
abbrev pub widened : Option Ids → Option Ids → Option Ids
widened r none = r
widened none (some ids) = some ids
widened (some result) (some ids) = some (union_doc_id_lists result ids)

abbrev pub plain_round : Option Ids → Round
plain_round none = stop
plain_round (some ids) = go (some ids)

module _ {D : Type 0} (find_docs_for_member : Text → Value D → Option Ids) where
  unfoldable mutual
    pub find_docs_by_query : Value D → Option Ids
    find_docs_by_query (object ms) = members_loop ms none
    find_docs_by_query _ = none

    -- The loop over the members, with `result`.
    pub members_loop : Members D → Option Ids → Option Ids
    members_loop no_members result = result
    members_loop (member name v ms) result = elim (member_round v name) [
      | stop ↦ none
      | go ids ↦ members_loop ms (narrowed result ids)
    ]

    pub member_round : Value D → Text → Round
    member_round (array vs) name =
        let all = and_loop vs none in
        let any = go (some (or_empty (or_loop vs none))) in
        if text_eq name (codes "$and")
        then all
        else if text_eq name (codes "$or")
        then any
        else plain_round (find_docs_for_member name (array vs))
    member_round v name = plain_round (find_docs_for_member name v)

    -- The loop under `$and`, with `child_result`.
    pub and_loop : Items D → Option Ids → Round
    and_loop no_items result = go result
    and_loop (item q qs) result = elim (find_docs_by_query q) [
      | none ↦ stop
      | some ids ↦ and_loop qs (narrowed result (some ids))
    ]

    -- The loop under `$or`, with `or_result`.
    pub or_loop : Items D → Option Ids → Option Ids
    or_loop no_items result = result
    or_loop (item q qs) result = or_loop qs (widened result (find_docs_by_query q))
