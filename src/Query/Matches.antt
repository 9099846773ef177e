-- ===== src/Query/Matches.antt =====
-- What a query means for one document id, independently of the order in which the ids are found.
use apx_db.Common.{Bool, true, false, ◌&&◌, ◌||◌, Option, if◌then◌else◌, Text, codes, text_eq}
use apx_db.Json.{Value, Items, Members, array, object, no_items, item, no_members, member}
use apx_db.Query.Ids.{Ids, has_id}
use apx_db.Query.Combine.{or_empty}

module _ {D : Type 0} (find_docs_for_member : Text → Value D → Option Ids) where
  -- The document with this id meets the query: all members of the object, of which there is one at
  -- least; all children of `$and`, some child of `$or`.
  unfoldable mutual
    pub matches : Text → Value D → Bool
    matches x (object no_members) = false
    matches x (object (member name v ms)) = matches_member x v name && matches_members x ms
    matches x _ = false

    pub matches_members : Text → Members D → Bool
    matches_members x no_members = true
    matches_members x (member name v ms) = matches_member x v name && matches_members x ms

    pub matches_member : Text → Value D → Text → Bool
    matches_member x (array vs) name =
        let all = matches_all x vs in
        let any = matches_any x vs in
        if text_eq name (codes "$and")
        then all
        else if text_eq name (codes "$or")
        then any
        else has_id x (or_empty (find_docs_for_member name (array vs)))
    matches_member x v name = has_id x (or_empty (find_docs_for_member name v))

    pub matches_all : Text → Items D → Bool
    matches_all x no_items = true
    matches_all x (item q qs) = matches x q && matches_all x qs

    pub matches_any : Text → Items D → Bool
    matches_any x no_items = false
    matches_any x (item q qs) = matches x q || matches_any x qs

module _ {D : Type 0} where
  -- Some `$and` of the query is over an empty array.
  unfoldable mutual
    pub has_empty_and : Value D → Bool
    has_empty_and (object ms) = members_have_empty_and ms
    has_empty_and _ = false

    pub members_have_empty_and : Members D → Bool
    members_have_empty_and no_members = false
    members_have_empty_and (member name v ms) =
        member_has_empty_and v name || members_have_empty_and ms

    pub member_has_empty_and : Value D → Text → Bool
    member_has_empty_and (array no_items) name = text_eq name (codes "$and")
    member_has_empty_and (array (item q qs)) name =
        let inside = has_empty_and q || items_have_empty_and qs in
        if text_eq name (codes "$and")
        then inside
        else if text_eq name (codes "$or")
        then inside
        else false
    member_has_empty_and _ name = false

    pub items_have_empty_and : Items D → Bool
    items_have_empty_and no_items = false
    items_have_empty_and (item q qs) = has_empty_and q || items_have_empty_and qs
