-- ===== src/Query/Satisfies.antt =====
-- What a query means for one document's value, given what each of its fields meets.
use apx_db.Common.{
  ◌≡◌, refl, Bool, true, false, ◌&&◌, ◌||◌, Option, if◌then◌else◌, Text, codes, text_eq,
}
use apx_db.Json.{
  Value, Items, Members, null, bool, number, string, array, object, no_items, item, no_members,
  member,
}
use apx_db.Query.Ids.{Ids, has_id}
use apx_db.Query.Combine.{or_empty}
use apx_db.Query.Matches.{matches, matches_members, matches_member, matches_all, matches_any}

-- All members of the object, of which there is one at least; all children of `$and`, some child of
-- `$or`.
module _ {D : Type 0} (meets : Text → Value D → Bool) where
  unfoldable mutual
    pub satisfies : Value D → Bool
    satisfies (object no_members) = false
    satisfies (object (member name v ms)) = satisfies_member v name && satisfies_members ms
    satisfies _ = false

    satisfies_members : Members D → Bool
    satisfies_members no_members = true
    satisfies_members (member name v ms) = satisfies_member v name && satisfies_members ms

    satisfies_member : Value D → Text → Bool
    satisfies_member (array vs) name =
        let all = satisfies_all vs in
        let any = satisfies_any vs in
        if text_eq name (codes "$and")
        then all
        else if text_eq name (codes "$or")
        then any
        else meets name (array vs)
    satisfies_member v name = meets name v

    satisfies_all : Items D → Bool
    satisfies_all no_items = true
    satisfies_all (item q qs) = satisfies q && satisfies_all qs

    satisfies_any : Items D → Bool
    satisfies_any no_items = false
    satisfies_any (item q qs) = satisfies q || satisfies_any qs

-- Every field that the query asks for passes the test.
module _ {D : Type 0} (test : Text → Bool) where
  unfoldable mutual
    pub asks_only : Value D → Bool
    asks_only (object ms) = members_ask_only ms
    asks_only _ = true

    members_ask_only : Members D → Bool
    members_ask_only no_members = true
    members_ask_only (member name v ms) = member_asks_only v name && members_ask_only ms

    member_asks_only : Value D → Text → Bool
    member_asks_only (array vs) name =
        let children = items_ask_only vs in
        if text_eq name (codes "$and")
        then children
        else if text_eq name (codes "$or")
        then children
        else test name
    member_asks_only v name = test name

    items_ask_only : Items D → Bool
    items_ask_only no_items = true
    items_ask_only (item q qs) = asks_only q && items_ask_only qs

both_same :
    (p p' q q' c d : Bool)
    → (c && d) ≡ true
    → (c ≡ true → p ≡ p')
    → (d ≡ true → q ≡ q')
    → (p && q) ≡ (p' && q')
both_same p p' q q' true true h f g = rw (f refl, g refl) refl
both_same p p' q q' true false h f g = cc
both_same p p' q q' false d h f g = cc

either_same :
    (p p' q q' c d : Bool)
    → (c && d) ≡ true
    → (c ≡ true → p ≡ p')
    → (d ≡ true → q ≡ q')
    → (p || q) ≡ (p' || q')
either_same p p' q q' true true h f g = rw (f refl, g refl) refl
either_same p p' q q' true false h f g = cc
either_same p p' q q' false d h f g = cc

choose_same :
    (is_and is_or all all' any any' leaf leaf' children test : Bool)
    → (if is_and then children else if is_or then children else test) ≡ true
    → (children ≡ true → all ≡ all')
    → (children ≡ true → any ≡ any')
    → (test ≡ true → leaf ≡ leaf')
    → (if is_and then all else if is_or then any else leaf)
      ≡ (if is_and then all' else if is_or then any' else leaf')
choose_same true is_or all all' any any' leaf leaf' children test h a o l = a h
choose_same false true all all' any any' leaf leaf' children test h a o l = o h
choose_same false false all all' any any' leaf leaf' children test h a o l = l h

module _ {D : Type 0} (find_docs_for_member : Text → Value D → Option Ids) (x : Text)
    (meets : Text → Value D → Bool) (test : Text → Bool)
    (leaf : (name : Text) (v : Value D)
      → test name ≡ true
      → has_id x (or_empty (find_docs_for_member name v)) ≡ meets name v) where
  mutual
    unfolding matches satisfies asks_only

    same_answer :
        (q : Value D)
        → asks_only test q ≡ true
        → matches find_docs_for_member x q ≡ satisfies meets q
    same_answer (object no_members) h = refl
    same_answer (object (member name v ms)) h =
        both_same (matches_member find_docs_for_member x v name) (satisfies_member meets v name)
          (matches_members find_docs_for_member x ms) (satisfies_members meets ms)
          (member_asks_only test v name) (members_ask_only test ms) h (same_member v name)
          (same_members ms)
    same_answer null h = refl
    same_answer (bool b) h = refl
    same_answer (number i n d) h = refl
    same_answer (string s) h = refl
    same_answer (array vs) h = refl

    same_members :
        (ms : Members D)
        → members_ask_only test ms ≡ true
        → matches_members find_docs_for_member x ms ≡ satisfies_members meets ms
    same_members no_members h = refl
    same_members (member name v ms) h =
        both_same (matches_member find_docs_for_member x v name) (satisfies_member meets v name)
          (matches_members find_docs_for_member x ms) (satisfies_members meets ms)
          (member_asks_only test v name) (members_ask_only test ms) h (same_member v name)
          (same_members ms)

    same_member :
        (v : Value D) (name : Text)
        → member_asks_only test v name ≡ true
        → matches_member find_docs_for_member x v name ≡ satisfies_member meets v name
    same_member (array vs) name h =
        choose_same (text_eq name (codes "$and")) (text_eq name (codes "$or"))
          (matches_all find_docs_for_member x vs) (satisfies_all meets vs)
          (matches_any find_docs_for_member x vs) (satisfies_any meets vs)
          (has_id x (or_empty (find_docs_for_member name (array vs)))) (meets name (array vs))
          (items_ask_only test vs) (test name) h (same_all vs) (same_any vs) (leaf name (array vs))
    same_member (object ms) name h = leaf name (object ms) h
    same_member null name h = leaf name null h
    same_member (bool b) name h = leaf name (bool b) h
    same_member (number i n d) name h = leaf name (number i n d) h
    same_member (string s) name h = leaf name (string s) h

    same_all :
        (qs : Items D)
        → items_ask_only test qs ≡ true
        → matches_all find_docs_for_member x qs ≡ satisfies_all meets qs
    same_all no_items h = refl
    same_all (item q qs) h =
        both_same (matches find_docs_for_member x q) (satisfies meets q)
          (matches_all find_docs_for_member x qs) (satisfies_all meets qs) (asks_only test q)
          (items_ask_only test qs) h (same_answer q) (same_all qs)

    same_any :
        (qs : Items D)
        → items_ask_only test qs ≡ true
        → matches_any find_docs_for_member x qs ≡ satisfies_any meets qs
    same_any no_items h = refl
    same_any (item q qs) h =
        either_same (matches find_docs_for_member x q) (satisfies meets q)
          (matches_any find_docs_for_member x qs) (satisfies_any meets qs) (asks_only test q)
          (items_ask_only test qs) h (same_answer q) (same_any qs)

  pub matches-satisfies :
      (q : Value D) → asks_only test q ≡ true → matches find_docs_for_member x q ≡ satisfies meets q
  matches-satisfies = same_answer
