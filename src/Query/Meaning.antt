-- ===== src/Query/Meaning.antt =====
-- `find_docs_by_query` finds the ids of the documents that meet the query.
use apx_db.Common.{
  ◌≡◌, refl, true, false, ◌&&◌, ◌||◌, [], Option, none, some, Text, codes, text_eq, arith, sym, ◌∙◌,
}
use apx_db.Json.{
  Value, Items, Members, null, bool, number, string, array, object, no_items, item, no_members,
  member,
}
use apx_db.Query.Ids.{Ids, has_id}
use apx_db.Query.Matches.{
  matches, matches_members, matches_member, matches_all, matches_any, has_empty_and,
  members_have_empty_and, member_has_empty_and, items_have_empty_and,
}
use apx_db.Query.Combine.{
  go, or_empty, widened, plain_round, find_docs_by_query, members_loop, member_round, and_loop,
  or_loop,
}
use apx_db.Query.Rounds.{
  or-first, or-second, chosen-and, chosen-or, true-ne-false, Answers, plain_round-Answers, Rest,
  continue-first, continue-Rest, AllRest, continue_all-first, continue_all-AllRest, widened-matches,
  choose-Answers,
}

module _ {D : Type 0} (find_docs_for_member : Text → Value D → Option Ids) where
  mutual
    unfolding has_id find_docs_by_query matches has_empty_and

    query-matches :
        (x : Text) (q : Value D)
        → has_empty_and q ≡ false
        → has_id x (or_empty (find_docs_by_query find_docs_for_member q))
          ≡ matches find_docs_for_member x q
    query-matches x (object no_members) h = refl
    query-matches x (object (member name v ms)) h =
        continue-first x (matches_member find_docs_for_member x v name)
          (matches_members find_docs_for_member x ms) (member_round find_docs_for_member v name)
          (members_loop find_docs_for_member ms) (member_round-Answers x v name (or-first _ _ h))
          (members_loop-Rest x ms (or-second _ _ h))
    query-matches x null h = refl
    query-matches x (bool b) h = refl
    query-matches x (number i n d) h = refl
    query-matches x (string s) h = refl
    query-matches x (array vs) h = refl

    members_loop-Rest :
        (x : Text) (ms : Members D)
        → members_have_empty_and ms ≡ false
        → Rest x (matches_members find_docs_for_member x ms) (members_loop find_docs_for_member ms)
    members_loop-Rest x no_members h = λ ids. ground arith
    members_loop-Rest x (member name v ms) h =
        continue-Rest x (matches_member find_docs_for_member x v name)
          (matches_members find_docs_for_member x ms) (member_round find_docs_for_member v name)
          (members_loop find_docs_for_member ms) (member_round-Answers x v name (or-first _ _ h))
          (members_loop-Rest x ms (or-second _ _ h))

    member_round-Answers :
        (x : Text) (v : Value D) (name : Text)
        → member_has_empty_and v name ≡ false
        → Answers x
            (matches_member find_docs_for_member x v name)
            (member_round find_docs_for_member v name)
    member_round-Answers x (array no_items) name h =
        choose-Answers x (text_eq name (codes "$and")) (text_eq name (codes "$or")) true false
          (has_id x (or_empty (find_docs_for_member name (array no_items)))) (go none)
          (go (some [])) (plain_round (find_docs_for_member name (array no_items)))
          (λ e. elim (true-ne-false (sym e ∙ h)) [ ]) (λ e e'. refl)
          (plain_round-Answers x (find_docs_for_member name (array no_items)))
    member_round-Answers x (array (item q qs)) name h =
        choose-Answers x (text_eq name (codes "$and")) (text_eq name (codes "$or"))
          (matches find_docs_for_member x q && matches_all find_docs_for_member x qs)
          (matches find_docs_for_member x q || matches_any find_docs_for_member x qs)
          (has_id x (or_empty (find_docs_for_member name (array (item q qs)))))
          (and_loop find_docs_for_member (item q qs) none)
          (go (some (or_empty (or_loop find_docs_for_member (item q qs) none))))
          (plain_round (find_docs_for_member name (array (item q qs))))
          (λ e.
            let e' : (has_empty_and q || items_have_empty_and qs) ≡ false = chosen-and _ _ _ h e in
            continue_all-first x (matches find_docs_for_member x q)
              (matches_all find_docs_for_member x qs) (find_docs_by_query find_docs_for_member q)
              (and_loop find_docs_for_member qs) (query-matches x q (or-first _ _ e'))
              (and_loop-AllRest x qs (or-second _ _ e')))
          (λ e e'.
            let h' : (has_empty_and q || items_have_empty_and qs) ≡ false =
              chosen-or _ _ _ h e e' in
            ground (
              arith,
              or_loop-matches_any x qs (widened none (find_docs_by_query find_docs_for_member q))
                  (or-second (has_empty_and q) (items_have_empty_and qs) h'),
              widened-matches x none (find_docs_by_query find_docs_for_member q),
              query-matches x q (or-first (has_empty_and q) (items_have_empty_and qs) h'),
            ))
          (plain_round-Answers x (find_docs_for_member name (array (item q qs))))
    member_round-Answers x (object ms) name h =
        plain_round-Answers x (find_docs_for_member name (object ms))
    member_round-Answers x null name h = plain_round-Answers x (find_docs_for_member name null)
    member_round-Answers x (bool b) name h =
        plain_round-Answers x (find_docs_for_member name (bool b))
    member_round-Answers x (number i n d) name h =
        plain_round-Answers x (find_docs_for_member name (number i n d))
    member_round-Answers x (string s) name h =
        plain_round-Answers x (find_docs_for_member name (string s))

    and_loop-AllRest :
        (x : Text) (qs : Items D)
        → items_have_empty_and qs ≡ false
        → AllRest x (matches_all find_docs_for_member x qs) (and_loop find_docs_for_member qs)
    and_loop-AllRest x no_items h = λ ids. ground arith
    and_loop-AllRest x (item q qs) h =
        continue_all-AllRest x (matches find_docs_for_member x q)
          (matches_all find_docs_for_member x qs) (find_docs_by_query find_docs_for_member q)
          (and_loop find_docs_for_member qs) (query-matches x q (or-first _ _ h))
          (and_loop-AllRest x qs (or-second _ _ h))

    or_loop-matches_any :
        (x : Text) (qs : Items D) (r : Option Ids)
        → items_have_empty_and qs ≡ false
        → has_id x (or_empty (or_loop find_docs_for_member qs r))
          ≡ (has_id x (or_empty r) || matches_any find_docs_for_member x qs)
    or_loop-matches_any x no_items r h = ground arith
    or_loop-matches_any x (item q qs) r h = ground (
      arith,
      or_loop-matches_any x qs (widened r (find_docs_by_query find_docs_for_member q))
          (or-second (has_empty_and q) (items_have_empty_and qs) h),
      widened-matches x r (find_docs_by_query find_docs_for_member q),
      query-matches x q (or-first (has_empty_and q) (items_have_empty_and qs) h),
    )

  -- For a query without an empty `$and`, `find_docs_by_query` finds an id exactly when the
  -- document with it meets the query.
  pub find_docs_by_query-matches :
      (x : Text) (q : Value D)
      → has_empty_and q ≡ false
      → has_id x (or_empty (find_docs_by_query find_docs_for_member q))
        ≡ matches find_docs_for_member x q
  find_docs_by_query-matches = query-matches
