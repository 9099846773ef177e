-- ===== src/Query/Rounds.antt =====
-- `find_docs_by_query`: what one round of its loops answers for an id, and the rest of a loop.
use apx_db.Common.{
  ◌≡◌, ◌≢◌, subst, refl, Bool, true, false, ◌&&◌, ◌||◌, Option, none, some, if◌then◌else◌, Text,
  arith,
}
use apx_db.Query.Ids.{Ids, has_id, intersect_doc_id_lists}
use apx_db.Query.IdLaws.{has_id-intersect_doc_id_lists, has_id-union_doc_id_lists}
use apx_db.Query.Combine.{Round, stop, go, or_empty, narrowed, widened, plain_round}

pub or-first : (a b : Bool) → (a || b) ≡ false → a ≡ false
or-first a b h = ground (arith, h)

pub or-second : (a b : Bool) → (a || b) ≡ false → b ≡ false
or-second a b h = ground (arith, h)

pub chosen-and :
    (and? or? inside : Bool)
    → (if and? then inside else if or? then inside else false) ≡ false
    → and? ≡ true
    → inside ≡ false
chosen-and true or? inside h e = h
chosen-and false or? inside h e = cc

pub chosen-or :
    (and? or? inside : Bool)
    → (if and? then inside else if or? then inside else false) ≡ false
    → and? ≡ false
    → or? ≡ true
    → inside ≡ false
chosen-or true or? inside h e e' = h
chosen-or false true inside h e e' = h
chosen-or false false inside h e e' = cc

pub true-ne-false : true ≢ false
true-ne-false e = cc

-- A round of a loop answers `b` for the id.
abbrev pub Answers : Text → Bool → Round → Type 0
Answers x b stop = b ≡ false
Answers x b (go none) = ⊥
Answers x b (go (some ids)) = has_id x ids ≡ b

-- What `plain_round` makes of the ids that a lookup found.
pub plain_round-Answers :
    (x : Text) (found : Option Ids) → Answers x (has_id x (or_empty found)) (plain_round found)
unfolding has_id
plain_round-Answers x none = refl
plain_round-Answers x (some ids) = refl

-- The rest of a loop answers `all` on top of the result that it starts with.
abbrev pub Rest : Text → Bool → (Option Ids → Option Ids) → Type 0
Rest x all loop = (ids : Ids) → has_id x (or_empty (loop (some ids))) ≡ (has_id x ids && all)

abbrev continue : Round → (Option Ids → Option Ids) → Option Ids → Option Ids
continue round loop result = elim round [ stop ↦ none | go ids ↦ loop (narrowed result ids) ]

pub continue-first :
    (x : Text) (b all : Bool) (round : Round) (loop : Option Ids → Option Ids)
    → Answers x b round
    → Rest x all loop
    → has_id x (or_empty (continue round loop none)) ≡ (b && all)
unfolding has_id
continue-first x b all stop loop a r = ground (arith, a)
continue-first x b all (go none) loop a r = elim a [ ]
continue-first x b all (go (some ids)) loop a r = ground (arith, r ids, a)

pub continue-Rest :
    (x : Text) (b all : Bool) (round : Round) (loop : Option Ids → Option Ids)
    → Answers x b round
    → Rest x all loop
    → Rest x (b && all) (continue round loop)
unfolding has_id
continue-Rest x b all stop loop a r ids = ground (arith, a)
continue-Rest x b all (go none) loop a r ids = elim a [ ]
continue-Rest x b all (go (some found)) loop a r ids =
    ground
      (arith, r (intersect_doc_id_lists ids found), a, has_id-intersect_doc_id_lists x ids found)

-- The same for the children of `$and`, of which one that finds nothing returns from the function.
abbrev pub AllRest : Text → Bool → (Option Ids → Round) → Type 0
AllRest x all loop = (ids : Ids) → Answers x (has_id x ids && all) (loop (some ids))

abbrev continue_all : Option Ids → (Option Ids → Round) → Option Ids → Round
continue_all found loop result = elim found [
  | none ↦ stop
  | some ids ↦ loop (narrowed result (some ids))
]

pub continue_all-first :
    (x : Text) (b all : Bool) (found : Option Ids) (loop : Option Ids → Round)
    → has_id x (or_empty found) ≡ b
    → AllRest x all loop
    → Answers x (b && all) (continue_all found loop none)
unfolding has_id
continue_all-first x b all none loop a r = ground (arith, a)
continue_all-first x b all (some ids) loop a r =
    subst (λ c. Answers x (c && all) (loop (some ids))) a (r ids)

pub continue_all-AllRest :
    (x : Text) (b all : Bool) (found : Option Ids) (loop : Option Ids → Round)
    → has_id x (or_empty found) ≡ b
    → AllRest x all loop
    → AllRest x (b && all) (continue_all found loop)
unfolding has_id
continue_all-AllRest x b all none loop a r ids = ground (arith, a)
continue_all-AllRest x b all (some found) loop a r ids =
    subst (λ c. Answers x c (loop (some (intersect_doc_id_lists ids found)))) same
      (r (intersect_doc_id_lists ids found))
  where
    same : (has_id x (intersect_doc_id_lists ids found) && all) ≡ (has_id x ids && (b && all))
    same = ground (arith, has_id-intersect_doc_id_lists x ids found, a)

pub widened-matches :
    (x : Text) (r found : Option Ids)
    → has_id x (or_empty (widened r found)) ≡ (has_id x (or_empty r) || has_id x (or_empty found))
unfolding has_id
widened-matches x none none = refl
widened-matches x none (some ids) = refl
widened-matches x (some result) none = ground arith
widened-matches x (some result) (some ids) = has_id-union_doc_id_lists x result ids

-- A member by what its name is.
pub choose-Answers :
    (x : Text) (and? or? all any found : Bool) (all_round any_round found_round : Round)
    → (and? ≡ true → Answers x all all_round)
    → (and? ≡ false → or? ≡ true → Answers x any any_round)
    → Answers x found found_round
    → Answers x
        (if and? then all else if or? then any else found)
        (if and? then all_round else if or? then any_round else found_round)
choose-Answers x true or? all any found p q r a b c = a refl
choose-Answers x false true all any found p q r a b c = b refl refl
choose-Answers x false false all any found p q r a b c = c
