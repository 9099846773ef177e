-- ===== src/Query/IdLaws.antt =====
-- The lists of ids as sets, and that an index entry never holds an id twice.
use apx_db.Common.{
  ◌≡◌, refl, Bool, true, false, ◌&&◌, ◌||◌, not, [], ◌∷◌, ◌++◌, if◌then◌else◌, Text, text_eq,
  text_eq_refl, text_eq→eq, Bool-cases, inl, inr, arith,
}
use apx_db.Query.Ids.{
  Ids, has_id, intersect_doc_id_lists, add_doc_id, add_doc_ids, union_doc_id_lists, remove_doc_id,
}

-- No id stands in the list twice.
abbrev pub Distinct : Ids → Type 0
Distinct [] = Unit
Distinct (x ∷ xs) = (has_id x xs ≡ false) × Distinct xs

has_id-eq : (x y : Text) (b : Ids) → text_eq x y ≡ true → has_id x b ≡ has_id y b
has_id-eq x y b e = rw (text_eq→eq x y e)

pub has_id-append : (x : Text) (a b : Ids) → has_id x (a ++ b) ≡ (has_id x a || has_id x b)
unfolding has_id
has_id-append x [] b = refl
has_id-append x (y ∷ a) b = ground (arith, has_id-append x a b)

-- An id is in the result of `intersect_doc_id_lists` exactly when it is in both lists.
pub has_id-intersect_doc_id_lists :
    (x : Text) (a b : Ids) → has_id x (intersect_doc_id_lists a b) ≡ (has_id x a && has_id x b)
unfolding has_id intersect_doc_id_lists
has_id-intersect_doc_id_lists x [] b = refl
has_id-intersect_doc_id_lists x (y ∷ a) b =
    ground (arith, has_id-intersect_doc_id_lists x a b, has_id-eq y x b)

pub has_id-add_doc_id :
    (x y : Text) (r : Ids) → has_id x (add_doc_id r y) ≡ (has_id x r || text_eq y x)
unfolding add_doc_id
has_id-add_doc_id x y r = ground (arith, has_id-append x r (y ∷ []), has_id-eq y x r, has_one)
  where
    has_one : has_id x (y ∷ []) ≡ text_eq y x
    has_one = unfold has_id in ground arith

has_id-add_doc_ids :
    (x : Text) (r a : Ids) → has_id x (add_doc_ids r a) ≡ (has_id x r || has_id x a)
unfolding add_doc_ids has_id
has_id-add_doc_ids x r [] = ground arith
has_id-add_doc_ids x r (y ∷ a) =
    ground (arith, has_id-add_doc_ids x (add_doc_id r y) a, has_id-add_doc_id x y r)

-- An id is in the result of `union_doc_id_lists` exactly when it is in one of the lists.
pub has_id-union_doc_id_lists :
    (x : Text) (a b : Ids) → has_id x (union_doc_id_lists a b) ≡ (has_id x a || has_id x b)
unfolding union_doc_id_lists
has_id-union_doc_id_lists x a b =
    ground (arith, has_id-add_doc_ids x (add_doc_ids [] a) b, has_id-add_doc_ids x [] a, empty)
  where
    empty : has_id x [] ≡ false
    empty = unfold has_id in refl

pub text_eq-flip : (y x : Text) → text_eq y x ≡ false → text_eq x y ≡ false
text_eq-flip y x e = elim (Bool-cases (text_eq x y)) [
  | inl e' ↦ cc (e, text_eq→eq x y e', text_eq_refl x)
  | inr e' ↦ e'
]

pub Distinct-append_one :
    (r : Ids) (x : Text) → Distinct r → has_id x r ≡ false → Distinct (r ++ x ∷ [])
unfolding has_id
Distinct-append_one [] x d h = (refl, tt)
Distinct-append_one (y ∷ r) x (dy, d) h = elim (Bool-cases (text_eq y x)) [
  | inl e ↦ ground (arith, h, e)
  | inr e ↦ (kept e, Distinct-append_one r x d (other e))
]
  where
    other : text_eq y x ≡ false → has_id x r ≡ false
    other e = ground (arith, h, e)

    kept : text_eq y x ≡ false → has_id y (r ++ x ∷ []) ≡ false
    kept e = ground (arith, has_id-append y r (x ∷ []), dy, text_eq-flip y x e)

pub Distinct-add_doc_id : (r : Ids) (x : Text) → Distinct r → Distinct (add_doc_id r x)
unfolding add_doc_id
Distinct-add_doc_id r x d = elim (Bool-cases (has_id x r)) [
  | inl e ↦ rw e d
  | inr e ↦ rw e (Distinct-append_one r x d e)
]

Distinct-add_doc_ids : (r a : Ids) → Distinct r → Distinct (add_doc_ids r a)
unfolding add_doc_ids
Distinct-add_doc_ids r [] d = d
Distinct-add_doc_ids r (x ∷ a) d =
    Distinct-add_doc_ids (add_doc_id r x) a (Distinct-add_doc_id r x d)

-- The result of `union_doc_id_lists` has every id once.
pub Distinct-union_doc_id_lists : (a b : Ids) → Distinct (union_doc_id_lists a b)
unfolding union_doc_id_lists
Distinct-union_doc_id_lists a b =
    Distinct-add_doc_ids (add_doc_ids [] a) b (Distinct-add_doc_ids [] a tt)

-- From a list that has every id once, `remove_doc_id` takes the given id, and no other.
pub has_id-remove_doc_id :
    (x id : Text) (r : Ids)
    → Distinct r
    → has_id x (remove_doc_id id r) ≡ (has_id x r && not (text_eq id x))
unfolding has_id remove_doc_id
has_id-remove_doc_id x id [] d = refl
has_id-remove_doc_id x id (y ∷ r) (dy, d) = elim (Bool-cases (text_eq y id)) [
  | inl e ↦ rw e (first (text_eq→eq y id e))
  | inr e ↦ rw e (later e (has_id-remove_doc_id x id r d))
]
  where
    first : y ≡ id → has_id x r ≡ ((if text_eq y x then true else has_id x r) && not (text_eq id x))
    first e = elim (Bool-cases (text_eq id x)) [
      | inl f ↦ rw (e, f) (gone f)
      | inr f ↦ rw (e, f) (and_true (has_id x r))
    ]
      where
        gone : text_eq id x ≡ true → has_id x r ≡ false
        gone f = rw (← text_eq→eq id x f, ← e) dy

        and_true : (b : Bool) → b ≡ (b && true)
        and_true b = ground arith

    later :
        text_eq y id ≡ false
        → has_id x (remove_doc_id id r) ≡ (has_id x r && not (text_eq id x))
        → (if text_eq y x then true else has_id x (remove_doc_id id r))
          ≡ ((if text_eq y x then true else has_id x r) && not (text_eq id x))
    later e h = elim (Bool-cases (text_eq y x)) [ inl f ↦ rw (f, other f) refl | inr f ↦ rw f h ]
      where
        other : text_eq y x ≡ true → text_eq id x ≡ false
        other f = rw (← text_eq→eq y x f) (text_eq-flip y id e)

pub Distinct-remove_doc_id : (id : Text) (r : Ids) → Distinct r → Distinct (remove_doc_id id r)
unfolding remove_doc_id
Distinct-remove_doc_id id [] d = tt
Distinct-remove_doc_id id (y ∷ r) (dy, d) = elim (Bool-cases (text_eq y id)) [
  | inl e ↦ rw e d
  | inr e ↦ rw e (kept, Distinct-remove_doc_id id r d)
]
  where
    kept : has_id y (remove_doc_id id r) ≡ false
    kept = ground (arith, has_id-remove_doc_id y id r d, dy)
