-- ===== src/Collection/Sound.antt =====
-- What holds of a collection's documents and indexes, and that each change of an entry keeps it.
use apx_db.Common.{
  ℕ, zero, suc, ◌≡◌, refl, subst, true, false, List, [], ◌∷◌, ◌++◌, Text, text_eq, text_eq→eq, All,
  arith, Bool-cases, inl, inr,
}
use apx_db.Query.Ids.{Ids, has_id, add_doc_id, remove_doc_id}
use apx_db.Query.IdLaws.{
  Distinct, Distinct-add_doc_id, has_id-add_doc_id, has_id-remove_doc_id, Distinct-remove_doc_id,
}
use apx_db.Collection.{Entry, IndexData, Collection, document_ids, change_at}
use apx_db.Collection.Entries.{
  add_doc_id_to_entry, remove_doc_id_from_entry, remove_from_entries, remove_doc_from_indexes,
}

-- All ids of `a` are in `b`.
abbrev pub IsSubset : Ids → Ids → Type 0
IsSubset a b = (x : Text) → has_id x a ≡ true → has_id x b ≡ true

module _ {D : Type 0} where
  -- An entry has an id once at most, and only ids of documents.
  abbrev pub IsEntrySound : Ids → Entry D → Type 0
  IsEntrySound ids e = Distinct e.doc_ids × IsSubset e.doc_ids ids

  abbrev pub IsIndexSound : Ids → IndexData D → Type 0
  IsIndexSound ids x = All (IsEntrySound ids) x.entries

  -- No two documents have the same id, and the indexes hold ids of documents only.
  pub record IsSound (c : Collection D) : Type 0 where
    pub distinct : Distinct (document_ids c.documents)
    pub indexed : All (IsIndexSound (document_ids c.documents)) c.index_data

pub All-change_at :
    {A : Type 0} (P : A → Type 0) (i : ℕ) (f : A → A) (xs : List A)
    → ((x : A) → P x → P (f x))
    → All P xs
    → All P (change_at i f xs)
All-change_at P i f [] k a = a
All-change_at P zero f (x ∷ xs) k (p, a) = (k x p, a)
All-change_at P (suc i) f (x ∷ xs) k (p, a) = (p, All-change_at P i f xs k a)

pub All-append_last :
    {A : Type 0} (P : A → Type 0) (xs : List A) (y : A) → All P xs → P y → All P (xs ++ y ∷ [])
All-append_last P [] y a p = (p, tt)
All-append_last P (x ∷ xs) y (q, a) p = (q, All-append_last P xs y a p)

All-imp :
    {A : Type 0} (P Q : A → Type 0) (xs : List A) → ((x : A) → P x → Q x) → All P xs → All Q xs
All-imp P Q [] k a = tt
All-imp P Q (x ∷ xs) k (p, a) = (k x p, All-imp P Q xs k a)

-- An entry that holds one id.
pub one_id_sound :
    (ids : Ids) (id : Text) → has_id id ids ≡ true → Distinct (id ∷ []) × IsSubset (id ∷ []) ids
unfolding has_id
one_id_sound ids id h = ((refl, tt), subset)
  where
    subset : IsSubset (id ∷ []) ids
    subset x a = elim (Bool-cases (text_eq id x)) [
      | inl f ↦ subst (λ y. has_id y ids ≡ true) (text_eq→eq id x f) h
      | inr f ↦ elim (absurd (rw f at a)) [ ]
    ]
      where
        absurd : false ≡ true → ⊥
        absurd e = cc

module _ {D : Type 0} where
  pub add_doc_id_to_entry_sound :
      (ids : Ids) (id : Text) (e : Entry D)
      → has_id id ids ≡ true
      → IsEntrySound ids e
      → IsEntrySound ids (add_doc_id_to_entry id e)
  unfolding add_doc_id_to_entry
  add_doc_id_to_entry_sound ids id e h (d, k) = (Distinct-add_doc_id e.doc_ids id d, subset)
    where
      subset : IsSubset (add_doc_id e.doc_ids id) ids
      subset x a = elim (Bool-cases (text_eq id x)) [
        | inl f ↦ subst (λ y. has_id y ids ≡ true) (text_eq→eq id x f) h
        | inr f ↦ k x (ground (arith, has_id-add_doc_id x id e.doc_ids, a, f))
      ]

  remove_doc_id_from_entry_sound :
      (ids : Ids) (id : Text) (e : Entry D)
      → Distinct ids
      → IsEntrySound ids e
      → IsEntrySound (remove_doc_id id ids) (remove_doc_id_from_entry id e).1
  unfolding remove_doc_id_from_entry
  remove_doc_id_from_entry_sound ids id e di (d, k) =
      (Distinct-remove_doc_id id e.doc_ids d, subset)
    where
      subset : IsSubset (remove_doc_id id e.doc_ids) (remove_doc_id id ids)
      subset x a =
          ground
            (arith, has_id-remove_doc_id x id e.doc_ids d, has_id-remove_doc_id x id ids di, k x, a)

  remove_from_entries_sound :
      (ids : Ids) (id : Text) (es : List (Entry D))
      → Distinct ids
      → All (IsEntrySound ids) es
      → All (IsEntrySound (remove_doc_id id ids)) (remove_from_entries id es)
  unfolding remove_from_entries
  remove_from_entries_sound ids id [] di a = tt
  remove_from_entries_sound ids id (e ∷ es) di (p, a) =
      (remove_doc_id_from_entry_sound ids id e di p, remove_from_entries_sound ids id es di a)

  pub remove_doc_from_indexes-sound :
      (ids : Ids) (id : Text) (xs : List (IndexData D))
      → Distinct ids
      → All (IsIndexSound ids) xs
      → All (IsIndexSound (remove_doc_id id ids)) (remove_doc_from_indexes id xs)
  unfolding remove_doc_from_indexes
  remove_doc_from_indexes-sound ids id [] di a = tt
  remove_doc_from_indexes-sound ids id (x ∷ xs) di (p, a) = (
    remove_from_entries_sound ids id x.entries di p,
    remove_doc_from_indexes-sound ids id xs di a,
  )

  -- More documents keep an index sound.
  pub IsIndexSound-subset :
      (a b : Ids) (xs : List (IndexData D))
      → IsSubset a b
      → All (IsIndexSound a) xs
      → All (IsIndexSound b) xs
  IsIndexSound-subset a b xs k = All-imp (IsIndexSound a) (IsIndexSound b) xs (λ x.
      All-imp (IsEntrySound a) (IsEntrySound b) x.entries (λ e (d, s). (d, λ y h. k y (s y h))))
