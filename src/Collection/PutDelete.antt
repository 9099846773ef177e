-- ===== src/Collection/PutDelete.antt =====
-- Storing and deleting a document keep a collection sound.
use apx_db.Common.{
  ◌≡◌, refl, subst, ap, Bool, true, false, ◌||◌, List, [], ◌∷◌, ◌++◌, Text, text_eq, text_eq_refl,
  if◌then◌else◌, All, arith, Bool-cases, inl, inr,
}
use apx_db.Libc.{Doubles}
use apx_db.Json.{Value}
use apx_db.Query.Ids.{Ids, has_id, remove_doc_id}
use apx_db.Query.IdLaws.{Distinct-append_one, Distinct-remove_doc_id, has_id-append}
use apx_db.Collection.{StoredDocument, Collection, document_ids}
use apx_db.Collection.Entries.{remove_doc_from_indexes}
use apx_db.Collection.Indexing.{Payloads, index_document}
use apx_db.Collection.Operations.{append_document, put_stored, remove_document, delete_stored}
use apx_db.Collection.Sound.{
  IsSound, IsIndexSound, IsSubset, IsIndexSound-subset, remove_doc_from_indexes-sound,
}
use apx_db.Collection.IndexSound.{index_document-Kept}

pub document_ids-append :
    (ds : List StoredDocument) (d : StoredDocument)
    → document_ids (ds ++ d ∷ []) ≡ document_ids ds ++ d.id ∷ []
unfolding document_ids
document_ids-append [] d = refl
document_ids-append (x ∷ ds) d = ap (λ ids. x.id ∷ ids) (document_ids-append ds d)

document_ids-remove_document :
    (id : Text) (ds : List StoredDocument)
    → document_ids (remove_document id ds) ≡ remove_doc_id id (document_ids ds)
unfolding document_ids remove_document remove_doc_id
document_ids-remove_document id [] = refl
document_ids-remove_document id (d ∷ ds) = elim (Bool-cases (text_eq d.id id)) [
  | inl e ↦ rw e refl
  | inr e ↦ rw e (ap (λ ids. d.id ∷ ids) (document_ids-remove_document id ds))
]

-- The id that was added last goes again.
remove_doc_id-append :
    (id : Text) (ids : Ids) → has_id id ids ≡ false → remove_doc_id id (ids ++ id ∷ []) ≡ ids
unfolding remove_doc_id has_id
remove_doc_id-append id [] h = rw (text_eq_refl id) refl
remove_doc_id-append id (y ∷ ids) h = elim (Bool-cases (text_eq y id)) [
  | inl e ↦ cc (rw e at h)
  | inr e ↦ rw e (ap (λ xs. y ∷ xs) (remove_doc_id-append id ids (rw e at h)))
]

pub IsSubset-append : (a b : Ids) → IsSubset a (a ++ b)
IsSubset-append a b x h = ground (arith, has_id-append x a b, h)

pub has_id-append_one : (id : Text) (ids : Ids) → has_id id (ids ++ id ∷ []) ≡ true
has_id-append_one id ids = rw (has_id-append id ids (id ∷ [])) (last (has_id id ids))
  where
    last : (b : Bool) → (b || has_id id (id ∷ [])) ≡ true
    last b = unfold has_id in rw (text_eq_refl id) (or_true b)
      where
        or_true : (c : Bool) → (c || true) ≡ true
        or_true c = ground arith

module _ {D : Type 0} where
  pub delete_stored-IsSound :
      (id : Text) (c : Collection D) → IsSound c → IsSound (delete_stored id c).1
  unfolding delete_stored
  delete_stored-IsSound id c v = elim (Bool-cases (has_id id (document_ids c.documents))) [
    | inr e ↦ rw e v
    | inl e ↦ rw e deleted
  ]
    where
      deleted : IsSound (record c {
        index_data = remove_doc_from_indexes id c.index_data;
        documents = remove_document id c.documents;
        gpu_column_caches = [];
        dirty = true;
      })
      deleted = record {
        distinct =
            rw (document_ids-remove_document id c.documents)
              (Distinct-remove_doc_id id (document_ids c.documents) v.distinct);
        indexed = rw (document_ids-remove_document id c.documents) (
            remove_doc_from_indexes-sound (document_ids c.documents) id c.index_data v.distinct
              v.indexed);
      }

module _ {D : Type 0} where
  -- The collection with the document, before it is indexed.
  abbrev pub with_document : StoredDocument → Collection D → Collection D
  with_document doc c = record c {
    documents = c.documents ++ doc ∷ [];
    gpu_column_caches = [];
    dirty = true;
  }

  abbrev pub indexed_result :
      StoredDocument → Collection D → Bool × Collection D → Bool × Collection D
  indexed_result doc c (indexed, c2) = if indexed then (true, c2) else (
    false,
    record c2 {
      documents = c.documents;
      index_data = remove_doc_from_indexes doc.id c2.index_data;
    },
  )

  indexed_result-IsSound :
      (doc : StoredDocument) (c : Collection D) (b : Bool) (c2 : Collection D)
      → IsSound c
      → has_id doc.id (document_ids c.documents) ≡ false
      → All (IsIndexSound (document_ids c.documents ++ doc.id ∷ [])) c2.index_data
      → c2.documents ≡ c.documents ++ doc ∷ []
      → IsSound (indexed_result doc c (b, c2)).1
  indexed_result-IsSound doc c true c2 s fresh a same = record {
    distinct =
        rw (same, document_ids-append c.documents doc)
          (Distinct-append_one (document_ids c.documents) doc.id s.distinct fresh);
    indexed = rw (same, document_ids-append c.documents doc) a;
  }
  indexed_result-IsSound doc c false c2 s fresh a same = record {
    distinct = s.distinct;
    indexed =
        subst (λ ids. All (IsIndexSound ids) (remove_doc_from_indexes doc.id c2.index_data))
          (remove_doc_id-append doc.id (document_ids c.documents) fresh)
          (remove_doc_from_indexes-sound (document_ids c.documents ++ doc.id ∷ []) doc.id
            c2.index_data (Distinct-append_one (document_ids c.documents) doc.id s.distinct fresh)
            a);
  }

module _ {D : Type 0} ⦃fp : Doubles D⦄ where
  -- Whether the indexes take the document or not.
  pub put_stored-IsSound :
      (p : Payloads D) (doc : StoredDocument) (v : Value D) (c : Collection D)
      → IsSound c
      → IsSound (put_stored p doc v c).1
  unfolding put_stored append_document
  put_stored-IsSound p doc v c s = elim (Bool-cases (has_id doc.id (document_ids c.documents))) [
    | inl e ↦ rw e s
    | inr e ↦
        let ids = document_ids c.documents in
        let r = index_document p doc v (with_document doc c) in
        let (a, same) =
          index_document-Kept (ids ++ doc.id ∷ []) doc.id (has_id-append_one doc.id ids) p doc v
            (with_document doc c) refl
            (IsIndexSound-subset ids (ids ++ doc.id ∷ []) c.index_data
              (IsSubset-append ids (doc.id ∷ [])) s.indexed) in
        rw e (indexed_result-IsSound doc c r.0 r.1 s e a same)
  ]
