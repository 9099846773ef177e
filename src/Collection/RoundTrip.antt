-- ===== src/Collection/RoundTrip.antt =====
-- What is found after a document was stored or deleted.
use apx_db.Common.{
  ◌≡◌, ◌⊎◌, refl, sym, subst, Bool, true, false, List, [], ◌∷◌, ◌++◌, Option, none, some, Text,
  text_eq, text_eq→eq, text_eq_refl, if◌then◌else◌, arith, Bool-cases, Option-cases, inl, inr,
}
use apx_db.Libc.{Doubles}
use apx_db.Json.{Value}
use apx_db.Json.Parser.{apxdb_json_parse}
use apx_db.Blob.Scalars.{Stores}
use apx_db.Query.Ids.{has_id}
use apx_db.Query.IdLaws.{Distinct, text_eq-flip}
use apx_db.Collection.{StoredDocument, Collection, document_ids, find_document_by_id}
use apx_db.Collection.Transactions.{success}
use apx_db.Collection.Indexing.{Payloads, index_document}
use apx_db.Collection.Store.{Blobs}
use apx_db.Collection.Operations.{
  append_document, put_stored, parsed, document_blob, put_conforming, remove_document,
  delete_stored,
}
use apx_db.Collection.Sound.{IsSound, IsIndexSound-subset}
use apx_db.Collection.PutDelete.{with_document, indexed_result, has_id-append_one, IsSubset-append}
use apx_db.Collection.IndexSound.{index_document-Kept}

find_document_by_id-append :
    (ds : List StoredDocument) (d : StoredDocument)
    → has_id d.id (document_ids ds) ≡ false
    → find_document_by_id (ds ++ d ∷ []) d.id ≡ some d
unfolding find_document_by_id has_id document_ids
find_document_by_id-append [] d h = rw (text_eq_refl d.id) refl
find_document_by_id-append (x ∷ ds) d h = ground (arith, find_document_by_id-append ds d)

find_document_by_id-fresh :
    (ds : List StoredDocument) (id : Text)
    → has_id id (document_ids ds) ≡ false
    → find_document_by_id ds id ≡ none
unfolding find_document_by_id has_id document_ids
find_document_by_id-fresh [] id h = refl
find_document_by_id-fresh (x ∷ ds) id h = ground (arith, find_document_by_id-fresh ds id)

find_document_by_id-remove_document :
    (ds : List StoredDocument) (id x : Text)
    → Distinct (document_ids ds)
    → find_document_by_id (remove_document id ds) x
      ≡ (if text_eq id x then none else find_document_by_id ds x)
unfolding find_document_by_id remove_document document_ids
find_document_by_id-remove_document [] id x d = ground arith
find_document_by_id-remove_document (y ∷ ds) id x (dy, d) = elim (Bool-cases (text_eq y.id id)) [
  | inl e ↦ rw e (first e)
  | inr e ↦ rw e (later e (find_document_by_id-remove_document ds id x d))
]
  where
    first :
        text_eq y.id id ≡ true
        → find_document_by_id ds x ≡ (
            if text_eq id x
            then none
            else if text_eq y.id x
            then some y
            else find_document_by_id ds x)
    first e = elim (Bool-cases (text_eq id x)) [
      | inl f ↦ rw f (find_document_by_id-fresh ds x (gone f))
      | inr f ↦ rw (f, text_eq→eq y.id id e, f) refl
    ]
      where
        gone : text_eq id x ≡ true → has_id x (document_ids ds) ≡ false
        gone f = rw (← text_eq→eq id x f, ← text_eq→eq y.id id e) dy

    later :
        text_eq y.id id ≡ false
        → find_document_by_id (remove_document id ds) x
          ≡ (if text_eq id x then none else find_document_by_id ds x)
        → (if text_eq y.id x then some y else find_document_by_id (remove_document id ds) x) ≡ (
            if text_eq id x
            then none
            else if text_eq y.id x
            then some y
            else find_document_by_id ds x)
    later e h = elim (Bool-cases (text_eq y.id x)) [ inl f ↦ rw (f, other f) refl | inr f ↦ rw f h ]
      where
        other : text_eq y.id x ≡ true → text_eq id x ≡ false
        other f = rw (← text_eq→eq y.id x f) (text_eq-flip y.id id e)

module _ {D : Type 0} where
  -- In a sound collection, after a deletion that succeeds, the document is found no more, and
  -- every other one is found as before.
  pub find_document_by_id-delete_stored :
      (id x : Text) (c : Collection D)
      → IsSound c
      → (delete_stored id c).0 ≡ success
      → find_document_by_id (delete_stored id c).1.documents x
        ≡ (if text_eq id x then none else find_document_by_id c.documents x)
  unfolding delete_stored
  find_document_by_id-delete_stored id x c v h =
      elim (Bool-cases (has_id id (document_ids c.documents))) [
        | inl e ↦ rw e (find_document_by_id-remove_document c.documents id x v.distinct)
        | inr e ↦ cc (rw e at h)
      ]

module _ {D : Type 0} where
  -- The document is the last one now, and its id is new; or the documents are what they were.
  abbrev IsStored : StoredDocument → Collection D → Bool × Collection D → Type 0
  IsStored doc c (stored, c') =
      ((stored ≡ true)
        × (c'.documents ≡ c.documents ++ doc ∷ [])
        × (has_id doc.id (document_ids c.documents) ≡ false))
      ⊎ ((stored ≡ false) × (c'.documents ≡ c.documents))

  indexed_result-IsStored :
      (doc : StoredDocument) (c : Collection D) (b : Bool) (c2 : Collection D)
      → has_id doc.id (document_ids c.documents) ≡ false
      → c2.documents ≡ c.documents ++ doc ∷ []
      → IsStored doc c (indexed_result doc c (b, c2))
  indexed_result-IsStored doc c true c2 fresh same = inl (refl, same, fresh)
  indexed_result-IsStored doc c false c2 fresh same = inr (refl, refl)

module _ {D : Type 0} ⦃fp : Doubles D⦄ where
  put_stored-fresh :
      (p : Payloads D) (doc : StoredDocument) (v : Value D) (c : Collection D)
      → has_id doc.id (document_ids c.documents) ≡ false
      → put_stored p doc v c ≡ indexed_result doc c (index_document p doc v (with_document doc c))
  unfolding put_stored append_document
  put_stored-fresh p doc v c e = rw e refl

  put_stored-IsStored :
      (p : Payloads D) (doc : StoredDocument) (v : Value D) (c : Collection D)
      → IsSound c
      → IsStored doc c (put_stored p doc v c)
  unfolding put_stored append_document
  put_stored-IsStored p doc v c s = elim (Bool-cases (has_id doc.id (document_ids c.documents))) [
    | inl e ↦ rw e (inr (refl, refl))
    | inr e ↦
        let ids = document_ids c.documents in
        let r = index_document p doc v (with_document doc c) in
        let (a, same) =
          index_document-Kept (ids ++ doc.id ∷ []) doc.id (has_id-append_one doc.id ids) p doc v
            (with_document doc c) refl
            (IsIndexSound-subset ids (ids ++ doc.id ∷ []) c.index_data
              (IsSubset-append ids (doc.id ∷ [])) s.indexed) in
        subst (IsStored doc c) (sym (put_stored-fresh p doc v c e))
          (indexed_result-IsStored doc c r.0 r.1 e same)
  ]

module _ {D : Type 0} where
  -- Either the id was returned, and the document with the text is found under it; or nothing was
  -- returned, and the documents are what they were.
  abbrev pub IsPut : Text → Text → Collection D → Option Text × Collection D → Type 0
  IsPut id json c (result, c') =
      ((result ≡ some id)
        × ((blob : Text) × (find_document_by_id c'.documents id
              ≡ some (record { id = id; json = json; blob = blob }))))
      ⊎ ((result ≡ none) × (c'.documents ≡ c.documents))

  IsStored-IsPut :
      (id json blob : Text) (c : Collection D) (r : Bool × Collection D)
      → IsStored (record { id = id; json = json; blob = blob }) c r
      → IsPut id json c ((if r.0 then some id else none), r.1)
  IsStored-IsPut id json blob c (b, c') (inl (e, same, fresh)) = rw e (
      inl (
        refl,
        (
          blob,
          rw same (
              find_document_by_id-append c.documents (record { id = id; json = json; blob = blob })
                fresh),
        ),
      ))
  IsStored-IsPut id json blob c (b, c') (inr (e, same)) = rw e (inr (refl, same))

module _ {D : Type 0} ⦃fp : Doubles D⦄ ⦃st : Stores D⦄ where
  -- In a sound collection, `put_conforming` returns the id, and the document with the text is
  -- then found under it, or it returns nothing, and the documents are what they were.
  pub put_conforming-IsPut :
      (blobs : Blobs D) (id : Text) (c : Collection D) (json : Text)
      → IsSound c
      → IsPut id json c (put_conforming blobs id c json)
  unfolding put_conforming
  put_conforming-IsPut blobs id c json s =
      elim (Option-cases (parsed {D = D} (apxdb_json_parse json))) [
        | inl e ↦ rw (e, put_conforming) (inr (refl, refl))
        | inr (v, e) ↦ elim (Option-cases (document_blob blobs c v)) [
          | inl g ↦ rw (e, g, put_conforming) (inr (refl, refl))
          | inr (blob, g) ↦
              let doc : StoredDocument = record { id = id; json = json; blob = blob } in
              rw (e, g, put_conforming)
                (IsStored-IsPut id json blob c (put_stored blobs.payloads doc v c)
                  (put_stored-IsStored blobs.payloads doc v c s))
        ]
      ]
