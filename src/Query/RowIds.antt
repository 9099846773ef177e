-- ===== src/Query/RowIds.antt =====
-- The ids of the documents that meet a member, one document at a time.
use apx_db.Common.{
  ℕ, zero, suc, ◌≡◌, refl, subst, ap, ◌∙◌, Bool, true, false, List, [], ◌∷◌, some, inl, inr,
  Bool-cases, if◌then◌else◌, Text, text_eq, text_eq→eq, text_eq_refl, get_elem?, arith,
}
use apx_db.Libc.{Doubles}
use apx_db.Json.{Value}
use apx_db.Schema.{Schema}
use apx_db.Blob.Scalars.{Stores}
use apx_db.Blob.Read.{Loads}
use apx_db.Query.Ids.{Ids, has_id}
use apx_db.Query.IdLaws.{Distinct}
use apx_db.Query.ScanMeets.{document_meets, ids_meeting, documents_of}
use apx_db.Collection.{StoredDocument, document_ids}
use apx_db.Query.Searchable.{clash}

not_first : (b c : Bool) → (if b then true else c) ≡ false → (b ≡ false) × (c ≡ false)
not_first b c h = (ground arith, ground arith)

either_way :
    (meets : Bool) (x y : Text) (ids : Ids)
    → text_eq y x ≡ false
    → has_id x ids ≡ false
    → has_id x (if meets then y ∷ ids else ids) ≡ false
unfolding has_id
either_way true x y ids e h = rw (e, h) refl
either_way false x y ids e h = h

first_row :
    (meets : Bool) (x : Text) (ids : Ids)
    → has_id x ids ≡ false
    → has_id x (if meets then x ∷ ids else ids) ≡ meets
unfolding has_id
first_row true x ids h = rw (text_eq_refl x) refl
first_row false x ids h = h

other_row :
    (meets : Bool) (x y : Text) (ids : Ids)
    → text_eq y x ≡ false
    → has_id x (if meets then y ∷ ids else ids) ≡ has_id x ids
unfolding has_id
other_row true x y ids e = rw e refl
other_row false x y ids e = refl

pub differs :
    (y x : Text) (ids : Ids) → has_id y ids ≡ false → has_id x ids ≡ true → text_eq y x ≡ false
differs y x ids missing there = elim (Bool-cases (text_eq y x)) [
  | inl e ↦
      absurd (clash (has_id y ids) missing (ap (λ t. has_id t ids) (text_eq→eq y x e) ∙ there))
  | inr e ↦ e
]

same_row : {A : Type 0} (r row : A) → some r ≡ some row → r ≡ row
same_row r row h = cc

has_id-document_ids :
    {D : Type 0} (rows : List (StoredDocument × Value D)) (i : ℕ) (row : StoredDocument × Value D)
    → get_elem? rows i ≡ some row
    → has_id row.0.id (document_ids (documents_of rows)) ≡ true
unfolding has_id document_ids
has_id-document_ids [] i row h = cc
has_id-document_ids (r ∷ rows) zero row h =
    subst (λ t. has_id t.0.id (document_ids (documents_of (r ∷ rows))) ≡ true) (same_row r row h)
      (rw (text_eq_refl r.0.id) refl)
has_id-document_ids (r ∷ rows) (suc i) row h = rw (has_id-document_ids rows i row h) (ground arith)

module _ {D : Type 0} ⦃fp : Doubles D⦄ ⦃st : Stores D⦄ ⦃ld : Loads D⦄ where
  -- The documents that are left out are not found.
  has_id-ids_meeting_none :
      (x : Text) (s : Schema) (name : Text) (query : Value D)
      (rows : List (StoredDocument × Value D))
      → has_id x (document_ids (documents_of rows)) ≡ false
      → has_id x (ids_meeting s name query rows) ≡ false
  unfolding has_id ids_meeting document_ids
  has_id-ids_meeting_none x s name query [] h = refl
  has_id-ids_meeting_none x s name query (row ∷ rows) h =
      let (other, later) =
        not_first (text_eq row.0.id x) (has_id x (document_ids (documents_of rows))) h in
      either_way (document_meets s name query row.1) x row.0.id (ids_meeting s name query rows)
        other (has_id-ids_meeting_none x s name query rows later)

  pub has_id-ids_meeting :
      (s : Schema) (name : Text) (query : Value D) (rows : List (StoredDocument × Value D)) (i : ℕ)
      (row : StoredDocument × Value D)
      → Distinct (document_ids (documents_of rows))
      → get_elem? rows i ≡ some row
      → has_id row.0.id (ids_meeting s name query rows) ≡ document_meets s name query row.1
  unfolding has_id ids_meeting document_ids
  has_id-ids_meeting s name query [] i row distinct h = cc
  has_id-ids_meeting s name query (r ∷ rows) zero row distinct h =
      subst
        (λ t. has_id t.0.id (ids_meeting s name query (r ∷ rows)) ≡ document_meets s name query t.1)
        (same_row r row h)
        (first_row (document_meets s name query r.1) r.0.id (ids_meeting s name query rows)
          (has_id-ids_meeting_none r.0.id s name query rows distinct.0))
  has_id-ids_meeting s name query (r ∷ rows) (suc i) row distinct h =
      other_row (document_meets s name query r.1) row.0.id r.0.id (ids_meeting s name query rows) (
        differs r.0.id row.0.id (document_ids (documents_of rows)) distinct.0
          (has_id-document_ids rows i row h))
      ∙ has_id-ids_meeting s name query rows i row distinct.1 h
