-- ===== src/Engine/Numbering.antt =====
-- The ids of the documents carry rising numbers, whatever calls src/native/apxdb.c has seen.
use apx_db.Common.{
  ℕ, ◌+◌, ◌^◌, ◌<◌, ◌≤◌, ◌≡◌, refl, ap, sym, ◌⊎◌, inl, inr, Bool, true, false, List, [], ◌∷◌, ◌++◌,
  none, some, Text, codes, ◌∙◌, arith,
}
use apx_db.Engine.{Engine, Document, Collections, start}
use apx_db.Engine.Documents.{
  Memory, new_document, document_id, create, apxdb_create_document, apxdb_create_document_bytes,
}
use apx_db.Engine.Lifecycle.{
  apxdb_set_gpu_enabled, apxdb_initialize, apxdb_shutdown, apxdb_open, apxdb_close,
}
use apx_db.Engine.Invariant.{
  Step, initialize, shutdown, opens, closes, set_gpu, create_json, create_bytes, Reach, here,
  then_step,
}
use apx_db.Engine.Lookup.{Numbered, Numbered-append, Numbered-le, document_id-decimal}
use apx_db.Libc.Decimal.{decimal}

abbrev IsNumbered : {S : Type 0} → Engine S → Type 0
IsNumbered e = Numbered 0 e.document_counter e.documents

-- The ids are "doc_" with numbers that rise, above `lo` and up to `hi`.
abbrev pub Rising : ℕ → ℕ → List Document → Type 0
Rising lo hi [] = lo ≤ hi
Rising lo hi (d ∷ ds) = (k : ℕ) × (lo < k) × (d.id ≡ codes "doc_" ++ decimal k) × Rising k hi ds

Numbered-Rising :
    (lo hi : ℕ) (ds : List Document) → hi < 2 ^ 31 → Numbered lo hi ds → Rising lo hi ds
Numbered-Rising lo hi [] bound h = h
Numbered-Rising lo hi (d ∷ ds) bound (k, lt, e, rest) =
    let within : k < 2 ^ 31 = omega (arith, Numbered-le k hi ds rest, bound) in
    (k, lt, e ∙ document_id-decimal k within, Numbered-Rising k hi ds bound rest)

Numbered-mono :
    (lo hi hi' : ℕ) (ds : List Document) → hi ≤ hi' → Numbered lo hi ds → Numbered lo hi' ds
Numbered-mono lo hi hi' [] le h = omega arith
Numbered-mono lo hi hi' (d ∷ ds) le (k, lt, e, rest) = (k, lt, e, Numbered-mono k hi hi' ds le rest)

-- A call leaves the documents and the counter, drops the documents, or adds one document.
abbrev Changes : {S : Type 0} → Engine S → Engine S → Type 0
Changes e e' =
    ((e'.documents ≡ e.documents) × (e.document_counter ≤ e'.document_counter))
    ⊎ (e'.documents ≡ [])
    ⊎ ((d : Document) × (e'.documents ≡ e.documents ++ d ∷ [])
        × (d.id ≡ document_id e'.document_counter)
        × (e'.document_counter ≡ e.document_counter + 1))

Numbered-Changes : {S : Type 0} (e e' : Engine S) → Changes e e' → IsNumbered e → IsNumbered e'
Numbered-Changes e e' (inl (docs, le)) h =
    rw docs (Numbered-mono 0 e.document_counter e'.document_counter e.documents le h)
Numbered-Changes e e' (inr (inl docs)) h = rw docs (omega arith)
Numbered-Changes e e' (inr (inr (d, docs, id, counter))) h =
    rw docs
      (Numbered-append 0 e.document_counter e.documents d e'.document_counter h (omega arith) id)

module _ {S : Type 0} where
  create_adds :
      (m : Memory) (bytes : Text) (is_json : Bool) (e : Engine S)
      → let e' = (create m bytes is_json e).1 in
        ((e'.documents ≡ e.documents) × (e.document_counter ≤ e'.document_counter))
        ⊎ ((e'.documents ≡ e.documents ++ new_document bytes is_json e ∷ [])
            × (e'.document_counter ≡ e.document_counter + 1))
  unfolding create
  create_adds m bytes is_json e = ground arith

  create-Changes :
      (m : Memory) (bytes : Text) (is_json : Bool) (e : Engine S)
      → Changes e (create m bytes is_json e).1
  create-Changes m bytes is_json e = elim (create_adds m bytes is_json e) [
    | inl same ↦ inl same
    | inr (docs, counter) ↦
        inr (inr (new_document bytes is_json e, docs, ap document_id (sym counter), counter))
  ]

  Step-Changes : (c : Collections S) {e e' : Engine S} → Step c e e' → Changes e e'
  unfolding apxdb_initialize apxdb_shutdown apxdb_open apxdb_close apxdb_set_gpu_enabled
      apxdb_create_document apxdb_create_document_bytes
  Step-Changes c {e} (initialize h) = ground arith
  Step-Changes c {e} shutdown = ground arith
  Step-Changes c {e} (opens h none) = inl (refl, omega arith)
  Step-Changes c {e} (opens h (some path)) = ground arith
  Step-Changes c {e} closes = ground arith
  Step-Changes c {e} (set_gpu enabled) = inl (refl, omega arith)
  Step-Changes c {e} (create_json m none) = inl (refl, omega arith)
  Step-Changes c {e} (create_json m (some json)) = create-Changes m json true e
  Step-Changes c {e} (create_bytes m none) = inl (refl, omega arith)
  Step-Changes c {e} (create_bytes m (some [])) = inl (refl, omega arith)
  Step-Changes c {e} (create_bytes m (some (b ∷ bytes))) = create-Changes m (b ∷ bytes) false e

  Reach-Numbered :
      (c : Collections S) (store : S) {e : Engine S}
      → Reach c (start store) e
      → Numbered 0 e.document_counter e.documents
  Reach-Numbered c store here = omega arith
  Reach-Numbered c store {e} (then_step {t} r s) =
      Numbered-Changes t e (Step-Changes c s) (Reach-Numbered c store r)

  -- After any calls since the start, while the counter is below 2^31, the ids of the documents are
  -- "doc_" with numbers that rise, above 0 and up to the counter.
  pub Reach-Rising :
      (c : Collections S) (store : S) {e : Engine S}
      → Reach c (start store) e
      → e.document_counter < 2 ^ 31
      → Rising 0 e.document_counter e.documents
  Reach-Rising c store {e} r bound =
      Numbered-Rising 0 e.document_counter e.documents bound (Reach-Numbered c store r)
