-- ===== src/Engine/Lookup.antt =====
-- A document that src/native/apxdb.c stores is found again by its id.
use apx_db.Common.{
  ℕ, ◌+◌, ◌^◌, ◌≤◌, ◌<◌, ◌≡◌, refl, ap, inl, inr, sym, ◌∙◌, drop, Bool-cases, Bool, true, false,
  ◌&&◌, List, [], ◌∷◌, ◌++◌, some, Text, arith, text_eq, text_eq→eq, text_eq_refl, codes,
}
use apx_db.Common.Int.{pos}
use apx_db.Libc.Decimal.{decimal, decimal_ℤ, decimal-injective}
use apx_db.Engine.{Engine, Document, opened}
use apx_db.Engine.Documents.{
  Memory, to_int32, document_id, new_document, create, apxdb_create_document,
  apxdb_create_document_bytes, find_bytes, find_text, contains, apxdb_get_document_bytes,
  apxdb_find_document,
}

-- The ids carry rising numbers above `lo`, up to `hi`.
abbrev pub Numbered : ℕ → ℕ → List Document → Type 0
Numbered lo hi [] = lo ≤ hi
Numbered lo hi (d ∷ ds) = (k : ℕ) × (lo < k) × (d.id ≡ document_id k) × Numbered k hi ds

pub document_id-decimal : (n : ℕ) → n < 2 ^ 31 → document_id n ≡ codes "doc_" ++ decimal n
unfolding document_id decimal_ℤ
document_id-decimal n h = rw (small n h)
  where
    small : (m : ℕ) → m < 2 ^ 31 → to_int32 m ≡ pos m
    small m lt = unfold to_int32 in ground arith

after_prefix : Text → Text
after_prefix text = drop 4 text

-- Below 2^31 no two documents share an id.
document_id-injective : (m n : ℕ) → m < 2 ^ 31 → n < 2 ^ 31 → document_id m ≡ document_id n → m ≡ n
unfolding after_prefix
document_id-injective m n hm hn e =
    decimal-injective m n
      (ap after_prefix (sym (document_id-decimal m hm) ∙ e ∙ document_id-decimal n hn))

document_id-ne : (m n : ℕ) → m < n → n < 2 ^ 31 → text_eq (document_id m) (document_id n) ≡ false
document_id-ne m n lt bound = elim (Bool-cases (text_eq (document_id m) (document_id n))) [
  | inl e ↦
      let same = document_id-injective m n (omega arith) bound (text_eq→eq _ _ e) in
      absurd (omega arith)
  | inr e ↦ e
]

pub Numbered-le : (lo hi : ℕ) (ds : List Document) → Numbered lo hi ds → lo ≤ hi
Numbered-le lo hi [] h = h
Numbered-le lo hi (d ∷ ds) (k, lt, e, rest) = omega (arith, Numbered-le k hi ds rest)

find_bytes-new :
    (lo hi : ℕ) (ds : List Document) (new : Document) (n : ℕ)
    → Numbered lo hi ds
    → hi < n
    → n < 2 ^ 31
    → new.id ≡ document_id n
    → find_bytes (document_id n) (ds ++ new ∷ []) ≡ some new.bytes
unfolding find_bytes
find_bytes-new lo hi [] new n h lt bound e = rw (e, text_eq_refl (document_id n))
find_bytes-new lo hi (d ∷ ds) new n (k, lt', e', rest) lt bound e =
    rw (e', document_id-ne k n (omega (arith, Numbered-le k hi ds rest)) bound)
      (find_bytes-new k hi ds new n rest lt bound e)

find_bytes-other :
    (ds : List Document) (new : Document) (id : Text)
    → text_eq new.id id ≡ false
    → find_bytes id (ds ++ new ∷ []) ≡ find_bytes id ds
unfolding find_bytes
find_bytes-other [] new id h = rw h
find_bytes-other (d ∷ ds) new id h = rw (find_bytes-other ds new id h)

pub Numbered-append :
    (lo hi : ℕ) (ds : List Document) (new : Document) (n : ℕ)
    → Numbered lo hi ds
    → hi < n
    → new.id ≡ document_id n
    → Numbered lo n (ds ++ new ∷ [])
Numbered-append lo hi [] new n h lt e = (n, omega arith, e, omega arith)
Numbered-append lo hi (d ∷ ds) new n (k, lt', e', rest) lt e =
    (k, lt', e', Numbered-append k hi ds new n rest lt e)

module _ {S : Type 0} where
  abbrev Created : Text → Bool → Engine S → Text × Engine S → Type 0
  Created bytes is_json e (id, e') =
      (id ≡ document_id (e.document_counter + 1))
      × (e'.documents ≡ e.documents ++ new_document bytes is_json e ∷ [])
      × (e'.state ≡ opened)
      × (e'.document_counter ≡ e.document_counter + 1)

  create-Created :
      (m : Memory) (bytes : Text) (is_json : Bool) (e : Engine S)
      → e.state ≡ opened
      → m.grows ≡ true
      → m.copies ≡ true
      → Created bytes is_json e (create m bytes is_json e)
  unfolding create
  create-Created m bytes is_json e o grows copies = ground arith

  get_document_bytes-opened :
      (id : Text) (e : Engine S)
      → e.state ≡ opened
      → apxdb_get_document_bytes (some id) e ≡ find_bytes id e.documents
  unfolding apxdb_get_document_bytes
  get_document_bytes-opened id e o = rw o

  -- While the counter is below 2^31 - 1 and memory lasts, what `apxdb_create_document_bytes`
  -- stores on an open engine with numbered documents is what `apxdb_get_document_bytes` returns
  -- for the id that it gave, every other id is found as before, and the documents stay numbered.
  pub get_document_bytes-create :
      (m : Memory) (b : ℕ) (bytes : Text) (e : Engine S)
      → e.state ≡ opened
      → Numbered 0 e.document_counter e.documents
      → e.document_counter + 1 < 2 ^ 31
      → m.grows ≡ true
      → m.copies ≡ true
      → let (id, e') = apxdb_create_document_bytes m (some (b ∷ bytes)) e in
        (apxdb_get_document_bytes (some id) e' ≡ some (b ∷ bytes))
        × ((other : Text)
            → text_eq id other ≡ false
            → apxdb_get_document_bytes (some other) e' ≡ apxdb_get_document_bytes (some other) e)
        × Numbered 0 e'.document_counter e'.documents
  unfolding apxdb_create_document_bytes
  get_document_bytes-create m b bytes e o numbered bound grows copies =
      let (id, docs, state, counter) = create-Created m (b ∷ bytes) false e o grows copies in
      let new = new_document (b ∷ bytes) false e in
      (
        get_document_bytes-opened _ _ state
            ∙ rw (id, docs)
                (find_bytes-new 0 _ e.documents new _ numbered (omega arith) bound refl),
        λ other ne.
            get_document_bytes-opened other _ state
            ∙ rw docs (find_bytes-other e.documents new other (rw id at ne))
            ∙ sym (get_document_bytes-opened other e o),
        rw (docs, counter) (Numbered-append 0 _ e.documents new _ numbered (omega arith) refl),
      )

-- No document contains the text, or has it as its id.
abbrev Silent : Text → List Document → Type 0
Silent query [] = Unit
Silent query (d ∷ ds) = ((d.is_json && contains query d.bytes) ≡ false) × Silent query ds

find_text-new :
    (lo hi : ℕ) (ds : List Document) (new : Document) (n : ℕ)
    → Numbered lo hi ds
    → hi < n
    → n < 2 ^ 31
    → new.id ≡ document_id n
    → new.is_json ≡ true
    → Silent (document_id n) ds
    → find_text (document_id n) (ds ++ new ∷ []) ≡ new.bytes
unfolding find_text
find_text-new lo hi [] new n h lt bound e json silent = rw (e, text_eq_refl (document_id n), json)
find_text-new lo hi (d ∷ ds) new n (k, lt', e', rest) lt bound e json silent =
    rw (e', document_id-ne k n (omega (arith, Numbered-le k hi ds rest)) bound, silent.0)
      (find_text-new k hi ds new n rest lt bound e json silent.1)

module _ {S : Type 0} (m : Memory) (json : Text) (e : Engine S) where
  find_document-opened :
      (query : Text) (e' : Engine S)
      → e'.state ≡ opened
      → apxdb_find_document (some query) e' ≡ find_text query e'.documents
  unfolding apxdb_find_document
  find_document-opened query e' o = rw o

  -- What `apxdb_create_document` stores on an open engine with numbered documents is what
  -- `apxdb_find_document` returns for the id that it gave, while the counter is below 2^31 - 1,
  -- memory lasts, and no JSON document stored before contains that id as text.
  pub find_document-create :
      e.state ≡ opened
      → Numbered 0 e.document_counter e.documents
      → e.document_counter + 1 < 2 ^ 31
      → m.grows ≡ true
      → m.copies ≡ true
      → Silent (document_id (e.document_counter + 1)) e.documents
      → let (id, e') = apxdb_create_document m (some json) e in
        apxdb_find_document (some id) e' ≡ json
  unfolding apxdb_create_document
  find_document-create o numbered bound grows copies silent =
      let (id, docs, state, counter) = create-Created m json true e o grows copies in
      find_document-opened _ _ state
      ∙ rw (id, docs)
          (find_text-new 0 _ e.documents (new_document json true e) _ numbered (omega arith) bound
            refl refl silent)

  -- On an open engine with numbered documents of which the first is a JSON document that contains
  -- the next id as text, while the counter is below 2^31 - 1 and memory lasts:
  -- `apxdb_create_document` gives that id to the new document, and a search for it finds the
  -- first document instead.
  pub find_document-create_hidden :
      (d : Document) (ds : List Document)
      → e.state ≡ opened
      → e.documents ≡ d ∷ ds
      → Numbered 0 e.document_counter e.documents
      → e.document_counter + 1 < 2 ^ 31
      → m.grows ≡ true
      → m.copies ≡ true
      → d.is_json ≡ true
      → contains (document_id (e.document_counter + 1)) d.bytes ≡ true
      → let (id, e') = apxdb_create_document m (some json) e in
        apxdb_find_document (some id) e' ≡ d.bytes
  unfolding apxdb_create_document
  find_document-create_hidden d ds o docs numbered bound grows copies is_json hit =
      let (id, docs', state, counter) = create-Created m json true e o grows copies in
      let (k, lt, same, rest) : Numbered 0 e.document_counter (d ∷ ds) = rw docs at numbered in
      find_document-opened _ _ state
      ∙ rw (id, docs', docs)
          (hides d (ds ++ new_document json true e ∷ []) (document_id (e.document_counter + 1))
            (rw same (document_id-ne k _ (omega (arith, Numbered-le k _ ds rest)) bound)) is_json
            hit)
    where
      hides :
          (d : Document) (ds : List Document) (query : Text)
          → text_eq d.id query ≡ false
          → d.is_json ≡ true
          → contains query d.bytes ≡ true
          → find_text query (d ∷ ds) ≡ d.bytes
      hides d ds query ne j c = unfold find_text in rw (ne, j, c)
