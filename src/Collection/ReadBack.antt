-- ===== src/Collection/ReadBack.antt =====
-- src/native/apxdb_collection.c: what is read back of numbers, texts and documents in a file.
use apx_db.Common.{
  ℕ, ◌^◌, ◌<◌, ◌≡◌, ◌≢◌, refl, ap, ◌∙◌, false, [], ◌∷◌, ◌++◌, append_assoc, some, Text, length,
  length-append, drop, take-append, drop-append, drop-append_at, ltb, ◌==◌, arith,
}
use apx_db.Blob.Scalars.{le_bytes}
use apx_db.Blob.Print.{c_string}
use apx_db.Blob.Agree.{length-le_bytes}
use apx_db.Blob.Written.{read_le-le_bytes}
use apx_db.Blob.ListMeets.{long_enough}
use apx_db.Collection.{StoredDocument}
use apx_db.Collection.Saved.{sized_text, saved_document}
use apx_db.Collection.Loaded.{
  read_bytes_from_file, read_uint_from_file, read_text, read_some_text, read_document,
}

pub read_uint-le_bytes :
    (k n : ℕ) (rest : Text)
    → n < 256 ^ k
    → read_uint_from_file k (le_bytes k n ++ rest) ≡ some (n, rest)
unfolding read_uint_from_file
read_uint-le_bytes k n rest h =
    let enough : ltb (length (le_bytes k n ++ rest)) k ≡ false =
      ground (arith, length-append (le_bytes k n) rest, length-le_bytes k n) in
    let left : drop k (le_bytes k n ++ rest) ≡ rest =
      drop-append_at k 0 (le_bytes k n) rest (omega (arith, length-le_bytes k n)) in
    rw (enough, left, read_le-le_bytes k n rest h) refl

pub read_bytes-append :
    (s rest : Text) → read_bytes_from_file (length s) (s ++ rest) ≡ some (s, rest)
unfolding read_bytes_from_file
read_bytes-append s rest = rw (long_enough s rest, take-append s rest, drop-append s rest) refl

-- A text that a file can hold: without NULs and of less than 2^32 bytes.
abbrev pub IsStorableText : Text → Type 0
IsStorableText s = (c_string s ≡ s) × (length s < 2 ^ 32)

read_text-sized_text :
    (s rest : Text) → IsStorableText s → read_text (sized_text s ++ rest) ≡ some (s, rest)
unfolding read_text
read_text-sized_text s rest h =
    rw
      (
        append_assoc (le_bytes 4 (length s)) s rest,
        read_uint-le_bytes 4 (length s) (s ++ rest) h.1,
        read_bytes-append s rest,
        h.0,
      )
      refl

not_empty : (c : ℕ) (s : Text) → (length (c ∷ s) == 0) ≡ false
not_empty c s = ground arith

pub read_some_text-sized_text :
    (s rest : Text)
    → IsStorableText s
    → s ≢ []
    → read_some_text (sized_text s ++ rest) ≡ some (s, rest)
unfolding read_some_text
read_some_text-sized_text [] rest h ne = absurd (ne refl)
read_some_text-sized_text (c ∷ s) rest h ne =
    rw
      (
        append_assoc (le_bytes 4 (length (c ∷ s))) (c ∷ s) rest,
        read_uint-le_bytes 4 (length (c ∷ s)) ((c ∷ s) ++ rest) h.1,
        read_bytes-append (c ∷ s) rest,
        h.0,
        not_empty c s,
      )
      refl

-- A document that a file can hold.
pub record IsSavable (d : StoredDocument) : Type 0 where
  pub has_id : d.id ≢ []
  pub id_fits : IsStorableText d.id
  pub json_fits : IsStorableText d.json
  pub blob_fits : length d.blob < 2 ^ 64

read_document-parts :
    (s s1 s2 s3 s4 id json blob : Text) (size : ℕ)
    → read_some_text s ≡ some (id, s1)
    → read_text s1 ≡ some (json, s2)
    → read_uint_from_file 8 s2 ≡ some (size, s3)
    → read_bytes_from_file size s3 ≡ some (blob, s4)
    → read_document s ≡ some (record { id = id; json = json; blob = blob }, s4)
unfolding read_document
read_document-parts s s1 s2 s3 s4 id json blob size a b c d = rw (a, b, c, d) refl

three_parts : (a b c rest : Text) → (a ++ (b ++ c)) ++ rest ≡ a ++ (b ++ (c ++ rest))
three_parts a b c rest = append_assoc a (b ++ c) rest ∙ ap (λ t. a ++ t) (append_assoc b c rest)

pub read_document-saved_document :
    (d : StoredDocument) (rest : Text)
    → IsSavable d
    → read_document (saved_document d ++ rest) ≡ some (d, rest)
unfolding saved_document
read_document-saved_document d rest h =
    let blob_part = le_bytes 8 (length d.blob) ++ d.blob in
    ap read_document (three_parts (sized_text d.id) (sized_text d.json) blob_part rest)
    ∙ read_document-parts _ _ _ _ _ _ _ _ _
        (read_some_text-sized_text d.id (sized_text d.json ++ (blob_part ++ rest)) h.id_fits
          h.has_id)
        (read_text-sized_text d.json (blob_part ++ rest) h.json_fits)
        (ap (read_uint_from_file 8) (append_assoc (le_bytes 8 (length d.blob)) d.blob rest)
          ∙ read_uint-le_bytes 8 (length d.blob) (d.blob ++ rest) h.blob_fits)
        (read_bytes-append d.blob rest)
