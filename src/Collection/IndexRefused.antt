-- ===== src/Collection/IndexRefused.antt =====
-- src/native/apxdb_collection.c: `save_collection_index_file` writes the signature in front of the name,
-- where `load_collection_index_file` looks for the name's length.
use apx_db.Common.{
  ℕ, zero, suc, ◌/◌, ◌%◌, ◌^◌, ◌<◌, ◌≡◌, refl, sym, subst, ap, ◌∙◌, true, false, [], ◌∷◌, ◌++◌,
  append_assoc, none, some, inl, inr, Bool-cases, Option-cases, Text, text_eq, text_eq→eq,
  text_eq_refl, length, take, drop, arith,
}
use apx_db.Blob.Scalars.{le_bytes, Stores}
use apx_db.Blob.Read.{Loads, read_le}
use apx_db.Blob.Print.{c_string}
use apx_db.Engine.Documents.{is_prefix}
use apx_db.Collection.{Collection}
use apx_db.Collection.Saved.{
  sized_text, saved_header, index_magic, index_file, signature_of, name_text,
}
use apx_db.Collection.Loaded.{read_bytes_from_file, read_uint_from_file, read_some_text}
use apx_db.Collection.IndexFile.{
  index_refused, read_index_header, read_index_definitions, load_collection_index_file,
}
use apx_db.Collection.ReadBack.{read_uint-le_bytes, read_bytes-append}

-- What is read up to a NUL is the beginning of what stands in front of it.
c_string-take : (k : ℕ) (xs tail : Text) → is_prefix (c_string (take k (xs ++ 0 ∷ tail))) xs ≡ true
unfolding c_string is_prefix
c_string-take zero xs tail = refl
c_string-take (suc k) [] tail = refl
c_string-take (suc k) (x ∷ xs) tail = ground (arith, c_string-take k xs tail)

-- Whatever text is read there, it ends in front of the highest byte of the name's length.
read_some_text-prefix :
    (s xs tail t rest : Text)
    → drop 4 s ≡ xs ++ 0 ∷ tail
    → read_some_text s ≡ some (t, rest)
    → is_prefix t xs ≡ true
unfolding read_some_text read_uint_from_file read_bytes_from_file
read_some_text-prefix s xs tail t rest e h =
    let same : t ≡ c_string (take (read_le 4 s) (drop 4 s)) = ground arith in
    subst (λ u. is_prefix u xs ≡ true) (sym (same ∙ ap (λ u. c_string (take (read_le 4 s) u)) e))
      (c_string-take (read_le 4 s) xs tail)

three_parts :
    (a b d e rest : Text) → (a ++ (b ++ (d ++ e))) ++ rest ≡ a ++ (b ++ (d ++ (e ++ rest)))
three_parts a b d e rest =
    append_assoc a (b ++ (d ++ e)) rest
    ∙ ap (λ t. a ++ t) (append_assoc b (d ++ e) rest)
    ∙ ap (λ t. a ++ (b ++ t)) (append_assoc d e rest)

-- A text that is read there is not `name`.
abbrev Differs : Text → Text → Type 0
Differs name s = (t rest : Text) → read_some_text s ≡ some (t, rest) → text_eq t name ≡ false

module _ {D : Type 0} where
  -- The bytes of the name as the code reads it, up to the highest byte of the name's length: the upper half
  -- of the signature, and the name's length.
  abbrev pub misread_name : Collection D → Text
  misread_name c = drop 4 (le_bytes 8 (signature_of c)) ++ le_bytes 3 (length (name_text c))

  behind_signature :
      (c : Collection D) (rest : Text)
      → length (name_text c) < 2 ^ 24
      → drop 4 (le_bytes 8 (signature_of c) ++ (sized_text (name_text c) ++ rest))
        ≡ misread_name c ++ 0 ∷ (name_text c ++ rest)
  unfolding le_bytes
  behind_signature c rest h =
      let top : length (name_text c) / 256 / 256 / 256 % 256 ≡ 0 = omega arith in
      ap (λ b. misread_name c ++ b ∷ (name_text c ++ rest)) top

  name-Differs :
      (c : Collection D) (rest : Text)
      → is_prefix (name_text c) (misread_name c) ≡ false
      → length (name_text c) < 2 ^ 24
      → Differs (name_text c) (le_bytes 8 (signature_of c) ++ (sized_text (name_text c) ++ rest))
  name-Differs c rest other hi t r h = elim (Bool-cases (text_eq t (name_text c))) [
    | inr e ↦ e
    | inl e ↦
        let begins : is_prefix t (misread_name c) ≡ true =
          read_some_text-prefix _ (misread_name c) (name_text c ++ rest) t r
            (behind_signature c rest hi) h in
        let same = text_eq→eq t (name_text c) e in
        let both : is_prefix (name_text c) (misread_name c) ≡ true =
          subst (λ u. is_prefix u (misread_name c) ≡ true) same begins in
        cc
  ]

  refused_name :
      (c : Collection D) (s s1 s2 magic : Text)
      → read_bytes_from_file 8 s ≡ some (magic, s1)
      → text_eq magic index_magic ≡ true
      → read_uint_from_file 4 s1 ≡ some (3, s2)
      → Differs (name_text c) s2
      → read_index_header c s ≡ none
  unfolding read_index_header
  refused_name c s s1 s2 magic a b d f = elim (Option-cases (read_some_text s2)) [
    | inl missing ↦ rw (a, b, d, missing) refl
    | inr ((t, rest), k) ↦ rw (a, b, d, k, f t rest k) refl
  ]

module _ {D : Type 0} ⦃ld : Loads D⦄ (zero_double : D) where
  pub load_collection_index_file-none :
      (c : Collection D) (s : Text)
      → read_index_header c s ≡ none
      → load_collection_index_file zero_double s c ≡ index_refused
  unfolding load_collection_index_file read_index_definitions
  load_collection_index_file-none c s h =
      rw (h, load_collection_index_file, read_index_definitions) refl

module _ {D : Type 0} ⦃st : Stores D⦄ ⦃ld : Loads D⦄ (zero_double : D) where
  header_refused :
      (c : Collection D) (rest : Text)
      → is_prefix (name_text c) (misread_name c) ≡ false
      → length (name_text c) < 2 ^ 24
      → read_index_header c (saved_header index_magic 3 c ++ rest) ≡ none
  unfolding saved_header
  header_refused c rest other hi =
      let behind = le_bytes 8 (signature_of c) ++ (sized_text (name_text c) ++ rest) in
      ap (read_index_header c) (
        three_parts index_magic (le_bytes 4 3) (le_bytes 8 (signature_of c))
          (sized_text (name_text c)) rest)
      ∙ refused_name c (index_magic ++ (le_bytes 4 3 ++ behind)) (le_bytes 4 3 ++ behind) behind
          index_magic (read_bytes-append index_magic (le_bytes 4 3 ++ behind))
          (text_eq_refl index_magic) (read_uint-le_bytes 4 3 behind (omega arith))
          (name-Differs c rest other hi)

  -- The index file that `save_collection_index_file` writes is refused by `load_collection_index_file`, for
  -- every collection whose name is not how the four upper bytes of the schema's signature, followed by the
  -- three lower bytes of the name's length, begin. No name of more than 7 bytes is; the name has less than
  -- 2^24 bytes.
  pub load_collection_index_file-index_file :
      (c : Collection D)
      → is_prefix (name_text c) (misread_name c) ≡ false
      → length (name_text c) < 2 ^ 24
      → load_collection_index_file zero_double (index_file c) c ≡ index_refused
  unfolding index_file
  load_collection_index_file-index_file c other hi =
      load_collection_index_file-none zero_double c (index_file c) (header_refused c _ other hi)
