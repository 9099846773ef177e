-- ===== src/Blob/PrintLists.antt =====
-- src/native/apxdb_collection.c: how `append_json_from_payload` prints a list of texts that
-- `serialize_field_payload` wrote.
use apx_db.Common.{
  ℕ, suc, ◌+◌, ◌-◌, leb, ◌/◌, ◌%◌, ◌^◌, ◌<◌, ◌≡◌, refl, sym, ap, ◌∙◌, Bool, true, false, List, [],
  ◌∷◌, ◌++◌, if◌then◌else◌, Text, codes, length, take-append, drop-append, All, arith,
}
use apx_db.Common.Int.{ℤ}
use apx_db.Common.Outcome.{Outcome, returned, failed, ◌>>=◌, ◌>>◌, require}
use apx_db.Libc.{Doubles}
use apx_db.Json.{Items, string, array, item, no_items}
use apx_db.Json.Strings.{append_json_string}
use apx_db.Schema.{SchemaRef, Field, field, EnumStrategy, text, list_of}
use apx_db.Blob.Scalars.{le_bytes, Stores}
use apx_db.Blob.Size.{compute_field_payload_size, size_by_type, scalar_size}
use apx_db.Blob.Write.{
  write_scalar, write_items, write_list, write_by_type, count_items, serialize_field_payload,
}
use apx_db.Blob.Read.{Loads}
use apx_db.Blob.Agree.{>>=-eq-returned}
use apx_db.Blob.Print.{
  comma, c_string, append_elements, append_element, append_list, append_json_from_payload,
}
use apx_db.Blob.Written.{read_le-le_bytes}
use apx_db.Blob.ListMeets.{four_bytes, drop-le_bytes, long_enough}

-- An element that was written, and what was written behind it.
item_written :
    (a c : Bool) (size element bytes : Text) (later : Text → Outcome Text)
    → (require a
        >> ((if c then returned element else failed) >>= λ e.
            later e >>= λ rest. returned (size ++ (e ++ rest))))
      ≡ returned bytes
    → (rest : Text) × (later element ≡ returned rest) × (bytes ≡ size ++ (element ++ rest))
item_written true true size element bytes later h =
    let (rest, e, k) = >>=-eq-returned (later element) _ bytes h in (rest, e, cc)
item_written true false size element bytes later h = cc
item_written false c size element bytes later h = cc

list_written :
    (a : Bool) (count bytes : Text) (items : Outcome Text)
    → (require a >> (items >>= λ rest. returned (count ++ rest))) ≡ returned bytes
    → (rest : Text) × (items ≡ returned rest) × (bytes ≡ count ++ rest)
list_written true count bytes items h =
    let (rest, e, k) = >>=-eq-returned items _ bytes h in (rest, e, cc)
list_written false count bytes items h = cc

-- The bytes of a text's length up to the first that is zero.
abbrev length_text : Text → Text
length_text s = c_string (le_bytes 3 (length s))

c_string-le_bytes :
    (n : ℕ) (s : Text) → n < 2 ^ 24 → c_string (le_bytes 4 n ++ s) ≡ c_string (le_bytes 3 n)
unfolding c_string le_bytes
c_string-le_bytes n s h = let top : n / 256 / 256 / 256 % 256 ≡ 0 = omega arith in rw top refl

abbrev pub items_of : {D : Type 0} → List Text → Items D
items_of [] = no_items
items_of (s ∷ ss) = item (string s) (items_of ss)

-- The elements as they are written: each behind its size, and the text behind its length.
abbrev written_texts : List Text → Text
written_texts [] = []
written_texts (s ∷ ss) =
    le_bytes 4 (4 + length s) ++ ((le_bytes 4 (length s) ++ s) ++ written_texts ss)

-- The elements as they are printed: in the place of each text the bytes of its length.
abbrev pub printed_lengths : Bool → List Text → Text
printed_lengths first [] = codes "]"
printed_lengths first (s ∷ ss) =
    comma first ++ (append_json_string (length_text s) ++ printed_lengths false ss)

count_items-items_of : (D : Type 0) (ss : List Text) → count_items (items_of {D = D} ss) ≡ length ss
unfolding count_items
count_items-items_of D [] = refl
count_items-items_of D (s ∷ ss) = ap suc (count_items-items_of D ss)

length_of_element : (s : Text) → length (le_bytes 4 (length s) ++ s) ≡ 4 + length s
unfolding le_bytes
length_of_element s = omega arith

module _ (D : Type 0) ⦃fp : Doubles D⦄ ⦃st : Stores D⦄ ⦃ld : Loads D⦄ (fresh : ℕ → ℕ) (name : Text)
    (nullable : Bool) (embeds : SchemaRef) (element_schema : SchemaRef) (strategy : EnumStrategy)
    (values : List (Text × ℤ)) where
  abbrev texts_field : Field
  texts_field = field name list_of nullable embeds text element_schema strategy values

  abbrev text_element : Field
  text_element = field name text nullable element_schema text element_schema strategy values

  items_written :
      (n : ℕ) (ss : List Text) (remaining : ℕ) (bytes : Text)
      → write_items
          (compute_field_payload_size {D = D} (suc n))
          (serialize_field_payload fresh (suc n))
          text_element
          (items_of ss)
          remaining
        ≡ returned bytes
      → bytes ≡ written_texts ss
  unfolding write_items serialize_field_payload write_by_type write_scalar
      compute_field_payload_size size_by_type scalar_size
  items_written n [] remaining bytes h = cc
  items_written n (s ∷ ss) remaining bytes h =
      let prefix = le_bytes 4 (4 + length s) in
      let (rest, e, k) =
        item_written (leb (length prefix + (4 + length s)) remaining)
          (leb (4 + length s) (remaining - length prefix)) prefix (le_bytes 4 (length s) ++ s) bytes
          (λ now.
            write_items (compute_field_payload_size {D = D} (suc n))
              (serialize_field_payload fresh (suc n)) text_element (items_of ss)
              (remaining - length prefix - length now))
          h in
      k
      ∙ ap (λ t. le_bytes 4 (4 + length s) ++ ((le_bytes 4 (length s) ++ s) ++ t))
          (items_written n ss _ rest e)

  texts_written :
      (n : ℕ) (ss : List Text) (b : ℕ) (bytes : Text)
      → serialize_field_payload {D = D} fresh (suc (suc n)) texts_field (array (items_of ss)) b
        ≡ returned bytes
      → bytes ≡ le_bytes 4 (length ss) ++ written_texts ss
  unfolding serialize_field_payload write_by_type write_list
  texts_written n ss b bytes h =
      let (rest, e, k) =
        list_written (leb 4 b) (le_bytes 4 (count_items (items_of {D = D} ss))) bytes
          (write_items (compute_field_payload_size {D = D} (suc n))
            (serialize_field_payload fresh (suc n)) text_element (items_of ss) (b - 4))
          h in
      k
      ∙ ap (λ t. le_bytes 4 (count_items (items_of {D = D} ss)) ++ t) (items_written n ss _ rest e)
      ∙ ap (λ c. le_bytes 4 c ++ written_texts ss) (count_items-items_of D ss)

  element_printed :
      (append : Field → Text → Outcome Text) (count : ℕ) (bytes rest : Text) (first : Bool)
      → length bytes < 2 ^ 32
      → append_elements append
          (suc count)
          text_element
          (le_bytes 4 (length bytes) ++ (bytes ++ rest))
          first
        ≡ (append_elements append count text_element rest false >>= λ others.
            returned (comma first ++ (append_json_string (c_string bytes) ++ others)))
  unfolding append_elements append_element
  element_printed append count bytes rest first h =
      rw
        (
          read_le-le_bytes 4 (length bytes) (bytes ++ rest) h,
          four_bytes (length bytes) (bytes ++ rest),
          drop-le_bytes (length bytes) (bytes ++ rest),
          long_enough bytes rest,
          take-append bytes rest,
          drop-append bytes rest,
        )
        refl

  elements_printed :
      (append : Field → Text → Outcome Text) (ss : List Text) (first : Bool)
      → All (λ s. length s < 2 ^ 24) ss
      → append_elements append (length ss) text_element (written_texts ss) first
        ≡ returned (printed_lengths first ss)
  elements_printed append [] first a = unfold append_elements in refl
  elements_printed append (s ∷ ss) first (short, a) =
      let element = le_bytes 4 (length s) ++ s in
      ap
        (λ k.
          append_elements append (suc (length ss)) text_element
            (le_bytes 4 k ++ (element ++ written_texts ss)) first)
        (sym (length_of_element s))
      ∙ element_printed append (length ss) element (written_texts ss) first
          (omega (arith, length_of_element s))
      ∙ rw (elements_printed append ss false a, c_string-le_bytes (length s) s short) refl

  list_printed :
      (m : ℕ) (count : ℕ) (bytes : Text)
      → count < 2 ^ 32
      → append_json_from_payload D (suc m) texts_field (le_bytes 4 count ++ bytes) ≡ (
          append_elements (append_json_from_payload D m) count text_element bytes true
          >>= λ elements. returned (codes "[" ++ elements))
  unfolding append_json_from_payload append_list
  list_printed m count bytes h =
      rw (four_bytes count bytes, read_le-le_bytes 4 count bytes h, drop-le_bytes count bytes) refl

  -- A list of texts, as `serialize_field_payload` writes it, is printed by `append_json_from_payload` with
  -- the bytes of its length, up to the first that is zero, in the place of each text. The texts have less
  -- than 2^24 bytes each, and there are less than 2^32 of them.
  pub append_json_from_payload-serialize_field_payload :
      (n m : ℕ) (ss : List Text) (b : ℕ) (bytes : Text)
      → All (λ s. length s < 2 ^ 24) ss
      → length ss < 2 ^ 32
      → serialize_field_payload {D = D} fresh (suc (suc n)) texts_field (array (items_of ss)) b
        ≡ returned bytes
      → append_json_from_payload D (suc m) texts_field bytes
        ≡ returned (codes "[" ++ printed_lengths true ss)
  append_json_from_payload-serialize_field_payload n m ss b bytes a few h =
      ap (append_json_from_payload D (suc m) texts_field) (texts_written n ss b bytes h)
      ∙ list_printed m (length ss) (written_texts ss) few
      ∙ rw (elements_printed (append_json_from_payload D m) ss true a) refl
