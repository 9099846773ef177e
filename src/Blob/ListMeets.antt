-- ===== src/Blob/ListMeets.antt =====
-- src/native/apxdb_collection.c: the loop over the elements of a list meets a query exactly when the value
-- of an element does. A null element puts no bytes into the list.
use apx_db.Common.{
  ℕ, zero, suc, ◌+◌, ◌-◌, ◌^◌, ◌≤◌, ◌<◌, ◌≡◌, refl, sym, subst, ap, ◌∙◌, Bool, true, false, ◌||◌,
  ◌⊎◌, inl, inr, [], ◌++◌, ltb, leb, Bool-cases, if◌then◌else◌, Text, length, length-append, drop,
  take-append, drop-append, arith,
}
use apx_db.Common.Outcome.{Outcome, returned, ◌>>=◌}
use apx_db.Libc.{Doubles}
use apx_db.Json.{Value, Items, no_items, item}
use apx_db.Schema.{
  Field, type_of, is_sized, FieldType, byte, short, int, float, double, boolean, text, datetime,
  embedded, enumeration, list_of,
}
use apx_db.Blob.Scalars.{le_bytes, scalar_type_size, Stores}
use apx_db.Blob.Write.{write_items, count_items, list_prefix}
use apx_db.Blob.Read.{Loads}
use apx_db.Blob.Match.{contains_element}
use apx_db.Blob.Agree.{>>=-eq-returned, require-eq-returned}
use apx_db.Blob.Written.{read_le-le_bytes}
use apx_db.Blob.Bytes.{IsInt64}
use apx_db.Blob.Meets.{IsPlain, item_meets, items_meet}

pub long_enough : (xs ys : Text) → ltb (length (xs ++ ys)) (length xs) ≡ false
long_enough xs ys = ground (arith, length-append xs ys)

pub drop-le_bytes : (n : ℕ) (xs : Text) → drop 4 (le_bytes 4 n ++ xs) ≡ xs
unfolding le_bytes
drop-le_bytes n xs = refl

pub four_bytes : (n : ℕ) (xs : Text) → ltb (length (le_bytes 4 n ++ xs)) 4 ≡ false
unfolding le_bytes
four_bytes n xs = ground arith

no_room :
    (type : FieldType) → IsPlain type → is_sized type ≡ false → ltb 0 (scalar_type_size type) ≡ true
unfolding scalar_type_size
no_room byte plain flat = refl
no_room short plain flat = refl
no_room int plain flat = refl
no_room float plain flat = refl
no_room double plain flat = refl
no_room boolean plain flat = refl
no_room text plain flat = cc
no_room datetime plain flat = refl
no_room embedded plain flat = cc
no_room enumeration plain flat = refl
no_room list_of plain flat = absurd (plain.1 refl)

returned-injective_text : (a b : Text) → returned a ≡ returned b → a ≡ b
returned-injective_text a b h = cc

found_or_later :
    (now later : Outcome Bool) (b met : Bool)
    → now ≡ returned b
    → later ≡ returned met
    → (now >>= λ found. if found then returned true else later) ≡ returned (b || met)
found_or_later now later true met n l = rw n refl
found_or_later now later false met n l = rw (n, l) refl

fits_behind : (k size b : ℕ) → leb (k + size) b ≡ true → size ≤ b - k
fits_behind k size b h = ground arith

shorter : (xs ys zs : Text) (bound : ℕ) → length (xs ++ (ys ++ zs)) < bound → length ys < bound
shorter xs ys zs bound h = omega (arith, length-append xs (ys ++ zs), length-append ys zs, h)

pub shorter_last :
    (xs ys zs : Text) (bound : ℕ) → length (xs ++ (ys ++ zs)) < bound → length zs < bound
shorter_last xs ys zs bound h = omega (arith, length-append xs (ys ++ zs), length-append ys zs, h)

-- The integers of the elements are those of an `int64_t`.
abbrev pub AllInt64 : {D : Type 0} → Items D → Type 0
AllInt64 no_items = Unit {0}
AllInt64 (item v vs) = IsInt64 v × AllInt64 vs

module _ {D : Type 0} ⦃fp : Doubles D⦄ (field_matches : Field → Text → Value D → Outcome Bool) where
  contains_element-nil :
      (m : ℕ) (e : Field) (query : Value D)
      → IsPlain (type_of e)
      → contains_element field_matches m e [] query ≡ returned false
  unfolding contains_element
  contains_element-nil zero e query plain = refl
  contains_element-nil (suc m) e query plain = elim (Bool-cases (is_sized (type_of e))) [
    | inl sz ↦ rw sz refl
    | inr flat ↦ rw (flat, no_room (type_of e) plain flat) refl
  ]

  sized_step :
      (m : ℕ) (e : Field) (query : Value D) (bytes rest : Text)
      → is_sized (type_of e) ≡ true
      → length bytes < 2 ^ 32
      → contains_element field_matches
          (suc m)
          e
          (le_bytes 4 (length bytes) ++ (bytes ++ rest))
          query
        ≡ (field_matches e bytes query >>= λ found.
            if found then returned true else contains_element field_matches m e rest query)
  unfolding contains_element
  sized_step m e query bytes rest sz le =
      rw
        (
          sz,
          read_le-le_bytes 4 (length bytes) (bytes ++ rest) le,
          four_bytes (length bytes) (bytes ++ rest),
          drop-le_bytes (length bytes) (bytes ++ rest),
          long_enough bytes rest,
          take-append bytes rest,
          drop-append bytes rest,
        )
        refl

  flat_step :
      (m : ℕ) (e : Field) (query : Value D) (bytes rest : Text)
      → is_sized (type_of e) ≡ false
      → scalar_type_size (type_of e) ≡ length bytes
      → contains_element field_matches (suc m) e (bytes ++ rest) query ≡ (
          field_matches e bytes query >>= λ found.
          if found then returned true else contains_element field_matches m e rest query)
  unfolding contains_element
  flat_step m e query bytes rest flat size =
      rw (flat, size, long_enough bytes rest, take-append bytes rest, drop-append bytes rest) refl

module _ {D : Type 0} ⦃fp : Doubles D⦄ ⦃st : Stores D⦄ ⦃ld : Loads D⦄
    (size_of : Field → Value D → Outcome ℕ) (write : Field → Value D → ℕ → Outcome Text)
    (field_matches : Field → Text → Value D → Outcome Bool) (e : Field) (query : Value D) where
  -- An element's bytes: as many as are read again, and they meet the query if the element does.
  pub record IsElement (v : Value D) (size : ℕ) (bytes : Text) : Type 0 where
    pub size_is : length bytes ≡ size
    pub read_again : (is_sized (type_of e) ≡ true) ⊎ (scalar_type_size (type_of e) ≡ length bytes)
    pub meets :
        length bytes < 2 ^ 32
        → field_matches e bytes query ≡ returned (item_meets (type_of e) v query)

  -- A null element of fixed size has no bytes.
  pub record IsNothing (v : Value D) (bytes : Text) : Type 0 where
    pub no_bytes : bytes ≡ []
    pub no_length : is_sized (type_of e) ≡ false
    pub not_met : item_meets (type_of e) v query ≡ false

  flat_size :
      {v : Value D} {size : ℕ} {bytes : Text}
      → IsElement v size bytes
      → is_sized (type_of e) ≡ false
      → scalar_type_size (type_of e) ≡ length bytes
  flat_size el flat = elim el.read_again [ inl sized ↦ cc | inr n ↦ n ]

  contains_element-item :
      (m k : ℕ) (v : Value D) (size : ℕ) (bytes rest : Text) (met : Bool)
      → IsElement v size bytes ⊎ IsNothing v bytes
      → length (list_prefix e size ++ (bytes ++ rest)) < 2 ^ 32
      → suc k ≤ m
      → ((n : ℕ) → k ≤ n → contains_element field_matches n e rest query ≡ returned met)
      → contains_element field_matches m e (list_prefix e size ++ (bytes ++ rest)) query
        ≡ returned (item_meets (type_of e) v query || met)
  contains_element-item zero k v size bytes rest met item_read le enough later =
      absurd (omega arith)
  contains_element-item (suc m) k v size bytes rest met (inr none_read) le enough later =
      rw (none_read.no_bytes, none_read.no_length, none_read.not_met) (later (suc m) (omega arith))
  contains_element-item (suc m) k v size bytes rest met (inl el) le enough later =
      let short = shorter (list_prefix e size) bytes rest (2 ^ 32) le in
      let now = el.meets short in
      let then_rest = later m (omega arith) in
      elim (Bool-cases (is_sized (type_of e))) [
        | inl sized ↦
            rw (sized, sym el.size_is)
              (sized_step field_matches m e query bytes rest sized short
                ∙ found_or_later _ _ (item_meets (type_of e) v query) met now then_rest)
        | inr flat ↦ rw flat (
            flat_step field_matches m e query bytes rest flat (flat_size el flat)
            ∙ found_or_later _ _ (item_meets (type_of e) v query) met now then_rest)
      ]

  pub contains_element-write_items :
      ((v : Value D) (size b : ℕ) (bytes : Text)
        → IsInt64 v
        → size ≤ b
        → size_of e v ≡ returned size
        → write e v b ≡ returned bytes
        → IsElement v size bytes ⊎ IsNothing v bytes)
      → IsPlain (type_of e)
      → (vs : Items D) (m b : ℕ) (bytes : Text) → AllInt64 vs
      → count_items vs ≤ m
      → length bytes < 2 ^ 32
      → write_items size_of write e vs b ≡ returned bytes
      → contains_element field_matches m e bytes query ≡ returned (items_meet (type_of e) vs query)
  unfolding write_items count_items items_meet
  contains_element-write_items reads plain no_items m b bytes ints enough le h =
      let no_bytes : bytes ≡ [] = returned-injective_text bytes [] (sym h) in
      rw no_bytes (contains_element-nil field_matches m e query plain)
  contains_element-write_items reads plain (item v vs) m b bytes ints enough le h =
      let (size, size_eq, h1) = >>=-eq-returned (size_of e v) _ bytes h in
      let (fit, h2) = require-eq-returned (leb (length (list_prefix e size) + size) b) _ bytes h1 in
      let (now, now_eq, h3) =
        >>=-eq-returned (write e v (b - length (list_prefix e size))) _ bytes h2 in
      let (rest, rest_eq, h4) =
        >>=-eq-returned
          (write_items size_of write e vs (b - length (list_prefix e size) - length now)) _ bytes
          h3 in
      let placed = returned-injective_text bytes (list_prefix e size ++ (now ++ rest)) (sym h4) in
      let short : length (list_prefix e size ++ (now ++ rest)) < 2 ^ 32 =
        subst (λ t. length t < 2 ^ 32) placed le in
      ap (λ t. contains_element field_matches m e t query) placed
      ∙ contains_element-item m (count_items vs) v size now rest (items_meet (type_of e) vs query)
          (reads v size _ now ints.0 (fits_behind _ size b fit) size_eq now_eq) short enough
          (λ n some_more.
            contains_element-write_items reads plain vs n _ rest ints.1 some_more
              (shorter_last (list_prefix e size) now rest (2 ^ 32) short) rest_eq)
