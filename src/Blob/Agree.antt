-- ===== src/Blob/Agree.antt =====
-- The size that `compute_field_payload_size` announces is the number of bytes that
-- `serialize_field_payload` writes, and it writes them into every buffer of at least that size, but
-- for fields with embedded objects.
use apx_db.Common.{
  ℕ, zero, suc, ◌+◌, ◌-◌, ◌/◌, ◌≤◌, ◌≡◌, refl, ap, ◌≢◌, Bool, true, false, ◌++◌, Option, none, some,
  leb, Text, length, length-append, arith,
}
use apx_db.Common.Int.{pos, in_range, int32_min, int32_max}
use apx_db.Common.Outcome.{Outcome, returned, failed, out_of_fuel, of_option, ◌>>=◌, ◌>>◌, require}
use apx_db.Libc.{Doubles}
use apx_db.Json.{Value, Items, null, bool, number, string, array, no_items, item}
use apx_db.Schema.{
  Field, field, type_of, element_field, list_element_type, FieldType, byte, short, int, float,
  double, boolean, text, datetime, embedded, enumeration, list_of,
}
use apx_db.Blob.Scalars.{parse_integer_value, parse_numeric_value, le_bytes, pattern_of, Stores}
use apx_db.Blob.Size.{
  in_list, scalar_size, size_items, size_list, size_by_type, compute_field_payload_size,
}
use apx_db.Blob.Write.{
  fits, write_scalar, list_prefix, write_items, write_list, count_items, write_by_type,
  serialize_field_payload,
}

pub length-le_bytes : (k n : ℕ) → length (le_bytes k n) ≡ k
unfolding le_bytes
length-le_bytes zero n = refl
length-le_bytes (suc k) n = omega (arith, length-le_bytes k (n / 256))

-- How much was written.
abbrev pub measured : Outcome Text → Outcome ℕ
measured r = r >>= λ bytes. returned (length bytes)

measured-eq-returned :
    (r : Outcome Text) (k : ℕ)
    → measured r ≡ returned k
    → (bytes : Text) × (r ≡ returned bytes) × (length bytes ≡ k)
measured-eq-returned (returned bytes) k h = (bytes, refl, cc)
measured-eq-returned failed k h = cc
measured-eq-returned out_of_fuel k h = cc

pub >>=-eq-returned :
    {A B : Type 0} (m : Outcome A) (f : A → Outcome B) (b : B)
    → (m >>= f) ≡ returned b
    → (a : A) × (m ≡ returned a) × (f a ≡ returned b)
>>=-eq-returned (returned a) f b h = (a, refl, h)
>>=-eq-returned failed f b h = cc
>>=-eq-returned out_of_fuel f b h = cc

pub require-eq-returned :
    {B : Type 0} (t : Bool) (m : Outcome B) (b : B)
    → (require t >> m) ≡ returned b
    → (t ≡ true) × (m ≡ returned b)
require-eq-returned true m b h = (refl, h)
require-eq-returned false m b h = cc

measured-fits :
    (b k : ℕ) (bytes : Text) → k ≤ b → length bytes ≡ k → measured (fits b k bytes) ≡ returned k
measured-fits b k bytes le e = ground arith

-- A value read from an option and tested, and bytes of a fixed length.
measured-fixed :
    {A : Type 0} (o : Option A) (t : A → Bool) (k size b : ℕ) (bytes : A → Text)
    → ((a : A) → length (bytes a) ≡ k)
    → (of_option o >>= λ a. require (t a) >> returned k) ≡ returned size
    → size ≤ b
    → measured (of_option o >>= λ a. require (t a) >> fits b k (bytes a)) ≡ returned size
measured-fixed none t k size b bytes len h le = cc
measured-fixed (some a) t k size b bytes len h le =
    let (passed, same) = require-eq-returned (t a) (returned k) size h in
    let e : k ≡ size = ground arith in
    rw (passed, ← e) (measured-fits b k (bytes a) (rw (← e) at le) (len a))

module _ {D : Type 0} ⦃fp : Doubles D⦄ ⦃st : Stores D⦄ where
  write_scalar-scalar_size :
      (type : FieldType) (v : Value D) (size b : ℕ)
      → scalar_size type v ≡ returned size
      → size ≤ b
      → measured (write_scalar type v b) ≡ returned size
  unfolding scalar_size write_scalar
  write_scalar-scalar_size byte v size b h le =
      measured-fixed (parse_integer_value v) (λ z. in_range (pos 0) (pos 255) z) 1 size b _
        (λ z. length-le_bytes 1 (pattern_of 8 z)) h le
  write_scalar-scalar_size short v size b h le =
      measured-fixed (parse_integer_value v) (λ z. in_range int32_min int32_max z) 4 size b _
        (λ z. length-le_bytes 4 (pattern_of 32 z)) h le
  write_scalar-scalar_size int v size b h le =
      measured-fixed (parse_integer_value v) (λ _. true) 8 size b _
        (λ z. length-le_bytes 8 (pattern_of 64 z)) h le
  write_scalar-scalar_size datetime v size b h le =
      measured-fixed (parse_numeric_value v) (λ _. true) 8 size b _
        (λ d. length-le_bytes 8 (pattern_of 64 (st.to_int64 d))) h le
  write_scalar-scalar_size enumeration v size b h le =
      measured-fixed (parse_integer_value v) (λ _. true) 8 size b _
        (λ z. length-le_bytes 8 (pattern_of 64 z)) h le
  write_scalar-scalar_size float (number w z d) size b h le =
      ground (arith, length-le_bytes 4 (st.float_bits d))
  write_scalar-scalar_size double (number w z d) size b h le =
      ground (arith, length-le_bytes 8 (st.double_bits d))
  write_scalar-scalar_size boolean (bool x) size b h le = ground arith
  write_scalar-scalar_size text (string s) size b h le =
      ground (arith, length-le_bytes 4 (length s), length-append (le_bytes 4 (length s)) s)
  write_scalar-scalar_size _ _ size b h le = cc

-- The field is no embedded object and no list of them.
abbrev pub IsFlat : Field → Type 0
IsFlat f = (type_of f ≢ embedded) × (list_element_type f ≢ embedded)

length-list_prefix :
    (element : Field) (size : ℕ) → length (list_prefix element size) + size ≡ in_list element size
length-list_prefix element size = ground (arith, length-le_bytes 4 size)

pub element_field-IsFlat : (f : Field) → IsFlat f → IsFlat (element_field f)
element_field-IsFlat (field name type nullable embeds element_type element_schema strategy values)
      h =
    (h.1, h.1)

leb-true : (a b : ℕ) → a ≤ b → leb a b ≡ true
leb-true a b h = ground arith

pub returned-injective : (a b : ℕ) → returned a ≡ returned b → a ≡ b
returned-injective a b h = cc

-- The loop over the elements agrees where the functions for one element do.
module _ {D : Type 0} (size_of : Field → Value D → Outcome ℕ)
    (write : Field → Value D → ℕ → Outcome Text)
    (agree : (f : Field) (v : Value D) (size b : ℕ)
      → IsFlat f
      → size_of f v ≡ returned size
      → size ≤ b
      → measured (write f v b) ≡ returned size) where
  write_items_step :
      (element : Field) (v : Value D) (vs : Items D) (b size : ℕ) (bytes rest : Text)
      → size_of element v ≡ returned size
      → leb (length (list_prefix element size) + size) b ≡ true
      → write element v (b - length (list_prefix element size)) ≡ returned bytes
      → write_items size_of write element vs (b - length (list_prefix element size) - length bytes)
        ≡ returned rest
      → write_items size_of write element (item v vs) b
        ≡ returned (list_prefix element size ++ (bytes ++ rest))
  unfolding write_items
  write_items_step element v vs b size bytes rest e₁ e₂ e₃ e₄ = rw (e₁, e₂, e₃, e₄)

  write_items-size_items :
      (element : Field) (vs : Items D) (total b : ℕ)
      → IsFlat element
      → size_items size_of element vs ≡ returned total
      → total ≤ b
      → measured (write_items size_of write element vs b) ≡ returned total
  unfolding size_items
  write_items-size_items element no_items total b flat h le = unfold write_items in h
  write_items-size_items element (item v vs) total b flat h le =
      let (size, e₁, h₁) = >>=-eq-returned (size_of element v) _ total h in
      let (more, e₂, h₂) = >>=-eq-returned (size_items size_of element vs) _ total h₁ in
      let prefix = list_prefix element size in
      let same : in_list element size + more ≡ total = returned-injective _ _ h₂ in
      let split : length prefix + size ≡ in_list element size = length-list_prefix element size in
      let (bytes, e₃, len) =
        measured-eq-returned _ size
          (agree element v size (b - length prefix) flat e₁ (omega arith)) in
      let (rest, e₄, len') = measured-eq-returned _ more (
        write_items-size_items element vs more (b - length prefix - length bytes) flat e₂
          (omega arith)) in
      let whole : length (prefix ++ (bytes ++ rest)) ≡ total =
        omega (arith, length-append prefix (bytes ++ rest), length-append bytes rest) in
      let fit : length prefix + size ≤ b = omega arith in
      rw (write_items_step element v vs b size bytes rest e₁ (leb-true _ b fit) e₃ e₄)
        (ap returned whole)

  write_list-size_list :
      (f : Field) (v : Value D) (size b : ℕ)
      → IsFlat f
      → size_list size_of f v ≡ returned size
      → size ≤ b
      → measured (write_list size_of write f v b) ≡ returned size
  unfolding size_list write_list
  write_list-size_list f (array vs) size b flat h le =
      let (total, e₁, h₁) = >>=-eq-returned (size_items size_of (element_field f) vs) _ size h in
      let same : 4 + total ≡ size = returned-injective _ _ h₁ in
      let (rest, e₂, len) = measured-eq-returned _ total (
        write_items-size_items (element_field f) vs total (b - 4) (element_field-IsFlat f flat) e₁
          (omega arith)) in
      let whole : length (le_bytes 4 (count_items vs) ++ rest) ≡ size = omega (
        arith,
        length-append (le_bytes 4 (count_items vs)) rest,
        length-le_bytes 4 (count_items vs),
      ) in
      let fit : 4 ≤ b = omega arith in rw (leb-true 4 b fit, e₂) (ap returned whole)
  write_list-size_list f _ size b flat h le = cc

-- The function for one value agrees with the one that computes the size.
abbrev Agrees :
    {D : Type 0} → (Field → Value D → Outcome ℕ) → (Field → Value D → ℕ → Outcome Text) → Type 0
Agrees {D} size_of write =
    (f : Field) (v : Value D) (size b : ℕ)
    → IsFlat f
    → size_of f v ≡ returned size
    → size ≤ b
    → measured (write f v b) ≡ returned size

module _ (D : Type 0) ⦃fp : Doubles D⦄ ⦃st : Stores D⦄ (fresh : ℕ → ℕ) where
  write_by_type-size_by_type :
      (size_of : Field → Value D → Outcome ℕ) (write : Field → Value D → ℕ → Outcome Text)
      → Agrees size_of write
      → (type : FieldType) (f : Field) (v : Value D) (size b : ℕ) → type ≢ embedded
      → IsFlat f
      → size_by_type size_of type f v ≡ returned size
      → size ≤ b
      → measured (write_by_type fresh size_of write type f v b) ≡ returned size
  unfolding size_by_type write_by_type
  write_by_type-size_by_type size_of write agree embedded f v size b ne flat h le = absurd (ne refl)
  write_by_type-size_by_type size_of write agree list_of f v size b ne flat h le =
      write_list-size_list size_of write agree f v size b flat h le
  write_by_type-size_by_type size_of write agree type f v size b ne flat h le =
      write_scalar-scalar_size type v size b h le

  serialize-Agrees :
      (n : ℕ) → Agrees (compute_field_payload_size {D = D} n) (serialize_field_payload fresh n)
  unfolding compute_field_payload_size serialize_field_payload
  serialize-Agrees zero f v size b flat h le = cc
  serialize-Agrees (suc n) f null size b flat h le = ground arith
  serialize-Agrees (suc n) f v size b flat h le =
      write_by_type-size_by_type (compute_field_payload_size n) (serialize_field_payload fresh n)
        (serialize-Agrees n) (type_of f) f v size b flat.0 flat h le

  -- For a field without embedded objects: if `compute_field_payload_size` gives a size, then
  -- `serialize_field_payload` succeeds on every buffer of at least that size, and writes exactly that
  -- many bytes.
  pub serialize_field_payload-compute_field_payload_size :
      (n : ℕ) (f : Field) (v : Value D) (size b : ℕ)
      → IsFlat f
      → compute_field_payload_size n f v ≡ returned size
      → size ≤ b
      → (bytes : Text) × (serialize_field_payload fresh n f v b ≡ returned bytes)
        × (length bytes ≡ size)
  serialize_field_payload-compute_field_payload_size n f v size b flat h le =
      measured-eq-returned _ size (serialize-Agrees n f v size b flat h le)
