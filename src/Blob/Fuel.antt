-- ===== src/Blob/Fuel.antt =====
-- A unit of fuel for each level of a document's nesting, and one more, is enough.
use apx_db.Common.{
  ℕ, zero, suc, ◌≤◌, ◌<◌, ◌≡◌, ◌≢◌, refl, Bool, true, false, Option, none, some, Text, arith,
  if◌then◌else◌,
}
use apx_db.Common.Outcome.{Outcome, returned, failed, out_of_fuel, of_option, ◌>>=◌, require}
use apx_db.Libc.{Doubles}
use apx_db.Json.{
  Value, Items, Members, array, object, no_items, item, find_member, apxdb_json_object_get,
}
use apx_db.Json.Depth.{
  depth, depth_of_items, depth_of_members, depth-find_member, max-left, max-right,
}
use apx_db.Schema.{
  Fields, Field, SchemaRef, no_fields, with_field, schema_at, fields_of, name_of, type_of,
  is_nullable, embedded_schema, element_field, FieldType, byte, short, int, float, double, boolean,
  text, datetime, embedded, enumeration, list_of,
}
use apx_db.Blob.Size.{
  or_null, is_null, scalar_size, size_items, size_fields, document_size, size_embedded, size_list,
  size_by_type, compute_field_payload_size,
}

pub >>=-ne-out_of_fuel :
    {A B : Type 0} (m : Outcome A) (f : A → Outcome B)
    → m ≢ out_of_fuel
    → ((a : A) → f a ≢ out_of_fuel)
    → (m >>= f) ≢ out_of_fuel
>>=-ne-out_of_fuel (returned a) f h k = k a
>>=-ne-out_of_fuel failed f h k = λ e. cc
>>=-ne-out_of_fuel out_of_fuel f h k = λ e. h refl

of_option-ne-out_of_fuel : {A : Type 0} (o : Option A) → of_option o ≢ out_of_fuel
of_option-ne-out_of_fuel none e = cc
of_option-ne-out_of_fuel (some a) e = cc

require-ne-out_of_fuel : (b : Bool) → require b ≢ out_of_fuel
require-ne-out_of_fuel true e = cc
require-ne-out_of_fuel false e = cc

returned-ne-out_of_fuel : {A : Type 0} (a : A) → returned a ≢ out_of_fuel
returned-ne-out_of_fuel a e = cc

-- The member that a document has of a name, or null, is nested less deep than the document.
pub depth-or_null :
    {D : Type 0} (ms : Members D) (name : Text)
    → depth (or_null (apxdb_json_object_get (object ms) name)) ≤ depth_of_members ms
unfolding apxdb_json_object_get
depth-or_null {D = D} ms name = by_cases (find_member ms name) refl
  where
    by_cases :
        (o : Option (Value D)) → find_member ms name ≡ o → depth (or_null o) ≤ depth_of_members ms
    by_cases none e = unfold depth in omega arith
    by_cases (some v) e = depth-find_member ms name v e

module _ {D : Type 0} ⦃fp : Doubles D⦄ where
  scalar_size-ne-out_of_fuel : (type : FieldType) (v : Value D) → scalar_size type v ≢ out_of_fuel
  unfolding scalar_size
  scalar_size-ne-out_of_fuel type v e = ground arith

-- The function for one value has enough fuel for values nested less deep than `n`.
abbrev IsEnough : {D A : Type 0} → ℕ → (Field → Value D → Outcome A) → Type 0
IsEnough {D = D} n size_of = (f : Field) (v : Value D) → depth v < n → size_of f v ≢ out_of_fuel

module _ {D : Type 0} (n : ℕ) (size_of : Field → Value D → Outcome ℕ)
    (enough : IsEnough n size_of) where
  size_items-ne-out_of_fuel :
      (f : Field) (vs : Items D) → depth_of_items vs < n → size_items size_of f vs ≢ out_of_fuel
  unfolding size_items depth
  size_items-ne-out_of_fuel f no_items h = returned-ne-out_of_fuel 0
  size_items-ne-out_of_fuel f (item v vs) h =
      let left = max-left (depth v) (depth_of_items vs) in
      let right = max-right (depth v) (depth_of_items vs) in
      >>=-ne-out_of_fuel (size_of f v) _ (enough f v (omega (arith, left))) (λ size.
        >>=-ne-out_of_fuel (size_items size_of f vs) _
          (size_items-ne-out_of_fuel f vs (omega (arith, right)))
          (λ total. returned-ne-out_of_fuel _))

  size_fields-ne-out_of_fuel :
      (fs : Fields) (ms : Members D)
      → depth_of_members ms < n
      → size_fields size_of fs (object ms) ≢ out_of_fuel
  unfolding size_fields
  size_fields-ne-out_of_fuel no_fields ms h = returned-ne-out_of_fuel 0
  size_fields-ne-out_of_fuel (with_field f fs) ms h =
      let v = or_null (apxdb_json_object_get (object ms) (name_of f)) in
      let inside : depth v ≤ depth_of_members ms = depth-or_null ms (name_of f) in
      >>=-ne-out_of_fuel (size_of f v) _ (enough f v (omega (arith, inside))) (λ size.
        >>=-ne-out_of_fuel (size_fields size_of fs (object ms)) _
          (size_fields-ne-out_of_fuel fs ms h) (λ total. returned-ne-out_of_fuel _))

  size_embedded-ne-out_of_fuel :
      (r : SchemaRef) (v : Value D) → depth v < suc n → size_embedded size_of r v ≢ out_of_fuel
  unfolding size_embedded document_size depth
  size_embedded-ne-out_of_fuel (schema_at s) (object ms) h =
      >>=-ne-out_of_fuel (document_size size_of s (object ms)) _
        (>>=-ne-out_of_fuel (size_fields size_of (fields_of s) (object ms)) _
          (size_fields-ne-out_of_fuel (fields_of s) ms (omega arith))
          (λ _. returned-ne-out_of_fuel _))
        (λ _. returned-ne-out_of_fuel _)
  size_embedded-ne-out_of_fuel _ _ h = λ e. cc

  size_list-ne-out_of_fuel :
      (f : Field) (v : Value D) → depth v < suc n → size_list size_of f v ≢ out_of_fuel
  unfolding size_list depth
  size_list-ne-out_of_fuel f (array vs) h =
      >>=-ne-out_of_fuel (size_items size_of (element_field f) vs) _
        (size_items-ne-out_of_fuel (element_field f) vs (omega arith))
        (λ _. returned-ne-out_of_fuel _)
  size_list-ne-out_of_fuel f _ h = λ e. cc

module _ {D : Type 0} ⦃fp : Doubles D⦄ where
  size_by_type-ne-out_of_fuel :
      (n : ℕ) (size_of : Field → Value D → Outcome ℕ)
      → IsEnough n size_of
      → (type : FieldType) (f : Field) (v : Value D) → depth v < suc n
      → size_by_type size_of type f v ≢ out_of_fuel
  unfolding size_by_type
  size_by_type-ne-out_of_fuel n size_of enough embedded f v h =
      size_embedded-ne-out_of_fuel n size_of enough (embedded_schema f) v h
  size_by_type-ne-out_of_fuel n size_of enough list_of f v h =
      size_list-ne-out_of_fuel n size_of enough f v h
  size_by_type-ne-out_of_fuel n size_of enough byte f v h = scalar_size-ne-out_of_fuel byte v
  size_by_type-ne-out_of_fuel n size_of enough short f v h = scalar_size-ne-out_of_fuel short v
  size_by_type-ne-out_of_fuel n size_of enough int f v h = scalar_size-ne-out_of_fuel int v
  size_by_type-ne-out_of_fuel n size_of enough float f v h = scalar_size-ne-out_of_fuel float v
  size_by_type-ne-out_of_fuel n size_of enough double f v h = scalar_size-ne-out_of_fuel double v
  size_by_type-ne-out_of_fuel n size_of enough boolean f v h = scalar_size-ne-out_of_fuel boolean v
  size_by_type-ne-out_of_fuel n size_of enough text f v h = scalar_size-ne-out_of_fuel text v
  size_by_type-ne-out_of_fuel n size_of enough datetime f v h =
      scalar_size-ne-out_of_fuel datetime v
  size_by_type-ne-out_of_fuel n size_of enough enumeration f v h =
      scalar_size-ne-out_of_fuel enumeration v

  -- Fuel for one level more than a value's nesting is enough to compute its size.
  pub compute_field_payload_size-ne-out_of_fuel :
      (n : ℕ) (f : Field) (v : Value D)
      → depth v < n
      → compute_field_payload_size n f v ≢ out_of_fuel
  unfolding compute_field_payload_size
  compute_field_payload_size-ne-out_of_fuel zero f v h = λ e. omega arith
  compute_field_payload_size-ne-out_of_fuel (suc n) f v h =
      let enough : IsEnough n (compute_field_payload_size n) =
        compute_field_payload_size-ne-out_of_fuel n in
      let sized =
        size_by_type-ne-out_of_fuel n (compute_field_payload_size n) enough (type_of f) f v h in
      by_cases (is_null v) (is_nullable f)
        (size_by_type (compute_field_payload_size n) (type_of f) f v) sized
    where
      by_cases :
          (null? nullable? : Bool) (m : Outcome ℕ)
          → m ≢ out_of_fuel
          → (if null? then (if nullable? then returned 0 else failed) else m) ≢ out_of_fuel
      by_cases true true m k e = cc
      by_cases true false m k e = cc
      by_cases false nullable? m k e = k e
