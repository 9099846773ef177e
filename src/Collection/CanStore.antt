-- ===== src/Collection/CanStore.antt =====
-- Which fields can be stored, and that the values of the scalar types that conform to them have a size.
use apx_db.Common.{
  ℕ, ◌<◌, ◌≡◌, refl, subst, length, ◌==◌, Bool, true, false, ◌&&◌, List, Text, arith, if◌then◌else◌,
}
use apx_db.Common.Int.{ℤ}
use apx_db.Common.Outcome.{Outcome, returned, ◌>>=◌}
use apx_db.Libc.{Doubles}
use apx_db.Json.{Value, null, bool, number, string}
use apx_db.Schema.{
  Schema, schema, Fields, Field, field, SchemaRef, no_fields, with_field, no_schema, schema_at,
  is_nullable, FieldType, byte, short, int, float, double, boolean, text, datetime, embedded,
  enumeration, list_of, EnumStrategy, by_name, by_value, enum_strategy, enum_values,
}
use apx_db.Blob.Scalars.{parse_integer_value}
use apx_db.Blob.Size.{is_null, scalar_size}
use apx_db.Collection.Validate.{enum_matches, validate_enum_field, validate_scalar}

pub not_less : (n : ℕ) → n < 0 → ⊥
not_less n h = omega arith

-- A type whose conforming values are stored.
abbrev pub is_storable : FieldType → EnumStrategy → Bool
is_storable datetime strategy = false
is_storable enumeration by_name = false
is_storable type strategy = true

-- Neither the field nor what it is made of is a date or an enum by name.
unfoldable mutual
  pub can_store : Field → Bool
  can_store (field name type nullable embeds element_type element_schema strategy values) =
      is_storable type strategy
      && is_storable element_type strategy
      && can_store_ref embeds
      && can_store_ref element_schema

  pub can_store_ref : SchemaRef → Bool
  can_store_ref no_schema = true
  can_store_ref (schema_at s) = can_store_all s

  pub can_store_all : Schema → Bool
  can_store_all (schema name fs) = can_store_fields fs

  pub can_store_fields : Fields → Bool
  can_store_fields no_fields = true
  can_store_fields (with_field f fs) = can_store f && can_store_fields fs

-- A call returned something.
abbrev pub Returns : {A : Type 0} → Outcome A → Type 0
Returns {A} m = (a : A) × (m ≡ returned a)

pub Returns->>= :
    {A B : Type 0} (m : Outcome A) (f : A → Outcome B)
    → Returns m
    → ((a : A) → Returns (f a))
    → Returns (m >>= f)
Returns->>= m f (a, e) k = rw e (k a)

module _ {D : Type 0} ⦃fp : Doubles D⦄ where
  -- Only an integer conforms to an enum that is not by name.
  enum-Returns :
      (strategy : EnumStrategy) (values : List (Text × ℤ)) (v : Value D)
      → is_storable enumeration strategy ≡ true
      → enum_matches strategy values v ≡ true
      → Returns (scalar_size enumeration v)
  unfolding enum_matches scalar_size parse_integer_value
  enum-Returns strategy values (number true z d) s h = (8, refl)
  enum-Returns by_name values v s h = cc
  enum-Returns by_value values null s h = cc
  enum-Returns _ values v s h = cc

  pub scalar_size-Returns :
      (type : FieldType) (f : Field) (v : Value D)
      → is_storable type (enum_strategy f) ≡ true
      → is_null v ≡ false
      → validate_scalar type f v ≡ true
      → Returns (scalar_size type v)
  unfolding validate_scalar validate_enum_field scalar_size parse_integer_value
  scalar_size-Returns byte f (number true z d) s n h = (1, rw h refl)
  scalar_size-Returns byte f _ s n h = cc
  scalar_size-Returns short f (number true z d) s n h = (4, rw h refl)
  scalar_size-Returns short f _ s n h = cc
  scalar_size-Returns int f (number true z d) s n h = (8, refl)
  scalar_size-Returns int f _ s n h = cc
  scalar_size-Returns float f (number i z d) s n h = (4, refl)
  scalar_size-Returns float f _ s n h = cc
  scalar_size-Returns double f (number i z d) s n h = (8, refl)
  scalar_size-Returns double f _ s n h = cc
  scalar_size-Returns boolean f (bool b) s n h = (1, refl)
  scalar_size-Returns boolean f _ s n h = cc
  scalar_size-Returns text f (string t) s n h = (_, refl)
  scalar_size-Returns text f _ s n h = cc
  scalar_size-Returns datetime f v s n h = cc
  scalar_size-Returns embedded f v s n h = cc
  scalar_size-Returns enumeration f v s n h = nonempty (length (enum_values f) == 0) h
    where
      nonempty :
          (b : Bool)
          → (if is_null v
              then is_nullable f
              else if b
              then false
              else enum_matches (enum_strategy f) (enum_values f) v)
            ≡ true
          → Returns (scalar_size enumeration v)
      nonempty true k = cc
      nonempty false k = enum-Returns (enum_strategy f) (enum_values f) v s (
          subst
            (λ b.
              (if b then is_nullable f else enum_matches (enum_strategy f) (enum_values f) v)
              ≡ true)
            n k)
  scalar_size-Returns list_of f v s n h = cc
