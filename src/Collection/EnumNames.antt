-- ===== src/Collection/EnumNames.antt =====
-- An enum that is kept by name: what conforms to it has no size.
use apx_db.Common.{
  ℕ, zero, suc, ◌≡◌, refl, subst, Bool, true, false, List, [], ◌∷◌, none, Text, text_eq, text_eq→eq,
  length, ◌==◌, if◌then◌else◌, All, Bool-cases, inl, inr,
}
use apx_db.Common.Int.{ℤ}
use apx_db.Common.Outcome.{returned, failed, require}
use apx_db.Libc.{Doubles}
use apx_db.Json.{Value, string}
use apx_db.Schema.{Field, type_of, enum_strategy, enum_values, is_nullable, enumeration, by_name}
use apx_db.Blob.Scalars.{parse_integer_value}
use apx_db.Blob.Size.{is_null, scalar_size, size_by_type, compute_field_payload_size}
use apx_db.Collection.Validate.{
  has_enum_name, enum_matches, validate_enum_field, validate_scalar, validate_by_type,
  validate_json_value,
}

module _ (D : Type 0) ⦃fp : Doubles D⦄ where
  -- None of the names is a number.
  abbrev pub NoNumbers : List (Text × ℤ) → Type 0
  NoNumbers values = All (λ value. parse_integer_value {D = D} (string value.0) ≡ none) values

  has_enum_name-parse_integer_value :
      (s : Text) (values : List (Text × ℤ))
      → NoNumbers values
      → has_enum_name s values ≡ true
      → parse_integer_value {D = D} (string s) ≡ none
  unfolding has_enum_name
  has_enum_name-parse_integer_value s [] a h = cc
  has_enum_name-parse_integer_value s ((name, z) ∷ values) (p, a) h =
      elim (Bool-cases (text_eq name s)) [
        | inl e ↦ subst (λ t. parse_integer_value {D = D} (string t) ≡ none) (text_eq→eq name s e) p
        | inr e ↦ has_enum_name-parse_integer_value s values a (rw e at h)
      ]

  enum_matches-scalar_size :
      (values : List (Text × ℤ)) (v : Value D)
      → NoNumbers values
      → enum_matches by_name values v ≡ true
      → scalar_size enumeration v ≡ failed
  unfolding enum_matches scalar_size
  enum_matches-scalar_size values (string s) a h =
      rw (has_enum_name-parse_integer_value s values a h) refl
  enum_matches-scalar_size values _ a h = cc

  -- A value, not null, that conforms to an enum kept by name has no size, where none of the names
  -- of the enum is a number: `compute_field_payload_size` fails.
  pub compute_field_payload_size-by_name :
      (n m : ℕ) (f : Field) (v : Value D)
      → type_of f ≡ enumeration
      → enum_strategy f ≡ by_name
      → NoNumbers (enum_values f)
      → is_null v ≡ false
      → validate_json_value m f v ≡ returned tt
      → compute_field_payload_size (suc n) f v ≡ failed
  unfolding compute_field_payload_size validate_json_value validate_by_type validate_scalar
      validate_enum_field size_by_type
  compute_field_payload_size-by_name n zero f v t s a b h = cc
  compute_field_payload_size-by_name n (suc m) f v t s a b h =
      rw (b, t)
        (enum_matches-scalar_size (enum_values f) v a (
          named (length (enum_values f) == 0)
            (require-true (validate_scalar enumeration f v) (rw (b, t) at h))))
    where
      require-true : (c : Bool) → require c ≡ returned tt → c ≡ true
      require-true true e = refl
      require-true false e = cc

      named :
          (c : Bool)
          → (if is_null v
              then is_nullable f
              else if c
              then false
              else enum_matches (enum_strategy f) (enum_values f) v)
            ≡ true
          → enum_matches by_name (enum_values f) v ≡ true
      named true e = elim (absurd (rw b at e)) [ ]
        where
          absurd : false ≡ true → ⊥
          absurd e' = cc
      named false e = rw (b, s) at e
