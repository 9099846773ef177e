-- ===== src/Blob/Scalars.antt =====
-- src/native/apxdb_collection.c: integers of a document, and their bytes.
use apx_db.Common.{
  ℕ, zero, suc, ◌-◌, ◌/◌, ◌%◌, ◌^◌, Bool, true, false, ◌&&◌, [], ◌∷◌, Option, none, some, ◌==◌,
  if◌then◌else◌, Text, length,
}
use apx_db.Common.Int.{ℤ, pos, negsuc}
use apx_db.Libc.{strtoll, strtod_rest, Doubles}
use apx_db.Json.{Value, number, string}
use apx_db.Schema.{FieldType, byte, short, int, float, double, boolean, datetime, enumeration}

-- The `k` bytes that `memcpy` takes from an integer.
unfoldable pub le_bytes : ℕ → ℕ → Text
le_bytes zero n = []
le_bytes (suc k) n = n % 256 ∷ le_bytes k (n / 256)

-- The bit pattern of an integer of `bits` bits.
abbrev pub pattern_of : ℕ → ℤ → ℕ
pattern_of bits (pos n) = n % 2 ^ bits
pattern_of bits (negsuc n) = 2 ^ bits - 1 - n % 2 ^ bits

abbrev is_empty : Text → Bool
is_empty [] = true
is_empty (c ∷ s) = false

-- How the program stores a `double`, a `float`, and a `double` as `int64_t`.
pub record Stores (D : Type 0) : Type 0 where
  pub double_bits : D → ℕ
  pub float_bits : D → ℕ
  pub to_int64 : D → ℤ

module _ {D : Type 0} where
  unfoldable pub parse_integer_value : Value D → Option ℤ
  unfolding strtoll
  parse_integer_value (number true z d) = some z
  parse_integer_value (string s) =
      let c = strtoll s in
      if length c.rest == length s
      then none
      else if is_empty c.rest && (if c.erange then false else true)
      then some c.value
      else none
  parse_integer_value _ = none

  unfoldable pub parse_numeric_value : ⦃fp : Doubles D⦄ → Value D → Option D
  unfolding strtod_rest
  parse_numeric_value (number is_integer z d) = some d
  parse_numeric_value ⦃fp⦄ (string s) =
      if length (strtod_rest s) == length s
      then none
      else if is_empty (strtod_rest s)
      then some (fp.strtod_value s)
      else none
  parse_numeric_value _ = none

unfoldable pub scalar_type_size : FieldType → ℕ
scalar_type_size byte = 1
scalar_type_size short = 4
scalar_type_size int = 8
scalar_type_size datetime = 8
scalar_type_size enumeration = 8
scalar_type_size float = 4
scalar_type_size double = 8
scalar_type_size boolean = 1
scalar_type_size _ = 0
