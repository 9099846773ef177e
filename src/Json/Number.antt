-- ===== src/Json/Number.antt =====
-- src/native/apxdb_json.c, `parse_number`.
use apx_db.Common.{
  Bool, true, false, ◌||◌, Option, none, some, ◌==◌, if◌then◌else◌, Text, peek, advance, ◌>>=◌,
  ◌>>◌, guard, length,
}
use apx_db.Common.Int.{pos}
use apx_db.Libc.{is_digit, after_sign, skip_digits, strtoll, strtod_rest, Doubles}
use apx_db.Json.{Value, number}

-- The digits that must follow `.`, `e`, `e+` or `e-`.
unfoldable pub some_digits : Text → Option Text
unfolding skip_digits
some_digits text = if is_digit (peek text) then some (skip_digits text) else none

-- The optional fraction and exponent, each with whether the number is still an integer.
unfoldable pub fraction : Text → Option (Bool × Text)
unfolding some_digits
fraction text =
    if peek text == b'.'
    then (some_digits (advance text) >>= λ rest. some (false, rest))
    else some (true, text)

unfoldable pub exponent : Bool → Text → Option (Bool × Text)
unfolding some_digits
exponent is_integer text =
    if peek text == b'e' || peek text == b'E'
    then (some_digits (after_sign (advance text)) >>= λ rest. some (false, rest))
    else some (is_integer, text)

-- Two pointers into one text are equal when as much is left behind them.
abbrev pub same_end : Text → Text → Bool
same_end a b = length a == length b

unfoldable pub finish_number :
    {D : Type 0} ⦃fp : Doubles D⦄ → Text → Bool → Text → Option (Value D × Text)
finish_number ⦃fp⦄ start is_integer text =
    guard (same_end (strtod_rest start) text)
    >> (if is_integer
        then (guard (same_end (strtoll start).rest text)
            >> some (number true (strtoll start).value (fp.strtod_value start), text))
        else some (number false (pos 0) (fp.strtod_value start), text))

unfoldable pub parse_number : {D : Type 0} ⦃fp : Doubles D⦄ → Text → Option (Value D × Text)
parse_number start = do
  let text = after_sign start
  (whole, after_fraction) ← fraction (skip_digits text)
  (is_integer, rest) ← exponent whole after_fraction
  guard (is_digit (peek text))
  finish_number start is_integer rest
