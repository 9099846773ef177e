-- ===== src/Libc.antt =====
-- What the program uses of the C library, on texts without their terminator: the character classes
-- of the C locale, `strtoll`, and how far `strtod` reads. The value that `strtod` gives, and the
-- arithmetic of `double`, are a parameter.
pub mod Reads
pub mod Decimal
use apx_db.Common.{
  ℕ, zero, suc, ◌+◌, ◌-◌, ◌*◌, ◌^◌, ◌≤◌, Bool, true, false, ◌&&◌, ◌||◌, List, [], ◌∷◌, Option, none,
  some, ◌==◌, ltb, leb, if◌then◌else◌, Text, peek, advance, codes, ◌>>=◌, text_eq, length,
}
use apx_db.Common.Int.{ℤ, pos, negsuc, int64_max, int64_min}

-- `isspace` and `isdigit`.
abbrev is_space : ℕ → Bool
is_space c = c == 32 || (leb 9 c && leb c 13)

abbrev pub is_digit : ℕ → Bool
is_digit c = leb b'0' c && leb c b'9'

unfoldable pub skip_spaces : Text → Text
skip_spaces [] = []
skip_spaces (c ∷ text) = if is_space c then skip_spaces text else c ∷ text

unfoldable pub skip_digits : Text → Text
skip_digits [] = []
skip_digits (c ∷ text) = if is_digit c then skip_digits text else c ∷ text

abbrev is_sign : ℕ → Bool
is_sign c = c == b'+' || c == b'-'

abbrev pub after_sign : Text → Text
after_sign text = if is_sign (peek text) then advance text else text

-- The decimal value of the digits at the front of a text.
unfoldable pub read_digits : ℕ → Text → ℕ
read_digits value [] = value
read_digits value (c ∷ text) =
    if is_digit c then read_digits (10 * value + (c - b'0')) text else value

pub record Conversion : Type 0 where
  pub value : ℤ
  pub rest : Text
  pub erange : Bool

unfoldable negate : ℕ → ℤ
negate zero = pos 0
negate (suc n) = negsuc n

abbrev saturate : Bool → ℕ → Text → Conversion
saturate true n rest =
    if leb n (2 ^ 63)
    then record { value = negate n; rest = rest; erange = false }
    else record { value = int64_min; rest = rest; erange = true }
saturate false n rest =
    if ltb n (2 ^ 63)
    then record { value = pos n; rest = rest; erange = false }
    else record { value = int64_max; rest = rest; erange = true }

-- `strtoll(text, &rest, 10)`: with no digits nothing is read.
unfoldable pub strtoll : Text → Conversion
unfolding skip_spaces skip_digits read_digits negate
strtoll text =
    let start = skip_spaces text in
    let digits = after_sign start in
    if is_digit (peek digits)
    then saturate (peek start == b'-') (read_digits 0 digits) (skip_digits digits)
    else record { value = pos 0; rest = text; erange = false }

-- How far `strtod` reads.
abbrev is_hex_digit : ℕ → Bool
is_hex_digit c = is_digit c || (leb b'a' c && leb c b'f') || (leb b'A' c && leb c b'F')

skip_hex_digits : Text → Text
skip_hex_digits [] = []
skip_hex_digits (c ∷ text) = if is_hex_digit c then skip_hex_digits text else c ∷ text

-- An exponent is read only with a digit in it.
abbrev skip_exponent : ℕ → ℕ → Text → Text
skip_exponent lower upper text =
    let digits = after_sign (advance text) in
    if (peek text == lower || peek text == upper) && is_digit (peek digits)
    then skip_digits digits
    else text

abbrev skip_point : (Text → Text) → Text → Text
skip_point skip text = if peek text == b'.' then skip (advance text) else text

abbrev lower : ℕ → ℕ
lower c = if leb b'A' c && leb c b'Z' then c + 32 else c

skip_word : Text → Text → Option Text
skip_word [] text = some text
skip_word (w ∷ word) [] = none
skip_word (w ∷ word) (c ∷ text) = if lower c == w then skip_word word text else none

-- The n-char-sequence of `nan(...)`.
skip_payload : Text → Option Text
skip_payload [] = none
skip_payload (c ∷ text) =
    if c == b')'
    then some text
    else if is_digit c || c == b'_' || (leb b'a' (lower c) && leb (lower c) b'z')
    then skip_payload text
    else none

abbrev or_else {ℓ} : {A : Type ℓ} → Option A → A → A
or_else none a = a
or_else (some a) b = a

abbrev skip_nan : Text → Text
skip_nan text = if peek text == b'(' then or_else (skip_payload (advance text)) text else text

abbrev starts_hex : Text → Bool
starts_hex text =
    let digits = advance (advance text) in
    peek text == b'0'
    && lower (peek (advance text)) == b'x'
    && (is_hex_digit (peek digits) || (peek digits == b'.' && is_hex_digit (peek (advance digits))))

abbrev starts_decimal : Text → Bool
starts_decimal text = is_digit (peek text) || (peek text == b'.' && is_digit (peek (advance text)))

abbrev skip_special : Text → Text → Text
skip_special text start = elim (skip_word (codes "infinity") text) [
  | some rest ↦ rest
  | none ↦ elim (skip_word (codes "inf") text) [
    | some rest ↦ rest
    | none ↦ elim (skip_word (codes "nan") text) [ some rest ↦ skip_nan rest | none ↦ start ]
  ]
]

-- Where `strtod(start, &rest)` stops: after a number, or at `start` if there is none.
unfoldable pub strtod_rest : Text → Text
unfolding skip_hex_digits skip_word skip_payload skip_spaces skip_digits
strtod_rest start =
    let text = after_sign (skip_spaces start) in
    if starts_hex text
    then skip_exponent b'p' b'P'
        (skip_point skip_hex_digits (skip_hex_digits (advance (advance text))))
    else if starts_decimal text
    then skip_exponent b'e' b'E' (skip_point skip_digits (skip_digits text))
    else skip_special text start

-- `double` as the program uses it: the value that `strtod` reads, and the three comparisons.
pub record Doubles (D : Type 0) : Type 0 where
  pub strtod_value : Text → D
  pub less : D → D → Bool
  pub less_eq : D → D → Bool
  pub equal : D → D → Bool
