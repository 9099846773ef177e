-- ===== src/Json/Shorter.antt =====
-- Strings and numbers are read off the front of the input.
use apx_db.Common.{
  ℕ, suc, ◌≤◌, ◌<◌, ◌≡◌, refl, inl, inr, Bool, true, false, [], ◌∷◌, Option, none, some, ◌==◌,
  if◌then◌else◌, arith, Text, peek, advance, length, Bool-cases, ◌||◌, ◌>>=◌ as ◌>>=?◌,
  ◌>>◌ as ◌>>?◌, guard,
}
use apx_db.Libc.{is_digit, after_sign, skip_digits, strtoll, strtod_rest, Doubles}
use apx_db.Common.Int.{pos}
use apx_db.Libc.Reads.{
  length-skip_digits-le, length-advance-le, length-after_sign-le, length-skip_digits-lt,
}
use apx_db.Json.{Value, number}
use apx_db.Json.Strings.{parse_string, string_chars, unescape, push, push_escaped}
use apx_db.Json.Number.{parse_number, some_digits, fraction, exponent, same_end, finish_number}

-- The function fails, or leaves less than `n` bytes.
abbrev pub Shorter : {A : Type 0} → ℕ → Option (A × Text) → Type 0
Shorter n none = Unit
Shorter n (some (a, rest)) = length rest < n

Shorter-push : (m n c : ℕ) (r : Option (Text × Text)) → Shorter m r → m ≤ n → Shorter n (push c r)
Shorter-push m n c none h le = tt
Shorter-push m n c (some (s, rest)) h le = omega arith

Shorter-push_escaped :
    (m n : ℕ) (o : Option ℕ) (r : Option (Text × Text))
    → Shorter m r
    → m ≤ n
    → Shorter n (push_escaped o r)
Shorter-push_escaped m n none r h le = tt
Shorter-push_escaped m n (some c) r h le = Shorter-push m n c r h le

Shorter-if :
    {A : Type 0} (n : ℕ) (b : Bool) (x y : Option (A × Text))
    → (b ≡ true → Shorter n x)
    → (b ≡ false → Shorter n y)
    → Shorter n (if b then x else y)
Shorter-if n true x y hx hy = hx refl
Shorter-if n false x y hx hy = hy refl

Shorter-bind :
    {A B : Type 0} (m n : ℕ) (o : Option (B × Text)) (k : B × Text → Option (A × Text))
    → Shorter m o
    → ((b : B) (rest : Text) → length rest < m → Shorter n (k (b, rest)))
    → Shorter n (o >>=? k)
Shorter-bind m n none k h step = tt
Shorter-bind m n (some (b, rest)) k h step = step b rest h

Shorter-guard :
    {A : Type 0} (n : ℕ) (b : Bool) (m : Option (A × Text))
    → (b ≡ true → Shorter n m)
    → Shorter n (guard b >>? m)
Shorter-guard n true m h = h refl
Shorter-guard n false m h = tt

string_chars-Shorter : (text : Text) → Shorter (length text) (string_chars text)
unfolding string_chars
string_chars-Shorter [] = tt
string_chars-Shorter (c ∷ []) = ground arith
string_chars-Shorter (c ∷ ch ∷ text) =
    Shorter-if _ (c == b'"') _ _ (λ _. omega arith)
      (λ _.
        Shorter-if _ (c == 0x5c) _ _
          (λ _.
            Shorter-push_escaped (length text) _ (unescape ch) (string_chars text)
              (string_chars-Shorter text) (omega arith))
          (λ _.
            Shorter-push (suc (length text)) _ c (string_chars (ch ∷ text))
              (string_chars-Shorter (ch ∷ text)) (omega arith)))

Shorter-mono : {A : Type 0} (m n : ℕ) (o : Option (A × Text)) → Shorter m o → m ≤ n → Shorter n o
Shorter-mono m n none h le = tt
Shorter-mono m n (some (a, rest)) h le = omega arith

pub parse_string-Shorter : (text : Text) → Shorter (length text) (parse_string text)
unfolding parse_string
parse_string-Shorter [] = ground arith
parse_string-Shorter (c ∷ text) =
    Shorter-if _ (c == b'"') _ none
      (λ _.
        Shorter-mono (length text) _ (string_chars text) (string_chars-Shorter text) (omega arith))
      (λ _. tt)

-- Numbers.
some_digits_then :
    {A : Type 0} (n : ℕ) (text : Text) (k : Text → Option (A × Text))
    → ((rest : Text) → length rest ≤ length text → Shorter n (k rest))
    → Shorter n (some_digits text >>=? k)
unfolding some_digits
some_digits_then n text k step = elim (Bool-cases (is_digit (peek text))) [
  | inl e ↦ rw e (step (skip_digits text) (length-skip_digits-le text))
  | inr e ↦ rw e tt
]

fraction-Shorter : (text : Text) → Shorter (suc (length text)) (fraction text)
unfolding fraction
fraction-Shorter text =
    Shorter-if _ (peek text == b'.') _ _
      (λ _. some_digits_then _ (advance text) _ λ rest le. omega (arith, length-advance-le text))
      (λ _. omega arith)

exponent-Shorter :
    (is_integer : Bool) (text : Text) → Shorter (suc (length text)) (exponent is_integer text)
unfolding exponent
exponent-Shorter is_integer text =
    Shorter-if _ (peek text == b'e' || peek text == b'E') _ _
      (λ _.
        some_digits_then _ (after_sign (advance text)) _
          λ rest le. omega (arith, length-advance-le text, length-after_sign-le (advance text)))
      (λ _. omega arith)

module _ (D : Type 0) ⦃fp : Doubles D⦄ where
  finish_number-Shorter :
      (start : Text) (is_integer : Bool) (text : Text)
      → Shorter (suc (length text)) (finish_number {D = D} start is_integer text)
  unfolding finish_number
  finish_number-Shorter start true text =
      Shorter-guard {A = Value D} (suc (length text)) (same_end (strtod_rest start) text) _ (λ _.
        Shorter-guard {A = Value D} (suc (length text)) (same_end (strtoll start).rest text)
          (some (number true (strtoll start).value (fp.strtod_value start), text))
          (λ _. omega arith))
  finish_number-Shorter start false text =
      Shorter-guard {A = Value D} (suc (length text)) (same_end (strtod_rest start) text)
        (some (number false (pos 0) (fp.strtod_value start), text)) (λ _. omega arith)

  pub parse_number-Shorter : (text : Text) → Shorter (length text) (parse_number {D = D} text)
  unfolding parse_number
  parse_number-Shorter text =
      let t = after_sign text in
      Shorter-bind (suc (length (skip_digits t))) _ (fraction (skip_digits t)) _
        (fraction-Shorter (skip_digits t))
        λ whole t₂ h₂.
          Shorter-bind (suc (length t₂)) _ (exponent whole t₂) _ (exponent-Shorter whole t₂)
            λ is_integer t₃ h₃. Shorter-guard _ (is_digit (peek t)) _ λ digit.
              Shorter-mono (suc (length t₃)) _ _ (finish_number-Shorter text is_integer t₃)
                (omega (arith, length-skip_digits-lt t digit, length-after_sign-le text))
