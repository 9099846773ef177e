-- ===== src/Json/StringRound.antt =====
-- A string that `append_json_string` writes is read back by `parse_string`, but for the control
-- characters that are written as `\u00XX`.
use apx_db.Common.{
  ℕ, ◌≤◌, ◌<◌, ◌/◌, ◌%◌, ◌≡◌, refl, ◌⊎◌, [], ◌∷◌, ◌++◌, none, some, append_assoc, arith, Text, All,
  ◌≢◌,
}
use apx_db.Json.Strings.{
  unescape, push, push_escaped, string_chars, parse_string, escape, escape_all, append_json_string,
  hex_digit,
}

-- The bytes that are written without a `\u` escape.
abbrev pub IsPlain : ℕ → Type 0
IsPlain c = (32 ≤ c) ⊎ ((8 ≤ c) × (c ≤ 10)) ⊎ ((12 ≤ c) × (c ≤ 13))

pub string_chars-plain :
    (c : ℕ) (text : Text)
    → c ≢ b'"'
    → c ≢ 0x5c
    → string_chars (c ∷ text) ≡ push c (string_chars text)
unfolding string_chars
string_chars-plain c [] quote slash = ground arith
string_chars-plain c (ch ∷ text) quote slash = ground arith

pub string_chars-escaped :
    (ch : ℕ) (text : Text)
    → string_chars (0x5c ∷ ch ∷ text) ≡ push_escaped (unescape ch) (string_chars text)
unfolding string_chars
string_chars-escaped ch text = refl

pub string_chars-closing : (text : Text) → string_chars (b'"' ∷ text) ≡ some ([], text)
unfolding string_chars
string_chars-closing [] = refl
string_chars-closing (c ∷ text) = refl

string_chars-escape :
    (c : ℕ) (text : Text) → IsPlain c → string_chars (escape c ++ text) ≡ push c (string_chars text)
unfolding escape unescape
string_chars-escape c text h = ground (
  arith,
  string_chars-plain c text,
  string_chars-escaped b'"' text,
  string_chars-escaped 0x5c text,
  string_chars-escaped b'b' text,
  string_chars-escaped b'f' text,
  string_chars-escaped b'n' text,
  string_chars-escaped b'r' text,
  string_chars-escaped b't' text,
)

string_chars-escape_all :
    (s rest : Text) → All IsPlain s → string_chars (escape_all s ++ b'"' ∷ rest) ≡ some (s, rest)
unfolding escape_all
string_chars-escape_all [] rest h = string_chars-closing rest
string_chars-escape_all (c ∷ s) rest h = rw append_assoc (
    rw
      (string_chars-escape c (escape_all s ++ b'"' ∷ rest) h.0, string_chars-escape_all s rest h.1))

-- `parse_string` reads what `append_json_string` writes for a text of plain bytes, those that it
-- writes without a `\u` escape, back as that text, and leaves what follows it.
pub parse_string-append_json_string :
    (s rest : Text) → All IsPlain s → parse_string (append_json_string s ++ rest) ≡ some (s, rest)
unfolding parse_string append_json_string
parse_string-append_json_string s rest h = rw append_assoc (string_chars-escape_all s rest h)

-- The control characters that are written as `\u00XX`.
abbrev IsControl : ℕ → Type 0
IsControl c = (c < 8) ⊎ (c ≡ 11) ⊎ ((14 ≤ c) × (c < 32))

string_chars-control : (c : ℕ) (text : Text) → IsControl c → string_chars (escape c ++ text) ≡ none
unfolding escape unescape
string_chars-control c text h = ground (
  arith,
  string_chars-escaped b'u' (b'0' ∷ b'0' ∷ hex_digit (c / 16) ∷ hex_digit (c % 16) ∷ text),
)

string_chars-escape_all_control :
    (s t rest : Text) (c : ℕ)
    → All IsPlain s
    → IsControl c
    → string_chars (escape_all (s ++ c ∷ t) ++ rest) ≡ none
unfolding escape_all
string_chars-escape_all_control [] t rest c h k =
    rw append_assoc (string_chars-control c (escape_all t ++ rest) k)
string_chars-escape_all_control (a ∷ s) t rest c h k = rw append_assoc (
    rw (
      string_chars-escape a (escape_all (s ++ c ∷ t) ++ rest) h.0,
      string_chars-escape_all_control s t rest c h.1 k,
    ))

-- The parser takes a raw control character inside a string, but refuses every string that is
-- written for a text of plain bytes and such a character after them.
pub parse_string-control :
    (s t rest : Text) (c : ℕ)
    → All IsPlain s
    → IsControl c
    → (parse_string (b'"' ∷ c ∷ b'"' ∷ rest) ≡ some (c ∷ [], rest))
      × (parse_string (append_json_string (s ++ c ∷ t) ++ rest) ≡ none)
unfolding parse_string append_json_string
parse_string-control s t rest c h k =
    (raw rest, rw append_assoc (string_chars-escape_all_control s t (b'"' ∷ rest) c h k))
  where
    raw : (text : Text) → string_chars (c ∷ b'"' ∷ text) ≡ some (c ∷ [], text)
    raw [] = unfold string_chars in ground arith
    raw (d ∷ text) = unfold string_chars in ground arith
