-- ===== src/Csv/Escape.antt =====
-- src/native/apxdb_import_csv.c, `json_escape`: what it writes between quotes is read back.
use apx_db.Common.{
  ℕ, ◌+◌, ◌<◌, ◌≡◌, ◌≢◌, refl, [], ◌∷◌, ◌++◌, none, some, append_assoc, arith, Text, length, leb,
  ◌⊎◌, inl, inr, Bool-cases, length-append,
}
use apx_db.Json.Strings.{unescape, push, string_chars, parse_string}
use apx_db.Json.StringRound.{string_chars-plain, string_chars-escaped, string_chars-closing}
use apx_db.Csv.{escape_char, escape_from, json_escape}

-- The text with every character escaped, whatever the size of the buffer.
unfoldable pub escaped_text : Text → Text
escaped_text [] = []
escaped_text (c ∷ src) = escape_char c ++ escaped_text src

string_chars-escape_char :
    (c : ℕ) (text : Text) → string_chars (escape_char c ++ text) ≡ push c (string_chars text)
unfolding escape_char unescape
string_chars-escape_char c text = ground (
  arith,
  string_chars-plain c text,
  string_chars-escaped b'"' text,
  string_chars-escaped 0x5c text,
  string_chars-escaped b'b' text,
  string_chars-escaped b'f' text,
  string_chars-escaped b'n' text,
  string_chars-escaped b'r' text,
  string_chars-escaped b't' text,
)

string_chars-escaped_text :
    (src rest : Text) → string_chars (escaped_text src ++ b'"' ∷ rest) ≡ some (src, rest)
unfolding escaped_text
string_chars-escaped_text [] rest = string_chars-closing rest
string_chars-escaped_text (c ∷ src) rest = rw append_assoc (
    rw
      (
        string_chars-escape_char c (escaped_text src ++ b'"' ∷ rest),
        string_chars-escaped_text src rest,
      )
      refl)

-- What the loop writes, where the buffer is large enough, and that it fails where not.
escape_from-fits :
    (size written : ℕ) (src : Text)
    → written + length (escaped_text src) + 1 < size
    → escape_from size written src ≡ some (escaped_text src)
unfolding escape_from escaped_text
escape_from-fits size written [] h = refl
escape_from-fits size written (c ∷ src) h = ground (
  arith,
  length-append (escape_char c) (escaped_text src),
  escape_from-fits size (written + length (escape_char c)) src,
)

escape_from-full :
    (size written c : ℕ) (src : Text)
    → size < written + length (escaped_text (c ∷ src)) + 2
    → escape_from size written (c ∷ src) ≡ none
unfolding escape_from escaped_text
escape_from-full size written c [] h =
    ground (arith, length-append (escape_char c) (escaped_text []))
escape_from-full size written c (d ∷ src) h = ground (
  arith,
  length-append (escape_char c) (escaped_text (d ∷ src)),
  escape_from-full size (written + length (escape_char c)) d src,
)

-- Where `json_escape` succeeds, the parser reads what it writes, between quotes, back as the text
-- that was given. It fails exactly on a text that is not empty and whose escaped form has not two
-- bytes less than the buffer.
pub parse_string-json_escape :
    (size : ℕ) (src rest : Text)
    → ((json_escape size src ≡ some (escaped_text src))
        × (parse_string (b'"' ∷ (escaped_text src ++ b'"' ∷ rest)) ≡ some (src, rest))
        × ((src ≡ []) ⊎ (length (escaped_text src) + 1 < size)))
      ⊎ ((json_escape size src ≡ none) × (src ≢ []) × (size < length (escaped_text src) + 2))
unfolding json_escape parse_string escape_from escaped_text
parse_string-json_escape size [] rest = inl (refl, string_chars-escaped_text [] rest, inl refl)
parse_string-json_escape size (c ∷ src) rest =
    elim (Bool-cases (leb size (length (escaped_text (c ∷ src)) + 1))) [
      | inl e ↦ inr (escape_from-full size 0 c src (ground arith), (λ h. cc), ground arith)
      | inr e ↦ inl (
        escape_from-fits size 0 (c ∷ src) (ground arith),
        string_chars-escaped_text (c ∷ src) rest,
        inr (ground arith),
      )
    ]
