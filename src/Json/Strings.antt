-- ===== src/Json/Strings.antt =====
-- src/native/apxdb_json.c, `parse_string`, and src/native/apxdb_collection.c, `append_json_string`,
-- which writes the strings that a document is read back with.
use apx_db.Common.{
  ℕ, ◌+◌, ◌-◌, ◌/◌, ◌%◌, [], ◌∷◌, ◌++◌, Option, none, some, ◌==◌, ltb, if◌then◌else◌, Text, peek,
  advance,
}

-- The `switch` on the character after a backslash.
unfoldable pub unescape : ℕ → Option ℕ
unescape ch =
    if ch == b'"'
    then some b'"'
    else if ch == 0x5c
    then some 0x5c
    else if ch == b'/'
    then some b'/'
    else if ch == b'b'
    then some 8
    else if ch == b'f'
    then some 12
    else if ch == b'n'
    then some 10
    else if ch == b'r'
    then some 13
    else if ch == b't'
    then some 9
    else none

abbrev pub push : ℕ → Option (Text × Text) → Option (Text × Text)
push c none = none
push c (some (s, rest)) = some (c ∷ s, rest)

abbrev pub push_escaped : Option ℕ → Option (Text × Text) → Option (Text × Text)
push_escaped none r = none
push_escaped (some c) r = push c r

-- The loop behind the opening quote: the contents, and the text behind the closing quote.
unfoldable pub string_chars : Text → Option (Text × Text)
unfolding unescape
string_chars [] = none
string_chars (c ∷ []) = if c == b'"' then some ([], []) else none
string_chars (c ∷ ch ∷ text) =
    let plain = push c (string_chars (ch ∷ text)) in
    let escaped = push_escaped (unescape ch) (string_chars text) in
    if c == b'"' then some ([], ch ∷ text) else if c == 0x5c then escaped else plain

unfoldable pub parse_string : Text → Option (Text × Text)
unfolding string_chars
parse_string input = if peek input == b'"' then string_chars (advance input) else none

-- `"\\u%04x"` of a byte below 0x20.
abbrev pub hex_digit : ℕ → ℕ
hex_digit d = if ltb d 10 then b'0' + d else b'a' + (d - 10)

abbrev unicode_escape : ℕ → Text
unicode_escape c = 0x5c ∷ b'u' ∷ b'0' ∷ b'0' ∷ hex_digit (c / 16) ∷ hex_digit (c % 16) ∷ []

-- What `append_json_string` writes for one byte.
unfoldable pub escape : ℕ → Text
escape c =
    if c == b'"'
    then 0x5c ∷ b'"' ∷ []
    else if c == 0x5c
    then 0x5c ∷ 0x5c ∷ []
    else if c == 8
    then 0x5c ∷ b'b' ∷ []
    else if c == 12
    then 0x5c ∷ b'f' ∷ []
    else if c == 10
    then 0x5c ∷ b'n' ∷ []
    else if c == 13
    then 0x5c ∷ b'r' ∷ []
    else if c == 9
    then 0x5c ∷ b't' ∷ []
    else if ltb c 0x20
    then unicode_escape c
    else c ∷ []

unfoldable pub escape_all : Text → Text
unfolding escape
escape_all [] = []
escape_all (c ∷ text) = escape c ++ escape_all text

-- The text that `append_json_string` appends to the buffer.
unfoldable pub append_json_string : Text → Text
unfolding escape_all
append_json_string text = b'"' ∷ (escape_all text ++ b'"' ∷ [])
