-- ===== src/Csv.antt =====
-- src/native/apxdb_import_csv.c: the rows of a CSV file, and how their fields are written as JSON.
-- Memory is there; `none` is `return false`.
pub mod Rows
pub mod Escape
use apx_db.Common.{
  ℕ, suc, ◌+◌, Bool, true, false, ◌||◌, ◌&&◌, List, [], ◌∷◌, ◌++◌, Option, none, some, ◌==◌, leb,
  if◌then◌else◌, Text, length,
}

-- `MAX_FIELD_LENGTH`, the size of the buffer for one field.
abbrev pub max_field_length : ℕ
max_field_length = 4096

unfoldable pub is_blank : ℕ → Bool
is_blank c = c == b' ' || c == 9 || c == 13 || c == 10

unfoldable pub trim_left : Text → Text
trim_left [] = []
trim_left (c ∷ text) = if is_blank c then trim_left text else c ∷ text

abbrev cons_unless_blank : ℕ → Text → Text
cons_unless_blank c [] = if is_blank c then [] else c ∷ []
cons_unless_blank c (d ∷ text) = c ∷ d ∷ text

unfoldable pub trim_right : Text → Text
trim_right [] = []
trim_right (c ∷ text) = cons_unless_blank c (trim_right text)

unfoldable pub trim_whitespace : Text → Text
trim_whitespace value = trim_right (trim_left value)

-- What `parse_csv_row` does on a character outside of quotes; the terminator is the end of the list.
pub data CsvChar : Type 0 where
  quote separator newline ordinary : CsvChar

unfoldable pub csv_char : ℕ → CsvChar
csv_char c =
    if c == b'"'
    then quote
    else if c == b',' || c == 13
    then separator
    else if c == 10
    then newline
    else ordinary

abbrev pub push_field : Text → Option (List Text) → Option (List Text)
push_field field none = none
push_field field (some fields) = some (field ∷ fields)

-- The loop, with `max_fields`, `in_quotes`, `buffer` and `idx`: the fields from there on.
unfoldable pub row_fields : ℕ → Bool → Text → ℕ → Text → Option (List Text)
unfolding csv_char
row_fields max_fields true buffer idx [] = some []
row_fields max_fields true buffer idx (c ∷ []) = elim (c == b'"') [
  | true ↦ row_fields max_fields false buffer idx []
  | false ↦ elim (leb max_field_length (length buffer + 1)) [
    | true ↦ none
    | false ↦ row_fields max_fields true (buffer ++ c ∷ []) idx []
  ]
]
row_fields max_fields true buffer idx (c ∷ d ∷ text) = elim (c == b'"') [
  | true ↦ elim (d == b'"') [
    | true ↦ elim (leb max_field_length (length buffer + 1)) [
      | true ↦ none
      | false ↦ row_fields max_fields true (buffer ++ b'"' ∷ []) idx text
    ]
    | false ↦ row_fields max_fields false buffer idx (d ∷ text)
  ]
  | false ↦ elim (leb max_field_length (length buffer + 1)) [
    | true ↦ none
    | false ↦ row_fields max_fields true (buffer ++ c ∷ []) idx (d ∷ text)
  ]
]
row_fields max_fields false buffer idx [] =
    if leb max_fields idx then none else some (trim_whitespace buffer ∷ [])
row_fields max_fields false buffer idx (c ∷ text) = elim (csv_char c) [
  | quote ↦ row_fields max_fields true buffer idx text
  | separator ↦ elim (leb max_fields idx) [
    | true ↦ none
    | false ↦ push_field (trim_whitespace buffer) (row_fields max_fields false [] (suc idx) text)
  ]
  | newline ↦ if leb max_fields idx then none else some (trim_whitespace buffer ∷ [])
  | ordinary ↦ elim (leb max_field_length (length buffer + 1)) [
    | true ↦ none
    | false ↦ row_fields max_fields false (buffer ++ c ∷ []) idx text
  ]
]

unfoldable pub parse_csv_row : ℕ → Text → Option (List Text)
parse_csv_row max_fields line = row_fields max_fields false [] 0 line

-- `esc`, or the character itself.
unfoldable pub escape_char : ℕ → Text
escape_char c =
    if c == b'"'
    then 0x5c ∷ b'"' ∷ []
    else if c == 0x5c
    then 0x5c ∷ 0x5c ∷ []
    else if c == 8
    then 0x5c ∷ b'b' ∷ []
    else if c == 12
    then 0x5c ∷ b'f' ∷ []
    else if c == 10
    then 0x5c ∷ b'n' ∷ []
    else if c == 13
    then 0x5c ∷ b'r' ∷ []
    else if c == 9
    then 0x5c ∷ b't' ∷ []
    else c ∷ []

abbrev put_before : Text → Option Text → Option Text
put_before esc none = none
put_before esc (some rest) = some (esc ++ rest)

-- The loop of `json_escape`, with `dst_size` and `written`: what goes behind those bytes.
unfoldable pub escape_from : ℕ → ℕ → Text → Option Text
escape_from dst_size written [] = some []
escape_from dst_size written (c ∷ src) =
    let esc = escape_char c in
    let rest = escape_from dst_size (written + length esc) src in
    if leb dst_size (written + length esc + 1) then none else put_before esc rest

unfoldable pub json_escape : ℕ → Text → Option Text
json_escape dst_size src = escape_from dst_size 0 src
