-- ===== src/Csv/Rows.antt =====
-- src/native/apxdb_import_csv.c, `parse_csv_row` on rows whose fields are written in quotes.
use apx_db.Common.{
  ℕ, suc, ◌+◌, ◌<◌, ◌≤◌, ◌≡◌, ◌≢◌, refl, true, false, List, [], ◌∷◌, ◌++◌, map, Option, some,
  append_assoc, append-nil, arith, Text, length, leb, peek, All, ◌==◌, if◌then◌else◌, length-append,
  ap, ◌∙◌,
}
use apx_db.Csv.{
  max_field_length, trim_left, trim_right, trim_whitespace, csv_char, push_field, row_fields,
  parse_csv_row,
}

-- A field with every quote written twice, and in quotes.
abbrev double_char : ℕ → Text
double_char c = if c == b'"' then b'"' ∷ b'"' ∷ [] else c ∷ []

unfoldable pub doubled : Text → Text
doubled [] = []
doubled (c ∷ field) = double_char c ++ doubled field

abbrev pub quoted : Text → Text
quoted field = b'"' ∷ (doubled field ++ b'"' ∷ [])

-- Fields that each have a comma behind them.
unfoldable pub quoted_fields : List Text → Text
quoted_fields [] = []
quoted_fields (field ∷ fields) = quoted field ++ b',' ∷ quoted_fields fields

-- The field, with its terminator, goes into the buffer.
abbrev Fits : Text → Type 0
Fits field = length field < max_field_length

eqb-ne : (a b : ℕ) → a ≢ b → (a == b) ≡ false
eqb-ne a b h = ground arith

leb-lt : (a b : ℕ) → b < a → leb a b ≡ false
leb-lt a b h = ground arith

-- One character inside of quotes.
inside-plain :
    (n : ℕ) (buffer : Text) (idx c : ℕ) (text : Text)
    → c ≢ b'"'
    → length buffer + 1 < max_field_length
    → row_fields n true buffer idx (c ∷ text) ≡ row_fields n true (buffer ++ c ∷ []) idx text
unfolding row_fields
inside-plain n buffer idx c [] q h = ground arith
inside-plain n buffer idx c (d ∷ text) q h = ground arith

inside-quote :
    (n : ℕ) (buffer : Text) (idx : ℕ) (text : Text)
    → length buffer + 1 < max_field_length
    → row_fields n true buffer idx (b'"' ∷ b'"' ∷ text)
      ≡ row_fields n true (buffer ++ b'"' ∷ []) idx text
unfolding row_fields
inside-quote n buffer idx text h = ground arith

inside-closing :
    (n : ℕ) (buffer : Text) (idx : ℕ) (text : Text)
    → peek text ≢ b'"'
    → row_fields n true buffer idx (b'"' ∷ text) ≡ row_fields n false buffer idx text
unfolding row_fields
inside-closing n buffer idx [] h = refl
inside-closing n buffer idx (d ∷ text) h = ground arith

inside-double_char :
    (n : ℕ) (buffer : Text) (idx c : ℕ) (text : Text)
    → length buffer + 1 < max_field_length
    → row_fields n true buffer idx (double_char c ++ text)
      ≡ row_fields n true (buffer ++ c ∷ []) idx text
inside-double_char n buffer idx c text h =
    ground (arith, inside-plain n buffer idx c text, inside-quote n buffer idx text)

-- The contents of a field, up to the closing quote, and where there is none.
inside-doubled :
    (n : ℕ) (buffer : Text) (idx : ℕ) (field text : Text)
    → length buffer + length field < max_field_length
    → peek text ≢ b'"'
    → row_fields n true buffer idx (doubled field ++ b'"' ∷ text)
      ≡ row_fields n false (buffer ++ field) idx text
unfolding doubled
inside-doubled n buffer idx [] text h q = rw append-nil (inside-closing n buffer idx text q)
inside-doubled n buffer idx (c ∷ field) text h q = rw append_assoc (
    inside-double_char n buffer idx c (doubled field ++ b'"' ∷ text) (omega arith)
    ∙ inside-doubled n (buffer ++ c ∷ []) idx field text
        (omega (arith, length-append buffer (c ∷ []))) q
    ∙ ap (λ b. row_fields n false b idx text) (append_assoc buffer (c ∷ []) field))

inside-open :
    (n : ℕ) (buffer : Text) (idx : ℕ) (field : Text)
    → length buffer + length field < max_field_length
    → row_fields n true buffer idx (doubled field) ≡ some []
unfolding doubled
inside-open n buffer idx [] h = unfold row_fields in refl
inside-open n buffer idx (c ∷ field) h =
    inside-double_char n buffer idx c (doubled field) (omega arith)
    ∙ inside-open n (buffer ++ c ∷ []) idx field (omega (arith, length-append buffer (c ∷ [])))

opening :
    (n idx : ℕ) (text : Text)
    → row_fields n false [] idx (b'"' ∷ text) ≡ row_fields n true [] idx text
unfolding row_fields csv_char
opening n idx text = refl

quoted-field :
    (n idx : ℕ) (field text : Text)
    → Fits field
    → peek text ≢ b'"'
    → row_fields n false [] idx (quoted field ++ text) ≡ row_fields n false field idx text
quoted-field n idx field text h q =
    opening n idx ((doubled field ++ b'"' ∷ []) ++ text)
    ∙ rw append_assoc (inside-doubled n [] idx field text (omega arith) q)

abbrev push_fields : List Text → Option (List Text) → Option (List Text)
push_fields [] r = r
push_fields (field ∷ fields) r = push_field field (push_fields fields r)

push_fields-some :
    (fields rest : List Text) → push_fields fields (some rest) ≡ some (fields ++ rest)
push_fields-some [] rest = refl
push_fields-some (field ∷ fields) rest = rw (push_fields-some fields rest) refl

ended :
    (n idx : ℕ) (field text : Text)
    → idx < n
    → row_fields n false field idx (10 ∷ text) ≡ some (trim_whitespace field ∷ [])
unfolding row_fields csv_char
ended n idx field text h = ground arith

separated :
    (n idx : ℕ) (field text : Text)
    → idx < n
    → row_fields n false field idx (b',' ∷ text)
      ≡ push_field (trim_whitespace field) (row_fields n false [] (suc idx) text)
unfolding row_fields csv_char
separated n idx field text h = ground arith

returned :
    (n idx : ℕ) (field text : Text)
    → idx < n
    → row_fields n false field idx (13 ∷ text)
      ≡ push_field (trim_whitespace field) (row_fields n false [] (suc idx) text)
unfolding row_fields csv_char
returned n idx field text h = ground arith

row_fields-quoted_fields :
    (n idx m : ℕ) (fields : List Text) (text : Text)
    → All Fits fields
    → idx + length fields ≡ m
    → m ≤ n
    → row_fields n false [] idx (quoted_fields fields ++ text)
      ≡ push_fields (map trim_whitespace fields) (row_fields n false [] m text)
unfolding quoted_fields
row_fields-quoted_fields n idx m [] text h e le =
    ap (λ k. row_fields n false [] k text) (omega arith)
row_fields-quoted_fields n idx m (field ∷ fields) text h e le =
    ap (row_fields n false [] idx) (append_assoc (quoted field) (b',' ∷ quoted_fields fields) text)
    ∙ quoted-field n idx field (b',' ∷ (quoted_fields fields ++ text)) h.0 (omega arith)
    ∙ separated n idx field (quoted_fields fields ++ text) (omega arith)
    ∙ ap (push_field (trim_whitespace field))
        (row_fields-quoted_fields n (suc idx) m fields text h.1 (omega arith) le)

-- What the rest of a row gives comes behind the fields before it.
after_fields :
    (n : ℕ) (fields rest : List Text) (text : Text)
    → All Fits fields
    → length fields ≤ n
    → row_fields n false [] (length fields) text ≡ some rest
    → parse_csv_row n (quoted_fields fields ++ text) ≡ some (map trim_whitespace fields ++ rest)
unfolding parse_csv_row
after_fields n fields rest text h le e =
    row_fields-quoted_fields n 0 (length fields) fields text h (omega arith) le
    ∙ ap (push_fields (map trim_whitespace fields)) e
    ∙ push_fields-some (map trim_whitespace fields) rest

-- A row of fields in quotes, each shorter than the buffer and not more of them than the caller takes:
-- `parse_csv_row` gives the fields, without the blanks around them, and stops at the end of the line.
pub parse_csv_row-quoted :
    (n : ℕ) (fields : List Text) (last text : Text)
    → All Fits fields
    → Fits last
    → length fields < n
    → parse_csv_row n (quoted_fields fields ++ (quoted last ++ 10 ∷ text))
      ≡ some (map trim_whitespace fields ++ trim_whitespace last ∷ [])
parse_csv_row-quoted n fields last text h k lt = after_fields n fields _ _ h (omega arith) (
    quoted-field n (length fields) last (10 ∷ text) k (omega arith)
    ∙ ended n (length fields) last text lt)

-- On a row of fields in quotes, each shorter than the buffer, that ends in a carriage return and a
-- newline, with room for one more field, `parse_csv_row` gives the fields and one more, empty one.
pub parse_csv_row-crlf :
    (n : ℕ) (fields : List Text) (last text : Text)
    → All Fits fields
    → Fits last
    → length fields + 1 < n
    → parse_csv_row n (quoted_fields fields ++ (quoted last ++ 13 ∷ 10 ∷ text))
      ≡ some (map trim_whitespace fields ++ trim_whitespace last ∷ [] ∷ [])
unfolding trim_whitespace trim_right trim_left
parse_csv_row-crlf n fields last text h k lt = after_fields n fields _ _ h (omega arith) (
    quoted-field n (length fields) last (13 ∷ 10 ∷ text) k (omega arith)
    ∙ returned n (length fields) last (10 ∷ text) (omega arith)
    ∙ ap (push_field (trim_whitespace last)) (ended n (suc (length fields)) [] text (omega arith)))

-- On a row of fields in quotes, each shorter than the buffer and not more of them than the caller
-- takes, with a last one behind them that has no closing quote, `parse_csv_row` succeeds, and leaves
-- that last field out.
pub parse_csv_row-open :
    (n : ℕ) (fields : List Text) (last : Text)
    → All Fits fields
    → Fits last
    → length fields ≤ n
    → parse_csv_row n (quoted_fields fields ++ b'"' ∷ doubled last)
      ≡ some (map trim_whitespace fields)
parse_csv_row-open n fields last h k le =
    after_fields n fields [] _ h le (
      opening n (length fields) (doubled last)
      ∙ inside-open n [] (length fields) last (omega arith))
    ∙ ap some (append-nil _)
