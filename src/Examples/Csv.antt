-- ===== src/Examples/Csv.antt =====
-- Rows of a CSV file.
use apx_db.Common.{
  ◌≡◌, ◌≢◌, ◌<◌, ◌+◌, ◌⊎◌, List, [], ◌∷◌, ◌++◌, map, none, some, arith, Text, codes, length,
}
use apx_db.Json.Strings.{parse_string}
use apx_db.Csv.{trim_whitespace, parse_csv_row, json_escape}
use apx_db.Csv.Rows.{
  doubled, quoted, quoted_fields, parse_csv_row-quoted, parse_csv_row-crlf, parse_csv_row-open,
}
use apx_db.Csv.Escape.{escaped_text, parse_string-json_escape}

-- A field with a comma, and one with quotes and blanks around them.
abbrev two_fields : List Text
two_fields = codes "Porto, PT" ∷ codes " say \"hi\" " ∷ []

parse_csv_row-quoted_example :
    parse_csv_row 64 (quoted_fields two_fields ++ (quoted (codes "7") ++ 10 ∷ codes "next"))
    ≡ some (map trim_whitespace two_fields ++ trim_whitespace (codes "7") ∷ [])
parse_csv_row-quoted_example =
    parse_csv_row-quoted 64 two_fields (codes "7") (codes "next") (omega arith, (omega arith, tt))
      (omega arith) (omega arith)

parse_csv_row-crlf_example :
    parse_csv_row 64 (quoted_fields two_fields ++ (quoted (codes "7") ++ 13 ∷ 10 ∷ []))
    ≡ some (map trim_whitespace two_fields ++ trim_whitespace (codes "7") ∷ [] ∷ [])
parse_csv_row-crlf_example =
    parse_csv_row-crlf 64 two_fields (codes "7") [] (omega arith, (omega arith, tt)) (omega arith)
      (omega arith)

parse_csv_row-open_example :
    parse_csv_row 64 (quoted_fields two_fields ++ b'"' ∷ doubled (codes "7,8"))
    ≡ some (map trim_whitespace two_fields)
parse_csv_row-open_example =
    parse_csv_row-open 64 two_fields (codes "7,8") (omega arith, (omega arith, tt)) (omega arith)
      (omega arith)

-- A quotation mark, a backslash and a control character.
abbrev marks : Text
marks = b'"' ∷ 0x5c ∷ 1 ∷ []

parse_string-json_escape_example :
    ((json_escape 16 marks ≡ some (escaped_text marks))
      × (parse_string (b'"' ∷ (escaped_text marks ++ b'"' ∷ codes "}")) ≡ some (marks, codes "}"))
      × ((marks ≡ []) ⊎ (length (escaped_text marks) + 1 < 16)))
    ⊎ ((json_escape 16 marks ≡ none) × (marks ≢ []) × (16 < length (escaped_text marks) + 2))
parse_string-json_escape_example = parse_string-json_escape 16 marks (codes "}")
