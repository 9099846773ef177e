-- ===== src/Examples/Json.antt =====
-- Inputs of the JSON parser.
use apx_db.Common.{ℕ, ◌≡◌, ◌≢◌, inl, inr, [], ◌∷◌, ◌++◌, none, some, Text, codes, arith}
use apx_db.Common.Outcome.{out_of_fuel}
use apx_db.Json.Strings.{append_json_string, parse_string}
use apx_db.Json.Parser.{apxdb_json_parse}
use apx_db.Json.Fuel.{apxdb_json_parse-ne-out_of_fuel}
use apx_db.Json.StringRound.{parse_string-append_json_string, parse_string-control}
use apx_db.Examples.{whole_doubles}

abbrev city_document : Text
city_document = codes "{\"city\": [\"Rio\", {\"x\": -12}, null]}"

apxdb_json_parse-ne-out_of_fuel_example : apxdb_json_parse {D = ℕ} city_document ≢ out_of_fuel
apxdb_json_parse-ne-out_of_fuel_example =
    apxdb_json_parse-ne-out_of_fuel ℕ ⦃fp = whole_doubles⦄ city_document

-- A quotation mark, a backslash, a tab and a letter.
abbrev quoted : Text
quoted = b'"' ∷ 0x5c ∷ 9 ∷ b'a' ∷ []

parse_string-append_json_string_example :
    parse_string (append_json_string quoted ++ codes "]") ≡ some (quoted, codes "]")
parse_string-append_json_string_example = parse_string-append_json_string quoted (codes "]") (
  inl (omega arith),
  (inl (omega arith), (inr (inl (omega arith, omega arith)), (inl (omega arith), tt))),
)

parse_string-control_example :
    (parse_string (b'"' ∷ 1 ∷ b'"' ∷ codes ",") ≡ some (1 ∷ [], codes ","))
    × (parse_string (append_json_string (codes "a" ++ 1 ∷ codes "b") ++ codes ",") ≡ none)
parse_string-control_example =
    parse_string-control (codes "a") (codes "b") (codes ",") 1 (inl (omega arith), tt)
      (inl (omega arith))
