-- ===== src/Json/Parser.antt =====
-- src/native/apxdb_json.c, `parse_value` and its helpers, and `apxdb_json_parse`. What a call leaves
-- of the input is not a structural part of it, so each call costs a unit of fuel.
use apx_db.Common.{
  ℕ, zero, suc, ◌+◌, ◌*◌, Bool, true, false, [], ◌∷◌, ◌==◌, ◌&&◌, if◌then◌else◌, Text, peek,
  advance, codes, drop, length,
}
use apx_db.Libc.{skip_spaces, Doubles}
use apx_db.Common.Outcome.{Outcome, returned, failed, out_of_fuel, of_option, ◌>>=◌}
use apx_db.Json.{
  Value, Items, Members, null, bool, string, array, object, no_items, item, no_members, member,
}
use apx_db.Json.Strings.{parse_string}
use apx_db.Json.Number.{parse_number}

-- `skip_whitespace`: the loop over `isspace`.
unfoldable pub skip_whitespace : Text → Text
unfolding skip_spaces
skip_whitespace text = skip_spaces text

-- `strncmp(text, word, strlen(word)) == 0`.
unfoldable pub starts_with : Text → Text → Bool
starts_with [] text = true
starts_with (w ∷ word) [] = false
starts_with (w ∷ word) (c ∷ text) = w == c && starts_with word text

abbrev pub word : {A : Type 0} → Text → A → Text → Outcome (A × Text)
word w a text = returned (a, drop (length w) text)

-- Three calls for each byte are enough: `Json.Fuel`.
abbrev pub parse_fuel : Text → ℕ
parse_fuel text = 3 * length text + 3

module _ {D : Type 0} ⦃fp : Doubles D⦄ where
  -- The literals `true`, `false` and `null`, and numbers.
  unfoldable pub parse_scalar : Text → Outcome (Value D × Text)
  parse_scalar text =
      if peek text == b't' && starts_with (codes "true") text
      then word (codes "true") (bool true) text
      else if peek text == b'f' && starts_with (codes "false") text
      then word (codes "false") (bool false) text
      else if peek text == b'n' && starts_with (codes "null") text
      then word (codes "null") null text
      else of_option (parse_number text)

  unfoldable pub parse_string_value : Text → Outcome (Value D × Text)
  parse_string_value text = do (s, rest) ← of_option (parse_string text); returned (string s, rest)

  unfoldable mutual
    pub parse_value : ℕ → Text → Outcome (Value D × Text)
    parse_value zero input = out_of_fuel
    parse_value (suc f) input =
        let text = skip_whitespace input in
        let from_object = parse_object f text in
        let from_array = parse_array f text in
        if peek text == 0
        then failed
        else if peek text == b'"'
        then parse_string_value text
        else if peek text == b'{'
        then from_object
        else if peek text == b'['
        then from_array
        else parse_scalar text

    pub parse_array : ℕ → Text → Outcome (Value D × Text)
    parse_array zero input = out_of_fuel
    parse_array (suc f) input =
        let text = skip_whitespace (advance input) in
        let from_items = parse_items f text >>= λ (vs, rest). returned (array vs, rest) in
        if peek input == b'['
        then (if peek text == b']' then returned (array no_items, advance text) else from_items)
        else failed

    -- The loop of `parse_array`.
    pub parse_items : ℕ → Text → Outcome (Items D × Text)
    parse_items zero text = out_of_fuel
    parse_items (suc f) text = do
      (v, after) ← parse_value f text
      let next = skip_whitespace after
      let more = parse_items f (skip_whitespace (advance next))
      if peek next == b']'
          then returned (item v no_items, advance next)
          else if peek next == b','
          then (more >>= λ (vs, rest). returned (item v vs, rest))
          else failed

    pub parse_object : ℕ → Text → Outcome (Value D × Text)
    parse_object zero input = out_of_fuel
    parse_object (suc f) input =
        let text = skip_whitespace (advance input) in
        let from_members = parse_members f text >>= λ (ms, rest). returned (object ms, rest) in
        if peek input == b'{'
        then (if peek text == b'}'
            then returned (object no_members, advance text)
            else from_members)
        else failed

    -- The loop of `parse_object`.
    pub parse_members : ℕ → Text → Outcome (Members D × Text)
    parse_members zero text = out_of_fuel
    parse_members (suc f) text = do
      (name, after_name) ← of_option (parse_string text)
      let colon = skip_whitespace after_name
      let member_value = parse_value f (skip_whitespace (advance colon))
      (v, after) ← (if peek colon == b':' then member_value else failed)
      let next = skip_whitespace after
      let more = parse_members f (skip_whitespace (advance next))
      if peek next == b'}'
          then returned (member name v no_members, advance next)
          else if peek next == b','
          then (more >>= λ (ms, rest). returned (member name v ms, rest))
          else failed

  abbrev pub at_end : Value D × Text → Outcome (Value D)
  at_end (v, rest) = if peek (skip_whitespace rest) == 0 then returned v else failed

  unfoldable pub apxdb_json_parse : Text → Outcome (Value D)
  apxdb_json_parse text = parse_value (parse_fuel text) text >>= at_end
