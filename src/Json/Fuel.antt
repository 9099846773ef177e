-- ===== src/Json/Fuel.antt =====
-- The parser ends: it never runs out of the fuel that `apxdb_json_parse` gives it, and what it
-- accepts it reads off the front of its input.
use apx_db.Common.{
  ℕ, zero, suc, ◌+◌, ◌*◌, ◌≤◌, ◌<◌, ◌≡◌, refl, ◌≢◌, inl, inr, Bool, true, false, List, [], ◌∷◌,
  Option, none, some, ◌==◌, ◌&&◌, if◌then◌else◌, arith, Text, peek, advance, codes, drop, length,
  Bool-cases, ==_iff,
}
use apx_db.Libc.{Doubles}
use apx_db.Libc.Reads.{length-skip_spaces-le, length-advance-le, length-advance-lt}
use apx_db.Common.Outcome.{Outcome, returned, failed, out_of_fuel, of_option, ◌>>=◌}
use apx_db.Json.{
  Value, Items, Members, null, bool, string, array, object, no_items, item, no_members, member,
}
use apx_db.Json.Shorter.{Shorter, parse_string-Shorter, parse_number-Shorter}
use apx_db.Json.Strings.{parse_string}
use apx_db.Json.Parser.{
  skip_whitespace, starts_with, word, parse_scalar, parse_string_value, parse_value, parse_array,
  parse_items, parse_object, parse_members, parse_fuel, at_end, apxdb_json_parse,
}

-- The run is refused, or leaves less than `n` bytes.
pub data Consumes {A : Type 0} (n : ℕ) : Outcome (A × Text) → Type 0 where
  consumed : (a : A) (rest : Text) → length rest < n → Consumes n (returned (a, rest))
  refused : Consumes n failed

module _ {A : Type 0} where
  Consumes-mono : {m n : ℕ} {r : Outcome (A × Text)} → Consumes m r → m ≤ n → Consumes n r
  Consumes-mono (consumed a rest h) le = consumed a rest (omega arith)
  Consumes-mono refused le = refused

  Consumes-bind :
      {B : Type 0} {m n : ℕ} {r : Outcome (A × Text)} (k : A × Text → Outcome (B × Text))
      → Consumes m r
      → ((a : A) (rest : Text) → length rest < m → Consumes n (k (a, rest)))
      → Consumes n (r >>= k)
  Consumes-bind k (consumed a rest h) step = step a rest h
  Consumes-bind k refused step = refused

  Consumes-if :
      {n : ℕ} (b : Bool) {x y : Outcome (A × Text)}
      → (b ≡ true → Consumes n x)
      → (b ≡ false → Consumes n y)
      → Consumes n (if b then x else y)
  Consumes-if true hx hy = hx refl
  Consumes-if false hx hy = hy refl

Consumes-of_option :
    {A : Type 0} {n : ℕ} (o : Option (A × Text)) → Shorter n o → Consumes n (of_option o)
Consumes-of_option none h = refused
Consumes-of_option (some (a, rest)) h = consumed a rest h

length-drop-le {ℓ} : {A : Type ℓ} (k : ℕ) (xs : List A) → length (drop k xs) ≤ length xs
length-drop-le zero xs = omega arith
length-drop-le (suc k) [] = omega arith
length-drop-le (suc k) (x ∷ xs) = omega (arith, length-drop-le k xs)

word-Consumes :
    {A : Type 0} (c : ℕ) (w : Text) (a : A) (text : Text)
    → 0 < length text
    → Consumes (length text) (word (c ∷ w) a text)
word-Consumes c w a [] h = absurd (omega arith)
word-Consumes c w a (d ∷ text) h = consumed a _ (omega (arith, length-drop-le (length w) text))

peek_pos : (text : Text) → peek text ≢ 0 → 0 < length text
peek_pos [] h = absurd (h refl)
peek_pos (c ∷ text) h = omega arith

module _ (D : Type 0) ⦃fp : Doubles D⦄ where
  parse_scalar-Consumes :
      (text : Text) → peek text ≢ 0 → Consumes (length text) (parse_scalar {D = D} text)
  unfolding parse_scalar
  parse_scalar-Consumes text h =
      Consumes-if (peek text == b't' && starts_with (codes "true") text)
        (λ _. word-Consumes b't' (codes "rue") (bool true) text (peek_pos text h))
        (λ _.
          Consumes-if (peek text == b'f' && starts_with (codes "false") text)
            (λ _. word-Consumes b'f' (codes "alse") (bool false) text (peek_pos text h))
            (λ _.
              Consumes-if (peek text == b'n' && starts_with (codes "null") text)
                (λ _. word-Consumes b'n' (codes "ull") null text (peek_pos text h))
                (λ _. Consumes-of_option _ (parse_number-Shorter D text))))

  parse_string_value-Consumes :
      (text : Text) → Consumes (length text) (parse_string_value {D = D} text)
  unfolding parse_string_value
  parse_string_value-Consumes text =
      Consumes-bind _ (Consumes-of_option (parse_string text) (parse_string-Shorter text))
        λ s rest h. consumed (string s) rest h

length-skip_whitespace-le : (text : Text) → length (skip_whitespace text) ≤ length text
unfolding skip_whitespace
length-skip_whitespace-le text = length-skip_spaces-le text

-- Behind an element: the closing bracket, or a comma and the elements that follow.
Consumes-after :
    {A B : Type 0} {n : ℕ} (close : ℕ) (after : Text) (last : A) (more : Outcome (B × Text))
    (join : B → A)
    → length after < n
    → Consumes n more
    → let next = skip_whitespace after in
      Consumes n (
        if peek next == close
        then returned (last, advance next)
        else if peek next == b','
        then (more >>= λ (b, rest). returned (join b, rest))
        else failed)
Consumes-after close after last more join h m =
    let next = skip_whitespace after in
    Consumes-if (peek next == close)
      (λ _.
        consumed last _ (omega (arith, length-skip_whitespace-le after, length-advance-le next)))
      (λ _.
        Consumes-if (peek next == b',')
          (λ _. Consumes-bind _ m λ b rest h. consumed (join b) rest h) (λ _. refused))

-- The text behind a separator.
length-next-le :
    (after : Text) → length (skip_whitespace (advance (skip_whitespace after))) ≤ length after
length-next-le after = omega (
  arith,
  length-skip_whitespace-le after,
  length-advance-le (skip_whitespace after),
  length-skip_whitespace-le (advance (skip_whitespace after)),
)

-- Behind an opening bracket there is less.
length-open-lt :
    (c : ℕ) (input : Text)
    → 0 < c
    → (peek input == c) ≡ true
    → length (skip_whitespace (advance input)) < length input
length-open-lt c input positive e = omega (
  arith,
  length-skip_whitespace-le (advance input),
  length-advance-lt input c ((==_iff (peek input) c).0 e) positive,
)

module _ (D : Type 0) ⦃fp : Doubles D⦄ where
  mutual
    unfolding parse_value

    parse_value-Consumes :
        (f : ℕ) (text : Text)
        → 3 * length text + 2 < f
        → Consumes {A = Value D} (length text) (parse_value {D = D} f text)
    parse_value-Consumes zero input h = absurd (omega arith)
    parse_value-Consumes (suc f) input h =
        let text = skip_whitespace input in
        let le : length text ≤ length input = length-skip_whitespace-le input in
        Consumes-mono
          (Consumes-if {n = length text} (peek text == 0) (λ _. refused)
            (λ e.
              Consumes-if (peek text == b'"') (λ _. parse_string_value-Consumes D text)
                (λ _.
                  Consumes-if (peek text == b'{') (λ _. parse_object-Consumes f text (omega arith))
                    (λ _.
                      Consumes-if (peek text == b'[')
                        (λ _. parse_array-Consumes f text (omega arith))
                        (λ _. parse_scalar-Consumes D text (ground arith))))))
          le

    parse_array-Consumes :
        (f : ℕ) (text : Text)
        → 3 * length text + 1 < f
        → Consumes {A = Value D} (length text) (parse_array {D = D} f text)
    parse_array-Consumes zero input h = absurd (omega arith)
    parse_array-Consumes (suc f) input h =
        let text = skip_whitespace (advance input) in
        Consumes-if (peek input == b'[')
          (λ e.
            let lt : length text < length input = length-open-lt b'[' input (omega arith) e in
            Consumes-if (peek text == b']')
              (λ _. consumed (array no_items) _ (omega (arith, length-advance-le text)))
              (λ _.
                Consumes-mono
                  (Consumes-bind {n = length text} _ (parse_items-Consumes f text (omega arith))
                    λ vs rest h. consumed (array vs) rest h)
                  (omega arith)))
          (λ _. refused)

    parse_items-Consumes :
        (f : ℕ) (text : Text)
        → 3 * length text + 3 < f
        → Consumes {A = Items D} (length text) (parse_items {D = D} f text)
    parse_items-Consumes zero input h = absurd (omega arith)
    parse_items-Consumes (suc f) text h =
        Consumes-bind _ (parse_value-Consumes f text (omega arith)) λ v after lt.
          let rest = skip_whitespace (advance (skip_whitespace after)) in
          let le : length rest ≤ length after = length-next-le after in
          Consumes-after b']' after (item v no_items) (parse_items f rest) (item v) lt
            (Consumes-mono (parse_items-Consumes f rest (omega arith)) (omega arith))

    parse_object-Consumes :
        (f : ℕ) (text : Text)
        → 3 * length text + 1 < f
        → Consumes {A = Value D} (length text) (parse_object {D = D} f text)
    parse_object-Consumes zero input h = absurd (omega arith)
    parse_object-Consumes (suc f) input h =
        let text = skip_whitespace (advance input) in
        Consumes-if (peek input == b'{')
          (λ e.
            let lt : length text < length input = length-open-lt b'{' input (omega arith) e in
            Consumes-if (peek text == b'}')
              (λ _. consumed (object no_members) _ (omega (arith, length-advance-le text)))
              (λ _.
                Consumes-mono
                  (Consumes-bind {n = length text} _ (parse_members-Consumes f text (omega arith))
                    λ ms rest h. consumed (object ms) rest h)
                  (omega arith)))
          (λ _. refused)

    parse_members-Consumes :
        (f : ℕ) (text : Text)
        → 3 * length text + 3 < f
        → Consumes {A = Members D} (length text) (parse_members {D = D} f text)
    parse_members-Consumes zero text h = absurd (omega arith)
    parse_members-Consumes (suc f) text h =
        Consumes-bind _ (Consumes-of_option (parse_string text) (parse_string-Shorter text))
          λ name after_name lt₁.
            let colon = skip_whitespace after_name in
            let start = skip_whitespace (advance colon) in
            let le₁ : length start ≤ length after_name = length-next-le after_name in
            Consumes-bind {m = length text} _
              (Consumes-if (peek colon == b':')
                (λ _. Consumes-mono (parse_value-Consumes f start (omega arith)) (omega arith))
                (λ _. refused))
              λ v after lt₂.
                let rest = skip_whitespace (advance (skip_whitespace after)) in
                let le₂ : length rest ≤ length after = length-next-le after in
                Consumes-after b'}' after (member name v no_members) (parse_members f rest)
                  (member name v) lt₂
                  (Consumes-mono (parse_members-Consumes f rest (omega arith)) (omega arith))

  -- With fuel above three times its input, `parse_value` does not run out of it: it rejects the
  -- input, or returns a value and leaves less of the input than it was given.
  pub parse_value-Consumes_lem :
      (f : ℕ) (text : Text)
      → 3 * length text + 2 < f
      → Consumes {A = Value D} (length text) (parse_value {D = D} f text)
  parse_value-Consumes_lem = parse_value-Consumes

  parse_value-ne-out_of_fuel :
      {n : ℕ} (r : Outcome (Value D × Text)) → Consumes n r → (r >>= at_end) ≢ out_of_fuel
  parse_value-ne-out_of_fuel _ (consumed v rest h) =
      elim (Bool-cases (peek (skip_whitespace rest) == 0)) [
        | inl e ↦ rw e (λ p. cc)
        | inr e ↦ rw e (λ p. cc)
      ]
  parse_value-ne-out_of_fuel _ refused = λ p. cc

  -- `apxdb_json_parse` comes to an end on every text: the fuel that it is given is enough.
  pub apxdb_json_parse-ne-out_of_fuel : (text : Text) → apxdb_json_parse {D = D} text ≢ out_of_fuel
  unfolding apxdb_json_parse
  apxdb_json_parse-ne-out_of_fuel text =
      parse_value-ne-out_of_fuel _ (parse_value-Consumes (parse_fuel text) text (omega arith))
