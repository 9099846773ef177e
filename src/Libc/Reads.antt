-- ===== src/Libc/Reads.antt =====
-- What the reading functions leave of a text is no longer than the text.
use apx_db.Common.{ℕ, ◌≤◌, ◌<◌, ◌≡◌, true, [], ◌∷◌, arith, Text, peek, advance, length}
use apx_db.Libc.{is_digit, after_sign, skip_spaces, skip_digits}

pub length-skip_spaces-le : (text : Text) → length (skip_spaces text) ≤ length text
unfolding skip_spaces
length-skip_spaces-le [] = omega arith
length-skip_spaces-le (c ∷ text) = ground (arith, length-skip_spaces-le text)

pub length-skip_digits-le : (text : Text) → length (skip_digits text) ≤ length text
unfolding skip_digits
length-skip_digits-le [] = omega arith
length-skip_digits-le (c ∷ text) = ground (arith, length-skip_digits-le text)

pub length-advance-le : (text : Text) → length (advance text) ≤ length text
length-advance-le [] = omega arith
length-advance-le (c ∷ text) = omega arith

pub length-advance-lt :
    (text : Text) (c : ℕ) → peek text ≡ c → 0 < c → length (advance text) < length text
length-advance-lt [] c e h = omega arith
length-advance-lt (d ∷ text) c e h = omega arith

pub length-after_sign-le : (text : Text) → length (after_sign text) ≤ length text
length-after_sign-le [] = ground arith
length-after_sign-le (c ∷ text) = ground arith

-- A digit at the front is read.
pub length-skip_digits-lt :
    (text : Text) → is_digit (peek text) ≡ true → length (skip_digits text) < length text
unfolding skip_digits
length-skip_digits-lt [] h = ground arith
length-skip_digits-lt (c ∷ text) h = ground (arith, length-skip_digits-le text)
