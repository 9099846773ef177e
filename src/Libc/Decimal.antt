-- ===== src/Libc/Decimal.antt =====
-- `snprintf` of an integer with `%d`, `%lld` or `%llu`, and that `strtoll` reads it back.
use apx_db.Common.{
  ℕ, zero, suc, ◌+◌, ◌*◌, ◌-◌, ◌/◌, ◌%◌, ◌<◌, ◌≡◌, refl, ◌∙◌, true, false, [], ◌∷◌, ◌++◌,
  append-nil, arith, Text, peek, All, ltb, if◌then◌else◌, Bool-cases, inl, inr, length,
  length-append,
}
use apx_db.Common.Int.{ℤ, pos, negsuc}
use apx_db.Libc.{is_digit, skip_digits, read_digits}

-- The digits of `n`. Any fuel above `n` serves.
unfoldable decimal_digits : ℕ → ℕ → Text
decimal_digits zero n = []
decimal_digits (suc f) n =
    let more = decimal_digits f (n / 10) ++ (b'0' + n % 10) ∷ [] in
    if ltb n 10 then (b'0' + n) ∷ [] else more

unfoldable pub decimal : ℕ → Text
unfolding decimal_digits
decimal n = decimal_digits (suc n) n

unfoldable pub decimal_ℤ : ℤ → Text
decimal_ℤ (pos n) = decimal n
decimal_ℤ (negsuc n) = b'-' ∷ decimal (suc n)

abbrev IsDigit : ℕ → Type 0
IsDigit c = is_digit c ≡ true

All-append : (P : ℕ → Type 0) (xs ys : Text) → All P xs → All P ys → All P (xs ++ ys)
All-append P [] ys h k = k
All-append P (x ∷ xs) ys h k = (h.0, All-append P xs ys h.1 k)

decimal_digits-IsDigit : (f n : ℕ) → All IsDigit (decimal_digits f n)
unfolding decimal_digits
decimal_digits-IsDigit zero n = tt
decimal_digits-IsDigit (suc f) n = elim (Bool-cases (ltb n 10)) [
  | inl e ↦ rw e (ground arith, tt)
  | inr e ↦ rw e (
      All-append IsDigit (decimal_digits f (n / 10)) _ (decimal_digits-IsDigit f (n / 10))
        (ground arith, tt))
]

read_digits-append :
    (v : ℕ) (xs ys : Text)
    → All IsDigit xs
    → read_digits v (xs ++ ys) ≡ read_digits (read_digits v xs) ys
unfolding read_digits
read_digits-append v [] ys h = refl
read_digits-append v (x ∷ xs) ys h = rw h.0 (read_digits-append (10 * v + (x - b'0')) xs ys h.1)

skip_digits-append : (xs ys : Text) → All IsDigit xs → skip_digits (xs ++ ys) ≡ skip_digits ys
unfolding skip_digits
skip_digits-append [] ys h = refl
skip_digits-append (x ∷ xs) ys h = rw h.0 (skip_digits-append xs ys h.1)

read_digits-one : (v d : ℕ) → d < 10 → read_digits v ((b'0' + d) ∷ []) ≡ 10 * v + d
unfolding read_digits
read_digits-one v d h = ground arith

read_digits-decimal_digits : (f n : ℕ) → n < f → read_digits 0 (decimal_digits f n) ≡ n
unfolding decimal_digits
read_digits-decimal_digits zero n h = absurd (omega arith)
read_digits-decimal_digits (suc f) n h = elim (Bool-cases (ltb n 10)) [
  | inl e ↦ rw e (read_digits-one 0 n (ground arith) ∙ omega arith)
  | inr e ↦ rw e (
      rw
        (
          read_digits-append 0 (decimal_digits f (n / 10)) ((b'0' + n % 10) ∷ [])
              (decimal_digits-IsDigit f (n / 10)),
          read_digits-decimal_digits f (n / 10) (ground arith),
        )
        (read_digits-one (n / 10) (n % 10) (omega arith) ∙ omega arith))
]

-- The value behind the digits, whatever non-digit follows.
read_digits-decimal :
    (n : ℕ) (rest : Text) → is_digit (peek rest) ≡ false → read_digits 0 (decimal n ++ rest) ≡ n
unfolding decimal
read_digits-decimal n rest h =
    rw
      (
        read_digits-append 0 (decimal_digits (suc n) n) rest (decimal_digits-IsDigit (suc n) n),
        read_digits-decimal_digits (suc n) n (omega arith),
      )
      (stop n rest h)
  where
    stop : (v : ℕ) (t : Text) → is_digit (peek t) ≡ false → read_digits v t ≡ v
    stop v [] e = unfold read_digits in refl
    stop v (c ∷ t) e = unfold read_digits in rw e

skip_digits-decimal :
    (n : ℕ) (rest : Text) → is_digit (peek rest) ≡ false → skip_digits (decimal n ++ rest) ≡ rest
unfolding decimal
skip_digits-decimal n rest h =
    skip_digits-append (decimal_digits (suc n) n) rest (decimal_digits-IsDigit (suc n) n)
    ∙ stop rest h
  where
    stop : (t : Text) → is_digit (peek t) ≡ false → skip_digits t ≡ t
    stop [] e = unfold skip_digits in refl
    stop (c ∷ t) e = unfold skip_digits in rw e

peek-IsDigit : (xs rest : Text) → All IsDigit xs → 0 < length xs → IsDigit (peek (xs ++ rest))
peek-IsDigit [] rest h lt = absurd (omega arith)
peek-IsDigit (x ∷ xs) rest h lt = h.0

length-decimal_pos : (n : ℕ) → 0 < length (decimal n)
unfolding decimal
length-decimal_pos n =
    ground (arith, length-append (decimal_digits n (n / 10)) ((b'0' + n % 10) ∷ []))

peek-decimal : (n : ℕ) (rest : Text) → is_digit (peek (decimal n ++ rest)) ≡ true
peek-decimal n rest =
    peek-IsDigit (decimal n) rest (unfold decimal in decimal_digits-IsDigit (suc n) n)
      (length-decimal_pos n)

read_digits-decimal_self : (n : ℕ) → read_digits 0 (decimal n) ≡ n
read_digits-decimal_self n = rw append-nil at (read_digits-decimal n [] (ground arith))

pub decimal-injective : (m n : ℕ) → decimal m ≡ decimal n → m ≡ n
decimal-injective m n e = cc (read_digits-decimal_self m, read_digits-decimal_self n)
