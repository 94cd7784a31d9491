-- ===== src/Prelude/Numbers.antt =====
-- A number that is printed and read again.
use konnector.Prelude.{
  ℕ, zero, suc, ◌≡◌, ◌+◌, ◌*◌, ◌-◌, ◌/◌, ◌%◌, ◌≤◌, ◌<◌, refl, ap, ◌∙◌, true, false, some, [], ◌∷◌,
  arith, Text, is_empty, is_ascii_digit, all, parse_digits, parse_uint, print_digits, print_uint,
  is_whitespace, trim, trim_start_matches, trim_end_matches, ◌==◌, Bool-cases, inl, inr,
}

-- Only digits, and at least one.
abbrev pub IsNumeral : Text → Type 0
IsNumeral s = (is_empty s ≡ false) × (all is_ascii_digit s ≡ true)

abbrev digit : ℕ → ℕ
digit n = 48 + n % 10

is_ascii_digit-digit : (n : ℕ) → is_ascii_digit (digit n) ≡ true
unfolding is_ascii_digit
is_ascii_digit-digit n = ground arith

parse_digits-digit :
    (m n : ℕ) (acc : Text) → parse_digits m (digit n ∷ acc) ≡ parse_digits (m * 10 + n % 10) acc
unfolding parse_digits
parse_digits-digit m n acc =
    let same : m * 10 + (digit n - 48) ≡ m * 10 + n % 10 = omega arith in
    ground (arith, is_ascii_digit-digit n, ap (λ k. parse_digits k acc) same)

print_digits_last :
    (fuel n : ℕ) (acc : Text) → (n / 10 == 0) ≡ true → print_digits (suc fuel) n acc ≡ digit n ∷ acc
unfolding print_digits
print_digits_last fuel n acc h = ground arith

print_digits_more :
    (fuel n : ℕ) (acc : Text)
    → (n / 10 == 0) ≡ false
    → print_digits (suc fuel) n acc ≡ print_digits fuel (n / 10) (digit n ∷ acc)
unfolding print_digits
print_digits_more fuel n acc h = ground arith

parse_digits-print_digits :
    (fuel n : ℕ) (acc : Text)
    → n < fuel
    → parse_digits 0 (print_digits fuel n acc) ≡ parse_digits n acc
parse_digits-print_digits zero n acc h = absurd (omega (arith, h))
parse_digits-print_digits (suc fuel) n acc h = elim (Bool-cases (n / 10 == 0)) [
  | inl small ↦
      let whole : 0 * 10 + n % 10 ≡ n = ground arith in
      ap (parse_digits 0) (print_digits_last fuel n acc small)
      ∙ parse_digits-digit 0 n acc
      ∙ ap (λ k. parse_digits k acc) whole
  | inr large ↦
      let whole : (n / 10) * 10 + n % 10 ≡ n = omega arith in
      let less : n / 10 < fuel = ground arith in
      ap (parse_digits 0) (print_digits_more fuel n acc large)
      ∙ parse_digits-print_digits fuel (n / 10) (digit n ∷ acc) less
      ∙ parse_digits-digit (n / 10) n acc
      ∙ ap (λ k. parse_digits k acc) whole
]

print_digits-IsNumeral :
    (fuel n : ℕ) (acc : Text) → IsNumeral acc → IsNumeral (print_digits fuel n acc)
unfolding print_digits
print_digits-IsNumeral zero n acc h = h
print_digits-IsNumeral (suc fuel) n acc h = elim (Bool-cases (n / 10 == 0)) [
  | inl small ↦
      rw (print_digits_last fuel n acc small) (refl, ground (arith, is_ascii_digit-digit n))
  | inr large ↦ rw (print_digits_more fuel n acc large) (
      print_digits-IsNumeral fuel (n / 10) (digit n ∷ acc)
        (refl, ground (arith, is_ascii_digit-digit n)))
]

trim_end_matches_digits :
    (s : Text) → all is_ascii_digit s ≡ true → trim_end_matches is_whitespace s ≡ s
unfolding trim_end_matches is_whitespace is_ascii_digit
trim_end_matches_digits [] h = refl
trim_end_matches_digits (c ∷ s) h = ground (arith, trim_end_matches_digits s)

trim-IsNumeral : (s : Text) → IsNumeral s → trim s ≡ s
unfolding trim trim_start_matches is_whitespace is_ascii_digit
trim-IsNumeral [] (filled, digits) = cc
trim-IsNumeral (c ∷ s) (filled, digits) =
    ground (arith, digits, trim_end_matches_digits (c ∷ s) digits)

parse_uint-IsNumeral :
    (limit n : ℕ) (s : Text)
    → IsNumeral s
    → parse_digits 0 s ≡ some n
    → n ≤ limit
    → parse_uint limit s ≡ some n
unfolding parse_uint is_ascii_digit
parse_uint-IsNumeral limit n [] (filled, digits) h bounded = cc
parse_uint-IsNumeral limit n (c ∷ s) (filled, digits) h bounded = ground (arith, digits)

print_uint-IsNumeral : (n : ℕ) → IsNumeral (print_uint n)
unfolding print_uint
print_uint-IsNumeral n = elim (Bool-cases (n / 10 == 0)) [
  | inl small ↦ rw (print_digits_last n n [] small) (refl, ground (arith, is_ascii_digit-digit n))
  | inr large ↦ rw (print_digits_more n n [] large) (
      print_digits-IsNumeral n (n / 10) (digit n ∷ [])
        (refl, ground (arith, is_ascii_digit-digit n)))
]

-- A number that is printed is read as itself.
pub parse_uint-print_uint :
    (limit n : ℕ) → n ≤ limit → parse_uint limit (trim (print_uint n)) ≡ some n
unfolding print_uint parse_digits
parse_uint-print_uint limit n bounded =
    ap (parse_uint limit) (trim-IsNumeral (print_uint n) (print_uint-IsNumeral n))
    ∙ parse_uint-IsNumeral limit n (print_uint n) (print_uint-IsNumeral n)
        (parse_digits-print_digits (suc n) n [] (omega arith) ∙ refl) bounded
