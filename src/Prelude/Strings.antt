-- ===== src/Prelude/Strings.antt =====
-- Rust's `str` as the list of its code points, with the methods of the standard library that the
-- program calls, under their names; the receiver comes first.
use Prim.Native.Nat.{ℕ, zero, suc, ◌+◌, ◌-◌, ◌*◌, ◌/◌, ◌%◌}
use Prim.Native.Char.{code}
use Prim.Native.String.{String}
use mathlib.Core.Bool.{Bool, true, false, not, ◌&&◌, ◌||◌}
use mathlib.Core.Option.{Option, none, some}
use mathlib.Core.List.{List, [], ◌∷◌, ◌++◌, map}
use konnector.Prelude.Tests.{leb, ◌==◌, if◌then◌else◌, is_some}
use konnector.Prelude.Lists.{length, drop, all}

abbrev pub Text : Type 0
Text = List ℕ

abbrev pub codes : String → Text
codes String.[] = []
codes (String.◌∷◌ c s) = code c ∷ codes s

unfoldable pub str_eq : Text → Text → Bool
str_eq [] [] = true
str_eq [] (d ∷ t) = false
str_eq (c ∷ s) [] = false
str_eq (c ∷ s) (d ∷ t) = c == d && str_eq s t

abbrev pub is_empty : Text → Bool
is_empty [] = true
is_empty (c ∷ s) = false

unfoldable pub strip_prefix : Text → Text → Option Text
strip_prefix s [] = some s
strip_prefix [] (d ∷ p) = none
strip_prefix (c ∷ s) (d ∷ p) = if c == d then strip_prefix s p else none

unfoldable pub starts_with : Text → Text → Bool
unfolding strip_prefix
starts_with s p = is_some (strip_prefix s p)

unfoldable pub ends_with : Text → Text → Bool
unfolding str_eq
ends_with s p = leb (length p) (length s) && str_eq (drop (length s - length p) s) p

unfoldable pub contains_char : Text → ℕ → Bool
contains_char [] c = false
contains_char (d ∷ s) c = d == c || contains_char s c

unfoldable pub contains : Text → Text → Bool
unfolding starts_with
contains [] p = starts_with [] p
contains (c ∷ s) p = starts_with (c ∷ s) p || contains s p

unfoldable pub trim_start_matches : (ℕ → Bool) → Text → Text
trim_start_matches p [] = []
trim_start_matches p (c ∷ s) = if p c then trim_start_matches p s else c ∷ s

unfoldable pub trim_end_matches : (ℕ → Bool) → Text → Text
trim_end_matches p [] = []
trim_end_matches p (c ∷ s) =
    let rest = trim_end_matches p s in if p c && is_empty rest then [] else c ∷ rest

-- The code points with the property White_Space.
unfoldable pub is_whitespace : ℕ → Bool
is_whitespace c =
    (leb 0x9 c && leb c 0xd)
    || c == 0x20
    || c == 0x85
    || c == 0xa0
    || c == 0x1680
    || (leb 0x2000 c && leb c 0x200a)
    || c == 0x2028
    || c == 0x2029
    || c == 0x202f
    || c == 0x205f
    || c == 0x3000

unfoldable pub trim : Text → Text
unfolding trim_start_matches trim_end_matches is_whitespace
trim s = trim_end_matches is_whitespace (trim_start_matches is_whitespace s)

abbrev before_and_after : ℕ → Option (Text × Text) → Option (Text × Text)
before_and_after d none = none
before_and_after d (some (a, b)) = some (d ∷ a, b)

unfoldable pub split_once : Text → ℕ → Option (Text × Text)
split_once [] c = none
split_once (d ∷ s) c = if d == c then some ([], s) else before_and_after d (split_once s c)

-- At the last occurrence.
unfoldable pub rsplit_once : Text → ℕ → Option (Text × Text)
rsplit_once [] c = none
rsplit_once (d ∷ s) c = elim (rsplit_once s c) [
  | some (a, b) ↦ some (d ∷ a, b)
  | none ↦ if d == c then some ([], s) else none
]

unfoldable pub is_ascii_digit : ℕ → Bool
is_ascii_digit c = leb b'0' c && leb c b'9'

-- !s.is_empty() && s.bytes().all(|byte| byte.is_ascii_digit())
unfoldable pub all_digits : Text → Bool
unfolding is_ascii_digit
all_digits s = not (is_empty s) && all is_ascii_digit s

unfoldable pub to_lower : ℕ → ℕ
to_lower c = if leb b'A' c && leb c b'Z' then c + 32 else c

unfoldable pub to_ascii_lowercase : Text → Text
unfolding to_lower
to_ascii_lowercase s = map to_lower s

-- One pass from the left; `skip` counts the characters of a match that are still to be passed over.
replace_from : Text → Text → ℕ → Text → Text
replace_from p new skip [] = []
replace_from p new (suc skip) (c ∷ s) = replace_from p new skip s
replace_from p new zero (c ∷ s) =
    let matched = new ++ replace_from p new (length p - 1) s in
    let kept = c ∷ replace_from p new 0 s in if starts_with (c ∷ s) p then matched else kept

between : Text → Text → Text
between new [] = new
between new (c ∷ s) = new ++ c ∷ between new s

unfoldable pub replace : Text → Text → Text → Text
unfolding replace_from between starts_with
replace s [] new = between new s
replace s (c ∷ p) new = replace_from (c ∷ p) new 0 s

abbrev pub cons_first : ℕ → List Text → List Text
cons_first c [] = (c ∷ []) ∷ []
cons_first c (part ∷ parts) = (c ∷ part) ∷ parts

unfoldable pub split : Text → ℕ → List Text
split [] c = [] ∷ []
split (d ∷ s) c = if d == c then [] ∷ split s c else cons_first d (split s c)

unfoldable pub join : List Text → Text → Text
join [] sep = []
join (t ∷ []) sep = t
join (t ∷ u ∷ ts) sep = t ++ sep ++ join (u ∷ ts) sep

unfoldable pub parse_digits : ℕ → Text → Option ℕ
unfolding is_ascii_digit
parse_digits n [] = some n
parse_digits n (c ∷ s) =
    let rest = parse_digits (n * 10 + (c - 48)) s in if is_ascii_digit c then rest else none

-- `parse` into an unsigned integer with the largest value `limit`: an optional `+`, then digits.
unfoldable pub parse_uint : ℕ → Text → Option ℕ
unfolding parse_digits
parse_uint limit [] = none
parse_uint limit (c ∷ s) =
    let digits = if c == b'+' then s else c ∷ s in
    if is_empty digits then none else elim (parse_digits 0 digits) [
      | none ↦ none
      | some n ↦ if leb n limit then some n else none
    ]

-- Decimal printing; a number has at most as many digits as its fuel.
unfoldable pub print_digits : ℕ → ℕ → Text → Text
print_digits zero n acc = acc
print_digits (suc fuel) n acc =
    let here = (48 + n % 10) ∷ acc in
    let rest = print_digits fuel (n / 10) here in if n / 10 == 0 then here else rest

unfoldable pub print_uint : ℕ → Text
unfolding print_digits
print_uint n = print_digits (suc n) n []
