-- ===== src/Prelude/IpAddr.antt =====
-- `std::net::IpAddr`'s parser, as the test whether a text parses: four decimal octets, or eight
-- groups of hexadecimal digits of which `::` stands for one or more that are zero, where the last
-- two groups may be written as four octets.
use Prim.Native.Nat.{ℕ, suc, ◌+◌}
use mathlib.Core.Bool.{Bool, true, false, not, ◌&&◌, ◌||◌}
use mathlib.Core.Option.{Option, none, some}
use mathlib.Core.List.{List, [], ◌∷◌}
use konnector.Prelude.Tests.{leb, ◌==◌, if◌then◌else◌, is_some, option_map}
use konnector.Prelude.Lists.{length, all}
use konnector.Prelude.Strings.{
  Text, is_empty, is_ascii_digit, all_digits, parse_uint, split, strip_prefix,
}

-- One to three digits, no zero in front of another digit, at most 255.
is_octet : Text → Bool
is_octet [] = false
is_octet (c ∷ s) =
    all_digits (c ∷ s)
    && leb (length s) 2
    && (not (c == b'0') || is_empty s)
    && is_some (parse_uint 255 (c ∷ s))

unfoldable pub is_ipv4 : Text → Bool
unfolding is_octet all_digits parse_uint split
is_ipv4 s = let parts = split s b'.' in length parts == 4 && all is_octet parts

is_hex_digit : ℕ → Bool
is_hex_digit c = is_ascii_digit c || leb b'a' c && leb c b'f' || leb b'A' c && leb c b'F'

is_group : Text → Bool
is_group s = not (is_empty s) && leb (length s) 4 && all is_hex_digit s

-- How many groups are written, where four octets may end the text or not.
group_count : Bool → List Text → Option ℕ
group_count octets [] = some 0
group_count octets (s ∷ []) =
    if is_group s then some 1 else if octets && is_ipv4 s then some 2 else none
group_count octets (s ∷ t ∷ ts) =
    let rest = option_map suc (group_count octets (t ∷ ts)) in if is_group s then rest else none

written : Bool → Text → Option ℕ
written octets [] = some 0
written octets (c ∷ s) = group_count octets (split (c ∷ s) b':')

abbrev put_before : ℕ → Option (Text × Text) → Option (Text × Text)
put_before c none = none
put_before c (some (a, b)) = some (c ∷ a, b)

-- At the first `::`.
split_zeros : Text → Option (Text × Text)
split_zeros [] = none
split_zeros (c ∷ s) = elim (strip_prefix (c ∷ s) (b':' ∷ b':' ∷ [])) [
  | some rest ↦ some ([], rest)
  | none ↦ put_before c (split_zeros s)
]

is_ipv6 : Text → Bool
is_ipv6 s = elim (split_zeros s) [
  | none ↦ elim (written true s) [ none ↦ false | some n ↦ n == 8 ]
  | some (head, tail) ↦ elim (written false head) [
    | none ↦ false
    | some m ↦ elim (written true tail) [ none ↦ false | some n ↦ leb (m + n) 7 ]
  ]
]

unfoldable pub is_ip_addr : Text → Bool
unfolding is_ipv6 is_ipv4 split_zeros written group_count is_group is_hex_digit strip_prefix split
is_ip_addr s = is_ipv4 s || is_ipv6 s
