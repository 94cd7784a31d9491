-- ===== src/Prelude/Utf8.antt =====
-- `std::str::from_utf8` and the bytes of a `String`, for a text as its code points.
use Prim.Native.Nat.{ℕ, zero, suc, ◌+◌, ◌-◌, ◌*◌, ◌/◌, ◌%◌}
use mathlib.Core.Bool.{◌&&◌}
use mathlib.Core.Option.{Option, none, some}
use mathlib.Core.List.{List, [], ◌∷◌, ◌++◌}
use konnector.Prelude.Tests.{leb, ltb, ◌==◌, if◌then◌else◌, option_map}
use konnector.Prelude.Strings.{Text}

-- A leading byte: how many bytes follow, its bits, and the range of the byte that follows first.
lead : ℕ → Option (ℕ × ℕ × ℕ × ℕ)
lead b =
    if leb 0xc2 b && leb b 0xdf
    then some (1, b - 0xc0, 0x80, 0xbf)
    else if b == 0xe0
    then some (2, 0, 0xa0, 0xbf)
    else if b == 0xed
    then some (2, 13, 0x80, 0x9f)
    else if leb 0xe1 b && leb b 0xef
    then some (2, b - 0xe0, 0x80, 0xbf)
    else if b == 0xf0
    then some (3, 0, 0x90, 0xbf)
    else if leb 0xf1 b && leb b 0xf3
    then some (3, b - 0xf0, 0x80, 0xbf)
    else if b == 0xf4
    then some (3, 4, 0x80, 0x8f)
    else none

-- The decoder with the number of bytes that a character still wants, its bits so far, and the range
-- of the next byte.
decode : ℕ → ℕ → ℕ → ℕ → List ℕ → Option Text
decode zero bits lo hi [] = some []
decode (suc more) bits lo hi [] = none
decode zero bits lo hi (b ∷ rest) =
    if ltb b 0x80 then option_map (λ s. b ∷ s) (decode 0 0 0 0 rest) else elim (lead b) [
      | none ↦ none
      | some (more, first, low, high) ↦ decode more first low high rest
    ]
decode (suc more) bits lo hi (b ∷ rest) =
    let now = bits * 64 + (b - 0x80) in
    let ended = option_map (λ s. now ∷ s) (decode 0 0 0 0 rest) in
    let longer = decode more now 0x80 0xbf rest in
    if leb lo b && leb b hi then (if more == 0 then ended else longer) else none

unfoldable pub from_utf8 : List ℕ → Option Text
unfolding decode lead
from_utf8 bytes = decode 0 0 0 0 bytes

encode_char : ℕ → List ℕ
encode_char c =
    if ltb c 0x80
    then c ∷ []
    else if ltb c 0x800
    then (0xc0 + c / 64) ∷ (0x80 + c % 64) ∷ []
    else if ltb c 0x10000
    then (0xe0 + c / 4096) ∷ (0x80 + c / 64 % 64) ∷ (0x80 + c % 64) ∷ []
    else (0xf0 + c / 262144) ∷ (0x80 + c / 4096 % 64) ∷ (0x80 + c / 64 % 64) ∷ (0x80 + c % 64) ∷ []

unfoldable pub to_utf8 : Text → List ℕ
unfolding encode_char
to_utf8 [] = []
to_utf8 (c ∷ s) = encode_char c ++ to_utf8 s
