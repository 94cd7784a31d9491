-- ===== src/Prelude/StringLaws.antt =====
-- Laws of the text methods: each test is decided by the equation that it stands for.
use Prim.Native.Nat.{ℕ, ◌-◌}
use mathlib.Core.Path.{◌≡◌, refl, sym, ap, ◌∙◌}
use mathlib.Core.Logic.{◌↔◌, inl, inr}
use mathlib.Core.Bool.{true}
use mathlib.Core.Option.{some}
use mathlib.Core.List.{[], ◌∷◌, ◌++◌}
use native.Mathlib.Omega.{arith}
use konnector.Prelude.Tests.{Option-cases}
use konnector.Prelude.Lists.{
  length, drop, take, length-append, drop-length-append, take-length-append, take-append-drop,
}
use konnector.Prelude.Strings.{
  Text, str_eq, strip_prefix, starts_with, ends_with, to_lower, to_ascii_lowercase,
}

pub str_eq_refl : (s : Text) → str_eq s s ≡ true
unfolding str_eq
str_eq_refl [] = refl
str_eq_refl (c ∷ s) = ground (arith, str_eq_refl s)

pub str_eq-eq : (s t : Text) → str_eq s t ≡ true → s ≡ t
unfolding str_eq
str_eq-eq [] [] h = refl
str_eq-eq [] (d ∷ t) h = cc
str_eq-eq (c ∷ s) [] h = cc
str_eq-eq (c ∷ s) (d ∷ t) h = ground (arith, str_eq-eq s t)

pub str_eq_iff : (s t : Text) → (str_eq s t ≡ true) ↔ (s ≡ t)
str_eq_iff s t = (str_eq-eq s t, λ e. rw e (str_eq_refl t))

pub str_eq_comm : (s t : Text) → str_eq s t ≡ str_eq t s
unfolding str_eq
str_eq_comm [] [] = refl
str_eq_comm [] (d ∷ t) = refl
str_eq_comm (c ∷ s) [] = refl
str_eq_comm (c ∷ s) (d ∷ t) = ground (arith, str_eq_comm s t)

pub strip_prefix-append : (p r : Text) → strip_prefix (p ++ r) p ≡ some r
unfolding strip_prefix
strip_prefix-append [] r = refl
strip_prefix-append (c ∷ p) r = ground (arith, strip_prefix-append p r)

pub strip_prefix-eq : (s p : Text) {r : Text} → strip_prefix s p ≡ some r → s ≡ p ++ r
unfolding strip_prefix
strip_prefix-eq s [] h = cc
strip_prefix-eq [] (d ∷ p) h = cc
strip_prefix-eq (c ∷ s) (d ∷ p) {r} h = ground (arith, strip_prefix-eq s p {r = r})

pub starts_with-append : (p r : Text) → starts_with (p ++ r) p ≡ true
unfolding starts_with
starts_with-append p r = rw (strip_prefix-append p r)

pub starts_with-eq : (s p : Text) → starts_with s p ≡ true → (r : Text) × (s ≡ p ++ r)
unfolding starts_with
starts_with-eq s p h = elim (Option-cases (strip_prefix s p)) [
  | inl e ↦ absurd (ground arith)
  | inr (r, e) ↦ (r, strip_prefix-eq s p e)
]

pub starts_with_iff : (s p : Text) → (starts_with s p ≡ true) ↔ ((r : Text) × (s ≡ p ++ r))
starts_with_iff s p = (starts_with-eq s p, λ (r, e). rw e (starts_with-append p r))

pub ends_with-append : (l p : Text) → ends_with (l ++ p) p ≡ true
unfolding ends_with
ends_with-append l p =
    let cut : length (l ++ p) - length p ≡ length l = omega (arith, length-append l p) in
    rw (cut, drop-length-append l p, str_eq_refl p) (ground (arith, length-append l p))

pub ends_with-eq : (s p : Text) → ends_with s p ≡ true → s ≡ take (length s - length p) s ++ p
unfolding ends_with
ends_with-eq s p h =
    let tail : drop (length s - length p) s ≡ p = str_eq-eq _ _ (ground arith) in
    sym (take-append-drop (length s - length p) s)
    ∙ ap (λ r. take (length s - length p) s ++ r) tail

pub take-append : (l p : Text) → take (length (l ++ p) - length p) (l ++ p) ≡ l
take-append l p =
    let cut : length (l ++ p) - length p ≡ length l = omega (arith, length-append l p) in
    rw cut (take-length-append l p)

pub to_lower_idem : (c : ℕ) → to_lower (to_lower c) ≡ to_lower c
unfolding to_lower
to_lower_idem c = ground arith

pub to_ascii_lowercase_idem :
    (s : Text) → to_ascii_lowercase (to_ascii_lowercase s) ≡ to_ascii_lowercase s
unfolding to_ascii_lowercase
to_ascii_lowercase_idem [] = refl
to_ascii_lowercase_idem (c ∷ s) = cc (to_lower_idem c, to_ascii_lowercase_idem s)
