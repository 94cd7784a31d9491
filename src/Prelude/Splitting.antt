-- ===== src/Prelude/Splitting.antt =====
-- Laws of `split` at a separator.
use mathlib.Core.Path.{◌≡◌, refl, ap, ◌∙◌}
use mathlib.Core.Bool.{true}
use mathlib.Core.List.{List, [], ◌∷◌, ◌++◌}
use mathlib.Core.Logic.{inl, inr}
use Prim.Native.Nat.{ℕ}
use konnector.Prelude.Tests.{◌==◌, Bool-cases}
use konnector.Prelude.Strings.{Text, split, cons_first}

pub split-cons : (s : Text) (c : ℕ) → (line : Text) × (rest : List Text) × (split s c ≡ line ∷ rest)
unfolding split
split-cons [] c = ([], [], refl)
split-cons (d ∷ s) c =
    let (line, rest, e) = split-cons s c in
    elim (Bool-cases (d == c)) [
      | inl here ↦ ([], split s c, rw here refl)
      | inr other ↦ (d ∷ line, rest, rw other (ap (cons_first d) e))
    ]

cons_first-append :
    (d : ℕ) (line : Text) (rest more : List Text) (parts : List Text)
    → parts ≡ line ∷ rest
    → cons_first d (parts ++ more) ≡ cons_first d parts ++ more
cons_first-append d line rest more [] e = cc
cons_first-append d line rest more (p ∷ ps) e = refl

pub split-append :
    (a b : Text) (c : ℕ) → (c == c) ≡ true → split (a ++ c ∷ b) c ≡ split a c ++ split b c
unfolding split
split-append [] b c same = rw same refl
split-append (d ∷ a) b c same =
    let (line, rest, e) = split-cons a c in
    elim (Bool-cases (d == c)) [
      | inl here ↦ rw here (ap (λ parts. [] ∷ parts) (split-append a b c same))
      | inr other ↦ rw other (
          ap (cons_first d) (split-append a b c same)
          ∙ cons_first-append d line rest (split b c) (split a c) e)
    ]
