-- ===== src/Prelude/Sorting.antt =====
-- Texts in the order of Rust's `str`, and the sorted list of a set of texts.
use mathlib.Core.Path.{◌≡◌, refl}
use mathlib.Core.Bool.{Bool, true, false, ◌||◌}
use mathlib.Core.List.{List, [], ◌∷◌, map}
use mathlib.Core.Logic.{inl, inr}
use native.Mathlib.Omega.{arith}
use konnector.Prelude.Tests.{leb, ◌==◌, if◌then◌else◌, Bool-cases}
use konnector.Prelude.Lists.{any}
use konnector.Prelude.Strings.{Text, str_eq}
use konnector.Prelude.StringLaws.{str_eq-eq, str_eq_refl}

unfoldable pub str_le : Text → Text → Bool
str_le [] t = true
str_le (c ∷ s) [] = false
str_le (c ∷ s) (d ∷ t) = if c == d then str_le s t else leb c d

abbrev pub mem : Text → List Text → Bool
mem x xs = any (str_eq x) xs

insert : Text → List Text → List Text
insert x [] = x ∷ []
insert x (y ∷ ys) = let later = y ∷ insert x ys in if str_le x y then x ∷ y ∷ ys else later

-- `paths.sort()`
unfoldable pub sort : List Text → List Text
unfolding insert str_le
sort [] = []
sort (x ∷ xs) = insert x (sort xs)

-- The list of a HashSet, sorted: each text that was inserted, once.
unfoldable pub sorted_set : List Text → List Text
unfolding insert str_le
sorted_set [] = []
sorted_set (x ∷ xs) =
    let rest = sorted_set xs in let longer = insert x rest in if mem x rest then rest else longer

mem-insert : (x y : Text) (ys : List Text) → mem x (insert y ys) ≡ (str_eq x y || mem x ys)
unfolding insert
mem-insert x y [] = refl
mem-insert x y (z ∷ ys) = ground (arith, mem-insert x y ys)

pub mem-sort : (x : Text) (xs : List Text) → mem x (sort xs) ≡ mem x xs
unfolding sort
mem-sort x [] = refl
mem-sort x (y ∷ xs) = ground (arith, mem-insert x y (sort xs), mem-sort x xs)

-- A text is in the sorted list of a set exactly when it was inserted.
pub mem-sorted_set : (x : Text) (xs : List Text) → mem x (sorted_set xs) ≡ mem x xs
unfolding sorted_set
mem-sorted_set x [] = refl
mem-sorted_set x (y ∷ xs) = elim (Bool-cases (mem y (sorted_set xs))) [
  | inl known ↦ elim (Bool-cases (str_eq x y)) [
    | inl same ↦
        let e = str_eq-eq x y same in
        let there : mem x (sorted_set xs) ≡ true = rw e known in ground (arith, mem-sorted_set x xs)
    | inr other ↦ ground (arith, mem-sorted_set x xs)
  ]
  | inr new ↦ ground (arith, mem-insert x y (sorted_set xs), mem-sorted_set x xs)
]

-- A test that any text passes, and the text that passes it.
pub any-mem :
    (p : Text → Bool) (xs : List Text)
    → any p xs ≡ true
    → (x : Text) × (mem x xs ≡ true) × (p x ≡ true)
any-mem p [] h = cc
any-mem p (x ∷ xs) h = elim (Bool-cases (p x)) [
  | inl here ↦ (x, ground (arith, str_eq_refl x), here)
  | inr not_here ↦
      let (y, later, passes) = any-mem p xs (ground arith) in (y, ground (arith, later), passes)
]

pub mem-map :
    (f : Text → Text) (x : Text) (ys : List Text)
    → mem x (map f ys) ≡ true
    → (y : Text) × (mem y ys ≡ true) × (x ≡ f y)
mem-map f x [] h = cc
mem-map f x (y ∷ ys) h = elim (Bool-cases (str_eq x (f y))) [
  | inl same ↦ (y, ground (arith, str_eq_refl y), str_eq-eq x (f y) same)
  | inr other ↦ let (z, later, e) = mem-map f x ys (ground arith) in (z, ground (arith, later), e)
]

pub mem-map-mem :
    (f : Text → Text) (y : Text) (ys : List Text) → mem y ys ≡ true → mem (f y) (map f ys) ≡ true
mem-map-mem f y [] h = cc
mem-map-mem f y (z ∷ ys) h = elim (Bool-cases (str_eq y z)) [
  | inl same ↦ rw (str_eq-eq y z same) (ground (arith, str_eq_refl (f z)))
  | inr other ↦ ground (arith, mem-map-mem f y ys (ground arith))
]
