-- ===== src/Prelude/Lists.antt =====
-- Lists measured and indexed by native numbers, and the searches of an iterator.
use Prim.Native.Nat.{ℕ, zero, suc, ◌+◌}
use mathlib.Core.Path.{◌≡◌, refl, ap, sym, ◌∙◌}
use mathlib.Core.Bool.{Bool, true, false, ◌&&◌, ◌||◌}
use mathlib.Core.List.{List, [], ◌∷◌, ◌++◌}
use mathlib.Core.Option.{Option, none, some}
use mathlib.Core.Logic.{inl, inr}
use native.Mathlib.Omega.{arith}
use konnector.Prelude.Tests.{Bool-cases, if◌then◌else◌, option_map}

module _ {ℓ} {A : Type ℓ} where
  abbrev pub length : List A → ℕ
  length [] = 0
  length (x ∷ xs) = suc (length xs)

  abbrev pub get_elem? : List A → ℕ → Option A
  get_elem? [] i = none
  get_elem? (x ∷ xs) zero = some x
  get_elem? (x ∷ xs) (suc i) = get_elem? xs i

  abbrev pub take : ℕ → List A → List A
  take zero xs = []
  take (suc n) [] = []
  take (suc n) (x ∷ xs) = x ∷ take n xs

  abbrev pub drop : ℕ → List A → List A
  drop zero xs = xs
  drop (suc n) [] = []
  drop (suc n) (x ∷ xs) = drop n xs

  -- iter().any, iter().all, iter().find, iter().position
  abbrev pub any : (A → Bool) → List A → Bool
  any p [] = false
  any p (x ∷ xs) = p x || any p xs

  abbrev pub all : (A → Bool) → List A → Bool
  all p [] = true
  all p (x ∷ xs) = p x && all p xs

  abbrev pub find : (A → Bool) → List A → Option A
  find p [] = none
  find p (x ∷ xs) = if p x then some x else find p xs

  abbrev pub filter : (A → Bool) → List A → List A
  filter p [] = []
  filter p (x ∷ xs) = let rest = filter p xs in if p x then x ∷ rest else rest

  abbrev pub position : (A → Bool) → List A → Option ℕ
  position p [] = none
  position p (x ∷ xs) = if p x then some 0 else option_map suc (position p xs)

module _ {ℓ} {A : Type ℓ} where
  pub length-append : (xs ys : List A) → length (xs ++ ys) ≡ length xs + length ys
  length-append [] ys = omega arith
  length-append (x ∷ xs) ys = omega (arith, length-append xs ys)

  pub drop-length-append : (xs ys : List A) → drop (length xs) (xs ++ ys) ≡ ys
  drop-length-append [] ys = refl
  drop-length-append (x ∷ xs) ys = drop-length-append xs ys

  pub take-length-append : (xs ys : List A) → take (length xs) (xs ++ ys) ≡ xs
  take-length-append [] ys = refl
  take-length-append (x ∷ xs) ys = ap (λ r. x ∷ r) (take-length-append xs ys)

  pub take-append-drop : (n : ℕ) (xs : List A) → take n xs ++ drop n xs ≡ xs
  take-append-drop zero xs = refl
  take-append-drop (suc n) [] = refl
  take-append-drop (suc n) (x ∷ xs) = ap (λ r. x ∷ r) (take-append-drop n xs)

-- A predicate of every element, by recursion.
module _ {ℓ κ} {A : Type ℓ} (P : A → Type κ) where
  abbrev pub All : List A → Type κ
  All [] = Unit
  All (x ∷ xs) = P x × All xs

  pub All-append : (xs ys : List A) → All xs → All ys → All (xs ++ ys)
  All-append [] ys h k = k
  All-append (x ∷ xs) ys (p, h) k = (p, All-append xs ys h k)

-- What a first match at an index means: the element passes, and nothing before it does.
module _ {ℓ} {A : Type ℓ} (p : A → Bool) where
  pub position-some :
      (xs : List A) (i : ℕ)
      → position p xs ≡ some i
      → (x : A) × (get_elem? xs i ≡ some x) × (p x ≡ true) × All (λ y. p y ≡ false) (take i xs)
  position-some [] i h = cc
  position-some (x ∷ xs) zero h = (x, refl, head_passes, tt)
    where
      head_passes : p x ≡ true
      head_passes = ground arith
  position-some (x ∷ xs) (suc i) h =
      let (y, at, passes, before) = position-some xs i (ground arith) in
      (y, at, passes, (ground arith, before))

  pub position-none : (xs : List A) → position p xs ≡ none → All (λ y. p y ≡ false) xs
  position-none [] h = tt
  position-none (x ∷ xs) h = (ground arith, position-none xs (ground arith))

  pub find-passes : (xs : List A) (x : A) → find p xs ≡ some x → p x ≡ true
  find-passes [] x h = cc
  find-passes (y ∷ xs) x h = ground (arith, find-passes xs x)

  -- What `find` answers is the first that passes.
  pub find-first :
      (xs : List A) (x : A)
      → find p xs ≡ some x
      → (before : List A) × (after : List A) × (xs ≡ before ++ x ∷ after)
        × All (λ y. p y ≡ false) before
        × (p x ≡ true)
  find-first [] x h = cc
  find-first (y ∷ xs) x h = elim (Bool-cases (p y)) [
    | inl here ↦
        let e : y ≡ x = ground (arith, here) in
        ([], xs, ap (λ z. z ∷ xs) e, tt, sym (ap p e) ∙ here)
    | inr passed ↦
        let (before, after, split, others, passes) = find-first xs x (ground (arith, passed)) in
        (y ∷ before, after, ap (λ zs. y ∷ zs) split, (passed, others), passes)
  ]
