-- ===== src/Prelude/Results.antt =====
-- Rust's `Result`, with the chain of `?`.
use mathlib.Core.Path.{◌≡◌, refl}
use mathlib.Core.Logic.{◌⊎◌, inl, inr}
use mathlib.Core.Bool.{Bool, true, false}
use mathlib.Core.Option.{Option, none, some}

pub data Result {ℓ κ} (E : Type κ) (A : Type ℓ) : Type (ℓ ⊔ κ) where
  ok : A → Result E A
  err : E → Result E A

-- `Result<(), E>`
abbrev pub Checked {κ} : Type κ → Type κ
Checked E = Result E (Unit {0})

-- `if bad { return Err(e) }`
abbrev pub reject_if {μ} : {E : Type μ} → Bool → E → Checked E
reject_if false failure = ok tt
reject_if true failure = err failure

-- `value?`, with what follows as a function of the value
infixl 5 ◌>>=◌
abbrev pub ◌>>=◌ {ℓ κ μ} :
    {E : Type μ} {A : Type ℓ} {B : Type κ} (value : Result E A) (rest : A → Result E B) → Result E B
err failure >>= rest = err failure
ok value >>= rest = rest value

-- `check?;`
infixl 5 ◌>>◌
abbrev pub ◌>>◌ {κ μ} :
    {E : Type μ} {B : Type κ} (check : Checked E) (rest : Result E B) → Result E B
check >> rest = check >>= λ passed. rest

-- Option::ok_or
abbrev pub ok_or {ℓ μ} : {E : Type μ} {A : Type ℓ} → Option A → E → Result E A
ok_or none e = err e
ok_or (some a) e = ok a

abbrev pub map_err {ℓ μ κ} :
    {E : Type μ} {F : Type κ} {A : Type ℓ} → (E → F) → Result E A → Result F A
map_err f (ok a) = ok a
map_err f (err e) = err (f e)

-- A chain succeeds with the value that each of its links succeeds with.
pub >>=-eq-ok {ℓ κ μ} :
    {E : Type μ} {A : Type ℓ} {B : Type κ} (value : Result E A) (rest : A → Result E B) {result : B}
    → (value >>= rest) ≡ ok result
    → (v : A) × (value ≡ ok v) × (rest v ≡ ok result)
>>=-eq-ok (err failure) rest through = cc
>>=-eq-ok (ok v) rest through = (v, refl, through)

-- The same for `value.map_err(f)?`.
pub try-eq-ok {ℓ κ μ ν} :
    {E : Type μ} {F : Type ν} {A : Type ℓ} {B : Type κ} (f : E → F) (value : Result E A)
    (rest : A → Result F B) {result : B}
    → (map_err f value >>= rest) ≡ ok result
    → (v : A) × (value ≡ ok v) × (rest v ≡ ok result)
try-eq-ok f (err failure) rest through = cc
try-eq-ok f (ok v) rest through = (v, refl, through)

pub reject_if-eq-ok {μ} : {E : Type μ} (b : Bool) (e : E) → reject_if b e ≡ ok tt → b ≡ false
reject_if-eq-ok true e h = cc
reject_if-eq-ok false e h = refl

pub Result-cases {ℓ μ} :
    {E : Type μ} {A : Type ℓ} (r : Result E A) → ((a : A) × (r ≡ ok a)) ⊎ ((e : E) × (r ≡ err e))
Result-cases (ok a) = inl (a, refl)
Result-cases (err e) = inr (e, refl)
