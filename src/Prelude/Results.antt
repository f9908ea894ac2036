-- ===== src/Prelude/Results.antt =====
-- Rust's `Result`, and the `?` operator as a bind.
use mathlib.Core.Logic.{◌⊎◌, inl, inr}
use mathlib.Core.Option.{Option, none, some}
use mathlib.Core.Path.{◌≡◌, refl}

pub data Result {ℓ κ} (A : Type ℓ) (E : Type κ) : Type (ℓ ⊔ κ) where
  ok : A → Result A E
  err : E → Result A E

-- The `?` operator: an error ends the function, a value goes on.
abbrev pub ◌>>=◌ {ℓ κ ι} :
    {A : Type ℓ} {B : Type κ} {E : Type ι} → Result A E → (A → Result B E) → Result B E
(err failure) >>= continue = err failure
(ok value) >>= continue = continue value

abbrev pub ◌>>◌ {ℓ κ} : {B : Type ℓ} {E : Type κ} → Result (Unit {0}) E → Result B E → Result B E
check >> continue = check >>= λ _. continue

infixl 5 ◌>>=◌ ◌>>◌
-- `ok_or_else`
abbrev pub ok_or {ℓ κ} : {A : Type ℓ} {E : Type κ} → Option A → E → Result A E
ok_or none e = err e
ok_or (some a) e = ok a

-- `map_err`
abbrev pub map_err {ℓ κ ι} :
    {A : Type ℓ} {E : Type κ} {F : Type ι} → (E → F) → Result A E → Result A F
map_err f (ok a) = ok a
map_err f (err e) = err (f e)

pub Result-cases {ℓ κ} :
    {A : Type ℓ} {E : Type κ} (r : Result A E) → ((a : A) × (r ≡ ok a)) ⊎ ((e : E) × (r ≡ err e))
Result-cases (ok a) = inl (a, refl)
Result-cases (err e) = inr (e, refl)

-- A chain that succeeds has done so at each step.
pub >>=-eq-ok {ℓ κ ι} :
    {A : Type ℓ} {B : Type κ} {E : Type ι} (step : Result A E) (next : A → Result B E) {result : B}
    → (step >>= next) ≡ ok result
    → (value : A) × (step ≡ ok value) × (next value ≡ ok result)
>>=-eq-ok (err failure) next e = cc
>>=-eq-ok (ok value) next e = (value, refl, e)

pub map_err-eq-ok {ℓ κ ι} :
    {A : Type ℓ} {E : Type κ} {F : Type ι} (f : E → F) (r : Result A E) {a : A}
    → map_err f r ≡ ok a
    → r ≡ ok a
map_err-eq-ok f (ok b) h = cc
map_err-eq-ok f (err e) h = cc

pub ok-injective {ℓ κ} :
    {A : Type ℓ} {E : Type κ} {x y : A} → ◌≡◌ {A = Result A E} (ok x) (ok y) → x ≡ y
ok-injective e = cc

pub err-ne-ok {ℓ κ} :
    {A : Type ℓ} {E : Type κ} {e : E} {a : A} → ◌≡◌ {A = Result A E} (err e) (ok a) → ⊥
err-ne-ok h = cc
