-- ===== src/Prelude/States.antt =====
-- Calls that may fail and that change a state, one after another.
use headless_db_mcp.Prelude.Results.{Result, ok, err}
use mathlib.Core.Path.{◌≡◌, refl}

-- The `?` operator behind a call that changes the state.
abbrev pub chain {ℓ κ ι σ} :
    {A : Type ℓ} {B : Type κ} {E : Type ι} {S : Type σ}
    → Result A E × S
    → (A → S → Result B E × S)
    → Result B E × S
chain (err e, s) continue = (err e, s)
chain (ok a, s) continue = continue a s

-- `map_err` on the answer of a call.
abbrev pub failing_with {ℓ κ ι σ} :
    {A : Type ℓ} {E : Type κ} {F : Type ι} {S : Type σ} → (E → F) → Result A E × S → Result A F × S
failing_with f (ok a, s) = (ok a, s)
failing_with f (err e, s) = (err (f e), s)

-- A chain that succeeds has done so at each step.
pub chain-eq-ok {ℓ κ ι σ} :
    {A : Type ℓ} {B : Type κ} {E : Type ι} {S : Type σ} (r : Result A E × S)
    (continue : A → S → Result B E × S) {b : B} {s' : S}
    → chain r continue ≡ (ok b, s')
    → (a : A) × (s : S) × (r ≡ (ok a, s)) × (continue a s ≡ (ok b, s'))
chain-eq-ok (err e, s) continue h = cc
chain-eq-ok (ok a, s) continue h = (a, s, refl, h)

pub failing_with-eq-ok {ℓ κ ι σ} :
    {A : Type ℓ} {E : Type κ} {F : Type ι} {S : Type σ} (f : E → F) (r : Result A E × S) {a : A}
    {s : S}
    → failing_with f r ≡ (ok a, s)
    → r ≡ (ok a, s)
failing_with-eq-ok f (ok a, s) h = cc
failing_with-eq-ok f (err e, s) h = cc

-- A step that only reads the answer leaves the state as it is.
pub state-chain {ℓ κ ι φ σ} :
    {A : Type ℓ} {B : Type κ} {E : Type ι} {F : Type φ} {S : Type σ} (f : E → F)
    (read : A → Result B F) (r : Result A E × S)
    → (chain (failing_with f r) λ a s. (read a, s)).1 ≡ r.1
state-chain f read (ok a, s) = refl
state-chain f read (err e, s) = refl

-- What holds of the state behind a step, and behind what goes on from there, holds behind a chain.
pub chain-holds {ℓ κ ι σ π} :
    {A : Type ℓ} {B : Type κ} {E : Type ι} {S : Type σ} (Holds : S → Type π) (r : Result A E × S)
    (continue : A → S → Result B E × S)
    → Holds r.1
    → ((a : A) (s : S) → Holds s → Holds (continue a s).1)
    → Holds (chain r continue).1
chain-holds Holds (err e, s) continue h f = h
chain-holds Holds (ok a, s) continue h f = f a s h
