-- ===== src/ClickHouse/Params/Binding.antt =====
-- The query pairs of a parameter list, against the values that they stand for.
use headless_db_mcp.ClickHouse.Params.{
  param_value, null_parameter, to_hex, pairs_from, build_param_query_pairs,
}
use headless_db_mcp.ClickHouse.Params.Hex.{IsByte, IsChar, unhex, unhex-to_hex, as_bytes-bytes}
use headless_db_mcp.Core.{CellValue, null, text, bytes}
use headless_db_mcp.Prelude.{
  ℕ, suc, Bool, true, false, List, [], ◌∷◌, ◌++◌, ◌≡◌, refl, All, Text, codes, some, ok, err,
}
use headless_db_mcp.Strings.{decimal, as_bytes}

-- The bytes that a bound value stands for, in their range.
abbrev pub raw : CellValue → List ℕ
raw null = []
raw (text t) = as_bytes t
raw (bytes bs) = bs

abbrev pub IsBindable : CellValue → Type 0
IsBindable null = ⊥
IsBindable (text t) = All IsChar t
IsBindable (bytes bs) = All IsByte bs

-- From the `n`-th value on, each pair names its placeholder and carries its value.
abbrev pub Binds : ℕ → List CellValue → List (Text × Text) → Type 0
Binds n [] [] = Unit
Binds n (v ∷ vs) ((key, hex) ∷ ps) =
    (key ≡ codes "param_p" ++ decimal (suc n)) × (unhex hex ≡ some (raw v)) × Binds (suc n) vs ps
Binds n _ _ = ⊥

abbrev Bound : ℕ → List CellValue → Type 0
Bound n vs = (ps : List (Text × Text)) × (pairs_from n vs ≡ ok ps) × Binds n vs ps

Bound-cons :
    (n : ℕ) (v : CellValue) (vs : List CellValue) (hex : Text)
    → param_value v ≡ ok hex
    → unhex hex ≡ some (raw v)
    → Bound (suc n) vs
    → Bound n (v ∷ vs)
unfolding pairs_from
Bound-cons n v vs hex e u (ps, f, b) =
    ((codes "param_p" ++ decimal (suc n), hex) ∷ ps, rw (e, f), (refl, u, b))

pairs_from-Bound : (n : ℕ) (vs : List CellValue) → All IsBindable vs → Bound n vs
pairs_from-Bound n [] h = unfold pairs_from in ([], refl, tt)
pairs_from-Bound n (null ∷ vs) h = absurd h.0
pairs_from-Bound n (text t ∷ vs) h =
    Bound-cons n (text t) vs (to_hex (as_bytes t)) (unfold param_value in refl)
      (unhex-to_hex _ (as_bytes-bytes t h.0)) (pairs_from-Bound (suc n) vs h.1)
pairs_from-Bound n (bytes bs ∷ vs) h =
    Bound-cons n (bytes bs) vs (to_hex bs) (unfold param_value in refl) (unhex-to_hex bs h.0)
      (pairs_from-Bound (suc n) vs h.1)

-- For values that are texts of Unicode characters or bytes in their range, and none of them NULL,
-- the query pairs are built, one for each value, the `n`-th named as the `n`-th placeholder and
-- with the hex text of exactly the value's bytes.
pub build_param_query_pairs-Binds :
    (vs : List CellValue)
    → All IsBindable vs
    → (ps : List (Text × Text)) × (build_param_query_pairs vs ≡ ok ps) × Binds 0 vs ps
unfolding build_param_query_pairs
build_param_query_pairs-Binds vs h = pairs_from-Bound 0 vs h

abbrev pub has_null : List CellValue → Bool
has_null [] = false
has_null (null ∷ vs) = true
has_null (_ ∷ vs) = has_null vs

pairs_from_null :
    (n : ℕ) (vs : List CellValue) → has_null vs ≡ true → pairs_from n vs ≡ err null_parameter
unfolding pairs_from param_value
pairs_from_null n [] h = cc
pairs_from_null n (null ∷ vs) h = refl
pairs_from_null n (text t ∷ vs) h = rw (pairs_from_null (suc n) vs h)
pairs_from_null n (bytes bs ∷ vs) h = rw (pairs_from_null (suc n) vs h)

-- A list of values with a NULL anywhere is refused with the error for a NULL parameter.
pub build_param_query_pairs_null :
    (vs : List CellValue) → has_null vs ≡ true → build_param_query_pairs vs ≡ err null_parameter
unfolding build_param_query_pairs
build_param_query_pairs_null vs h = pairs_from_null 0 vs h
