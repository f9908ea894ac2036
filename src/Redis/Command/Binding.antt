-- ===== src/Redis/Command/Binding.antt =====
-- The arguments of a built command, against its tokens and parameters.
use headless_db_mcp.Redis.Command.{bind_parameter, bind_tokens}
use headless_db_mcp.Core.{CellValue, null, text, bytes}
use headless_db_mcp.Prelude.{
  length, ℕ, true, false, ◌==◌, text_eq, Option, none, some, List, [], ◌∷◌, ◌≡◌, refl, arith, Text,
  codes, ok, >>=-eq-ok, Bool-cases, inl, inr,
}
use headless_db_mcp.Strings.{as_bytes}

-- The argument that a parameter value makes.
abbrev pub argument : CellValue → Option (List ℕ)
argument null = none
argument (text t) = some (as_bytes t)
argument (bytes bs) = some bs

-- The parameters fill the `?` tokens from left to right, and every other token stands for itself.
pub data Fills : List CellValue → List Text → List (List ℕ) → Type 0 where
  done : {values : List CellValue} → Fills values [] []
  word :
      {values : List CellValue} {token : Text} {tokens : List Text} {args : List (List ℕ)}
      → (token == codes "?") ≡ false
      → Fills values tokens args
      → Fills values (token ∷ tokens) (as_bytes token ∷ args)
  hole :
      {value : CellValue} {values : List CellValue} {token : Text} {tokens : List Text} {a : List ℕ}
      {args : List (List ℕ)}
      → (token == codes "?") ≡ true
      → argument value ≡ some a
      → Fills values tokens args
      → Fills (value ∷ values) (token ∷ tokens) (a ∷ args)

pub length-Fills :
    {values : List CellValue} {tokens : List Text} {args : List (List ℕ)}
    → Fills values tokens args
    → length args ≡ length tokens
length-Fills done = refl
length-Fills (word e f) = omega (arith, length-Fills f)
length-Fills (hole e h f) = omega (arith, length-Fills f)

module _ {Cmd : Type 0} (arg : Cmd → List ℕ → Cmd) where
  -- The builder's calls, in order.
  abbrev pub with_args : Cmd → List (List ℕ) → Cmd
  with_args c [] = c
  with_args c (a ∷ args) = with_args (arg c a) args

  bind_parameter-argument :
      (c : Cmd) (value : CellValue) (a : List ℕ)
      → argument value ≡ some a
      → bind_parameter arg c value ≡ ok (arg c a)
  unfolding bind_parameter
  bind_parameter-argument c null a h = cc
  bind_parameter-argument c (text t) a h = ground arith
  bind_parameter-argument c (bytes bs) a h = ground arith

  -- If the parameters fill the tokens, left to right and each with a value that is not NULL, the
  -- command is built with exactly those arguments in that order.
  pub bind_tokens-Fills :
      (c : Cmd) {values : List CellValue} {tokens : List Text} {args : List (List ℕ)}
      → Fills values tokens args
      → bind_tokens arg c values tokens ≡ ok (with_args c args)
  unfolding bind_tokens
  bind_tokens-Fills c (done {values = []}) = refl
  bind_tokens-Fills c (done {values = v ∷ vs}) = refl
  bind_tokens-Fills c (word {values = []} {token = token} e f) =
      rw e (bind_tokens-Fills (arg c (as_bytes token)) f)
  bind_tokens-Fills c (word {values = v ∷ vs} {token = token} e f) =
      rw e (bind_tokens-Fills (arg c (as_bytes token)) f)
  bind_tokens-Fills c (hole {value = value} {a = a} e h f) =
      rw (e, bind_parameter-argument c value a h) (bind_tokens-Fills (arg c a) f)

  abbrev Filled : Cmd → List CellValue → List Text → Cmd → Type 0
  Filled c values tokens built =
      (args : List (List ℕ)) × Fills values tokens args × (built ≡ with_args c args)

  Filled-word :
      (c : Cmd) (values : List CellValue) (token : Text) (tokens : List Text) (built : Cmd)
      → (token == codes "?") ≡ false
      → Filled (arg c (as_bytes token)) values tokens built
      → Filled c values (token ∷ tokens) built
  Filled-word c values token tokens built e (args, f, b) = (as_bytes token ∷ args, word e f, b)

  Filled-hole :
      (c : Cmd) (value : CellValue) (a : List ℕ) (values : List CellValue) (token : Text)
      (tokens : List Text) (built : Cmd)
      → (token == codes "?") ≡ true
      → argument value ≡ some a
      → Filled (arg c a) values tokens built
      → Filled c (value ∷ values) (token ∷ tokens) built
  Filled-hole c value a values token tokens built e h (args, f, b) = (a ∷ args, hole e h f, b)

  argument_of_bound :
      (c : Cmd) (value : CellValue) (c' : Cmd)
      → bind_parameter arg c value ≡ ok c'
      → (a : List ℕ) × (argument value ≡ some a) × (c' ≡ arg c a)
  unfolding bind_parameter
  argument_of_bound c null c' h = cc
  argument_of_bound c (text t) c' h = (as_bytes t, refl, ground arith)
  argument_of_bound c (bytes bs) c' h = (bs, refl, ground arith)

  -- If a command is built, the parameters fill the tokens and the command has exactly those
  -- arguments in that order.
  pub bind_tokens-Filled :
      (c : Cmd) (values : List CellValue) (tokens : List Text) (built : Cmd)
      → bind_tokens arg c values tokens ≡ ok built
      → Filled c values tokens built
  unfolding bind_tokens bind_parameter
  bind_tokens-Filled c values [] built h = ([], done, ground arith)
  bind_tokens-Filled c [] (token ∷ tokens) built h = elim (Bool-cases (token == codes "?")) [
    | inl e ↦ absurd (ground arith)
    | inr e ↦
        Filled-word c [] token tokens built e
          (bind_tokens-Filled (arg c (as_bytes token)) [] tokens built (rw e at h))
  ]
  bind_tokens-Filled c (value ∷ values) (token ∷ tokens) built h =
      elim (Bool-cases (token == codes "?")) [
        | inl e ↦
            let (c', p, q) = >>=-eq-ok (bind_parameter arg c value) _ (rw e at h) in
            let (a, known, made) = argument_of_bound c value c' p in
            Filled-hole c value a values token tokens built e known
              (bind_tokens-Filled (arg c a) values tokens built (rw made at q))
        | inr e ↦
            Filled-word c (value ∷ values) token tokens built e (
              bind_tokens-Filled (arg c (as_bytes token)) (value ∷ values) tokens built (rw e at h))
      ]
