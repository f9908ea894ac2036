-- ===== src/Redis/Command/ReadOnly.antt =====
-- The read-only check of crates/driver-redis/src/command.rs and the command that is sent.
use headless_db_mcp.Redis.Command.{
  tokenize, read_only_commands, contains, first, permit, not_permitted, require_read_only,
  build_command, empty_command, or_empty,
}
use headless_db_mcp.Redis.Command.Binding.{length-Fills, with_args, bind_tokens-Filled}
use headless_db_mcp.Core.{CellValue}
use headless_db_mcp.Prelude.{
  length, ℕ, true, false, Option, List, [], ◌∷◌, ◌≡◌, refl, arith, Text, ok, err, ◌>>=◌, ok_or,
  >>=-eq-ok,
}
use headless_db_mcp.Strings.{as_bytes}

module _ (to_uppercase : Text → Text) where
  -- The tokens of a query whose name is on the allow-list.
  pub record IsReadOnly (tokens : List Text) : Type 0 where
    pub name : Text
    pub rest : List Text
    pub splits : tokens ≡ name ∷ rest
    pub allowed : contains read_only_commands (to_uppercase name) ≡ true

  permitted-IsReadOnly :
      (tokens : List Text)
      → (do name ← ok_or (first tokens) empty_command; permit (to_uppercase name)) ≡ ok tt
      → IsReadOnly tokens
  permitted-IsReadOnly [] h = cc
  permitted-IsReadOnly (name ∷ rest) h = record {
    name = name;
    rest = rest;
    splits = refl;
    allowed = ground arith;
  }

  -- A query that passes the read-only check tokenizes to a name and further tokens, and the upper
  -- case of the name is on the allow-list.
  pub require_read_only-IsReadOnly :
      (q : Text)
      → require_read_only to_uppercase q ≡ ok tt
      → (tokens : List Text) × (tokenize q ≡ ok tokens) × IsReadOnly tokens
  unfolding require_read_only
  require_read_only-IsReadOnly q h =
      let (tokens, e, k) = >>=-eq-ok (tokenize q) _ h in (tokens, e, permitted-IsReadOnly tokens k)

  -- If a query passes the read-only check and a command is built from its tokens, with any
  -- parameters, then the command has the upper case of the first token as its name, which is on the
  -- allow-list, and one argument for each further token.
  pub require_read_only-build_command :
      {Cmd : Type 0} (arg : Cmd → List ℕ → Cmd) (cmd : List ℕ → Cmd) (q : Text) (tokens : List Text)
      (parameters : Option (List CellValue)) (built : Cmd)
      → require_read_only to_uppercase q ≡ ok tt
      → tokenize q ≡ ok tokens
      → build_command arg to_uppercase cmd tokens parameters ≡ ok built
      → (name : Text) × (rest : List Text) × (args : List (List ℕ)) × (tokens ≡ name ∷ rest)
        × (contains read_only_commands (to_uppercase name) ≡ true)
        × (length args ≡ length rest)
        × (built ≡ with_args arg (cmd (as_bytes (to_uppercase name))) args)
  unfolding build_command require_read_only
  require_read_only-build_command arg cmd q [] parameters built h e b = cc
  require_read_only-build_command arg cmd q (name ∷ rest) parameters built h e b =
      let (args, fills, made) =
        bind_tokens-Filled arg (cmd (as_bytes (to_uppercase name))) (or_empty parameters) rest built
          b in
      (name, rest, args, refl, ground arith, length-Fills fills, made)

  -- A query that tokenizes to a name that is not on the allow-list is refused with an error that
  -- names it.
  pub require_read_only_refuses :
      (q name : Text) (rest : List Text)
      → tokenize q ≡ ok (name ∷ rest)
      → contains read_only_commands (to_uppercase name) ≡ false
      → require_read_only to_uppercase q ≡ err (not_permitted (to_uppercase name))
  unfolding require_read_only
  require_read_only_refuses q name rest e n = rw e (rw n)
