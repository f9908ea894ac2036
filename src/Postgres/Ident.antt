-- ===== src/Postgres/Ident.antt =====
-- crates/driver-postgres/src/ident.rs: safe quoting for identifiers and literals that are spliced
-- into SQL text.
use mathlib.Core.List.{append_assoc}
use headless_db_mcp.Prelude.{nat_eq, some, ◌∷◌, ◌++◌, ◌≡◌, refl, Text}
use headless_db_mcp.Quoting.{quote_with}
use headless_db_mcp.Quoting.Reading.{Ends, read_quoted, read_quoted-quote_with}

unfoldable pub quote_ident : Text → Text
quote_ident = quote_with b'"'

unfoldable pub quote_qualified : Text → Text → Text
quote_qualified schema name = quote_ident schema ++ (b'.' ∷ quote_ident name)

unfoldable pub quote_literal : Text → Text
quote_literal = quote_with b'\''

-- Before a text that does not begin with a double quote, a quoted identifier is read as the name
-- that was quoted, whatever it holds, and reading stops right behind it.
pub quote_ident-reads :
    (name rest : Text)
    → Ends b'"' rest
    → read_quoted b'"' (quote_ident name ++ rest) ≡ some (name, rest)
unfolding quote_ident
quote_ident-reads name rest = read_quoted-quote_with b'"' name rest

-- Before a text that does not begin with a quote, a quoted literal is read as the value that was
-- quoted, whatever it holds, and reading stops right behind it.
pub quote_literal-reads :
    (value rest : Text)
    → Ends b'\'' rest
    → read_quoted b'\'' (quote_literal value ++ rest) ≡ some (value, rest)
unfolding quote_literal
quote_literal-reads value rest = read_quoted-quote_with b'\'' value rest

-- Before a text that does not begin with a double quote, a qualified name is read as its schema,
-- then a dot, and what follows the dot as its name.
pub quote_qualified-reads :
    (schema name rest : Text)
    → Ends b'"' rest
    → (read_quoted b'"' (quote_qualified schema name ++ rest)
        ≡ some (schema, b'.' ∷ (quote_ident name ++ rest)))
      × (read_quoted b'"' (quote_ident name ++ rest) ≡ some (name, rest))
unfolding quote_qualified
quote_qualified-reads schema name rest h = (
  rw (append_assoc (quote_ident schema) (b'.' ∷ quote_ident name) rest)
      (quote_ident-reads schema (b'.' ∷ (quote_ident name ++ rest)) refl),
  quote_ident-reads name rest h,
)
