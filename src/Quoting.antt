-- ===== src/Quoting.antt =====
-- Quoting by doubling, the loop that crates/driver-postgres/src/ident.rs and
-- crates/driver-clickhouse/src/ident.rs each write out for their two quote characters.
pub mod Reading
use headless_db_mcp.Prelude.{ℕ, ◌==◌, nat_eq, [], ◌∷◌, ◌++◌, Text, if◌then◌else◌}

-- The characters between the outer quotes.
unfoldable pub doubled : ℕ → Text → Text
doubled q [] = []
doubled q (c ∷ s) = if c == q then q ∷ c ∷ doubled q s else c ∷ doubled q s

unfoldable pub quote_with : ℕ → Text → Text
unfolding doubled
quote_with q s = q ∷ (doubled q s ++ q ∷ [])
