-- ===== src/ClickHouse/Ident.antt =====
-- crates/driver-clickhouse/src/ident.rs.
use headless_db_mcp.Prelude.{Text}
use headless_db_mcp.Quoting.{quote_with}

unfoldable pub quote_ident : Text → Text
quote_ident = quote_with b'`'

unfoldable pub quote_literal : Text → Text
quote_literal = quote_with b'\''
