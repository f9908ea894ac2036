-- ===== src/Redis/Reply/Texts.antt =====
-- A text on its way to the server and back.
use headless_db_mcp.Core.{text}
use headless_db_mcp.Prelude.{ℕ, nat_eq, text_eq, List, ◌≡◌, refl, ap, All, Text, ok}
use headless_db_mcp.Redis.Command.{bind_parameter}
use headless_db_mcp.Redis.Reply.{bulk_string, value_to_cell}
use headless_db_mcp.Strings.{as_bytes}
use headless_db_mcp.Strings.Utf8.RoundTrip.{IsScalar, from_utf8_lossy-as_bytes}
use headless_db_mcp.Wire.JsonRpc.{Value}

-- A text of Unicode scalar values that is bound as a parameter is sent as bytes which, when the
-- server answers with them as a bulk string, are shown as the same text.
pub value_to_cell-bind_parameter :
    (print : Value → Text) (print_f64 : ℕ → Text) {Cmd : Type 0} (arg : Cmd → List ℕ → Cmd)
    (c : Cmd) (t : Text)
    → All IsScalar t
    → (sent : List ℕ) × (bind_parameter arg c (text t) ≡ ok (arg c sent))
      × (value_to_cell print print_f64 (bulk_string sent) ≡ text t)
unfolding bind_parameter value_to_cell
value_to_cell-bind_parameter print print_f64 arg c t h =
    (as_bytes t, refl, ap text (from_utf8_lossy-as_bytes t h))
