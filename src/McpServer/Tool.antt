-- ===== src/McpServer/Tool.antt =====
-- crates/mcp-server/src/tool.rs. A tool may act on the world that it shares with the others.
use headless_db_mcp.Prelude.{
  Bool, true, false, Option, none, some, List, [], ◌∷◌, ◌++◌, Text, codes, Result,
}
use headless_db_mcp.Wire.JsonRpc.{
  Value, string, bool, array, object, Members, end, member, nil, cons, Values,
}

pub data McpToolError : Type 0 where
  invalid_arguments failed : Text → McpToolError

-- `err.to_string()`
unfoldable pub tool_error_text : McpToolError → Text
tool_error_text (invalid_arguments message) = codes "invalid arguments: " ++ message
tool_error_text (failed message) = message

pub record ContentBlock : Type 0 where
  pub kind : Text
  pub block_text : Text

abbrev pub text_block : Text → ContentBlock
text_block t = record { kind = codes "text"; block_text = t }

pub record CallToolResult : Type 0 where
  pub content : List ContentBlock
  pub is_error : Bool
  pub structured_content : Option Value

-- `to_string_pretty` is that of `serde_json`.
unfoldable pub success_result : (Value → Text) → Value → CallToolResult
success_result to_string_pretty value = record {
  content = text_block (to_string_pretty value) ∷ [];
  is_error = false;
  structured_content = some value;
}

unfoldable pub error_result : Text → CallToolResult
error_result message = record {
  content = text_block message ∷ [];
  is_error = true;
  structured_content = none;
}

block_values : List ContentBlock → Values
block_values [] = nil
block_values (b ∷ bs) =
    cons
      (object
        (member (codes "type") (string b.kind) (member (codes "text") (string b.block_text) end)))
      (block_values bs)

abbrev structured_member : Option Value → Members
structured_member none = end
structured_member (some v) = member (codes "structuredContent") v end

-- The fields under their names on the wire; `structuredContent` is left out if there is none.
unfoldable pub into_value : CallToolResult → Value
unfolding block_values
into_value r = object (
    member (codes "content") (array (block_values r.content))
      (member (codes "isError") (bool r.is_error) (structured_member r.structured_content)))

pub record ToolDescriptor : Type 0 where
  pub name : Text
  pub description : Text
  pub input_schema : Value

pub record McpTool (World : Type 0) : Type 0 where
  pub name : Text
  pub description : Text
  pub input_schema : Value
  pub call : Option Value → World → Result Value McpToolError × World

abbrev pub descriptor : {World : Type 0} → McpTool World → ToolDescriptor
descriptor tool = record {
  name = tool.name;
  description = tool.description;
  input_schema = tool.input_schema;
}
