-- ===== src/McpServer/Registry.antt =====
-- crates/mcp-server/src/registry.rs.
pub mod Listing
use headless_db_mcp.HashMap.{Map, get, insert}
use headless_db_mcp.McpServer.Tool.{McpTool, McpToolError, ToolDescriptor, descriptor}
use headless_db_mcp.Prelude.{text_eq, Option, none, some, List, map, Text, Result, err, map_err}
use headless_db_mcp.Sorting.{text_leb, sort_by_key}
use headless_db_mcp.Wire.JsonRpc.{Value}

pub data ToolCallError : Type 0 where
  unknown : Text → ToolCallError
  tool_failed : McpToolError → ToolCallError

module _ {World : Type 0} where
  unfoldable pub register : Map Text (McpTool World) → McpTool World → Map Text (McpTool World)
  register tools tool = insert tool.name tool tools

  unfoldable pub descriptors : Map Text (McpTool World) → List ToolDescriptor
  descriptors tools = sort_by_key text_leb (λ d. d.name) (map (λ entry. descriptor entry.1) tools)

  abbrev pub call_tool :
      Option (McpTool World) → Text → Option Value → World → Result Value ToolCallError × World
  call_tool none name arguments w = (err (unknown name), w)
  call_tool (some tool) name arguments w =
      let (result, w') = tool.call arguments w in (map_err tool_failed result, w')

  unfoldable pub call :
      Map Text (McpTool World) → Text → Option Value → World → Result Value ToolCallError × World
  call tools name arguments w = call_tool (get name tools) name arguments w
