-- ===== src/McpServer/Registry/Listing.antt =====
-- Registration and listing of tools in crates/mcp-server/src/registry.rs.
use mathlib.Core.List.{Perm}
use headless_db_mcp.HashMap.{Map, get, get-insert}
use headless_db_mcp.McpServer.Registry.{register, descriptors}
use headless_db_mcp.McpServer.Tool.{McpTool, descriptor}
use headless_db_mcp.Prelude.{◌==◌, text_eq, some, map, ◌≡◌, Text, if◌then◌else◌}
use headless_db_mcp.Sorting.{text_leb}
use headless_db_mcp.Sorting.Sorted.{
  IsSorted, sort_by_key-perm, sort_by_key-IsSorted, text_leb_total,
}

module _ {World : Type 0} where
  -- The listed descriptors are in the order of their names and are a permutation of those of the
  -- registered tools.
  pub descriptors-IsSorted :
      (tools : Map Text (McpTool World))
      → IsSorted text_leb (λ d. d.name) (descriptors tools)
        × Perm (descriptors tools) (map (λ entry. descriptor entry.1) tools)
  unfolding descriptors
  descriptors-IsSorted tools =
      (sort_by_key-IsSorted text_leb _ text_leb_total _, sort_by_key-perm text_leb _ _)

  -- A tool is found under its own name from its registration on, and a second one of that name
  -- takes its place.
  pub get-register :
      (tools : Map Text (McpTool World)) (tool : McpTool World) (name : Text)
      → get name (register tools tool) ≡ (if tool.name == name then some tool else get name tools)
  unfolding register
  get-register tools tool name = get-insert tool.name name tool tools
