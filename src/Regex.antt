-- ===== src/Regex.antt =====
-- Python's `re`, as far as the program's patterns use it: a pattern is a tree, and the matcher
-- tries its ways in Python's order, so that it returns the match that Python returns.
mod Defs
mod Decides
mod Search
pub use Decides.*
pub use Search.*
unfoldable pub use Defs.*
use mcp_server_for_sql_agent.Prelude.{
  ℕ, zero, suc, ◌≡◌, ◌≢◌, Bool, true, false, List, [], ◌∷◌, ◌++◌, Option, none, some, ltb, length,
}
use mcp_server_for_sql_agent.Prelude.Strs.{Str}
