-- ===== src/Validator/Sqlglot.antt =====
-- What services/query_validator.py takes from sqlglot, which is not part of the repository: a
-- parser for each dialect, a search for node types, and the scopes of a query with their sources.
use mcp_server_for_sql_agent.Prelude.Strs.{Str}
use mcp_server_for_sql_agent.Prelude.{List, Option, Bool}

-- A source of a scope: a table node, or another scope (a common table expression or a subquery).
pub record TableNode : Type 0 where
  pub catalog : Str
  pub db : Str
  pub name : Str
  pub has_identifier : Bool

pub data Source : Type 0 where
  table : TableNode → Source
  scope : Source

-- `none` stands for a raised `SqlglotError`; a statement that is `None` is one too.
pub record Sqlglot (Tree : Type 0) : Type 0 where
  pub parse : Str → Option Str → Option (List (Option Tree))
  pub is_query : Tree → Bool
  pub has_node_type : Str → Bool
  pub find : Tree → List Str → Bool
  pub traverse_scope : Tree → Option (List (List Source))
