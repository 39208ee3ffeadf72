-- ===== src/Permissions.antt =====
-- services/permission_service.py and services/tool_service.py: who may use which tool, connection
-- and table.
pub mod Opens
use mcp_server_for_sql_agent.Unicode.{Unicode, casefold}
use mcp_server_for_sql_agent.Errors.{
  Result, ok, raised, domain, tool_not_permitted, connection_not_found, table_not_found,
}
use mcp_server_for_sql_agent.Exec.{Exec, pure, raise, raise_if, ◌>>=◌, ◌>>◌}
use mcp_server_for_sql_agent.Models.{Caller, subjects, ConnectionRecord}
use mcp_server_for_sql_agent.World.{World}
use mcp_server_for_sql_agent.Store.{MetaStore, DbAdapter, AdapterProvider}
use mcp_server_for_sql_agent.Prelude.{
  map, ◌∷◌, [], List, some, none, Option, not, Bool, if◌then◌else◌,
}
use mcp_server_for_sql_agent.Prelude.Strs.{str_in, codes, Str}

-- A connection that the caller may use, and the tables on it that they may see, casefolded.
pub record ConnectionAccess : Type 0 where
  pub record_of : ConnectionRecord
  pub tables : List Str

abbrev pub all_tool_names : List Str
all_tool_names =
    codes "list_connections"
    ∷ codes "list_tables"
    ∷ codes "describe_table"
    ∷ codes "search_schema"
    ∷ codes "get_relationships"
    ∷ codes "run_query"
    ∷ codes "explain_query"
    ∷ codes "get_sample_rows"
    ∷ []

module _ (u : Unicode) where
  unfoldable pub allows : ConnectionAccess → Str → Bool
  allows access name = str_in (casefold u name) access.tables

  unfoldable pub require_table : ConnectionAccess → Str → Result (Unit {0})
  unfolding allows
  require_table access name =
      if not (allows access name) then raised (domain (table_not_found name)) else ok tt

  module _ (store : MetaStore) where
    unfoldable pub require_tool : Caller → Str → Exec World (Unit {0})
    require_tool caller tool = do
      allowed ← store.allowed_tools (subjects caller)
      raise_if (not (str_in tool allowed)) (tool_not_permitted tool)

    unfoldable pub list_connections : Caller → Exec World (List ConnectionRecord)
    list_connections caller = store.list_connections (subjects caller)

    -- What follows the lookup of the connection.
    unfoldable pub with_tables :
        Caller → Str → Option ConnectionRecord → Exec World ConnectionAccess
    with_tables caller name none = raise (connection_not_found name)
    with_tables caller name (some r) = do
      granted ← store.allowed_tables r.id (subjects caller)
      pure (record { record_of = r; tables = map (casefold u) granted })

    unfoldable pub open_connection : Caller → Str → Str → Exec World ConnectionAccess
    unfolding require_tool with_tables
    open_connection caller tool name = do
      require_tool caller tool
      found ← store.get_connection name (subjects caller)
      with_tables caller name found

    -- `ToolService._open`
    unfoldable pub open_tool :
        AdapterProvider → Caller → Str → Str → Exec World (ConnectionAccess × DbAdapter)
    unfolding open_connection
    open_tool adapters caller tool name = do
      access ← open_connection caller tool name
      adapter ← adapters.adapter_for access.record_of
      pure (access, adapter)
