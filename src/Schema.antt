-- ===== src/Schema.antt =====
-- services/schema_service.py: what databases, tables and columns there are, for one caller.
pub mod Shapes
pub mod Names
mod Referrers
pub mod NoLeak
use mcp_server_for_sql_agent.Unicode.{Unicode, casefold, strip}
use mcp_server_for_sql_agent.Values.{Json, Members}
use mcp_server_for_sql_agent.Errors.{
  ok, raised, Result, domain, invalid_argument, value_range, length_range,
}
use mcp_server_for_sql_agent.Exec.{Exec, pure, lift, raise_if, modify, ◌>>=◌, ◌>>◌}
use mcp_server_for_sql_agent.Models.{
  Caller, TableInfo, TableKind, TableSummary, TableDetail, TableRelationships, Relationship,
  ConnectionInfo, SchemaSearchHit,
}
use mcp_server_for_sql_agent.World.{World}
use mcp_server_for_sql_agent.Store.{MetaStore, DbAdapter, AdapterProvider}
use mcp_server_for_sql_agent.Permissions.{
  ConnectionAccess, allows, require_table, require_tool, open_tool,
}
use mcp_server_for_sql_agent.Audit.{Call, outside, audited}
use mcp_server_for_sql_agent.Query.{set_tables, set_summary}
use mcp_server_for_sql_agent.Query.Limits.{in_range}
use Shapes.{
  max_keyword_chars, max_search_results, fk_detail, summary, connection_infos, table_summaries,
  table_detail, visible_keys, clean_hits,
}
use mcp_server_for_sql_agent.Prelude.{
  map, ◌++◌, ◌∷◌, [], List, some, none, ◌||◌, not, false, true, Bool, keep_if, length,
  if◌then◌else◌, ltb, ℕ,
}
use mcp_server_for_sql_agent.Prelude.Strs.{truthy, str_eq, codes, Str}
use mcp_server_for_sql_agent.Prelude.Ints.{ℤ}
use mcp_server_for_sql_agent.Prelude.Decimal.{decimal}
use mcp_server_for_sql_agent.Prelude.Sorting.{sorted_set}

abbrev pub is_table : TableKind → Bool
is_table TableKind.table = true
is_table TableKind.view = false

module _ (u : Unicode) (clock : ℕ → ℕ) (max_cell_chars : ℕ) (store : MetaStore)
    (adapters : AdapterProvider) where
  unfoldable pub list_connections_body : Caller → Exec Call (List ConnectionInfo)
  unfolding outside connection_infos
  list_connections_body caller = do
    outside (require_tool u store caller (codes "list_connections"))
    found ← outside (mcp_server_for_sql_agent.Permissions.list_connections u store caller)
    let infos = connection_infos u max_cell_chars found []
    modify (set_summary (summary (decimal (length infos.0) ++ codes " connections") infos.1))
    pure infos.0

  unfoldable pub list_tables_body : Caller → Str → Exec Call (List TableSummary)
  unfolding outside table_summaries
  list_tables_body caller name = do
    opened ← outside (open_tool u store adapters caller (codes "list_tables") name)
    descriptions ← outside (store.descriptions opened.0.record_of.id)
    infos ← outside opened.1.list_tables
    let tables = table_summaries u max_cell_chars opened.0 descriptions infos []
    modify (set_tables (map (λ t. t.name) tables.0))
    modify (set_summary (summary (decimal (length tables.0) ++ codes " tables") tables.1))
    pure tables.0

  unfoldable pub describe_table_body : Caller → Str → Str → Exec Call TableDetail
  unfolding outside table_detail
  describe_table_body caller name table = do
    opened ← outside (open_tool u store adapters caller (codes "describe_table") name)
    lift (require_table u opened.0 table)
    modify (set_tables (table ∷ []))
    description ← outside (opened.1.describe_table table)
    curated ← outside (store.descriptions opened.0.record_of.id)
    let detail = table_detail u max_cell_chars opened.0 curated description
    modify (
        set_summary
          (summary (decimal (length detail.columns) ++ codes " columns") detail.security_flags))
    pure detail

  -- The foreign keys into the table `target`, from each table that the caller can see.
  unfoldable pub referencing :
      DbAdapter → ConnectionAccess → Str → List TableInfo → Exec Call (List Relationship)
  unfolding outside
  referencing adapter access target [] = pure []
  referencing adapter access target (other ∷ others) =
      let later = referencing adapter access target others in
      if not (is_table other.kind) || not (allows u access other.name) then later else do
        described ← outside (adapter.describe_table other.name)
        more ← later
        pure (
            keep_if (λ fk. str_eq (casefold u fk.to_table) (casefold u target))
              described.foreign_keys
            ++ more)

  unfoldable pub get_relationships_body : Caller → Str → Str → Exec Call TableRelationships
  unfolding outside referencing visible_keys fk_detail
  get_relationships_body caller name table = do
    opened ← outside (open_tool u store adapters caller (codes "get_relationships") name)
    lift (require_table u opened.0 table)
    modify (set_tables (table ∷ []))
    target ← outside (opened.1.describe_table table)
    others ← outside opened.1.list_tables
    referenced_by ← referencing opened.1 opened.0 target.name others
    let references = visible_keys u max_cell_chars opened.0 target.foreign_keys
    modify (
        set_summary (
          decimal (length references)
          ++ (codes " references, " ++ (decimal (length referenced_by) ++ codes " referenced by"))))
    pure (record {
      table = target.name;
      references = map fk_detail references;
      referenced_by = map fk_detail referenced_by;
    })

  -- `if not keyword or len(keyword) > _MAX_KEYWORD_CHARS: raise InvalidArgument(...)`
  abbrev pub check_keyword : Str → Result (Unit {0})
  check_keyword keyword =
      if not (truthy keyword) || ltb max_keyword_chars (length keyword)
      then raised (domain (invalid_argument (length_range (codes "keyword") max_keyword_chars)))
      else ok tt

  unfoldable pub search_schema_body : Caller → Str → Str → ℤ → Exec Call (List SchemaSearchHit)
  unfolding outside in_range strip clean_hits
  search_schema_body caller name keyword limit = do
    let stripped = strip u keyword
    lift (check_keyword stripped)
    size ← lift (in_range (codes "limit") limit max_search_results)
    opened ← outside (open_tool u store adapters caller (codes "search_schema") name)
    hits ←
        outside (
          store.search_descriptions opened.0.record_of.id stripped (sorted_set opened.0.tables)
            size)
    let results = clean_hits u max_cell_chars hits []
    modify (set_tables (sorted_set (map (λ h. h.table) results.0)))
    modify (set_summary (summary (decimal (length results.0) ++ codes " matches") results.1))
    pure results.0

  abbrev pub named : Str → Members → Members
  named name rest = Members.member (codes "connection_name") (Json.str name) rest

  unfoldable pub list_connections : Caller → Exec World (List ConnectionInfo)
  unfolding list_connections_body
  list_connections caller =
      audited clock store caller (codes "list_connections") Members.end none
        (list_connections_body caller)

  unfoldable pub list_tables : Caller → Str → Exec World (List TableSummary)
  unfolding list_tables_body
  list_tables caller name =
      audited clock store caller (codes "list_tables") (named name Members.end) (some name)
        (list_tables_body caller name)

  unfoldable pub describe_table : Caller → Str → Str → Exec World TableDetail
  unfolding describe_table_body
  describe_table caller name table =
      audited clock store caller (codes "describe_table")
        (named name (Members.member (codes "table_name") (Json.str table) Members.end)) (some name)
        (describe_table_body caller name table)

  unfoldable pub get_relationships : Caller → Str → Str → Exec World TableRelationships
  unfolding get_relationships_body
  get_relationships caller name table =
      audited clock store caller (codes "get_relationships")
        (named name (Members.member (codes "table_name") (Json.str table) Members.end)) (some name)
        (get_relationships_body caller name table)

  unfoldable pub search_schema : Caller → Str → Str → ℤ → Exec World (List SchemaSearchHit)
  unfolding search_schema_body
  search_schema caller name keyword limit =
      audited clock store caller (codes "search_schema")
        (named name (Members.member (codes "keyword") (Json.str keyword) Members.end)) (some name)
        (search_schema_body caller name keyword limit)
