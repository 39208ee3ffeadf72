-- ===== src/Tests/Schemas.antt =====
-- The schema tools on the installation of `Setup`: the table `pay` is not granted.
use mcp_server_for_sql_agent.Regex.{search}
use mcp_server_for_sql_agent.Sanitizer.Rules.{rules}
use mcp_server_for_sql_agent.Sanitizer.{clean_text}
use mcp_server_for_sql_agent.Unicode.{casefold}
use mcp_server_for_sql_agent.Prelude.Sorting.{sorted_set}
use mcp_server_for_sql_agent.Permissions.{open_tool, require_table}
use mcp_server_for_sql_agent.Exec.{modify, raise_if, ◌>>=◌}
use mcp_server_for_sql_agent.Postgres.{
  postgres_allowed_tables, postgres_allowed_tools, postgres_descriptions, postgres_get_connection,
  postgres_write_audit,
}
use mcp_server_for_sql_agent.Audit.{audited}
use mcp_server_for_sql_agent.Unicode.Ascii.{ascii}
use mcp_server_for_sql_agent.Errors.{ok}
use mcp_server_for_sql_agent.Models.{
  ForeignKeyDetail, TableDetail, TableKind, TableRelationships, TableSummary, subjects,
}
use mcp_server_for_sql_agent.World.{World}
use mcp_server_for_sql_agent.Postgres.Laws.{postgres-StoreLaws}
use mcp_server_for_sql_agent.Schema.{list_tables, describe_table, get_relationships}
use mcp_server_for_sql_agent.Schema.NoLeak.{
  ListsVisible, list_tables-ListsVisible, RelatesVisible, get_relationships-RelatesVisible,
  DescribesVisible, describe_table-DescribesVisible,
}
use mcp_server_for_sql_agent.Tests.Setup.{
  alice, tables, world, database, store, adapters, clock, adapters-ProviderLaws,
}
use mcp_server_for_sql_agent.Prelude.{◌∷◌, [], List, refl, ◌≡◌}
use mcp_server_for_sql_agent.Prelude.Strs.{Str, codes, str_eq, str_in}

abbrev shop_name : Str
shop_name = codes "shop"

abbrev key : ForeignKeyDetail
key = record {
  from_table = codes "orders";
  columns = codes "id" ∷ [];
  to_table = codes "orders";
  to_columns = codes "id" ∷ [];
}

abbrev relationships : TableRelationships
relationships = record { table = codes "orders"; references = key ∷ []; referenced_by = key ∷ [] }

abbrev detail : TableDetail
detail = record {
  name = codes "orders";
  kind = TableKind.table;
  description = [];
  columns = [];
  foreign_keys = key ∷ [];
  security_flags = [];
}

abbrev summaries : List TableSummary
summaries = record { name = codes "orders"; kind = TableKind.table; description = [] } ∷ []

abbrev after_list : World
after_list = (list_tables ascii clock 2000 store adapters alice shop_name world).1

abbrev after_relationships : World
after_relationships =
    (get_relationships ascii clock 2000 store adapters alice shop_name (codes "orders") world).1

abbrev after_description : World
after_description =
    (describe_table ascii clock 2000 store adapters alice shop_name (codes "orders") world).1

lists :
    list_tables ascii clock 2000 store adapters alice shop_name world ≡ (ok summaries, after_list)
unfolding list_tables audited postgres_write_audit ◌>>=◌ open_tool postgres_allowed_tools raise_if
    str_in subjects sorted_set str_eq postgres_get_connection postgres_allowed_tables
    postgres_descriptions modify casefold clean_text rules search
lists = refl

list_tables-ListsVisible_example :
    ListsVisible ascii clock 2000 store adapters
      (postgres-StoreLaws database)
      adapters-ProviderLaws
      tables
      alice
      shop_name
      summaries
list_tables-ListsVisible_example =
    list_tables-ListsVisible ascii clock 2000 store adapters (postgres-StoreLaws database)
      adapters-ProviderLaws alice shop_name world after_list summaries lists

relates :
    get_relationships ascii clock 2000 store adapters alice shop_name (codes "orders") world
    ≡ (ok relationships, after_relationships)
unfolding get_relationships audited postgres_write_audit ◌>>=◌ open_tool postgres_allowed_tools
    raise_if str_in subjects sorted_set str_eq postgres_get_connection postgres_allowed_tables
    require_table casefold modify
relates = refl

get_relationships-RelatesVisible_example :
    RelatesVisible ascii clock 2000 store adapters
      (postgres-StoreLaws database)
      adapters-ProviderLaws
      tables
      alice
      shop_name
      (codes "orders")
      relationships
get_relationships-RelatesVisible_example =
    get_relationships-RelatesVisible ascii clock 2000 store adapters (postgres-StoreLaws database)
      adapters-ProviderLaws alice shop_name (codes "orders") world after_relationships relationships
      relates

describes :
    describe_table ascii clock 2000 store adapters alice shop_name (codes "orders") world
    ≡ (ok detail, after_description)
unfolding describe_table audited postgres_write_audit ◌>>=◌ open_tool postgres_allowed_tools
    raise_if str_in subjects sorted_set str_eq postgres_get_connection postgres_allowed_tables
    require_table casefold modify postgres_descriptions clean_text rules search
describes = refl

describe_table-DescribesVisible_example :
    DescribesVisible ascii clock 2000 store adapters
      (postgres-StoreLaws database)
      adapters-ProviderLaws
      tables
      alice
      shop_name
      (codes "orders")
      detail
describe_table-DescribesVisible_example =
    describe_table-DescribesVisible ascii clock 2000 store adapters (postgres-StoreLaws database)
      adapters-ProviderLaws alice shop_name (codes "orders") world after_description detail
      describes
