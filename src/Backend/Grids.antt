-- ===== src/Backend/Grids.antt =====
-- The grids of routers/permissions.py: what an administrator is shown of the grants.
use mcp_server_for_sql_agent.Exec.{Exec, pure, ◌>>=◌}
use mcp_server_for_sql_agent.Models.{TableInfo, Subject, TableKind, table, view}
use mcp_server_for_sql_agent.Prelude.{
  map, ◌++◌, ◌∷◌, [], List, some, none, Option, ◌&&◌, not, false, true, Bool, ℕ, keep_if,
  if◌then◌else◌, ◌==◌,
}
use mcp_server_for_sql_agent.Prelude.Strs.{truthy, str_eq, codes, Str}
use mcp_server_for_sql_agent.Prelude.Ordering.{order_by}
use mcp_server_for_sql_agent.Prelude.Sorting.{sorted_set}
use mcp_server_for_sql_agent.Backend.Subjects.{type_text, subjects_of, SubjectOut}
use mcp_server_for_sql_agent.Errors.{cancelled, http, unexpected, domain, raised, ok, Result}
use mcp_server_for_sql_agent.World.{AppMeta, TableRow, World, DescriptionRow}
use mcp_server_for_sql_agent.Unicode.{casefold, Unicode}
use mcp_server_for_sql_agent.Postgres.{Database, query}
use mcp_server_for_sql_agent.Backend.Grants.{load_record, Grant}
use mcp_server_for_sql_agent.Introspection.{is_present}
use mcp_server_for_sql_agent.Store.{AdapterProvider}
use mcp_server_for_sql_agent.Errors.Message.{message}

pub record TableInfoOut : Type 0 where
  pub name : Str
  pub kind : Str
  pub description : Str

pub record TableGrid : Type 0 where
  pub connection_id : ℕ
  pub connection_name : Str
  pub reachable : Bool
  pub error : Option Str
  pub tables : List TableInfoOut
  pub subjects : List SubjectOut
  pub with_connection_access : List Subject
  pub grants : List Grant

pub record ToolInfoOut : Type 0 where
  pub name : Str
  pub description : Str

pub record ToolGrid : Type 0 where
  pub tools : List ToolInfoOut
  pub subjects : List SubjectOut
  pub grants : List Grant

-- `TOOL_INFO`, in its order.
unfoldable pub tool_info : List ToolInfoOut
tool_info =
    record {
      name = codes "list_connections";
      description = codes "See which databases exist for them";
    }
    ∷ record { name = codes "list_tables"; description = codes "List the tables on a database" }
    ∷ record { name = codes "describe_table"; description = codes "See a table's columns and keys" }
    ∷ record {
      name = codes "search_schema";
      description = codes "Search table and column names and descriptions";
    }
    ∷ record {
      name = codes "get_relationships";
      description = codes "See how tables link to each other";
    }
    ∷ record {
      name = codes "run_query";
      description = codes "Run read-only SELECT queries and see the results";
    }
    ∷ record {
      name = codes "explain_query";
      description = codes "See how the database would run a query";
    }
    ∷ record { name = codes "get_sample_rows"; description = codes "See example rows from a table" }
    ∷ []

-- A dictionary of descriptions: a later entry for a key replaces an earlier one.
unfoldable pub description_of : Str → List (Str × Str) → Option Str
description_of key [] = none
description_of key ((k, text) ∷ ds) =
    let later = description_of key ds in
    elim later [ some t ↦ some t | none ↦ if str_eq k key then some text else none ]

abbrev pub text_or_nothing : Option Str → Str
text_or_nothing none = []
text_or_nothing (some s) = s

abbrev pub kind_text : TableKind → Str
kind_text table = codes "table"
kind_text view = codes "view"

-- `except McpSqlError as exc: error = str(exc)`, and the same for any other `Exception`; a
-- cancellation goes on.
unfoldable pub caught : {A : Type 0} → A → Result A → Result (A × Option Str)
caught empty (ok a) = ok (a, none)
caught empty (raised (domain e)) = ok (empty, some (message e))
caught empty (raised (unexpected name)) =
    ok (empty, some (codes "Could not read the table list: " ++ name))
caught empty (raised (http status detail)) =
    ok (empty, some (codes "Could not read the table list: HTTPException"))
caught empty (raised cancelled) = raised cancelled

unfoldable pub try_or : {A : Type 0} → A → Exec World A → Exec World (A × Option Str)
unfolding caught
try_or empty m w = let (r, w') = m w in (caught empty r, w')

-- The description of the table itself: `column_name IS NULL`.
abbrev is_table_row : ℕ → DescriptionRow → Bool
is_table_row id d =
    d.connection_id == id && (not (is_present d.column_name) && truthy d.description)

module _ (u : Unicode) (db : Database) where
  unfoldable pub table_texts : ℕ → AppMeta → List (Str × Str)
  table_texts id m =
      map (λ d. (db.lower d.table_name, d.description))
        (keep_if (is_table_row id) m.schema_descriptions)

  -- `ORDER BY 3, 1, 2`: by table, then by type, then by id.
  abbrev grant_order : TableRow → TableRow → Bool
  grant_order a b =
      if not (db.collates a.table_name b.table_name)
      then false
      else if not (db.collates b.table_name a.table_name)
      then true
      else if not (db.collates (type_text a.subject.0) (type_text b.subject.0))
      then false
      else if not (db.collates (type_text b.subject.0) (type_text a.subject.0))
      then true
      else db.collates a.subject.1 b.subject.1

  unfoldable pub all_table_grants : ℕ → AppMeta → List Grant
  unfolding order_by
  all_table_grants id m =
      map (λ p. record { subject = p.subject; name = p.table_name })
        (order_by grant_order (keep_if (λ p. p.connection_id == id) m.table_permissions))

  unfoldable pub subjects_with_access : ℕ → AppMeta → List Subject
  subjects_with_access id m =
      map (λ a. a.subject) (keep_if (λ a. a.connection_id == id) m.connection_access)

  abbrev described_table : List (Str × Str) → Str → Str → TableInfoOut
  described_table texts kind name = record {
    name = name;
    kind = kind;
    description = text_or_nothing (description_of (casefold u name) texts);
  }

  -- Where the tables cannot be read, the granted names stand in, so that they can be reviewed.
  unfoldable pub grid_tables :
      List (Str × Str) → List Grant → List TableInfo × Option Str → List TableInfoOut
  unfolding description_of sorted_set
  grid_tables texts grants (live, none) =
      map (λ t. described_table texts (kind_text t.kind) t.name) live
  grid_tables texts grants (live, some error) =
      map (described_table texts (codes "table")) (sorted_set (map (λ g. g.name) grants))

  -- What one connection to app_meta reads for the grid.
  pub record GridRows : Type 0 where
    pub texts : List (Str × Str)
    pub grants : List Grant
    pub with_access : List Subject
    pub subjects : List SubjectOut

  unfoldable pub grid_rows : ℕ → AppMeta → GridRows
  unfolding table_texts all_table_grants subjects_with_access subjects_of
  grid_rows id m = record {
    texts = table_texts id m;
    grants = all_table_grants id m;
    with_access = subjects_with_access id m;
    subjects = subjects_of db m;
  }

  unfoldable pub table_grid : AdapterProvider → ℕ → Exec World TableGrid
  unfolding load_record query grid_rows try_or grid_tables
  table_grid registry id = do
    found ← load_record db id
    rows ← query db (grid_rows id)
    read ← try_or [] (do adapter ← registry.adapter_for found; adapter.list_tables)
    pure (record {
      connection_id = id;
      connection_name = found.name;
      reachable = not (is_present read.1);
      error = read.1;
      tables = grid_tables rows.texts rows.grants read;
      subjects = rows.subjects;
      with_connection_access = rows.with_access;
      grants = rows.grants;
    })

unfoldable pub tool_grid : Database → Exec World ToolGrid
unfolding query subjects_of tool_info
tool_grid db = query db (λ m. record {
  tools = tool_info;
  subjects = subjects_of db m;
  grants = map (λ p. record { subject = p.subject; name = p.tool_name }) m.tool_permissions;
})
