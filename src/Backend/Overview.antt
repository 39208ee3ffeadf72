-- ===== src/Backend/Overview.antt =====
-- The tables of a connection with what is written about them: `list_tables` of routers/schema.py.
use mcp_server_for_sql_agent.Exec.{Exec, pure, ◌>>=◌}
use mcp_server_for_sql_agent.Backend.Grids.{try_or, kind_text, text_or_nothing}
use mcp_server_for_sql_agent.Prelude.{
  map, ◌++◌, ◌∷◌, [], List, some, none, Option, ◌&&◌, not, false, true, Bool, ℕ, keep_if, length,
  if◌then◌else◌, ◌==◌,
}
use mcp_server_for_sql_agent.Prelude.Strs.{truthy, str_in, str_eq, codes, Str}
use mcp_server_for_sql_agent.Prelude.Ordering.{order_by}
use mcp_server_for_sql_agent.Prelude.Sorting.{str_leb}
use mcp_server_for_sql_agent.Unicode.{casefold, Unicode}
use mcp_server_for_sql_agent.World.{World, DescriptionRow, AppMeta}
use mcp_server_for_sql_agent.Backend.Grants.{load_record}
use mcp_server_for_sql_agent.Introspection.{is_present}
use mcp_server_for_sql_agent.Models.{TableInfo}
use mcp_server_for_sql_agent.Postgres.{Database, query}
use mcp_server_for_sql_agent.Store.{AdapterProvider}

-- `TableRow` of the router; `missing` is a description without its table.
pub record OverviewRow : Type 0 where
  pub name : Str
  pub kind : Str
  pub description : Str
  pub described_columns : ℕ
  pub missing : Bool

pub record TableList : Type 0 where
  pub connection_id : ℕ
  pub connection_name : Str
  pub reachable : Bool
  pub error : Option Str
  pub tables : List OverviewRow

-- A group of `GROUP BY table_name`.
pub record WrittenTable : Type 0 where
  pub table : Str
  pub text : Option Str
  pub columns : ℕ

-- The groups come by the first row of each.
unfoldable pub table_names : List DescriptionRow → List Str
table_names [] = []
table_names (d ∷ ds) = d.table_name ∷ keep_if (λ n. not (str_eq n d.table_name)) (table_names ds)

-- `max(description) FILTER (WHERE column_name IS NULL)`, of at most one row
unfoldable pub own_text : Str → List DescriptionRow → Option Str
own_text table [] = none
own_text table (d ∷ ds) =
    let later = own_text table ds in
    if str_eq d.table_name table && not (is_present d.column_name)
    then some d.description
    else later

abbrev is_described_column : Str → DescriptionRow → Bool
is_described_column table d =
    str_eq d.table_name table && (is_present d.column_name && truthy d.description)

unfoldable pub described_tables : ℕ → AppMeta → List WrittenTable
unfolding table_names own_text
described_tables id m =
    let rows = keep_if (λ d. d.connection_id == id) m.schema_descriptions in
    map
      (λ table. record {
        table = table;
        text = own_text table rows;
        columns = length (keep_if (is_described_column table) rows);
      })
      (table_names rows)

module _ (u : Unicode) where
  -- `by_fold.get(key)`: a later table with the same key replaces an earlier one.
  unfoldable pub by_fold : Str → List WrittenTable → Option WrittenTable
  by_fold key [] = none
  by_fold key (d ∷ ds) =
      let later = by_fold key ds in
      elim later [
        | some e ↦ some e
        | none ↦ if str_eq (casefold u d.table) key then some d else none
      ]

  abbrev live_row : List WrittenTable → TableInfo → OverviewRow
  live_row described t =
      let found = by_fold (casefold u t.name) described in
      record {
        name = t.name;
        kind = kind_text t.kind;
        description = elim found [ none ↦ [] | some d ↦ text_or_nothing d.text ];
        described_columns = elim found [ none ↦ 0 | some d ↦ d.columns ];
        missing = false;
      }

  abbrev written_row : Bool → WrittenTable → OverviewRow
  written_row missing d = record {
    name = d.table;
    kind = codes "table";
    description = text_or_nothing d.text;
    described_columns = d.columns;
    missing = missing;
  }

  abbrev is_seen : List TableInfo → Str → Bool
  is_seen live name = str_in (casefold u name) (map (λ t. casefold u t.name) live)

  -- Where the tables cannot be read, what has been written is still shown.
  unfoldable pub overview_rows : List WrittenTable → List TableInfo × Option Str → List OverviewRow
  unfolding by_fold str_in
  overview_rows described (live, none) =
      map (live_row described) live
      ++ map (written_row true) (keep_if (λ d. not (is_seen live d.table)) described)
  overview_rows described (live, some error) = map (written_row false) described

  unfoldable pub list_tables : Database → AdapterProvider → ℕ → Exec World TableList
  unfolding load_record query described_tables try_or overview_rows order_by
  list_tables db registry id = do
    found ← load_record db id
    described ← query db (described_tables id)
    read ← try_or [] (do adapter ← registry.adapter_for found; adapter.list_tables)
    pure (record {
      connection_id = id;
      connection_name = found.name;
      reachable = not (is_present read.1);
      error = read.1;
      tables =
          order_by (λ a b. str_leb (casefold u a.name) (casefold u b.name))
            (overview_rows described read);
    })
