-- ===== src/Backend/Descriptions.antt =====
-- The editor of descriptions: routers/schema.py.
use mcp_server_for_sql_agent.Exec.{Exec, pure, ◌>>=◌, ◌>>◌}
use mcp_server_for_sql_agent.Errors.{http, ok, table_not_found, domain, Result, raised}
use mcp_server_for_sql_agent.Prelude.{
  map, ◌++◌, ◌∷◌, [], List, some, none, Option, ◌&&◌, not, false, true, Bool, ℕ, keep_if, take,
  length, if◌then◌else◌, ◌==◌,
}
use mcp_server_for_sql_agent.Prelude.Strs.{truthy, str_eq, codes, Str}
use mcp_server_for_sql_agent.Prelude.Ints.{pos}
use mcp_server_for_sql_agent.Models.{
  ConnectionRecord, ColumnInfo, Relationship, TableDescription, TableKind,
}
use mcp_server_for_sql_agent.Unicode.{strip, casefold, Unicode}
use mcp_server_for_sql_agent.World.{AppMeta, DescriptionRow, World}
use mcp_server_for_sql_agent.Values.{Members, Json}
use mcp_server_for_sql_agent.Backend.{
  announce, transaction, log_change, refuse_if, alter, select, User,
}
use mcp_server_for_sql_agent.Postgres.{query, Database}
use mcp_server_for_sql_agent.Sanitizer.{clean_text}
use mcp_server_for_sql_agent.Backend.Connections.{same_option}
use mcp_server_for_sql_agent.Store.{AdapterProvider}
use mcp_server_for_sql_agent.Backend.Grants.{load_record}
use mcp_server_for_sql_agent.Errors.Message.{message}
use mcp_server_for_sql_agent.Cache.{Cache}

pub record DescriptionIn : Type 0 where
  pub connection_id : ℕ
  pub table : Str
  pub column : Option Str
  pub description : Str

pub record DescriptionOut : Type 0 where
  pub table : Str
  pub column : Option Str
  pub description : Str
  pub updated_at : ℕ
  pub updated_by : Option Str
  pub withheld_rule : Option Str

pub record ColumnRow : Type 0 where
  pub name : Str
  pub type_name : Str
  pub nullable : Bool
  pub primary_key : Bool
  pub db_comment : Option Str
  pub description : Str
  pub updated_at : Option ℕ
  pub updated_by : Option Str
  pub withheld_rule : Option Str

pub record TableDetailOut : Type 0 where
  pub connection_id : ℕ
  pub name : Str
  pub kind : TableKind
  pub db_comment : Option Str
  pub description : Str
  pub updated_at : Option ℕ
  pub updated_by : Option Str
  pub withheld_rule : Option Str
  pub columns : List ColumnRow
  pub foreign_keys : List Relationship

-- The unique key (connection_id, table_name, column_name), where two nulls are the same.
abbrev pub is_description_of : ℕ → Str → Option Str → DescriptionRow → Bool
is_description_of id table column d =
    d.connection_id == id && (str_eq table d.table_name && same_option column d.column_name)

-- `INSERT ... ON CONFLICT ... DO UPDATE SET description, updated_by`; the default and the trigger
-- give the time.
unfoldable pub write_description : DescriptionRow → List DescriptionRow → List DescriptionRow
write_description row [] = row ∷ []
write_description row (d ∷ ds) =
    let later = write_description row ds in
    if is_description_of row.connection_id row.table_name row.column_name d
    then record d {
      description = row.description;
      updated_by = row.updated_by;
      updated_at = row.updated_at;
    }
      ∷ ds
    else d ∷ later

-- `admin.name or admin.sub`
abbrev pub author : User → Str
author admin = elim admin.name [
  | none ↦ admin.sub
  | some name ↦ if truthy name then name else admin.sub
]

-- `except TableNotFound: ... 404`, `except McpSqlError as exc: ... 502`
unfoldable pub read_errors : {A : Type 0} → Str → Str → Result A → Result A
read_errors table name (raised (domain (table_not_found t))) =
    raised (http 404 (b'\'' ∷ (table ++ (codes "' is not a table on " ++ (name ++ codes ".")))))
read_errors table name (raised (domain e)) = raised (http 502 (message e))
read_errors table name r = r

unfoldable pub reading : {A : Type 0} → Str → Str → Exec World A → Exec World A
unfolding read_errors
reading table name m w = let (r, w') = m w in (read_errors table name r, w')

-- `"{record.name}.{described.name}"` with the column, if there is one
abbrev pub target_text : Str → Str → Option Str → Str
target_text connection table none = connection ++ (b'.' ∷ table)
target_text connection table (some []) = connection ++ (b'.' ∷ table)
target_text connection table (some (c ∷ column)) =
    connection ++ (b'.' ∷ (table ++ (b'.' ∷ (c ∷ column))))

abbrev pub shown_start : Str → Json
shown_start [] = Json.null
shown_start (c ∷ s) = Json.str (take 500 (c ∷ s))

module _ (u : Unicode) where
  -- `_sanitizer.clean_text`, of which the flags matter
  unfoldable pub withheld_rule : Str → Option Str
  unfolding clean_text
  withheld_rule description = elim (clean_text u 2000 description (codes "description") []).1 [
    | [] ↦ none
    | f ∷ fs ↦ some f.rule
  ]

  unfoldable pub find_column : Str → List ColumnInfo → Option ColumnInfo
  unfolding casefold
  find_column name [] = none
  find_column name (c ∷ cs) =
      let later = find_column name cs in
      if str_eq (casefold u c.name) (casefold u name) then some c else later

  -- The name of the column as the database has it; no column stands for the table.
  unfoldable pub column_for : TableDescription → Option Str → Exec World (Option Str)
  unfolding find_column
  column_for described none w = (ok none, w)
  column_for described (some name) w = elim (find_column name described.columns) [
    | none ↦ (
      raised (
          http 404
            (b'\'' ∷ (described.name ++ (codes "' has no column '" ++ (name ++ codes "'."))))),
      w,
    )
    | some c ↦ (ok (some c.name), w)
  ]

  module _ (db : Database) (registry : AdapterProvider) where
    unfoldable pub describe_live : ConnectionRecord → Str → Exec World TableDescription
    unfolding reading
    describe_live found table =
        reading table found.name
          (do adapter ← registry.adapter_for found; adapter.describe_table table)

    abbrev row_for : ℕ → Str → Option Str → Str → User → ℕ → DescriptionRow
    row_for id table column description admin now = record {
      connection_id = id;
      table_name = table;
      column_name = column;
      description = description;
      updated_by = some (author admin);
      updated_at = now;
    }

    unfoldable pub save_description :
        ℕ → Str → Str → Option Str → Str → User → ℕ → Exec AppMeta DescriptionOut
    unfolding alter write_description log_change withheld_rule
    save_description id connection table column description admin now = do
      alter (λ m. record m {
        schema_descriptions =
            write_description (row_for id table column description admin now) m.schema_descriptions;
      })
      log_change now admin (codes "schema.describe") (codes "description")
          (some (target_text connection table column))
          (Members.member (codes "description") (shown_start description)
            (Members.member (codes "cleared") (Json.bool (not (truthy description))) Members.end))
      pure (record {
        table = table;
        column = column;
        description = description;
        updated_at = now;
        updated_by = some (author admin);
        withheld_rule = withheld_rule description;
      })

    unfoldable pub set_description : Cache → DescriptionIn → User → Exec World DescriptionOut
    unfolding load_record describe_live column_for strip transaction save_description announce
    set_description cache body admin = do
      found ← load_record db body.connection_id
      described ← describe_live found body.table
      column ← column_for described body.column
      saved ← transaction db (
          save_description body.connection_id found.name described.name column
            (strip u body.description) admin)
      announce cache true false
      pure saved

    abbrev pub is_on_table : ℕ → Str → DescriptionRow → Bool
    is_on_table id table d =
        d.connection_id == id && str_eq (db.lower d.table_name) (db.lower table)

    unfoldable pub clear_descriptions : ℕ → Str → Str → User → ℕ → Exec AppMeta (Unit {0})
    unfolding select alter refuse_if log_change
    clear_descriptions id connection table admin now = do
      removed ← select (λ m. length (keep_if (is_on_table id table) m.schema_descriptions))
      alter (λ m. record m {
        schema_descriptions = keep_if (λ d. not (is_on_table id table d)) m.schema_descriptions;
      })
      refuse_if (removed == 0) 404
          (codes "No descriptions are stored for '" ++ (table ++ codes "'."))
      log_change now admin (codes "schema.clear") (codes "description")
          (some (target_text connection table none))
          (Members.member (codes "removed") (Json.int (pos removed)) Members.end)

    unfoldable pub delete_descriptions : Cache → ℕ → Str → User → Exec World (Unit {0})
    unfolding load_record transaction clear_descriptions announce
    delete_descriptions cache id table admin = do
      found ← load_record db id
      transaction db (clear_descriptions id found.name table admin)
      announce cache true false

    -- `curated`: by the casefolded name of the column, and `""` for the table; a later row wins.
    abbrev column_key : Option Str → Str
    column_key none = []
    column_key (some c) = casefold u c

    unfoldable pub row_written : Option Str → List DescriptionRow → Option DescriptionRow
    row_written column [] = none
    row_written column (d ∷ ds) =
        let later = row_written column ds in
        elim later [
          | some e ↦ some e
          | none ↦ if str_eq (column_key d.column_name) (column_key column) then some d else none
        ]

    -- The description, its time and author, and the rule for which it is withheld.
    unfoldable pub written :
        Option Str → List DescriptionRow → Str × Option ℕ × Option Str × Option Str
    unfolding row_written withheld_rule
    written column rows = elim (row_written column rows) [
      | none ↦ ([], none, none, none)
      | some d ↦ (d.description, some d.updated_at, d.updated_by, withheld_rule d.description)
    ]

    abbrev column_row : List DescriptionRow → ColumnInfo → ColumnRow
    column_row rows c =
        let (description, at, by, rule) = written (some c.name) rows in
        record {
          name = c.name;
          type_name = c.type_name;
          nullable = c.nullable;
          primary_key = c.primary_key;
          db_comment = c.comment;
          description = description;
          updated_at = at;
          updated_by = by;
          withheld_rule = rule;
        }

    unfoldable pub get_table : ℕ → Str → Exec World TableDetailOut
    unfolding load_record describe_live query written withheld_rule
    get_table id table = do
      found ← load_record db id
      described ← describe_live found table
      rows ← query db (λ m. keep_if (is_on_table id described.name) m.schema_descriptions)
      let table_written = written none rows
      pure (record {
        connection_id = id;
        name = described.name;
        kind = described.kind;
        db_comment = described.comment;
        description = table_written.0;
        updated_at = table_written.1;
        updated_by = table_written.2;
        withheld_rule = table_written.3;
        columns = map (column_row rows) described.columns;
        foreign_keys = described.foreign_keys;
      })
