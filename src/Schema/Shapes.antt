-- ===== src/Schema/Shapes.antt =====
-- The parts of services/schema_service.py that build the answers, outside the calls.
use mcp_server_for_sql_agent.Unicode.{Unicode, casefold}
use mcp_server_for_sql_agent.Models.{
  ConnectionRecord, ConnectionInfo, TableInfo, TableSummary, ColumnInfo, ColumnDetail, Relationship,
  ForeignKeyDetail, TableDescription, TableDetail, SchemaSearchHit,
}
use mcp_server_for_sql_agent.Store.{Described}
use mcp_server_for_sql_agent.Sanitizer.{SecurityFlag, Flagged, clean_text}
use mcp_server_for_sql_agent.Permissions.{ConnectionAccess, allows}
use mcp_server_for_sql_agent.Prelude.{
  map, ◌++◌, ◌∷◌, [], List, some, none, Option, ◌&&◌, false, true, Bool, keep_if, length,
  if◌then◌else◌, ℕ,
}
use mcp_server_for_sql_agent.Prelude.Strs.{str_eq, codes, Str}
use mcp_server_for_sql_agent.Prelude.Decimal.{decimal}

abbrev pub max_keyword_chars : ℕ
max_keyword_chars = 100

abbrev pub max_search_results : ℕ
max_search_results = 50

unfoldable pub fk_detail : Relationship → ForeignKeyDetail
fk_detail fk = record {
  from_table = fk.from_table;
  columns = fk.columns;
  to_table = fk.to_table;
  to_columns = fk.to_columns;
}

unfoldable pub summary : Str → List SecurityFlag → Str
summary text [] = text
summary text (f ∷ fs) =
    text
    ++ (codes "; " ++ (decimal (length (f ∷ fs)) ++ codes " value(s) withheld by the sanitizer"))

abbrev pub same_column : Option Str → Option Str → Bool
same_column none none = true
same_column (some a) (some b) = str_eq a b
same_column _ _ = false

-- `descriptions.get((table, column))`: of two entries with one key, the later one is kept.
unfoldable pub described_as : List Described → Str → Option Str → Option Str
described_as [] table column = none
described_as (d ∷ ds) table column = elim (described_as ds table column) [
  | some t ↦ some t
  | none ↦ if str_eq d.table table && same_column d.column column then some d.text else none
]

-- `curated or comment or ""`
unfoldable pub first_text : Option Str → Option Str → Str
first_text (some (c ∷ s)) comment = c ∷ s
first_text _ (some comment) = comment
first_text _ none = []

module _ (u : Unicode) (max_cell_chars : ℕ) where
  unfoldable pub connection_infos :
      List ConnectionRecord → List SecurityFlag → Flagged (List ConnectionInfo)
  connection_infos [] flags = ([], flags)
  connection_infos (r ∷ rs) flags =
      let (d, flags') =
        clean_text u max_cell_chars r.description (codes "description of " ++ r.name) flags in
      let (infos, flags'') = connection_infos rs flags' in
      (record { name = r.name; engine = r.engine; description = d } ∷ infos, flags'')

  unfoldable pub table_summaries :
      ConnectionAccess
      → List Described
      → List TableInfo
      → List SecurityFlag
      → Flagged (List TableSummary)
  unfolding allows described_as first_text
  table_summaries access ds [] flags = ([], flags)
  table_summaries access ds (info ∷ infos) flags = elim (allows u access info.name) [
    | false ↦ table_summaries access ds infos flags
    | true ↦
        let described = first_text (described_as ds (casefold u info.name) none) info.comment in
        let (n, flags') = clean_text u max_cell_chars info.name (codes "table name") flags in
        let (d, flags'') =
          clean_text u max_cell_chars described (codes "description of " ++ info.name) flags' in
        let (rest, flags''') = table_summaries access ds infos flags'' in
        (record { name = n; kind = info.kind; description = d } ∷ rest, flags''')
  ]

  unfoldable pub column_details :
      Str → List Described → List ColumnInfo → List SecurityFlag → Flagged (List ColumnDetail)
  unfolding described_as first_text
  column_details table ds [] flags = ([], flags)
  column_details table ds (col ∷ cols) flags =
      let described =
        first_text (described_as ds (casefold u table) (some (casefold u col.name))) col.comment in
      let (n, flags') =
        clean_text u max_cell_chars col.name (codes "column name in " ++ table) flags in
      let (d, flags'') =
        clean_text u max_cell_chars described
          (codes "description of " ++ (table ++ (b'.' ∷ col.name))) flags' in
      let (rest, flags''') = column_details table ds cols flags'' in
      (
        record {
          name = n;
          type_name = col.type_name;
          nullable = col.nullable;
          primary_key = col.primary_key;
          description = d;
        }
            ∷ rest,
        flags''',
      )

  -- A foreign key to a table that the caller cannot see is left out.
  unfoldable pub visible_keys : ConnectionAccess → List Relationship → List Relationship
  unfolding allows
  visible_keys access = keep_if (λ fk. allows u access fk.to_table)

  unfoldable pub table_detail : ConnectionAccess → List Described → TableDescription → TableDetail
  unfolding column_details visible_keys fk_detail
  table_detail access curated t =
      let (n, flags) = clean_text u max_cell_chars t.name (codes "table name") [] in
      let (d, flags') =
        clean_text u max_cell_chars
          (first_text (described_as curated (casefold u t.name) none) t.comment)
          (codes "description of " ++ t.name) flags in
      let (cols, flags'') = column_details t.name curated t.columns flags' in
      record {
        name = n;
        kind = t.kind;
        description = d;
        columns = cols;
        foreign_keys = map fk_detail (visible_keys access t.foreign_keys);
        security_flags = flags'';
      }

  -- `clean(hit.column, "column name", flags) if hit.column else None`
  unfoldable pub clean_column : Option Str → List SecurityFlag → Flagged (Option Str)
  clean_column (some (c ∷ s)) flags =
      let (t, flags') = clean_text u max_cell_chars (c ∷ s) (codes "column name") flags in
      (some t, flags')
  clean_column _ flags = (none, flags)

  unfoldable pub clean_hits :
      List SchemaSearchHit → List SecurityFlag → Flagged (List SchemaSearchHit)
  unfolding clean_column
  clean_hits [] flags = ([], flags)
  clean_hits (hit ∷ hits) flags =
      let (t, flags') = clean_text u max_cell_chars hit.table (codes "table name") flags in
      let (c, flags'') = clean_column hit.column flags' in
      let (d, flags''') =
        clean_text u max_cell_chars hit.description (codes "description of " ++ hit.table)
          flags'' in
      let (rest, flags'''') = clean_hits hits flags''' in
      (record hit { table = t; column = c; description = d } ∷ rest, flags'''')
