-- ===== src/Query.antt =====
-- services/query_service.py: `run_query`, `explain_query` and `get_sample_rows`.
pub mod Limits
pub mod Authorize
pub mod Reach
pub mod Bounds
pub mod EndToEnd
use mcp_server_for_sql_agent.Prelude.Ints.{ℤ, pos, negsuc}
use mcp_server_for_sql_agent.Prelude.Decimal.{decimal}
use mcp_server_for_sql_agent.Prelude.Sorting.{sorted_set}
use mcp_server_for_sql_agent.Unicode.{Unicode}
use mcp_server_for_sql_agent.Values.{Json, Members, DbValue, to_json_safe}
use mcp_server_for_sql_agent.Errors.{
  unexpected, Result, ok, raised, domain, table_not_found, invalid_argument, value_range,
}
use mcp_server_for_sql_agent.Exec.{Exec, pure, lift, modify, ◌>>=◌, ◌>>◌}
use mcp_server_for_sql_agent.Models.{Caller, RawResult, QueryResult, PlanResult, ExplainResult}
use mcp_server_for_sql_agent.World.{World}
use mcp_server_for_sql_agent.Store.{MetaStore, DbAdapter, AdapterProvider}
use mcp_server_for_sql_agent.Sanitizer.{SecurityFlag, Flagged, clean_text, clean_value}
use mcp_server_for_sql_agent.Permissions.{ConnectionAccess, allows, require_table, open_tool}
use mcp_server_for_sql_agent.Audit.{AuditRecorder, Call, outside, audited, now}
use mcp_server_for_sql_agent.Validator.Sqlglot.{Sqlglot}
use mcp_server_for_sql_agent.Validator.Validate.{ValidatedQuery, validate}
use mcp_server_for_sql_agent.Query.Limits.{QueryLimits, resolve_row_limit, resolve_sample_size}
use mcp_server_for_sql_agent.Prelude.{
  suc, zero, all_of, leb, ◌++◌, ◌∷◌, [], List, some, none, Option, not, ◌-◌, ◌+◌, ℕ, length,
  if◌then◌else◌,
}
use mcp_server_for_sql_agent.Prelude.Strs.{codes, Str}

-- Each value of each row has a column.
abbrev pub columns_for : List Str → List (List DbValue) → Result (Unit {0})
columns_for columns rows =
    if all_of (λ row. leb (length row) (length columns)) rows
    then ok tt
    else raised (unexpected (codes "IndexError"))

-- The rows of a result, cleaned from the row `r` and the column `c` on.
module _ (u : Unicode) (max_cell_chars : ℕ) (columns : List Str) where
  abbrev pub cell_location : ℕ → Str → Str
  cell_location r column = codes "row " ++ (decimal r ++ (codes ", column " ++ column))

  -- The name of a column stands beside its value; `columns_for` has found one for each.
  unfoldable pub clean_row : ℕ → List Str → List DbValue → List SecurityFlag → Flagged (List Json)
  clean_row r names [] flags = ([], flags)
  clean_row r [] (v ∷ vs) flags = ([], flags)
  clean_row r (name ∷ names) (v ∷ vs) flags =
      let (w, flags') =
        clean_value u max_cell_chars (to_json_safe v) (cell_location r name) flags in
      let (ws, flags'') = clean_row r names vs flags' in (w ∷ ws, flags'')

  unfoldable pub clean_rows :
      ℕ → List (List DbValue) → List SecurityFlag → Flagged (List (List Json))
  unfolding clean_row
  clean_rows r [] flags = ([], flags)
  clean_rows r (row ∷ rows) flags =
      let (w, flags') = clean_row r columns row flags in
      let (ws, flags'') = clean_rows (r + 1) rows flags' in (w ∷ ws, flags'')

module _ (u : Unicode) (max_cell_chars : ℕ) where
  unfoldable pub clean_columns : List Str → List SecurityFlag → Flagged (List Str)
  clean_columns [] flags = ([], flags)
  clean_columns (c ∷ cs) flags =
      let (d, flags') = clean_text u max_cell_chars c (codes "column name") flags in
      let (ds, flags'') = clean_columns cs flags' in (d ∷ ds, flags'')

  unfoldable pub result_of : RawResult → ℕ → QueryResult
  unfolding clean_columns clean_rows
  result_of raw elapsed =
      let (columns, flags) = clean_columns raw.columns [] in
      let (rows, flags') = clean_rows u max_cell_chars raw.columns 1 raw.rows flags in
      record {
        columns = columns;
        rows = rows;
        row_count = length rows;
        truncated = raw.truncated;
        elapsed_ms = elapsed;
        security_flags = flags';
      }

abbrev pub flags_note : ℕ → Str
flags_note zero = []
flags_note (suc n) = codes "; " ++ (decimal (suc n) ++ codes " value(s) withheld by the sanitizer")

-- `"; ".join(parts)` of the one to three parts
unfoldable pub result_summary : QueryResult → Str
result_summary result =
    decimal result.row_count
    ++ (codes " rows"
        ++ ((if result.truncated then codes "; truncated at the row limit" else [])
            ++ flags_note (length result.security_flags)))

-- `raise TableNotFound` for the first table that is not allowed
unfoldable pub authorize : Unicode → ConnectionAccess → List Str → Result (Unit {0})
authorize u access [] = ok tt
authorize u access (t ∷ ts) =
    let rest = authorize u access ts in
    if not (allows u access t) then raised (domain (table_not_found t)) else rest

abbrev pub null_or {ℓ} : {A : Type ℓ} → (A → Json) → Option A → Json
null_or f none = Json.null
null_or f (some a) = f a

abbrev pub set_tables : List Str → Call → Call
set_tables ts c = record c { recorder = record c.recorder { tables = ts } }

abbrev pub set_summary : Str → Call → Call
set_summary s c = record c { recorder = record c.recorder { summary = some s } }

abbrev pub set_result : QueryResult → Call → Call
set_result r c = record c {
  recorder = record c.recorder { row_count = some r.row_count; summary = some (result_summary r) };
}

module _ {Tree : Type 0} (u : Unicode) (g : Sqlglot Tree) (clock : ℕ → ℕ) (limits : QueryLimits)
    (store : MetaStore) (adapters : AdapterProvider) where
  unfoldable pub validate_and_authorize :
      Str → DbAdapter → ConnectionAccess → Exec Call ValidatedQuery
  validate_and_authorize sql adapter access = do
    query ←
        lift (validate u g limits.max_sql_length sql adapter.dialect_name adapter.default_schema)
    modify (set_tables (sorted_set query.tables))
    lift (authorize u access (sorted_set query.tables))
    pure query

  -- `_to_result`: the clock is read once more when the rows have been cleaned. A value that has
  -- no column is an `IndexError`, which nothing that happens before it can show.
  unfoldable pub to_result : RawResult → ℕ → Exec World QueryResult
  unfolding result_of
  to_result raw started = do
    lift (columns_for raw.columns raw.rows)
    ended ← now clock
    pure (result_of u limits.max_cell_chars raw (ended - started))

  unfoldable pub run_query_body : Caller → Str → Str → Option ℤ → Exec Call QueryResult
  unfolding validate_and_authorize to_result outside
  run_query_body caller name sql row_limit = do
    opened ← outside (open_tool u store adapters caller (codes "run_query") name)
    limit ← lift (resolve_row_limit limits row_limit)
    query ← validate_and_authorize sql opened.1 opened.0
    started ← outside (now clock)
    raw ← outside (opened.1.execute query.sql limit limits.timeout_ms)
    result ← outside (to_result raw started)
    modify (set_result result)
    pure result

  unfoldable pub run_query : Caller → Str → Str → Option ℤ → Exec World QueryResult
  unfolding run_query_body
  run_query caller name sql row_limit =
      audited clock store caller (codes "run_query")
        (Members.member (codes "connection_name") (Json.str name) (
          Members.member (codes "sql") (Json.str sql)
            (Members.member (codes "row_limit") (null_or Json.int row_limit) Members.end)))
        (some name) (run_query_body caller name sql row_limit)

  abbrev pub plan_summary : List SecurityFlag → Str
  plan_summary [] = codes "plan returned"
  plan_summary (f ∷ fs) = codes "plan withheld by the sanitizer"

  unfoldable pub explain_query_body : Caller → Str → Str → Exec Call PlanResult
  unfolding validate_and_authorize outside
  explain_query_body caller name sql = do
    opened ← outside (open_tool u store adapters caller (codes "explain_query") name)
    query ← validate_and_authorize sql opened.1 opened.0
    explained ← outside (opened.1.explain query.sql limits.timeout_ms)
    let cleaned = clean_text u limits.max_cell_chars explained.plan (codes "query plan") []
    modify (set_summary (plan_summary cleaned.1))
    pure (record {
      plan = cleaned.0;
      estimated_cost = explained.estimated_cost;
      estimated_rows = explained.estimated_rows;
    })

  unfoldable pub explain_query : Caller → Str → Str → Exec World PlanResult
  unfolding explain_query_body
  explain_query caller name sql =
      audited clock store caller (codes "explain_query")
        (Members.member (codes "connection_name") (Json.str name)
          (Members.member (codes "sql") (Json.str sql) Members.end))
        (some name) (explain_query_body caller name sql)

  unfoldable pub sample_rows_body : Caller → Str → Str → ℤ → Exec Call QueryResult
  unfolding to_result outside
  sample_rows_body caller name table n = do
    opened ← outside (open_tool u store adapters caller (codes "get_sample_rows") name)
    size ← lift (resolve_sample_size limits n)
    lift (require_table u opened.0 table)
    modify (set_tables (table ∷ []))
    started ← outside (now clock)
    raw ← outside (opened.1.sample_rows table size limits.timeout_ms)
    result ← outside (to_result raw started)
    modify (set_result result)
    pure result

  unfoldable pub get_sample_rows : Caller → Str → Str → ℤ → Exec World QueryResult
  unfolding sample_rows_body
  get_sample_rows caller name table n =
      audited clock store caller (codes "get_sample_rows")
        (Members.member (codes "connection_name") (Json.str name) (
          Members.member (codes "table_name") (Json.str table)
            (Members.member (codes "n") (Json.int n) Members.end)))
        (some name) (sample_rows_body caller name table n)
