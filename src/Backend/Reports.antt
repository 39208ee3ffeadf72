-- ===== src/Backend/Reports.antt =====
-- routers/reports.py: saved queries, which must be ones that the MCP server accepts.
use mcp_server_for_sql_agent.Errors.Message.{message}
use mcp_server_for_sql_agent.Exec.{Exec, pure, ◌>>=◌, ◌>>◌}
use mcp_server_for_sql_agent.Prelude.{
  ◌++◌, ◌∷◌, [], List, some, none, Option, ◌||◌, ◌&&◌, not, true, Bool, ℕ, keep_if, if◌then◌else◌,
  ◌==◌, leb,
}
use mcp_server_for_sql_agent.Prelude.Strs.{is_some_item, truthy, str_eq, codes, Str}
use mcp_server_for_sql_agent.Prelude.Ordering.{order_by}
use mcp_server_for_sql_agent.Backend.Grants.{no_connection, texts, find_connection}
use mcp_server_for_sql_agent.World.{World, AppMeta, ReportRow}
use mcp_server_for_sql_agent.Unicode.{Unicode}
use mcp_server_for_sql_agent.Errors.{http, query_rejected, domain, raised, ok, Result}
use mcp_server_for_sql_agent.Values.{Members, Json}
use mcp_server_for_sql_agent.Validator.Sqlglot.{Sqlglot}
use mcp_server_for_sql_agent.Backend.Access.{log_unless, display_name_of}
use mcp_server_for_sql_agent.Backend.Connections.{note_if}
use mcp_server_for_sql_agent.Postgres.{query, Database, like_pattern}
use mcp_server_for_sql_agent.Validator.Validate.{validate, ValidatedQuery}
use mcp_server_for_sql_agent.Models.{user}
use mcp_server_for_sql_agent.Backend.{User, present_or, alter, log_change, transaction}
use mcp_server_for_sql_agent.Errors.Message.{message}

pub record ReportIn : Type 0 where
  pub name : Str
  pub description : Str
  pub connection_id : ℕ
  pub sql : Str
  pub chart_config : Json

pub record ReportOut : Type 0 where
  pub row : ReportRow
  pub connection_name : Str
  pub owner_name : Option Str

unfoldable pub find_report : ℕ → List ReportRow → Option ReportRow
find_report id [] = none
find_report id (r ∷ rs) = let later = find_report id rs in if r.id == id then some r else later

-- `_SELECT`: a report without its connection is no row of the join.
unfoldable pub report_out : AppMeta → ReportRow → Option ReportOut
unfolding find_connection display_name_of
report_out m r = elim (find_connection r.connection_id m.connections) [
  | none ↦ none
  | some c ↦ some (record {
    row = r;
    connection_name = c.record_of.name;
    owner_name = display_name_of (user, r.owner_sub) m.known_subjects;
  })
]

abbrev pub report_of : AppMeta → Option ReportRow → Option ReportOut
report_of m none = none
report_of m (some r) = report_out m r

unfoldable pub joined : AppMeta → List ReportRow → List ReportOut
unfolding report_out
joined m [] = []
joined m (r ∷ rs) = elim (report_out m r) [ none ↦ joined m rs | some o ↦ o ∷ joined m rs ]

unfoldable pub update_reports : ℕ → (ReportRow → ReportRow) → List ReportRow → List ReportRow
update_reports id f [] = []
update_reports id f (r ∷ rs) = (if r.id == id then f r else r) ∷ update_reports id f rs

unfoldable pub engine_of : ℕ → AppMeta → Option Str
unfolding find_connection
engine_of id m = elim (find_connection id m.connections) [
  | none ↦ none
  | some c ↦ some c.record_of.engine
]

-- `except QueryRejected as exc: raise HTTPException(422, ...)`
abbrev pub refuse_rejected : {S : Type 0} → Result ValidatedQuery → Exec S (Unit {0})
refuse_rejected (ok q) s = (ok tt, s)
refuse_rejected (raised (domain (query_rejected r))) s =
    (raised (http 422 (codes "This isn't a read-only query: " ++ message (query_rejected r))), s)
refuse_rejected (raised e) s = (raised e, s)

-- The length limit of `QueryValidator()`.
abbrev pub default_sql_length : ℕ
default_sql_length = 20000

abbrev pub matches_text : (Str → Str → Bool) → Option Str → ReportRow → Bool
matches_text ilike none r = true
matches_text ilike (some q) r =
    not (truthy q) || (ilike (like_pattern q) r.name || ilike (like_pattern q) r.description)

abbrev pub on_report_connection : Option ℕ → ReportRow → Bool
on_report_connection none r = true
on_report_connection (some id) r = r.connection_id == id

-- `dict_eq` is `==` on dictionaries.
abbrev pub changed_fields : (Json → Json → Bool) → ReportRow → ReportIn → List Str
changed_fields dict_eq r body =
    note_if (not (str_eq r.name body.name)) (codes "name")
    ++ (note_if (not (str_eq r.description body.description)) (codes "description")
        ++ (note_if (not (r.connection_id == body.connection_id)) (codes "connection")
            ++ (note_if (not (str_eq r.sql body.sql)) (codes "sql")
                ++ note_if (not (dict_eq r.chart_config body.chart_config))
                    (codes "chart_config"))))

abbrev pub edited_row : ReportIn → ℕ → ReportRow → ReportRow
edited_row body now r = record r {
  name = body.name;
  description = body.description;
  connection_id = body.connection_id;
  sql = body.sql;
  chart_config = body.chart_config;
  updated_at = now;
}

-- `ilike` is ILIKE with a pattern, and `uuid_text` is `str(id)`.
module _ {Tree : Type 0} (u : Unicode) (sqlglot : Sqlglot Tree) (ilike : Str → Str → Bool)
    (uuid_text : ℕ → Str) (dict_eq : Json → Json → Bool) (db : Database) where
  -- The reports come from the last change on.
  unfoldable pub list_reports : Option Str → Option ℕ → Exec World (List ReportOut)
  unfolding query joined order_by like_pattern
  list_reports q connection_id = query db (λ m. joined m (
      order_by (λ a b. leb b.updated_at a.updated_at)
        (keep_if (λ r. matches_text ilike q r && on_report_connection connection_id r)
          m.saved_reports)))

  unfoldable pub check_sql : ℕ → Str → Exec World (Unit {0})
  unfolding query engine_of present_or validate
  check_sql connection_id sql = do
    row ← query db (engine_of connection_id)
    engine ← present_or 422 no_connection row
    refuse_rejected (validate u sqlglot default_sql_length sql engine none)

  unfoldable pub fetch_report : ℕ → Exec World ReportOut
  unfolding query find_report report_out present_or
  fetch_report id = do
    row ← query db (λ m. report_of m (find_report id m.saved_reports))
    present_or 404 (codes "That report doesn't exist.") row

  unfoldable pub new_report : ReportIn → User → ℕ → Exec AppMeta ℕ
  unfolding log_change
  new_report body admin now m =
      let id = db.new_id m in
      (do
        log_change now admin (codes "report.create") (codes "report") (some body.name)
            (Members.member (codes "id") (Json.str (uuid_text id)) Members.end)
        pure id)
        (record m {
          saved_reports =
              m.saved_reports
              ++ record {
                id = id;
                name = body.name;
                description = body.description;
                connection_id = body.connection_id;
                sql = body.sql;
                chart_config = body.chart_config;
                owner_sub = admin.sub;
                created_at = now;
                updated_at = now;
              }
                ∷ [];
        })

  -- The trigger `saved_reports_updated_at` stamps every update.
  unfoldable pub edit_report : ℕ → ReportOut → ReportIn → User → ℕ → Exec AppMeta (Unit {0})
  unfolding alter update_reports log_change texts
  edit_report id current body admin now = do
    alter
        (λ m. record m { saved_reports = update_reports id (edited_row body now) m.saved_reports })
    log_unless (not (is_some_item (changed_fields dict_eq current.row body))) (
        log_change now admin (codes "report.update") (codes "report") (some body.name) (
          Members.member (codes "changed")
            (Json.array (texts (changed_fields dict_eq current.row body))) Members.end))

  unfoldable pub create_report : ReportIn → User → Exec World ReportOut
  unfolding check_sql transaction new_report fetch_report
  create_report body admin = do
    check_sql body.connection_id body.sql
    new_id ← transaction db (new_report body admin)
    fetch_report new_id

  unfoldable pub update_report : ℕ → ReportIn → User → Exec World ReportOut
  unfolding fetch_report check_sql transaction edit_report
  update_report id body admin = do
    current ← fetch_report id
    check_sql body.connection_id body.sql
    transaction db (edit_report id current body admin)
    fetch_report id

  -- The statements of the transaction of `delete_report`.
  unfoldable pub drop_report : ℕ → Str → User → ℕ → Exec AppMeta (Unit {0})
  unfolding alter log_change
  drop_report id name admin now = do
    alter (λ m. record m { saved_reports = keep_if (λ r. not (r.id == id)) m.saved_reports })
    log_change now admin (codes "report.delete") (codes "report") (some name) Members.end

  unfoldable pub delete_report : ℕ → User → Exec World (Unit {0})
  unfolding fetch_report transaction drop_report
  delete_report id admin = do
    current ← fetch_report id
    transaction db (drop_report id current.row.name admin)
