-- ===== src/Backend/Grants.antt =====
-- Who may see which tables and call which tools: the grants of routers/permissions.py.
pub mod Effects
pub mod Tools
pub mod Handlers
pub mod ToolHandler
pub mod Visible
pub mod Checks
use mcp_server_for_sql_agent.Backend.Connections.Shapes.{integrity_error}
use mcp_server_for_sql_agent.Errors.{ok, raised}
use mcp_server_for_sql_agent.Exec.{Exec, pure, ◌>>=◌, ◌>>◌}
use mcp_server_for_sql_agent.Prelude.{
  map, ◌++◌, ◌∷◌, [], List, some, none, Option, ◌&&◌, not, false, true, Bool, ℕ, keep_if,
  if◌then◌else◌, ◌==◌, leb, length, all_of,
}
use mcp_server_for_sql_agent.Prelude.Strs.{truthy, is_some_item, join, str_in, str_eq, codes, Str}
use mcp_server_for_sql_agent.Prelude.Ordering.{order_by}
use mcp_server_for_sql_agent.Prelude.Sorting.{sorted_set}
use mcp_server_for_sql_agent.Values.{Json, Jsons, Members}
use mcp_server_for_sql_agent.Postgres.{query, same_subject, Database}
use mcp_server_for_sql_agent.Models.{ConnectionRecord, Subject}
use mcp_server_for_sql_agent.World.{World, ToolRow, TableRow, AppMeta, ConnectionRow}
use mcp_server_for_sql_agent.Cache.{Cache}
use mcp_server_for_sql_agent.Backend.Subjects.{type_text, remember_subject}
use mcp_server_for_sql_agent.Backend.Rows.{insert_rows, delete_rows}
use mcp_server_for_sql_agent.Backend.{
  select, User, alter, refuse_if, announce, log_change, present_or, transaction,
}
use mcp_server_for_sql_agent.Permissions.{all_tool_names}
use mcp_server_for_sql_agent.Cache.Stored.{subject_text}

-- `TableChange` and `ToolChange`: a name, and whether it is granted or revoked.
pub record Change : Type 0 where
  pub name : Str
  pub granted : Bool

pub record TableChanges : Type 0 where
  pub connection_id : ℕ
  pub subject : Subject
  pub changes : List Change

pub record ToolChanges : Type 0 where
  pub subject : Subject
  pub changes : List Change

-- `TableGrant` and `ToolGrant`
pub record Grant : Type 0 where
  pub subject : Subject
  pub name : Str

-- `Field(min_length=least, max_length=most)`
abbrev pub sized : ℕ → ℕ → ℕ → Bool
sized least most n = leb least n && leb n most

-- What pydantic asks of a `TableChanges`; a body with anything else is answered with 422, and the
-- handler is not called.
unfoldable pub accepts_tables : TableChanges → Bool
accepts_tables body =
    sized 1 200 (length body.subject.1)
    && (sized 1 2000 (length body.changes)
        && all_of (λ c. sized 1 300 (length c.name)) body.changes)

-- `CHECK (subject_id <> '')` of the rows that a request on grants adds, and `CHECK (table_name <> '')`
-- or `CHECK (tool_name <> '')`. A row that fails one raises, and the transaction leaves no trace; so
-- it is all one which statement of the transaction finds it.
unfoldable pub keep_checks : Subject → List Str → Exec AppMeta (Unit {0})
keep_checks s names m =
    (if truthy s.1 && not (str_in [] names) then ok tt else raised integrity_error, m)

unfoldable pub names_granted : List Change → List Str
unfolding sorted_set
names_granted changes = sorted_set (map (λ c. c.name) (keep_if (λ c. c.granted) changes))

-- A name that is granted too is not revoked.
unfoldable pub names_revoked : List Change → List Str
unfolding names_granted sorted_set
names_revoked changes = sorted_set (
    keep_if (λ name. not (str_in name (names_granted changes)))
      (map (λ c. c.name) (keep_if (λ c. not c.granted) changes)))

unfoldable pub texts : List Str → Jsons
texts [] = Jsons.nil
texts (s ∷ ss) = Jsons.cons (Json.str s) (texts ss)

-- `{"granted": granted, "revoked": revoked}`
abbrev pub change_details : List Str → List Str → Members
change_details granted revoked =
    Members.member (codes "granted") (Json.array (texts granted))
      (Members.member (codes "revoked") (Json.array (texts revoked)) Members.end)

unfoldable pub find_connection : ℕ → List ConnectionRow → Option ConnectionRow
find_connection id [] = none
find_connection id (c ∷ cs) =
    let later = find_connection id cs in if c.record_of.id == id then some c else later

abbrev pub no_connection : Str
no_connection = codes "That connection doesn't exist."

-- The rows of one subject on one connection.
abbrev pub of_table_owner : ℕ → Subject → TableRow → Bool
of_table_owner id s p = p.connection_id == id && same_subject s p.subject

abbrev pub table_row : ℕ → Subject → Str → Str → TableRow
table_row id s by name = record {
  connection_id = id;
  subject = s;
  table_name = name;
  granted_by = some by;
}

abbrev pub of_tool_owner : Subject → ToolRow → Bool
of_tool_owner s p = same_subject s p.subject

abbrev pub tool_row : Subject → Str → Str → ToolRow
tool_row s by name = record { subject = s; tool_name = name; granted_by = some by }

abbrev pub grant_tables : Str → ℕ → Subject → List Str → AppMeta → AppMeta
grant_tables by id s names m = record m {
  table_permissions =
      insert_rows str_eq (of_table_owner id s) (λ p. p.table_name) (table_row id s by) names
        m.table_permissions;
}

abbrev pub revoke_tables : ℕ → Subject → List Str → AppMeta → AppMeta
revoke_tables id s names m = record m {
  table_permissions =
      delete_rows str_eq (of_table_owner id s) (λ p. p.table_name) names m.table_permissions;
}

abbrev pub grant_tools : Str → Subject → List Str → AppMeta → AppMeta
grant_tools by s names m = record m {
  tool_permissions =
      insert_rows str_eq (of_tool_owner s) (λ p. p.tool_name) (tool_row s by) names
        m.tool_permissions;
}

abbrev pub revoke_tools : Subject → List Str → AppMeta → AppMeta
revoke_tools s names m = record m {
  tool_permissions =
      delete_rows str_eq (of_tool_owner s) (λ p. p.tool_name) names m.tool_permissions;
}

abbrev pub remember : ℕ → Subject → AppMeta → AppMeta
remember now s m = record m { known_subjects = remember_subject now s m.known_subjects }

module _ (db : Database) where
  -- Ordered by the name of the table or tool.
  abbrev pub by_grant_name : Grant → Grant → Bool
  by_grant_name a b = db.collates a.name b.name

  unfoldable pub table_grants : ℕ → Subject → AppMeta → List Grant
  unfolding order_by same_subject
  table_grants id s m = order_by by_grant_name (
      map (λ p. record { subject = p.subject; name = p.table_name })
        (keep_if (of_table_owner id s) m.table_permissions))

  unfoldable pub tool_grants : Subject → AppMeta → List Grant
  unfolding order_by same_subject
  tool_grants s m = order_by by_grant_name (
      map (λ p. record { subject = p.subject; name = p.tool_name })
        (keep_if (of_tool_owner s) m.tool_permissions))

  unfoldable pub load_record : ℕ → Exec World ConnectionRecord
  unfolding query find_connection present_or
  load_record id = do
    row ← query db (λ m. find_connection id m.connections)
    found ← present_or 404 no_connection row
    pure found.record_of

  -- The statements of the one transaction of `change_table_access`, where no row fails a check.
  unfoldable pub write_tables : TableChanges → User → Str → ℕ → Exec AppMeta (List Grant)
  unfolding remember_subject insert_rows delete_rows log_change names_granted names_revoked
      table_grants subject_text alter select texts same_subject
  write_tables body admin name now = do
    alter (remember now body.subject)
    alter (grant_tables admin.sub body.connection_id body.subject (names_granted body.changes))
    alter (revoke_tables body.connection_id body.subject (names_revoked body.changes))
    log_change now admin (codes "permission.tables") (codes "connection") (some name) (
        Members.member (codes "subject") (Json.str (subject_text body.subject))
          (change_details (names_granted body.changes) (names_revoked body.changes)))
    select (table_grants body.connection_id body.subject)

  unfoldable pub table_changes : TableChanges → User → Str → ℕ → Exec AppMeta (List Grant)
  unfolding write_tables keep_checks names_granted
  table_changes body admin name now = do
    keep_checks body.subject (names_granted body.changes)
    write_tables body admin name now

  unfoldable pub write_tools : ToolChanges → User → ℕ → Exec AppMeta (List Grant)
  unfolding remember_subject insert_rows delete_rows log_change names_granted names_revoked
      tool_grants alter select texts same_subject
  write_tools body admin now = do
    alter (remember now body.subject)
    alter (grant_tools admin.sub body.subject (names_granted body.changes))
    alter (revoke_tools body.subject (names_revoked body.changes))
    log_change now admin (codes "permission.tools") (type_text body.subject.0) (some body.subject.1)
        (change_details (names_granted body.changes) (names_revoked body.changes))
    select (tool_grants body.subject)

  unfoldable pub tool_changes : ToolChanges → User → ℕ → Exec AppMeta (List Grant)
  unfolding write_tools keep_checks names_granted
  tool_changes body admin now = do
    keep_checks body.subject (names_granted body.changes)
    write_tools body admin now

  module _ (cache : Cache) where
    unfoldable pub change_table_access : TableChanges → User → Exec World (List Grant)
    unfolding load_record transaction table_changes announce
    change_table_access body admin = do
      found ← load_record body.connection_id
      now_granted ← transaction db (table_changes body admin found.name)
      announce cache true false
      pure now_granted

    unfoldable pub unknown_tools : List Change → List Str
    unfolding sorted_set
    unknown_tools changes =
        sorted_set (keep_if (λ tool. not (str_in tool all_tool_names)) (map (λ c. c.name) changes))

    unfoldable pub change_tool_access : ToolChanges → User → Exec World (List Grant)
    unfolding transaction tool_changes announce unknown_tools refuse_if
    change_tool_access body admin = do
      refuse_if (is_some_item (unknown_tools body.changes)) 422
          (codes "Unknown tool: " ++ (join (codes ", ") (unknown_tools body.changes) ++ codes "."))
      now_granted ← transaction db (tool_changes body admin)
      announce cache true false
      pure now_granted
