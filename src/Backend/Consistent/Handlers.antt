-- ===== src/Backend/Consistent/Handlers.antt =====
-- The handlers of grants, on tables that are consistent.
use mcp_server_for_sql_agent.Backend.Access.Replaced.{fetch_connection-Keeps}
use mcp_server_for_sql_agent.Exec.{Exec, pure, ◌>>=◌}
use mcp_server_for_sql_agent.Backend.Requests.{Surroundings}
use mcp_server_for_sql_agent.Backend.Consistent.Requests.{
  keeping-Stays, Aside, Stays, known-Stays, bind-Stays, Keeps-Stays, commit-Stays, commits-Stays,
  pure-Stays, announce-Stays, load_record-Registered, fetch_connection-Registered,
}
use mcp_server_for_sql_agent.Backend.Consistent.{IsConsistent, Registered}
use mcp_server_for_sql_agent.Backend.Subjects
use mcp_server_for_sql_agent.Backend.Access
use mcp_server_for_sql_agent.Prelude.{some, none, Option, List, false, true, Bool, ℕ}
use mcp_server_for_sql_agent.Postgres.{query, Database}
use mcp_server_for_sql_agent.Backend.Grants.{
  table_changes, tool_changes, load_record, TableChanges, ToolChanges, change_table_access,
  change_tool_access,
}
use mcp_server_for_sql_agent.World.{AppMeta, World}
use mcp_server_for_sql_agent.Backend.Access.{replace_access, NamedSubject}
use mcp_server_for_sql_agent.Backend.{log_change, select, alter, User, announce}
use mcp_server_for_sql_agent.Backend.Connections.{fetch_connection}
use mcp_server_for_sql_agent.Backend.Laws.{transaction-Holds, query-eq, refuse_if-Keeps}
use mcp_server_for_sql_agent.Backend.Consistent.{Registered}
use mcp_server_for_sql_agent.Backend.Consistent.Bodies.{
  table_changes-IsConsistent, replace_access-IsConsistent, tool_changes-IsConsistent,
}
use mcp_server_for_sql_agent.Prelude.Strs.{Str}
use mcp_server_for_sql_agent.Models.{Subject}
use mcp_server_for_sql_agent.Backend.Grants.Handlers.{load_record-Keeps}

module _ {Tree : Type 0} (s : Surroundings Tree) (aside : Aside s) where
  abbrev db : Database
  db = s.database

  pub announced-Stays :
      (meta schema : Bool) {A : Type 0} (rest : Exec World A)
      → Stays s aside rest
      → Stays s aside (announce s.cache meta schema >>= (λ done. rest))
  announced-Stays meta schema rest h =
      bind-Stays s aside (announce s.cache meta schema) _ (announce-Stays s aside meta schema)
        (λ d. h)

  pub change_table_access-Stays :
      (body : TableChanges) (admin : User)
      → Stays s aside (change_table_access db s.cache body admin)
  unfolding change_table_access
  change_table_access-Stays body admin =
      known-Stays s aside (load_record db body.connection_id) _
        (λ found m. Registered body.connection_id m.connections)
        (load_record-Keeps db body.connection_id)
        (λ w found e. load_record-Registered s aside body.connection_id w found e)
        (λ found w known c.
          commit-Stays s aside (table_changes db body admin found.name) _ w
            (table_changes-IsConsistent s.unicode s.sqlglot db body admin found.name (db.now w)
              w.app_meta known c)
            (λ gs. announced-Stays true false (pure gs) (pure-Stays s aside gs)) c)

  pub change_tool_access-Stays :
      (body : ToolChanges) (admin : User) → Stays s aside (change_tool_access db s.cache body admin)
  unfolding change_tool_access
  change_tool_access-Stays body admin = keeping-Stays s aside _ _ (refuse_if-Keeps _ 422 _) (λ x.
      commits-Stays s aside (tool_changes db body admin) _
        (λ now m c. tool_changes-IsConsistent s.unicode s.sqlglot db body admin now m c)
        (λ gs. announced-Stays true false (pure gs) (pure-Stays s aside gs)))

  pub set_access-Stays :
      (id : ℕ) (subjects : List NamedSubject) (admin : User)
      → Stays s aside (Access.set_access db s.cache id subjects admin)
  unfolding Access.set_access Access.get_access
  set_access-Stays id subjects admin =
      known-Stays s aside (fetch_connection db id) _ (λ current m. Registered id m.connections)
        (fetch_connection-Keeps db id)
        (λ w current e. fetch_connection-Registered s aside id w current e)
        (λ current w known c.
          commit-Stays s aside (replace_access db id current.name (Access.wanted_of subjects) admin)
            _ w
            (replace_access-IsConsistent s.unicode s.sqlglot db id current.name
              (Access.wanted_of subjects) admin (db.now w) w.app_meta known c)
            (λ x. announced-Stays true false (Access.get_access db id) (
              keeping-Stays s aside (fetch_connection db id)
                (λ current. query db (Access.access_list db id)) (fetch_connection-Keeps db id)
                (λ current.
                  Keeps-Stays s aside (query db (Access.access_list db id))
                    (query-eq db (Access.access_list db id)))))
            c)

  new_subject-IsConsistent :
      (subject : Subject) (name : Option Str) (admin : User) (now : ℕ) (m : AppMeta)
      → IsConsistent s.unicode s.sqlglot m
      → IsConsistent s.unicode s.sqlglot (Subjects.new_subject db subject name admin now m).1
  unfolding Subjects.new_subject alter log_change select ◌>>=◌
  new_subject-IsConsistent subject name admin now m c =
      go (Subjects.find_subject subject _) _ (record {
        access = c.access;
        tables = c.tables;
        descriptions = c.descriptions;
        reports = c.reports;
      })
    where
      go :
          (o : Option Subjects.SubjectOut) (n : AppMeta)
          → IsConsistent s.unicode s.sqlglot n
          → IsConsistent s.unicode s.sqlglot (Subjects.found_or_raise o n).1
      go none n x = x
      go (some a) n x = x

  pub add_subject-Stays :
      (subject : Subject) (name : Option Str) (admin : User)
      → Stays s aside (Subjects.add_subject db subject name admin)
  unfolding Subjects.add_subject
  add_subject-Stays subject name admin w c =
      transaction-Holds db (IsConsistent s.unicode s.sqlglot)
        (Subjects.new_subject db subject name admin) w c
        (new_subject-IsConsistent subject name admin (db.now w) w.app_meta c)
