-- ===== src/Backend/Requests.antt =====
-- The requests of administrators that change something, and the handler that each is given to.
use mcp_server_for_sql_agent.Exec.{Exec, pure, ◌>>=◌}
use mcp_server_for_sql_agent.Backend.Subjects
use mcp_server_for_sql_agent.Backend.Connections
use mcp_server_for_sql_agent.Backend.Access
use mcp_server_for_sql_agent.Backend.Reports
use mcp_server_for_sql_agent.Backend.Descriptions
use mcp_server_for_sql_agent.Prelude.Strs.{Str}
use mcp_server_for_sql_agent.Prelude.{◌∷◌, [], List, Option, Bool, ℕ}
use mcp_server_for_sql_agent.Backend.{User}
use mcp_server_for_sql_agent.Unicode.{Unicode}
use mcp_server_for_sql_agent.World.{World}
use mcp_server_for_sql_agent.Models.{Subject}
use mcp_server_for_sql_agent.Backend.Grants.{
  change_tool_access, ToolChanges, change_table_access, TableChanges,
}
use mcp_server_for_sql_agent.Validator.Sqlglot.{Sqlglot}
use mcp_server_for_sql_agent.Values.{Json}
use mcp_server_for_sql_agent.Postgres.{Database}
use mcp_server_for_sql_agent.Backend.Probe.{test_saved_connection}
use mcp_server_for_sql_agent.Backend.Connections.{ConnectionUpdate, ConnectionIn}
use mcp_server_for_sql_agent.Cache.{Cache}
use mcp_server_for_sql_agent.Backend.Access.{NamedSubject}
use mcp_server_for_sql_agent.Store.{AdapterProvider}
use mcp_server_for_sql_agent.Backend.Check.{CheckResult}
use mcp_server_for_sql_agent.Backend.Reports.{ReportIn}
use mcp_server_for_sql_agent.Backend.Descriptions.{DescriptionIn}

pub data Request : Type 0 where
  add_subject : Subject → Option Str → Request
  change_tables : TableChanges → Request
  change_tools : ToolChanges → Request
  create_connection : ConnectionIn → Request
  update_connection : ℕ → ConnectionUpdate → Request
  delete_connection : ℕ → Request
  test_connection : ℕ → Request
  set_access : ℕ → List NamedSubject → Request
  create_report : ReportIn → Request
  update_report : ℕ → ReportIn → Request
  delete_report : ℕ → Request
  set_description : DescriptionIn → Request
  delete_descriptions : ℕ → Str → Request

-- What the handlers take from elsewhere: Python's conversions and comparisons, the secret box, the
-- parser, the database and the drivers.
pub record Surroundings (Tree : Type 0) : Type 0 where
  pub unicode : Unicode
  pub sqlglot : Sqlglot Tree
  pub as_text : Json → Str
  pub encrypt : Str → Str
  pub decrypt : Str → Option Str
  pub dict_eq : Json → Json → Bool
  pub ilike : Str → Str → Bool
  pub uuid_text : ℕ → Str
  pub database : Database
  pub cache : Cache
  pub registry : AdapterProvider
  pub check : Str → Json → Option Str → Exec World CheckResult

-- The answer is dropped.
abbrev pub only_effect : {A : Type 0} → Exec World A → Exec World (Unit {0})
only_effect m = m >>= λ answer. pure tt

module _ {Tree : Type 0} (s : Surroundings Tree) where
  unfoldable pub handle : Request → User → Exec World (Unit {0})
  handle (Request.add_subject subject name) admin =
      only_effect (Subjects.add_subject s.database subject name admin)
  handle (Request.change_tables body) admin =
      only_effect (change_table_access s.database s.cache body admin)
  handle (Request.change_tools body) admin =
      only_effect (change_tool_access s.database s.cache body admin)
  handle (Request.create_connection body) admin = only_effect (
      Connections.create_connection s.unicode s.as_text s.encrypt s.dict_eq s.database s.cache body
        admin)
  handle (Request.update_connection id body) admin = only_effect (
      Connections.update_connection s.unicode s.as_text s.encrypt s.dict_eq s.database s.cache id
        body admin)
  handle (Request.delete_connection id) admin =
      Connections.delete_connection s.unicode s.as_text s.encrypt s.dict_eq s.database s.cache id
        admin
  handle (Request.test_connection id) admin =
      only_effect (test_saved_connection s.unicode s.as_text s.decrypt s.database s.check id)
  handle (Request.set_access id subjects) admin =
      only_effect (Access.set_access s.database s.cache id subjects admin)
  handle (Request.create_report body) admin = only_effect (
      Reports.create_report s.unicode s.sqlglot s.ilike s.uuid_text s.dict_eq s.database body admin)
  handle (Request.update_report id body) admin = only_effect (
      Reports.update_report s.unicode s.sqlglot s.ilike s.uuid_text s.dict_eq s.database id body
        admin)
  handle (Request.delete_report id) admin =
      Reports.delete_report s.unicode s.sqlglot s.ilike s.uuid_text s.dict_eq s.database id admin
  handle (Request.set_description body) admin =
      only_effect (Descriptions.set_description s.unicode s.database s.registry s.cache body admin)
  handle (Request.delete_descriptions id table) admin =
      Descriptions.delete_descriptions s.unicode s.database s.registry s.cache id table admin

  -- Requests one after the other, each with its administrator.
  unfoldable pub handle_all : List (Request × User) → World → World
  unfolding handle
  handle_all [] w = w
  handle_all ((request, admin) ∷ rest) w = handle_all rest (handle request admin w).1
