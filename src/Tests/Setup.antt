-- ===== src/Tests/Setup.antt =====
-- A small installation: one connection, one table, two callers, and a parser that knows two texts.
use mcp_server_for_sql_agent.Values.{Json, DbValue}
use mcp_server_for_sql_agent.Errors.{ok-eq, ok}
use mcp_server_for_sql_agent.Exec.{Exec}
use mcp_server_for_sql_agent.Models.{
  Relationship, TableInfo, TableDescription, Caller, Subject, role, ConnectionRecord, RawResult,
  TableKind,
}
use mcp_server_for_sql_agent.World.{
  ConnectionRow, ToolRow, World, AppMeta, DbCall, ran, planned, sampled,
}
use mcp_server_for_sql_agent.Store.{
  DbAdapter, AdapterProvider, AdapterLaws, ProviderLaws, MetaStore,
}
use mcp_server_for_sql_agent.Postgres.{Database, postgres}
use mcp_server_for_sql_agent.Query.Limits.{QueryLimits}
use mcp_server_for_sql_agent.Validator.Sqlglot.{TableNode, table, scope, Sqlglot}
use mcp_server_for_sql_agent.Prelude.{
  ◌++◌, ◌∷◌, [], some, none, false, true, subst, ap, refl, ◌*◌, ℕ,
}
use mcp_server_for_sql_agent.Prelude.Strs.{starts_with, codes, Str}
use mcp_server_for_sql_agent.Prelude.Sorting.{str_leb}

abbrev pub orders : TableNode
orders = record { catalog = []; db = codes "Public"; name = codes "orders"; has_identifier = true }

-- A tree is the text itself; a text that starts with `SELECT` is a query on `orders`.
abbrev pub parser : Sqlglot Str
parser = record {
  parse = λ s d. some (some s ∷ []);
  is_query = λ t. starts_with (codes "SELECT") t;
  has_node_type = λ n. true;
  find = λ t names. false;
  traverse_scope = λ t. some ((table orders ∷ scope ∷ []) ∷ []);
}

abbrev pub limits : QueryLimits
limits = record {
  timeout_ms = 30000;
  default_rows = 100;
  max_rows = 1000;
  max_sample_rows = 20;
  max_sql_length = 10000;
  max_cell_chars = 2000;
}

abbrev pub shop : ConnectionRecord
shop = record {
  id = 7;
  name = codes "shop";
  engine = codes "postgresql";
  description = codes "the shop";
  details = Json.null;
  secret_encrypted = none;
  updated_at = 1;
}

abbrev pub alice : Caller
alice = record { sub = codes "alice"; name = none; roles = codes "analyst" ∷ [] }

abbrev pub analyst : Subject
analyst = (role, codes "analyst")

abbrev pub shop_row : ConnectionRow
shop_row = record {
  record_of = shop;
  is_active = true;
  created_by = none;
  created_at = 1;
  last_checked_at = none;
  last_check_ok = none;
  last_check_error = none;
}

abbrev granted : Str → ToolRow
granted tool = record { subject = analyst; tool_name = tool; granted_by = none }

abbrev pub tables : AppMeta
tables = record {
  connections = shop_row ∷ [];
  connection_access = record { connection_id = 7; subject = analyst; granted_by = none } ∷ [];
  table_permissions =
      record {
        connection_id = 7;
        subject = analyst;
        table_name = codes "Orders";
        granted_by = none;
      }
      ∷ [];
  tool_permissions =
      granted (codes "run_query")
      ∷ granted (codes "explain_query")
      ∷ granted (codes "get_sample_rows")
      ∷ granted (codes "list_tables")
      ∷ granted (codes "describe_table")
      ∷ granted (codes "get_relationships")
      ∷ [];
  schema_descriptions = [];
  audit_log = [];
  known_subjects = [];
  admin_log = [];
  saved_reports = [];
}

abbrev pub world : World
world = record { app_meta = tables; db_calls = []; readings = 0; redis = []; cache_down_until = 0 }

abbrev pub database : Database
database = record {
  lower = λ s. s;
  by_name = λ rs. rs;
  ranked = λ k p ds. [];
  outage = λ w. none;
  now = λ w. 50;
  new_id = λ m. 70;
  collates = str_leb;
  same_jsonb = λ a b. true;
}

abbrev pub store : MetaStore
store = postgres database

abbrev pub one_row : RawResult
one_row = record {
  columns = codes "a" ∷ [];
  rows = (DbValue.str (codes "hello") ∷ []) ∷ [];
  truncated = false;
}

abbrev pub asked : {A : Type 0} → DbCall → A → Exec World A
asked d a w = (ok a, record w { db_calls = w.db_calls ++ d ∷ [] })

abbrev pub a_table : Str → TableInfo
a_table name = record { name = name; kind = TableKind.table; comment = none }

abbrev pub key_to : Str → Str → Relationship
key_to a b = record {
  from_table = a;
  columns = codes "id" ∷ [];
  to_table = b;
  to_columns = codes "id" ∷ [];
}

-- Every table has a key to `orders` and one to `pay`.
abbrev pub shape : Str → TableDescription
shape name = record {
  name = name;
  kind = TableKind.table;
  comment = none;
  columns = [];
  foreign_keys = key_to name (codes "orders") ∷ key_to name (codes "pay") ∷ [];
}

abbrev pub adapter : DbAdapter
adapter = record {
  dialect_name = codes "postgresql";
  default_schema = some (codes "public");
  list_tables = λ w. (ok (a_table (codes "orders") ∷ a_table (codes "pay") ∷ []), w);
  describe_table = λ name w. (ok (shape name), w);
  execute = λ sql n t. asked (ran sql n) one_row;
  explain = λ sql t.
      asked (planned sql)
        (record { plan = codes "Seq Scan"; estimated_cost = none; estimated_rows = some 1 });
  sample_rows = λ name n t. asked (sampled name n) one_row;
}

abbrev pub adapters : AdapterProvider
adapters = record { adapter_for = λ r w. (ok adapter, w) }

abbrev pub clock : ℕ → ℕ
clock n = 10 * n

adapter-AdapterLaws : AdapterLaws adapter
adapter-AdapterLaws = record {
  execute = λ sql n t. record { calls = λ w. refl; meta = λ w. refl };
  explain = λ sql t. record { calls = λ w. refl; meta = λ w. refl };
  sample_rows = λ name n t. record { calls = λ w. refl; meta = λ w. refl };
}

pub adapters-ProviderLaws : ProviderLaws adapters
adapters-ProviderLaws = record {
  quiet = λ r. record { calls = λ w. refl; meta = λ w. refl };
  lawful = λ r a w w' h. subst AdapterLaws (ok-eq (ap (λ q. q.0) h)) adapter-AdapterLaws;
}
