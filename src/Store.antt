-- ===== src/Store.antt =====
-- The interfaces that the services use: `MetaStore` of services/meta_store.py, `DBAdapter` of
-- adapters/base.py and `AdapterProvider` of services/connection_registry.py.
use mcp_server_for_sql_agent.Exec.{Exec}
use mcp_server_for_sql_agent.Models.{
  Subject, ConnectionRecord, AuditEntry, RawResult, ExplainResult, TableInfo, TableDescription,
  SchemaSearchHit,
}
use mcp_server_for_sql_agent.World.{World, DbCall, ran, planned, sampled}
use mcp_server_for_sql_agent.Prelude.Strs.{Str}
use mcp_server_for_sql_agent.Prelude.{◌++◌, ◌∷◌, [], List, Option, ◌≡◌, ℕ}
use mcp_server_for_sql_agent.Errors.{ok}

-- A curated description, by table and column.
pub record Described : Type 0 where
  pub table : Str
  pub column : Option Str
  pub text : Str

pub record MetaStore : Type 0 where
  pub list_connections : List Subject → Exec World (List ConnectionRecord)
  pub get_connection : Str → List Subject → Exec World (Option ConnectionRecord)
  pub allowed_tables : ℕ → List Subject → Exec World (List Str)
  pub allowed_tools : List Subject → Exec World (List Str)
  pub descriptions : ℕ → Exec World (List Described)
  pub search_descriptions : ℕ → Str → List Str → ℕ → Exec World (List SchemaSearchHit)
  pub write_audit : AuditEntry → Exec World (Unit {0})

-- A time limit is a number of milliseconds.
pub record DbAdapter : Type 0 where
  pub dialect_name : Str
  pub default_schema : Option Str
  pub list_tables : Exec World (List TableInfo)
  pub describe_table : Str → Exec World TableDescription
  pub execute : Str → ℕ → ℕ → Exec World RawResult
  pub explain : Str → ℕ → Exec World ExplainResult
  pub sample_rows : Str → ℕ → ℕ → Exec World RawResult

pub record AdapterProvider : Type 0 where
  pub adapter_for : ConnectionRecord → Exec World DbAdapter

-- The action asks nothing of a target database and leaves app_meta alone.
pub record IsQuiet {A : Type 0} (m : Exec World A) : Type 0 where
  pub calls : (w : World) → (m w).1.db_calls ≡ w.db_calls
  pub meta : (w : World) → (m w).1.app_meta ≡ w.app_meta

-- The action asks `c` of a target database, once, and leaves app_meta alone.
pub record Asks {A : Type 0} (c : DbCall) (m : Exec World A) : Type 0 where
  pub calls : (w : World) → (m w).1.db_calls ≡ w.db_calls ++ c ∷ []
  pub meta : (w : World) → (m w).1.app_meta ≡ w.app_meta

-- The lookups of a store ask no target database and leave app_meta alone.
pub record StoreLaws (store : MetaStore) : Type 0 where
  pub list_connections : (s : List Subject) → IsQuiet (store.list_connections s)
  pub get_connection : (n : Str) (s : List Subject) → IsQuiet (store.get_connection n s)
  pub allowed_tables : (id : ℕ) (s : List Subject) → IsQuiet (store.allowed_tables id s)
  pub allowed_tools : (s : List Subject) → IsQuiet (store.allowed_tools s)
  pub write_audit : (e : AuditEntry) (w : World) → (store.write_audit e w).1.db_calls ≡ w.db_calls

-- An adapter's methods reach its database as their names say.
pub record AdapterLaws (a : DbAdapter) : Type 0 where
  pub execute : (sql : Str) (n t : ℕ) → Asks (ran sql n) (a.execute sql n t)
  pub explain : (sql : Str) (t : ℕ) → Asks (planned sql) (a.explain sql t)
  pub sample_rows : (name : Str) (n t : ℕ) → Asks (sampled name n) (a.sample_rows name n t)

-- Opening a connection asks nothing, and what it gives is a lawful adapter.
pub record ProviderLaws (p : AdapterProvider) : Type 0 where
  pub quiet : (r : ConnectionRecord) → IsQuiet (p.adapter_for r)
  pub lawful :
      (r : ConnectionRecord) (a : DbAdapter) (w w' : World)
      → p.adapter_for r w ≡ (ok a, w')
      → AdapterLaws a
