-- ===== src/World.antt =====
-- The state outside the services: the tables of app_meta, what has reached the target databases,
-- and the clock.
use mcp_server_for_sql_agent.Values.{Json, Members}
use mcp_server_for_sql_agent.Models.{ConnectionRecord, AuditEntry, Subject}
use mcp_server_for_sql_agent.Prelude.Strs.{Str}
use mcp_server_for_sql_agent.Prelude.{List, Option, Bool, ℕ}

-- The rows of app_meta, by table. A time stamp is a number.
pub record ConnectionRow : Type 0 where
  pub record_of : ConnectionRecord
  pub is_active : Bool
  pub created_by : Option Str
  pub created_at : ℕ
  pub last_checked_at : Option ℕ
  pub last_check_ok : Option Bool
  pub last_check_error : Option Str

pub record AccessRow : Type 0 where
  pub connection_id : ℕ
  pub subject : Subject
  pub granted_by : Option Str

pub record TableRow : Type 0 where
  pub connection_id : ℕ
  pub subject : Subject
  pub table_name : Str
  pub granted_by : Option Str

pub record ToolRow : Type 0 where
  pub subject : Subject
  pub tool_name : Str
  pub granted_by : Option Str

pub record DescriptionRow : Type 0 where
  pub connection_id : ℕ
  pub table_name : Str
  pub column_name : Option Str
  pub description : Str
  pub updated_by : Option Str
  pub updated_at : ℕ

pub record KnownSubject : Type 0 where
  pub subject : Subject
  pub display_name : Option Str
  pub last_seen_at : ℕ

-- What an administrator did, and when.
pub record AdminEntry : Type 0 where
  pub occurred_at : ℕ
  pub actor_sub : Str
  pub actor_name : Option Str
  pub action : Str
  pub target_type : Str
  pub target : Option Str
  pub details : Members

pub record ReportRow : Type 0 where
  pub id : ℕ
  pub name : Str
  pub description : Str
  pub connection_id : ℕ
  pub sql : Str
  pub chart_config : Json
  pub owner_sub : Str
  pub created_at : ℕ
  pub updated_at : ℕ

pub record AppMeta : Type 0 where
  pub connections : List ConnectionRow
  pub connection_access : List AccessRow
  pub table_permissions : List TableRow
  pub tool_permissions : List ToolRow
  pub schema_descriptions : List DescriptionRow
  pub audit_log : List AuditEntry
  pub known_subjects : List KnownSubject
  pub admin_log : List AdminEntry
  pub saved_reports : List ReportRow

-- What a target database is asked: to run a statement with a row limit, to plan one, or for a sample
-- of a table of that many rows. Which database it is, is not recorded.
pub data DbCall : Type 0 where
  ran : Str → ℕ → DbCall
  planned : Str → DbCall
  sampled : Str → ℕ → DbCall

-- `readings` counts how often the clock was read; `redis` holds the keys and values of Redis, and
-- `cache_down_until` is `_down_until` of the process's `RedisCache`.
pub record World : Type 0 where
  pub app_meta : AppMeta
  pub db_calls : List DbCall
  pub readings : ℕ
  pub redis : List (Str × Str)
  pub cache_down_until : ℕ
