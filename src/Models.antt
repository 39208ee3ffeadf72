-- ===== src/Models.antt =====
-- models.py: the shapes that the layers share.
use mcp_server_for_sql_agent.Prelude.Sorting.{sorted_set}
use mcp_server_for_sql_agent.Values.{DbValue, Json, Members, Float}
use mcp_server_for_sql_agent.Sanitizer.{SecurityFlag}
use mcp_server_for_sql_agent.Prelude.Strs.{Str}
use mcp_server_for_sql_agent.Prelude.{map, ◌∷◌, List, Option, Bool, ℕ}

pub data SubjectType : Type 0 where
  user role : SubjectType

-- What a permission is granted to.
abbrev pub Subject : Type 0
Subject = SubjectType × Str

-- `roles` is a set: it is read by membership and in sorted order.
pub record Caller : Type 0 where
  pub sub : Str
  pub name : Option Str
  pub roles : List Str

unfoldable pub subjects : Caller → List Subject
subjects c = (user, c.sub) ∷ map (λ r. (role, r)) (sorted_set c.roles)

pub data TableKind : Type 0 where
  table view : TableKind

pub record TableInfo : Type 0 where
  pub name : Str
  pub kind : TableKind
  pub comment : Option Str

pub record ColumnInfo : Type 0 where
  pub name : Str
  pub type_name : Str
  pub nullable : Bool
  pub primary_key : Bool
  pub comment : Option Str

-- A foreign key.
pub record Relationship : Type 0 where
  pub from_table : Str
  pub columns : List Str
  pub to_table : Str
  pub to_columns : List Str

pub record TableDescription : Type 0 where
  pub name : Str
  pub kind : TableKind
  pub comment : Option Str
  pub columns : List ColumnInfo
  pub foreign_keys : List Relationship

pub record RawResult : Type 0 where
  pub columns : List Str
  pub rows : List (List DbValue)
  pub truncated : Bool

pub record ExplainResult : Type 0 where
  pub plan : Str
  pub estimated_cost : Option Float
  pub estimated_rows : Option ℕ

-- A row of app_meta.connections. An id stands for a UUID, `updated_at` for a time stamp, and
-- `details` for the JSON of the column.
pub record ConnectionRecord : Type 0 where
  pub id : ℕ
  pub name : Str
  pub engine : Str
  pub description : Str
  pub details : Json
  pub secret_encrypted : Option Str
  pub updated_at : ℕ

pub record QueryResult : Type 0 where
  pub columns : List Str
  pub rows : List (List Json)
  pub row_count : ℕ
  pub truncated : Bool
  pub elapsed_ms : ℕ
  pub security_flags : List SecurityFlag

pub record PlanResult : Type 0 where
  pub plan : Str
  pub estimated_cost : Option Float
  pub estimated_rows : Option ℕ

pub record AuditEntry : Type 0 where
  pub caller_sub : Str
  pub caller_name : Option Str
  pub tool_name : Str
  pub connection_name : Option Str
  pub arguments : Members
  pub duration_ms : ℕ
  pub success : Bool
  pub tables : List Str
  pub row_count : Option ℕ
  pub result_summary : Option Str
  pub error_message : Option Str
  pub caller_roles : List Str

pub record SchemaSearchHit : Type 0 where
  pub table : Str
  pub column : Option Str
  pub description : Str
  pub score : Float

pub record ConnectionInfo : Type 0 where
  pub name : Str
  pub engine : Str
  pub description : Str

pub record TableSummary : Type 0 where
  pub name : Str
  pub kind : TableKind
  pub description : Str

pub record ColumnDetail : Type 0 where
  pub name : Str
  pub type_name : Str
  pub nullable : Bool
  pub primary_key : Bool
  pub description : Str

pub record ForeignKeyDetail : Type 0 where
  pub from_table : Str
  pub columns : List Str
  pub to_table : Str
  pub to_columns : List Str

pub record TableDetail : Type 0 where
  pub name : Str
  pub kind : TableKind
  pub description : Str
  pub columns : List ColumnDetail
  pub foreign_keys : List ForeignKeyDetail
  pub security_flags : List SecurityFlag

pub record TableRelationships : Type 0 where
  pub table : Str
  pub references : List ForeignKeyDetail
  pub referenced_by : List ForeignKeyDetail
