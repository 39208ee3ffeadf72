-- ===== src/Postgres.antt =====
-- `PostgresMetaStore` of services/meta_store.py: its statements as functions on the tables of
-- app_meta.
pub mod Laws
use mcp_server_for_sql_agent.Errors.{Result, ok, raised, Exn}
use mcp_server_for_sql_agent.Exec.{Exec}
use mcp_server_for_sql_agent.Models.{
  Subject, SubjectType, user, role, ConnectionRecord, AuditEntry, SchemaSearchHit,
}
use mcp_server_for_sql_agent.World.{
  World, AppMeta, ConnectionRow, AccessRow, TableRow, ToolRow, DescriptionRow, KnownSubject,
}
use mcp_server_for_sql_agent.Store.{MetaStore, Described}
use mcp_server_for_sql_agent.Prelude.{
  map, ◌++◌, ◌∷◌, [], List, some, none, Option, ◌||◌, ◌&&◌, false, true, Bool, keep_if, any_of,
  take, if◌then◌else◌, ◌==◌, ℕ,
}
use mcp_server_for_sql_agent.Prelude.Strs.{truthy, starts_with, str_in, str_eq, codes, Str}
use mcp_server_for_sql_agent.Values.{Json}

-- What the database does by itself: `lower`, `ORDER BY c.name`, the full-text search over rows
-- for a keyword and a LIKE pattern, the exception, if any, with which a statement fails, the time of
-- the transaction, `gen_random_uuid()`, `a <= b` in the order of its collation, and `=` on `jsonb`.
pub record Database : Type 0 where
  pub lower : Str → Str
  pub by_name : List ConnectionRecord → List ConnectionRecord
  pub ranked : Str → Str → List DescriptionRow → List SchemaSearchHit
  pub outage : World → Option Exn
  pub now : World → ℕ
  pub new_id : AppMeta → ℕ
  pub collates : Str → Str → Bool
  pub same_jsonb : Json → Json → Bool

unfoldable pub same_type : SubjectType → SubjectType → Bool
same_type user user = true
same_type role role = true
same_type _ _ = false

unfoldable pub same_subject : Subject → Subject → Bool
unfolding same_type
same_subject s s' = same_type s.0 s'.0 && str_eq s.1 s'.1

-- `JOIN unnest(:types, :ids) ON ...`: the row's subject is one of the caller's.
unfoldable pub matches_a_subject : List Subject → Subject → Bool
unfolding same_subject
matches_a_subject subjects s = any_of (same_subject s) subjects

unfoldable pub has_access : AppMeta → List Subject → ℕ → Bool
unfolding matches_a_subject
has_access m subjects id =
    any_of (λ a. a.connection_id == id && matches_a_subject subjects a.subject) m.connection_access

unfoldable pub is_listed : AppMeta → List Subject → ConnectionRow → Bool
unfolding has_access
is_listed m subjects c = c.is_active && has_access m subjects c.record_of.id

-- `result.mappings().first()`
unfoldable pub first_record : (ConnectionRow → Bool) → List ConnectionRow → Option ConnectionRecord
first_record p [] = none
first_record p (c ∷ cs) = let later = first_record p cs in if p c then some c.record_of else later

unfoldable pub tables_of : AppMeta → ℕ → List Subject → List Str
unfolding matches_a_subject
tables_of m id subjects =
    map (λ p. p.table_name)
      (keep_if (λ p. p.connection_id == id && matches_a_subject subjects p.subject)
        m.table_permissions)

unfoldable pub tools_of : AppMeta → List Subject → List Str
unfolding matches_a_subject
tools_of m subjects =
    map (λ p. p.tool_name) (keep_if (λ p. matches_a_subject subjects p.subject) m.tool_permissions)

-- `text.replace(c, "\\" + c)`
unfoldable pub escape_char : ℕ → Str → Str
escape_char c [] = []
escape_char c (d ∷ s) = let rest = escape_char c s in if d == c then b'\\' ∷ d ∷ rest else d ∷ rest

-- The LIKE pattern for a text that contains the keyword as it stands.
unfoldable pub like_pattern : Str → Str
unfolding escape_char
like_pattern keyword =
    b'%' ∷ (escape_char b'_' (escape_char b'%' (escape_char b'\\' keyword)) ++ b'%' ∷ [])

unfoldable pub is_builtin_role : Str → Bool
is_builtin_role r =
    str_in r (codes "offline_access" ∷ codes "uma_authorization" ∷ [])
    || starts_with (codes "default-roles-") r

-- `COALESCE(new, old)`
abbrev pub coalesce : Option Str → Option Str → Option Str
coalesce none old = old
coalesce (some name) old = some name

-- `INSERT ... ON CONFLICT (subject_type, subject_id) DO UPDATE SET last_seen_at = now(), display_name = ...`
unfoldable pub note_subject : ℕ → Subject → Option Str → List KnownSubject → List KnownSubject
unfolding same_subject
note_subject now s name [] = record { subject = s; display_name = name; last_seen_at = now } ∷ []
note_subject now s name (k ∷ ks) =
    let later = note_subject now s name ks in
    if same_subject s k.subject
    then record k { display_name = coalesce name k.display_name; last_seen_at = now } ∷ ks
    else k ∷ later

unfoldable pub note_roles : ℕ → List Str → List KnownSubject → List KnownSubject
unfolding note_subject is_builtin_role
note_roles now [] ks = ks
note_roles now (r ∷ rs) ks =
    note_roles now rs (if is_builtin_role r then ks else note_subject now (role, r) none ks)

unfoldable pub note_subjects : ℕ → AuditEntry → List KnownSubject → List KnownSubject
unfolding note_roles note_subject
note_subjects now e ks =
    note_roles now e.caller_roles (note_subject now (user, e.caller_sub) e.caller_name ks)

-- A statement that fails changes nothing.
abbrev pub unless_failed : {A : Type 0} → Option Exn → World → Result A × World → Result A × World
unless_failed none w answer = answer
unless_failed (some e) w answer = (raised e, w)

module _ (db : Database) where
  -- `async with engine.connect() as conn`: the statement answers, or the database fails.
  unfoldable pub query : {A : Type 0} → (AppMeta → A) → Exec World A
  query f w = unless_failed (db.outage w) w (ok (f w.app_meta), w)

  unfoldable pub postgres_list_connections : List Subject → Exec World (List ConnectionRecord)
  unfolding query is_listed
  postgres_list_connections subjects = query (λ m. db.by_name (
      map (λ c. record c.record_of { secret_encrypted = none })
        (keep_if (is_listed m subjects) m.connections)))

  unfoldable pub postgres_get_connection : Str → List Subject → Exec World (Option ConnectionRecord)
  unfolding query is_listed first_record
  postgres_get_connection name subjects = query (λ m.
      first_record (λ c. str_eq c.record_of.name name && is_listed m subjects c) m.connections)

  unfoldable pub postgres_allowed_tables : ℕ → List Subject → Exec World (List Str)
  unfolding query tables_of
  postgres_allowed_tables id subjects = query (λ m. tables_of m id subjects)

  unfoldable pub postgres_allowed_tools : List Subject → Exec World (List Str)
  unfolding query tools_of
  postgres_allowed_tools subjects = query (λ m. tools_of m subjects)

  unfoldable pub postgres_descriptions : ℕ → Exec World (List Described)
  unfolding query
  postgres_descriptions id = query (λ m.
      map
        (λ d. record {
          table = db.lower d.table_name;
          column = lowered d.column_name;
          text = d.description;
        })
        (keep_if (λ d. d.connection_id == id && truthy d.description) m.schema_descriptions))
    where
      lowered : Option Str → Option Str
      lowered none = none
      lowered (some s) = some (db.lower s)

  unfoldable pub postgres_search_descriptions :
      ℕ → Str → List Str → ℕ → Exec World (List SchemaSearchHit)
  unfolding query like_pattern
  postgres_search_descriptions id keyword tables limit = query (λ m. take limit (
      db.ranked keyword (like_pattern keyword) (
        keep_if (λ d. d.connection_id == id && str_in (db.lower d.table_name) tables)
          m.schema_descriptions)))

  -- One transaction: both writes, or neither.
  unfoldable pub postgres_write_audit : AuditEntry → Exec World (Unit {0})
  unfolding note_subjects
  postgres_write_audit entry w = unless_failed (db.outage w) w (
    ok tt,
    record w {
      app_meta = record w.app_meta {
        known_subjects = note_subjects (db.now w) entry w.app_meta.known_subjects;
        audit_log = w.app_meta.audit_log ++ entry ∷ [];
      };
    },
  )

  abbrev pub postgres : MetaStore
  postgres = record {
    list_connections = postgres_list_connections;
    get_connection = postgres_get_connection;
    allowed_tables = postgres_allowed_tables;
    allowed_tools = postgres_allowed_tools;
    descriptions = postgres_descriptions;
    search_descriptions = postgres_search_descriptions;
    write_audit = postgres_write_audit;
  }
