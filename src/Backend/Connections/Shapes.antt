-- ===== src/Backend/Connections/Shapes.antt =====
-- The rows, requests and answers of routers/connections.py, and its statements on the tables.
use mcp_server_for_sql_agent.Prelude.{
  ◌∷◌, [], List, some, none, Option, not, false, true, Bool, ℕ, keep_if, any_of, length,
  if◌then◌else◌, ◌==◌,
}
use mcp_server_for_sql_agent.Prelude.Strs.{str_eq, codes, Str}
use mcp_server_for_sql_agent.Values.{Members, Json}
use mcp_server_for_sql_agent.Errors.{http, raised, unexpected, Result, Exn}
use mcp_server_for_sql_agent.World.{ConnectionRow, AppMeta}
use mcp_server_for_sql_agent.Introspection.{is_present}

pub record ConnectionIn : Type 0 where
  pub name : Str
  pub engine : Str
  pub description : Str
  pub details : Members
  pub secret : Option Str
  pub is_active : Bool

pub record ConnectionUpdate : Type 0 where
  pub description : Str
  pub details : Members
  pub secret : Option Str
  pub clear_secret : Bool
  pub is_active : Bool

-- There is no field for the secret itself.
pub record ConnectionOut : Type 0 where
  pub id : ℕ
  pub name : Str
  pub engine : Str
  pub description : Str
  pub details : Json
  pub has_secret : Bool
  pub is_active : Bool
  pub created_at : ℕ
  pub updated_at : ℕ
  pub last_checked_at : Option ℕ
  pub last_check_ok : Option Bool
  pub last_check_error : Option Str
  pub access_count : ℕ

unfoldable pub connection_out : AppMeta → ConnectionRow → ConnectionOut
connection_out m c = record {
  id = c.record_of.id;
  name = c.record_of.name;
  engine = c.record_of.engine;
  description = c.record_of.description;
  details = c.record_of.details;
  has_secret = is_present c.record_of.secret_encrypted;
  is_active = c.is_active;
  created_at = c.created_at;
  updated_at = c.record_of.updated_at;
  last_checked_at = c.last_checked_at;
  last_check_ok = c.last_check_ok;
  last_check_error = c.last_check_error;
  access_count = length (keep_if (λ a. a.connection_id == c.record_of.id) m.connection_access);
}

abbrev pub out_of : AppMeta → Option ConnectionRow → Option ConnectionOut
out_of m none = none
out_of m (some c) = some (connection_out m c)

-- `UPDATE connections SET ... WHERE id = :id`
unfoldable pub update_connections :
    ℕ → (ConnectionRow → ConnectionRow) → List ConnectionRow → List ConnectionRow
update_connections id f [] = []
update_connections id f (c ∷ cs) =
    (if c.record_of.id == id then f c else c) ∷ update_connections id f cs

-- `DELETE FROM connections`, with `ON DELETE CASCADE` of the tables that refer to the connection.
unfoldable pub remove_connection : ℕ → AppMeta → AppMeta
remove_connection id m = record m {
  connections = keep_if (λ c. not (c.record_of.id == id)) m.connections;
  connection_access = keep_if (λ a. not (a.connection_id == id)) m.connection_access;
  table_permissions = keep_if (λ p. not (p.connection_id == id)) m.table_permissions;
  schema_descriptions = keep_if (λ d. not (d.connection_id == id)) m.schema_descriptions;
}

unfoldable pub reports_on : ℕ → AppMeta → ℕ
reports_on id m = length (keep_if (λ r. r.connection_id == id) m.saved_reports)

abbrev pub name_taken : Str → AppMeta → Bool
name_taken name m = any_of (λ c. str_eq name c.record_of.name) m.connections

abbrev pub integrity_error : Exn
integrity_error = unexpected (codes "IntegrityError")

-- `except IntegrityError: raise HTTPException(409, ...)`
abbrev pub on_conflict : {S A : Type 0} → Str → Result A × S → Result A × S
on_conflict detail (raised (unexpected name), s) = (
  if str_eq name (codes "IntegrityError")
      then raised (http 409 detail)
      else raised (unexpected name),
  s,
)
on_conflict detail p = p

-- What the statement does to `secret_encrypted`: it stays, takes a new value, or becomes NULL.
pub data SecretChange : Type 0 where
  keep clear : SecretChange
  replace : Str → SecretChange

abbrev pub apply_secret : SecretChange → Option Str → Option Str
apply_secret keep old = old
apply_secret clear old = none
apply_secret (replace s) old = some s

-- `changed.append("secret")` and `changed.append("secret (cleared)")`
abbrev pub secret_note : SecretChange → List Str
secret_note keep = []
secret_note clear = codes "secret (cleared)" ∷ []
secret_note (replace s) = codes "secret" ∷ []

abbrev pub same_bool : Bool → Bool → Bool
same_bool true b = b
same_bool false b = not b

abbrev pub same_option : Option Str → Option Str → Bool
same_option none none = true
same_option (some a) (some b) = str_eq a b
same_option _ _ = false

abbrev pub note_if : Bool → Str → List Str
note_if true s = s ∷ []
note_if false s = []

-- `details if "details" in changed else None`
abbrev pub details_if : Bool → Members → Json
details_if true ms = Json.object ms
details_if false ms = Json.null
