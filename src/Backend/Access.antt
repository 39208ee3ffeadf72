-- ===== src/Backend/Access.antt =====
-- Who may use a connection: `get_access` and `set_access` of routers/connections.py.
pub mod Held
pub mod Replaced
use mcp_server_for_sql_agent.Exec.{Exec, ◌>>=◌, ◌>>◌}
use mcp_server_for_sql_agent.Models.{Subject, user, role}
use mcp_server_for_sql_agent.Prelude.{
  map, ◌∷◌, [], List, some, none, Option, ◌&&◌, not, false, true, Bool, ℕ, keep_if, any_of,
  if◌then◌else◌, ◌==◌,
}
use mcp_server_for_sql_agent.Prelude.Strs.{is_some_item, codes, Str}
use mcp_server_for_sql_agent.Prelude.Ordering.{order_by}
use mcp_server_for_sql_agent.Prelude.Sorting.{sorted}
use mcp_server_for_sql_agent.World.{World, KnownSubject, AppMeta, AccessRow}
use mcp_server_for_sql_agent.Postgres.{query, Database, same_subject}
use mcp_server_for_sql_agent.Errors.{ok}
use mcp_server_for_sql_agent.Backend.Rows.{insert_rows, delete_rows}
use mcp_server_for_sql_agent.Backend.{announce, transaction, User, log_change, alter, select}
use mcp_server_for_sql_agent.Backend.Connections.{fetch_connection}
use mcp_server_for_sql_agent.Backend.Grants.{change_details, texts}
use mcp_server_for_sql_agent.Cache.Stored.{subject_text}
use mcp_server_for_sql_agent.Cache.{Cache}

-- `Subject` of the router: one of the subjects of an `AccessList`.
pub record NamedSubject : Type 0 where
  pub subject : Subject
  pub display_name : Option Str

unfoldable pub subject_in : Subject → List Subject → Bool
unfolding same_subject
subject_in s subjects = any_of (same_subject s) subjects

-- A set of pairs.
unfoldable pub subject_set : List Subject → List Subject
unfolding subject_in
subject_set [] = []
subject_set (s ∷ ss) = let rest = subject_set ss in if subject_in s rest then rest else s ∷ rest

-- `a - b` on sets
unfoldable pub minus : List Subject → List Subject → List Subject
unfolding subject_in
minus a b = keep_if (λ s. not (subject_in s b)) a

abbrev pub access_row : ℕ → Str → Subject → AccessRow
access_row id by s = record { connection_id = id; subject = s; granted_by = some by }

abbrev pub on_connection : ℕ → AccessRow → Bool
on_connection id a = a.connection_id == id

unfoldable pub existing_access : ℕ → AppMeta → List Subject
unfolding subject_set
existing_access id m =
    subject_set (map (λ a. a.subject) (keep_if (on_connection id) m.connection_access))

abbrev pub revoke_access : ℕ → List Subject → AppMeta → AppMeta
revoke_access id subjects m = record m {
  connection_access =
      delete_rows same_subject (on_connection id) (λ a. a.subject) subjects m.connection_access;
}

-- None of the subjects has a row, so that the `INSERT` meets no conflict.
abbrev pub grant_access : Str → ℕ → List Subject → AppMeta → AppMeta
grant_access by id subjects m = record m {
  connection_access =
      insert_rows same_subject (on_connection id) (λ a. a.subject) (access_row id by) subjects
        m.connection_access;
}

abbrev pub wanted_of : List NamedSubject → List Subject
wanted_of subjects = subject_set (map (λ s. s.subject) subjects)

unfoldable pub display_name_of : Subject → List KnownSubject → Option Str
unfolding same_subject
display_name_of s [] = none
display_name_of s (k ∷ ks) =
    let later = display_name_of s ks in if same_subject s k.subject then k.display_name else later

abbrev pub log_unless : Bool → Exec AppMeta (Unit {0}) → Exec AppMeta (Unit {0})
log_unless true log m = (ok tt, m)
log_unless false log m = log m

module _ (db : Database) where
  -- `ORDER BY a.subject_type DESC, a.subject_id`
  abbrev access_order : Subject → Subject → Bool
  access_order (user, a) (role, b) = true
  access_order (role, a) (user, b) = false
  access_order (user, a) (user, b) = db.collates a b
  access_order (role, a) (role, b) = db.collates a b

  unfoldable pub access_list : ℕ → AppMeta → List NamedSubject
  unfolding order_by display_name_of
  access_list id m =
      map (λ s. record { subject = s; display_name = display_name_of s m.known_subjects })
        (order_by access_order
          (map (λ a. a.subject) (keep_if (on_connection id) m.connection_access)))

  -- The statements of the transaction of `set_access`.
  unfoldable pub replace_access : ℕ → Str → List Subject → User → ℕ → Exec AppMeta (Unit {0})
  unfolding select existing_access alter minus delete_rows insert_rows log_change texts sorted
      subject_text
  replace_access id name wanted admin now = do
    existing ← select (existing_access id)
    alter (revoke_access id (minus existing wanted))
    alter (grant_access admin.sub id (minus wanted existing))
    log_unless
        (not (is_some_item (minus wanted existing)) && not (is_some_item (minus existing wanted)))
        (log_change now admin (codes "connection.access") (codes "connection") (some name) (
          change_details (sorted (map subject_text (minus wanted existing)))
            (sorted (map subject_text (minus existing wanted)))))

  unfoldable pub get_access : ℕ → Exec World (List NamedSubject)
  unfolding query access_list fetch_connection
  get_access id = do current ← fetch_connection db id; query db (access_list id)

  unfoldable pub set_access : Cache → ℕ → List NamedSubject → User → Exec World (List NamedSubject)
  unfolding fetch_connection subject_set transaction replace_access announce get_access
  set_access cache id subjects admin = do
    current ← fetch_connection db id
    transaction db (replace_access id current.name (wanted_of subjects) admin)
    announce cache true false
    get_access id
