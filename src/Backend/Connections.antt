-- ===== src/Backend/Connections.antt =====
-- The target databases of routers/connections.py: to register, edit, test and remove them.
pub mod Shapes
use mcp_server_for_sql_agent.Exec.{Exec, pure, ◌>>=◌, ◌>>◌}
use mcp_server_for_sql_agent.Prelude.{
  map, ◌++◌, ◌∷◌, [], List, some, none, Option, ◌&&◌, not, false, true, Bool, ℕ, keep_if, any_of,
  length, if◌then◌else◌, ◌==◌, ltb,
}
use mcp_server_for_sql_agent.Prelude.Strs.{truthy, str_in, str_eq, codes, Str}
use mcp_server_for_sql_agent.Prelude.Ints.{pos}
use mcp_server_for_sql_agent.Prelude.Decimal.{decimal}
use mcp_server_for_sql_agent.Prelude.Ordering.{order_by}
use mcp_server_for_sql_agent.Values.{Members, Json}
use mcp_server_for_sql_agent.Errors.{http, ok, raised, unexpected, Result, Exn}
use mcp_server_for_sql_agent.World.{World, ConnectionRow, AppMeta}
use mcp_server_for_sql_agent.Unicode.{Unicode}
use mcp_server_for_sql_agent.Introspection.{is_present}
use mcp_server_for_sql_agent.Postgres.{query, Database}
use mcp_server_for_sql_agent.Backend.{
  announce, present_or, refuse_if, transaction, User, log_change, select, alter,
}
use mcp_server_for_sql_agent.Cache.{Cache}
use mcp_server_for_sql_agent.Backend.Grants.{no_connection, texts, find_connection}
use mcp_server_for_sql_agent.Backend.Details.{validate_details}
unfoldable pub use mcp_server_for_sql_agent.Backend.Connections.Shapes.{
  connection_out, update_connections, remove_connection, reports_on,
}
pub use mcp_server_for_sql_agent.Backend.Connections.Shapes.{
  ConnectionIn, ConnectionUpdate, ConnectionOut, out_of, name_taken, integrity_error, on_conflict,
  SecretChange, apply_secret, secret_note, same_bool, same_option, note_if, details_if, keep, clear,
  replace,
}

module _ (db : Database) where
  unfoldable pub fetch_connection : ℕ → Exec World ConnectionOut
  unfolding query find_connection connection_out present_or
  fetch_connection id = do
    row ← query db (λ m. out_of m (find_connection id m.connections))
    present_or 404 no_connection row

  unfoldable pub list_connections : Exec World (List ConnectionOut)
  unfolding query order_by connection_out
  list_connections =
      query db
        (λ m. order_by (λ a b. db.collates a.name b.name) (map (connection_out m) m.connections))

-- `encrypt` is the secret box's; `dict_eq` is `==` on dictionaries.
module _ (u : Unicode) (as_text : Json → Str) (encrypt : Str → Str) (dict_eq : Json → Json → Bool)
    (db : Database) where
  -- The trigger `connections_updated_at`: `updated_at = now()` if what was configured is different.
  unfoldable pub stamped : ℕ → ConnectionRow → ConnectionRow → ConnectionRow
  stamped now old new =
      if str_eq old.record_of.name new.record_of.name
        && str_eq old.record_of.engine new.record_of.engine
        && str_eq old.record_of.description new.record_of.description
        && db.same_jsonb old.record_of.details new.record_of.details
        && same_option old.record_of.secret_encrypted new.record_of.secret_encrypted
        && same_bool old.is_active new.is_active
      then new
      else record new { record_of = record new.record_of { updated_at = now } }

  abbrev encrypted_of : Option Str → Option Str
  encrypted_of none = none
  encrypted_of (some s) = if truthy s then some (encrypt s) else none

  unfoldable pub new_connection : ConnectionIn → Members → User → ℕ → Exec AppMeta ℕ
  unfolding log_change
  new_connection body details admin now m =
      if name_taken body.name m
      then (raised integrity_error, m)
      else let id = db.new_id m in
        (do
          log_change now admin (codes "connection.create") (codes "connection") (some body.name) (
              Members.member (codes "engine") (Json.str body.engine) (
                Members.member (codes "details") (Json.object details) (
                  Members.member (codes "has_secret")
                    (Json.bool (is_present (encrypted_of body.secret))) Members.end)))
          pure id)
          (record m {
            connections =
                m.connections
                ++ record {
                  record_of = record {
                    id = id;
                    name = body.name;
                    engine = body.engine;
                    description = body.description;
                    details = Json.object details;
                    secret_encrypted = encrypted_of body.secret;
                    updated_at = now;
                  };
                  is_active = body.is_active;
                  created_by = some admin.sub;
                  created_at = now;
                  last_checked_at = none;
                  last_check_ok = none;
                  last_check_error = none;
                }
                  ∷ [];
          })

  -- `if body.secret: ... elif body.clear_secret: ...`
  unfoldable pub secret_change : ConnectionUpdate → SecretChange
  secret_change body = elim (encrypted_of body.secret) [
    | some s ↦ replace s
    | none ↦ if body.clear_secret then clear else keep
  ]

  unfoldable pub changed_settings : ConnectionOut → ConnectionUpdate → Members → List Str
  changed_settings current body details =
      note_if (not (str_eq current.description body.description)) (codes "description")
      ++ (note_if (not (dict_eq current.details (Json.object details))) (codes "details")
          ++ note_if (not (same_bool current.is_active body.is_active)) (codes "is_active"))

  abbrev pub edited : ConnectionUpdate → Members → SecretChange → ConnectionRow → ConnectionRow
  edited body details change c = record c {
    record_of = record c.record_of {
      description = body.description;
      details = Json.object details;
      secret_encrypted = apply_secret change c.record_of.secret_encrypted;
    };
    is_active = body.is_active;
  }

  abbrev pub log_if_some : List Str → Exec AppMeta (Unit {0}) → Exec AppMeta (Unit {0})
  log_if_some [] log m = (ok tt, m)
  log_if_some (s ∷ ss) log m = log m

  unfoldable pub edit_connection :
      ℕ → ConnectionOut → ConnectionUpdate → Members → User → ℕ → Exec AppMeta (Unit {0})
  unfolding alter update_connections stamped secret_change changed_settings log_change texts
  edit_connection id current body details admin now = do
    alter (λ m. record m {
      connections =
          update_connections id (λ c. stamped now c (edited body details (secret_change body) c))
            m.connections;
    })
    log_if_some (changed_settings current body details ++ secret_note (secret_change body)) (
        log_change now admin (codes "connection.update") (codes "connection") (some current.name) (
          Members.member (codes "changed")
            (Json.array
              (texts (changed_settings current body details ++ secret_note (secret_change body))))
            (Members.member (codes "details")
              (details_if (str_in (codes "details") (changed_settings current body details))
                details)
              Members.end)))

  unfoldable pub drop_connection : ℕ → ConnectionOut → User → ℕ → Exec AppMeta (Unit {0})
  unfolding select reports_on refuse_if alter remove_connection log_change
  drop_connection id current admin now = do
    reports ← select (reports_on id)
    refuse_if (ltb 0 reports) 409 (
        b'\''
        ∷ (current.name
            ++ (codes "' is used by "
                ++ (decimal reports
                    ++ (codes " saved report"
                        ++ ((if reports == 1 then [] else codes "s")
                            ++ codes ". Delete or move those first."))))))
    alter (remove_connection id)
    log_change now admin (codes "connection.delete") (codes "connection") (some current.name) (
        Members.member (codes "engine") (Json.str current.engine) (
          Members.member (codes "access_grants_removed") (Json.int (pos current.access_count))
            Members.end))

  module _ (cache : Cache) where
    unfoldable pub create_connection : ConnectionIn → User → Exec World ConnectionOut
    unfolding validate_details transaction new_connection announce fetch_connection
    create_connection body admin = do
      details ← validate_details u as_text body.engine body.details
      new_id ← (λ w.
          on_conflict (codes "A connection named '" ++ (body.name ++ codes "' already exists."))
            (transaction db (new_connection body details admin) w))
      announce cache true true
      fetch_connection db new_id

    unfoldable pub update_connection : ℕ → ConnectionUpdate → User → Exec World ConnectionOut
    unfolding fetch_connection validate_details transaction edit_connection announce
    update_connection id body admin = do
      current ← fetch_connection db id
      details ← validate_details u as_text current.engine body.details
      transaction db (edit_connection id current body details admin)
      announce cache true true
      fetch_connection db id

    unfoldable pub delete_connection : ℕ → User → Exec World (Unit {0})
    unfolding fetch_connection transaction drop_connection announce
    delete_connection id admin = do
      current ← fetch_connection db id
      transaction db (drop_connection id current admin)
      announce cache true true
