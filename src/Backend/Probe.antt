-- ===== src/Backend/Probe.antt =====
-- `test_settings` and `test_saved_connection` of routers/connections.py.
use mcp_server_for_sql_agent.Exec.{Exec, pure, ◌>>=◌, ◌>>◌}
use mcp_server_for_sql_agent.Prelude.{◌∷◌, [], some, none, Option, ℕ, if◌then◌else◌}
use mcp_server_for_sql_agent.Prelude.Strs.{codes, Str}
use mcp_server_for_sql_agent.Backend.Grants.{find_connection}
use mcp_server_for_sql_agent.Backend.Check.{CheckResult}
use mcp_server_for_sql_agent.Values.{Json, Members}
use mcp_server_for_sql_agent.Unicode.{Unicode}
use mcp_server_for_sql_agent.World.{World, AppMeta, ConnectionRow}
use mcp_server_for_sql_agent.Postgres.{query, Database}
use mcp_server_for_sql_agent.Errors.{unexpected, raised, ok}
use mcp_server_for_sql_agent.Backend.Connections.{update_connections, fetch_connection}
use mcp_server_for_sql_agent.Backend.Details.{validate_details}
use mcp_server_for_sql_agent.Backend.{alter, transaction}

pub record ConnectionTest : Type 0 where
  pub engine : Str
  pub details : Members
  pub secret : Option Str
  pub connection_id : Option ℕ

-- `SELECT secret_encrypted FROM connections WHERE id = :id`, or nothing without such a row
unfoldable pub stored_secret : ℕ → AppMeta → Option Str
unfolding find_connection
stored_secret id m = elim (find_connection id m.connections) [
  | none ↦ none
  | some c ↦ c.record_of.secret_encrypted
]

-- `last_checked_at`, `last_check_ok` and `last_check_error`
abbrev pub with_check : ℕ → CheckResult → ConnectionRow → ConnectionRow
with_check now r c = record c {
  last_checked_at = some now;
  last_check_ok = some r.is_ok;
  last_check_error = if r.is_ok then none else some r.message;
}

-- `decrypt` is the secret box's: `none` stands for its `ValueError`. `check` is `check_connection`.
module _ (u : Unicode) (as_text : Json → Str) (decrypt : Str → Option Str) (db : Database)
    (check : Str → Json → Option Str → Exec World CheckResult) where
  -- `decrypt(stored) if stored else None`
  unfoldable pub decrypted : {S : Type 0} → Option Str → Exec S (Option Str)
  decrypted none s = (ok none, s)
  decrypted (some []) s = (ok none, s)
  decrypted (some (c ∷ t)) s = elim (decrypt (c ∷ t)) [
    | none ↦ (raised (unexpected (codes "ValueError")), s)
    | some p ↦ (ok (some p), s)
  ]

  -- A secret that is given is used; otherwise the stored one of the connection that is named.
  unfoldable pub secret_for : Option Str → Option ℕ → Exec World (Option Str)
  unfolding query stored_secret decrypted
  secret_for (some s) id = pure (some s)
  secret_for none none = pure none
  secret_for none (some id) = do stored ← query db (stored_secret id); decrypted stored

  unfoldable pub test_settings : ConnectionTest → Exec World CheckResult
  unfolding validate_details secret_for
  test_settings body = do
    details ← validate_details u as_text body.engine body.details
    password ← secret_for body.secret body.connection_id
    check body.engine (Json.object details) password

  unfoldable pub test_saved_connection : ℕ → Exec World CheckResult
  unfolding fetch_connection query stored_secret decrypted transaction alter update_connections
  test_saved_connection id = do
    current ← fetch_connection db id
    stored ← query db (stored_secret id)
    password ← decrypted stored
    result ← check current.engine current.details password
    transaction db (λ now. alter (λ m. record m {
      connections = update_connections id (with_check now result) m.connections;
    }))
    pure result
