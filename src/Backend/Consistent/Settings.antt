-- ===== src/Backend/Consistent/Settings.antt =====
-- The handlers of connections, on tables that are consistent.
use mcp_server_for_sql_agent.Backend.Access.Replaced.{fetch_connection-Keeps}
use mcp_server_for_sql_agent.Exec.{Exec, pure}
use mcp_server_for_sql_agent.Backend.Requests.{Surroundings}
use mcp_server_for_sql_agent.Backend.Consistent.Requests.{
  keeping-Stays, Aside, Stays, P, bind-Stays, Keeps-Stays, aside-Stays, commits-Stays, pure-Stays,
  announce-Stays,
}
use mcp_server_for_sql_agent.Backend.Consistent.{IsConsistent}
use mcp_server_for_sql_agent.Backend.Connections
use mcp_server_for_sql_agent.Prelude.{◌∷◌, [], some, none, Option, subst, sym, refl, ◌≡◌, true, ℕ}
use mcp_server_for_sql_agent.Postgres.{Database}
use mcp_server_for_sql_agent.World.{World}
use mcp_server_for_sql_agent.Errors.{domain, unexpected, cancelled, http, raised, ok, Result}
use mcp_server_for_sql_agent.Backend.{refuse, alter, transaction, User}
use mcp_server_for_sql_agent.Backend.Connections.{update_connections, fetch_connection}
use mcp_server_for_sql_agent.Backend.Laws.{
  Keeps, transaction-Holds, query-eq, bind-Keeps, refuse_if-Keeps,
}
use mcp_server_for_sql_agent.Backend.Consistent.Bodies.{
  update_connections-IsConsistent, new_connection-IsConsistent,
}
use mcp_server_for_sql_agent.Prelude.Strs.{codes, Str}
use mcp_server_for_sql_agent.Errors.{unexpected, domain, Result}
use mcp_server_for_sql_agent.Backend.Consistent.Edits.{
  drop_connection-IsConsistent, edit_connection-IsConsistent,
}
use mcp_server_for_sql_agent.Backend.Probe.{
  with_check, decrypted, stored_secret, test_saved_connection,
}
use mcp_server_for_sql_agent.Unicode.{Unicode}
use mcp_server_for_sql_agent.Backend.Consistent.Handlers.{announced-Stays}
use mcp_server_for_sql_agent.Values.{Members, Json}
use mcp_server_for_sql_agent.Backend.Details.{refuse_found, check_options, validate_details}
use mcp_server_for_sql_agent.Backend.Check.{CheckResult}

module _ (u : Unicode) (as_text : Json → Str) where
  refuse_found-Keeps :
      {S : Type 0} (o : Option Str) (detail : Str → Str)
      → Keeps {S = S} (refuse_found u as_text o detail)
  refuse_found-Keeps none detail t = refl
  refuse_found-Keeps (some key) detail t = refl

  check_options-Keeps : {S : Type 0} (v : Json) → Keeps {S = S} (check_options u as_text v)
  unfolding refuse
  check_options-Keeps (Json.object ms) t =
      bind-Keeps _ _ (refuse_if-Keeps _ 422 _) (λ x. refuse_found-Keeps _ _) t
  check_options-Keeps Json.null t = refl
  check_options-Keeps (Json.bool b) t = refl
  check_options-Keeps (Json.int n) t = refl
  check_options-Keeps (Json.float n) t = refl
  check_options-Keeps (Json.str n) t = refl
  check_options-Keeps (Json.array n) t = refl

  validate_details-Keeps :
      {S : Type 0} (engine : Str) (details : Members)
      → Keeps {S = S} (validate_details u as_text engine details)
  unfolding validate_details pure
  validate_details-Keeps engine details = bind-Keeps _ _ (refuse_if-Keeps _ 422 _) (λ x.
      bind-Keeps _ _ (refuse_found-Keeps _ _) (λ x. bind-Keeps _ _ (check_options-Keeps _) (λ x.
        bind-Keeps _ _ (refuse_if-Keeps _ 422 _) (λ x.
          bind-Keeps _ _ (refuse_if-Keeps _ 422 _) (λ x.
            bind-Keeps _ _ (refuse_if-Keeps _ 422 _)
              (λ x. bind-Keeps _ _ (refuse_if-Keeps _ 422 _) (λ x t. refl)))))))

  decrypted-Keeps :
      {S : Type 0} (decrypt : Str → Option Str) (db : Database)
      (check : Str → Json → Option Str → Exec World CheckResult) (o : Option Str)
      → Keeps {S = S} (decrypted u as_text decrypt db check o)
  unfolding decrypted
  decrypted-Keeps decrypt db check none t = refl
  decrypted-Keeps decrypt db check (some []) t = refl
  decrypted-Keeps {S} decrypt db check (some (c ∷ cs)) t = go (decrypt (c ∷ cs))
    where
      go :
          (o : Option Str)
          → (elim o as (λ q. Result (Option Str) × S) [
            | none ↦ (raised (unexpected (codes "ValueError")), t)
            | some p ↦ (ok (some p), t)
          ]).1
            ≡ t
      go none = refl
      go (some p) = refl

module _ {Tree : Type 0} (s : Surroundings Tree) (aside : Aside s) where
  abbrev db : Database
  db = s.database

  conflict-Stays :
      {A : Type 0} (detail : Str) (m : Exec World A)
      → Stays s aside m
      → Stays s aside (λ w. Connections.on_conflict detail (m w))
  conflict-Stays {A} detail m h w c = subst (P s aside) (sym (same (m w))) (h w c)
    where
      same : (p : Result A × World) → (Connections.on_conflict detail p).1 ≡ p.1
      same (ok a, v) = refl
      same (raised (domain e), v) = refl
      same (raised (unexpected name), v) = refl
      same (raised cancelled, v) = refl
      same (raised (http status text), v) = refl

  pub create_connection-Stays :
      (body : Connections.ConnectionIn) (admin : User)
      → Stays s aside (
          Connections.create_connection s.unicode s.as_text s.encrypt s.dict_eq db s.cache body
            admin)
  unfolding Connections.create_connection
  create_connection-Stays body admin =
      keeping-Stays s aside _ _
        (validate_details-Keeps s.unicode s.as_text body.engine body.details)
        (λ details.
          bind-Stays s aside _ _
            (conflict-Stays _
              (transaction db (
                Connections.new_connection s.unicode s.as_text s.encrypt s.dict_eq db body details
                  admin))
              (λ w c.
                transaction-Holds db (IsConsistent s.unicode s.sqlglot)
                  (Connections.new_connection s.unicode s.as_text s.encrypt s.dict_eq db body
                    details admin)
                  w c
                  (new_connection-IsConsistent s.unicode s.sqlglot db s.as_text s.encrypt s.dict_eq
                    body details admin (db.now w) w.app_meta c)))
            (λ id.
              announced-Stays s aside true true (fetch_connection db id)
                (Keeps-Stays s aside (fetch_connection db id) (fetch_connection-Keeps db id))))

  pub update_connection-Stays :
      (id : ℕ) (body : Connections.ConnectionUpdate) (admin : User)
      → Stays s aside (
          Connections.update_connection s.unicode s.as_text s.encrypt s.dict_eq db s.cache id body
            admin)
  unfolding Connections.update_connection
  update_connection-Stays id body admin =
      keeping-Stays s aside _ _ (fetch_connection-Keeps db id) (λ current.
        keeping-Stays s aside _ _
          (validate_details-Keeps s.unicode s.as_text current.engine body.details)
          (λ details.
            commits-Stays s aside
              (Connections.edit_connection s.unicode s.as_text s.encrypt s.dict_eq db id current
                body details admin)
              _
              (λ now m c.
                edit_connection-IsConsistent s.unicode s.sqlglot db s.as_text s.encrypt s.dict_eq id
                  current body details admin now m c)
              (λ x.
                announced-Stays s aside true true (fetch_connection db id)
                  (Keeps-Stays s aside (fetch_connection db id) (fetch_connection-Keeps db id)))))

  pub delete_connection-Stays :
      (id : ℕ) (admin : User)
      → Stays s aside (
          Connections.delete_connection s.unicode s.as_text s.encrypt s.dict_eq db s.cache id admin)
  unfolding Connections.delete_connection
  delete_connection-Stays id admin =
      keeping-Stays s aside _ _ (fetch_connection-Keeps db id) (λ current.
        commits-Stays s aside
          (Connections.drop_connection s.unicode s.as_text s.encrypt s.dict_eq db id current admin)
          _
          (λ now m c.
            drop_connection-IsConsistent s.unicode s.sqlglot db s.as_text s.encrypt s.dict_eq id
              current admin now m c)
          (λ x. announce-Stays s aside true true))

  pub test_saved_connection-Stays :
      (id : ℕ) → Stays s aside (test_saved_connection s.unicode s.as_text s.decrypt db s.check id)
  unfolding test_saved_connection alter
  test_saved_connection-Stays id =
      keeping-Stays s aside _ _ (fetch_connection-Keeps db id) (λ current.
        keeping-Stays s aside _ _ (query-eq db (stored_secret id)) (λ stored.
          keeping-Stays s aside _ _
            (decrypted-Keeps s.unicode s.as_text s.decrypt db s.check stored)
            (λ password.
              bind-Stays s aside _ _
                (aside-Stays s aside (s.check current.engine current.details password)
                  (aside.checks current.engine current.details password))
                (λ result.
                  commits-Stays s aside
                    (λ now. alter (λ m. record m {
                      connections = update_connections id (with_check now result) m.connections;
                    }))
                    _
                    (λ now m c.
                      update_connections-IsConsistent s.unicode s.sqlglot db id
                        (with_check now result) m (λ d. refl) (λ d. refl) c)
                    (λ x. pure-Stays s aside result)))))
