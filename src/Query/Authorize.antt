-- ===== src/Query/Authorize.antt =====
-- `_validate_and_authorize` of services/query_service.py: the queries that get past it.
use mcp_server_for_sql_agent.Prelude.Sorting.{sorted_set, sorted_set-All}
use mcp_server_for_sql_agent.Unicode.{Unicode}
use mcp_server_for_sql_agent.Errors.{ok-ne-raised, ok}
use mcp_server_for_sql_agent.Exec.{lift, modify, bind-eq-ok, lift-eq-ok, pure-eq-ok}
use mcp_server_for_sql_agent.Models.{RawResult}
use mcp_server_for_sql_agent.Store.{MetaStore, DbAdapter, AdapterProvider, IsQuiet}
use mcp_server_for_sql_agent.Permissions.{require_table, ConnectionAccess, allows}
use mcp_server_for_sql_agent.Permissions.Opens.{IsQuiet-lift, IsQuiet-bind, IsQuiet-pure}
use mcp_server_for_sql_agent.Audit.{Call, now}
use mcp_server_for_sql_agent.Audit.Trace.{
  Silent, Silent-lift, Silent-pure, Silent-modify, Silent-bind,
}
use mcp_server_for_sql_agent.Validator.Sqlglot.{Sqlglot}
use mcp_server_for_sql_agent.Validator.Validate.{ValidatedQuery, validate}
use mcp_server_for_sql_agent.Query.Limits.{QueryLimits}
use mcp_server_for_sql_agent.Query.{authorize, validate_and_authorize, to_result, set_tables}
use mcp_server_for_sql_agent.Prelude.{
  ◌∷◌, [], List, true, inr, inl, subst, refl, ◌≡◌, ℕ, All, Bool-cases,
}
use mcp_server_for_sql_agent.Prelude.Strs.{Str}

pub authorize-All :
    (u : Unicode) (access : ConnectionAccess) (names : List Str)
    → authorize u access names ≡ ok tt
    → All (λ t. allows u access t ≡ true) names
unfolding authorize
authorize-All u access [] h = tt
authorize-All u access (t ∷ ts) h = elim (Bool-cases (allows u access t)) [
  | inl e ↦ (e, authorize-All u access ts (rw (e, authorize) at h))
  | inr e ↦ absurd (ok-ne-raised (rw (e, authorize) at h))
]

pub require_table-allows :
    (u : Unicode) (access : ConnectionAccess) (name : Str)
    → require_table u access name ≡ ok tt
    → allows u access name ≡ true
unfolding require_table
require_table-allows u access name h = elim (Bool-cases (allows u access name)) [
  | inl e ↦ e
  | inr e ↦ absurd (ok-ne-raised (rw (e, require_table) at h))
]

module _ (clock : ℕ → ℕ) where
  pub now-quiet : IsQuiet (now clock)
  unfolding now
  now-quiet = record { calls = λ w. refl; meta = λ w. refl }

module _ {Tree : Type 0} (u : Unicode) (g : Sqlglot Tree) (clock : ℕ → ℕ) (limits : QueryLimits)
    (store : MetaStore) (adapters : AdapterProvider) where
  -- `q` is what the validator made of `sql` for this connection, and all its tables are granted.
  pub record Authorized (sql : Str) (access : ConnectionAccess) (adapter : DbAdapter)
      (q : ValidatedQuery) : Type 0 where
    pub validated :
        validate u g limits.max_sql_length sql adapter.dialect_name adapter.default_schema ≡ ok q
    pub allowed : All (λ t. allows u access t ≡ true) q.tables

  pub validate_and_authorize-Silent :
      (sql : Str) (adapter : DbAdapter) (access : ConnectionAccess)
      → Silent (validate_and_authorize u g clock limits store adapters sql adapter access)
  unfolding validate_and_authorize
  validate_and_authorize-Silent sql adapter access = Silent-bind _ _ (Silent-lift _) (λ q.
      Silent-bind _ _ (Silent-modify _ (λ c. refl))
        (λ done. Silent-bind _ _ (Silent-lift _) (λ done'. Silent-pure q)))

  pub validate_and_authorize-Authorized :
      (sql : Str) (adapter : DbAdapter) (access : ConnectionAccess) (q : ValidatedQuery)
      (c c' : Call)
      → validate_and_authorize u g clock limits store adapters sql adapter access c ≡ (ok q, c')
      → Authorized sql access adapter q
  unfolding validate_and_authorize
  validate_and_authorize-Authorized sql adapter access q c c' h =
      let (q₀, c₁, v, h₁) =
        bind-eq-ok
          (lift
            (validate u g limits.max_sql_length sql adapter.dialect_name adapter.default_schema))
          _ c c' h in
      let (d₁, c₂, m, h₂) = bind-eq-ok (modify (set_tables (sorted_set q₀.tables))) _ c₁ c' h₁ in
      let (d₂, c₃, a, h₃) =
        bind-eq-ok (lift (authorize u access (sorted_set q₀.tables))) _ c₂ c' h₂ in
      let (same, _) = pure-eq-ok q₀ q c₃ c' h₃ in
      let (valid, _) = lift-eq-ok _ q₀ c c₁ v in
      let (ok_all, _) = lift-eq-ok _ d₂ c₂ c₃ a in
      subst (λ r. Authorized sql access adapter r) same
        (record {
          validated = valid;
          allowed =
              (sorted_set-All (λ t. allows u access t ≡ true) q₀.tables).0
                (authorize-All u access _ ok_all);
        })

  pub to_result-quiet :
      (raw : RawResult) (started : ℕ)
      → IsQuiet (to_result u g clock limits store adapters raw started)
  unfolding to_result
  to_result-quiet raw started =
      IsQuiet-bind _ _ (IsQuiet-lift _)
        (λ d. IsQuiet-bind _ _ (now-quiet clock) (λ ended. IsQuiet-pure _))
