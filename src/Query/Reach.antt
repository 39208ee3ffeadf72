-- ===== src/Query/Reach.antt =====
-- What the three tools may ask of a target database, whatever becomes of the call.
use mcp_server_for_sql_agent.Prelude.Ints.{ℤ}
use mcp_server_for_sql_agent.Unicode.{Unicode}
use mcp_server_for_sql_agent.Errors.{ok}
use mcp_server_for_sql_agent.Exec.{Exec, lift-eq-ok}
use mcp_server_for_sql_agent.Models.{Caller}
use mcp_server_for_sql_agent.World.{AppMeta, sampled, World, planned, DbCall, ran}
use mcp_server_for_sql_agent.Store.{MetaStore, DbAdapter, AdapterProvider, StoreLaws, ProviderLaws}
use mcp_server_for_sql_agent.Permissions.{ConnectionAccess, allows, open_tool}
use mcp_server_for_sql_agent.Permissions.Opens.{open_tool-quiet, open_tool-Granted, Granted}
use mcp_server_for_sql_agent.Audit.Recorded.{started_call}
use mcp_server_for_sql_agent.Audit.{audited, Call}
use mcp_server_for_sql_agent.Audit.Trace.{
  outside-eq-ok, calls, Reached, Silent-outside, Silent-lift, Silent-pure, Silent-modify,
  Silent-bind, Silent-then, ask-then,
}
use mcp_server_for_sql_agent.Validator.Sqlglot.{Sqlglot}
use mcp_server_for_sql_agent.Validator.Validate.{ValidatedQuery}
use mcp_server_for_sql_agent.Query.Limits.{resolve_sample_size, QueryLimits, resolve_row_limit}
use mcp_server_for_sql_agent.Query.{
  run_query, sample_rows_body, explain_query, explain_query_body, get_sample_rows, run_query_body,
}
use mcp_server_for_sql_agent.Prelude.{some, sym, Option, true, subst, refl, ◌≡◌, ℕ}
use mcp_server_for_sql_agent.Prelude.Strs.{codes, Str}
use mcp_server_for_sql_agent.Values.{Members}
use mcp_server_for_sql_agent.Query.Authorize.{
  require_table-allows, now-quiet, Authorized, validate_and_authorize-Silent,
  validate_and_authorize-Authorized, to_result-quiet,
}

module _ {Tree : Type 0} (u : Unicode) (g : Sqlglot Tree) (clock : ℕ → ℕ) (limits : QueryLimits)
    (store : MetaStore) (adapters : AdapterProvider) where
  -- The conditions under which `run_query` sends a statement: the caller may use the tool, the
  -- store has granted them the connection, and the statement is one that the validator accepted
  -- for the dialect of that connection, with all its tables granted, and the row limit is the resolved one.
  pub record MayRun (m : AppMeta) (caller : Caller) (name sql : Str) (row_limit : Option ℤ)
      (d : DbCall) : Type 0 where
    pub access : ConnectionAccess
    pub adapter : DbAdapter
    pub grant : Granted u store adapters m caller (codes "run_query") name access adapter
    pub query : ValidatedQuery
    pub authorized : Authorized u g clock limits store adapters sql access adapter query
    pub limit : ℕ
    pub limit_ok : resolve_row_limit limits row_limit ≡ ok limit
    pub is_call : d ≡ ran query.sql limit

  -- The conditions for `explain_query`.
  pub record MayPlan (m : AppMeta) (caller : Caller) (name sql : Str) (d : DbCall) : Type 0 where
    pub access : ConnectionAccess
    pub adapter : DbAdapter
    pub grant : Granted u store adapters m caller (codes "explain_query") name access adapter
    pub query : ValidatedQuery
    pub authorized : Authorized u g clock limits store adapters sql access adapter query
    pub is_call : d ≡ planned query.sql

  -- The conditions for `get_sample_rows`.
  pub record MaySample (m : AppMeta) (caller : Caller) (name table : Str) (n : ℤ) (d : DbCall)
      : Type 0 where
    pub access : ConnectionAccess
    pub adapter : DbAdapter
    pub grant : Granted u store adapters m caller (codes "get_sample_rows") name access adapter
    pub size : ℕ
    pub size_ok : resolve_sample_size limits n ≡ ok size
    pub allowed : allows u access table ≡ true
    pub is_call : d ≡ sampled table size

  module _ (laws : StoreLaws store) (provider : ProviderLaws adapters) where
    run_query_body-Reached :
        (caller : Caller) (name sql : Str) (row_limit : Option ℤ) (c : Call)
        → Reached
            (MayRun c.world.app_meta caller name sql row_limit)
            (calls c)
            (calls (run_query_body u g clock limits store adapters caller name sql row_limit c).1)
    unfolding run_query_body
    run_query_body-Reached caller name sql row_limit c =
        Silent-then _ _ _ c
          (Silent-outside _
            (open_tool-quiet u store adapters laws provider caller (codes "run_query") name))
          (λ opened c₁ e₁. Silent-then _ _ _ c₁ (Silent-lift _) (λ limit c₂ e₂.
            Silent-then _ _ _ c₂
              (validate_and_authorize-Silent u g clock limits store adapters sql opened.1 opened.0)
              (λ query c₃ e₃.
                Silent-then _ _ _ c₃ (Silent-outside _ (now-quiet clock)) (λ started c₄ e₄.
                  let (w, o) =
                    outside-eq-ok (open_tool u store adapters caller (codes "run_query") name)
                      opened c c₁ e₁ in
                  let grant =
                    open_tool-Granted u store adapters laws provider caller (codes "run_query") name
                      c.world w opened.0 opened.1 o in
                  let lawful =
                    provider.lawful opened.0.record_of opened.1 grant.opened_at grant.opened_in
                      grant.opened in
                  ask-then _ _ _ c₄ (ran query.sql limit)
                    (lawful.execute query.sql limit limits.timeout_ms)
                    (record {
                      access = opened.0;
                      adapter = opened.1;
                      grant = grant;
                      query = query;
                      authorized =
                          validate_and_authorize-Authorized u g clock limits store adapters sql
                            opened.1 opened.0 query c₂ c₃ e₃;
                      limit = limit;
                      limit_ok = (lift-eq-ok _ limit c₁ c₂ e₂).0;
                      is_call = refl;
                    })
                    (λ raw.
                      Silent-bind _ _
                        (Silent-outside _
                          (to_result-quiet u g clock limits store adapters raw started))
                        (λ result.
                          Silent-bind _ _ (Silent-modify _ (λ c'. refl))
                            (λ done. Silent-pure result)))))))

    audited-Reached :
        {A : Type 0} (R : DbCall → Type 0) (caller : Caller) (tool : Str) (arguments : Members)
        (name : Option Str) (body : Exec Call A) (w : World)
        → Reached R w.db_calls (calls (body (started_call name w)).1)
        → Reached R w.db_calls (audited clock store caller tool arguments name body w).1.db_calls
    unfolding audited
    audited-Reached R caller tool arguments name body w h =
        subst (λ q. Reached R w.db_calls q) (sym (laws.write_audit _ _)) h

    -- Whatever becomes of `run_query`, it asks a target database for nothing, or runs one statement once; and then the store, as app_meta was when the call came, lists the tool and finds the connection for the caller, the statement is what the validator accepted for the dialect of that connection, all its tables are among the granted ones, and the row limit is the one that `_resolve_row_limit` gives. It is assumed that the store and the adapters keep the laws of their interfaces.
    pub run_query-Reached :
        (caller : Caller) (name sql : Str) (row_limit : Option ℤ) (w : World)
        → Reached
            (MayRun w.app_meta caller name sql row_limit)
            w.db_calls
            (run_query u g clock limits store adapters caller name sql row_limit w).1.db_calls
    unfolding run_query
    run_query-Reached caller name sql row_limit w =
        audited-Reached _ caller (codes "run_query") _ (some name) _ w
          (run_query_body-Reached caller name sql row_limit (started_call (some name) w))

    explain_query_body-Reached :
        (caller : Caller) (name sql : Str) (c : Call)
        → Reached
            (MayPlan c.world.app_meta caller name sql)
            (calls c)
            (calls (explain_query_body u g clock limits store adapters caller name sql c).1)
    unfolding explain_query_body
    explain_query_body-Reached caller name sql c =
        Silent-then _ _ _ c
          (Silent-outside _
            (open_tool-quiet u store adapters laws provider caller (codes "explain_query") name))
          (λ opened c₁ e₁.
            Silent-then _ _ _ c₁
              (validate_and_authorize-Silent u g clock limits store adapters sql opened.1 opened.0)
              (λ query c₂ e₂.
                let (w, o) =
                  outside-eq-ok (open_tool u store adapters caller (codes "explain_query") name)
                    opened c c₁ e₁ in
                let grant =
                  open_tool-Granted u store adapters laws provider caller (codes "explain_query")
                    name c.world w opened.0 opened.1 o in
                let lawful =
                  provider.lawful opened.0.record_of opened.1 grant.opened_at grant.opened_in
                    grant.opened in
                ask-then _ _ _ c₂ (planned query.sql) (lawful.explain query.sql limits.timeout_ms)
                  (record {
                    access = opened.0;
                    adapter = opened.1;
                    grant = grant;
                    query = query;
                    authorized =
                        validate_and_authorize-Authorized u g clock limits store adapters sql
                          opened.1 opened.0 query c₁ c₂ e₂;
                    is_call = refl;
                  })
                  (λ explained.
                    Silent-bind _ _ (Silent-modify _ (λ c'. refl)) (λ done. Silent-pure _))))

    -- Whatever becomes of `explain_query`, it asks a target database for nothing, or for the plan of one statement once, and then under the same conditions as `run_query`, those on the row limit apart; it runs no statement. The same is assumed.
    pub explain_query-Reached :
        (caller : Caller) (name sql : Str) (w : World)
        → Reached
            (MayPlan w.app_meta caller name sql)
            w.db_calls
            (explain_query u g clock limits store adapters caller name sql w).1.db_calls
    unfolding explain_query
    explain_query-Reached caller name sql w =
        audited-Reached _ caller (codes "explain_query") _ (some name) _ w
          (explain_query_body-Reached caller name sql (started_call (some name) w))

    sample_rows_body-Reached :
        (caller : Caller) (name table : Str) (n : ℤ) (c : Call)
        → Reached
            (MaySample c.world.app_meta caller name table n)
            (calls c)
            (calls (sample_rows_body u g clock limits store adapters caller name table n c).1)
    unfolding sample_rows_body
    sample_rows_body-Reached caller name table n c =
        Silent-then _ _ _ c
          (Silent-outside _
            (open_tool-quiet u store adapters laws provider caller (codes "get_sample_rows") name))
          (λ opened c₁ e₁. Silent-then _ _ _ c₁ (Silent-lift _) (λ size c₂ e₂.
            Silent-then _ _ _ c₂ (Silent-lift _) (λ d₃ c₃ e₃.
              Silent-then _ _ _ c₃ (Silent-modify _ (λ c'. refl)) (λ d₄ c₄ e₄.
                Silent-then _ _ _ c₄ (Silent-outside _ (now-quiet clock)) (λ started c₅ e₅.
                  let (w, o) =
                    outside-eq-ok (open_tool u store adapters caller (codes "get_sample_rows") name)
                      opened c c₁ e₁ in
                  let grant =
                    open_tool-Granted u store adapters laws provider caller
                      (codes "get_sample_rows") name c.world w opened.0 opened.1 o in
                  let lawful =
                    provider.lawful opened.0.record_of opened.1 grant.opened_at grant.opened_in
                      grant.opened in
                  ask-then _ _ _ c₅ (sampled table size)
                    (lawful.sample_rows table size limits.timeout_ms)
                    (record {
                      access = opened.0;
                      adapter = opened.1;
                      grant = grant;
                      size = size;
                      size_ok = (lift-eq-ok _ size c₁ c₂ e₂).0;
                      allowed = require_table-allows u opened.0 table (lift-eq-ok _ d₃ c₂ c₃ e₃).0;
                      is_call = refl;
                    })
                    (λ raw.
                      Silent-bind _ _
                        (Silent-outside _
                          (to_result-quiet u g clock limits store adapters raw started))
                        (λ result.
                          Silent-bind _ _ (Silent-modify _ (λ c'. refl))
                            (λ done. Silent-pure result))))))))

    -- Whatever becomes of `get_sample_rows`, it asks a target database for nothing, or for a sample of the named table once; and then the store lists the tool and finds the connection for the caller, the table is among the granted ones, and the sample's size is in range. The same is assumed.
    pub get_sample_rows-Reached :
        (caller : Caller) (name table : Str) (n : ℤ) (w : World)
        → Reached
            (MaySample w.app_meta caller name table n)
            w.db_calls
            (get_sample_rows u g clock limits store adapters caller name table n w).1.db_calls
    unfolding get_sample_rows
    get_sample_rows-Reached caller name table n w =
        audited-Reached _ caller (codes "get_sample_rows") _ (some name) _ w
          (sample_rows_body-Reached caller name table n (started_call (some name) w))
