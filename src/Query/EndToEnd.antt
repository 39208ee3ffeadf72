-- ===== src/Query/EndToEnd.antt =====
-- `run_query` on the store of services/meta_store.py: what the rows of app_meta must say before a statement is sent.
use mcp_server_for_sql_agent.Unicode.{Unicode, casefold}
use mcp_server_for_sql_agent.Models.{Caller, Subject, subjects, ConnectionRecord}
use mcp_server_for_sql_agent.World.{World, AppMeta, DbCall, ran}
use mcp_server_for_sql_agent.Store.{DbAdapter, AdapterProvider, ProviderLaws}
use mcp_server_for_sql_agent.Permissions.{ConnectionAccess, allows}
use mcp_server_for_sql_agent.Permissions.Opens.{MayUse, Reachable}
use mcp_server_for_sql_agent.Audit.Trace.{Reached}
use mcp_server_for_sql_agent.Validator.Sqlglot.{Sqlglot}
use mcp_server_for_sql_agent.Validator.Validate.{ValidatedQuery, validate}
use mcp_server_for_sql_agent.Query.Limits.{QueryLimits, resolve_row_limit}
use mcp_server_for_sql_agent.Query.Reach.{MayRun, run_query-Reached}
use mcp_server_for_sql_agent.Query.{run_query}
use mcp_server_for_sql_agent.Postgres.{
  Database, postgres, tables_of, tools_of, postgres_allowed_tools, postgres_allowed_tables,
  postgres_get_connection,
}
use mcp_server_for_sql_agent.Postgres.Laws.{
  MayOpen, MaySee, MayCall, tables_of-MaySee, tools_of-MayCall, get_connection-MayOpen,
  postgres-StoreLaws, query-eq-ok,
}
use mcp_server_for_sql_agent.Prelude.{
  List, Option, true, inr, inl, subst, sym, ◌≡◌, IsIn, All-map, All, ℕ,
}
use mcp_server_for_sql_agent.Prelude.Strs.{str_in-IsIn, codes, Str}
use mcp_server_for_sql_agent.Prelude.Filters.{map-IsIn}
use mcp_server_for_sql_agent.Prelude.Ints.{ℤ}
use mcp_server_for_sql_agent.Errors.{ok}

-- `t` is, up to case, a table that the rows grant.
abbrev pub SeesTable : Unicode → AppMeta → ℕ → List Subject → Str → Type 0
SeesTable u m id subs t = (t' : Str) × MaySee m id subs t' × (casefold u t ≡ casefold u t')

module _ (u : Unicode) (db : Database) (adapters : AdapterProvider) where
  used-MayCall :
      (m : AppMeta) (caller : Caller) (tool : Str)
      → MayUse u (postgres db) adapters m caller tool
      → MayCall m (subjects caller) tool
  unfolding postgres_allowed_tools
  used-MayCall m caller tool x =
      let e : tools_of x.asked_at.app_meta (subjects caller) ≡ x.tools =
        query-eq-ok db (λ q. tools_of q (subjects caller)) x.asked_at
          (postgres_allowed_tools db (subjects caller) x.asked_at).1 x.tools
          (λ i. (x.asked i, (postgres_allowed_tools db (subjects caller) x.asked_at).1)) in
      (tools_of-MayCall m (subjects caller) tool).0 (
        subst (λ q. IsIn tool (tools_of q (subjects caller))) x.asked_then
          (subst (λ q. IsIn tool q) (sym e) (str_in-IsIn tool x.tools x.listed)))

  found-MayOpen :
      (m : AppMeta) (caller : Caller) (name : Str) (access : ConnectionAccess)
      → Reachable u (postgres db) adapters m caller name access
      → MayOpen m (subjects caller) name access.record_of
  found-MayOpen m caller name access x =
      subst (λ q. MayOpen q (subjects caller) name access.record_of) x.found_then
        (get_connection-MayOpen db name (subjects caller) x.found_at
          (postgres_get_connection db name (subjects caller) x.found_at).1 access.record_of
          (λ i. (x.found i, (postgres_get_connection db name (subjects caller) x.found_at).1)))

  allowed-SeesTable :
      (m : AppMeta) (caller : Caller) (name : Str) (access : ConnectionAccess) (t : Str)
      → Reachable u (postgres db) adapters m caller name access
      → allows u access t ≡ true
      → SeesTable u m access.record_of.id (subjects caller) t
  unfolding postgres_allowed_tables allows
  allowed-SeesTable m caller name access t x h =
      let id = access.record_of.id in
      let e : tables_of x.tables_at.app_meta id (subjects caller) ≡ x.granted =
        query-eq-ok db (λ q. tables_of q id (subjects caller)) x.tables_at
          (postgres_allowed_tables db id (subjects caller) x.tables_at).1 x.granted
          (λ i. (x.asked i, (postgres_allowed_tables db id (subjects caller) x.tables_at).1)) in
      let (t', i, f) =
        map-IsIn (casefold u) (casefold u t) x.granted
          (subst (λ q. IsIn (casefold u t) q) x.tables (str_in-IsIn _ access.tables h)) in
      (
        t',
        (tables_of-MaySee m id (subjects caller) t').0 (
            subst (λ q. IsIn t' (tables_of q id (subjects caller))) x.tables_then
              (subst (λ q. IsIn t' q) (sym e) i)),
        f,
      )

  module _ {Tree : Type 0} (g : Sqlglot Tree) (limits : QueryLimits) where
    -- The rows of `m` let the caller send `d`.
    pub record RowsAllow (m : AppMeta) (caller : Caller) (name sql : Str) (row_limit : Option ℤ)
        (d : DbCall) : Type 0 where
      pub may_call : MayCall m (subjects caller) (codes "run_query")
      pub connection : ConnectionRecord
      pub may_open : MayOpen m (subjects caller) name connection
      pub adapter : DbAdapter
      pub opened_at : World
      pub opened_in : World
      pub opened : adapters.adapter_for connection opened_at ≡ (ok adapter, opened_in)
      pub query : ValidatedQuery
      pub validated :
          validate u g limits.max_sql_length sql adapter.dialect_name adapter.default_schema
          ≡ ok query
      pub may_see : All (λ t. SeesTable u m connection.id (subjects caller) t) query.tables
      pub limit : ℕ
      pub limit_ok : resolve_row_limit limits row_limit ≡ ok limit
      pub is_call : d ≡ ran query.sql limit

    rows-allow :
        (clock : ℕ → ℕ) (m : AppMeta) (caller : Caller) (name sql : Str) (row_limit : Option ℤ)
        (d : DbCall)
        → MayRun u g clock limits (postgres db) adapters m caller name sql row_limit d
        → RowsAllow m caller name sql row_limit d
    rows-allow clock m caller name sql row_limit d x = record {
      may_call = used-MayCall m caller (codes "run_query") x.grant.may_use;
      connection = x.access.record_of;
      may_open = found-MayOpen m caller name x.access x.grant.reachable;
      adapter = x.adapter;
      opened_at = x.grant.opened_at;
      opened_in = x.grant.opened_in;
      opened = x.grant.opened;
      query = x.query;
      validated = x.authorized.validated;
      may_see =
          All-map (λ t h. allowed-SeesTable m caller name x.access t x.grant.reachable h)
            x.query.tables x.authorized.allowed;
      limit = x.limit;
      limit_ok = x.limit_ok;
      is_call = x.is_call;
    }

    -- Whatever becomes of `run_query` over the store's tables, it sends at most one statement, once. If it sends one, then rows of app_meta grant one of the caller's subjects the tool, the active connection of that name, and, up to case, every table of the statement on that connection; and the statement is what the validator accepted for the dialect and the default schema of the adapter that `adapter_for` gives for that connection, with the row limit that `_resolve_row_limit` gives. It is assumed that adapters ask their databases only what their methods say and leave app_meta alone.
    pub run_query-RowsAllow :
        (clock : ℕ → ℕ)
        → ProviderLaws adapters
        → (caller : Caller) (name sql : Str) (row_limit : Option ℤ) (w : World)
        → Reached
            (RowsAllow w.app_meta caller name sql row_limit)
            w.db_calls
            (run_query u g clock limits
              (postgres db)
              adapters
              caller
              name
              sql
              row_limit
              w).1.db_calls
    run_query-RowsAllow clock provider caller name sql row_limit w =
        elim (run_query-Reached u g clock limits (postgres db) adapters (postgres-StoreLaws db)
          provider caller name sql row_limit w) [
            | inl e ↦ inl e
            | inr (d, e, x) ↦ inr (d, e, rows-allow clock w.app_meta caller name sql row_limit d x)
          ]
