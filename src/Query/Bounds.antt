-- ===== src/Query/Bounds.antt =====
-- How many rows the statements that `run_query` of services/query_service.py sends may give.
use mcp_server_for_sql_agent.Prelude.{Option, some, none, inl, inr, ◌≡◌, ◌⊎◌, ◌≤◌, ℕ}
use mcp_server_for_sql_agent.Prelude.Ints.{ℤ, pos}
use mcp_server_for_sql_agent.Prelude.Strs.{Str}
use mcp_server_for_sql_agent.Unicode.{Unicode}
use mcp_server_for_sql_agent.Models.{Caller}
use mcp_server_for_sql_agent.World.{World, DbCall, ran}
use mcp_server_for_sql_agent.Store.{MetaStore, AdapterProvider, StoreLaws, ProviderLaws}
use mcp_server_for_sql_agent.Audit.Trace.{Reached}
use mcp_server_for_sql_agent.Validator.Sqlglot.{Sqlglot}
use mcp_server_for_sql_agent.Query.Limits.{QueryLimits, resolve_row_limit-bounds}
use mcp_server_for_sql_agent.Query.Reach.{run_query-Reached}
use mcp_server_for_sql_agent.Query.{run_query}

-- `d` runs a statement with the default number of rows where the caller names none, and else with
-- the number that they name, which is in range.
pub record SentWithin (limits : QueryLimits) (row_limit : Option ℤ) (d : DbCall) : Type 0 where
  pub sql : Str
  pub rows : ℕ
  pub is_call : d ≡ ran sql rows
  pub bounded :
      ((row_limit ≡ none) × (rows ≡ limits.default_rows))
      ⊎ ((row_limit ≡ some (pos rows)) × (1 ≤ rows) × (rows ≤ limits.max_rows))

module _ {Tree : Type 0} (u : Unicode) (g : Sqlglot Tree) (clock : ℕ → ℕ) (limits : QueryLimits)
    (store : MetaStore) (adapters : AdapterProvider) where
  -- Whatever becomes of `run_query`, it asks a target database for nothing, or runs one statement once, with `default_rows` as its row limit if the caller names no limit, and else with exactly the limit that the caller names, which is at least 1 and at most `max_rows`; so with any other number nothing is sent. It is assumed that the store and the adapters keep the laws of their interfaces; `default_rows` itself is not compared with `max_rows`.
  pub run_query-SentWithin :
      (laws : StoreLaws store) (provider : ProviderLaws adapters) (caller : Caller) (name sql : Str)
      (row_limit : Option ℤ) (w : World)
      → Reached
          (SentWithin limits row_limit)
          w.db_calls
          (run_query u g clock limits store adapters caller name sql row_limit w).1.db_calls
  run_query-SentWithin laws provider caller name sql row_limit w =
      elim (run_query-Reached u g clock limits store adapters laws provider caller name sql
        row_limit w) [
          | inl e ↦ inl e
          | inr (d, e, x) ↦ inr (
            d,
            e,
            record {
              sql = x.query.sql;
              rows = x.limit;
              is_call = x.is_call;
              bounded = resolve_row_limit-bounds limits row_limit x.limit x.limit_ok;
            },
          )
        ]
