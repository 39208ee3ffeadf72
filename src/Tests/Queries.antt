-- ===== src/Tests/Queries.antt =====
-- The three tools, the audit and the permissions on the installation of `Setup`.
use mcp_server_for_sql_agent.Unicode.{casefold}
use mcp_server_for_sql_agent.Query.Limits.{resolve_sample_size}
use mcp_server_for_sql_agent.Prelude.Sorting.{sorted_set}
use mcp_server_for_sql_agent.Models.{subjects}
use mcp_server_for_sql_agent.Postgres.{
  postgres_allowed_tables, postgres_allowed_tools, postgres_get_connection, postgres_write_audit,
}
use mcp_server_for_sql_agent.Unicode.Ascii.{ascii}
use mcp_server_for_sql_agent.Values.{Members}
use mcp_server_for_sql_agent.Errors.{ok, raised, Exn, cancelled, domain, audit_write_error}
use mcp_server_for_sql_agent.Exec.{Exec, modify, raise_if, ◌>>=◌}
use mcp_server_for_sql_agent.World.{sampled}
use mcp_server_for_sql_agent.Permissions.{ConnectionAccess, open_tool, require_table}
use mcp_server_for_sql_agent.Permissions.Opens.{Granted, open_tool-Granted}
use mcp_server_for_sql_agent.Audit.{Call, audited}
use mcp_server_for_sql_agent.Audit.Trace.{Reached}
use mcp_server_for_sql_agent.Audit.Recorded.{
  started_call, Recorded, audited-Recorded, Refused, audited-Refused, EnteredAsSuccess,
  audited-cancelled,
}
use mcp_server_for_sql_agent.Query.{run_query, explain_query, get_sample_rows}
use mcp_server_for_sql_agent.Query.Reach.{
  MayRun, MayPlan, MaySample, run_query-Reached, explain_query-Reached, get_sample_rows-Reached,
}
use mcp_server_for_sql_agent.Query.Bounds.{SentWithin, run_query-SentWithin}
use mcp_server_for_sql_agent.Query.EndToEnd.{RowsAllow, run_query-RowsAllow}
use mcp_server_for_sql_agent.Postgres.Laws.{postgres-StoreLaws}
use mcp_server_for_sql_agent.Prelude.Ints.{pos}
use mcp_server_for_sql_agent.Tests.Setup.{
  parser, limits, alice, tables, world, database, store, adapters, adapter, shop, clock,
  adapters-ProviderLaws,
}
use mcp_server_for_sql_agent.Prelude.{some, ◌∷◌, [], none, refl, ◌≡◌, ℕ}
use mcp_server_for_sql_agent.Prelude.Strs.{Str, codes, str_eq, str_in}

abbrev read : Str
read = codes "SELECT a FROM orders"

sample_rows_asks :
    (get_sample_rows ascii parser clock limits store adapters alice
      (codes "shop")
      (codes "orders")
      (pos 5)
      world).1.db_calls
    ≡ sampled (codes "orders") 5 ∷ []
unfolding get_sample_rows audited postgres_write_audit ◌>>=◌ open_tool postgres_allowed_tools
    raise_if str_in subjects sorted_set str_eq postgres_get_connection postgres_allowed_tables
    resolve_sample_size require_table casefold modify
sample_rows_asks = refl

run_query-RowsAllow_example :
    Reached
      (RowsAllow ascii database adapters parser limits tables alice (codes "shop") read none)
      []
      (run_query ascii parser clock limits store adapters alice
        (codes "shop")
        read
        none
        world).1.db_calls
run_query-RowsAllow_example =
    run_query-RowsAllow ascii database adapters parser limits clock adapters-ProviderLaws alice
      (codes "shop") read none world

run_query-Reached_example :
    Reached
      (MayRun ascii parser clock limits store adapters tables alice (codes "shop") read none)
      []
      (run_query ascii parser clock limits store adapters alice
        (codes "shop")
        read
        none
        world).1.db_calls
run_query-Reached_example =
    run_query-Reached ascii parser clock limits store adapters (postgres-StoreLaws database)
      adapters-ProviderLaws alice (codes "shop") read none world

run_query-SentWithin_example :
    Reached
      (SentWithin limits (some (pos 5)))
      []
      (run_query ascii parser clock limits store adapters alice
        (codes "shop")
        read
        (some (pos 5))
        world).1.db_calls
run_query-SentWithin_example =
    run_query-SentWithin ascii parser clock limits store adapters (postgres-StoreLaws database)
      adapters-ProviderLaws alice (codes "shop") read (some (pos 5)) world

explain_query-Reached_example :
    Reached
      (MayPlan ascii parser clock limits store adapters tables alice (codes "shop") read)
      []
      (explain_query ascii parser clock limits store adapters alice
        (codes "shop")
        read
        world).1.db_calls
explain_query-Reached_example =
    explain_query-Reached ascii parser clock limits store adapters (postgres-StoreLaws database)
      adapters-ProviderLaws alice (codes "shop") read world

get_sample_rows-Reached_example :
    Reached
      (MaySample ascii parser clock limits store adapters tables alice
        (codes "shop")
        (codes "orders")
        (pos 5))
      []
      (get_sample_rows ascii parser clock limits store adapters alice
        (codes "shop")
        (codes "orders")
        (pos 5)
        world).1.db_calls
get_sample_rows-Reached_example =
    get_sample_rows-Reached ascii parser clock limits store adapters (postgres-StoreLaws database)
      adapters-ProviderLaws alice (codes "shop") (codes "orders") (pos 5) world

abbrev opened : ConnectionAccess
opened = record { record_of = shop; tables = codes "orders" ∷ [] }

opens :
    open_tool ascii store adapters alice (codes "run_query") (codes "shop") world
    ≡ (ok (opened, adapter), world)
unfolding open_tool ◌>>=◌ postgres_allowed_tools raise_if str_in subjects sorted_set str_eq
    postgres_get_connection postgres_allowed_tables casefold
opens = refl

open_tool-Granted_example :
    Granted ascii store adapters tables alice (codes "run_query") (codes "shop") opened adapter
open_tool-Granted_example =
    open_tool-Granted ascii store adapters (postgres-StoreLaws database) adapters-ProviderLaws alice
      (codes "run_query") (codes "shop") world world opened adapter opens

-- a body that reads a number, one that raises, and one that is cancelled
abbrev answers : Exec Call ℕ
answers c = (ok 3, c)

abbrev breaks : Exn → Exec Call ℕ
breaks e c = (raised e, c)

audited_answer :
    audited clock store alice (codes "t") Members.end none answers world
    ≡ (ok 3, (audited clock store alice (codes "t") Members.end none answers world).1)
unfolding audited postgres_write_audit
audited_answer = refl

audited-Recorded_example :
    Recorded clock store alice
      (codes "t")
      Members.end
      none
      answers
      world
      (audited clock store alice (codes "t") Members.end none answers world).1
      3
audited-Recorded_example =
    audited-Recorded clock store alice (codes "t") Members.end none answers world
      (audited clock store alice (codes "t") Members.end none answers world).1 3 audited_answer

audited-Refused_example :
    Refused clock store alice
      (codes "t")
      Members.end
      none
      world
      (started_call none world)
      (domain audit_write_error)
      (audited clock store alice
        (codes "t")
        Members.end
        none
        (breaks (domain audit_write_error))
        world)
audited-Refused_example =
    audited-Refused clock store alice (codes "t") Members.end none
      (breaks (domain audit_write_error)) world (domain audit_write_error) (started_call none world)
      refl refl

audited-cancelled_example :
    EnteredAsSuccess clock store
      (started_call none world)
      (audited clock store alice (codes "t") Members.end none (breaks cancelled) world)
audited-cancelled_example =
    audited-cancelled clock store alice (codes "t") Members.end none (breaks cancelled) world
      (started_call none world) refl
