-- ===== src/Audit.antt =====
-- services/audit_service.py: every tool call is recorded, and a result that cannot be recorded is
-- withheld.
pub mod Trace
pub mod Recorded
use mcp_server_for_sql_agent.Prelude.Sorting.{sorted_set}
use mcp_server_for_sql_agent.Values.{Members}
use mcp_server_for_sql_agent.Errors.{
  Result, ok, raised, Exn, domain, unexpected, cancelled, audit_write_error, http,
}
use mcp_server_for_sql_agent.Errors.Message.{message}
use mcp_server_for_sql_agent.Exec.{Exec}
use mcp_server_for_sql_agent.Models.{Caller, AuditEntry}
use mcp_server_for_sql_agent.World.{World}
use mcp_server_for_sql_agent.Store.{MetaStore}
use mcp_server_for_sql_agent.Prelude.{
  not, ◌++◌, [], List, some, none, Option, false, true, Bool, ◌-◌, ◌+◌, ℕ, take, if◌then◌else◌,
}
use mcp_server_for_sql_agent.Prelude.Strs.{codes, Str}

pub record AuditRecorder : Type 0 where
  pub connection_name : Option Str
  pub tables : List Str
  pub row_count : Option ℕ
  pub summary : Option Str

-- A tool call runs on the world and on its recorder.
pub record Call : Type 0 where
  pub world : World
  pub recorder : AuditRecorder

-- An action on the world, within a tool call.
unfoldable pub outside : {A : Type 0} → Exec World A → Exec Call A
outside m c = let (r, w) = m c.world in (r, record c { world = w })

abbrev pub max_error_chars : ℕ
max_error_chars = 1000

unfoldable pub describe : Exn → Str
describe (domain e) = take max_error_chars (message e)
describe (unexpected name) = codes "internal error (" ++ (name ++ codes ")")
describe cancelled = codes "internal error (CancelledError)"
describe (http status detail) = codes "internal error (HTTPException)"

-- `except Exception` catches the exception.
abbrev pub is_exception : Exn → Bool
is_exception cancelled = false
is_exception _ = true

-- The exception that `failure` holds after the call.
unfoldable pub failure_of {ℓ} : {A : Type ℓ} → Result A → Option Exn
failure_of (ok a) = none
failure_of (raised e) = if is_exception e then some e else none

abbrev pub no_failure : Option Exn → Bool
no_failure none = true
no_failure (some e) = false

abbrev pub describe_failure : Option Exn → Option Str
describe_failure none = none
describe_failure (some e) = some (describe e)

abbrev pub new_recorder : Option Str → AuditRecorder
new_recorder name = record { connection_name = name; tables = []; row_count = none; summary = none }

unfoldable pub entry_of : Caller → Str → Members → ℕ → ℕ → Option Exn → AuditRecorder → AuditEntry
entry_of caller tool arguments started ended failure rec = record {
  caller_sub = caller.sub;
  caller_name = caller.name;
  tool_name = tool;
  connection_name = rec.connection_name;
  arguments = arguments;
  duration_ms = ended - started;
  success = no_failure failure;
  tables = rec.tables;
  row_count = rec.row_count;
  result_summary = rec.summary;
  error_message = describe_failure failure;
  caller_roles = sorted_set caller.roles;
}

-- What leaves the `finally` block: the answer of the call, unless the entry was not written.
unfoldable pub after_write : {A : Type 0} → Result A → Result (Unit {0}) → Result A
after_write r (ok done) = r
after_write r (raised cancelled) = raised cancelled
after_write r (raised e) =
    if no_failure (failure_of r) then raised (domain audit_write_error) else r

-- `clock` gives the readings of `time.monotonic()`, in milliseconds.
module _ (clock : ℕ → ℕ) where
  unfoldable pub now : Exec World ℕ
  now w = (ok (clock w.readings), record w { readings = w.readings + 1 })

  module _ (store : MetaStore) where
    -- The recorder's entry is written in the world that the call left.
    unfoldable pub finish :
        {A : Type 0} → Caller → Str → Members → ℕ → Result A × Call → Result A × World
    unfolding now after_write
    finish caller tool arguments started (r, c) =
        let (ended, w) = now c.world in
        let time = clock c.world.readings in
        let entry = entry_of caller tool arguments started time (failure_of r) c.recorder in
        let (written, w') = store.write_audit entry w in (after_write r written, w')

    -- `async with audit.record(caller, tool, arguments, connection_name) as rec: body`
    unfoldable pub audited :
        {A : Type 0} → Caller → Str → Members → Option Str → Exec Call A → Exec World A
    unfolding finish
    audited caller tool arguments connection_name body w =
        let w₁ = record w { readings = w.readings + 1 } in
        finish caller tool arguments (clock w.readings)
          (body (record { world = w₁; recorder = new_recorder connection_name }))
