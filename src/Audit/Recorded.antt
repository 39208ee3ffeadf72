-- ===== src/Audit/Recorded.antt =====
-- The entry that `AuditService.record` of services/audit_service.py writes for a tool call.
use mcp_server_for_sql_agent.Prelude.Sorting.{sorted_set}
use mcp_server_for_sql_agent.Values.{Members}
use mcp_server_for_sql_agent.Errors.{ok-ne-raised, Result, ok, raised, Exn, cancelled}
use mcp_server_for_sql_agent.Exec.{Exec}
use mcp_server_for_sql_agent.Models.{Caller, AuditEntry}
use mcp_server_for_sql_agent.World.{World}
use mcp_server_for_sql_agent.Store.{MetaStore}
use mcp_server_for_sql_agent.Audit.{
  describe_failure, Call, describe, is_exception, failure_of, no_failure, new_recorder, entry_of,
  after_write, finish, audited,
}
use mcp_server_for_sql_agent.Prelude.Strs.{Str}
use mcp_server_for_sql_agent.Prelude.{
  subst, sym, some, false, Bool, ◌≢◌, ap, if◌then◌else◌, none, Option, true, refl, ◌≡◌, ◌+◌, ℕ,
}

-- The state in which the body of a call starts.
abbrev pub started_call : Option Str → World → Call
started_call name w = record {
  world = record w { readings = w.readings + 1 };
  recorder = new_recorder name;
}

-- The entry tells who called which tool with which arguments, and what the call found out.
pub record Tells (caller : Caller) (tool : Str) (arguments : Members) (c : Call) (e : AuditEntry)
    : Type 0 where
  pub caller_sub : e.caller_sub ≡ caller.sub
  pub caller_name : e.caller_name ≡ caller.name
  pub caller_roles : e.caller_roles ≡ sorted_set caller.roles
  pub tool_name : e.tool_name ≡ tool
  pub arguments_of : e.arguments ≡ arguments
  pub connection_name : e.connection_name ≡ c.recorder.connection_name
  pub tables : e.tables ≡ c.recorder.tables
  pub row_count : e.row_count ≡ c.recorder.row_count
  pub summary : e.result_summary ≡ c.recorder.summary

Tells-entry :
    (caller : Caller) (tool : Str) (arguments : Members) (started ended : ℕ) (failure : Option Exn)
    (c : Call)
    → Tells caller tool arguments c
        (entry_of caller tool arguments started ended failure c.recorder)
unfolding entry_of
Tells-entry caller tool arguments started ended failure c = record {
  caller_sub = refl;
  caller_name = refl;
  caller_roles = refl;
  tool_name = refl;
  arguments_of = refl;
  connection_name = refl;
  tables = refl;
  row_count = refl;
  summary = refl;
}

failure_of-raised :
    (A : Type 0) (e : Exn) → is_exception e ≡ true → failure_of {A = A} (raised e) ≡ some e
unfolding failure_of
failure_of-raised A e x = rw x

module _ {A : Type 0} where
  if-raised : (b : Bool) (x y : Exn) (a : A) → (if b then raised x else raised y) ≢ ok a
  if-raised true x y a h = ok-ne-raised h
  if-raised false x y a h = ok-ne-raised h

  after_write-ok :
      (r : Result A) (written : Result (Unit {0})) (a : A)
      → after_write r written ≡ ok a
      → (r ≡ ok a) × (written ≡ ok tt)
  unfolding after_write failure_of
  after_write-ok r (ok tt) a h = (h, refl)
  after_write-ok r (raised cancelled) a h = absurd (ok-ne-raised h)
  after_write-ok (ok x) (raised _) a h = absurd (ok-ne-raised h)
  after_write-ok (raised e) (raised _) a h = absurd (if-raised _ _ e a h)

module _ (clock : ℕ → ℕ) (store : MetaStore) {A : Type 0} where
  -- The call has the answer `a`, and an entry for it was written.
  pub record Recorded (caller : Caller) (tool : Str) (arguments : Members) (name : Option Str)
      (body : Exec Call A) (w w' : World) (a : A) : Type 0 where
    pub after : Call
    pub ran : body (started_call name w) ≡ (ok a, after)
    pub entry : AuditEntry
    pub tells : Tells caller tool arguments after entry
    pub success : entry.success ≡ true
    pub no_error : entry.error_message ≡ none
    pub written_at : World
    pub written : store.write_audit entry written_at ≡ (ok tt, w')

  -- A caller gets an answer `a` only if the body gave it and then an entry was written, as the last thing that the call did: it names the caller with their sorted roles, the tool and the arguments, holds what the body put into the recorder, and is a success with no error message.
  pub audited-Recorded :
      (caller : Caller) (tool : Str) (arguments : Members) (name : Option Str) (body : Exec Call A)
      (w w' : World) (a : A)
      → audited clock store caller tool arguments name body w ≡ (ok a, w')
      → Recorded caller tool arguments name body w w' a
  unfolding audited entry_of failure_of
  audited-Recorded caller tool arguments name body w w' a h =
      let (r, c) = body (started_call name w) in
      let ended : World = record c.world { readings = c.world.readings + 1 } in
      let entry =
        entry_of caller tool arguments (clock w.readings) (clock c.world.readings) (failure_of r)
          c.recorder in
      let (ok_r, ok_write) =
        after_write-ok r (store.write_audit entry ended).0 a (ap (λ q. q.0) h) in
      record {
        after = c;
        ran = ap (λ q. (q, c)) ok_r;
        entry = entry;
        tells = Tells-entry caller tool arguments _ _ (failure_of r) c;
        success = ap (λ q. no_failure (failure_of q)) ok_r;
        no_error = ap (λ q. describe_failure (failure_of q)) ok_r;
        written_at = ended;
        written = λ i. (ok_write i, (h i).1);
      }

  -- The entry and the answer of a call that raises the exception `e`: the entry is no success and
  -- describes `e`, and `e` is the answer, also where the entry cannot be written.
  pub record Refused (caller : Caller) (tool : Str) (arguments : Members) (name : Option Str)
      (w : World) (c : Call) (e : Exn) (answer : Result A × World) : Type 0 where
    pub entry : AuditEntry
    pub tells : Tells caller tool arguments c entry
    pub success : entry.success ≡ false
    pub error : entry.error_message ≡ some (describe e)
    pub written_at : World
    pub world : answer.1 ≡ (store.write_audit entry written_at).1
    pub same : (store.write_audit entry written_at).0 ≢ raised cancelled → answer.0 ≡ raised e

  after_write-refused :
      (e : Exn) (written : Result (Unit {0}))
      → is_exception e ≡ true
      → written ≢ raised cancelled
      → after_write {A = A} (raised e) written ≡ raised e
  unfolding after_write failure_of
  after_write-refused e (ok tt) x n = refl
  after_write-refused e (raised cancelled) x n = absurd (n refl)
  after_write-refused e (raised _) x n = rw x

  -- If the body raises an exception `e`, cancellation apart, then the entry that is handed to the store names the caller, the tool and the arguments, is no success and describes `e`, and the world afterwards is the one that the store leaves; and `e` is what the caller gets, also where the store raises, unless what it raises is cancellation.
  pub audited-Refused :
      (caller : Caller) (tool : Str) (arguments : Members) (name : Option Str) (body : Exec Call A)
      (w : World) (e : Exn) (c : Call)
      → body (started_call name w) ≡ (raised e, c)
      → is_exception e ≡ true
      → Refused caller tool arguments name w c e
          (audited clock store caller tool arguments name body w)
  unfolding audited entry_of failure_of
  audited-Refused caller tool arguments name body w e c h x =
      let ended : World = record c.world { readings = c.world.readings + 1 } in
      let r : Result A = raised e in
      let failed : failure_of r ≡ some e = failure_of-raised A e x in
      let entry =
        entry_of caller tool arguments (clock w.readings) (clock c.world.readings) (failure_of r)
          c.recorder in
      subst (λ q. Refused caller tool arguments name w c e q)
        (sym (ap (λ q. finish clock store caller tool arguments (clock w.readings) q) h))
        (record {
          entry = entry;
          tells = Tells-entry caller tool arguments _ _ (failure_of r) c;
          success = ap no_failure failed;
          error = ap describe_failure failed;
          written_at = ended;
          world = refl;
          same = λ n. after_write-refused e (store.write_audit entry ended).0 x n;
        })

  -- A call that is cancelled while it runs is entered as a success, with no error message.
  pub record EnteredAsSuccess (c : Call) (answer : Result A × World) : Type 0 where
    pub entry : AuditEntry
    pub success : entry.success ≡ true
    pub no_error : entry.error_message ≡ none
    pub tables : entry.tables ≡ c.recorder.tables
    pub written_at : World
    pub world : answer.1 ≡ (store.write_audit entry written_at).1

  -- If the body is cancelled, then the entry that is handed to the store is a success with no error message, for the tables that the recorder holds.
  pub audited-cancelled :
      (caller : Caller) (tool : Str) (arguments : Members) (name : Option Str) (body : Exec Call A)
      (w : World) (c : Call)
      → body (started_call name w) ≡ (raised cancelled, c)
      → EnteredAsSuccess c (audited clock store caller tool arguments name body w)
  unfolding audited entry_of failure_of
  audited-cancelled caller tool arguments name body w c h =
      let ended : World = record c.world { readings = c.world.readings + 1 } in
      subst (λ q. EnteredAsSuccess c q)
        (sym (ap (λ q. finish clock store caller tool arguments (clock w.readings) q) h))
        (record {
          entry =
              entry_of caller tool arguments (clock w.readings) (clock c.world.readings) none
                c.recorder;
          success = refl;
          no_error = refl;
          tables = refl;
          written_at = ended;
          world = refl;
        })
