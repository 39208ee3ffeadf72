-- ===== src/Backend/Check.antt =====
-- connection_check.py: whether a target database can be reached, and what is wrong if it cannot.
pub mod NoPassword
use mcp_server_for_sql_agent.Exec.{Exec}
use mcp_server_for_sql_agent.Prelude.{
  ◌++◌, ◌∷◌, [], List, some, none, Option, ◌&&◌, false, true, Bool, ◌-◌, ◌+◌, ℕ, any_of, take,
  if◌then◌else◌, ◌==◌,
}
use mcp_server_for_sql_agent.Prelude.Strs.{truthy, str_eq, codes, Str}
use mcp_server_for_sql_agent.Prelude.Decimal.{decimal}
use mcp_server_for_sql_agent.Unicode.{Unicode}
use mcp_server_for_sql_agent.Errors.{unexpected, raised, ok, Result, Exn}
use mcp_server_for_sql_agent.Values.{Json}
use mcp_server_for_sql_agent.Introspection.{is_present, truthy_claim}
use mcp_server_for_sql_agent.Registry.{driver_of, build_engine_url, detail_of, member_of, EngineUrl}
use mcp_server_for_sql_agent.Drivers.{replace_text, contains, useful_line}
use mcp_server_for_sql_agent.World.{World}
use mcp_server_for_sql_agent.Models.{ConnectionRecord}

pub record CheckResult : Type 0 where
  pub is_ok : Bool
  pub message : Str
  pub table_count : Option ℕ
  pub latency_ms : Option ℕ

-- An exception of a chain: `str(exc)`, and the name of its type.
pub record Fault : Type 0 where
  pub text : Str
  pub type_name : Str

-- How the attempt to connect and to list the tables ends: with the number of tables, with no answer
-- in time, with an exception and those that caused it, or with one that is not caught.
pub data Attempt : Type 0 where
  found : ℕ → Attempt
  no_response : Attempt
  broke : Fault → List Fault → Attempt
  escaped : Exn → Attempt

-- The last of the chain: no cause and no context.
unfoldable pub root_of : Fault → List Fault → Fault
root_of f [] = f
root_of f (g ∷ gs) = root_of g gs

module _ (u : Unicode) (lower : Str → Str) (as_text : Json → Str) where
  -- `f"{details.get(key)}"`
  abbrev shown : Option Json → Str
  shown none = codes "None"
  shown (some v) = as_text v

  unfoldable pub root_message : Fault → List Fault → Str
  unfolding root_of useful_line
  root_message f chain = let root = root_of f chain in useful_line u root.type_name root.text

  -- `_where`
  unfoldable pub place_of : Str → Json → Str
  unfolding truthy_claim member_of
  place_of engine details =
      if str_eq engine (codes "sqlite")
      then codes "file " ++ shown (detail_of details (codes "path"))
      else codes "host "
        ++ (shown (detail_of details (codes "host"))
            ++ (if truthy_claim (detail_of details (codes "port"))
                then codes " on port " ++ shown (detail_of details (codes "port"))
                else []))

  abbrev one_of : List Str → Str → Bool
  one_of words s = any_of (λ p. contains p s) words

  -- The sentence, before the password is taken out of it.
  unfoldable pub reason : Str → Str → Json → Str
  unfolding contains place_of
  reason text engine details =
      let lowered = lower text in
      let place = place_of engine details in
      if one_of
        (codes "password authentication failed" ∷ codes "access denied" ∷ codes "login failed" ∷ [])
        lowered
      then codes "authentication failed for user '"
        ++ (shown (detail_of details (codes "username")) ++ codes "'.")
      else if contains (codes "does not exist") lowered && contains (codes "database") lowered
      then codes "the database '"
        ++ (shown (detail_of details (codes "database"))
            ++ codes "' does not exist on that server.")
      else if one_of (codes "unable to open database file" ∷ codes "no such file" ∷ []) lowered
      then codes "could not open " ++ (place ++ codes ".")
      else if one_of
          (codes "connect call failed"
            ∷ codes "connection refused"
            ∷ codes "refused the network connection"
            ∷ codes "errno 111"
            ∷ codes "10061"
            ∷ codes "winerror 1225"
            ∷ [])
          lowered
      then codes "could not reach " ++ (place ++ codes ".")
      else if one_of
          (codes "name or service not known"
            ∷ codes "getaddrinfo"
            ∷ codes "nodename nor servname"
            ∷ codes "11001"
            ∷ [])
          lowered
      then codes "could not resolve " ++ (place ++ codes ".")
      else if one_of (codes "timeout" ∷ codes "timed out" ∷ []) lowered
      then place ++ codes " did not respond in time."
      else if one_of (codes "no pg_hba.conf entry" ∷ codes "ssl" ∷ []) lowered
      then codes "the server at " ++ (place ++ (codes " rejected the connection: " ++ text))
      else text

  -- `if password: message = message.replace(password, "***")`
  abbrev pub masked : Option Str → Str → Str
  masked none s = s
  masked (some p) s = if truthy p then replace_text p (codes "***") s else s

  unfoldable pub explain : Fault → List Fault → Str → Json → Option Str → Str
  unfolding root_message reason replace_text
  explain f chain engine details password =
      take 300 (masked password (reason (root_message f chain) engine details))

  abbrev failed_check : Str → CheckResult
  failed_check message = record {
    is_ok = false;
    message = message;
    table_count = none;
    latency_ms = none;
  }

  -- `clock` is `time.monotonic`, in milliseconds, `timeout_text` is `f"{timeout_s:g}"`, and `reach`
  -- opens the database with the driver, lists its tables and closes it.
  module _ (clock : ℕ → ℕ) (timeout_text : Str)
      (reach : EngineUrl → Option Json → World → Attempt × World) where
    abbrev verdict : Str → Json → Option Str → ℕ → Attempt × World → Result CheckResult × World
    verdict engine details password started (found n, w) = (
      ok (record {
        is_ok = true;
        message =
            codes "Connected. Found "
            ++ (decimal n ++ (codes " table" ++ ((if n == 1 then [] else codes "s") ++ codes ".")));
        table_count = some n;
        latency_ms = some (clock w.readings - started);
      }),
      record w { readings = w.readings + 1 },
    )
    verdict engine details password started (no_response, w) = (
      ok (
          failed_check (
            codes "Connection failed: no response from "
            ++ (place_of engine details ++ (codes " within " ++ (timeout_text ++ codes "s."))))),
      w,
    )
    verdict engine details password started (broke f chain, w) = (
      ok (failed_check (codes "Connection failed: " ++ explain f chain engine details password)),
      w,
    )
    verdict engine details password started (escaped e, w) = (raised e, w)

    -- The record is not stored; it serves to build the URL.
    abbrev unsaved : Str → Json → ConnectionRecord
    unsaved engine details = record {
      id = 0;
      name = codes "check";
      engine = engine;
      description = [];
      details = details;
      secret_encrypted = none;
      updated_at = 0;
    }

    -- The exception of `build_engine_url`, which stands before the `try`.
    abbrev url_error : Str → Exn
    url_error engine =
        if is_present (driver_of engine)
        then unexpected (codes "KeyError")
        else unexpected (codes "ValueError")

    -- `details.get("schemas") or None`
    abbrev schemas_of : Json → Option Json
    schemas_of details =
        if truthy_claim (detail_of details (codes "schemas"))
        then detail_of details (codes "schemas")
        else none

    unfoldable pub check_connection : Str → Json → Option Str → Exec World CheckResult
    unfolding build_engine_url driver_of place_of explain truthy_claim member_of
    check_connection engine details password w =
        let started = record w { readings = w.readings + 1 } in
        elim (build_engine_url (unsaved engine details) password) [
          | none ↦ (raised (url_error engine), started)
          | some url ↦
              verdict engine details password (clock w.readings)
                (reach url (schemas_of details) started)
        ]
