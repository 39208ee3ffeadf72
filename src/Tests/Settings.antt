-- ===== src/Tests/Settings.antt =====
-- The settings of connections and their check on concrete values.
use mcp_server_for_sql_agent.Exec.{◌>>=◌}
use mcp_server_for_sql_agent.Tests.Setup.{world}
use mcp_server_for_sql_agent.Unicode.Ascii.{ascii}
use mcp_server_for_sql_agent.Backend.Details.{member_keys, validate_details}
use mcp_server_for_sql_agent.Backend.Details.Safe.{DistinctKeys}
use mcp_server_for_sql_agent.Backend.Details.Validated.{IsSafe, validate_details-IsSafe}
use mcp_server_for_sql_agent.Backend.Check.{Fault, explain}
use mcp_server_for_sql_agent.Backend.Check.NoPassword.{explain-no_password}
use mcp_server_for_sql_agent.Prelude.{
  ◌∷◌, true, ◌==◌, [], some, false, refl, ◌≡◌, ◌≤◌, IsIn, length,
}
use mcp_server_for_sql_agent.Prelude.Strs.{IsIn-str_in, str_in, Str, codes, str_eq}
use mcp_server_for_sql_agent.Values.{Json, Members}
use mcp_server_for_sql_agent.Drivers.{contains}
use mcp_server_for_sql_agent.Errors.{ok}
use mcp_server_for_sql_agent.Prelude.Filters.{IsIn-any_of}

abbrev text_of : Json → Str
text_of (Json.str s) = s
text_of _ = []

abbrev file : Members
file =
    Members.member (codes "path") (Json.str (codes "a.db"))
      (Members.member (codes "host") (Json.str []) Members.end)

abbrev kept : Members
kept = Members.member (codes "path") (Json.str (codes "a.db")) Members.end

accepts : validate_details ascii text_of (codes "sqlite") file world ≡ (ok kept, world)
unfolding validate_details ◌>>=◌ str_eq
accepts = refl

different : DistinctKeys file
unfolding member_keys str_in str_eq
different =
    (λ m. let h = IsIn-str_in (codes "path") (codes "host" ∷ []) m in cc, (λ m. absurd m, tt))

validate_details-IsSafe_example : IsSafe text_of (codes "sqlite") kept
validate_details-IsSafe_example =
    validate_details-IsSafe ascii text_of (codes "sqlite") file kept world world different accepts

-- a driver that reports the password
abbrev report : Fault
report = record { text = codes "cannot use hunter2"; type_name = codes "OperationalError" }

abbrev password : Str
password = codes "hunter2"

no_star : ¬ IsIn b'*' password
no_star m = let h : false ≡ true = IsIn-any_of (λ c. c == b'*') b'*' password m refl in cc

explain-no_password_example :
    (contains password
        (explain ascii (λ s. s) text_of report [] (codes "mysql") Json.null (some password))
      ≡ false)
    × (length (explain ascii (λ s. s) text_of report [] (codes "mysql") Json.null (some password))
        ≤ 300)
explain-no_password_example =
    explain-no_password ascii (λ s. s) text_of report [] (codes "mysql") Json.null password refl
      no_star
