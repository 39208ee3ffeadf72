-- ===== src/Backend/Check/NoPassword.antt =====
-- The password and the sentence that `explain` of connection_check.py makes of a failed attempt.
use mcp_server_for_sql_agent.Prelude.{
  arith, List, some, false, true, ◌≡◌, ◌≤◌, IsIn, length-take, length,
}
use mcp_server_for_sql_agent.Prelude.Strs.{truthy, Str}
use mcp_server_for_sql_agent.Unicode.{Unicode}
use mcp_server_for_sql_agent.Values.{Json}
use mcp_server_for_sql_agent.Backend.Check.{masked, explain}
use mcp_server_for_sql_agent.Drivers.{replace_from, contains, replace_text}
use mcp_server_for_sql_agent.Backend.Check.{root_message, reason, Fault}
use mcp_server_for_sql_agent.Drivers.Masked.{contains-replace_from, stars, contains-take}

module _ (u : Unicode) (lower : Str → Str) (as_text : Json → Str) where
  -- Whatever a driver reports and whatever the settings hold, the sentence that explains a failed attempt does not contain the password, unless the password is empty or has a star in it, and has at most 300 characters.
  pub explain-no_password :
      (f : Fault) (chain : List Fault) (engine : Str) (details : Json) (p : Str)
      → truthy p ≡ true
      → ¬ IsIn b'*' p
      → (contains p (explain u lower as_text f chain engine details (some p)) ≡ false)
        × (length (explain u lower as_text f chain engine details (some p)) ≤ 300)
  unfolding explain replace_text
  explain-no_password f chain engine details p t n =
      let message = reason u lower as_text (root_message u lower as_text f chain) engine details in
      (
        rw t (
            contains-take p (replace_from p stars 0 message) 300 t
              (contains-replace_from p t n 0 message)),
        omega (arith, length-take 300 (masked u lower as_text (some p) message)),
      )
