-- ===== src/Tests/Tokens.antt =====
-- A token that the provider calls active.
use mcp_server_for_sql_agent.Unicode.Ascii.{ascii}
use mcp_server_for_sql_agent.Values.{Json, Members}
use mcp_server_for_sql_agent.Errors.{ok}
use mcp_server_for_sql_agent.World.{World}
use mcp_server_for_sql_agent.Cache.{null_cache}
use mcp_server_for_sql_agent.Introspection.{AccessToken, verify_token}
use mcp_server_for_sql_agent.Introspection.Closed.{IsChecked, verify_token-IsChecked}
use mcp_server_for_sql_agent.Prelude.Ints.{pos}
use mcp_server_for_sql_agent.Tests.Setup.{world}
use mcp_server_for_sql_agent.Prelude.{[], some, none, Option, true, refl, ◌≡◌, ℕ}
use mcp_server_for_sql_agent.Prelude.Strs.{Str, codes, str_eq}

abbrev claims : Members
claims = Members.member (codes "active") (Json.bool true) (
    Members.member (codes "sub") (Json.str (codes "alice")) (
      Members.member (codes "exp") (Json.int (pos 500))
        (Members.member (codes "aud") (Json.str (codes "mcp")) Members.end)))

abbrev text_of : Json → Str
text_of (Json.str s) = s
text_of _ = []

abbrev wall_clock : ℕ → ℕ
wall_clock n = 100

abbrev ask : Str → World → Option Json × World
ask token w = (some (Json.object claims), w)

abbrev token : AccessToken
token = record {
  token = codes "t";
  client_id = [];
  scopes = [];
  expires_at = pos 500;
  resource = codes "mcp";
  subject = codes "alice";
  claims = claims;
}

abbrev after : World
after =
    (verify_token ascii text_of (λ s. s) (λ s. none) (λ j. []) wall_clock ask null_cache
      (codes "mcp") none 60 (codes "t") world).1

verifies :
    verify_token ascii text_of
      (λ s. s)
      (λ s. none)
      (λ j. [])
      wall_clock
      ask
      null_cache
      (codes "mcp")
      none
      60
      (codes "t")
      world
    ≡ (ok (some token), after)
unfolding verify_token str_eq
verifies = refl

verify_token-IsChecked_example :
    IsChecked ascii text_of
      (λ s. s)
      (λ s. none)
      (λ j. [])
      wall_clock
      ask
      null_cache
      (codes "mcp")
      none
      60
      token
verify_token-IsChecked_example =
    verify_token-IsChecked ascii text_of (λ s. s) (λ s. none) (λ j. []) wall_clock ask null_cache
      (codes "mcp") none 60 (codes "t") world after token verifies
