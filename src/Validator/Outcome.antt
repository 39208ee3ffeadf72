-- ===== src/Validator/Outcome.antt =====
-- How `_mask_comments_and_quotes` ends, on every text.
use mcp_server_for_sql_agent.Unicode.{Unicode}
use mcp_server_for_sql_agent.Errors.{Result, Rejection, ok, reject}
use mcp_server_for_sql_agent.Regex.{last_of}
use mcp_server_for_sql_agent.Validator.Segments.{Segment, Segments}
use mcp_server_for_sql_agent.Validator.Refusals.{Refusal}
use mcp_server_for_sql_agent.Prelude.{◌++◌, Option, ◌⊎◌, ◌≡◌, ℕ}
use mcp_server_for_sql_agent.Prelude.Strs.{Str}

module _ (u : Unicode) (dialect : Str) where
  -- Pieces of the text come first, and behind them something is wrong.
  pub data Breaks : Option ℕ → Str → Rejection → Type 0 where
    here :
        {prev : Option ℕ} {t : Str} {why : Rejection}
        → Refusal u dialect prev t why
        → Breaks prev t why
    behind :
        {prev : Option ℕ} {why : Rejection} (raw rest shown : Str)
        → Segment u dialect prev raw rest shown
        → Breaks (last_of prev raw) rest why
        → Breaks prev (raw ++ rest) why

  abbrev pub Ends : Option ℕ → Str → Result Str → Type 0
  Ends prev t r =
      ((out : Str) × (r ≡ ok out) × Segments u dialect prev t out)
      ⊎ ((why : Rejection) × (r ≡ reject why) × Breaks prev t why)
