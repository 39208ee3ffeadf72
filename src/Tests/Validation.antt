-- ===== src/Tests/Validation.antt =====
-- The validator on short texts.
use mcp_server_for_sql_agent.Regex.{match_at, search}
use mcp_server_for_sql_agent.Unicode.Ascii.{ascii}
use mcp_server_for_sql_agent.Unicode.{casefold, is_word_char}
use mcp_server_for_sql_agent.Errors.{ok}
use mcp_server_for_sql_agent.Validator.Segments.{Segments}
use mcp_server_for_sql_agent.Validator.Mask.{mask_comments_and_quotes}
use mcp_server_for_sql_agent.Validator.Validate.{
  check_text, canonical_table_name, scope_names, validate,
}
use mcp_server_for_sql_agent.Validator.Accepted.{Accepted, validate-Accepted}
use mcp_server_for_sql_agent.Validator.Keywords.{IsOneOf, StandsIn, check_text-no_word}
use mcp_server_for_sql_agent.Validator.Patterns.{
  dangerous_functions, forbidden_keywords, locking_re, starts_like_query_re, whole_word,
}
use mcp_server_for_sql_agent.Validator.Sqlglot.{TableNode, Source, table, scope}
use mcp_server_for_sql_agent.Validator.Tables.{
  IsSource, scope_names_complete, scope_names_sound, canonical-default_schema,
}
use mcp_server_for_sql_agent.Tests.Setup.{parser, orders}
use mcp_server_for_sql_agent.Prelude.{◌∷◌, [], List, some, none, inr, inl, refl, ◌≡◌, IsIn}
use mcp_server_for_sql_agent.Prelude.Strs.{char_in, codes, starts_with, str_eq}

passes : check_text ascii (codes "SELECT 1") ≡ ok tt
unfolding check_text char_in match_at starts_like_query_re search whole_word forbidden_keywords
    locking_re dangerous_functions
passes = refl

is_forbidden : IsOneOf forbidden_keywords (codes "DROP")
unfolding forbidden_keywords
is_forbidden = inl refl

check_text-no_word_example : ¬ StandsIn (is_word_char ascii) (codes "SELECT 1") [] (codes "DROP") []
check_text-no_word_example =
    check_text-no_word ascii (codes "SELECT 1") [] (codes "DROP") [] passes (inl is_forbidden)

validates :
    validate ascii parser 100 (codes "SELECT 1") (codes "postgresql") (some (codes "public"))
    ≡ ok (record { sql = codes "SELECT 1"; tables = codes "orders" ∷ [] })
unfolding validate char_in mask_comments_and_quotes starts_with starts_like_query_re search
    whole_word forbidden_keywords locking_re dangerous_functions str_eq casefold
validates = refl

validate-Accepted_example :
    Accepted ascii parser 100
      (codes "SELECT 1")
      (codes "postgresql")
      (some (codes "public"))
      (record { sql = codes "SELECT 1"; tables = codes "orders" ∷ [] })
validate-Accepted_example =
    validate-Accepted ascii parser 100 (codes "SELECT 1") (codes "postgresql")
      (some (codes "public")) (record { sql = codes "SELECT 1"; tables = codes "orders" ∷ [] })
      validates

abbrev scopes : List (List Source)
scopes = (scope ∷ []) ∷ (table orders ∷ []) ∷ []

scope_names_complete_example :
    IsIn (canonical_table_name ascii orders none) (scope_names ascii none scopes)
scope_names_complete_example =
    scope_names_complete ascii none orders scopes
      (table orders ∷ [], inr (inl refl), inl refl, refl)

one_name : IsIn (codes "Public.orders") (scope_names ascii none scopes)
unfolding scope_names
one_name = inl refl

scope_names_sound_example :
    (t : TableNode) × IsSource t scopes
    × (codes "Public.orders" ≡ canonical_table_name ascii t none)
scope_names_sound_example = scope_names_sound ascii none (codes "Public.orders") scopes one_name

folds : casefold ascii (codes "Public") ≡ casefold ascii (codes "public")
unfolding casefold
folds = refl

canonical-default_schema_example :
    canonical_table_name ascii orders (some (codes "public"))
    ≡ canonical_table_name ascii (record orders { db = [] }) (some (codes "public"))
canonical-default_schema_example =
    canonical-default_schema ascii (codes "public") orders refl refl refl refl folds
