-- ===== src/Tests/Text.antt =====
-- The sanitizer, the limits and the store on concrete values.
use mcp_server_for_sql_agent.Regex.{search}
use mcp_server_for_sql_agent.Sanitizer.Rules.{rules}
use mcp_server_for_sql_agent.Prelude.Sorting.{sorted_set}
use mcp_server_for_sql_agent.Unicode.{other}
use mcp_server_for_sql_agent.Unicode.Ascii.{ascii, ascii_category}
use mcp_server_for_sql_agent.Errors.{ok}
use mcp_server_for_sql_agent.Models.{ConnectionRecord, subjects}
use mcp_server_for_sql_agent.Sanitizer.{clean_value}
use mcp_server_for_sql_agent.Sanitizer.Visible.{
  printable, AsciiIsPlain, JsonVisible, clean_value-JsonVisible,
}
use mcp_server_for_sql_agent.Values.{Json}
use mcp_server_for_sql_agent.Postgres.{postgres_get_connection, tables_of, tools_of}
use mcp_server_for_sql_agent.Postgres.Laws.{
  MayOpen, MaySee, MayCall, get_connection-MayOpen, get_connection-hidden, tables_of-MaySee,
  tools_of-MayCall,
}
use mcp_server_for_sql_agent.Sanitizer.Visible.{AllVisible}
use mcp_server_for_sql_agent.Sanitizer.{first_matching_rule, is_visible}
use mcp_server_for_sql_agent.Tests.Setup.{alice, tables, world, database, shop}
use mcp_server_for_sql_agent.Prelude.{
  ◌≤◌, length, arith, ◌∷◌, [], some, none, true, ◌↔◌, refl, ◌≡◌, IsIn, ℕ,
}
use mcp_server_for_sql_agent.Prelude.Strs.{codes, str_eq, str_in}

ascii-AsciiIsPlain : AsciiIsPlain ascii
ascii-AsciiIsPlain c h = go c h
  where
    go : (c : ℕ) → printable c ≡ true → ascii_category c ≡ other
    go c h = ground arith

clean_value-JsonVisible_example :
    JsonVisible ascii (clean_value ascii 2000 (Json.str (98 ∷ 8203 ∷ 99 ∷ [])) (codes "cell") []).0
clean_value-JsonVisible_example =
    clean_value-JsonVisible ascii ascii-AsciiIsPlain 2000 (Json.str (98 ∷ 8203 ∷ 99 ∷ []))
      (codes "cell") []

plain_visible : AllVisible ascii (codes "plain")
unfolding is_visible
plain_visible = (refl, (refl, (refl, (refl, (refl, tt)))))

no_rule : first_matching_rule ascii (codes "plain") ≡ none
unfolding first_matching_rule rules search
no_rule = refl

small : length (codes "plain") ≤ 2000
small = omega arith

finds :
    postgres_get_connection database (codes "shop") (subjects alice) world ≡ (ok (some shop), world)
unfolding postgres_get_connection str_eq subjects sorted_set str_in
finds = refl

get_connection-MayOpen_example : MayOpen tables (subjects alice) (codes "shop") shop
get_connection-MayOpen_example =
    get_connection-MayOpen database (codes "shop") (subjects alice) world world shop finds

no_rows : (r : ConnectionRecord) → ¬ MayOpen tables [] (codes "shop") r
no_rows r x = x.for_subject

get_connection-hidden_example :
    postgres_get_connection database (codes "shop") [] world ≡ (ok none, world)
get_connection-hidden_example = get_connection-hidden database (codes "shop") [] world refl no_rows

tables_of-MaySee_example :
    IsIn (codes "Orders") (tables_of tables 7 (subjects alice))
    ↔ MaySee tables 7 (subjects alice) (codes "Orders")
tables_of-MaySee_example = tables_of-MaySee tables 7 (subjects alice) (codes "Orders")

tools_of-MayCall_example :
    IsIn (codes "run_query") (tools_of tables (subjects alice))
    ↔ MayCall tables (subjects alice) (codes "run_query")
tools_of-MayCall_example = tools_of-MayCall tables (subjects alice) (codes "run_query")
