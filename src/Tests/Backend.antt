-- ===== src/Tests/Backend.antt =====
-- The handlers of gui_backend on the installation of `Setup`.
use mcp_server_for_sql_agent.Tests.Setup.{tables, world, database, shop_row, analyst}
use mcp_server_for_sql_agent.Cache.{null_cache}
use mcp_server_for_sql_agent.Backend.Grants.{
  accepts_tables, find_connection, Change, Grant, TableChanges, ToolChanges, change_table_access,
  change_tool_access,
}
use mcp_server_for_sql_agent.Backend.Grants.Handlers.{
  TablesApplied, change_table_access-TablesApplied, change_table_access-FailsClean,
}
use mcp_server_for_sql_agent.Backend.Grants.ToolHandler.{
  change_tool_access-ToolsApplied, ToolsApplied, change_tool_access-unknown,
}
use mcp_server_for_sql_agent.Backend.Grants.Visible.{granted_table-Visible}
use mcp_server_for_sql_agent.Backend.Access.Replaced.{AccessReplaced, set_access-AccessReplaced}
use mcp_server_for_sql_agent.Prelude.{
  map, ◌∷◌, [], List, some, none, false, true, inl, refl, ◌≡◌, IsIn,
}
use mcp_server_for_sql_agent.Prelude.Strs.{IsIn-str_in, Str, codes, str_eq, str_in}
use mcp_server_for_sql_agent.Exec.{◌>>=◌}
use mcp_server_for_sql_agent.Errors.{ok, http, raised}
use mcp_server_for_sql_agent.Backend.Access.{NamedSubject, set_access}
use mcp_server_for_sql_agent.World.{World}
use mcp_server_for_sql_agent.Cache.Laws.{CacheLaws}
use mcp_server_for_sql_agent.Backend.{User}
use mcp_server_for_sql_agent.Permissions.{all_tool_names}
use mcp_server_for_sql_agent.Models.{user, Subject}
use mcp_server_for_sql_agent.Postgres.{postgres_allowed_tables}
use mcp_server_for_sql_agent.Backend.Grants.Effects.{Grants}

abbrev pub root : User
root = record { sub = codes "root"; name = none; roles = []; is_admin = true }

pub null_cache-CacheLaws : CacheLaws null_cache
null_cache-CacheLaws = record {
  get = λ k w. record { calls = refl; meta = refl };
  set = λ k v t w. record { calls = refl; meta = refl };
  version = λ f w. record { calls = refl; meta = refl };
  bump = λ f w. record { calls = refl; meta = refl };
}

-- `pay` is granted, `Orders` revoked.
abbrev pub swap : TableChanges
swap = record {
  connection_id = 7;
  subject = analyst;
  changes =
      record { name = codes "pay"; granted = true }
      ∷ record { name = codes "Orders"; granted = false }
      ∷ [];
}

abbrev swapped : List Grant
swapped = record { subject = analyst; name = codes "pay" } ∷ []

abbrev after_swap : World
after_swap = (change_table_access database null_cache swap root world).1

swaps : change_table_access database null_cache swap root world ≡ (ok swapped, after_swap)
unfolding change_table_access ◌>>=◌ str_in str_eq
swaps = refl

change_table_access-TablesApplied_example :
    TablesApplied 50 swap root swapped world.app_meta after_swap.app_meta
change_table_access-TablesApplied_example =
    change_table_access-TablesApplied database null_cache null_cache-CacheLaws swap root world
      after_swap swapped swaps

-- a connection that is not registered
abbrev elsewhere : TableChanges
elsewhere = record swap { connection_id = 8 }

abbrev after_refusal : World
after_refusal = (change_table_access database null_cache elsewhere root world).1

refuses :
    change_table_access database null_cache elsewhere root world
    ≡ (raised (http 404 (codes "That connection doesn't exist.")), after_refusal)
unfolding change_table_access ◌>>=◌
refuses = refl

change_table_access-FailsClean_example : after_refusal ≡ world
change_table_access-FailsClean_example =
    change_table_access-FailsClean database null_cache elsewhere root world after_refusal
      (http 404 (codes "That connection doesn't exist.")) refuses

abbrev retool : ToolChanges
retool = record {
  subject = analyst;
  changes =
      record { name = codes "search_schema"; granted = true }
      ∷ record { name = codes "run_query"; granted = false }
      ∷ [];
}

abbrev retooled : List Grant
retooled =
    map (λ name. record { subject = analyst; name = name })
      (codes "describe_table"
        ∷ codes "explain_query"
        ∷ codes "get_relationships"
        ∷ codes "get_sample_rows"
        ∷ codes "list_tables"
        ∷ codes "search_schema"
        ∷ [])

abbrev after_retool : World
after_retool = (change_tool_access database null_cache retool root world).1

retools : change_tool_access database null_cache retool root world ≡ (ok retooled, after_retool)
unfolding change_tool_access ◌>>=◌ str_in str_eq
retools = refl

change_tool_access-ToolsApplied_example :
    ToolsApplied 50 retool root world.app_meta after_retool.app_meta
change_tool_access-ToolsApplied_example =
    change_tool_access-ToolsApplied database null_cache null_cache-CacheLaws retool root world
      after_retool retooled retools

abbrev unheard_of : Change
unheard_of = record { name = codes "drop_table"; granted = true }

no_such_tool : ¬ IsIn (codes "drop_table") all_tool_names
unfolding all_tool_names str_in str_eq
no_such_tool m = let h = IsIn-str_in (codes "drop_table") all_tool_names m in cc

change_tool_access-unknown_example :
    (detail : Str) × (change_tool_access database null_cache
        (record retool { changes = unheard_of ∷ retool.changes })
        root
        world
      ≡ (raised (http 422 detail), world))
change_tool_access-unknown_example =
    change_tool_access-unknown database null_cache
      (record retool { changes = unheard_of ∷ retool.changes }) root world unheard_of (inl refl)
      no_such_tool

pub shop_is_found : find_connection 7 tables.connections ≡ some shop_row
unfolding find_connection
shop_is_found = refl

fits : accepts_tables swap ≡ true
unfolding accepts_tables
fits = refl

granted_table-Visible_example :
    (gs : List Grant) × (w' : World) × (change_table_access database null_cache swap root world
      ≡ (ok gs, w'))
    × ((subs : List Subject)
        → IsIn analyst subs
        → (ts : List Str) × (postgres_allowed_tables database 7 subs w' ≡ (ok ts, w'))
          × ((t : Str) → Grants swap.changes t → IsIn t ts))
granted_table-Visible_example =
    granted_table-Visible database (λ w. refl) null_cache null_cache-CacheLaws swap root world
      shop_row fits shop_is_found

-- the analysts lose the connection, alice gets it
abbrev pub chosen : List NamedSubject
chosen = record { subject = (user, codes "alice"); display_name = none } ∷ []

abbrev after_choice : World
after_choice = (set_access database null_cache 7 chosen root world).1

chooses : set_access database null_cache 7 chosen root world ≡ (ok chosen, after_choice)
unfolding set_access ◌>>=◌ str_eq
chooses = refl

set_access-AccessReplaced_example :
    AccessReplaced 7 chosen chosen world.app_meta after_choice.app_meta
set_access-AccessReplaced_example =
    set_access-AccessReplaced database null_cache null_cache-CacheLaws 7 chosen chosen root world
      after_choice chooses
