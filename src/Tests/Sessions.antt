-- ===== src/Tests/Sessions.antt =====
-- Requests one after the other, and who is let through, on the installation of `Setup`.
use mcp_server_for_sql_agent.Unicode.Ascii.{ascii}
use mcp_server_for_sql_agent.Backend.Requests.{Request, Surroundings, handle_all}
use mcp_server_for_sql_agent.Tests.Setup.{parser, tables, world, database, adapters, shop_row}
use mcp_server_for_sql_agent.Cache.{null_cache}
use mcp_server_for_sql_agent.Backend.Grants.{find_connection}
use mcp_server_for_sql_agent.Backend.Consistent.Handled.{handle_all-IsConsistent}
use mcp_server_for_sql_agent.Backend.Signin.Gate.{SignedIn, as_admin-SignedIn}
use mcp_server_for_sql_agent.Prelude.{
  none, ◌∷◌, [], List, some, Option, ◌||◌, true, inr, inl, ◌⊎◌, subst, ap, sym, refl, ◌≡◌, ℕ,
}
use mcp_server_for_sql_agent.Prelude.Strs.{Str, codes, str_eq, str_in}
use mcp_server_for_sql_agent.Prelude.Ints.{pos}
use mcp_server_for_sql_agent.Exec.{Exec, ◌>>=◌}
use mcp_server_for_sql_agent.Errors.{ok-eq, ok, raised, Exn}
use mcp_server_for_sql_agent.Introspection.{AccessToken, verify_token}
use mcp_server_for_sql_agent.Backend.Consistent.{IsConsistent, Registered}
use mcp_server_for_sql_agent.Backend.Reports.{ReportIn}
use mcp_server_for_sql_agent.World.{TableRow, AccessRow, World}
use mcp_server_for_sql_agent.Values.{Members, Json}
use mcp_server_for_sql_agent.Backend.{User}
use mcp_server_for_sql_agent.Backend.Consistent.Requests.{Aside}
use mcp_server_for_sql_agent.Store.{DbAdapter}
use mcp_server_for_sql_agent.Backend.Signin.{has_scope, as_admin}
use mcp_server_for_sql_agent.Tests.Backend.{root, swap, chosen, null_cache-CacheLaws, shop_is_found}

abbrev surroundings : Surroundings Str
surroundings = record {
  unicode = ascii;
  sqlglot = parser;
  as_text = λ v. [];
  encrypt = λ s. s;
  decrypt = λ s. some s;
  dict_eq = λ a b. true;
  ilike = λ p s. true;
  uuid_text = λ n. codes "id";
  database = database;
  cache = null_cache;
  registry = adapters;
  check = λ e d p w.
      (ok (record { is_ok = true; message = []; table_count = some 1; latency_ms = some 3 }), w);
}

surroundings-Aside : Aside surroundings
surroundings-Aside = record {
  cache = null_cache-CacheLaws;
  opens = λ r w. refl;
  describes = λ r a v v' h t w.
      subst (λ (b : DbAdapter). (b.describe_table t w).1.app_meta ≡ w.app_meta)
        (ok-eq (ap (λ q. q.0) h)) refl;
  checks = λ e d p w. refl;
}

registered : (id : ℕ) → id ≡ 7 → Registered id tables.connections
registered id e = (
  shop_row,
  subst (λ q. find_connection q tables.connections ≡ some shop_row) (sym e) shop_is_found,
)

tables-IsConsistent : IsConsistent ascii parser tables
tables-IsConsistent = record {
  access = λ a i. elim i [
    | inl e ↦ registered _ (ap (λ (q : AccessRow). q.connection_id) e)
    | inr m ↦ absurd m
  ];
  tables = λ p i. elim i [
    | inl e ↦ registered _ (ap (λ (q : TableRow). q.connection_id) e)
    | inr m ↦ absurd m
  ];
  descriptions = λ d i. absurd i;
  reports = λ r i. absurd i;
}

abbrev weekly : ReportIn
weekly = record {
  name = codes "weekly";
  description = [];
  connection_id = 7;
  sql = codes "SELECT a FROM orders";
  chart_config = Json.null;
}

-- A report is saved, another text is refused, access changes, and the connection, which a report
-- uses, is not removed.
abbrev session : List (Request × User)
session =
    (Request.create_report weekly, root)
    ∷ (Request.create_report (record weekly { sql = codes "DROP TABLE orders" }), root)
    ∷ (Request.set_access 7 chosen, root)
    ∷ (Request.change_tables swap, root)
    ∷ (Request.delete_connection 7, root)
    ∷ []

handle_all-IsConsistent_example :
    IsConsistent ascii parser (handle_all surroundings session world).app_meta
handle_all-IsConsistent_example =
    handle_all-IsConsistent surroundings surroundings-Aside session world tables-IsConsistent

-- The provider calls the token active, and its roles hold that of administrators.
abbrev answered : Members
answered = Members.member (codes "active") (Json.bool true) (
    Members.member (codes "sub") (Json.str (codes "root")) (
      Members.member (codes "exp") (Json.int (pos 500)) (
        Members.member (codes "aud") (Json.str (codes "gui"))
          (Members.member (codes "roles") (Json.str (codes "admin")) Members.end))))

abbrev text_of : Json → Str
text_of (Json.str s) = s
text_of _ = []

abbrev wall_clock : ℕ → ℕ
wall_clock n = 100

abbrev introspect : Str → World → Option Json × World
introspect t w = (some (Json.object answered), w)

abbrev verify : Str → Exec World (Option AccessToken)
verify =
    verify_token ascii text_of (λ s. s) (λ s. none) (λ j. []) wall_clock introspect null_cache
      (codes "gui") none 60

abbrev whoami : User → Exec World Str
whoami who w = (ok who.sub, w)

admits :
    (as_admin ascii text_of verify
      (codes "roles")
      (codes "admin")
      whoami
      (some (codes "t"))
      world).0
    ≡ ok (codes "root")
unfolding as_admin verify_token ◌>>=◌ str_eq str_in
admits = refl

as_admin-SignedIn_example :
    ((e : Exn) × (as_admin ascii text_of verify
          (codes "roles")
          (codes "admin")
          whoami
          (some (codes "t"))
          world
        ≡ (raised e, (verify (codes "t") world).1)))
    ⊎ ((who : User) × (x : SignedIn ascii text_of verify
          (codes "roles")
          (codes "admin")
          (some (codes "t"))
          world
          who)
        × ((str_in (codes "admin") x.caller.roles || has_scope (codes "admin") x.access.scopes)
            ≡ true)
        × (as_admin ascii text_of verify
              (codes "roles")
              (codes "admin")
              whoami
              (some (codes "t"))
              world
            ≡ whoami who x.after))
as_admin-SignedIn_example =
    as_admin-SignedIn ascii text_of verify (codes "roles") (codes "admin") whoami (some (codes "t"))
      world
