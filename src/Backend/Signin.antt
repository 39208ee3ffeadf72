-- ===== src/Backend/Signin.antt =====
-- auth.py and routers/me.py: who is asking, and whether they are an administrator.
pub mod Gate
use mcp_server_for_sql_agent.Values.{Members, Json}
use mcp_server_for_sql_agent.Exec.{Exec, pure, lift, ◌>>=◌, ◌>>◌}
use mcp_server_for_sql_agent.Models.{user}
use mcp_server_for_sql_agent.Prelude.{List, some, none, Option, ◌||◌, Bool, any_of, if◌then◌else◌}
use mcp_server_for_sql_agent.Prelude.Strs.{str_in, codes, Str}
use mcp_server_for_sql_agent.Prelude.Sorting.{sorted_set, sorted}
use mcp_server_for_sql_agent.Values.{Json}
use mcp_server_for_sql_agent.Unicode.{Unicode}
use mcp_server_for_sql_agent.Introspection.{AccessToken, is_text}
use mcp_server_for_sql_agent.World.{World}
use mcp_server_for_sql_agent.Backend.{alter, User, transaction, refuse}
use mcp_server_for_sql_agent.Callers.{caller_from_claims}
use mcp_server_for_sql_agent.Postgres.{Database, note_subject}

-- A scope may be any JSON value.
unfoldable pub has_scope : Str → List Json → Bool
has_scope s scopes = any_of (is_text s) scopes

-- `verify` is the token verifier, and `admin_role` and `roles_claim` are settings.
module _ (u : Unicode) (as_text : Json → Str) (verify : Str → Exec World (Option AccessToken))
    (roles_claim admin_role : Str) where
  abbrev invalid_token : {A : Type 0} → Exec World A
  invalid_token = refuse 401 (codes "The access token is invalid or has expired.")

  unfoldable pub user_of : AccessToken → Exec World User
  unfolding refuse caller_from_claims has_scope
  user_of access = elim access.claims [
    | Members.end ↦ invalid_token
    | Members.member k v ms ↦ (do
      caller ← lift (caller_from_claims u as_text (Members.member k v ms) roles_claim)
      pure (record {
        sub = caller.sub;
        name = caller.name;
        roles = caller.roles;
        is_admin = str_in admin_role caller.roles || has_scope admin_role access.scopes;
      }))
  ]

  abbrev user_or_refuse : Option AccessToken → Exec World User
  user_or_refuse none = invalid_token
  user_or_refuse (some access) = user_of access

  unfoldable pub current_user : Option Str → Exec World User
  unfolding refuse user_of
  current_user none = refuse 401 (codes "Sign in to continue.")
  current_user (some token) = do access ← verify token; user_or_refuse access

  unfoldable pub require_admin : User → Exec World User
  unfolding refuse
  require_admin who =
      if who.is_admin then pure who else refuse 403 (codes "This action needs an administrator.")

  -- An endpoint with an `Admin` parameter: the person is looked up and judged first.
  unfoldable pub as_admin : {A : Type 0} → (User → Exec World A) → Option Str → Exec World A
  unfolding current_user require_admin
  as_admin handler credentials = do
    who ← current_user credentials
    admin ← require_admin who
    handler admin

  pub record Me : Type 0 where
    pub sub : Str
    pub name : Option Str
    pub roles : List Str
    pub is_admin : Bool

  unfoldable pub me : Database → User → Exec World Me
  unfolding transaction alter note_subject sorted
  me db who = do
    transaction db (λ now. alter (λ m. record m {
      known_subjects = note_subject now (user, who.sub) who.name m.known_subjects;
    }))
    pure (record {
      sub = who.sub;
      name = who.name;
      roles = sorted_set who.roles;
      is_admin = who.is_admin;
    })
