-- ===== src/Backend.antt =====
-- What the handlers of gui-backend/gui_backend share: the transactions on app_meta, and
-- changes.py with the log of what administrators did.
pub mod Rows
pub mod Laws
pub mod Subjects
pub mod Grants
pub mod Grids
pub mod Details
pub mod Connections
pub mod Access
pub mod Check
pub mod Probe
pub mod Reports
pub mod Descriptions
pub mod Overview
pub mod Signin
pub mod Consistent
pub mod Requests
use mcp_server_for_sql_agent.Errors.{Result, ok, raised, http}
use mcp_server_for_sql_agent.Exec.{Exec}
use mcp_server_for_sql_agent.Cache.{Cache}
use mcp_server_for_sql_agent.Prelude.{
  ◌++◌, ◌∷◌, [], List, some, none, Option, false, true, Bool, ℕ, if◌then◌else◌,
}
use mcp_server_for_sql_agent.Prelude.Strs.{Str}
use mcp_server_for_sql_agent.Values.{Members}
use mcp_server_for_sql_agent.World.{World, AppMeta}
use mcp_server_for_sql_agent.Postgres.{unless_failed, Database}
use mcp_server_for_sql_agent.Cache.Stored.{schema_family, meta_family}

-- `User` of auth.py.
pub record User : Type 0 where
  pub sub : Str
  pub name : Option Str
  pub roles : List Str
  pub is_admin : Bool

-- `raise HTTPException(status, detail)`
unfoldable pub refuse : {S A : Type 0} → ℕ → Str → Exec S A
refuse status detail s = (raised (http status detail), s)

unfoldable pub refuse_if : {S : Type 0} → Bool → ℕ → Str → Exec S (Unit {0})
refuse_if true status detail s = (raised (http status detail), s)
refuse_if false status detail s = (ok tt, s)

-- `if row is None: raise HTTPException(status, detail)`
unfoldable pub present_or : {S A : Type 0} → ℕ → Str → Option A → Exec S A
present_or status detail none s = (raised (http status detail), s)
present_or status detail (some a) s = (ok a, s)

-- A statement that reads, and one that writes.
unfoldable pub select : {A : Type 0} → (AppMeta → A) → Exec AppMeta A
select f m = (ok (f m), m)

unfoldable pub alter : (AppMeta → AppMeta) → Exec AppMeta (Unit {0})
alter f m = (ok tt, f m)

-- A transaction that ends well is committed; an exception rolls it back.
abbrev pub settle : {A : Type 0} → World → Result A × AppMeta → Result A × World
settle w (ok a, m) = (ok a, record w { app_meta = m })
settle w (raised e, m) = (raised e, w)

-- `async with ctx.engine.begin() as db`: the body is given `now()` of the transaction.
unfoldable pub transaction : {A : Type 0} → Database → (ℕ → Exec AppMeta A) → Exec World A
transaction db body w = unless_failed (db.outage w) w (settle w (body (db.now w) w.app_meta))

-- `log_change`, with `occurred_at` of the table's default
unfoldable pub log_change : ℕ → User → Str → Str → Option Str → Members → Exec AppMeta (Unit {0})
log_change now admin action target_type target details m = (
  ok tt,
  record m {
    admin_log =
        m.admin_log
        ++ record {
          occurred_at = now;
          actor_sub = admin.sub;
          actor_name = admin.name;
          action = action;
          target_type = target_type;
          target = target;
          details = details;
        }
          ∷ [];
  },
)

-- `announce`, with its flags `meta` and `schema`
unfoldable pub announce : Cache → Bool → Bool → Exec World (Unit {0})
announce cache meta schema w =
    let w' = if meta then cache.bump meta_family w else w in
    (ok tt, if schema then cache.bump schema_family w' else w')
