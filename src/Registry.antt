-- ===== src/Registry.antt =====
-- `ConnectionRegistry` of services/connection_registry.py: one open adapter for each connection.
pub mod Keeps
use mcp_server_for_sql_agent.Values.{Json, Members}
use mcp_server_for_sql_agent.Errors.{Result, ok, raised, Exn, domain, connection_unavailable}
use mcp_server_for_sql_agent.Exec.{Exec}
use mcp_server_for_sql_agent.Models.{ConnectionRecord}
use mcp_server_for_sql_agent.Prelude.{
  ◌++◌, ◌∷◌, [], List, some, none, Option, false, true, Bool, suc, if◌then◌else◌, ◌==◌, ℕ,
}
use mcp_server_for_sql_agent.Prelude.Strs.{str_eq, codes, Str}

unfoldable pub driver_of : Str → Option Str
driver_of engine =
    if str_eq engine (codes "postgresql")
    then some (codes "asyncpg")
    else if str_eq engine (codes "mysql")
    then some (codes "aiomysql")
    else if str_eq engine (codes "mssql")
    then some (codes "aioodbc")
    else if str_eq engine (codes "sqlite")
    then some (codes "aiosqlite")
    else none

-- `details.get(key)`
unfoldable pub member_of : Members → Str → Option Json
member_of Members.end key = none
member_of (Members.member k v ms) key =
    let later = member_of ms key in if str_eq k key then some v else later

abbrev pub detail_of : Json → Str → Option Json
detail_of (Json.object ms) key = member_of ms key
detail_of _ key = none

-- What `URL.create` is given.
pub record EngineUrl : Type 0 where
  pub drivername : Str
  pub username : Option Json
  pub password : Option Str
  pub host : Option Json
  pub port : Option Json
  pub database : Option Json
  pub query : Option Json

abbrev pub url_for_driver : ConnectionRecord → Option Str → Str → Option EngineUrl
url_for_driver r password driver =
    if str_eq r.engine (codes "sqlite")
    then elim (detail_of r.details (codes "path")) [
      | none ↦ none
      | some path ↦ some (record {
        drivername = codes "sqlite+" ++ driver;
        username = none;
        password = none;
        host = none;
        port = none;
        database = some path;
        query = none;
      })
    ]
    else some (record {
      drivername = r.engine ++ (b'+' ∷ driver);
      username = detail_of r.details (codes "username");
      password = password;
      host = detail_of r.details (codes "host");
      port = detail_of r.details (codes "port");
      database = detail_of r.details (codes "database");
      query = detail_of r.details (codes "options");
    })

-- `none` stands for the `ValueError` of an unknown engine and the `KeyError` of a missing path.
unfoldable pub build_engine_url : ConnectionRecord → Option Str → Option EngineUrl
unfolding driver_of member_of
build_engine_url r password = elim (driver_of r.engine) [
  | none ↦ none
  | some driver ↦ url_for_driver r password driver
]

-- An open adapter, by the number of the opening, for a connection as it was last edited.
pub record Entry : Type 0 where
  pub id : ℕ
  pub version : ℕ
  pub adapter : ℕ

-- `next` counts the adapters that were opened, and `closed` lists those that were closed.
pub record Registry : Type 0 where
  pub adapters : List Entry
  pub next : ℕ
  pub closed : List ℕ

unfoldable pub find_entry : ℕ → List Entry → Option Entry
find_entry id [] = none
find_entry id (e ∷ es) = let later = find_entry id es in if e.id == id then some e else later

-- `del self._adapters[id]`
unfoldable pub remove_entry : ℕ → List Entry → List Entry
remove_entry id [] = []
remove_entry id (e ∷ es) = let rest = remove_entry id es in if e.id == id then rest else e ∷ rest

-- `decrypt` is the secret box's; `connects` says whether the new adapter's engine connects, and
-- `close_fails` gives the exception, if any, with which the closing of an adapter fails.
module _ (decrypt : Str → Option Str) (connects : EngineUrl → Option Json → ℕ → Bool)
    (close_fails : ℕ → Option Exn) where
  -- `decrypt(secret) if secret else None`; the outer `none` is a failed decryption
  abbrev pub password_of : Option Str → Option (Option Str)
  password_of (some (c ∷ s)) = elim (decrypt (c ∷ s)) [ none ↦ none | some p ↦ some (some p) ]
  password_of _ = some none

  abbrev pub url_of : ConnectionRecord → Option EngineUrl
  url_of r = elim (password_of r.secret_encrypted) [ none ↦ none | some p ↦ build_engine_url r p ]

  unfoldable pub can_open : ConnectionRecord → Registry → Bool
  unfolding build_engine_url
  can_open r s = elim (url_of r) [
    | none ↦ false
    | some url ↦ connects url (detail_of r.details (codes "schemas")) s.next
  ]

  abbrev pub store_opened : Bool → ConnectionRecord → Registry → Result ℕ × Registry
  store_opened false r s = (raised (domain (connection_unavailable r.name)), s)
  store_opened true r s = (
    ok s.next,
    record s {
      adapters = record { id = r.id; version = r.updated_at; adapter = s.next } ∷ s.adapters;
      next = suc s.next;
    },
  )

  -- `_open`, and the entry for what it opened
  unfoldable pub open_new : ConnectionRecord → Exec Registry ℕ
  unfolding can_open
  open_new r s = store_opened (can_open r s) r s

  abbrev pub replace : Option Exn → ConnectionRecord → Entry → Registry → Result ℕ × Registry
  replace (some e) r old s = (raised e, s)
  replace none r old s =
      open_new r
        (record s { adapters = remove_entry r.id s.adapters; closed = old.adapter ∷ s.closed })

  abbrev pub with_entry : Option Entry → ConnectionRecord → Registry → Result ℕ × Registry
  with_entry none r s = open_new r s
  with_entry (some e) r s =
      if e.version == r.updated_at then (ok e.adapter, s) else replace (close_fails e.adapter) r e s

  unfoldable pub adapter_for : ConnectionRecord → Exec Registry ℕ
  unfolding find_entry remove_entry open_new
  adapter_for r s = with_entry (find_entry r.id s.adapters) r s
