-- ===== src/Permissions/Opens.antt =====
-- Opened connections of services/tool_service.py and the caller's grants.
use mcp_server_for_sql_agent.Unicode.{Unicode, casefold}
use mcp_server_for_sql_agent.Errors.{ok-ne-raised, McpSqlError, Result, ok, raised}
use mcp_server_for_sql_agent.Exec.{
  lift, pure-eq-ok, raise_if-eq-ok, Exec, pure, raise, raise_if, ◌>>=◌, continue, bind-eq-ok,
}
use mcp_server_for_sql_agent.Models.{Caller, subjects, ConnectionRecord}
use mcp_server_for_sql_agent.World.{World, AppMeta}
use mcp_server_for_sql_agent.Store.{
  MetaStore, DbAdapter, AdapterProvider, IsQuiet, StoreLaws, ProviderLaws,
}
use mcp_server_for_sql_agent.Permissions.{
  ConnectionAccess, require_tool, with_tables, open_connection, open_tool,
}
use mcp_server_for_sql_agent.Prelude.Strs.{str_in, Str}
use mcp_server_for_sql_agent.Prelude.{
  sym, arith, subst, ap, map, List, some, none, Option, not, false, true, Bool, ◌∙◌, refl, ◌≡◌,
}

not-eq-false : (b : Bool) → not b ≡ false → b ≡ true
not-eq-false b h = ground arith

module _ {A B : Type 0} where
  pub IsQuiet-bind :
      (m : Exec World A) (f : A → Exec World B)
      → IsQuiet m
      → ((a : A) → IsQuiet (f a))
      → IsQuiet (m >>= f)
  unfolding ◌>>=◌
  IsQuiet-bind m f q qs = record {
    calls = λ w. go-calls (m w).0 (m w).1 w (q.calls w);
    meta = λ w. go-meta (m w).0 (m w).1 w (q.meta w);
  }
    where
      go-calls :
          (r : Result A) (w' : World) (w : World)
          → w'.db_calls ≡ w.db_calls
          → (continue r f w').1.db_calls ≡ w.db_calls
      go-calls (ok a) w' w e = (qs a).calls w' ∙ e
      go-calls (raised x) w' w e = e

      go-meta :
          (r : Result A) (w' : World) (w : World)
          → w'.app_meta ≡ w.app_meta
          → (continue r f w').1.app_meta ≡ w.app_meta
      go-meta (ok a) w' w e = (qs a).meta w' ∙ e
      go-meta (raised x) w' w e = e

module _ {A : Type 0} where
  pub IsQuiet-pure : (a : A) → IsQuiet (pure a)
  unfolding pure
  IsQuiet-pure a = record { calls = λ w. refl; meta = λ w. refl }

  pub IsQuiet-raise : (e : McpSqlError) → IsQuiet (raise {A = A} e)
  unfolding raise
  IsQuiet-raise e = record { calls = λ w. refl; meta = λ w. refl }

module _ {A : Type 0} where
  pub IsQuiet-lift : (r : Result A) → IsQuiet (lift r)
  unfolding lift
  IsQuiet-lift r = record { calls = λ w. refl; meta = λ w. refl }

pub IsQuiet-raise_if : (b : Bool) (e : McpSqlError) → IsQuiet (raise_if b e)
unfolding raise_if
IsQuiet-raise_if true e = record { calls = λ w. refl; meta = λ w. refl }
IsQuiet-raise_if false e = record { calls = λ w. refl; meta = λ w. refl }

module _ (u : Unicode) (store : MetaStore) (adapters : AdapterProvider) where
  module _ (laws : StoreLaws store) (provider : ProviderLaws adapters) where
    with_tables-quiet :
        (caller : Caller) (name : Str) (found : Option ConnectionRecord)
        → IsQuiet (with_tables u store caller name found)
    unfolding with_tables
    with_tables-quiet caller name none = IsQuiet-raise _
    with_tables-quiet caller name (some r) =
        IsQuiet-bind _ _ (laws.allowed_tables r.id (subjects caller)) (λ granted. IsQuiet-pure _)

    require_tool-quiet : (caller : Caller) (tool : Str) → IsQuiet (require_tool u store caller tool)
    unfolding require_tool
    require_tool-quiet caller tool =
        IsQuiet-bind _ _ (laws.allowed_tools (subjects caller)) (λ allowed. IsQuiet-raise_if _ _)

    -- Opening a connection for a tool, whether it succeeds or not, asks nothing of a target database and leaves app_meta alone, if the store's lookups and the adapters' provider do.
    pub open_tool-quiet :
        (caller : Caller) (tool name : Str) → IsQuiet (open_tool u store adapters caller tool name)
    unfolding open_tool open_connection
    open_tool-quiet caller tool name =
        IsQuiet-bind _ _
          (IsQuiet-bind _ _ (require_tool-quiet caller tool) (λ done.
            IsQuiet-bind _ _ (laws.get_connection name (subjects caller))
              (with_tables-quiet caller name)))
          (λ access. IsQuiet-bind _ _ (provider.quiet access.record_of) (λ adapter. IsQuiet-pure _))

  -- The caller's grant on a connection, as the store answered while app_meta was `m`.
  pub record Reachable (m : AppMeta) (caller : Caller) (name : Str) (access : ConnectionAccess)
      : Type 0 where
    pub found_at : World
    pub tables_at : World
    pub granted : List Str
    pub found_then : found_at.app_meta ≡ m
    pub tables_then : tables_at.app_meta ≡ m
    pub found :
        (store.get_connection name (subjects caller) found_at).0 ≡ ok (some access.record_of)
    pub asked :
        (store.allowed_tables access.record_of.id (subjects caller) tables_at).0 ≡ ok granted
    pub tables : access.tables ≡ map (casefold u) granted

  -- The caller's grant on a tool, as the store answered while app_meta was `m`.
  pub record MayUse (m : AppMeta) (caller : Caller) (tool : Str) : Type 0 where
    pub asked_at : World
    pub tools : List Str
    pub asked_then : asked_at.app_meta ≡ m
    pub asked : (store.allowed_tools (subjects caller) asked_at).0 ≡ ok tools
    pub listed : str_in tool tools ≡ true

  with_tables-Reachable :
      (m : AppMeta) (caller : Caller) (name : Str) (w₀ w w' : World) (o : Option ConnectionRecord)
      (access : ConnectionAccess)
      → w₀.app_meta ≡ m
      → w.app_meta ≡ m
      → (store.get_connection name (subjects caller) w₀).0 ≡ ok o
      → with_tables u store caller name o w ≡ (ok access, w')
      → Reachable m caller name access
  unfolding with_tables raise
  with_tables-Reachable m caller name w₀ w w' none access m₀ m₁ e h =
      absurd (ok-ne-raised (ap (λ q. q.0) h))
  with_tables-Reachable m caller name w₀ w w' (some r) access m₀ m₁ e h =
      let (granted, w₁, a, h₁) =
        bind-eq-ok (store.allowed_tables r.id (subjects caller)) _ w w' h in
      let (same, _) = pure-eq-ok _ access w₁ w' h₁ in
      rw (← same) (record {
        found_at = w₀;
        tables_at = w;
        granted = granted;
        found_then = m₀;
        tables_then = m₁;
        found = e;
        asked = ap (λ q. q.0) a;
        tables = refl;
      })

  require_tool-MayUse :
      (caller : Caller) (tool : Str) (w w' : World)
      → require_tool u store caller tool w ≡ (ok tt, w')
      → MayUse w.app_meta caller tool
  unfolding require_tool
  require_tool-MayUse caller tool w w' h =
      let (tools, w₁, a, h₁) = bind-eq-ok (store.allowed_tools (subjects caller)) _ w w' h in
      let (listed, _) = raise_if-eq-ok _ _ w₁ w' h₁ in
      record {
        asked_at = w;
        tools = tools;
        asked_then = refl;
        asked = ap (λ q. q.0) a;
        listed = not-eq-false _ listed;
      }

  -- What stands behind a connection that was opened for a tool call.
  pub record Granted (m : AppMeta) (caller : Caller) (tool name : Str) (access : ConnectionAccess)
      (adapter : DbAdapter) : Type 0 where
    pub may_use : MayUse m caller tool
    pub reachable : Reachable m caller name access
    pub opened_at : World
    pub opened_in : World
    pub opened : adapters.adapter_for access.record_of opened_at ≡ (ok adapter, opened_in)

  module _ (laws : StoreLaws store) (provider : ProviderLaws adapters) where
    -- If a connection is opened for a tool, then the store, as app_meta was when the call came, lists the tool for the caller, finds the connection for them, and gives the tables that the opened connection holds, casefolded; and the adapter is the one of that connection.
    pub open_tool-Granted :
        (caller : Caller) (tool name : Str) (w w' : World) (access : ConnectionAccess)
        (adapter : DbAdapter)
        → open_tool u store adapters caller tool name w ≡ (ok (access, adapter), w')
        → Granted w.app_meta caller tool name access adapter
    unfolding open_tool open_connection
    open_tool-Granted caller tool name w w' access adapter h =
        let (a, w₁, opened, h₁) = bind-eq-ok (open_connection u store caller tool name) _ w w' h in
        let (d, w₂, o, h₂) = bind-eq-ok (adapters.adapter_for a.record_of) _ w₁ w' h₁ in
        let (same, _) = pure-eq-ok (a, d) (access, adapter) w₂ w' h₂ in
        let (done, w₃, tool_ok, h₃) = bind-eq-ok (require_tool u store caller tool) _ w w₁ opened in
        let (found, w₄, f, h₄) =
          bind-eq-ok (store.get_connection name (subjects caller)) _ w₃ w₁ h₃ in
        let m₃ : w₃.app_meta ≡ w.app_meta =
          sym (ap (λ q. q.1.app_meta) tool_ok)
          ∙ (require_tool-quiet laws provider caller tool).meta w in
        let m₄ : w₄.app_meta ≡ w.app_meta =
          sym (ap (λ q. q.1.app_meta) f)
          ∙ ((laws.get_connection name (subjects caller)).meta w₃ ∙ m₃) in
        subst (λ q. Granted w.app_meta caller tool name q.0 q.1) same
          (record {
            may_use = require_tool-MayUse caller tool w w₃ tool_ok;
            reachable =
                with_tables-Reachable w.app_meta caller name w₃ w₄ w₁ found a m₃ m₄
                  (ap (λ q. q.0) f) h₄;
            opened_at = w₁;
            opened_in = w₂;
            opened = o;
          })
