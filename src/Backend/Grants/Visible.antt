-- ===== src/Backend/Grants/Visible.antt =====
-- From a grant of an administrator to the lookup of the MCP server: `change_table_access` of
-- routers/permissions.py and `allowed_tables` of services/meta_store.py.
use mcp_server_for_sql_agent.Backend.Grants.Checks.{checks-goes_on, accepted-checks}
use mcp_server_for_sql_agent.Exec.{Exec, pure, continue, ◌>>=◌}
use mcp_server_for_sql_agent.Backend.Grants.{
  find_connection, Grant, change_table_access, load_record, table_changes, TableChanges,
  write_tables, accepts_tables, names_granted,
}
use mcp_server_for_sql_agent.Backend.Grants.Effects.{Grants}
use mcp_server_for_sql_agent.Backend.Grants.Handlers.{change_table_access-TablesApplied}
use mcp_server_for_sql_agent.Prelude.{
  List, some, none, false, true, inl, ◌∙◌, ap, refl, ◌≡◌, ℕ, IsIn,
}
use mcp_server_for_sql_agent.Prelude.Strs.{Str}
use mcp_server_for_sql_agent.Errors.{ok}
use mcp_server_for_sql_agent.Postgres.{tables_of, postgres_allowed_tables, query, Database}
use mcp_server_for_sql_agent.World.{ConnectionRow, AppMeta, World}
use mcp_server_for_sql_agent.Cache.{Cache}
use mcp_server_for_sql_agent.Backend.{
  announce, log_change, User, select, present_or, transaction, alter,
}
use mcp_server_for_sql_agent.Cache.Laws.{CacheLaws}
use mcp_server_for_sql_agent.Models.{Subject}
use mcp_server_for_sql_agent.Cache.Stored.{meta_family}
use mcp_server_for_sql_agent.Postgres.Laws.{tables_of-MaySee}

bind-goes_on :
    {S A B : Type 0} (m : Exec S A) (f : A → Exec S B) (s t : S) (a : A)
    → m s ≡ (ok a, t)
    → (m >>= f) s ≡ f a t
unfolding ◌>>=◌
bind-goes_on m f s t a h = ap (λ p. let (r, s') = p in continue r f s') h

module _ (db : Database) (up : (w : World) → db.outage w ≡ none) where
  transaction-goes_on :
      {A : Type 0} (body : ℕ → Exec AppMeta A) (w : World) (a : A) (m : AppMeta)
      → body (db.now w) w.app_meta ≡ (ok a, m)
      → transaction db body w ≡ (ok a, record w { app_meta = m })
  unfolding transaction
  transaction-goes_on body w a m h = rw (up w, h) refl

  query-goes_on : {A : Type 0} (f : AppMeta → A) (w : World) → query db f w ≡ (ok (f w.app_meta), w)
  unfolding query
  query-goes_on f w = rw (up w) refl

  load_record-goes_on :
      (id : ℕ) (w : World) (c : ConnectionRow)
      → find_connection id w.app_meta.connections ≡ some c
      → load_record db id w ≡ (ok c.record_of, w)
  unfolding load_record present_or pure ◌>>=◌
  load_record-goes_on id w c h =
      rw (query-goes_on (λ m. find_connection id m.connections) w, h) refl

  write_tables-goes_on :
      (body : TableChanges) (admin : User) (name : Str) (now : ℕ) (m : AppMeta)
      → (gs : List Grant) × (m' : AppMeta) × (write_tables db body admin name now m ≡ (ok gs, m'))
  unfolding write_tables alter select log_change ◌>>=◌
  write_tables-goes_on body admin name now m = (_, _, refl)

  table_changes-goes_on :
      (body : TableChanges) (admin : User) (name : Str) (now : ℕ) (m : AppMeta)
      → accepts_tables body ≡ true
      → (gs : List Grant) × (m' : AppMeta) × (table_changes db body admin name now m ≡ (ok gs, m'))
  unfolding table_changes
  table_changes-goes_on body admin name now m h =
      let (gs, m', e) = write_tables-goes_on body admin name now m in
      (
        gs,
        m',
        checks-goes_on body.subject (names_granted body.changes)
              (write_tables db body admin name now) m (accepted-checks body h)
            ∙ e,
      )

  module _ (cache : Cache) where
    told :
        (gs : List Grant) (v : World)
        → (announce cache true false >>= (λ done. pure gs)) v ≡ (ok gs, cache.bump meta_family v)
    unfolding announce pure ◌>>=◌
    told gs v = refl

    change_table_access-goes_on :
        (body : TableChanges) (admin : User) (w : World) (c : ConnectionRow)
        → accepts_tables body ≡ true
        → find_connection body.connection_id w.app_meta.connections ≡ some c
        → (gs : List Grant) × (w' : World) × (change_table_access db cache body admin w
            ≡ (ok gs, w'))
    unfolding change_table_access
    change_table_access-goes_on body admin w c accepted h =
        let (gs, m, e) =
          table_changes-goes_on body admin c.record_of.name (db.now w) w.app_meta accepted in
        (
          gs,
          cache.bump meta_family (record w { app_meta = m }),
          bind-goes_on (load_record db body.connection_id) _ w w c.record_of
                (load_record-goes_on body.connection_id w c h)
              ∙ bind-goes_on _ _ w (record w { app_meta = m }) gs
                  (transaction-goes_on (table_changes db body admin c.record_of.name) w gs m e)
              ∙ told gs (record w { app_meta = m }),
        )

    -- While no transaction and no lookup fails for a reason of the database's own, a request on a registered connection that keeps to the bounds of its fields succeeds, and in the state that it leaves, the MCP server's lookup of the tables that a caller may see on the connection succeeds too and lists every table that the request grants, for every caller of whom the request's subject is one of the subjects.
    pub granted_table-Visible :
        (laws : CacheLaws cache) (body : TableChanges) (admin : User) (w : World)
        (c : ConnectionRow)
        → accepts_tables body ≡ true
        → find_connection body.connection_id w.app_meta.connections ≡ some c
        → (gs : List Grant) × (w' : World) × (change_table_access db cache body admin w
            ≡ (ok gs, w'))
          × ((subs : List Subject)
              → IsIn body.subject subs
              → (ts : List Str) × (postgres_allowed_tables db body.connection_id subs w'
                  ≡ (ok ts, w'))
                × ((t : Str) → Grants body.changes t → IsIn t ts))
    unfolding postgres_allowed_tables
    granted_table-Visible laws body admin w c accepted h =
        let (gs, w', e) = change_table_access-goes_on body admin w c accepted h in
        let applied = change_table_access-TablesApplied db cache laws body admin w w' gs e in
        (
          gs,
          w',
          e,
          λ subs i. (
            tables_of w'.app_meta body.connection_id subs,
            query-goes_on (λ m. tables_of m body.connection_id subs) w',
            λ t g.
                (tables_of-MaySee w'.app_meta body.connection_id subs t).1
                  ((applied.sees body.connection_id subs t).1 (inl (refl, i, g))),
          ),
        )
