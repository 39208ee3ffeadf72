-- ===== src/Schema/NoLeak.antt =====
-- What the tools of services/schema_service.py show of the tables of a connection.
use mcp_server_for_sql_agent.Unicode.{Unicode}
use mcp_server_for_sql_agent.Errors.{ok}
use mcp_server_for_sql_agent.Exec.{lift, modify, bind-eq-ok, lift-eq-ok, pure-eq-ok}
use mcp_server_for_sql_agent.Models.{
  Caller, TableInfo, TableSummary, TableDetail, TableRelationships, Relationship,
}
use mcp_server_for_sql_agent.World.{World, AppMeta}
use mcp_server_for_sql_agent.Store.{MetaStore, DbAdapter, AdapterProvider, StoreLaws, ProviderLaws}
use mcp_server_for_sql_agent.Permissions.{ConnectionAccess, allows, open_tool, require_table}
use mcp_server_for_sql_agent.Permissions.Opens.{Granted, open_tool-Granted}
use mcp_server_for_sql_agent.Audit.{Call, outside}
use mcp_server_for_sql_agent.Audit.Recorded.{started_call, audited-Recorded}
use mcp_server_for_sql_agent.Audit.Trace.{outside-eq-ok}
use mcp_server_for_sql_agent.Query.Authorize.{require_table-allows}
use mcp_server_for_sql_agent.Prelude.Filters.{keep_if-All}
use mcp_server_for_sql_agent.Schema.Shapes.{visible_keys, fk_detail, table_detail}
use mcp_server_for_sql_agent.Schema.{
  list_tables_body, list_tables, describe_table_body, describe_table, referencing,
  get_relationships_body, get_relationships,
}
use mcp_server_for_sql_agent.Prelude.{
  refl, map, ◌∷◌, [], List, some, true, subst, ◌∙◌, ap, sym, ◌≡◌, All, keep_if, ℕ,
}
use mcp_server_for_sql_agent.Prelude.Strs.{codes, Str}
use mcp_server_for_sql_agent.Schema.Names.{shown_name, table_summaries-names}
use mcp_server_for_sql_agent.Schema.Referrers.{Referrer, referencing-Referrer}

module _ (u : Unicode) (clock : ℕ → ℕ) (limit : ℕ) (store : MetaStore) (adapters : AdapterProvider)
    (laws : StoreLaws store) (provider : ProviderLaws adapters) where
  -- The tables of the answer are those of the adapter's answer that the caller may see.
  pub record ListsVisible (m : AppMeta) (caller : Caller) (name : Str) (tables : List TableSummary)
      : Type 0 where
    pub access : ConnectionAccess
    pub adapter : DbAdapter
    pub grant : Granted u store adapters m caller (codes "list_tables") name access adapter
    pub infos : List TableInfo
    pub asked_at : World
    pub asked : (adapter.list_tables asked_at).0 ≡ ok infos
    pub names :
        map (λ s. s.name) tables
        ≡ map (shown_name u limit) (keep_if (λ i. allows u access i.name) infos)

  list_tables_body-ListsVisible :
      (caller : Caller) (name : Str) (c c' : Call) (tables : List TableSummary)
      → list_tables_body u clock limit store adapters caller name c ≡ (ok tables, c')
      → ListsVisible c.world.app_meta caller name tables
  unfolding list_tables_body
  list_tables_body-ListsVisible caller name c c' tables h =
      let (opened, c₁, o, h₁) =
        bind-eq-ok (outside (open_tool u store adapters caller (codes "list_tables") name)) _ c c'
          h in
      let (ds, c₂, d, h₂) =
        bind-eq-ok (outside (store.descriptions opened.0.record_of.id)) _ c₁ c' h₁ in
      let (infos, c₃, i, h₃) = bind-eq-ok (outside opened.1.list_tables) _ c₂ c' h₂ in
      let (x, c₄, m, h₄) = bind-eq-ok (modify _) _ c₃ c' h₃ in
      let (y, c₅, n, h₅) = bind-eq-ok (modify _) _ c₄ c' h₄ in
      let (same, _) = pure-eq-ok _ tables c₅ c' h₅ in
      let (w, ow) =
        outside-eq-ok (open_tool u store adapters caller (codes "list_tables") name) opened c c₁
          o in
      let (w', iw) = outside-eq-ok opened.1.list_tables infos c₂ c₃ i in
      record {
        access = opened.0;
        adapter = opened.1;
        grant =
            open_tool-Granted u store adapters laws provider caller (codes "list_tables") name
              c.world w opened.0 opened.1 ow;
        infos = infos;
        asked_at = c₂.world;
        asked = ap (λ q. q.0) iw;
        names =
            ap (map (λ s. s.name)) (sym same) ∙ table_summaries-names u limit opened.0 ds infos [];
      }

  -- When `list_tables` answers, the store lists the tool and finds the connection for the caller, and the names in the answer are the cleaned names of exactly those tables that the adapter lists and the caller may see, in the adapter's order.
  pub list_tables-ListsVisible :
      (caller : Caller) (name : Str) (w w' : World) (tables : List TableSummary)
      → list_tables u clock limit store adapters caller name w ≡ (ok tables, w')
      → ListsVisible w.app_meta caller name tables
  unfolding list_tables
  list_tables-ListsVisible caller name w w' tables h =
      let r =
        audited-Recorded clock store caller (codes "list_tables") _ (some name) _ w w' tables h in
      list_tables_body-ListsVisible caller name (started_call (some name) w) r.after tables r.ran

  pub record RelatesVisible (m : AppMeta) (caller : Caller) (name table : Str)
      (r : TableRelationships) : Type 0 where
    pub access : ConnectionAccess
    pub adapter : DbAdapter
    pub grant : Granted u store adapters m caller (codes "get_relationships") name access adapter
    pub allowed : allows u access table ≡ true
    pub references : All (λ d. allows u access d.to_table ≡ true) r.references
    pub others : List TableInfo
    pub listed_at : World
    pub listed : (adapter.list_tables listed_at).0 ≡ ok others
    pub keys : List Relationship
    pub referrers : All (λ k. Referrer u access adapter others r.table k) keys
    pub referenced_by : r.referenced_by ≡ map fk_detail keys

  details-All :
      (P : Str → Type 0) (ks : List Relationship)
      → All (λ k. P k.to_table) ks
      → All (λ d. P d.to_table) (map fk_detail ks)
  unfolding fk_detail
  details-All P [] h = tt
  details-All P (k ∷ ks) h = (h.0, details-All P ks h.1)

  get_relationships_body-RelatesVisible :
      (caller : Caller) (name table : Str) (c c' : Call) (r : TableRelationships)
      → get_relationships_body u clock limit store adapters caller name table c ≡ (ok r, c')
      → RelatesVisible c.world.app_meta caller name table r
  unfolding get_relationships_body visible_keys
  get_relationships_body-RelatesVisible caller name table c c' r h =
      let (opened, c₁, o, h₁) =
        bind-eq-ok (outside (open_tool u store adapters caller (codes "get_relationships") name)) _
          c c' h in
      let (d, c₂, q, h₂) = bind-eq-ok (lift (require_table u opened.0 table)) _ c₁ c' h₁ in
      let (x, c₃, m, h₃) = bind-eq-ok (modify _) _ c₂ c' h₂ in
      let (target, c₄, t, h₄) = bind-eq-ok (outside (opened.1.describe_table table)) _ c₃ c' h₃ in
      let (others, c₅, i, h₅) = bind-eq-ok (outside opened.1.list_tables) _ c₄ c' h₄ in
      let (keys, c₆, k, h₆) =
        bind-eq-ok (referencing u clock limit store adapters opened.1 opened.0 target.name others) _
          c₅ c' h₅ in
      let (y, c₇, n, h₇) = bind-eq-ok (modify _) _ c₆ c' h₆ in
      let (same, _) = pure-eq-ok _ r c₇ c' h₇ in
      let (w, ow) =
        outside-eq-ok (open_tool u store adapters caller (codes "get_relationships") name) opened c
          c₁ o in
      subst (λ s. RelatesVisible c.world.app_meta caller name table s) same
        (record {
          access = opened.0;
          adapter = opened.1;
          grant =
              open_tool-Granted u store adapters laws provider caller (codes "get_relationships")
                name c.world w opened.0 opened.1 ow;
          allowed = require_table-allows u opened.0 table (lift-eq-ok _ d c₁ c₂ q).0;
          references =
              details-All (λ s. allows u opened.0 s ≡ true)
                (visible_keys u limit opened.0 target.foreign_keys)
                (keep_if-All (λ fk. allows u opened.0 fk.to_table) target.foreign_keys);
          others = others;
          listed_at = c₄.world;
          listed = ap (λ p. p.0) (outside-eq-ok opened.1.list_tables others c₄ c₅ i).1;
          keys = keys;
          referrers =
              referencing-Referrer u clock limit store adapters opened.1 opened.0 target.name others
                c₅ c₆ keys k;
          referenced_by = refl;
        })

  -- When `get_relationships` answers, the store lists the tool and finds the connection for the caller, who may see the table; every reference in the answer leads to a table that the caller may see, and the entries under `referenced_by` are foreign keys that the adapter gives for tables, not views, that it lists and that the caller may see, and that lead, up to case, to the table of the answer.
  pub get_relationships-RelatesVisible :
      (caller : Caller) (name table : Str) (w w' : World) (r : TableRelationships)
      → get_relationships u clock limit store adapters caller name table w ≡ (ok r, w')
      → RelatesVisible w.app_meta caller name table r
  unfolding get_relationships
  get_relationships-RelatesVisible caller name table w w' r h =
      let e =
        audited-Recorded clock store caller (codes "get_relationships") _ (some name) _ w w' r h in
      get_relationships_body-RelatesVisible caller name table (started_call (some name) w) e.after r
        e.ran

  pub record DescribesVisible (m : AppMeta) (caller : Caller) (name table : Str) (t : TableDetail)
      : Type 0 where
    pub access : ConnectionAccess
    pub adapter : DbAdapter
    pub grant : Granted u store adapters m caller (codes "describe_table") name access adapter
    pub allowed : allows u access table ≡ true
    pub foreign_keys : All (λ d. allows u access d.to_table ≡ true) t.foreign_keys

  describe_table_body-DescribesVisible :
      (caller : Caller) (name table : Str) (c c' : Call) (t : TableDetail)
      → describe_table_body u clock limit store adapters caller name table c ≡ (ok t, c')
      → DescribesVisible c.world.app_meta caller name table t
  unfolding describe_table_body table_detail visible_keys
  describe_table_body-DescribesVisible caller name table c c' t h =
      let (opened, c₁, o, h₁) =
        bind-eq-ok (outside (open_tool u store adapters caller (codes "describe_table") name)) _ c
          c' h in
      let (d, c₂, q, h₂) = bind-eq-ok (lift (require_table u opened.0 table)) _ c₁ c' h₁ in
      let (x, c₃, m, h₃) = bind-eq-ok (modify _) _ c₂ c' h₂ in
      let (shape, c₄, a, h₄) = bind-eq-ok (outside (opened.1.describe_table table)) _ c₃ c' h₃ in
      let (ds, c₅, b, h₅) =
        bind-eq-ok (outside (store.descriptions opened.0.record_of.id)) _ c₄ c' h₄ in
      let (y, c₆, n, h₆) = bind-eq-ok (modify _) _ c₅ c' h₅ in
      let (same, _) = pure-eq-ok _ t c₆ c' h₆ in
      let (w, ow) =
        outside-eq-ok (open_tool u store adapters caller (codes "describe_table") name) opened c c₁
          o in
      subst (λ s. DescribesVisible c.world.app_meta caller name table s) same
        (record {
          access = opened.0;
          adapter = opened.1;
          grant =
              open_tool-Granted u store adapters laws provider caller (codes "describe_table") name
                c.world w opened.0 opened.1 ow;
          allowed = require_table-allows u opened.0 table (lift-eq-ok _ d c₁ c₂ q).0;
          foreign_keys =
              details-All (λ s. allows u opened.0 s ≡ true)
                (visible_keys u limit opened.0 shape.foreign_keys)
                (keep_if-All (λ fk. allows u opened.0 fk.to_table) shape.foreign_keys);
        })

  -- When `describe_table` answers, the store lists the tool and finds the connection for the caller, who may see the table, and every foreign key in the answer leads to a table that the caller may see.
  pub describe_table-DescribesVisible :
      (caller : Caller) (name table : Str) (w w' : World) (t : TableDetail)
      → describe_table u clock limit store adapters caller name table w ≡ (ok t, w')
      → DescribesVisible w.app_meta caller name table t
  unfolding describe_table
  describe_table-DescribesVisible caller name table w w' t h =
      let e =
        audited-Recorded clock store caller (codes "describe_table") _ (some name) _ w w' t h in
      describe_table_body-DescribesVisible caller name table (started_call (some name) w) e.after t
        e.ran
