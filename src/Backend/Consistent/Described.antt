-- ===== src/Backend/Consistent/Described.antt =====
-- The handlers of descriptions, on tables that are consistent.
use mcp_server_for_sql_agent.Exec.{pure}
use mcp_server_for_sql_agent.Backend.Requests.{Surroundings}
use mcp_server_for_sql_agent.Backend.Consistent.Requests.{
  keeping-Stays, Aside, Stays, known-Stays, commit-Stays, commits-Stays, meanwhile-Stays,
  pure-Stays, announce-Stays, load_record-Registered,
}
use mcp_server_for_sql_agent.Backend.Consistent.{Registered}
use mcp_server_for_sql_agent.Backend.Descriptions
use mcp_server_for_sql_agent.Backend.Descriptions
use mcp_server_for_sql_agent.Errors.{http}
use mcp_server_for_sql_agent.Prelude.{◌++◌, ◌∷◌, some, none, ◌∙◌, Option, refl, ◌≡◌, false, true, ℕ}
use mcp_server_for_sql_agent.Postgres.{Database}
use mcp_server_for_sql_agent.World.{AppMeta, World}
use mcp_server_for_sql_agent.Backend.{raised, ok, User}
use mcp_server_for_sql_agent.Backend.Laws.{bind-Holds}
use mcp_server_for_sql_agent.Backend.Consistent.{Registered}
use mcp_server_for_sql_agent.Prelude.Strs.{codes, Str}
use mcp_server_for_sql_agent.Models.{ColumnInfo, TableDescription, ConnectionRecord}
use mcp_server_for_sql_agent.Backend.Grants.Handlers.{load_record-Keeps}
use mcp_server_for_sql_agent.Errors.{Result}
use mcp_server_for_sql_agent.Backend.Consistent.Writes.{
  save_description-IsConsistent, clear_descriptions-IsConsistent,
}
use mcp_server_for_sql_agent.Backend.Descriptions.{DescriptionIn}
use mcp_server_for_sql_agent.Unicode.{strip}
use mcp_server_for_sql_agent.Backend.Consistent.Handlers.{announced-Stays}

module _ {Tree : Type 0} (s : Surroundings Tree) (aside : Aside s) where
  abbrev db : Database
  db = s.database

  pub describe_live-meta :
      (found : ConnectionRecord) (table : Str) (w : World)
      → (Descriptions.describe_live s.unicode db s.registry found table w).1.app_meta ≡ w.app_meta
  unfolding Descriptions.describe_live Descriptions.reading
  describe_live-meta found table w =
      bind-Holds (λ v. v.app_meta ≡ w.app_meta) (s.registry.adapter_for found)
        (λ adapter. adapter.describe_table table) w (aside.opens found w)
        (λ a t e x. aside.describes found a w t e table t ∙ x)

  column_for-meta :
      (described : TableDescription) (column : Option Str) (w : World)
      → (Descriptions.column_for s.unicode described column w).1.app_meta ≡ w.app_meta
  unfolding Descriptions.column_for
  column_for-meta described none w = refl
  column_for-meta described (some name) w =
      go (Descriptions.find_column s.unicode name described.columns)
    where
      go :
          (o : Option ColumnInfo)
          → (elim o as (λ q. Result (Option Str) × World) [
            | none ↦ (
              raised (
                  http 404 (
                    b'\''
                    ∷ (described.name ++ (codes "' has no column '" ++ (name ++ codes "'."))))),
              w,
            )
            | some c ↦ (ok (some c.name), w)
          ]).1.app_meta
            ≡ w.app_meta
      go none = refl
      go (some c) = refl

  pub set_description-Stays :
      (body : DescriptionIn) (admin : User)
      → Stays s aside (Descriptions.set_description s.unicode db s.registry s.cache body admin)
  unfolding Descriptions.set_description
  set_description-Stays body admin =
      let Known : AppMeta → Type 0 = λ m. Registered body.connection_id m.connections in
      known-Stays s aside _ _ (λ found. Known) (load_record-Keeps db body.connection_id)
        (λ w found e. load_record-Registered s aside body.connection_id w found e)
        (λ found.
          meanwhile-Stays s aside _ _ Known (describe_live-meta found body.table) (λ described.
            meanwhile-Stays s aside _ _ Known (column_for-meta described body.column)
              (λ column w known c.
                commit-Stays s aside
                  (Descriptions.save_description s.unicode db s.registry body.connection_id
                    found.name described.name column (strip s.unicode body.description) admin)
                  _ w
                  (save_description-IsConsistent s.unicode s.sqlglot db s.registry
                    body.connection_id found.name described.name column
                    (strip s.unicode body.description) admin (db.now w) w.app_meta known c)
                  (λ saved.
                    announced-Stays s aside true false (pure saved) (pure-Stays s aside saved))
                  c)))

  pub delete_descriptions-Stays :
      (id : ℕ) (table : Str) (admin : User)
      → Stays s aside
          (Descriptions.delete_descriptions s.unicode db s.registry s.cache id table admin)
  unfolding Descriptions.delete_descriptions
  delete_descriptions-Stays id table admin =
      keeping-Stays s aside _ _ (load_record-Keeps db id) (λ found.
        commits-Stays s aside
          (Descriptions.clear_descriptions s.unicode db s.registry id found.name table admin) _
          (λ now m c.
            clear_descriptions-IsConsistent s.unicode s.sqlglot db s.registry id found.name table
              admin now m c)
          (λ x. announce-Stays s aside true false))
