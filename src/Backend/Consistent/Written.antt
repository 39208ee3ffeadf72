-- ===== src/Backend/Consistent/Written.antt =====
-- The handlers of reports, on tables that are consistent.
use mcp_server_for_sql_agent.Exec.{bind-eq-ok, ◌>>=◌}
use mcp_server_for_sql_agent.Backend.Requests.{Surroundings}
use mcp_server_for_sql_agent.Backend.Consistent.Requests.{
  present_or-eq-ok, keeping-Stays, Aside, Stays, known-Stays, Keeps-Stays, commit-Stays,
}
use mcp_server_for_sql_agent.Backend.Consistent.{IsConsistent}
use mcp_server_for_sql_agent.Backend.Reports
use mcp_server_for_sql_agent.Regex.{some-eq-some}
use mcp_server_for_sql_agent.Errors.{
  ok-ne-raised, Exn, tool_not_permitted, connection_not_found, connection_unavailable,
  table_not_found, invalid_argument, query_rejected, query_timeout, query_failed,
  explain_not_supported, audit_write_error, not_authenticated, domain, unexpected, cancelled, http,
}
use mcp_server_for_sql_agent.Prelude.{ap, some, none, ◌∙◌, Option, subst, sym, refl, ◌≡◌, ℕ}
use mcp_server_for_sql_agent.Postgres.{query, Database}
use mcp_server_for_sql_agent.Backend.Grants.{no_connection, find_connection}
use mcp_server_for_sql_agent.World.{ConnectionRow, AppMeta, World}
use mcp_server_for_sql_agent.Backend.{alter, present_or, raised, ok, User}
use mcp_server_for_sql_agent.Backend.Laws.{
  present_or-Keeps, Keeps, transaction-Holds, query-eq, bind-Keeps,
}
use mcp_server_for_sql_agent.Prelude.Strs.{Str}
use mcp_server_for_sql_agent.Errors.{Result}
use mcp_server_for_sql_agent.Backend.Reports.{default_sql_length, ReportIn}
use mcp_server_for_sql_agent.Validator.Validate.{validate, ValidatedQuery}
use mcp_server_for_sql_agent.Backend.Consistent.Writes.{
  remove_report-IsConsistent, edit_report-IsConsistent, new_report-IsConsistent, Checked,
}
use mcp_server_for_sql_agent.Regex.{some-eq-some}
use mcp_server_for_sql_agent.Postgres.Laws.{query-eq-ok}

-- A text that is refused is answered with an exception.
refuse_rejected-raised :
    (e : Exn) (w : World) → (x : Exn) × (Reports.refuse_rejected (raised e) w ≡ (raised x, w))
refuse_rejected-raised (domain (tool_not_permitted x)) w = (_, refl)
refuse_rejected-raised (domain (connection_not_found x)) w = (_, refl)
refuse_rejected-raised (domain (connection_unavailable x)) w = (_, refl)
refuse_rejected-raised (domain (table_not_found x)) w = (_, refl)
refuse_rejected-raised (domain (invalid_argument x)) w = (_, refl)
refuse_rejected-raised (domain (query_rejected x)) w = (_, refl)
refuse_rejected-raised (domain (query_timeout x)) w = (_, refl)
refuse_rejected-raised (domain (query_failed x)) w = (_, refl)
refuse_rejected-raised (domain explain_not_supported) w = (_, refl)
refuse_rejected-raised (domain audit_write_error) w = (_, refl)
refuse_rejected-raised (domain not_authenticated) w = (_, refl)
refuse_rejected-raised (unexpected x) w = (_, refl)
refuse_rejected-raised cancelled w = (_, refl)
refuse_rejected-raised (http n x) w = (_, refl)

module _ {Tree : Type 0} (s : Surroundings Tree) (aside : Aside s) where
  abbrev db : Database
  db = s.database

  check_sql-Keeps :
      (id : ℕ) (sql : Str)
      → Keeps (Reports.check_sql s.unicode s.sqlglot s.ilike s.uuid_text s.dict_eq db id sql)
  unfolding Reports.check_sql
  check_sql-Keeps id sql = bind-Keeps _ _ (query-eq db (Reports.engine_of id)) (λ row.
      bind-Keeps _ _ (present_or-Keeps 422 no_connection row) (λ engine.
        rejected-Keeps (validate s.unicode s.sqlglot default_sql_length sql engine none)))
    where
      rejected-Keeps : (r : Result ValidatedQuery) → Keeps {S = World} (Reports.refuse_rejected r)
      rejected-Keeps (ok q) w = refl
      rejected-Keeps (raised e) w = ap (λ q. q.1) (refuse_rejected-raised e w).1

  engine_of-Registered :
      (id : ℕ) (m : AppMeta) (engine : Str)
      → Reports.engine_of id m ≡ some engine
      → (c : ConnectionRow) × (find_connection id m.connections ≡ some c)
        × (c.record_of.engine ≡ engine)
  unfolding Reports.engine_of
  engine_of-Registered id m engine h = go (find_connection id m.connections) refl h
    where
      go :
          (o : Option ConnectionRow)
          → find_connection id m.connections ≡ o
          → (elim o as (λ q. Option Str) [ none ↦ none | some c ↦ some c.record_of.engine ])
            ≡ some engine
          → (c : ConnectionRow) × (find_connection id m.connections ≡ some c)
            × (c.record_of.engine ≡ engine)
      go none e x = cc
      go (some c) e x = (c, e, some-eq-some x)

  check_sql-Checked :
      (body : ReportIn) (w : World)
      → Reports.check_sql s.unicode s.sqlglot s.ilike s.uuid_text s.dict_eq db body.connection_id
          body.sql w
        ≡ (ok tt, w)
      → Checked s.unicode s.sqlglot db body w.app_meta.connections
  unfolding Reports.check_sql
  check_sql-Checked body w h =
      let (row, v, a, b) = bind-eq-ok (query db (Reports.engine_of body.connection_id)) _ w w h in
      let (engine, x, d, e) = bind-eq-ok (present_or 422 no_connection row) _ v w b in
      let (c, f, g) = engine_of-Registered body.connection_id w.app_meta engine (
        query-eq-ok db (Reports.engine_of body.connection_id) w v row a
        ∙ present_or-eq-ok 422 no_connection row engine v x d) in
      let (q, i) =
        accepted (validate s.unicode s.sqlglot default_sql_length body.sql engine none) x w e in
      (
        c,
        q,
        f,
        subst (λ e. validate s.unicode s.sqlglot default_sql_length body.sql e none ≡ ok q) (sym g)
            i,
      )
    where
      accepted :
          (r : Result ValidatedQuery) (v v' : World)
          → Reports.refuse_rejected r v ≡ (ok tt, v')
          → (q : ValidatedQuery) × (r ≡ ok q)
      accepted (ok q) v v' h = (q, refl)
      accepted (raised e) v v' h =
          absurd
            (ok-ne-raised (sym (ap (λ q. q.0) (refuse_rejected-raised e v).1) ∙ ap (λ q. q.0) h))

  fetch_report-Keeps :
      (id : ℕ)
      → Keeps (Reports.fetch_report s.unicode s.sqlglot s.ilike s.uuid_text s.dict_eq db id)
  unfolding Reports.fetch_report
  fetch_report-Keeps id = bind-Keeps _ _ (query-eq db _) (λ row. present_or-Keeps 404 _ row)

  pub create_report-Stays :
      (body : ReportIn) (admin : User)
      → Stays s aside
          (Reports.create_report s.unicode s.sqlglot s.ilike s.uuid_text s.dict_eq db body admin)
  unfolding Reports.create_report
  create_report-Stays body admin =
      known-Stays s aside _ _ (λ x m. Checked s.unicode s.sqlglot db body m.connections)
        (check_sql-Keeps body.connection_id body.sql) (λ w x e. check_sql-Checked body w e)
        (λ x w known c.
          commit-Stays s aside
            (Reports.new_report s.unicode s.sqlglot s.ilike s.uuid_text s.dict_eq db body admin) _ w
            (new_report-IsConsistent s.unicode s.sqlglot db s.ilike s.uuid_text s.dict_eq body admin
              (db.now w) w.app_meta known c)
            (λ id.
              Keeps-Stays s aside
                (Reports.fetch_report s.unicode s.sqlglot s.ilike s.uuid_text s.dict_eq db id)
                (fetch_report-Keeps id))
            c)

  pub update_report-Stays :
      (id : ℕ) (body : ReportIn) (admin : User)
      → Stays s aside
          (Reports.update_report s.unicode s.sqlglot s.ilike s.uuid_text s.dict_eq db id body admin)
  unfolding Reports.update_report
  update_report-Stays id body admin = keeping-Stays s aside _ _ (fetch_report-Keeps id) (λ current.
      known-Stays s aside _ _ (λ x m. Checked s.unicode s.sqlglot db body m.connections)
        (check_sql-Keeps body.connection_id body.sql) (λ w x e. check_sql-Checked body w e)
        (λ x w known c.
          commit-Stays s aside
            (Reports.edit_report s.unicode s.sqlglot s.ilike s.uuid_text s.dict_eq db id current
              body admin)
            _ w
            (edit_report-IsConsistent s.unicode s.sqlglot db s.ilike s.uuid_text s.dict_eq id
              current body admin (db.now w) w.app_meta known c)
            (λ x.
              Keeps-Stays s aside
                (Reports.fetch_report s.unicode s.sqlglot s.ilike s.uuid_text s.dict_eq db id)
                (fetch_report-Keeps id))
            c))

  drop_report-IsConsistent :
      (id : ℕ) (name : Str) (admin : User) (now : ℕ) (m : AppMeta)
      → IsConsistent s.unicode s.sqlglot m
      → IsConsistent s.unicode s.sqlglot
          (Reports.drop_report s.unicode s.sqlglot s.ilike s.uuid_text s.dict_eq db id name admin
            now m).1
  unfolding Reports.drop_report alter ◌>>=◌
  drop_report-IsConsistent id name admin now m c =
      remove_report-IsConsistent s.unicode s.sqlglot db id now admin name m c

  pub delete_report-Stays :
      (id : ℕ) (admin : User)
      → Stays s aside
          (Reports.delete_report s.unicode s.sqlglot s.ilike s.uuid_text s.dict_eq db id admin)
  unfolding Reports.delete_report
  delete_report-Stays id admin = keeping-Stays s aside _ _ (fetch_report-Keeps id) (λ current w c.
      transaction-Holds db (IsConsistent s.unicode s.sqlglot)
        (Reports.drop_report s.unicode s.sqlglot s.ilike s.uuid_text s.dict_eq db id
          current.row.name admin)
        w c (drop_report-IsConsistent id current.row.name admin (db.now w) w.app_meta c))
