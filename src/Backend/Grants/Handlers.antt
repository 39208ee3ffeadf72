-- ===== src/Backend/Grants/Handlers.antt =====
-- The handlers of routers/permissions.py that change grants: what a request leaves behind, and what
-- one that fails leaves.
use mcp_server_for_sql_agent.Exec.{bind-eq-ok, pure, ◌>>=◌}
use mcp_server_for_sql_agent.Prelude.{
  false, refl, map, true, inr, inl, subst, ◌∙◌, IsIn-map, keep_if, ◌==◌, ◌++◌, ◌∷◌, [], List, some,
  Option, ◌⊎◌, ◌↔◌, ap, sym, ◌≡◌, ℕ, IsIn,
}
use mcp_server_for_sql_agent.Prelude.Strs.{codes, Str}
use mcp_server_for_sql_agent.Backend.Grants.{
  find_connection, no_connection, change_table_access, load_record, by_grant_name, of_table_owner,
  table_grants, names_revoked, names_granted, change_details, Grant, table_changes, write_tables,
  TableChanges,
}
use mcp_server_for_sql_agent.Backend.{transaction, present_or, log_change, select, alter, User}
use mcp_server_for_sql_agent.Postgres.{query, same_subject, Database}
use mcp_server_for_sql_agent.Values.{Json, Members}
use mcp_server_for_sql_agent.World.{World, TableRow, AdminEntry, AppMeta}
use mcp_server_for_sql_agent.Models.{Subject}
use mcp_server_for_sql_agent.Postgres.Laws.{
  same_subject_refl, ==_true, ==_eq, same_subject-eq, MaySee,
}
use mcp_server_for_sql_agent.Backend.Grants.Checks.{checks-eq-ok}
use mcp_server_for_sql_agent.Backend.Grants.Effects.{tables_after-MaySee, KeepsTable, Grants}
use mcp_server_for_sql_agent.Cache.Stored.{subject_text}
use mcp_server_for_sql_agent.Errors.{ok-eq, ok}
use mcp_server_for_sql_agent.Prelude.Filters.{
  map-IsIn, IsIn-keep_if, keep_if-IsIn, true-and-true, and-eq-true,
}
use mcp_server_for_sql_agent.Prelude.Ordering.{order_by-IsIn}
use mcp_server_for_sql_agent.Cache.{Cache}
use mcp_server_for_sql_agent.Cache.Laws.{CacheLaws}
use mcp_server_for_sql_agent.Backend.Laws.{
  announced-NeverRaises, commit-FailsClean, read-FailsClean, FailsClean, announced-eq-ok,
  present_or-Keeps, bind-Keeps, Keeps-eq, Keeps, query-eq, transaction-raised, transaction-eq-ok,
}

-- The entry that `log_change` adds.
abbrev pub logged : ℕ → User → Str → Str → Option Str → Members → AppMeta → List AdminEntry
logged now admin action target_type target details m =
    m.admin_log
    ++ record {
      occurred_at = now;
      actor_sub = admin.sub;
      actor_name = admin.name;
      action = action;
      target_type = target_type;
      target = target;
      details = details;
    }
      ∷ []

-- What a request on tables leaves: `subjects` tells what the callers see, and the rest what else is
-- different and what is not.
pub record TablesApplied (now : ℕ) (body : TableChanges) (admin : User) (gs : List Grant)
    (m m' : AppMeta) : Type 0 where
  pub sees :
      (id : ℕ) (subs : List Subject) (t : Str)
      → MaySee m' id subs t ↔ (
          ((id ≡ body.connection_id) × IsIn body.subject subs × Grants body.changes t)
          ⊎ ((x : MaySee m id subs t) × KeepsTable body x.row))
  pub answer :
      (g : Grant)
      → IsIn g gs
        ↔ ((g.subject ≡ body.subject) × MaySee m' body.connection_id (body.subject ∷ []) g.name)
  pub log :
      (name : Str) × (m'.admin_log
        ≡ logged now admin
            (codes "permission.tables")
            (codes "connection")
            (some name)
            (Members.member
              (codes "subject")
              (Json.str (subject_text body.subject))
              (change_details (names_granted body.changes) (names_revoked body.changes)))
            m)
  pub connections : m'.connections ≡ m.connections
  pub access : m'.connection_access ≡ m.connection_access
  pub tools : m'.tool_permissions ≡ m.tool_permissions
  pub descriptions : m'.schema_descriptions ≡ m.schema_descriptions
  pub audit : m'.audit_log ≡ m.audit_log
  pub reports : m'.saved_reports ≡ m.saved_reports

Grant-eq : (g h : Grant) → g.subject ≡ h.subject → g.name ≡ h.name → g ≡ h
Grant-eq g h a b i = record { subject = a i; name = b i }

only-IsIn : {A : Type 0} (x y : A) → IsIn x (y ∷ []) → x ≡ y
only-IsIn x y (inl e) = e
only-IsIn x y (inr m) = absurd m

module _ (db : Database) where
  -- The grants that are answered are those of the subject on the connection.
  table_grants-MaySee :
      (id : ℕ) (s : Subject) (m : AppMeta) (g : Grant)
      → IsIn g (table_grants db id s m) ↔ ((g.subject ≡ s) × MaySee m id (s ∷ []) g.name)
  unfolding table_grants
  table_grants-MaySee id s m g =
      let (a, b) = order_by-IsIn (by_grant_name db) g (map grant_of (mine m)) in
      (λ i. to (a i), λ x. b (from x))
    where
      mine : AppMeta → List TableRow
      mine m = keep_if (of_table_owner id s) m.table_permissions

      grant_of : TableRow → Grant
      grant_of p = record { subject = p.subject; name = p.table_name }

      to : IsIn g (map grant_of (mine m)) → (g.subject ≡ s) × MaySee m id (s ∷ []) g.name
      to i =
          let (p, j, e) = map-IsIn grant_of g (mine m) i in
          let (k, o) = keep_if-IsIn (of_table_owner id s) p m.table_permissions j in
          let (c, d) = and-eq-true (p.connection_id == id) _ o in
          let same : p.subject ≡ s = sym (same_subject-eq _ _ d) in
          (
            ap (λ (q : Grant). q.subject) e ∙ same,
            record {
              row = p;
              is_row = k;
              for_connection = ==_eq _ _ c;
              for_subject = inl same;
              for_table = ap (λ (q : Grant). q.name) e;
            },
          )

      from : (g.subject ≡ s) × MaySee m id (s ∷ []) g.name → IsIn g (map grant_of (mine m))
      from (e, x) =
          let same : x.row.subject ≡ s = only-IsIn _ _ x.for_subject in
          subst (λ q. IsIn q (map grant_of (mine m)))
            (sym (Grant-eq g (grant_of x.row) (e ∙ sym same) x.for_table))
            (IsIn-map grant_of x.row (mine m) (
              IsIn-keep_if (of_table_owner id s) x.row m.table_permissions x.is_row (
                true-and-true _ _ (==_true _ _ x.for_connection)
                  (subst (λ q. same_subject s q ≡ true) (sym same) (same_subject_refl s)))))

  write_tables-TablesApplied :
      (body : TableChanges) (admin : User) (name : Str) (now : ℕ) (m m' : AppMeta) (gs : List Grant)
      → write_tables db body admin name now m ≡ (ok gs, m')
      → TablesApplied now body admin gs m m'
  unfolding write_tables alter select log_change ◌>>=◌ pure
  write_tables-TablesApplied body admin name now m m' gs h =
      let e = ap (λ q. q.1) h in
      record {
        sees =
            tables_after-MaySee body admin.sub m m'
              (sym (ap (λ (n : AppMeta). n.table_permissions) e));
        answer =
            subst
              (λ (l : List Grant).
                (g : Grant)
                → IsIn g l ↔ (
                    (g.subject ≡ body.subject)
                    × MaySee m' body.connection_id (body.subject ∷ []) g.name))
              (ap (table_grants db body.connection_id body.subject) (sym e)
                ∙ ok-eq (ap (λ q. q.0) h))
              (table_grants-MaySee body.connection_id body.subject m');
        log = (name, sym (ap (λ (n : AppMeta). n.admin_log) e));
        connections = sym (ap (λ (n : AppMeta). n.connections) e);
        access = sym (ap (λ (n : AppMeta). n.connection_access) e);
        tools = sym (ap (λ (n : AppMeta). n.tool_permissions) e);
        descriptions = sym (ap (λ (n : AppMeta). n.schema_descriptions) e);
        audit = sym (ap (λ (n : AppMeta). n.audit_log) e);
        reports = sym (ap (λ (n : AppMeta). n.saved_reports) e);
      }

  table_changes-TablesApplied :
      (body : TableChanges) (admin : User) (name : Str) (now : ℕ) (m m' : AppMeta) (gs : List Grant)
      → table_changes db body admin name now m ≡ (ok gs, m')
      → TablesApplied now body admin gs m m'
  unfolding table_changes
  table_changes-TablesApplied body admin name now m m' gs h =
      write_tables-TablesApplied body admin name now m m' gs (
        checks-eq-ok body.subject (names_granted body.changes) (write_tables db body admin name now)
          m m' gs h)

  pub load_record-Keeps : (id : ℕ) → Keeps (load_record db id)
  unfolding load_record pure
  load_record-Keeps id =
      bind-Keeps (query db (λ m. find_connection id m.connections)) _ (query-eq db _) (λ row.
        bind-Keeps (present_or 404 no_connection row) (λ found. pure found.record_of)
          (present_or-Keeps 404 no_connection row) (λ f v. refl))

module _ (db : Database) (cache : Cache) where
  -- If a request on tables succeeds, then afterwards a caller sees a table on a connection exactly if the request is for that connection, grants the table, and names one of the caller's subjects, or the caller saw the table before by a row that the request does not revoke, where a table that it grants too is not revoked; the answer lists the grants of the request's subject on the connection, one entry that names what was granted and revoked is added to the log of administrators, and connections, their access, tools, descriptions, audit entries and reports stay as they were.
  pub change_table_access-TablesApplied :
      (laws : CacheLaws cache) (body : TableChanges) (admin : User) (w w' : World) (gs : List Grant)
      → change_table_access db cache body admin w ≡ (ok gs, w')
      → TablesApplied (db.now w) body admin gs w.app_meta w'.app_meta
  unfolding change_table_access
  change_table_access-TablesApplied laws body admin w w' gs h =
      let (found, w₁, a, h₁) = bind-eq-ok (load_record db body.connection_id) _ w w' h in
      let (gs', w₂, b, h₂) =
        bind-eq-ok (transaction db (table_changes db body admin found.name)) _ w₁ w' h₁ in
      let (c, d) = announced-eq-ok cache true false laws gs' gs w₂ w' h₂ in
      let same =
        Keeps-eq (load_record db body.connection_id) w w₁ (ok found)
          (load_record-Keeps db body.connection_id) a in
      let (run, rest) = transaction-eq-ok db (table_changes db body admin found.name) w₁ w₂ gs' b in
      subst (λ (u : World). TablesApplied (db.now u) body admin gs u.app_meta w'.app_meta) same
        (subst (λ m. TablesApplied (db.now w₁) body admin gs w₁.app_meta m) (sym d.meta)
          (subst (λ g. TablesApplied (db.now w₁) body admin g w₁.app_meta w₂.app_meta) c
            (table_changes-TablesApplied db body admin found.name (db.now w₁) w₁.app_meta
              w₂.app_meta gs' run)))

  -- A request on tables that ends in an exception leaves the whole state as it was.
  pub change_table_access-FailsClean :
      (body : TableChanges) (admin : User) → FailsClean (change_table_access db cache body admin)
  unfolding change_table_access
  change_table_access-FailsClean body admin =
      read-FailsClean (load_record db body.connection_id) _
        (load_record-Keeps db body.connection_id)
        (λ found.
          commit-FailsClean (transaction db (table_changes db body admin found.name)) _
            (transaction-raised db (table_changes db body admin found.name))
            (λ gs. announced-NeverRaises cache true false gs))
