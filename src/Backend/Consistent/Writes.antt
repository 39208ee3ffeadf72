-- ===== src/Backend/Consistent/Writes.antt =====
-- The transactions on reports and descriptions, on tables that are consistent.
use mcp_server_for_sql_agent.Exec.{pure, ◌>>=◌}
use mcp_server_for_sql_agent.Prelude.{
  ◌++◌, some, none, true, inr, ◌⊎◌, subst, ap, sym, refl, IsIn-append, Bool-cases, if◌then◌else◌,
  ◌∷◌, [], List, Option, not, false, Bool, inl, ◌≡◌, ℕ, IsIn, keep_if, length, ◌==◌,
}
use mcp_server_for_sql_agent.Prelude.Strs.{codes, Str}
use mcp_server_for_sql_agent.Prelude.Filters.{keep_if-IsIn}
use mcp_server_for_sql_agent.Unicode.{Unicode}
use mcp_server_for_sql_agent.Validator.Sqlglot.{Sqlglot}
use mcp_server_for_sql_agent.Postgres.{Database}
use mcp_server_for_sql_agent.World.{DescriptionRow, ReportRow, ConnectionRow, AppMeta}
use mcp_server_for_sql_agent.Backend.{refuse_if, select, alter, User, log_change}
use mcp_server_for_sql_agent.Values.{Members, Json}
use mcp_server_for_sql_agent.Backend.Consistent.{Registered, ReadsOnlyReport, IsConsistent}
use mcp_server_for_sql_agent.Backend.Consistent.Bodies.{log_unless-keeps}
use mcp_server_for_sql_agent.Backend.Reports.{
  edited_row, default_sql_length, ReportOut, edit_report, new_report, update_reports, ReportIn,
}
use mcp_server_for_sql_agent.Store.{AdapterProvider}
use mcp_server_for_sql_agent.Backend.Descriptions.{
  is_on_table, save_description, is_description_of, clear_descriptions, write_description,
}
use mcp_server_for_sql_agent.Validator.Validate.{validate, ValidatedQuery}
use mcp_server_for_sql_agent.Backend.Grants.{find_connection}
use mcp_server_for_sql_agent.Errors.{ok}
use mcp_server_for_sql_agent.Backend.Consistent.Edits.{log_change-keeps}

module _ {Tree : Type 0} (u : Unicode) (sqlglot : Sqlglot Tree) (db : Database) where
  abbrev Cons : AppMeta → Type 0
  Cons = IsConsistent u sqlglot

  new_report-Kept :
      (m : AppMeta) (r : ReportRow)
      → ReadsOnlyReport u sqlglot m.connections r
      → Cons m
      → Cons (record m { saved_reports = m.saved_reports ++ r ∷ [] })
  new_report-Kept m r fine c = record {
    access = c.access;
    tables = c.tables;
    descriptions = c.descriptions;
    reports = λ q i. elim (IsIn-append q m.saved_reports (r ∷ []) i) [
      | inl j ↦ c.reports q j
      | inr (inl e) ↦ subst (ReadsOnlyReport u sqlglot m.connections) (sym e) fine
      | inr (inr j) ↦ absurd j
    ];
  }

  update_reports-IsIn :
      (id : ℕ) (f : ReportRow → ReportRow) (q : ReportRow) (rs : List ReportRow)
      → IsIn q (update_reports id f rs)
      → IsIn q rs ⊎ ((r : ReportRow) × (q ≡ f r))
  unfolding update_reports
  update_reports-IsIn id f q [] i = inl i
  update_reports-IsIn id f q (r ∷ rs) (inr i) = elim (update_reports-IsIn id f q rs i) [
    | inl j ↦ inl (inr j)
    | inr x ↦ inr x
  ]
  update_reports-IsIn id f q (r ∷ rs) (inl e) = elim (Bool-cases (r.id == id)) [
    | inl x ↦ inr (r, rw x at e)
    | inr x ↦ inl (inl (rw x at e))
  ]

  -- What `check_sql` has found out: the connection is registered, and the query is accepted on it.
  abbrev pub Checked : ReportIn → List ConnectionRow → Type 0
  Checked body cs =
      (c : ConnectionRow) × (q : ValidatedQuery) × (find_connection body.connection_id cs ≡ some c)
      × (validate u sqlglot default_sql_length body.sql c.record_of.engine none ≡ ok q)

  module _ (ilike : Str → Str → Bool) (uuid_text : ℕ → Str) (dict_eq : Json → Json → Bool) where
    pub new_report-IsConsistent :
        (body : ReportIn) (admin : User) (now : ℕ) (m : AppMeta)
        → Checked body m.connections
        → Cons m
        → Cons (new_report u sqlglot ilike uuid_text dict_eq db body admin now m).1
    unfolding new_report ◌>>=◌ pure
    new_report-IsConsistent body admin now m checked c =
        log_change-keeps u sqlglot db now admin _ _ _ _ _ (new_report-Kept m _ checked c)

    pub edit_report-IsConsistent :
        (id : ℕ) (current : ReportOut) (body : ReportIn) (admin : User) (now : ℕ) (m : AppMeta)
        → Checked body m.connections
        → Cons m
        → Cons (edit_report u sqlglot ilike uuid_text dict_eq db id current body admin now m).1
    unfolding edit_report alter ◌>>=◌
    edit_report-IsConsistent id current body admin now m checked c =
        log_unless-keeps u sqlglot db _ now admin _ _ _ _ _ (record {
          access = c.access;
          tables = c.tables;
          descriptions = c.descriptions;
          reports = λ q i. elim (update_reports-IsIn id (edited_row body now) q m.saved_reports i) [
            | inl j ↦ c.reports q j
            | inr (r, e) ↦ subst (ReadsOnlyReport u sqlglot m.connections) (sym e) checked
          ];
        })

  pub remove_report-IsConsistent :
      (id now : ℕ) (admin : User) (name : Str) (m : AppMeta)
      → Cons m
      → Cons
          (log_change now admin
            (codes "report.delete")
            (codes "report")
            (some name)
            Members.end
            (record m { saved_reports = keep_if (λ r. not (r.id == id)) m.saved_reports })).1
  remove_report-IsConsistent id now admin name m c =
      log_change-keeps u sqlglot db now admin _ _ _ _ _ (record {
        access = c.access;
        tables = c.tables;
        descriptions = c.descriptions;
        reports = λ r i. c.reports r (keep_if-IsIn (λ r. not (r.id == id)) r m.saved_reports i).0;
      })

  write_description-IsIn :
      (row d : DescriptionRow) (ds : List DescriptionRow)
      → IsIn d (write_description row ds)
      → ((e : DescriptionRow) × IsIn e ds × (e.connection_id ≡ d.connection_id)) ⊎ (d ≡ row)
  unfolding write_description
  write_description-IsIn row d [] (inl e) = inr e
  write_description-IsIn row d [] (inr i) = absurd i
  write_description-IsIn row d (x ∷ ds) i =
      go (is_description_of row.connection_id row.table_name row.column_name x)
        (write_description-IsIn row d ds) i
    where
      go :
          (b : Bool)
          → (IsIn d (write_description row ds)
              → ((e : DescriptionRow) × IsIn e ds × (e.connection_id ≡ d.connection_id))
                ⊎ (d ≡ row))
          → IsIn d (
              if b
              then record x {
                description = row.description;
                updated_by = row.updated_by;
                updated_at = row.updated_at;
              }
                ∷ ds
              else x ∷ write_description row ds)
          → ((e : DescriptionRow) × IsIn e (x ∷ ds) × (e.connection_id ≡ d.connection_id))
            ⊎ (d ≡ row)
      go true ih (inl e) = inl (x, inl refl, sym (ap (λ (q : DescriptionRow). q.connection_id) e))
      go true ih (inr j) = inl (d, inr j, refl)
      go false ih (inl e) = inl (x, inl refl, sym (ap (λ (q : DescriptionRow). q.connection_id) e))
      go false ih (inr j) = elim (ih j) [ inl (e, k, s) ↦ inl (e, inr k, s) | inr e ↦ inr e ]

  module _ (registry : AdapterProvider) where
    pub save_description-IsConsistent :
        (id : ℕ) (connection table : Str) (column : Option Str) (description : Str) (admin : User)
        (now : ℕ) (m : AppMeta)
        → Registered id m.connections
        → Cons m
        → Cons (save_description u db registry id connection table column description admin now m).1
    unfolding save_description alter ◌>>=◌ pure
    save_description-IsConsistent id connection table column description admin now m known c =
        log_change-keeps u sqlglot db now admin _ _ _ _ _ (record {
          access = c.access;
          tables = c.tables;
          descriptions = λ d i. elim (write_description-IsIn _ d m.schema_descriptions i) [
            | inl (e, j, s) ↦ subst (λ q. Registered q m.connections) s (c.descriptions e j)
            | inr e ↦
                subst (λ q. Registered q m.connections)
                  (sym (ap (λ (q : DescriptionRow). q.connection_id) e)) known
          ];
          reports = c.reports;
        })

    pub clear_descriptions-IsConsistent :
        (id : ℕ) (connection table : Str) (admin : User) (now : ℕ) (m : AppMeta)
        → Cons m
        → Cons (clear_descriptions u db registry id connection table admin now m).1
    unfolding clear_descriptions select alter refuse_if ◌>>=◌
    clear_descriptions-IsConsistent id connection table admin now m c =
        elim (Bool-cases
          (length (keep_if (is_on_table u db registry id table) m.schema_descriptions) == 0)) [
            | inl e ↦ rw e fewer
            | inr e ↦ rw e (log_change-keeps u sqlglot db now admin _ _ _ _ _ fewer)
          ]
      where
        fewer : Cons (record m {
          schema_descriptions =
              keep_if (λ d. not (is_on_table u db registry id table d)) m.schema_descriptions;
        })
        fewer = record {
          access = c.access;
          tables = c.tables;
          descriptions = λ d i.
              c.descriptions d
                (keep_if-IsIn (λ d. not (is_on_table u db registry id table d)) d
                  m.schema_descriptions i).0;
          reports = c.reports;
        }
