-- ===== src/Backend/Consistent/Edits.antt =====
-- The transactions on connections, on tables that are consistent.
use mcp_server_for_sql_agent.Exec.{Exec, ◌>>=◌}
use mcp_server_for_sql_agent.Prelude.{
  inr, Bool-cases, ltb, arith, ◌∷◌, [], List, Option, not, false, Bool, inl, ◌≡◌, ℕ, IsIn, keep_if,
  length, ◌==◌,
}
use mcp_server_for_sql_agent.Prelude.Strs.{Str}
use mcp_server_for_sql_agent.Prelude.Filters.{IsIn-keep_if, keep_if-IsIn, true-or-false}
use mcp_server_for_sql_agent.Unicode.{Unicode}
use mcp_server_for_sql_agent.Validator.Sqlglot.{Sqlglot}
use mcp_server_for_sql_agent.Postgres.{Database}
use mcp_server_for_sql_agent.Backend.Connections.{
  drop_connection, ConnectionUpdate, stamped, reports_on, log_if_some, edit_connection,
  remove_connection, ConnectionOut,
}
use mcp_server_for_sql_agent.World.{
  DescriptionRow, TableRow, AccessRow, ReportRow, ConnectionRow, AppMeta,
}
use mcp_server_for_sql_agent.Backend.{refuse_if, select, alter, User, log_change}
use mcp_server_for_sql_agent.Values.{Members, Json}
use mcp_server_for_sql_agent.Backend.Consistent.{
  Kept-IsConsistent, remove-StillThere, IsConsistent, StillThere,
}
use mcp_server_for_sql_agent.Backend.Consistent.Bodies.{update_connections-IsConsistent}

module _ {Tree : Type 0} (u : Unicode) (sqlglot : Sqlglot Tree) (db : Database) where
  abbrev Cons : AppMeta → Type 0
  Cons = IsConsistent u sqlglot

  -- An action that logs, or does nothing.
  abbrev pub KeepsTables : Exec AppMeta (Unit {0}) → Type 0
  KeepsTables log = (m : AppMeta) → Cons m → Cons (log m).1

  pub log_change-keeps :
      (now : ℕ) (admin : User) (a t : Str) (x : Option Str) (d : Members)
      → KeepsTables (log_change now admin a t x d)
  unfolding log_change
  log_change-keeps now admin a t x d m c = record {
    access = c.access;
    tables = c.tables;
    descriptions = c.descriptions;
    reports = c.reports;
  }

  module _ (as_text : Json → Str) (encrypt : Str → Str) (dict_eq : Json → Json → Bool) where
    log_if_some-keeps :
        (ss : List Str) (log : Exec AppMeta (Unit {0}))
        → KeepsTables log
        → KeepsTables (log_if_some u as_text encrypt dict_eq db ss log)
    log_if_some-keeps [] log k m c = c
    log_if_some-keeps (s ∷ ss) log k m c = k m c

    stamped-id :
        (now : ℕ) (old new : ConnectionRow)
        → ((stamped u as_text encrypt dict_eq db now old new).record_of.id ≡ new.record_of.id)
          × ((stamped u as_text encrypt dict_eq db now old new).record_of.engine
              ≡ new.record_of.engine)
    unfolding stamped
    stamped-id now old new = (ground arith, ground arith)

    pub edit_connection-IsConsistent :
        (id : ℕ) (current : ConnectionOut) (body : ConnectionUpdate) (details : Members)
        (admin : User) (now : ℕ) (m : AppMeta)
        → Cons m
        → Cons (edit_connection u as_text encrypt dict_eq db id current body details admin now m).1
    unfolding edit_connection alter ◌>>=◌
    edit_connection-IsConsistent id current body details admin now m c =
        log_if_some-keeps _ _ (log_change-keeps now admin _ _ _ _) _ (
          update_connections-IsConsistent u sqlglot db id _ m (λ old. (stamped-id now old _).0)
            (λ old. (stamped-id now old _).1) c)

  no_more-IsIn :
      (id : ℕ) (rs : List ReportRow) (r : ReportRow)
      → length (keep_if (λ r. r.connection_id == id) rs) ≡ 0
      → IsIn r rs
      → (r.connection_id == id) ≡ false
  no_more-IsIn id rs r h i =
      true-or-false (r.connection_id == id)
        (λ e. empty_list _ h (IsIn-keep_if (λ q. q.connection_id == id) r rs i e))
    where
      empty_list : (qs : List ReportRow) → length qs ≡ 0 → ¬ IsIn r qs
      empty_list [] h m = m
      empty_list (q ∷ qs) h m = omega arith

  kept_row :
      {R : Type 0} (id_of : R → ℕ) (id : ℕ) (x : R) (xs : List R) (cs : List ConnectionRow)
      → IsIn x (keep_if (λ y. not (id_of y == id)) xs)
      → IsIn x xs × StillThere (id_of x) cs (keep_if (λ c. not (c.record_of.id == id)) cs)
  kept_row id_of id x xs cs i =
      let (j, n) = keep_if-IsIn (λ y. not (id_of y == id)) x xs i in
      (j, remove-StillThere (id_of x) id cs (ground (arith, n)))

  pub remove_connection-IsConsistent :
      (id : ℕ) (m : AppMeta) → reports_on id m ≡ 0 → Cons m → Cons (remove_connection id m)
  unfolding remove_connection reports_on
  remove_connection-IsConsistent id m none_left c =
      Kept-IsConsistent u sqlglot
        (record {
          access = λ a i. inl (
              kept_row (λ (a : AccessRow). a.connection_id) id a m.connection_access m.connections
                i);
          tables = λ p i. inl (
              kept_row (λ (p : TableRow). p.connection_id) id p m.table_permissions m.connections
                i);
          descriptions = λ d i. inl (
              kept_row (λ (d : DescriptionRow). d.connection_id) id d m.schema_descriptions
                m.connections i);
          reports = λ r i. inl (
            i,
            remove-StillThere r.connection_id id m.connections
                (no_more-IsIn id m.saved_reports r none_left i),
          );
        })
        c

  pub drop_connection-IsConsistent :
      (as_text : Json → Str) (encrypt : Str → Str) (dict_eq : Json → Json → Bool) (id : ℕ)
      (current : ConnectionOut) (admin : User) (now : ℕ) (m : AppMeta)
      → Cons m
      → Cons (drop_connection u as_text encrypt dict_eq db id current admin now m).1
  unfolding drop_connection select alter refuse_if ◌>>=◌
  drop_connection-IsConsistent as_text encrypt dict_eq id current admin now m c =
      elim (Bool-cases (ltb 0 (reports_on id m))) [
        | inl e ↦ rw e c
        | inr e ↦ rw e (
            log_change-keeps now admin _ _ _ _ _
              (remove_connection-IsConsistent id m (ground (arith, e)) c))
      ]
