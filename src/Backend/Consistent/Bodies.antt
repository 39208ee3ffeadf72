-- ===== src/Backend/Consistent/Bodies.antt =====
-- The transactions of the routers, one by one, on tables that are consistent.
use mcp_server_for_sql_agent.Backend.Grants.Checks.{checks-Holds}
use mcp_server_for_sql_agent.Exec.{pure, ◌>>=◌}
use mcp_server_for_sql_agent.Prelude.{
  Bool-cases, List, Option, false, true, Bool, inr, inl, subst, ap, sym, ◌≡◌, ℕ, IsIn,
}
use mcp_server_for_sql_agent.Prelude.Strs.{str_eq, Str}
use mcp_server_for_sql_agent.Unicode.{Unicode}
use mcp_server_for_sql_agent.Validator.Sqlglot.{Sqlglot}
use mcp_server_for_sql_agent.Postgres.{same_subject, Database}
use mcp_server_for_sql_agent.Backend.{select, alter, User, log_change}
use mcp_server_for_sql_agent.Backend.Grants.{
  names_revoked, names_granted, table_row, of_table_owner, TableChanges, ToolChanges, tool_changes,
  table_changes, write_tables, write_tools,
}
use mcp_server_for_sql_agent.Backend.Access.{
  existing_access, minus, access_row, on_connection, log_unless, replace_access,
}
use mcp_server_for_sql_agent.World.{ConnectionRow, AccessRow, TableRow, AppMeta}
use mcp_server_for_sql_agent.Backend.Consistent.{
  append-StillThere, update-StillThere, Kept-IsConsistent, ReadsOnlyReport, Registered,
  IsConsistent,
}
use mcp_server_for_sql_agent.Values.{Json, Members}
use mcp_server_for_sql_agent.Models.{Subject}
use mcp_server_for_sql_agent.Backend.Rows.Members.{delete_rows-IsIn, insert_rows-IsIn, changed-IsIn}
use mcp_server_for_sql_agent.Backend.Connections.{
  name_taken, ConnectionIn, update_connections, new_connection,
}

module _ {Tree : Type 0} (u : Unicode) (sqlglot : Sqlglot Tree) (db : Database) where
  abbrev Cons : AppMeta → Type 0
  Cons = IsConsistent u sqlglot

  -- The four tables and the connections are those of before.
  pub Kept-same :
      (m m' : AppMeta)
      → m'.connections ≡ m.connections
      → m'.connection_access ≡ m.connection_access
      → m'.table_permissions ≡ m.table_permissions
      → m'.schema_descriptions ≡ m.schema_descriptions
      → m'.saved_reports ≡ m.saved_reports
      → Cons m
      → Cons m'
  Kept-same m m' cs accs ps ds rs c = record {
    access =
        λ a i. subst (Registered a.connection_id) (sym cs) (c.access a (subst (IsIn a) accs i));
    tables = λ p i. subst (Registered p.connection_id) (sym cs) (c.tables p (subst (IsIn p) ps i));
    descriptions =
        λ d i. subst (Registered d.connection_id) (sym cs) (c.descriptions d (subst (IsIn d) ds i));
    reports = λ r i.
        subst (λ l. ReadsOnlyReport u sqlglot l r) (sym cs) (c.reports r (subst (IsIn r) rs i));
  }

  write_tables-IsConsistent :
      (body : TableChanges) (admin : User) (name : Str) (now : ℕ) (m : AppMeta)
      → Registered body.connection_id m.connections
      → Cons m
      → Cons (write_tables db body admin name now m).1
  unfolding write_tables alter select log_change ◌>>=◌
  write_tables-IsConsistent body admin name now m known c = record {
    access = c.access;
    tables = λ p i.
        elim (changed-IsIn str_eq (of_table_owner body.connection_id body.subject)
          (λ q. q.table_name) (table_row body.connection_id body.subject admin.sub)
          (names_granted body.changes) (names_revoked body.changes) m.table_permissions p i) [
            | inl (j, kept) ↦ c.tables p j
            | inr (k, j, e) ↦
                subst (λ id. Registered id m.connections)
                  (sym (ap (λ (q : TableRow). q.connection_id) e)) known
          ];
    descriptions = c.descriptions;
    reports = c.reports;
  }

  pub table_changes-IsConsistent :
      (body : TableChanges) (admin : User) (name : Str) (now : ℕ) (m : AppMeta)
      → Registered body.connection_id m.connections
      → Cons m
      → Cons (table_changes db body admin name now m).1
  unfolding table_changes
  table_changes-IsConsistent body admin name now m known c =
      checks-Holds body.subject (names_granted body.changes) (write_tables db body admin name now)
        Cons m c (write_tables-IsConsistent body admin name now m known c)

  write_tools-IsConsistent :
      (body : ToolChanges) (admin : User) (now : ℕ) (m : AppMeta)
      → Cons m
      → Cons (write_tools db body admin now m).1
  unfolding write_tools alter select log_change ◌>>=◌
  write_tools-IsConsistent body admin now m c = record {
    access = c.access;
    tables = c.tables;
    descriptions = c.descriptions;
    reports = c.reports;
  }

  pub tool_changes-IsConsistent :
      (body : ToolChanges) (admin : User) (now : ℕ) (m : AppMeta)
      → Cons m
      → Cons (tool_changes db body admin now m).1
  unfolding tool_changes
  tool_changes-IsConsistent body admin now m c =
      checks-Holds body.subject (names_granted body.changes) (write_tools db body admin now) Cons m
        c (write_tools-IsConsistent body admin now m c)

  pub log_unless-keeps :
      (b : Bool) (now : ℕ) (admin : User) (a t : Str) (x : Option Str) (d : Members) (m : AppMeta)
      → Cons m
      → Cons (log_unless b (log_change now admin a t x d) m).1
  unfolding log_change
  log_unless-keeps true now admin a t x d m c = c
  log_unless-keeps false now admin a t x d m c = record {
    access = c.access;
    tables = c.tables;
    descriptions = c.descriptions;
    reports = c.reports;
  }

  pub replace_access-IsConsistent :
      (id : ℕ) (name : Str) (wanted : List Subject) (admin : User) (now : ℕ) (m : AppMeta)
      → Registered id m.connections
      → Cons m
      → Cons (replace_access db id name wanted admin now m).1
  unfolding replace_access alter select ◌>>=◌
  replace_access-IsConsistent id name wanted admin now m known c =
      log_unless-keeps _ now admin _ _ _ _ _ (record {
        access = λ a i.
            elim (insert_rows-IsIn same_subject (on_connection id) (λ q. q.subject)
              (access_row id admin.sub) a (minus wanted (existing_access id m)) _ i) [
                | inl j ↦
                    c.access a
                      (delete_rows-IsIn same_subject (on_connection id) (λ q. q.subject) a
                        (minus (existing_access id m) wanted) m.connection_access j).0
                | inr (s, j, e) ↦
                    subst (λ id. Registered id m.connections)
                      (sym (ap (λ (q : AccessRow). q.connection_id) e)) known
              ];
        tables = c.tables;
        descriptions = c.descriptions;
        reports = c.reports;
      })

  pub new_connection-IsConsistent :
      (as_text : Json → Str) (encrypt : Str → Str) (dict_eq : Json → Json → Bool)
      (body : ConnectionIn) (details : Members) (admin : User) (now : ℕ) (m : AppMeta)
      → Cons m
      → Cons (new_connection u as_text encrypt dict_eq db body details admin now m).1
  unfolding new_connection log_change ◌>>=◌ pure
  new_connection-IsConsistent as_text encrypt dict_eq body details admin now m c =
      elim (Bool-cases (name_taken body.name m)) [
        | inl e ↦ rw e c
        | inr e ↦ rw e (
            Kept-IsConsistent u sqlglot
              (record {
                access = λ a i. inl (i, append-StillThere a.connection_id m.connections _);
                tables = λ p i. inl (i, append-StillThere p.connection_id m.connections _);
                descriptions = λ d i. inl (i, append-StillThere d.connection_id m.connections _);
                reports = λ r i. inl (i, append-StillThere r.connection_id m.connections _);
              })
              c)
      ]

  -- An update of connections that keeps their ids and engines.
  pub update_connections-IsConsistent :
      (id : ℕ) (f : ConnectionRow → ConnectionRow) (m : AppMeta)
      → ((c : ConnectionRow) → (f c).record_of.id ≡ c.record_of.id)
      → ((c : ConnectionRow) → (f c).record_of.engine ≡ c.record_of.engine)
      → Cons m
      → Cons (record m { connections = update_connections id f m.connections })
  update_connections-IsConsistent id f m k n c =
      Kept-IsConsistent u sqlglot
        (record {
          access = λ a i. inl (i, update-StillThere a.connection_id id f m.connections k n);
          tables = λ p i. inl (i, update-StillThere p.connection_id id f m.connections k n);
          descriptions = λ d i. inl (i, update-StillThere d.connection_id id f m.connections k n);
          reports = λ r i. inl (i, update-StillThere r.connection_id id f m.connections k n);
        })
        c
