-- ===== src/Backend/Grants/ToolHandler.antt =====
-- `change_tool_access` of routers/permissions.py: what a request on tools leaves behind.
use mcp_server_for_sql_agent.Backend.Grants.Checks.{checks-eq-ok}
use mcp_server_for_sql_agent.Exec.{bind-eq-ok, ◌>>=◌}
use mcp_server_for_sql_agent.Backend.Grants.Handlers.{logged}
use mcp_server_for_sql_agent.Prelude.{
  map, ◌++◌, List, some, not, false, true, inr, inl, ◌⊎◌, ◌↔◌, subst, ap, sym, refl, ◌≡◌, ℕ,
  IsIn-map, IsIn, Bool-cases,
}
use mcp_server_for_sql_agent.Prelude.Strs.{is_some_item, join, str_in-IsIn, str_in, codes, Str}
use mcp_server_for_sql_agent.Prelude.Filters.{some_item, nothing-IsIn, IsIn-keep_if}
use mcp_server_for_sql_agent.Prelude.Sorting.{sorted_set-IsIn}
use mcp_server_for_sql_agent.Backend.{transaction, log_change, select, alter, User, refuse_if}
use mcp_server_for_sql_agent.Backend.Grants.{
  names_revoked, names_granted, change_details, Grant, change_tool_access, tool_changes,
  write_tools, Change, unknown_tools, ToolChanges,
}
use mcp_server_for_sql_agent.Postgres.{Database}
use mcp_server_for_sql_agent.Errors.{http, raised, ok}
use mcp_server_for_sql_agent.Cache.{Cache}
use mcp_server_for_sql_agent.World.{World, AppMeta}
use mcp_server_for_sql_agent.Cache.Laws.{CacheLaws}
use mcp_server_for_sql_agent.Models.{Subject}
use mcp_server_for_sql_agent.Permissions.{all_tool_names}
use mcp_server_for_sql_agent.Backend.Laws.{
  refuse_if-eq-ok, announced-NeverRaises, transaction-eq-ok, transaction-raised, commit-FailsClean,
  announced-eq-ok, refuse_if-Keeps, read-FailsClean, FailsClean,
}
use mcp_server_for_sql_agent.Postgres.Laws.{MayCall}
use mcp_server_for_sql_agent.Backend.Grants.Effects.{Grants, str_in-false}
use mcp_server_for_sql_agent.Backend.Grants.Tools.{tools_after-MayCall, KeepsTool}
use mcp_server_for_sql_agent.Backend.Subjects.{type_text}

pub record ToolsApplied (now : ℕ) (body : ToolChanges) (admin : User) (m m' : AppMeta)
    : Type 0 where
  pub calls :
      (subs : List Subject) (tool : Str)
      → MayCall m' subs tool ↔ (
          (IsIn body.subject subs × Grants body.changes tool)
          ⊎ ((x : MayCall m subs tool) × KeepsTool body x.row))
  pub known : (c : Change) → IsIn c body.changes → IsIn c.name all_tool_names
  pub log :
      m'.admin_log
      ≡ logged now admin
          (codes "permission.tools")
          (type_text body.subject.0)
          (some body.subject.1)
          (change_details (names_granted body.changes) (names_revoked body.changes))
          m
  pub connections : m'.connections ≡ m.connections
  pub access : m'.connection_access ≡ m.connection_access
  pub tables : m'.table_permissions ≡ m.table_permissions
  pub descriptions : m'.schema_descriptions ≡ m.schema_descriptions
  pub audit : m'.audit_log ≡ m.audit_log
  pub reports : m'.saved_reports ≡ m.saved_reports

module _ (db : Database) (cache : Cache) where
  unknown_tools-IsIn :
      (c : Change) (cs : List Change)
      → IsIn c cs
      → ¬ IsIn c.name all_tool_names
      → IsIn c.name (unknown_tools db cache cs)
  unfolding unknown_tools
  unknown_tools-IsIn c cs i n = (sorted_set-IsIn c.name _).1 (
      IsIn-keep_if (λ tool. not (str_in tool all_tool_names)) c.name (map (λ c. c.name) cs)
        (IsIn-map (λ (c : Change). c.name) c cs i) ((str_in-false c.name all_tool_names).1 n))

  all_known :
      (cs : List Change)
      → is_some_item (unknown_tools db cache cs) ≡ false
      → (c : Change) → IsIn c cs
      → IsIn c.name all_tool_names
  all_known cs h c i = elim (Bool-cases (str_in c.name all_tool_names)) [
    | inl e ↦ str_in-IsIn c.name all_tool_names e
    | inr e ↦ absurd (
        nothing-IsIn (unknown_tools db cache cs) h c.name
          (unknown_tools-IsIn c cs i ((str_in-false c.name all_tool_names).0 (rw e refl))))
  ]

  write_tools-ToolsApplied :
      (body : ToolChanges) (admin : User) (now : ℕ) (m m' : AppMeta) (gs : List Grant)
      → ((c : Change) → IsIn c body.changes → IsIn c.name all_tool_names)
      → write_tools db body admin now m ≡ (ok gs, m')
      → ToolsApplied now body admin m m'
  unfolding write_tools alter select log_change ◌>>=◌
  write_tools-ToolsApplied body admin now m m' gs known h =
      let e = ap (λ q. q.1) h in
      record {
        calls =
            tools_after-MayCall body admin.sub m m'
              (sym (ap (λ (n : AppMeta). n.tool_permissions) e));
        known = known;
        log = sym (ap (λ (n : AppMeta). n.admin_log) e);
        connections = sym (ap (λ (n : AppMeta). n.connections) e);
        access = sym (ap (λ (n : AppMeta). n.connection_access) e);
        tables = sym (ap (λ (n : AppMeta). n.table_permissions) e);
        descriptions = sym (ap (λ (n : AppMeta). n.schema_descriptions) e);
        audit = sym (ap (λ (n : AppMeta). n.audit_log) e);
        reports = sym (ap (λ (n : AppMeta). n.saved_reports) e);
      }

  tool_changes-ToolsApplied :
      (body : ToolChanges) (admin : User) (now : ℕ) (m m' : AppMeta) (gs : List Grant)
      → ((c : Change) → IsIn c body.changes → IsIn c.name all_tool_names)
      → tool_changes db body admin now m ≡ (ok gs, m')
      → ToolsApplied now body admin m m'
  unfolding tool_changes
  tool_changes-ToolsApplied body admin now m m' gs known h =
      write_tools-ToolsApplied body admin now m m' gs known (
        checks-eq-ok body.subject (names_granted body.changes) (write_tools db body admin now) m m'
          gs h)

  -- If a request on tools succeeds, then the MCP server offers every tool that it names, and afterwards a caller may call a tool exactly if the request grants the tool and names one of the caller's subjects, or the caller could call it before by a row that the request does not revoke, where a tool that it grants too is not revoked; one entry that names what was granted and revoked is added to the log of administrators, and connections, their access, tables, descriptions, audit entries and reports stay as they were.
  pub change_tool_access-ToolsApplied :
      (laws : CacheLaws cache) (body : ToolChanges) (admin : User) (w w' : World) (gs : List Grant)
      → change_tool_access db cache body admin w ≡ (ok gs, w')
      → ToolsApplied (db.now w) body admin w.app_meta w'.app_meta
  unfolding change_tool_access
  change_tool_access-ToolsApplied laws body admin w w' gs h =
      let (done, w₁, a, h₁) =
        bind-eq-ok
          (refuse_if (is_some_item (unknown_tools db cache body.changes)) 422 (
            codes "Unknown tool: "
            ++ (join (codes ", ") (unknown_tools db cache body.changes) ++ codes ".")))
          _ w w' h in
      let (gs', w₂, b, h₂) = bind-eq-ok (transaction db (tool_changes db body admin)) _ w₁ w' h₁ in
      let (c, d) = announced-eq-ok cache true false laws gs' gs w₂ w' h₂ in
      let (none_unknown, same) = refuse_if-eq-ok _ 422 _ w w₁ a in
      let (run, rest) = transaction-eq-ok db (tool_changes db body admin) w₁ w₂ gs' b in
      subst (λ (u : World). ToolsApplied (db.now u) body admin u.app_meta w'.app_meta) same
        (subst (λ m. ToolsApplied (db.now w₁) body admin w₁.app_meta m) (sym d.meta)
          (tool_changes-ToolsApplied body admin (db.now w₁) w₁.app_meta w₂.app_meta gs'
            (all_known body.changes none_unknown) run))

  -- A request that names a tool which the MCP server does not offer is refused with 422, and changes nothing, whatever else it asks for.
  pub change_tool_access-unknown :
      (body : ToolChanges) (admin : User) (w : World) (c : Change)
      → IsIn c body.changes
      → ¬ IsIn c.name all_tool_names
      → (detail : Str) × (change_tool_access db cache body admin w ≡ (raised (http 422 detail), w))
  unfolding change_tool_access refuse_if ◌>>=◌
  change_tool_access-unknown body admin w c i n =
      let e : is_some_item (unknown_tools db cache body.changes) ≡ true =
        some_item c.name _ (unknown_tools-IsIn c body.changes i n) in
      (
        codes "Unknown tool: "
            ++ (join (codes ", ") (unknown_tools db cache body.changes) ++ codes "."),
        rw e refl,
      )

  -- A request on tools that ends in an exception leaves the state alone.
  pub change_tool_access-FailsClean :
      (body : ToolChanges) (admin : User) → FailsClean (change_tool_access db cache body admin)
  unfolding change_tool_access
  change_tool_access-FailsClean body admin =
      read-FailsClean _ _
        (refuse_if-Keeps (is_some_item (unknown_tools db cache body.changes)) 422 _)
        (λ done.
          commit-FailsClean (transaction db (tool_changes db body admin)) _
            (transaction-raised db (tool_changes db body admin))
            (λ gs. announced-NeverRaises cache true false gs))
