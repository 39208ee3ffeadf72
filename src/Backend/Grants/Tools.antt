-- ===== src/Backend/Grants/Tools.antt =====
-- The tools that callers may call after a request of routers/permissions.py.
use mcp_server_for_sql_agent.Backend.Rows.Members.{changed-IsIn, IsIn-changed, added-IsIn, changed}
use mcp_server_for_sql_agent.Prelude.{
  List, true, Bool, inr, inl, ◌⊎◌, ◌↔◌, subst, ◌∙◌, ap, sym, refl, ◌≡◌, IsIn,
}
use mcp_server_for_sql_agent.Prelude.Strs.{str_eq_refl, str_eq_iff, str_eq, Str}
use mcp_server_for_sql_agent.Prelude.Filters.{true-and-true, and-eq-true}
use mcp_server_for_sql_agent.Models.{Subject}
use mcp_server_for_sql_agent.Backend.Grants.{
  names_granted, names_revoked, tool_row, of_tool_owner, ToolChanges,
}
use mcp_server_for_sql_agent.World.{ToolRow, AppMeta}
use mcp_server_for_sql_agent.Backend.Rows.{is_row, RowLaws}
use mcp_server_for_sql_agent.Postgres.Laws.{same_subject-eq, same_subject_refl, MayCall}
use mcp_server_for_sql_agent.Backend.Grants.Effects.{
  names_granted-Grants, names_revoked-Revokes, Grants, Revokes,
}
use mcp_server_for_sql_agent.Postgres.{same_subject}

tool_rows-RowLaws :
    (s : Subject) (by : Str) → RowLaws str_eq (of_tool_owner s) (λ p. p.tool_name) (tool_row s by)
tool_rows-RowLaws s by = record {
  eq_iff = str_eq_iff;
  row_is_mine = λ k. same_subject_refl s;
  key_of_row = λ k. refl;
}

-- The request does not take the row away.
abbrev pub KeepsTool : ToolChanges → ToolRow → Type 0
KeepsTool body p = ¬ (
    (p.subject ≡ body.subject)
    × Revokes body.changes p.tool_name
    × (¬ Grants body.changes p.tool_name))

-- The rows after the statements of `tool_changes`.
abbrev pub tools_after : ToolChanges → Str → List ToolRow → List ToolRow
tools_after body by =
    changed str_eq (of_tool_owner body.subject) (λ p. p.tool_name) (tool_row body.subject by)
      (names_granted body.changes) (names_revoked body.changes)

module _ (body : ToolChanges) (by : Str) (m m' : AppMeta)
    (after : m'.tool_permissions ≡ tools_after body by m.tool_permissions) where
  abbrev is_revoked_row : Str → ToolRow → Bool
  is_revoked_row = is_row str_eq (of_tool_owner body.subject) (λ p. p.tool_name)

  kept-KeepsTool :
      (p : ToolRow)
      → ((k : Str) → IsIn k (names_revoked body.changes) → ¬ (is_revoked_row k p ≡ true))
      → KeepsTool body p
  unfolding is_row
  kept-KeepsTool p kept (s, r, g) =
      kept p.tool_name ((names_revoked-Revokes p.tool_name body.changes).1 (r, g)) (
        true-and-true _ _
          (subst (λ q. same_subject body.subject q ≡ true) (sym s) (same_subject_refl body.subject))
          (str_eq_refl p.tool_name))

  KeepsTool-kept :
      (p : ToolRow)
      → KeepsTool body p
      → (k : Str) → IsIn k (names_revoked body.changes)
      → ¬ (is_revoked_row k p ≡ true)
  unfolding is_row
  KeepsTool-kept p kept k i h =
      let (s, e) = and-eq-true (of_tool_owner body.subject p) _ h in
      let (r, g) =
        (names_revoked-Revokes p.tool_name body.changes).0
          (subst (λ q. IsIn q (names_revoked body.changes)) ((str_eq_iff k p.tool_name).0 e) i) in
      kept (sym (same_subject-eq _ _ s), r, g)

  -- The subjects may call a tool after the request if the request grants it to one of them, or if
  -- they might call it by a row that the request leaves.
  pub tools_after-MayCall :
      (subs : List Subject) (tool : Str)
      → MayCall m' subs tool ↔ (
          (IsIn body.subject subs × Grants body.changes tool)
          ⊎ ((x : MayCall m subs tool) × KeepsTool body x.row))
  tools_after-MayCall subs tool = (to, from)
    where
      to :
          MayCall m' subs tool
          → (IsIn body.subject subs × Grants body.changes tool)
            ⊎ ((x : MayCall m subs tool) × KeepsTool body x.row)
      to x = elim (changed-IsIn str_eq _ _ _ _ _ _ x.row (subst (IsIn x.row) after x.is_row)) [
        | inl (i, kept) ↦ inr (
          record { row = x.row; is_row = i; for_subject = x.for_subject; for_tool = x.for_tool },
          kept-KeepsTool x.row kept,
        )
        | inr (k, i, e) ↦ inl (
          subst (λ q. IsIn q subs) (ap (λ (p : ToolRow). p.subject) e) x.for_subject,
          (names_granted-Grants tool body.changes).0 (
              subst (λ q. IsIn q (names_granted body.changes))
                (sym (x.for_tool ∙ ap (λ (p : ToolRow). p.tool_name) e)) i),
        )
      ]

      from :
          (IsIn body.subject subs × Grants body.changes tool)
            ⊎ ((x : MayCall m subs tool) × KeepsTool body x.row)
          → MayCall m' subs tool
      from (inr (x, kept)) = record {
        row = x.row;
        is_row =
            subst (IsIn x.row) (sym after)
              (IsIn-changed str_eq _ _ _ _ _ _ x.row x.is_row (KeepsTool-kept x.row kept));
        for_subject = x.for_subject;
        for_tool = x.for_tool;
      }
      from (inl (i, g)) =
          let (p, j, s, n) =
            added-IsIn str_eq _ _ _ (names_granted body.changes) (names_revoked body.changes)
              m.tool_permissions (tool_rows-RowLaws body.subject by) tool
              ((names_granted-Grants tool body.changes).1 g)
              (λ r. ((names_revoked-Revokes tool body.changes).0 r).1 g) in
          record {
            row = p;
            is_row = subst (IsIn p) (sym after) j;
            for_subject = subst (λ q. IsIn q subs) (same_subject-eq _ _ s) i;
            for_tool = sym n;
          }
