-- ===== src/Backend/Grants/Effects.antt =====
-- What a request of routers/permissions.py asks for, and the tables and tools that the callers have
-- after it.
use mcp_server_for_sql_agent.Backend.Rows.Members.{changed-IsIn, IsIn-changed, added-IsIn, changed}
use mcp_server_for_sql_agent.Prelude.{
  inr, inl, ◌⊎◌, ◌∙◌, ap, refl, ℕ, ==_refl, ◌==◌, arith, map, List, not, false, true, Bool, ◌↔◌,
  subst, sym, ◌≡◌, IsIn-map, IsIn, keep_if,
}
use mcp_server_for_sql_agent.Prelude.Strs.{
  str_eq_refl, str_eq_iff, str_eq, IsIn-str_in, str_in-IsIn, str_in, Str,
}
use mcp_server_for_sql_agent.Prelude.Filters.{
  true-and-true, and-eq-true, map-IsIn, IsIn-keep_if, keep_if-IsIn, true-or-false,
}
use mcp_server_for_sql_agent.Prelude.Sorting.{sorted_set-IsIn}
use mcp_server_for_sql_agent.Backend.Grants.{
  table_row, of_table_owner, TableChanges, names_granted, names_revoked, Change,
}
use mcp_server_for_sql_agent.Models.{Subject}
use mcp_server_for_sql_agent.Backend.Rows.{is_row, RowLaws}
use mcp_server_for_sql_agent.World.{TableRow, AppMeta}
use mcp_server_for_sql_agent.Postgres.Laws.{
  ==_true, same_subject-eq, same_subject_refl, ==_eq, MaySee,
}
use mcp_server_for_sql_agent.Postgres.{same_subject}

-- Some change of the request grants the name, and some change revokes it.
abbrev pub Grants : List Change → Str → Type 0
Grants cs t = (c : Change) × IsIn c cs × (c.granted ≡ true) × (t ≡ c.name)

abbrev pub Revokes : List Change → Str → Type 0
Revokes cs t = (c : Change) × IsIn c cs × (c.granted ≡ false) × (t ≡ c.name)

abbrev names_where : (Change → Bool) → List Change → List Str
names_where p cs = map (λ c. c.name) (keep_if p cs)

names_where-IsIn :
    (p : Change → Bool) (t : Str) (cs : List Change)
    → IsIn t (names_where p cs) ↔ ((c : Change) × IsIn c cs × (p c ≡ true) × (t ≡ c.name))
names_where-IsIn p t cs = (to, from)
  where
    to : IsIn t (names_where p cs) → (c : Change) × IsIn c cs × (p c ≡ true) × (t ≡ c.name)
    to m =
        let (c, i, e) = map-IsIn (λ (c : Change). c.name) t (keep_if p cs) m in
        let (j, g) = keep_if-IsIn p c cs i in (c, j, g, e)

    from : (c : Change) × IsIn c cs × (p c ≡ true) × (t ≡ c.name) → IsIn t (names_where p cs)
    from (c, i, g, e) =
        subst (λ q. IsIn q (names_where p cs)) (sym e)
          (IsIn-map (λ (c : Change). c.name) c (keep_if p cs) (IsIn-keep_if p c cs i g))

pub names_granted-Grants : (t : Str) (cs : List Change) → IsIn t (names_granted cs) ↔ Grants cs t
unfolding names_granted
names_granted-Grants t cs =
    let (a, b) = sorted_set-IsIn t (names_where (λ c. c.granted) cs) in
    let (to, from) = names_where-IsIn (λ c. c.granted) t cs in ((λ m. to (a m)), λ g. b (from g))

not-eq-true : (b : Bool) → (not b ≡ true) ↔ (b ≡ false)
not-eq-true b = ground arith

pub str_in-false : (t : Str) (xs : List Str) → (not (str_in t xs) ≡ true) ↔ (¬ IsIn t xs)
str_in-false t xs = (
  λ e m. let h = IsIn-str_in t xs m in ground arith,
  λ h. (not-eq-true _).1 (true-or-false (str_in t xs) (λ e. h (str_in-IsIn t xs e))),
)

abbrev not_granted : List Change → Str → Bool
not_granted cs name = not (str_in name (names_granted cs))

abbrev candidates : List Change → List Str
candidates = names_where (λ c. not c.granted)

-- What a request revokes is what some change revokes and none grants.
pub names_revoked-Revokes :
    (t : Str) (cs : List Change) → IsIn t (names_revoked cs) ↔ (Revokes cs t × ¬ Grants cs t)
unfolding names_revoked
names_revoked-Revokes t cs = (to, from)
  where
    to : IsIn t (names_revoked cs) → Revokes cs t × ¬ Grants cs t
    to m =
        let (i, n) =
          keep_if-IsIn (not_granted cs) t (candidates cs)
            ((sorted_set-IsIn t (keep_if (not_granted cs) (candidates cs))).0 m) in
        let (c, k, g, e) = (names_where-IsIn (λ c. not c.granted) t cs).0 i in
        (
          (c, k, (not-eq-true c.granted).0 g, e),
          λ x. (str_in-false t (names_granted cs)).0 n ((names_granted-Grants t cs).1 x),
        )

    from : Revokes cs t × ¬ Grants cs t → IsIn t (names_revoked cs)
    from ((c, i, g, e), none_grants) =
        (sorted_set-IsIn t (keep_if (not_granted cs) (candidates cs))).1 (
          IsIn-keep_if (not_granted cs) t (candidates cs)
            ((names_where-IsIn (λ c. not c.granted) t cs).1 (c, i, (not-eq-true c.granted).1 g, e))
            ((str_in-false t (names_granted cs)).1
              (λ m. none_grants ((names_granted-Grants t cs).0 m))))

table_rows-RowLaws :
    (id : ℕ) (s : Subject) (by : Str)
    → RowLaws str_eq (of_table_owner id s) (λ p. p.table_name) (table_row id s by)
table_rows-RowLaws id s by = record {
  eq_iff = str_eq_iff;
  row_is_mine = λ k. true-and-true _ _ (==_refl id) (same_subject_refl s);
  key_of_row = λ k. refl;
}

-- The request does not take the row away.
abbrev pub KeepsTable : TableChanges → TableRow → Type 0
KeepsTable body p = ¬ (
    (p.connection_id ≡ body.connection_id)
    × (p.subject ≡ body.subject)
    × Revokes body.changes p.table_name
    × (¬ Grants body.changes p.table_name))

-- The rows after the statements of `table_changes`.
abbrev pub tables_after : TableChanges → Str → List TableRow → List TableRow
tables_after body by =
    changed str_eq (of_table_owner body.connection_id body.subject) (λ p. p.table_name)
      (table_row body.connection_id body.subject by) (names_granted body.changes)
      (names_revoked body.changes)

module _ (body : TableChanges) (by : Str) (m m' : AppMeta)
    (after : m'.table_permissions ≡ tables_after body by m.table_permissions) where
  abbrev is_revoked_row : Str → TableRow → Bool
  is_revoked_row =
      is_row str_eq (of_table_owner body.connection_id body.subject) (λ p. p.table_name)

  kept-KeepsTable :
      (p : TableRow)
      → ((k : Str) → IsIn k (names_revoked body.changes) → ¬ (is_revoked_row k p ≡ true))
      → KeepsTable body p
  unfolding is_row
  kept-KeepsTable p kept (e, s, r, g) =
      kept p.table_name ((names_revoked-Revokes p.table_name body.changes).1 (r, g)) (
        true-and-true _ _
          (true-and-true _ _ (==_true _ _ e) (
            subst (λ q. same_subject body.subject q ≡ true) (sym s)
              (same_subject_refl body.subject)))
          (str_eq_refl p.table_name))

  KeepsTable-kept :
      (p : TableRow)
      → KeepsTable body p
      → (k : Str) → IsIn k (names_revoked body.changes)
      → ¬ (is_revoked_row k p ≡ true)
  unfolding is_row
  KeepsTable-kept p kept k i h =
      let (o, e) = and-eq-true (of_table_owner body.connection_id body.subject p) _ h in
      let (c, s) = and-eq-true (p.connection_id == body.connection_id) _ o in
      let t = (str_eq_iff k p.table_name).0 e in
      let (r, g) =
        (names_revoked-Revokes p.table_name body.changes).0
          (subst (λ q. IsIn q (names_revoked body.changes)) t i) in
      kept (==_eq _ _ c, sym (same_subject-eq _ _ s), r, g)

  -- The subjects see a table after the request if the request grants it to one of them on this
  -- connection, or if they saw it by a row that the request leaves.
  pub tables_after-MaySee :
      (id : ℕ) (subs : List Subject) (t : Str)
      → MaySee m' id subs t ↔ (
          ((id ≡ body.connection_id) × IsIn body.subject subs × Grants body.changes t)
          ⊎ ((x : MaySee m id subs t) × KeepsTable body x.row))
  tables_after-MaySee id subs t = (to, from)
    where
      to :
          MaySee m' id subs t
          → ((id ≡ body.connection_id) × IsIn body.subject subs × Grants body.changes t)
            ⊎ ((x : MaySee m id subs t) × KeepsTable body x.row)
      to x = elim (changed-IsIn str_eq _ _ _ _ _ _ x.row (subst (IsIn x.row) after x.is_row)) [
        | inl (i, kept) ↦ inr (
          record {
            row = x.row;
            is_row = i;
            for_connection = x.for_connection;
            for_subject = x.for_subject;
            for_table = x.for_table;
          },
          kept-KeepsTable x.row kept,
        )
        | inr (k, i, e) ↦ inl (
          sym x.for_connection ∙ ap (λ (p : TableRow). p.connection_id) e,
          subst (λ q. IsIn q subs) (ap (λ (p : TableRow). p.subject) e) x.for_subject,
          (names_granted-Grants t body.changes).0 (
              subst (λ q. IsIn q (names_granted body.changes))
                (sym (x.for_table ∙ ap (λ (p : TableRow). p.table_name) e)) i),
        )
      ]

      from :
          ((id ≡ body.connection_id) × IsIn body.subject subs × Grants body.changes t)
            ⊎ ((x : MaySee m id subs t) × KeepsTable body x.row)
          → MaySee m' id subs t
      from (inr (x, kept)) = record {
        row = x.row;
        is_row =
            subst (IsIn x.row) (sym after)
              (IsIn-changed str_eq _ _ _ _ _ _ x.row x.is_row (KeepsTable-kept x.row kept));
        for_connection = x.for_connection;
        for_subject = x.for_subject;
        for_table = x.for_table;
      }
      from (inl (e, i, g)) =
          let (p, j, o, n) =
            added-IsIn str_eq _ _ _ (names_granted body.changes) (names_revoked body.changes)
              m.table_permissions (table_rows-RowLaws body.connection_id body.subject by) t
              ((names_granted-Grants t body.changes).1 g)
              (λ r. ((names_revoked-Revokes t body.changes).0 r).1 g) in
          let (c, s) = and-eq-true (p.connection_id == body.connection_id) _ o in
          record {
            row = p;
            is_row = subst (IsIn p) (sym after) j;
            for_connection = ==_eq _ _ c ∙ sym e;
            for_subject = subst (λ q. IsIn q subs) (same_subject-eq _ _ s) i;
            for_table = sym n;
          }
