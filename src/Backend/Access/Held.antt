-- ===== src/Backend/Access/Held.antt =====
-- Who holds a connection: the sets of subjects of `set_access` in routers/connections.py and the rows
-- of connection_access.
use mcp_server_for_sql_agent.Backend.Access.{
  subject_in, minus, subject_set, existing_access, access_row, on_connection,
}
use mcp_server_for_sql_agent.Backend.Rows.{
  delete_rows, insert_rows, is_row, holds, holds-insert_rows, holds-delete_rows, others-insert_rows,
  others-delete_rows, RowLaws,
}
use mcp_server_for_sql_agent.Prelude.{
  not, ◌∙◌, arith, map, ◌∷◌, [], List, ◌&&◌, true, Bool, inr, inl, ◌↔◌, subst, ap, sym, refl, ◌≡◌,
  ℕ, IsIn, keep_if, Bool-cases, ==_refl,
}
use mcp_server_for_sql_agent.Prelude.Strs.{Str}
use mcp_server_for_sql_agent.Prelude.Filters.{IsIn-any_of, any_of-IsIn, true-and-true, and-eq-true}
use mcp_server_for_sql_agent.World.{AppMeta, AccessRow}
use mcp_server_for_sql_agent.Models.{Subject}
use mcp_server_for_sql_agent.Postgres.{same_subject}
use mcp_server_for_sql_agent.Postgres.Laws.{==_eq, same_subject_refl, ==_true, same_subject-eq}

-- A row that gives the subject the connection.
abbrev pub HasAccess : AppMeta → ℕ → Subject → Type 0
HasAccess m id s =
    (a : AccessRow) × IsIn a m.connection_access × (a.connection_id ≡ id) × (a.subject ≡ s)

pub same_subject_iff : (a b : Subject) → (same_subject a b ≡ true) ↔ (a ≡ b)
same_subject_iff a b =
    (same_subject-eq a b, λ e. subst (λ q. same_subject a q ≡ true) e (same_subject_refl a))

pub access_rows-RowLaws :
    (id : ℕ) (by : Str)
    → RowLaws same_subject (on_connection id) (λ a. a.subject) (access_row id by)
access_rows-RowLaws id by = record {
  eq_iff = same_subject_iff;
  row_is_mine = λ k. ==_refl id;
  key_of_row = λ k. refl;
}

pub subject_in-keep_if :
    (s : Subject) (p : Subject → Bool) (a : List Subject)
    → subject_in s (keep_if p a) ≡ (subject_in s a && p s)
unfolding subject_in
subject_in-keep_if s p [] = refl
subject_in-keep_if s p (x ∷ a) = elim (Bool-cases (same_subject s x)) [
  | inl e ↦
      let same = same_subject-eq s x e in
      let alike : p x ≡ p s = ap p (sym same) in ground (arith, e, alike, subject_in-keep_if s p a)
  | inr e ↦ ground (arith, e, subject_in-keep_if s p a)
]

pub subject_in-subject_set :
    (s : Subject) (a : List Subject) → subject_in s (subject_set a) ≡ subject_in s a
unfolding subject_in subject_set
subject_in-subject_set s [] = refl
subject_in-subject_set s (x ∷ a) = elim (Bool-cases (same_subject s x)) [
  | inl e ↦
      let same : subject_in s a ≡ subject_in x a =
        ap (λ q. subject_in q a) (same_subject-eq s x e) in
      ground (arith, e, same, subject_in-subject_set s a, subject_in-subject_set x a)
  | inr e ↦ ground (arith, e, subject_in-subject_set s a, subject_in-subject_set x a)
]

pub subject_in-IsIn : (s : Subject) (a : List Subject) → (subject_in s a ≡ true) ↔ IsIn s a
unfolding subject_in
subject_in-IsIn s a = (
  λ h.
      let (x, i, e) = any_of-IsIn (same_subject s) a h in
      subst (λ q. IsIn q a) (sym (same_subject-eq s x e)) i,
  λ i. IsIn-any_of (same_subject s) s a i (same_subject_refl s),
)

module _ (id : ℕ) where
  abbrev pub held_by : Subject → List AccessRow → Bool
  held_by = holds same_subject (on_connection id) (λ a. a.subject)

  pub subject_in-existing :
      (s : Subject) (rows : List AccessRow)
      → subject_in s (map (λ a. a.subject) (keep_if (on_connection id) rows)) ≡ held_by s rows
  unfolding subject_in holds is_row
  subject_in-existing s [] = refl
  subject_in-existing s (r ∷ rows) = ground (arith, subject_in-existing s rows)

  pub held_by-HasAccess :
      (m : AppMeta) (s : Subject) → HasAccess m id s ↔ (held_by s m.connection_access ≡ true)
  unfolding holds is_row
  held_by-HasAccess m s = (
    λ x.
        let (a, i, c, e) = x in
        IsIn-any_of _ a m.connection_access i
          (true-and-true _ _ (==_true _ _ c) ((same_subject_iff s a.subject).1 (sym e))),
    λ h.
        let (a, i, x) = any_of-IsIn _ m.connection_access h in
        let (c, e) = and-eq-true (on_connection id a) _ x in
        (a, i, ==_eq _ _ c, sym (same_subject-eq s a.subject e)),
  )

  abbrev pub after : List Subject → Str → AppMeta → List AccessRow
  after wanted by m =
      insert_rows same_subject (on_connection id) (λ a. a.subject) (access_row id by)
        (minus wanted (existing_access id m))
        (delete_rows same_subject (on_connection id) (λ a. a.subject)
          (minus (existing_access id m) wanted) m.connection_access)

  -- Whatever was there, exactly the wanted subjects are held afterwards.
  pub held_by-after :
      (s : Subject) (wanted : List Subject) (by : Str) (m : AppMeta)
      → held_by s (after wanted by m) ≡ subject_in s wanted
  unfolding subject_in minus existing_access
  held_by-after s wanted by m =
      holds-insert_rows _ _ _ _ (access_rows-RowLaws id by) s _ _
      ∙ ground (
        arith,
        holds-delete_rows _ _ _ _ (access_rows-RowLaws id by) s
            (minus (existing_access id m) wanted) m.connection_access,
        subject_in-keep_if s (λ q. not (subject_in q (existing_access id m))) wanted,
        subject_in-keep_if s (λ q. not (subject_in q wanted)) (existing_access id m),
        subject_in-subject_set s
            (map (λ a. a.subject) (keep_if (on_connection id) m.connection_access)),
        subject_in-existing s m.connection_access,
      )

  abbrev pub other_rows : List AccessRow → List AccessRow
  other_rows = keep_if (λ a. not (on_connection id a))

  pub other_rows-after :
      (wanted : List Subject) (by : Str) (m : AppMeta)
      → other_rows (after wanted by m) ≡ other_rows m.connection_access
  other_rows-after wanted by m =
      others-insert_rows _ _ _ _ (access_rows-RowLaws id by) _ _
      ∙ others-delete_rows _ _ _ _ (access_rows-RowLaws id by) _ _
