-- ===== src/Schema/Names.antt =====
-- The names in the answer of `list_tables` of services/schema_service.py.
use mcp_server_for_sql_agent.Unicode.{Unicode, casefold}
use mcp_server_for_sql_agent.Models.{TableInfo, TableSummary}
use mcp_server_for_sql_agent.Store.{Described}
use mcp_server_for_sql_agent.Sanitizer.{
  first_matching_rule, strip_invisible, cut, withheld, Flagged, SecurityFlag, clean_text,
}
use mcp_server_for_sql_agent.Permissions.{ConnectionAccess, allows}
use mcp_server_for_sql_agent.Schema.Shapes.{described_as, first_text, table_summaries}
use mcp_server_for_sql_agent.Prelude.{
  map, ◌++◌, ◌∷◌, [], List, some, none, Option, false, true, Bool, refl, ◌≡◌, keep_if, cons_if, ℕ,
}
use mcp_server_for_sql_agent.Prelude.Strs.{codes, Str}

-- The text does not depend on the flags before it.
clean_text-flags :
    (u : Unicode) (limit : ℕ) (text location : Str) (f g : List SecurityFlag)
    → (clean_text u limit text location f).0 ≡ (clean_text u limit text location g).0
unfolding clean_text
clean_text-flags u limit text location f g = go (first_matching_rule u (strip_invisible u text))
  where
    go :
        (o : Option Str)
        → (let r : Flagged Str = elim o [
          | some rule ↦ (withheld rule, f ++ (record { location = location; rule = rule } ∷ []))
          | none ↦ (cut limit (strip_invisible u text), f)
        ] in
            r.0)
          ≡ (let r : Flagged Str = elim o [
            | some rule ↦ (withheld rule, g ++ (record { location = location; rule = rule } ∷ []))
            | none ↦ (cut limit (strip_invisible u text), g)
          ] in
              r.0)
    go none = refl
    go (some rule) = refl

module _ (u : Unicode) (limit : ℕ) where
  abbrev pub shown_name : TableInfo → Str
  shown_name i = (clean_text u limit i.name (codes "table name") []).0

  -- The allowed ones of the tables, in their order and each once, and no others.
  pub table_summaries-names :
      (access : ConnectionAccess) (ds : List Described) (infos : List TableInfo)
      (flags : List SecurityFlag)
      → map (λ s. s.name) (table_summaries u limit access ds infos flags).0
        ≡ map shown_name (keep_if (λ i. allows u access i.name) infos)
  unfolding table_summaries
  table_summaries-names access ds [] flags = refl
  table_summaries-names access ds (info ∷ infos) flags =
      go (allows u access info.name) (table_summaries-names access ds infos)
    where
      added : Bool → Flagged (List TableSummary)
      added b = elim b [
        | false ↦ table_summaries u limit access ds infos flags
        | true ↦
            let described = first_text (described_as ds (casefold u info.name) none) info.comment in
            let (n, flags') = clean_text u limit info.name (codes "table name") flags in
            let (d, flags'') =
              clean_text u limit described (codes "description of " ++ info.name) flags' in
            let (rest, flags''') = table_summaries u limit access ds infos flags'' in
            (record { name = n; kind = info.kind; description = d } ∷ rest, flags''')
      ]

      go :
          (b : Bool)
          → ((flags' : List SecurityFlag)
              → map (λ s. s.name) (table_summaries u limit access ds infos flags').0
                ≡ map shown_name (keep_if (λ i. allows u access i.name) infos))
          → map (λ s. s.name) (added b).0
            ≡ map shown_name (cons_if b info (keep_if (λ i. allows u access i.name) infos))
      go false ih = ih flags
      go true ih = λ i.
          clean_text-flags u limit info.name (codes "table name") flags [] i
          ∷ ih
              (clean_text u limit
                (first_text (described_as ds (casefold u info.name) none) info.comment)
                (codes "description of " ++ info.name)
                (clean_text u limit info.name (codes "table name") flags).1).1
              i
