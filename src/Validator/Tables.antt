-- ===== src/Validator/Tables.antt =====
-- The names that `_extract_tables` collects, and the form of a name.
use mcp_server_for_sql_agent.Unicode.{Unicode, casefold}
use mcp_server_for_sql_agent.Validator.Sqlglot.{TableNode, Source, table, scope}
use mcp_server_for_sql_agent.Validator.Validate.{canonical_table_name, source_names, scope_names}
use mcp_server_for_sql_agent.Prelude.{
  ◌∷◌, [], List, some, Option, false, true, Bool, inr, inl, subst, refl, ◌≡◌, IsIn-append,
  IsIn-append_right, IsIn-append_left, IsIn, if◌then◌else◌,
}
use mcp_server_for_sql_agent.Prelude.Strs.{str_eq_refl, truthy, Str}

-- The table `t` is a source of one of the scopes, by a name of its own.
abbrev pub IsSource : TableNode → List (List Source) → Type 0
IsSource t scopes =
    (sources : List Source) × IsIn sources scopes
    × IsIn (table t) sources
    × (t.has_identifier ≡ true)

table-eq : {t t' : TableNode} → table t ≡ table t' → t ≡ t'
table-eq h = cc h

IsIn-if : (b : Bool) (x y : Str) (xs : List Str) → IsIn x xs → IsIn x (if b then y ∷ xs else xs)
IsIn-if true x y xs m = inr m
IsIn-if false x y xs m = m

module _ (u : Unicode) (schema : Option Str) where
  source_names_complete :
      (t : TableNode) (sources : List Source)
      → IsIn (table t) sources
      → t.has_identifier ≡ true
      → IsIn (canonical_table_name u t schema) (source_names u schema sources)
  unfolding source_names
  source_names_complete t (scope ∷ rest) (inl e) h = cc
  source_names_complete t (scope ∷ rest) (inr m) h = source_names_complete t rest m h
  source_names_complete t (table t' ∷ rest) (inl e) h =
      let same : t ≡ t' = table-eq e in rw (← same, h) (inl refl)
  source_names_complete t (table t' ∷ rest) (inr m) h =
      IsIn-if t'.has_identifier _ _ _ (source_names_complete t rest m h)
  source_names_complete t [] m h = absurd m

  -- The name of every table that a scope reads, and that has a name, is among the collected names.
  pub scope_names_complete :
      (t : TableNode) (scopes : List (List Source))
      → IsSource t scopes
      → IsIn (canonical_table_name u t schema) (scope_names u schema scopes)
  unfolding scope_names
  scope_names_complete t [] (sources, m, s, h) = absurd m
  scope_names_complete t (xs ∷ rest) (sources, inl e, s, h) =
      IsIn-append_left _ (source_names u schema xs) _
        (source_names_complete t xs (subst (λ q. IsIn (table t) q) e s) h)
  scope_names_complete t (xs ∷ rest) (sources, inr m, s, h) =
      IsIn-append_right _ (source_names u schema xs) _
        (scope_names_complete t rest (sources, m, s, h))

  source_names_sound :
      (name : Str) (sources : List Source)
      → IsIn name (source_names u schema sources)
      → (t : TableNode) × IsIn (table t) sources
        × (t.has_identifier ≡ true)
        × (name ≡ canonical_table_name u t schema)
  unfolding source_names
  source_names_sound name [] m = absurd m
  source_names_sound name (scope ∷ rest) m =
      let (t, i, h, e) = source_names_sound name rest m in (t, inr i, h, e)
  source_names_sound name (table t ∷ rest) m =
      go (t.has_identifier) refl (source_names_sound name rest) m
    where
      go :
          (b : Bool)
          → t.has_identifier ≡ b
          → (IsIn name (source_names u schema rest)
              → (t : TableNode) × IsIn (table t) rest
                × (t.has_identifier ≡ true)
                × (name ≡ canonical_table_name u t schema))
          → IsIn name (
              if b
              then canonical_table_name u t schema ∷ source_names u schema rest
              else source_names u schema rest)
          → (t' : TableNode) × IsIn (table t') (table t ∷ rest)
            × (t'.has_identifier ≡ true)
            × (name ≡ canonical_table_name u t' schema)
      go true e ih (inl x) = (t, inl refl, e, x)
      go true e ih (inr x) = let (t', i, h, n) = ih x in (t', inr i, h, n)
      go false e ih x = let (t', i, h, n) = ih x in (t', inr i, h, n)

  -- Every name that is collected is the name of a table that some scope reads.
  pub scope_names_sound :
      (name : Str) (scopes : List (List Source))
      → IsIn name (scope_names u schema scopes)
      → (t : TableNode) × IsSource t scopes × (name ≡ canonical_table_name u t schema)
  unfolding scope_names
  scope_names_sound name [] m = absurd m
  scope_names_sound name (xs ∷ rest) m =
      elim (IsIn-append name (source_names u schema xs) (scope_names u schema rest) m) [
        | inl a ↦ let (t, i, h, e) = source_names_sound name xs a in (t, (xs, inl refl, i, h), e)
        | inr b ↦
            let (t, (s, i, j, h), e) = scope_names_sound name rest b in (t, (s, inr i, j, h), e)
      ]

-- A table under its default schema, in whatever case, has the same name as that table without a schema, where neither the table nor the schema is empty and no catalog is given.
pub canonical-default_schema :
    (u : Unicode) (schema : Str) (t : TableNode)
    → t.catalog ≡ []
    → truthy t.db ≡ true
    → truthy t.name ≡ true
    → truthy schema ≡ true
    → casefold u t.db ≡ casefold u schema
    → canonical_table_name u t (some schema)
      ≡ canonical_table_name u (record t { db = [] }) (some schema)
unfolding canonical_table_name
canonical-default_schema u schema t c d n s e = simp (c, d, n, s, e, str_eq_refl)
