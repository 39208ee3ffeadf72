-- ===== src/Validator/Validate.antt =====
-- `QueryValidator.validate` and its three layers.
use mcp_server_for_sql_agent.Unicode.{Unicode, is_word_char, strip, rstrip_by, upper, casefold}
use mcp_server_for_sql_agent.Errors.{
  Rejection, empty_sql, too_long, null_character, several_statements, not_select_text,
  forbidden_keyword, row_locking, dangerous_function, unparseable, not_a_query, data_changing,
  tables_unknown, Result, ok, reject, reject_if, ◌>>=◌, ◌>>◌,
}
use mcp_server_for_sql_agent.Regex.{search, match_at}
use mcp_server_for_sql_agent.Validator.Patterns.{
  forbidden_re, function_re, locking_re, starts_like_query_re,
}
use mcp_server_for_sql_agent.Validator.Mask.{mask_comments_and_quotes}
use mcp_server_for_sql_agent.Validator.Sqlglot.{TableNode, Source, table, scope, Sqlglot}
use mcp_server_for_sql_agent.Prelude.{
  ◌++◌, ◌∷◌, [], List, some, none, Option, ◌||◌, ◌&&◌, not, false, true, Bool, ℕ, keep_if, length,
  if◌then◌else◌, ◌==◌, ltb,
}
use mcp_server_for_sql_agent.Prelude.Strs.{truthy, char_in, str_eq, codes, Str}

-- `tables` is a set: it is compared by membership only.
pub record ValidatedQuery : Type 0 where
  pub sql : Str
  pub tables : List Str

-- SQLAlchemy dialect name to sqlglot dialect name
unfoldable pub sqlglot_dialect : Str → Option Str
sqlglot_dialect d =
    if str_eq d (codes "postgresql")
    then some (codes "postgres")
    else if str_eq d (codes "mysql")
    then some (codes "mysql")
    else if str_eq d (codes "mssql")
    then some (codes "tsql")
    else if str_eq d (codes "sqlite")
    then some (codes "sqlite")
    else none

unfoldable pub write_node_names : List Str
write_node_names =
    codes "Insert"
    ∷ codes "Update"
    ∷ codes "Delete"
    ∷ codes "Merge"
    ∷ codes "Create"
    ∷ codes "Drop"
    ∷ codes "Alter"
    ∷ codes "Command"
    ∷ codes "Into"
    ∷ codes "TruncateTable"
    ∷ codes "Grant"
    ∷ codes "Revoke"
    ∷ codes "Copy"
    ∷ codes "Set"
    ∷ codes "LoadData"
    ∷ codes "Use"
    ∷ []

-- `if match := pattern.search(code): raise QueryRejected(why(match.group(1)))`
abbrev pub reject_match : Option Str → (Str → Rejection) → Result (Unit {0})
reject_match none why = ok tt
reject_match (some m) why = reject (why m)

abbrev pub is_none {ℓ} : {A : Type ℓ} → Option A → Bool
is_none none = true
is_none (some a) = false

unfoldable pub check_text : Unicode → Str → Result (Unit {0})
check_text u code = do
  reject_if (char_in b';' code) several_statements
  reject_if (is_none (match_at (is_word_char u) (starts_like_query_re u.is_space) none code))
      not_select_text
  reject_match (search (is_word_char u) forbidden_re code) (λ m. forbidden_keyword (upper u m))
  reject_match (search (is_word_char u) (locking_re u.is_space) code) (λ m. row_locking)
  reject_match (search (is_word_char u) function_re code) dangerous_function

-- `[s for s in statements if s is not None]`
unfoldable pub present {ℓ} : {A : Type ℓ} → List (Option A) → List A
present [] = []
present (none ∷ xs) = present xs
present (some x ∷ xs) = x ∷ present xs

-- `(table.catalog, table.db, table.name)` without the empty ones
unfoldable pub name_parts : TableNode → List Str
name_parts t = keep_if truthy (t.catalog ∷ t.db ∷ t.name ∷ [])

-- `".".join(parts)`
unfoldable pub join_dots : List Str → Str
join_dots [] = []
join_dots (p ∷ []) = p
join_dots (p ∷ q ∷ ps) = p ++ (b'.' ∷ join_dots (q ∷ ps))

-- Two parts, of which the first is the default schema, lose it.
unfoldable pub drop_default_schema : Unicode → Option Str → List Str → List Str
drop_default_schema u (some schema) (first ∷ second ∷ []) =
    if truthy schema && str_eq (casefold u first) (casefold u schema)
    then second ∷ []
    else first ∷ second ∷ []
drop_default_schema u default_schema parts = parts

unfoldable pub canonical_table_name : Unicode → TableNode → Option Str → Str
unfolding name_parts join_dots drop_default_schema
canonical_table_name u t default_schema =
    join_dots (drop_default_schema u default_schema (name_parts t))

unfoldable pub source_names : Unicode → Option Str → List Source → List Str
unfolding canonical_table_name
source_names u default_schema [] = []
source_names u default_schema (scope ∷ rest) = source_names u default_schema rest
source_names u default_schema (table t ∷ rest) =
    let names = source_names u default_schema rest in
    if t.has_identifier then canonical_table_name u t default_schema ∷ names else names

unfoldable pub scope_names : Unicode → Option Str → List (List Source) → List Str
unfolding source_names
scope_names u default_schema [] = []
scope_names u default_schema (sources ∷ rest) =
    source_names u default_schema sources ++ scope_names u default_schema rest

-- The text without its last character, if that is a semicolon.
unfoldable pub drop_semicolon : Str → Option Str
drop_semicolon [] = none
drop_semicolon (c ∷ []) = if c == b';' then some [] else none
drop_semicolon (c ∷ d ∷ s) = elim (drop_semicolon (d ∷ s)) [ none ↦ none | some t ↦ some (c ∷ t) ]

unfoldable pub strip_trailing_semicolon : Unicode → Str → Str
unfolding rstrip_by drop_semicolon
strip_trailing_semicolon u sql =
    let stripped = rstrip_by u.is_space sql in
    elim (drop_semicolon stripped) [ none ↦ stripped | some t ↦ rstrip_by u.is_space t ]

module _ {Tree : Type 0} (u : Unicode) (g : Sqlglot Tree) where
  unfoldable pub single_query : List Tree → Result Tree
  single_query (tree ∷ []) = do
    reject_if (not (g.is_query tree)) not_a_query
    reject_if (g.find tree (keep_if g.has_node_type write_node_names)) data_changing
    ok tree
  single_query _ = reject several_statements

  unfoldable pub parse : Str → Str → Result Tree
  unfolding single_query present sqlglot_dialect
  parse sql dialect = elim (g.parse sql (sqlglot_dialect dialect)) [
    | none ↦ reject unparseable
    | some statements ↦ single_query (present statements)
  ]

  unfoldable pub extract_tables : Tree → Option Str → Result (List Str)
  unfolding scope_names
  extract_tables tree default_schema = elim (g.traverse_scope tree) [
    | none ↦ reject tables_unknown
    | some scopes ↦ ok (scope_names u default_schema scopes)
  ]

  unfoldable pub validate : ℕ → Str → Str → Option Str → Result ValidatedQuery
  unfolding strip rstrip_by check_text parse extract_tables strip_trailing_semicolon
  validate max_length sql dialect default_schema = do
    reject_if (not (truthy sql) || not (truthy (strip u sql))) empty_sql
    reject_if (ltb max_length (length sql)) (too_long max_length)
    reject_if (char_in 0 sql) null_character
    masked ← mask_comments_and_quotes u sql dialect
    check_text u (strip u (rstrip_by (λ c. c == b';') (strip u masked)))
    tree ← parse sql dialect
    tables ← extract_tables tree default_schema
    ok (record { sql = strip_trailing_semicolon u sql; tables = tables })
