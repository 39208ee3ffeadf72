-- ===== src/Validator/Accepted.antt =====
-- What holds of every query that `QueryValidator.validate` lets through.
use mcp_server_for_sql_agent.Unicode.{Unicode, strip, rstrip_by}
use mcp_server_for_sql_agent.Errors.{
  ok-eq, unparseable, tables_unknown, ok, reject, >>=-eq-ok, >>-eq-ok, reject_if-eq-ok,
}
use mcp_server_for_sql_agent.Validator.Mask.{mask-Segments}
use mcp_server_for_sql_agent.Validator.Segments.{Segments}
use mcp_server_for_sql_agent.Validator.Sqlglot.{Source, Sqlglot}
use mcp_server_for_sql_agent.Validator.Keywords.{TextOk, check_text-TextOk}
use mcp_server_for_sql_agent.Validator.Validate.{
  ValidatedQuery, sqlglot_dialect, write_node_names, present, scope_names, single_query, parse,
  extract_tables, validate, strip_trailing_semicolon,
}
use mcp_server_for_sql_agent.Prelude.{
  ◌∙◌, arith, ◌∷◌, [], List, some, none, Option, not, false, true, Bool, ap, sym, refl, ◌≡◌, ◌≤◌, ℕ,
  keep_if, length, ◌==◌, ltb,
}
use mcp_server_for_sql_agent.Prelude.Strs.{char_in, Str}

not-eq-false : (b : Bool) → not b ≡ false → b ≡ true
not-eq-false b h = ground arith

not-ltb : (a b : ℕ) → ltb a b ≡ false → b ≤ a
not-ltb a b h = ground arith

module _ {Tree : Type 0} (u : Unicode) (g : Sqlglot Tree) where
  -- `tree` is the only statement that the parser finds, and a plain read.
  pub record ReadsOnly (sql dialect : Str) (tree : Tree) : Type 0 where
    pub statements : List (Option Tree)
    pub parsed : g.parse sql (sqlglot_dialect dialect) ≡ some statements
    pub only : present statements ≡ tree ∷ []
    pub query : g.is_query tree ≡ true
    pub no_write : g.find tree (keep_if g.has_node_type write_node_names) ≡ false

  single_query-ok :
      (trees : List Tree) (tree : Tree)
      → single_query u g trees ≡ ok tree
      → (trees ≡ tree ∷ [])
        × (g.is_query tree ≡ true)
        × (g.find tree (keep_if g.has_node_type write_node_names) ≡ false)
  unfolding single_query
  single_query-ok [] tree h = cc
  single_query-ok (t ∷ []) tree h =
      let (a, h₁) = >>-eq-ok _ _ h in
      let (b, h₂) = >>-eq-ok _ _ h₁ in
      let e : t ≡ tree = ok-eq h₂ in
      (
        ap (λ q. q ∷ []) e,
        rw (← e) (not-eq-false _ (reject_if-eq-ok _ _ a)),
        rw (← e) (reject_if-eq-ok _ _ b),
      )
  single_query-ok (t ∷ t' ∷ ts) tree h = cc

  parse-ReadsOnly :
      (sql dialect : Str) (tree : Tree)
      → parse u g sql dialect ≡ ok tree
      → ReadsOnly sql dialect tree
  unfolding parse
  parse-ReadsOnly sql dialect tree h = go (g.parse sql (sqlglot_dialect dialect)) refl h
    where
      go :
          (o : Option (List (Option Tree)))
          → g.parse sql (sqlglot_dialect dialect) ≡ o
          → elim o [ none ↦ reject unparseable | some xs ↦ single_query u g (present xs) ] ≡ ok tree
          → ReadsOnly sql dialect tree
      go none e x = cc
      go (some xs) e x =
          let (a, b, c) = single_query-ok (present xs) tree x in
          record { statements = xs; parsed = e; only = a; query = b; no_write = c }

  -- Everything that the three layers have established.
  pub record Accepted (max_length : ℕ) (sql dialect : Str) (schema : Option Str)
      (q : ValidatedQuery) : Type 0 where
    pub fits : length sql ≤ max_length
    pub no_null : char_in 0 sql ≡ false
    pub masked : Str
    pub pieces : Segments u dialect none sql masked
    pub text : TextOk u (strip u (rstrip_by (λ c. c == b';') (strip u masked)))
    pub tree : Tree
    pub reads : ReadsOnly sql dialect tree
    pub scopes : List (List Source)
    pub traversed : g.traverse_scope tree ≡ some scopes
    pub tables : q.tables ≡ scope_names u schema scopes
    pub sent : q.sql ≡ strip_trailing_semicolon u sql

  extract_tables-ok :
      (tree : Tree) (schema : Option Str) (names : List Str)
      → extract_tables u g tree schema ≡ ok names
      → (scopes : List (List Source)) × (g.traverse_scope tree ≡ some scopes)
        × (names ≡ scope_names u schema scopes)
  unfolding extract_tables
  extract_tables-ok tree schema names h = go (g.traverse_scope tree) refl h
    where
      go :
          (o : Option (List (List Source)))
          → g.traverse_scope tree ≡ o
          → elim o [ none ↦ reject tables_unknown | some xs ↦ ok (scope_names u schema xs) ]
            ≡ ok names
          → (scopes : List (List Source)) × (g.traverse_scope tree ≡ some scopes)
            × (names ≡ scope_names u schema scopes)
      go none e x = cc
      go (some xs) e x = (xs, e, sym (ok-eq x))

  -- A query that is let through is no longer than the limit and has no null character. Its text is a sequence of comments, quoted sections and plain characters, and in what is left when the first two are masked there is no semicolon but at the end, no forbidden keyword, no dangerous function and no shared locking clause. The parser finds one statement in it, a query with no node that writes. Its tables are the names of the tables that the scopes read, and the text that is sent is the caller's without one trailing semicolon.
  pub validate-Accepted :
      (max_length : ℕ) (sql dialect : Str) (schema : Option Str) (q : ValidatedQuery)
      → validate u g max_length sql dialect schema ≡ ok q
      → Accepted max_length sql dialect schema q
  unfolding validate
  validate-Accepted max_length sql dialect schema q h =
      let (a, h₁) = >>-eq-ok _ _ h in
      let (b, h₂) = >>-eq-ok _ _ h₁ in
      let (c, h₃) = >>-eq-ok _ _ h₂ in
      let (masked, m, h₄) = >>=-eq-ok _ _ h₃ in
      let (t, h₅) = >>-eq-ok _ _ h₄ in
      let (tree, p, h₆) = >>=-eq-ok _ _ h₅ in
      let (names, x, h₇) = >>=-eq-ok _ _ h₆ in
      let (scopes, s, n) = extract_tables-ok tree schema names x in
      let e : record { sql = strip_trailing_semicolon u sql; tables = names } ≡ q = ok-eq h₇ in
      record {
        fits = not-ltb _ _ (reject_if-eq-ok _ _ b);
        no_null = reject_if-eq-ok _ _ c;
        masked = masked;
        pieces = mask-Segments u sql dialect masked m;
        text = check_text-TextOk u _ t;
        tree = tree;
        reads = parse-ReadsOnly sql dialect tree p;
        scopes = scopes;
        traversed = s;
        tables = sym (ap (λ r. r.tables) e) ∙ n;
        sent = sym (ap (λ r. r.sql) e);
      }
