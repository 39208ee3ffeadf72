-- ===== src/Postgres/Laws.antt =====
-- The lookups of `PostgresMetaStore` of services/meta_store.py and the rows of app_meta.
use mcp_server_for_sql_agent.Errors.{ok-ne-raised, ok-eq, Result, ok, Exn}
use mcp_server_for_sql_agent.Models.{Subject, SubjectType, user, role, ConnectionRecord}
use mcp_server_for_sql_agent.World.{ToolRow, World, AppMeta, ConnectionRow, AccessRow, TableRow}
use mcp_server_for_sql_agent.Store.{IsQuiet, StoreLaws}
use mcp_server_for_sql_agent.Postgres.{
  tools_of, unless_failed, Database, same_type, same_subject, matches_a_subject, has_access,
  is_listed, first_record, tables_of, query, postgres_list_connections, postgres_get_connection,
  postgres_allowed_tables, postgres_allowed_tools, postgres_write_audit, postgres,
}
use mcp_server_for_sql_agent.Prelude.Filters.{
  and-eq-true, true-and-true, true-or-false, keep_if-IsIn, IsIn-keep_if, any_of-IsIn, IsIn-any_of,
  map-IsIn,
}
use mcp_server_for_sql_agent.Prelude.{
  arith, ◌∷◌, [], List, some, none, Option, ◌&&◌, false, true, Bool, inr, inl, ◌↔◌, subst, ap, sym,
  refl, ◌≡◌, IsIn-map, IsIn, Bool-cases, ◌==◌, ℕ,
}
use mcp_server_for_sql_agent.Prelude.Strs.{str_eq_refl, str_eq_iff, str_eq, Str}
use mcp_server_for_sql_agent.Regex.{some-eq-some}

pub ==_eq : (m n : ℕ) → m == n ≡ true → m ≡ n
==_eq m n h = ground arith

pub same_type-eq : (a b : SubjectType) → same_type a b ≡ true → a ≡ b
unfolding same_type
same_type-eq user user h = refl
same_type-eq role role h = refl
same_type-eq user role h = cc
same_type-eq role user h = cc

pub same_type_refl : (a : SubjectType) → same_type a a ≡ true
unfolding same_type
same_type_refl user = refl
same_type_refl role = refl

pub same_subject-eq : (s s' : Subject) → same_subject s s' ≡ true → s ≡ s'
unfolding same_subject
same_subject-eq (t, i) (t', i') h =
    let (a, b) = and-eq-true (same_type t t') (str_eq i i') h in
    let e = same_type-eq t t' a in let d = (str_eq_iff i i').0 b in λ j. (e j, d j)

pub same_subject_refl : (s : Subject) → same_subject s s ≡ true
unfolding same_subject
same_subject_refl (t, i) = true-and-true _ _ (same_type_refl t) (str_eq_refl i)

matches-IsIn : (subs : List Subject) (s : Subject) → matches_a_subject subs s ≡ true → IsIn s subs
unfolding matches_a_subject
matches-IsIn subs s h =
    let (x, i, e) = any_of-IsIn (same_subject s) subs h in
    subst (λ q. IsIn q subs) (sym (same_subject-eq s x e)) i

IsIn-matches : (subs : List Subject) (s : Subject) → IsIn s subs → matches_a_subject subs s ≡ true
unfolding matches_a_subject
IsIn-matches subs s m = IsIn-any_of (same_subject s) s subs m (same_subject_refl s)

-- The row of `connections` with the record `r` is active, and a row of `connection_access` grants it to a subject.
pub record MayOpen (m : AppMeta) (subs : List Subject) (name : Str) (r : ConnectionRecord)
    : Type 0 where
  pub row : ConnectionRow
  pub is_row : IsIn row m.connections
  pub is_record : r ≡ row.record_of
  pub active : row.is_active ≡ true
  pub named : r.name ≡ name
  pub access : AccessRow
  pub is_access : IsIn access m.connection_access
  pub for_connection : access.connection_id ≡ r.id
  pub for_subject : IsIn access.subject subs

first_record-IsIn :
    (p : ConnectionRow → Bool) (cs : List ConnectionRow) (r : ConnectionRecord)
    → first_record p cs ≡ some r
    → (c : ConnectionRow) × IsIn c cs × (p c ≡ true) × (r ≡ c.record_of)
unfolding first_record
first_record-IsIn p [] r h = cc
first_record-IsIn p (c ∷ cs) r h = elim (Bool-cases (p c)) [
  | inl e ↦ (c, inl refl, e, sym (some-eq-some (rw e at h)))
  | inr e ↦ let (d, i, k, s) = first_record-IsIn p cs r (rw e at h) in (d, inr i, k, s)
]

first_record-none :
    (p : ConnectionRow → Bool) (cs : List ConnectionRow)
    → ((c : ConnectionRow) → IsIn c cs → ¬ (p c ≡ true))
    → first_record p cs ≡ none
unfolding first_record
first_record-none p [] h = refl
first_record-none p (c ∷ cs) h =
    let no : p c ≡ false = true-or-false (p c) (h c (inl refl)) in
    rw no (first_record-none p cs (λ d i k. h d (inr i) k))

listed-MayOpen :
    (m : AppMeta) (subs : List Subject) (name : Str) (c : ConnectionRow)
    → IsIn c m.connections
    → (str_eq c.record_of.name name && is_listed m subs c) ≡ true
    → MayOpen m subs name c.record_of
unfolding is_listed has_access
listed-MayOpen m subs name c i h =
    let (n, l) = and-eq-true _ _ h in
    let (a, x) = and-eq-true c.is_active _ l in
    let (row, j, k) = any_of-IsIn _ m.connection_access x in
    let (d, s) = and-eq-true (row.connection_id == c.record_of.id) _ k in
    record {
      row = c;
      is_row = i;
      is_record = refl;
      active = a;
      named = (str_eq_iff c.record_of.name name).0 n;
      access = row;
      is_access = j;
      for_connection = ==_eq _ _ d;
      for_subject = matches-IsIn subs row.subject s;
    }

unless_failed-calls :
    {A : Type 0} (o : Option Exn) (w : World) (answer : Result A × World)
    → answer.1.db_calls ≡ w.db_calls
    → (unless_failed o w answer).1.db_calls ≡ w.db_calls
unless_failed-calls none w answer h = h
unless_failed-calls (some e) w answer h = refl

module _ (db : Database) where
  pub query-eq-ok :
      {A : Type 0} (f : AppMeta → A) (w w' : World) (a : A)
      → query db f w ≡ (ok a, w')
      → f w.app_meta ≡ a
  unfolding query
  query-eq-ok {A} f w w' a h = go (db.outage w) h
    where
      go :
          (o : Option Exn)
          → unless_failed o w (ok (f w.app_meta), w) ≡ (ok a, w')
          → f w.app_meta ≡ a
      go none x = ok-eq (ap (λ q. q.0) x)
      go (some e) x = absurd (ok-ne-raised (ap (λ q. q.0) x))

  query-quiet : {A : Type 0} (f : AppMeta → A) → IsQuiet (query db f)
  unfolding query
  query-quiet {A} f = record {
    calls = λ w. unless_failed-calls (db.outage w) w _ refl;
    meta = λ w. go (db.outage w) w;
  }
    where
      go :
          (o : Option Exn) (w : World)
          → (unless_failed o w (ok (f w.app_meta), w)).1.app_meta ≡ w.app_meta
      go none w = refl
      go (some e) w = refl

  -- A connection that `get_connection` finds for the caller's subjects is an active row of that name, and a row of `connection_access` grants it to one of the subjects.
  pub get_connection-MayOpen :
      (name : Str) (subs : List Subject) (w w' : World) (r : ConnectionRecord)
      → postgres_get_connection db name subs w ≡ (ok (some r), w')
      → MayOpen w.app_meta subs name r
  unfolding postgres_get_connection
  get_connection-MayOpen name subs w w' r h =
      let p : ConnectionRow → Bool =
        λ c. str_eq c.record_of.name name && is_listed w.app_meta subs c in
      let e : first_record p w.app_meta.connections ≡ some r =
        query-eq-ok
          (λ m.
            first_record (λ c. str_eq c.record_of.name name && is_listed m subs c) m.connections)
          w w' (some r) h in
      let (c, i, k, s) = first_record-IsIn p w.app_meta.connections r e in
      subst (λ q. MayOpen w.app_meta subs name q) (sym s)
        (listed-MayOpen w.app_meta subs name c i k)

  -- When the database answers and no connection of the name is granted to the subjects, `get_connection` finds none and changes nothing: a connection that is not granted and one that is not there look the same.
  pub get_connection-hidden :
      (name : Str) (subs : List Subject) (w : World)
      → db.outage w ≡ none
      → ((r : ConnectionRecord) → ¬ MayOpen w.app_meta subs name r)
      → postgres_get_connection db name subs w ≡ (ok none, w)
  unfolding postgres_get_connection query
  get_connection-hidden name subs w up h = rw (
    up,
    first_record-none _ w.app_meta.connections
        (λ c i k. h c.record_of (listed-MayOpen w.app_meta subs name c i k)),
  )

-- The row of `table_permissions` for `t` on the connection, for one of the subjects.
pub record MaySee (m : AppMeta) (id : ℕ) (subs : List Subject) (t : Str) : Type 0 where
  pub row : TableRow
  pub is_row : IsIn row m.table_permissions
  pub for_connection : row.connection_id ≡ id
  pub for_subject : IsIn row.subject subs
  pub for_table : t ≡ row.table_name

pub ==_true : (m n : ℕ) → m ≡ n → m == n ≡ true
==_true m n h = ground arith

-- The allowed tables are exactly those that a row of `table_permissions` grants on this connection to one of the subjects.
pub tables_of-MaySee :
    (m : AppMeta) (id : ℕ) (subs : List Subject) (t : Str)
    → IsIn t (tables_of m id subs) ↔ MaySee m id subs t
unfolding tables_of
tables_of-MaySee m id subs t = (to, from)
  where
    to : IsIn t (tables_of m id subs) → MaySee m id subs t
    to i =
        let (row, j, e) = map-IsIn _ t _ i in
        let (k, h) = keep_if-IsIn _ row m.table_permissions j in
        let (c, s) = and-eq-true (row.connection_id == id) _ h in
        record {
          row = row;
          is_row = k;
          for_connection = ==_eq _ _ c;
          for_subject = matches-IsIn subs row.subject s;
          for_table = e;
        }

    from : MaySee m id subs t → IsIn t (tables_of m id subs)
    from x =
        subst (λ q. IsIn q (tables_of m id subs)) (sym x.for_table)
          (IsIn-map (λ p. p.table_name) x.row _
            (IsIn-keep_if _ x.row m.table_permissions x.is_row (
              true-and-true _ _ (==_true _ _ x.for_connection)
                (IsIn-matches subs x.row.subject x.for_subject))))

-- The row of `tool_permissions` that grants the tool to one of the subjects.
pub record MayCall (m : AppMeta) (subs : List Subject) (tool : Str) : Type 0 where
  pub row : ToolRow
  pub is_row : IsIn row m.tool_permissions
  pub for_subject : IsIn row.subject subs
  pub for_tool : tool ≡ row.tool_name

-- The allowed tools are exactly those that a row of `tool_permissions` grants to one of the subjects.
pub tools_of-MayCall :
    (m : AppMeta) (subs : List Subject) (tool : Str)
    → IsIn tool (tools_of m subs) ↔ MayCall m subs tool
unfolding tools_of
tools_of-MayCall m subs tool = (to, from)
  where
    to : IsIn tool (tools_of m subs) → MayCall m subs tool
    to i =
        let (row, j, e) = map-IsIn _ tool _ i in
        let (k, h) = keep_if-IsIn _ row m.tool_permissions j in
        record {
          row = row;
          is_row = k;
          for_subject = matches-IsIn subs row.subject h;
          for_tool = e;
        }

    from : MayCall m subs tool → IsIn tool (tools_of m subs)
    from x =
        subst (λ q. IsIn q (tools_of m subs)) (sym x.for_tool)
          (IsIn-map (λ p. p.tool_name) x.row _
            (IsIn-keep_if _ x.row m.tool_permissions x.is_row
              (IsIn-matches subs x.row.subject x.for_subject)))

-- The store's lookups ask no target database and leave app_meta alone, and writing an audit entry asks no target database: the store keeps the laws of the interface.
pub postgres-StoreLaws : (db : Database) → StoreLaws (postgres db)
unfolding postgres_list_connections postgres_get_connection postgres_allowed_tables
    postgres_allowed_tools postgres_write_audit
postgres-StoreLaws db = record {
  list_connections = λ s. query-quiet db _;
  get_connection = λ n s. query-quiet db _;
  allowed_tables = λ id s. query-quiet db _;
  allowed_tools = λ s. query-quiet db _;
  write_audit = λ e w. unless_failed-calls (db.outage w) w _ refl;
}
