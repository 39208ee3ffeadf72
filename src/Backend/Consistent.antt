-- ===== src/Backend/Consistent.antt =====
-- What the tables of app_meta keep true of one another while administrators change them.
pub mod Bodies
pub mod Edits
pub mod Writes
pub mod Requests
pub mod Handlers
pub mod Settings
pub mod Written
pub mod Described
pub mod Handled
use mcp_server_for_sql_agent.Prelude.{
  ◌++◌, ◌∷◌, [], List, some, none, not, false, true, Bool, inr, inl, ◌⊎◌, subst, ◌∙◌, ap, sym, refl,
  ◌≡◌, ℕ, IsIn, keep_if, Bool-cases, if◌then◌else◌, ◌==◌,
}
use mcp_server_for_sql_agent.Backend.Grants.{find_connection}
use mcp_server_for_sql_agent.World.{
  DescriptionRow, TableRow, AccessRow, ReportRow, AppMeta, ConnectionRow,
}
use mcp_server_for_sql_agent.Unicode.{Unicode}
use mcp_server_for_sql_agent.Regex.{some-eq-some}
use mcp_server_for_sql_agent.Backend.Connections.{update_connections}
use mcp_server_for_sql_agent.Validator.Sqlglot.{Sqlglot}
use mcp_server_for_sql_agent.Postgres.Laws.{==_eq}
use mcp_server_for_sql_agent.Validator.Validate.{validate, ValidatedQuery}
use mcp_server_for_sql_agent.Backend.Reports.{default_sql_length}
use mcp_server_for_sql_agent.Errors.{ok}

-- A connection with the id is registered.
abbrev pub Registered : ℕ → List ConnectionRow → Type 0
Registered id cs = (c : ConnectionRow) × (find_connection id cs ≡ some c)

-- Every connection that is found by its id is found afterwards too, with the same engine.
abbrev pub StillThere : ℕ → List ConnectionRow → List ConnectionRow → Type 0
StillThere id cs ds =
    (c : ConnectionRow)
    → find_connection id cs ≡ some c
    → (d : ConnectionRow) × (find_connection id ds ≡ some d)
      × (d.record_of.engine ≡ c.record_of.engine)

module _ {Tree : Type 0} (u : Unicode) (sqlglot : Sqlglot Tree) where
  -- The connection of a report is registered, and the validator accepts the report's query on it.
  abbrev pub ReadsOnlyReport : List ConnectionRow → ReportRow → Type 0
  ReadsOnlyReport cs r =
      (c : ConnectionRow) × (q : ValidatedQuery) × (find_connection r.connection_id cs ≡ some c)
      × (validate u sqlglot default_sql_length r.sql c.record_of.engine none ≡ ok q)

  -- Every row that names a connection names one that is registered, and every report is a query that
  -- the MCP server accepts.
  pub record IsConsistent (m : AppMeta) : Type 0 where
    pub access :
        (a : AccessRow) → IsIn a m.connection_access → Registered a.connection_id m.connections
    pub tables :
        (p : TableRow) → IsIn p m.table_permissions → Registered p.connection_id m.connections
    pub descriptions :
        (d : DescriptionRow)
        → IsIn d m.schema_descriptions
        → Registered d.connection_id m.connections
    pub reports : (r : ReportRow) → IsIn r m.saved_reports → ReadsOnlyReport m.connections r

  -- The rows of `m'` stood in `m`, with connections that are still there, or are new and right.
  pub record Kept (m m' : AppMeta) : Type 0 where
    pub access :
        (a : AccessRow)
        → IsIn a m'.connection_access
        → (IsIn a m.connection_access × StillThere a.connection_id m.connections m'.connections)
          ⊎ Registered a.connection_id m'.connections
    pub tables :
        (p : TableRow)
        → IsIn p m'.table_permissions
        → (IsIn p m.table_permissions × StillThere p.connection_id m.connections m'.connections)
          ⊎ Registered p.connection_id m'.connections
    pub descriptions :
        (d : DescriptionRow)
        → IsIn d m'.schema_descriptions
        → (IsIn d m.schema_descriptions × StillThere d.connection_id m.connections m'.connections)
          ⊎ Registered d.connection_id m'.connections
    pub reports :
        (r : ReportRow)
        → IsIn r m'.saved_reports
        → (IsIn r m.saved_reports × StillThere r.connection_id m.connections m'.connections)
          ⊎ ReadsOnlyReport m'.connections r

  Registered-still :
      (id : ℕ) (cs ds : List ConnectionRow)
      → Registered id cs
      → StillThere id cs ds
      → Registered id ds
  Registered-still id cs ds (c, e) still = let (d, f, g) = still c e in (d, f)

  pub Kept-IsConsistent : {m m' : AppMeta} → Kept m m' → IsConsistent m → IsConsistent m'
  Kept-IsConsistent {m} {m'} k c = record {
    access = λ a i. elim (k.access a i) [
      | inl (j, s) ↦ Registered-still _ m.connections m'.connections (c.access a j) s
      | inr r ↦ r
    ];
    tables = λ p i. elim (k.tables p i) [
      | inl (j, s) ↦ Registered-still _ m.connections m'.connections (c.tables p j) s
      | inr r ↦ r
    ];
    descriptions = λ d i. elim (k.descriptions d i) [
      | inl (j, s) ↦ Registered-still _ m.connections m'.connections (c.descriptions d j) s
      | inr r ↦ r
    ];
    reports = λ r i. elim (k.reports r i) [
      | inl (j, s) ↦
          let (found, q, e, v) = c.reports r j in
          let (d, f, g) = s found e in
          (
            d,
            q,
            f,
            subst (λ engine. validate u sqlglot default_sql_length r.sql engine none ≡ ok q) (sym g)
                v,
          )
      | inr n ↦ n
    ];
  }

pub same-StillThere : (id : ℕ) (cs : List ConnectionRow) → StillThere id cs cs
same-StillThere id cs c e = (c, e, refl)

pub append-StillThere : (id : ℕ) (cs ds : List ConnectionRow) → StillThere id cs (cs ++ ds)
unfolding find_connection
append-StillThere id [] ds c e = cc
append-StillThere id (b ∷ cs) ds c e = elim (Bool-cases (b.record_of.id == id)) [
  | inl x ↦
      (b, rw x refl, ap (λ (r : ConnectionRow). r.record_of.engine) (some-eq-some (rw x at e)))
  | inr x ↦ let (d, f, g) = append-StillThere id cs ds c (rw x at e) in (d, rw x f, g)
]

-- An update that keeps ids and engines.
pub update-StillThere :
    (id j : ℕ) (f : ConnectionRow → ConnectionRow) (cs : List ConnectionRow)
    → ((c : ConnectionRow) → (f c).record_of.id ≡ c.record_of.id)
    → ((c : ConnectionRow) → (f c).record_of.engine ≡ c.record_of.engine)
    → StillThere id cs (update_connections j f cs)
unfolding find_connection update_connections
update-StillThere id j f [] k n c e = cc
update-StillThere id j f (b ∷ cs) k n c e =
    let kept = if_keeps (b.record_of.id == j) in
    elim (Bool-cases (b.record_of.id == id)) [
      | inl x ↦
          let same : b ≡ c = some-eq-some (rw x at e) in
          (
            if b.record_of.id == j then f b else b,
            rw (kept.0, x) refl,
            kept.1 ∙ ap (λ (r : ConnectionRow). r.record_of.engine) same,
          )
      | inr x ↦
          let (d, g, h) = update-StillThere id j f cs k n c (rw x at e) in (d, rw (kept.0, x) g, h)
    ]
  where
    if_keeps :
        (t : Bool)
        → ((if t then f b else b).record_of.id ≡ b.record_of.id)
          × ((if t then f b else b).record_of.engine ≡ b.record_of.engine)
    if_keeps true = (k b, n b)
    if_keeps false = (refl, refl)

-- The other connections survive the removal of one.
pub remove-StillThere :
    (id j : ℕ) (cs : List ConnectionRow)
    → (id == j) ≡ false
    → StillThere id cs (keep_if (λ c. not (c.record_of.id == j)) cs)
unfolding find_connection
remove-StillThere id j [] n c e = cc
remove-StillThere id j (b ∷ cs) n c e = elim (Bool-cases (b.record_of.id == id)) [
  | inl x ↦
      let same : b ≡ c = some-eq-some (rw x at e) in
      let other : (b.record_of.id == j) ≡ false =
        subst (λ q. (q == j) ≡ false) (sym (==_eq _ _ x)) n in
      (b, rw (other, x) refl, ap (λ (r : ConnectionRow). r.record_of.engine) same)
  | inr x ↦
      let (d, g, h) = remove-StillThere id j cs n c (rw x at e) in
      elim (Bool-cases (b.record_of.id == j)) [
        | inl y ↦ (d, rw y g, h)
        | inr y ↦ (d, rw (y, x) g, h)
      ]
]
