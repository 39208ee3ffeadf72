-- ===== src/Backend/Subjects.antt =====
-- The users and roles of routers/permissions.py: the rows of the grids, and `remember_subject`.
use mcp_server_for_sql_agent.Models.{user, role}
use mcp_server_for_sql_agent.Exec.{◌>>=◌, ◌>>◌}
use mcp_server_for_sql_agent.Prelude.{
  map, ◌++◌, ◌∷◌, [], List, some, none, Option, false, true, Bool, ℕ, any_of, if◌then◌else◌,
}
use mcp_server_for_sql_agent.Prelude.Strs.{codes, Str}
use mcp_server_for_sql_agent.Prelude.Ordering.{order_by}
use mcp_server_for_sql_agent.Postgres.{coalesce, query, Database, same_subject}
use mcp_server_for_sql_agent.World.{World, KnownSubject, AppMeta}
use mcp_server_for_sql_agent.Models.{SubjectType, Subject}
use mcp_server_for_sql_agent.Values.{Members, Json}
use mcp_server_for_sql_agent.Exec.{Exec}
use mcp_server_for_sql_agent.Backend.{select, User, alter, transaction, log_change}
use mcp_server_for_sql_agent.Errors.{ok, unexpected, raised}

pub record SubjectOut : Type 0 where
  pub subject : Subject
  pub display_name : Option Str
  pub last_seen_at : Option ℕ

-- `ON CONFLICT DO NOTHING`; the defaults are no name and `now()`.
unfoldable pub remember_subject : ℕ → Subject → List KnownSubject → List KnownSubject
unfolding same_subject
remember_subject now s ks =
    if any_of (λ k. same_subject s k.subject) ks
    then ks
    else ks ++ record { subject = s; display_name = none; last_seen_at = now } ∷ []

-- `ON CONFLICT (...) DO UPDATE SET display_name = COALESCE(...)`
unfoldable pub name_subject : ℕ → Subject → Option Str → List KnownSubject → List KnownSubject
unfolding same_subject
name_subject now s name [] = record { subject = s; display_name = name; last_seen_at = now } ∷ []
name_subject now s name (k ∷ ks) =
    let later = name_subject now s name ks in
    if same_subject s k.subject
    then record k { display_name = coalesce name k.display_name } ∷ ks
    else k ∷ later

abbrev unnamed : Subject → SubjectOut
unnamed s = record { subject = s; display_name = none; last_seen_at = none }

-- The `UNION ALL` of the four tables.
unfoldable pub mentions : AppMeta → List SubjectOut
mentions m =
    map
      (λ k. record {
        subject = k.subject;
        display_name = k.display_name;
        last_seen_at = some k.last_seen_at;
      })
      m.known_subjects
    ++ (map (λ a. unnamed a.subject) m.connection_access
        ++ (map (λ p. unnamed p.subject) m.table_permissions
            ++ map (λ p. unnamed p.subject) m.tool_permissions))

abbrev or_else {ℓ} : {A : Type ℓ} → Option A → Option A → Option A
or_else none b = b
or_else (some a) b = some a

-- A group takes a row in. `known_subjects` has a subject once, so `max` picks the one value that is
-- not null.
unfoldable pub add_to_group : SubjectOut → List SubjectOut → List SubjectOut
unfolding same_subject
add_to_group s [] = s ∷ []
add_to_group s (g ∷ gs) =
    let later = add_to_group s gs in
    if same_subject s.subject g.subject
    then record g {
      display_name = or_else s.display_name g.display_name;
      last_seen_at = or_else s.last_seen_at g.last_seen_at;
    }
      ∷ gs
    else g ∷ later

unfoldable pub group_subjects : List SubjectOut → List SubjectOut
unfolding add_to_group
group_subjects [] = []
group_subjects (s ∷ ss) = add_to_group s (group_subjects ss)

abbrev shown_name : SubjectOut → Str
shown_name s = elim s.display_name [ none ↦ s.subject.1 | some name ↦ name ]

abbrev type_first : SubjectType → SubjectType → Bool → Bool
type_first user role b = true
type_first role user b = false
type_first user user b = b
type_first role role b = b

-- `_SUBJECTS`: users before roles, then by name.
unfoldable pub subjects_of : Database → AppMeta → List SubjectOut
unfolding mentions group_subjects order_by
subjects_of db m =
    order_by
      (λ a b.
        type_first a.subject.0 b.subject.0
          (db.collates (db.lower (shown_name a)) (db.lower (shown_name b))))
      (group_subjects (mentions m))

abbrev pub type_text : SubjectType → Str
type_text user = codes "user"
type_text role = codes "role"

unfoldable pub find_subject : Subject → List SubjectOut → Option SubjectOut
unfolding same_subject
find_subject s [] = none
find_subject s (g ∷ gs) =
    let later = find_subject s gs in if same_subject g.subject s then some g else later

abbrev pub text_or_null : Option Str → Json
text_or_null none = Json.null
text_or_null (some s) = Json.str s

-- `next` on a generator that ends raises, which a coroutine turns into a `RuntimeError`.
abbrev pub found_or_raise : Option SubjectOut → Exec AppMeta SubjectOut
found_or_raise none m = (raised (unexpected (codes "RuntimeError")), m)
found_or_raise (some s) m = (ok s, m)

module _ (db : Database) where
  unfoldable pub list_subjects : Exec World (List SubjectOut)
  unfolding subjects_of query
  list_subjects = query db (subjects_of db)

  -- The statements of the transaction of `add_subject`.
  unfoldable pub new_subject : Subject → Option Str → User → ℕ → Exec AppMeta SubjectOut
  unfolding name_subject log_change subjects_of find_subject alter select
  new_subject s name admin now = do
    alter (λ m. record m { known_subjects = name_subject now s name m.known_subjects })
    log_change now admin (codes "subject.add") (type_text s.0) (some s.1)
        (Members.member (codes "name") (text_or_null name) Members.end)
    listed ← select (subjects_of db)
    found_or_raise (find_subject s listed)

  unfoldable pub add_subject : Subject → Option Str → User → Exec World SubjectOut
  unfolding transaction new_subject
  add_subject s name admin = transaction db (new_subject s name admin)
