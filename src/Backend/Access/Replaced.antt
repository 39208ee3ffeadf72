-- ===== src/Backend/Access/Replaced.antt =====
-- What `set_access` of routers/connections.py leaves, and what `get_access` reads back.
use mcp_server_for_sql_agent.Cache.Laws.{CacheLaws, IsAside}
use mcp_server_for_sql_agent.Values.{Members}
use mcp_server_for_sql_agent.Backend.Access.{
  wanted_of, get_access, log_unless, set_access, display_name_of, replace_access, access_list,
  NamedSubject, subject_in, minus, existing_access, on_connection,
}
use mcp_server_for_sql_agent.Prelude.{
  Option, false, IsIn-map, not, ◌∙◌, map, List, ◌&&◌, true, Bool, ◌↔◌, subst, ap, sym, refl, ◌≡◌, ℕ,
  IsIn, keep_if,
}
use mcp_server_for_sql_agent.Prelude.Strs.{is_some_item, Str}
use mcp_server_for_sql_agent.Prelude.Filters.{map-IsIn, IsIn-keep_if, keep_if-IsIn}
use mcp_server_for_sql_agent.World.{World, AppMeta, AccessRow}
use mcp_server_for_sql_agent.Models.{Subject}
use mcp_server_for_sql_agent.Postgres.{query, Database}
use mcp_server_for_sql_agent.Postgres.Laws.{query-eq-ok, ==_eq, ==_true}
use mcp_server_for_sql_agent.Prelude.Ordering.{order_by-IsIn}
use mcp_server_for_sql_agent.Backend.{transaction, announce, alter, select, User, log_change}
use mcp_server_for_sql_agent.Cache.{Cache}
use mcp_server_for_sql_agent.Errors.{ok}
use mcp_server_for_sql_agent.Backend.Connections.{fetch_connection}
use mcp_server_for_sql_agent.Exec.{bind-eq-ok, ◌>>=◌}
use mcp_server_for_sql_agent.Cache.Stored.{meta_family}
use mcp_server_for_sql_agent.Backend.Laws.{
  present_or-Keeps, query-eq, bind-Keeps, transaction-eq-ok, Keeps-eq, Keeps,
}
use mcp_server_for_sql_agent.Backend.Grants.{no_connection}
use mcp_server_for_sql_agent.Backend.Access.Held.{
  HasAccess, held_by, after, subject_in-subject_set, subject_in-IsIn, held_by-HasAccess,
  held_by-after, other_rows-after,
}

-- The grants of the connection are those that the request names; other connections' grants and the
-- other tables are as before.
pub record AccessReplaced (id : ℕ) (subjects answer : List NamedSubject) (m m' : AppMeta)
    : Type 0 where
  pub stored : (s : Subject) → HasAccess m' id s ↔ IsIn s (map (λ n. n.subject) subjects)
  pub answered :
      (s : Subject) → IsIn s (map (λ n. n.subject) answer) ↔ IsIn s (map (λ n. n.subject) subjects)
  pub other_connections :
      keep_if (λ a. not (on_connection id a)) m'.connection_access
      ≡ keep_if (λ a. not (on_connection id a)) m.connection_access
  pub connections : m'.connections ≡ m.connections
  pub tables : m'.table_permissions ≡ m.table_permissions
  pub tools : m'.tool_permissions ≡ m.tool_permissions
  pub reports : m'.saved_reports ≡ m.saved_reports

module _ (db : Database) (id : ℕ) where
  access_list-HasAccess :
      (m : AppMeta) (s : Subject)
      → IsIn s (map (λ n. n.subject) (access_list db id m)) ↔ HasAccess m id s
  unfolding access_list
  access_list-HasAccess m s = (to, from)
    where
      mine : List AccessRow
      mine = keep_if (on_connection id) m.connection_access

      to : IsIn s (map (λ n. n.subject) (access_list db id m)) → HasAccess m id s
      to i =
          let (n, j, e) = map-IsIn (λ (n : NamedSubject). n.subject) s (access_list db id m) i in
          let (t, k, f) =
            map-IsIn
              (λ t. record { subject = t; display_name = display_name_of t m.known_subjects }) n _
              j in
          let (a, l, g) =
            map-IsIn (λ (a : AccessRow). a.subject) t mine
              ((order_by-IsIn _ t (map (λ a. a.subject) mine)).0 k) in
          let (p, q) = keep_if-IsIn (on_connection id) a m.connection_access l in
          (a, p, ==_eq _ _ q, sym (e ∙ ap (λ (n : NamedSubject). n.subject) f ∙ g))

      from : HasAccess m id s → IsIn s (map (λ n. n.subject) (access_list db id m))
      from (a, p, q, e) =
          subst (λ t. IsIn t (map (λ (n : NamedSubject). n.subject) (access_list db id m))) e
            (IsIn-map (λ (n : NamedSubject). n.subject) _ (access_list db id m)
              (IsIn-map
                (λ t. record { subject = t; display_name = display_name_of t m.known_subjects })
                a.subject _
                ((order_by-IsIn _ a.subject (map (λ a. a.subject) mine)).1 (
                  IsIn-map (λ (a : AccessRow). a.subject) a mine
                    (IsIn-keep_if (on_connection id) a m.connection_access p (==_true _ _ q))))))

  log_unless-tables :
      (b : Bool) (now : ℕ) (admin : User) (a t : Str) (x : Option Str) (d : Members)
      (m m' : AppMeta)
      → log_unless b (log_change now admin a t x d) m ≡ (ok tt, m')
      → m' ≡ record m { admin_log = m'.admin_log }
  unfolding log_change
  log_unless-tables true now admin a t x d m m' h =
      subst (λ (n : AppMeta). n ≡ record m { admin_log = n.admin_log }) (ap (λ q. q.1) h) refl
  log_unless-tables false now admin a t x d m m' h =
      subst (λ (n : AppMeta). n ≡ record m { admin_log = n.admin_log }) (ap (λ q. q.1) h) refl

  replace_access-after :
      (name : Str) (wanted : List Subject) (admin : User) (now : ℕ) (m m' : AppMeta)
      → replace_access db id name wanted admin now m ≡ (ok tt, m')
      → m' ≡ record m { admin_log = m'.admin_log; connection_access = after id wanted admin.sub m }
  unfolding replace_access select alter ◌>>=◌
  replace_access-after name wanted admin now m m' h =
      log_unless-tables
        (not (is_some_item (minus wanted (existing_access id m)))
          && not (is_some_item (minus (existing_access id m) wanted)))
        now admin _ _ _ _ (record m { connection_access = after id wanted admin.sub m }) m' h

  pub fetch_connection-Keeps : Keeps (fetch_connection db id)
  unfolding fetch_connection
  fetch_connection-Keeps =
      bind-Keeps _ _ (query-eq db _) (λ row. present_or-Keeps 404 no_connection row)

  get_access-eq-ok :
      (w w' : World) (answer : List NamedSubject)
      → get_access db id w ≡ (ok answer, w')
      → (access_list db id w.app_meta ≡ answer) × (w' ≡ w)
  unfolding get_access
  get_access-eq-ok w w' answer h =
      let (current, v, a, b) = bind-eq-ok (fetch_connection db id) _ w w' h in
      let same = Keeps-eq (fetch_connection db id) w v (ok current) fetch_connection-Keeps a in
      (
        ap (λ (t : World). access_list db id t.app_meta) (sym same)
            ∙ query-eq-ok db (access_list db id) v w' answer b,
        Keeps-eq (query db (access_list db id)) v w' (ok answer) (query-eq db (access_list db id)) b
            ∙ same,
      )

  after-AccessReplaced :
      (subjects : List NamedSubject) (by : Str) (m m' : AppMeta)
      → m' ≡ record m {
        admin_log = m'.admin_log;
        connection_access = after id (wanted_of subjects) by m;
      }
      → AccessReplaced id subjects (access_list db id m') m m'
  after-AccessReplaced subjects by m m' e = record {
    stored = stored;
    answered = λ s.
        let (to, from) = access_list-HasAccess m' s in
        let (there, back) = stored s in (λ i. there (to i), λ i. from (back i));
    other_connections =
        ap (λ (n : AppMeta). keep_if (λ a. not (on_connection id a)) n.connection_access) e
        ∙ other_rows-after id (wanted_of subjects) by m;
    connections = ap (λ (n : AppMeta). n.connections) e;
    tables = ap (λ (n : AppMeta). n.table_permissions) e;
    tools = ap (λ (n : AppMeta). n.tool_permissions) e;
    reports = ap (λ (n : AppMeta). n.saved_reports) e;
  }
    where
      held :
          (s : Subject)
          → held_by id s m'.connection_access ≡ subject_in s (map (λ n. n.subject) subjects)
      held s =
          ap (λ (n : AppMeta). held_by id s n.connection_access) e
          ∙ held_by-after id s (wanted_of subjects) by m
          ∙ subject_in-subject_set s (map (λ n. n.subject) subjects)

      stored : (s : Subject) → HasAccess m' id s ↔ IsIn s (map (λ n. n.subject) subjects)
      stored s =
          let (to, from) = held_by-HasAccess id m' s in
          let (there, back) = subject_in-IsIn s (map (λ n. n.subject) subjects) in
          (λ x. there (sym (held s) ∙ to x), λ i. from (held s ∙ back i))

module _ (db : Database) (cache : Cache) where
  announce_meta-IsAside :
      CacheLaws cache → (w w' : World) → announce cache true false w ≡ (ok tt, w') → IsAside w w'
  unfolding announce
  announce_meta-IsAside laws w w' h = subst (IsAside w) (ap (λ q. q.1) h) (laws.bump meta_family w)

  -- If `set_access` succeeds, then whatever rows there were, exactly the subjects of the request have the connection afterwards, which is what the answer, read back by `get_access`, lists; the grants of the other connections stay as they are, in their order, and so do the connections, the tables, the tools and the reports.
  pub set_access-AccessReplaced :
      (laws : CacheLaws cache) (id : ℕ) (subjects answer : List NamedSubject) (admin : User)
      (w w' : World)
      → set_access db cache id subjects admin w ≡ (ok answer, w')
      → AccessReplaced id subjects answer w.app_meta w'.app_meta
  unfolding set_access
  set_access-AccessReplaced laws id subjects answer admin w w' h =
      let (current, w₁, a, h₁) = bind-eq-ok (fetch_connection db id) _ w w' h in
      let body = replace_access db id current.name (wanted_of subjects) admin in
      let (x, w₂, b, h₂) = bind-eq-ok (transaction db body) _ w₁ w' h₁ in
      let (y, w₃, c, h₃) = bind-eq-ok (announce cache true false) _ w₂ w' h₂ in
      let (listed, last) = get_access-eq-ok db id w₃ w' answer h₃ in
      let (run, rest) = transaction-eq-ok db body w₁ w₂ x b in
      let first =
        Keeps-eq (fetch_connection db id) w w₁ (ok current) (fetch_connection-Keeps db id) a in
      let told : w₃.app_meta ≡ w₂.app_meta = (announce_meta-IsAside laws w₂ w₃ c).meta in
      subst (λ (t : World). AccessReplaced id subjects answer t.app_meta w'.app_meta) first
        (subst (λ l. AccessReplaced id subjects l w₁.app_meta w'.app_meta) listed
          (subst (λ n. AccessReplaced id subjects (access_list db id w₃.app_meta) w₁.app_meta n)
            (ap (λ (t : World). t.app_meta) (sym last))
            (subst (λ n. AccessReplaced id subjects (access_list db id n) w₁.app_meta n) (sym told)
              (after-AccessReplaced db id subjects admin.sub w₁.app_meta w₂.app_meta (
                replace_access-after db id current.name (wanted_of subjects) admin (db.now w₁)
                  w₁.app_meta w₂.app_meta run)))))
