-- ===== src/Backend/Consistent/Requests.antt =====
-- Parts of handlers, on tables that are consistent.
use mcp_server_for_sql_agent.Exec.{Exec, pure, bind-eq-ok, ◌>>=◌}
use mcp_server_for_sql_agent.Backend.Requests.{only_effect, Surroundings}
use mcp_server_for_sql_agent.Prelude.{
  some, none, Option, false, true, Bool, subst, ◌∙◌, ap, sym, refl, ◌≡◌, ℕ, if◌then◌else◌,
}
use mcp_server_for_sql_agent.Prelude.Strs.{Str}
use mcp_server_for_sql_agent.Postgres.{query, Database}
use mcp_server_for_sql_agent.World.{ConnectionRow, AppMeta, World}
use mcp_server_for_sql_agent.Cache.Laws.{CacheLaws}
use mcp_server_for_sql_agent.Backend.{transaction, announce, present_or}
use mcp_server_for_sql_agent.Backend.Grants.{no_connection, find_connection, load_record}
use mcp_server_for_sql_agent.Backend.Connections.{out_of, ConnectionOut, fetch_connection}
use mcp_server_for_sql_agent.Backend.Consistent.{Registered, IsConsistent}
use mcp_server_for_sql_agent.Cache.Stored.{meta_family, schema_family}
use mcp_server_for_sql_agent.Errors.{ok-eq, ok-ne-raised, ok}
use mcp_server_for_sql_agent.Models.{ConnectionRecord}
use mcp_server_for_sql_agent.Backend.Laws.{transaction-Holds, Keeps-eq, bind-Holds, Keeps}
use mcp_server_for_sql_agent.Store.{DbAdapter}
use mcp_server_for_sql_agent.Values.{Json}
use mcp_server_for_sql_agent.Postgres.Laws.{query-eq-ok}

-- What is asked of the surroundings: caching, opening a connection and testing one leave app_meta
-- alone.
pub record Aside {Tree : Type 0} (s : Surroundings Tree) : Type 0 where
  pub cache : CacheLaws s.cache
  pub opens :
      (r : ConnectionRecord) (w : World) → (s.registry.adapter_for r w).1.app_meta ≡ w.app_meta
  pub describes :
      (r : ConnectionRecord) (a : DbAdapter) (v v' : World)
      → s.registry.adapter_for r v ≡ (ok a, v')
      → (table : Str) (w : World) → (a.describe_table table w).1.app_meta ≡ w.app_meta
  pub checks :
      (engine : Str) (details : Json) (p : Option Str) (w : World)
      → (s.check engine details p w).1.app_meta ≡ w.app_meta

pub present_or-eq-ok :
    {S A : Type 0} (status : ℕ) (detail : Str) (o : Option A) (a : A) (s t : S)
    → present_or status detail o s ≡ (ok a, t)
    → o ≡ some a
unfolding present_or
present_or-eq-ok status detail none a s t h = absurd (ok-ne-raised (ap (λ q. q.0) h))
present_or-eq-ok status detail (some b) a s t h = ap (λ q. some q) (ok-eq (ap (λ q. q.0) h))

module _ {Tree : Type 0} (s : Surroundings Tree) (aside : Aside s) where
  abbrev db : Database
  db = s.database

  abbrev pub P : World → Type 0
  P w = IsConsistent s.unicode s.sqlglot w.app_meta

  abbrev pub Stays : {A : Type 0} → Exec World A → Type 0
  Stays m = (w : World) → P w → P (m w).1

  pub aside-Stays :
      {A : Type 0} (m : Exec World A) → ((w : World) → (m w).1.app_meta ≡ w.app_meta) → Stays m
  aside-Stays m h w c = subst (IsConsistent s.unicode s.sqlglot) (sym (h w)) c

  pub Keeps-Stays : {A : Type 0} (m : Exec World A) → Keeps m → Stays m
  Keeps-Stays m k = aside-Stays m (λ w. ap (λ (v : World). v.app_meta) (k w))

  pub bind-Stays :
      {A B : Type 0} (m : Exec World A) (f : A → Exec World B)
      → Stays m
      → ((a : A) → Stays (f a))
      → Stays (m >>= f)
  bind-Stays m f h k w c = bind-Holds P m f w (h w c) (λ a t e. k a t)

  pub keeping-Stays :
      {A B : Type 0} (m : Exec World A) (f : A → Exec World B)
      → Keeps m
      → ((a : A) → Stays (f a))
      → Stays (m >>= f)
  keeping-Stays m f k rest = bind-Stays m f (Keeps-Stays m k) rest

  -- A part that reads, and tells the rest something about the state.
  pub known-Stays :
      {A B : Type 0} (m : Exec World A) (f : A → Exec World B) (Fact : A → AppMeta → Type 0)
      → Keeps m
      → ((w : World) (a : A) → m w ≡ (ok a, w) → Fact a w.app_meta)
      → ((a : A) (w : World) → Fact a w.app_meta → P w → P (f a w).1)
      → Stays (m >>= f)
  known-Stays m f Fact k fact rest w c = bind-Holds P m f w (Keeps-Stays m k w c) (λ a t e x.
      let same : t ≡ w = Keeps-eq m w t (ok a) k e in
      rest a t
        (subst (λ v. Fact a v.app_meta) (sym same) (fact w a (subst (λ v. m w ≡ (ok a, v)) same e)))
        x)

  -- What follows a transaction.
  pub commit-Stays :
      {A B : Type 0} (body : ℕ → Exec AppMeta A) (f : A → Exec World B) (w : World)
      → IsConsistent s.unicode s.sqlglot (body (db.now w) w.app_meta).1
      → ((a : A) → Stays (f a))
      → P w
      → P ((transaction db body >>= f) w).1
  commit-Stays body f w after k c =
      bind-Holds P (transaction db body) f w
        (transaction-Holds db (IsConsistent s.unicode s.sqlglot) body w c after) (λ a t e. k a t)

  pub commits-Stays :
      {A B : Type 0} (body : ℕ → Exec AppMeta A) (f : A → Exec World B)
      → ((now : ℕ) (m : AppMeta)
          → IsConsistent s.unicode s.sqlglot m
          → IsConsistent s.unicode s.sqlglot (body now m).1)
      → ((a : A) → Stays (f a))
      → Stays (transaction db body >>= f)
  commits-Stays body f after k w c = commit-Stays body f w (after (db.now w) w.app_meta c) k c

  -- A part that leaves app_meta alone, in the middle.
  pub meanwhile-Stays :
      {A B : Type 0} (m : Exec World A) (f : A → Exec World B) (Fact : AppMeta → Type 0)
      → ((w : World) → (m w).1.app_meta ≡ w.app_meta)
      → ((a : A) (w : World) → Fact w.app_meta → P w → P (f a w).1)
      → (w : World) → Fact w.app_meta
      → P w
      → P ((m >>= f) w).1
  meanwhile-Stays m f Fact same rest w known c =
      bind-Holds P m f w (aside-Stays m same w c)
        (λ a t e x. rest a t (subst Fact (sym (same w) ∙ ap (λ q. q.1.app_meta) e) known) x)

  pub pure-Stays : {A : Type 0} (a : A) → Stays (pure a)
  unfolding pure
  pure-Stays a w c = c

  pub announce-Stays : (meta schema : Bool) → Stays (announce s.cache meta schema)
  unfolding announce
  announce-Stays meta schema w c = subst (IsConsistent s.unicode s.sqlglot) (sym (go meta schema)) c
    where
      bump_if : Bool → Str → World → World
      bump_if b family v = if b then s.cache.bump family v else v

      one : (b : Bool) (family : Str) (v : World) → (bump_if b family v).app_meta ≡ v.app_meta
      one true family v = (aside.cache.bump family v).meta
      one false family v = refl

      go : (a b : Bool) → (bump_if b schema_family (bump_if a meta_family w)).app_meta ≡ w.app_meta
      go a b = one b schema_family (bump_if a meta_family w) ∙ one a meta_family w

  pub effect-Stays : {A : Type 0} (m : Exec World A) → Stays m → Stays (only_effect m)
  effect-Stays m h = bind-Stays m _ h (λ a. pure-Stays tt)

  pub load_record-Registered :
      (id : ℕ) (w : World) (r : ConnectionRecord)
      → load_record db id w ≡ (ok r, w)
      → Registered id w.app_meta.connections
  unfolding load_record
  load_record-Registered id w r h =
      let (row, v, a, b) = bind-eq-ok (query db (λ m. find_connection id m.connections)) _ w w h in
      let (c, x, d, e) = bind-eq-ok (present_or 404 no_connection row) _ v w b in
      (
        c,
        query-eq-ok db (λ m. find_connection id m.connections) w v row a
            ∙ present_or-eq-ok 404 no_connection row c v x d,
      )

  out_of-Registered :
      (id : ℕ) (m : AppMeta) (o : Option ConnectionRow) (out : ConnectionOut)
      → find_connection id m.connections ≡ o
      → out_of m o ≡ some out
      → Registered id m.connections
  out_of-Registered id m none out e h = cc
  out_of-Registered id m (some c) out e h = (c, e)

  pub fetch_connection-Registered :
      (id : ℕ) (w : World) (out : ConnectionOut)
      → fetch_connection db id w ≡ (ok out, w)
      → Registered id w.app_meta.connections
  unfolding fetch_connection
  fetch_connection-Registered id w out h =
      let (row, v, a, b) =
        bind-eq-ok (query db (λ m. out_of m (find_connection id m.connections))) _ w w h in
      out_of-Registered id w.app_meta (find_connection id w.app_meta.connections) out refl (
        query-eq-ok db (λ m. out_of m (find_connection id m.connections)) w v row a
        ∙ present_or-eq-ok 404 no_connection row out v w b)
