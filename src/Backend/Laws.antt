-- ===== src/Backend/Laws.antt =====
-- How a transaction and the announcement of backend handlers end.
use mcp_server_for_sql_agent.Errors.{ok-eq, Result, ok, raised, Exn, ok-ne-raised}
use mcp_server_for_sql_agent.Exec.{pure, Exec, continue, ◌>>=◌}
use mcp_server_for_sql_agent.Prelude.{
  subst, if◌then◌else◌, false, true, Bool, sym, some, none, Option, inr, inl, ◌⊎◌, ◌∙◌, ap, refl,
  ◌≡◌, ℕ,
}
use mcp_server_for_sql_agent.Postgres.{unless_failed, query, Database}
use mcp_server_for_sql_agent.Backend.{announce, present_or, refuse_if, settle, transaction}
use mcp_server_for_sql_agent.World.{World, AppMeta}
use mcp_server_for_sql_agent.Prelude.Strs.{Str}
use mcp_server_for_sql_agent.Cache.{Cache}
use mcp_server_for_sql_agent.Cache.Laws.{IsAside-trans, IsAside, CacheLaws}
use mcp_server_for_sql_agent.Cache.Stored.{meta_family, schema_family}

module _ (db : Database) where
  pub transaction-eq-ok :
      {A : Type 0} (body : ℕ → Exec AppMeta A) (w w' : World) (a : A)
      → transaction db body w ≡ (ok a, w')
      → (body (db.now w) w.app_meta ≡ (ok a, w'.app_meta))
        × (w' ≡ record w { app_meta = w'.app_meta })
  unfolding transaction
  transaction-eq-ok {A} body w w' a h = go (db.outage w) (body (db.now w) w.app_meta) h
    where
      go :
          (o : Option Exn) (p : Result A × AppMeta)
          → unless_failed o w (settle w p) ≡ (ok a, w')
          → (p ≡ (ok a, w'.app_meta)) × (w' ≡ record w { app_meta = w'.app_meta })
      go (some e) p x = absurd (ok-ne-raised (ap (λ q. q.0) x))
      go none (raised e, m) x = absurd (ok-ne-raised (ap (λ q. q.0) x))
      go none (ok b, m) x =
          let v = ap (λ q. q.1) x in
          (
            λ i. ((ap (λ q. q.0) x) i, (ap (λ (u : World). u.app_meta) v) i),
            sym v ∙ ap (λ (u : World). record w { app_meta = u.app_meta }) v,
          )

  -- A transaction that ends in an exception leaves no trace.
  pub transaction-raised :
      {A : Type 0} (body : ℕ → Exec AppMeta A) (w w' : World) (e : Exn)
      → transaction db body w ≡ (raised e, w')
      → w' ≡ w
  unfolding transaction
  transaction-raised {A} body w w' e h = go (db.outage w) (body (db.now w) w.app_meta) h
    where
      go :
          (o : Option Exn) (p : Result A × AppMeta)
          → unless_failed o w (settle w p) ≡ (raised e, w')
          → w' ≡ w
      go (some x) p y = sym (ap (λ q. q.1) y)
      go none (raised x, m) y = sym (ap (λ q. q.1) y)
      go none (ok b, m) y = absurd (ok-ne-raised (sym (ap (λ q. q.0) y)))

  pub query-eq : {A : Type 0} (f : AppMeta → A) (w : World) → (query db f w).1 ≡ w
  unfolding query
  query-eq f w = go (db.outage w)
    where
      go : (o : Option Exn) → (unless_failed o w (ok (f w.app_meta), w)).1 ≡ w
      go none = refl
      go (some e) = refl

-- The state is left alone.
abbrev pub Keeps : {S A : Type 0} → Exec S A → Type 0
Keeps {S} m = (s : S) → (m s).1 ≡ s

module _ {S A B : Type 0} where
  -- Inversion of a bind that raises.
  pub bind-raised :
      (m : Exec S A) (f : A → Exec S B) (s t : S) {e : Exn}
      → (m >>= f) s ≡ (raised e, t)
      → (m s ≡ (raised e, t)) ⊎ ((a : A) × (s' : S) × (m s ≡ (ok a, s')) × (f a s' ≡ (raised e, t)))
  unfolding ◌>>=◌
  bind-raised m f s t {e} h = go (m s) refl h
    where
      go :
          (p : Result A × S)
          → m s ≡ p
          → (let (r, s') = p in continue r f s') ≡ (raised e, t)
          → (m s ≡ (raised e, t))
            ⊎ ((a : A) × (s' : S) × (m s ≡ (ok a, s')) × (f a s' ≡ (raised e, t)))
      go (ok a, s') x y = inr (a, s', x, y)
      go (raised x', s') x y = inl (x ∙ raised_same x' s' y)
        where
          raised_same :
              (x' : Exn) (s' : S)
              → ◌≡◌ {A = Result B × S} (raised x', s') (raised e, t)
              → ◌≡◌ {A = Result A × S} (raised x', s') (raised e, t)
          raised_same x' s' z = cc

  -- Two parts that leave the state alone, whatever they return, leave it alone together.
  pub bind-Keeps :
      (m : Exec S A) (f : A → Exec S B) → Keeps m → ((a : A) → Keeps (f a)) → Keeps (m >>= f)
  unfolding ◌>>=◌
  bind-Keeps m f hm hf s = go (m s) ∙ hm s
    where
      go : (p : Result A × S) → (let (r, s') = p in continue r f s').1 ≡ p.1
      go (ok a, s') = hf a s'
      go (raised x, s') = refl

module _ {S A : Type 0} where
  pub Keeps-eq : (m : Exec S A) (s t : S) (r : Result A) → Keeps m → m s ≡ (r, t) → t ≡ s
  Keeps-eq m s t r k h = sym (ap (λ q. q.1) h) ∙ k s

pub present_or-Keeps :
    {S A : Type 0} (status : ℕ) (detail : Str) (o : Option A)
    → Keeps {S = S} (present_or status detail o)
unfolding present_or
present_or-Keeps status detail none w = refl
present_or-Keeps status detail (some a) w = refl

pub refuse_if-Keeps :
    {S : Type 0} (b : Bool) (status : ℕ) (detail : Str) → Keeps {S = S} (refuse_if b status detail)
unfolding refuse_if
refuse_if-Keeps true status detail w = refl
refuse_if-Keeps false status detail w = refl

-- A handler that ends in an exception leaves no trace; an action that never raises.
abbrev pub FailsClean : {S A : Type 0} → Exec S A → Type 0
FailsClean {S} m = (s t : S) (e : Exn) → m s ≡ (raised e, t) → t ≡ s

abbrev pub NeverRaises : {S A : Type 0} → Exec S A → Type 0
NeverRaises {S} m = (s t : S) (e : Exn) → ¬ (m s ≡ (raised e, t))

module _ {S A B : Type 0} (m : Exec S A) (f : A → Exec S B) where
  -- Reading first, or ending with what never raises, keeps a clean failure.
  pub read-FailsClean : Keeps m → ((a : A) → FailsClean (f a)) → FailsClean (m >>= f)
  read-FailsClean k c s t e h = elim (bind-raised m f s t h) [
    | inl x ↦ Keeps-eq m s t (raised e) k x
    | inr (a, s', x, y) ↦ c a s' t e y ∙ Keeps-eq m s s' (ok a) k x
  ]

  pub commit-FailsClean : FailsClean m → ((a : A) → NeverRaises (f a)) → FailsClean (m >>= f)
  commit-FailsClean c n s t e h = elim (bind-raised m f s t h) [
    | inl x ↦ c s t e x
    | inr (a, s', x, y) ↦ absurd (n a s' t e y)
  ]

module _ (cache : Cache) (meta schema : Bool) {A : Type 0} where
  -- What follows a transaction: the announcement, and the answer.
  pub announced-NeverRaises :
      (a : A) → NeverRaises (announce cache meta schema >>= (λ done. pure a))
  unfolding ◌>>=◌ announce pure
  announced-NeverRaises a s t e h = ok-ne-raised (sym (ap (λ q. q.0) h))

  pub announced-eq-ok :
      (laws : CacheLaws cache) (a b : A) (w w' : World)
      → (announce cache meta schema >>= (λ done. pure a)) w ≡ (ok b, w')
      → (a ≡ b) × IsAside w w'
  unfolding ◌>>=◌ announce pure
  announced-eq-ok laws a b w w' h =
      (ok-eq (ap (λ q. q.0) h), subst (IsAside w) (ap (λ q. q.1) h) (go meta schema))
    where
      bump_if : Bool → Str → World → World
      bump_if b family v = if b then cache.bump family v else v

      one : (b : Bool) (family : Str) (v : World) → IsAside v (bump_if b family v)
      one true family v = laws.bump family v
      one false family v = record { calls = refl; meta = refl }

      go : (a b : Bool) → IsAside w (bump_if b schema_family (bump_if a meta_family w))
      go a b = IsAside-trans (one a meta_family w) (one b schema_family (bump_if a meta_family w))

pub refuse_if-eq-ok :
    {S : Type 0} (b : Bool) (status : ℕ) (detail : Str) (s t : S)
    → refuse_if b status detail s ≡ (ok tt, t)
    → (b ≡ false) × (t ≡ s)
unfolding refuse_if
refuse_if-eq-ok true status detail s t h = absurd (ok-ne-raised (ap (λ q. q.0) h))
refuse_if-eq-ok false status detail s t h = (refl, sym (ap (λ q. q.1) h))

-- What holds after the first part, and after the rest from wherever it goes on, holds at the end.
pub bind-Holds :
    {S A B : Type 0} (P : S → Type 0) (m : Exec S A) (f : A → Exec S B) (s : S)
    → P (m s).1
    → ((a : A) (t : S) → m s ≡ (ok a, t) → P t → P (f a t).1)
    → P ((m >>= f) s).1
unfolding ◌>>=◌
bind-Holds {S} {A} {B} P m f s h k = go (m s) refl h
  where
    go : (p : Result A × S) → m s ≡ p → P p.1 → P (let (r, t) = p in continue r f t).1
    go (ok a, t) e x = k a t e x
    go (raised x', t) e x = x

pub transaction-Holds :
    {A : Type 0} (db : Database) (P : AppMeta → Type 0) (body : ℕ → Exec AppMeta A) (w : World)
    → P w.app_meta
    → P (body (db.now w) w.app_meta).1
    → P (transaction db body w).1.app_meta
unfolding transaction
transaction-Holds {A} db P body w before after = go (db.outage w) (body (db.now w) w.app_meta) after
  where
    go :
        (o : Option Exn) (p : Result A × AppMeta)
        → P p.1
        → P (unless_failed o w (settle w p)).1.app_meta
    go none (ok a, m) x = x
    go none (raised e, m) x = before
    go (some e) p x = before
