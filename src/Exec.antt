-- ===== src/Exec.antt =====
-- Methods that change state and may raise. What was changed before a raise stays changed, so the
-- state comes back beside the exception too.
use mcp_server_for_sql_agent.Errors.{ok-eq, Result, ok, raised, McpSqlError, domain}
use mcp_server_for_sql_agent.Prelude.{arith, ap, false, true, Bool, refl, ◌≡◌}

abbrev pub Exec {ℓ} : Type ℓ → Type ℓ → Type ℓ
Exec S A = S → Result A × S

module _ {ℓ} {S A : Type ℓ} where
  unfoldable pub pure : A → Exec S A
  pure a s = (ok a, s)

  unfoldable pub raise : McpSqlError → Exec S A
  raise e s = (raised (domain e), s)

  -- A pure function that may raise.
  unfoldable pub lift : Result A → Exec S A
  lift r s = (r, s)

  unfoldable pub gets : (S → A) → Exec S A
  gets f s = (ok (f s), s)

module _ {ℓ} {S A B : Type ℓ} where
  abbrev pub continue : Result A → (A → Exec S B) → S → Result B × S
  continue (ok a) f s = f a s
  continue (raised e) f s = (raised e, s)

  infixl 5 ◌>>=◌
  unfoldable pub ◌>>=◌ : Exec S A → (A → Exec S B) → Exec S B
  unfolding pure raise lift gets
  ◌>>=◌ m f s = let (r, s') = m s in continue r f s'

  -- Inversion of a bind that succeeds: the first part succeeds, and the rest goes on from there.
  pub bind-eq-ok :
      (m : Exec S A) (f : A → Exec S B) (s t : S) {b : B}
      → (m >>= f) s ≡ (ok b, t)
      → (a : A) × (s' : S) × (m s ≡ (ok a, s')) × (f a s' ≡ (ok b, t))
  unfolding ◌>>=◌
  bind-eq-ok m f s t {b} h = go (m s) refl h
    where
      go :
          (p : Result A × S)
          → m s ≡ p
          → (let (r, s') = p in continue r f s') ≡ (ok b, t)
          → (a : A) × (s' : S) × (m s ≡ (ok a, s')) × (f a s' ≡ (ok b, t))
      go (ok a, s') e x = (a, s', e, x)
      go (raised x', s') e x = cc

module _ {S : Type 0} where
  infixl 5 ◌>>◌
  abbrev pub ◌>>◌ : {B : Type 0} → Exec S (Unit {0}) → Exec S B → Exec S B
  m >> k = m >>= λ _. k

  -- `if b: raise e`
  unfoldable pub raise_if : Bool → McpSqlError → Exec S (Unit {0})
  raise_if true e s = (raised (domain e), s)
  raise_if false e s = (ok tt, s)

  unfoldable pub modify : (S → S) → Exec S (Unit {0})
  modify f s = (ok tt, f s)

  pub raise_if-eq-ok :
      (b : Bool) (e : McpSqlError) (s t : S) → raise_if b e s ≡ (ok tt, t) → (b ≡ false) × (s ≡ t)
  unfolding raise_if
  raise_if-eq-ok true e s t h = ground arith
  raise_if-eq-ok false e s t h = (refl, ap (λ q. q.1) h)

module _ {S A : Type 0} where
  pub pure-eq-ok : (a b : A) (s t : S) → pure a s ≡ (ok b, t) → (a ≡ b) × (s ≡ t)
  unfolding pure
  pure-eq-ok a b s t h = (ok-eq (ap (λ q. q.0) h), ap (λ q. q.1) h)

  pub lift-eq-ok : (r : Result A) (b : A) (s t : S) → lift r s ≡ (ok b, t) → (r ≡ ok b) × (s ≡ t)
  unfolding lift
  lift-eq-ok r b s t h = (ap (λ q. q.0) h, ap (λ q. q.1) h)
