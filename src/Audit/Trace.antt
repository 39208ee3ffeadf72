-- ===== src/Audit/Trace.antt =====
-- What tool calls ask of the target databases: rules for each way to build a call.
use mcp_server_for_sql_agent.Errors.{Result, ok, raised}
use mcp_server_for_sql_agent.Exec.{Exec, pure, lift, modify, ◌>>=◌, continue}
use mcp_server_for_sql_agent.World.{World, DbCall}
use mcp_server_for_sql_agent.Store.{IsQuiet, Asks}
use mcp_server_for_sql_agent.Audit.{Call, outside}
use mcp_server_for_sql_agent.Prelude.{◌++◌, ◌∷◌, [], List, inr, inl, ◌⊎◌, subst, ◌∙◌, refl, ◌≡◌}

abbrev pub calls : Call → List DbCall
calls c = c.world.db_calls

-- At most one question has been added, and one of which `R` holds.
abbrev pub Reached : (DbCall → Type 0) → List DbCall → List DbCall → Type 0
Reached R before after = (after ≡ before) ⊎ ((d : DbCall) × (after ≡ before ++ d ∷ []) × R d)

-- The action asks nothing.
pub record Silent {A : Type 0} (m : Exec Call A) : Type 0 where
  pub at : (c : Call) → calls (m c).1 ≡ calls c

module _ {A : Type 0} where
  pub Silent-outside : (m : Exec World A) → IsQuiet m → Silent (outside m)
  unfolding outside
  Silent-outside m q = record { at = λ c. q.calls c.world }

  pub Silent-lift : (r : Result A) → Silent (lift r)
  unfolding lift
  Silent-lift r = record { at = λ c. refl }

  pub Silent-pure : (a : A) → Silent (pure a)
  unfolding pure
  Silent-pure a = record { at = λ c. refl }

pub Silent-modify : (f : Call → Call) → ((c : Call) → calls (f c) ≡ calls c) → Silent (modify f)
unfolding modify
Silent-modify f h = record { at = h }

module _ {A : Type 0} where
  pub outside-eq-ok :
      (m : Exec World A) (a : A) (c c' : Call)
      → outside m c ≡ (ok a, c')
      → (w : World) × (m c.world ≡ (ok a, w))
  unfolding outside
  outside-eq-ok m a c c' h = ((m c.world).1, λ i. ((h i).0, (m c.world).1))

module _ {A B : Type 0} where
  pub Silent-bind :
      (m : Exec Call A) (f : A → Exec Call B)
      → Silent m
      → ((a : A) → Silent (f a))
      → Silent (m >>= f)
  unfolding ◌>>=◌
  Silent-bind m f q qs = record { at = λ c. go (m c).0 (m c).1 c (q.at c) }
    where
      go : (r : Result A) (c' c : Call) → calls c' ≡ calls c → calls (continue r f c').1 ≡ calls c
      go (ok a) c' c e = (qs a).at c' ∙ e
      go (raised x) c' c e = e

  -- After a silent step, what the rest asks is all that is asked.
  pub Silent-then :
      (R : DbCall → Type 0) (m : Exec Call A) (f : A → Exec Call B) (c : Call)
      → Silent m
      → ((a : A) (c' : Call) → m c ≡ (ok a, c') → Reached R (calls c') (calls (f a c').1))
      → Reached R (calls c) (calls ((m >>= f) c).1)
  unfolding ◌>>=◌
  Silent-then R m f c q h = go (m c).0 (m c).1 refl (q.at c)
    where
      go :
          (r : Result A) (c' : Call)
          → m c ≡ (r, c')
          → calls c' ≡ calls c
          → Reached R (calls c) (calls (continue r f c').1)
      go (ok a) c' e s = subst (λ q. Reached R q (calls (f a c').1)) s (h a c' e)
      go (raised x) c' e s = inl s

  -- One question, and a rest that is silent.
  pub ask-then :
      (R : DbCall → Type 0) (m : Exec World A) (f : A → Exec Call B) (c : Call) (d : DbCall)
      → Asks d m
      → R d
      → ((a : A) → Silent (f a))
      → Reached R (calls c) (calls ((outside m >>= f) c).1)
  unfolding ◌>>=◌ outside
  ask-then R m f c d q h qs = go (m c.world).0 (m c.world).1 (q.calls c.world)
    where
      go :
          (r : Result A) (w : World)
          → w.db_calls ≡ calls c ++ d ∷ []
          → Reached R (calls c) (calls (continue r f (record c { world = w })).1)
      go (ok a) w e = inr (d, (qs a).at (record c { world = w }) ∙ e, h)
      go (raised x) w e = inr (d, e, h)
