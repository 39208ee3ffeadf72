-- ===== src/Backend/Grants/Checks.antt =====
-- The checks on the rows of a request of routers/permissions.py, and what its bounds say of them.
use mcp_server_for_sql_agent.Exec.{Exec, continue, ◌>>=◌, ◌>>◌}
use mcp_server_for_sql_agent.Errors.{ok, raised, ok-ne-raised}
use mcp_server_for_sql_agent.World.{AppMeta}
use mcp_server_for_sql_agent.Models.{Subject}
use mcp_server_for_sql_agent.Backend.Grants.{
  keep_checks, accepts_tables, sized, names_granted, Change, TableChanges,
}
use mcp_server_for_sql_agent.Backend.Grants.Effects.{names_granted-Grants, str_in-false}
use mcp_server_for_sql_agent.Backend.Connections.Shapes.{integrity_error}
use mcp_server_for_sql_agent.Prelude.Filters.{and-eq-true, true-and-true}
use mcp_server_for_sql_agent.Prelude.Strs.{Str, truthy, str_in}
use mcp_server_for_sql_agent.Prelude.{
  Bool, true, false, List, [], ◌∷◌, length, leb, all_of, ◌&&◌, not, ◌≡◌, sym, ap, ◌∙◌, refl, IsIn,
  inl, inr, ℕ, if◌then◌else◌,
}

module _ {A : Type 0} (s : Subject) (names : List Str) (body : Exec AppMeta A) where
  -- What goes well behind the checks is what the rest does.
  pub checks-eq-ok :
      (m m' : AppMeta) (a : A) → (keep_checks s names >> body) m ≡ (ok a, m') → body m ≡ (ok a, m')
  unfolding keep_checks ◌>>=◌
  checks-eq-ok m m' a h = go (truthy s.1 && not (str_in [] names)) h
    where
      go :
          (b : Bool)
          → continue (if b then ok tt else raised integrity_error) (λ (x : Unit {0}). body) m
            ≡ (ok a, m')
          → body m ≡ (ok a, m')
      go true x = x
      go false x = absurd (ok-ne-raised (ap (λ q. q.0) x))

  pub checks-Holds :
      (P : AppMeta → Type 0) (m : AppMeta)
      → P m
      → P (body m).1
      → P ((keep_checks s names >> body) m).1
  unfolding keep_checks ◌>>=◌
  checks-Holds P m before after = go (truthy s.1 && not (str_in [] names))
    where
      go :
          (b : Bool)
          → P (continue (if b then ok tt else raised integrity_error) (λ (x : Unit {0}). body) m).1
      go true = after
      go false = before

  pub checks-goes_on :
      (m : AppMeta)
      → (truthy s.1 && not (str_in [] names)) ≡ true
      → (keep_checks s names >> body) m ≡ body m
  unfolding keep_checks ◌>>=◌
  checks-goes_on m h = rw h refl

long-truthy : (s : Str) → leb 1 (length s) ≡ true → truthy s ≡ true
long-truthy [] h = cc
long-truthy (c ∷ s) h = refl

all_of-IsIn :
    {A : Type 0} (p : A → Bool) (xs : List A) (x : A) → all_of p xs ≡ true → IsIn x xs → p x ≡ true
all_of-IsIn p [] x h i = absurd i
all_of-IsIn p (y ∷ xs) x h (inl e) = ap p e ∙ (and-eq-true (p y) _ h).0
all_of-IsIn p (y ∷ xs) x h (inr i) = all_of-IsIn p xs x (and-eq-true (p y) _ h).1 i

sized-low : (most n : ℕ) → sized 1 most n ≡ true → leb 1 n ≡ true
sized-low most n h = (and-eq-true (leb 1 n) _ h).0

no_empty_name :
    (cs : List Change)
    → all_of (λ c. sized 1 300 (length c.name)) cs ≡ true
    → ¬ IsIn [] (names_granted cs)
no_empty_name cs h i =
    let (c, j, g, e) = (names_granted-Grants [] cs).0 i in
    let n = sized-low 300 (length c.name) (all_of-IsIn _ cs c h j) in
    let z : leb 1 (length c.name) ≡ false = ap (λ q. leb 1 (length q)) (sym e) in cc

-- The rows of an accepted request pass the checks.
pub accepted-checks :
    (body : TableChanges)
    → accepts_tables body ≡ true
    → (truthy body.subject.1 && not (str_in [] (names_granted body.changes))) ≡ true
unfolding accepts_tables
accepted-checks body h =
    let (a, r) = and-eq-true (sized 1 200 (length body.subject.1)) _ h in
    let (b, d) = and-eq-true (sized 1 2000 (length body.changes)) _ r in
    true-and-true _ _ (long-truthy body.subject.1 (sized-low 200 _ a))
      ((str_in-false [] (names_granted body.changes)).1 (no_empty_name body.changes d))
