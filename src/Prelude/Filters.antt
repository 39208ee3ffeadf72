-- ===== src/Prelude/Filters.antt =====
-- Items that pass a test, and whether there is one: `[x for x in xs if p(x)]` and `any(...)`.
use mathlib.Core.Logic.{inl, inr}
use mathlib.Core.Path.{◌≡◌, refl, sym, subst}
use mathlib.Core.Bool.{Bool, true, false, ◌||◌, ◌&&◌}
use mathlib.Core.List.{List, [], ◌∷◌, map}
use native.Mathlib.Omega.{arith}
use mcp_server_for_sql_agent.Prelude.Tests.{Bool-cases}
use mcp_server_for_sql_agent.Prelude.Lists.{IsIn, keep_if, cons_if, any_of}
use mcp_server_for_sql_agent.Prelude.{All, ◌⊎◌}
use mcp_server_for_sql_agent.Prelude.Strs.{is_some_item}

pub and-eq-true : (a b : Bool) → (a && b) ≡ true → (a ≡ true) × (b ≡ true)
and-eq-true a b h = ground arith

pub true-and-true : (a b : Bool) → a ≡ true → b ≡ true → (a && b) ≡ true
true-and-true a b h k = ground arith

pub or-eq-true : (a b : Bool) → a ≡ true → (a || b) ≡ true
or-eq-true a b h = ground arith

or-eq-true_right : (a b : Bool) → b ≡ true → (a || b) ≡ true
or-eq-true_right a b h = ground arith

or-false : (a b : Bool) → (a || b) ≡ true → a ≡ false → b ≡ true
or-false a b h k = ground arith

pub true-or-false : (b : Bool) → ¬ (b ≡ true) → b ≡ false
true-or-false b h = elim (Bool-cases b) [ inl e ↦ absurd (h e) | inr e ↦ e ]

module _ {A : Type 0} (p : A → Bool) where
  IsIn-cons_if :
      (b : Bool) (x y : A) (xs : List A)
      → p y ≡ b
      → IsIn x (cons_if b y xs)
      → ((x ≡ y) × (p x ≡ true)) ⊎ IsIn x xs
  IsIn-cons_if true x y xs e (inl s) = inl (s, subst (λ q. p q ≡ true) (sym s) e)
  IsIn-cons_if true x y xs e (inr m) = inr m
  IsIn-cons_if false x y xs e m = inr m

  pub keep_if-IsIn : (x : A) (xs : List A) → IsIn x (keep_if p xs) → IsIn x xs × (p x ≡ true)
  keep_if-IsIn x [] m = absurd m
  keep_if-IsIn x (y ∷ xs) m = elim (IsIn-cons_if (p y) x y (keep_if p xs) refl m) [
    | inl s ↦ (inl s.0, s.1)
    | inr n ↦ let (i, h) = keep_if-IsIn x xs n in (inr i, h)
  ]

  cons_if-first : (b : Bool) (x y : A) (xs : List A) → b ≡ true → x ≡ y → IsIn x (cons_if b y xs)
  cons_if-first true x y xs e s = inl s
  cons_if-first false x y xs e s = cc

  cons_if-later : (b : Bool) (x y : A) (xs : List A) → IsIn x xs → IsIn x (cons_if b y xs)
  cons_if-later true x y xs m = inr m
  cons_if-later false x y xs m = m

  pub IsIn-keep_if : (x : A) (xs : List A) → IsIn x xs → p x ≡ true → IsIn x (keep_if p xs)
  IsIn-keep_if x [] m h = absurd m
  IsIn-keep_if x (y ∷ xs) (inl s) h = cons_if-first (p y) x y _ (subst (λ q. p q ≡ true) s h) s
  IsIn-keep_if x (y ∷ xs) (inr m) h = cons_if-later (p y) x y _ (IsIn-keep_if x xs m h)

  pub any_of-IsIn : (xs : List A) → any_of p xs ≡ true → (x : A) × IsIn x xs × (p x ≡ true)
  any_of-IsIn [] h = cc
  any_of-IsIn (y ∷ xs) h = elim (Bool-cases (p y)) [
    | inl e ↦ (y, inl refl, e)
    | inr e ↦ let (x, i, k) = any_of-IsIn xs (or-false (p y) (any_of p xs) h e) in (x, inr i, k)
  ]

  pub IsIn-any_of : (x : A) (xs : List A) → IsIn x xs → p x ≡ true → any_of p xs ≡ true
  IsIn-any_of x [] m h = absurd m
  IsIn-any_of x (y ∷ xs) (inl s) h = or-eq-true (p y) _ (subst (λ q. p q ≡ true) s h)
  IsIn-any_of x (y ∷ xs) (inr m) h = or-eq-true_right (p y) _ (IsIn-any_of x xs m h)

module _ {A B : Type 0} where
  pub map-IsIn :
      (f : A → B) (y : B) (xs : List A) → IsIn y (map f xs) → (x : A) × IsIn x xs × (y ≡ f x)
  map-IsIn f y [] m = absurd m
  map-IsIn f y (x ∷ xs) (inl e) = (x, inl refl, e)
  map-IsIn f y (x ∷ xs) (inr m) = let (z, i, e) = map-IsIn f y xs m in (z, inr i, e)

module _ {A : Type 0} where
  pub keep_if-All : (p : A → Bool) (xs : List A) → All (λ x. p x ≡ true) (keep_if p xs)
  keep_if-All p [] = tt
  keep_if-All p (x ∷ xs) = cons_if-All (p x) refl (keep_if-All p xs)
    where
      cons_if-All :
          (b : Bool)
          → p x ≡ b
          → All (λ y. p y ≡ true) (keep_if p xs)
          → All (λ y. p y ≡ true) (cons_if b x (keep_if p xs))
      cons_if-All true e rest = (e, rest)
      cons_if-All false e rest = rest

pub nothing-IsIn : {A : Type 0} (xs : List A) → is_some_item xs ≡ false → (x : A) → ¬ IsIn x xs
nothing-IsIn [] h x m = m
nothing-IsIn (y ∷ ys) h x m = cc

pub some_item : {A : Type 0} (x : A) (xs : List A) → IsIn x xs → is_some_item xs ≡ true
some_item x [] m = absurd m
some_item x (y ∷ ys) m = refl
