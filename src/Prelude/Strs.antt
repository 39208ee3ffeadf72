-- ===== src/Prelude/Strs.antt =====
-- Python's `str`: a list of code points, with the methods that the program calls.
use Prim.Native.Nat.{ℕ}
use Prim.Native.Char.{code}
use Prim.Native.String.{String}
use mathlib.Core.Path.{◌≡◌, refl}
use mathlib.Core.Logic.{inl, inr, ◌↔◌}
use mathlib.Core.Bool.{◌||◌, Bool, true, false, ◌&&◌}
use mathlib.Core.List.{List, [], ◌∷◌, ◌++◌}
use native.Mathlib.Omega.{arith}
use mcp_server_for_sql_agent.Prelude.Tests.{Bool-cases, ◌==◌}
use mcp_server_for_sql_agent.Prelude.Lists.{IsIn, any_of}

abbrev pub Str : Type 0
Str = List ℕ

-- The code points of a literal.
abbrev pub codes : String → Str
codes String.[] = []
codes (String.◌∷◌ c s) = code c ∷ codes s

-- `a == b` on `str`.
unfoldable pub str_eq : Str → Str → Bool
str_eq [] [] = true
str_eq (x ∷ xs) (y ∷ ys) = x == y && str_eq xs ys
str_eq _ _ = false

pub str_eq_iff : (a b : Str) → (str_eq a b ≡ true) ↔ (a ≡ b)
unfolding str_eq
str_eq_iff (x ∷ a) (y ∷ b) = ground (arith, str_eq_iff a b)
str_eq_iff _ _ = ground arith

pub str_eq_refl : (a : Str) → str_eq a a ≡ true
str_eq_refl a = (str_eq_iff a a).1 refl

or-true : (a : Bool) {b : Bool} → b ≡ true → (a || b) ≡ true
or-true a h = ground arith

-- `x in xs` for a collection of `str`.
unfoldable pub str_in : Str → List Str → Bool
str_in x = any_of (str_eq x)

pub str_in-IsIn : (x : Str) (xs : List Str) → str_in x xs ≡ true → IsIn x xs
unfolding str_in
str_in-IsIn x [] h = cc
str_in-IsIn x (y ∷ xs) h = elim (Bool-cases (str_eq x y)) [
  | inl e ↦ inl ((str_eq_iff x y).0 e)
  | inr e ↦ inr (str_in-IsIn x xs (rw e at h))
]

pub IsIn-str_in : (x : Str) (xs : List Str) → IsIn x xs → str_in x xs ≡ true
unfolding str_in
IsIn-str_in x [] h = absurd h
IsIn-str_in x (y ∷ xs) (inl e) = rw (e, str_eq_refl)
IsIn-str_in x (y ∷ xs) (inr h) = or-true (str_eq x y) (IsIn-str_in x xs h)

-- `c in "..."` for a single character
unfoldable pub char_in : ℕ → Str → Bool
char_in c = any_of (λ d. c == d)

-- `s.startswith(p)`
unfoldable pub starts_with : Str → Str → Bool
starts_with [] s = true
starts_with (c ∷ p) [] = false
starts_with (c ∷ p) (d ∷ s) = c == d && starts_with p s

-- The truth value of a `str`: false exactly for the empty one.
abbrev pub truthy : Str → Bool
truthy [] = false
truthy (c ∷ s) = true

-- `sep.join(parts)`
unfoldable pub join : Str → List Str → Str
join sep [] = []
join sep (s ∷ []) = s
join sep (s ∷ t ∷ ss) = s ++ (sep ++ join sep (t ∷ ss))

-- The truth value of a list.
abbrev pub is_some_item {ℓ} : {A : Type ℓ} → List A → Bool
is_some_item [] = false
is_some_item (x ∷ xs) = true
