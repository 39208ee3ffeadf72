-- ===== src/Prelude/Sorting.antt =====
-- `sorted` on a list of `str`: by code points, stable.
use mathlib.Core.Logic.{inr, ◌↔◌}
use mathlib.Core.Path.{◌≡◌, refl}
use mathlib.Core.Bool.{Bool, true, false}
use mathlib.Core.List.{List, [], ◌∷◌}
use mcp_server_for_sql_agent.Prelude.Tests.{ltb, ◌==◌, if◌then◌else◌}
use mcp_server_for_sql_agent.Prelude.Lists.{All, All-IsIn}
use mcp_server_for_sql_agent.Prelude.Strs.{IsIn-str_in, Str, str_in, str_in-IsIn}
use mcp_server_for_sql_agent.Prelude.{inr, Bool-cases, inl, IsIn}

-- `a <= b` on `str`
unfoldable pub str_leb : Str → Str → Bool
str_leb [] b = true
str_leb (c ∷ a) [] = false
str_leb (c ∷ a) (d ∷ b) = if ltb c d then true else if c == d then str_leb a b else false

unfoldable pub insert_sorted : Str → List Str → List Str
insert_sorted x [] = x ∷ []
insert_sorted x (y ∷ ys) =
    let later = insert_sorted x ys in if str_leb x y then x ∷ y ∷ ys else y ∷ later

unfoldable pub sorted : List Str → List Str
unfolding insert_sorted str_leb
sorted [] = []
sorted (x ∷ xs) = insert_sorted x (sorted xs)

-- The items of a set that is kept as a list: each once.
unfoldable pub distinct : List Str → List Str
distinct [] = []
distinct (x ∷ xs) = let rest = distinct xs in if str_in x rest then rest else x ∷ rest

-- `sorted` of a set
unfoldable pub sorted_set : List Str → List Str
unfolding sorted distinct
sorted_set xs = sorted (distinct xs)

-- A predicate on all items is one on all items of the sorted list, and the other way round.
module _ (P : Str → Type 0) where
  insert_sorted-All : (x : Str) (ys : List Str) → All P (insert_sorted x ys) ↔ (P x × All P ys)
  unfolding insert_sorted
  insert_sorted-All x [] = (λ h. h, λ h. h)
  insert_sorted-All x (y ∷ ys) = go (str_leb x y) (insert_sorted-All x ys)
    where
      go :
          (b : Bool)
          → All P (insert_sorted x ys) ↔ (P x × All P ys)
          → All P (if b then x ∷ y ∷ ys else y ∷ insert_sorted x ys) ↔ (P x × (P y × All P ys))
      go true ih = (λ h. h, λ h. h)
      go false ih = ((λ h. let k = ih.0 h.1 in (k.0, (h.0, k.1))), λ h. (h.1.0, ih.1 (h.0, h.1.1)))

  sorted-All : (xs : List Str) → All P (sorted xs) ↔ All P xs
  unfolding sorted
  sorted-All [] = (λ h. h, λ h. h)
  sorted-All (x ∷ xs) =
      let i = insert_sorted-All x (sorted xs) in
      let s = sorted-All xs in ((λ h. let k = i.0 h in (k.0, s.0 k.1)), λ h. i.1 (h.0, s.1 h.1))

  distinct-All : (xs : List Str) → All P (distinct xs) ↔ All P xs
  unfolding distinct
  distinct-All [] = (λ h. h, λ h. h)
  distinct-All (x ∷ xs) = go (str_in x (distinct xs)) refl (distinct-All xs)
    where
      go :
          (b : Bool)
          → str_in x (distinct xs) ≡ b
          → All P (distinct xs) ↔ All P xs
          → All P (if b then distinct xs else x ∷ distinct xs) ↔ (P x × All P xs)
      go true e ih = (
        (λ h. (All-IsIn P x (distinct xs) h (str_in-IsIn x (distinct xs) e), ih.0 h)),
        λ h. ih.1 h.1,
      )
      go false e ih = ((λ h. (h.0, ih.0 h.1)), λ h. (h.0, ih.1 h.1))

  pub sorted_set-All : (xs : List Str) → All P (sorted_set xs) ↔ All P xs
  unfolding sorted_set
  sorted_set-All xs =
      let s = sorted-All (distinct xs) in
      let d = distinct-All xs in ((λ h. d.0 (s.0 h)), λ h. s.1 (d.1 h))

All-differs : (t : Str) (xs : List Str) → ¬ IsIn t xs → All (λ x. ¬ (t ≡ x)) xs
All-differs t [] h = tt
All-differs t (x ∷ xs) h = (λ e. h (inl e), All-differs t xs (λ m. h (inr m)))

differs-IsIn :
    (t : Str) (xs ys : List Str)
    → (All (λ x. ¬ (t ≡ x)) xs → All (λ x. ¬ (t ≡ x)) ys)
    → IsIn t ys
    → IsIn t xs
differs-IsIn t xs ys f m = elim (Bool-cases (str_in t xs)) [
  | inl e ↦ str_in-IsIn t xs e
  | inr e ↦
      let no : ¬ IsIn t xs = λ i. let y = IsIn-str_in t xs i in cc in
      absurd (All-IsIn (λ x. ¬ (t ≡ x)) t ys (f (All-differs t xs no)) m refl)
]

-- The sorted list of a set has the same items.
pub sorted_set-IsIn : (t : Str) (xs : List Str) → IsIn t (sorted_set xs) ↔ IsIn t xs
sorted_set-IsIn t xs =
    let (to, from) = sorted_set-All (λ x. ¬ (t ≡ x)) xs in
    (differs-IsIn t xs (sorted_set xs) from, differs-IsIn t (sorted_set xs) xs to)

pub sorted-IsIn : (t : Str) (xs : List Str) → IsIn t (sorted xs) ↔ IsIn t xs
sorted-IsIn t xs =
    let (to, from) = sorted-All (λ x. ¬ (t ≡ x)) xs in
    (differs-IsIn t xs (sorted xs) from, differs-IsIn t (sorted xs) xs to)
