-- ===== src/Prelude/Ordering.antt =====
-- `ORDER BY`: a stable sort of rows by any order that the database compares with.
use mcp_server_for_sql_agent.Prelude.{
  List, [], ◌∷◌, Bool, true, false, if◌then◌else◌, IsIn, inl, inr, ◌↔◌,
}

pub cons-IsIn :
    {A : Type 0} (z x : A) (ys zs : List A)
    → (IsIn z ys → IsIn z zs)
    → IsIn z (x ∷ ys)
    → IsIn z (x ∷ zs)
cons-IsIn z x ys zs f (inl e) = inl e
cons-IsIn z x ys zs f (inr m) = inr (f m)

module _ {A : Type 0} (below : A → A → Bool) where
  unfoldable pub place : A → List A → List A
  place x [] = x ∷ []
  place x (y ∷ ys) = let later = place x ys in if below x y then x ∷ y ∷ ys else y ∷ later

  unfoldable pub order_by : List A → List A
  unfolding place
  order_by [] = []
  order_by (x ∷ xs) = place x (order_by xs)

  place-IsIn : (z x : A) (ys : List A) → IsIn z (place x ys) ↔ IsIn z (x ∷ ys)
  unfolding place
  place-IsIn z x [] = (λ h. h, λ h. h)
  place-IsIn z x (y ∷ ys) = go (below x y) (place-IsIn z x ys)
    where
      swap : IsIn z (x ∷ y ∷ ys) → IsIn z (y ∷ x ∷ ys)
      swap (inl e) = inr (inl e)
      swap (inr (inl e)) = inl e
      swap (inr (inr m)) = inr (inr m)

      back : IsIn z (y ∷ x ∷ ys) → IsIn z (x ∷ y ∷ ys)
      back (inl e) = inr (inl e)
      back (inr (inl e)) = inl e
      back (inr (inr m)) = inr (inr m)

      go :
          (b : Bool)
          → IsIn z (place x ys) ↔ IsIn z (x ∷ ys)
          → IsIn z (if b then x ∷ y ∷ ys else y ∷ place x ys) ↔ IsIn z (x ∷ y ∷ ys)
      go true ih = (λ h. h, λ h. h)
      go false ih = (
        λ h. back (cons-IsIn z y (place x ys) (x ∷ ys) ih.0 h),
        λ h. cons-IsIn z y (x ∷ ys) (place x ys) ih.1 (swap h),
      )

  -- Sorting keeps the rows.
  pub order_by-IsIn : (z : A) (xs : List A) → IsIn z (order_by xs) ↔ IsIn z xs
  unfolding order_by
  order_by-IsIn z [] = (λ h. h, λ h. h)
  order_by-IsIn z (x ∷ xs) =
      let (to, from) = place-IsIn z x (order_by xs) in
      let (down, up) = order_by-IsIn z xs in
      (
        λ h. cons-IsIn z x (order_by xs) xs down (to h),
        λ h. from (cons-IsIn z x xs (order_by xs) up h),
      )
