-- ===== src/Drivers/Masked.antt =====
-- A text that is replaced by stars, as `explain` of connection_check.py does with the password.
use mcp_server_for_sql_agent.Prelude.{
  arith, ◌∷◌, [], ◌||◌, false, true, Bool, inr, inl, ap, sym, refl, ◌≡◌, ◌-◌, suc, zero, ℕ, IsIn,
  take, length, Bool-cases, ==_iff, ◌==◌,
}
use mcp_server_for_sql_agent.Prelude.Strs.{truthy, starts_with, codes, Str}
use mcp_server_for_sql_agent.Prelude.Filters.{true-or-false, true-and-true, and-eq-true}
use mcp_server_for_sql_agent.Drivers.{contains, replace_from}

abbrev pub stars : Str
stars = codes "***"

or-both-false : (a b : Bool) → a ≡ false → b ≡ false → (a || b) ≡ false
or-both-false a b h k = ground arith

-- A text with no star does not start with one.
starts_with-star : (q s : Str) → ¬ IsIn b'*' q → starts_with q (b'*' ∷ s) ≡ true → q ≡ []
unfolding starts_with
starts_with-star [] s n h = refl
starts_with-star (c ∷ q) s n h =
    absurd (n (inl (sym ((==_iff c b'*').0 (and-eq-true (c == b'*') _ h).0))))

module _ (p : Str) (some_char : truthy p ≡ true) (no_star : ¬ IsIn b'*' p) where
  star-not_start : (s : Str) → starts_with p (b'*' ∷ s) ≡ false
  star-not_start s =
      true-or-false (starts_with p (b'*' ∷ s))
        (λ h. let e = starts_with-star p s no_star h in absurd (empty-not_truthy e))
    where
      empty-not_truthy : p ≡ [] → ⊥
      empty-not_truthy e = cc (ap (λ q. truthy q) e, some_char)

  -- What the replaced text starts with, if it has no star, the text started with.
  replaced-starts_with :
      (q s : Str)
      → ¬ IsIn b'*' q
      → starts_with q (replace_from p stars 0 s) ≡ true
      → starts_with q s ≡ true
  unfolding replace_from starts_with
  replaced-starts_with [] s n h = refl
  replaced-starts_with (c ∷ q) [] n h = h
  replaced-starts_with (c ∷ q) (d ∷ s) n h = elim (Bool-cases (starts_with p (d ∷ s))) [
    | inl e ↦ absurd (n (inl (sym ((==_iff c b'*').0 (and-eq-true (c == b'*') _ (rw e at h)).0))))
    | inr e ↦
        let (a, b) = and-eq-true (c == d) _ (rw e at h) in
        true-and-true (c == d) (starts_with q s) a (replaced-starts_with q s (λ m. n (inr m)) b)
  ]

  -- The text is no longer in what is left.
  pub contains-replace_from : (k : ℕ) (s : Str) → contains p (replace_from p stars k s) ≡ false
  unfolding replace_from contains
  contains-replace_from k [] = nothing p some_char
    where
      nothing : (q : Str) → truthy q ≡ true → starts_with q [] ≡ false
      nothing [] h = cc
      nothing (c ∷ q) h = refl
  contains-replace_from (suc k) (c ∷ s) = contains-replace_from k s
  contains-replace_from zero (c ∷ s) = elim (Bool-cases (starts_with p (c ∷ s))) [
    | inl e ↦ rw e (
        or-both-false _ _ (star-not_start _) (
          or-both-false _ _ (star-not_start _)
            (or-both-false _ _ (star-not_start _) (contains-replace_from (length p - 1) s))))
    | inr e ↦ rw e (
        or-both-false _ _
          (true-or-false _ (λ h.
            let back = replaced-starts_with p (c ∷ s) no_star (rw (replace_from, e) h) in
            absurd (cc (back, e))))
          (contains-replace_from 0 s))
  ]

starts_with-take : (q s : Str) (n : ℕ) → starts_with q (take n s) ≡ true → starts_with q s ≡ true
unfolding starts_with
starts_with-take [] s n h = refl
starts_with-take (c ∷ q) s zero h = cc
starts_with-take (c ∷ q) [] (suc n) h = h
starts_with-take (c ∷ q) (d ∷ s) (suc n) h =
    let (a, b) = and-eq-true (c == d) _ h in
    true-and-true (c == d) (starts_with q s) a (starts_with-take q s n b)

nothing_starts : (p : Str) → truthy p ≡ true → starts_with p [] ≡ false
unfolding starts_with
nothing_starts [] t = cc
nothing_starts (c ∷ p) t = refl

contains-take-true :
    (p s : Str) (n : ℕ) → truthy p ≡ true → contains p (take n s) ≡ true → contains p s ≡ true
unfolding contains
contains-take-true p s zero t h = absurd (cc (nothing_starts p t, h))
contains-take-true p [] (suc n) t h = h
contains-take-true p (c ∷ s) (suc n) t h =
    ground (arith, starts_with-take p (c ∷ s) (suc n), contains-take-true p s n t)

-- A part of a text that lacks another lacks it too.
pub contains-take :
    (p s : Str) (n : ℕ) → truthy p ≡ true → contains p s ≡ false → contains p (take n s) ≡ false
contains-take p s n t h =
    true-or-false (contains p (take n s))
      (λ x. let y = contains-take-true p s n t x in absurd (cc (y, h)))
