-- ===== src/Prelude/Decimal.antt =====
-- `str(n)` for an `int` that is not negative.
use Prim.Native.Nat.{◌<◌, ℕ, zero, suc, ◌+◌, ◌/◌, ◌%◌}
use mathlib.Core.List.{[], ◌∷◌}
use mcp_server_for_sql_agent.Prelude.Lists.{all_of}
use mathlib.Core.Path.{◌≡◌, refl}
use mathlib.Core.Logic.{inl, inr}
use mathlib.Core.Bool.{Bool, true}
use native.Mathlib.Omega.{arith}
use mcp_server_for_sql_agent.Prelude.Tests.{Bool-cases, ltb→lt, if◌then◌else◌, ltb}
use mcp_server_for_sql_agent.Prelude.Strs.{Str}

-- The digits of `n` before `acc`; ten times the number of rounds is more than enough.
digits_before : ℕ → ℕ → Str → Str
digits_before zero n acc = acc
digits_before (suc fuel) n acc =
    let more = digits_before fuel (n / 10) ((48 + n % 10) ∷ acc) in
    if ltb n 10 then (48 + n) ∷ acc else more

unfoldable pub decimal : ℕ → Str
unfolding digits_before
decimal n = digits_before (suc n) n []

-- What holds of the ten digits holds of every character of a number.
module _ (p : ℕ → Bool) (digits : (d : ℕ) → d < 10 → p (48 + d) ≡ true) where
  digits_before-All :
      (fuel n : ℕ) (acc : Str) → all_of p acc ≡ true → all_of p (digits_before fuel n acc) ≡ true
  unfolding digits_before
  digits_before-All zero n acc h = h
  digits_before-All (suc fuel) n acc h = elim (Bool-cases (ltb n 10)) [
    | inl small ↦ rw (small, digits n (ltb→lt n 10 small)) h
    | inr big ↦ rw big (
        digits_before-All fuel (n / 10) ((48 + n % 10) ∷ acc)
          (rw (digits (n % 10) (omega arith)) h))
  ]

  pub decimal-All : (n : ℕ) → all_of p (decimal n) ≡ true
  unfolding decimal
  decimal-All n = digits_before-All (suc n) n [] refl
