-- ===== src/Query/Limits.antt =====
-- `QueryLimits` of config.py, and the checks of services/query_service.py against them.
use mcp_server_for_sql_agent.Prelude.Ints.{ℤ, pos, negsuc}
use mcp_server_for_sql_agent.Errors.{
  ok-eq, ok-ne-raised, Result, ok, raised, domain, invalid_argument, value_range,
}
use mcp_server_for_sql_agent.Prelude.{
  arith, true, inr, inl, ◌⊎◌, ap, sym, refl, ◌≡◌, ◌≤◌, Bool-cases, some, none, Option, ◌&&◌, ℕ,
  if◌then◌else◌, leb,
}
use mcp_server_for_sql_agent.Prelude.Strs.{codes, Str}

pub record QueryLimits : Type 0 where
  pub timeout_ms : ℕ
  pub default_rows : ℕ
  pub max_rows : ℕ
  pub max_sample_rows : ℕ
  pub max_sql_length : ℕ
  pub max_cell_chars : ℕ

-- `if not 1 <= n <= largest: raise InvalidArgument(...)`, and else the value
unfoldable pub in_range : Str → ℤ → ℕ → Result ℕ
in_range name (pos n) largest =
    if leb 1 n && leb n largest
    then ok n
    else raised (domain (invalid_argument (value_range name largest)))
in_range name (negsuc n) largest = raised (domain (invalid_argument (value_range name largest)))

unfoldable pub resolve_row_limit : QueryLimits → Option ℤ → Result ℕ
unfolding in_range
resolve_row_limit limits none = ok limits.default_rows
resolve_row_limit limits (some n) = in_range (codes "row_limit") n limits.max_rows

unfoldable pub resolve_sample_size : QueryLimits → ℤ → Result ℕ
unfolding in_range
resolve_sample_size limits n = in_range (codes "n") n limits.max_sample_rows

leb-bounds : (k largest : ℕ) → leb 1 k && leb k largest ≡ true → (1 ≤ k) × (k ≤ largest)
leb-bounds k largest h = ground arith

in_range-eq-ok :
    (name : Str) (z : ℤ) (largest n : ℕ)
    → in_range name z largest ≡ ok n
    → (z ≡ pos n) × (1 ≤ n) × (n ≤ largest)
unfolding in_range
in_range-eq-ok name (negsuc k) largest n h = absurd (ok-ne-raised h)
in_range-eq-ok name (pos k) largest n h = elim (Bool-cases (leb 1 k && leb k largest)) [
  | inl e ↦
      let same : k ≡ n = ok-eq (rw (e, in_range) at h) in
      let (low, high) = leb-bounds k largest e in rw (← same) (refl, low, high)
  | inr e ↦ absurd (ok-ne-raised (rw (e, in_range) at h))
]

-- The two cases of a limit that is resolved.
pub resolve_row_limit-bounds :
    (limits : QueryLimits) (row_limit : Option ℤ) (n : ℕ)
    → resolve_row_limit limits row_limit ≡ ok n
    → ((row_limit ≡ none) × (n ≡ limits.default_rows))
      ⊎ ((row_limit ≡ some (pos n)) × (1 ≤ n) × (n ≤ limits.max_rows))
unfolding resolve_row_limit
resolve_row_limit-bounds limits none n h = inl (refl, sym (ok-eq h))
resolve_row_limit-bounds limits (some z) n h =
    let (e, low, high) = in_range-eq-ok (codes "row_limit") z limits.max_rows n h in
    inr (ap some e, low, high)
