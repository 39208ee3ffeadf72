-- ===== src/Backend/Details/Safe.antt =====
-- The settings that `validate_details` of routers/connections.py lets pass.
use mcp_server_for_sql_agent.Regex.{some-eq-some, last_of, search, search_from, search-Complete}
use mcp_server_for_sql_agent.Prelude.{
  ◌++◌, ◌∷◌, some, none, false, true, Bool, inr, inl, subst, sym, refl, ◌≡◌, ℕ, IsIn, Bool-cases,
  if◌then◌else◌,
}
use mcp_server_for_sql_agent.Prelude.Strs.{str_eq_iff, str_eq, Str}
use mcp_server_for_sql_agent.Backend.Details.{
  is_blank, member_keys, secret_words, without_blanks, secret_looking_re,
}
use mcp_server_for_sql_agent.Registry.{member_of}
use mcp_server_for_sql_agent.Validator.Keywords.{any_pattern-Matches, IsOneOf}
use mcp_server_for_sql_agent.Values.{Json, Members}

-- None of the words of `SECRET_LOOKING` stands in the text, in any mixture of cases.
abbrev pub NoSecretIn : Str → Type 0
NoSecretIn s = (a w b : Str) → s ≡ a ++ (w ++ b) → ¬ IsOneOf secret_words w

abbrev pub DistinctKeys : Members → Type 0
DistinctKeys Members.end = Unit
DistinctKeys (Members.member k v ms) = (¬ IsIn k (member_keys ms)) × DistinctKeys ms

pub search-NoSecretIn :
    (isw : ℕ → Bool) (s : Str) → search isw secret_looking_re s ≡ none → NoSecretIn s
unfolding search secret_looking_re
search-NoSecretIn isw s h a w b e k =
    search-Complete isw secret_looking_re none a w b
      (any_pattern-Matches isw secret_words w (last_of none a) b k)
      (subst (λ q. search_from isw secret_looking_re none q ≡ none) e h)

member_of-IsIn :
    (ms : Members) (k : Str) (v : Json) → member_of ms k ≡ some v → IsIn k (member_keys ms)
unfolding member_of member_keys
member_of-IsIn Members.end k v h = cc
member_of-IsIn (Members.member j w ms) k v h = elim (Bool-cases (str_eq j k)) [
  | inl e ↦ inl (sym ((str_eq_iff j k).0 e))
  | inr e ↦ inr (member_of-IsIn ms k v (rw e at h))
]

pub without_blanks-IsIn :
    (ms : Members) (k : Str) → IsIn k (member_keys (without_blanks ms)) → IsIn k (member_keys ms)
unfolding without_blanks member_keys
without_blanks-IsIn Members.end k m = m
without_blanks-IsIn (Members.member j v ms) k m = go (is_blank v) (without_blanks-IsIn ms k) m
  where
    go :
        (b : Bool)
        → (IsIn k (member_keys (without_blanks ms)) → IsIn k (member_keys ms))
        → IsIn k
            (member_keys (if b then without_blanks ms else Members.member j v (without_blanks ms)))
        → IsIn k (j ∷ member_keys ms)
    go true ih n = inr (ih n)
    go false ih (inl e) = inl e
    go false ih (inr n) = inr (ih n)

-- A member that is not blank is kept.
pub member_of-kept :
    (ms : Members) (k : Str) (v : Json)
    → member_of ms k ≡ some v
    → is_blank v ≡ false
    → member_of (without_blanks ms) k ≡ some v
unfolding member_of without_blanks
member_of-kept Members.end k v h n = h
member_of-kept (Members.member j w ms) k v h n = elim (Bool-cases (str_eq j k)) [
  | inl e ↦
      let same : w ≡ v = some-eq-some (rw e at h) in
      let keep : is_blank w ≡ false = subst (λ q. is_blank q ≡ false) (sym same) n in
      rw (keep, e, same) refl
  | inr e ↦
      let ih = member_of-kept ms k v (rw e at h) n in
      elim (Bool-cases (is_blank w)) [ inl b ↦ rw b ih | inr b ↦ rw (b, e) ih ]
]

-- Nothing is added, and no value is changed.
pub member_of-was :
    (ms : Members) (k : Str) (v : Json)
    → DistinctKeys ms
    → member_of (without_blanks ms) k ≡ some v
    → member_of ms k ≡ some v
unfolding member_of without_blanks member_keys
member_of-was Members.end k v d h = h
member_of-was (Members.member j w ms) k v d h = elim (Bool-cases (is_blank w)) [
  | inl b ↦
      let rest : member_of ms k ≡ some v = member_of-was ms k v d.1 (rw b at h) in
      elim (Bool-cases (str_eq j k)) [
        | inl e ↦ absurd (
            d.0 (
              subst (λ q. IsIn q (member_keys ms)) (sym ((str_eq_iff j k).0 e))
                (member_of-IsIn ms k v rest)))
        | inr e ↦ rw e rest
      ]
  | inr b ↦ elim (Bool-cases (str_eq j k)) [
    | inl e ↦ rw e (rw (b, e) at h)
    | inr e ↦ rw e (member_of-was ms k v d.1 (rw (b, e) at h))
  ]
]
