-- ===== src/Backend/Details/Validated.antt =====
-- What `validate_details` of routers/connections.py promises of the settings that it returns.
use mcp_server_for_sql_agent.Exec.{bind-eq-ok, pure-eq-ok}
use mcp_server_for_sql_agent.Prelude.{
  arith, ◌∷◌, [], Bool, subst, keep_if, some, none, Option, not, false, true, inr, inl, ◌≢◌, ap,
  refl, ◌≡◌, ◌<◌, ℕ, IsIn, Bool-cases,
}
use mcp_server_for_sql_agent.Prelude.Strs.{is_some_item, str_in-IsIn, str_in, codes, Str}
use mcp_server_for_sql_agent.Prelude.Filters.{nothing-IsIn, IsIn-keep_if, and-eq-true}
use mcp_server_for_sql_agent.Prelude.Ints.{negsuc, pos, ℤ}
use mcp_server_for_sql_agent.Values.{Members, Json}
use mcp_server_for_sql_agent.Unicode.{is_word_char, Unicode}
use mcp_server_for_sql_agent.Introspection.{truthy_claim, is_present}
use mcp_server_for_sql_agent.Backend.Details.{
  without_blanks, engine_fields, is_simple, check_options, secret_option, required_of,
  allowed_detail_keys, member_keys, all_simple, missing_settings, looks_secret, bad_port,
  validate_details, refuse_found, is_blank, options_of,
}
use mcp_server_for_sql_agent.Errors.{ok-ne-raised, ok}
use mcp_server_for_sql_agent.Backend.Details.Safe.{
  member_of-kept, member_of-was, without_blanks-IsIn, search-NoSecretIn, NoSecretIn, DistinctKeys,
}
use mcp_server_for_sql_agent.Backend.{refuse_if}
use mcp_server_for_sql_agent.Registry.{member_of}
use mcp_server_for_sql_agent.Backend.Laws.{refuse_if-eq-ok}

module _ (as_text : Json → Str) where
  -- Simple values, and no secret in a name or in a value.
  abbrev pub OptionsSafe : Members → Type 0
  OptionsSafe Members.end = Unit
  OptionsSafe (Members.member k v ms) =
      (is_simple v ≡ true) × NoSecretIn k × NoSecretIn (as_text v) × OptionsSafe ms

  pub record IsSafe (engine : Str) (details : Members) : Type 0 where
    pub known : (k : Str) → IsIn k (member_keys details) → IsIn k allowed_detail_keys
    pub options :
        (os : Members)
        → member_of details (codes "options") ≡ some (Json.object os)
        → OptionsSafe os
    pub port :
        (n : ℤ)
        → member_of details (codes "port") ≡ some (Json.int n)
        → (p : ℕ) × (n ≡ pos p) × (0 < p) × (p < 65536)
    pub required :
        (f : Str)
        → IsIn f (required_of engine engine_fields)
        → (v : Json) × (member_of details f ≡ some v) × (truthy_claim (some v) ≡ true)

not_present : (o : Option Str) → is_present o ≡ false → o ≡ none
not_present none h = refl
not_present (some s) h = cc

not-false : (b : Bool) → not b ≡ false → b ≡ true
not-false b h = ground arith

none-truthy : ¬ (truthy_claim none ≡ true)
unfolding truthy_claim
none-truthy h = cc

truthy-not_blank : (v : Json) → truthy_claim (some v) ≡ true → is_blank v ≡ false
unfolding truthy_claim
truthy-not_blank Json.null h = cc
truthy-not_blank (Json.bool b) h = refl
truthy-not_blank (Json.int n) h = refl
truthy-not_blank (Json.float f) h = refl
truthy-not_blank (Json.str []) h = cc
truthy-not_blank (Json.str (c ∷ s)) h = refl
truthy-not_blank (Json.array vs) h = refl
truthy-not_blank (Json.object ms) h = refl

module _ (u : Unicode) (as_text : Json → Str) where
  looks_secret-NoSecretIn : (s : Str) → looks_secret u as_text s ≡ false → NoSecretIn s
  unfolding looks_secret
  looks_secret-NoSecretIn s h = search-NoSecretIn (is_word_char u) s (not_present _ h)

  some-ne-none : {A : Type 0} {a : A} → some a ≢ none
  some-ne-none h = cc

  options-OptionsSafe :
      (ms : Members)
      → all_simple ms ≡ true
      → secret_option u as_text ms ≡ none
      → OptionsSafe as_text ms
  unfolding all_simple secret_option
  options-OptionsSafe Members.end a h = tt
  options-OptionsSafe (Members.member k v ms) a h =
      let (simple, rest) = and-eq-true (is_simple v) (all_simple ms) a in
      elim (Bool-cases (looks_secret u as_text k)) [
        | inl e ↦ absurd (some-ne-none (rw e at h))
        | inr e ↦ elim (Bool-cases (looks_secret u as_text (as_text v))) [
          | inl d ↦ absurd (some-ne-none (rw (e, d) at h))
          | inr d ↦ (
            simple,
            looks_secret-NoSecretIn k e,
            looks_secret-NoSecretIn (as_text v) d,
            options-OptionsSafe ms rest (rw (e, d) at h),
          )
        ]
      ]

  refuse_found-eq-ok :
      {S : Type 0} (o : Option Str) (detail : Str → Str) (s t : S)
      → refuse_found u as_text o detail s ≡ (ok tt, t)
      → o ≡ none
  refuse_found-eq-ok none detail s t h = refl
  refuse_found-eq-ok (some k) detail s t h = absurd (ok-ne-raised (ap (λ q. q.0) h))

  check_options-eq-ok :
      {S : Type 0} (ms : Members) (s t : S)
      → check_options u as_text (Json.object ms) s ≡ (ok tt, t)
      → OptionsSafe as_text ms
  check_options-eq-ok ms s t h =
      let (done, s₁, a, h₁) =
        bind-eq-ok
          (refuse_if (not (all_simple ms)) 422
            (codes "Options must be a set of simple name/value pairs."))
          _ s t h in
      options-OptionsSafe ms (not-false (all_simple ms) (refuse_if-eq-ok _ 422 _ s s₁ a).0)
        (refuse_found-eq-ok (secret_option u as_text ms) _ s₁ t h₁)

  given_options-OptionsSafe :
      {S : Type 0} (os : Members) (s t : S)
      → check_options u as_text (options_of (some (Json.object os))) s ≡ (ok tt, t)
      → OptionsSafe as_text os
  unfolding options_of truthy_claim
  given_options-OptionsSafe Members.end s t h = tt
  given_options-OptionsSafe (Members.member k v ms) s t h =
      check_options-eq-ok (Members.member k v ms) s t h

  good_port :
      (n : ℤ) → bad_port (some (Json.int n)) ≡ false → (p : ℕ) × (n ≡ pos p) × (0 < p) × (p < 65536)
  unfolding bad_port
  good_port (pos p) h = (p, refl, ground arith, ground arith)
  good_port (negsuc p) h = cc

  kept_required :
      (engine : Str) (details : Members) (f : Str)
      → is_some_item (missing_settings u as_text engine details) ≡ false
      → IsIn f (required_of engine engine_fields)
      → (v : Json) × (member_of (without_blanks details) f ≡ some v)
        × (truthy_claim (some v) ≡ true)
  unfolding missing_settings
  kept_required engine details f h i = go (member_of details f) refl
    where
      given : truthy_claim (member_of details f) ≡ true
      given = elim (Bool-cases (truthy_claim (member_of details f))) [
        | inl e ↦ e
        | inr e ↦ absurd (
            nothing-IsIn _ h f (
              IsIn-keep_if (λ f. not (truthy_claim (member_of details f))) f
                (required_of engine engine_fields) i (rw e refl)))
      ]

      go :
          (o : Option Json)
          → member_of details f ≡ o
          → (v : Json) × (member_of (without_blanks details) f ≡ some v)
            × (truthy_claim (some v) ≡ true)
      go none e = absurd (none-truthy (subst (λ q. truthy_claim q ≡ true) e given))
      go (some v) e =
          let true_value = subst (λ q. truthy_claim q ≡ true) e given in
          (v, member_of-kept details f v e (truthy-not_blank v true_value), true_value)

  all_allowed :
      (details : Members)
      → is_some_item (keep_if (λ k. not (str_in k allowed_detail_keys)) (member_keys details))
        ≡ false
      → (k : Str) → IsIn k (member_keys details)
      → IsIn k allowed_detail_keys
  all_allowed details h k i = elim (Bool-cases (str_in k allowed_detail_keys)) [
    | inl e ↦ str_in-IsIn k allowed_detail_keys e
    | inr e ↦ absurd (
        nothing-IsIn _ h k (
          IsIn-keep_if (λ k. not (str_in k allowed_detail_keys)) k (member_keys details) i
            (rw e refl)))
  ]

  -- The settings that `validate_details` returns hold only known settings, with no secret among the options, a port from 1 to 65535 where it is a number, and a value for every setting that the engine requires.
  pub validate_details-IsSafe :
      {S : Type 0} (engine : Str) (details result : Members) (s t : S)
      → DistinctKeys details
      → validate_details u as_text engine details s ≡ (ok result, t)
      → IsSafe as_text engine result
  unfolding validate_details
  validate_details-IsSafe engine details result s t d h =
      let (a, s₁, h₁, k₁) = bind-eq-ok _ _ s t h in
      let (b, s₂, h₂, k₂) = bind-eq-ok _ _ s₁ t k₁ in
      let (c, s₃, h₃, k₃) = bind-eq-ok _ _ s₂ t k₂ in
      let (e, s₄, h₄, k₄) = bind-eq-ok _ _ s₃ t k₃ in
      let (f, s₅, h₅, k₅) = bind-eq-ok _ _ s₄ t k₄ in
      let (g, s₆, h₆, k₆) = bind-eq-ok _ _ s₅ t k₅ in
      let (i, s₇, h₇, k₇) = bind-eq-ok _ _ s₆ t k₆ in
      let (same, _) = pure-eq-ok _ result s₇ t k₇ in
      subst (IsSafe as_text engine) same (record {
        known = λ k m.
            all_allowed details (refuse_if-eq-ok _ 422 _ s s₁ h₁).0 k
              (without_blanks-IsIn details k m);
        options = λ os m. given_options-OptionsSafe os s₂ s₃ (
            subst (λ o. check_options u as_text (options_of o) s₂ ≡ (ok tt, s₃))
              (member_of-was details (codes "options") (Json.object os) d m) h₃);
        port = λ n m. good_port n (
            subst (λ o. bad_port o ≡ false) (member_of-was details (codes "port") (Json.int n) d m)
              (refuse_if-eq-ok _ 422 _ s₄ s₅ h₅).0);
        required = λ f m. kept_required engine details f (refuse_if-eq-ok _ 422 _ s₅ s₆ h₆).0 m;
      })
