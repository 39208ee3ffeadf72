-- ===== src/Regex/Defs.antt =====
-- Patterns, the language of a pattern, and the backtracking matcher.
use mcp_server_for_sql_agent.Prelude.{
  ℕ, zero, suc, ◌≡◌, Bool, true, false, List, [], ◌∷◌, ◌++◌, Option, none, some, ltb, length, take,
  ◌-◌, if◌then◌else◌, not,
}
use mcp_server_for_sql_agent.Prelude.Strs.{Str}

-- `word_boundary` is `\b`; `line_start` is `^` with no flag, so the start of the text.
pub data Pattern : Type 0 where
  empty : Pattern
  one : (ℕ → Bool) → Pattern
  seq : Pattern → Pattern → Pattern
  alt : Pattern → Pattern → Pattern
  star : Pattern → Pattern
  word_boundary : Pattern
  line_start : Pattern

-- The character before what follows `m`, where `p` stands before `m`.
abbrev pub last_of : Option ℕ → Str → Option ℕ
last_of p [] = p
last_of p (c ∷ m) = last_of (some c) m

abbrev pub head_of : Str → Option ℕ
head_of [] = none
head_of (c ∷ s) = some c

abbrev pub is_none : Option ℕ → Bool
is_none none = true
is_none (some c) = false

-- `isw` is the test for `\w`, a letter, digit or underscore.
module _ (isw : ℕ → Bool) where
  abbrev pub is_word : Option ℕ → Bool
  is_word none = false
  is_word (some c) = isw c

  abbrev pub at_boundary : Option ℕ → Option ℕ → Bool
  at_boundary p n = if is_word p then not (is_word n) else is_word n

  -- `Matches r p m t`: between the character `p` and the text `t`, the pattern matches `m`.
  pub data Matches : Pattern → Option ℕ → Str → Str → Type 0 where
    nil : {p : Option ℕ} {t : Str} → Matches empty p [] t
    char :
        {f : ℕ → Bool} {p : Option ℕ} {c : ℕ} {t : Str} → f c ≡ true → Matches (one f) p (c ∷ []) t
    both :
        {r q : Pattern} {p : Option ℕ} {t : Str} (a b : Str)
        → Matches r p a (b ++ t)
        → Matches q (last_of p a) b t
        → Matches (seq r q) p (a ++ b) t
    left : {r q : Pattern} {p : Option ℕ} {m t : Str} → Matches r p m t → Matches (alt r q) p m t
    right : {r q : Pattern} {p : Option ℕ} {m t : Str} → Matches q p m t → Matches (alt r q) p m t
    stop : {r : Pattern} {p : Option ℕ} {t : Str} → Matches (star r) p [] t
    more :
        {r : Pattern} {p : Option ℕ} {t : Str} (c : ℕ) (a b : Str)
        → Matches r p (c ∷ a) (b ++ t)
        → Matches (star r) (last_of p (c ∷ a)) b t
        → Matches (star r) p (c ∷ (a ++ b)) t
    boundary :
        {p : Option ℕ} {t : Str} → at_boundary p (head_of t) ≡ true → Matches word_boundary p [] t
    start : {p : Option ℕ} {t : Str} → is_none p ≡ true → Matches line_start p [] t

-- What follows a match is handed the character before it and the text after it.
abbrev pub Next : Type 0 → Type 0
Next A = Option ℕ → Str → Option A

module _ {A : Type 0} where
  -- One more round must consume something; the fuel is the length of the text.
  unfoldable pub run_star :
      ℕ → (Option ℕ → Str → Next A → Option A) → Option ℕ → Str → Next A → Option A
  run_star zero round p s k = k p s
  run_star (suc fuel) round p s k =
      let again = round p s (λ p' s'. elim (ltb (length s') (length s)) [
        | true ↦ run_star fuel round p' s' k
        | false ↦ none
      ]) in
      elim again [ some a ↦ some a | none ↦ k p s ]

  module _ (isw : ℕ → Bool) where
    unfoldable pub run : Pattern → Option ℕ → Str → Next A → Option A
    unfolding run_star
    run empty p s k = k p s
    run (one f) p [] k = none
    run (one f) p (c ∷ s) k = if f c then k (some c) s else none
    run (seq r q) p s k = run r p s (λ p' s'. run q p' s' k)
    run (alt r q) p s k = elim (run r p s k) [ some a ↦ some a | none ↦ run q p s k ]
    run (star r) p s k = run_star (length s) (λ p' s' k'. run r p' s' k') p s k
    run word_boundary p s k = if at_boundary isw p (head_of s) then k p s else none
    run line_start p s k = if is_none p then k p s else none

-- The match at the head of a text, and the first one in it: `pattern.match` and `pattern.search`.
-- The answer is the text that is matched, `m.group()`.
module _ (isw : ℕ → Bool) where
  unfoldable pub match_at : Pattern → Option ℕ → Str → Option Str
  unfolding run
  match_at r p s = elim (run isw r p s (λ _ s'. some s')) [
    | some rest ↦ some (take (length s - length rest) s)
    | none ↦ none
  ]

  unfoldable pub search_from : Pattern → Option ℕ → Str → Option Str
  unfolding match_at
  search_from r p [] = match_at r p []
  search_from r p (c ∷ s) = elim (match_at r p (c ∷ s)) [
    | some m ↦ some m
    | none ↦ search_from r (some c) s
  ]

  unfoldable pub search : Pattern → Str → Option Str
  unfolding search_from
  search r s = search_from r none s

-- The characters of a literal one after the other, and a choice of patterns in order.
abbrev pub text_of : (ℕ → ℕ → Bool) → Str → Pattern
text_of eq [] = empty
text_of eq (c ∷ s) = seq (one (eq c)) (text_of eq s)

abbrev pub any_pattern : List Pattern → Pattern
any_pattern [] = one (λ _. false)
any_pattern (r ∷ rs) = alt r (any_pattern rs)

-- `r+`, `r?`
abbrev pub plus : Pattern → Pattern
plus r = seq r (star r)

abbrev pub optional : Pattern → Pattern
optional r = alt r empty
