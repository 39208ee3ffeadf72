-- ===== src/Regex/Decides.antt =====
-- The matcher and the language of a pattern.
use mathlib.Core.List.{append_assoc}
use mcp_server_for_sql_agent.Prelude.{
  sym, subst, ◌≤◌, length-append, lt→ltb, ℕ, zero, suc, ◌<◌, ◌≡◌, ◌≢◌, refl, ap, ◌∙◌, Bool, true,
  false, [], ◌∷◌, ◌++◌, Option, none, some, ltb, length, arith, Bool-cases, inl, inr, Option-cases,
  ltb→lt,
}
use mcp_server_for_sql_agent.Prelude.Strs.{Str}
use mcp_server_for_sql_agent.Regex.Defs.{
  Pattern, empty, one, seq, alt, star, word_boundary, line_start, last_of, head_of, Matches, nil,
  char, both, left, right, stop, more, boundary, start, Next, run_star, run, is_none, at_boundary,
}

pub last_of-append : (p : Option ℕ) (a b : Str) → last_of p (a ++ b) ≡ last_of (last_of p a) b
last_of-append p [] b = refl
last_of-append p (c ∷ a) b = last_of-append (some c) a b

pub some-ne-none {ℓ} : {A : Type ℓ} {o : Option A} {a : A} → o ≡ some a → o ≢ none
some-ne-none e h = cc (e, h)

if_true-eq-some {ℓ} :
    {A : Type ℓ} (b : Bool) (o : Option A) {x : A}
    → elim b [ true ↦ o | false ↦ none ] ≡ some x
    → (b ≡ true) × (o ≡ some x)
if_true-eq-some true o h = (refl, h)
if_true-eq-some false o h = cc

if_true-ne-none {ℓ} :
    {A : Type ℓ} (b : Bool) (o : Option A)
    → b ≡ true
    → o ≢ none
    → elim b [ true ↦ o | false ↦ none ] ≢ none
if_true-ne-none true o e h = h
if_true-ne-none false o e h = cc

pub first-ne-none {ℓ} :
    {A : Type ℓ} (o q : Option A)
    → (o ≡ none → q ≢ none)
    → elim o [ some a ↦ some a | none ↦ q ] ≢ none
first-ne-none none q h = h refl
first-ne-none (some a) q h = λ e. cc

module _ (isw : ℕ → Bool) (A : Type 0) where
  -- A match of `r` at the head of `s` after which `k` answers `x`.
  pub record Found (r : Pattern) (p : Option ℕ) (s : Str) (k : Next A) (x : A) : Type 0 where
    pub consumed : Str
    pub rest : Str
    pub splits : s ≡ consumed ++ rest
    pub matched : Matches isw r p consumed rest
    pub answer : k (last_of p consumed) rest ≡ some x

  abbrev Sound : Pattern → Type 0
  Sound r =
      (p : Option ℕ) (s : Str) (k : Next A) (x : A) → run isw r p s k ≡ some x → Found r p s k x

  -- a match of nothing
  here :
      (r : Pattern) (p : Option ℕ) (s : Str) (k : Next A) (x : A)
      → Matches isw r p [] s
      → k p s ≡ some x
      → Found r p s k x
  here r p s k x m h = record { consumed = []; rest = s; splits = refl; matched = m; answer = h }

  star-join :
      (r : Pattern) (p : Option ℕ) (s m t : Str) (k : Next A) (x : A)
      → s ≡ m ++ t
      → length t < length s
      → Matches isw r p m t
      → Found (star r) (last_of p m) t k x
      → Found (star r) p s k x
  star-join r p s [] t k x e lt h f = absurd (omega (arith, ap length e))
  star-join r p s (c ∷ m) t k x e lt h f = record {
    consumed = c ∷ (m ++ f.consumed);
    rest = f.rest;
    splits = rw append_assoc (rw (← f.splits) e);
    matched = more c m f.consumed (rw (← f.splits) h) f.matched;
    answer = rw last_of-append f.answer;
  }

  star-Sound :
      (r : Pattern) (n : ℕ)
      → Sound r
      → (p : Option ℕ) (s : Str) (k : Next A) (x : A) → run_star n (run isw r) p s k ≡ some x
      → Found (star r) p s k x
  unfolding run_star
  star-Sound r zero sound p s k x h = here (star r) p s k x stop h
  star-Sound r (suc n) sound p s k x h =
      go (run isw r p s round) refl (λ p' s'. star-Sound r n sound p' s' k x) h
    where
      round : Next A
      round p' s' = elim (ltb (length s') (length s)) [
        | true ↦ run_star n (run isw r) p' s' k
        | false ↦ none
      ]

      go :
          (o : Option A)
          → run isw r p s round ≡ o
          → ((p' : Option ℕ) (s' : Str)
              → run_star n (run isw r) p' s' k ≡ some x
              → Found (star r) p' s' k x)
          → elim o [ some a ↦ some a | none ↦ k p s ] ≡ some x
          → Found (star r) p s k x
      go none e ih h' = here (star r) p s k x stop h'
      go (some a) e ih h' =
          let f = sound p s round x (e ∙ h') in
          let (lt, answer) = if_true-eq-some (ltb (length f.rest) (length s)) _ f.answer in
          star-join r p s f.consumed f.rest k x f.splits (ltb→lt _ _ lt) f.matched
            (ih (last_of p f.consumed) f.rest answer)

  pub run-Sound : (r : Pattern) → Sound r
  unfolding run
  run-Sound empty p s k x h = here empty p s k x nil h
  run-Sound (one f) p [] k x h = cc
  run-Sound (one f) p (c ∷ s) k x h = elim (Bool-cases (f c)) [
    | inl e ↦ record {
      consumed = c ∷ [];
      rest = s;
      splits = refl;
      matched = char e;
      answer = rw e at h;
    }
    | inr e ↦ absurd (some-ne-none (rw e at h) refl)
  ]
  run-Sound (seq r q) p s k x h =
      let f = run-Sound r p s (λ p' s'. run isw q p' s' k) x h in
      let g = run-Sound q (last_of p f.consumed) f.rest k x f.answer in
      record {
        consumed = f.consumed ++ g.consumed;
        rest = g.rest;
        splits = rw append_assoc (rw (← g.splits) f.splits);
        matched = both f.consumed g.consumed (rw (← g.splits) f.matched) g.matched;
        answer = rw last_of-append g.answer;
      }
  run-Sound (alt r q) p s k x h = elim (Option-cases (run isw r p s k)) [
    | inl e ↦
        let f = run-Sound q p s k x (rw e at h) in
        record {
          consumed = f.consumed;
          rest = f.rest;
          splits = f.splits;
          matched = right f.matched;
          answer = f.answer;
        }
    | inr (a, e) ↦
        let f = run-Sound r p s k x (e ∙ rw e at h) in
        record {
          consumed = f.consumed;
          rest = f.rest;
          splits = f.splits;
          matched = left f.matched;
          answer = f.answer;
        }
  ]
  run-Sound (star r) p s k x h = star-Sound r (length s) (run-Sound r) p s k x h
  run-Sound word_boundary p s k x h = elim (Bool-cases (at_boundary isw p (head_of s))) [
    | inl e ↦ here _ p s k x (boundary e) (rw e at h)
    | inr e ↦ absurd (some-ne-none (rw e at h) refl)
  ]
  run-Sound line_start p s k x h = elim (Bool-cases (is_none p)) [
    | inl e ↦ here _ p s k x (start e) (rw e at h)
    | inr e ↦ absurd (some-ne-none (rw e at h) refl)
  ]

  abbrev Complete : Pattern → Type 0
  Complete r =
      (p : Option ℕ) (m t : Str) (k : Next A)
      → Matches isw r p m t
      → k (last_of p m) t ≢ none
      → run isw r p (m ++ t) k ≢ none

  -- One more round of a star, on a text that begins with a match of the round.
  round-Complete :
      (r : Pattern)
      → Complete r
      → (p : Option ℕ) (s : Str) (c : ℕ) (a u : Str) (k : Next A) (n : ℕ) → s ≡ c ∷ (a ++ u)
      → Matches isw r p (c ∷ a) u
      → run_star n (run isw r) (last_of p (c ∷ a)) u k ≢ none
      → run isw r p s (λ p' s'. elim (ltb (length s') (length s)) [
        | true ↦ run_star n (run isw r) p' s' k
        | false ↦ none
      ])
        ≢ none
  round-Complete r complete p s c a u k n e x h =
      let shorter : ltb (length u) (length s) ≡ true =
        lt→ltb _ _ (omega (arith, ap length e, length-append a u)) in
      let round : Next A = λ p' s'. elim (ltb (length s') (length s)) [
        | true ↦ run_star n (run isw r) p' s' k
        | false ↦ none
      ] in
      subst (λ q. run isw r p q round ≢ none) (sym e)
        (complete p (c ∷ a) u round x (if_true-ne-none (ltb (length u) (length s)) _ shorter h))

  star-Complete :
      (r : Pattern)
      → Complete r
      → (p : Option ℕ) (m t : Str) (k : Next A) (n : ℕ) → length m ≤ n
      → Matches isw (star r) p m t
      → k (last_of p m) t ≢ none
      → run_star n (run isw r) p (m ++ t) k ≢ none
  unfolding run_star
  star-Complete r complete p m t k zero le stop h = h
  star-Complete r complete p m t k (suc n) le stop h = first-ne-none _ _ (λ e. h)
  star-Complete r complete p m t k zero le (more c a b x y) h = absurd (omega arith)
  star-Complete r complete p m t k (suc n) le (more c a b x y) h =
      let later : run_star n (run isw r) (last_of p (c ∷ a)) (b ++ t) k ≢ none =
        star-Complete r complete (last_of p (c ∷ a)) b t k n (omega (arith, length-append a b)) y
          (subst (λ q. k q t ≢ none) (last_of-append p (c ∷ a) b) h) in
      first-ne-none _ _ (λ e. absurd (
        round-Complete r complete p _ c a (b ++ t) k n (ap (◌∷◌ c) (append_assoc a b t)) x later e))

  pub run-Complete : (r : Pattern) → Complete r
  unfolding run
  run-Complete empty p m t k nil h = h
  run-Complete (one f) p m t k (char e) h = rw e h
  run-Complete (seq r q) p m t k (both a b x y) h = rw append_assoc (
      run-Complete r p a (b ++ t) _ x
        (run-Complete q (last_of p a) b t k y (rw last_of-append at h)))
  run-Complete (alt r q) p m t k (left x) h =
      first-ne-none _ _ (λ e. absurd (run-Complete r p m t k x h e))
  run-Complete (alt r q) p m t k (right x) h = first-ne-none _ _ (λ e. run-Complete q p m t k x h)
  run-Complete (star r) p m t k x h =
      star-Complete r (run-Complete r) p m t k (length (m ++ t)) (omega (arith, length-append m t))
        x h
  run-Complete word_boundary p m t k (boundary e) h = rw e h
  run-Complete line_start p m t k (start e) h = rw e h
