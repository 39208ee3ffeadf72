-- ===== src/Regex/Search.antt =====
-- The search for a pattern in a text and the language of the pattern.
use mcp_server_for_sql_agent.Prelude.{
  ℕ, zero, suc, ◌-◌, ◌≡◌, ◌≢◌, refl, sym, ap, ◌∙◌, Bool, [], ◌∷◌, ◌++◌, Option, none, some, length,
  length-append, arith, take,
}
use mcp_server_for_sql_agent.Prelude.Strs.{Str}
use mcp_server_for_sql_agent.Regex.Defs.{Pattern, last_of, Matches, run, match_at, search_from}
use mcp_server_for_sql_agent.Regex.Decides.{run-Sound, run-Complete, first-ne-none}

pub some-eq-some {ℓ} : {A : Type ℓ} {a b : A} → some a ≡ some b → a ≡ b
some-eq-some e = cc e

take-append : (a b : Str) (n : ℕ) → n ≡ length a → take n (a ++ b) ≡ a
take-append [] b zero e = refl
take-append [] b (suc n) e = absurd (omega arith)
take-append (c ∷ a) b zero e = absurd (omega arith)
take-append (c ∷ a) b (suc n) e = ap (◌∷◌ c) (take-append a b n (omega arith))

module _ (isw : ℕ → Bool) where
  -- The pattern matches `m` somewhere in `s`, after the text `before`.
  pub record Occurs (r : Pattern) (p : Option ℕ) (s m : Str) : Type 0 where
    pub before : Str
    pub after : Str
    pub splits : s ≡ before ++ (m ++ after)
    pub matched : Matches isw r (last_of p before) m after

  pub match_at-Found :
      (r : Pattern) (p : Option ℕ) (s m : Str)
      → match_at isw r p s ≡ some m
      → (t : Str) × (s ≡ m ++ t) × Matches isw r p m t
  unfolding match_at
  match_at-Found r p s m h = go (run isw r p s (λ _ s'. some s')) refl h
    where
      go :
          (o : Option Str)
          → run isw r p s (λ _ s'. some s') ≡ o
          → elim o [ some rest ↦ some (take (length s - length rest) s) | none ↦ none ] ≡ some m
          → (t : Str) × (s ≡ m ++ t) × Matches isw r p m t
      go none e h' = cc
      go (some rest) e h' =
          let f = run-Sound isw Str r p s (λ _ s'. some s') rest e in
          let same : rest ≡ f.rest = sym (some-eq-some f.answer) in
          let whole : take (length s - length rest) s ≡ f.consumed =
            rw (same, f.splits)
              (take-append f.consumed f.rest _ (omega (arith, length-append f.consumed f.rest))) in
          let found : m ≡ f.consumed = sym (some-eq-some h') ∙ whole in
          (f.rest, rw found f.splits, rw found f.matched)

  pub match_at-Complete :
      (r : Pattern) (p : Option ℕ) (m t : Str)
      → Matches isw r p m t
      → match_at isw r p (m ++ t) ≢ none
  unfolding match_at
  match_at-Complete r p m t x = go (run isw r p (m ++ t) (λ _ s'. some s')) refl
    where
      go :
          (o : Option Str)
          → run isw r p (m ++ t) (λ _ s'. some s') ≡ o
          → elim o [
            | some rest ↦ some (take (length (m ++ t) - length rest) (m ++ t))
            | none ↦ none
          ]
            ≢ none
      go none e h = run-Complete isw Str r p m t (λ _ s'. some s') x (λ q. cc) e
      go (some rest) e h = cc

  pub search-Occurs :
      (r : Pattern) (p : Option ℕ) (s m : Str) → search_from isw r p s ≡ some m → Occurs r p s m
  unfolding search_from
  search-Occurs r p [] m h =
      let (t, e, x) = match_at-Found r p [] m h in
      record { before = []; after = t; splits = e; matched = x }
  search-Occurs r p (c ∷ s) m h =
      go (match_at isw r p (c ∷ s)) refl (search-Occurs r (some c) s m) h
    where
      go :
          (o : Option Str)
          → match_at isw r p (c ∷ s) ≡ o
          → (search_from isw r (some c) s ≡ some m → Occurs r (some c) s m)
          → elim o [ some n ↦ some n | none ↦ search_from isw r (some c) s ] ≡ some m
          → Occurs r p (c ∷ s) m
      go none e later h' =
          let f = later h' in
          record {
            before = c ∷ f.before;
            after = f.after;
            splits = ap (◌∷◌ c) f.splits;
            matched = f.matched;
          }
      go (some n) e later h' =
          let (t, d, x) = match_at-Found r p (c ∷ s) m (e ∙ h') in
          record { before = []; after = t; splits = d; matched = x }

  search-ne-none :
      (r : Pattern) (p : Option ℕ) (s : Str)
      → match_at isw r p s ≢ none
      → search_from isw r p s ≢ none
  unfolding search_from
  search-ne-none r p [] h = h
  search-ne-none r p (c ∷ s) h = first-ne-none _ _ (λ e. absurd (h e))

  pub search-Complete :
      (r : Pattern) (p : Option ℕ) (before m after : Str)
      → Matches isw r (last_of p before) m after
      → search_from isw r p (before ++ (m ++ after)) ≢ none
  unfolding search_from
  search-Complete r p [] m after x =
      search-ne-none r p (m ++ after) (match_at-Complete r p m after x)
  search-Complete r p (c ∷ before) m after x =
      first-ne-none _ _ (λ e. search-Complete r (some c) before m after x)
