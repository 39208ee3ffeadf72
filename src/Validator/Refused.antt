-- ===== src/Validator/Refused.antt =====
-- A round of the loop of `_mask_comments_and_quotes` that refuses has found what its rejection names.
use mcp_server_for_sql_agent.Unicode.{Unicode, is_word_char}
use mcp_server_for_sql_agent.Errors.{
  Rejection, space_after_dashes, executable_comment, unterminated_comment,
  unterminated_dollar_quote,
}
use mcp_server_for_sql_agent.Regex.{match_at, match_at-Found}
use mcp_server_for_sql_agent.Validator.Patterns.{dollar_tag_re}
use mcp_server_for_sql_agent.Validator.Scan.{
  refuse, emit, find_split, skip_to_line_end, Quoted, closed, broken, skip_quoted, scan,
  behind_name, no_space_after, quoted, dashes, block_comment, dollar,
}
use mcp_server_for_sql_agent.Validator.Segments.{closing, opens_quote}
use mcp_server_for_sql_agent.Validator.Pieces.{and-not-false, drop-append}
use mcp_server_for_sql_agent.Validator.Takes.{starts_with-drop}
use mcp_server_for_sql_agent.Prelude.Filters.{and-eq-true}
use mcp_server_for_sql_agent.Prelude.{
  ◌&&◌, not, if◌then◌else◌, none, Option, false, Bool, ◌∙◌, arith, ◌++◌, ◌∷◌, [], some, true, inr,
  inl, ap, refl, subst, ◌≡◌, ℕ, drop, length, Bool-cases, ◌==◌,
}
use mcp_server_for_sql_agent.Prelude.Strs.{str_eq, codes, starts_with, Str}
use mcp_server_for_sql_agent.Validator.Refusals.{
  Nowhere, find_split-Nowhere, BrokenAt, unclosed, backslash, skip_quoted-BrokenAt, Refusal,
}

module _ (u : Unicode) (dialect : Str) (prev : Option ℕ) where
  Refusal-eq :
      {t : Str} {r r' : Rejection}
      → Refusal u dialect prev t r
      → refuse r ≡ refuse r'
      → Refusal u dialect prev t r'
  Refusal-eq {t} {r} {r'} x h = let e : r ≡ r' = cc in subst (Refusal u dialect prev t) e x

  skip_to_line_end-goes_on : (t : Str) (r : Rejection) → ¬ (skip_to_line_end t ≡ refuse r)
  unfolding skip_to_line_end
  skip_to_line_end-goes_on t r h = cc

  emit-goes_on : (a b c : Str) (r : Rejection) → ¬ (emit a b c ≡ refuse r)
  emit-goes_on a b c r h = cc

  dashes-Refusal :
      (t : Str) (why : Rejection)
      → starts_with (codes "--") t ≡ true
      → dashes dialect t ≡ refuse why
      → Refusal u dialect prev t why
  unfolding dashes
  dashes-Refusal t why dd h =
      go (str_eq dialect (codes "mysql") && no_space_after (drop 2 t)) refl h
    where
      next :
          (s : Str)
          → drop 2 t ≡ s
          → str_eq dialect (codes "mysql") ≡ true
          → no_space_after s ≡ true
          → refuse space_after_dashes ≡ refuse why
          → Refusal u dialect prev t why
      next [] e m n x = cc
      next (c ∷ s) e m n x =
          Refusal-eq
            (Refusal.close_dashes c s m
              (starts_with-drop (codes "--") t dd ∙ ap (λ q. codes "--" ++ q) e) (ground arith))
            x

      go :
          (b : Bool)
          → (str_eq dialect (codes "mysql") && no_space_after (drop 2 t)) ≡ b
          → (if b then refuse space_after_dashes else skip_to_line_end t) ≡ refuse why
          → Refusal u dialect prev t why
      go true e x = let (m, n) = and-eq-true _ _ e in next (drop 2 t) refl m n x
      go false e x = absurd (skip_to_line_end-goes_on t why x)

  block_comment-Refusal :
      (t : Str) (why : Rejection)
      → starts_with (codes "/*") t ≡ true
      → block_comment t ≡ refuse why
      → Refusal u dialect prev t why
  unfolding block_comment
  block_comment-Refusal t why opens h =
      go (starts_with (codes "!") (drop 2 t)) (find_split (codes "*/") (drop 2 t)) refl refl h
    where
      whole : t ≡ codes "/*" ++ drop 2 t
      whole = starts_with-drop (codes "/*") t opens

      go :
          (b : Bool) (o : Option (Str × Str))
          → starts_with (codes "!") (drop 2 t) ≡ b
          → find_split (codes "*/") (drop 2 t) ≡ o
          → (if b then refuse executable_comment else elim o [
            | none ↦ refuse unterminated_comment
            | some (inside, rest) ↦ emit (codes " ") (codes "/*" ++ (inside ++ codes "*/")) rest
          ])
            ≡ refuse why
          → Refusal u dialect prev t why
      go true o d e x =
          Refusal-eq
            (Refusal.executable (drop 1 (drop 2 t))
              (whole ∙ ap (λ q. codes "/*" ++ q) (starts_with-drop (codes "!") (drop 2 t) d)))
            x
      go false none d e x =
          Refusal-eq
            (Refusal.open_comment (drop 2 t) whole (find_split-Nowhere (codes "*/") (drop 2 t) e)) x
      go false (some (inside, after)) d e x = cc

  quoted-Refusal :
      (c : ℕ) (s : Str) (why : Rejection)
      → opens_quote dialect c ≡ true
      → quoted c (closing c) s ≡ refuse why
      → Refusal u dialect prev (c ∷ s) why
  unfolding quoted
  quoted-Refusal c s why opens h = go (skip_quoted (closing c) s) refl h
    where
      shown : {r : Rejection} → BrokenAt (closing c) s r → Refusal u dialect prev (c ∷ s) r
      shown (unclosed y) = Refusal.open_quote c s refl opens y
      shown (backslash body rest e y) = Refusal.escaped c body rest (ap (λ q. c ∷ q) e) opens y

      go :
          (q : Quoted)
          → skip_quoted (closing c) s ≡ q
          → elim q [ closed body rest ↦ emit (codes "?") (c ∷ body) rest | broken r ↦ refuse r ]
            ≡ refuse why
          → Refusal u dialect prev (c ∷ s) why
      go (closed body after) e x = cc
      go (broken r) e x = Refusal-eq (shown (skip_quoted-BrokenAt (closing c) s r e)) x

  dollar-Refusal :
      (c : ℕ) (s : Str) (why : Rejection)
      → behind_name u prev ≡ false
      → dollar u prev (c ∷ s) ≡ refuse why
      → Refusal u dialect prev (c ∷ s) why
  unfolding dollar
  dollar-Refusal c s why before h = go (match_at (is_word_char u) dollar_tag_re prev (c ∷ s)) refl h
    where
      inner :
          (tag : Str) (o : Option (Str × Str))
          → match_at (is_word_char u) dollar_tag_re prev (c ∷ s) ≡ some tag
          → find_split tag (drop (length tag) (c ∷ s)) ≡ o
          → elim o [
            | none ↦ refuse unterminated_dollar_quote
            | some (inside, rest) ↦ emit (codes "?") (tag ++ (inside ++ tag)) rest
          ]
            ≡ refuse why
          → Refusal u dialect prev (c ∷ s) why
      inner tag none e e' x =
          let (after, d, m) = match_at-Found (is_word_char u) dollar_tag_re prev (c ∷ s) tag e in
          let behind : drop (length tag) (c ∷ s) ≡ after =
            ap (λ q. drop (length tag) q) d ∙ drop-append tag after in
          Refusal-eq
            (Refusal.open_dollar tag after d m before
              (subst (λ q. Nowhere tag q) behind (find_split-Nowhere tag _ e')))
            x
      inner tag (some (inside, end)) e e' x = cc

      go :
          (o : Option Str)
          → match_at (is_word_char u) dollar_tag_re prev (c ∷ s) ≡ o
          → elim o [
            | none ↦ emit (c ∷ []) (c ∷ []) s
            | some tag ↦ elim (find_split tag (drop (length tag) (c ∷ s))) [
              | none ↦ refuse unterminated_dollar_quote
              | some (inside, rest) ↦ emit (codes "?") (tag ++ (inside ++ tag)) rest
            ]
          ]
            ≡ refuse why
          → Refusal u dialect prev (c ∷ s) why
      go none e x = absurd (emit-goes_on _ _ _ why x)
      go (some tag) e x = inner tag (find_split tag (drop (length tag) (c ∷ s))) e refl x

  -- The last three tests of a round.
  other-Refusal :
      (c : ℕ) (s : Str) (why : Rejection)
      → (if opens_quote dialect c
          then quoted c (closing c) s
          else if c == b'$' && not (behind_name u prev)
          then dollar u prev (c ∷ s)
          else emit (c ∷ []) (c ∷ []) s)
        ≡ refuse why
      → Refusal u dialect prev (c ∷ s) why
  other-Refusal c s why h = elim (Bool-cases (opens_quote dialect c)) [
    | inl q ↦ quoted-Refusal c s why q (rw q at h)
    | inr q ↦ elim (Bool-cases (c == b'$' && not (behind_name u prev))) [
      | inl d ↦ dollar-Refusal c s why (and-not-false _ _ d) (rw (q, d) at h)
      | inr d ↦ absurd (emit-goes_on _ _ _ why (rw (q, d) at h))
    ]
  ]

  -- A round that refuses has found what the rejection names.
  pub scan-Refusal :
      (t : Str) (why : Rejection)
      → scan u dialect prev t ≡ refuse why
      → Refusal u dialect prev t why
  unfolding scan
  scan-Refusal [] why h = cc
  scan-Refusal (c ∷ s) why h = elim (Bool-cases (starts_with (codes "--") (c ∷ s))) [
    | inl dd ↦ dashes-Refusal (c ∷ s) why dd (rw (dd, scan) at h)
    | inr dd ↦ elim (Bool-cases (c == b'#' && str_eq dialect (codes "mysql"))) [
      | inl hash ↦ absurd (skip_to_line_end-goes_on (c ∷ s) why (rw (dd, hash, scan) at h))
      | inr hash ↦ elim (Bool-cases (starts_with (codes "/*") (c ∷ s))) [
        | inl block ↦ block_comment-Refusal (c ∷ s) why block (rw (dd, hash, block, scan) at h)
        | inr block ↦ other-Refusal c s why (rw (dd, hash, block, scan) at h)
      ]
    ]
  ]
