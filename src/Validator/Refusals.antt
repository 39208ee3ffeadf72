-- ===== src/Validator/Refusals.antt =====
-- Where `_mask_comments_and_quotes` gives up on a text, stated without its loop.
use mcp_server_for_sql_agent.Unicode.{Unicode, is_word_char}
use mcp_server_for_sql_agent.Errors.{
  Rejection, space_after_dashes, executable_comment, unterminated_comment,
  unterminated_dollar_quote, backslash_in_quotes, unterminated_quote,
}
use mcp_server_for_sql_agent.Regex.{Matches}
use mcp_server_for_sql_agent.Validator.Patterns.{dollar_tag_re}
use mcp_server_for_sql_agent.Validator.Scan.{
  find_split, Quoted, closed, broken, prepend, skip_quoted, behind_name,
}
use mcp_server_for_sql_agent.Validator.Segments.{
  closing, opens_quote, QuotedBody, nil, char, doubled,
}
use mcp_server_for_sql_agent.Prelude.{
  append_assoc, none, Option, false, Bool, ◌++◌, ◌∷◌, [], some, true, inr, inl, ap, refl, subst,
  ◌≡◌, ℕ, drop, length, Bool-cases, ◌==◌, ==_iff,
}
use mcp_server_for_sql_agent.Prelude.Strs.{char_in, str_eq, codes, starts_with, Str}

-- `p` occurs nowhere in the text.
abbrev pub Nowhere : Str → Str → Type 0
Nowhere p [] = starts_with p [] ≡ false
Nowhere p (c ∷ s) = (starts_with p (c ∷ s) ≡ false) × Nowhere p s

pub find_split-Nowhere : (p s : Str) → find_split p s ≡ none → Nowhere p s
unfolding find_split
find_split-Nowhere p [] h = elim (Bool-cases (starts_with p [])) [
  | inl e ↦ cc (rw (e, find_split) at h)
  | inr e ↦ e
]
find_split-Nowhere p (c ∷ s) h =
    go (starts_with p (c ∷ s)) (find_split p s) refl (find_split-Nowhere p s) h
  where
    go :
        (t : Bool) (o : Option (Str × Str))
        → starts_with p (c ∷ s) ≡ t
        → (o ≡ none → Nowhere p s)
        → ◌≡◌ {A = Option (Str × Str)}
            (elim t [
              | true ↦ some ([], drop (length p) (c ∷ s))
              | false ↦ elim o [ none ↦ none | some (a, b) ↦ some (c ∷ a, b) ]
            ])
            none
        → Nowhere p (c ∷ s)
    go true o e later x = cc
    go false none e later x = (e, later refl)
    go false (some (a, b)) e later x = cc

-- Behind an opening quote: no closing one follows, or a backslash comes first.
pub data BrokenAt (close : ℕ) (s : Str) : Rejection → Type 0 where
  unclosed : QuotedBody close s → BrokenAt close s unterminated_quote
  backslash :
      (body rest : Str)
      → s ≡ body ++ b'\\' ∷ rest
      → QuotedBody close body
      → BrokenAt close s backslash_in_quotes

BrokenAt-eq :
    {close : ℕ} {s : Str} {r r' : Rejection}
    → BrokenAt close s r
    → broken r ≡ broken r'
    → BrokenAt close s r'
BrokenAt-eq {close} {s} {r} {r'} x h = let e : r ≡ r' = cc in subst (BrokenAt close s) e x

BrokenAt-grow :
    (close : ℕ) (front s : Str)
    → ((inside : Str) → QuotedBody close inside → QuotedBody close (front ++ inside))
    → {r : Rejection} → BrokenAt close s r
    → BrokenAt close (front ++ s) r
BrokenAt-grow close front s grow (unclosed y) = unclosed (grow s y)
BrokenAt-grow close front s grow (backslash body rest e y) =
    backslash (front ++ body) rest (rw append_assoc (ap (λ q. front ++ q) e)) (grow body y)

BrokenAt-prepend :
    (close : ℕ) (front s : Str) (q : Quoted) {r : Rejection}
    → ((inside : Str) → QuotedBody close inside → QuotedBody close (front ++ inside))
    → ((r : Rejection) → q ≡ broken r → BrokenAt close s r)
    → prepend front q ≡ broken r
    → BrokenAt close (front ++ s) r
BrokenAt-prepend close front s (closed b rest) grow later h = cc
BrokenAt-prepend close front s (broken r') grow later h =
    BrokenAt-eq (BrokenAt-grow close front s grow (later r' refl)) h

pub skip_quoted-BrokenAt :
    (close : ℕ) (s : Str) (r : Rejection) → skip_quoted close s ≡ broken r → BrokenAt close s r
unfolding skip_quoted
skip_quoted-BrokenAt close [] r h = BrokenAt-eq (unclosed nil) h
skip_quoted-BrokenAt close (c ∷ []) r h = elim (Bool-cases (c == b'\\')) [
  | inl e ↦
      BrokenAt-eq (backslash [] [] (ap (λ q. q ∷ []) ((==_iff c b'\\').0 e)) nil)
        (rw (e, skip_quoted) at h)
  | inr e ↦ elim (Bool-cases (c == close)) [
    | inl e' ↦ cc (rw (e, e', skip_quoted) at h)
    | inr e' ↦ BrokenAt-eq (unclosed (char e e' nil)) (rw (e, e', skip_quoted) at h)
  ]
]
skip_quoted-BrokenAt close (c ∷ d ∷ s) r h = elim (Bool-cases (c == b'\\')) [
  | inl e ↦
      BrokenAt-eq (backslash [] (d ∷ s) (ap (λ q. q ∷ d ∷ s) ((==_iff c b'\\').0 e)) nil)
        (rw (e, skip_quoted) at h)
  | inr e ↦ elim (Bool-cases (c == close)) [
    | inl e' ↦ elim (Bool-cases (d == close)) [
      | inl e'' ↦
          BrokenAt-prepend close (c ∷ d ∷ []) s (skip_quoted close s)
            (λ x y. doubled e ((==_iff c close).0 e') ((==_iff d close).0 e'') y)
            (skip_quoted-BrokenAt close s) (rw (e, e', e'', skip_quoted) at h)
      | inr e'' ↦ cc (rw (e, e', e'', skip_quoted) at h)
    ]
    | inr e' ↦
        BrokenAt-prepend close (c ∷ []) (d ∷ s) (skip_quoted close (d ∷ s)) (λ x y. char e e' y)
          (skip_quoted-BrokenAt close (d ∷ s)) (rw (e, e', skip_quoted) at h)
  ]
]

module _ (u : Unicode) (dialect : Str) where
  -- What is wrong at the start of `t`, behind the character `prev`.
  pub data Refusal (prev : Option ℕ) (t : Str) : Rejection → Type 0 where
    close_dashes :
        (c : ℕ) (s : Str)
        → str_eq dialect (codes "mysql") ≡ true
        → t ≡ codes "--" ++ c ∷ s
        → char_in c (codes " \t\r\n") ≡ false
        → Refusal prev t space_after_dashes
    executable : (s : Str) → t ≡ codes "/*!" ++ s → Refusal prev t executable_comment
    open_comment :
        (s : Str)
        → t ≡ codes "/*" ++ s
        → Nowhere (codes "*/") s
        → Refusal prev t unterminated_comment
    open_dollar :
        (tag after : Str)
        → t ≡ tag ++ after
        → Matches (is_word_char u) dollar_tag_re prev tag after
        → behind_name u prev ≡ false
        → Nowhere tag after
        → Refusal prev t unterminated_dollar_quote
    open_quote :
        (q : ℕ) (body : Str)
        → t ≡ q ∷ body
        → opens_quote dialect q ≡ true
        → QuotedBody (closing q) body
        → Refusal prev t unterminated_quote
    escaped :
        (q : ℕ) (body rest : Str)
        → t ≡ q ∷ (body ++ b'\\' ∷ rest)
        → opens_quote dialect q ≡ true
        → QuotedBody (closing q) body
        → Refusal prev t backslash_in_quotes
