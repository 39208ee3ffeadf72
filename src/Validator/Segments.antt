-- ===== src/Validator/Segments.antt =====
-- What `_mask_comments_and_quotes` has to recognise, stated without its loop: the pieces of a
-- text and what each piece becomes in the output.
use mcp_server_for_sql_agent.Unicode.{Unicode, is_word_char}
use mcp_server_for_sql_agent.Regex.{Matches}
use mcp_server_for_sql_agent.Validator.Patterns.{dollar_tag_re}
use mcp_server_for_sql_agent.Validator.Scan.{behind_name}
use mcp_server_for_sql_agent.Prelude.{
  ◌++◌, ◌∷◌, [], Option, ◌||◌, ◌&&◌, false, true, Bool, ◌≡◌, ℕ, All, if◌then◌else◌, ◌==◌,
}
use mcp_server_for_sql_agent.Prelude.Strs.{starts_with, char_in, str_eq, codes, Str}
use mcp_server_for_sql_agent.Regex.{last_of}

abbrev pub NoLineEnd : Str → Type 0
NoLineEnd = All (λ c. (c == 10) ≡ false)

-- The text is at its end or at a line end.
abbrev pub AtLineEnd : Str → Type 0
AtLineEnd [] = Unit
AtLineEnd (c ∷ s) = c ≡ 10

-- `p` does not occur in `a ++ b` at any place inside `a`.
abbrev pub NotWithin : Str → Str → Str → Type 0
NotWithin p [] b = Unit
NotWithin p (c ∷ a) b = (starts_with p (c ∷ (a ++ b)) ≡ false) × NotWithin p a b

abbrev pub StartsWith : ℕ → Str → Type 0
StartsWith q [] = ⊥
StartsWith q (c ∷ s) = c ≡ q

-- The inside of a quoted section: no backslash, and each closing quote is doubled.
pub data QuotedBody (close : ℕ) : Str → Type 0 where
  nil : QuotedBody close []
  char :
      {c : ℕ} {s : Str}
      → (c == b'\\') ≡ false
      → (c == close) ≡ false
      → QuotedBody close s
      → QuotedBody close (c ∷ s)
  doubled :
      {c d : ℕ} {s : Str}
      → (c == b'\\') ≡ false
      → c ≡ close
      → d ≡ close
      → QuotedBody close s
      → QuotedBody close (c ∷ d ∷ s)

-- The quote that closes what `q` opens.
abbrev pub closing : ℕ → ℕ
closing q = if q == b'[' then b']' else q

abbrev pub opens_quote : Str → ℕ → Bool
opens_quote dialect c = char_in c (codes "'\"`") || c == b'[' && str_eq dialect (codes "mssql")

abbrev pub opens_line_comment : Str → Str → Bool
opens_line_comment dialect raw =
    starts_with (codes "--") raw || starts_with (codes "#") raw && str_eq dialect (codes "mysql")

module _ (u : Unicode) (dialect : Str) where
  -- No dollar-quoted section can open at `t`, behind the character `prev`.
  abbrev pub NoTag : Option ℕ → Str → Type 0
  NoTag prev t =
      behind_name u prev ≡ false
      → (tag after : Str) → t ≡ tag ++ after
      → ¬ Matches (is_word_char u) dollar_tag_re prev tag after

  -- Between the character `prev` and the text `rest`, `raw` is one piece, shown as `shown`.
  pub data Segment (prev : Option ℕ) (raw rest shown : Str) : Type 0 where
    line_comment :
        opens_line_comment dialect (raw ++ rest) ≡ true
        → NoLineEnd raw
        → AtLineEnd rest
        → shown ≡ codes " "
        → Segment prev raw rest shown
    block_comment :
        (inside : Str)
        → raw ≡ codes "/*" ++ (inside ++ codes "*/")
        → NotWithin (codes "*/") inside (codes "*/" ++ rest)
        → shown ≡ codes " "
        → Segment prev raw rest shown
    quoted :
        (q : ℕ) (body : Str)
        → opens_quote dialect q ≡ true
        → raw ≡ q ∷ (body ++ closing q ∷ [])
        → QuotedBody (closing q) body
        → ¬ StartsWith (closing q) rest
        → shown ≡ codes "?"
        → Segment prev raw rest shown
    dollar_quoted :
        (tag inside after : Str)
        → raw ≡ tag ++ (inside ++ tag)
        → Matches (is_word_char u) dollar_tag_re prev tag after
        → NotWithin tag inside (tag ++ rest)
        → behind_name u prev ≡ false
        → shown ≡ codes "?"
        → Segment prev raw rest shown
    plain :
        (c : ℕ)
        → raw ≡ c ∷ []
        → opens_quote dialect c ≡ false
        → opens_line_comment dialect (raw ++ rest) ≡ false
        → starts_with (codes "/*") (raw ++ rest) ≡ false
        → NoTag prev (raw ++ rest)
        → shown ≡ c ∷ []
        → Segment prev raw rest shown

  -- The whole text is such pieces one after another.
  pub data Segments : Option ℕ → Str → Str → Type 0 where
    done : {prev : Option ℕ} → Segments prev [] []
    piece :
        {prev : Option ℕ} (raw rest shown out : Str)
        → Segment prev raw rest shown
        → Segments (last_of prev raw) rest out
        → Segments prev (raw ++ rest) (shown ++ out)
