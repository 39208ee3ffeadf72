-- ===== src/Validator/Scan.antt =====
-- One round of the loop of `_mask_comments_and_quotes`. A position in the text is the split of
-- the text there, with the character before it; so a round answers what it adds to the output,
-- what it passes over, and what is left.
use mcp_server_for_sql_agent.Unicode.{Unicode, is_word_char}
use mcp_server_for_sql_agent.Errors.{
  Rejection, space_after_dashes, executable_comment, unterminated_comment,
  unterminated_dollar_quote, backslash_in_quotes, unterminated_quote,
}
use mcp_server_for_sql_agent.Regex.{match_at}
use mcp_server_for_sql_agent.Validator.Patterns.{dollar_tag_re}
use mcp_server_for_sql_agent.Prelude.{
  ◌++◌, ◌∷◌, [], some, none, Option, ◌||◌, ◌&&◌, not, false, true, Bool, ℕ, drop, length,
  if◌then◌else◌, ◌==◌,
}
use mcp_server_for_sql_agent.Prelude.Strs.{starts_with, char_in, str_eq, codes, Str}

pub data Round : Type 0 where
  stop : Round
  refuse : Rejection → Round
  emit : Str → Str → Str → Round

-- The text up to the next line end, and from there on.
unfoldable pub break_line : Str → Str × Str
break_line [] = ([], [])
break_line (c ∷ s) =
    let (line, rest) = break_line s in
    elim (c == 10) [ true ↦ ([], c ∷ s) | false ↦ (c ∷ line, rest) ]

-- `s.find(pattern)`: the text before the first occurrence, and after it.
unfoldable pub find_split : Str → Str → Option (Str × Str)
find_split p [] = if starts_with p [] then some ([], []) else none
find_split p (c ∷ s) = elim (starts_with p (c ∷ s)) [
  | true ↦ some ([], drop (length p) (c ∷ s))
  | false ↦ elim (find_split p s) [ none ↦ none | some (a, b) ↦ some (c ∷ a, b) ]
]

unfoldable pub skip_to_line_end : Str → Round
unfolding break_line
skip_to_line_end t = let (line, rest) = break_line t in emit (codes " ") line rest

-- `_skip_quoted`, behind the opening quote: what the quoted section takes up with its closing
-- quote, and the rest.
pub data Quoted : Type 0 where
  closed : Str → Str → Quoted
  broken : Rejection → Quoted

abbrev pub prepend : Str → Quoted → Quoted
prepend a (closed b rest) = closed (a ++ b) rest
prepend a (broken r) = broken r

unfoldable pub skip_quoted : ℕ → Str → Quoted
skip_quoted close [] = broken unterminated_quote
skip_quoted close (c ∷ []) =
    if c == b'\\'
    then broken backslash_in_quotes
    else if c == close
    then closed (c ∷ []) []
    else broken unterminated_quote
skip_quoted close (c ∷ d ∷ s) = elim (c == b'\\') [
  | true ↦ broken backslash_in_quotes
  | false ↦ elim (c == close) [
    | true ↦ elim (d == close) [
      | true ↦ prepend (c ∷ d ∷ []) (skip_quoted close s)
      | false ↦ closed (c ∷ []) (d ∷ s)
    ]
    | false ↦ prepend (c ∷ []) (skip_quoted close (d ∷ s))
  ]
]

unfoldable pub quoted : ℕ → ℕ → Str → Round
unfolding skip_quoted
quoted open_quote close s = elim (skip_quoted close s) [
  | closed body rest ↦ emit (codes "?") (open_quote ∷ body) rest
  | broken r ↦ refuse r
]

-- The character behind the dashes is there, and is none of those that MySQL wants.
abbrev pub no_space_after : Str → Bool
no_space_after [] = false
no_space_after (c ∷ s) = not (char_in c (codes " \t\r\n"))

unfoldable pub dashes : Str → Str → Round
unfolding skip_to_line_end char_in
dashes dialect t =
    if str_eq dialect (codes "mysql") && no_space_after (drop 2 t)
    then refuse space_after_dashes
    else skip_to_line_end t

unfoldable pub block_comment : Str → Round
unfolding find_split
block_comment t =
    if starts_with (codes "!") (drop 2 t)
    then refuse executable_comment
    else elim (find_split (codes "*/") (drop 2 t)) [
      | none ↦ refuse unterminated_comment
      | some (inside, rest) ↦ emit (codes " ") (codes "/*" ++ (inside ++ codes "*/")) rest
    ]

unfoldable pub dollar : Unicode → Option ℕ → Str → Round
unfolding find_split match_at dollar_tag_re
dollar u prev [] = stop
dollar u prev (c ∷ s) = elim (match_at (is_word_char u) dollar_tag_re prev (c ∷ s)) [
  | none ↦ emit (c ∷ []) (c ∷ []) s
  | some tag ↦ elim (find_split tag (drop (length tag) (c ∷ s))) [
    | none ↦ refuse unterminated_dollar_quote
    | some (inside, rest) ↦ emit (codes "?") (tag ++ (inside ++ tag)) rest
  ]
]

-- `i > 0 and (sql[i - 1].isalnum() or sql[i - 1] == "_")`
abbrev pub behind_name : Unicode → Option ℕ → Bool
behind_name u none = false
behind_name u (some c) = is_word_char u c

unfoldable pub scan : Unicode → Str → Option ℕ → Str → Round
unfolding dashes block_comment quoted dollar
scan u dialect prev [] = stop
scan u dialect prev (c ∷ s) =
    if starts_with (codes "--") (c ∷ s)
    then dashes dialect (c ∷ s)
    else if c == b'#' && str_eq dialect (codes "mysql")
    then skip_to_line_end (c ∷ s)
    else if starts_with (codes "/*") (c ∷ s)
    then block_comment (c ∷ s)
    else if char_in c (codes "'\"`") || c == b'[' && str_eq dialect (codes "mssql")
    then quoted c (if c == b'[' then b']' else c) s
    else if c == b'$' && not (behind_name u prev)
    then dollar u prev (c ∷ s)
    else emit (c ∷ []) (c ∷ []) s
