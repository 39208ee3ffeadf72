-- ===== src/Validator/Patterns.antt =====
-- The keyword lists and the regular expressions of services/query_validator.py.
use Prim.Native.String.{String}
use mcp_server_for_sql_agent.Regex.{
  Pattern, one, seq, alt, star, word_boundary, line_start, text_of, any_pattern, plus, optional,
}
use mcp_server_for_sql_agent.Prelude.{
  map, ◌∷◌, [], List, ◌||◌, ◌&&◌, Bool, ◌+◌, ℕ, if◌then◌else◌, ◌==◌, leb,
}
use mcp_server_for_sql_agent.Prelude.Strs.{codes, Str}

unfoldable pub forbidden_keywords : List Str
forbidden_keywords =
    codes "drop"
    ∷ codes "delete"
    ∷ codes "update"
    ∷ codes "alter"
    ∷ codes "insert"
    ∷ codes "truncate"
    ∷ codes "grant"
    ∷ codes "revoke"
    ∷ codes "create"
    ∷ codes "merge"
    ∷ codes "into"
    ∷ codes "call"
    ∷ codes "exec"
    ∷ codes "execute"
    ∷ codes "attach"
    ∷ codes "detach"
    ∷ codes "pragma"
    ∷ codes "vacuum"
    ∷ codes "copy"
    ∷ codes "reindex"
    ∷ []

unfoldable pub dangerous_functions : List Str
dangerous_functions =
    codes "pg_sleep"
    ∷ codes "pg_read_file"
    ∷ codes "pg_read_binary_file"
    ∷ codes "pg_ls_dir"
    ∷ codes "pg_terminate_backend"
    ∷ codes "pg_cancel_backend"
    ∷ codes "pg_reload_conf"
    ∷ codes "set_config"
    ∷ codes "lo_import"
    ∷ codes "lo_export"
    ∷ codes "dblink"
    ∷ codes "load_extension"
    ∷ codes "load_file"
    ∷ codes "xp_cmdshell"
    ∷ codes "openrowset"
    ∷ codes "opendatasource"
    ∷ codes "sp_executesql"
    ∷ codes "sp_oacreate"
    ∷ []

-- `re.IGNORECASE` against a lower-case ASCII character: the two cases, and the four letters
-- beyond ASCII that Python's documentation names (İ, ı, ſ and the Kelvin sign).
abbrev pub lower_letter : ℕ → ℕ
lower_letter c =
    if leb b'A' c && leb c b'Z'
    then c + 32
    else if c == 0x130 || c == 0x131
    then b'i'
    else if c == 0x17f
    then b's'
    else if c == 0x212a
    then b'k'
    else c

abbrev pub same_letter : ℕ → ℕ → Bool
same_letter p c = lower_letter c == p

abbrev pub word : String → Pattern
word w = text_of same_letter (codes w)

-- `\b(w1|w2|...)\b`
unfoldable pub whole_word : List Str → Pattern
whole_word ws = seq word_boundary (seq (any_pattern (map (text_of same_letter) ws)) word_boundary)

abbrev pub forbidden_re : Pattern
forbidden_re = whole_word forbidden_keywords

abbrev pub function_re : Pattern
function_re = whole_word dangerous_functions

-- `\bfor\s+(no\s+key\s+)?share\b`
unfoldable pub locking_re : (ℕ → Bool) → Pattern
locking_re is_space =
    let spaces = plus (one is_space) in
    seq word_boundary (
      seq (word "for") (
        seq spaces (
          seq (optional (seq (word "no") (seq spaces (seq (word "key") spaces))))
            (seq (word "share") word_boundary))))

-- `^\(*\s*(select|with)\b`
unfoldable pub starts_like_query_re : (ℕ → Bool) → Pattern
starts_like_query_re is_space = seq line_start (
    seq (star (one (λ c. c == b'(')))
      (seq (star (one is_space)) (seq (alt (word "select") (word "with")) word_boundary)))

abbrev pub is_tag_char : ℕ → Bool
is_tag_char c = leb b'A' c && leb c b'Z' || leb b'a' c && leb c b'z' || c == b'_'

-- `\$[A-Za-z_]*\$`
unfoldable pub dollar_tag_re : Pattern
dollar_tag_re =
    let dollar = one (λ c. c == b'$') in seq dollar (seq (star (one is_tag_char)) dollar)
