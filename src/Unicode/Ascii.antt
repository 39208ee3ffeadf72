-- ===== src/Unicode/Ascii.antt =====
-- The tables of ASCII, with one zero-width character beside it: an instance to run the program on.
use mcp_server_for_sql_agent.Unicode.{Unicode, Category, control, format, other}
use mcp_server_for_sql_agent.Prelude.{
  ◌∷◌, [], ◌||◌, ◌&&◌, Bool, ◌-◌, ◌+◌, if◌then◌else◌, ◌==◌, leb, ltb, ℕ,
}

abbrev pub between : ℕ → ℕ → ℕ → Bool
between a b c = leb a c && leb c b

abbrev pub ascii_category : ℕ → Category
ascii_category c = if ltb c 32 || c == 127 then control else if c == 8203 then format else other

abbrev pub ascii : Unicode
ascii = record {
  is_alnum = λ c. between 48 57 c || (between 65 90 c || between 97 122 c);
  is_space = λ c. c == 32 || between 9 13 c;
  category = ascii_category;
  casefold_char = λ c. (if between 65 90 c then c + 32 else c) ∷ [];
  upper_char = λ c. (if between 97 122 c then c - 32 else c) ∷ [];
  nfkc = λ s. s;
}
