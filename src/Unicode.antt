-- ===== src/Unicode.antt =====
-- Python's Unicode tables. The program reads them through `str` methods and `re`; they are a
-- parameter of the model, `Unicode`, so that every theorem holds for every version of them.
pub mod Ascii
use mcp_server_for_sql_agent.Prelude.{
  [], ◌++◌, if◌then◌else◌, ◌∷◌, ◌==◌, ◌||◌, ℕ, Bool, true, false,
}
use mcp_server_for_sql_agent.Prelude.Strs.{Str}

-- The general categories that the program tells apart, and all the others.
pub data Category : Type 0 where
  control format surrogate private_use other : Category

pub record Unicode : Type 0 where
  pub is_alnum : ℕ → Bool
  pub is_space : ℕ → Bool
  pub category : ℕ → Category
  pub casefold_char : ℕ → Str
  pub upper_char : ℕ → Str
  pub nfkc : Str → Str

-- `\w` in a pattern: a letter, a digit or an underscore.
abbrev pub is_word_char : Unicode → ℕ → Bool
is_word_char u c = u.is_alnum c || c == b'_'

unfoldable pub casefold : Unicode → Str → Str
casefold u [] = []
casefold u (c ∷ s) = u.casefold_char c ++ casefold u s

unfoldable pub upper : Unicode → Str → Str
upper u [] = []
upper u (c ∷ s) = u.upper_char c ++ upper u s

-- `s.lstrip()`, `s.rstrip()`, `s.strip()`, with the test for the characters to take off
abbrev pub lstrip_by : (ℕ → Bool) → Str → Str
lstrip_by p [] = []
lstrip_by p (c ∷ s) = let rest = lstrip_by p s in if p c then rest else c ∷ s

-- a character before a text that is stripped already
abbrev pub keep_before : Bool → ℕ → Str → Str
keep_before blank c [] = if blank then [] else c ∷ []
keep_before blank c (d ∷ t) = c ∷ d ∷ t

unfoldable pub rstrip_by : (ℕ → Bool) → Str → Str
rstrip_by p [] = []
rstrip_by p (c ∷ s) = keep_before (p c) c (rstrip_by p s)

unfoldable pub strip : Unicode → Str → Str
unfolding rstrip_by
strip u s = rstrip_by u.is_space (lstrip_by u.is_space s)
