-- ===== src/Drivers.antt =====
-- The messages of database drivers: `_first_line` of adapters/sqlalchemy_adapter.py, and
-- `_root_message` of connection_check.py, which cuts them in the same way.
pub mod Masked
use mcp_server_for_sql_agent.Regex.{Pattern, match_at, seq, one, star, line_start, text_of, plus}
use mcp_server_for_sql_agent.Prelude.{
  ◌++◌, ◌∷◌, [], some, none, Option, ◌||◌, ◌&&◌, not, Bool, ◌-◌, suc, zero, ℕ, drop, take, length,
  if◌then◌else◌, ◌==◌, leb,
}
use mcp_server_for_sql_agent.Prelude.Strs.{truthy, starts_with, codes, Str}
use mcp_server_for_sql_agent.Unicode.{is_word_char, strip, Unicode}

-- Where `str.splitlines` ends a line.
unfoldable pub is_line_break : ℕ → Bool
is_line_break c =
    leb 10 c && leb c 13 || leb 28 c && leb c 30 || c == 0x85 || c == 0x2028 || c == 0x2029

-- `s.splitlines()[0]` of a text that is not empty
unfoldable pub first_of_lines : Str → Str
unfolding is_line_break
first_of_lines [] = []
first_of_lines (c ∷ s) = let rest = first_of_lines s in if is_line_break c then [] else c ∷ rest

abbrev same_char : ℕ → ℕ → Bool
same_char a b = a == b

-- `^<class '[^']+'>:\s*`
unfoldable pub class_prefix_re : (ℕ → Bool) → Pattern
class_prefix_re is_space = seq line_start (
    seq (text_of same_char (codes "<class '")) (
      seq (plus (one (λ c. not (c == b'\''))))
        (seq (text_of same_char (codes "'>:")) (star (one is_space)))))

abbrev without : Option Str → Str → Str
without none s = s
without (some m) s = drop (length m) s

module _ (u : Unicode) where
  -- `re.sub(r"^<class '[^']+'>:\s*", "", line)`
  unfoldable pub drop_class_prefix : Str → Str
  unfolding match_at class_prefix_re
  drop_class_prefix s = without (match_at (is_word_char u) (class_prefix_re u.is_space) none s) s

  -- The first line of a message, or what stands for one that is blank.
  unfoldable pub useful_line : Str → Str → Str
  unfolding strip first_of_lines drop_class_prefix
  useful_line blank message =
      let stripped = strip u message in
      drop_class_prefix (if truthy stripped then first_of_lines stripped else blank)

  abbrev pub max_driver_error_chars : ℕ
  max_driver_error_chars = 300

  unfoldable pub first_line : Str → Str
  unfolding useful_line
  first_line message = take max_driver_error_chars (useful_line (codes "database error") message)

-- `p in s`
unfoldable pub contains : Str → Str → Bool
unfolding starts_with
contains p [] = starts_with p []
contains p (c ∷ s) = starts_with p (c ∷ s) || contains p s

-- `s.replace(old, new)`, where `skip` characters are left of an occurrence that was replaced.
unfoldable pub replace_from : Str → Str → ℕ → Str → Str
unfolding starts_with
replace_from old new skip [] = []
replace_from old new (suc skip) (c ∷ s) = replace_from old new skip s
replace_from old new zero (c ∷ s) =
    let replaced = new ++ replace_from old new (length old - 1) s in
    let kept = c ∷ replace_from old new zero s in if starts_with old (c ∷ s) then replaced else kept

unfoldable pub replace_text : Str → Str → Str → Str
unfolding replace_from
replace_text old new s = replace_from old new 0 s
