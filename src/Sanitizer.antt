-- ===== src/Sanitizer.antt =====
-- services/sanitizer.py: `OutputSanitizer`, which cleans what comes out of a database.
pub mod Rules
pub mod Visible
use mcp_server_for_sql_agent.Unicode.{
  Unicode, Category, control, format, surrogate, private_use, other, is_word_char,
}
use mcp_server_for_sql_agent.Regex.{Pattern, search}
use mcp_server_for_sql_agent.Values.{put, Json, Jsons, Members}
use mcp_server_for_sql_agent.Prelude.Decimal.{decimal}
use Rules.{rules}
use mcp_server_for_sql_agent.Prelude.{
  ◌++◌, ◌∷◌, [], List, some, none, Option, ◌||◌, not, false, true, Bool, ℕ, keep_if, take, length,
  if◌then◌else◌, ◌==◌, ltb,
}
use mcp_server_for_sql_agent.Prelude.Strs.{codes, Str}

-- `SecurityFlag` of models.py
pub record SecurityFlag : Type 0 where
  pub location : Str
  pub rule : Str

abbrev pub is_hidden_category : Category → Bool
is_hidden_category other = false
is_hidden_category _ = true

-- `ch in "\t\n" or unicodedata.category(ch) not in ("Cc", "Cf", "Cs", "Co")`
unfoldable pub is_visible : Unicode → ℕ → Bool
is_visible u c = c == 9 || c == 10 || not (is_hidden_category (u.category c))

unfoldable pub strip_invisible : Unicode → Str → Str
unfolding is_visible
strip_invisible u = keep_if (is_visible u)

-- `re.sub(r"\s+", " ", text)`: the flag says whether the character before was a space.
unfoldable pub collapse_spaces : (ℕ → Bool) → Bool → Str → Str
collapse_spaces is_space after [] = []
collapse_spaces is_space after (c ∷ s) =
    let rest = collapse_spaces is_space (is_space c) s in
    if is_space c then (if after then rest else b' ' ∷ rest) else c ∷ rest

unfoldable pub normalise : Unicode → Str → Str
unfolding collapse_spaces
normalise u text = collapse_spaces u.is_space false (u.nfkc text)

-- The name of the first rule whose pattern is found.
unfoldable pub first_rule : (ℕ → Bool) → List (Str × Pattern) → Str → Option Str
first_rule isw [] text = none
first_rule isw ((name, pattern) ∷ rest) text = elim (search isw pattern text) [
  | some m ↦ some name
  | none ↦ first_rule isw rest text
]

unfoldable pub first_matching_rule : Unicode → Str → Option Str
unfolding first_rule normalise
first_matching_rule u text = first_rule (is_word_char u) (rules u.is_space) (normalise u text)

unfoldable pub withheld : Str → Str
withheld rule =
    codes "[content withheld: text resembling instructions to an AI (" ++ (rule ++ codes ")]")

unfoldable pub truncated_note : ℕ → Str
truncated_note n = codes "... [truncated, " ++ (decimal n ++ codes " characters in total]")

-- A method that appends to `flags` returns the flags with its result.
abbrev pub Flagged : Type 0 → Type 0
Flagged A = A × List SecurityFlag

unfoldable pub cut : ℕ → Str → Str
unfolding truncated_note
cut limit cleaned =
    if ltb limit (length cleaned)
    then take limit cleaned ++ truncated_note (length cleaned)
    else cleaned

module _ (u : Unicode) (max_cell_chars : ℕ) where
  unfoldable pub clean_text : Str → Str → List SecurityFlag → Flagged Str
  unfolding strip_invisible first_matching_rule withheld cut
  clean_text text location flags =
      let cleaned = strip_invisible u text in
      elim (first_matching_rule u cleaned) [
        | some rule ↦ (withheld rule, flags ++ (record { location = location; rule = rule } ∷ []))
        | none ↦ (cut max_cell_chars cleaned, flags)
      ]

  unfoldable mutual
    unfolding clean_text put

    pub clean_value : Json → Str → List SecurityFlag → Flagged Json
    clean_value (Json.str s) location flags =
        let (t, flags') = clean_text s location flags in (Json.str t, flags')
    clean_value (Json.array vs) location flags =
        let (ws, flags') = clean_values vs location flags in (Json.array ws, flags')
    clean_value (Json.object ms) location flags =
        let (ns, flags') = clean_members ms Members.end location flags in (Json.object ns, flags')
    clean_value v location flags = (v, flags)

    pub clean_values : Jsons → Str → List SecurityFlag → Flagged Jsons
    clean_values Jsons.nil location flags = (Jsons.nil, flags)
    clean_values (Jsons.cons v vs) location flags =
        let (w, flags') = clean_value v location flags in
        let (ws, flags'') = clean_values vs location flags' in (Jsons.cons w ws, flags'')

    pub clean_members : Members → Members → Str → List SecurityFlag → Flagged Members
    clean_members Members.end built location flags = (built, flags)
    clean_members (Members.member k v ms) built location flags =
        let (k', flags') = clean_text k location flags in
        let (w, flags'') = clean_value v location flags' in
        clean_members ms (put k' w built) location flags''
