-- ===== src/Sanitizer/Visible.antt =====
-- The characters of the texts that leave the `OutputSanitizer` of services/sanitizer.py.
use mcp_server_for_sql_agent.Prelude.Filters.{keep_if-All}
use mcp_server_for_sql_agent.Unicode.{Unicode, other}
use mcp_server_for_sql_agent.Regex.{some-eq-some, Pattern, search}
use mcp_server_for_sql_agent.Values.{put, Json, Jsons, Members}
use mcp_server_for_sql_agent.Prelude.Decimal.{decimal, decimal-All}
use mcp_server_for_sql_agent.Sanitizer.Rules.{rules}
use mcp_server_for_sql_agent.Sanitizer.{
  SecurityFlag, is_visible, strip_invisible, first_rule, first_matching_rule, withheld,
  truncated_note, cut, clean_text, clean_value, clean_values, clean_members,
}
use mcp_server_for_sql_agent.Prelude.{
  ◌∙◌, ap, ◌≤◌, ◌==◌, arith, ◌||◌, not, ◌<◌, ◌+◌, ◌++◌, ◌∷◌, [], List, some, none, Option, ◌&&◌,
  false, true, Bool, subst, refl, ◌≡◌, suc, zero, ℕ, All-append, All, keep_if, all_of, take, length,
  if◌then◌else◌, leb, ltb,
}
use mcp_server_for_sql_agent.Prelude.Strs.{str_eq, codes, Str}

abbrev pub AllVisible : Unicode → Str → Type 0
AllVisible u = All (λ c. is_visible u c ≡ true)

abbrev pub printable : ℕ → Bool
printable c = leb 32 c && leb c 126

-- What Unicode says of ASCII: its printable characters are of no hidden category.
abbrev pub AsciiIsPlain : Unicode → Type 0
AsciiIsPlain u = (c : ℕ) → printable c ≡ true → u.category c ≡ other

or-or-true : (a b : Bool) → (a || b) || not false ≡ true
or-or-true a b = ground arith

and-true : (a b : Bool) → a && b ≡ true → (a ≡ true) × (b ≡ true)
and-true a b h = ground arith

digits_printable : (d : ℕ) → d < 10 → printable (48 + d) ≡ true
digits_printable d h = ground arith

All-take : {A : Type 0} (P : A → Type 0) (n : ℕ) (xs : List A) → All P xs → All P (take n xs)
All-take P zero xs h = tt
All-take P (suc n) [] h = tt
All-take P (suc n) (x ∷ xs) h = (h.0, All-take P n xs h.1)

module _ (u : Unicode) (plain : AsciiIsPlain u) where
  plain-visible : (d : ℕ) → u.category d ≡ other → is_visible u d ≡ true
  unfolding is_visible
  plain-visible d e = rw e (or-or-true (d == 9) (d == 10))

  printable-visible : (s : Str) → all_of printable s ≡ true → AllVisible u s
  printable-visible [] h = tt
  printable-visible (c ∷ s) h =
      let (a, b) = and-true (printable c) (all_of printable s) h in
      (plain-visible c (plain c a), printable-visible s b)

  -- The rule that is named is one of the program's.
  first_rule-printable :
      (isw : ℕ → Bool) (rs : List (Str × Pattern)) (text name : Str)
      → All (λ r. all_of printable r.0 ≡ true) rs
      → first_rule isw rs text ≡ some name
      → all_of printable name ≡ true
  unfolding first_rule
  first_rule-printable isw [] text name a h = cc
  first_rule-printable isw ((n, p) ∷ rs) text name a h =
      go (search isw p text) (first_rule-printable isw rs text name a.1) h
    where
      go :
          (o : Option Str)
          → (first_rule isw rs text ≡ some name → all_of printable name ≡ true)
          → elim o [ some m ↦ some n | none ↦ first_rule isw rs text ] ≡ some name
          → all_of printable name ≡ true
      go none ih x = ih x
      go (some m) ih x = subst (λ q. all_of printable q ≡ true) (some-eq-some x) a.0

  rule_names : All (λ r. all_of printable r.0 ≡ true) (rules u.is_space)
  unfolding rules
  rule_names = (refl, (refl, (refl, (refl, tt))))

  withheld-visible : (rule : Str) → all_of printable rule ≡ true → AllVisible u (withheld rule)
  unfolding withheld
  withheld-visible rule h =
      All-append _ (codes "[content withheld: text resembling instructions to an AI (") _
        (printable-visible (codes "[content withheld: text resembling instructions to an AI (")
          refl)
        (All-append _ rule _ (printable-visible rule h) (printable-visible (codes ")]") refl))

  cut-visible : (limit : ℕ) (s : Str) → AllVisible u s → AllVisible u (cut limit s)
  unfolding cut
  cut-visible limit s h = go (ltb limit (length s))
    where
      go : (b : Bool) → AllVisible u (if b then take limit s ++ truncated_note (length s) else s)
      go false = h
      go true = All-append _ (take limit s) _ (All-take _ limit s h) (
          All-append _ (codes "... [truncated, ") _
            (printable-visible (codes "... [truncated, ") refl)
            (All-append _ (decimal (length s)) _
              (printable-visible _ (decimal-All printable digits_printable (length s)))
              (printable-visible (codes " characters in total]") refl)))

  pub clean_text-AllVisible :
      (limit : ℕ) (text location : Str) (flags : List SecurityFlag)
      → AllVisible u (clean_text u limit text location flags).0
  unfolding clean_text
  clean_text-AllVisible limit text location flags =
      go (first_matching_rule u (strip_invisible u text)) refl
    where
      go :
          (o : Option Str)
          → first_matching_rule u (strip_invisible u text) ≡ o
          → AllVisible u (
              let r : Str × List SecurityFlag = elim o [
                | some rule ↦
                    (withheld rule, flags ++ (record { location = location; rule = rule } ∷ []))
                | none ↦ (cut limit (strip_invisible u text), flags)
              ] in
              r.0)
      go none e = cut-visible limit _ (keep_if-All (is_visible u) text)
      go (some rule) e = withheld-visible rule (first_rule-printable _ _ _ rule rule_names e)

keep_if-same :
    {A : Type 0} (p : A → Bool) (xs : List A) → All (λ x. p x ≡ true) xs → keep_if p xs ≡ xs
keep_if-same p [] h = refl
keep_if-same p (x ∷ xs) h = rw (h.0, keep_if-same p xs h.1)

ltb-false : (a b : ℕ) → b ≤ a → ltb a b ≡ false
ltb-false a b h = ground arith

strip_invisible-same :
    (u : Unicode) (text : Str) → AllVisible u text → strip_invisible u text ≡ text
unfolding strip_invisible
strip_invisible-same u text v = keep_if-same (is_visible u) text v

cut-same : (limit : ℕ) (s : Str) → length s ≤ limit → cut limit s ≡ s
unfolding cut
cut-same limit s n = rw (ltb-false limit (length s) n)

-- A text of visible characters in which no rule is found, and which is no longer than a cell may be, leaves the sanitizer as it is and adds no flag.
pub clean_text-unchanged :
    (u : Unicode) (limit : ℕ) (text location : Str) (flags : List SecurityFlag)
    → AllVisible u text
    → first_matching_rule u text ≡ none
    → length text ≤ limit
    → clean_text u limit text location flags ≡ (text, flags)
unfolding clean_text
clean_text-unchanged u limit text location flags v r n =
    let same = strip_invisible-same u text v in
    let none_found : first_matching_rule u (strip_invisible u text) ≡ none =
      ap (first_matching_rule u) same ∙ r in
    rw (none_found, clean_text) (ap (λ q. (q, flags)) (ap (cut limit) same ∙ cut-same limit text n))

-- Every text in a JSON value, the keys of its objects included, has only visible characters.
abbrev mutual
  pub JsonVisible : Unicode → Json → Type 0
  JsonVisible u (Json.str s) = AllVisible u s
  JsonVisible u (Json.array vs) = JsonsVisible u vs
  JsonVisible u (Json.object ms) = MembersVisible u ms
  JsonVisible u _ = Unit

  pub JsonsVisible : Unicode → Jsons → Type 0
  JsonsVisible u Jsons.nil = Unit
  JsonsVisible u (Jsons.cons v vs) = JsonVisible u v × JsonsVisible u vs

  pub MembersVisible : Unicode → Members → Type 0
  MembersVisible u Members.end = Unit
  MembersVisible u (Members.member k v ms) = AllVisible u k × JsonVisible u v × MembersVisible u ms

module _ (u : Unicode) (plain : AsciiIsPlain u) where
  put-Visible :
      (k : Str) (v : Json) (ms : Members)
      → AllVisible u k
      → JsonVisible u v
      → MembersVisible u ms
      → MembersVisible u (put k v ms)
  unfolding put
  put-Visible k v Members.end hk hv h = (hk, hv, tt)
  put-Visible k v (Members.member l w ms) hk hv h = go (str_eq k l) (put-Visible k v ms hk hv h.2)
    where
      go :
          (b : Bool)
          → MembersVisible u (put k v ms)
          → MembersVisible u (if b then Members.member l v ms else Members.member l w (put k v ms))
      go true rest = (h.0, hv, h.2)
      go false rest = (h.0, h.1, rest)

  module _ (limit : ℕ) where
    mutual
      unfolding clean_value

      value-JsonVisible :
          (v : Json) (location : Str) (flags : List SecurityFlag)
          → JsonVisible u (clean_value u limit v location flags).0
      value-JsonVisible (Json.str s) l f = clean_text-AllVisible u plain limit s l f
      value-JsonVisible (Json.array vs) l f = values-JsonsVisible vs l f
      value-JsonVisible (Json.object ms) l f = members-MembersVisible ms Members.end l f tt
      value-JsonVisible Json.null l f = tt
      value-JsonVisible (Json.bool b) l f = tt
      value-JsonVisible (Json.int n) l f = tt
      value-JsonVisible (Json.float x) l f = tt

      values-JsonsVisible :
          (vs : Jsons) (location : Str) (flags : List SecurityFlag)
          → JsonsVisible u (clean_values u limit vs location flags).0
      values-JsonsVisible Jsons.nil l f = tt
      values-JsonsVisible (Jsons.cons v vs) l f =
          (value-JsonVisible v l f, values-JsonsVisible vs l (clean_value u limit v l f).1)

      members-MembersVisible :
          (ms built : Members) (location : Str) (flags : List SecurityFlag)
          → MembersVisible u built
          → MembersVisible u (clean_members u limit ms built location flags).0
      members-MembersVisible Members.end built l f h = h
      members-MembersVisible (Members.member k v ms) built l f h =
          let k' = clean_text u limit k l f in
          let w = clean_value u limit v l k'.1 in
          members-MembersVisible ms (put k'.0 w.0 built) l w.1 (
            put-Visible k'.0 w.0 built (clean_text-AllVisible u plain limit k l f)
              (value-JsonVisible v l k'.1) h)

    -- Whatever the value is, every text of its cleaned form, the keys of its objects included, has only visible characters: hidden ones are dropped, and a text that is withheld or cut is replaced by ASCII of the program's own. The one hypothesis is that printable ASCII is of no hidden category.
    pub clean_value-JsonVisible :
        (v : Json) (location : Str) (flags : List SecurityFlag)
        → JsonVisible u (clean_value u limit v location flags).0
    clean_value-JsonVisible = value-JsonVisible
