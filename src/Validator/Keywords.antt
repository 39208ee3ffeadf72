-- ===== src/Validator/Keywords.antt =====
-- The keyword and function checks of `_check_text` of services/query_validator.py.
use mcp_server_for_sql_agent.Unicode.{Unicode, is_word_char}
use mcp_server_for_sql_agent.Errors.{reject_if-eq-ok, >>-eq-ok, Rejection, ok}
use mcp_server_for_sql_agent.Regex.{
  search_from, seq, text_of, any_pattern, word_boundary, search, search-Complete, Matches, both,
  left, right, boundary, last_of, head_of, at_boundary, nil, char,
}
use mcp_server_for_sql_agent.Validator.Patterns.{
  locking_re, lower_letter, same_letter, whole_word, forbidden_keywords, dangerous_functions,
}
use mcp_server_for_sql_agent.Validator.Validate.{check_text, reject_match}
use mcp_server_for_sql_agent.Prelude.{
  false, sym, append-nil, map, ◌++◌, ◌∷◌, [], List, some, none, Option, true, Bool, inr, inl, ◌⊎◌,
  ◌≢◌, subst, refl, ◌≡◌, ℕ, ==_refl,
}
use mcp_server_for_sql_agent.Prelude.Strs.{char_in, Str}

-- `w` is one of the words `ws`, in any mixture of cases.
abbrev pub IsOneOf : List Str → Str → Type 0
IsOneOf [] w = ⊥
IsOneOf (k ∷ ws) w = (map lower_letter w ≡ k) ⊎ IsOneOf ws w

text_of-Matches :
    (isw : ℕ → Bool) (w : Str) (p : Option ℕ) (t : Str)
    → Matches isw (text_of same_letter (map lower_letter w)) p w t
text_of-Matches isw [] p t = nil
text_of-Matches isw (c ∷ w) p t =
    both (c ∷ []) w (char (==_refl (lower_letter c))) (text_of-Matches isw w (some c) t)

pub any_pattern-Matches :
    (isw : ℕ → Bool) (ws : List Str) (w : Str) (p : Option ℕ) (t : Str)
    → IsOneOf ws w
    → Matches isw (any_pattern (map (text_of same_letter) ws)) p w t
any_pattern-Matches isw [] w p t h = absurd h
any_pattern-Matches isw (k ∷ ws) w p t (inl e) =
    left (subst (λ q. Matches isw (text_of same_letter q) p w t) e (text_of-Matches isw w p t))
any_pattern-Matches isw (k ∷ ws) w p t (inr h) = right (any_pattern-Matches isw ws w p t h)

-- The word `w` stands in `code` after `a` and before `b`, as a word of its own.
pub record StandsIn (isw : ℕ → Bool) (code a w b : Str) : Type 0 where
  pub splits : code ≡ a ++ (w ++ b)
  pub starts : at_boundary isw (last_of none a) (head_of (w ++ b)) ≡ true
  pub ends : at_boundary isw (last_of (last_of none a) w) (head_of b) ≡ true

whole_word-Matches :
    (isw : ℕ → Bool) (ws : List Str) (p : Option ℕ) (w b : Str)
    → IsOneOf ws w
    → at_boundary isw p (head_of (w ++ b)) ≡ true
    → at_boundary isw (last_of p w) (head_of b) ≡ true
    → Matches isw (whole_word ws) p w b
unfolding whole_word
whole_word-Matches isw ws p w b h s e =
    let ending : Matches isw word_boundary (last_of p w) [] b = boundary e in
    let words = any_pattern (map (text_of same_letter) ws) in
    let rest : Matches isw (seq words word_boundary) p (w ++ []) b =
      both w [] (any_pattern-Matches isw ws w p b h) ending in
    both [] w (boundary s)
      (subst (λ q. Matches isw (seq words word_boundary) p q b) (append-nil w) rest)

pub search-whole_word :
    (isw : ℕ → Bool) (ws : List Str) (code a w b : Str)
    → IsOneOf ws w
    → StandsIn isw code a w b
    → search isw (whole_word ws) code ≢ none
unfolding search
search-whole_word isw ws code a w b h s =
    subst (λ q. search_from isw (whole_word ws) none q ≢ none) (sym s.splits)
      (search-Complete isw (whole_word ws) none a w b
        (whole_word-Matches isw ws (last_of none a) w b h s.starts s.ends))

reject_match-eq-ok :
    (o : Option Str) (why : Str → Rejection) → reject_match o why ≡ ok tt → o ≡ none
reject_match-eq-ok none why h = refl
reject_match-eq-ok (some m) why h = cc

-- What `_check_text` has found out about a text that it lets pass.
pub record TextOk (u : Unicode) (code : Str) : Type 0 where
  pub one_statement : char_in b';' code ≡ false
  pub no_keyword : search (is_word_char u) (whole_word forbidden_keywords) code ≡ none
  pub no_locking : search (is_word_char u) (locking_re u.is_space) code ≡ none
  pub no_function : search (is_word_char u) (whole_word dangerous_functions) code ≡ none

pub check_text-TextOk : (u : Unicode) (code : Str) → check_text u code ≡ ok tt → TextOk u code
unfolding check_text
check_text-TextOk u code h =
    let (a, h₁) = >>-eq-ok _ _ h in
    let (b, h₂) = >>-eq-ok _ _ h₁ in
    let (c, h₃) = >>-eq-ok _ _ h₂ in
    let (d, h₄) = >>-eq-ok _ _ h₃ in
    record {
      one_statement = reject_if-eq-ok _ _ a;
      no_keyword = reject_match-eq-ok _ _ c;
      no_locking = reject_match-eq-ok _ _ d;
      no_function = reject_match-eq-ok _ _ h₄;
    }

-- A text that passes `_check_text` holds none of the forbidden keywords and none of the dangerous functions as a word of its own, in whatever mixture of cases.
pub check_text-no_word :
    (u : Unicode) (code a w b : Str)
    → check_text u code ≡ ok tt
    → IsOneOf forbidden_keywords w ⊎ IsOneOf dangerous_functions w
    → ¬ StandsIn (is_word_char u) code a w b
check_text-no_word u code a w b h (inl k) s =
    search-whole_word (is_word_char u) forbidden_keywords code a w b k s
      (check_text-TextOk u code h).no_keyword
check_text-no_word u code a w b h (inr k) s =
    search-whole_word (is_word_char u) dangerous_functions code a w b k s
      (check_text-TextOk u code h).no_function
