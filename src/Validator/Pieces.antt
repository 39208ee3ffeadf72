-- ===== src/Validator/Pieces.antt =====
-- What a round of the loop of `_mask_comments_and_quotes` promises, and what the first characters of a
-- text say of the piece there.
use mcp_server_for_sql_agent.Unicode.{Unicode}
use mcp_server_for_sql_agent.Regex.{both, Matches}
use mcp_server_for_sql_agent.Validator.Patterns.{dollar_tag_re}
use mcp_server_for_sql_agent.Validator.Scan.{emit}
use mcp_server_for_sql_agent.Validator.Segments.{opens_line_comment, Segment}
use mcp_server_for_sql_agent.Prelude.{
  ◌&&◌, not, ◌≢◌, Option, false, Bool, arith, ◌++◌, ◌∷◌, [], true, refl, ◌≡◌, ℕ, drop, length, ◌==◌,
}
use mcp_server_for_sql_agent.Prelude.Strs.{str_eq, codes, starts_with, Str}

-- What one round promises.
pub record Piece (u : Unicode) (dialect : Str) (prev : Option ℕ) (t shown raw rest : Str)
    : Type 0 where
  pub splits : t ≡ raw ++ rest
  pub segment : Segment u dialect prev raw rest shown
  pub nonempty : raw ≢ []

pub emit-eq : {a b c x y z : Str} → emit a b c ≡ emit x y z → (a ≡ x) × (b ≡ y) × (c ≡ z)
emit-eq h = ground arith

pub cons-ne-nil : (c : ℕ) (s : Str) → c ∷ s ≢ []
cons-ne-nil c s h = cc

pub append-ne-nil : (a b : Str) → a ≢ [] → a ++ b ≢ []
append-ne-nil [] b n h = n refl
append-ne-nil (c ∷ a) b n h = cc

pub drop-append : (a b : Str) → drop (length a) (a ++ b) ≡ b
drop-append [] b = refl
drop-append (c ∷ a) b = drop-append a b

pub tag-ne-nil :
    (isw : ℕ → Bool) {p : Option ℕ} {m t : Str} → Matches isw dollar_tag_re p m t → m ≢ []
unfolding dollar_tag_re
tag-ne-nil isw (both a b (Matches.char e) y) h = cc

pub tag-head :
    (isw : ℕ → Bool) {p : Option ℕ} {m t : Str}
    → Matches isw dollar_tag_re p m t
    → (c : ℕ) × (k : Str) × (m ≡ c ∷ k) × ((c == b'$') ≡ true)
unfolding dollar_tag_re
tag-head isw (both a b (Matches.char {c = c} e) y) = (c, b, refl, e)

pub head-eq : {c d : ℕ} {s t : Str} → c ∷ s ≡ d ∷ t → c ≡ d
head-eq h = cc h

pub dollar-head :
    (c : ℕ) (b : Bool) → (c == b'$' && not b) ≡ false → b ≡ false → (c == b'$') ≡ false
dollar-head c b h e = ground arith

pub and-not-false : (a b : Bool) → (a && not b) ≡ true → b ≡ false
and-not-false a b h = ground arith

pub dashes-head : (c : ℕ) (s : Str) → starts_with (codes "--") (c ∷ s) ≡ true → (c == 10) ≡ false
unfolding starts_with
dashes-head c [] h = ground arith
dashes-head c (d ∷ s) h = ground arith

pub hash-head : (c : ℕ) (b : Bool) → (c == b'#' && b) ≡ true → (c == 10) ≡ false
hash-head c b h = ground arith

pub hash-opens :
    (c : ℕ) (s dialect : Str)
    → (c == b'#' && str_eq dialect (codes "mysql")) ≡ true
    → opens_line_comment dialect (c ∷ s) ≡ true
unfolding starts_with
hash-opens c s dialect h = ground arith

pub no_hash-opens :
    (c : ℕ) (s dialect : Str)
    → starts_with (codes "--") (c ∷ s) ≡ false
    → (c == b'#' && str_eq dialect (codes "mysql")) ≡ false
    → opens_line_comment dialect (c ∷ s) ≡ false
unfolding starts_with
no_hash-opens c s dialect d h = ground arith
