-- ===== src/Validator/Takes.antt =====
-- What the helpers of the masking loop of services/query_validator.py take off a text.
use mcp_server_for_sql_agent.Validator.Scan.{
  break_line, find_split, Quoted, closed, broken, skip_quoted, prepend,
}
use mcp_server_for_sql_agent.Validator.Segments.{
  NoLineEnd, AtLineEnd, NotWithin, StartsWith, QuotedBody, nil, char, doubled,
}
use mcp_server_for_sql_agent.Prelude.{
  append_assoc, sym, suc, zero, none, Option, false, Bool, ◌∙◌, arith, ◌++◌, ◌∷◌, [], some, true,
  inr, inl, ap, refl, ◌≡◌, ℕ, drop, length, Bool-cases, ==_iff, ◌==◌,
}
use mcp_server_for_sql_agent.Prelude.Strs.{starts_with, Str}

pub starts_with-drop : (p s : Str) → starts_with p s ≡ true → s ≡ p ++ drop (length p) s
unfolding starts_with
starts_with-drop [] s h = refl
starts_with-drop (c ∷ p) [] h = cc
starts_with-drop (c ∷ p) (d ∷ s) h = ground (arith, starts_with-drop p s)

-- What `break_line` promises.
pub record Broken (s line rest : Str) : Type 0 where
  pub splits : s ≡ line ++ rest
  pub before : NoLineEnd line
  pub at_end : AtLineEnd rest

pub break_line-Broken : (s : Str) → Broken s (break_line s).0 (break_line s).1
unfolding break_line
break_line-Broken [] = record { splits = refl; before = tt; at_end = tt }
break_line-Broken (c ∷ s) =
    let b = break_line-Broken s in
    elim (Bool-cases (c == 10)) [
      | inl e ↦
          rw (e, break_line) (record { splits = refl; before = tt; at_end = (==_iff c 10).0 e })
      | inr e ↦
          rw (e, break_line)
            (record { splits = ap (◌∷◌ c) b.splits; before = (e, b.before); at_end = b.at_end })
    ]

drop-nil : (n : ℕ) → drop {A = ℕ} n [] ≡ []
drop-nil zero = refl
drop-nil (suc n) = refl

-- What `find_split` promises: the first occurrence.
pub record Split (p s a b : Str) : Type 0 where
  pub splits : s ≡ a ++ (p ++ b)
  pub first : NotWithin p a (p ++ b)

Split-here :
    (p s : Str) {a b : Str}
    → starts_with p s ≡ true
    → [] ≡ a
    → drop (length p) s ≡ b
    → Split p s a b
Split-here p s {a} {b} h ea eb =
    let whole : s ≡ p ++ b = starts_with-drop p s h ∙ ap (λ q. p ++ q) eb in
    rw (← ea) (record { splits = whole; first = tt })

Split-later :
    (p s : Str) (c : ℕ) {a b : Str}
    → starts_with p (c ∷ s) ≡ false
    → Split p s a b
    → Split p (c ∷ s) (c ∷ a) b
Split-later p s c h f = record { splits = ap (◌∷◌ c) f.splits; first = (rw f.splits at h, f.first) }

some_pair-eq :
    {x y a b : Str} → ◌≡◌ {A = Option (Str × Str)} (some (x, y)) (some (a, b)) → (x ≡ a) × (y ≡ b)
some_pair-eq h = ground arith

pub find_split-Split : (p s a b : Str) → find_split p s ≡ some (a, b) → Split p s a b
unfolding find_split
find_split-Split p [] a b h = elim (Bool-cases (starts_with p [])) [
  | inl e ↦
      let (ea, eb) = some_pair-eq (rw (e, find_split) at h) in
      Split-here p [] e ea (drop-nil (length p) ∙ eb)
  | inr e ↦ cc (rw (e, find_split) at h)
]
find_split-Split p (c ∷ s) a b h =
    go (starts_with p (c ∷ s)) (find_split p s) refl (find_split-Split p s) h
  where
    go :
        (t : Bool) (o : Option (Str × Str))
        → starts_with p (c ∷ s) ≡ t
        → ((a b : Str) → o ≡ some (a, b) → Split p s a b)
        → ◌≡◌ {A = Option (Str × Str)}
            (elim t [
              | true ↦ some ([], drop (length p) (c ∷ s))
              | false ↦ elim o [ none ↦ none | some (a, b) ↦ some (c ∷ a, b) ]
            ])
            (some (a, b))
        → Split p (c ∷ s) a b
    go true o e later x = let (ea, eb) = some_pair-eq x in Split-here p (c ∷ s) e ea eb
    go false none e later x = cc
    go false (some (a', b')) e later x =
        let (ea, eb) = some_pair-eq x in rw (← ea, ← eb) (Split-later p s c e (later a' b' refl))

pub record Closed (close : ℕ) (s body rest : Str) : Type 0 where
  pub inside : Str
  pub ends : body ≡ inside ++ close ∷ []
  pub splits : s ≡ body ++ rest
  pub well : QuotedBody close inside
  pub stops : ¬ StartsWith close rest

closed-eq : {x y a b : Str} → closed x y ≡ closed a b → (x ≡ a) × (y ≡ b)
closed-eq h = ground arith

Closed-here :
    (close c : ℕ) (s : Str) {body rest : Str}
    → c ≡ close
    → ¬ StartsWith close s
    → closed (c ∷ []) s ≡ closed body rest
    → Closed close (c ∷ s) body rest
Closed-here close c s {body} {rest} e n h =
    let (eb, er) = closed-eq h in
    record {
      inside = [];
      ends = sym eb ∙ ap (λ q. q ∷ []) e;
      splits = ap (λ q. c ∷ q) er ∙ ap (λ q. q ++ rest) eb;
      well = nil;
      stops = rw er at n;
    }

-- What stands before the rest of a quoted section is taken up into its body.
Closed-prepend :
    (close : ℕ) (front s : Str) (q : Quoted) {body rest : Str}
    → ((inside : Str) → QuotedBody close inside → QuotedBody close (front ++ inside))
    → ((body rest : Str) → q ≡ closed body rest → Closed close s body rest)
    → prepend front q ≡ closed body rest
    → Closed close (front ++ s) body rest
Closed-prepend close front s (broken r) grow later h = cc
Closed-prepend close front s (closed b r) grow later h =
    let (eb, er) = closed-eq h in
    let f = later b r refl in
    rw (← eb, ← er)
      (record {
        inside = front ++ f.inside;
        ends = rw append_assoc (ap (λ q. front ++ q) f.ends);
        splits = rw append_assoc (ap (λ q. front ++ q) f.splits);
        well = grow f.inside f.well;
        stops = f.stops;
      })

pub skip_quoted-Closed :
    (close : ℕ) (s body rest : Str)
    → skip_quoted close s ≡ closed body rest
    → Closed close s body rest
unfolding skip_quoted
skip_quoted-Closed close [] body rest h = cc
skip_quoted-Closed close (c ∷ []) body rest h = elim (Bool-cases (c == b'\\')) [
  | inl e ↦ cc (rw (e, skip_quoted) at h)
  | inr e ↦ elim (Bool-cases (c == close)) [
    | inl e' ↦
        Closed-here close c [] ((==_iff c close).0 e') (λ x. x) (rw (e, e', skip_quoted) at h)
    | inr e' ↦ cc (rw (e, e', skip_quoted) at h)
  ]
]
skip_quoted-Closed close (c ∷ d ∷ s) body rest h = elim (Bool-cases (c == b'\\')) [
  | inl e ↦ cc (rw (e, skip_quoted) at h)
  | inr e ↦ elim (Bool-cases (c == close)) [
    | inl e' ↦ elim (Bool-cases (d == close)) [
      | inl e'' ↦
          Closed-prepend close (c ∷ d ∷ []) s (skip_quoted close s)
            (λ x y. doubled e ((==_iff c close).0 e') ((==_iff d close).0 e'') y)
            (skip_quoted-Closed close s) (rw (e, e', e'', skip_quoted) at h)
      | inr e'' ↦
          Closed-here close c (d ∷ s) ((==_iff c close).0 e') (λ x. cc (e'', (==_iff d close).1 x))
            (rw (e, e', e'', skip_quoted) at h)
    ]
    | inr e' ↦
        Closed-prepend close (c ∷ []) (d ∷ s) (skip_quoted close (d ∷ s)) (λ x y. char e e' y)
          (skip_quoted-Closed close (d ∷ s)) (rw (e, e', skip_quoted) at h)
  ]
]
