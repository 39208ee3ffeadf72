-- ===== src/Validator/Mask.antt =====
-- `_mask_comments_and_quotes`: the whole loop. It recurs on what is left of the text, which each
-- round makes shorter, so it ends on every text and takes no fuel.
use mathlib.Core.WellFounded.{Acc}
use mcp_server_for_sql_agent.Unicode.{Unicode}
use mcp_server_for_sql_agent.Errors.{ok-eq, Result, ok, reject, ◌>>=◌, Rejection, >>=-eq-ok}
use mcp_server_for_sql_agent.Validator.Scan.{
  Round, Quoted, closed, broken, skip_quoted, skip_to_line_end, dashes, block_comment, quoted,
  dollar, stop, refuse, emit, scan,
}
use mcp_server_for_sql_agent.Validator.Segments.{Segments, done, piece}
use mcp_server_for_sql_agent.Validator.ScanLaws.{scan-Piece}
use mcp_server_for_sql_agent.Validator.Pieces.{emit-eq}
use mcp_server_for_sql_agent.Prelude.{
  false, true, Bool, subst, sym, if◌then◌else◌, ◌==◌, arith, ◌++◌, ◌∷◌, [], none, Option, ◌≢◌, ap,
  refl, ◌≡◌, ◌<◌, suc, zero, ℕ, length-append, length,
}
use mcp_server_for_sql_agent.Prelude.Strs.{codes, Str}
use mcp_server_for_sql_agent.Regex.{last_of}

abbrev pub Shorter : Str → Str → Type 0
Shorter a b = length a < length b

Acc-shorter : (k : ℕ) (s : Str) → length s < k → Acc Shorter s
Acc-shorter zero s h = elim h [ ]
Acc-shorter (suc k) s h = Acc.intro s (λ a lt. Acc-shorter k a (omega arith))

nonempty-shorter : (t raw rest : Str) → t ≡ raw ++ rest → raw ≢ [] → Shorter rest t
nonempty-shorter t [] rest e n = absurd (n refl)
nonempty-shorter t (c ∷ raw) rest e n = omega (arith, ap length e, length-append raw rest)

pub scan-Shorter :
    (u : Unicode) (dialect : Str) (prev : Option ℕ) (t shown raw rest : Str)
    → scan u dialect prev t ≡ emit shown raw rest
    → Shorter rest t
scan-Shorter u dialect prev t shown raw rest e =
    let p = scan-Piece u dialect prev t shown raw rest e in
    nonempty-shorter t raw rest p.splits p.nonempty

-- What a round does to the loop; `again` is the loop on the rest.
follow : (r : Round) → ((shown raw rest : Str) → r ≡ emit shown raw rest → Result Str) → Result Str
follow stop again = ok []
follow (refuse r) again = reject r
follow (emit shown raw rest) again = do out ← again shown raw rest refl; ok (shown ++ out)

mask_loop : (u : Unicode) (dialect : Str) (prev : Option ℕ) (t : Str) → Acc Shorter t → Result Str
unfolding follow
mask_loop u dialect prev t (Acc.intro _ smaller) =
    follow (scan u dialect prev t) (λ shown raw rest e.
      mask_loop u dialect (last_of prev raw) rest
        (smaller rest (scan-Shorter u dialect prev t shown raw rest e)))

unfoldable pub mask_comments_and_quotes : Unicode → Str → Str → Result Str
unfolding mask_loop scan Acc-shorter
mask_comments_and_quotes u sql dialect =
    mask_loop u dialect none sql (Acc-shorter (suc (length sql)) sql (omega arith))

-- The runs of the loop, round by round.
pub data Masks (u : Unicode) (dialect : Str) : Option ℕ → Str → Result Str → Type 0 where
  at_end : {prev : Option ℕ} → Masks u dialect prev [] (ok [])
  refused :
      {prev : Option ℕ} {t : Str} (r : Rejection)
      → scan u dialect prev t ≡ refuse r
      → Masks u dialect prev t (reject r)
  round :
      {prev : Option ℕ} {t : Str} {res : Result Str} (shown raw rest : Str)
      → scan u dialect prev t ≡ emit shown raw rest
      → Masks u dialect (last_of prev raw) rest res
      → Masks u dialect prev t (do out ← res; ok (shown ++ out))

skip_to_line_end-live : (t : Str) → skip_to_line_end t ≢ stop
unfolding skip_to_line_end
skip_to_line_end-live t h = cc

dashes-live : (dialect t : Str) → dashes dialect t ≢ stop
unfolding dashes skip_to_line_end
dashes-live dialect t h = ground arith

block_comment-live : (t : Str) → block_comment t ≢ stop
unfolding block_comment
block_comment-live t h = ground arith

round-live :
    (o : Quoted) (q : ℕ)
    → elim o [ closed body rest ↦ emit (codes "?") (q ∷ body) rest | broken r ↦ refuse r ] ≢ stop
round-live (closed body rest) q h = cc
round-live (broken r) q h = cc

emit-live : (a b c : Str) → emit a b c ≢ stop
emit-live a b c h = cc h

if-live : (b : Bool) {x y : Round} → x ≢ stop → y ≢ stop → (if b then x else y) ≢ stop
if-live true hx hy = hx
if-live false hx hy = hy

quoted-live : (q close : ℕ) (s : Str) → quoted q close s ≢ stop
unfolding quoted
quoted-live q close s = round-live (skip_quoted close s) q

dollar-live : (u : Unicode) (prev : Option ℕ) (c : ℕ) (s : Str) → dollar u prev (c ∷ s) ≢ stop
unfolding dollar
dollar-live u prev c s h = ground arith

scan-stop :
    (u : Unicode) (dialect : Str) (prev : Option ℕ) (t : Str)
    → scan u dialect prev t ≡ stop
    → t ≡ []
unfolding scan
scan-stop u dialect prev [] h = refl
scan-stop u dialect prev (c ∷ s) h = absurd (
    if-live _ (dashes-live dialect (c ∷ s))
      (if-live _ (skip_to_line_end-live (c ∷ s)) (
        if-live _ (block_comment-live (c ∷ s)) (
          if-live _ (quoted-live c (if c == b'[' then b']' else c) s)
            (if-live _ (dollar-live u prev c s) (emit-live _ _ _)))))
      h)

mask_loop-Masks :
    (u : Unicode) (dialect : Str) (prev : Option ℕ) (t : Str) (w : Acc Shorter t)
    → Masks u dialect prev t (mask_loop u dialect prev t w)
unfolding mask_loop follow
mask_loop-Masks u dialect prev t (Acc.intro _ smaller) =
    go (scan u dialect prev t) refl
      (λ shown raw rest e.
        mask_loop u dialect (last_of prev raw) rest
          (smaller rest (scan-Shorter u dialect prev t shown raw rest e)))
      (λ shown raw rest e.
        mask_loop-Masks u dialect (last_of prev raw) rest
          (smaller rest (scan-Shorter u dialect prev t shown raw rest e)))
  where
    go :
        (r : Round)
        → (e : scan u dialect prev t ≡ r)
        → (again : (shown raw rest : Str) → r ≡ emit shown raw rest → Result Str)
        → ((shown raw rest : Str) (e' : r ≡ emit shown raw rest)
            → Masks u dialect (last_of prev raw) rest (again shown raw rest e'))
        → Masks u dialect prev t (follow r again)
    go stop e again ih = rw (scan-stop u dialect prev t e) at_end
    go (refuse r) e again ih = refused r e
    go (emit shown raw rest) e again ih = round shown raw rest e (ih shown raw rest refl)

-- The masking is a run of the rounds.
pub mask-Masks :
    (u : Unicode) (sql dialect : Str)
    → Masks u dialect none sql (mask_comments_and_quotes u sql dialect)
unfolding mask_comments_and_quotes
mask-Masks u sql dialect =
    mask_loop-Masks u dialect none sql (Acc-shorter (suc (length sql)) sql (omega arith))

follow-refuse :
    (r : Round) (why : Rejection)
    (again : (shown raw rest : Str) → r ≡ emit shown raw rest → Result Str)
    → r ≡ refuse why
    → follow r again ≡ reject why
unfolding follow
follow-refuse stop why again e = cc
follow-refuse (refuse r) why again e = cc e
follow-refuse (emit a b c) why again e = cc

follow-emit :
    (r : Round) (shown raw rest : Str) (res : Result Str)
    (again : (shown raw rest : Str) → r ≡ emit shown raw rest → Result Str)
    → r ≡ emit shown raw rest
    → ((a b c : Str) (e : r ≡ emit a b c) → b ≡ raw → c ≡ rest → again a b c e ≡ res)
    → follow r again ≡ (do out ← res; ok (shown ++ out))
unfolding follow
follow-emit stop shown raw rest res again e ih = cc
follow-emit (refuse r) shown raw rest res again e ih = cc
follow-emit (emit a b c) shown raw rest res again e ih =
    let (ea, eb, ec) = emit-eq e in
    rw (ih a b c refl eb ec) (ap (λ q. res >>= λ out. ok (q ++ out)) ea)

Masks-loop :
    {u : Unicode} {dialect : Str} {prev : Option ℕ} {t : Str} {r : Result Str}
    → Masks u dialect prev t r
    → (w : Acc Shorter t) → mask_loop u dialect prev t w ≡ r
unfolding mask_loop
Masks-loop at_end (Acc.intro _ smaller) = unfold follow scan in refl
Masks-loop (refused r e) (Acc.intro _ smaller) = follow-refuse _ r _ e
Masks-loop {u} {dialect} {prev} (round {res = res} shown raw rest e m) (Acc.intro _ smaller) =
    follow-emit _ shown raw rest res _ e (λ a b c e' eb ec.
      subst (λ q. (w : Acc Shorter c) → mask_loop u dialect (last_of prev q) c w ≡ res) (sym eb)
        (subst (λ q. (w : Acc Shorter q) → mask_loop u dialect (last_of prev raw) q w ≡ res)
          (sym ec) (Masks-loop m))
        (smaller c (scan-Shorter u dialect prev _ a b c e')))

-- The rounds decide the answer: a run of them from the start ends as the function does.
pub Masks-mask :
    {u : Unicode} {sql dialect : Str} {r : Result Str}
    → Masks u dialect none sql r
    → mask_comments_and_quotes u sql dialect ≡ r
unfolding mask_comments_and_quotes
Masks-mask {sql = sql} m = Masks-loop m (Acc-shorter (suc (length sql)) sql (omega arith))

Masks-Segments :
    {u : Unicode} {dialect : Str} {prev : Option ℕ} {t : Str} {r : Result Str} (out : Str)
    → Masks u dialect prev t r
    → r ≡ ok out
    → Segments u dialect prev t out
Masks-Segments {u} {dialect} out at_end h = rw (← (ok-eq h)) done
Masks-Segments {u} {dialect} out (refused r e) h = cc
Masks-Segments {u} {dialect} {prev} {t} out (round {res = res} shown raw rest e m) h =
    let p = scan-Piece u dialect prev t shown raw rest e in
    let (o, d, f) = >>=-eq-ok res (λ o. ok (shown ++ o)) h in
    rw (p.splits, ← (ok-eq f)) (piece raw rest shown o p.segment (Masks-Segments o m d))

pub mask-Segments :
    (u : Unicode) (sql dialect out : Str)
    → mask_comments_and_quotes u sql dialect ≡ ok out
    → Segments u dialect none sql out
mask-Segments u sql dialect out h = Masks-Segments out (mask-Masks u sql dialect) h
