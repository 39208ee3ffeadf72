-- ===== src/Cache/Fingerprint.antt =====
-- The key of a cached permission answer: `subjects_fingerprint` of cache/helpers.py.
use mcp_server_for_sql_agent.Models.{Subject, SubjectType, user, role}
use mcp_server_for_sql_agent.Cache.Stored.{
  subject_text, join_lines, names_of, sorted_subjects, subjects_fingerprint,
}
use mcp_server_for_sql_agent.Validator.Scan.{break_line}
use mcp_server_for_sql_agent.Validator.Segments.{NoLineEnd}
use mcp_server_for_sql_agent.Prelude.Filters.{map-IsIn}
use mcp_server_for_sql_agent.Prelude.Sorting.{sorted, sorted-IsIn}
use mcp_server_for_sql_agent.Prelude.Strs.{starts_with, Str, codes}
use mcp_server_for_sql_agent.Prelude.{
  List, [], ◌∷◌, ◌++◌, map, take, drop, ◌≡◌, ◌≢◌, sym, ap, ◌∙◌, refl, subst, IsIn, IsIn-map,
  IsIn-append, IsIn-append_left, IsIn-append_right, All, inl, inr, ◌↔◌, false, true,
}

-- The text that is digested.
abbrev pub subjects_text : List Subject → Str
subjects_text ss = join_lines (map subject_text (sorted_subjects ss))

-- What a line that has no line end becomes: the text before the first one.
break_line-whole : (x : Str) → NoLineEnd x → break_line x ≡ (x, [])
unfolding break_line
break_line-whole [] h = refl
break_line-whole (c ∷ x) h = rw (h.0, break_line, break_line-whole x h.1) refl

break_line-first : (x r : Str) → NoLineEnd x → break_line (x ++ (10 ∷ r)) ≡ (x, 10 ∷ r)
unfolding break_line
break_line-first [] r h = refl
break_line-first (c ∷ x) r h = rw (h.0, break_line, break_line-first x r h.1) refl

-- A line that can be joined and found again.
abbrev Line : Str → Type 0
Line x = NoLineEnd x × (x ≢ [])

append-nonempty : (x r : Str) → x ≢ [] → x ++ r ≢ []
append-nonempty [] r n h = n refl
append-nonempty (c ∷ x) r n h = cc

join-nonempty : (x : Str) (xs : List Str) → x ≢ [] → join_lines (x ∷ xs) ≢ []
unfolding join_lines
join-nonempty x [] n h = n h
join-nonempty x (y ∷ ys) n h = append-nonempty x _ n h

-- Lines that are joined to the same text are the same lines.
join_lines-Injective :
    (xs ys : List Str) → All Line xs → All Line ys → join_lines xs ≡ join_lines ys → xs ≡ ys
unfolding join_lines
join_lines-Injective [] [] p q h = refl
join_lines-Injective [] (y ∷ ys) p q h = absurd (join-nonempty y ys q.0.1 (sym h))
join_lines-Injective (x ∷ xs) [] p q h = absurd (join-nonempty x xs p.0.1 h)
join_lines-Injective (x ∷ []) (y ∷ []) p q h = ap (λ t. t ∷ []) h
join_lines-Injective (x ∷ []) (y ∷ z ∷ ys) p q h =
    let e =
      sym (break_line-whole x p.0.0)
      ∙ ap break_line h
      ∙ break_line-first y (join_lines (z ∷ ys)) q.0.0 in
    let f = ap (λ t. t.1) e in cc
join_lines-Injective (x ∷ w ∷ xs) (y ∷ []) p q h =
    let e =
      sym (break_line-first x (join_lines (w ∷ xs)) p.0.0)
      ∙ ap break_line h
      ∙ break_line-whole y q.0.0 in
    let f = ap (λ t. t.1) e in cc
join_lines-Injective (x ∷ w ∷ xs) (y ∷ z ∷ ys) p q h =
    let e =
      sym (break_line-first x (join_lines (w ∷ xs)) p.0.0)
      ∙ ap break_line h
      ∙ break_line-first y (join_lines (z ∷ ys)) q.0.0 in
    let tails = join_lines-Injective (w ∷ xs) (z ∷ ys) p.1 q.1 (ap (λ t. drop 1 t.1) e) in
    ap (λ t. t.0 ∷ (w ∷ xs)) e ∙ ap (◌∷◌ y) tails

users-ne-roles : {n k : Str} → codes "user:" ++ n ≢ codes "role:" ++ k
unfolding starts_with
users-ne-roles h = let f : true ≡ false = ap (starts_with (codes "u")) h in cc

subject_text-Injective : (s t : Subject) → subject_text s ≡ subject_text t → s ≡ t
unfolding subject_text
subject_text-Injective (user, n) (user, k) h = ap (λ q. (user, drop 5 q)) h
subject_text-Injective (role, n) (role, k) h = ap (λ q. (role, drop 5 q)) h
subject_text-Injective (user, n) (role, k) h = absurd (users-ne-roles h)
subject_text-Injective (role, n) (user, k) h = absurd (users-ne-roles (sym h))

subject_text-Line : (s : Subject) → NoLineEnd s.1 → Line (subject_text s)
unfolding subject_text
subject_text-Line (user, n) h = ((refl, (refl, (refl, (refl, (refl, h))))), λ e. cc)
subject_text-Line (role, n) h = ((refl, (refl, (refl, (refl, (refl, h))))), λ e. cc)

texts-Injective : (ss ts : List Subject) → map subject_text ss ≡ map subject_text ts → ss ≡ ts
texts-Injective [] [] h = refl
texts-Injective [] (t ∷ ts) h = cc h
texts-Injective (s ∷ ss) [] h = cc h
texts-Injective (s ∷ ss) (t ∷ ts) h =
    let a : subject_text s ≡ subject_text t = cc h in
    let b : map subject_text ss ≡ map subject_text ts = cc h in
    ap (λ q. q ∷ ss) (subject_text-Injective s t a) ∙ ap (◌∷◌ t) (texts-Injective ss ts b)

names_of-IsIn :
    (kind : SubjectType) (n : Str) (ss : List Subject)
    → IsIn n (names_of kind ss) ↔ IsIn (kind, n) ss
unfolding names_of
names_of-IsIn kind n [] = (λ i. i, λ i. i)
names_of-IsIn user n ((user, k) ∷ ss) =
    let (a, b) = names_of-IsIn user n ss in
    (
      λ i. elim i [ inl e ↦ inl (ap (λ q. (user, q)) e) | inr j ↦ inr (a j) ],
      λ i. elim i [ inl e ↦ inl (ap (λ q. q.1) e) | inr j ↦ inr (b j) ],
    )
names_of-IsIn role n ((role, k) ∷ ss) =
    let (a, b) = names_of-IsIn role n ss in
    (
      λ i. elim i [ inl e ↦ inl (ap (λ q. (role, q)) e) | inr j ↦ inr (a j) ],
      λ i. elim i [ inl e ↦ inl (ap (λ q. q.1) e) | inr j ↦ inr (b j) ],
    )
names_of-IsIn user n ((role, k) ∷ ss) =
    let (a, b) = names_of-IsIn user n ss in
    (λ i. inr (a i), λ i. elim i [ inl e ↦ cc (ap (λ q. q.0) e) | inr j ↦ b j ])
names_of-IsIn role n ((user, k) ∷ ss) =
    let (a, b) = names_of-IsIn role n ss in
    (λ i. inr (a i), λ i. elim i [ inl e ↦ cc (ap (λ q. q.0) e) | inr j ↦ b j ])

-- The subjects of one type, sorted by name.
kind-IsIn :
    (kind : SubjectType) (s : Subject) (ss : List Subject)
    → IsIn s (map (λ n. (kind, n)) (sorted (names_of kind ss)))
    → IsIn s ss
kind-IsIn kind s ss i =
    let (n, j, e) = map-IsIn (λ (q : Str). (kind, q)) s (sorted (names_of kind ss)) i in
    subst (λ q. IsIn q ss) (sym e)
      ((names_of-IsIn kind n ss).0 ((sorted-IsIn n (names_of kind ss)).0 j))

IsIn-kind :
    (kind : SubjectType) (n : Str) (ss : List Subject)
    → IsIn {A = Subject} (kind, n) ss
    → IsIn {A = Subject} (kind, n) (map (λ q. (kind, q)) (sorted (names_of kind ss)))
IsIn-kind kind n ss i =
    IsIn-map (λ (q : Str). (kind, q)) n (sorted (names_of kind ss))
      ((sorted-IsIn n (names_of kind ss)).1 ((names_of-IsIn kind n ss).1 i))

sorted_subjects-IsIn : (s : Subject) (ss : List Subject) → IsIn s (sorted_subjects ss) ↔ IsIn s ss
unfolding sorted_subjects
sorted_subjects-IsIn s ss = (
  λ i. elim (IsIn-append s (map (λ n. (role, n)) (sorted (names_of role ss))) _ i) [
    | inl j ↦ kind-IsIn role s ss j
    | inr j ↦ kind-IsIn user s ss j
  ],
  back s,
)
  where
    back : (s : Subject) → IsIn s ss → IsIn s (sorted_subjects ss)
    back (role, n) i =
        IsIn-append_left (role, n) _ (map (λ n. (user, n)) (sorted (names_of user ss)))
          (IsIn-kind role n ss i)
    back (user, n) i =
        IsIn-append_right (user, n) (map (λ n. (role, n)) (sorted (names_of role ss))) _
          (IsIn-kind user n ss i)

lines-All :
    (ss : List Subject)
    → ((s : Subject) → IsIn s ss → NoLineEnd s.1)
    → All Line (map subject_text ss)
lines-All [] h = tt
lines-All (s ∷ ss) h = (subject_text-Line s (h s (inl refl)), lines-All ss (λ t i. h t (inr i)))

-- Two lists of subjects, no name of which has a line end, share a fingerprint only if they have the same subjects, provided that their two texts are no collision of the digest as it is cut.
pub fingerprint-SameSubjects :
    (digest : Str → Str) (ss ts : List Subject)
    → (take 32 (digest (subjects_text ss)) ≡ take 32 (digest (subjects_text ts))
        → subjects_text ss ≡ subjects_text ts)
    → ((s : Subject) → IsIn s ss → NoLineEnd s.1)
    → ((s : Subject) → IsIn s ts → NoLineEnd s.1)
    → subjects_fingerprint digest ss ≡ subjects_fingerprint digest ts
    → (s : Subject) → IsIn s ss ↔ IsIn s ts
unfolding subjects_fingerprint
fingerprint-SameSubjects digest ss ts differs hs ht h s =
    let lines : (rs : List Subject)
        → ((r : Subject) → IsIn r rs → NoLineEnd r.1)
        → All Line (map subject_text (sorted_subjects rs)) =
      λ rs x. lines-All (sorted_subjects rs) (λ r i. x r ((sorted_subjects-IsIn r rs).0 i)) in
    let same : sorted_subjects ss ≡ sorted_subjects ts =
      texts-Injective _ _ (join_lines-Injective _ _ (lines ss hs) (lines ts ht) (differs h)) in
    let (a, b) = sorted_subjects-IsIn s ss in
    let (c, d) = sorted_subjects-IsIn s ts in
    (λ i. c (subst (λ q. IsIn s q) same (b i)), λ i. a (subst (λ q. IsIn s q) (sym same) (d i)))
