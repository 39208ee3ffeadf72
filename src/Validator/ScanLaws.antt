-- ===== src/Validator/ScanLaws.antt =====
-- What a round of the loop of `_mask_comments_and_quotes` takes off the text.
use mcp_server_for_sql_agent.Unicode.{Unicode, is_word_char}
use mcp_server_for_sql_agent.Regex.{match_at, match_at-Found, match_at-Complete}
use mcp_server_for_sql_agent.Validator.Patterns.{dollar_tag_re}
use mcp_server_for_sql_agent.Validator.Scan.{
  refuse, emit, break_line, find_split, skip_to_line_end, Quoted, closed, broken, skip_quoted, scan,
  behind_name, no_space_after, quoted, dashes, block_comment, dollar,
}
use mcp_server_for_sql_agent.Validator.Segments.{
  closing, opens_quote, opens_line_comment, Segment, NoTag,
}
use mcp_server_for_sql_agent.Prelude.{
  ◌&&◌, not, if◌then◌else◌, append_assoc, sym, none, Option, false, Bool, ◌∙◌, ◌++◌, ◌∷◌, [], some,
  true, inr, inl, ap, refl, ◌≡◌, ℕ, drop, length, Bool-cases, ◌==◌,
}
use mcp_server_for_sql_agent.Prelude.Strs.{str_eq, codes, starts_with, Str}
use mcp_server_for_sql_agent.Errors.{
  space_after_dashes, unterminated_comment, unterminated_dollar_quote, executable_comment,
}
use mcp_server_for_sql_agent.Validator.Takes.{
  starts_with-drop, break_line-Broken, find_split-Split, skip_quoted-Closed,
}
use mcp_server_for_sql_agent.Validator.Pieces.{
  Piece, emit-eq, cons-ne-nil, append-ne-nil, drop-append, tag-ne-nil, tag-head, head-eq,
  dollar-head, and-not-false, dashes-head, hash-head, hash-opens, no_hash-opens,
}

module _ (u : Unicode) (dialect : Str) (prev : Option ℕ) where
  Piece-of :
      {t sh ra re shown raw rest : Str}
      → Piece u dialect prev t sh ra re
      → emit sh ra re ≡ emit shown raw rest
      → Piece u dialect prev t shown raw rest
  Piece-of x h = let (a, b, c) = emit-eq h in rw (← a, ← b, ← c) x

  -- A character that is no dollar opens no dollar-quoted section.
  other-NoTag :
      (c : ℕ) (s : Str)
      → (c == b'$' && not (behind_name u prev)) ≡ false
      → NoTag u dialect prev (c ∷ s)
  other-NoTag c s h before tag after e m =
      let (d, k, f, y) = tag-head (is_word_char u) m in
      let same : c ≡ d = head-eq (e ∙ ap (λ q. q ++ after) f) in
      let one_way : (c == b'$') ≡ true = ap (λ q. q == b'$') same ∙ y in
      let other_way : (c == b'$') ≡ false = dollar-head c _ h before in cc

  -- Neither does one where the search for a tag fails.
  none-NoTag :
      (t : Str) → match_at (is_word_char u) dollar_tag_re prev t ≡ none → NoTag u dialect prev t
  none-NoTag t h before tag after e m =
      match_at-Complete (is_word_char u) dollar_tag_re prev tag after m
        (ap (match_at (is_word_char u) dollar_tag_re prev) (sym e) ∙ h)

  skip_to_line_end-Piece :
      (c : ℕ) (s shown raw rest : Str)
      → opens_line_comment dialect (c ∷ s) ≡ true
      → (c == 10) ≡ false
      → skip_to_line_end (c ∷ s) ≡ emit shown raw rest
      → Piece u dialect prev (c ∷ s) shown raw rest
  unfolding skip_to_line_end
  skip_to_line_end-Piece c s shown raw rest opens n h =
      let b = break_line-Broken (c ∷ s) in
      Piece-of
        (record {
          splits = b.splits;
          segment = Segment.line_comment (rw (← b.splits) opens) b.before b.at_end refl;
          nonempty = rw (n, break_line) (cons-ne-nil c _);
        })
        h

  plain-Piece :
      (c : ℕ) (s shown raw rest : Str)
      → opens_quote dialect c ≡ false
      → opens_line_comment dialect (c ∷ s) ≡ false
      → starts_with (codes "/*") (c ∷ s) ≡ false
      → NoTag u dialect prev (c ∷ s)
      → emit (c ∷ []) (c ∷ []) s ≡ emit shown raw rest
      → Piece u dialect prev (c ∷ s) shown raw rest
  plain-Piece c s shown raw rest q l b n h =
      Piece-of
        (record {
          splits = refl;
          segment = Segment.plain c refl q l b n refl;
          nonempty = cons-ne-nil c [];
        })
        h

  block_comment-Piece :
      (t shown raw rest : Str)
      → starts_with (codes "/*") t ≡ true
      → block_comment t ≡ emit shown raw rest
      → Piece u dialect prev t shown raw rest
  unfolding block_comment
  block_comment-Piece t shown raw rest opens h =
      go (starts_with (codes "!") (drop 2 t)) (find_split (codes "*/") (drop 2 t)) refl h
    where
      go :
          (b : Bool) (o : Option (Str × Str))
          → find_split (codes "*/") (drop 2 t) ≡ o
          → (if b then refuse executable_comment else elim o [
            | none ↦ refuse unterminated_comment
            | some (inside, rest) ↦ emit (codes " ") (codes "/*" ++ (inside ++ codes "*/")) rest
          ])
            ≡ emit shown raw rest
          → Piece u dialect prev t shown raw rest
      go true o e x = cc
      go false none e x = cc
      go false (some (inside, after)) e x =
          let f = find_split-Split (codes "*/") (drop 2 t) inside after e in
          Piece-of
            (record {
              splits =
                  starts_with-drop (codes "/*") t opens
                  ∙ ap (λ q. codes "/*" ++ q)
                      (f.splits ∙ sym (append_assoc inside (codes "*/") after));
              segment = Segment.block_comment inside refl f.first refl;
              nonempty = cons-ne-nil _ _;
            })
            x

  quoted-Piece :
      (c : ℕ) (s shown raw rest : Str)
      → opens_quote dialect c ≡ true
      → quoted c (closing c) s ≡ emit shown raw rest
      → Piece u dialect prev (c ∷ s) shown raw rest
  unfolding quoted
  quoted-Piece c s shown raw rest opens h = go (skip_quoted (closing c) s) refl h
    where
      go :
          (q : Quoted)
          → skip_quoted (closing c) s ≡ q
          → elim q [ closed body rest ↦ emit (codes "?") (c ∷ body) rest | broken r ↦ refuse r ]
            ≡ emit shown raw rest
          → Piece u dialect prev (c ∷ s) shown raw rest
      go (broken r) e x = cc
      go (closed body after) e x =
          let f = skip_quoted-Closed (closing c) s body after e in
          Piece-of
            (record {
              splits = ap (◌∷◌ c) f.splits;
              segment = Segment.quoted c f.inside opens (ap (◌∷◌ c) f.ends) f.well f.stops refl;
              nonempty = cons-ne-nil c body;
            })
            x

  dollar-Piece :
      (c : ℕ) (s shown raw rest : Str)
      → behind_name u prev ≡ false
      → opens_quote dialect c ≡ false
      → opens_line_comment dialect (c ∷ s) ≡ false
      → starts_with (codes "/*") (c ∷ s) ≡ false
      → dollar u prev (c ∷ s) ≡ emit shown raw rest
      → Piece u dialect prev (c ∷ s) shown raw rest
  unfolding dollar
  dollar-Piece c s shown raw rest before q l b h =
      go (match_at (is_word_char u) dollar_tag_re prev (c ∷ s)) refl h
    where
      inner :
          (tag : Str) (o : Option (Str × Str))
          → match_at (is_word_char u) dollar_tag_re prev (c ∷ s) ≡ some tag
          → find_split tag (drop (length tag) (c ∷ s)) ≡ o
          → elim o [
            | none ↦ refuse unterminated_dollar_quote
            | some (inside, rest) ↦ emit (codes "?") (tag ++ (inside ++ tag)) rest
          ]
            ≡ emit shown raw rest
          → Piece u dialect prev (c ∷ s) shown raw rest
      inner tag none e e' x = cc
      inner tag (some (inside, end)) e e' x =
          let (after, d, m) = match_at-Found (is_word_char u) dollar_tag_re prev (c ∷ s) tag e in
          let behind : drop (length tag) (c ∷ s) ≡ after =
            ap (λ q. drop (length tag) q) d ∙ drop-append tag after in
          let f = find_split-Split tag (drop (length tag) (c ∷ s)) inside end e' in
          Piece-of
            (record {
              splits =
                  d
                  ∙ ap (λ q. tag ++ q) (sym behind ∙ f.splits ∙ sym (append_assoc inside tag end))
                  ∙ sym (append_assoc tag (inside ++ tag) end);
              segment = Segment.dollar_quoted tag inside after refl m f.first before refl;
              nonempty = append-ne-nil tag (inside ++ tag) (tag-ne-nil (is_word_char u) m);
            })
            x

      go :
          (o : Option Str)
          → match_at (is_word_char u) dollar_tag_re prev (c ∷ s) ≡ o
          → elim o [
            | none ↦ emit (c ∷ []) (c ∷ []) s
            | some tag ↦ elim (find_split tag (drop (length tag) (c ∷ s))) [
              | none ↦ refuse unterminated_dollar_quote
              | some (inside, rest) ↦ emit (codes "?") (tag ++ (inside ++ tag)) rest
            ]
          ]
            ≡ emit shown raw rest
          → Piece u dialect prev (c ∷ s) shown raw rest
      go none e x = plain-Piece c s shown raw rest q l b (none-NoTag (c ∷ s) e) x
      go (some tag) e x = inner tag (find_split tag (drop (length tag) (c ∷ s))) e refl x

  dashes-Piece :
      (c : ℕ) (s shown raw rest : Str)
      → starts_with (codes "--") (c ∷ s) ≡ true
      → dashes dialect (c ∷ s) ≡ emit shown raw rest
      → Piece u dialect prev (c ∷ s) shown raw rest
  unfolding dashes
  dashes-Piece c s shown raw rest dd h =
      go (str_eq dialect (codes "mysql") && no_space_after (drop 2 (c ∷ s))) h
    where
      go :
          (b : Bool)
          → (if b then refuse space_after_dashes else skip_to_line_end (c ∷ s))
            ≡ emit shown raw rest
          → Piece u dialect prev (c ∷ s) shown raw rest
      go true x = cc
      go false x = skip_to_line_end-Piece c s shown raw rest (rw dd) (dashes-head c s dd) x

  -- The last three tests of a round.
  other-Piece :
      (c : ℕ) (s shown raw rest : Str)
      → opens_line_comment dialect (c ∷ s) ≡ false
      → starts_with (codes "/*") (c ∷ s) ≡ false
      → (if opens_quote dialect c
          then quoted c (closing c) s
          else if c == b'$' && not (behind_name u prev)
          then dollar u prev (c ∷ s)
          else emit (c ∷ []) (c ∷ []) s)
        ≡ emit shown raw rest
      → Piece u dialect prev (c ∷ s) shown raw rest
  other-Piece c s shown raw rest l b h = elim (Bool-cases (opens_quote dialect c)) [
    | inl q ↦ quoted-Piece c s shown raw rest q (rw q at h)
    | inr q ↦ elim (Bool-cases (c == b'$' && not (behind_name u prev))) [
      | inl d ↦ dollar-Piece c s shown raw rest (and-not-false _ _ d) q l b (rw (q, d) at h)
      | inr d ↦ plain-Piece c s shown raw rest q l b (other-NoTag c s d) (rw (q, d) at h)
    ]
  ]

  pub scan-Piece :
      (t shown raw rest : Str)
      → scan u dialect prev t ≡ emit shown raw rest
      → Piece u dialect prev t shown raw rest
  unfolding scan
  scan-Piece [] shown raw rest h = cc
  scan-Piece (c ∷ s) shown raw rest h = elim (Bool-cases (starts_with (codes "--") (c ∷ s))) [
    | inl dd ↦ dashes-Piece c s shown raw rest dd (rw (dd, scan) at h)
    | inr dd ↦ elim (Bool-cases (c == b'#' && str_eq dialect (codes "mysql"))) [
      | inl hash ↦
          skip_to_line_end-Piece c s shown raw rest (hash-opens c s dialect hash)
            (hash-head c _ hash) (rw (dd, hash, scan) at h)
      | inr hash ↦ elim (Bool-cases (starts_with (codes "/*") (c ∷ s))) [
        | inl block ↦
            block_comment-Piece (c ∷ s) shown raw rest block (rw (dd, hash, block, scan) at h)
        | inr block ↦
            other-Piece c s shown raw rest (no_hash-opens c s dialect dd hash) block
              (rw (dd, hash, block, scan) at h)
      ]
    ]
  ]
