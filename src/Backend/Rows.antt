-- ===== src/Backend/Rows.antt =====
-- The rows of one owner in a table of grants, by key: `INSERT ... ON CONFLICT DO NOTHING` and
-- `DELETE` for each of a list of keys.
pub mod Members
use mcp_server_for_sql_agent.Prelude.{
  append-nil, ◌∙◌, sym, arith, ◌++◌, ◌∷◌, [], List, ◌||◌, ◌&&◌, not, false, true, Bool, ◌↔◌, ap,
  refl, ◌≡◌, keep_if, any_of, if◌then◌else◌,
}
use mcp_server_for_sql_agent.Prelude.Filters.{and-eq-true}

-- `eq` compares keys. `mine` tells the rows of the owner, such as those of one connection and one
-- subject; `key_of` is the rest of a row's primary key, and `row_for` the owner's new row for a key.
module _ {K R : Type 0} (eq : K → K → Bool) (mine : R → Bool) (key_of : R → K) where
  unfoldable pub is_row : K → R → Bool
  is_row k r = mine r && eq k (key_of r)

  unfoldable pub holds : K → List R → Bool
  unfolding is_row
  holds k rows = any_of (is_row k) rows

  unfoldable pub delete_row : K → List R → List R
  unfolding is_row
  delete_row k rows = keep_if (λ r. not (is_row k r)) rows

  unfoldable pub delete_rows : List K → List R → List R
  unfolding delete_row
  delete_rows [] rows = rows
  delete_rows (k ∷ ks) rows = delete_rows ks (delete_row k rows)

  module _ (row_for : K → R) where
    unfoldable pub insert_row : K → List R → List R
    unfolding holds
    insert_row k rows = if holds k rows then rows else rows ++ row_for k ∷ []

    unfoldable pub insert_rows : List K → List R → List R
    unfolding insert_row
    insert_rows [] rows = rows
    insert_rows (k ∷ ks) rows = insert_rows ks (insert_row k rows)

-- What the primary key of the table and the statement give.
pub record RowLaws {K R : Type 0} (eq : K → K → Bool) (mine : R → Bool) (key_of : R → K)
    (row_for : K → R) : Type 0 where
  pub eq_iff : (j k : K) → (eq j k ≡ true) ↔ (j ≡ k)
  pub row_is_mine : (k : K) → mine (row_for k) ≡ true
  pub key_of_row : (k : K) → key_of (row_for k) ≡ k

not-true : (b : Bool) → not b ≡ true → b ≡ false
not-true true h = cc
not-true false h = refl

any_of-append :
    {A : Type 0} (p : A → Bool) (xs ys : List A)
    → any_of p (xs ++ ys) ≡ (any_of p xs || any_of p ys)
any_of-append p [] ys = refl
any_of-append p (x ∷ xs) ys = ground (arith, any_of-append p xs ys)

keep_if-append :
    {A : Type 0} (p : A → Bool) (xs ys : List A)
    → keep_if p (xs ++ ys) ≡ keep_if p xs ++ keep_if p ys
keep_if-append p [] ys = refl
keep_if-append p (x ∷ xs) ys = ground (arith, keep_if-append p xs ys)

module _ {K R : Type 0} (eq : K → K → Bool) (mine : R → Bool) (key_of : R → K) (row_for : K → R)
    (L : RowLaws eq mine key_of row_for) where
  abbrev is_held : K → List R → Bool
  is_held = holds eq mine key_of

  is_row-row_for : (k j : K) → is_row eq mine key_of k (row_for j) ≡ eq k j
  unfolding is_row
  is_row-row_for k j = rw (L.row_is_mine j, L.key_of_row j)

  eq_same :
      (k j : K) (r : R) → eq k j ≡ true → is_row eq mine key_of k r ≡ is_row eq mine key_of j r
  eq_same k j r h = ap (λ q. is_row eq mine key_of q r) ((L.eq_iff k j).0 h)

  holds_same : (k j : K) (rows : List R) → eq k j ≡ true → is_held k rows ≡ is_held j rows
  holds_same k j rows h = ap (λ q. is_held q rows) ((L.eq_iff k j).0 h)

  holds-append :
      (k j : K) (rows : List R) → is_held k (rows ++ row_for j ∷ []) ≡ (eq k j || is_held k rows)
  unfolding holds
  holds-append k j rows =
      ground
        (arith, any_of-append (is_row eq mine key_of k) rows (row_for j ∷ []), is_row-row_for k j)

  holds-insert_row :
      (k j : K) (rows : List R)
      → is_held k (insert_row eq mine key_of row_for j rows) ≡ (eq k j || is_held k rows)
  unfolding insert_row
  holds-insert_row k j rows = ground (arith, holds_same k j rows, holds-append k j rows)

  -- After the insertions a key is held if it was inserted or was held before.
  pub holds-insert_rows :
      (k : K) (ks : List K) (rows : List R)
      → is_held k (insert_rows eq mine key_of row_for ks rows)
        ≡ (any_of (eq k) ks || is_held k rows)
  unfolding insert_rows
  holds-insert_rows k [] rows = refl
  holds-insert_rows k (j ∷ ks) rows = ground (
    arith,
    holds-insert_rows k ks (insert_row eq mine key_of row_for j rows),
    holds-insert_row k j rows,
  )

  is_row-eq :
      (k j : K) (r : R) → is_row eq mine key_of j r ≡ true → is_row eq mine key_of k r ≡ eq k j
  unfolding is_row
  is_row-eq k j r h =
      let (m, e) = and-eq-true (mine r) (eq j (key_of r)) h in
      rw (m, sym ((L.eq_iff j (key_of r)).0 e))

  holds-delete_row :
      (k j : K) (rows : List R)
      → is_held k (delete_row eq mine key_of j rows) ≡ (not (eq k j) && is_held k rows)
  unfolding delete_row holds
  holds-delete_row k j [] = ground arith
  holds-delete_row k j (r ∷ rows) =
      ground (arith, holds-delete_row k j rows, is_row-eq k j r, eq_same k j r)

  -- After the deletions a key is held if it was held before and was not deleted.
  pub holds-delete_rows :
      (k : K) (ks : List K) (rows : List R)
      → is_held k (delete_rows eq mine key_of ks rows) ≡ (not (any_of (eq k) ks) && is_held k rows)
  unfolding delete_rows
  holds-delete_rows k [] rows = refl
  holds-delete_rows k (j ∷ ks) rows =
      ground (
        arith,
        holds-delete_rows k ks (delete_row eq mine key_of j rows),
        holds-delete_row k j rows,
      )

  abbrev pub others : List R → List R
  others = keep_if (λ r. not (mine r))

  others-insert_row :
      (k : K) (rows : List R) → others (insert_row eq mine key_of row_for k rows) ≡ others rows
  unfolding insert_row
  others-insert_row k rows = ground (
    arith,
    keep_if-append (λ r. not (mine r)) rows (row_for k ∷ []),
    L.row_is_mine k,
    append-nil (others rows),
  )

  -- The rows that are not the owner's stay as they are, in their order.
  pub others-insert_rows :
      (ks : List K) (rows : List R)
      → others (insert_rows eq mine key_of row_for ks rows) ≡ others rows
  unfolding insert_rows
  others-insert_rows [] rows = refl
  others-insert_rows (k ∷ ks) rows =
      others-insert_rows ks (insert_row eq mine key_of row_for k rows) ∙ others-insert_row k rows

  others-delete_row :
      (k : K) (rows : List R) → others (delete_row eq mine key_of k rows) ≡ others rows
  unfolding delete_row is_row
  others-delete_row k [] = refl
  others-delete_row k (r ∷ rows) = ground (arith, others-delete_row k rows)

  pub others-delete_rows :
      (ks : List K) (rows : List R) → others (delete_rows eq mine key_of ks rows) ≡ others rows
  unfolding delete_rows
  others-delete_rows [] rows = refl
  others-delete_rows (k ∷ ks) rows =
      others-delete_rows ks (delete_row eq mine key_of k rows) ∙ others-delete_row k rows
