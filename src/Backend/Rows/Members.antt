-- ===== src/Backend/Rows/Members.antt =====
-- The statements of a table of grants, row by row.
use mcp_server_for_sql_agent.Backend.Rows.{
  holds-insert_rows, holds-delete_rows, RowLaws, is_row, holds, insert_row, insert_rows, delete_row,
  delete_rows,
}
use mcp_server_for_sql_agent.Prelude.{
  sym, any_of, arith, ◌++◌, ◌∷◌, [], List, not, false, true, Bool, inr, inl, ◌⊎◌, subst, refl, ◌≡◌,
  IsIn-append, IsIn-append_left, IsIn, if◌then◌else◌,
}
use mcp_server_for_sql_agent.Prelude.Filters.{
  IsIn-any_of, any_of-IsIn, and-eq-true, IsIn-keep_if, keep_if-IsIn, true-or-false,
}

module _ {K R : Type 0} (eq : K → K → Bool) (mine : R → Bool) (key_of : R → K)
    (row_for : K → R) where
  insert_row-IsIn :
      (r : R) (k : K) (rows : List R)
      → IsIn r (insert_row eq mine key_of row_for k rows)
      → IsIn r rows ⊎ (r ≡ row_for k)
  unfolding insert_row
  insert_row-IsIn r k rows = go (holds eq mine key_of k rows)
    where
      go :
          (b : Bool)
          → IsIn r (if b then rows else rows ++ row_for k ∷ [])
          → IsIn r rows ⊎ (r ≡ row_for k)
      go true m = inl m
      go false m = elim (IsIn-append r rows (row_for k ∷ []) m) [
        | inl i ↦ inl i
        | inr (inl e) ↦ inr e
        | inr (inr i) ↦ absurd i
      ]

  -- A row that is there after the insertions was there before, or is one of the new ones.
  pub insert_rows-IsIn :
      (r : R) (ks : List K) (rows : List R)
      → IsIn r (insert_rows eq mine key_of row_for ks rows)
      → IsIn r rows ⊎ ((k : K) × IsIn k ks × (r ≡ row_for k))
  unfolding insert_rows
  insert_rows-IsIn r [] rows m = inl m
  insert_rows-IsIn r (k ∷ ks) rows m =
      elim (insert_rows-IsIn r ks (insert_row eq mine key_of row_for k rows) m) [
        | inr (j, i, e) ↦ inr (j, inr i, e)
        | inl n ↦ elim (insert_row-IsIn r k rows n) [ inl i ↦ inl i | inr e ↦ inr (k, inl refl, e) ]
      ]

  IsIn-insert_row :
      (r : R) (k : K) (rows : List R)
      → IsIn r rows
      → IsIn r (insert_row eq mine key_of row_for k rows)
  unfolding insert_row
  IsIn-insert_row r k rows m = go (holds eq mine key_of k rows)
    where
      go : (b : Bool) → IsIn r (if b then rows else rows ++ row_for k ∷ [])
      go true = m
      go false = IsIn-append_left r rows (row_for k ∷ []) m

  -- The insertions keep every row.
  pub IsIn-insert_rows :
      (r : R) (ks : List K) (rows : List R)
      → IsIn r rows
      → IsIn r (insert_rows eq mine key_of row_for ks rows)
  unfolding insert_rows
  IsIn-insert_rows r [] rows m = m
  IsIn-insert_rows r (k ∷ ks) rows m =
      IsIn-insert_rows r ks (insert_row eq mine key_of row_for k rows) (IsIn-insert_row r k rows m)

module _ {K R : Type 0} (eq : K → K → Bool) (mine : R → Bool) (key_of : R → K) where
  -- A row is left by the deletions if it was there and is not a row for one of the keys.
  pub delete_rows-IsIn :
      (r : R) (ks : List K) (rows : List R)
      → IsIn r (delete_rows eq mine key_of ks rows)
      → IsIn r rows × ((k : K) → IsIn k ks → ¬ (is_row eq mine key_of k r ≡ true))
  unfolding delete_rows delete_row
  delete_rows-IsIn r [] rows m = (m, λ k i. absurd i)
  delete_rows-IsIn r (j ∷ ks) rows m =
      let (n, later) = delete_rows-IsIn r ks (delete_row eq mine key_of j rows) m in
      let (i, e) = keep_if-IsIn (λ q. not (is_row eq mine key_of j q)) r rows n in
      (i, survives e later)
    where
      survives :
          not (is_row eq mine key_of j r) ≡ true
          → ((k : K) → IsIn k ks → ¬ (is_row eq mine key_of k r ≡ true))
          → (k : K) → IsIn k (j ∷ ks)
          → ¬ (is_row eq mine key_of k r ≡ true)
      survives e later k (inl s) x =
          let y : is_row eq mine key_of j r ≡ true =
            subst (λ q. is_row eq mine key_of q r ≡ true) s x in
          ground (arith, y, e)
      survives e later k (inr i) x = later k i x

  pub IsIn-delete_rows :
      (r : R) (ks : List K) (rows : List R)
      → IsIn r rows
      → ((k : K) → IsIn k ks → ¬ (is_row eq mine key_of k r ≡ true))
      → IsIn r (delete_rows eq mine key_of ks rows)
  unfolding delete_rows delete_row
  IsIn-delete_rows r [] rows m h = m
  IsIn-delete_rows r (j ∷ ks) rows m h =
      let no : is_row eq mine key_of j r ≡ false =
        true-or-false (is_row eq mine key_of j r) (h j (inl refl)) in
      IsIn-delete_rows r ks (delete_row eq mine key_of j rows)
        (IsIn-keep_if (λ q. not (is_row eq mine key_of j q)) r rows m (rw no)) (λ k i. h k (inr i))

module _ {K R : Type 0} (eq : K → K → Bool) (mine : R → Bool) (key_of : R → K) (row_for : K → R)
    (adds dels : List K) (rows : List R) where
  -- The rows after the insertions and the deletions.
  abbrev pub changed : List R
  changed = delete_rows eq mine key_of dels (insert_rows eq mine key_of row_for adds rows)

  pub changed-IsIn :
      (r : R)
      → IsIn r changed
      → (IsIn r rows × ((k : K) → IsIn k dels → ¬ (is_row eq mine key_of k r ≡ true)))
        ⊎ ((k : K) × IsIn k adds × (r ≡ row_for k))
  changed-IsIn r m =
      let (i, kept) = delete_rows-IsIn eq mine key_of r dels _ m in
      elim (insert_rows-IsIn eq mine key_of row_for r adds rows i) [
        | inl old ↦ inl (old, kept)
        | inr new ↦ inr new
      ]

  pub IsIn-changed :
      (r : R)
      → IsIn r rows
      → ((k : K) → IsIn k dels → ¬ (is_row eq mine key_of k r ≡ true))
      → IsIn r changed
  IsIn-changed r m kept =
      IsIn-delete_rows eq mine key_of r dels _
        (IsIn-insert_rows eq mine key_of row_for r adds rows m) kept

  -- A key that is added and not deleted has a row of the owner.
  pub added-IsIn :
      RowLaws eq mine key_of row_for
      → (k : K) → IsIn k adds
      → ¬ IsIn k dels
      → (r : R) × IsIn r changed × (mine r ≡ true) × (key_of r ≡ k)
  unfolding is_row holds
  added-IsIn L k i out =
      let held : holds eq mine key_of k changed ≡ true =
        rw
          (
            holds-delete_rows eq mine key_of row_for L,
            holds-insert_rows eq mine key_of row_for L,
            absent,
            present,
          )
          refl in
      let (r, m, e) = any_of-IsIn (is_row eq mine key_of k) changed held in
      let (a, b) = and-eq-true (mine r) (eq k (key_of r)) e in
      (r, m, a, sym ((L.eq_iff k (key_of r)).0 b))
    where
      present : any_of (eq k) adds ≡ true
      present = IsIn-any_of (eq k) k adds i ((L.eq_iff k k).1 refl)

      absent : any_of (eq k) dels ≡ false
      absent = true-or-false (any_of (eq k) dels) (λ h.
          let (j, n, e) = any_of-IsIn (eq k) dels h in
          out (subst (λ q. IsIn q dels) (sym ((L.eq_iff k j).0 e)) n))
