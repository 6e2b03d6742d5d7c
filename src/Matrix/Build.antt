-- ===== src/Matrix/Build.antt =====
-- `NewMatrixFromFunction`, the identity and `Times`, element by element.
use gopar_turbo.Base.{
  ℕ, suc, ◌+◌, ◌*◌, ◌^◌, ◌<◌, ◌≡◌, refl, ◌∙◌, ap, arith, ◌==◌, if◌then◌else◌, inl, inr, true, false,
  ◌⊎◌,
}
use gopar_turbo.Base.Loops.{
  Outcome, ok, Ensures, Ensures-mono, Ensures-ok, for_range, for_range-Ensures,
}
use gopar_turbo.Bits.{◌⊕◌}
use gopar_turbo.Gf2p16
use gopar_turbo.Gf2p16.{update}
use gopar_turbo.Matrix.{
  Matrix, Singular, fill_row, new_matrix_from_function, new_identity_matrix, times_cell, times,
  check_row_column_count,
}
use gopar_turbo.Matrix.Grid.{entry, IsElements, index_test}
use gopar_turbo.Matrix.Dot.{dot, dot-lt}
use gopar_turbo.Matrix.RowOps.{at-entry}

-- A matrix of the given shape, with the elements `g`.
pub record IsBuilt (rows columns : ℕ) (g : ℕ → ℕ → ℕ) (m : Matrix) : Type 0 where
  pub rows_eq : m.rows ≡ rows
  pub columns_eq : m.columns ≡ columns
  pub elements : IsElements m.elements
  pub entries : (r k : ℕ) → r < rows → k < columns → entry m r k ≡ g r k

module _ (rows columns : ℕ) (g : ℕ → ℕ → ℕ)
    (short : (r k : ℕ) → r < rows → k < columns → g r k < 2 ^ 16) (fn : ℕ → ℕ → Outcome Singular ℕ)
    (returns : (r k : ℕ) → r < rows → k < columns → fn r k ≡ ok (g r k)) where
  -- The rows before `i` and the elements of row `i` before `j` are in place.
  record Filled (i j : ℕ) (e : ℕ → ℕ) : Type 0 where
    elements : IsElements e
    rows_done : (r k : ℕ) → r < i → k < columns → e (r * columns + k) ≡ g r k
    row_done : (k : ℕ) → k < j → k < columns → e (i * columns + k) ≡ g i k

  fill_one :
      (i j : ℕ) (e : ℕ → ℕ)
      → i < rows
      → j < columns
      → Filled i j e
      → Filled i (suc j) (update e (i * columns + j) (g i j))
  fill_one i j e hi hj f = record {
    elements = λ p. ground (arith, f.elements p, short i j hi hj);
    rows_done =
        λ r k lt hk. rw (index_test columns r k i j hk hj) (ground (arith, f.rows_done r k lt hk));
    row_done = λ k lt hk. rw (index_test columns i k i j hk hj) (ground (arith, f.row_done k));
  }

  fill_row-Filled :
      (i : ℕ) (e : ℕ → ℕ)
      → i < rows
      → Filled i 0 e
      → Ensures (Filled (suc i) 0) (λ _. ⊥) (fill_row columns fn i e)
  unfolding fill_row
  fill_row-Filled i e hi f =
      Ensures-mono (Filled i columns) (Filled (suc i) 0) (λ _. ⊥) _
        (for_range-Ensures (Filled i) (λ _. ⊥) _ columns
          (λ j s hj h. rw (returns i j hi hj) (fill_one i j s hi hj h)) columns 0 e (omega arith) f)
        (λ s h. record {
          elements = h.elements;
          rows_done = λ r k lt hk. elim (eq_or_lt r i lt) [
            | inl same ↦ rw same (h.row_done k hk hk)
            | inr before ↦ h.rows_done r k before hk
          ];
          row_done = λ k lt hk. absurd (omega arith);
        })
    where
      eq_or_lt : (r i : ℕ) → r < suc i → (r ≡ i) ⊎ (r < i)
      eq_or_lt r i lt = ground arith

  -- The matrix has the value of the function at every place.
  pub new_matrix_from_function-IsBuilt :
      0 < rows
      → 0 < columns
      → (m : Matrix) × (new_matrix_from_function rows columns fn ≡ ok m) × IsBuilt rows columns g m
  unfolding new_matrix_from_function check_row_column_count
  new_matrix_from_function-IsBuilt hr hc =
      let (e, ee, f) =
        Ensures-ok (Filled rows 0) (for_range rows 0 (fill_row columns fn) (λ _. 0)) (
          for_range-Ensures (λ i s. Filled i 0 s) (λ _. ⊥) (fill_row columns fn) rows
            (λ i s hi h. fill_row-Filled i s hi h) rows 0 (λ _. 0) (omega arith)
            (record {
              elements = λ p. omega arith;
              rows_done = λ r k lt hk. absurd (omega arith);
              row_done = λ k lt hk. absurd (omega arith);
            })) in
      (
        record { rows = rows; columns = columns; elements = e },
        rw (positive rows hr, positive columns hc, ee) refl,
        record {
          rows_eq = refl;
          columns_eq = refl;
          elements = f.elements;
          entries = λ r k lt hk. f.rows_done r k lt hk;
        },
      )
    where
      positive : (n : ℕ) → 0 < n → (n == 0) ≡ false
      positive n h = ground arith

pub new_identity_matrix-IsBuilt :
    (n : ℕ)
    → 0 < n
    → (m : Matrix) × (new_identity_matrix n ≡ ok m) × IsBuilt n n (λ r k. if r == k then 1 else 0) m
unfolding new_identity_matrix
new_identity_matrix-IsBuilt n h =
    new_matrix_from_function-IsBuilt n n (λ r k. if r == k then 1 else 0)
      (λ r k hr hk. ground arith) (λ i j. ok (if i == j then 1 else 0)) (λ r k hr hk. refl) h h

-- One element of the product is the inner product of a row and a column.
pub times_cell-dot :
    (m n : Matrix) (i j : ℕ)
    → m.columns ≡ n.rows
    → i < m.rows
    → j < n.columns
    → times_cell m n i j ≡ ok (dot m.columns (entry m i) (λ k. entry n k j))
unfolding times_cell dot
times_cell-dot m n i j shared hi hj =
    let a = entry m i in
    let b : ℕ → ℕ = λ k. entry n k j in
    let (t, e, value) =
      Ensures-ok (λ t. t ≡ dot m.columns a b) _
        (for_range-Ensures (λ k t. t ≡ dot k a b) (λ _. ⊥) _ m.columns
          (λ k t lt h.
            rw (at-entry m i k hi lt, at-entry n k j (omega arith) hj)
              (ap (λ (s : ℕ). s ⊕ Gf2p16.times (a k) (b k)) h))
          m.columns 0 0 (omega arith) refl) in
    e ∙ ap ok value

-- `Times` of matrices that fit is the matrix product.
pub times-IsBuilt :
    (m n : Matrix)
    → m.columns ≡ n.rows
    → 0 < m.rows
    → 0 < n.columns
    → IsElements m.elements
    → IsElements n.elements
    → (p : Matrix) × (times m n ≡ ok p)
      × IsBuilt m.rows n.columns (λ i j. dot m.columns (entry m i) (λ k. entry n k j)) p
unfolding times
times-IsBuilt m n shared hr hc hm hn =
    let (p, e, b) =
      new_matrix_from_function-IsBuilt m.rows n.columns
        (λ i j. dot m.columns (entry m i) (λ k. entry n k j))
        (λ i j hi hj. dot-lt m.columns (entry m i) (λ k. entry n k j) (λ k lt. hm _) (λ k. hn _))
        (times_cell m n) (λ i j hi hj. times_cell-dot m n i j shared hi hj) hr hc in
    (p, rw (fits) e, b)
  where
    fits : (m.columns == n.rows) ≡ true
    fits = ground arith
