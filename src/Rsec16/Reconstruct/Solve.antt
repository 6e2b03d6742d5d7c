-- ===== src/Rsec16/Reconstruct/Solve.antt =====
-- `makeReconstructionMatrix` finds a matrix that recovers the missing rows.
use gopar_turbo.Base.{
  ℕ, ◌+◌, ◌*◌, ◌^◌, ◌<◌, ◌≡◌, refl, sym, ◌∙◌, arith, ltb, ltb→lt, Bool-cases, inl, inr, List,
  length,
}
use gopar_turbo.Base.Loops.{ok, Ensures, Ensures-mono, Ensures-error}
use gopar_turbo.Matrix.{Matrix, new_matrix_from_function, row_reduce}
use gopar_turbo.Matrix.RowOps.{at-entry}
use gopar_turbo.Matrix.Kernel.{HasKernel}
use gopar_turbo.Matrix.Build.{IsBuilt, new_matrix_from_function-IsBuilt}
use gopar_turbo.Matrix.Inverse.{IsSolution, IsReduction, row_reduce-IsReduction}
use gopar_turbo.Rsec16.Coder.Valid.{index-get_or}
use gopar_turbo.Rsec16.Reconstruct.{missing_cell, available_cell, make_reconstruction_matrix}
use gopar_turbo.Rsec16.Reconstruct.System.{
  nth, missing_entry, available_entry, IsSelection, IsRecovery, IsDegenerate, posed_equation,
}

module _ (parity : Matrix) (available missing used : List ℕ)
    (s : IsSelection parity available missing used) where
  pub missing_cell-entry :
      (i j : ℕ)
      → i < length used
      → j < length missing
      → missing_cell parity used missing i j ≡ ok (missing_entry parity used missing i j)
  unfolding missing_cell
  missing_cell-entry i j hi hj =
      rw (index-get_or used i hi, index-get_or missing j hj)
        (at-entry parity (nth used i) (nth missing j) (s.used_below i hi) (s.missing_below j hj))

  available_cell-entry :
      (i j : ℕ)
      → i < length used
      → available_cell parity used available i j ≡ ok (available_entry parity used available i j)
  unfolding available_cell missing_cell
  available_cell-entry i j hi = elim (Bool-cases (ltb j (length available))) [
    | inl front ↦
        let lt = ltb→lt j (length available) front in
        rw (front, index-get_or used i hi, index-get_or available j lt)
          (at-entry parity (nth used i) (nth available j) (s.used_below i hi)
            (s.available_below j lt))
    | inr behind ↦ rw behind refl
  ]

  pub available_entry-Short : (i j : ℕ) → available_entry parity used available i j < 2 ^ 16
  available_entry-Short i j =
      ground (arith, s.elements (nth used i * parity.columns + nth available j))

  pub missing_matrix :
      (m : Matrix) × (new_matrix_from_function
          (length used)
          (length used)
          (missing_cell parity used missing)
        ≡ ok m)
      × IsBuilt (length used) (length used) (missing_entry parity used missing) m
  missing_matrix =
      new_matrix_from_function-IsBuilt (length used) (length used)
        (missing_entry parity used missing) (λ r k hr hk. s.elements _)
        (missing_cell parity used missing)
        (λ r k hr hk. missing_cell-entry r k hr (omega (arith, s.same))) s.some_used s.some_used

  pub available_matrix :
      (n : Matrix) × (new_matrix_from_function
          (length used)
          parity.columns
          (available_cell parity used available)
        ≡ ok n)
      × IsBuilt (length used) parity.columns (available_entry parity used available) n
  available_matrix =
      new_matrix_from_function-IsBuilt (length used) parity.columns
        (available_entry parity used available) (λ r k hr hk. available_entry-Short r k)
        (available_cell parity used available) (λ r k hr hk. available_cell-entry r k hr)
        s.some_used (omega (arith, s.size, s.some_used))

  module _ (m n : Matrix)
      (left : IsBuilt (length used) (length used) (missing_entry parity used missing) m)
      (right : IsBuilt (length used) parity.columns (available_entry parity used available) n) where
    reduction-IsRecovery :
        (result : Matrix) → IsReduction m n result → IsRecovery parity available missing used result
    unfolding IsSolution
    reduction-IsRecovery result red = record {
      rows_eq = red.rows_eq ∙ right.rows_eq ∙ s.same;
      columns_eq = red.columns_eq ∙ right.columns_eq;
      elements = red.elements;
      recovers = λ d w h r hr.
          (red.solution (λ t. d (nth missing t)) w (λ t. h.data_short _) h.short).0
            (λ r' hr'.
              posed_equation parity available missing used s d w h m n left right r'
                (omega (arith, left.rows_eq)))
            r (omega (arith, left.rows_eq, s.same));
    }

  pub make_reconstruction_matrix-IsRecovery :
      Ensures
        (IsRecovery parity available missing used)
        (λ _. IsDegenerate parity missing used)
        (make_reconstruction_matrix parity.columns available missing used parity)
  unfolding make_reconstruction_matrix
  make_reconstruction_matrix-IsRecovery =
      let (m, em, left) = missing_matrix in
      let (n, en, right) = available_matrix in
      rw (em, en)
        (Ensures-error (IsRecovery parity available missing used) (λ _. HasKernel m)
          (λ _. IsDegenerate parity missing used) (row_reduce m n)
          (Ensures-mono (IsReduction m n) (IsRecovery parity available missing used)
            (λ _. HasKernel m) (row_reduce m n)
            (row_reduce-IsReduction m n (
              left.columns_eq ∙ sym left.rows_eq,
              right.rows_eq ∙ sym left.rows_eq,
              omega (arith, left.rows_eq, s.some_used),
              omega (arith, right.columns_eq, s.size, s.some_used),
              left.elements,
              right.elements,
            ))
            (reduction-IsRecovery m n left right))
          (λ e kernel. record { block = m; built = left; kernel = kernel }))
