-- ===== src/Rsec16/Reconstruct/Folded.antt =====
-- The branch of `ReconstructionMatrix` for heavy damage finds a matrix that recovers the missing
-- rows, too.
use gopar_turbo.Base.{
  ℕ, zero, suc, ◌+◌, ◌*◌, ◌^◌, ◌≤◌, ◌<◌, ◌≡◌, refl, sym, ◌∙◌, ap, arith, ◌||◌, ltb, inl, inr,
  Bool-cases, List, [], ◌∷◌, length, replicate, length-replicate, subst,
}
use gopar_turbo.Base.Loops.{Outcome, ok, ◌>>=◌, Ensures, Ensures-error, Ensures-bind}
use gopar_turbo.Matrix.{Matrix, Singular, new_matrix_from_function, inverse}
use gopar_turbo.Matrix.Grid.{entry}
use gopar_turbo.Matrix.Dot.{Short, dot, dot-lt}
use gopar_turbo.Matrix.Solutions.{apply_row}
use gopar_turbo.Matrix.Kernel.{HasKernel}
use gopar_turbo.Matrix.Build.{IsBuilt, new_matrix_from_function-IsBuilt}
use gopar_turbo.Matrix.Inverse.{
  IsSolution, IsSquare, IsIdentityReduction, identity_row, inverse-IsIdentityReduction,
}
use gopar_turbo.Rsec16.Words.{word, word-lt}
use gopar_turbo.Rsec16.Apply.Rows.{AreShards}
use gopar_turbo.Rsec16.Coder.{Coder}
use gopar_turbo.Rsec16.Fold.{fold_inputs}
use gopar_turbo.Rsec16.Fold.Product.{AreSums, fold_inputs-AreSums, zero-IsShard}
use gopar_turbo.Rsec16.Reconstruct.{
  zero_rows, missing_cell, companion_row, read_cell, fold_reconstruction_matrix,
  reconstruction_matrix,
}
use gopar_turbo.Rsec16.Reconstruct.Sums.{dot-ext, dot_exchange}
use gopar_turbo.Rsec16.Reconstruct.System.{
  nth, missing_entry, available_entry, IsSelection, IsRecovery, IsDegenerate, posed_equation,
}
use gopar_turbo.Rsec16.Reconstruct.Solve.{
  missing_matrix, available_matrix, make_reconstruction_matrix-IsRecovery,
}
use gopar_turbo.Rsec16.Reconstruct.Companion.{
  get_uint16-word, IsCompanion, companion_row-IsCompanion,
}

pub zero_rows-AreShards : (rows n : ℕ) → AreShards n (zero_rows rows (2 * n))
unfolding zero_rows
zero_rows-AreShards zero n = tt
zero_rows-AreShards (suc rows) n = (zero-IsShard n, zero_rows-AreShards rows n)

pub length-zero_rows : (rows n : ℕ) → length (zero_rows rows n) ≡ rows
unfolding zero_rows
length-zero_rows rows n = length-replicate rows (replicate n 0)

-- The elements that are read from folded rows.
read_cell-AreSums :
    (n : ℕ) (m : Matrix) (input : ℕ → List ℕ) (count first i j : ℕ) (rows : List (List ℕ))
    → AreSums n m input count first rows
    → i < length rows
    → j < n
    → (read_cell rows i j ≡ ok (dot count (entry m (first + i)) (λ t. word (input t) j)))
      × (dot count (entry m (first + i)) (λ t. word (input t) j) < 2 ^ 16)
unfolding read_cell
read_cell-AreSums n m input count first i j [] h hi hj = absurd (omega arith)
read_cell-AreSums n m input count first zero j (row ∷ rows) h hi hj =
    let same : first ≡ first + 0 = omega arith in
    let value = h.1 j ∙ ap (λ r. dot count (entry m r) (λ t. word (input t) j)) same in
    (
      get_uint16-word j row (omega (arith, h.0.size)) ∙ ap ok value,
      subst (λ v. v < 2 ^ 16) value (word-lt row j h.0.bytes),
    )
read_cell-AreSums n m input count first (suc i) j (row ∷ rows) h hi hj =
    let same : suc first + i ≡ first + suc i = omega arith in
    subst
      (λ r.
        (read_cell rows i j ≡ ok (dot count (entry m r) (λ t. word (input t) j)))
        × (dot count (entry m r) (λ t. word (input t) j) < 2 ^ 16))
      same (read_cell-AreSums n m input count (suc first) i j rows h.2 (omega arith) hj)

buffer_of : Outcome Singular (List ℕ) → List ℕ
buffer_of (ok buf) = buf
buffer_of _ = []

module _ (parity : Matrix) (available missing used : List ℕ)
    (s : IsSelection parity available missing used) where
  -- The companion rows, as a function.
  companion : ℕ → List ℕ
  companion t = buffer_of (companion_row parity.columns available used parity t)

  companion-IsCompanion :
      (t : ℕ)
      → t < length used
      → (companion_row parity.columns available used parity t ≡ ok (companion t))
        × IsCompanion parity.columns (available_entry parity used available t) (companion t)
  unfolding companion buffer_of
  companion-IsCompanion t h =
      let (buf, e, c) = companion_row-IsCompanion parity available missing used s t h in
      let same : buf ≡ companion t = sym (ap buffer_of e) in
      (
        e ∙ ap ok same,
        subst (IsCompanion parity.columns (available_entry parity used available t)) same c,
      )

  module _ (m n m' : Matrix)
      (left : IsBuilt (length used) (length used) (missing_entry parity used missing) m)
      (right : IsBuilt (length used) parity.columns (available_entry parity used available) n)
      (red : IsIdentityReduction m m') where
    folded_entry : ℕ → ℕ → ℕ
    folded_entry i j = dot (length used) (entry m' i) (λ t. word (companion t) j)

    folded_row :
        (result : Matrix) (w : ℕ → ℕ) (r : ℕ)
        → IsBuilt (length missing) parity.columns folded_entry result
        → Short w
        → r < length missing
        → apply_row result w r ≡ dot (length used) (entry m' r) (λ t. apply_row n w t)
    unfolding folded_entry
    folded_row result w r b hw hr =
        ap (λ (k : ℕ). dot k (entry result r) w) b.columns_eq
        ∙ dot-ext parity.columns (entry result r) _ w w
            (λ j lt.
              b.entries r j hr lt
              ∙ dot-ext (length used) (entry m' r) (entry m' r) _ (λ t. entry n t j) (λ t ht. refl)
                  (λ t ht.
                    (companion-IsCompanion t ht).1.value j lt ∙ sym (right.entries t j ht lt)))
            (λ j lt. refl)
        ∙ sym (
            dot_exchange (length used) parity.columns (entry m' r) (entry n) w
              (λ k. red.reduction.elements _) (λ t k. right.elements _) hw)
        ∙ dot-ext (length used) _ _ _ _ (λ t ht. refl)
            (λ t ht. ap (λ (k : ℕ). dot k (entry n t) w) (sym right.columns_eq))

    -- The result of the fold recovers the missing rows.
    folded-IsRecovery :
        (result : Matrix)
        → IsBuilt (length missing) parity.columns folded_entry result
        → IsRecovery parity available missing used result
    unfolding IsSolution
    folded-IsRecovery result b = record {
      rows_eq = b.rows_eq;
      columns_eq = b.columns_eq;
      elements = b.elements;
      recovers = λ d w h r hr.
          let v : ℕ → ℕ = λ t. apply_row n w t in
          let hv : Short v =
            λ t. dot-lt n.columns (entry n t) w (λ k lt. right.elements _) h.short in
          let square : IsSquare m = (
            left.columns_eq ∙ sym left.rows_eq,
            omega (arith, left.rows_eq, s.some_used),
            left.elements,
          ) in
          (red.reduction.solution (λ t. d (nth missing t)) v (λ t. h.data_short _) hv).0
            (λ q hq.
              posed_equation parity available missing used s d w h m n left right q
                (omega (arith, left.rows_eq))
              ∙ sym (identity_row m red.identity m' square red.built red.reduction v q hq hv))
            r (omega (arith, left.rows_eq, s.same))
          ∙ ap (λ (k : ℕ). dot k (entry m' r) v)
              (red.reduction.columns_eq ∙ red.built.columns_eq ∙ left.rows_eq)
          ∙ sym (folded_row result w r b h.short hr);
    }

    inverse_rows : length missing ≤ m'.rows
    inverse_rows = omega (arith, red.reduction.rows_eq, red.built.rows_eq, left.rows_eq, s.same)

    -- The fold does not fail, and its rows are read back as the elements.
    folded_rows :
        (out : List (List ℕ)) × (fold_inputs m'
            (length used)
            (companion_row parity.columns available used parity)
            (zero_rows (length missing) (2 * parity.columns))
          ≡ ok out)
        × ((i j : ℕ)
            → i < length missing
            → j < parity.columns
            → (read_cell out i j ≡ ok (folded_entry i j)) × (folded_entry i j < 2 ^ 16))
    unfolding folded_entry
    folded_rows =
        let blank = zero_rows (length missing) (2 * parity.columns) in
        let rows : length blank ≡ length missing =
          length-zero_rows (length missing) (2 * parity.columns) in
        let (out, e, l, sums) =
          fold_inputs-AreSums parity.columns m' (length used) companion
            (companion_row parity.columns available used parity) blank
            (record {
              elements = red.reduction.elements;
              some_inputs = s.some_used;
              some_outputs = omega (arith, rows, s.same, s.some_used);
              columns = omega (arith, red.reduction.columns_eq, red.built.columns_eq, left.rows_eq);
              rows = omega (arith, rows, inverse_rows);
              inputs = λ t lt. (companion-IsCompanion t lt).1.shard;
              outputs = zero_rows-AreShards (length missing) parity.columns;
            })
            (λ t lt. (companion-IsCompanion t lt).0) in
        (
          out,
          e,
          λ i j hi hj.
              let zero_first : 0 + i ≡ i = omega arith in
              subst
                (λ r.
                  (read_cell out i j
                    ≡ ok (dot (length used) (entry m' r) (λ t. word (companion t) j)))
                  × (dot (length used) (entry m' r) (λ t. word (companion t) j) < 2 ^ 16))
                zero_first
                (read_cell-AreSums parity.columns m' companion (length used) 0 i j out sums
                  (omega (arith, l, rows)) hj),
        )

    folded_matrix :
        Ensures
          (IsRecovery parity available missing used)
          (λ _. IsDegenerate parity missing used)
          (fold_inputs m'
              (length used)
              (companion_row parity.columns available used parity)
              (zero_rows (length missing) (2 * parity.columns))
            >>= λ out. new_matrix_from_function (length missing) parity.columns (read_cell out))
    folded_matrix =
        let (out, e, cells) = folded_rows in
        let (result, er, b) =
          new_matrix_from_function-IsBuilt (length missing) parity.columns folded_entry
            (λ i j hi hj. (cells i j hi hj).1) (read_cell out) (λ i j hi hj. (cells i j hi hj).0)
            (omega (arith, s.same, s.some_used)) (omega (arith, s.size, s.some_used)) in
        rw (e, er) (folded-IsRecovery result b)

  pub fold_reconstruction_matrix-IsRecovery :
      Ensures
        (IsRecovery parity available missing used)
        (λ _. IsDegenerate parity missing used)
        (fold_reconstruction_matrix parity.columns available missing used parity)
  unfolding fold_reconstruction_matrix
  fold_reconstruction_matrix-IsRecovery =
      let (m, em, left) =
        subst
          (λ k.
            (m : Matrix) × (new_matrix_from_function (length used) k
                (missing_cell parity used missing)
              ≡ ok m)
            × IsBuilt (length used) (length used) (missing_entry parity used missing) m)
          s.same (missing_matrix parity available missing used s) in
      let (n, en, right) = available_matrix parity available missing used s in
      rw em (
        Ensures-bind (IsIdentityReduction m) (IsRecovery parity available missing used)
          (λ _. IsDegenerate parity missing used) (inverse m) _
          (Ensures-error (IsIdentityReduction m) (λ _. HasKernel m)
            (λ _. IsDegenerate parity missing used) (inverse m)
            (inverse-IsIdentityReduction m (
              left.columns_eq ∙ sym left.rows_eq,
              omega (arith, left.rows_eq, s.some_used),
              left.elements,
            ))
            (λ e kernel. record { block = m; built = left; kernel = kernel }))
          (λ m' red. folded_matrix m n m' left right red))

-- For a parity matrix of field elements, available and missing rows that together are all columns,
-- and as many used rows as missing ones, `ReconstructionMatrix` does not panic, whichever of its
-- two branches it takes. Its result maps the words of the available rows, followed by the parity
-- words of the used rows, to the words of the missing rows. It reports an error only if the parity
-- matrix at the used and the missing rows is singular.
pub reconstruction_matrix-IsRecovery :
    (c : Coder) (available missing used : List ℕ)
    → c.data_shards ≡ c.parity_matrix.columns
    → IsSelection c.parity_matrix available missing used
    → Ensures
        (IsRecovery c.parity_matrix available missing used)
        (λ _. IsDegenerate c.parity_matrix missing used)
        (reconstruction_matrix c available missing used)
unfolding reconstruction_matrix
reconstruction_matrix-IsRecovery c available missing used e s =
    elim (Bool-cases (ltb (length missing) 32 || ltb c.data_shards (4 * length missing))) [
      | inl light ↦
          rw (light, e)
            (make_reconstruction_matrix-IsRecovery c.parity_matrix available missing used s)
      | inr heavy ↦
          rw (heavy, e)
            (fold_reconstruction_matrix-IsRecovery c.parity_matrix available missing used s)
    ]
