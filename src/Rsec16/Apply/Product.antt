-- ===== src/Rsec16/Apply/Product.antt =====
-- `applyMatrixSingle` and `applyMatrixParallelData` multiply the shards by the matrix.
use gopar_turbo.Base.{
  ℕ, ◌*◌, ◌/◌, ◌<◌, ◌≡◌, sym, ◌∙◌, arith, true, false, leb, ltb, ◌==◌, List, [], ◌∷◌, length, inl,
  inr, Bool-cases, ==_iff, le→leb,
}
use gopar_turbo.Base.Loops.{ok}
use gopar_turbo.Matrix.{Matrix}
use gopar_turbo.Rsec16.Parallel.{calculate_parallel_params, calculate_parallel_params-IsSplit}
use gopar_turbo.Rsec16.Apply.{apply_matrix_single, apply_matrix_parallel_data}
use gopar_turbo.Rsec16.Apply.Parallel.{
  IsSchedule, IsApplicable, AreProducts, none-done, all-done, slice-AreDone, run-AreDone,
  covered_mentioned, own_range, piece_bounds,
}
use native.Mathlib.Nat.{div-lt_iff_lt-mul}

-- One product of all rows.
pub single-AreProducts :
    (n : ℕ) (m : Matrix) (ins outs : List (List ℕ))
    → IsApplicable n m ins outs
    → 0 < length outs
    → (outs' : List (List ℕ)) × (apply_matrix_single m ins outs ≡ ok outs')
      × (length outs' ≡ length outs)
      × AreProducts n m ins 0 outs'
unfolding apply_matrix_single
single-AreProducts n m [] outs w some_out = absurd (omega (arith, w.some_inputs))
single-AreProducts n m (x ∷ xs) [] w some_out = absurd (omega arith)
single-AreProducts n m (x ∷ xs) (row ∷ rows) w some_out =
    let ins = x ∷ xs in
    let outs = row ∷ rows in
    let (outs', e, l, d) =
      slice-AreDone n m ins w.elements w.some_inputs w.columns w.inputs 0 n (λ _. false) 0 outs
        (omega arith) (omega arith) (omega (arith, w.rows)) (none-done n m ins 0 outs w.outputs) in
    let fits : (length x == length row) ≡ true =
      (==_iff (length x) (length row)).1 (w.inputs.0.size ∙ sym w.outputs.0.size) in
    (outs', rw (fits, w.inputs.0.size) e, l, all-done n m ins _ 0 outs' (λ p lt. ground arith) d)

-- For shards of the same even number of bytes and a matrix of field elements that has a row for
-- each output and a column for each input, `applyMatrixParallelData` does not panic, in whatever
-- order its goroutines run. Each word of an output is the product of the row of the matrix with
-- the words of the inputs at the same place.
pub parallel-AreProducts :
    (schedule : ℕ → List ℕ) (fair : (count : ℕ) → IsSchedule count (schedule count)) (n : ℕ)
    (m : Matrix) (ins outs : List (List ℕ)) (num_goroutines : ℕ)
    → IsApplicable n m ins outs
    → 0 < length outs
    → 0 < num_goroutines
    → (outs' : List (List ℕ)) × (apply_matrix_parallel_data schedule m ins outs num_goroutines
        ≡ ok outs')
      × (length outs' ≡ length outs)
      × AreProducts n m ins 0 outs'
unfolding apply_matrix_parallel_data
parallel-AreProducts schedule fair n m [] outs g w some_out hg =
    absurd (omega (arith, w.some_inputs))
parallel-AreProducts schedule fair n m (x ∷ xs) [] g w some_out hg = absurd (omega arith)
parallel-AreProducts schedule fair n m (x ∷ xs) (row ∷ rows) g w some_out hg =
    let ins = x ∷ xs in
    let outs = row ∷ rows in
    let size = (calculate_parallel_params (2 * n) g 16 16).0 in
    let count = (calculate_parallel_params (2 * n) g 16 16).1 in
    let s = calculate_parallel_params-IsSplit (2 * n) g 16 16 hg (omega arith) (omega arith) in
    let one : leb 1 g ≡ true = le→leb 1 g hg in
    let fits : (length x == 2 * n) ≡ true = (==_iff (length x) (2 * n)).1 w.inputs.0.size in
    elim (Bool-cases (ltb count 2)) [
      | inl few ↦ rw (w.outputs.0.size, fits, one, few) (single-AreProducts n m ins outs w some_out)
      | inr many ↦
          let f = fair count in
          let (outs', e, l, d) =
            run-AreDone n m ins w.elements w.some_inputs w.columns w.inputs size count
              (schedule count) (λ _. false) outs s.aligned s.last_not_empty f.known w.rows
              (none-done n m ins 0 outs w.outputs) in
          (
            outs',
            rw (w.outputs.0.size, fits, one, many) e,
            l,
            all-done n m ins _ 0 outs'
                (λ p lt.
                  let known : 2 * p / size < count =
                    (div-lt_iff_lt-mul {k = size} {x = 2 * p} {y = count}
                        (omega (arith, s.least))).1
                      (omega (arith, s.covers)) in
                  covered_mentioned n size p (2 * p / size) (schedule count)
                    (f.complete (2 * p / size) known)
                    (own_range n size p (omega (arith, s.least)) lt
                      (piece_bounds n size (2 * p / size) count s.aligned known s.last_not_empty)))
                d,
          )
    ]
