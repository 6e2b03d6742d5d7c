-- ===== src/Rsec16/Fold/Product.antt =====
-- `foldInputsPureGo` multiplies the inputs by the matrix.
use gopar_turbo.Base.{
  ℕ, zero, suc, ◌+◌, ◌*◌, ◌≤◌, ◌<◌, ◌≡◌, refl, ◌∙◌, ap, arith, ◌==◌, false, List, [], ◌∷◌, length,
  replicate, length-replicate, subst,
}
use gopar_turbo.Base.Loops.{Outcome, ok}
use gopar_turbo.Bits.{◌⊕◌}
use gopar_turbo.Gf2p16.{times}
use gopar_turbo.Gf2p16.Slice.Products.{Bytes, words}
use gopar_turbo.Matrix.{Matrix, Singular}
use gopar_turbo.Matrix.Grid.{entry, IsElements}
use gopar_turbo.Matrix.Dot.{dot}
use gopar_turbo.Matrix.RowOps.{at-entry}
use gopar_turbo.Rsec16.Words.{word, mul_and_add-IsProduct}
use gopar_turbo.Rsec16.Apply.{or_fault}
use gopar_turbo.Rsec16.Apply.Rows.{IsShard, AreShards}
use gopar_turbo.Rsec16.Fold.{fold_input, fold_loop, clear_rows, fold_inputs_pure_go, fold_inputs}

-- The rows from row `i` on, once the inputs before `j` are added.
abbrev pub AreSums : ℕ → Matrix → (ℕ → List ℕ) → ℕ → ℕ → List (List ℕ) → Type 0
AreSums n m input j i [] = Unit
AreSums n m input j i (row ∷ rows) =
    IsShard n row
    × ((p : ℕ) → word row p ≡ dot j (entry m i) (λ t. word (input t) p))
    × AreSums n m input j (suc i) rows

pub Bytes-replicate : (n : ℕ) → Bytes (replicate n 0)
Bytes-replicate zero = tt
Bytes-replicate (suc n) = (omega arith, Bytes-replicate n)

pub word-replicate : (n p : ℕ) → word (replicate (2 * n) 0) p ≡ 0
unfolding words
word-replicate zero p = refl
word-replicate (suc n) zero = let size : 2 * suc n ≡ suc (suc (2 * n)) = omega arith in rw size refl
word-replicate (suc n) (suc p) =
    let size : 2 * suc n ≡ suc (suc (2 * n)) = omega arith in rw size (word-replicate n p)

pub zero-IsShard : (n : ℕ) → IsShard n (replicate (2 * n) 0)
zero-IsShard n = record { size = length-replicate (2 * n) 0; bytes = Bytes-replicate (2 * n) }

module _ (n : ℕ) (m : Matrix) (input : ℕ → List ℕ) (he : IsElements m.elements) where
  cleared-AreSums :
      (i : ℕ) (rows : List (List ℕ))
      → AreShards n rows
      → AreSums n m input 0 i (clear_rows rows) × (length (clear_rows rows) ≡ length rows)
  unfolding clear_rows dot
  cleared-AreSums i [] h = (tt, refl)
  cleared-AreSums i (row ∷ rows) h =
      let rest = cleared-AreSums (suc i) rows h.1 in
      rw (h.0.size) ((zero-IsShard n, word-replicate n, rest.0), ap suc rest.1)

  fold_input-AreSums :
      (j i : ℕ) (rows : List (List ℕ))
      → j < m.columns
      → i + length rows ≤ m.rows
      → IsShard n (input j)
      → AreSums n m input j i rows
      → (rows' : List (List ℕ)) × (fold_input m j (input j) i rows ≡ ok rows')
        × (length rows' ≡ length rows)
        × AreSums n m input (suc j) i rows'
  unfolding fold_input or_fault dot
  fold_input-AreSums j i [] hj hi hs h = ([], refl, refl, tt)
  fold_input-AreSums j i (row ∷ rows) hj hi hs h =
      let next : i + 1 ≡ suc i = omega arith in
      let (row', e, r) =
        mul_and_add-IsProduct n (entry m i j) (input j) row (he _) hs.bytes h.0.bytes hs.size
          h.0.size in
      let (rows', es, l, rest) = fold_input-AreSums j (suc i) rows hj (omega arith) hs h.2 in
      (
        row' ∷ rows',
        rw (at-entry m i j (omega arith) hj, e, next, es) refl,
        ap suc l,
        (
          record { size = r.size; bytes = r.bytes },
          (λ p. r.value p ∙ ap (λ (s : ℕ). s ⊕ times (entry m i j) (word (input j) p)) (h.1 p)),
          rest,
        ),
      )

  fold_loop-AreSums :
      (next : ℕ → Outcome Singular (List ℕ)) (count j : ℕ) (rows : List (List ℕ))
      → j + count ≤ m.columns
      → length rows ≤ m.rows
      → ((t : ℕ) → t < j + count → next t ≡ ok (input t))
      → ((t : ℕ) → t < j + count → IsShard n (input t))
      → AreSums n m input j 0 rows
      → (rows' : List (List ℕ)) × (fold_loop m next count j rows ≡ ok rows')
        × (length rows' ≡ length rows)
        × AreSums n m input (j + count) 0 rows'
  unfolding fold_loop
  fold_loop-AreSums next zero j rows hj hr hn hs h =
      let last : j ≡ j + 0 = omega arith in
      (rows, refl, refl, subst (λ k. AreSums n m input k 0 rows) last h)
  fold_loop-AreSums next (suc count) j rows hj hr hn hs h =
      let step : j + 1 ≡ suc j = omega arith in
      let (rows1, e1, l1, h1) =
        fold_input-AreSums j 0 rows (omega arith) (omega arith) (hs j (omega arith)) h in
      let (rows2, e2, l2, h2) =
        fold_loop-AreSums next count (suc j) rows1 (omega arith) (omega arith)
          (λ t lt. hn t (omega arith)) (λ t lt. hs t (omega arith)) h1 in
      let total : suc j + count ≡ j + suc count = omega arith in
      (
        rows2,
        rw (hn j (omega arith), e1, step) e2,
        l2 ∙ l1,
        subst (λ k. AreSums n m input k 0 rows2) total h2,
      )

-- A matrix of field elements, with a row for each output and a column for each input, and inputs
-- and outputs of the same even number of bytes.
pub record IsFoldable (n : ℕ) (m : Matrix) (num_inputs : ℕ) (input : ℕ → List ℕ)
    (outs : List (List ℕ)) : Type 0 where
  pub elements : IsElements m.elements
  pub some_inputs : 0 < num_inputs
  pub some_outputs : 0 < length outs
  pub columns : num_inputs ≤ m.columns
  pub rows : length outs ≤ m.rows
  pub inputs : (t : ℕ) → t < num_inputs → IsShard n (input t)
  pub outputs : AreShards n outs

-- For a matrix of field elements that has a row for each output and a column for each input, and
-- for at least one input and output of the same even number of bytes, where the callback `next`
-- fills in each input and never fails, `FoldInputs` does not panic. Each word of an output is the
-- product of the row of the matrix with the words of the inputs at the same place, whatever the
-- outputs held before.
pub fold_inputs-AreSums :
    (n : ℕ) (m : Matrix) (num_inputs : ℕ) (input : ℕ → List ℕ)
    (next : ℕ → Outcome Singular (List ℕ)) (outs : List (List ℕ))
    → IsFoldable n m num_inputs input outs
    → ((t : ℕ) → t < num_inputs → next t ≡ ok (input t))
    → (outs' : List (List ℕ)) × (fold_inputs m num_inputs next outs ≡ ok outs')
      × (length outs' ≡ length outs)
      × AreSums n m input num_inputs 0 outs'
unfolding fold_inputs fold_inputs_pure_go
fold_inputs-AreSums n m num_inputs input next outs f hn =
    let (cleared, l) = cleared-AreSums n m input f.elements 0 outs f.outputs in
    let (outs', e, l', h) =
      fold_loop-AreSums n m input f.elements next num_inputs 0 (clear_rows outs)
        (omega (arith, f.columns)) (omega (arith, f.rows)) (λ t lt. hn t (omega arith))
        (λ t lt. f.inputs t (omega arith)) cleared in
    (
      outs',
      rw (not_zero (length outs) f.some_outputs, not_zero num_inputs f.some_inputs) e,
      l' ∙ l,
      subst (λ k. AreSums n m input k 0 outs') {x = 0 + num_inputs} {y = num_inputs} (omega arith)
          h,
    )
  where
    not_zero : (k : ℕ) → 0 < k → (k == 0) ≡ false
    not_zero k h = ground arith
