-- ===== src/Rsec16/Reconstruct/System.antt =====
-- The equations that `makeReconstructionMatrix` sets up hold of the words of undamaged shards.
use gopar_turbo.Base.{
  ℕ, ◌+◌, ◌-◌, ◌<◌, ◌≡◌, refl, sym, ◌∙◌, ap, ap₂, arith, ◌==◌, ltb, if◌then◌else◌, List, length,
  get_or,
}
use gopar_turbo.Bits.{◌⊕◌}
use gopar_turbo.Bits.Xor.{xor_cancel}
use gopar_turbo.Gf2p16.{times}
use gopar_turbo.Matrix.{Matrix}
use gopar_turbo.Matrix.Grid.{entry, IsElements}
use gopar_turbo.Matrix.Dot.{Short, dot}
use gopar_turbo.Matrix.Solutions.{apply_row}
use gopar_turbo.Matrix.Kernel.{HasKernel, unit, unit-dot}
use gopar_turbo.Matrix.Build.{IsBuilt}
use gopar_turbo.Rsec16.Reconstruct.Sums.{total, upto, dot-ext, dot_append, dot-total, dot-upto}

-- Element `t` of a list of rows.
abbrev pub nth : List ℕ → ℕ → ℕ
nth rows t = get_or rows t 0

-- The elements of the two matrices.
abbrev pub missing_entry : Matrix → List ℕ → List ℕ → ℕ → ℕ → ℕ
missing_entry parity used missing i j = entry parity (nth used i) (nth missing j)

abbrev pub available_entry : Matrix → List ℕ → List ℕ → ℕ → ℕ → ℕ
available_entry parity used available i j =
    if ltb j (length available)
    then entry parity (nth used i) (nth available j)
    else if i == j - length available
    then 1
    else 0

-- Rows that are available, missing and used, of a parity matrix.
pub record IsSelection (parity : Matrix) (available missing used : List ℕ) : Type 0 where
  pub elements : IsElements parity.elements
  pub sums : (g : ℕ → ℕ) → total g (upto 0 parity.columns) ≡ total g available ⊕ total g missing
  pub size : length available + length used ≡ parity.columns
  pub same : length used ≡ length missing
  pub some_used : 0 < length used
  pub available_below : (t : ℕ) → t < length available → nth available t < parity.columns
  pub missing_below : (t : ℕ) → t < length missing → nth missing t < parity.columns
  pub used_below : (t : ℕ) → t < length used → nth used t < parity.rows

-- The inputs `w` are the data `d` at the available rows, and the parity of `d` at the used ones.
pub record AreInputs (parity : Matrix) (available used : List ℕ) (d w : ℕ → ℕ) : Type 0 where
  pub data_short : Short d
  pub short : Short w
  pub of_data : (t : ℕ) → t < length available → w t ≡ d (nth available t)
  pub of_parity :
      (t : ℕ)
      → t < length used
      → w (length available + t) ≡ dot parity.columns (entry parity (nth used t)) d

-- The matrix maps all such inputs to the missing data.
pub record IsRecovery (parity : Matrix) (available missing used : List ℕ) (result : Matrix)
    : Type 0 where
  pub rows_eq : result.rows ≡ length missing
  pub columns_eq : result.columns ≡ parity.columns
  pub elements : IsElements result.elements
  pub recovers :
      (d w : ℕ → ℕ)
      → AreInputs parity available used d w
      → (r : ℕ) → r < length missing
      → d (nth missing r) ≡ apply_row result w r

-- The parity matrix at the used and the missing rows is singular.
pub record IsDegenerate (parity : Matrix) (missing used : List ℕ) : Type 0 where
  pub block : Matrix
  pub built : IsBuilt (length used) (length used) (missing_entry parity used missing) block
  pub kernel : HasKernel block

module _ (parity : Matrix) (available missing used : List ℕ)
    (s : IsSelection parity available missing used) (d w : ℕ → ℕ)
    (h : AreInputs parity available used d w) (m n : Matrix)
    (left : IsBuilt (length used) (length used) (missing_entry parity used missing) m)
    (right : IsBuilt (length used) parity.columns (available_entry parity used available) n) (r : ℕ)
    (hr : r < length used) where
  product : ℕ → ℕ
  product j = times (entry parity (nth used r) j) (d j)

  left_row : apply_row m (λ t. d (nth missing t)) r ≡ total product missing
  unfolding product
  left_row =
      ap (λ (k : ℕ). dot k (entry m r) (λ t. d (nth missing t))) (left.columns_eq ∙ s.same)
      ∙ dot-total (entry parity (nth used r)) d missing _ _
          (λ t lt. left.entries r t hr (omega (arith, s.same))) (λ t lt. refl)

  front : dot (length available) (entry n r) w ≡ total product available
  unfolding product
  front =
      dot-total (entry parity (nth used r)) d available (entry n r) w
        (λ t lt. right.entries r t hr (omega (arith, s.size)) ∙ ground arith) h.of_data

  back :
      dot (length used) (λ t. entry n r (length available + t)) (λ t. w (length available + t))
      ≡ total product available ⊕ total product missing
  unfolding product
  back =
      dot-ext (length used) _ (unit r) _ _
        (λ t lt. right.entries r (length available + t) hr (omega (arith, s.size)) ∙ ground arith)
        (λ t lt. refl)
      ∙ unit-dot (length used) r (λ t. w (length available + t)) hr (λ t. h.short _)
      ∙ h.of_parity r hr
      ∙ dot-upto parity.columns (entry parity (nth used r)) d
      ∙ s.sums product

  right_row : apply_row n w r ≡ total product missing
  right_row =
      ap (λ (k : ℕ). dot k (entry n r) w) (right.columns_eq ∙ sym s.size)
      ∙ dot_append (length available) (length used) (entry n r) w
      ∙ ap₂ ◌⊕◌ front back
      ∙ xor_cancel (total product available) (total product missing)

  -- The missing words solve the equations.
  pub posed_equation : apply_row m (λ t. d (nth missing t)) r ≡ apply_row n w r
  posed_equation = left_row ∙ sym right_row
