-- ===== src/Matrix/Inverse.antt =====
-- `RowReduceForInverse` solves linear equations, and `Inverse` finds the inverse.
use gopar_turbo.Base.{ℕ, ◌<◌, ◌≡◌, ◌↔◌, refl, sym, ◌∙◌, ap, arith, ◌==◌, if◌then◌else◌, true}
use gopar_turbo.Base.Loops.{ok, ◌>>=◌, Ensures, Ensures-mono, Ensures-error, Ensures-bind}
use gopar_turbo.Matrix.{
  Matrix, Pair, row_reduce_for_inverse, row_reduce, inverse, clone, check_row_column_count, times,
}
use gopar_turbo.Matrix.Grid.{entry, IsElements}
use gopar_turbo.Matrix.Dot.{Short, dot, dot_congr}
use gopar_turbo.Matrix.Solutions.{Solves, apply_row}
use gopar_turbo.Matrix.Eliminate.{IsPair}
use gopar_turbo.Matrix.Kernel.{HasKernel, Stuck-HasKernel, unit, unit-Short, unit-dot, dot-unit}
use gopar_turbo.Matrix.Echelon.{Stuck}
use gopar_turbo.Matrix.Reduce.{IsReduced, row_reduce_for_inverse-Ensures}
use gopar_turbo.Matrix.Build.{IsBuilt, new_identity_matrix-IsBuilt, times-IsBuilt}

-- The rows of a reduced left matrix read the vector off.
reduced_row :
    (p0 p : Pair) (h : IsPair p0)
    → IsReduced p0 h p
    → (x : ℕ → ℕ) (r : ℕ) → r < p0.left.rows
    → Short x
    → apply_row p.left x r ≡ x r
reduced_row p0 p h red x r hr hx =
    ap (λ (t : ℕ). dot t (entry p.left r) x) (red.keeps.left_columns ∙ h.square)
    ∙ dot_congr p0.left.rows (entry p.left r) (unit r) x (λ k lt. red.identity r k hr lt)
    ∙ unit-dot p0.left.rows r x hr hx

-- The equations `m x = n w` hold exactly if `x` is the result applied to `w`.
unfoldable pub IsSolution : Matrix → Matrix → Matrix → Type 0
IsSolution m n result =
    (x w : ℕ → ℕ)
    → Short x
    → Short w
    → ((r : ℕ) → r < m.rows → apply_row m x r ≡ apply_row n w r)
      ↔ ((r : ℕ) → r < m.rows → x r ≡ apply_row result w r)

reduced-IsSolution :
    (p0 p : Pair) (h : IsPair p0) → IsReduced p0 h p → IsSolution p0.left p0.right p.right
unfolding IsSolution Solves
reduced-IsSolution p0 p h red x w hx hw = (
  λ s r lt.
      sym (reduced_row p0 p h red x r lt hx)
      ∙ red.keeps.forth x w hx hw s r (omega (arith, red.keeps.left_rows)),
  λ s. red.keeps.back x w hx hw (λ r lt.
      reduced_row p0 p h red x r (omega (arith, red.keeps.left_rows)) hx
      ∙ s r (omega (arith, red.keeps.left_rows))),
)

-- What `RowReduceForInverse` promises of its result.
pub record IsReduction (m n result : Matrix) : Type 0 where
  pub rows_eq : result.rows ≡ n.rows
  pub columns_eq : result.columns ≡ n.columns
  pub elements : IsElements result.elements
  pub solution : IsSolution m n result

-- A square matrix that its caller may invert, with a companion of as many rows.
abbrev pub IsSystem : Matrix → Matrix → Type 0
IsSystem m n =
    (m.columns ≡ m.rows)
    × (n.rows ≡ m.rows)
    × (0 < m.rows)
    × (0 < n.columns)
    × IsElements m.elements
    × IsElements n.elements

pub system-IsPair : (m n : Matrix) → IsSystem m n → IsPair (record { left = m; right = n })
system-IsPair m n (square, same, pr, pc, em, en) = record {
  square = square;
  same_rows = same;
  left_elements = em;
  right_elements = en;
}

clone-ok : (m : Matrix) → 0 < m.rows → 0 < m.columns → clone m ≡ ok m
unfolding clone check_row_column_count
clone-ok m hr hc = ground arith

test : (a b : ℕ) → a ≡ b → (a == b) ≡ true
test a b e = ground arith

reduce_pair :
    (m n : Matrix) (h : IsPair (record { left = m; right = n }))
    → Ensures
        (IsReduction m n)
        (λ _. HasKernel m)
        (row_reduce_for_inverse (record { left = m; right = n }) >>= λ p. ok p.right)
reduce_pair m n h =
    Ensures-bind (IsReduced (record { left = m; right = n }) h) (IsReduction m n) (λ _. HasKernel m)
      (row_reduce_for_inverse (record { left = m; right = n })) (λ p. ok p.right)
      (Ensures-error (IsReduced (record { left = m; right = n }) h)
        (λ _. Stuck (record { left = m; right = n }) h) (λ _. HasKernel m)
        (row_reduce_for_inverse (record { left = m; right = n }))
        (row_reduce_for_inverse-Ensures (record { left = m; right = n }) h)
        (λ _ st. Stuck-HasKernel (record { left = m; right = n }) h st))
      (λ p red. record {
        rows_eq = red.keeps.right_rows;
        columns_eq = red.keeps.right_columns;
        elements = red.keeps.right_elements;
        solution = reduced-IsSolution (record { left = m; right = n }) p h red;
      })

-- For a square matrix `m` and a matrix `n` of as many rows, both of field elements and neither
-- empty, `RowReduceForInverse` never panics. The matrix that it returns has the shape of `n`, and
-- for all vectors `x` and `w` the equations `m x = n w` hold exactly if `x` is that matrix applied
-- to `w`. It reports a singular matrix only if `m` maps some vector other than 0 to 0.
pub row_reduce-IsReduction :
    (m n : Matrix) (s : IsSystem m n)
    → Ensures (IsReduction m n) (λ _. HasKernel m) (row_reduce m n)
unfolding row_reduce
row_reduce-IsReduction m n s =
    let (square, same, pr, pc, em, en) = s in
    rw
      (
        test m.rows m.columns (sym square),
        test n.rows m.rows same,
        clone-ok n (omega arith) pc,
        clone-ok m pr (omega arith),
      )
      (reduce_pair m n (system-IsPair m n s))

-- Both products with the result are the identity matrix.
pub record IsInverse (m m' : Matrix) : Type 0 where
  pub left_product : Matrix
  pub right_product : Matrix
  pub left_times : times m' m ≡ ok left_product
  pub right_times : times m m' ≡ ok right_product
  pub left_identity : IsBuilt m.rows m.rows (λ r k. if r == k then 1 else 0) left_product
  pub right_identity : IsBuilt m.rows m.rows (λ r k. if r == k then 1 else 0) right_product

-- A square matrix of field elements.
abbrev pub IsSquare : Matrix → Type 0
IsSquare m = (m.columns ≡ m.rows) × (0 < m.rows) × IsElements m.elements

abbrev pub delta : ℕ → ℕ → ℕ
delta r k = if r == k then 1 else 0

delta_comm : (r k : ℕ) → delta r k ≡ delta k r
delta_comm r k = ground arith

IsBuilt-congr :
    {rows columns rows' columns' : ℕ} {m : Matrix} (f g : ℕ → ℕ → ℕ)
    → IsBuilt rows columns f m
    → rows ≡ rows'
    → columns ≡ columns'
    → ((r k : ℕ) → r < rows → k < columns → f r k ≡ g r k)
    → IsBuilt rows' columns' g m
IsBuilt-congr f g b er ec h = record {
  rows_eq = b.rows_eq ∙ er;
  columns_eq = b.columns_eq ∙ ec;
  elements = b.elements;
  entries =
      λ r k hr hk. b.entries r k (omega arith) (omega arith) ∙ h r k (omega arith) (omega arith);
}

module _ (m i m' : Matrix) (s : IsSquare m) (b : IsBuilt m.rows m.rows delta i)
    (red : IsReduction m i m') where
  pub identity_row : (w : ℕ → ℕ) (r : ℕ) → r < m.rows → Short w → apply_row i w r ≡ w r
  identity_row w r hr hw =
      ap (λ (t : ℕ). dot t (entry i r) w) b.columns_eq
      ∙ dot_congr m.rows (entry i r) (unit r) w (λ k lt. b.entries r k hr lt)
      ∙ unit-dot m.rows r w hr hw

  size : m'.columns ≡ m.rows
  size = red.columns_eq ∙ b.columns_eq

  size_rows : m'.rows ≡ m.rows
  size_rows = red.rows_eq ∙ b.rows_eq

  -- The column `k` of `m` is what `m` makes of a unit vector.
  left_entry :
      (r k : ℕ)
      → r < m.rows
      → k < m.rows
      → dot m'.columns (entry m' r) (λ l. entry m l k) ≡ delta r k
  unfolding IsSolution
  left_entry r k hr hk =
      sym (
        (red.solution (unit k) (λ l. entry m l k) (unit-Short k) (λ l. s.2 _)).0
          (λ q hq.
            dot-unit m.columns k (entry m q) (omega (arith, s.0)) (λ l. s.2 _)
            ∙ sym (identity_row (λ l. entry m l k) q hq (λ l. s.2 _)))
          r hr)
      ∙ delta_comm k r

  right_entry :
      (r k : ℕ)
      → r < m.rows
      → k < m.rows
      → dot m.columns (entry m r) (λ l. entry m' l k) ≡ delta r k
  unfolding IsSolution
  right_entry r k hr hk =
      (red.solution (λ l. entry m' l k) (unit k) (λ l. red.elements _) (unit-Short k)).1
        (λ q hq.
          sym (dot-unit m'.columns k (entry m' q) (omega (arith, size)) (λ l. red.elements _)))
        r hr
      ∙ identity_row (unit k) r hr (unit-Short k)
      ∙ delta_comm k r

  result-IsInverse : IsInverse m m'
  result-IsInverse =
      let (p, pe, pb) =
        times-IsBuilt m' m size (omega (arith, s.1, size_rows)) (omega (arith, s.0, s.1))
          red.elements s.2 in
      let (q, qe, qb) =
        times-IsBuilt m m' (s.0 ∙ sym size_rows) s.1 (omega (arith, s.1, size)) s.2 red.elements in
      record {
        left_product = p;
        right_product = q;
        left_times = pe;
        right_times = qe;
        left_identity =
            IsBuilt-congr _ delta pb size_rows s.0
              (λ r k hr hk. left_entry r k (omega (arith, size_rows)) (omega (arith, s.0)));
        right_identity =
            IsBuilt-congr _ delta qb refl size
              (λ r k hr hk. right_entry r k hr (omega (arith, size)));
      }

-- The companion of `Inverse` is an identity matrix.
pub record IsIdentityReduction (m m' : Matrix) : Type 0 where
  pub identity : Matrix
  pub built : IsBuilt m.rows m.rows delta identity
  pub reduction : IsReduction m identity m'

pub inverse-IsIdentityReduction :
    (m : Matrix) → IsSquare m → Ensures (IsIdentityReduction m) (λ _. HasKernel m) (inverse m)
unfolding inverse
inverse-IsIdentityReduction m s =
    let (i, ie, b') = new_identity_matrix-IsBuilt m.columns (omega (arith, s.0, s.1)) in
    let b : IsBuilt m.rows m.rows delta i =
      IsBuilt-congr delta delta b' s.0 s.0 (λ r k hr hk. refl) in
    rw (test m.rows m.columns (sym s.0), ie, clone-ok m s.1 (omega (arith, s.0, s.1)))
      (Ensures-mono (IsReduction m i) (IsIdentityReduction m) (λ _. HasKernel m) _
        (reduce_pair m i (record {
          square = s.0;
          same_rows = b.rows_eq;
          left_elements = s.2;
          right_elements = b.elements;
        }))
        (λ m' red. record { identity = i; built = b; reduction = red }))

-- `Inverse` of a square matrix of field elements that is not empty never panics. What it returns is the inverse on both sides; it
-- reports a singular matrix only if `m` maps some vector other than 0 to 0.
pub inverse-IsInverse :
    (m : Matrix) → IsSquare m → Ensures (IsInverse m) (λ _. HasKernel m) (inverse m)
inverse-IsInverse m s =
    Ensures-mono (IsIdentityReduction m) (IsInverse m) (λ _. HasKernel m) (inverse m)
      (inverse-IsIdentityReduction m s)
      (λ m' red. result-IsInverse m red.identity m' s red.built red.reduction)
