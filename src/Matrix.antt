-- ===== src/Matrix.antt =====
-- gf2p16/matrix.go: matrices over the field, stored in row-major order.
pub mod Grid
pub mod Dot
pub mod RowOps
pub mod Solutions
pub mod Eliminate
pub mod Pivot
pub mod Echelon
pub mod Reduce
pub mod Build
pub mod Kernel
pub mod Inverse
use gopar_turbo.Base.{
  ℕ, zero, suc, ◌+◌, ◌*◌, ◌/◌, ◌%◌, ◌≡◌, Bool, not, ◌&&◌, ◌||◌, ◌==◌, ltb, if◌then◌else◌, Option,
  none, some, ◌-◌,
}
use gopar_turbo.Base.Loops.{Outcome, ok, fault, failure, ◌>>=◌, ◌>>◌, require, for_range, for_each}
use gopar_turbo.Bits.{◌⊕◌}
use gopar_turbo.Gf2p16.{update}
use gopar_turbo.Gf2p16
use gopar_turbo.Gf2p16.Slice.{table_times}

-- The array of `rows * columns` elements is a function of the index.
pub record Matrix : Type 0 where
  pub rows : ℕ
  pub columns : ℕ
  pub elements : ℕ → ℕ

pub data Singular : Type 0 where
  singular_matrix : Singular

-- `checkRowColumnCount`.
unfoldable pub check_row_column_count : ℕ → ℕ → Outcome Singular (Unit {0})
check_row_column_count rows columns = do require (not (rows == 0)); require (not (columns == 0))

-- `NewZeroMatrix`.
pub new_zero_matrix : ℕ → ℕ → Outcome Singular Matrix
new_zero_matrix rows columns = do
  check_row_column_count rows columns
  ok (record { rows = rows; columns = columns; elements = λ _. 0 })

-- The loops of `NewMatrixFromFunction`; `fn` may panic.
pub fill_row : ℕ → (ℕ → ℕ → Outcome Singular ℕ) → ℕ → (ℕ → ℕ) → Outcome Singular (ℕ → ℕ)
fill_row columns fn i elements =
    for_range columns 0 (λ j e. fn i j >>= λ v. ok (update e (i * columns + j) v)) elements

pub new_matrix_from_function : ℕ → ℕ → (ℕ → ℕ → Outcome Singular ℕ) → Outcome Singular Matrix
new_matrix_from_function rows columns fn = do
  check_row_column_count rows columns
  elements ← for_range rows 0 (fill_row columns fn) (λ _. 0)
  ok (record { rows = rows; columns = columns; elements = elements })

-- `NewIdentityMatrix`.
pub new_identity_matrix : ℕ → Outcome Singular Matrix
new_identity_matrix n = new_matrix_from_function n n (λ i j. ok (if i == j then 1 else 0))

-- `At`, with its two checks.
pub at : Matrix → ℕ → ℕ → Outcome Singular ℕ
at m i j = do require (ltb i m.rows); require (ltb j m.columns); ok (m.elements (i * m.columns + j))

-- The loop of `Times` for one element.
pub times_cell : Matrix → Matrix → ℕ → ℕ → Outcome Singular ℕ
times_cell m n i j =
    for_range m.columns 0
      (λ k t. do m_ik ← at m i k; n_kj ← at n k j; ok (t ⊕ Gf2p16.times m_ik n_kj)) 0

pub times : Matrix → Matrix → Outcome Singular Matrix
times m n = do
  require (m.columns == n.rows)
  new_matrix_from_function m.rows n.columns (times_cell m n)

-- `swapRows`: the two rows are slices of the elements.
pub swap_body : ℕ → ℕ → ℕ → ℕ → (ℕ → ℕ) → ℕ → ℕ
swap_body columns i j k e =
    update (update e (i * columns + k) (e (j * columns + k))) (j * columns + k)
      (e (i * columns + k))

pub swap_rows : ℕ → ℕ → Matrix → Outcome Singular Matrix
swap_rows i j m = do
  require (ltb i m.rows)
  require (ltb j m.rows)
  ok (
      if i == j
      then m
      else record m { elements = for_each m.columns 0 (swap_body m.columns i j) m.elements })

-- `scaleRow`: `mulSlice` from the row to itself.
pub scale_body : ℕ → ℕ → ℕ → ℕ → (ℕ → ℕ) → ℕ → ℕ
scale_body columns i c k e = update e (i * columns + k) (table_times c (e (i * columns + k)))

pub scale_row : ℕ → ℕ → Matrix → Outcome Singular Matrix
scale_row i c m = do
  require (ltb i m.rows)
  ok (record m { elements = for_each m.columns 0 (scale_body m.columns i c) m.elements })

-- `addScaledRow`: `mulAndAddSlice` from one row to another.
pub add_body : ℕ → ℕ → ℕ → ℕ → ℕ → (ℕ → ℕ) → ℕ → ℕ
add_body columns dest src c k e =
    update e (dest * columns + k) (e (dest * columns + k) ⊕ table_times c (e (src * columns + k)))

pub add_scaled_row : ℕ → ℕ → ℕ → Matrix → Outcome Singular Matrix
add_scaled_row dest src c m = do
  require (ltb src m.rows)
  require (ltb dest m.rows)
  ok (record m { elements = for_each m.columns 0 (add_body m.columns dest src c) m.elements })

-- The two matrices that `rowReduceForInverse` works on in place.
pub record Pair : Type 0 where
  pub left : Matrix
  pub right : Matrix

-- The search for a pivot from row `j` on, with the swap and the `break`.
pub find_pivot : ℕ → ℕ → ℕ → Pair → Outcome Singular (ℕ × Pair)
find_pivot zero j i p = ok (0, p)
find_pivot (suc n) j i p = do
  v ← at p.left j i
  let rest = find_pivot n (suc j) i p
  let found : Outcome Singular (ℕ × Pair) = do
    left ← swap_rows i j p.left
    right ← swap_rows i j p.right
    pivot ← at left i i
    ok (pivot, record { left = left; right = right })
  if v == 0 then rest else found

-- Zero out the element at row `j`, column `i`, by row `i`.
pub eliminate : ℕ → ℕ → Pair → Outcome Singular Pair
eliminate i j p = do
  t ← at p.left j i
  let change : Outcome Singular Pair = do
    left ← add_scaled_row j i t p.left
    right ← add_scaled_row j i t p.right
    ok (record { left = left; right = right })
  if t == 0 then ok p else change

-- `pivot.Inverse()` panics on 0.
pub field_inverse : ℕ → Outcome Singular ℕ
field_inverse t = elim (Gf2p16.inverse t) [ none ↦ fault | some s ↦ ok s ]

-- A round of the first loop: a pivot, scaled to 1, with zeros below.
pub down_round : ℕ → Pair → Outcome Singular Pair
down_round i p = do
  found ← find_pivot (p.left.rows - i) i i p
  let go : Outcome Singular Pair = do
    pivot_inv ← field_inverse found.0
    left ← scale_row i pivot_inv found.1.left
    right ← scale_row i pivot_inv found.1.right
    for_range (p.left.rows - (i + 1)) (i + 1) (eliminate i) (record { left = left; right = right })
  if found.0 == 0 then failure singular_matrix else go

-- A round of the second loop: zeros above the pivot.
pub up_round : ℕ → Pair → Outcome Singular Pair
up_round i p = for_range i 0 (eliminate i) p

pub row_reduce_for_inverse : Pair → Outcome Singular Pair
row_reduce_for_inverse p = do
  p' ← for_range p.left.rows 0 down_round p
  for_range p.left.rows 0 up_round p'

-- `clone`: a new matrix from the same elements.
pub clone : Matrix → Outcome Singular Matrix
clone m = do check_row_column_count m.rows m.columns; ok m

-- `Inverse`.
pub inverse : Matrix → Outcome Singular Matrix
inverse m = do
  require (m.rows == m.columns)
  m_inv ← new_identity_matrix m.columns
  m' ← clone m
  p ← row_reduce_for_inverse (record { left = m'; right = m_inv })
  ok p.right

-- `RowReduceForInverse`.
pub row_reduce : Matrix → Matrix → Outcome Singular Matrix
row_reduce m n = do
  require (m.rows == m.columns)
  require (n.rows == m.rows)
  n_reduced ← clone n
  m' ← clone m
  p ← row_reduce_for_inverse (record { left = m'; right = n_reduced })
  ok p.right
