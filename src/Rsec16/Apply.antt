-- ===== src/Rsec16/Apply.antt =====
-- rsec16/matrix.go: a matrix applied to the shards, by ranges of their bytes. This is the code of a
-- build without the native kernels, where `gf16.Accelerated` is false.
pub mod Rows
pub mod Parallel
pub mod Product
use gopar_turbo.Base.{
  ℕ, ◌+◌, ◌&&◌, ◌==◌, leb, ltb, if◌then◌else◌, List, [], ◌∷◌, ◌++◌, Option, none, some, length,
  take, drop,
}
use gopar_turbo.Base.Loops.{Outcome, ok, fault, require, ◌>>=◌, ◌>>◌}
use gopar_turbo.Gf2p16.Slice.{mul_byte_slice_le, mul_and_add_byte_slice_le}
use gopar_turbo.Matrix.{Matrix, Singular, at}
use gopar_turbo.Par2.Wire.{slice}
use gopar_turbo.Rsec16.Parallel.{calculate_parallel_params, range_of}

-- A panic of the slice routines.
unfoldable pub or_fault : Option (List ℕ) → Outcome Singular (List ℕ)
or_fault none = fault
or_fault (some out) = ok out

-- `bs[start:end]`, which panics out of bounds.
pub data_range : List ℕ → ℕ → ℕ → Outcome Singular (List ℕ)
data_range bs start stop =
    if leb start stop && leb stop (length bs) then ok (slice bs start stop) else fault

-- The loop over the inputs from `j` on.
pub add_inputs : Matrix → ℕ → ℕ → List (List ℕ) → ℕ → ℕ → List ℕ → Outcome Singular (List ℕ)
add_inputs m i j [] start stop out = ok out
add_inputs m i j (x ∷ xs) start stop out = do
  c ← at m i j
  in_slice ← data_range x start stop
  out' ← or_fault (mul_and_add_byte_slice_le c in_slice out)
  add_inputs m i (j + 1) xs start stop out'

-- A round of the outer loop of `applyMatrixSlice`: the range of one output row, written in place.
pub fill_range : Matrix → List (List ℕ) → ℕ → ℕ → ℕ → List ℕ → Outcome Singular (List ℕ)
fill_range m [] i start stop row = fault
fill_range m (x ∷ xs) i start stop row = do
  out_slice ← data_range row start stop
  c ← at m i 0
  in_slice ← data_range x start stop
  first ← or_fault (mul_byte_slice_le c in_slice out_slice)
  out ← add_inputs m i 1 xs start stop first
  ok (take start row ++ (out ++ drop stop row))

-- `applyMatrixSlice`, for the output rows from row `i` on.
pub apply_matrix_slice :
    Matrix → List (List ℕ) → ℕ → List (List ℕ) → ℕ → ℕ → Outcome Singular (List (List ℕ))
apply_matrix_slice m ins i [] start stop = ok []
apply_matrix_slice m ins i (row ∷ rows) start stop = do
  row' ← fill_range m ins i start stop row
  rows' ← apply_matrix_slice m ins (i + 1) rows start stop
  ok (row' ∷ rows')

-- `applyMatrixSingle`.
pub apply_matrix_single : Matrix → List (List ℕ) → List (List ℕ) → Outcome Singular (List (List ℕ))
apply_matrix_single m (x ∷ xs) (row ∷ rows) = do
  require (length x == length row)
  apply_matrix_slice m (x ∷ xs) 0 (row ∷ rows) 0 (length x)
apply_matrix_single m ins outs = fault

-- The goroutines of `applyMatrixParallelData`, in the order in which they run. Their ranges are
-- disjoint, so any interleaving is one of these orders.
pub run_goroutines :
    Matrix → List (List ℕ) → ℕ → ℕ → List ℕ → List (List ℕ) → Outcome Singular (List (List ℕ))
run_goroutines m ins total length [] outs = ok outs
run_goroutines m ins total length (g ∷ gs) outs = do
  outs' ← apply_matrix_slice m ins 0 outs (range_of total length g).0 (range_of total length g).1
  run_goroutines m ins total length gs outs'

-- `applyMatrixParallelData`; `schedule n` is the order in which `n` goroutines run.
pub apply_matrix_parallel_data :
    (ℕ → List ℕ) → Matrix → List (List ℕ) → List (List ℕ) → ℕ → Outcome Singular (List (List ℕ))
apply_matrix_parallel_data schedule m (x ∷ xs) (row ∷ rows) num_goroutines = do
  require (length x == length row)
  require (leb 1 num_goroutines)
  let params = calculate_parallel_params (length row) num_goroutines 16 16
  let single = apply_matrix_single m (x ∷ xs) (row ∷ rows)
  let parallel = run_goroutines m (x ∷ xs) (length row) params.0 (schedule params.1) (row ∷ rows)
  if ltb params.1 2 then single else parallel
apply_matrix_parallel_data schedule m ins outs num_goroutines = fault
