-- ===== src/Rsec16/Fold.antt =====
-- rsec16/fold.go: a matrix applied to inputs that are read one at a time. This is the code of a
-- build without the native kernels, where `gf16.Accelerated` is false.
pub mod Product
use gopar_turbo.Base.{
  ℕ, zero, suc, ◌+◌, ◌*◌, ◌/◌, ◌%◌, ◌^◌, ◌||◌, ◌==◌, ltb, leb, if◌then◌else◌, List, [], ◌∷◌, ◌++◌,
  length, take, drop, replicate,
}
use gopar_turbo.Base.Loops.{Outcome, ok, fault, ◌>>=◌}
use gopar_turbo.Gf2p16.Slice.{mul_and_add_byte_slice_le}
use gopar_turbo.Matrix.{Matrix, Singular, at}
use gopar_turbo.Rsec16.Apply.{or_fault}

-- `binary.LittleEndian.PutUint16(buf[2*k:], v)`, which panics behind the end.
unfoldable pub put_uint16 : List ℕ → ℕ → ℕ → Outcome Singular (List ℕ)
put_uint16 buf k v =
    if leb (2 * k + 2) (length buf)
    then ok (take (2 * k) buf ++ ((v % 2 ^ 8) ∷ (v / 2 ^ 8 % 2 ^ 8) ∷ drop (2 * k + 2) buf))
    else fault

-- `binary.LittleEndian.Uint16`.
unfoldable pub first_word : List ℕ → Outcome Singular ℕ
first_word (a ∷ b ∷ xs) = ok (a + b * 2 ^ 8)
first_word _ = fault

-- The same of `bs[2*k:]`.
unfoldable pub get_uint16 : List ℕ → ℕ → Outcome Singular ℕ
get_uint16 bs k = first_word (drop (2 * k) bs)

-- Input `j`, folded into the output rows from row `i` on. The workers share the rows out among them.
pub fold_input : Matrix → ℕ → List ℕ → ℕ → List (List ℕ) → Outcome Singular (List (List ℕ))
fold_input m j buf i [] = ok []
fold_input m j buf i (row ∷ rows) = do
  c ← at m i j
  row' ← or_fault (mul_and_add_byte_slice_le c buf row)
  rows' ← fold_input m j buf (i + 1) rows
  ok (row' ∷ rows')

-- The loop of `foldInputsPureGo` over the inputs from `j` on. `next j` returns the buffer of input
-- `j` as it has filled it, or an error or a panic.
pub fold_loop :
    Matrix
    → (ℕ → Outcome Singular (List ℕ))
    → ℕ
    → ℕ
    → List (List ℕ)
    → Outcome Singular (List (List ℕ))
fold_loop m next zero j outs = ok outs
fold_loop m next (suc n) j outs = do
  buf ← next j
  outs' ← fold_input m j buf 0 outs
  fold_loop m next n (j + 1) outs'

-- `clear(out[i])` for every row.
pub clear_rows : List (List ℕ) → List (List ℕ)
clear_rows [] = []
clear_rows (row ∷ rows) = replicate (length row) 0 ∷ clear_rows rows

-- `foldInputsPureGo`.
pub fold_inputs_pure_go :
    Matrix → ℕ → (ℕ → Outcome Singular (List ℕ)) → List (List ℕ) → Outcome Singular (List (List ℕ))
fold_inputs_pure_go m num_inputs next outs = fold_loop m next num_inputs 0 (clear_rows outs)

-- `FoldInputs` and `foldInputs`.
pub fold_inputs :
    Matrix → ℕ → (ℕ → Outcome Singular (List ℕ)) → List (List ℕ) → Outcome Singular (List (List ℕ))
fold_inputs m num_inputs next outs =
    if length outs == 0 || num_inputs == 0
    then ok outs
    else fold_inputs_pure_go m num_inputs next outs
