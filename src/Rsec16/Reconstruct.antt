-- ===== src/Rsec16/Reconstruct.antt =====
-- rsec16/coder.go: parity shards, and missing data shards from those that are left. This is the code
-- of a build without the native kernels, where `gf16.Accelerated` is false.
pub mod Sums
pub mod Split
pub mod System
pub mod Solve
pub mod Companion
pub mod Folded
pub mod Restore
pub mod Damage
pub mod Recover
pub mod Roundtrip
use gopar_turbo.Base.{
  ℕ, zero, suc, ◌+◌, ◌-◌, ◌*◌, ◌||◌, ◌==◌, ltb, if◌then◌else◌, Option, none, some, List, [], ◌∷◌,
  ◌++◌, length, replicate,
}
use gopar_turbo.Base.Loops.{Outcome, fault, failure, ok, ◌>>=◌}
use gopar_turbo.Matrix.{Matrix, Singular, new_matrix_from_function, at, row_reduce}
use gopar_turbo.Matrix
use gopar_turbo.Rsec16.Apply.{apply_matrix_parallel_data}
use gopar_turbo.Rsec16.Fold.{fold_inputs, put_uint16, get_uint16}
use gopar_turbo.Rsec16.Coder.{Coder, CoderError, not_enough_parity_shards, lift, index}

-- `make([]byte, n)` for each of `rows` rows.
pub zero_rows : ℕ → ℕ → List (List ℕ)
zero_rows rows n = replicate rows (replicate n 0)

-- The parity matrix at the used rows and the missing ones.
pub missing_cell : Matrix → List ℕ → List ℕ → ℕ → ℕ → Outcome Singular ℕ
missing_cell parity used missing i j = do k ← index used i; l ← index missing j; at parity k l

-- The parity matrix at the used rows and the available ones, with the identity behind.
pub available_cell : Matrix → List ℕ → List ℕ → ℕ → ℕ → Outcome Singular ℕ
available_cell parity used available i j =
    if ltb j (length available)
    then missing_cell parity used available i j
    else ok (if i == j - length available then 1 else 0)

-- `makeReconstructionMatrix`.
pub make_reconstruction_matrix : ℕ → List ℕ → List ℕ → List ℕ → Matrix → Outcome Singular Matrix
make_reconstruction_matrix data_shards available missing used parity = do
  m ← new_matrix_from_function (length used) (length used) (missing_cell parity used missing)
  n ← new_matrix_from_function (length used) data_shards (available_cell parity used available)
  row_reduce m n

-- The loop of the closure that fills input `i` of the fold, from position `j` on.
pub put_available : Matrix → ℕ → ℕ → List ℕ → List ℕ → Outcome Singular (List ℕ)
put_available parity k j [] buf = ok buf
put_available parity k j (row ∷ rows) buf = do
  v ← at parity k row
  buf' ← put_uint16 buf j v
  put_available parity k (j + 1) rows buf'

-- The closure: a row of `2 * data_shards` bytes.
pub companion_row : ℕ → List ℕ → List ℕ → Matrix → ℕ → Outcome Singular (List ℕ)
companion_row data_shards available used parity i = do
  let blank : List ℕ = replicate (2 * data_shards) 0
  k ← index used i
  buf ← put_available parity k 0 available blank
  put_uint16 buf (length available + i) 1

-- An element of the matrix that is read from the rows of bytes.
pub read_cell : List (List ℕ) → ℕ → ℕ → Outcome Singular ℕ
read_cell [] i j = fault
read_cell (row ∷ rows) zero j = get_uint16 row j
read_cell (row ∷ rows) (suc i) j = read_cell rows i j

-- The other branch of `ReconstructionMatrix`: the inverse of the small system, folded.
pub fold_reconstruction_matrix : ℕ → List ℕ → List ℕ → List ℕ → Matrix → Outcome Singular Matrix
fold_reconstruction_matrix data_shards available missing used parity = do
  square ←
      new_matrix_from_function (length used) (length missing) (missing_cell parity used missing)
  inverse ← Matrix.inverse square
  out ←
      fold_inputs inverse (length used) (companion_row data_shards available used parity)
        (zero_rows (length missing) (2 * data_shards))
  new_matrix_from_function (length missing) data_shards (read_cell out)

-- `ReconstructionMatrix`.
pub reconstruction_matrix : Coder → List ℕ → List ℕ → List ℕ → Outcome Singular Matrix
reconstruction_matrix c available missing used =
    if ltb (length missing) 32 || ltb c.data_shards (4 * length missing)
    then make_reconstruction_matrix c.data_shards available missing used c.parity_matrix
    else fold_reconstruction_matrix c.data_shards available missing used c.parity_matrix

-- The first loop of `ReconstructData`, from row `i` on.
pub record Rows : Type 0 where
  pub available : List ℕ
  pub missing : List ℕ
  pub input : List (List ℕ)

pub split_rows : ℕ → List (Option (List ℕ)) → Rows
split_rows i [] = record { available = []; missing = []; input = [] }
split_rows i (shard ∷ shards) =
    let rest = split_rows (i + 1) shards in
    elim shard [
      | some s ↦ record rest { available = i ∷ rest.available; input = s ∷ rest.input }
      | none ↦ record rest { missing = i ∷ rest.missing }
    ]

-- The second loop: parity shards, from row `i` on, until `wanted` are found.
pub record Parity : Type 0 where
  pub used : List ℕ
  pub input : List (List ℕ)

pub choose_parity : ℕ → ℕ → List (Option (List ℕ)) → Parity
choose_parity zero i shards = record { used = []; input = [] }
choose_parity (suc wanted) i [] = record { used = []; input = [] }
choose_parity (suc wanted) i (none ∷ shards) = choose_parity (suc wanted) (i + 1) shards
choose_parity (suc wanted) i (some s ∷ shards) =
    let rest = choose_parity wanted (i + 1) shards in
    record { used = i ∷ rest.used; input = s ∷ rest.input }

-- `data[r] = shard`.
pub set_shard : List (Option (List ℕ)) → ℕ → List ℕ → List (Option (List ℕ))
set_shard [] r shard = []
set_shard (s ∷ shards) zero shard = some shard ∷ shards
set_shard (s ∷ shards) (suc r) shard = s ∷ set_shard shards r shard

-- The last loop.
pub fill_shards : List ℕ → List (List ℕ) → List (Option (List ℕ)) → List (Option (List ℕ))
fill_shards (r ∷ rs) (shard ∷ shards) all = fill_shards rs shards (set_shard all r shard)
fill_shards _ _ all = all

module _ (schedule : ℕ → List ℕ) where
  -- `GenerateParity`.
  pub generate_parity : Coder → List (List ℕ) → Outcome Singular (List (List ℕ))
  generate_parity c [] = fault
  generate_parity c (d ∷ ds) =
      apply_matrix_parallel_data schedule c.parity_matrix (d ∷ ds)
        (zero_rows c.parity_shards (length d)) c.num_goroutines

  -- The reconstruction itself, and `input[0]`.
  pub reconstruct_rows :
      Coder
      → Rows
      → Parity
      → List (Option (List ℕ))
      → List (List ℕ)
      → Outcome CoderError (List (Option (List ℕ)))
  reconstruct_rows c rows parity all [] = fault
  reconstruct_rows c rows parity all (x ∷ input) = do
    m ← lift (reconstruction_matrix c rows.available rows.missing parity.used)
    out ← lift (
        apply_matrix_parallel_data schedule m (x ∷ input)
          (zero_rows (length rows.missing) (length x)) c.num_goroutines)
    ok (fill_shards rows.missing out all)

  -- `ReconstructData`: the data shards, filled in.
  pub reconstruct_data :
      Coder
      → List (Option (List ℕ))
      → List (Option (List ℕ))
      → Outcome CoderError (List (Option (List ℕ)))
  reconstruct_data c shards parity_shards =
      let rows = split_rows 0 shards in
      let parity = choose_parity (c.data_shards - length rows.input) 0 parity_shards in
      let input = rows.input ++ parity.input in
      let rebuilt = reconstruct_rows c rows parity shards input in
      if length rows.missing == 0
      then ok shards
      else if ltb (length input) c.data_shards
      then failure not_enough_parity_shards
      else rebuilt
