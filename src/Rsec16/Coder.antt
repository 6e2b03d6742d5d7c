-- ===== src/Rsec16/Coder.antt =====
-- rsec16/coder.go: coders of data and parity shards. This is the code of a build without the native
-- kernels, where `gf16.Accelerated` is false.
pub mod Order
pub mod Generators
pub mod Valid
pub mod Vandermonde
use gopar_turbo.Base.{
  ℕ, zero, suc, ◌+◌, ◌-◌, ◌*◌, ◌%◌, ◌^◌, Bool, true, false, ◌||◌, ◌==◌, ltb, leb, if◌then◌else◌,
  Option, none, some, List, [], ◌∷◌, ◌++◌, length, get_elem?, replicate,
}
use gopar_turbo.Base.Loops.{Outcome, fault, failure, ok, ◌>>=◌, ◌>>◌, require}
use gopar_turbo.Gf2p16
use gopar_turbo.Matrix.{Matrix, Singular, new_matrix_from_function, field_inverse}

-- The errors, with that of the matrices.
pub data CoderError : Type 0 where
  too_many_shards : CoderError
  too_many_data_shards : CoderError
  too_many_parity_shards : CoderError
  parity_exponent_out_of_range : CoderError
  not_enough_parity_shards : CoderError
  matrix_error : Singular → CoderError

-- An error of the matrices, passed on.
abbrev pub lift : {A : Type 0} → Outcome Singular A → Outcome CoderError A
lift fault = fault
lift (failure e) = failure (matrix_error e)
lift (ok a) = ok a

-- `list[i]`.
unfoldable pub index : List ℕ → ℕ → Outcome Singular ℕ
index xs i = elim (get_elem? xs i) [ none ↦ fault | some x ↦ ok x ]

-- The loop of `init`, from `i` on, and the table that it leaves.
pub collect_generators : ℕ → ℕ → List ℕ
collect_generators zero i = []
collect_generators (suc rounds) i =
    let rest = collect_generators rounds (i + 1) in
    let g = Gf2p16.pow 2 i in
    if i % 3 == 0 || (i % 5 == 0 || (i % 17 == 0 || i % 257 == 0)) then rest else g ∷ rest

pub generators : List ℕ
generators = collect_generators (2 ^ 16) 0

-- rsec16/cauchy.go and rsec16/vandermonde.go.
pub new_cauchy_matrix :
    ℕ → ℕ → (ℕ → Outcome Singular ℕ) → (ℕ → Outcome Singular ℕ) → Outcome Singular Matrix
new_cauchy_matrix rows columns x_func y_func =
    new_matrix_from_function rows columns
      (λ i j. do x ← x_func i; y ← y_func j; field_inverse (Gf2p16.plus x y))

pub new_vandermonde_matrix : ℕ → ℕ → (ℕ → Outcome Singular ℕ) → Outcome Singular Matrix
new_vandermonde_matrix rows columns alpha_column_func =
    new_matrix_from_function rows columns
      (λ i j. do alpha ← alpha_column_func j; ok (Gf2p16.pow alpha (i % 2 ^ 32)))

pub record Coder : Type 0 where
  pub data_shards : ℕ
  pub parity_shards : ℕ
  pub num_goroutines : ℕ
  pub parity_matrix : Matrix

-- `newCauchyParityMatrix`.
pub new_cauchy_parity_matrix : ℕ → ℕ → Outcome Singular Matrix
new_cauchy_parity_matrix data_shards parity_shards =
    new_cauchy_matrix parity_shards data_shards (λ i. ok ((data_shards + i) % 2 ^ 16))
      (λ i. ok (i % 2 ^ 16))

-- `NewCoderCauchy`.
pub new_coder_cauchy : ℕ → ℕ → ℕ → Outcome CoderError Coder
new_coder_cauchy data_shards parity_shards num_goroutines = do
  require (leb 1 data_shards)
  require (leb 1 parity_shards)
  require (leb 1 num_goroutines)
  let build : Outcome CoderError Coder = do
    parity_matrix ← lift (new_cauchy_parity_matrix data_shards parity_shards)
    ok (record {
      data_shards = data_shards;
      parity_shards = parity_shards;
      num_goroutines = num_goroutines;
      parity_matrix = parity_matrix;
    })
  if ltb 65535 (data_shards + parity_shards) then failure too_many_shards else build

-- `newVandermondeParityMatrix`.
pub new_vandermonde_parity_matrix : ℕ → ℕ → Outcome Singular Matrix
new_vandermonde_parity_matrix data_shards parity_shards =
    new_vandermonde_matrix parity_shards data_shards (index generators)

-- `NewCoderPAR2Vandermonde`.
pub new_coder_par2_vandermonde : ℕ → ℕ → ℕ → Outcome CoderError Coder
new_coder_par2_vandermonde data_shards parity_shards num_goroutines = do
  require (leb 1 data_shards)
  require (leb 1 parity_shards)
  require (leb 1 num_goroutines)
  let build : Outcome CoderError Coder = do
    parity_matrix ← lift (new_vandermonde_parity_matrix data_shards parity_shards)
    ok (record {
      data_shards = data_shards;
      parity_shards = parity_shards;
      num_goroutines = num_goroutines;
      parity_matrix = parity_matrix;
    })
  let checked = if ltb 65535 parity_shards then failure too_many_parity_shards else build
  if ltb (length generators) data_shards then failure too_many_data_shards else checked

-- The check of the exponents, which are not negative here.
pub exponents_in_range : List ℕ → Bool
exponents_in_range [] = true
exponents_in_range (row ∷ rows) = if ltb 65535 row then false else exponents_in_range rows

-- `NewCoderPAR2VandermondeRows`.
pub new_coder_par2_vandermonde_rows : ℕ → List ℕ → ℕ → Outcome CoderError Coder
new_coder_par2_vandermonde_rows data_shards parity_rows num_goroutines = do
  require (leb 1 data_shards)
  require (leb 1 (length parity_rows))
  require (leb 1 num_goroutines)
  let build : Outcome CoderError Coder = do
    parity_matrix ← lift (
        new_matrix_from_function (length parity_rows) data_shards (λ i j. do
          g ← index generators j
          row ← index parity_rows i
          ok (Gf2p16.pow g (row % 2 ^ 32))))
    ok (record {
      data_shards = data_shards;
      parity_shards = length parity_rows;
      num_goroutines = num_goroutines;
      parity_matrix = parity_matrix;
    })
  let checked =
      if exponents_in_range parity_rows then build else failure parity_exponent_out_of_range
  if ltb (length generators) data_shards then failure too_many_data_shards else checked
