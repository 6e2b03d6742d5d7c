-- ===== src/Tests/Matrices.antt =====
-- gf2p16/matrix.go at concrete inputs.
use gopar_turbo.Base.{arith, ◌==◌, if◌then◌else◌, refl}
use gopar_turbo.Base.Loops.{Ensures}
use gopar_turbo.Matrix.{Matrix, row_reduce, inverse}
use gopar_turbo.Matrix.Inverse.{
  IsReduction, IsSystem, IsInverse, IsSquare, row_reduce-IsReduction, inverse-IsInverse,
}
use gopar_turbo.Matrix.Kernel.{HasKernel}

-- The rows are (0 2) and (3 1): the first round has to swap.
abbrev coefficients : Matrix
coefficients = record {
  rows = 2;
  columns = 2;
  elements = λ p. if p == 1 then 2 else if p == 2 then 3 else if p == 3 then 1 else 0;
}

abbrev companion : Matrix
companion = record { rows = 2; columns = 3; elements = λ p. if p == 4 then 0xffff else 5 }

coefficients-IsSquare : IsSquare coefficients
coefficients-IsSquare = (refl, omega arith, λ p. ground arith)

coefficients-IsSystem : IsSystem coefficients companion
coefficients-IsSystem = (refl, refl, omega arith, omega arith, λ p. ground arith, λ p. ground arith)

row_reduce-IsReduction_example :
    Ensures
      (IsReduction coefficients companion)
      (λ _. HasKernel coefficients)
      (row_reduce coefficients companion)
row_reduce-IsReduction_example = row_reduce-IsReduction coefficients companion coefficients-IsSystem

inverse-IsInverse_example :
    Ensures (IsInverse coefficients) (λ _. HasKernel coefficients) (inverse coefficients)
inverse-IsInverse_example = inverse-IsInverse coefficients coefficients-IsSquare
