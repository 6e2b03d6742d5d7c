-- ===== src/Tests/Poly.antt =====
-- gf2/poly64.go at concrete inputs.
use gopar_turbo.Base.{◌<◌, ◌%◌, ◌^◌, ◌≡◌, ◌⊎◌, refl, arith, some}
use gopar_turbo.Gf2.{Division, times, div, ilog2, plus}
use gopar_turbo.Gf2.Product.{product}
use gopar_turbo.Gf2.Multiply.{times-product}
use gopar_turbo.Gf2.Divide.{plus-times-div}

times_runs : times 0b1011 0b110 ≡ 0b111010
unfolding times
times_runs = refl

times_wraps : times (2 ^ 63) 0b11 ≡ 2 ^ 63
unfolding times
times_wraps = refl

div_runs : div 0x12345 0x1100b ≡ some (record { q = 1; r = 0x334e })
unfolding div
div_runs = refl

times-product_example : times 0b1011 0b110 ≡ product 64 0b1011 0b110 % 2 ^ 64
times-product_example = times-product 0b1011 0b110 (omega arith) (omega arith)

plus-times-div_example :
    (result : Division) × (div 0x12345 0x1100b ≡ some result)
    × (plus (times result.q 0x1100b) result.r ≡ 0x12345)
    × ((result.r ≡ 0) ⊎ (ilog2 result.r < ilog2 0x1100b))
plus-times-div_example = plus-times-div 0x12345 0x1100b (omega arith) (omega arith) (omega arith)
