-- ===== src/Gf2p16/Slice.antt =====
-- gf2p16/slice.go: multiplication of whole slices, through two tables of products.
pub mod Products
pub mod Shape
use gopar_turbo.Base.{
  ℕ, zero, suc, ◌+◌, ◌*◌, ◌/◌, ◌%◌, ◌^◌, ◌≤◌, ◌<◌, ◌≡◌, refl, sym, ◌∙◌, ap, ap₂, arith, List, [],
  ◌∷◌, ◌++◌, map, Option, none, some, length, drop,
}
use gopar_turbo.Bits.{◌⊕◌}
use gopar_turbo.Bits.Xor.{xor_comm, xor_fields}
use gopar_turbo.Gf2p16.{times, plus}
use gopar_turbo.Gf2p16.Field.{times-plus}
use mathlib.Core.Option

-- `mulTableEntry`: the products of the coefficient with the low and with the high bytes.
pub record MulTableEntry : Type 0 where
  pub s0 : ℕ → ℕ
  pub s8 : ℕ → ℕ

-- `multiplicationTable`, without the cache.
pub multiplication_table : ℕ → MulTableEntry
multiplication_table c = record {
  s0 = λ j. times c (j % 2 ^ 16);
  s8 = λ j. times c (j * 2 ^ 8 % 2 ^ 16);
}

-- `cEntry.s0[x&0xff] ^ cEntry.s8[x>>8]`
pub table_times : ℕ → ℕ → ℕ
unfolding multiplication_table
table_times c x = (multiplication_table c).s0 (x % 2 ^ 8) ⊕ (multiplication_table c).s8 (x / 2 ^ 8)

-- The two lookups give the product.
pub table_times-times : (c x : ℕ) → c < 2 ^ 16 → x < 2 ^ 16 → table_times c x ≡ times c x
unfolding table_times plus
table_times-times c x hc hx =
    ap₂ ◌⊕◌ (ap (times c) {x = x % 2 ^ 8 % 2 ^ 16} {y = x % 2 ^ 8} (omega arith))
      (ap (times c) {x = x / 2 ^ 8 * 2 ^ 8 % 2 ^ 16} {y = x / 2 ^ 8 * 2 ^ 8} (omega arith))
    ∙ sym (times-plus c (x % 2 ^ 8) (x / 2 ^ 8 * 2 ^ 8) hc (omega arith) (omega arith))
    ∙ ap (times c) (
        xor_comm (x % 2 ^ 8) (x / 2 ^ 8 * 2 ^ 8)
        ∙ xor_fields 8 (x / 2 ^ 8) (x % 2 ^ 8) (omega arith)
        ∙ omega arith)

-- `mulSliceGeneric`: the output slice with its first `len(in)` elements replaced. It panics if the
-- output is the shorter.
pub mul_slice : ℕ → List ℕ → List ℕ → Option (List ℕ)
unfolding table_times
mul_slice c [] out = some out
mul_slice c (x ∷ xs) [] = none
mul_slice c (x ∷ xs) (y ∷ ys) = Option.map (◌∷◌ (table_times c x)) (mul_slice c xs ys)

-- `mulAndAddSliceGeneric`.
pub mul_and_add_slice : ℕ → List ℕ → List ℕ → Option (List ℕ)
unfolding table_times
mul_and_add_slice c [] out = some out
mul_and_add_slice c (x ∷ xs) [] = none
mul_and_add_slice c (x ∷ xs) (y ∷ ys) =
    Option.map (◌∷◌ (y ⊕ table_times c x)) (mul_and_add_slice c xs ys)

-- `cEntry.s0[in[i]] ^ cEntry.s8[in[i+1]]`
pub byte_times : ℕ → ℕ → ℕ → ℕ
unfolding multiplication_table
byte_times c lo hi = (multiplication_table c).s0 lo ⊕ (multiplication_table c).s8 hi

-- `mulByteSliceLEGeneric`: two bytes in each round. An odd length panics.
pub mul_byte_slice_le : ℕ → List ℕ → List ℕ → Option (List ℕ)
unfolding byte_times
mul_byte_slice_le c [] out = some out
mul_byte_slice_le c (a ∷ b ∷ xs) (y ∷ z ∷ ys) =
    Option.map (λ rest. (byte_times c a b % 2 ^ 8) ∷ (byte_times c a b / 2 ^ 8 % 2 ^ 8) ∷ rest)
      (mul_byte_slice_le c xs ys)
mul_byte_slice_le c _ _ = none

-- `mulAndAddByteSliceLEGeneric`.
pub mul_and_add_byte_slice_le : ℕ → List ℕ → List ℕ → Option (List ℕ)
unfolding byte_times
mul_and_add_byte_slice_le c [] out = some out
mul_and_add_byte_slice_le c (a ∷ b ∷ xs) (y ∷ z ∷ ys) =
    Option.map
      (λ rest. (y ⊕ byte_times c a b % 2 ^ 8) ∷ (z ⊕ byte_times c a b / 2 ^ 8 % 2 ^ 8) ∷ rest)
      (mul_and_add_byte_slice_le c xs ys)
mul_and_add_byte_slice_le c _ _ = none
