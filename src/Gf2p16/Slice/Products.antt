-- ===== src/Gf2p16/Slice/Products.antt =====
-- The slice operations multiply, and add, element by element.
use gopar_turbo.Base.{
  ℕ, ◌+◌, ◌-◌, ◌*◌, ◌/◌, ◌%◌, ◌^◌, ◌≤◌, ◌<◌, ◌≡◌, refl, sym, ◌∙◌, ap, ap₂, arith, List, [], ◌∷◌,
  ◌++◌, map, some, length, drop,
}
use gopar_turbo.Bits.{◌⊕◌}
use gopar_turbo.Bits.Xor.{xor_comm, xor_fields, xor-lt, xor_interchange, xor_shift}
use gopar_turbo.Gf2p16.{times, plus}
use gopar_turbo.Gf2p16.Field.{times-plus, times-lt}
use gopar_turbo.Gf2p16.Slice.{
  table_times-times, mul_slice, mul_and_add_slice, byte_times, mul_byte_slice_le,
  mul_and_add_byte_slice_le, multiplication_table,
}

-- Elements of the field, and bytes.
abbrev pub Elements : List ℕ → Type 0
Elements [] = Unit
Elements (x ∷ xs) = (x < 2 ^ 16) × Elements xs

abbrev pub Bytes : List ℕ → Type 0
Bytes [] = Unit
Bytes (x ∷ xs) = (x < 2 ^ 8) × Bytes xs

-- `xs` added to the first elements of `ys`.
unfoldable pub add_front : List ℕ → List ℕ → List ℕ
add_front [] ys = ys
add_front (x ∷ xs) [] = []
add_front (x ∷ xs) (y ∷ ys) = plus y x ∷ add_front xs ys

-- On field elements, with an output at least as long as the input, `mulSliceGeneric` returns the
-- products in place of the first elements, and leaves what lies behind.
pub mul_slice-map :
    (c : ℕ) (xs out : List ℕ)
    → c < 2 ^ 16
    → Elements xs
    → length xs ≤ length out
    → mul_slice c xs out ≡ some (map (times c) xs ++ drop (length xs) out)
unfolding mul_slice
mul_slice-map c [] out hc hx h = refl
mul_slice-map c (x ∷ xs) [] hc hx h = absurd (omega arith)
mul_slice-map c (x ∷ xs) (y ∷ ys) hc hx h =
    rw (mul_slice-map c xs ys hc hx.1 (omega arith), table_times-times c x hc hx.0) refl

-- On field elements, with an output at least as long as the input, `mulAndAddSliceGeneric` adds
-- the products to the first elements of the output.
pub mul_and_add_slice-map :
    (c : ℕ) (xs out : List ℕ)
    → c < 2 ^ 16
    → Elements xs
    → length xs ≤ length out
    → mul_and_add_slice c xs out ≡ some (add_front (map (times c) xs) out)
unfolding mul_and_add_slice add_front plus
mul_and_add_slice-map c [] out hc hx h = refl
mul_and_add_slice-map c (x ∷ xs) [] hc hx h = absurd (omega arith)
mul_and_add_slice-map c (x ∷ xs) (y ∷ ys) hc hx h =
    rw (mul_and_add_slice-map c xs ys hc hx.1 (omega arith), table_times-times c x hc hx.0) refl

-- The elements that a slice of bytes stands for, the low byte first.
unfoldable pub words : List ℕ → List ℕ
words (a ∷ b ∷ xs) = (a + b * 2 ^ 8) ∷ words xs
words _ = []

byte_times-times :
    (c a b : ℕ) → c < 2 ^ 16 → a < 2 ^ 8 → b < 2 ^ 8 → byte_times c a b ≡ times c (a + b * 2 ^ 8)
unfolding byte_times multiplication_table plus
byte_times-times c a b hc ha hb =
    ap₂ ◌⊕◌ (ap (times c) {x = a % 2 ^ 16} {y = a} (omega arith))
      (ap (times c) {x = b * 2 ^ 8 % 2 ^ 16} {y = b * 2 ^ 8} (omega arith))
    ∙ sym (times-plus c a (b * 2 ^ 8) hc (omega arith) (omega arith))
    ∙ ap (times c) (xor_comm a (b * 2 ^ 8) ∙ xor_fields 8 b a ha ∙ omega arith)

-- A value of 16 bits from its two bytes.
join_bytes : (v : ℕ) → v < 2 ^ 16 → v % 2 ^ 8 + v / 2 ^ 8 % 2 ^ 8 * 2 ^ 8 ≡ v
join_bytes v h = omega arith

-- Bytes are added one by one as words are.
join_xor :
    (y z v : ℕ)
    → y < 2 ^ 8
    → z < 2 ^ 8
    → v < 2 ^ 16
    → (y ⊕ v % 2 ^ 8) + (z ⊕ v / 2 ^ 8 % 2 ^ 8) * 2 ^ 8 ≡ plus (y + z * 2 ^ 8) v
unfolding plus
join_xor y z v hy hz hv =
    omega (
      arith,
      xor_fields 8 (z ⊕ v / 2 ^ 8 % 2 ^ 8) (y ⊕ v % 2 ^ 8)
          (xor-lt 8 y (v % 2 ^ 8) hy (omega arith)),
    )
    ∙ ap (λ (t : ℕ). t ⊕ (y ⊕ v % 2 ^ 8)) (xor_shift 8 z (v / 2 ^ 8 % 2 ^ 8))
    ∙ xor_interchange (z * 2 ^ 8) (v / 2 ^ 8 % 2 ^ 8 * 2 ^ 8) y (v % 2 ^ 8)
    ∙ ap₂ ◌⊕◌ (xor_fields 8 z y hy ∙ omega arith)
        (xor_fields 8 (v / 2 ^ 8 % 2 ^ 8) (v % 2 ^ 8) (omega arith) ∙ omega arith)

-- On two slices of the same even number of bytes, `mulByteSliceLEGeneric` returns bytes whose
-- little-endian elements are the products of those of the input.
pub words-mul_byte_slice_le :
    (n c : ℕ) (xs ys : List ℕ)
    → c < 2 ^ 16
    → Bytes xs
    → length xs ≡ 2 * n
    → length ys ≡ 2 * n
    → (out : List ℕ) × (mul_byte_slice_le c xs ys ≡ some out)
      × (words out ≡ map (times c) (words xs))
unfolding mul_byte_slice_le words
words-mul_byte_slice_le n c [] [] hc hx ex ey = ([], refl, refl)
words-mul_byte_slice_le n c [] (y ∷ ys) hc hx ex ey = absurd (omega arith)
words-mul_byte_slice_le n c (a ∷ []) ys hc hx ex ey = absurd (omega arith)
words-mul_byte_slice_le n c (a ∷ b ∷ xs) [] hc hx ex ey = absurd (omega arith)
words-mul_byte_slice_le n c (a ∷ b ∷ xs) (y ∷ []) hc hx ex ey = absurd (omega arith)
words-mul_byte_slice_le n c (a ∷ b ∷ xs) (y ∷ z ∷ ys) hc (ha, (hb, hx)) ex ey =
    let (out, e, w) = words-mul_byte_slice_le (n - 1) c xs ys hc hx (omega arith) (omega arith) in
    let v = byte_times c a b in
    let ve : v ≡ times c (a + b * 2 ^ 8) = byte_times-times c a b hc ha hb in
    (
      (v % 2 ^ 8) ∷ (v / 2 ^ 8 % 2 ^ 8) ∷ out,
      rw e refl,
      ap₂ ◌∷◌ (join_bytes v (omega (arith, ve, times-lt c (a + b * 2 ^ 8) hc (omega arith))) ∙ ve)
          w,
    )

-- On two slices of the same even number of bytes, `mulAndAddByteSliceLEGeneric` adds the products
-- of the little-endian elements of the input to those of the output.
pub words-mul_and_add_byte_slice_le :
    (n c : ℕ) (xs ys : List ℕ)
    → c < 2 ^ 16
    → Bytes xs
    → Bytes ys
    → length xs ≡ 2 * n
    → length ys ≡ 2 * n
    → (out : List ℕ) × (mul_and_add_byte_slice_le c xs ys ≡ some out)
      × (words out ≡ add_front (map (times c) (words xs)) (words ys))
unfolding mul_and_add_byte_slice_le words add_front
words-mul_and_add_byte_slice_le n c [] [] hc hx hy ex ey = ([], refl, refl)
words-mul_and_add_byte_slice_le n c [] (y ∷ ys) hc hx hy ex ey = absurd (omega arith)
words-mul_and_add_byte_slice_le n c (a ∷ []) ys hc hx hy ex ey = absurd (omega arith)
words-mul_and_add_byte_slice_le n c (a ∷ b ∷ xs) [] hc hx hy ex ey = absurd (omega arith)
words-mul_and_add_byte_slice_le n c (a ∷ b ∷ xs) (y ∷ []) hc hx hy ex ey = absurd (omega arith)
words-mul_and_add_byte_slice_le n c (a ∷ b ∷ xs) (y ∷ z ∷ ys) hc (ha, (hb, hx)) (p, (q, hy)) ex ey =
    let (out, e, w) =
      words-mul_and_add_byte_slice_le (n - 1) c xs ys hc hx hy (omega arith) (omega arith) in
    let v = byte_times c a b in
    let ve : v ≡ times c (a + b * 2 ^ 8) = byte_times-times c a b hc ha hb in
    (
      (y ⊕ v % 2 ^ 8) ∷ (z ⊕ v / 2 ^ 8 % 2 ^ 8) ∷ out,
      rw e refl,
      ap₂ ◌∷◌
          (join_xor y z v p q (omega (arith, ve, times-lt c (a + b * 2 ^ 8) hc (omega arith)))
            ∙ ap (plus (y + z * 2 ^ 8)) ve)
          w,
    )
