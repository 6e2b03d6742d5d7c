-- ===== src/Gf2p16/Slice/Shape.antt =====
-- The byte routines keep the size of the output, and its bytes are bytes.
use gopar_turbo.Base.{
  ℕ, suc, ◌^◌, ◌<◌, ◌≡◌, refl, ap, arith, List, [], ◌∷◌, Option, none, some, length,
}
use gopar_turbo.Bits.Xor.{xor-lt}
use gopar_turbo.Gf2p16.Slice.{mul_byte_slice_le, mul_and_add_byte_slice_le}
use gopar_turbo.Gf2p16.Slice.Products.{Bytes}
use mathlib.Core.Option

abbrev pub HasShape : List ℕ → Option (List ℕ) → Type 0
HasShape ys none = Unit
HasShape ys (some out) = (length out ≡ length ys) × (Bytes ys → Bytes out)

HasShape-map :
    (y z a b : ℕ) (ys : List ℕ) (o : Option (List ℕ))
    → (y < 2 ^ 8 → a < 2 ^ 8)
    → (z < 2 ^ 8 → b < 2 ^ 8)
    → HasShape ys o
    → HasShape (y ∷ z ∷ ys) (Option.map (λ rest. a ∷ b ∷ rest) o)
HasShape-map y z a b ys none ha hb h = tt
HasShape-map y z a b ys (some out) ha hb h =
    (ap (λ (n : ℕ). suc (suc n)) h.0, λ w. (ha w.0, (hb w.1.0, h.1 w.1.1)))

pub mul-HasShape : (c : ℕ) (xs ys : List ℕ) → HasShape ys (mul_byte_slice_le c xs ys)
unfolding mul_byte_slice_le
mul-HasShape c [] ys = (refl, λ w. w)
mul-HasShape c (a ∷ []) [] = tt
mul-HasShape c (a ∷ []) (y ∷ ys) = tt
mul-HasShape c (a ∷ b ∷ xs) [] = tt
mul-HasShape c (a ∷ b ∷ xs) (y ∷ []) = tt
mul-HasShape c (a ∷ b ∷ xs) (y ∷ z ∷ ys) =
    HasShape-map y z _ _ ys (mul_byte_slice_le c xs ys) (λ h. omega arith) (λ h. omega arith)
      (mul-HasShape c xs ys)

pub mul_and_add-HasShape :
    (c : ℕ) (xs ys : List ℕ) → HasShape ys (mul_and_add_byte_slice_le c xs ys)
unfolding mul_and_add_byte_slice_le
mul_and_add-HasShape c [] ys = (refl, λ w. w)
mul_and_add-HasShape c (a ∷ []) [] = tt
mul_and_add-HasShape c (a ∷ []) (y ∷ ys) = tt
mul_and_add-HasShape c (a ∷ b ∷ xs) [] = tt
mul_and_add-HasShape c (a ∷ b ∷ xs) (y ∷ []) = tt
mul_and_add-HasShape c (a ∷ b ∷ xs) (y ∷ z ∷ ys) =
    HasShape-map y z _ _ ys (mul_and_add_byte_slice_le c xs ys) (λ h. xor-lt 8 y _ h (omega arith))
      (λ h. xor-lt 8 z _ h (omega arith)) (mul_and_add-HasShape c xs ys)
