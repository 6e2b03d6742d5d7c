-- ===== src/Gf2/Product.antt =====
-- The product of polynomials over GF(2) with no bound on the degree: what the words stand for.
use gopar_turbo.Base.{
  ℕ, zero, suc, ◌*◌, ◌/◌, ◌%◌, ◌^◌, ◌<◌, ◌≡◌, refl, sym, ◌∙◌, ap, ap₂, arith, ◌==◌, if◌then◌else◌,
  Bool-cases, ==_iff, inl, inr,
}
use gopar_turbo.Bits.{◌⊕◌}
use gopar_turbo.Bits.Xor.{
  zero-xor, xor-zero, xor_double, xor_interchange, xor_half, xor_parity, xor_fields, xor_self,
  xor_shift, xor_comm,
}
use native.Mathlib.Nat.{pow-suc}

-- The coefficient of `q` at 0, times `p`.
unfoldable pub digit_times : ℕ → ℕ → ℕ
digit_times p q = if q % 2 == 0 then 0 else p

-- `product n p q` is the product of `p` with the lowest `n` digits of `q`:
-- the sum of `p * x^i` over the digits `i` of `q` that are set.
unfoldable pub product : ℕ → ℕ → ℕ → ℕ
unfolding digit_times
product zero p q = 0
product (suc n) p q = digit_times p q ⊕ product n (2 * p) (q / 2)

digit_times-xor : (a b q : ℕ) → digit_times (a ⊕ b) q ≡ digit_times a q ⊕ digit_times b q
unfolding digit_times
digit_times-xor a b q = ground (arith, zero-xor 0)

pub digit_times_double : (p q : ℕ) → digit_times (2 * p) q ≡ 2 * digit_times p q
unfolding digit_times
digit_times_double p q = ground arith

digit_times_xor : (p a b : ℕ) → digit_times p (a ⊕ b) ≡ digit_times p a ⊕ digit_times p b
unfolding digit_times
digit_times_xor p a b =
    ground (arith, xor_parity a b, zero-xor 0, zero-xor p, xor-zero p, xor_self p)

-- The product distributes over sums, on both sides.
pub xor-product : (n a b q : ℕ) → product n (a ⊕ b) q ≡ product n a q ⊕ product n b q
unfolding product
xor-product zero a b q = sym (zero-xor 0)
xor-product (suc n) a b q =
    ap₂ ◌⊕◌ (digit_times-xor a b q) (
      ap (λ (t : ℕ). product n t (q / 2)) (sym (xor_double a b))
      ∙ xor-product n (2 * a) (2 * b) (q / 2))
    ∙ xor_interchange _ _ _ _

pub product-xor : (n p a b : ℕ) → product n p (a ⊕ b) ≡ product n p a ⊕ product n p b
unfolding product
product-xor zero p a b = sym (zero-xor 0)
product-xor (suc n) p a b =
    ap₂ ◌⊕◌ (digit_times_xor p a b)
      (ap (λ (t : ℕ). product n (2 * p) t) (xor_half a b) ∙ product-xor n (2 * p) (a / 2) (b / 2))
    ∙ xor_interchange _ _ _ _

pub product_double : (n p q : ℕ) → product n (2 * p) q ≡ 2 * product n p q
unfolding product
product_double zero p q = refl
product_double (suc n) p q =
    ap₂ ◌⊕◌ (digit_times_double p q) (product_double n (2 * p) (q / 2)) ∙ xor_double _ _

pub zero-product : (n q : ℕ) → product n 0 q ≡ 0
unfolding product digit_times
zero-product zero q = refl
zero-product (suc n) q = ground (arith, zero-product n (q / 2), zero-xor 0)

pub product-zero : (n p : ℕ) → product n p 0 ≡ 0
unfolding product digit_times
product-zero zero p = refl
product-zero (suc n) p = zero-xor _ ∙ product-zero n (2 * p)

-- A number is the sum of its lowest digit and the rest.
digit_split : (q d : ℕ) → q % 2 * 2 ^ d ⊕ q / 2 * 2 ^ suc d ≡ q * 2 ^ d
digit_split q d =
    ap (λ (t : ℕ). q % 2 * 2 ^ d ⊕ t) {x = q / 2 * 2 ^ suc d} {y = q / 2 * 2 ^ 1 * 2 ^ d}
      (omega (arith, ap (λ (t : ℕ). q / 2 * t) (pow-suc 2 d)))
    ∙ sym (xor_shift d (q % 2) (q / 2 * 2 ^ 1))
    ∙ ap (λ (t : ℕ). t * 2 ^ d)
        (xor_comm (q % 2) (q / 2 * 2 ^ 1)
          ∙ xor_fields 1 (q / 2) (q % 2) (omega arith)
          ∙ omega arith)

digit_times_pow : (d q : ℕ) → digit_times (2 ^ d) q ≡ q % 2 * 2 ^ d
unfolding digit_times
digit_times_pow d q = elim (Bool-cases (q % 2 == 0)) [
  | inl even ↦ rw even (omega (arith, ap (λ (t : ℕ). t * 2 ^ d) ((==_iff _ _).0 even)))
  | inr odd ↦ rw odd (omega (arith, ap (λ (t : ℕ). t * 2 ^ d) {x = q % 2} {y = 1} (ground arith)))
]

-- Multiplying by a power of x shifts.
pub pow-product : (n d q : ℕ) → q < 2 ^ n → product n (2 ^ d) q ≡ q * 2 ^ d
unfolding product
pow-product zero d q h = omega (arith, ap (λ (t : ℕ). t * 2 ^ d) {x = q} {y = 0} (omega arith))
pow-product (suc n) d q h =
    ap₂ ◌⊕◌ (digit_times_pow d q) (
      ap (λ (t : ℕ). product n t (q / 2)) {x = 2 * 2 ^ d} {y = 2 ^ suc d}
        (omega (arith, pow-suc 2 d))
      ∙ pow-product n (suc d) (q / 2) (omega (arith, pow-suc 2 n)))
    ∙ digit_split q d

-- Digits above the highest of `q` do not matter.
pub product_rounds : (n m p q : ℕ) → q < 2 ^ n → q < 2 ^ m → product n p q ≡ product m p q
unfolding product
product_rounds zero m p q h k =
    sym (product-zero m p) ∙ ap (product m p) {x = 0} {y = q} (omega arith)
product_rounds (suc n) zero p q h k =
    ap (product (suc n) p) {x = q} {y = 0} (omega arith) ∙ product-zero (suc n) p
product_rounds (suc n) (suc m) p q h k =
    ap (λ (t : ℕ). digit_times p q ⊕ t)
      (product_rounds n m (2 * p) (q / 2) (omega (arith, pow-suc 2 n)) (omega (arith, pow-suc 2 m)))
