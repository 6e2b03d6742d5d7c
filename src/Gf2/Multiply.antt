-- ===== src/Gf2/Multiply.antt =====
-- `Poly64.Times` against the product of polynomials.
use gopar_turbo.Base.{
  ℕ, zero, suc, ◌*◌, ◌/◌, ◌%◌, ◌^◌, ◌<◌, ◌≡◌, refl, sym, ◌∙◌, ap, ap₂, arith, true, ◌||◌, ◌==◌,
  if◌then◌else◌, Bool-cases, ==_iff, inl, inr,
}
use gopar_turbo.Bits.{◌⊕◌}
use gopar_turbo.Bits.Xor.{zero-xor, xor-zero, xor_mod, xor_assoc}
use gopar_turbo.Gf2.{times, times_loop}
use gopar_turbo.Gf2.Product.{digit_times, product, zero-product, product-zero}
use native.Mathlib.Nat.{pow-suc}

-- As words, the product depends on its first factor as a word.
product-mod : (n p q : ℕ) → product n p q % 2 ^ 64 ≡ product n (p % 2 ^ 64) q % 2 ^ 64
unfolding product
product-mod zero p q = refl
product-mod (suc n) p q =
    xor_mod 64 (digit_times p q) (product n (2 * p) (q / 2))
    ∙ ap₂ ◌⊕◌ {x = digit_times p q % 2 ^ 64} {y = digit_times (p % 2 ^ 64) q % 2 ^ 64}
        (unfold digit_times in ground arith)
        (product-mod n (2 * p) (q / 2)
          ∙ ap (λ (t : ℕ). product n t (q / 2) % 2 ^ 64) {x = 2 * p % 2 ^ 64}
              {y = 2 * (p % 2 ^ 64) % 2 ^ 64} (omega arith)
          ∙ sym (product-mod n (2 * (p % 2 ^ 64)) (q / 2)))
    ∙ sym (xor_mod 64 (digit_times (p % 2 ^ 64) q) (product n (2 * (p % 2 ^ 64)) (q / 2)))

-- The loop stops early only when what is left of the product is 0.
nothing_left : (n p q : ℕ) → (p % 2 ^ 64 == 0 || q == 0) ≡ true → product n p q % 2 ^ 64 ≡ 0
nothing_left n p q h = elim (Bool-cases (q == 0)) [
  | inl e ↦
      ap (λ (t : ℕ). product n p t % 2 ^ 64) ((==_iff q 0).0 e)
      ∙ ap (λ (t : ℕ). t % 2 ^ 64) (product-zero n p)
  | inr ne ↦
      product-mod n p q
      ∙ ap (λ (t : ℕ). product n t q % 2 ^ 64) {x = p % 2 ^ 64} {y = 0} (ground arith)
      ∙ ap (λ (t : ℕ). t % 2 ^ 64) (zero-product n q)
]

abbrev collect : ℕ → ℕ → ℕ → ℕ
collect prod p q = if q % 2 == 0 then prod else prod ⊕ p % 2 ^ 64

collect_lem : (prod p q : ℕ) → collect prod p q ≡ prod ⊕ digit_times p q % 2 ^ 64
unfolding digit_times
collect_lem prod p q = ground (arith, xor-zero prod)

times_loop_lem :
    (n prod p q : ℕ) → q < 2 ^ n → times_loop n prod (p % 2 ^ 64) q ≡ prod ⊕ product n p q % 2 ^ 64
unfolding times_loop product
times_loop_lem zero prod p q h = sym (xor-zero prod)
times_loop_lem (suc n) prod p q h = elim (Bool-cases (p % 2 ^ 64 == 0 || q == 0)) [
  | inl stop ↦
      rw stop (sym (ap (λ (t : ℕ). prod ⊕ t) (nothing_left (suc n) p q stop) ∙ xor-zero prod))
  | inr more ↦ rw more (
      ap (λ (t : ℕ). times_loop n (collect prod p q) t (q / 2)) {x = p % 2 ^ 64 * 2 % 2 ^ 64}
        {y = 2 * p % 2 ^ 64} (omega arith)
      ∙ times_loop_lem n (collect prod p q) (2 * p) (q / 2) (omega (arith, pow-suc 2 n))
      ∙ ap (λ (t : ℕ). t ⊕ product n (2 * p) (q / 2) % 2 ^ 64) (collect_lem prod p q)
      ∙ xor_assoc prod _ _
      ∙ ap (λ (t : ℕ). prod ⊕ t) (sym (xor_mod 64 (digit_times p q) (product n (2 * p) (q / 2)))))
]

-- `Times` of two 64-bit words is the product of the polynomials, cut to 64 digits.
pub times-product : (p q : ℕ) → p < 2 ^ 64 → q < 2 ^ 64 → times p q ≡ product 64 p q % 2 ^ 64
unfolding times
times-product p q hp hq =
    ap (λ (t : ℕ). times_loop 64 0 t q) {x = p} {y = p % 2 ^ 64} (omega arith)
    ∙ times_loop_lem 64 0 p q hq
    ∙ zero-xor _
