-- ===== src/Gf2p16/Product.antt =====
-- The product of two residues, and the powers of 3 in it.
use gopar_turbo.Base.{
  ℕ, zero, suc, ◌+◌, ◌*◌, ◌/◌, ◌%◌, ◌^◌, ◌<◌, ◌≡◌, sym, ◌∙◌, ap, arith, subst, Bool-cases, inl, inr,
  ◌==◌,
}
use gopar_turbo.Bits.{◌⊕◌}
use gopar_turbo.Bits.Xor.{xor-lt}
use gopar_turbo.Gf2.Product.{
  digit_times, product, xor-product, product-xor, product_double, pow-product, zero-product,
  product-zero,
}
use gopar_turbo.Gf2p16.Residue.{
  Residue, xtime, Residue-unique, Residue-short, Residue-xor, Residue-xtime,
}
use gopar_turbo.Gf2p16.Generator.{triple, Residue-triple, power, power-lt, power-zero, power-suc}

-- The product, reduced after each digit of `b`.
mul_digits : ℕ → ℕ → ℕ → ℕ
mul_digits zero a b = 0
mul_digits (suc n) a b = digit_times a b ⊕ mul_digits n (xtime a) (b / 2)

pub mul : ℕ → ℕ → ℕ
mul a b = mul_digits 16 a b

Residue-digit : {p r : ℕ} (b : ℕ) → Residue p r → Residue (digit_times p b) (digit_times r b)
unfolding digit_times
Residue-digit {p} {r} b h = elim (Bool-cases (b % 2 == 0)) [
  | inl even ↦ rw even (Residue-short 0 (omega arith))
  | inr odd ↦ rw odd h
]

Residue-mul_digits :
    (n : ℕ) {p a : ℕ} (b : ℕ) → Residue p a → Residue (product n p b) (mul_digits n a b)
unfolding mul_digits product
Residue-mul_digits zero b h = Residue-short 0 (omega arith)
Residue-mul_digits (suc n) b h =
    Residue-xor (Residue-digit b h) (Residue-mul_digits n (b / 2) (Residue-xtime h))

-- `mul a b` is the residue of the product, for any polynomial that `a` is the residue of.
pub Residue-mul : {p a : ℕ} (b : ℕ) → Residue p a → Residue (product 16 p b) (mul a b)
unfolding mul
Residue-mul b h = Residue-mul_digits 16 b h

pub mul-lt : (a b : ℕ) → a < 2 ^ 16 → mul a b < 2 ^ 16
mul-lt a b h = let r = Residue-mul b (Residue-short a h) in r.r_lt

pub one-mul : (b : ℕ) → b < 2 ^ 16 → mul 1 b ≡ b
one-mul b h =
    Residue-unique (Residue-mul b (Residue-short 1 (omega arith)))
      (subst (λ p. Residue p b) (sym shifted) (Residue-short b h))
  where
    shifted : product 16 1 b ≡ b
    shifted = omega (arith, pow-product 16 0 b h)

-- The product distributes over sums, on both sides.
pub xor-mul : (a b c : ℕ) → a < 2 ^ 16 → b < 2 ^ 16 → mul (a ⊕ b) c ≡ mul a c ⊕ mul b c
xor-mul a b c ha hb = Residue-unique (Residue-mul c (Residue-short (a ⊕ b) (xor-lt 16 a b ha hb))) (
    subst (λ p. Residue p (mul a c ⊕ mul b c)) (sym (xor-product 16 a b c))
      (Residue-xor (Residue-mul c (Residue-short a ha)) (Residue-mul c (Residue-short b hb))))

pub mul-xor : (a b c : ℕ) → a < 2 ^ 16 → mul a (b ⊕ c) ≡ mul a b ⊕ mul a c
mul-xor a b c ha = Residue-unique (Residue-mul (b ⊕ c) (Residue-short a ha)) (
    subst (λ p. Residue p (mul a b ⊕ mul a c)) (sym (product-xor 16 a b c))
      (Residue-xor (Residue-mul b (Residue-short a ha)) (Residue-mul c (Residue-short a ha))))

-- Multiplication by 3 can be done before or after.
pub triple-mul : (a b : ℕ) → a < 2 ^ 16 → mul (triple a) b ≡ triple (mul a b)
triple-mul a b ha = Residue-unique (Residue-mul b (Residue-triple (Residue-short a ha))) (
    subst (λ p. Residue p (triple (mul a b))) (sym tripled)
      (Residue-triple (Residue-mul b (Residue-short a ha))))
  where
    tripled : product 16 (a ⊕ 2 * a) b ≡ product 16 a b ⊕ 2 * product 16 a b
    tripled =
        xor-product 16 a (2 * a) b ∙ ap (λ (t : ℕ). product 16 a b ⊕ t) (product_double 16 a b)

-- Exponents add up.
pub mul-power : (i j : ℕ) → mul (power i) (power j) ≡ power (i + j)
mul-power zero j =
    ap (λ (t : ℕ). mul t (power j)) power-zero
    ∙ one-mul (power j) (power-lt j)
    ∙ ap power {x = j} {y = 0 + j} (omega arith)
mul-power (suc i) j =
    ap (λ (t : ℕ). mul t (power j)) (power-suc i)
    ∙ triple-mul (power i) (power j) (power-lt i)
    ∙ ap triple (mul-power i j)
    ∙ sym (power-suc (i + j))
    ∙ ap power {x = suc (i + j)} {y = suc i + j} (omega arith)

pub zero-mul : (b : ℕ) → mul 0 b ≡ 0
zero-mul b =
    Residue-unique (Residue-mul b (Residue-short 0 (omega arith)))
      (subst (λ p. Residue p 0) (sym (zero-product 16 b)) (Residue-short 0 (omega arith)))

pub mul-zero : (a : ℕ) → a < 2 ^ 16 → mul a 0 ≡ 0
mul-zero a h =
    Residue-unique (Residue-mul 0 (Residue-short a h))
      (subst (λ p. Residue p 0) (sym (product-zero 16 a)) (Residue-short 0 (omega arith)))
