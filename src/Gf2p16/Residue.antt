-- ===== src/Gf2p16/Residue.antt =====
-- Polynomials modulo x^16 + x^12 + x^3 + x + 1: every polynomial has exactly one residue.
use gopar_turbo.Base.{
  ℕ, zero, suc, ◌+◌, ◌*◌, ◌/◌, ◌^◌, ◌≤◌, ◌<◌, ◌≡◌, sym, ◌∙◌, ap, ap₂, arith, leb, if◌then◌else◌,
  Bool-cases, inl, inr,
}
use gopar_turbo.Bits.{◌⊕◌}
use gopar_turbo.Bits.Xor.{
  zero-xor, xor-zero, xor_comm, xor-lt, xor-lt_same_length, xor-ge, xor_self, xor_interchange,
  xor_double, eq_of_xor-zero,
}
use gopar_turbo.Bits.Powers.{pow_mono, leading_digit}
use gopar_turbo.Gf2.Product.{
  digit_times, product, xor-product, pow-product, product_double, product-zero, zero-product,
}
use native.Mathlib.Nat.{pow-suc}
use native.Mathlib.Decide.{ℕ_discrete}

abbrev modulus : ℕ
modulus = 0x1100b

-- `r` has degree below 16 and differs from `p` by a multiple of the modulus.
pub record Residue (p r : ℕ) : Type 0 where
  pub q : ℕ
  pub r_lt : r < 2 ^ 16
  pub equation : product 64 q modulus ⊕ r ≡ p

digit_times-le : (p q : ℕ) → digit_times p q ≤ p
unfolding digit_times
digit_times-le p q = ground arith

-- A product has the degrees of its factors added up.
product-ge :
    (n j k p m : ℕ)
    → j < n
    → 2 ^ k ≤ p
    → p < 2 ^ suc k
    → 2 ^ j ≤ m
    → m < 2 ^ suc j
    → 2 ^ (k + j) ≤ product n p m
unfolding product digit_times
product-ge zero j k p m jn p0 p1 m0 m1 = absurd (omega arith)
product-ge (suc n) zero k p m jn p0 p1 m0 m1 = omega (
  arith,
  ap (λ (t : ℕ). 2 ^ t) {x = k + 0} {y = k} (omega arith),
  ap₂ ◌⊕◌ {x = digit_times p m} {y = p} {u = product n (2 * p) (m / 2)} {v = 0}
      (unfold digit_times in ground arith)
      (ap (product n (2 * p)) {x = m / 2} {y = 0} (omega arith) ∙ product-zero n (2 * p)),
  xor-zero p,
)
product-ge (suc n) (suc j) k p m jn p0 p1 m0 m1 = omega (
  arith,
  ap (λ (t : ℕ). 2 ^ t) {x = k + suc j} {y = suc k + j} (omega arith),
  xor_comm (digit_times p m) (product n (2 * p) (m / 2)),
  xor-ge (suc k + j) (product n (2 * p) (m / 2)) (digit_times p m)
      (product-ge n j (suc k) (2 * p) (m / 2) (omega arith) (omega (arith, pow-suc 2 k))
        (omega (arith, pow-suc 2 (suc k))) (omega (arith, pow-suc 2 j))
        (omega (arith, pow-suc 2 (suc j))))
      digit,
)
  where
    digit : digit_times p m < 2 ^ (suc k + j)
    digit = omega (arith, digit_times-le p m, pow_mono (suc k) (suc k + j) (omega arith))

difference-zero : (q r s : ℕ) → r < 2 ^ 16 → s < 2 ^ 16 → product 64 q modulus ≡ r ⊕ s → q ≡ 0
difference-zero q r s hr hs e = elim (ℕ_discrete q 0) [
  | yes z ↦ z
  | no nz ↦
      let (k, lo, hi) = leading_digit q (omega arith) in
      absurd (
        omega (
          arith,
          e,
          xor-lt 16 r s hr hs,
          product-ge 64 16 k q modulus (omega arith) lo hi (omega arith) (omega arith),
          pow_mono 16 (k + 16) (omega arith),
        ))
]

-- No polynomial has two residues.
pub Residue-unique : {p r s : ℕ} → Residue p r → Residue p s → r ≡ s
Residue-unique {p} {r} {s} h k = eq_of_xor-zero r s (sym product_eq ∙ vanishes)
  where
    product_eq : product 64 (h.q ⊕ k.q) modulus ≡ r ⊕ s
    product_eq =
        xor-product 64 h.q k.q modulus
        ∙ eq_of_xor-zero _ _ (
            xor_interchange (product 64 h.q modulus) (product 64 k.q modulus) r s
            ∙ ap₂ ◌⊕◌ h.equation k.equation
            ∙ xor_self p)

    vanishes : product 64 (h.q ⊕ k.q) modulus ≡ 0
    vanishes =
        ap (λ (t : ℕ). product 64 t modulus)
          (difference-zero (h.q ⊕ k.q) r s h.r_lt k.r_lt product_eq)
        ∙ zero-product 64 modulus

-- A short polynomial is its own residue.
pub Residue-short : (r : ℕ) → r < 2 ^ 16 → Residue r r
Residue-short r h = record {
  q = 0;
  r_lt = h;
  equation = ap (λ (t : ℕ). t ⊕ r) (zero-product 64 modulus) ∙ zero-xor r;
}

-- Residues add up.
pub Residue-xor : {p r p' r' : ℕ} → Residue p r → Residue p' r' → Residue (p ⊕ p') (r ⊕ r')
Residue-xor {p} {r} {p'} {r'} h k = record {
  q = h.q ⊕ k.q;
  r_lt = xor-lt 16 r r' h.r_lt k.r_lt;
  equation =
      ap (λ (t : ℕ). t ⊕ (r ⊕ r')) (xor-product 64 h.q k.q modulus)
      ∙ xor_interchange (product 64 h.q modulus) (product 64 k.q modulus) r r'
      ∙ ap₂ ◌⊕◌ h.equation k.equation;
}

-- Multiplication by x, on residues.
unfoldable pub xtime : ℕ → ℕ
xtime r = if leb (2 ^ 16) (2 * r) then 2 * r ⊕ modulus else 2 * r

doubled_equation :
    (q p r : ℕ) → product 64 q modulus ⊕ r ≡ p → product 64 (2 * q) modulus ⊕ 2 * r ≡ 2 * p
doubled_equation q p r e =
    ap (λ (t : ℕ). t ⊕ 2 * r) (product_double 64 q modulus)
    ∙ xor_double (product 64 q modulus) r
    ∙ ap (λ (t : ℕ). 2 * t) e

product-modulus : product 64 1 modulus ≡ modulus
product-modulus = pow-product 64 0 modulus (omega arith)

pub Residue-xtime : {p r : ℕ} → Residue p r → Residue (2 * p) (xtime r)
unfolding xtime
Residue-xtime {p} {r} h = elim (Bool-cases (leb (2 ^ 16) (2 * r))) [
  | inl over ↦ rw over (record {
    q = 2 * h.q ⊕ 1;
    r_lt =
        xor-lt_same_length 16 (2 * r) modulus (ground arith) (omega (arith, h.r_lt)) (omega arith)
          (omega arith);
    equation =
        ap (λ (t : ℕ). t ⊕ (2 * r ⊕ modulus))
          (xor-product 64 (2 * h.q) 1 modulus
            ∙ ap (λ (t : ℕ). product 64 (2 * h.q) modulus ⊕ t) product-modulus)
        ∙ xor_interchange (product 64 (2 * h.q) modulus) modulus (2 * r) modulus
        ∙ ap₂ ◌⊕◌ (doubled_equation h.q p r h.equation) (xor_self modulus)
        ∙ xor-zero (2 * p);
  })
  | inr under ↦
      rw under (record {
        q = 2 * h.q;
        r_lt = ground arith;
        equation = doubled_equation h.q p r h.equation;
      })
]
