-- ===== src/Gf2p16/Order.antt =====
-- The powers of 3 run through every element but 0, once in each 65535 steps.
use gopar_turbo.Base.{
  ℕ, zero, suc, ◌+◌, ◌-◌, ◌*◌, ◌/◌, ◌%◌, ◌^◌, ◌<◌, ◌≡◌, sym, ◌∙◌, ap, arith, ◌≢◌,
}
use gopar_turbo.Base.Pigeonhole.{pigeonhole}
use gopar_turbo.Gf2p16.Generator.{power, power-lt, power_order, power-ne-one}
use gopar_turbo.Gf2p16.Product.{mul, mul-power, one-mul, zero-mul}
use native.Mathlib.Decide.{ℕ_discrete, dec_lt}

pub power-period : (k : ℕ) → power (65535 + k) ≡ power k
power-period k =
    sym (mul-power 65535 k)
    ∙ ap (λ (t : ℕ). mul t (power k)) power_order
    ∙ one-mul (power k) (power-lt k)

power-periods : (n k : ℕ) → power (n * 65535 + k) ≡ power k
power-periods zero k = ap power {x = 0 * 65535 + k} {y = k} (omega arith)
power-periods (suc n) k =
    ap power {x = suc n * 65535 + k} {y = 65535 + (n * 65535 + k)} (omega arith)
    ∙ power-period (n * 65535 + k)
    ∙ power-periods n k

-- Exponents count modulo 65535.
pub power-mod : (n : ℕ) → power (n % 65535) ≡ power n
power-mod n =
    sym (power-periods (n / 65535) (n % 65535))
    ∙ ap power {x = n / 65535 * 65535 + n % 65535} {y = n} (omega arith)

power-ne-zero : (n : ℕ) → n < 65535 → power n ≢ 0
power-ne-zero n h e = absurd (omega (arith, one_eq_zero, zero-mul (power (65535 - n))))
  where
    one_eq_zero : 1 ≡ mul 0 (power (65535 - n))
    one_eq_zero =
        sym power_order
        ∙ ap power {x = 65535} {y = n + (65535 - n)} (omega arith)
        ∙ sym (mul-power n (65535 - n))
        ∙ ap (λ (t : ℕ). mul t (power (65535 - n))) e

-- Two exponents below 65535 with a power in common are equal.
power_later : (i j : ℕ) → i < j → j < 65535 → power i ≢ power j
power_later i j lt h e = power-ne-one (j - i) (omega arith) (omega arith) (sym one)
  where
    one : 1 ≡ power (j - i)
    one =
        sym power_order
        ∙ ap power {x = 65535} {y = i + (65535 - i)} (omega arith)
        ∙ sym (mul-power i (65535 - i))
        ∙ ap (λ (t : ℕ). mul t (power (65535 - i))) e
        ∙ mul-power j (65535 - i)
        ∙ ap power {x = j + (65535 - i)} {y = 65535 + (j - i)} (omega arith)
        ∙ power-period (j - i)

pub power_injective : (i j : ℕ) → i < 65535 → j < 65535 → power i ≡ power j → i ≡ j
power_injective i j hi hj e = elim (ℕ_discrete i j) [
  | yes same ↦ same
  | no ne ↦ elim (dec_lt i j) [
    | yes lt ↦ absurd (power_later i j lt hj e)
    | no ge ↦ absurd (power_later j i (omega arith) hi (sym e))
  ]
]

pub power-pos : (n : ℕ) → n < 65535 → 0 < power n
power-pos n h = omega (arith, power-ne-zero n h)

-- Every element but 0 is a power of 3.
pub power_surjective : (t : ℕ) → 0 < t → t < 2 ^ 16 → (i : ℕ) × (i < 65535) × (power i ≡ t)
power_surjective t pos h =
    let (i, lt, e) =
      pigeonhole 65535 (λ i. power i - 1) (λ i hi. omega (arith, power-lt i, power-pos i hi))
        (λ i j hi hj e. power_injective i j hi hj (omega (arith, power-pos i hi, power-pos j hj)))
        (t - 1) (omega arith) in
    (i, lt, omega (arith, power-pos i lt))
