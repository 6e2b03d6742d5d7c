-- ===== src/Rsec16/Coder/Order.antt =====
-- The powers of 2 that generate the field of rsec16/coder.go.
use gopar_turbo.Base.{
  ℕ, zero, suc, ◌+◌, ◌-◌, ◌*◌, ◌/◌, ◌%◌, ◌^◌, ◌≤◌, ◌<◌, ◌≡◌, ◌≢◌, refl, sym, ◌∙◌, ap, arith, Bool,
  true, false, ◌&&◌, ◌==◌, ==_iff,
}
use gopar_turbo.Gf2p16.Generator.{power, power-ne-one, power-zero, power_two}
use gopar_turbo.Gf2p16.Order.{power-mod}
use gopar_turbo.Gf2p16.Field.{repeated, power_multiple}
use native.Mathlib.Nat.{add-mul-mod_self_left, mul-mod_right, mod-lt, div-add-mod}
use native.Mathlib.Decide.{ℕ_discrete}

-- An element of the order 65535: no smaller positive power of it is 1.
pub record IsGenerator (g : ℕ) : Type 0 where
  pub whole : repeated g 65535 ≡ 1
  pub first : (k : ℕ) → 0 < k → k < 65535 → repeated g k ≢ 1

repeated-two : (e k : ℕ) → repeated (repeated 2 e) k ≡ power (32749 * (e * k))
repeated-two e k =
    ap (λ t. repeated (repeated t e) k) (sym power_two)
    ∙ ap (λ t. repeated t k) (power_multiple 32749 e)
    ∙ power_multiple (32749 * e) k
    ∙ ap power {x = 32749 * e * k} {y = 32749 * (e * k)} (omega arith)

-- An exponent whose power is 1 is a multiple of the order.
power-one : (n : ℕ) → power n ≡ 1 → n % 65535 ≡ 0
power-one n h = elim (ℕ_discrete (n % 65535) 0) [
  | yes z ↦ z
  | no nz ↦ absurd (power-ne-one (n % 65535) (omega arith) (omega arith) (power-mod n ∙ h))
]

-- Each of the remainders but 0 has an inverse.
inverses : ℕ → ℕ → Bool
inverses p zero = true
inverses p (suc a) = let rest = inverses p a in (suc a * suc a ^ (p - 2) % p == 1) && rest

both : (a b : Bool) → (a && b) ≡ true → (a ≡ true) × (b ≡ true)
both true b h = (refl, h)
both false b h = absurd cc

inverses-inverse :
    (p n a : ℕ) → inverses p n ≡ true → 0 < a → a ≤ n → n < p → a * a ^ (p - 2) % p ≡ 1
unfolding inverses
inverses-inverse p zero a h pos le lt = absurd (omega arith)
inverses-inverse p (suc n) a h pos le lt =
    let (here, rest) = both _ (inverses p n) h in
    elim (ℕ_discrete a (suc n)) [
      | yes same ↦ rw same ((==_iff (suc n * suc n ^ (p - 2) % p) 1).0 here)
      | no ne ↦ inverses-inverse p n a rest pos (omega arith) (omega arith)
    ]

cancel_factors :
    (p e k a b q r s : ℕ)
    → e ≡ p * q + a
    → a * b ≡ p * r + 1
    → e * k ≡ p * s
    → k + p * (b * q * k + r * k) ≡ p * (b * s)
cancel_factors p e k a b q r s he hb hk =
    omega (arith, ap (λ t. b * t) hk, ap (λ t. b * (t * k)) he, ap (λ t. t * k) hb)

-- A factor that `p` does not divide can be cancelled modulo `p`.
cancel : (p n e k : ℕ) → inverses p n ≡ true → p ≡ suc n → e % p ≢ 0 → e * k % p ≡ 0 → k % p ≡ 0
cancel p n e k h size ne z =
    let a = e % p in
    let b = a ^ (p - 2) in
    let one =
      inverses-inverse p n a h (omega arith) (omega (arith, mod-lt e {m = p} (omega arith)))
        (omega arith) in
    let sum =
      cancel_factors p e k a b (e / p) (a * b / p) (e * k / p) (sym (div-add-mod e p))
        (sym (div-add-mod (a * b) p) ∙ ap (λ t. p * (a * b / p) + t) one)
        (omega (arith, div-add-mod (e * k) p, z)) in
    sym (add-mul-mod_self_left k p (b * (e / p) * k + a * b / p * k))
    ∙ ap (λ t. t % p) sum
    ∙ mul-mod_right p (b * (e * k / p))

inverses_3 : inverses 3 2 ≡ true
unfolding inverses
inverses_3 = refl

inverses_5 : inverses 5 4 ≡ true
unfolding inverses
inverses_5 = refl

inverses_17 : inverses 17 16 ≡ true
unfolding inverses
inverses_17 = refl

inverses_257 : inverses 257 256 ≡ true
unfolding inverses
inverses_257 = refl

-- No prime factor of the order divides the exponent.
pub record IsPrimeTo (e : ℕ) : Type 0 where
  pub by_3 : e % 3 ≢ 0
  pub by_5 : e % 5 ≢ 0
  pub by_17 : e % 17 ≢ 0
  pub by_257 : e % 257 ≢ 0

order_divides : (e k : ℕ) → IsPrimeTo e → 32749 * (e * k) % 65535 ≡ 0 → k % 65535 ≡ 0
order_divides e k c h =
    let whole : e * k % 65535 ≡ 0 = omega arith in
    omega (
      arith,
      cancel 3 2 e k inverses_3 refl c.by_3 (omega arith),
      cancel 5 4 e k inverses_5 refl c.by_5 (omega arith),
      cancel 17 16 e k inverses_17 refl c.by_17 (omega arith),
      cancel 257 256 e k inverses_257 refl c.by_257 (omega arith),
    )

-- The power of 2 with such an exponent generates the field.
pub repeated-IsGenerator : (e : ℕ) → IsPrimeTo e → IsGenerator (repeated 2 e)
repeated-IsGenerator e c = record {
  whole =
      repeated-two e 65535
      ∙ sym (power-mod (32749 * (e * 65535)))
      ∙ ap power {x = 32749 * (e * 65535) % 65535} {y = 0} (omega arith)
      ∙ power-zero;
  first = λ k pos lt one. absurd (
      omega
        (arith, order_divides e k c (power-one (32749 * (e * k)) (sym (repeated-two e k) ∙ one))));
}
