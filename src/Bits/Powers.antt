-- ===== src/Bits/Powers.antt =====
-- Powers of two, as bounds on the number of digits.
use gopar_turbo.Base.{ℕ, zero, suc, ◌+◌, ◌*◌, ◌^◌, ◌≤◌, ◌<◌, ◌≡◌, ap, arith}
use native.Mathlib.Nat.{pow-suc, pow-le-pow_right}
use native.Mathlib.Decide.{dec_le}

pub pow-add : (a b : ℕ) → 2 ^ (a + b) ≡ 2 ^ a * 2 ^ b
pow-add a zero = omega (arith, ap (λ (t : ℕ). 2 ^ t) {x = a + 0} {y = a} (omega arith))
pow-add a (suc b) = omega (
  arith,
  ap (λ (t : ℕ). 2 ^ t) {x = a + suc b} {y = suc (a + b)} (omega arith),
  pow-suc 2 (a + b),
  pow-add a b,
  ap (λ (t : ℕ). 2 ^ a * t) (pow-suc 2 b),
)

pub pow_mono : (a b : ℕ) → a ≤ b → 2 ^ a ≤ 2 ^ b
pow_mono a b h = pow-le-pow_right (omega arith) h

-- A number of at least `2 ^ a` that needs at most `b` digits has `a < b`.
pub lt_of_pow : (a b x : ℕ) → 2 ^ a ≤ x → x < 2 ^ b → a < b
lt_of_pow a b x lo hi = elim (dec_le b a) [
  | yes h ↦ absurd (omega (arith, pow_mono b a h))
  | no h ↦ omega arith
]

lt-pow : (n : ℕ) → n < 2 ^ n
lt-pow zero = omega arith
lt-pow (suc n) = omega (arith, lt-pow n, pow-suc 2 n)

leading_below : (n x : ℕ) → 0 < x → x < 2 ^ n → (k : ℕ) × (2 ^ k ≤ x) × (x < 2 ^ suc k)
leading_below zero x pos h = absurd (omega arith)
leading_below (suc n) x pos h = elim (dec_le (2 ^ n) x) [
  | yes le ↦ (n, le, h)
  | no lt ↦ leading_below n x pos (omega arith)
]

-- Every number but 0 has a leading digit.
pub leading_digit : (x : ℕ) → 0 < x → (k : ℕ) × (2 ^ k ≤ x) × (x < 2 ^ suc k)
leading_digit x pos = leading_below x x pos (lt-pow x)
