-- ===== src/Bits/Xor.antt =====
-- The laws of exclusive or.
use native.Mathlib.Nat.{
  pow-suc, mul-add-mod_self_right, mod-eq_of_lt, div-add-mod', mod-lt, one-le-pow,
}
use mathlib.Core.WellFounded
use gopar_turbo.Base.{
  ℕ, zero, suc, ◌+◌, ◌*◌, ◌/◌, ◌%◌, ◌^◌, ◌≤◌, ◌<◌, ◌≡◌, sym, ◌∙◌, ap, ap₂, arith, lt_wf,
}
use gopar_turbo.Bits.Step.{◌⊕◌, xor_step, zero-xor as zero_step}

pub zero-xor : (b : ℕ) → 0 ⊕ b ≡ b
zero-xor b = zero_step b

pub xor_half : (a b : ℕ) → (a ⊕ b) / 2 ≡ (a / 2) ⊕ (b / 2)
xor_half a b = omega (arith, xor_step a b)

pub xor_parity : (a b : ℕ) → (a ⊕ b) % 2 ≡ (a % 2 + b % 2) % 2
xor_parity a b = omega (arith, xor_step a b)

pub xor-zero : (a : ℕ) → a ⊕ 0 ≡ a
xor-zero a = WellFounded.induction lt_wf {C = λ k. k ⊕ 0 ≡ k} a step
  where
    step : (n : ℕ) → ((m : ℕ) → m < n → m ⊕ 0 ≡ m) → n ⊕ 0 ≡ n
    step zero ih = zero-xor 0
    step (suc n) ih = omega (arith, xor_step (suc n) 0, ih (suc n / 2) (omega arith))

pub xor_self : (a : ℕ) → a ⊕ a ≡ 0
xor_self a = WellFounded.induction lt_wf {C = λ k. k ⊕ k ≡ 0} a step
  where
    step : (n : ℕ) → ((m : ℕ) → m < n → m ⊕ m ≡ 0) → n ⊕ n ≡ 0
    step zero ih = zero-xor 0
    step (suc n) ih = omega (arith, xor_step (suc n) (suc n), ih (suc n / 2) (omega arith))

pub xor_comm : (a b : ℕ) → a ⊕ b ≡ b ⊕ a
xor_comm a = WellFounded.induction lt_wf {C = λ k. (b : ℕ) → k ⊕ b ≡ b ⊕ k} a step
  where
    step : (n : ℕ) → ((m : ℕ) → m < n → (b : ℕ) → m ⊕ b ≡ b ⊕ m) → (b : ℕ) → n ⊕ b ≡ b ⊕ n
    step zero ih b = omega (arith, zero-xor b, xor-zero b)
    step (suc n) ih b =
        omega (arith, xor_step (suc n) b, xor_step b (suc n), ih (suc n / 2) (omega arith) (b / 2))

pub xor_assoc : (a b c : ℕ) → a ⊕ b ⊕ c ≡ a ⊕ (b ⊕ c)
xor_assoc a = WellFounded.induction lt_wf {C = λ k. (b c : ℕ) → k ⊕ b ⊕ c ≡ k ⊕ (b ⊕ c)} a step
  where
    step :
        (n : ℕ)
        → ((m : ℕ) → m < n → (b c : ℕ) → m ⊕ b ⊕ c ≡ m ⊕ (b ⊕ c))
        → (b c : ℕ) → n ⊕ b ⊕ c ≡ n ⊕ (b ⊕ c)
    step zero ih b c = ap (λ (t : ℕ). t ⊕ c) (zero-xor b) ∙ sym (zero-xor (b ⊕ c))
    step (suc n) ih b c = omega (
      arith,
      xor_step (suc n ⊕ b) c,
      xor_step (suc n) (b ⊕ c),
      ap (λ (t : ℕ). t ⊕ (c / 2)) (xor_half (suc n) b),
      ap (λ (t : ℕ). (suc n / 2) ⊕ t) (xor_half b c),
      xor_parity (suc n) b,
      xor_parity b c,
      ih (suc n / 2) (omega arith) (b / 2) (c / 2),
    )

pub xor_left_comm : (a b c : ℕ) → a ⊕ (b ⊕ c) ≡ b ⊕ (a ⊕ c)
xor_left_comm a b c = sym (xor_assoc a b c) ∙ ap (λ (t : ℕ). t ⊕ c) (xor_comm a b) ∙ xor_assoc b a c

pub xor_interchange : (a b c d : ℕ) → (a ⊕ b) ⊕ (c ⊕ d) ≡ (a ⊕ c) ⊕ (b ⊕ d)
xor_interchange a b c d =
    xor_assoc a b (c ⊕ d)
    ∙ ap (λ (t : ℕ). a ⊕ t) (xor_left_comm b c d)
    ∙ sym (xor_assoc a c (b ⊕ d))

-- Adding the same number twice changes nothing.
pub xor_cancel : (a b : ℕ) → a ⊕ (a ⊕ b) ≡ b
xor_cancel a b = sym (xor_assoc a a b) ∙ ap (λ (t : ℕ). t ⊕ b) (xor_self a) ∙ zero-xor b

pub xor_cancel_right : (a b : ℕ) → a ⊕ b ⊕ b ≡ a
xor_cancel_right a b = xor_assoc a b b ∙ ap (λ (t : ℕ). a ⊕ t) (xor_self b) ∙ xor-zero a

pub xor_double : (a b : ℕ) → 2 * a ⊕ 2 * b ≡ 2 * (a ⊕ b)
xor_double a b = omega (
  arith,
  xor_step (2 * a) (2 * b),
  ap (λ (t : ℕ). t ⊕ (2 * b / 2)) {x = 2 * a / 2} {y = a} (omega arith),
  ap (λ (t : ℕ). a ⊕ t) {x = 2 * b / 2} {y = b} (omega arith),
)

-- Numbers that fit in `k` bits are closed under exclusive or.
pub xor-lt : (k a b : ℕ) → a < 2 ^ k → b < 2 ^ k → a ⊕ b < 2 ^ k
xor-lt zero a b p q = omega (
  arith,
  ap (λ (t : ℕ). t ⊕ b) {x = a} {y = 0} (omega arith),
  ap (λ (t : ℕ). 0 ⊕ t) {x = b} {y = 0} (omega arith),
  zero-xor 0,
)
xor-lt (suc k) a b p q = omega (
  arith,
  xor_step a b,
  pow-suc 2 k,
  xor-lt k (a / 2) (b / 2) (omega (arith, pow-suc 2 k)) (omega (arith, pow-suc 2 k)),
)

-- Two numbers of the same length: the leading digits cancel.
pub xor-lt_same_length :
    (k a b : ℕ) → 2 ^ k ≤ a → a < 2 ^ suc k → 2 ^ k ≤ b → b < 2 ^ suc k → a ⊕ b < 2 ^ k
xor-lt_same_length zero a b p q r s = omega (
  arith,
  ap (λ (t : ℕ). t ⊕ b) {x = a} {y = 1} (omega arith),
  ap (λ (t : ℕ). 1 ⊕ t) {x = b} {y = 1} (omega arith),
  xor_self 1,
)
xor-lt_same_length (suc k) a b p q r s = omega (
  arith,
  xor_step a b,
  pow-suc 2 k,
  pow-suc 2 (suc k),
  xor-lt_same_length k (a / 2) (b / 2) (omega (arith, pow-suc 2 k))
      (omega (arith, pow-suc 2 (suc k))) (omega (arith, pow-suc 2 k))
      (omega (arith, pow-suc 2 (suc k))),
)

-- A longer number keeps its leading digit.
pub xor-ge : (k a b : ℕ) → 2 ^ k ≤ a → b < 2 ^ k → 2 ^ k ≤ a ⊕ b
xor-ge zero a b p q = omega (arith, ap (λ (t : ℕ). a ⊕ t) {x = b} {y = 0} (omega arith), xor-zero a)
xor-ge (suc k) a b p q = omega (
  arith,
  xor_step a b,
  pow-suc 2 k,
  xor-ge k (a / 2) (b / 2) (omega (arith, pow-suc 2 k)) (omega (arith, pow-suc 2 k)),
)

-- Disjoint fields add up.
pub xor_fields : (k q r : ℕ) → r < 2 ^ k → q * 2 ^ k ⊕ r ≡ q * 2 ^ k + r
xor_fields zero q r fits =
    omega (arith, ap (λ (t : ℕ). q * 2 ^ 0 ⊕ t) {x = r} {y = 0} (omega arith), xor-zero (q * 2 ^ 0))
xor_fields (suc k) q r fits = omega (
  arith,
  xor_step (q * 2 ^ suc k) r,
  scaled,
  pow-suc 2 k,
  ap (λ (t : ℕ). t ⊕ (r / 2)) {x = q * 2 ^ suc k / 2} {y = q * 2 ^ k} (omega (arith, scaled)),
  xor_fields k q (r / 2) (omega (arith, pow-suc 2 k)),
)
  where
    scaled : q * 2 ^ suc k ≡ 2 * (q * 2 ^ k)
    scaled = omega (arith, ap (λ (t : ℕ). q * t) (pow-suc 2 k))

-- The remainder by a power of two, one digit at a time.
pub mod-pow_suc : (k x : ℕ) → x % 2 ^ suc k ≡ 2 * (x / 2 % 2 ^ k) + x % 2
mod-pow_suc k x =
    ap (λ (t : ℕ). t % 2 ^ suc k) split
    ∙ mul-add-mod_self_right (x / 2 / 2 ^ k) (2 ^ suc k) low
    ∙ mod-eq_of_lt fits
  where
    low : ℕ
    low = 2 * (x / 2 % 2 ^ k) + x % 2

    split : x ≡ x / 2 / 2 ^ k * 2 ^ suc k + low
    split =
        omega (arith, div-add-mod' (x / 2) (2 ^ k), ap (λ (t : ℕ). x / 2 / 2 ^ k * t) (pow-suc 2 k))

    fits : low < 2 ^ suc k
    fits = omega (arith, pow-suc 2 k, mod-lt (x / 2) (one-le-pow k 2 (omega arith)))

-- The low digits of a sum are the sum of the low digits.
pub xor_mod : (k a b : ℕ) → (a ⊕ b) % 2 ^ k ≡ a % 2 ^ k ⊕ b % 2 ^ k
xor_mod zero a b = omega (
  arith,
  ap (λ (t : ℕ). t ⊕ b % 2 ^ 0) {x = a % 2 ^ 0} {y = 0} (omega arith),
  ap (λ (t : ℕ). 0 ⊕ t) {x = b % 2 ^ 0} {y = 0} (omega arith),
  zero-xor 0,
)
xor_mod (suc k) a b = omega (
  arith,
  mod-pow_suc k (a ⊕ b),
  mod-pow_suc k a,
  mod-pow_suc k b,
  xor_step (a % 2 ^ suc k) (b % 2 ^ suc k),
  ap (λ (t : ℕ). t % 2 ^ k) (xor_half a b),
  xor_parity a b,
  xor_mod k (a / 2) (b / 2),
  ap₂ ◌⊕◌ {x = a % 2 ^ suc k / 2} {y = a / 2 % 2 ^ k} {u = b % 2 ^ suc k / 2} {v = b / 2 % 2 ^ k}
      (omega (arith, mod-pow_suc k a)) (omega (arith, mod-pow_suc k b)),
)

-- A shift to the left distributes over a sum.
pub xor_shift : (k a b : ℕ) → (a ⊕ b) * 2 ^ k ≡ a * 2 ^ k ⊕ b * 2 ^ k
xor_shift zero a b =
    omega
      (arith, ap₂ ◌⊕◌ {x = a * 2 ^ 0} {y = a} {u = b * 2 ^ 0} {v = b} (omega arith) (omega arith))
xor_shift (suc k) a b =
    doubled (a ⊕ b)
    ∙ ap (λ (t : ℕ). 2 * t) (xor_shift k a b)
    ∙ sym (xor_double (a * 2 ^ k) (b * 2 ^ k))
    ∙ ap₂ ◌⊕◌ (sym (doubled a)) (sym (doubled b))
  where
    doubled : (x : ℕ) → x * 2 ^ suc k ≡ 2 * (x * 2 ^ k)
    doubled x = omega (arith, ap (λ (t : ℕ). x * t) (pow-suc 2 k))

pub ruleset xor_laws = (xor_assoc, xor-zero, zero-xor, xor_self, xor_cancel)

-- A sum is 0 only if its terms are equal.
pub eq_of_xor-zero : (a b : ℕ) → a ⊕ b ≡ 0 → a ≡ b
eq_of_xor-zero a b h = sym (xor_cancel_right a b) ∙ ap (λ (t : ℕ). t ⊕ b) h ∙ zero-xor b
