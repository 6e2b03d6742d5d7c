-- ===== src/Bits/Step.antt =====
-- `bit_xor` digit by digit. The native operation stands for a recursion on binary digits with
-- fuel; here the fuel is dropped.
use Prim.Native.Nat.{digits, bit_xor-bitwise, differ}
use gopar_turbo.Base.{
  ℕ, zero, suc, ◌+◌, ◌-◌, ◌*◌, ◌/◌, ◌%◌, ◌≤◌, ◌<◌, bit_xor, ◌≡◌, refl, ap, ◌∙◌, arith,
}

infixl 60 ◌⊕◌
abbrev pub ◌⊕◌ : ℕ → ℕ → ℕ
a ⊕ b = bit_xor a b

-- One round more than the first number needs changes nothing.
one_more_round :
    (k x y : ℕ) → x ≤ k → digits (λ b. b) differ (suc k) x y ≡ digits (λ b. b) differ k x y
one_more_round k zero y fits = (λ (r : ℕ). idle r) k
  where
    idle : (r : ℕ) → digits (λ b. b) differ (suc r) 0 y ≡ digits (λ b. b) differ r 0 y
    idle zero = refl
    idle (suc r) = refl
one_more_round (suc k) (suc x) y fits =
    ap (λ (t : ℕ). t * 2 + differ (suc x % 2) (y % 2))
      (one_more_round k (suc x / 2) (y / 2) (omega arith))
one_more_round zero (suc x) y fits = absurd (omega arith)

more_rounds :
    (d k x y : ℕ) → x ≤ k → digits (λ b. b) differ (d + k) x y ≡ digits (λ b. b) differ k x y
more_rounds zero k x y fits =
    ap (λ (r : ℕ). digits (λ b. b) differ r x y) {x = zero + k} {y = k} (omega arith)
more_rounds (suc d) k x y fits =
    ap (λ (r : ℕ). digits (λ b. b) differ r x y) {x = suc d + k} {y = suc (d + k)} (omega arith)
    ∙ one_more_round (d + k) x y (omega arith)
    ∙ more_rounds d k x y fits

pub zero-xor : (b : ℕ) → 0 ⊕ b ≡ b
zero-xor b = bit_xor-bitwise 0 b

differ_digits : (x y : ℕ) → x < 2 → y < 2 → differ x y ≡ (x + y) % 2
differ_digits zero y p q = omega arith
differ_digits (suc zero) zero p q = refl
differ_digits (suc zero) (suc zero) p q = refl
differ_digits (suc zero) (suc (suc y)) p q = absurd (omega arith)
differ_digits (suc (suc x)) y p q = absurd (omega arith)

-- The law for the lowest digit.
pub xor_step : (a b : ℕ) → a ⊕ b ≡ ((a / 2) ⊕ (b / 2)) * 2 + (a % 2 + b % 2) % 2
xor_step zero b = omega (arith, zero-xor b, zero-xor (b / 2))
xor_step (suc a) b = omega (
  arith,
  bit_xor-bitwise (suc a) b,
  bit_xor-bitwise (suc a / 2) (b / 2),
  ap (λ (r : ℕ). digits (λ b. b) differ r (suc a / 2) (b / 2)) {x = a - suc a / 2 + suc a / 2}
      {y = a} (omega arith),
  more_rounds (a - suc a / 2) (suc a / 2) (suc a / 2) (b / 2) (omega arith),
  differ_digits (suc a % 2) (b % 2) (omega arith) (omega arith),
)
