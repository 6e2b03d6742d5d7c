-- ===== src/Gf2p16/Generator.antt =====
-- The powers of 3, as the loop of `init` walks through them.
use gopar_turbo.Base.{
  ℕ, zero, suc, ◌+◌, ◌-◌, ◌*◌, ◌%◌, ◌^◌, ◌<◌, ◌≡◌, refl, sym, ◌∙◌, ap, arith, true, false,
  if◌then◌else◌, inl, inr, ◌==◌, ==_iff, Bool-cases, ◌≢◌, Bool, some, subst,
}
use gopar_turbo.Bits.{◌⊕◌}
use gopar_turbo.Bits.Xor.{xor-zero, xor-lt}
use gopar_turbo.Bits.Powers.{pow_mono}
use gopar_turbo.Gf2.{Division, times, ilog2}
use gopar_turbo.Gf2.Product.{digit_times, product, product_rounds}
use gopar_turbo.Gf2.Multiply.{times-product}
use gopar_turbo.Gf2.Divide.{IsQuotient, div-IsQuotient}
use gopar_turbo.Gf2.Ilog.{ilog2_bounds}
use gopar_turbo.Gf2p16.{modulus, next_power}
use gopar_turbo.Gf2p16.Residue.{
  Residue, xtime, Residue-unique, Residue-short, Residue-xor, Residue-xtime,
}
use native.Mathlib.Nat.{mod-eq_of_lt}
use native.Mathlib.Decide.{ℕ_discrete}

ilog2-modulus : ilog2 modulus ≡ 16
unfolding ilog2
ilog2-modulus = refl

-- What `Div` by the modulus leaves is the residue.
pub IsQuotient-Residue : {p : ℕ} {d : Division} → IsQuotient p modulus d → Residue p d.r
IsQuotient-Residue {p} {d} is = record {
  q = d.q;
  r_lt = elim (ℕ_discrete d.r 0) [
    | yes z ↦ omega arith
    | no nz ↦ elim is.smaller [
      | inl z ↦ omega arith
      | inr lt ↦ omega (
        arith,
        ilog2-modulus,
        ilog2_bounds d.r (omega arith) is.r_lt,
        pow_mono (suc (ilog2 d.r)) 16 (omega (arith, ilog2-modulus)),
      )
    ]
  ];
  equation = is.equation;
}

-- Multiplication by x + 1, that is, by 3.
pub triple : ℕ → ℕ
triple a = a ⊕ xtime a

pub Residue-triple : {p r : ℕ} → Residue p r → Residue (p ⊕ 2 * p) (triple r)
unfolding triple
Residue-triple h = Residue-xor h (Residue-xtime h)

pub triple-lt : (a : ℕ) → a < 2 ^ 16 → triple a < 2 ^ 16
triple-lt a h = let r = Residue-triple (Residue-short a h) in r.r_lt

product-three : (x : ℕ) → product 64 x 3 ≡ x ⊕ 2 * x
unfolding product digit_times
product-three x =
    product_rounds 64 2 x 3 (omega arith) (omega arith) ∙ ap (λ (t : ℕ). x ⊕ t) (xor-zero (2 * x))

-- The product and the division of one round of `init` compute `triple`.
pub next_power-triple : (x : ℕ) → x < 2 ^ 16 → next_power x ≡ some (triple x)
unfolding next_power
next_power-triple x h =
    let (d, e, is) = div-IsQuotient (times x 3) modulus bound (omega arith) (omega arith) in
    let r_eq : d.r ≡ triple x =
      Residue-unique (IsQuotient-Residue is)
        (subst (λ p. Residue p (triple x)) (sym exact) (Residue-triple (Residue-short x h))) in
    rw (next_power, e) (ap some (ap (λ (t : ℕ). t % 2 ^ 16) r_eq ∙ mod-eq_of_lt (triple-lt x h)))
  where
    short : x ⊕ 2 * x < 2 ^ 64
    short = omega (arith, xor-lt 17 x (2 * x) (omega arith) (omega arith))

    exact : times x 3 ≡ x ⊕ 2 * x
    exact =
        times-product x 3 (omega arith) (omega arith)
        ∙ ap (λ (t : ℕ). t % 2 ^ 64) (product-three x)
        ∙ mod-eq_of_lt short

    bound : times x 3 < 2 ^ 64
    bound = omega (arith, exact, short)

-- The power of 3 with exponent `n`.
pub power : ℕ → ℕ
power zero = 1
power (suc n) = triple (power n)

pub power-lt : (n : ℕ) → power n < 2 ^ 16
unfolding power
power-lt zero = omega arith
power-lt (suc n) = triple-lt (power n) (power-lt n)

-- `n` rounds from `x` meet 1 at the end and not before.
cycle : ℕ → ℕ → Bool
cycle zero x = x == 1
cycle (suc n) x = let rest = cycle n (triple x) in if x == 1 then false else rest

-- 3 generates the field: its first power that is 1 again is that with exponent 2 ^ 16 - 1.
cycle-three : cycle 65534 3 ≡ true
unfolding cycle triple xtime
cycle-three = refl

absurd_true : (x : ℕ) → (x == 1) ≡ false → x ≡ 1 → ⊥
absurd_true x h e = ground arith

cycle-power :
    (n j : ℕ)
    → cycle n (power j) ≡ true
    → (power (j + n) ≡ 1) × ((i : ℕ) → i < n → power (j + i) ≢ 1)
unfolding cycle
cycle-power zero j h = (
  ap power {x = j + 0} {y = j} (omega arith) ∙ (==_iff (power j) 1).0 h,
  λ i lt. absurd (omega arith),
)
cycle-power (suc n) j h = elim (Bool-cases (power j == 1)) [
  | inl stop ↦ cc (sym (rw stop at h))
  | inr go ↦
      let rest : cycle n (power (suc j)) ≡ true = unfold power in (rw go at h) in
      let (last, before) = cycle-power n (suc j) rest in
      (
        ap power {x = j + suc n} {y = suc j + n} (omega arith) ∙ last,
        λ i lt e. elim (ℕ_discrete i 0) [
          | yes z ↦ absurd_true (power j) go (ap power {x = j} {y = j + i} (omega arith) ∙ e)
          | no nz ↦
              before (i - 1) (omega arith)
                (ap power {x = suc j + (i - 1)} {y = j + i} (omega arith) ∙ e)
        ],
      )
]

power_one : power 1 ≡ 3
unfolding power triple xtime
power_one = refl

power_facts : (power (1 + 65534) ≡ 1) × ((i : ℕ) → i < 65534 → power (1 + i) ≢ 1)
power_facts = cycle-power 65534 1 (ap (cycle 65534) power_one ∙ cycle-three)

-- 3 ^ 65535 is 1.
pub power_order : power 65535 ≡ 1
power_order = power_facts.0

-- No smaller positive power of 3 is 1.
pub power-ne-one : (d : ℕ) → 0 < d → d < 65535 → power d ≢ 1
power-ne-one d pos lt e =
    power_facts.1 (d - 1) (omega arith) (ap power {x = 1 + (d - 1)} {y = d} (omega arith) ∙ e)

pub power-zero : power 0 ≡ 1
unfolding power
power-zero = refl

pub power-suc : (n : ℕ) → power (suc n) ≡ triple (power n)
unfolding power
power-suc n = refl

-- `n` more powers.
walk : ℕ → ℕ → ℕ
walk zero x = x
walk (suc n) x = walk n (triple x)

walk-power : (n j : ℕ) → walk n (power j) ≡ power (j + n)
unfolding walk
walk-power zero j = ap power {x = j} {y = j + 0} (omega arith)
walk-power (suc n) j =
    ap (walk n) (sym (power-suc j))
    ∙ walk-power n (suc j)
    ∙ ap power {x = suc j + n} {y = j + suc n} (omega arith)

walk_two : walk 32749 1 ≡ 2
unfolding walk triple xtime
walk_two = refl

-- 2 is a power of 3.
pub power_two : power 32749 ≡ 2
power_two =
    ap power {x = 32749} {y = 0 + 32749} (omega arith)
    ∙ sym (walk-power 32749 0)
    ∙ ap (walk 32749) power-zero
    ∙ walk_two
