-- ===== src/Gf2p16/Field.antt =====
-- The operations of `T` are those of the field GF(2)[x] modulo the polynomial of the PAR2 format.
use gopar_turbo.Base.{
  ℕ, zero, suc, ◌+◌, ◌-◌, ◌*◌, ◌%◌, ◌^◌, ◌<◌, ◌≡◌, refl, sym, ◌∙◌, ap, ap₂, arith, ◌≢◌, none, some,
  subst,
}
use gopar_turbo.Bits.{◌⊕◌}
use gopar_turbo.Bits.Xor.{xor-lt}
use gopar_turbo.Gf2.Product.{product}
use gopar_turbo.Gf2p16.{tables, times, inverse, div, pow, plus, order}
use gopar_turbo.Gf2p16.Residue.{Residue, Residue-short}
use gopar_turbo.Gf2p16.Generator.{power, power-lt, power-zero, power_order}
use gopar_turbo.Gf2p16.Product.{
  mul, mul-power, Residue-mul, zero-mul, mul-zero, mul-xor, mul-lt, one-mul,
}
use gopar_turbo.Gf2p16.Order.{power-mod, power-pos, power-period}
use gopar_turbo.Gf2p16.Tables.{exp_table-power, log_table_lem}
use native.Mathlib.Nat.{mod-eq_of_lt, mul-le-mul_right}
use native.Mathlib.Decide.{ℕ_discrete}

abbrev pub log : ℕ → ℕ
log t = tables.log_table (t - 1)

-- Reading `expTable` at an index modulo `order - 1`.
exp_mod : (n : ℕ) → tables.exp_table (n % 65535) ≡ power n
exp_mod n = exp_table-power (n % 65535) (omega arith) ∙ power-mod n

-- An element is 0 or the power of 3 that its logarithm gives.
data Kind (t : ℕ) : Type 0 where
  is_zero : t ≡ 0 → Kind t
  is_power : t ≢ 0 → power (log t) ≡ t → log t < 65535 → Kind t

kind : (t : ℕ) → t < 2 ^ 16 → Kind t
kind t h = elim (ℕ_discrete t 0) [
  | yes z ↦ is_zero z
  | no nz ↦ let (lt, e) = log_table_lem t (omega arith) h in is_power nz e lt
]

pub zero-times : (u : ℕ) → times 0 u ≡ 0
unfolding times
zero-times u = refl

pub times-zero : (t : ℕ) → times t 0 ≡ 0
unfolding times
times-zero t = ground arith

times_logs : (t u : ℕ) → t ≢ 0 → u ≢ 0 → times t u ≡ power (log t + log u)
unfolding times
times_logs t u nt nu = ground (arith, exp_mod (log t + log u))

-- `Times` is the reduced product.
pub times-mul : (t u : ℕ) → t < 2 ^ 16 → u < 2 ^ 16 → times t u ≡ mul t u
times-mul t u ht hu = go (kind t ht) (kind u hu)
  where
    go : Kind t → Kind u → times t u ≡ mul t u
    go (is_zero z) _ = rw z (zero-times u ∙ sym (zero-mul u))
    go (is_power nt et lt) (is_zero z) = rw z (times-zero t ∙ sym (mul-zero t ht))
    go (is_power nt et lt) (is_power nu eu lu) =
        times_logs t u nt nu ∙ sym (mul-power (log t) (log u)) ∙ ap₂ mul et eu

pub times-lt : (t u : ℕ) → t < 2 ^ 16 → u < 2 ^ 16 → times t u < 2 ^ 16
times-lt t u ht hu = omega (arith, times-mul t u ht hu, mul-lt t u ht)

-- On elements of 16 bits, `Times` is multiplication of polynomials modulo
-- x^16 + x^12 + x^3 + x + 1: the result has 16 bits and differs from the product by a multiple of
-- the modulus.
pub times-Residue : (t u : ℕ) → t < 2 ^ 16 → u < 2 ^ 16 → Residue (product 16 t u) (times t u)
times-Residue t u ht hu =
    subst (Residue (product 16 t u)) (sym (times-mul t u ht hu))
      (Residue-mul u (Residue-short t ht))

pub times_comm : (t u : ℕ) → times t u ≡ times u t
unfolding times
times_comm t u = ground (
  arith,
  ap (λ (k : ℕ). tables.exp_table (k % 65535)) {x = log t + log u} {y = log u + log t}
      (omega arith),
)

pub times-power : (i j : ℕ) → times (power i) (power j) ≡ power (i + j)
times-power i j = times-mul (power i) (power j) (power-lt i) (power-lt j) ∙ mul-power i j

-- `Times` is associative on the elements of the field.
pub times_assoc :
    (t u v : ℕ) → t < 2 ^ 16 → u < 2 ^ 16 → v < 2 ^ 16 → times (times t u) v ≡ times t (times u v)
times_assoc t u v ht hu hv = go (kind t ht) (kind u hu) (kind v hv)
  where
    go : Kind t → Kind u → Kind v → times (times t u) v ≡ times t (times u v)
    go (is_zero z) _ _ =
        rw z
          (ap (λ (k : ℕ). times k v) (zero-times u) ∙ zero-times v ∙ sym (zero-times (times u v)))
    go (is_power nt et lt) (is_zero z) _ = rw z (
        ap (λ (k : ℕ). times k v) (times-zero t)
        ∙ zero-times v
        ∙ sym (times-zero t)
        ∙ ap (times t) (sym (zero-times v)))
    go (is_power nt et lt) (is_power nu eu lu) (is_zero z) =
        rw z (times-zero (times t u) ∙ sym (times-zero t) ∙ ap (times t) (sym (times-zero u)))
    go (is_power nt et lt) (is_power nu eu lu) (is_power nv ev lv) =
        ap₂ times (ap₂ times (sym et) (sym eu) ∙ times-power (log t) (log u)) (sym ev)
        ∙ times-power (log t + log u) (log v)
        ∙ ap power {x = log t + log u + log v} {y = log t + (log u + log v)} (omega arith)
        ∙ sym (times-power (log t) (log u + log v))
        ∙ ap₂ times et (sym (times-power (log u) (log v)) ∙ ap₂ times eu ev)

pub one-times : (t : ℕ) → t < 2 ^ 16 → times 1 t ≡ t
one-times t h = times-mul 1 t (omega arith) h ∙ one-mul t h

-- `Times` distributes over `Plus` on the elements of the field.
pub times-plus :
    (t u v : ℕ)
    → t < 2 ^ 16
    → u < 2 ^ 16
    → v < 2 ^ 16
    → times t (plus u v) ≡ plus (times t u) (times t v)
unfolding plus
times-plus t u v ht hu hv =
    times-mul t (u ⊕ v) ht (xor-lt 16 u v hu hv)
    ∙ mul-xor t u v ht
    ∙ ap₂ ◌⊕◌ (sym (times-mul t u ht hu)) (sym (times-mul t v ht hv))

-- `Inverse` of any element but 0 returns an element, not 0, whose product with it is 1.
pub times-inverse :
    (t : ℕ)
    → 0 < t
    → t < 2 ^ 16
    → (s : ℕ) × (inverse t ≡ some s) × (times t s ≡ 1) × (0 < s) × (s < 2 ^ 16)
unfolding inverse
times-inverse t pos h = go (kind t h)
  where
    s : ℕ
    s = tables.exp_table (((order - 1) - log t) % (order - 1))

    go : Kind t → (s : ℕ) × (inverse t ≡ some s) × (times t s ≡ 1) × (0 < s) × (s < 2 ^ 16)
    go (is_zero z) = absurd (omega arith)
    go (is_power nt et lt) =
        let s_eq : s ≡ power (65535 - log t) = exp_mod (65535 - log t) in
        (
          s,
          ground arith,
          ap₂ times (sym et) s_eq
              ∙ times-power (log t) (65535 - log t)
              ∙ ap power {x = log t + (65535 - log t)} {y = 65535} (omega arith)
              ∙ power_order,
          omega (
            arith,
            s_eq,
            power-mod (65535 - log t),
            power-pos ((65535 - log t) % 65535) (omega arith),
          ),
          omega (arith, s_eq, power-lt (65535 - log t)),
        )

pub inverse_zero : inverse 0 ≡ none
unfolding inverse
inverse_zero = refl

-- `Div` of `t` by any element `u` but 0 returns an element whose product with `u` is `t`.
pub times-div :
    (t u : ℕ)
    → t < 2 ^ 16
    → 0 < u
    → u < 2 ^ 16
    → (s : ℕ) × (div t u ≡ some s) × (times s u ≡ t) × (s < 2 ^ 16)
unfolding div
times-div t u ht pos hu = go (kind t ht) (kind u hu)
  where
    s : ℕ
    s = tables.exp_table ((log t + (order - 1) - log u) % (order - 1))

    go : Kind t → Kind u → (s : ℕ) × (div t u ≡ some s) × (times s u ≡ t) × (s < 2 ^ 16)
    go _ (is_zero z) = absurd (omega arith)
    go (is_zero z) (is_power nu eu lu) = (0, ground arith, zero-times u ∙ sym z, omega arith)
    go (is_power nt et lt) (is_power nu eu lu) =
        let s_eq : s ≡ power (log t + 65535 - log u) = exp_mod (log t + 65535 - log u) in
        (
          s,
          ground arith,
          ap₂ times s_eq (sym eu)
              ∙ times-power (log t + 65535 - log u) (log u)
              ∙ ap power {x = log t + 65535 - log u + log u} {y = 65535 + log t} (omega arith)
              ∙ power-period (log t)
              ∙ et,
          omega (arith, s_eq, power-lt (log t + 65535 - log u)),
        )

-- The powers of an element by repeated multiplication.
pub repeated : ℕ → ℕ → ℕ
repeated t zero = 1
repeated t (suc n) = times t (repeated t n)

pub power_multiple : (i n : ℕ) → repeated (power i) n ≡ power (i * n)
unfolding repeated
power_multiple i zero = sym power-zero ∙ ap power {x = 0} {y = i * 0} (omega arith)
power_multiple i (suc n) =
    ap (times (power i)) (power_multiple i n)
    ∙ times-power i (i * n)
    ∙ ap power {x = i + i * n} {y = i * suc n} (omega arith)

zero_repeated : (n : ℕ) → 0 < n → repeated 0 n ≡ 0
unfolding repeated
zero_repeated zero h = absurd (omega arith)
zero_repeated (suc n) h = zero-times (repeated 0 n)

repeated-zero : (t : ℕ) → repeated t 0 ≡ 1
unfolding repeated
repeated-zero t = refl

pow_no_wrap : (l p : ℕ) → l < 65535 → p < 2 ^ 32 → l * p % 2 ^ 64 ≡ l * p
pow_no_wrap l p hl hp =
    mod-eq_of_lt (omega (arith, mul-le-mul_right {m = l} {n = 65535} p (omega arith)))

nonzero_pow : (t p : ℕ) → t ≢ 0 → log t * p % 2 ^ 64 ≡ log t * p → pow t p ≡ power (log t * p)
unfolding pow
nonzero_pow t p nt exact =
    ground (arith, ap (λ (k : ℕ). tables.exp_table (k % 65535)) exact, exp_mod (log t * p))

-- `Pow` is repeated multiplication, for every 32-bit exponent; the product of the logarithm and
-- the exponent does not wrap.
pub pow-repeated : (t p : ℕ) → t < 2 ^ 16 → p < 2 ^ 32 → pow t p ≡ repeated t p
unfolding pow
pow-repeated t p ht hp = go (kind t ht)
  where
    go : Kind t → pow t p ≡ repeated t p
    go (is_zero z) = elim (ℕ_discrete p 0) [
      | yes none_left ↦ rw (z, none_left) (sym (repeated-zero 0))
      | no some_left ↦ ground (arith, zero_repeated p, ap (λ (k : ℕ). repeated k p) z)
    ]
    go (is_power nt et lt) =
        nonzero_pow t p nt (pow_no_wrap (log t) p lt hp)
        ∙ sym (power_multiple (log t) p)
        ∙ ap (λ (k : ℕ). repeated k p) et

repeated-lt : (t n : ℕ) → t < 2 ^ 16 → repeated t n < 2 ^ 16
unfolding repeated
repeated-lt t zero ht = omega arith
repeated-lt t (suc n) ht = times-lt t (repeated t n) ht (repeated-lt t n ht)

pub pow-lt : (t p : ℕ) → t < 2 ^ 16 → p < 2 ^ 32 → pow t p < 2 ^ 16
pow-lt t p ht hp = omega (arith, pow-repeated t p ht hp, repeated-lt t p ht)
