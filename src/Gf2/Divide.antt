-- ===== src/Gf2/Divide.antt =====
-- `Poly64.Div` is Euclidean division of polynomials.
use gopar_turbo.Base.{
  ℕ, zero, suc, ◌+◌, ◌-◌, ◌*◌, ◌%◌, ◌^◌, ◌≤◌, ◌<◌, ◌≡◌, ◌⊎◌, refl, sym, ◌∙◌, ap, subst, arith, true,
  false, ◌||◌, ◌==◌, ltb, Bool-cases, inl, inr, Option, some,
}
use gopar_turbo.Bits.{◌⊕◌}
use gopar_turbo.Bits.Xor.{
  zero-xor, xor-zero, xor_assoc, xor-lt, xor-lt_same_length, xor_cancel_right, xor_left_comm,
  xor_self,
}
use gopar_turbo.Bits.Powers.{pow-add, pow_mono, lt_of_pow}
use gopar_turbo.Gf2.{Division, div, div_loop, ilog2, times, plus}
use gopar_turbo.Gf2.Product.{product, xor-product, pow-product, zero-product}
use gopar_turbo.Gf2.Multiply.{times-product}
use gopar_turbo.Gf2.Ilog.{ilog2_bounds}
use native.Mathlib.Nat.{
  pow-suc, mod-eq_of_lt, mul-le-mul_right, mul-lt-mul_of_pos_right, one-le-pow,
}

-- One round: the divisor is shifted under the leading digit of the remainder.
record IsRound (p2 r : ℕ) : Type 0 where
  d : ℕ
  d_def : d ≡ ilog2 r - ilog2 p2
  d_lt : d < 64
  no_wrap : p2 * 2 ^ d % 2 ^ 64 ≡ p2 * 2 ^ d
  fits : p2 * 2 ^ d < 2 ^ 64
  shorter : r ⊕ p2 * 2 ^ d < 2 ^ ilog2 r

round_lem :
    (p2 r : ℕ) → 0 < p2 → p2 < 2 ^ 64 → 0 < r → r < 2 ^ 64 → ilog2 p2 ≤ ilog2 r → IsRound p2 r
round_lem p2 r pos2 h2 pos h le = record {
  d = d;
  d_def = refl;
  d_lt = omega (arith, lt_of_pow (ilog2 r) 64 r bounds.0 h);
  no_wrap = mod-eq_of_lt fits;
  fits = fits;
  shorter = xor-lt_same_length (ilog2 r) r (p2 * 2 ^ d) bounds.0 bounds.1 lower upper;
}
  where
    d : ℕ
    d = ilog2 r - ilog2 p2

    bounds : (2 ^ ilog2 r ≤ r) × (r < 2 ^ suc (ilog2 r))
    bounds = ilog2_bounds r pos h

    bounds2 : (2 ^ ilog2 p2 ≤ p2) × (p2 < 2 ^ suc (ilog2 p2))
    bounds2 = ilog2_bounds p2 pos2 h2

    shifted : 2 ^ ilog2 r ≡ 2 ^ ilog2 p2 * 2 ^ d
    shifted =
        ap (λ (t : ℕ). 2 ^ t) {x = ilog2 r} {y = ilog2 p2 + d} (omega arith) ∙ pow-add (ilog2 p2) d

    lower : 2 ^ ilog2 r ≤ p2 * 2 ^ d
    lower = omega (arith, shifted, mul-le-mul_right (2 ^ d) bounds2.0)

    upper : p2 * 2 ^ d < 2 ^ suc (ilog2 r)
    upper = omega (
      arith,
      shifted,
      pow-suc 2 (ilog2 r),
      ap (λ (t : ℕ). t * 2 ^ d) (pow-suc 2 (ilog2 p2)),
      mul-lt-mul_of_pos_right bounds2.1 (one-le-pow d 2 (omega arith)),
    )

    fits : p2 * 2 ^ d < 2 ^ 64
    fits = omega (arith, upper, pow_mono (suc (ilog2 r)) 64 (lt_of_pow (ilog2 r) 64 r bounds.0 h))

-- What `Div` returns for `p`: no wrap is involved in the product.
pub record IsQuotient (p p2 : ℕ) (result : Division) : Type 0 where
  pub q_lt : result.q < 2 ^ 64
  pub r_lt : result.r < 2 ^ 64
  pub equation : product 64 result.q p2 ⊕ result.r ≡ p
  pub smaller : (result.r ≡ 0) ⊎ (ilog2 result.r < ilog2 p2)

-- A round keeps the equation.
round_equation :
    (p p2 q r d : ℕ)
    → p2 < 2 ^ 64
    → product 64 q p2 ⊕ r ≡ p
    → product 64 (q ⊕ 2 ^ d) p2 ⊕ (r ⊕ p2 * 2 ^ d) ≡ p
round_equation p p2 q r d h2 e =
    ap (λ (t : ℕ). t ⊕ (r ⊕ p2 * 2 ^ d))
      (xor-product 64 q (2 ^ d) p2 ∙ ap (λ (t : ℕ). product 64 q p2 ⊕ t) (pow-product 64 d p2 h2))
    ∙ xor_assoc _ _ _
    ∙ ap (λ (t : ℕ). product 64 q p2 ⊕ t)
        (xor_left_comm (p2 * 2 ^ d) r (p2 * 2 ^ d)
          ∙ ap (λ (t : ℕ). r ⊕ t) (xor_self (p2 * 2 ^ d))
          ∙ xor-zero r)
    ∙ e

-- The next round has the invariant, with one digit less to go.
next_round :
    (n p p2 q r : ℕ)
    → p2 < 2 ^ 64
    → q < 2 ^ 64
    → r < 2 ^ suc n
    → product 64 q p2 ⊕ r ≡ p
    → 2 ^ ilog2 r ≤ r
    → (rd : IsRound p2 r)
    → (q ⊕ 2 ^ rd.d < 2 ^ 64)
      × (r ⊕ p2 * 2 ^ rd.d < 2 ^ n)
      × (2 ^ rd.d % 2 ^ 64 ≡ 2 ^ rd.d)
      × (product 64 (q ⊕ 2 ^ rd.d) p2 ⊕ (r ⊕ p2 * 2 ^ rd.d) ≡ p)
next_round n p p2 q r h2 hq hn e lo rd = (
  xor-lt 64 q (2 ^ rd.d) hq power,
  omega (
    arith,
    rd.shorter,
    pow_mono (ilog2 r) n (omega (arith, lt_of_pow (ilog2 r) (suc n) r lo hn)),
  ),
  mod-eq_of_lt power,
  round_equation p p2 q r rd.d h2 e,
)
  where
    power : 2 ^ rd.d < 2 ^ 64
    power =
        omega
          (arith, pow_mono (suc rd.d) 64 rd.d_lt, pow-suc 2 rd.d, one-le-pow rd.d 2 (omega arith))

abbrev Ends : ℕ → ℕ → Option Division → Type 0
Ends p p2 out = (result : Division) × (out ≡ some result) × IsQuotient p p2 result

stop_round :
    (n p p2 q r : ℕ)
    → q < 2 ^ 64
    → r < 2 ^ 64
    → product 64 q p2 ⊕ r ≡ p
    → (r == 0 || ltb (ilog2 r) (ilog2 p2)) ≡ true
    → Ends p p2 (div_loop (suc n) p2 (ilog2 p2) q r)
unfolding div_loop
stop_round n p p2 q r hq hr e stop = (
  record { q = q; r = r },
  rw stop,
  record { q_lt = hq; r_lt = hr; equation = e; smaller = ground arith },
)

-- One turn of the loop, with the two shifts exact.
div_loop_step :
    (n p2 q r : ℕ) (rd : IsRound p2 r)
    → 2 ^ rd.d % 2 ^ 64 ≡ 2 ^ rd.d
    → (r == 0 || ltb (ilog2 r) (ilog2 p2)) ≡ false
    → div_loop (suc n) p2 (ilog2 p2) q r
      ≡ div_loop n p2 (ilog2 p2) (q ⊕ 2 ^ rd.d) (r ⊕ p2 * 2 ^ rd.d)
unfolding div_loop
div_loop_step n p2 q r rd power more = rw (more, ← rd.d_def, power, rd.no_wrap)

div_loop-IsQuotient :
    (n p p2 q r : ℕ)
    → n ≤ 64
    → 0 < p2
    → p2 < 2 ^ 64
    → q < 2 ^ 64
    → r < 2 ^ n
    → product 64 q p2 ⊕ r ≡ p
    → Ends p p2 (div_loop (suc n) p2 (ilog2 p2) q r)
div_loop-IsQuotient zero p p2 q r hn pos2 h2 hq hr e =
    stop_round zero p p2 q r hq (omega arith) e (ground arith)
div_loop-IsQuotient (suc n) p p2 q r hn pos2 h2 hq hr e =
    let hr64 : r < 2 ^ 64 = omega (arith, pow_mono (suc n) 64 hn) in
    elim (Bool-cases (r == 0 || ltb (ilog2 r) (ilog2 p2))) [
      | inl stop ↦ stop_round (suc n) p p2 q r hq hr64 e stop
      | inr more ↦
          let pos : 0 < r = ground arith in
          let rd = round_lem p2 r pos2 h2 pos hr64 (ground arith) in
          let (hq', hr', power, e') =
            next_round n p p2 q r h2 hq hr e (ilog2_bounds r pos hr64).0 rd in
          let ih =
            div_loop-IsQuotient n p p2 (q ⊕ 2 ^ rd.d) (r ⊕ p2 * 2 ^ rd.d) (omega arith) pos2 h2 hq'
              hr' e' in
          subst (Ends p p2) (sym (div_loop_step (suc n) p2 q r rd power more)) ih
    ]

-- `Div` returns for every non-zero divisor, with an exact quotient.
pub div-IsQuotient :
    (p p2 : ℕ)
    → p < 2 ^ 64
    → 0 < p2
    → p2 < 2 ^ 64
    → (result : Division) × (div p p2 ≡ some result) × IsQuotient p p2 result
unfolding div
div-IsQuotient p p2 hp pos h2 = rw zero_test (
    div_loop-IsQuotient 64 p p2 0 p (omega arith) pos h2 (omega arith) hp
      (ap (λ (t : ℕ). t ⊕ p) (zero-product 64 p2) ∙ zero-xor p))
  where
    zero_test : (p2 == 0) ≡ false
    zero_test = ground arith

-- The documented contract of `Div`, for 64-bit words with a divisor other than 0: it returns `q` and
-- `r` with `q.Times(p2).Plus(r) == p`, and `r` is 0 or `ilog2(r)` is below `ilog2(p2)`.
pub plus-times-div :
    (p p2 : ℕ)
    → p < 2 ^ 64
    → 0 < p2
    → p2 < 2 ^ 64
    → (result : Division) × (div p p2 ≡ some result)
      × (plus (times result.q p2) result.r ≡ p)
      × ((result.r ≡ 0) ⊎ (ilog2 result.r < ilog2 p2))
unfolding plus
plus-times-div p p2 hp pos h2 =
    let (result, e, is) = div-IsQuotient p p2 hp pos h2 in
    (
      result,
      e,
      ap (λ (t : ℕ). t ⊕ result.r)
            (times-product result.q p2 is.q_lt h2 ∙ mod-eq_of_lt (exact result is))
          ∙ is.equation,
      is.smaller,
    )
  where
    exact : (result : Division) → IsQuotient p p2 result → product 64 result.q p2 < 2 ^ 64
    exact result is = omega (
      arith,
      sym (xor_cancel_right (product 64 result.q p2) result.r)
          ∙ ap (λ (t : ℕ). t ⊕ result.r) is.equation,
      xor-lt 64 p result.r hp is.r_lt,
    )
