-- ===== src/Gf2.antt =====
-- gf2/poly64.go: polynomials over GF(2) modulo x^64, as 64-bit words.
pub mod Product
pub mod Multiply
pub mod Ilog
pub mod Divide
use gopar_turbo.Base.{
  ℕ, zero, suc, ◌+◌, ◌-◌, ◌*◌, ◌/◌, ◌%◌, ◌^◌, ◌≡◌, Bool, ◌||◌, Option, none, some, ◌==◌, ltb,
  if◌then◌else◌,
}
use gopar_turbo.Bits.{◌⊕◌}

-- `Poly64.Plus` and `Poly64.Minus`.
unfoldable pub plus : ℕ → ℕ → ℕ
plus p q = p ⊕ q

unfoldable pub minus : ℕ → ℕ → ℕ
minus p q = p ⊕ q

-- The loop of `Poly64.Times`, with a bound on its rounds: `for p != 0 && q != 0`.
pub times_loop : ℕ → ℕ → ℕ → ℕ → ℕ
times_loop zero prod p q = prod
times_loop (suc rounds) prod p q =
    let rest = times_loop rounds (if q % 2 == 0 then prod else prod ⊕ p) (p * 2 % 2 ^ 64) (q / 2) in
    if p == 0 || q == 0 then prod else rest

-- `q` has 64 digits and loses one in each round.
unfoldable pub times : ℕ → ℕ → ℕ
unfolding times_loop
times p q = times_loop 64 0 p q

-- The loop of `ilog2`: `n` is halved until it is 0.
pub ilog2_loop : ℕ → ℕ → ℕ → ℕ
ilog2_loop zero n r = r
ilog2_loop (suc rounds) n r =
    let rest = ilog2_loop rounds (n / 2) (r + 1) in if n / 2 == 0 then r else rest

unfoldable pub ilog2 : ℕ → ℕ
unfolding ilog2_loop
ilog2 n = ilog2_loop 64 n 0

pub record Division : Type 0 where
  pub q : ℕ
  pub r : ℕ

-- The loop of `Poly64.Div`; `none` means that the rounds ran out.
pub div_loop : ℕ → ℕ → ℕ → ℕ → ℕ → Option Division
div_loop zero p2 log2p2 q r = none
div_loop (suc rounds) p2 log2p2 q r =
    let dlog2 = ilog2 r - log2p2 in
    let rest = div_loop rounds p2 log2p2 (q ⊕ 2 ^ dlog2 % 2 ^ 64) (r ⊕ p2 * 2 ^ dlog2 % 2 ^ 64) in
    if r == 0 || ltb (ilog2 r) log2p2 then some (record { q = q; r = r }) else rest

-- `Poly64.Div`; `none` is its panic on a zero divisor. Each round shortens the remainder, which
-- has 64 digits at most.
unfoldable pub div : ℕ → ℕ → Option Division
unfolding div_loop ilog2
div p p2 = if p2 == 0 then none else div_loop 65 p2 (ilog2 p2) 0 p
