-- ===== src/Gf2/Ilog.antt =====
-- `ilog2` is the degree: the position of the highest digit.
use gopar_turbo.Base.{ℕ, zero, suc, ◌+◌, ◌/◌, ◌^◌, ◌≤◌, ◌<◌, ◌≡◌, arith, ◌==◌, Bool-cases, inl, inr}
use gopar_turbo.Gf2.{ilog2, ilog2_loop}
use native.Mathlib.Nat.{pow-suc}

-- The loop counts the digits above the lowest one.
ilog2_loop_lem :
    (n x r : ℕ)
    → 0 < x
    → x < 2 ^ n
    → (d : ℕ) × (ilog2_loop n x r ≡ r + d) × (2 ^ d ≤ x) × (x < 2 ^ suc d)
unfolding ilog2_loop
ilog2_loop_lem zero x r pos h = absurd (omega arith)
ilog2_loop_lem (suc n) x r pos h = elim (Bool-cases (x / 2 == 0)) [
  | inl stop ↦ (0, rw stop (omega arith), omega arith, ground arith)
  | inr more ↦
      let (d, e, lo, hi) =
        ilog2_loop_lem n (x / 2) (r + 1) (ground arith) (omega (arith, pow-suc 2 n)) in
      (
        suc d,
        rw more (omega (arith, e)),
        omega (arith, pow-suc 2 d),
        omega (arith, pow-suc 2 d, pow-suc 2 (suc d)),
      )
]

-- For every 64-bit word `n` but 0, `ilog2(n)` is `floor(log2(n))`.
pub ilog2_bounds : (n : ℕ) → 0 < n → n < 2 ^ 64 → (2 ^ ilog2 n ≤ n) × (n < 2 ^ suc (ilog2 n))
unfolding ilog2
ilog2_bounds n pos h =
    let (d, e, lo, hi) = ilog2_loop_lem 64 n 0 pos h in
    let e' : ilog2_loop 64 n 0 ≡ d = omega (arith, e) in rw e' (lo, hi)
