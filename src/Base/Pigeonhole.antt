-- ===== src/Base/Pigeonhole.antt =====
-- An injection of the numbers below `n` into themselves meets every one of them.
use Prim.Native.Nat.{ℕ, zero, suc, ◌<◌}
use mathlib.Core.Path.{◌≡◌, sym}
use native.Mathlib.Omega.{arith}
use native.Mathlib.Decide.{ℕ_discrete}
use gopar_turbo.Base.Tests.{◌==◌, if◌then◌else◌}

abbrev Into : ℕ → (ℕ → ℕ) → Type 0
Into n f = (i : ℕ) → i < n → f i < n

abbrev Injective : ℕ → (ℕ → ℕ) → Type 0
Injective n f = (i j : ℕ) → i < n → j < n → f i ≡ f j → i ≡ j

-- `f` with the value at the last index moved to where that index is hit.
abbrev redirect : ℕ → (ℕ → ℕ) → ℕ → ℕ
redirect n f i = if f i == n then f n else f i

redirect-Into : (n : ℕ) (f : ℕ → ℕ) → Into (suc n) f → Injective (suc n) f → Into n (redirect n f)
redirect-Into n f into inj i lt =
    ground (arith, into i (omega arith), into n (omega arith), inj i n (omega arith) (omega arith))

redirect-Injective :
    (n : ℕ) (f : ℕ → ℕ) → Into (suc n) f → Injective (suc n) f → Injective n (redirect n f)
redirect-Injective n f into inj i j hi hj e = ground (
  arith,
  inj i j (omega arith) (omega arith),
  inj i n (omega arith) (omega arith),
  inj j n (omega arith) (omega arith),
)

abbrev Hit : ℕ → (ℕ → ℕ) → ℕ → Type 0
Hit n f y = (i : ℕ) × (i < n) × (f i ≡ y)

pub pigeonhole : (n : ℕ) (f : ℕ → ℕ) → Into n f → Injective n f → (y : ℕ) → y < n → Hit n f y
pigeonhole zero f into inj y lt = absurd (omega arith)
pigeonhole (suc n) f into inj y lt = elim (ℕ_discrete y (f n)) [
  | yes e ↦ (n, omega arith, sym e)
  | no ne ↦
      let y' : ℕ = if y == n then f n else y in
      let y'_lt : y' < n = ground (arith, into n (omega arith)) in
      let (i, hi, e) =
        pigeonhole n (redirect n f) (redirect-Into n f into inj) (redirect-Injective n f into inj)
          y' y'_lt in
      (i, omega arith, ground (arith, inj i n (omega arith) (omega arith)))
]
