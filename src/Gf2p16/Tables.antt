-- ===== src/Gf2p16/Tables.antt =====
-- `init` fills the tables with the powers of 3 and their exponents, and never panics.
use gopar_turbo.Base.{
  ℕ, zero, suc, ◌+◌, ◌-◌, ◌^◌, ◌≤◌, ◌<◌, ◌≡◌, refl, sym, subst, ◌∙◌, ap, arith, ◌≢◌, some,
}
use gopar_turbo.Gf2p16.{
  State, init_round, init_loop, init_tables, tables, blank, update, store, next_power,
}
use gopar_turbo.Gf2p16.Generator.{
  power, power-lt, power-zero, power-suc, triple, next_power-triple, power-ne-one,
}
use gopar_turbo.Gf2p16.Order.{power_injective, power-pos, power_surjective}
use native.Mathlib.Nat.{mod-eq_of_lt}

-- After `p` rounds both tables hold the first `p` powers, and 0 everywhere else.
record IsFilled (p : ℕ) (s : State) : Type 0 where
  current : s.x ≡ power p
  exps : (i : ℕ) → i < p → s.exp_table i ≡ power i
  exps_blank : (i : ℕ) → p ≤ i → s.exp_table i ≡ 0
  logs : (i : ℕ) → i < p → s.log_table (power i - 1) ≡ i
  logs_blank : (t : ℕ) → ((i : ℕ) → i < p → power i - 1 ≢ t) → s.log_table t ≡ 0

abbrev after : ℕ → State → State
after p s = record {
  x = power (suc p);
  log_table = update s.log_table (s.x - 1) p;
  exp_table = update s.exp_table p s.x;
}

other_power : (i p : ℕ) → i < p → p < 65535 → power i - 1 ≢ power p - 1
other_power i p lt h e = absurd (
    omega (
      arith,
      power_injective i p (omega arith) h (omega (arith, power-pos i (omega arith), power-pos p h)),
    ))

after-IsFilled : (p : ℕ) (s : State) → p < 65535 → IsFilled p s → IsFilled (suc p) (after p s)
after-IsFilled p s h f = record {
  current = refl;
  exps = λ i lt. ground (arith, f.exps i, f.current);
  exps_blank = λ i le. ground (arith, f.exps_blank i);
  logs = λ i lt. ground (arith, f.logs i, f.current, other_power i p);
  logs_blank = λ t free.
      ground
        (arith, f.current, f.logs_blank t (λ i lt. free i (omega arith)), free p (omega arith));
}

store-after : (p : ℕ) (s : State) → p < 65535 → IsFilled p s → store p s ≡ some (after p s)
unfolding store
store-after p s h f =
    rw (store, next)
      (ap some λ i. record {
        x = power (suc p);
        log_table =
            update s.log_table (s.x - 1) (mod-eq_of_lt {n = p} {m = 2 ^ 16} (omega arith) i);
        exp_table = update s.exp_table p s.x;
      })
  where
    next : next_power s.x ≡ some (power (suc p))
    next =
        next_power-triple s.x (omega (arith, f.current, power-lt p))
        ∙ ap some (ap triple f.current ∙ sym (power-suc p))

-- None of the checks of a round fails.
checks_pass :
    (p : ℕ) (s : State)
    → (0 < p → s.x ≢ 1)
    → s.x ≢ 0
    → s.log_table (s.x - 1) ≡ 0
    → s.exp_table p ≡ 0
    → init_round p s ≡ store p s
unfolding init_round
checks_pass p s fresh nonzero log_free exp_free = ground arith

init_round-after :
    (p : ℕ) (s : State) → p < 65535 → IsFilled p s → init_round p s ≡ some (after p s)
init_round-after p s h f =
    checks_pass p s (λ pos e. power-ne-one p pos h (sym f.current ∙ e))
      (λ e. absurd (omega (arith, f.current, power-pos p h)))
      (f.logs_blank (s.x - 1)
        (λ i lt e. other_power i p lt h (e ∙ ap (λ (t : ℕ). t - 1) f.current)))
      (f.exps_blank p (omega arith))
    ∙ store-after p s h f

init_loop-IsFilled :
    (n p : ℕ) (s : State)
    → p + n ≡ 65535
    → IsFilled p s
    → (t : State) × (init_loop n p s ≡ some t) × IsFilled 65535 t
unfolding init_loop
init_loop-IsFilled zero p s e f =
    let e' : p ≡ 65535 = omega arith in (s, refl, subst (λ k. IsFilled k s) e' f)
init_loop-IsFilled (suc n) p s e f =
    let (t, te, tf) =
      init_loop-IsFilled n (suc p) (after p s) (omega arith) (after-IsFilled p s (omega arith) f) in
    (
      t,
      rw (init_loop, init_round-after p s (omega arith) f)
          (ap (λ (k : ℕ). init_loop n k (after p s)) {x = p + 1} {y = suc p} (omega arith) ∙ te),
      tf,
    )

blank-IsFilled : IsFilled 0 blank
blank-IsFilled = record {
  current = sym power-zero;
  exps = λ i lt. absurd (omega arith);
  exps_blank = λ i le. refl;
  logs = λ i lt. absurd (omega arith);
  logs_blank = λ t free. refl;
}

filled : (s : State) × (init_tables ≡ some s) × IsFilled 65535 s
filled = unfold init_tables in init_loop-IsFilled 65535 0 blank (omega arith) blank-IsFilled

tables-eq : tables ≡ filled.0
tables-eq = unfold tables in rw (tables, filled.1)

-- `init` passes all of its checks, and the tables are what it leaves.
pub init_tables-tables : init_tables ≡ some tables
init_tables-tables = filled.1 ∙ ap some (sym tables-eq)

-- Entry `i` of `expTable` is the power of 3 with exponent `i`.
pub exp_table-power : (i : ℕ) → i < 65535 → tables.exp_table i ≡ power i
exp_table-power i h = rw tables-eq (filled.2.exps i h)

-- `logTable` inverts `expTable`.
pub log_table-power : (i : ℕ) → i < 65535 → tables.log_table (power i - 1) ≡ i
log_table-power i h = rw tables-eq (filled.2.logs i h)

-- The logarithm of any element but 0.
pub log_table_lem :
    (t : ℕ)
    → 0 < t
    → t < 2 ^ 16
    → (tables.log_table (t - 1) < 65535) × (power (tables.log_table (t - 1)) ≡ t)
log_table_lem t pos h =
    let (i, lt, e) = power_surjective t pos h in
    let log_eq : tables.log_table (t - 1) ≡ i =
      ap (λ (k : ℕ). tables.log_table (k - 1)) (sym e) ∙ log_table-power i lt in
    (omega arith, ap power log_eq ∙ e)

-- `init` passes all of its checks. In the tables that it leaves, entry `i` of `expTable` is the
-- power of 3 with exponent `i`, entry `3^i - 1` of `logTable` is `i`, and for every element `t` but
-- 0 the entry `t - 1` of `logTable` is below 65535 and is an exponent that gives `t`.
pub init_tables-power :
    (i t : ℕ)
    → i < 65535
    → 0 < t
    → t < 2 ^ 16
    → (init_tables ≡ some tables)
      × (tables.exp_table i ≡ power i)
      × (tables.log_table (power i - 1) ≡ i)
      × (tables.log_table (t - 1) < 65535)
      × (power (tables.log_table (t - 1)) ≡ t)
init_tables-power i t hi pos ht =
    let (lt, e) = log_table_lem t pos ht in
    (init_tables-tables, exp_table-power i hi, log_table-power i hi, lt, e)
