-- ===== src/Rsec16/Parallel.antt =====
-- rsec16/matrix.go: how `applyMatrixParallelOut` and `applyMatrixParallelData` split their work.
use gopar_turbo.Base.{
  ℕ, ◌+◌, ◌-◌, ◌*◌, ◌/◌, ◌%◌, ◌≤◌, ◌<◌, ◌≡◌, ap, ◌∙◌, sym, arith, ltb, ◌==◌, not, if◌then◌else◌,
  Bool-cases, inl, inr, ==_iff, subst, ◌↔◌,
}
use native.Mathlib.Nat.{
  mod-lt, div-mul-le_self, lt-div-mul-add, div-add-mod', div-lt_iff_lt-mul, mul-le-mul_right,
  mul-mod_left, div-eq_of_lt-le, mul_comm,
}

-- The length up to the least one.
unfoldable pub least_length : ℕ → ℕ → ℕ → ℕ
least_length total_length num_goroutines min_length =
    let length = (total_length + num_goroutines - 1) / num_goroutines in
    if ltb length min_length then min_length else length

-- The length up to the next multiple of the divisor.
unfoldable pub round_up : ℕ → ℕ → ℕ
round_up length divisor =
    let rem = length % divisor in if not (rem == 0) then length + (divisor - rem) else length

-- `calculateParallelParams`: the length for each goroutine, and the number of goroutines.
unfoldable pub calculate_parallel_params : ℕ → ℕ → ℕ → ℕ → ℕ × ℕ
calculate_parallel_params total_length num_goroutines min_length divisor =
    let length = least_length total_length num_goroutines min_length in
    let rounded = round_up length divisor in (rounded, (total_length + rounded - 1) / rounded)

-- `start` and `end` of goroutine `i`.
unfoldable pub range_of : ℕ → ℕ → ℕ → ℕ × ℕ
range_of total_length length i =
    let start = i * length in
    let stop = start + length in (start, if ltb total_length stop then total_length else stop)

-- Division that rounds up.
ceil_upper : (n d : ℕ) → 0 < d → n ≤ (n + d - 1) / d * d
ceil_upper n d h = let up = lt-div-mul-add {a = n + d - 1} {b = d} h in omega (arith, up)

ceil_lower : (n d : ℕ) → 0 < d → (n + d - 1) / d * d < n + d
ceil_lower n d h = let low = div-mul-le_self (n + d - 1) d in omega (arith, low)

-- What holds of a split.
pub record IsSplit (total_length num_goroutines min_length divisor length count : ℕ) : Type 0 where
  pub aligned : length % divisor ≡ 0
  pub least : min_length ≤ length
  pub covers : total_length ≤ count * length
  pub last_not_empty : count * length < total_length + length
  pub few : count ≤ num_goroutines

least_length-least : (t n m : ℕ) → m ≤ least_length t n m
unfolding least_length
least_length-least t n m = ground arith

at_least : (q m : ℕ) → q ≤ (if ltb q m then m else q)
at_least q m = ground arith

least_length-covers : (t n m : ℕ) → 0 < n → t ≤ least_length t n m * n
unfolding least_length
least_length-covers t n m h =
    let q = (t + n - 1) / n in
    let more : q ≤ (if ltb q m then m else q) = at_least q m in
    let wide = mul-le-mul_right {m = q} {n = if ltb q m then m else q} n more in
    omega (arith, ceil_upper t n h, wide)

next_multiple : (q d : ℕ) → (q + 1) * d ≡ q * d + d
next_multiple q d = grind arith

filled_aligned : (l d : ℕ) → 0 < d → (l + (d - l % d)) % d ≡ 0
filled_aligned l d h =
    let e : l + (d - l % d) ≡ (l / d + 1) * d =
      omega (arith, next_multiple (l / d) d, div-add-mod' l d, mod-lt l {m = d} h) in
    ap (λ x. x % d) e ∙ mul-mod_left (l / d + 1) d

round_up_aligned : (l d : ℕ) → 0 < d → round_up l d % d ≡ 0
unfolding round_up
round_up_aligned l d h = elim (Bool-cases (l % d == 0)) [
  | inl z ↦ rw z ((==_iff (l % d) 0).0 z)
  | inr z ↦ rw z (filled_aligned l d h)
]

round_up_least : (l d : ℕ) → l ≤ round_up l d
unfolding round_up
round_up_least l d = elim (Bool-cases (l % d == 0)) [
  | inl z ↦ rw z (omega arith)
  | inr z ↦ rw z (omega arith)
]

few_parts : (t n r : ℕ) → 0 < r → t ≤ r * n → (t + r - 1) / r ≤ n
few_parts t n r h c =
    let below : t + r - 1 < (n + 1) * r = omega (arith, next_multiple n r, mul_comm r n) in
    let strict = (div-lt_iff_lt-mul {k = r} {x = t + r - 1} {y = n + 1} h).1 below in
    omega (arith, strict)

-- For at least one goroutine, a positive least length and a positive divisor,
-- `calculateParallelParams` returns a length that is a multiple of the divisor and not below the
-- least length, and a number of goroutines, not above the given one, such that pieces of that
-- length cover the total length and the last of them is not empty.
pub calculate_parallel_params-IsSplit :
    (t n m d : ℕ)
    → 0 < n
    → 0 < m
    → 0 < d
    → IsSplit t n m d (calculate_parallel_params t n m d).0 (calculate_parallel_params t n m d).1
unfolding calculate_parallel_params
calculate_parallel_params-IsSplit t n m d hn hm hd =
    let l = least_length t n m in
    let r = round_up l d in
    let up = round_up_least l d in
    let low = least_length-least t n m in
    let pos : 0 < r = omega (arith, up, low) in
    let wide = mul-le-mul_right {m = l} {n = r} n up in
    record {
      aligned = round_up_aligned l d hd;
      least = omega (arith, up, low);
      covers = ceil_upper t r pos;
      last_not_empty = ceil_lower t r pos;
      few = few_parts t n r pos (omega (arith, wide, least_length-covers t n m hn));
    }

below_stop : (t stop j : ℕ) → j < (if ltb t stop then t else stop) → j < stop
below_stop t stop j h = ground arith

both_stops : (t stop j : ℕ) → j < t → j < stop → j < (if ltb t stop then t else stop)
both_stops t stop j h k = ground arith

abbrev pub IsIn : ℕ → ℕ × ℕ → Type 0
IsIn j r = (r.0 ≤ j) × (j < r.1)

IsIn-range : (t r j i : ℕ) → 0 < r → j < t → IsIn j (range_of t r i) → i ≡ j / r
unfolding range_of
IsIn-range t r j i h b w =
    let under : j < i * r + r = below_stop t (i * r + r) j w.1 in
    sym (div-eq_of_lt-le {k = i} r {m = j} w.0 (omega (arith, under, next_multiple i r)))

range-IsIn : (t r j : ℕ) → 0 < r → j < t → IsIn j (range_of t r (j / r))
unfolding range_of
range-IsIn t r j h b =
    (div-mul-le_self j r, both_stops t (j / r * r + r) j b (lt-div-mul-add {a = j} {b = r} h))

-- For at least one goroutine, a positive least length and a positive divisor, the goroutines that
-- `calculateParallelParams` counts do every unit of work exactly once: a unit below the total
-- length is in the range of exactly one goroutine, and that goroutine is counted.
pub calculate_parallel_params-once :
    (t n m d j i : ℕ)
    → 0 < n
    → 0 < m
    → 0 < d
    → j < t
    → (IsIn j (range_of t (calculate_parallel_params t n m d).0 i)
        ↔ (i ≡ j / (calculate_parallel_params t n m d).0))
      × (j / (calculate_parallel_params t n m d).0 < (calculate_parallel_params t n m d).1)
calculate_parallel_params-once t n m d j i hn hm hd hj =
    let r = (calculate_parallel_params t n m d).0 in
    let c = (calculate_parallel_params t n m d).1 in
    let s = calculate_parallel_params-IsSplit t n m d hn hm hd in
    let pos : 0 < r = omega (arith, s.least) in
    (
      (
        IsIn-range t r j i pos hj,
        λ e. subst (λ k. IsIn j (range_of t r k)) (sym e) (range-IsIn t r j pos hj),
      ),
      (div-lt_iff_lt-mul {k = r} {x = j} {y = c} pos).1 (omega (arith, s.covers)),
    )
