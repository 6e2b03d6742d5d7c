-- ===== src/Matrix/Grid.antt =====
-- Elements by row and column, and what the row operations do to them.
use gopar_turbo.Base.{
  ℕ, suc, ◌+◌, ◌*◌, ◌/◌, ◌%◌, ◌^◌, ◌<◌, ◌≡◌, ◌≢◌, ◌∙◌, ap, arith, ◌&&◌, ◌==◌, ltb, if◌then◌else◌,
}
use gopar_turbo.Base.Loops.{for_each, for_each_inv}
use gopar_turbo.Bits.{◌⊕◌}
use gopar_turbo.Gf2p16.Slice.{table_times}
use gopar_turbo.Matrix.{Matrix, swap_body, scale_body, add_body}
use native.Mathlib.Nat.{mul-add-div_right, div-eq_of_lt, mul-add-mod_self_right, mod-eq_of_lt}

abbrev pub entry : Matrix → ℕ → ℕ → ℕ
entry m r k = m.elements (r * m.columns + k)

-- The array holds field elements.
abbrev pub IsElements : (ℕ → ℕ) → Type 0
IsElements e = (p : ℕ) → e p < 2 ^ 16

row_of_index : (c r k : ℕ) → k < c → (r * c + k) / c ≡ r
row_of_index c r k h =
    mul-add-div_right {m = c} (omega arith) r k
    ∙ ap (λ (t : ℕ). r + t) (div-eq_of_lt h)
    ∙ omega arith

column_of_index : (c r k : ℕ) → k < c → (r * c + k) % c ≡ k
column_of_index c r k h = mul-add-mod_self_right r c k ∙ mod-eq_of_lt h

-- Two places of the array are one only if their rows and columns agree.
pub index_test :
    (c r k r' k' : ℕ) → k < c → k' < c → ((r * c + k) == (r' * c + k')) ≡ ((r == r') && (k == k'))
index_test c r k r' k' h h' = ground (
  arith,
  ap (λ (t : ℕ). t / c) {x = r * c + k} {y = r' * c + k'},
  row_of_index c r k h,
  row_of_index c r' k' h',
)

-- What each loop leaves at row `r`, column `k` once it has done the columns below `n`.
abbrev pub swap_index : ℕ → ℕ → ℕ → ℕ
swap_index i j r = if r == i then j else if r == j then i else r

module _ (c : ℕ) (e : ℕ → ℕ) where
  Swapped : ℕ → ℕ → ℕ → (ℕ → ℕ) → Type 0
  Swapped i j n s =
      (r k : ℕ)
      → k < c
      → s (r * c + k) ≡ (if ltb k n then e (swap_index i j r * c + k) else e (r * c + k))

  swap_step :
      (i j n : ℕ) (s : ℕ → ℕ)
      → i ≢ j
      → n < c
      → Swapped i j n s
      → Swapped i j (suc n) (swap_body c i j n s)
  unfolding Swapped swap_body
  swap_step i j n s ne lt h r k hk =
      rw (index_test c r k j n hk lt, index_test c r k i n hk lt)
        (ground (arith, h r k hk, h i n lt, h j n lt))

  pub swap_loop :
      (i j : ℕ)
      → i ≢ j
      → (r k : ℕ) → k < c
      → for_each c 0 (swap_body c i j) e (r * c + k) ≡ e (swap_index i j r * c + k)
  unfolding Swapped
  swap_loop i j ne r k hk = ground (
    arith,
    for_each_inv (Swapped i j) (swap_body c i j) c (λ n s lt h. swap_step i j n s ne lt h) c 0 e
        (omega arith) (λ r k hk. ground arith) r k hk,
  )

  Scaled : ℕ → ℕ → ℕ → (ℕ → ℕ) → Type 0
  Scaled i x n s =
      (r k : ℕ)
      → k < c
      → s (r * c + k)
        ≡ (if (r == i) && ltb k n then table_times x (e (r * c + k)) else e (r * c + k))

  scale_step :
      (i x n : ℕ) (s : ℕ → ℕ) → n < c → Scaled i x n s → Scaled i x (suc n) (scale_body c i x n s)
  unfolding Scaled scale_body
  scale_step i x n s lt h r k hk =
      rw (index_test c r k i n hk lt) (ground (arith, h r k hk, h i n lt))

  pub scale_loop :
      (i x r k : ℕ)
      → k < c
      → for_each c 0 (scale_body c i x) e (r * c + k)
        ≡ (if r == i then table_times x (e (r * c + k)) else e (r * c + k))
  unfolding Scaled
  scale_loop i x r k hk = ground (
    arith,
    for_each_inv (Scaled i x) (scale_body c i x) c (λ n s lt h. scale_step i x n s lt h) c 0 e
        (omega arith) (λ r k hk. ground arith) r k hk,
  )

  Added : ℕ → ℕ → ℕ → ℕ → (ℕ → ℕ) → Type 0
  Added d b x n s =
      (r k : ℕ)
      → k < c
      → s (r * c + k) ≡ (
          if (r == d) && ltb k n
          then e (r * c + k) ⊕ table_times x (e (b * c + k))
          else e (r * c + k))

  add_step :
      (d b x n : ℕ) (s : ℕ → ℕ)
      → d ≢ b
      → n < c
      → Added d b x n s
      → Added d b x (suc n) (add_body c d b x n s)
  unfolding Added add_body
  add_step d b x n s ne lt h r k hk =
      rw (index_test c r k d n hk lt) (ground (arith, h r k hk, h d n lt, h b n lt))

  pub add_loop :
      (d b x : ℕ)
      → d ≢ b
      → (r k : ℕ) → k < c
      → for_each c 0 (add_body c d b x) e (r * c + k)
        ≡ (if r == d then e (r * c + k) ⊕ table_times x (e (b * c + k)) else e (r * c + k))
  unfolding Added
  add_loop d b x ne r k hk = ground (
    arith,
    for_each_inv (Added d b x) (add_body c d b x) c (λ n s lt h. add_step d b x n s ne lt h) c 0 e
        (omega arith) (λ r k hk. ground arith) r k hk,
  )
