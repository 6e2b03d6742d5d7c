-- ===== src/Rsec16/Coder/Vandermonde.antt =====
-- rsec16/coder.go: the Vandermonde matrices of the coders for PAR2.
use gopar_turbo.Base.{
  ℕ, zero, suc, ◌+◌, ◌%◌, ◌^◌, ◌≤◌, ◌<◌, ◌≡◌, refl, ◌∙◌, ap, arith, ◌||◌, ◌==◌, ltb, le→leb, ltb→lt,
  ltb→ge, inl, inr, Bool-cases, List, ◌∷◌, length, get_or,
}
use gopar_turbo.Base.Loops.{ok, ◌>>=◌, Ensures}
use gopar_turbo.Gf2p16
use gopar_turbo.Gf2p16.{plus, times}
use gopar_turbo.Gf2p16.Field.{pow-lt, repeated, pow-repeated}
use gopar_turbo.Matrix.{Matrix}
use gopar_turbo.Matrix.Grid.{entry}
use gopar_turbo.Matrix.Build.{IsBuilt, new_matrix_from_function-IsBuilt}
use gopar_turbo.Rsec16.Coder.{
  Coder, CoderError, too_many_data_shards, too_many_parity_shards, index, generators,
  collect_generators, parity_exponent_out_of_range, new_vandermonde_matrix,
  new_vandermonde_parity_matrix, new_coder_par2_vandermonde,
}
use gopar_turbo.Rsec16.Coder.Order.{IsGenerator}
use gopar_turbo.Rsec16.Coder.Generators.{
  exponent, exponent-lt, exponent_ascend, exponent-IsGenerator, generators-exponent,
  length-generators,
}
use native.Mathlib.Nat.{mod-eq_of_lt}
use gopar_turbo.Rsec16.Coder.Valid.{IsCoder, built-IsCoder, index-get_or}

-- Generator `j`.
abbrev pub generator : ℕ → ℕ
generator j = get_or generators j 0

cons_short :
    (x : ℕ) (xs : List ℕ)
    → x < 2 ^ 16
    → ((j : ℕ) → get_or xs j 0 < 2 ^ 16)
    → (j : ℕ) → get_or (x ∷ xs) j 0 < 2 ^ 16
cons_short x xs h k zero = h
cons_short x xs h k (suc j) = k j

-- The generators are field elements.
collect_generators-lt :
    (rounds i : ℕ)
    → i + rounds ≤ 2 ^ 16
    → (j : ℕ) → get_or (collect_generators rounds i) j 0 < 2 ^ 16
unfolding collect_generators
collect_generators-lt zero i h j = omega arith
collect_generators-lt (suc rounds) i h j =
    let rest = collect_generators-lt rounds (i + 1) (omega arith) in
    elim (Bool-cases (i % 3 == 0 || (i % 5 == 0 || (i % 17 == 0 || i % 257 == 0)))) [
      | inl skip ↦ rw skip (rest j)
      | inr keep ↦ rw keep (
          cons_short (Gf2p16.pow 2 i) (collect_generators rounds (i + 1))
            (pow-lt 2 i (omega arith) (omega arith)) rest j)
    ]

generator-lt : (j : ℕ) → generator j < 2 ^ 16
unfolding generators
generator-lt = collect_generators-lt (2 ^ 16) 0 (omega arith)

module _ (d p : ℕ) (known : d ≤ 2 ^ 15) where
  vandermonde_cell :
      (i j : ℕ)
      → i < p
      → j < d
      → (index generators j >>= λ alpha. ok (Gf2p16.pow alpha (i % 2 ^ 32)))
        ≡ ok (Gf2p16.pow (generator j) (i % 2 ^ 32))
  vandermonde_cell i j hi hj =
      rw (index-get_or generators j (omega (arith, length-generators))) refl

  vandermonde_matrix :
      0 < d
      → 0 < p
      → (m : Matrix) × (new_vandermonde_parity_matrix d p ≡ ok m)
        × IsBuilt p d (λ i j. Gf2p16.pow (generator j) (i % 2 ^ 32)) m
  unfolding new_vandermonde_parity_matrix new_vandermonde_matrix
  vandermonde_matrix hd hp =
      new_matrix_from_function-IsBuilt p d (λ i j. Gf2p16.pow (generator j) (i % 2 ^ 32))
        (λ i j hi hj. pow-lt (generator j) (i % 2 ^ 32) (generator-lt j) (omega arith)) _
        vandermonde_cell hp hd

-- The coder has the shape asked for. Column `j` of its matrix is for a power of 2 that generates the
-- field; the exponents of these powers ascend with the columns, below 2 ^ 16. Row `i` holds their
-- powers with the exponent `rows i`.
pub record IsVandermondeCoder (d p g : ℕ) (rows : ℕ → ℕ) (c : Coder) : Type 0 where
  pub coder : IsCoder d p g c
  pub exponents : ℕ → ℕ
  pub short : (j : ℕ) → j < d → exponents j < 2 ^ 16
  pub ascend : (j k : ℕ) → j < k → k < d → exponents j < exponents k
  pub generates : (j : ℕ) → j < d → IsGenerator (repeated 2 (exponents j))
  pub powers :
      (i j : ℕ)
      → i < p
      → j < d
      → entry c.parity_matrix i j ≡ repeated (repeated 2 (exponents j)) (rows i)

built-IsVandermondeCoder :
    (d p g : ℕ) (rows : ℕ → ℕ) (m : Matrix)
    → d ≤ 2 ^ 15
    → ((i : ℕ) → i < p → rows i < 2 ^ 32)
    → IsBuilt p d (λ i j. Gf2p16.pow (generator j) (rows i % 2 ^ 32)) m
    → IsVandermondeCoder d p g rows
        (record { data_shards = d; parity_shards = p; num_goroutines = g; parity_matrix = m })
built-IsVandermondeCoder d p g rows m known fits b = record {
  coder = built-IsCoder d p g _ m b;
  exponents = exponent;
  short = λ j h. exponent-lt j (omega arith);
  ascend = λ j k lt h. exponent_ascend j k lt (omega arith);
  generates = λ j h. exponent-IsGenerator j (omega arith);
  powers = λ i j hi hj.
      b.entries i j hi hj
      ∙ ap (Gf2p16.pow (generator j)) {x = rows i % 2 ^ 32} {y = rows i} (mod-eq_of_lt (fits i hi))
      ∙ pow-repeated (generator j) (rows i) (generator-lt j) (fits i hi)
      ∙ ap (λ t. repeated t (rows i)) (generators-exponent j (omega arith));
}

-- What the error says.
abbrev pub IsTooMany : ℕ → ℕ → CoderError → Type 0
IsTooMany d p too_many_data_shards = 2 ^ 15 < d
IsTooMany d p too_many_parity_shards = 65535 < p
IsTooMany d p _ = ⊥

-- For positive counts, `NewCoderPAR2Vandermonde` does not panic. Its coder has the given shape and
-- a matrix of field elements: each column is for a power of 2 of the order 65535, with exponents
-- that ascend below 2 ^ 16, and row `i` holds the `i`-th powers of these. It returns an error only
-- if there are more than 2 ^ 15 data shards or more than 65535 parity shards.
pub new_coder_par2_vandermonde-Ensures :
    (d p g : ℕ)
    → 0 < d
    → 0 < p
    → 0 < g
    → Ensures (IsVandermondeCoder d p g (λ i. i)) (IsTooMany d p) (new_coder_par2_vandermonde d p g)
unfolding new_coder_par2_vandermonde
new_coder_par2_vandermonde-Ensures d p g hd hp hg =
    rw (le→leb 1 d hd, le→leb 1 p hp, le→leb 1 g hg)
      (elim (Bool-cases (ltb (length generators) d)) [
        | inl many ↦ rw many (omega (arith, length-generators, ltb→lt (length generators) d many))
        | inr few ↦ elim (Bool-cases (ltb 65535 p)) [
          | inl tall ↦ rw (few, tall) (ltb→lt 65535 p tall)
          | inr low ↦
              let known : d ≤ 2 ^ 15 =
                omega (arith, length-generators, ltb→ge (length generators) d few) in
              let bound = ltb→ge 65535 p low in
              let (m, e, b) = vandermonde_matrix d p known hd hp in
              rw (few, low, e)
                (built-IsVandermondeCoder d p g (λ i. i) m known (λ i h. omega arith) b)
        ]
      ])

-- Exponent `i` of the rows.
abbrev pub row : List ℕ → ℕ → ℕ
row rows i = get_or rows i 0

-- What the error of `NewCoderPAR2VandermondeRows` says.
abbrev pub IsOutOfRange : ℕ → List ℕ → CoderError → Type 0
IsOutOfRange d rows too_many_data_shards = 2 ^ 15 < d
IsOutOfRange d rows parity_exponent_out_of_range =
    (i : ℕ) × (i < length rows) × (65535 < row rows i)
IsOutOfRange d rows _ = ⊥
