-- ===== src/Tests/Coding.antt =====
-- rsec16/coder.go, rsec16/matrix.go and rsec16/fold.go at a small code: two data shards of one word,
-- and their sum.
use gopar_turbo.Base.{
  ℕ, zero, suc, ◌+◌, ◌<◌, ◌≡◌, refl, sym, ◌∙◌, ap, ap₂, arith, Option, none, some, List, [], ◌∷◌,
  map, length, get_or, inl, inr, ◌⊎◌,
}
use gopar_turbo.Base.Loops.{Outcome, ok, Ensures}
use gopar_turbo.Bits.{◌⊕◌}
use gopar_turbo.Bits.Xor.{xor-zero, xor_comm}
use gopar_turbo.Gf2p16.Field.{one-times}
use gopar_turbo.Gf2p16.Slice.Products.{words}
use gopar_turbo.Matrix.{Matrix, Singular}
use gopar_turbo.Matrix.Dot.{dot}
use gopar_turbo.Rsec16.Words.{word}
use gopar_turbo.Rsec16.Apply.{apply_matrix_parallel_data}
use gopar_turbo.Rsec16.Apply.Rows.{IsShard, AreShards, column}
use gopar_turbo.Rsec16.Apply.Parallel.{IsSchedule, AllBelow, Mentions, AreProducts, IsApplicable}
use gopar_turbo.Rsec16.Apply.Product.{parallel-AreProducts}
use gopar_turbo.Rsec16.Fold.{fold_inputs}
use gopar_turbo.Rsec16.Fold.Product.{AreSums, IsFoldable, fold_inputs-AreSums}
use gopar_turbo.Rsec16.Coder.{Coder, too_many_shards, new_coder_cauchy, new_coder_par2_vandermonde}
use gopar_turbo.Rsec16.Coder.Valid.{IsCauchyCoder, new_coder_cauchy-Ensures}
use gopar_turbo.Rsec16.Coder.Vandermonde.{
  IsVandermondeCoder, IsTooMany, new_coder_par2_vandermonde-Ensures,
}
use gopar_turbo.Rsec16.Reconstruct.{generate_parity, reconstruct_data, reconstruction_matrix}
use gopar_turbo.Rsec16.Reconstruct.System.{IsSelection, IsRecovery, IsDegenerate}
use gopar_turbo.Rsec16.Reconstruct.Folded.{reconstruction_matrix-IsRecovery}
use gopar_turbo.Rsec16.Reconstruct.Damage.{IsCoding, IsDamaged, IsUnrecoverable}
use gopar_turbo.Rsec16.Reconstruct.Recover.{reconstruct_data-Ensures}
use gopar_turbo.Rsec16.Reconstruct.Roundtrip.{
  IsEncodable, generate_parity-IsCoding, reconstruct-generate_parity,
}

-- The last goroutine runs first.
abbrev descending : ℕ → List ℕ
descending zero = []
descending (suc n) = n ∷ descending n

descending_below : (count n : ℕ) → n < suc count → AllBelow count (descending n)
descending_below count zero h = tt
descending_below count (suc n) h = (omega arith, descending_below count n (omega arith))

last_or_before : (g n : ℕ) → g < suc n → (g ≡ n) ⊎ (g < n)
last_or_before g n h = ground arith

descending-Mentions : (n g : ℕ) → g < n → Mentions g (descending n)
descending-Mentions zero g h = absurd (omega arith)
descending-Mentions (suc n) g h = elim (last_or_before g n h) [
  | inl last ↦ inl last
  | inr before ↦ inr (descending-Mentions n g before)
]

descending-IsSchedule : (count : ℕ) → IsSchedule count (descending count)
descending-IsSchedule count = record {
  known = descending_below count count (omega arith);
  complete = λ g h. descending-Mentions count g h;
}

abbrev sum_matrix : Matrix
sum_matrix = record { rows = 1; columns = 2; elements = λ p. 1 }

abbrev sum_coder : Coder
sum_coder = record {
  data_shards = 2;
  parity_shards = 1;
  num_goroutines = 3;
  parity_matrix = sum_matrix;
}

abbrev originals : List (List ℕ)
originals = (1 ∷ 2 ∷ []) ∷ (3 ∷ 4 ∷ []) ∷ []

abbrev sums : List (List ℕ)
sums = (2 ∷ 6 ∷ []) ∷ []

abbrev damaged : List (Option (List ℕ))
damaged = none ∷ some (3 ∷ 4 ∷ []) ∷ []

abbrev all_sums : List (Option (List ℕ))
all_sums = some (2 ∷ 6 ∷ []) ∷ []

originals-AreShards : AreShards 1 originals
originals-AreShards = (
  record { size = refl; bytes = (omega arith, (omega arith, tt)) },
  (record { size = refl; bytes = (omega arith, (omega arith, tt)) }, tt),
)

sum_value : dot 2 (λ k. 1) (column originals 0) ≡ 1538
unfolding dot words
sum_value = ap₂ ◌⊕◌ (ap₂ ◌⊕◌ refl (one-times 513 (omega arith))) (one-times 1027 (omega arith))

word_value : word (2 ∷ 6 ∷ []) 0 ≡ 1538
unfolding words
word_value = refl

first_product : (p : ℕ) → p < 1 → word (2 ∷ 6 ∷ []) p ≡ dot 2 (λ k. 1) (column originals p)
first_product zero h = word_value ∙ sym sum_value
first_product (suc p) h = absurd (omega arith)

sums-AreProducts : AreProducts 1 sum_matrix originals 0 sums
sums-AreProducts =
    (record { size = refl; bytes = (omega arith, (omega arith, tt)) }, first_product, tt)

sum_coder-IsCoding : IsCoding 1 sum_coder originals sums
sum_coder-IsCoding = record {
  elements = λ p. omega arith;
  goroutines = omega arith;
  columns = refl;
  data_size = refl;
  parity_size = refl;
  data_shards = originals-AreShards;
  products = sums-AreProducts;
}

reconstruct_data-Ensures_example :
    Ensures
      (λ out. out ≡ map some originals)
      (IsUnrecoverable sum_coder damaged all_sums)
      (reconstruct_data descending sum_coder damaged all_sums)
reconstruct_data-Ensures_example =
    reconstruct_data-Ensures descending descending-IsSchedule 1 sum_coder originals sums
      sum_coder-IsCoding damaged all_sums (refl, (refl, tt)) (refl, (refl, tt))

sum_coder-IsEncodable : IsEncodable 2 1 3 1 sum_coder originals
sum_coder-IsEncodable = record {
  coder = record {
    data_eq = refl;
    parity_eq = refl;
    goroutines_eq = refl;
    rows_eq = refl;
    columns_eq = refl;
    elements = λ p. omega arith;
  };
  data_positive = omega arith;
  parity_positive = omega arith;
  goroutines_positive = omega arith;
  count = refl;
  shards = originals-AreShards;
}

generate_parity-IsCoding_example :
    (parity : List (List ℕ)) × (generate_parity descending sum_coder originals ≡ ok parity)
    × IsCoding 1 sum_coder originals parity
generate_parity-IsCoding_example =
    generate_parity-IsCoding descending descending-IsSchedule 2 1 3 1 sum_coder originals
      sum_coder-IsEncodable

abbrev made : List (List ℕ)
made =
    (generate_parity-IsCoding descending descending-IsSchedule 2 1 3 1 sum_coder originals
      sum_coder-IsEncodable).0

made-generate_parity : generate_parity descending sum_coder originals ≡ ok made
made-generate_parity =
    (generate_parity-IsCoding descending descending-IsSchedule 2 1 3 1 sum_coder originals
      sum_coder-IsEncodable).1

made_size : length made ≡ 1
made_size =
    (generate_parity-IsCoding descending descending-IsSchedule 2 1 3 1 sum_coder originals
      sum_coder-IsEncodable).2.parity_size

first_left : (xs : List (List ℕ)) → length xs ≡ 1 → IsDamaged xs (some (get_or xs 0 []) ∷ [])
first_left [] h = absurd (omega arith)
first_left (x ∷ xs) h = (sym h, (refl, tt))

reconstruct-generate_parity_example :
    Ensures
      (λ out. out ≡ map some originals)
      (IsUnrecoverable sum_coder damaged (some (get_or made 0 []) ∷ []))
      (reconstruct_data descending sum_coder damaged (some (get_or made 0 []) ∷ []))
reconstruct-generate_parity_example =
    reconstruct-generate_parity descending descending-IsSchedule 2 1 3 1 sum_coder originals made
      damaged (some (get_or made 0 []) ∷ []) sum_coder-IsEncodable made-generate_parity
      (refl, (refl, tt)) (first_left made made_size)

abbrev blank_rows : List (List ℕ)
blank_rows = (7 ∷ 7 ∷ []) ∷ []

blank_rows-AreShards : AreShards 1 blank_rows
blank_rows-AreShards = (record { size = refl; bytes = (omega arith, (omega arith, tt)) }, tt)

sum_matrix-IsApplicable : IsApplicable 1 sum_matrix originals blank_rows
sum_matrix-IsApplicable = record {
  elements = λ p. omega arith;
  some_inputs = omega arith;
  columns = omega arith;
  rows = omega arith;
  inputs = originals-AreShards;
  outputs = blank_rows-AreShards;
}

parallel-AreProducts_example :
    (outs' : List (List ℕ)) × (apply_matrix_parallel_data descending sum_matrix originals blank_rows
        3
      ≡ ok outs')
    × (length outs' ≡ 1)
    × AreProducts 1 sum_matrix originals 0 outs'
parallel-AreProducts_example =
    parallel-AreProducts descending descending-IsSchedule 1 sum_matrix originals blank_rows 3
      sum_matrix-IsApplicable (omega arith) (omega arith)

abbrev original : ℕ → List ℕ
original t = get_or originals t []

abbrev next_original : ℕ → Outcome Singular (List ℕ)
next_original t = ok (original t)

original-IsShard : (t : ℕ) → t < 2 → IsShard 1 (original t)
original-IsShard zero h = originals-AreShards.0
original-IsShard (suc zero) h = originals-AreShards.1.0
original-IsShard (suc (suc t)) h = absurd (omega arith)

sum_matrix-IsFoldable : IsFoldable 1 sum_matrix 2 original blank_rows
sum_matrix-IsFoldable = record {
  elements = λ p. omega arith;
  some_inputs = omega arith;
  some_outputs = omega arith;
  columns = omega arith;
  rows = omega arith;
  inputs = original-IsShard;
  outputs = blank_rows-AreShards;
}

next_original_fills : (t : ℕ) → t < 2 → next_original t ≡ ok (original t)
next_original_fills t h = refl

fold_inputs-AreSums_example :
    (outs' : List (List ℕ)) × (fold_inputs sum_matrix 2 next_original blank_rows ≡ ok outs')
    × (length outs' ≡ 1)
    × AreSums 1 sum_matrix original 2 0 outs'
fold_inputs-AreSums_example =
    fold_inputs-AreSums 1 sum_matrix 2 original next_original blank_rows sum_matrix-IsFoldable
      next_original_fills

only_zero : (t : ℕ) → t < 1 → get_or (1 ∷ []) t 0 < 2
only_zero zero h = omega arith
only_zero (suc t) h = absurd (omega arith)

only_missing : (t bound : ℕ) → 0 < bound → t < 1 → get_or (0 ∷ []) t 0 < bound
only_missing zero bound p h = p
only_missing (suc t) bound p h = absurd (omega arith)

first_missing : IsSelection sum_matrix (1 ∷ []) (0 ∷ []) (0 ∷ [])
first_missing = record {
  elements = λ p. omega arith;
  sums = λ g. xor_comm (g 0) (g 1 ⊕ 0) ∙ ap (λ (t : ℕ). g 1 ⊕ 0 ⊕ t) (sym (xor-zero (g 0)));
  size = refl;
  same = refl;
  some_used = omega arith;
  available_below = only_zero;
  missing_below = λ t. only_missing t 2 (omega arith);
  used_below = λ t. only_missing t 1 (omega arith);
}

reconstruction_matrix-IsRecovery_example :
    Ensures
      (IsRecovery sum_matrix (1 ∷ []) (0 ∷ []) (0 ∷ []))
      (λ _. IsDegenerate sum_matrix (0 ∷ []) (0 ∷ []))
      (reconstruction_matrix sum_coder (1 ∷ []) (0 ∷ []) (0 ∷ []))
reconstruction_matrix-IsRecovery_example =
    reconstruction_matrix-IsRecovery sum_coder (1 ∷ []) (0 ∷ []) (0 ∷ []) refl first_missing

new_coder_cauchy-Ensures_example :
    Ensures
      (IsCauchyCoder 3 2 4)
      (λ e. (e ≡ too_many_shards) × (65535 < 3 + 2))
      (new_coder_cauchy 3 2 4)
new_coder_cauchy-Ensures_example =
    new_coder_cauchy-Ensures 3 2 4 (omega arith) (omega arith) (omega arith)

new_coder_par2_vandermonde-Ensures_example :
    Ensures (IsVandermondeCoder 3 2 4 (λ i. i)) (IsTooMany 3 2) (new_coder_par2_vandermonde 3 2 4)
new_coder_par2_vandermonde-Ensures_example =
    new_coder_par2_vandermonde-Ensures 3 2 4 (omega arith) (omega arith) (omega arith)
