-- ===== src/Rsec16/Coder/Valid.antt =====
-- rsec16/coder.go: the Cauchy matrix of the coder that NewCoderCauchy returns.
use gopar_turbo.Base.{
  ℕ, zero, suc, ◌+◌, ◌%◌, ◌^◌, ◌≤◌, ◌<◌, ◌≡◌, ◌≢◌, refl, sym, ◌∙◌, ap, arith, ltb, le→leb, ltb→lt,
  ltb→ge, inl, inr, Bool-cases, List, [], ◌∷◌, length, get_or,
}
use gopar_turbo.Base.Loops.{Outcome, ok, Ensures}
use gopar_turbo.Bits.{◌⊕◌}
use gopar_turbo.Bits.Xor.{xor_cancel, xor-zero, xor-lt}
use gopar_turbo.Gf2p16.{plus, times}
use gopar_turbo.Matrix.{Matrix, Singular, field_inverse}
use gopar_turbo.Matrix.Grid.{entry, IsElements}
use gopar_turbo.Matrix.Build.{IsBuilt, new_matrix_from_function-IsBuilt}
use gopar_turbo.Matrix.Pivot.{field_inverse-times}
use gopar_turbo.Rsec16.Coder.{
  Coder, too_many_shards, index, new_cauchy_matrix, new_cauchy_parity_matrix, new_coder_cauchy,
}

-- The shape that the operations of a coder rely on.
pub record IsCoder (data_shards parity_shards num_goroutines : ℕ) (c : Coder) : Type 0 where
  pub data_eq : c.data_shards ≡ data_shards
  pub parity_eq : c.parity_shards ≡ parity_shards
  pub goroutines_eq : c.num_goroutines ≡ num_goroutines
  pub rows_eq : c.parity_matrix.rows ≡ parity_shards
  pub columns_eq : c.parity_matrix.columns ≡ data_shards
  pub elements : IsElements c.parity_matrix.elements

pub built-IsCoder :
    (d p g : ℕ) (f : ℕ → ℕ → ℕ) (m : Matrix)
    → IsBuilt p d f m
    → IsCoder d p g
        (record { data_shards = d; parity_shards = p; num_goroutines = g; parity_matrix = m })
built-IsCoder d p g f m b = record {
  data_eq = refl;
  parity_eq = refl;
  goroutines_eq = refl;
  rows_eq = b.rows_eq;
  columns_eq = b.columns_eq;
  elements = b.elements;
}

xor_apart : (a b : ℕ) → a ≢ b → a ⊕ b ≢ 0
xor_apart a b ne e = ne (sym (xor-zero a) ∙ ap (λ (t : ℕ). a ⊕ t) (sym e) ∙ xor_cancel a b)

pub index-get_or : (xs : List ℕ) (j : ℕ) → j < length xs → index xs j ≡ ok (get_or xs j 0)
unfolding index
index-get_or [] j h = absurd (omega arith)
index-get_or (x ∷ xs) zero h = refl
index-get_or (x ∷ xs) (suc j) h = index-get_or xs j (omega arith)

value_of : Outcome Singular ℕ → ℕ
value_of (ok v) = v
value_of _ = 0

module _ (d p : ℕ) (small : d + p ≤ 65535) where
  cauchy_entry : ℕ → ℕ → ℕ
  cauchy_entry i j = value_of (field_inverse (plus ((d + i) % 2 ^ 16) (j % 2 ^ 16)))

  cauchy_cell :
      (i j : ℕ)
      → i < p
      → j < d
      → (field_inverse (plus ((d + i) % 2 ^ 16) (j % 2 ^ 16)) ≡ ok (cauchy_entry i j))
        × (times (plus (d + i) j) (cauchy_entry i j) ≡ 1)
        × (cauchy_entry i j < 2 ^ 16)
  unfolding cauchy_entry plus value_of
  cauchy_cell i j hi hj =
      let row : (d + i) % 2 ^ 16 ≡ d + i = omega arith in
      let column : j % 2 ^ 16 ≡ j = omega arith in
      let (s, e, one, lt) =
        field_inverse-times ((d + i) ⊕ j) (xor_apart (d + i) j (λ same. omega arith))
          (xor-lt 16 (d + i) j (omega arith) (omega arith)) in
      rw (row, column, e) (refl, one, lt)

  cauchy_matrix :
      0 < d
      → 0 < p
      → (m : Matrix) × (new_cauchy_parity_matrix d p ≡ ok m) × IsBuilt p d cauchy_entry m
  unfolding new_cauchy_parity_matrix new_cauchy_matrix
  cauchy_matrix hd hp =
      new_matrix_from_function-IsBuilt p d cauchy_entry (λ i j hi hj. (cauchy_cell i j hi hj).2) _
        (λ i j hi hj. (cauchy_cell i j hi hj).0) hp hd

-- The coder has the shape asked for, and element `(i, j)` of its matrix is the inverse of the sum of
-- the field elements `d + i` and `j`.
pub record IsCauchyCoder (d p g : ℕ) (c : Coder) : Type 0 where
  pub coder : IsCoder d p g c
  pub inverses : (i j : ℕ) → i < p → j < d → times (plus (d + i) j) (entry c.parity_matrix i j) ≡ 1

-- For positive counts, `NewCoderCauchy` does not panic: no element of its matrix divides by 0. Its
-- coder has the given shape and a Cauchy matrix of field elements. It returns the error on too many
-- shards only if there are more than 65535.
pub new_coder_cauchy-Ensures :
    (d p g : ℕ)
    → 0 < d
    → 0 < p
    → 0 < g
    → Ensures
        (IsCauchyCoder d p g)
        (λ e. (e ≡ too_many_shards) × (65535 < d + p))
        (new_coder_cauchy d p g)
unfolding new_coder_cauchy
new_coder_cauchy-Ensures d p g hd hp hg =
    rw (le→leb 1 d hd, le→leb 1 p hp, le→leb 1 g hg)
      (elim (Bool-cases (ltb 65535 (d + p))) [
        | inl many ↦ rw many (refl, ltb→lt 65535 (d + p) many)
        | inr few ↦
            let small = ltb→ge 65535 (d + p) few in
            let (m, e, b) = cauchy_matrix d p small hd hp in
            rw (few, e)
              (record {
                coder = built-IsCoder d p g (cauchy_entry d p small) m b;
                inverses = λ i j hi hj.
                    ap (times (plus (d + i) j)) (b.entries i j hi hj)
                    ∙ (cauchy_cell d p small i j hi hj).1;
              })
      ])
