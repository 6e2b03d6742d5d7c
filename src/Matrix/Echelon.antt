-- ===== src/Matrix/Echelon.antt =====
-- The first loop of `rowReduceForInverse`: to row echelon form, or to a column with no pivot.
use gopar_turbo.Base.{
  ℕ, suc, ◌+◌, ◌-◌, ◌*◌, ◌^◌, ◌<◌, ◌≡◌, ◌≢◌, ◌∙◌, ap, arith, ◌==◌, if◌then◌else◌, inl, inr, false,
}
use gopar_turbo.Base.Loops.{
  failure, ◌>>=◌, Ensures, Ensures-mono, Ensures-bind, for_range, for_range-Ensures,
}
use gopar_turbo.Gf2p16.{times}
use gopar_turbo.Matrix.{
  Pair, Singular, eliminate, down_round, singular_matrix, find_pivot, field_inverse, scale_row,
}
use gopar_turbo.Matrix.Grid.{entry}
use gopar_turbo.Matrix.Solutions.{Keeps, Keeps-trans}
use gopar_turbo.Matrix.Eliminate.{
  IsPair, Keeps-IsPair, eliminate-IsCleared, clear_zero, clear_one, other_row, own_row,
}
use gopar_turbo.Matrix.Pivot.{
  IsEchelon, NoPivot, IsPivot, Found, find_pivot-Found, field_inverse-times, scale-IsScaled,
  IsScaled,
}
use native.Mathlib.Decide.{ℕ_discrete}

nonzero_test : (t : ℕ) → t ≢ 0 → (t == 0) ≡ false
nonzero_test t h = ground arith

module _ (p0 : Pair) (h0 : IsPair p0) where
  -- The invariant of the first loop.
  pub record Down (i : ℕ) (p : Pair) : Type 0 where
    pub keeps : Keeps p0 p
    pub echelon : IsEchelon i p

  -- What the loop stops at if it returns the error: a column with no pivot.
  pub record Stuck : Type 0 where
    pub column : ℕ
    pub pair : Pair
    pub bound : column < p0.left.rows
    pub down : Down column pair
    pub no_pivot : NoPivot pair column p0.left.rows

  -- Within round `i`: the rows from `i + 1` up to `j` are cleared too.
  record Clearing (i j : ℕ) (p : Pair) : Type 0 where
    down : Down i p
    one : entry p.left i i ≡ 1
    done : (r : ℕ) → i < r → r < j → entry p.left r i ≡ 0

  clear_below :
      (Q : Singular → Type 0) (i j : ℕ) (p : Pair)
      → i < j
      → j < p0.left.rows
      → Clearing i j p
      → Ensures (Clearing i (suc j)) Q (eliminate i j p)
  clear_below Q i j p ij hj c =
      let h : IsPair p = Keeps-IsPair h0 c.down.keeps in
      let rows : p.left.rows ≡ p0.left.rows = c.down.keeps.left_rows in
      let columns : p.left.columns ≡ p0.left.rows = h.square ∙ rows in
      let (p', e, cl) =
        eliminate-IsCleared p i j h (omega arith) (omega arith)
          (λ (q : j ≡ i). absurd (omega arith)) in
      rw e (record {
        down = record {
          keeps = Keeps-trans c.down.keeps cl.keeps;
          echelon = record {
            unit = λ k lt.
                other_row cl k k (λ (q : k ≡ j). absurd (omega arith)) (omega arith)
                ∙ c.down.echelon.unit k lt;
            below = λ k r lt kr hr. elim (ℕ_discrete r j) [
              | yes same ↦
                  ap (λ (t : ℕ). entry p'.left t k) same
                  ∙ own_row cl k (omega arith)
                  ∙ clear_zero _ _ _ (c.down.echelon.below k j lt (omega arith) (omega arith))
                      (c.down.echelon.below k i lt lt (omega arith))
              | no other ↦
                  other_row cl r k other (omega arith)
                  ∙ c.down.echelon.below k r lt kr (omega (arith, cl.keeps.left_rows))
            ];
          };
        };
        one = other_row cl i i (λ (q : i ≡ j). absurd (omega arith)) (omega arith) ∙ c.one;
        done = λ r lo hi. elim (ℕ_discrete r j) [
          | yes same ↦
              ap (λ (t : ℕ). entry p'.left t i) same
              ∙ own_row cl i (omega arith)
              ∙ clear_one _ _ (h.left_elements _) c.one
          | no other ↦ other_row cl r i other (omega arith) ∙ c.done r lo (omega arith)
        ];
      })

  Clearing-Down : (i : ℕ) (p : Pair) → i < p0.left.rows → Clearing i p0.left.rows p → Down (suc i) p
  Clearing-Down i p hi c = record {
    keeps = c.down.keeps;
    echelon = record {
      unit = λ k lt. elim (ℕ_discrete k i) [
        | yes same ↦ rw same c.one
        | no other ↦ c.down.echelon.unit k (omega arith)
      ];
      below = λ k r lt kr hr. elim (ℕ_discrete k i) [
        | yes same ↦ rw same (c.done r (omega arith) (omega (arith, c.down.keeps.left_rows)))
        | no other ↦ c.down.echelon.below k r (omega arith) kr hr
      ];
    };
  }

  clear_column :
      (Q : Singular → Type 0) (i : ℕ) (p p' : Pair)
      → i < p0.left.rows
      → Down i p
      → IsScaled p p' i
      → Ensures (Down (suc i)) Q (for_range (p0.left.rows - (i + 1)) (i + 1) (eliminate i) p')
  clear_column Q i p p' hi d sc =
      Ensures-mono (λ s. (i < p0.left.rows) × Clearing i p0.left.rows s) (Down (suc i)) Q _
        (for_range-Ensures (λ j s. (i < j) × Clearing i j s) Q (eliminate i) p0.left.rows
          (λ j s hj c.
            Ensures-mono (Clearing i (suc j)) (λ s. (i < suc j) × Clearing i (suc j) s) Q
              (eliminate i j s) (clear_below Q i j s c.0 hj c.1) (λ s c'. (omega arith, c')))
          (p0.left.rows - (i + 1)) (i + 1) p' (omega arith)
          (
            omega arith,
            record {
              down = record { keeps = Keeps-trans d.keeps sc.keeps; echelon = sc.echelon };
              one = sc.one;
              done = λ r lo hi. absurd (omega arith);
            },
          ))
        (λ s c. Clearing-Down i s hi c.1)

  -- A round with a pivot.
  pivot_round :
      (Q : Singular → Type 0) (i pivot : ℕ) (p p' : Pair)
      → i < p0.left.rows
      → Down i p
      → IsPivot p p' i pivot
      → Ensures (Down (suc i)) Q (do
        pivot_inv ← field_inverse pivot
        left ← scale_row i pivot_inv p'.left
        right ← scale_row i pivot_inv p'.right
        for_range
            (p.left.rows - (i + 1))
            (i + 1)
            (eliminate i)
            (record { left = left; right = right }))
  pivot_round Q i pivot p p' hi d piv =
      let keeps : Keeps p0 p' = Keeps-trans d.keeps piv.keeps in
      let h : IsPair p' = Keeps-IsPair h0 keeps in
      let pivot_lt : pivot < 2 ^ 16 =
        omega (arith, piv.in_place, h.left_elements (i * p'.left.columns + i)) in
      let (s, se, one, slt) = field_inverse-times pivot piv.nonzero pivot_lt in
      let (l, r, le, re, sc) =
        scale-IsScaled p' i s h (omega (arith, keeps.left_rows)) piv.echelon slt
          (ap (λ (t : ℕ). times t s) piv.in_place ∙ one) in
      rw (se, le, re, d.keeps.left_rows)
        (clear_column Q i p' _ hi (record { keeps = keeps; echelon = piv.echelon }) sc)

  pub down_round-Down :
      (i : ℕ) (p : Pair)
      → i < p0.left.rows
      → Down i p
      → Ensures (Down (suc i)) (λ _. Stuck) (down_round i p)
  unfolding down_round
  down_round-Down i p hi d =
      let h : IsPair p = Keeps-IsPair h0 d.keeps in
      Ensures-bind (Found p i) (Down (suc i)) (λ _. Stuck) (find_pivot (p.left.rows - i) i i p) _
        (find_pivot-Found (λ _. Stuck) (p.left.rows - i) i i p h (omega (arith, d.keeps.left_rows))
          (omega arith) (omega (arith, d.keeps.left_rows)) d.echelon
          (λ r lo hi. absurd (omega arith)))
        (decide i p hi d)
    where
      decide :
          (i : ℕ) (p : Pair)
          → i < p0.left.rows
          → Down i p
          → (found : ℕ × Pair) → Found p i found
          → Ensures
              (Down (suc i))
              (λ _. Stuck)
              (if found.0 == 0 then failure singular_matrix else (do
                pivot_inv ← field_inverse found.0
                left ← scale_row i pivot_inv found.1.left
                right ← scale_row i pivot_inv found.1.right
                for_range
                    (p.left.rows - (i + 1))
                    (i + 1)
                    (eliminate i)
                    (record { left = left; right = right })))
      decide i p hi d (pivot, p') (inl (z, same, np)) = rw z (record {
        column = i;
        pair = p;
        bound = hi;
        down = d;
        no_pivot = λ r lo hi. np r lo (omega (arith, d.keeps.left_rows));
      })
      decide i p hi d (pivot, p') (inr piv) =
          let nz : (pivot == 0) ≡ false = nonzero_test pivot piv.nonzero in
          rw nz (pivot_round (λ _. Stuck) i pivot p p' hi d piv)
