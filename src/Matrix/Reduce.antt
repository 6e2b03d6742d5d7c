-- ===== src/Matrix/Reduce.antt =====
-- `rowReduceForInverse`: the second loop, from the echelon form to the identity on the left.
use gopar_turbo.Base.{ℕ, suc, ◌<◌, ◌≡◌, sym, ◌∙◌, ap, arith, ◌==◌, if◌then◌else◌}
use gopar_turbo.Base.Loops.{Ensures, Ensures-mono, Ensures-bind, for_range, for_range-Ensures}
use gopar_turbo.Matrix.{Pair, Singular, eliminate, down_round, up_round, row_reduce_for_inverse}
use gopar_turbo.Matrix.Grid.{entry}
use gopar_turbo.Matrix.Solutions.{Keeps, Keeps-refl, Keeps-trans}
use gopar_turbo.Matrix.Eliminate.{
  IsPair, Keeps-IsPair, eliminate-IsCleared, clear_zero, clear_same, clear_one, other_row, own_row,
}
use gopar_turbo.Matrix.Echelon.{Down, Stuck, down_round-Down}
use native.Mathlib.Decide.{ℕ_discrete}

module _ (p0 : Pair) (h0 : IsPair p0) where
  -- The invariant of the second loop: the first `i` columns are 0 above the diagonal as well.
  record Up (i : ℕ) (p : Pair) : Type 0 where
    down : Down p0 h0 p0.left.rows p
    above : (k r : ℕ) → k < i → r < k → entry p.left r k ≡ 0

  record Raising (i j : ℕ) (p : Pair) : Type 0 where
    up : Up i p
    done : (r : ℕ) → r < j → entry p.left r i ≡ 0

  clear_above :
      (Q : Singular → Type 0) (i j : ℕ) (p : Pair)
      → i < p0.left.rows
      → j < i
      → Raising i j p
      → Ensures (Raising i (suc j)) Q (eliminate i j p)
  clear_above Q i j p hi ji c =
      let d = c.up.down in
      let h : IsPair p = Keeps-IsPair h0 d.keeps in
      let rows : p.left.rows ≡ p0.left.rows = d.keeps.left_rows in
      let columns : p.left.columns ≡ p0.left.rows = h.square ∙ rows in
      let (p', e, cl) =
        eliminate-IsCleared p i j h (omega arith) (omega arith)
          (λ (q : j ≡ i). absurd (omega arith)) in
      rw e (record {
        up = record {
          down = record {
            keeps = Keeps-trans d.keeps cl.keeps;
            echelon = record {
              unit = λ k lt. elim (ℕ_discrete k j) [
                | yes same ↦
                    ap (λ (t : ℕ). entry p'.left t k) same
                    ∙ own_row cl k (omega arith)
                    ∙ clear_same _ _ _ (d.echelon.below k i lt (omega arith) (omega arith))
                    ∙ ap (λ (t : ℕ). entry p.left t k) (sym same)
                    ∙ d.echelon.unit k lt
                | no other ↦ other_row cl k k other (omega arith) ∙ d.echelon.unit k lt
              ];
              below = λ k r lt kr hr. elim (ℕ_discrete r j) [
                | yes same ↦
                    ap (λ (t : ℕ). entry p'.left t k) same
                    ∙ own_row cl k (omega arith)
                    ∙ clear_zero _ _ _ (d.echelon.below k j lt (omega arith) (omega arith))
                        (d.echelon.below k i lt (omega arith) (omega arith))
                | no other ↦
                    other_row cl r k other (omega arith)
                    ∙ d.echelon.below k r lt kr (omega (arith, cl.keeps.left_rows))
              ];
            };
          };
          above = λ k r lt rk. elim (ℕ_discrete r j) [
            | yes same ↦
                ap (λ (t : ℕ). entry p'.left t k) same
                ∙ own_row cl k (omega arith)
                ∙ clear_zero _ _ _ (c.up.above k j lt (omega arith))
                    (d.echelon.below k i (omega arith) lt (omega arith))
            | no other ↦ other_row cl r k other (omega arith) ∙ c.up.above k r lt rk
          ];
        };
        done = λ r lt. elim (ℕ_discrete r j) [
          | yes same ↦
              ap (λ (t : ℕ). entry p'.left t i) same
              ∙ own_row cl i (omega arith)
              ∙ clear_one _ _ (h.left_elements _) (d.echelon.unit i hi)
          | no other ↦ other_row cl r i other (omega arith) ∙ c.done r (omega arith)
        ];
      })

  up_round-Up :
      (Q : Singular → Type 0) (i : ℕ) (p : Pair)
      → i < p0.left.rows
      → Up i p
      → Ensures (Up (suc i)) Q (up_round i p)
  unfolding up_round
  up_round-Up Q i p hi u =
      Ensures-mono (Raising i i) (Up (suc i)) Q (for_range i 0 (eliminate i) p)
        (for_range-Ensures (Raising i) Q (eliminate i) i (λ j s ji c. clear_above Q i j s hi ji c) i
          0 p (omega arith) (record { up = u; done = λ r lt. absurd (omega arith) }))
        (λ s c. record {
          down = c.up.down;
          above = λ k r lt rk. elim (ℕ_discrete k i) [
            | yes same ↦ rw same (c.done r (omega arith))
            | no other ↦ c.up.above k r (omega arith) rk
          ];
        })

  -- The result: the solutions are kept, and the left matrix is the identity.
  pub record IsReduced (p : Pair) : Type 0 where
    pub keeps : Keeps p0 p
    pub identity :
        (r k : ℕ)
        → r < p0.left.rows
        → k < p0.left.rows
        → entry p.left r k ≡ (if r == k then 1 else 0)

  Up-IsReduced : (p : Pair) → Up p0.left.rows p → IsReduced p
  Up-IsReduced p u = record {
    keeps = u.down.keeps;
    identity = λ r k hr hk. ground (
      arith,
      u.down.echelon.unit k hk,
      u.down.echelon.below k r hk,
      u.above k r hk,
      u.down.keeps.left_rows,
      ap (λ (t : ℕ). entry p.left t k) {x = r} {y = k},
    );
  }

  -- The reduction never panics: it returns the reduced pair, or stops at a column with no pivot.
  pub row_reduce_for_inverse-Ensures :
      Ensures IsReduced (λ _. Stuck p0 h0) (row_reduce_for_inverse p0)
  unfolding row_reduce_for_inverse
  row_reduce_for_inverse-Ensures =
      Ensures-bind (Down p0 h0 p0.left.rows) IsReduced (λ _. Stuck p0 h0)
        (for_range p0.left.rows 0 down_round p0) (for_range p0.left.rows 0 up_round)
        (for_range-Ensures (Down p0 h0) (λ _. Stuck p0 h0) down_round p0.left.rows
          (down_round-Down p0 h0) p0.left.rows 0 p0 (omega arith)
          (record {
            keeps = Keeps-refl p0 h0.left_elements h0.right_elements;
            echelon = record {
              unit = λ k lt. absurd (omega arith);
              below = λ k r lt kr hr. absurd (omega arith);
            };
          }))
        (λ p d.
          Ensures-mono (Up p0.left.rows) IsReduced (λ _. Stuck p0 h0)
            (for_range p0.left.rows 0 up_round p)
            (for_range-Ensures Up (λ _. Stuck p0 h0) up_round p0.left.rows
              (λ i s hi u. up_round-Up (λ _. Stuck p0 h0) i s hi u) p0.left.rows 0 p (omega arith)
              (record { down = d; above = λ k r lt rk. absurd (omega arith) }))
            Up-IsReduced)
