-- ===== src/Matrix/Kernel.antt =====
-- A matrix that the elimination reports as singular maps some vector other than 0 to 0.
use gopar_turbo.Base.{
  ℕ, zero, suc, ◌-◌, ◌≤◌, ◌<◌, ◌≡◌, refl, sym, ◌∙◌, ap, ap₂, arith, ◌==◌, if◌then◌else◌,
}
use gopar_turbo.Bits.{◌⊕◌}
use gopar_turbo.Bits.Xor.{xor-zero, zero-xor, xor_self, xor_assoc, xor_comm}
use gopar_turbo.Gf2p16.{times, update}
use gopar_turbo.Gf2p16.Field.{one-times, zero-times, times-zero, times_comm}
use gopar_turbo.Matrix.{Matrix, Pair}
use gopar_turbo.Matrix.Grid.{entry, IsElements}
use gopar_turbo.Matrix.Dot.{Short, dot, dot-lt}
use gopar_turbo.Matrix.Solutions.{Solves, apply_row}
use gopar_turbo.Matrix.Eliminate.{IsPair}
use gopar_turbo.Matrix.Echelon.{Stuck}
use native.Mathlib.Decide.{ℕ_discrete}

-- The vector with 1 at `i` and 0 elsewhere.
abbrev pub unit : ℕ → ℕ → ℕ
unit i k = if i == k then 1 else 0

pub unit-Short : (i : ℕ) → Short (unit i)
unit-Short i k = ground arith

dot_before : (n i : ℕ) (x : ℕ → ℕ) → n ≤ i → dot n (unit i) x ≡ 0
unfolding dot
dot_before zero i x h = refl
dot_before (suc n) i x h =
    ap₂ ◌⊕◌ (dot_before n i x (omega arith))
      (ap (λ (t : ℕ). times t (x n)) {x = unit i n} {y = 0} (ground arith) ∙ zero-times (x n))
    ∙ zero-xor 0

-- A unit vector picks one element.
pub unit-dot : (n i : ℕ) (x : ℕ → ℕ) → i < n → Short x → dot n (unit i) x ≡ x i
unfolding dot
unit-dot zero i x h hx = absurd (omega arith)
unit-dot (suc n) i x h hx = elim (ℕ_discrete i n) [
  | yes same ↦
      ap₂ ◌⊕◌ (dot_before n i x (omega arith)) (
        ap (λ (t : ℕ). times t (x n)) {x = unit i n} {y = 1} (ground arith)
        ∙ one-times (x n) (hx n))
      ∙ zero-xor (x n)
      ∙ ap x (sym same)
  | no other ↦
      ap₂ ◌⊕◌ (unit-dot n i x (omega arith) hx)
        (ap (λ (t : ℕ). times t (x n)) {x = unit i n} {y = 0} (ground arith) ∙ zero-times (x n))
      ∙ xor-zero (x i)
]

dot_comm : (n : ℕ) (a x : ℕ → ℕ) → dot n a x ≡ dot n x a
unfolding dot
dot_comm zero a x = refl
dot_comm (suc n) a x = ap₂ ◌⊕◌ (dot_comm n a x) (times_comm (a n) (x n))

pub dot-unit : (n i : ℕ) (a : ℕ → ℕ) → i < n → Short a → dot n a (unit i) ≡ a i
dot-unit n i a h ha = dot_comm n a (unit i) ∙ unit-dot n i a h ha

pub dot-zero : (n : ℕ) (a : ℕ → ℕ) → dot n a (λ _. 0) ≡ 0
unfolding dot
dot-zero zero a = refl
dot-zero (suc n) a = ap₂ ◌⊕◌ (dot-zero n a) (times-zero (a n)) ∙ zero-xor 0

-- Setting a place that was 0 adds one product; a place outside changes nothing.
dot-update_outside : (n k t : ℕ) (a v : ℕ → ℕ) → n ≤ k → dot n a (update v k t) ≡ dot n a v
unfolding dot
dot-update_outside zero k t a v h = refl
dot-update_outside (suc n) k t a v h =
    ap₂ ◌⊕◌ (dot-update_outside n k t a v (omega arith))
      (ap (times (a n)) {x = update v k t n} {y = v n} (ground arith))

dot-update :
    (n k t : ℕ) (a v : ℕ → ℕ) → k < n → v k ≡ 0 → dot n a (update v k t) ≡ dot n a v ⊕ times (a k) t
unfolding dot
dot-update zero k t a v h z = absurd (omega arith)
dot-update (suc n) k t a v h z = elim (ℕ_discrete k n) [
  | yes same ↦
      ap₂ ◌⊕◌ (dot-update_outside n k t a v (omega arith))
        (ap₂ times {u = update v k t n} {v = t} (ap a (sym same)) (ground arith))
      ∙ ap (λ (s : ℕ). s ⊕ times (a k) t)
          (sym (
            ap (λ (s : ℕ). dot n a v ⊕ s)
              (ap (times (a n)) {x = v n} {y = 0} (ap v (sym same) ∙ z) ∙ times-zero (a n))
            ∙ xor-zero (dot n a v)))
  | no other ↦
      ap₂ ◌⊕◌ (dot-update n k t a v (omega arith) z)
        (ap (times (a n)) {x = update v k t n} {y = v n} (ground arith))
      ∙ xor_assoc _ _ _
      ∙ ap (λ (s : ℕ). dot n a v ⊕ s) (xor_comm (times (a k) t) (times (a n) (v n)))
      ∙ sym (xor_assoc _ _ _)
]

-- A vector other than 0 that the matrix maps to 0.
pub record HasKernel (m : Matrix) : Type 0 where
  pub vector : ℕ → ℕ
  pub short : Short vector
  pub place : ℕ
  pub place_lt : place < m.rows
  pub nonzero : vector place ≡ 1
  pub vanishes : (r : ℕ) → r < m.rows → apply_row m vector r ≡ 0

module _ (p0 : Pair) (h0 : IsPair p0) (st : Stuck p0 h0) where
  m : Matrix
  m = st.pair.left

  -- Back substitution from the column with no pivot upwards.
  substitute : ℕ → ℕ → ℕ
  substitute zero = unit st.column
  substitute (suc s) =
      update (substitute s) (st.column - suc s)
        (dot p0.left.rows (entry st.pair.left (st.column - suc s)) (substitute s))

  record IsPartial (s : ℕ) (v : ℕ → ℕ) : Type 0 where
    short : Short v
    before : (k : ℕ) → k < st.column - s → v k ≡ 0
    top : v st.column ≡ 1
    rows_done :
        (r : ℕ)
        → st.column - s ≤ r
        → r < p0.left.rows
        → dot p0.left.rows (entry st.pair.left r) v ≡ 0

  elements : IsElements st.pair.left.elements
  elements = st.down.keeps.left_elements

  substitute-IsPartial : (s : ℕ) → s ≤ st.column → IsPartial s (substitute s)
  unfolding substitute
  substitute-IsPartial zero h = record {
    short = unit-Short st.column;
    before = λ k lt. ground arith;
    top = ground arith;
    rows_done = λ r lo hi.
        dot-unit p0.left.rows st.column (entry st.pair.left r) st.bound (λ k. elements _)
        ∙ st.no_pivot r (omega arith) hi;
  }
  substitute-IsPartial (suc s) h =
      let f : IsPartial s (substitute s) = substitute-IsPartial s (omega arith) in
      let k : ℕ = st.column - suc s in
      let v = substitute s in
      let t : ℕ = dot p0.left.rows (entry st.pair.left k) v in
      let kn : k < p0.left.rows = omega (arith, st.bound) in
      let z : v k ≡ 0 = f.before k (omega arith) in
      record {
        short = λ q. ground (
          arith,
          f.short q,
          dot-lt p0.left.rows (entry st.pair.left k) v (λ l lt. elements _) f.short,
        );
        before = λ q lt. ground (arith, f.before q (omega arith));
        top = ground (arith, f.top);
        rows_done = λ r lo hi.
            dot-update p0.left.rows k t (entry st.pair.left r) v kn z ∙ elim (ℕ_discrete r k) [
              | yes same ↦
                  ap₂ ◌⊕◌ (ap (λ (q : ℕ). dot p0.left.rows (entry st.pair.left q) v) same) (
                    ap (λ (q : ℕ). times q t)
                      (ap (λ (q : ℕ). entry st.pair.left q k) same
                        ∙ st.down.echelon.unit k (omega arith))
                    ∙ one-times t
                        (dot-lt p0.left.rows (entry st.pair.left k) v (λ l lt. elements _) f.short))
                  ∙ xor_self t
              | no other ↦
                  ap₂ ◌⊕◌ (f.rows_done r (omega arith) hi) (
                    ap (λ (q : ℕ). times q t)
                      (st.down.echelon.below k r (omega arith) (omega arith)
                        (omega (arith, st.down.keeps.left_rows)))
                    ∙ zero-times t)
                  ∙ zero-xor 0
            ];
      }

  -- The vector that back substitution finds.
  pub Stuck-HasKernel : HasKernel p0.left
  unfolding Solves
  Stuck-HasKernel =
      let f = substitute-IsPartial st.column (omega arith) in
      record {
        vector = substitute st.column;
        short = f.short;
        place = st.column;
        place_lt = st.bound;
        nonzero = f.top;
        vanishes = λ r hr.
            st.down.keeps.back (substitute st.column) (λ _. 0) f.short (λ _. omega arith)
              (λ q hq.
                ap (λ (t : ℕ). dot t (entry st.pair.left q) (substitute st.column))
                  (st.down.keeps.left_columns ∙ h0.square)
                ∙ f.rows_done q (omega arith) (omega (arith, st.down.keeps.left_rows))
                ∙ sym (dot-zero st.pair.right.columns (entry st.pair.right q)))
              r hr
            ∙ dot-zero p0.right.columns (entry p0.right r);
      }
