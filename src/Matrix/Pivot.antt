-- ===== src/Matrix/Pivot.antt =====
-- The search for a pivot, and the scaling of its row.
use gopar_turbo.Base.{
  ℕ, zero, suc, ◌+◌, ◌^◌, ◌≤◌, ◌<◌, ◌≡◌, ◌≢◌, refl, ◌∙◌, ap, arith, ◌==◌, ==_iff, ==_refl,
  if◌then◌else◌, Bool-cases, inl, inr, ◌⊎◌,
}
use gopar_turbo.Base.Loops.{ok, Ensures}
use gopar_turbo.Gf2p16.{times}
use gopar_turbo.Gf2p16.Field.{times_comm, times-zero, times-inverse}
use gopar_turbo.Matrix.{Matrix, Pair, Singular, find_pivot, scale_row, at, field_inverse}
use gopar_turbo.Matrix.Grid.{entry, swap_index}
use gopar_turbo.Matrix.RowOps.{IsRowOp, at-entry, swap_rows-IsRowOp, scale_row-IsRowOp}
use gopar_turbo.Matrix.Solutions.{Keeps, swap-Keeps, scale-Keeps}
use gopar_turbo.Matrix.Eliminate.{IsPair}
use native.Mathlib.Decide.{ℕ_discrete}

-- After `i` rounds: the first `i` columns have 1 on the diagonal and 0 below it.
pub record IsEchelon (i : ℕ) (p : Pair) : Type 0 where
  pub unit : (k : ℕ) → k < i → entry p.left k k ≡ 1
  pub below : (k r : ℕ) → k < i → k < r → r < p.left.rows → entry p.left r k ≡ 0

-- What the search leaves: no pivot in the column, or one in place.
pub record IsPivot (p p' : Pair) (i pivot : ℕ) : Type 0 where
  pub keeps : Keeps p p'
  pub echelon : IsEchelon i p'
  pub in_place : entry p'.left i i ≡ pivot
  pub nonzero : pivot ≢ 0

abbrev pub NoPivot : Pair → ℕ → ℕ → Type 0
NoPivot p i j = (r : ℕ) → i ≤ r → r < j → entry p.left r i ≡ 0

abbrev pub Found : Pair → ℕ → ℕ × Pair → Type 0
Found p i (pivot, p') = ((pivot ≡ 0) × (p' ≡ p) × NoPivot p i p.left.rows) ⊎ IsPivot p p' i pivot

swap-IsEchelon :
    (p p' : Pair) (i j : ℕ)
    → IsPair p
    → i ≤ j
    → j < p.left.rows
    → IsEchelon i p
    → IsRowOp p.left p'.left (λ r k. entry p.left (swap_index i j r) k)
    → IsEchelon i p'
swap-IsEchelon p p' i j h le hj e op = record {
  unit = λ k lt. ground (
    arith,
    op.entries k k (omega (arith, h.square)),
    e.unit k lt,
    ap (λ (t : ℕ). entry p.left t k) {x = swap_index i j k} {y = k},
  );
  below = λ k r lt kr hr.
      op.entries r k (omega (arith, h.square))
      ∙ e.below k (swap_index i j r) lt (ground arith) (ground (arith, op.rows_eq));
}

pub find_pivot-Found :
    (Q : Singular → Type 0) (n j i : ℕ) (p : Pair)
    → IsPair p
    → i < p.left.rows
    → i ≤ j
    → j + n ≡ p.left.rows
    → IsEchelon i p
    → NoPivot p i j
    → Ensures (Found p i) Q (find_pivot n j i p)
unfolding find_pivot
find_pivot-Found Q zero j i p h hi le e ech np = inl (refl, refl, λ r lo hi. np r lo (omega arith))
find_pivot-Found Q (suc n) j i p h hi le e ech np = elim (Bool-cases (entry p.left j i == 0)) [
  | inl z ↦
      rw (read, z)
        (find_pivot-Found Q n (suc j) i p h hi (omega arith) (omega arith) ech (λ r lo hi.
          elim (ℕ_discrete r j) [
            | yes same ↦ rw same ((==_iff _ _).0 z)
            | no other ↦ np r lo (omega arith)
          ]))
  | inr nz ↦
      let (l, le_, lop) = swap_rows-IsRowOp p.left i j hi hj h.left_elements in
      let (r, re, rop) =
        swap_rows-IsRowOp p.right i j (omega (arith, h.same_rows)) (omega (arith, h.same_rows))
          h.right_elements in
      let p' : Pair = record { left = l; right = r } in
      let moved : entry l i i ≡ entry p.left j i =
        lop.entries i i (omega (arith, h.square))
        ∙ ap (λ (t : ℕ). entry p.left t i) {x = swap_index i j i} {y = j} (ground arith) in
      rw
        (
          read,
          nz,
          le_,
          re,
          at-entry l i i (omega (arith, lop.rows_eq)) (omega (arith, lop.columns_eq, h.square)),
        )
        (inr (record {
          keeps = swap-Keeps p p' i j hi hj lop rop;
          echelon = swap-IsEchelon p p' i j h le hj ech lop;
          in_place = refl;
          nonzero = ground (arith, moved);
        }))
]
  where
    hj : j < p.left.rows
    hj = omega arith

    read : at p.left j i ≡ ok (entry p.left j i)
    read = at-entry p.left j i hj (omega (arith, h.square))

-- `Inverse` of a pivot returns.
pub field_inverse-times :
    (t : ℕ)
    → t ≢ 0
    → t < 2 ^ 16
    → (s : ℕ) × (field_inverse t ≡ ok s) × (times t s ≡ 1) × (s < 2 ^ 16)
unfolding field_inverse
field_inverse-times t nz h =
    let (s, e, one, pos, lt) = times-inverse t (omega arith) h in
    (s, rw (field_inverse, e) refl, one, lt)

-- The scaled pair: 1 in place of the pivot.
pub record IsScaled (p p' : Pair) (i : ℕ) : Type 0 where
  pub keeps : Keeps p p'
  pub echelon : IsEchelon i p'
  pub one : entry p'.left i i ≡ 1

scale-IsEchelon :
    (p p' : Pair) (i c : ℕ)
    → IsPair p
    → i < p.left.rows
    → IsEchelon i p
    → IsRowOp p.left p'.left
        (λ r k. if r == i then times c (entry p.left r k) else entry p.left r k)
    → IsEchelon i p'
scale-IsEchelon p p' i c h hi e op = record {
  unit = λ k lt. ground (arith, op.entries k k (omega (arith, h.square)), e.unit k lt);
  below = λ k r lt kr hr.
      let z : entry p.left r k ≡ 0 = e.below k r lt kr (omega (arith, op.rows_eq)) in
      op.entries r k (omega (arith, h.square)) ∙ elim (Bool-cases (r == i)) [
        | inl same ↦ rw same (ap (times c) z ∙ times-zero c)
        | inr other ↦ rw other z
      ];
}

pub scale-IsScaled :
    (p : Pair) (i s : ℕ)
    → IsPair p
    → i < p.left.rows
    → IsEchelon i p
    → s < 2 ^ 16
    → times (entry p.left i i) s ≡ 1
    → (l r : Matrix) × (scale_row i s p.left ≡ ok l)
      × (scale_row i s p.right ≡ ok r)
      × IsScaled p (record { left = l; right = r }) i
scale-IsScaled p i s h hi ech hs inv =
    let (l, le, lop) = scale_row-IsRowOp p.left i s hi hs h.left_elements in
    let (r, re, rop) =
      scale_row-IsRowOp p.right i s (omega (arith, h.same_rows)) hs h.right_elements in
    let p' : Pair = record { left = l; right = r } in
    (
      l,
      r,
      le,
      re,
      record {
        keeps =
            scale-Keeps p p' i s (entry p.left i i) hs (h.left_elements _) inv h.left_elements
              h.right_elements lop rop;
        echelon = scale-IsEchelon p p' i s h hi ech lop;
        one =
            lop.entries i i (omega (arith, h.square))
            ∙ ap (λ t. if t then times s (entry p.left i i) else entry p.left i i) (==_refl i)
            ∙ times_comm s (entry p.left i i)
            ∙ inv;
      },
    )
