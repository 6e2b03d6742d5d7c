-- ===== src/Matrix/Eliminate.antt =====
-- `eliminate`: one element is cleared, by a row whose element in that column is 1.
use gopar_turbo.Base.{
  ℕ, ◌^◌, ◌<◌, ◌≡◌, ◌≢◌, refl, sym, ◌∙◌, ap, ap₂, arith, ◌==◌, ==_iff, ==_refl, if◌then◌else◌,
  Bool-cases, inl, inr, true, false,
}
use gopar_turbo.Base.Loops.{ok}
use gopar_turbo.Bits.{◌⊕◌}
use gopar_turbo.Bits.Xor.{xor_self, xor-zero, zero-xor}
use gopar_turbo.Gf2p16.{times}
use gopar_turbo.Gf2p16.Field.{times_comm, one-times, times-zero, zero-times}
use gopar_turbo.Matrix.{Matrix, Pair, eliminate, at}
use gopar_turbo.Matrix.Grid.{entry, IsElements}
use gopar_turbo.Matrix.RowOps.{at-entry, add_scaled_row-IsRowOp}
use gopar_turbo.Matrix.Solutions.{Keeps, Keeps-refl, add-Keeps}

-- The sizes that the callers check, and elements of the field.
pub record IsPair (p : Pair) : Type 0 where
  pub square : p.left.columns ≡ p.left.rows
  pub same_rows : p.right.rows ≡ p.left.rows
  pub left_elements : IsElements p.left.elements
  pub right_elements : IsElements p.right.elements

pub Keeps-IsPair : {p q : Pair} → IsPair p → Keeps p q → IsPair q
Keeps-IsPair h k = record {
  square = k.left_columns ∙ h.square ∙ sym k.left_rows;
  same_rows = k.right_rows ∙ h.same_rows ∙ sym k.left_rows;
  left_elements = k.left_elements;
  right_elements = k.right_elements;
}

-- What is left in row `j`.
abbrev pub cleared : Matrix → ℕ → ℕ → ℕ → ℕ → ℕ
cleared m i j r k = if r == j then entry m r k ⊕ times (entry m j i) (entry m i k) else entry m r k

pub record IsCleared (p p' : Pair) (i j : ℕ) : Type 0 where
  pub keeps : Keeps p p'
  pub entries : (r k : ℕ) → k < p.left.columns → entry p'.left r k ≡ cleared p.left i j r k

nothing_to_clear : (m : Matrix) (i j r k : ℕ) → entry m j i ≡ 0 → entry m r k ≡ cleared m i j r k
nothing_to_clear m i j r k z = elim (Bool-cases (r == j)) [
  | inl same ↦ rw same (
      sym (
        ap (λ (t : ℕ). entry m r k ⊕ t)
          (ap (λ (t : ℕ). times t (entry m i k)) z ∙ zero-times (entry m i k))
        ∙ xor-zero (entry m r k)))
  | inr other ↦ rw other refl
]

pub eliminate-IsCleared :
    (p : Pair) (i j : ℕ)
    → IsPair p
    → i < p.left.rows
    → j < p.left.rows
    → j ≢ i
    → (p' : Pair) × (eliminate i j p ≡ ok p') × IsCleared p p' i j
unfolding eliminate
eliminate-IsCleared p i j h hi hj ne = elim (Bool-cases (entry p.left j i == 0)) [
  | inl z ↦ (
    p,
    rw (eliminate, read, z) refl,
    record {
      keeps = Keeps-refl p h.left_elements h.right_elements;
      entries = λ r k lt. nothing_to_clear p.left i j r k ((==_iff _ _).0 z);
    },
  )
  | inr nz ↦
      let t = entry p.left j i in
      let (l, le, lop) =
        add_scaled_row-IsRowOp p.left j i t hj hi ne (h.left_elements _) h.left_elements in
      let (r, re, rop) =
        add_scaled_row-IsRowOp p.right j i t (omega (arith, h.same_rows))
          (omega (arith, h.same_rows)) ne (h.left_elements _) h.right_elements in
      let p' : Pair = record { left = l; right = r } in
      (
        p',
        rw (eliminate, read, nz, le, re) refl,
        record {
          keeps =
              add-Keeps p p' j i t (h.left_elements _) ne hi h.left_elements h.right_elements lop
                rop;
          entries = λ r k lt. lop.entries r k lt;
        },
      )
]
  where
    read : at p.left j i ≡ ok (entry p.left j i)
    read = at-entry p.left j i hj (omega (arith, h.square))

-- Both elements are 0: 0 is left.
pub clear_zero : (a b t : ℕ) → a ≡ 0 → b ≡ 0 → a ⊕ times t b ≡ 0
clear_zero a b t ha hb = ap₂ ◌⊕◌ ha (ap (times t) hb ∙ times-zero t) ∙ zero-xor 0

-- The upper element is 0: nothing changes.
pub clear_same : (a b t : ℕ) → b ≡ 0 → a ⊕ times t b ≡ a
clear_same a b t hb = ap (λ (s : ℕ). a ⊕ s) (ap (times t) hb ∙ times-zero t) ∙ xor-zero a

-- The upper element is 1: the element is cleared.
pub clear_one : (a b : ℕ) → a < 2 ^ 16 → b ≡ 1 → a ⊕ times a b ≡ 0
clear_one a b ha hb =
    ap (λ (s : ℕ). a ⊕ s) (ap (times a) hb ∙ times_comm a 1 ∙ one-times a ha) ∙ xor_self a

pub other_row :
    {p p' : Pair} {i j : ℕ}
    → IsCleared p p' i j
    → (r k : ℕ) → r ≢ j
    → k < p.left.columns
    → entry p'.left r k ≡ entry p.left r k
other_row {p} {p'} {i} {j} c r k ne lt =
    c.entries r k lt
    ∙ ap
        (λ t.
          if t
          then entry p.left r k ⊕ times (entry p.left j i) (entry p.left i k)
          else entry p.left r k)
        {x = r == j} {y = false} (ground arith)

pub own_row :
    {p p' : Pair} {i j : ℕ}
    → IsCleared p p' i j
    → (k : ℕ) → k < p.left.columns
    → entry p'.left j k ≡ entry p.left j k ⊕ times (entry p.left j i) (entry p.left i k)
own_row {p} {p'} {i} {j} c k lt =
    c.entries j k lt
    ∙ ap
        (λ t.
          if t
          then entry p.left j k ⊕ times (entry p.left j i) (entry p.left i k)
          else entry p.left j k)
        {x = j == j} {y = true} (==_refl j)
