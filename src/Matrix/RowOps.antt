-- ===== src/Matrix/RowOps.antt =====
-- The row operations return within bounds, and change the elements of their row alone.
use gopar_turbo.Base.{ℕ, ◌^◌, ◌<◌, ◌≡◌, ◌≢◌, refl, ◌∙◌, ap, arith, ◌==◌, if◌then◌else◌}
use gopar_turbo.Base.Loops.{ok, for_each, for_each_inv}
use gopar_turbo.Bits.{◌⊕◌}
use gopar_turbo.Bits.Xor.{xor-lt}
use gopar_turbo.Gf2p16.{times, update}
use gopar_turbo.Gf2p16.Slice.{table_times, table_times-times}
use gopar_turbo.Gf2p16.Field.{times-lt}
use gopar_turbo.Matrix.{
  Matrix, swap_body, swap_rows, scale_body, scale_row, add_body, add_scaled_row, at,
}
use gopar_turbo.Matrix.Grid.{entry, IsElements, swap_index, swap_loop, scale_loop, add_loop}
use native.Mathlib.Decide.{ℕ_discrete}

-- `m'` has the shape of `m` and the elements `g`.
pub record IsRowOp (m m' : Matrix) (g : ℕ → ℕ → ℕ) : Type 0 where
  pub rows_eq : m'.rows ≡ m.rows
  pub columns_eq : m'.columns ≡ m.columns
  pub elements : IsElements m'.elements
  pub entries : (r k : ℕ) → k < m.columns → entry m' r k ≡ g r k

update-IsElements : (e : ℕ → ℕ) (i v : ℕ) → IsElements e → v < 2 ^ 16 → IsElements (update e i v)
update-IsElements e i v h hv j = ground (arith, h j)

pub table_times-lt : (c x : ℕ) → c < 2 ^ 16 → x < 2 ^ 16 → table_times c x < 2 ^ 16
table_times-lt c x hc hx = omega (arith, table_times-times c x hc hx, times-lt c x hc hx)

pub at-entry : (m : Matrix) (i j : ℕ) → i < m.rows → j < m.columns → at m i j ≡ ok (entry m i j)
unfolding at
at-entry m i j hi hj = ground arith

pub swap_rows-IsRowOp :
    (m : Matrix) (i j : ℕ)
    → i < m.rows
    → j < m.rows
    → IsElements m.elements
    → (m' : Matrix) × (swap_rows i j m ≡ ok m') × IsRowOp m m' (λ r k. entry m (swap_index i j r) k)
swap_rows-IsRowOp m i j hi hj h = elim (ℕ_discrete i j) [
  | yes e ↦ (
    m,
    unfold swap_rows in ground arith,
    record {
      rows_eq = refl;
      columns_eq = refl;
      elements = h;
      entries = λ r k lt. ap (λ (t : ℕ). entry m t k) (ground arith);
    },
  )
  | no ne ↦ (
    record m { elements = for_each m.columns 0 (swap_body m.columns i j) m.elements },
    unfold swap_rows in ground arith,
    record {
      rows_eq = refl;
      columns_eq = refl;
      elements =
          for_each_inv (λ _ s. IsElements s) (swap_body m.columns i j) m.columns
            (λ k s lt b.
              unfold swap_body in update-IsElements _ _ _ (update-IsElements _ _ _ b (b _)) (b _))
            m.columns 0 m.elements (omega arith) h;
      entries = λ r k lt. swap_loop m.columns m.elements i j ne r k lt;
    },
  )
]

pub scale_row-IsRowOp :
    (m : Matrix) (i c : ℕ)
    → i < m.rows
    → c < 2 ^ 16
    → IsElements m.elements
    → (m' : Matrix) × (scale_row i c m ≡ ok m')
      × IsRowOp m m' (λ r k. if r == i then times c (entry m r k) else entry m r k)
scale_row-IsRowOp m i c hi hc h = (
  record m { elements = for_each m.columns 0 (scale_body m.columns i c) m.elements },
  unfold scale_row in ground arith,
  record {
    rows_eq = refl;
    columns_eq = refl;
    elements =
        for_each_inv (λ _ s. IsElements s) (scale_body m.columns i c) m.columns
          (λ k s lt b. unfold scale_body in update-IsElements _ _ _ b (table_times-lt c _ hc (b _)))
          m.columns 0 m.elements (omega arith) h;
    entries = λ r k lt.
        scale_loop m.columns m.elements i c r k lt
        ∙ ap (λ (t : ℕ). if r == i then t else entry m r k)
            (table_times-times c (entry m r k) hc (h _));
  },
)

pub add_scaled_row-IsRowOp :
    (m : Matrix) (d b c : ℕ)
    → d < m.rows
    → b < m.rows
    → d ≢ b
    → c < 2 ^ 16
    → IsElements m.elements
    → (m' : Matrix) × (add_scaled_row d b c m ≡ ok m')
      × IsRowOp m m' (λ r k. if r == d then entry m r k ⊕ times c (entry m b k) else entry m r k)
add_scaled_row-IsRowOp m d b c hd hb ne hc h = (
  record m { elements = for_each m.columns 0 (add_body m.columns d b c) m.elements },
  unfold add_scaled_row in ground arith,
  record {
    rows_eq = refl;
    columns_eq = refl;
    elements =
        for_each_inv (λ _ s. IsElements s) (add_body m.columns d b c) m.columns
          (λ k s lt q.
            unfold add_body in
            update-IsElements _ _ _ q (xor-lt 16 _ _ (q _) (table_times-lt c _ hc (q _))))
          m.columns 0 m.elements (omega arith) h;
    entries = λ r k lt.
        add_loop m.columns m.elements d b c ne r k lt
        ∙ ap (λ (t : ℕ). if r == d then entry m r k ⊕ t else entry m r k)
            (table_times-times c (entry m b k) hc (h _));
  },
)
