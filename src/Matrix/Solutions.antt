-- ===== src/Matrix/Solutions.antt =====
-- The equations that a pair of matrices stands for: the left one applied to `x` is the right one
-- applied to `w`. A row operation on both keeps their solutions.
use gopar_turbo.Base.{
  ℕ, ◌^◌, ◌<◌, ◌≡◌, ◌≢◌, refl, sym, ◌∙◌, ap, ap₂, arith, ◌==◌, if◌then◌else◌, Bool-cases, inl, inr,
}
use gopar_turbo.Bits.{◌⊕◌}
use gopar_turbo.Bits.Xor.{xor_cancel_right}
use gopar_turbo.Gf2p16.{times}
use gopar_turbo.Gf2p16.Field.{times_assoc, one-times, times-lt}
use gopar_turbo.Matrix.{Matrix, Pair}
use gopar_turbo.Matrix.Grid.{entry, IsElements, swap_index}
use gopar_turbo.Matrix.Dot.{Short, dot, dot-lt, dot_congr, dot-plus, dot-times}
use gopar_turbo.Matrix.RowOps.{IsRowOp}

-- Row `r` of a matrix applied to a vector.
abbrev pub apply_row : Matrix → (ℕ → ℕ) → ℕ → ℕ
apply_row m x r = dot m.columns (entry m r) x

-- `x` and `w` satisfy the equation of every row.
unfoldable pub Solves : Pair → (ℕ → ℕ) → (ℕ → ℕ) → Type 0
Solves p x w = (r : ℕ) → r < p.left.rows → apply_row p.left x r ≡ apply_row p.right w r

apply_row_lem :
    (m m' : Matrix) (g : ℕ → ℕ → ℕ) (x : ℕ → ℕ) (r : ℕ)
    → IsRowOp m m' g
    → apply_row m' x r ≡ dot m.columns (g r) x
apply_row_lem m m' g x r op =
    ap (λ (t : ℕ). dot t (entry m' r) x) op.columns_eq
    ∙ dot_congr m.columns (entry m' r) (g r) x (λ k lt. op.entries r k lt)

apply_row_scaled :
    (m m' : Matrix) (i c : ℕ) (x : ℕ → ℕ) (r : ℕ)
    → c < 2 ^ 16
    → IsElements m.elements
    → Short x
    → IsRowOp m m' (λ r k. if r == i then times c (entry m r k) else entry m r k)
    → apply_row m' x r ≡ (if r == i then times c (apply_row m x r) else apply_row m x r)
apply_row_scaled m m' i c x r hc he hx op =
    apply_row_lem m m' _ x r op ∙ elim (Bool-cases (r == i)) [
      | inl same ↦ rw same (dot-times m.columns c (entry m r) x hc (λ k. he _) hx)
      | inr other ↦ rw other refl
    ]

apply_row_added :
    (m m' : Matrix) (d b c : ℕ) (x : ℕ → ℕ) (r : ℕ)
    → c < 2 ^ 16
    → IsElements m.elements
    → Short x
    → ((k : ℕ) → times c (entry m b k) < 2 ^ 16)
    → IsRowOp m m' (λ r k. if r == d then entry m r k ⊕ times c (entry m b k) else entry m r k)
    → apply_row m' x r
      ≡ (if r == d then apply_row m x r ⊕ times c (apply_row m x b) else apply_row m x r)
apply_row_added m m' d b c x r hc he hx hb op =
    apply_row_lem m m' _ x r op ∙ elim (Bool-cases (r == d)) [
      | inl same ↦ rw same (
          dot-plus m.columns (entry m r) (λ k. times c (entry m b k)) x (λ k. he _) hb hx
          ∙ ap (λ (t : ℕ). apply_row m x r ⊕ t)
              (dot-times m.columns c (entry m b) x hc (λ k. he _) hx))
      | inr other ↦ rw other refl
    ]

-- `q` has the shape of `p`, elements of the field, and the same solutions.
pub record Keeps (p q : Pair) : Type 0 where
  pub left_rows : q.left.rows ≡ p.left.rows
  pub left_columns : q.left.columns ≡ p.left.columns
  pub right_rows : q.right.rows ≡ p.right.rows
  pub right_columns : q.right.columns ≡ p.right.columns
  pub left_elements : IsElements q.left.elements
  pub right_elements : IsElements q.right.elements
  pub forth : (x w : ℕ → ℕ) → Short x → Short w → Solves p x w → Solves q x w
  pub back : (x w : ℕ → ℕ) → Short x → Short w → Solves q x w → Solves p x w

pub Keeps-refl : (p : Pair) → IsElements p.left.elements → IsElements p.right.elements → Keeps p p
Keeps-refl p hl hr = record {
  left_rows = refl;
  left_columns = refl;
  right_rows = refl;
  right_columns = refl;
  left_elements = hl;
  right_elements = hr;
  forth = λ x w hx hw h. h;
  back = λ x w hx hw h. h;
}

pub Keeps-trans : {p q s : Pair} → Keeps p q → Keeps q s → Keeps p s
Keeps-trans a b = record {
  left_rows = b.left_rows ∙ a.left_rows;
  left_columns = b.left_columns ∙ a.left_columns;
  right_rows = b.right_rows ∙ a.right_rows;
  right_columns = b.right_columns ∙ a.right_columns;
  left_elements = b.left_elements;
  right_elements = b.right_elements;
  forth = λ x w hx hw h. b.forth x w hx hw (a.forth x w hx hw h);
  back = λ x w hx hw h. a.back x w hx hw (b.back x w hx hw h);
}

keep_shape :
    (p q : Pair) (g h : ℕ → ℕ → ℕ)
    → IsRowOp p.left q.left g
    → IsRowOp p.right q.right h
    → ((x w : ℕ → ℕ) → Short x → Short w → Solves p x w → Solves q x w)
    → ((x w : ℕ → ℕ) → Short x → Short w → Solves q x w → Solves p x w)
    → Keeps p q
keep_shape p q g h a b forth back = record {
  left_rows = a.rows_eq;
  left_columns = a.columns_eq;
  right_rows = b.rows_eq;
  right_columns = b.columns_eq;
  left_elements = a.elements;
  right_elements = b.elements;
  forth = forth;
  back = back;
}

pub swap-Keeps :
    (p q : Pair) (i j : ℕ)
    → i < p.left.rows
    → j < p.left.rows
    → IsRowOp p.left q.left (λ r k. entry p.left (swap_index i j r) k)
    → IsRowOp p.right q.right (λ r k. entry p.right (swap_index i j r) k)
    → Keeps p q
unfolding Solves
swap-Keeps p q i j hi hj a b =
    keep_shape p q _ _ a b
      (λ x w hx hw s r lt.
        apply_row_lem p.left q.left _ x r a
        ∙ s (swap_index i j r) (ground (arith, a.rows_eq))
        ∙ sym (apply_row_lem p.right q.right _ w r b))
      (λ x w hx hw s r lt.
        ap (apply_row p.left x) (twice r)
        ∙ sym (apply_row_lem p.left q.left _ x (swap_index i j r) a)
        ∙ s (swap_index i j r) (ground (arith, a.rows_eq))
        ∙ apply_row_lem p.right q.right _ w (swap_index i j r) b
        ∙ ap (apply_row p.right w) (sym (twice r)))
  where
    twice : (r : ℕ) → r ≡ swap_index i j (swap_index i j r)
    twice r = ground arith

-- A scaled equation can be scaled back by the inverse.
scale_back :
    (c c' u v : ℕ)
    → c < 2 ^ 16
    → c' < 2 ^ 16
    → u < 2 ^ 16
    → v < 2 ^ 16
    → times c' c ≡ 1
    → times c u ≡ times c v
    → u ≡ v
scale_back c c' u v hc hc' hu hv inv e = restore u hu ∙ ap (times c') e ∙ sym (restore v hv)
  where
    restore : (t : ℕ) → t < 2 ^ 16 → t ≡ times c' (times c t)
    restore t ht =
        sym (one-times t ht) ∙ ap (λ (k : ℕ). times k t) (sym inv) ∙ times_assoc c' c t hc' hc ht

pub scale-Keeps :
    (p q : Pair) (i c c' : ℕ)
    → c < 2 ^ 16
    → c' < 2 ^ 16
    → times c' c ≡ 1
    → IsElements p.left.elements
    → IsElements p.right.elements
    → IsRowOp p.left q.left (λ r k. if r == i then times c (entry p.left r k) else entry p.left r k)
    → IsRowOp p.right q.right
        (λ r k. if r == i then times c (entry p.right r k) else entry p.right r k)
    → Keeps p q
unfolding Solves
scale-Keeps p q i c c' hc hc' inv hl hr a b =
    keep_shape p q _ _ a b
      (λ x w hx hw s r lt.
        apply_row_scaled p.left q.left i c x r hc hl hx a
        ∙ ap (λ (t : ℕ). if r == i then times c t else t) (s r (omega (arith, a.rows_eq)))
        ∙ sym (apply_row_scaled p.right q.right i c w r hc hr hw b))
      (λ x w hx hw s r lt.
        unscale r (apply_row p.left x r) (apply_row p.right w r) (dot-lt _ _ _ (λ k _. hl _) hx)
          (dot-lt _ _ _ (λ k _. hr _) hw)
          (sym (apply_row_scaled p.left q.left i c x r hc hl hx a)
            ∙ s r (omega (arith, a.rows_eq))
            ∙ apply_row_scaled p.right q.right i c w r hc hr hw b))
  where
    unscale :
        (r u v : ℕ)
        → u < 2 ^ 16
        → v < 2 ^ 16
        → (if r == i then times c u else u) ≡ (if r == i then times c v else v)
        → u ≡ v
    unscale r u v hu hv e = elim (Bool-cases (r == i)) [
      | inl same ↦ scale_back c c' u v hc hc' hu hv inv (rw same at e)
      | inr other ↦ rw other at e
    ]

-- An added row is known, so what it was added to is known too.
unadd :
    (d b c r : ℕ) (u v : ℕ → ℕ)
    → d ≢ b
    → (if b == d then u b ⊕ times c (u b) else u b) ≡ (if b == d then v b ⊕ times c (v b) else v b)
    → (if r == d then u r ⊕ times c (u b) else u r) ≡ (if r == d then v r ⊕ times c (v b) else v r)
    → u r ≡ v r
unadd d b c r u v ne at_b at_r = elim (Bool-cases (r == d)) [
  | inl same ↦
      sym (xor_cancel_right (u r) (times c (u b)))
      ∙ ap₂ (λ (s t : ℕ). s ⊕ times c t) (rw same at at_r) source
      ∙ xor_cancel_right (v r) (times c (v b))
  | inr other ↦ rw other at at_r
]
  where
    source : u b ≡ v b
    source = ground arith

pub add-Keeps :
    (p q : Pair) (d b c : ℕ)
    → c < 2 ^ 16
    → d ≢ b
    → b < p.left.rows
    → IsElements p.left.elements
    → IsElements p.right.elements
    → IsRowOp p.left q.left
        (λ r k. if r == d then entry p.left r k ⊕ times c (entry p.left b k) else entry p.left r k)
    → IsRowOp p.right q.right (λ r k.
      if r == d then entry p.right r k ⊕ times c (entry p.right b k) else entry p.right r k)
    → Keeps p q
unfolding Solves
add-Keeps p q d b c hc ne hb hl hr ol or =
    keep_shape p q _ _ ol or
      (λ x w hx hw s r lt.
        apply_row_added p.left q.left d b c x r hc hl hx (λ k. times-lt c _ hc (hl _)) ol
        ∙ ap₂ (λ (t u : ℕ). if r == d then t ⊕ times c u else t) (s r (omega (arith, ol.rows_eq)))
            (s b hb)
        ∙ sym (apply_row_added p.right q.right d b c w r hc hr hw (λ k. times-lt c _ hc (hr _)) or))
      (λ x w hx hw s r lt.
        let every : (r : ℕ) → r < p.left.rows → _ = λ r lt.
          sym (apply_row_added p.left q.left d b c x r hc hl hx (λ k. times-lt c _ hc (hl _)) ol)
          ∙ s r (omega (arith, ol.rows_eq))
          ∙ apply_row_added p.right q.right d b c w r hc hr hw (λ k. times-lt c _ hc (hr _)) or in
        unadd d b c r (apply_row p.left x) (apply_row p.right w) ne (every b hb) (every r lt))
