-- ===== src/Rsec16/Apply/Parallel.antt =====
-- `applyMatrixSingle` and `applyMatrixParallelData` give the same product, whatever the order of
-- the goroutines.
use gopar_turbo.Base.{
  ℕ, suc, ◌+◌, ◌*◌, ◌/◌, ◌%◌, ◌≤◌, ◌<◌, ◌≡◌, refl, sym, ◌∙◌, ap, arith, Bool, true, false, ◌&&◌,
  ◌||◌, leb, ltb, if◌then◌else◌, List, [], ◌∷◌, length, ◌⊎◌, inl, inr, Bool-cases, subst, fun_ext,
}
use gopar_turbo.Base.Loops.{ok}
use gopar_turbo.Matrix.{Matrix}
use gopar_turbo.Matrix.Grid.{entry, IsElements}
use gopar_turbo.Matrix.Dot.{dot}
use gopar_turbo.Rsec16.Words.{word}
use gopar_turbo.Rsec16.Parallel.{range_of}
use gopar_turbo.Rsec16.Apply.{apply_matrix_slice, run_goroutines}
use gopar_turbo.Rsec16.Apply.Rows.{IsShard, AreShards, column, fill_range-IsFilled}
use native.Mathlib.Nat.{div-mul-le_self, lt-div-mul-add, mul-le-mul_right}

-- An order in which `count` goroutines run, each of them once or more.
abbrev pub Mentions : ℕ → List ℕ → Type 0
Mentions g [] = ⊥
Mentions g (x ∷ xs) = (g ≡ x) ⊎ Mentions g xs

abbrev pub AllBelow : ℕ → List ℕ → Type 0
AllBelow count [] = Unit
AllBelow count (x ∷ xs) = (x < count) × AllBelow count xs

pub record IsSchedule (count : ℕ) (order : List ℕ) : Type 0 where
  pub known : AllBelow count order
  pub complete : (g : ℕ) → g < count → Mentions g order

-- The rows are shards; their words are those of the product where they are done.
abbrev pub AreDone : ℕ → Matrix → List (List ℕ) → (ℕ → Bool) → ℕ → List (List ℕ) → Type 0
AreDone n m ins done i [] = Unit
AreDone n m ins done i (row ∷ rows) =
    IsShard n row
    × ((p : ℕ) → done p ≡ true → word row p ≡ dot (length ins) (entry m i) (column ins p))
    × AreDone n m ins done (suc i) rows

-- The rows from row `i` on are the matrix applied to the inputs.
abbrev pub AreProducts : ℕ → Matrix → List (List ℕ) → ℕ → List (List ℕ) → Type 0
AreProducts n m ins i [] = Unit
AreProducts n m ins i (row ∷ rows) =
    IsShard n row
    × ((p : ℕ) → p < n → word row p ≡ dot (length ins) (entry m i) (column ins p))
    × AreProducts n m ins (suc i) rows

or_left : (b : Bool) → (b || false) ≡ true → b ≡ true
or_left true t = refl
or_left false t = t

or_assoc : (a b c : Bool) → ((a || b) || c) ≡ (a || (b || c))
or_assoc true b c = refl
or_assoc false b c = refl

or_false : (b : Bool) → b ≡ (b || false)
or_false true = refl
or_false false = refl

or_right : (a b : Bool) → b ≡ true → (a || b) ≡ true
or_right true b h = refl
or_right false b h = h

pub none-done :
    (n : ℕ) (m : Matrix) (ins : List (List ℕ)) (i : ℕ) (rows : List (List ℕ))
    → AreShards n rows
    → AreDone n m ins (λ _. false) i rows
none-done n m ins i [] h = tt
none-done n m ins i (row ∷ rows) h = (h.0, λ p e. cc, none-done n m ins (suc i) rows h.1)

pub all-done :
    (n : ℕ) (m : Matrix) (ins : List (List ℕ)) (done : ℕ → Bool) (i : ℕ) (rows : List (List ℕ))
    → ((p : ℕ) → p < n → done p ≡ true)
    → AreDone n m ins done i rows
    → AreProducts n m ins i rows
all-done n m ins done i [] d h = tt
all-done n m ins done i (row ∷ rows) d h =
    (h.0, λ p lt. h.1 p (d p lt), all-done n m ins done (suc i) rows d h.2)

-- What the code takes for granted of its arguments.
pub record IsApplicable (n : ℕ) (m : Matrix) (ins outs : List (List ℕ)) : Type 0 where
  pub elements : IsElements m.elements
  pub some_inputs : 0 < length ins
  pub columns : length ins ≤ m.columns
  pub rows : length outs ≤ m.rows
  pub inputs : AreShards n ins
  pub outputs : AreShards n outs

module _ (n : ℕ) (m : Matrix) (ins : List (List ℕ)) (he : IsElements m.elements)
    (some_in : 0 < length ins) (hc : length ins ≤ m.columns) (hx : AreShards n ins) where
  -- One range of all rows.
  pub slice-AreDone :
      (a b : ℕ) (done : ℕ → Bool) (i : ℕ) (rows : List (List ℕ))
      → a ≤ b
      → b ≤ n
      → i + length rows ≤ m.rows
      → AreDone n m ins done i rows
      → (rows' : List (List ℕ)) × (apply_matrix_slice m ins i rows (2 * a) (2 * b) ≡ ok rows')
        × (length rows' ≡ length rows)
        × AreDone n m ins (λ p. done p || (leb a p && ltb p b)) i rows'
  unfolding apply_matrix_slice
  slice-AreDone a b done i [] h k hi d = ([], refl, refl, tt)
  slice-AreDone a b done i (row ∷ rows) h k hi d =
      let (row', e, f) =
        fill_range-IsFilled n a b h k m i ins row (omega arith) he some_in hc hx d.0 in
      let (rows', es, ls, ds) = slice-AreDone a b done (suc i) rows h k (omega arith) d.2 in
      let next : i + 1 ≡ suc i = omega arith in
      (
        row' ∷ rows',
        rw (e, next, es) refl,
        ap suc ls,
        (f.shard, λ p t. f.value p ∙ filled p (d.1 p) t, ds),
      )
    where
      filled :
          {u v : ℕ} (p : ℕ)
          → (done p ≡ true → v ≡ u)
          → (done p || (leb a p && ltb p b)) ≡ true
          → (if leb a p && ltb p b then u else v) ≡ u
      filled p old t = elim (Bool-cases (leb a p && ltb p b)) [
        | inl new ↦ rw new refl
        | inr other ↦ rw other (old (or_left (done p) (rw other at t)))
      ]

-- Word `p` is in the range of goroutine `g`.
abbrev pub covers : ℕ → ℕ → ℕ → ℕ → Bool
covers n length p g =
    leb ((range_of (2 * n) length g).0 / 2) p && ltb p ((range_of (2 * n) length g).1 / 2)

abbrev pub covered : ℕ → ℕ → List ℕ → ℕ → Bool
covered n length [] p = false
covered n length (g ∷ gs) p = covers n length p g || covered n length gs p

-- A range of words, twice as many bytes.
pub record IsRange (n length g : ℕ) : Type 0 where
  start : (range_of (2 * n) length g).0 ≡ 2 * ((range_of (2 * n) length g).0 / 2)
  stop : (range_of (2 * n) length g).1 ≡ 2 * ((range_of (2 * n) length g).1 / 2)
  order : (range_of (2 * n) length g).0 / 2 ≤ (range_of (2 * n) length g).1 / 2
  inside : (range_of (2 * n) length g).1 / 2 ≤ n

even_times : (g k : ℕ) → g * (2 * k) ≡ 2 * (g * k)
even_times g k = grind arith

pub piece_bounds :
    (n length g count : ℕ)
    → length % 16 ≡ 0
    → g < count
    → count * length < 2 * n + length
    → IsRange n length g
unfolding range_of
piece_bounds n length g count e h last =
    let k = length / 2 in
    let l : length ≡ 2 * k = omega arith in
    let start : g * length ≡ 2 * (g * k) = ap (λ t. g * t) l ∙ even_times g k in
    let before : (g + 1) * length ≤ count * length = mul-le-mul_right length (omega arith) in
    let step : (g + 1) * length ≡ g * length + length = grind arith in
    record {
      start = omega (arith, start);
      stop = ground (arith, start, l);
      order = ground (arith, start, l, before, step, last);
      inside = ground arith;
    }

pub own_range :
    (n length p : ℕ)
    → 0 < length
    → p < n
    → IsRange n length (2 * p / length)
    → covers n length p (2 * p / length) ≡ true
unfolding range_of
own_range n length p h lt r =
    let low : 2 * p / length * length ≤ 2 * p = div-mul-le_self (2 * p) length in
    let high = lt-div-mul-add {a = 2 * p} {b = length} h in
    ground (arith, r.start, r.stop, low, high)

pub covered_mentioned :
    (n length p g : ℕ) (gs : List ℕ)
    → Mentions g gs
    → covers n length p g ≡ true
    → covered n length gs p ≡ true
covered_mentioned n length p g [] w c = absurd w
covered_mentioned n length p g (x ∷ xs) (inl same) c =
    let here : covers n length p x ≡ true = ap (covers n length p) (sym same) ∙ c in rw here refl
covered_mentioned n length p g (x ∷ xs) (inr later) c =
    or_right (covers n length p x) (covered n length xs p)
      (covered_mentioned n length p g xs later c)

module _ (n : ℕ) (m : Matrix) (ins : List (List ℕ)) (he : IsElements m.elements)
    (some_in : 0 < length ins) (hc : length ins ≤ m.columns) (hx : AreShards n ins) where
  pub run-AreDone :
      (size count : ℕ) (gs : List ℕ) (done : ℕ → Bool) (rows : List (List ℕ))
      → size % 16 ≡ 0
      → count * size < 2 * n + size
      → AllBelow count gs
      → length rows ≤ m.rows
      → AreDone n m ins done 0 rows
      → (rows' : List (List ℕ)) × (run_goroutines m ins (2 * n) size gs rows ≡ ok rows')
        × (length rows' ≡ length rows)
        × AreDone n m ins (λ p. done p || covered n size gs p) 0 rows'
  unfolding run_goroutines
  run-AreDone size count [] done rows e last below hr d =
      (rows, refl, refl, subst (λ f. AreDone n m ins f 0 rows) (fun_ext (λ p. or_false (done p))) d)
  run-AreDone size count (g ∷ gs) done rows e last below hr d =
      let r = piece_bounds n size g count e below.0 last in
      let a = (range_of (2 * n) size g).0 / 2 in
      let b = (range_of (2 * n) size g).1 / 2 in
      let (rows1, e1, l1, d1) =
        slice-AreDone n m ins he some_in hc hx a b done 0 rows r.order r.inside (omega arith) d in
      let (rows2, e2, l2, d2) =
        run-AreDone size count gs (λ p. done p || covers n size p g) rows1 e last below.1
          (omega (arith, l1)) d1 in
      (
        rows2,
        rw (r.start, r.stop, e1) e2,
        l2 ∙ l1,
        subst (λ f. AreDone n m ins f 0 rows2)
            (fun_ext (λ p. or_assoc (done p) (covers n size p g) (covered n size gs p))) d2,
      )
