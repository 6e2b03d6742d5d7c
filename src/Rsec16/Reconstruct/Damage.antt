-- ===== src/Rsec16/Reconstruct/Damage.antt =====
-- What `ReconstructData` finds of damaged shards, and the vectors that it solves for.
use gopar_turbo.Base.{
  ℕ, ◌+◌, ◌-◌, ◌<◌, ◌≤◌, ◌≡◌, refl, sym, ◌∙◌, ap, ap₂, arith, ltb, ltb→lt, ltb→ge, inl, inr,
  Bool-cases, Option, some, List, [], ◌∷◌, ◌++◌, map, length, get_or, length-append, subst,
}
use gopar_turbo.Base.Loops.{Outcome, fault, failure, ok, Ensures}
use gopar_turbo.Matrix.{Singular}
use gopar_turbo.Matrix.Grid.{entry, IsElements}
use gopar_turbo.Matrix.Dot.{dot}
use gopar_turbo.Rsec16.Words.{word}
use gopar_turbo.Rsec16.Apply.Rows.{IsShard, AreShards, column}
use gopar_turbo.Rsec16.Apply.Parallel.{AreProducts}
use gopar_turbo.Rsec16.Coder.{Coder, CoderError, not_enough_parity_shards, matrix_error, lift}
use gopar_turbo.Rsec16.Reconstruct.{Rows, Parity, split_rows, choose_parity, fill_shards}
use gopar_turbo.Rsec16.Reconstruct.Sums.{total, upto}
use gopar_turbo.Rsec16.Reconstruct.Split.{
  AreDamaged, count_left, IsSplitting, split_rows-IsSplitting, IsChoice, choose_parity-IsChoice,
}
use gopar_turbo.Rsec16.Reconstruct.System.{nth, IsSelection, AreInputs, IsDegenerate}
use gopar_turbo.Rsec16.Reconstruct.Restore.{
  shard_at, shards_from, column-Short, product_at, get_or_front, get_or_back, restored,
  restored-map, fill_shards-restored,
}

-- Data shards of `2 * n` bytes, and their parity shards under the coder's matrix.
pub record IsCoding (n : ℕ) (c : Coder) (original parity : List (List ℕ)) : Type 0 where
  pub elements : IsElements c.parity_matrix.elements
  pub goroutines : 0 < c.num_goroutines
  pub columns : c.data_shards ≡ c.parity_matrix.columns
  pub data_size : length original ≡ c.parity_matrix.columns
  pub parity_size : length parity ≡ c.parity_matrix.rows
  pub data_shards : AreShards n original
  pub products : AreProducts n c.parity_matrix original 0 parity

abbrev pub shard : List (List ℕ) → ℕ → List ℕ
shard xs j = get_or xs j []

-- Shards of which some may be lost; the others are unchanged.
abbrev pub IsDamaged : List (List ℕ) → List (Option (List ℕ)) → Type 0
IsDamaged original shards = (length shards ≡ length original) × AreDamaged (shard original) 0 shards

-- Why an error is returned: too few shards are left, or the part of the parity matrix that is to be
-- inverted is singular.
abbrev pub IsUnrecoverable :
    Coder → List (Option (List ℕ)) → List (Option (List ℕ)) → CoderError → Type 0
IsUnrecoverable c shards parity_shards not_enough_parity_shards =
    count_left shards + count_left parity_shards < c.data_shards
IsUnrecoverable c shards parity_shards (matrix_error e) =
    IsDegenerate c.parity_matrix (split_rows 0 shards).missing
      (choose_parity (c.data_shards - length (split_rows 0 shards).input) 0 parity_shards).used
IsUnrecoverable c shards parity_shards _ = ⊥

pub lift-Ensures :
    {A : Type 0} (P : A → Type 0) (Q : Singular → Type 0) (R : CoderError → Type 0)
    (m : Outcome Singular A)
    → Ensures P Q m
    → ((e : Singular) → Q e → R (matrix_error e))
    → Ensures P R (lift m)
lift-Ensures P Q R fault h k = h
lift-Ensures P Q R (failure e) h k = k e h
lift-Ensures P Q R (ok a) h k = h

module _ (n : ℕ) (c : Coder) (original parity : List (List ℕ)) (h : IsCoding n c original parity)
    (shards parity_shards : List (Option (List ℕ))) (hd : IsDamaged original shards)
    (hp : IsDamaged parity parity_shards) where
  abbrev pub rows : Rows
  rows = split_rows 0 shards

  abbrev pub wanted : ℕ
  wanted = c.data_shards - length rows.input

  abbrev pub chosen : Parity
  chosen = choose_parity wanted 0 parity_shards

  pub split : IsSplitting (shard original) 0 shards rows
  split = split_rows-IsSplitting (shard original) 0 shards hd.1

  pub choice : IsChoice (shard parity) wanted 0 parity_shards chosen
  choice = choose_parity-IsChoice (shard parity) wanted 0 parity_shards hp.1

  pub whole : length rows.available + length rows.missing ≡ c.parity_matrix.columns
  whole = split.all ∙ hd.0 ∙ h.data_size

  -- Nothing is lost.
  pub intact : length rows.missing ≡ 0 → shards ≡ map some original
  unfolding fill_shards
  intact e =
      sym (no_fill rows.missing shards e)
      ∙ fill_shards-restored (shard original) 0 [] shards rows.missing [] refl hd.1 refl (sym e)
          (λ t lt. absurd (omega arith))
      ∙ restored_all
    where
      no_fill :
          (rs : List ℕ) (all : List (Option (List ℕ))) → length rs ≡ 0 → fill_shards rs [] all ≡ all
      no_fill [] all e = refl
      no_fill (r ∷ rs) all e = refl

      restored_all : restored (shard original) 0 shards ≡ map some original
      restored_all =
          restored-map (shard original) 0 shards original hd.0
            (λ j lt. ap (shard original) {x = 0 + j} {y = j} (omega arith))

  -- Too few are left.
  pub too_few :
      length (rows.input ++ chosen.input) < c.data_shards
      → count_left shards + count_left parity_shards < c.data_shards
  too_few lt = omega (
    arith,
    length-append rows.input chosen.input,
    split.left.same,
    split.count,
    choice.count,
    choice.rows.same,
  )

  module _ (lost : 0 < length rows.missing)
      (enough : c.data_shards ≤ length (rows.input ++ chosen.input)) where
    pub full : length rows.available + length chosen.used ≡ c.parity_matrix.columns
    full = omega (
      arith,
      length-append rows.input chosen.input,
      split.left.same,
      choice.count,
      choice.rows.same,
      h.columns,
      whole,
    )

    pub selection : IsSelection c.parity_matrix rows.available rows.missing chosen.used
    selection = record {
      elements = h.elements;
      sums = λ g. ap (λ k. total g (upto 0 k)) (sym (hd.0 ∙ h.data_size)) ∙ split.sums g;
      size = full;
      same = omega (arith, full, whole);
      some_used = omega (arith, full, whole, lost);
      available_below = λ t lt. omega (arith, split.left.below t lt, hd.0, h.data_size);
      missing_below = λ t lt. omega (arith, split.below t lt, hd.0, h.data_size);
      used_below = λ t lt. omega (arith, choice.rows.below t lt, hp.0, h.parity_size);
    }

    abbrev pub input : List (List ℕ)
    input = rows.input ++ chosen.input

    input_front :
        (t : ℕ) → t < length rows.available → shard input t ≡ shard original (nth rows.available t)
    input_front t lt =
        get_or_front rows.input chosen.input t (omega (arith, split.left.same))
        ∙ split.left.inputs t lt

    input_back :
        (t : ℕ)
        → t < length chosen.used
        → shard input (length rows.available + t) ≡ shard parity (nth chosen.used t)
    input_back t lt =
        get_or_back (length rows.available) rows.input chosen.input t split.left.same
        ∙ choice.rows.inputs t lt

    pub length-input : length input ≡ c.parity_matrix.columns
    length-input =
        omega
          (arith, length-append rows.input chosen.input, split.left.same, choice.rows.same, full)

    chosen_product :
        (t : ℕ)
        → t < length chosen.used
        → IsShard n (shard parity (nth chosen.used t))
          × ((p : ℕ)
              → p < n
              → word (shard parity (nth chosen.used t)) p
                ≡ dot
                    (length original)
                    (entry c.parity_matrix (0 + nth chosen.used t))
                    (column original p))
    chosen_product t lt =
        product_at n c.parity_matrix original 0 parity (nth chosen.used t) h.products
          (omega (arith, choice.rows.below t lt, hp.0))

    pub input_shards : AreShards n input
    input_shards = shards_from n input (λ j lt. elim (Bool-cases (ltb j (length rows.available))) [
      | inl front ↦
          let less = ltb→lt j (length rows.available) front in
          subst (IsShard n) (sym (input_front j less)) (
            shard_at n original (nth rows.available j) h.data_shards
              (omega (arith, split.left.below j less, hd.0)))
      | inr behind ↦
          let ge = ltb→ge j (length rows.available) behind in
          let t = j - length rows.available in
          let place : length rows.available + t ≡ j = omega arith in
          let inside : t < length chosen.used = omega (arith, length-input, full) in
          subst (IsShard n) (sym (input_back t inside) ∙ ap (shard input) place)
            (chosen_product t inside).0
    ])

    pub inputs :
        (p : ℕ)
        → p < n
        → AreInputs c.parity_matrix rows.available chosen.used (column original p) (column input p)
    inputs p hpn = record {
      data_short = column-Short n original p h.data_shards;
      short = column-Short n input p input_shards;
      of_data = λ t lt. ap (λ xs. word xs p) (input_front t lt);
      of_parity = λ t lt.
          let same_row : 0 + nth chosen.used t ≡ nth chosen.used t = omega arith in
          ap (λ xs. word xs p) (input_back t lt)
          ∙ (chosen_product t lt).1 p hpn
          ∙ ap₂ (λ k r. dot k (entry c.parity_matrix r) (column original p)) h.data_size same_row;
    }
