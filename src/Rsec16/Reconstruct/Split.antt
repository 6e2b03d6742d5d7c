-- ===== src/Rsec16/Reconstruct/Split.antt =====
-- What the first two loops of `ReconstructData` find in damaged lists of shards.
use gopar_turbo.Base.{
  ℕ, zero, suc, ◌+◌, ◌≤◌, ◌<◌, ◌≡◌, refl, sym, ◌∙◌, ap, arith, min, Option, none, some, List, [],
  ◌∷◌, length, get_or,
}
use gopar_turbo.Bits.{◌⊕◌}
use gopar_turbo.Bits.Xor.{zero-xor, xor_assoc, xor_comm}
use gopar_turbo.Rsec16.Reconstruct.{Rows, split_rows, Parity, choose_parity}
use gopar_turbo.Rsec16.Reconstruct.Sums.{total, upto}

-- Every shard from row `i` on is lost or as it was.
abbrev pub AreDamaged : (ℕ → List ℕ) → ℕ → List (Option (List ℕ)) → Type 0
AreDamaged f i [] = Unit
AreDamaged f i (none ∷ shards) = AreDamaged f (suc i) shards
AreDamaged f i (some s ∷ shards) = (s ≡ f i) × AreDamaged f (suc i) shards

-- How many shards are left.
pub count_left : List (Option (List ℕ)) → ℕ
count_left [] = 0
count_left (none ∷ shards) = count_left shards
count_left (some s ∷ shards) = suc (count_left shards)

-- The listed rows are rows, and the inputs are their shards.
pub record AreRows (f : ℕ → List ℕ) (bound : ℕ) (rows : List ℕ) (input : List (List ℕ))
    : Type 0 where
  pub same : length input ≡ length rows
  pub below : (t : ℕ) → t < length rows → get_or rows t 0 < bound
  pub inputs : (t : ℕ) → t < length rows → get_or input t [] ≡ f (get_or rows t 0)

pub record IsSplitting (f : ℕ → List ℕ) (i : ℕ) (shards : List (Option (List ℕ))) (rows : Rows)
    : Type 0 where
  pub left : AreRows f (i + length shards) rows.available rows.input
  pub count : length rows.available ≡ count_left shards
  pub all : length rows.available + length rows.missing ≡ length shards
  pub below : (t : ℕ) → t < length rows.missing → get_or rows.missing t 0 < i + length shards
  pub sums :
      (g : ℕ → ℕ) → total g (upto i (length shards)) ≡ total g rows.available ⊕ total g rows.missing

cons-below :
    (i bound bound' : ℕ) (rows : List ℕ)
    → i < bound'
    → bound ≤ bound'
    → ((t : ℕ) → t < length rows → get_or rows t 0 < bound)
    → (t : ℕ) → t < length (i ∷ rows)
    → get_or (i ∷ rows) t 0 < bound'
cons-below i bound bound' rows lt le h zero ht = lt
cons-below i bound bound' rows lt le h (suc t) ht = omega (arith, h t (omega arith))

cons-AreRows :
    (f : ℕ → List ℕ) (i bound bound' : ℕ) (s : List ℕ) (rows : List ℕ) (input : List (List ℕ))
    → s ≡ f i
    → i < bound'
    → bound ≤ bound'
    → AreRows f bound rows input
    → AreRows f bound' (i ∷ rows) (s ∷ input)
cons-AreRows f i bound bound' s rows input e lt le a = record {
  same = ap suc a.same;
  below = cons-below i bound bound' rows lt le a.below;
  inputs = inputs';
}
  where
    inputs' : (t : ℕ) → t < length (i ∷ rows) → get_or (s ∷ input) t [] ≡ f (get_or (i ∷ rows) t 0)
    inputs' zero h = e
    inputs' (suc t) h = a.inputs t (omega arith)

pub split_rows-IsSplitting :
    (f : ℕ → List ℕ) (i : ℕ) (shards : List (Option (List ℕ)))
    → AreDamaged f i shards
    → IsSplitting f i shards (split_rows i shards)
unfolding split_rows count_left
split_rows-IsSplitting f i [] d = record {
  left = record {
    same = refl;
    below = λ t h. absurd (omega arith);
    inputs = λ t h. absurd (omega arith);
  };
  count = refl;
  all = refl;
  below = λ t h. absurd (omega arith);
  sums = λ g. sym (zero-xor 0);
}
split_rows-IsSplitting f i (some s ∷ shards) d =
    let next : i + 1 ≡ suc i = omega arith in
    let r = split_rows-IsSplitting f (suc i) shards d.1 in
    rw next (record {
      left =
          cons-AreRows f i (suc i + length shards) _ s _ _ d.0 (omega arith) (omega arith) r.left;
      count = ap suc r.count;
      all = omega (arith, r.all);
      below = λ t h. omega (arith, r.below t h);
      sums = λ g. ap (λ (x : ℕ). g i ⊕ x) (r.sums g) ∙ sym (xor_assoc _ _ _);
    })
split_rows-IsSplitting f i (none ∷ shards) d =
    let next : i + 1 ≡ suc i = omega arith in
    let r = split_rows-IsSplitting f (suc i) shards d in
    rw next (record {
      left = record {
        same = r.left.same;
        below = λ t h. omega (arith, r.left.below t h);
        inputs = r.left.inputs;
      };
      count = r.count;
      all = omega (arith, r.all);
      below =
          cons-below i (suc i + length shards) (i + suc (length shards)) _ (omega arith)
            (omega arith) r.below;
      sums = λ g.
          ap (λ (x : ℕ). g i ⊕ x) (r.sums g ∙ xor_comm _ _) ∙ sym (xor_assoc _ _ _) ∙ xor_comm _ _;
    })

pub record IsChoice (f : ℕ → List ℕ) (wanted i : ℕ) (shards : List (Option (List ℕ)))
    (parity : Parity) : Type 0 where
  pub rows : AreRows f (i + length shards) parity.used parity.input
  pub count : length parity.used ≡ min wanted (count_left shards)

empty-AreRows : (f : ℕ → List ℕ) (bound : ℕ) → AreRows f bound [] []
empty-AreRows f bound = record {
  same = refl;
  below = λ t h. absurd (omega arith);
  inputs = λ t h. absurd (omega arith);
}

pub choose_parity-IsChoice :
    (f : ℕ → List ℕ) (wanted i : ℕ) (shards : List (Option (List ℕ)))
    → AreDamaged f i shards
    → IsChoice f wanted i shards (choose_parity wanted i shards)
unfolding choose_parity count_left
choose_parity-IsChoice f zero i shards d = record { rows = empty-AreRows f _; count = omega arith }
choose_parity-IsChoice f (suc wanted) i [] d = record {
  rows = empty-AreRows f _;
  count = omega arith;
}
choose_parity-IsChoice f (suc wanted) i (none ∷ shards) d =
    let next : i + 1 ≡ suc i = omega arith in
    let r = choose_parity-IsChoice f (suc wanted) (suc i) shards d in
    rw next (record {
      rows = record {
        same = r.rows.same;
        below = λ t h. omega (arith, r.rows.below t h);
        inputs = r.rows.inputs;
      };
      count = r.count;
    })
choose_parity-IsChoice f (suc wanted) i (some s ∷ shards) d =
    let next : i + 1 ≡ suc i = omega arith in
    let r = choose_parity-IsChoice f wanted (suc i) shards d.1 in
    rw next (record {
      rows =
          cons-AreRows f i (suc i + length shards) _ s _ _ d.0 (omega arith) (omega arith) r.rows;
      count = omega (arith, r.count);
    })
