-- ===== src/Rsec16/Coder/Generators.antt =====
-- rsec16/coder.go: the table of generators that `init` leaves.
use gopar_turbo.Base.{
  ℕ, zero, suc, ◌+◌, ◌%◌, ◌^◌, ◌≤◌, ◌<◌, ◌≡◌, ◌≢◌, refl, ◌∙◌, ap, arith, Bool, true, false, ◌||◌,
  ◌==◌, if◌then◌else◌, inl, inr, Bool-cases, List, [], ◌∷◌, length, get_or,
}
use gopar_turbo.Gf2p16
use gopar_turbo.Gf2p16.Field.{repeated, pow-repeated}
use gopar_turbo.Rsec16.Coder.{collect_generators, generators}
use gopar_turbo.Rsec16.Coder.Order.{IsGenerator, IsPrimeTo, repeated-IsGenerator}

abbrev skips : ℕ → Bool
skips i = i % 3 == 0 || (i % 5 == 0 || (i % 17 == 0 || i % 257 == 0))

-- The exponents of the table.
exponents : ℕ → ℕ → List ℕ
exponents zero i = []
exponents (suc rounds) i = let rest = exponents rounds (i + 1) in if skips i then rest else i ∷ rest

length-exponents : length (exponents (2 ^ 16) 0) ≡ 2 ^ 15
unfolding exponents
length-exponents = refl

-- Element `j` of the table is the power of 2 with the exponent `j`, of as many.
collect_generators-exponents :
    (rounds i j : ℕ)
    → i + rounds ≤ 2 ^ 16
    → j < length (exponents rounds i)
    → get_or (collect_generators rounds i) j 0 ≡ repeated 2 (get_or (exponents rounds i) j 0)
unfolding collect_generators exponents
collect_generators-exponents zero i j h lt = absurd (omega arith)
collect_generators-exponents (suc rounds) i j h lt = elim (Bool-cases (skips i)) [
  | inl skip ↦ rw skip (collect_generators-exponents rounds (i + 1) j (omega arith) (rw skip at lt))
  | inr keep ↦ rw keep (
      cons_exponent j (rw keep at lt)
        (λ j lt. collect_generators-exponents rounds (i + 1) j (omega arith) lt))
]
  where
    cons_exponent :
        (j : ℕ)
        → j < length (i ∷ exponents rounds (i + 1))
        → ((j : ℕ)
            → j < length (exponents rounds (i + 1))
            → get_or (collect_generators rounds (i + 1)) j 0
              ≡ repeated 2 (get_or (exponents rounds (i + 1)) j 0))
        → get_or (Gf2p16.pow 2 i ∷ collect_generators rounds (i + 1)) j 0
          ≡ repeated 2 (get_or (i ∷ exponents rounds (i + 1)) j 0)
    cons_exponent zero lt k = pow-repeated 2 i (omega arith) (omega arith)
    cons_exponent (suc j) lt k = k j (omega arith)

length-collect_generators :
    (rounds i : ℕ) → length (collect_generators rounds i) ≡ length (exponents rounds i)
unfolding collect_generators exponents
length-collect_generators zero i = refl
length-collect_generators (suc rounds) i = elim (Bool-cases (skips i)) [
  | inl skip ↦ rw skip (length-collect_generators rounds (i + 1))
  | inr keep ↦ rw keep (ap suc (length-collect_generators rounds (i + 1)))
]

-- The table has 2 ^ 15 elements.
pub length-generators : length generators ≡ 2 ^ 15
unfolding generators
length-generators = length-collect_generators (2 ^ 16) 0 ∙ length-exponents

-- What element `j` of `exponents rounds i` is.
record IsExponent (rounds i e : ℕ) : Type 0 where
  above : i ≤ e
  below : e < i + rounds
  prime_to : IsPrimeTo e

neither : (a b : Bool) → (a || b) ≡ false → (a ≡ false) × (b ≡ false)
neither true b h = absurd cc
neither false b h = (refl, h)

==_false : (a : ℕ) → (a == 0) ≡ false → a ≢ 0
==_false a h e = ground arith

later-IsExponent : (rounds i e : ℕ) → IsExponent rounds (i + 1) e → IsExponent (suc rounds) i e
later-IsExponent rounds i e h = record {
  above = omega (arith, h.above);
  below = omega (arith, h.below);
  prime_to = h.prime_to;
}

kept-IsPrimeTo : (i : ℕ) → skips i ≡ false → IsPrimeTo i
kept-IsPrimeTo i h =
    let (a, rest) = neither (i % 3 == 0) _ h in
    let (b, rest') = neither (i % 5 == 0) _ rest in
    let (c, d) = neither (i % 17 == 0) _ rest' in
    record {
      by_3 = ==_false (i % 3) a;
      by_5 = ==_false (i % 5) b;
      by_17 = ==_false (i % 17) c;
      by_257 = ==_false (i % 257) d;
    }

exponents-IsExponent :
    (rounds i j : ℕ)
    → j < length (exponents rounds i)
    → IsExponent rounds i (get_or (exponents rounds i) j 0)
unfolding exponents
exponents-IsExponent zero i j lt = absurd (omega arith)
exponents-IsExponent (suc rounds) i j lt = elim (Bool-cases (skips i)) [
  | inl skip ↦ rw skip (
      later-IsExponent rounds i (get_or (exponents rounds (i + 1)) j 0)
        (exponents-IsExponent rounds (i + 1) j (rw skip at lt)))
  | inr keep ↦ rw keep (
      at_place j (rw keep at lt)
        (record { above = omega arith; below = omega arith; prime_to = kept-IsPrimeTo i keep })
        (λ j lt. exponents-IsExponent rounds (i + 1) j lt))
]
  where
    at_place :
        (j : ℕ)
        → j < length (i ∷ exponents rounds (i + 1))
        → IsExponent (suc rounds) i i
        → ((j : ℕ)
            → j < length (exponents rounds (i + 1))
            → IsExponent rounds (i + 1) (get_or (exponents rounds (i + 1)) j 0))
        → IsExponent (suc rounds) i (get_or (i ∷ exponents rounds (i + 1)) j 0)
    at_place zero lt h k = h
    at_place (suc j) lt h k =
        later-IsExponent rounds i (get_or (exponents rounds (i + 1)) j 0) (k j (omega arith))

exponents_ascend :
    (rounds i j k : ℕ)
    → j < k
    → k < length (exponents rounds i)
    → get_or (exponents rounds i) j 0 < get_or (exponents rounds i) k 0
unfolding exponents
exponents_ascend zero i j k lt h = absurd (omega arith)
exponents_ascend (suc rounds) i j k lt h = elim (Bool-cases (skips i)) [
  | inl skip ↦ rw skip (exponents_ascend rounds (i + 1) j k lt (rw skip at h))
  | inr keep ↦
      rw keep
        (at_places j k lt (rw keep at h) (λ j k lt h. exponents_ascend rounds (i + 1) j k lt h))
]
  where
    at_places :
        (j k : ℕ)
        → j < k
        → k < length (i ∷ exponents rounds (i + 1))
        → ((j k : ℕ)
            → j < k
            → k < length (exponents rounds (i + 1))
            → get_or (exponents rounds (i + 1)) j 0 < get_or (exponents rounds (i + 1)) k 0)
        → get_or (i ∷ exponents rounds (i + 1)) j 0 < get_or (i ∷ exponents rounds (i + 1)) k 0
    at_places j zero lt h l = absurd (omega arith)
    at_places zero (suc k) lt h l =
        let e = exponents-IsExponent rounds (i + 1) k (omega arith) in omega (arith, e.above)
    at_places (suc j) (suc k) lt h l = l j k (omega arith) (omega arith)

-- The exponent of element `j`.
pub exponent : ℕ → ℕ
exponent j = get_or (exponents (2 ^ 16) 0) j 0

pub generators-exponent : (j : ℕ) → j < 2 ^ 15 → get_or generators j 0 ≡ repeated 2 (exponent j)
unfolding generators exponent
generators-exponent j h =
    collect_generators-exponents (2 ^ 16) 0 j (omega arith) (omega (arith, length-exponents))

pub exponent-lt : (j : ℕ) → j < 2 ^ 15 → exponent j < 2 ^ 16
unfolding exponent
exponent-lt j h =
    let e = exponents-IsExponent (2 ^ 16) 0 j (omega (arith, length-exponents)) in
    omega (arith, e.below)

pub exponent-IsGenerator : (j : ℕ) → j < 2 ^ 15 → IsGenerator (repeated 2 (exponent j))
unfolding exponent
exponent-IsGenerator j h =
    let e = exponents-IsExponent (2 ^ 16) 0 j (omega (arith, length-exponents)) in
    repeated-IsGenerator (exponent j) e.prime_to

pub exponent_ascend : (j k : ℕ) → j < k → k < 2 ^ 15 → exponent j < exponent k
unfolding exponent
exponent_ascend j k lt h = exponents_ascend (2 ^ 16) 0 j k lt (omega (arith, length-exponents))
