-- ===== src/Par2/Crc32/Table.antt =====
-- The masked table: the checksums of a byte followed by zeros, put together from those of its bits.
use gopar_turbo.Base.{
  ℕ, zero, suc, ◌+◌, ◌*◌, ◌/◌, ◌%◌, ◌^◌, ◌<◌, ◌≡◌, refl, sym, ◌∙◌, ap, ap₂, arith, ◌==◌, Bool-cases,
  ==_iff, inl, inr, ◌⊎◌, subst, if◌then◌else◌, true, false, ◌∷◌, length-replicate, replicate,
}
use gopar_turbo.Bits.{◌⊕◌}
use gopar_turbo.Bits.Xor.{
  zero-xor, xor-zero, xor_self, xor_interchange, xor_assoc, xor_comm, xor_fields,
}
use gopar_turbo.Par2.Crc32.{
  simple_update, complement, checksum_ieee, BitSum, add_bits, masked_entry,
}
use gopar_turbo.Par2.Crc32.Linear.{xor_bytes, simple_update-xor, xor_bytes-replicate}
use native.Mathlib.Nat.{
  mul-add-mod_self_right, mod-eq_of_lt, div-add-mod', mod-lt, pow-suc, one-le-pow,
}

bit_fits : (b p r : ℕ) → b < 2 → r < p → b * p + r < p * 2
bit_fits zero p r hb hr = omega arith
bit_fits (suc zero) p r hb hr = omega arith
bit_fits (suc (suc b)) p r hb hr = absurd (omega arith)

power_positive : (j : ℕ) → 0 < 2 ^ j
power_positive j = one-le-pow j 2 (omega arith)

split_digit : (i j : ℕ) → i % 2 ^ suc j ≡ (i / 2 ^ j % 2) * 2 ^ j + i % 2 ^ j
split_digit i j =
    let P = 2 ^ j in
    let q = i / P in
    ap (λ (t : ℕ). t % 2 ^ suc j) {x = i} {y = q / 2 * 2 ^ suc j + (q % 2 * P + i % P)}
      (omega (
        arith,
        div-add-mod' i P,
        pow-suc 2 j,
        ap (λ (t : ℕ). t * P) {x = q} {y = 2 * (q / 2) + q % 2} (omega arith),
        ap (λ (t : ℕ). q / 2 * t) (pow-suc 2 j),
      ))
    ∙ mul-add-mod_self_right (q / 2) (2 ^ suc j) (q % 2 * P + i % P)
    ∙ mod-eq_of_lt (
        omega (
          arith,
          pow-suc 2 j,
          bit_fits (q % 2) P (i % P) (omega arith) (mod-lt i (power_positive j)),
        ))

digit_set : (i j : ℕ) → i / 2 ^ j % 2 ≡ 1 → i % 2 ^ suc j ≡ 2 ^ j ⊕ i % 2 ^ j
digit_set i j h =
    split_digit i j
    ∙ ap (λ (t : ℕ). t * 2 ^ j + i % 2 ^ j) h
    ∙ sym (xor_fields j 1 (i % 2 ^ j) (mod-lt i (power_positive j)))
    ∙ ap (λ (t : ℕ). t ⊕ i % 2 ^ j) {x = 1 * 2 ^ j} {y = 2 ^ j} (omega arith)

digit_clear : (i j : ℕ) → i / 2 ^ j % 2 ≡ 0 → i % 2 ^ suc j ≡ i % 2 ^ j
digit_clear i j h = split_digit i j ∙ ap (λ (t : ℕ). t * 2 ^ j + i % 2 ^ j) h ∙ omega arith

bit_cases : (q : ℕ) → (q % 2 ≡ 1) ⊎ (q % 2 ≡ 0)
bit_cases q = ground arith

even_total :
    (k c l f : ℕ)
    → c ≡ l ⊕ (if k % 2 == 1 then f else 0)
    → (if k % 2 == 0 then c ⊕ f else c) ≡ l ⊕ f
even_total k c l f h = elim (bit_cases k) [
  | inl odd ↦ rw odd (h ∙ rw odd refl)
  | inr even ↦ rw even (ap (λ (t : ℕ). t ⊕ f) (h ∙ rw even (xor-zero l)))
]

module _ (n : ℕ) where
  -- The checksum of a byte followed by `n` zeros, and its linear part.
  abbrev pub leader : ℕ → ℕ
  leader i = checksum_ieee (i ∷ replicate n 0)

  linear_part : ℕ → ℕ
  linear_part i = simple_update 0 (i ∷ replicate n 0)

  same_zeros : xor_bytes (replicate n 0) (replicate n 0) ≡ replicate n 0
  same_zeros = xor_bytes-replicate (replicate n 0) n (length-replicate n 0)

  linear_part-xor : (a b : ℕ) → linear_part (a ⊕ b) ≡ linear_part a ⊕ linear_part b
  unfolding linear_part
  linear_part-xor a b =
      ap₂ (λ s bs. simple_update s ((a ⊕ b) ∷ bs)) (sym (zero-xor 0)) (sym same_zeros)
      ∙ simple_update-xor 0 0 (a ∷ replicate n 0) (b ∷ replicate n 0) refl

  linear_part-zero : linear_part 0 ≡ 0
  linear_part-zero =
      ap linear_part (sym (xor_self 0)) ∙ linear_part-xor 0 0 ∙ xor_self (linear_part 0)

  leader-linear_part : (i : ℕ) → leader i ≡ linear_part i ⊕ leader 0
  unfolding linear_part checksum_ieee complement
  leader-linear_part i =
      ap (λ (t : ℕ). t ⊕ 0xffffffff)
        (ap₂ simple_update (sym (zero-xor (0 ⊕ 0xffffffff)))
            (ap₂ ◌∷◌ (sym (xor-zero i)) (sym same_zeros))
          ∙ simple_update-xor 0 (0 ⊕ 0xffffffff) (i ∷ replicate n 0) (0 ∷ replicate n 0) refl)
      ∙ xor_assoc _ _ _

  -- The sum over the bits below `j`.
  IsBitSum : ℕ → ℕ → BitSum → Type 0
  IsBitSum i j s = s.crc ≡ linear_part (i % 2 ^ j) ⊕ (if s.crc_count % 2 == 1 then leader 0 else 0)

  odd_turn : (k f : ℕ) → (if k % 2 == 1 then f else 0) ⊕ f ≡ (if (k + 1) % 2 == 1 then f else 0)
  odd_turn k f = elim (Bool-cases (k % 2 == 1)) [
    | inl odd ↦
        let last : k % 2 ≡ 1 = (==_iff (k % 2) 1).0 odd in
        let next : ((k + 1) % 2 == 1) ≡ false = ground arith in rw (odd, next) (xor_self f)
    | inr even ↦ let next : ((k + 1) % 2 == 1) ≡ true = ground arith in rw (even, next) (zero-xor f)
  ]

  next_sum : (ℕ → ℕ) → ℕ → ℕ → BitSum → BitSum
  next_sum base_table i j s =
      if i / 2 ^ j % 2 == 1
      then record { crc = s.crc ⊕ base_table j; crc_count = s.crc_count + 1 }
      else s

  next_sum-IsBitSum :
      (base_table : ℕ → ℕ) (i j : ℕ) (s : BitSum)
      → base_table j ≡ leader (2 ^ j)
      → IsBitSum i j s
      → IsBitSum i (suc j) (next_sum base_table i j s)
  unfolding next_sum IsBitSum
  next_sum-IsBitSum base_table i j s hb h = elim (bit_cases (i / 2 ^ j)) [
    | inl set ↦ rw set (
        ap₂ ◌⊕◌ h (hb ∙ leader-linear_part (2 ^ j))
        ∙ xor_interchange _ _ _ _
        ∙ ap₂ ◌⊕◌
            (xor_comm _ _
              ∙ sym (linear_part-xor (2 ^ j) (i % 2 ^ j))
              ∙ ap linear_part (sym (digit_set i j set)))
            (odd_turn s.crc_count (leader 0)))
    | inr clear ↦ rw clear (
        h
        ∙ ap (λ r. linear_part r ⊕ (if s.crc_count % 2 == 1 then leader 0 else 0))
            (sym (digit_clear i j clear)))
  ]

  add_bits-IsBitSum :
      (base_table : ℕ → ℕ) (i m j : ℕ) (s : BitSum)
      → ((k : ℕ) → base_table k ≡ leader (2 ^ k))
      → IsBitSum i j s
      → IsBitSum i (j + m) (add_bits base_table i m j s)
  unfolding add_bits next_sum
  add_bits-IsBitSum base_table i zero j s hb h =
      subst (λ k. IsBitSum i k s) {x = j} {y = j + 0} (omega arith) h
  add_bits-IsBitSum base_table i (suc m) j s hb h =
      let next : suc j ≡ j + 1 = omega arith in
      let total : (j + 1) + m ≡ j + suc m = omega arith in
      let s' = next_sum base_table i j s in
      subst (λ k. IsBitSum i k (add_bits base_table i m (j + 1) s')) total
        (add_bits-IsBitSum base_table i m (j + 1) s' hb
          (subst (λ k. IsBitSum i k s') next (next_sum-IsBitSum base_table i j s (hb j) h)))

  -- The entry of a byte is its checksum with the mask.
  pub masked_entry-leader :
      (mask : ℕ) (base_table : ℕ → ℕ) (i : ℕ)
      → ((k : ℕ) → base_table k ≡ leader (2 ^ k))
      → i < 2 ^ 8
      → masked_entry (leader 0) mask base_table i ≡ leader i ⊕ mask
  unfolding masked_entry IsBitSum
  masked_entry-leader mask base_table i hb hi =
      let s = add_bits base_table i 8 0 (record { crc = 0; crc_count = 0 }) in
      let start : 0 ≡ linear_part (i % 2 ^ 0) ⊕ 0 = sym (
        ap (λ r. linear_part r ⊕ 0) {x = i % 2 ^ 0} {y = 0} (omega arith)
        ∙ xor-zero (linear_part 0)
        ∙ linear_part-zero) in
      let sum = add_bits-IsBitSum base_table i 8 0 (record { crc = 0; crc_count = 0 }) hb start in
      let whole : i % 2 ^ (0 + 8) ≡ i = omega arith in
      let value : s.crc ≡ linear_part i ⊕ (if s.crc_count % 2 == 1 then leader 0 else 0) =
        sum ∙ ap (λ r. linear_part r ⊕ (if s.crc_count % 2 == 1 then leader 0 else 0)) whole in
      ap (λ (t : ℕ). t ⊕ mask)
        (even_total s.crc_count s.crc (linear_part i) (leader 0) value ∙ sym (leader-linear_part i))
