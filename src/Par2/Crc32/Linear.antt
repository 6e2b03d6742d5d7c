-- ===== src/Par2/Crc32/Linear.antt =====
-- The state of the checksum is linear in its start and in the bytes.
use gopar_turbo.Base.{
  ℕ, zero, suc, ◌+◌, ◌/◌, ◌%◌, ◌^◌, ◌≡◌, refl, sym, ◌∙◌, ap, ap₂, arith, ◌==◌, if◌then◌else◌, List,
  [], ◌∷◌, length, replicate,
}
use gopar_turbo.Bits.{◌⊕◌}
use gopar_turbo.Bits.Xor.{xor-zero, xor_half, xor_parity, xor_mod, xor_interchange}
use gopar_turbo.Par2.Crc32.{ieee_round, ieee_rounds, ieee_table, simple_step, simple_update}

ieee_round_even : (x : ℕ) → x % 2 ≡ 0 → ieee_round x ≡ x / 2
unfolding ieee_round
ieee_round_even x h = ground arith

ieee_round_odd : (x : ℕ) → x % 2 ≡ 1 → ieee_round x ≡ x / 2 ⊕ 0xedb88320
unfolding ieee_round
ieee_round_odd x h = ground arith

ieee_round_lem : (x : ℕ) → ieee_round x ≡ x / 2 ⊕ (if x % 2 == 1 then 0xedb88320 else 0)
unfolding ieee_round
ieee_round_lem x = ground (arith, xor-zero (x / 2))

parity_term :
    (p q : ℕ)
    → p % 2 ≡ p
    → q % 2 ≡ q
    → (if (p + q) % 2 == 1 then 0xedb88320 else 0)
      ≡ (if p == 1 then 0xedb88320 else 0) ⊕ (if q == 1 then 0xedb88320 else 0)
parity_term zero zero hp hq = refl
parity_term zero (suc zero) hp hq = refl
parity_term (suc zero) zero hp hq = refl
parity_term (suc zero) (suc zero) hp hq = refl
parity_term (suc (suc p)) q hp hq = absurd (omega arith)
parity_term p (suc (suc q)) hp hq = absurd (omega arith)

ieee_round-xor : (x y : ℕ) → ieee_round (x ⊕ y) ≡ ieee_round x ⊕ ieee_round y
ieee_round-xor x y =
    ieee_round_lem (x ⊕ y)
    ∙ ap₂ ◌⊕◌ (xor_half x y) (
        ap (λ (t : ℕ). if t == 1 then 0xedb88320 else 0) (xor_parity x y)
        ∙ parity_term (x % 2) (y % 2) (omega arith) (omega arith))
    ∙ xor_interchange _ _ _ _
    ∙ sym (ap₂ ◌⊕◌ (ieee_round_lem x) (ieee_round_lem y))

ieee_rounds-xor : (n x y : ℕ) → ieee_rounds n (x ⊕ y) ≡ ieee_rounds n x ⊕ ieee_rounds n y
unfolding ieee_rounds
ieee_rounds-xor zero x y = refl
ieee_rounds-xor (suc n) x y =
    ap (ieee_rounds n) (ieee_round-xor x y) ∙ ieee_rounds-xor n (ieee_round x) (ieee_round y)

ieee_table-xor : (x y : ℕ) → ieee_table (x ⊕ y) ≡ ieee_table x ⊕ ieee_table y
unfolding ieee_table
ieee_table-xor x y = ieee_rounds-xor 8 x y

-- Halves, eight times.
halved : ℕ → ℕ → ℕ
halved zero x = x
halved (suc n) x = halved n (x / 2)

halved-xor : (n x y : ℕ) → halved n (x ⊕ y) ≡ halved n x ⊕ halved n y
unfolding halved
halved-xor zero x y = refl
halved-xor (suc n) x y = ap (halved n) (xor_half x y) ∙ halved-xor n (x / 2) (y / 2)

halved_byte : (x : ℕ) → halved 8 x ≡ x / 2 ^ 8
unfolding halved
halved_byte x = omega arith

byte-xor : (x y : ℕ) → (x ⊕ y) / 2 ^ 8 ≡ x / 2 ^ 8 ⊕ y / 2 ^ 8
byte-xor x y =
    sym (halved_byte (x ⊕ y)) ∙ halved-xor 8 x y ∙ ap₂ ◌⊕◌ (halved_byte x) (halved_byte y)

pub simple_step-xor :
    (s t a b : ℕ) → simple_step (s ⊕ t) (a ⊕ b) ≡ simple_step s a ⊕ simple_step t b
unfolding simple_step
simple_step-xor s t a b =
    ap₂ ◌⊕◌
      (ap ieee_table (ap (λ (u : ℕ). u ⊕ (a ⊕ b)) (xor_mod 8 s t) ∙ xor_interchange _ _ _ _)
        ∙ ieee_table-xor _ _)
      (byte-xor s t)
    ∙ xor_interchange _ _ _ _

-- The bytes of two lists of one length, added.
abbrev pub xor_bytes : List ℕ → List ℕ → List ℕ
xor_bytes (x ∷ xs) (y ∷ ys) = (x ⊕ y) ∷ xor_bytes xs ys
xor_bytes _ _ = []

pub simple_update-xor :
    (s t : ℕ) (xs ys : List ℕ)
    → length xs ≡ length ys
    → simple_update (s ⊕ t) (xor_bytes xs ys) ≡ simple_update s xs ⊕ simple_update t ys
unfolding simple_update
simple_update-xor s t [] [] e = refl
simple_update-xor s t [] (y ∷ ys) e = absurd (omega arith)
simple_update-xor s t (x ∷ xs) [] e = absurd (omega arith)
simple_update-xor s t (x ∷ xs) (y ∷ ys) e =
    ap (λ u. simple_update u (xor_bytes xs ys)) (simple_step-xor s t x y)
    ∙ simple_update-xor (simple_step s x) (simple_step t y) xs ys (omega arith)

pub xor_bytes-replicate : (xs : List ℕ) (n : ℕ) → length xs ≡ n → xor_bytes xs (replicate n 0) ≡ xs
xor_bytes-replicate [] zero e = refl
xor_bytes-replicate [] (suc n) e = absurd (omega arith)
xor_bytes-replicate (x ∷ xs) zero e = absurd (omega arith)
xor_bytes-replicate (x ∷ xs) (suc n) e =
    ap₂ ◌∷◌ (xor-zero x) (xor_bytes-replicate xs n (omega arith))
