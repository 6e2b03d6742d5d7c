-- ===== src/Par2/Runes.antt =====
-- The runes that a loop over a string of par2/string.go goes through: UTF-8, as the language has it.
use gopar_turbo.Base.{
  ℕ, ◌%◌, ◌+◌, ◌*◌, ◌≤◌, ◌<◌, ◌≡◌, ◌≢◌, refl, arith, Bool, true, false, ◌&&◌, ◌==◌, leb, get_or,
  if◌then◌else◌, List, [], ◌∷◌, Bool-cases, inl, inr, leb→le, le→leb,
}

-- A byte from `low` to `high`; past the end of the string it is 0.
is_between : ℕ → ℕ → ℕ → Bool
is_between low high b = leb low b && leb b high

is_continuation : ℕ → Bool
is_continuation b = is_between 128 191 b

-- The bounds of a second byte after `b` in three and in four bytes.
second_of_three : ℕ → ℕ → Bool
second_of_three b b1 = is_between (if b == 224 then 160 else 128) (if b == 237 then 159 else 191) b1

second_of_four : ℕ → ℕ → Bool
second_of_four b b1 = is_between (if b == 240 then 144 else 128) (if b == 244 then 143 else 191) b1

-- The rune at the start of a string by the rules of UTF-8, with its number of bytes: U+FFFD of one
-- byte where the string is not UTF-8.
pub decode_rune : List ℕ → ℕ × ℕ
decode_rune [] = (65533, 1)
decode_rune (b ∷ bs) =
    let b1 = get_or bs 0 0 in
    let b2 = get_or bs 1 0 in
    let b3 = get_or bs 2 0 in
    if leb b 127
    then (b, 1)
    else if is_between 194 223 b && is_continuation b1
    then (b % 32 * 64 + b1 % 64, 2)
    else if is_between 224 239 b && (second_of_three b b1 && is_continuation b2)
    then (b % 16 * 4096 + b1 % 64 * 64 + b2 % 64, 3)
    else if is_between 240 244 b
        && (second_of_four b b1 && (is_continuation b2 && is_continuation b3))
    then (b % 8 * 262144 + b1 % 64 * 4096 + b2 % 64 * 64 + b3 % 64, 4)
    else (65533, 1)

pub decode_rune-ascii : (b : ℕ) (s : List ℕ) → b ≤ 127 → decode_rune (b ∷ s) ≡ (b, 1)
unfolding decode_rune
decode_rune-ascii b s h = rw (le→leb b 127 h) refl

pub gt→leb : (a b : ℕ) → b < a → leb a b ≡ false
gt→leb a b h = ground arith

pub leb→gt : (a b : ℕ) → leb a b ≡ false → b < a
leb→gt a b h = ground arith

==_false : (a b : ℕ) → (a == b) ≡ false → a ≢ b
==_false a b h e = ground arith

and_both : (a b : Bool) → (a && b) ≡ true → (a ≡ true) × (b ≡ true)
and_both true b h = (refl, h)
and_both false b h = absurd cc

is_between-bounds : (low high b : ℕ) → is_between low high b ≡ true → (low ≤ b) × (b ≤ high)
unfolding is_between
is_between-bounds low high b h =
    let (l, r) = and_both (leb low b) (leb b high) h in (leb→le low b l, leb→le b high r)

choice_low : (t : Bool) (x y b : ℕ) → (if t then x else y) ≤ b → t ≡ true → x ≤ b
choice_low true x y b h e = h
choice_low false x y b h e = absurd cc

choice_high : (t : Bool) (x y b z : ℕ) → b ≤ (if t then x else y) → x ≤ z → y ≤ z → b ≤ z
choice_high true x y b z h k l = omega arith
choice_high false x y b z h k l = omega arith

-- The runes of more than one byte.
wide_two : (b b1 : ℕ) → is_between 194 223 b ≡ true → 127 < b % 32 * 64 + b1 % 64
wide_two b b1 h = let k = is_between-bounds 194 223 b h in omega (arith, k.0, k.1)

wide_three :
    (b b1 b2 : ℕ)
    → is_between 224 239 b ≡ true
    → second_of_three b b1 ≡ true
    → 127 < b % 16 * 4096 + b1 % 64 * 64 + b2 % 64
unfolding second_of_three
wide_three b b1 b2 h k =
    let (low, high) = is_between-bounds 224 239 b h in
    let (l, r) =
      is_between-bounds (if b == 224 then 160 else 128) (if b == 237 then 159 else 191) b1 k in
    let top = choice_high (b == 237) 159 191 b1 191 r (omega arith) (omega arith) in
    elim (Bool-cases (b == 224)) [
      | inl first ↦ let from = choice_low (b == 224) 160 128 b1 l first in omega arith
      | inr later ↦ let ne = ==_false b 224 later in omega arith
    ]

wide_four :
    (b b1 b2 b3 : ℕ)
    → is_between 240 244 b ≡ true
    → second_of_four b b1 ≡ true
    → 127 < b % 8 * 262144 + b1 % 64 * 4096 + b2 % 64 * 64 + b3 % 64
unfolding second_of_four
wide_four b b1 b2 b3 h k =
    let (low, high) = is_between-bounds 240 244 b h in
    let (l, r) =
      is_between-bounds (if b == 240 then 144 else 128) (if b == 244 then 143 else 191) b1 k in
    let top = choice_high (b == 244) 143 191 b1 191 r (omega arith) (omega arith) in
    elim (Bool-cases (b == 240)) [
      | inl first ↦ let from = choice_low (b == 240) 144 128 b1 l first in omega arith
      | inr later ↦ let ne = ==_false b 240 later in omega arith
    ]

pub decode_rune-wide : (b : ℕ) (s : List ℕ) → 127 < b → 127 < (decode_rune (b ∷ s)).0
unfolding decode_rune
decode_rune-wide b s h =
    let b1 = get_or s 0 0 in
    let b2 = get_or s 1 0 in
    let b3 = get_or s 2 0 in
    let two = is_between 194 223 b && is_continuation b1 in
    let three = is_between 224 239 b && (second_of_three b b1 && is_continuation b2) in
    let four =
      is_between 240 244 b && (second_of_four b b1 && (is_continuation b2 && is_continuation b3)) in
    rw (gt→leb b 127 h) (
      pick two _ _ (λ e. wide_two b b1 (and_both (is_between 194 223 b) _ e).0)
        (pick three _ _
          (λ e.
            let (p, q) = and_both (is_between 224 239 b) _ e in
            wide_three b b1 b2 p (and_both (second_of_three b b1) _ q).0)
          (pick four _ _
            (λ e.
              let (p, q) = and_both (is_between 240 244 b) _ e in
              wide_four b b1 b2 b3 p (and_both (second_of_four b b1) _ q).0)
            (omega arith))))
  where
    pick :
        (t : Bool) (x y : ℕ × ℕ) → (t ≡ true → 127 < x.0) → 127 < y.0 → 127 < (if t then x else y).0
    pick true x y h k = h refl
    pick false x y h k = k
