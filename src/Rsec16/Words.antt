-- ===== src/Rsec16/Words.antt =====
-- The 16-bit words of byte slices, one by one, and what slicing and multiplication do to them.
use gopar_turbo.Base.{
  ℕ, zero, suc, ◌+◌, ◌-◌, ◌*◌, ◌^◌, ◌<◌, ◌≡◌, refl, sym, ◌∙◌, ap, arith, ltb, if◌then◌else◌, List,
  [], ◌∷◌, ◌++◌, map, some, length, get_or, take, drop, subst,
}
use gopar_turbo.Bits.{◌⊕◌}
use gopar_turbo.Gf2p16.{times, plus}
use gopar_turbo.Gf2p16.Field.{times-zero}
use gopar_turbo.Gf2p16.Slice.{mul_byte_slice_le, mul_and_add_byte_slice_le}
use gopar_turbo.Gf2p16.Slice.Shape.{HasShape, mul-HasShape, mul_and_add-HasShape}
use gopar_turbo.Gf2p16.Slice.Products.{
  Bytes, words, add_front, words-mul_byte_slice_le, words-mul_and_add_byte_slice_le,
}

-- Word `p` of a slice; 0 behind its end.
abbrev pub word : List ℕ → ℕ → ℕ
word xs p = get_or (words xs) p 0

pub word-lt : (xs : List ℕ) (p : ℕ) → Bytes xs → word xs p < 2 ^ 16
unfolding words
word-lt [] p h = omega arith
word-lt (a ∷ []) p h = omega arith
word-lt (a ∷ b ∷ xs) zero h = omega (arith, h.0, h.1.0)
word-lt (a ∷ b ∷ xs) (suc p) h = word-lt xs p h.1.1

pub word_append :
    (a : ℕ) (xs ys : List ℕ) (p : ℕ)
    → length xs ≡ 2 * a
    → word (xs ++ ys) p ≡ (if ltb p a then word xs p else word ys (p - a))
unfolding words
word_append zero [] ys p e = ground arith
word_append zero (x ∷ xs) ys p e = absurd (omega arith)
word_append (suc a) [] ys p e = absurd (omega arith)
word_append (suc a) (x ∷ []) ys p e = absurd (omega arith)
word_append (suc a) (x ∷ y ∷ xs) ys zero e = ground arith
word_append (suc a) (x ∷ y ∷ xs) ys (suc p) e =
    let test : ltb (suc p) (suc a) ≡ ltb p a = ground arith in
    let less : suc p - suc a ≡ p - a = omega arith in
    rw (test, less) (word_append a xs ys p (omega arith))

pub word-drop : (a m : ℕ) (xs : List ℕ) (p : ℕ) → m ≡ 2 * a → word (drop m xs) p ≡ word xs (a + p)
unfolding words
word-drop zero m xs p e =
    let e' : m ≡ 0 = omega arith in let q : p ≡ 0 + p = omega arith in rw e' (ap (word xs) q)
word-drop (suc a) zero xs p e = absurd (omega arith)
word-drop (suc a) (suc zero) xs p e = absurd (omega arith)
word-drop (suc a) (suc (suc m)) [] p e = refl
word-drop (suc a) (suc (suc m)) (x ∷ []) p e = refl
word-drop (suc a) (suc (suc m)) (x ∷ y ∷ xs) p e =
    let next : suc a + p ≡ suc (a + p) = omega arith in rw next (word-drop a m xs p (omega arith))

pub word-take : (a m : ℕ) (xs : List ℕ) (p : ℕ) → m ≡ 2 * a → p < a → word (take m xs) p ≡ word xs p
unfolding words
word-take zero m xs p e h = absurd (omega arith)
word-take (suc a) zero xs p e h = absurd (omega arith)
word-take (suc a) (suc zero) xs p e h = absurd (omega arith)
word-take (suc a) (suc (suc m)) [] p e h = refl
word-take (suc a) (suc (suc m)) (x ∷ []) p e h = refl
word-take (suc a) (suc (suc m)) (x ∷ y ∷ xs) zero e h = refl
word-take (suc a) (suc (suc m)) (x ∷ y ∷ xs) (suc p) e h =
    word-take a m xs p (omega arith) (omega arith)

pub take-Bytes : (n : ℕ) (xs : List ℕ) → Bytes xs → Bytes (take n xs)
take-Bytes zero xs h = tt
take-Bytes (suc n) [] h = tt
take-Bytes (suc n) (x ∷ xs) h = (h.0, take-Bytes n xs h.1)

pub drop-Bytes : (n : ℕ) (xs : List ℕ) → Bytes xs → Bytes (drop n xs)
drop-Bytes zero xs h = h
drop-Bytes (suc n) [] h = tt
drop-Bytes (suc n) (x ∷ xs) h = drop-Bytes n xs h.1

pub append-Bytes : (xs ys : List ℕ) → Bytes xs → Bytes ys → Bytes (xs ++ ys)
append-Bytes [] ys h k = k
append-Bytes (x ∷ xs) ys h k = (h.0, append-Bytes xs ys h.1 k)

get_or-map : (c : ℕ) (xs : List ℕ) (p : ℕ) → get_or (map (times c) xs) p 0 ≡ times c (get_or xs p 0)
get_or-map c [] p = sym (times-zero c)
get_or-map c (x ∷ xs) zero = refl
get_or-map c (x ∷ xs) (suc p) = get_or-map c xs p

get_or-add_front :
    (xs ys : List ℕ) (p : ℕ)
    → length xs ≡ length ys
    → get_or (add_front xs ys) p 0 ≡ get_or ys p 0 ⊕ get_or xs p 0
unfolding add_front plus
get_or-add_front [] [] p e = refl
get_or-add_front [] (y ∷ ys) p e = absurd (omega arith)
get_or-add_front (x ∷ xs) [] p e = absurd (omega arith)
get_or-add_front (x ∷ xs) (y ∷ ys) zero e = refl
get_or-add_front (x ∷ xs) (y ∷ ys) (suc p) e = get_or-add_front xs ys p (omega arith)

-- What one call of the two routines leaves in a slice of `2 * n` bytes.
pub record IsProduct (n : ℕ) (v : ℕ → ℕ) (out : List ℕ) : Type 0 where
  pub size : length out ≡ 2 * n
  pub bytes : Bytes out
  pub value : (p : ℕ) → word out p ≡ v p

-- The products of the words of `xs`, in a slice of the same size.
pub mul-IsProduct :
    (n c : ℕ) (xs ys : List ℕ)
    → c < 2 ^ 16
    → Bytes xs
    → Bytes ys
    → length xs ≡ 2 * n
    → length ys ≡ 2 * n
    → (out : List ℕ) × (mul_byte_slice_le c xs ys ≡ some out)
      × IsProduct n (λ p. times c (word xs p)) out
mul-IsProduct n c xs ys hc bx by_ ex ey =
    let (out, e, w) = words-mul_byte_slice_le n c xs ys hc bx ex ey in
    let shape = subst (HasShape ys) e (mul-HasShape c xs ys) in
    (
      out,
      e,
      record {
        size = shape.0 ∙ ey;
        bytes = shape.1 by_;
        value = λ p. ap (λ t. get_or t p 0) w ∙ get_or-map c (words xs) p;
      },
    )

length-words : (n : ℕ) (xs : List ℕ) → length xs ≡ 2 * n → length (words xs) ≡ n
unfolding words
length-words zero [] e = refl
length-words zero (x ∷ xs) e = absurd (omega arith)
length-words (suc n) [] e = absurd (omega arith)
length-words (suc n) (x ∷ []) e = absurd (omega arith)
length-words (suc n) (x ∷ y ∷ xs) e = ap suc (length-words n xs (omega arith))

length-map : (c : ℕ) (xs : List ℕ) → length (map (times c) xs) ≡ length xs
length-map c [] = refl
length-map c (x ∷ xs) = ap suc (length-map c xs)

-- The same, added to the words that were there.
pub mul_and_add-IsProduct :
    (n c : ℕ) (xs ys : List ℕ)
    → c < 2 ^ 16
    → Bytes xs
    → Bytes ys
    → length xs ≡ 2 * n
    → length ys ≡ 2 * n
    → (out : List ℕ) × (mul_and_add_byte_slice_le c xs ys ≡ some out)
      × IsProduct n (λ p. word ys p ⊕ times c (word xs p)) out
mul_and_add-IsProduct n c xs ys hc bx by_ ex ey =
    let (out, e, w) = words-mul_and_add_byte_slice_le n c xs ys hc bx by_ ex ey in
    let shape = subst (HasShape ys) e (mul_and_add-HasShape c xs ys) in
    let same_size : length (map (times c) (words xs)) ≡ length (words ys) =
      length-map c (words xs) ∙ length-words n xs ex ∙ sym (length-words n ys ey) in
    (
      out,
      e,
      record {
        size = shape.0 ∙ ey;
        bytes = shape.1 by_;
        value = λ p.
            ap (λ t. get_or t p 0) w
            ∙ get_or-add_front (map (times c) (words xs)) (words ys) p same_size
            ∙ ap (λ (t : ℕ). word ys p ⊕ t) (get_or-map c (words xs) p);
      },
    )
