-- ===== src/Par2/Scan/Slices.antt =====
-- The slices that `scanBuffer` looks at, as windows of the bytes.
use gopar_turbo.Base.{
  ℕ, zero, suc, ◌+◌, ◌-◌, ◌^◌, ◌≤◌, ◌<◌, ◌≡◌, refl, sym, ◌∙◌, ap, ap₂, arith, ltb, ltb→lt, ltb→ge,
  Bool-cases, inl, inr, List, [], ◌∷◌, ◌++◌, length, length-append, length-drop, take, take_all,
  drop, get_or, replicate,
}
use gopar_turbo.Par2.Wire.{slice, IsBytes}
use gopar_turbo.Par2.Scan.{slice_and_pad_byte_array}

-- The first `n` bytes, with zeros behind the end.
unfoldable pub window : ℕ → List ℕ → List ℕ
window zero xs = []
window (suc n) [] = 0 ∷ window n []
window (suc n) (x ∷ xs) = x ∷ window n xs

window-nil : (n : ℕ) → window n [] ≡ replicate n 0
unfolding window
window-nil zero = refl
window-nil (suc n) = ap (◌∷◌ 0) (window-nil n)

window_short :
    (n : ℕ) (xs : List ℕ) → length xs ≤ n → window n xs ≡ xs ++ replicate (n - length xs) 0
unfolding window
window_short zero [] h = refl
window_short zero (x ∷ xs) h = absurd (omega arith)
window_short (suc n) [] h =
    window-nil (suc n) ∙ ap (λ k. replicate {A = ℕ} k 0) {x = suc n} {y = suc n - 0} (omega arith)
window_short (suc n) (x ∷ xs) h = ap (◌∷◌ x) (
    window_short n xs (omega arith)
    ∙ ap (λ k. xs ++ replicate k 0) {x = n - length xs} {y = suc n - suc (length xs)} (omega arith))

window_long : (n : ℕ) (xs : List ℕ) → n ≤ length xs → window n xs ≡ take n xs
unfolding window
window_long zero xs h = refl
window_long (suc n) [] h = absurd (omega arith)
window_long (suc n) (x ∷ xs) h = ap (◌∷◌ x) (window_long n xs (omega arith))

pub window_snoc : (n : ℕ) (xs : List ℕ) → window (suc n) xs ≡ window n xs ++ (get_or xs n 0 ∷ [])
unfolding window
window_snoc zero [] = refl
window_snoc zero (x ∷ xs) = refl
window_snoc (suc n) [] = ap (◌∷◌ 0) (window_snoc n [])
window_snoc (suc n) (x ∷ xs) = ap (◌∷◌ x) (window_snoc n xs)

pub length-window : (n : ℕ) (xs : List ℕ) → length (window n xs) ≡ n
unfolding window
length-window zero xs = refl
length-window (suc n) [] = ap suc (length-window n [])
length-window (suc n) (x ∷ xs) = ap suc (length-window n xs)

pub last_of_append :
    (xs : List ℕ) (b : ℕ) → get_or (xs ++ (b ∷ [])) (length (xs ++ (b ∷ [])) - 1) 0 ≡ b
last_of_append xs b =
    ap (λ k. get_or (xs ++ (b ∷ [])) k 0) {x = length (xs ++ (b ∷ [])) - 1} {y = length xs}
      (omega (arith, length-append xs (b ∷ [])))
    ∙ at_length xs
  where
    at_length : (xs : List ℕ) → get_or (xs ++ (b ∷ [])) (length xs) 0 ≡ b
    at_length [] = refl
    at_length (x ∷ xs) = at_length xs

pub drop_one : (i : ℕ) (xs : List ℕ) → i < length xs → drop i xs ≡ get_or xs i 0 ∷ drop (suc i) xs
drop_one i [] h = absurd (omega arith)
drop_one zero (x ∷ xs) h = refl
drop_one (suc i) (x ∷ xs) h = drop_one i xs (omega arith)

pub byte_at : (xs : List ℕ) (i : ℕ) → IsBytes xs → get_or xs i 0 < 2 ^ 8
byte_at [] i h = omega arith
byte_at (x ∷ xs) zero h = omega (arith, h.0)
byte_at (x ∷ xs) (suc i) h = byte_at xs i h.1

pub pad-window :
    (bs : List ℕ) (j n : ℕ)
    → j ≤ length bs
    → slice_and_pad_byte_array bs j (j + n) ≡ window n (drop j bs)
unfolding slice_and_pad_byte_array slice
pad-window bs j n h = elim (Bool-cases (ltb (length bs) (j + n))) [
  | inl short ↦
      let lt = ltb→lt (length bs) (j + n) short in
      rw short (
        ap₂ (λ (xs : List ℕ) k. xs ++ replicate k 0) {u = (j + n) - length bs}
          {v = n - length (drop j bs)}
          (take_all (length bs - j) (drop j bs) (omega (arith, length-drop j bs)))
          (omega (arith, length-drop j bs))
        ∙ sym (window_short n (drop j bs) (omega (arith, length-drop j bs))))
  | inr long ↦
      let ge = ltb→ge (length bs) (j + n) long in
      rw long (
        ap (λ k. take k (drop j bs)) {x = (j + n) - j} {y = n} (omega arith)
        ∙ sym (window_long n (drop j bs) (omega (arith, length-drop j bs))))
]
