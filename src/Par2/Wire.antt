-- ===== src/Par2/Wire.antt =====
-- Bytes on the wire, a list of numbers below 256: the little-endian integers of encoding/binary,
-- slices of a byte slice, and the comparison of byte arrays.
use gopar_turbo.Base.{
  ℕ, zero, suc, ◌+◌, ◌-◌, ◌*◌, ◌/◌, ◌%◌, ◌≤◌, ◌<◌, ◌≡◌, refl, ap, ap₂, ◌∙◌, arith, Bool, true,
  false, ◌&&◌, ◌==◌, ==_iff, ==_refl, Bool-cases, List, [], ◌∷◌, ◌++◌, length, take, drop,
  take-append, take-append-drop, length-drop, length-take, take_all, inl, inr, sym,
}

-- `PutUint32` and `PutUint64`, in four and eight bytes.
unfoldable pub put_le : ℕ → ℕ → List ℕ
put_le zero x = []
put_le (suc w) x = x % 256 ∷ put_le w (x / 256)

-- `Uint32` and `Uint64`.
unfoldable pub get_le : List ℕ → ℕ
get_le [] = 0
get_le (b ∷ bs) = b + 256 * get_le bs

-- `data[i:j]`, within the bounds.
unfoldable pub slice : List ℕ → ℕ → ℕ → List ℕ
slice xs i j = take (j - i) (drop i xs)

-- `==` on byte arrays.
unfoldable pub same : List ℕ → List ℕ → Bool
same [] [] = true
same [] (y ∷ ys) = false
same (x ∷ xs) [] = false
same (x ∷ xs) (y ∷ ys) = x == y && same xs ys

abbrev pub IsBytes : List ℕ → Type 0
IsBytes [] = Unit
IsBytes (b ∷ bs) = (b < 256) × IsBytes bs

-- The numbers of `w` bytes are those below it.
abbrev pub limit : ℕ → ℕ
limit zero = 1
limit (suc w) = 256 * limit w

pub length-put_le : (w x : ℕ) → length (put_le w x) ≡ w
unfolding put_le
length-put_le zero x = refl
length-put_le (suc w) x = ap suc (length-put_le w (x / 256))

pub get_le-put_le : (w x : ℕ) → x < limit w → get_le (put_le w x) ≡ x
unfolding put_le get_le
get_le-put_le zero x h = omega arith
get_le-put_le (suc w) x h =
    let rest : get_le (put_le w (x / 256)) ≡ x / 256 = get_le-put_le w (x / 256) (omega arith) in
    omega (arith, rest)

pub put_le-get_le : (w : ℕ) (bs : List ℕ) → length bs ≡ w → IsBytes bs → put_le w (get_le bs) ≡ bs
unfolding put_le get_le
put_le-get_le zero [] e h = refl
put_le-get_le zero (b ∷ bs) e h = absurd (omega arith)
put_le-get_le (suc w) [] e h = absurd (omega arith)
put_le-get_le (suc w) (b ∷ bs) e h =
    let low : (b + 256 * get_le bs) % 256 ≡ b = omega (arith, h.0) in
    let high : (b + 256 * get_le bs) / 256 ≡ get_le bs = omega (arith, h.0) in
    ap₂ ◌∷◌ low (ap (put_le w) high ∙ put_le-get_le w bs (omega arith) h.1)

pub get_le-bound : (w : ℕ) (bs : List ℕ) → length bs ≡ w → IsBytes bs → get_le bs < limit w
unfolding get_le
get_le-bound zero [] e h = omega arith
get_le-bound zero (b ∷ bs) e h = absurd (omega arith)
get_le-bound (suc w) [] e h = absurd (omega arith)
get_le-bound (suc w) (b ∷ bs) e h =
    let rest : get_le bs < limit w = get_le-bound w bs (omega arith) h.1 in omega (arith, rest, h.0)

pub same_refl : (xs : List ℕ) → same xs xs ≡ true
unfolding same
same_refl [] = refl
same_refl (x ∷ xs) = rw (==_refl x, same_refl xs)

pub same→eq : (xs ys : List ℕ) → same xs ys ≡ true → xs ≡ ys
unfolding same
same→eq [] [] h = refl
same→eq [] (y ∷ ys) h = cc
same→eq (x ∷ xs) [] h = cc
same→eq (x ∷ xs) (y ∷ ys) h = elim (Bool-cases (x == y)) [
  | inl e ↦ let rest : same xs ys ≡ true = cc in ap₂ ◌∷◌ ((==_iff x y).0 e) (same→eq xs ys rest)
  | inr e ↦ cc
]

pub take-IsBytes : (n : ℕ) (xs : List ℕ) → IsBytes xs → IsBytes (take n xs)
take-IsBytes zero xs h = tt
take-IsBytes (suc n) [] h = tt
take-IsBytes (suc n) (x ∷ xs) h = (h.0, take-IsBytes n xs h.1)

pub drop-IsBytes : (n : ℕ) (xs : List ℕ) → IsBytes xs → IsBytes (drop n xs)
drop-IsBytes zero xs h = h
drop-IsBytes (suc n) [] h = tt
drop-IsBytes (suc n) (x ∷ xs) h = drop-IsBytes n xs h.1

pub slice-IsBytes : (xs : List ℕ) (i j : ℕ) → IsBytes xs → IsBytes (slice xs i j)
unfolding slice
slice-IsBytes xs i j h = take-IsBytes (j - i) (drop i xs) (drop-IsBytes i xs h)

pub slice_front : (xs ys : List ℕ) (n : ℕ) → length xs ≡ n → slice (xs ++ ys) 0 n ≡ xs
unfolding slice
slice_front xs ys n e =
    let width : n - 0 ≡ n = omega arith in ap (λ k. take k (xs ++ ys)) width ∙ take-append xs ys n e

drop_past : (xs ys : List ℕ) (k m : ℕ) → m ≡ length xs + k → drop m (xs ++ ys) ≡ drop k ys
drop_past [] ys k m e = let e' : m ≡ k = omega arith in ap (λ i. drop i ys) e'
drop_past (x ∷ xs) ys k zero e = absurd (omega arith)
drop_past (x ∷ xs) ys k (suc m) e = drop_past xs ys k m (omega arith)

pub slice_past :
    (xs ys : List ℕ) (n i j : ℕ) → length xs ≡ n → slice (xs ++ ys) (n + i) (n + j) ≡ slice ys i j
unfolding slice
slice_past xs ys n i j e =
    let width : (n + j) - (n + i) ≡ j - i = omega arith in
    ap₂ take width (drop_past xs ys i (n + i) (omega arith))

pub drop-drop : (i j m : ℕ) (xs : List ℕ) → m ≡ i + j → drop j (drop i xs) ≡ drop m xs
drop-drop zero j m xs e = let e' : j ≡ m = omega arith in ap (λ k. drop k xs) e'
drop-drop (suc i) j zero xs e = absurd (omega arith)
drop-drop (suc i) zero (suc m) [] e = refl
drop-drop (suc i) (suc j) (suc m) [] e = refl
drop-drop (suc i) j (suc m) (x ∷ xs) e = drop-drop i j m xs (omega arith)

pub slice_join : (xs : List ℕ) (i j : ℕ) → i ≤ j → slice xs i j ++ drop j xs ≡ drop i xs
unfolding slice
slice_join xs i j h =
    let tail : drop j xs ≡ drop (j - i) (drop i xs) =
      sym (drop-drop i (j - i) j xs (omega arith)) in
    ap (λ t. take (j - i) (drop i xs) ++ t) tail ∙ take-append-drop (j - i) (drop i xs)

pub length-slice : (xs : List ℕ) (i j : ℕ) → i ≤ j → j ≤ length xs → length (slice xs i j) ≡ j - i
unfolding slice
length-slice xs i j h b = length-take (j - i) (drop i xs) ∙ omega (arith, length-drop i xs)

pub slice_all : (xs : List ℕ) (n : ℕ) → length xs ≡ n → slice xs 0 n ≡ xs
unfolding slice
slice_all xs n e = let e' : length xs ≤ n - 0 = omega arith in take_all (n - 0) xs e'

pub slice_last : (xs : List ℕ) (i n : ℕ) → length xs ≡ n → slice xs i n ≡ drop i xs
unfolding slice
slice_last xs i n e =
    let e' : length (drop i xs) ≤ n - i = omega (arith, length-drop i xs) in
    take_all (n - i) (drop i xs) e'
