-- ===== src/Rsec16/Reconstruct/Sums.antt =====
-- Inner products as sums over lists of indices.
use gopar_turbo.Base.{
  ℕ, zero, suc, ◌+◌, ◌<◌, ◌≡◌, refl, sym, ◌∙◌, ap, ap₂, arith, List, [], ◌∷◌, length, get_or,
}
use gopar_turbo.Bits.{◌⊕◌}
use gopar_turbo.Bits.Xor.{xor-zero, zero-xor, xor_assoc}
use gopar_turbo.Gf2p16.{times}
use gopar_turbo.Gf2p16.Field.{zero-times, times-lt}
use gopar_turbo.Matrix.Dot.{Short, dot, dot-lt, dot-plus, dot-times}

-- The sum of `f` over the indices.
abbrev pub total : (ℕ → ℕ) → List ℕ → ℕ
total f [] = 0
total f (r ∷ rs) = f r ⊕ total f rs

-- The `n` numbers from `i` on.
abbrev pub upto : ℕ → ℕ → List ℕ
upto i zero = []
upto i (suc n) = i ∷ upto (suc i) n

pub length-upto : (i n : ℕ) → length (upto i n) ≡ n
length-upto i zero = refl
length-upto i (suc n) = ap suc (length-upto (suc i) n)

pub get_or-upto : (i n t : ℕ) → t < n → get_or (upto i n) t 0 ≡ i + t
get_or-upto i zero t h = absurd (omega arith)
get_or-upto i (suc n) zero h = omega arith
get_or-upto i (suc n) (suc t) h = get_or-upto (suc i) n t (omega arith) ∙ omega arith

pub dot-ext :
    (n : ℕ) (a b x y : ℕ → ℕ)
    → ((k : ℕ) → k < n → a k ≡ b k)
    → ((k : ℕ) → k < n → x k ≡ y k)
    → dot n a x ≡ dot n b y
unfolding dot
dot-ext zero a b x y h k = refl
dot-ext (suc n) a b x y h k =
    ap₂ ◌⊕◌ (dot-ext n a b x y (λ i lt. h i (omega arith)) (λ i lt. k i (omega arith)))
      (ap₂ times (h n (omega arith)) (k n (omega arith)))

pub dot_append :
    (n m : ℕ) (a x : ℕ → ℕ) → dot (n + m) a x ≡ dot n a x ⊕ dot m (λ k. a (n + k)) (λ k. x (n + k))
unfolding dot
dot_append n zero a x =
    ap (λ (k : ℕ). dot k a x) {x = n + 0} {y = n} (omega arith) ∙ sym (xor-zero (dot n a x))
dot_append n (suc m) a x =
    ap (λ (k : ℕ). dot k a x) {x = n + suc m} {y = suc (n + m)} (omega arith)
    ∙ ap (λ (s : ℕ). s ⊕ times (a (n + m)) (x (n + m))) (dot_append n m a x)
    ∙ xor_assoc _ _ _

one_dot : (a x : ℕ → ℕ) → dot 1 a x ≡ times (a 0) (x 0)
unfolding dot
one_dot a x = zero-xor (times (a 0) (x 0))

-- An inner product that goes through a list of indices is the sum over the list.
pub dot-total :
    (f g : ℕ → ℕ) (rs : List ℕ) (a x : ℕ → ℕ)
    → ((t : ℕ) → t < length rs → a t ≡ f (get_or rs t 0))
    → ((t : ℕ) → t < length rs → x t ≡ g (get_or rs t 0))
    → dot (length rs) a x ≡ total (λ j. times (f j) (g j)) rs
unfolding dot
dot-total f g [] a x ea ex = refl
dot-total f g (r ∷ rs) a x ea ex =
    ap (λ (k : ℕ). dot k a x) {x = suc (length rs)} {y = 1 + length rs} (omega arith)
    ∙ dot_append 1 (length rs) a x
    ∙ ap₂ ◌⊕◌ (one_dot a x ∙ ap₂ times (ea 0 (omega arith)) (ex 0 (omega arith))) (
        dot-total f g rs (λ k. a (1 + k)) (λ k. x (1 + k))
          (λ t lt. ap a {x = 1 + t} {y = suc t} (omega arith) ∙ ea (suc t) (omega arith))
          (λ t lt. ap x {x = 1 + t} {y = suc t} (omega arith) ∙ ex (suc t) (omega arith)))

-- The plain inner product is the sum over all indices.
pub dot-upto : (n : ℕ) (a x : ℕ → ℕ) → dot n a x ≡ total (λ j. times (a j) (x j)) (upto 0 n)
dot-upto n a x =
    ap (λ (k : ℕ). dot k a x) (sym (length-upto 0 n))
    ∙ dot-total a x (upto 0 n) a x (λ t lt. sym (ap a (place t lt)))
        (λ t lt. sym (ap x (place t lt)))
  where
    place : (t : ℕ) → t < length (upto 0 n) → get_or (upto 0 n) t 0 ≡ t
    place t lt = get_or-upto 0 n t (omega (arith, length-upto 0 n)) ∙ omega arith

zero_row : (n : ℕ) (x : ℕ → ℕ) → dot n (λ _. 0) x ≡ 0
unfolding dot
zero_row zero x = refl
zero_row (suc n) x = ap₂ ◌⊕◌ (zero_row n x) (zero-times (x n)) ∙ zero-xor 0

-- A row applied to the rows of a matrix, and then to a vector.
pub dot_exchange :
    (m k : ℕ) (a : ℕ → ℕ) (b : ℕ → ℕ → ℕ) (w : ℕ → ℕ)
    → Short a
    → ((t : ℕ) → Short (b t))
    → Short w
    → dot m a (λ t. dot k (b t) w) ≡ dot k (λ j. dot m a (λ t. b t j)) w
unfolding dot
dot_exchange zero k a b w ha hb hw = sym (zero_row k w)
dot_exchange (suc m) k a b w ha hb hw =
    ap₂ ◌⊕◌ (dot_exchange m k a b w ha hb hw) (sym (dot-times k (a m) (b m) w (ha m) (hb m) hw))
    ∙ sym (
        dot-plus k (λ j. dot m a (λ t. b t j)) (λ j. times (a m) (b m j)) w
          (λ j. dot-lt m a (λ t. b t j) (λ t lt. ha t) (λ t. hb t j))
          (λ j. times-lt (a m) (b m j) (ha m) (hb m j)) hw)
