-- ===== src/Matrix/Dot.antt =====
-- Inner products over the field, as the sums that a row makes with a column.
use gopar_turbo.Base.{ℕ, zero, suc, ◌^◌, ◌<◌, ◌≡◌, refl, sym, ◌∙◌, ap, ap₂, arith}
use gopar_turbo.Bits.{◌⊕◌}
use gopar_turbo.Bits.Xor.{xor-lt, zero-xor, xor_interchange}
use gopar_turbo.Gf2p16.{times, plus}
use gopar_turbo.Gf2p16.Field.{times-lt, times-plus, times_comm, times_assoc, times-zero}

abbrev pub Short : (ℕ → ℕ) → Type 0
Short a = (k : ℕ) → a k < 2 ^ 16

unfoldable pub dot : ℕ → (ℕ → ℕ) → (ℕ → ℕ) → ℕ
dot zero a x = 0
dot (suc n) a x = dot n a x ⊕ times (a n) (x n)

pub dot-lt : (n : ℕ) (a x : ℕ → ℕ) → ((k : ℕ) → k < n → a k < 2 ^ 16) → Short x → dot n a x < 2 ^ 16
unfolding dot
dot-lt zero a x ha hx = omega arith
dot-lt (suc n) a x ha hx =
    xor-lt 16 (dot n a x) (times (a n) (x n)) (dot-lt n a x (λ k h. ha k (omega arith)) hx)
      (times-lt (a n) (x n) (ha n (omega arith)) (hx n))

pub dot_congr : (n : ℕ) (a b x : ℕ → ℕ) → ((k : ℕ) → k < n → a k ≡ b k) → dot n a x ≡ dot n b x
unfolding dot
dot_congr zero a b x h = refl
dot_congr (suc n) a b x h =
    ap₂ ◌⊕◌ (dot_congr n a b x (λ k lt. h k (omega arith)))
      (ap (λ (t : ℕ). times t (x n)) (h n (omega arith)))

-- A sum of rows makes the sum of the products.
pub dot-plus :
    (n : ℕ) (a b x : ℕ → ℕ)
    → Short a
    → Short b
    → Short x
    → dot n (λ k. a k ⊕ b k) x ≡ dot n a x ⊕ dot n b x
unfolding dot plus
dot-plus zero a b x ha hb hx = sym (zero-xor 0)
dot-plus (suc n) a b x ha hb hx =
    ap₂ ◌⊕◌ (dot-plus n a b x ha hb hx) (
      times_comm (a n ⊕ b n) (x n)
      ∙ times-plus (x n) (a n) (b n) (hx n) (ha n) (hb n)
      ∙ ap₂ ◌⊕◌ (times_comm (x n) (a n)) (times_comm (x n) (b n)))
    ∙ xor_interchange _ _ _ _

-- A scaled row makes the scaled product.
pub dot-times :
    (n c : ℕ) (a x : ℕ → ℕ)
    → c < 2 ^ 16
    → Short a
    → Short x
    → dot n (λ k. times c (a k)) x ≡ times c (dot n a x)
unfolding dot plus
dot-times zero c a x hc ha hx = sym (times-zero c)
dot-times (suc n) c a x hc ha hx =
    ap₂ ◌⊕◌ (dot-times n c a x hc ha hx) (times_assoc c (a n) (x n) hc (ha n) (hx n))
    ∙ sym (
        times-plus c (dot n a x) (times (a n) (x n)) hc (dot-lt n a x (λ k h. ha k) hx)
          (times-lt (a n) (x n) (ha n) (hx n)))
