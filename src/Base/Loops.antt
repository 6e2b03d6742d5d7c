-- ===== src/Base/Loops.antt =====
-- Outcomes of code that may panic or return an error, counted loops over it, and the rule that
-- proves such a loop by an invariant.
use Prim.Native.Nat.{ℕ, zero, suc, ◌+◌, ◌<◌}
use mathlib.Core.Path.{◌≡◌, refl, sym, subst}
use mathlib.Core.Bool.{Bool, true, false, not}
use gopar_turbo.Base.Tests.{if◌then◌else◌}
use native.Mathlib.Omega.{arith}

-- `fault` is a panic, `failure` a returned error.
pub data Outcome (E : Type 0) (A : Type 0) : Type 0 where
  fault : Outcome E A
  failure : E → Outcome E A
  ok : A → Outcome E A

infixl 5 ◌>>=◌ ◌>>◌
abbrev pub ◌>>=◌ : {E A B : Type 0} → Outcome E A → (A → Outcome E B) → Outcome E B
fault >>= f = fault
failure e >>= f = failure e
ok a >>= f = f a

abbrev pub ◌>>◌ : {E B : Type 0} → Outcome E (Unit {0}) → Outcome E B → Outcome E B
m >> k = m >>= λ _. k

-- A check that panics if it fails.
abbrev pub require : {E : Type 0} → Bool → Outcome E (Unit {0})
require true = ok tt
require false = fault

-- What holds of the value, and of the error; a panic satisfies nothing.
abbrev pub Ensures : {E A : Type 0} → (A → Type 0) → (E → Type 0) → Outcome E A → Type 0
Ensures P Q fault = ⊥
Ensures P Q (failure e) = Q e
Ensures P Q (ok a) = P a

pub Ensures-bind :
    {E A B : Type 0} (P : A → Type 0) (R : B → Type 0) (Q : E → Type 0) (m : Outcome E A)
    (f : A → Outcome E B)
    → Ensures P Q m
    → ((a : A) → P a → Ensures R Q (f a))
    → Ensures R Q (m >>= f)
Ensures-bind P R Q fault f h k = h
Ensures-bind P R Q (failure e) f h k = h
Ensures-bind P R Q (ok a) f h k = k a h

pub Ensures-mono :
    {E A : Type 0} (P R : A → Type 0) (Q : E → Type 0) (m : Outcome E A)
    → Ensures P Q m
    → ((a : A) → P a → R a)
    → Ensures R Q m
Ensures-mono P R Q fault h k = h
Ensures-mono P R Q (failure e) h k = h
Ensures-mono P R Q (ok a) h k = k a h

-- `for k = i; k < i + n; k++ { s = body k s }`
unfoldable pub for_range : {E S : Type 0} → ℕ → ℕ → (ℕ → S → Outcome E S) → S → Outcome E S
for_range zero i body s = ok s
for_range (suc n) i body s = body i s >>= for_range n (suc i) body

pub for_range-Ensures :
    {E S : Type 0} (P : ℕ → S → Type 0) (Q : E → Type 0) (body : ℕ → S → Outcome E S) (hi : ℕ)
    → ((i : ℕ) (s : S) → i < hi → P i s → Ensures (P (suc i)) Q (body i s))
    → (n i : ℕ) (s : S) → i + n ≡ hi
    → P i s
    → Ensures (P hi) Q (for_range n i body s)
unfolding for_range
for_range-Ensures P Q body hi keep zero i s e h =
    let e' : i ≡ hi = omega arith in subst (λ k. P k s) e' h
for_range-Ensures P Q body hi keep (suc n) i s e h =
    Ensures-bind (P (suc i)) (P hi) Q (body i s) (for_range n (suc i) body)
      (keep i s (omega arith) h)
      λ s' h'. for_range-Ensures P Q body hi keep n (suc i) s' (omega arith) h'

-- The same loop where the body cannot fail.
unfoldable pub for_each : {S : Type 0} → ℕ → ℕ → (ℕ → S → S) → S → S
for_each zero i body s = s
for_each (suc n) i body s = for_each n (suc i) body (body i s)

pub for_each_inv :
    {S : Type 0} (P : ℕ → S → Type 0) (body : ℕ → S → S) (hi : ℕ)
    → ((i : ℕ) (s : S) → i < hi → P i s → P (suc i) (body i s))
    → (n i : ℕ) (s : S) → i + n ≡ hi
    → P i s
    → P hi (for_each n i body s)
unfolding for_each
for_each_inv P body hi keep zero i s e h = let e' : i ≡ hi = omega arith in subst (λ k. P k s) e' h
for_each_inv P body hi keep (suc n) i s e h =
    for_each_inv P body hi keep n (suc i) (body i s) (omega arith) (keep i s (omega arith) h)

-- Code that cannot fail returns a value.
pub Ensures-ok :
    {E A : Type 0} (P : A → Type 0) (m : Outcome E A)
    → Ensures P (λ _. ⊥) m
    → (a : A) × (m ≡ ok a) × P a
Ensures-ok P fault h = absurd h
Ensures-ok P (failure e) h = absurd h
Ensures-ok P (ok a) h = (a, refl, h)

pub Ensures_elim :
    {E A : Type 0} (P : A → Type 0) (Q : E → Type 0) (m : Outcome E A) (a : A)
    → Ensures P Q m
    → m ≡ ok a
    → P a
Ensures_elim P Q fault a h e = absurd h
Ensures_elim P Q (failure x) a h e = cc
Ensures_elim P Q (ok b) a h e = let e' : b ≡ a = cc in subst P e' h

pub Ensures-error :
    {E A : Type 0} (P : A → Type 0) (Q R : E → Type 0) (m : Outcome E A)
    → Ensures P Q m
    → ((e : E) → Q e → R e)
    → Ensures P R m
Ensures-error P Q R fault h k = h
Ensures-error P Q R (failure e) h k = k e h
Ensures-error P Q R (ok a) h k = h

-- A conditional whose first branch is not the value in question.
pub if_else :
    {A : Type 0} (b : Bool) (x y z : A)
    → ¬ (x ≡ z)
    → (if b then x else y) ≡ z
    → (b ≡ false) × (y ≡ z)
if_else true x y z n e = absurd (n e)
if_else false x y z n e = (refl, e)

pub failure≢ok : {E A : Type 0} (e : E) (a : A) → ¬ (◌≡◌ {A = Outcome E A} (failure e) (ok a))
failure≢ok e a h = cc

pub ok-injective : {E A : Type 0} (a b : A) → ◌≡◌ {A = Outcome E A} (ok a) (ok b) → a ≡ b
ok-injective a b h = cc

pub not-false : (b : Bool) → not b ≡ false → b ≡ true
not-false true h = refl
not-false false h = sym h
