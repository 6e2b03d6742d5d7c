-- ===== src/Par2/Main/FileIds.antt =====
-- `fileIDLess`: the order of the identifiers.
use gopar_turbo.Base.{
  ℕ, zero, suc, ◌+◌, ◌*◌, ◌≤◌, ◌<◌, ◌≡◌, refl, ap, ap₂, ◌∙◌, sym, arith, Bool, true, false, ltb,
  if◌then◌else◌, List, [], ◌∷◌, length, take, get_or, take_all, Bool-cases, inl, inr, ltb→lt,
  lt→ltb, ge→ltb, length-take, ltb→ge,
}
use gopar_turbo.Par2.Wire.{get_le, IsBytes, limit, take-IsBytes, get_le-bound}
use gopar_turbo.Par2.Main.{less_below, file_id_less}

-- The value of one more byte.
get_le-take :
    (i : ℕ) (a : List ℕ)
    → i < length a
    → get_le (take (suc i) a) ≡ get_le (take i a) + limit i * get_or a i 0
unfolding get_le
get_le-take i [] h = absurd (omega arith)
get_le-take zero (x ∷ xs) h = omega arith
get_le-take (suc i) (x ∷ xs) h =
    let rest : get_le (take (suc i) xs) ≡ get_le (take i xs) + limit i * get_or xs i 0 =
      get_le-take i xs (omega arith) in
    grind (arith, rest)

take-bound : (i : ℕ) (a : List ℕ) → i ≤ length a → IsBytes a → get_le (take i a) < limit i
take-bound i a h w = get_le-bound i (take i a) (omega (arith, length-take i a)) (take-IsBytes i a w)

-- The higher digit decides.
high_digit : (l x y a b : ℕ) → x < l → a < b → x + l * a < y + l * b
high_digit l x y a b h k = grind arith

same_digit : (c x y : ℕ) → ltb x y ≡ ltb (x + c) (y + c)
same_digit c x y = ground arith

digit :
    (l x y a b : ℕ) (r : Bool)
    → x < l
    → y < l
    → r ≡ ltb x y
    → (if ltb a b then true else if ltb b a then false else r) ≡ ltb (x + l * a) (y + l * b)
digit l x y a b r hx hy e = elim (Bool-cases (ltb a b)) [
  | inl p ↦ rw p (sym (lt→ltb (x + l * a) (y + l * b) (high_digit l x y a b hx (ltb→lt a b p))))
  | inr p ↦ elim (Bool-cases (ltb b a)) [
    | inl q ↦
        let h = high_digit l y x b a hy (ltb→lt b a q) in
        rw (p, q) (sym (ge→ltb (x + l * a) (y + l * b) (omega (arith, h))))
    | inr q ↦
        let same : a ≡ b = omega (arith, ltb→ge a b p, ltb→ge b a q) in
        rw (p, q) (e ∙ same_digit (l * a) x y ∙ ap (λ c. ltb (x + l * a) (y + l * c)) same)
  ]
]

less_below-take :
    (i : ℕ) (a b : List ℕ)
    → i ≤ length a
    → i ≤ length b
    → IsBytes a
    → IsBytes b
    → less_below i a b ≡ ltb (get_le (take i a)) (get_le (take i b))
unfolding less_below get_le
less_below-take zero a b ha hb wa wb = refl
less_below-take (suc i) a b ha hb wa wb =
    let rest = less_below-take i a b (omega arith) (omega arith) wa wb in
    let da = get_or a i 0 in
    let db = get_or b i 0 in
    let xa = take-bound i a (omega arith) wa in
    let xb = take-bound i b (omega arith) wb in
    rw (get_le-take i a (omega arith), get_le-take i b (omega arith))
      (digit (limit i) _ _ da db (less_below i a b) xa xb rest)

-- For identifiers of 16 bytes, `fileIDLess` compares the numbers that they are in little-endian
-- order.
pub file_id_less-get_le :
    (id1 id2 : List ℕ)
    → length id1 ≡ 16
    → length id2 ≡ 16
    → IsBytes id1
    → IsBytes id2
    → file_id_less id1 id2 ≡ ltb (get_le id1) (get_le id2)
unfolding file_id_less
file_id_less-get_le id1 id2 h1 h2 w1 w2 =
    less_below-take (length id1) id1 id2 (omega arith) (omega arith) w1 w2
    ∙ ap₂ (λ u v. ltb (get_le u) (get_le v)) (take_all (length id1) id1 (omega arith))
        (take_all (length id1) id2 (omega arith))
