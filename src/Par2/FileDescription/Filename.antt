-- ===== src/Par2/FileDescription/Filename.antt =====
-- A name that `checkFilename` accepts does not lead out of its directory.
use gopar_turbo.Base.{
  ℕ, zero, suc, ◌≡◌, refl, sym, ◌∙◌, ap, true, false, ◌||◌, if◌then◌else◌, Bool-cases, inl, inr,
  ◌⊎◌, Option, none, some, List, [], ◌∷◌, ◌++◌, length,
}
use gopar_turbo.Base.Loops.{ok, failure, failure≢ok}
use gopar_turbo.Par2.Wire.{same, same→eq}
use gopar_turbo.Par2.FileDescription.{
  traversing_outside, absolute_path, dot, dot_dot, split_path, to_parent, clean_element,
  clean_elements, join_path, clean_relative, is_abs, first_byte, check_filename,
}

-- How deep below its start a walk along the elements of a path gets; `none` if it goes above it.
pub up : ℕ → Option ℕ
up zero = none
up (suc depth) = some depth

pub walk_element : List ℕ → ℕ → Option ℕ
walk_element element depth =
    if same element [] || same element dot
    then some depth
    else if same element dot_dot
    then up depth
    else some (suc depth)

pub then_walk : Option ℕ → (ℕ → Option ℕ) → Option ℕ
then_walk none rest = none
then_walk (some depth) rest = rest depth

pub walk_path : List (List ℕ) → ℕ → Option ℕ
walk_path [] depth = some depth
walk_path (x ∷ xs) depth = then_walk (walk_element x depth) (walk_path xs)

-- The first element of the cleaned path is "..".
abbrev StartsAbove : List (List ℕ) → Type 0
StartsAbove [] = ⊥
StartsAbove (x ∷ []) = same x dot_dot ≡ true
StartsAbove (x ∷ y ∷ ys) = StartsAbove (y ∷ ys)

-- No element is "..".
abbrev StaysBelow : List (List ℕ) → Type 0
StaysBelow [] = Unit
StaysBelow (x ∷ xs) = (same x dot_dot ≡ false) × StaysBelow xs

push-StartsAbove :
    (x : List ℕ) (stack : List (List ℕ)) → StartsAbove stack → StartsAbove (x ∷ stack)
push-StartsAbove x [] h = absurd h
push-StartsAbove x (y ∷ ys) h = h

to_parent-StartsAbove : (stack : List (List ℕ)) → StartsAbove stack → StartsAbove (to_parent stack)
unfolding to_parent
to_parent-StartsAbove [] h = absurd h
to_parent-StartsAbove (x ∷ []) h = rw h h
to_parent-StartsAbove (x ∷ y ∷ ys) h = elim (Bool-cases (same x dot_dot)) [
  | inl t ↦ rw t h
  | inr t ↦ rw t h
]

clean_element-StartsAbove :
    (x : List ℕ) (stack : List (List ℕ)) → StartsAbove stack → StartsAbove (clean_element x stack)
unfolding clean_element
clean_element-StartsAbove x stack h = elim (Bool-cases (same x [] || same x dot)) [
  | inl t ↦ rw t h
  | inr t ↦ elim (Bool-cases (same x dot_dot)) [
    | inl t' ↦ rw (t, t') (to_parent-StartsAbove stack h)
    | inr t' ↦ rw (t, t') (push-StartsAbove x stack h)
  ]
]

clean_elements-StartsAbove :
    (xs : List (List ℕ)) (stack : List (List ℕ))
    → StartsAbove stack
    → StartsAbove (clean_elements xs stack)
unfolding clean_elements
clean_elements-StartsAbove [] stack h = h
clean_elements-StartsAbove (x ∷ xs) stack h =
    clean_elements-StartsAbove xs (clean_element x stack) (clean_element-StartsAbove x stack h)

-- One element: the walk goes on at the depth of the stack, or the path starts above.
element_cases :
    (x : List ℕ) (stack : List (List ℕ))
    → StaysBelow stack
    → ((walk_element x (length stack) ≡ some (length (clean_element x stack)))
        × StaysBelow (clean_element x stack))
      ⊎ StartsAbove (clean_element x stack)
unfolding walk_element clean_element to_parent up same
element_cases x stack h = elim (Bool-cases (same x [] || same x dot)) [
  | inl t ↦ inl (rw t refl, rw t h)
  | inr t ↦ elim (Bool-cases (same x dot_dot)) [
    | inl t' ↦ rw (t, t') (parent_cases stack h)
    | inr t' ↦ inl (rw (t, t') refl, rw (t, t') (t', h))
  ]
]
  where
    parent_cases :
        (st : List (List ℕ))
        → StaysBelow st
        → ((up (length st) ≡ some (length (to_parent st))) × StaysBelow (to_parent st))
          ⊎ StartsAbove (to_parent st)
    parent_cases [] h = inr refl
    parent_cases (y ∷ ys) h = inl (rw (h.0) refl, rw (h.0) (h.1))

walk_cases :
    (xs : List (List ℕ)) (stack : List (List ℕ))
    → StaysBelow stack
    → ((depth : ℕ) × (walk_path xs (length stack) ≡ some depth))
      ⊎ StartsAbove (clean_elements xs stack)
unfolding walk_path clean_elements then_walk
walk_cases [] stack h = inl (length stack, refl)
walk_cases (x ∷ xs) stack h = elim (element_cases x stack h) [
  | inl step ↦ elim (walk_cases xs (clean_element x stack) step.1) [
    | inl r ↦ inl (r.0, rw (step.0) (r.1))
    | inr above ↦ inr above
  ]
  | inr above ↦ inr (clean_elements-StartsAbove xs (clean_element x stack) above)
]

join_above :
    (stack : List (List ℕ)) → StartsAbove stack → (rest : List ℕ) × (join_path stack ≡ 46 ∷ rest)
unfolding join_path
join_above [] h = absurd h
join_above (x ∷ []) h = (46 ∷ [], same→eq x dot_dot h)
join_above (x ∷ y ∷ ys) h =
    let (rest, e) = join_above (y ∷ ys) h in (rest ++ (47 ∷ x), ap (λ p. p ++ (47 ∷ x)) e)

absolute_rejected :
    (filename : List ℕ) → is_abs filename ≡ true → check_filename filename ≡ failure absolute_path
unfolding check_filename
absolute_rejected filename t = rw t refl

above_rejected :
    (filename : List ℕ)
    → is_abs filename ≡ false
    → StartsAbove (clean_elements (split_path filename) [])
    → check_filename filename ≡ failure traversing_outside
unfolding check_filename clean_relative first_byte
above_rejected filename t above =
    let (rest, j) = join_above (clean_elements (split_path filename) []) above in rw (t, j) refl

-- A name that `checkFilename` accepts is not absolute, and the walk along its elements never goes
-- above the directory in which it starts.
pub check_filename-stays :
    (filename : List ℕ)
    → check_filename filename ≡ ok tt
    → (is_abs filename ≡ false) × ((depth : ℕ) × (walk_path (split_path filename) 0 ≡ some depth))
check_filename-stays filename e = elim (Bool-cases (is_abs filename)) [
  | inl t ↦ absurd (failure≢ok absolute_path tt (sym (absolute_rejected filename t) ∙ e))
  | inr t ↦ (
    t,
    elim (walk_cases (split_path filename) [] tt) [
      | inl r ↦ r
      | inr above ↦
          absurd (failure≢ok traversing_outside tt (sym (above_rejected filename t above) ∙ e))
    ],
  )
]
