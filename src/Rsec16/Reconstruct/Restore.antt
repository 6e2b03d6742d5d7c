-- ===== src/Rsec16/Reconstruct/Restore.antt =====
-- Shards by index, and what the last loop of `ReconstructData` leaves.
use gopar_turbo.Base.{
  ℕ, zero, suc, ◌+◌, ◌*◌, ◌^◌, ◌<◌, ◌≡◌, refl, sym, ◌∙◌, ap, ap₂, arith, Option, none, some, List,
  [], ◌∷◌, ◌++◌, map, length, get_or, append_assoc, length-append,
}
use gopar_turbo.Gf2p16.Slice.Products.{Bytes, words}
use gopar_turbo.Matrix.{Matrix}
use gopar_turbo.Matrix.Grid.{entry}
use gopar_turbo.Matrix.Dot.{Short, dot}
use gopar_turbo.Rsec16.Words.{word, word-lt}
use gopar_turbo.Rsec16.Apply.Rows.{IsShard, AreShards, column}
use gopar_turbo.Rsec16.Apply.Parallel.{AreProducts}
use gopar_turbo.Rsec16.Reconstruct.{split_rows, set_shard, fill_shards}
use gopar_turbo.Rsec16.Reconstruct.System.{nth}
use gopar_turbo.Rsec16.Reconstruct.Split.{AreDamaged}

pub shard_at :
    (n : ℕ) (xs : List (List ℕ)) (j : ℕ)
    → AreShards n xs
    → j < length xs
    → IsShard n (get_or xs j [])
shard_at n [] j h lt = absurd (omega arith)
shard_at n (x ∷ xs) zero h lt = h.0
shard_at n (x ∷ xs) (suc j) h lt = shard_at n xs j h.1 (omega arith)

pub shards_from :
    (n : ℕ) (xs : List (List ℕ))
    → ((j : ℕ) → j < length xs → IsShard n (get_or xs j []))
    → AreShards n xs
shards_from n [] h = tt
shards_from n (x ∷ xs) h = (h 0 (omega arith), shards_from n xs (λ j lt. h (suc j) (omega arith)))

get_or-Bytes : (n : ℕ) (xs : List (List ℕ)) (j : ℕ) → AreShards n xs → Bytes (get_or xs j [])
get_or-Bytes n [] j h = tt
get_or-Bytes n (x ∷ xs) zero h = h.0.bytes
get_or-Bytes n (x ∷ xs) (suc j) h = get_or-Bytes n xs j h.1

pub column-Short : (n : ℕ) (xs : List (List ℕ)) (p : ℕ) → AreShards n xs → Short (column xs p)
column-Short n xs p h j = word-lt (get_or xs j []) p (get_or-Bytes n xs j h)

pub product_at :
    (n : ℕ) (m : Matrix) (ins : List (List ℕ)) (i : ℕ) (rows : List (List ℕ)) (u : ℕ)
    → AreProducts n m ins i rows
    → u < length rows
    → IsShard n (get_or rows u [])
      × ((p : ℕ)
          → p < n
          → word (get_or rows u []) p ≡ dot (length ins) (entry m (i + u)) (column ins p))
product_at n m ins i [] u h lt = absurd (omega arith)
product_at n m ins i (row ∷ rows) zero h lt =
    let same : i ≡ i + 0 = omega arith in
    (h.0, λ p hp. h.1 p hp ∙ ap (λ r. dot (length ins) (entry m r) (column ins p)) same)
product_at n m ins i (row ∷ rows) (suc u) h lt =
    let same : suc i + u ≡ i + suc u = omega arith in
    let r = product_at n m ins (suc i) rows u h.2 (omega arith) in
    (r.0, λ p hp. r.1 p hp ∙ ap (λ r'. dot (length ins) (entry m r') (column ins p)) same)

pub get_or_front :
    (xs ys : List (List ℕ)) (t : ℕ) → t < length xs → get_or (xs ++ ys) t [] ≡ get_or xs t []
get_or_front [] ys t h = absurd (omega arith)
get_or_front (x ∷ xs) ys zero h = refl
get_or_front (x ∷ xs) ys (suc t) h = get_or_front xs ys t (omega arith)

pub get_or_back :
    (a : ℕ) (xs ys : List (List ℕ)) (t : ℕ)
    → length xs ≡ a
    → get_or (xs ++ ys) (a + t) [] ≡ get_or ys t []
get_or_back zero [] ys t e = ap (λ k. get_or ys k []) {x = 0 + t} {y = t} (omega arith)
get_or_back zero (x ∷ xs) ys t e = absurd (omega arith)
get_or_back (suc a) [] ys t e = absurd (omega arith)
get_or_back (suc a) (x ∷ xs) ys t e =
    ap (λ k. get_or ((x ∷ xs) ++ ys) k []) {x = suc a + t} {y = suc (a + t)} (omega arith)
    ∙ get_or_back a xs ys t (omega arith)

bytes_of_word :
    (a b c d : ℕ)
    → a < 256
    → b < 256
    → c < 256
    → d < 256
    → a + b * 2 ^ 8 ≡ c + d * 2 ^ 8
    → (a ≡ c) × (b ≡ d)
bytes_of_word a b c d ha hb hc hd e = (omega arith, omega arith)

-- A shard is determined by its words.
pub shard_ext :
    (n : ℕ) (xs ys : List ℕ)
    → IsShard n xs
    → IsShard n ys
    → ((p : ℕ) → p < n → word xs p ≡ word ys p)
    → xs ≡ ys
unfolding words
shard_ext zero [] [] hx hy e = refl
shard_ext zero [] (y ∷ ys) hx hy e = absurd (omega (arith, hy.size))
shard_ext zero (x ∷ xs) ys hx hy e = absurd (omega (arith, hx.size))
shard_ext (suc n) [] ys hx hy e = absurd (omega (arith, hx.size))
shard_ext (suc n) (x ∷ []) ys hx hy e = absurd (omega (arith, hx.size))
shard_ext (suc n) (x ∷ x' ∷ xs) [] hx hy e = absurd (omega (arith, hy.size))
shard_ext (suc n) (x ∷ x' ∷ xs) (y ∷ []) hx hy e = absurd (omega (arith, hy.size))
shard_ext (suc n) (x ∷ x' ∷ xs) (y ∷ y' ∷ ys) hx hy e =
    let b =
      bytes_of_word x x' y y' hx.bytes.0 hx.bytes.1.0 hy.bytes.0 hy.bytes.1.0 (e 0 (omega arith)) in
    ap₂ ◌∷◌ b.0 (
      ap₂ ◌∷◌ b.1 (
        shard_ext n xs ys (record { size = omega (arith, hx.size); bytes = hx.bytes.1.1 })
          (record { size = omega (arith, hy.size); bytes = hy.bytes.1.1 })
          (λ p lt. e (suc p) (omega arith))))

-- All shards from row `i` on.
abbrev pub restored : (ℕ → List ℕ) → ℕ → List (Option (List ℕ)) → List (Option (List ℕ))
restored f i [] = []
restored f i (s ∷ shards) = some (f i) ∷ restored f (suc i) shards

pub restored-map :
    (f : ℕ → List ℕ) (i : ℕ) (shards : List (Option (List ℕ))) (xs : List (List ℕ))
    → length shards ≡ length xs
    → ((j : ℕ) → j < length xs → f (i + j) ≡ get_or xs j [])
    → restored f i shards ≡ map some xs
restored-map f i [] [] e h = refl
restored-map f i [] (x ∷ xs) e h = absurd (omega arith)
restored-map f i (s ∷ shards) [] e h = absurd (omega arith)
restored-map f i (s ∷ shards) (x ∷ xs) e h =
    ap₂ (λ y (ys : List (Option (List ℕ))). some y ∷ ys)
      (ap f {x = i} {y = i + 0} (omega arith) ∙ h 0 (omega arith))
      (restored-map f (suc i) shards xs (omega arith)
        (λ j lt. ap f {x = suc i + j} {y = i + suc j} (omega arith) ∙ h (suc j) (omega arith)))

cons_not_nil : (x : ℕ) (xs : List ℕ) → ¬ (◌≡◌ {A = List ℕ} (x ∷ xs) [])
cons_not_nil x xs e = cc

cons_injective : (x y : ℕ) (xs ys : List ℕ) → (x ∷ xs) ≡ (y ∷ ys) → (x ≡ y) × (xs ≡ ys)
cons_injective x y xs ys e = (cc, cc)

set_shard_behind :
    (pre : List (Option (List ℕ))) (i : ℕ) (s : Option (List ℕ)) (x : List ℕ)
    (shards : List (Option (List ℕ)))
    → length pre ≡ i
    → set_shard (pre ++ (s ∷ shards)) i x ≡ pre ++ (some x ∷ shards)
unfolding set_shard
set_shard_behind [] zero s x shards e = refl
set_shard_behind [] (suc i) s x shards e = absurd (omega arith)
set_shard_behind (p ∷ pre) zero s x shards e = absurd (omega arith)
set_shard_behind (p ∷ pre) (suc i) s x shards e =
    ap (◌∷◌ p) (set_shard_behind pre i s x shards (omega arith))

missing_some :
    (i : ℕ) (s : List ℕ) (shards : List (Option (List ℕ)))
    → (split_rows i (some s ∷ shards)).missing ≡ (split_rows (suc i) shards).missing
unfolding split_rows
missing_some i s shards =
    ap (λ k. (split_rows k shards).missing) {x = i + 1} {y = suc i} (omega arith)

missing_none :
    (i : ℕ) (shards : List (Option (List ℕ)))
    → (split_rows i (none ∷ shards)).missing ≡ i ∷ (split_rows (suc i) shards).missing
unfolding split_rows
missing_none i shards =
    ap (λ k. i ∷ (split_rows k shards).missing) {x = i + 1} {y = suc i} (omega arith)

no_rows : (i : ℕ) → (split_rows i []).missing ≡ []
unfolding split_rows
no_rows i = refl

-- The rebuilt shards fill every gap.
pub fill_shards-restored :
    (f : ℕ → List ℕ) (i : ℕ) (pre shards : List (Option (List ℕ))) (rs : List ℕ)
    (outs : List (List ℕ))
    → length pre ≡ i
    → AreDamaged f i shards
    → rs ≡ (split_rows i shards).missing
    → length outs ≡ length rs
    → ((t : ℕ) → t < length rs → get_or outs t [] ≡ f (nth rs t))
    → fill_shards rs outs (pre ++ shards) ≡ pre ++ restored f i shards
unfolding fill_shards
fill_shards-restored f i pre [] [] outs e d es l h = refl
fill_shards-restored f i pre [] (r ∷ rs) outs e d es l h =
    absurd (cons_not_nil r rs (es ∙ no_rows i))
fill_shards-restored f i pre (some s ∷ shards) rs outs e d es l h =
    let first : (some s ∷ shards) ≡ (some (f i) ∷ shards) = ap (λ x. some x ∷ shards) d.0 in
    ap (λ (ss : List (Option (List ℕ))). fill_shards rs outs (pre ++ ss)) first
    ∙ ap (fill_shards rs outs) (sym (append_assoc pre (some (f i) ∷ []) shards))
    ∙ fill_shards-restored f (suc i) (pre ++ (some (f i) ∷ [])) shards rs outs
        (length-append pre (some (f i) ∷ []) ∙ omega arith) d.1 (es ∙ missing_some i s shards) l h
    ∙ append_assoc pre (some (f i) ∷ []) (restored f (suc i) shards)
fill_shards-restored f i pre (none ∷ shards) [] outs e d es l h =
    absurd (cons_not_nil i (split_rows (suc i) shards).missing (sym (es ∙ missing_none i shards)))
fill_shards-restored f i pre (none ∷ shards) (r ∷ rs) [] e d es l h = absurd (omega arith)
fill_shards-restored f i pre (none ∷ shards) (r ∷ rs) (o ∷ outs) e d es l h =
    let parts : (r ≡ i) × (rs ≡ (split_rows (suc i) shards).missing) =
      cons_injective r i rs (split_rows (suc i) shards).missing (es ∙ missing_none i shards) in
    let value : o ≡ f i = h 0 (omega arith) ∙ ap f parts.0 in
    ap (λ k. fill_shards rs outs (set_shard (pre ++ (none ∷ shards)) k o)) parts.0
    ∙ ap (fill_shards rs outs) (
        set_shard_behind pre i none o shards e
        ∙ ap (λ x. pre ++ (some x ∷ shards)) value
        ∙ sym (append_assoc pre (some (f i) ∷ []) shards))
    ∙ fill_shards-restored f (suc i) (pre ++ (some (f i) ∷ [])) shards rs outs
        (length-append pre (some (f i) ∷ []) ∙ omega arith) d parts.1 (omega arith)
        (λ t lt. h (suc t) (omega arith))
    ∙ append_assoc pre (some (f i) ∷ []) (restored f (suc i) shards)
