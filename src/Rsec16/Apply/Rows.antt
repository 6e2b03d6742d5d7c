-- ===== src/Rsec16/Apply/Rows.antt =====
-- The words of the output rows are the products of the matrix with the words of the inputs.
use gopar_turbo.Base.{
  ℕ, suc, ◌+◌, ◌-◌, ◌*◌, ◌≤◌, ◌<◌, ◌≡◌, refl, sym, ◌∙◌, ap, ap₂, arith, true, false, ◌&&◌, leb, ltb,
  le→leb, if◌then◌else◌, List, [], ◌∷◌, ◌++◌, length, get_or, take, drop, length-take, length-drop,
  length-append, subst, Bool-cases, inl, inr, ltb→lt, lt→ltb, ltb→ge, ge→ltb, ◌⊎◌,
}
use gopar_turbo.Base.Loops.{ok}
use gopar_turbo.Bits.{◌⊕◌}
use gopar_turbo.Bits.Xor.{zero-xor}
use gopar_turbo.Gf2p16.{times}
use gopar_turbo.Gf2p16.Slice.Products.{Bytes}
use gopar_turbo.Matrix.{Matrix}
use gopar_turbo.Matrix.Grid.{entry, IsElements}
use gopar_turbo.Matrix.Dot.{dot}
use gopar_turbo.Matrix.RowOps.{at-entry}
use gopar_turbo.Par2.Wire.{slice}
use gopar_turbo.Rsec16.Words.{
  word, word_append, word-drop, word-take, take-Bytes, drop-Bytes, append-Bytes, mul-IsProduct,
  mul_and_add-IsProduct,
}
use gopar_turbo.Rsec16.Apply.{or_fault, data_range, add_inputs, fill_range}

-- Shards of `2 * n` bytes.
pub record IsShard (n : ℕ) (bs : List ℕ) : Type 0 where
  pub size : length bs ≡ 2 * n
  pub bytes : Bytes bs

abbrev pub AreShards : ℕ → List (List ℕ) → Type 0
AreShards n [] = Unit
AreShards n (x ∷ xs) = IsShard n x × AreShards n xs

-- Word `p` of every shard, as a vector.
abbrev pub column : List (List ℕ) → ℕ → ℕ → ℕ
column ins p j = word (get_or ins j []) p

-- A row of which the words from `a` to `b` have been replaced by those of `v`.
pub record IsFilled (n a b : ℕ) (v : ℕ → ℕ) (row row' : List ℕ) : Type 0 where
  pub shard : IsShard n row'
  pub value : (p : ℕ) → word row' p ≡ (if leb a p && ltb p b then v p else word row p)

splice-IsFilled :
    (n a b : ℕ) (v : ℕ → ℕ) (row out : List ℕ)
    → a ≤ b
    → b ≤ n
    → IsShard n row
    → IsShard (b - a) out
    → ((p : ℕ) → p < b - a → word out p ≡ v (a + p))
    → IsFilled n a b v row (take (2 * a) row ++ (out ++ drop (2 * b) row))
splice-IsFilled n a b v row out h k r o e = record {
  shard = record {
    size =
        length-append (take (2 * a) row) (out ++ drop (2 * b) row)
        ∙ omega (
          arith,
          length-append out (drop (2 * b) row),
          length-take (2 * a) row,
          length-drop (2 * b) row,
          r.size,
          o.size,
        );
    bytes =
        append-Bytes (take (2 * a) row) (out ++ drop (2 * b) row) (take-Bytes (2 * a) row r.bytes)
          (append-Bytes out (drop (2 * b) row) o.bytes (drop-Bytes (2 * b) row r.bytes));
  };
  value = λ p. word_append a (take (2 * a) row) (out ++ drop (2 * b) row) p front ∙ parts p;
}
  where
    later :
        (p : ℕ)
        → a ≤ p
        → (ltb p b ≡ true) ⊎ (ltb p b ≡ false)
        → (if ltb (p - a) (b - a)
            then word out (p - a)
            else word (drop (2 * b) row) (p - a - (b - a)))
          ≡ (if ltb p b then v p else word row p)
    later p from (inl before) =
        let less = ltb→lt p b before in
        let near : ltb (p - a) (b - a) ≡ true = lt→ltb (p - a) (b - a) (omega arith) in
        rw (before, near) (e (p - a) (omega arith) ∙ ap v {x = a + (p - a)} {y = p} (omega arith))
    later p from (inr after) =
        let beyond = ltb→ge p b after in
        let far : ltb (p - a) (b - a) ≡ false = ge→ltb (p - a) (b - a) (omega arith) in
        rw (after, far)
          (word-drop b (2 * b) row (p - a - (b - a)) refl
            ∙ ap (word row) {x = b + (p - a - (b - a))} {y = p} (omega arith))

    front : length (take (2 * a) row) ≡ 2 * a
    front = length-take (2 * a) row ∙ omega (arith, r.size)

    parts :
        (p : ℕ)
        → (if ltb p a then word (take (2 * a) row) p else word (out ++ drop (2 * b) row) (p - a))
          ≡ (if leb a p && ltb p b then v p else word row p)
    parts p = elim (Bool-cases (ltb p a)) [
      | inl before ↦
          let less = ltb→lt p a before in
          let out_of : leb a p ≡ false = ground arith in
          rw (before, out_of) (word-take a (2 * a) row p refl less)
      | inr after ↦
          let from : a ≤ p = ltb→ge p a after in
          let test : leb a p ≡ true = le→leb a p from in
          rw (after, test)
            (word_append (b - a) out (drop (2 * b) row) (p - a) o.size
              ∙ later p from (Bool-cases (ltb p b)))
    ]

module _ (n a b : ℕ) (order : a ≤ b) (inside : b ≤ n) where
  range_ok :
      (bs : List ℕ) → IsShard n bs → data_range bs (2 * a) (2 * b) ≡ ok (slice bs (2 * a) (2 * b))
  unfolding data_range
  range_ok bs h = ground (arith, h.size)

  range-IsShard : (bs : List ℕ) → IsShard n bs → IsShard (b - a) (slice bs (2 * a) (2 * b))
  unfolding slice
  range-IsShard bs h = record {
    size =
        length-take (2 * b - 2 * a) (drop (2 * a) bs)
        ∙ omega (arith, length-drop (2 * a) bs, h.size);
    bytes = take-Bytes (2 * b - 2 * a) (drop (2 * a) bs) (drop-Bytes (2 * a) bs h.bytes);
  }

  range-word :
      (bs : List ℕ) (p : ℕ) → p < b - a → word (slice bs (2 * a) (2 * b)) p ≡ word bs (a + p)
  unfolding slice
  range-word bs p h =
      word-take (b - a) (2 * b - 2 * a) (drop (2 * a) bs) p (omega arith) h
      ∙ word-drop a (2 * a) bs p refl

  -- The words of the range, once the inputs before `j` are added.
  record IsSum (m : Matrix) (i : ℕ) (input : ℕ → List ℕ) (j : ℕ) (out : List ℕ) : Type 0 where
    shard : IsShard (b - a) out
    value : (p : ℕ) → p < b - a → word out p ≡ dot j (entry m i) (λ k. word (input k) (a + p))

  module _ (m : Matrix) (i : ℕ) (hi : i < m.rows) (he : IsElements m.elements)
      (input : ℕ → List ℕ) where
    add_inputs-IsSum :
        (j : ℕ) (xs : List (List ℕ)) (out : List ℕ)
        → j + length xs ≤ m.columns
        → AreShards n xs
        → ((k : ℕ) → k < length xs → get_or xs k [] ≡ input (j + k))
        → IsSum m i input j out
        → (out' : List ℕ) × (add_inputs m i j xs (2 * a) (2 * b) out ≡ ok out')
          × IsSum m i input (j + length xs) out'
    unfolding add_inputs or_fault dot
    add_inputs-IsSum j [] out hj hx same s =
        let last : j ≡ j + 0 = omega arith in (out, refl, subst (λ k. IsSum m i input k out) last s)
    add_inputs-IsSum j (x ∷ xs) out hj hx same s =
        let c = entry m i j in
        let src = range-IsShard x hx.0 in
        let (out1, e1, r1) =
          mul_and_add-IsProduct (b - a) c (slice x (2 * a) (2 * b)) out (he _) src.bytes
            s.shard.bytes src.size s.shard.size in
        let here : x ≡ input j =
          same 0 (omega arith) ∙ ap input {x = j + 0} {y = j} (omega arith) in
        let s1 : IsSum m i input (suc j) out1 = record {
          shard = record { size = r1.size; bytes = r1.bytes };
          value = λ p hp.
              r1.value p
              ∙ ap₂ ◌⊕◌ (s.value p hp)
                  (ap (times c) (range-word x p hp ∙ ap (λ t. word t (a + p)) here));
        } in
        let next : j + 1 ≡ suc j = omega arith in
        let (out2, e2, s2) =
          add_inputs-IsSum (suc j) xs out1 (omega arith) hx.1
            (λ k hk.
              same (suc k) (omega arith) ∙ ap input {x = j + suc k} {y = suc j + k} (omega arith))
            s1 in
        (
          out2,
          rw (at-entry m i j hi (omega arith), range_ok x hx.0, e1, next) e2,
          subst (λ k. IsSum m i input k out2) {x = suc j + length xs} {y = j + length (x ∷ xs)}
              (omega arith) s2,
        )

  pub fill_range-IsFilled :
      (m : Matrix) (i : ℕ) (ins : List (List ℕ)) (row : List ℕ)
      → i < m.rows
      → IsElements m.elements
      → 0 < length ins
      → length ins ≤ m.columns
      → AreShards n ins
      → IsShard n row
      → (row' : List ℕ) × (fill_range m ins i (2 * a) (2 * b) row ≡ ok row')
        × IsFilled n a b (λ p. dot (length ins) (entry m i) (column ins p)) row row'
  unfolding fill_range or_fault dot
  fill_range-IsFilled m i [] row hi he some_in hc hx hr = absurd (omega arith)
  fill_range-IsFilled m i (x ∷ xs) row hi he some_in hc hx hr =
      let src = range-IsShard x hx.0 in
      let dest = range-IsShard row hr in
      let c = entry m i 0 in
      let input : ℕ → List ℕ = λ k. get_or (x ∷ xs) k [] in
      let (out1, e1, r1) =
        mul-IsProduct (b - a) c (slice x (2 * a) (2 * b)) (slice row (2 * a) (2 * b)) (he _)
          src.bytes dest.bytes src.size dest.size in
      let s1 : IsSum m i input 1 out1 = record {
        shard = record { size = r1.size; bytes = r1.bytes };
        value = λ p hp. r1.value p ∙ ap (times c) (range-word x p hp) ∙ sym (zero-xor _);
      } in
      let (out, e, s) =
        add_inputs-IsSum m i hi he input 1 xs out1 (omega arith) hx.1
          (λ k hk. ap (λ k'. get_or (x ∷ xs) k' []) {x = suc k} {y = 1 + k} (omega arith)) s1 in
      let size : 1 + length xs ≡ suc (length xs) = omega arith in
      let s' = subst (λ k. IsSum m i input k out) size s in
      (
        take (2 * a) row ++ (out ++ drop (2 * b) row),
        rw (range_ok row hr, at-entry m i 0 hi (omega arith), range_ok x hx.0, e1, e) refl,
        splice-IsFilled n a b (λ p. dot (suc (length xs)) (entry m i) (column (x ∷ xs) p)) row out
            order inside hr s'.shard s'.value,
      )
