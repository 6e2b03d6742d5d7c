-- ===== src/Rsec16/Reconstruct/Companion.antt =====
-- The rows of bytes that `ReconstructionMatrix` folds, and how they are read.
use gopar_turbo.Base.{
  ℕ, zero, suc, ◌+◌, ◌-◌, ◌*◌, ◌/◌, ◌%◌, ◌^◌, ◌≤◌, ◌<◌, ◌≡◌, refl, ◌∙◌, ap, arith, ◌==◌, ltb, leb,
  le→leb, ltb→lt, ltb→ge, true, false, Bool-cases, inl, inr, if◌then◌else◌, List, [], ◌∷◌, ◌++◌,
  length, get_or, take, drop, length-take, length-drop, length-append, replicate,
}
use gopar_turbo.Base.Loops.{ok}
use gopar_turbo.Gf2p16.Slice.Products.{words}
use gopar_turbo.Matrix.{Matrix}
use gopar_turbo.Matrix.Grid.{entry, IsElements}
use gopar_turbo.Matrix.RowOps.{at-entry}
use gopar_turbo.Rsec16.Words.{
  word, word_append, word-drop, word-take, take-Bytes, drop-Bytes, append-Bytes,
}
use gopar_turbo.Rsec16.Apply.Rows.{IsShard}
use gopar_turbo.Rsec16.Fold.{put_uint16, get_uint16, first_word}
use gopar_turbo.Rsec16.Fold.Product.{zero-IsShard, word-replicate}
use gopar_turbo.Rsec16.Reconstruct.{put_available, companion_row}
use gopar_turbo.Rsec16.Reconstruct.System.{nth, available_entry, IsSelection}
use gopar_turbo.Rsec16.Coder.Valid.{index-get_or}

split_word : (v : ℕ) → v < 2 ^ 16 → v % 2 ^ 8 + v / 2 ^ 8 % 2 ^ 8 * 2 ^ 8 ≡ v
split_word v h = omega arith

word-cons :
    (a b : ℕ) (xs : List ℕ) (p : ℕ) → word (a ∷ b ∷ xs) p ≡ get_or ((a + b * 2 ^ 8) ∷ words xs) p 0
unfolding words
word-cons a b xs p = refl

-- A buffer of which word `j` has been replaced.
record IsPut (n j v : ℕ) (buf buf' : List ℕ) : Type 0 where
  shard : IsShard n buf'
  value : (p : ℕ) → word buf' p ≡ (if p == j then v else word buf p)

put_uint16-IsPut :
    (n j v : ℕ) (buf : List ℕ)
    → j < n
    → v < 2 ^ 16
    → IsShard n buf
    → (buf' : List ℕ) × (put_uint16 buf j v ≡ ok buf') × IsPut n j v buf buf'
unfolding put_uint16
put_uint16-IsPut n j v buf hj hv h =
    let out = take (2 * j) buf ++ ((v % 2 ^ 8) ∷ (v / 2 ^ 8 % 2 ^ 8) ∷ drop (2 * j + 2) buf) in
    (
      out,
      rw (fits) refl,
      record {
        shard = record {
          size =
              length-append (take (2 * j) buf) _
              ∙ omega (arith, length-take (2 * j) buf, length-drop (2 * j + 2) buf, h.size);
          bytes =
              append-Bytes (take (2 * j) buf) _ (take-Bytes (2 * j) buf h.bytes)
                (omega arith, (omega arith, drop-Bytes (2 * j + 2) buf h.bytes));
        };
        value = λ p.
            word_append j (take (2 * j) buf) _ p (length-take (2 * j) buf ∙ omega (arith, h.size))
            ∙ parts p;
      },
    )
  where
    fits : leb (2 * j + 2) (length buf) ≡ true
    fits = le→leb (2 * j + 2) (length buf) (omega (arith, h.size))

    later :
        (q p : ℕ)
        → p ≡ j + q
        → word ((v % 2 ^ 8) ∷ (v / 2 ^ 8 % 2 ^ 8) ∷ drop (2 * j + 2) buf) q
          ≡ (if p == j then v else word buf p)
    later zero p e =
        word-cons (v % 2 ^ 8) (v / 2 ^ 8 % 2 ^ 8) (drop (2 * j + 2) buf) zero
        ∙ ground (arith, split_word v hv)
    later (suc q) p e =
        let other : (p == j) ≡ false = ground arith in
        rw other (
          word-cons (v % 2 ^ 8) (v / 2 ^ 8 % 2 ^ 8) (drop (2 * j + 2) buf) (suc q)
          ∙ word-drop (suc j) (2 * j + 2) buf q (omega arith)
          ∙ ap (word buf) {x = suc j + q} {y = p} (omega arith))

    parts :
        (p : ℕ)
        → (if ltb p j
            then word (take (2 * j) buf) p
            else word ((v % 2 ^ 8) ∷ (v / 2 ^ 8 % 2 ^ 8) ∷ drop (2 * j + 2) buf) (p - j))
          ≡ (if p == j then v else word buf p)
    parts p = elim (Bool-cases (ltb p j)) [
      | inl before ↦
          let lt = ltb→lt p j before in
          let other : (p == j) ≡ false = ground arith in
          rw (before, other) (word-take j (2 * j) buf p refl lt)
      | inr after ↦ let ge = ltb→ge p j after in rw after (later (p - j) p (omega arith))
    ]

first_word-word : (xs : List ℕ) → 2 ≤ length xs → first_word xs ≡ ok (word xs 0)
unfolding first_word words
first_word-word [] h = absurd (omega arith)
first_word-word (a ∷ []) h = absurd (omega arith)
first_word-word (a ∷ b ∷ xs) h = refl

-- `binary.LittleEndian.Uint16` reads word `j`.
pub get_uint16-word :
    (j : ℕ) (bs : List ℕ) → 2 * j + 2 ≤ length bs → get_uint16 bs j ≡ ok (word bs j)
unfolding get_uint16
get_uint16-word j bs h =
    first_word-word (drop (2 * j) bs) (omega (arith, length-drop (2 * j) bs))
    ∙ ap ok (word-drop j (2 * j) bs 0 refl ∙ ap (word bs) {x = j + 0} {y = j} (omega arith))

-- The words from `j` on are those of row `k` at the listed columns.
record ArePut (parity : Matrix) (n k j : ℕ) (rows buf buf' : List ℕ) : Type 0 where
  shard : IsShard n buf'
  inside : (t : ℕ) → t < length rows → word buf' (j + t) ≡ entry parity k (nth rows t)
  before : (p : ℕ) → p < j → word buf' p ≡ word buf p
  after : (p : ℕ) → j + length rows ≤ p → word buf' p ≡ word buf p

put_one :
    (parity : Matrix) (n k j row : ℕ) (rows buf buf1 buf2 : List ℕ)
    → IsPut n j (entry parity k row) buf buf1
    → ArePut parity n k (suc j) rows buf1 buf2
    → ArePut parity n k j (row ∷ rows) buf buf2
put_one parity n k j row rows buf buf1 buf2 p r = record {
  shard = r.shard;
  inside = inside';
  before = λ q lt. r.before q (omega arith) ∙ p.value q ∙ ground arith;
  after = λ q le. r.after q (omega arith) ∙ p.value q ∙ ground arith;
}
  where
    inside' :
        (t : ℕ) → t < length (row ∷ rows) → word buf2 (j + t) ≡ entry parity k (nth (row ∷ rows) t)
    inside' zero lt = r.before (j + 0) (omega arith) ∙ p.value (j + 0) ∙ ground arith
    inside' (suc t) lt =
        ap (word buf2) {x = j + suc t} {y = suc j + t} (omega arith) ∙ r.inside t (omega arith)

module _ (parity : Matrix) (elements : IsElements parity.elements) (n k : ℕ)
    (hk : k < parity.rows) where
  put_available-ArePut :
      (rows : List ℕ) (j : ℕ) (buf : List ℕ)
      → j + length rows ≤ n
      → ((t : ℕ) → t < length rows → nth rows t < parity.columns)
      → IsShard n buf
      → (buf' : List ℕ) × (put_available parity k j rows buf ≡ ok buf')
        × ArePut parity n k j rows buf buf'
  unfolding put_available
  put_available-ArePut [] j buf hj below h = (
    buf,
    refl,
    record {
      shard = h;
      inside = λ t lt. absurd (omega arith);
      before = λ p lt. refl;
      after = λ p lt. refl;
    },
  )
  put_available-ArePut (row ∷ rows) j buf hj below h =
      let next : j + 1 ≡ suc j = omega arith in
      let (buf1, e1, p1) =
        put_uint16-IsPut n j (entry parity k row) buf (omega arith) (elements _) h in
      let (buf2, e2, r) =
        put_available-ArePut rows (suc j) buf1 (omega arith) (λ t lt. below (suc t) (omega arith))
          p1.shard in
      (
        buf2,
        rw (at-entry parity k row hk (below 0 (omega arith)), e1, next) e2,
        put_one parity n k j row rows buf buf1 buf2 p1 r,
      )

-- The row of bytes holds the elements of the matrix that `makeReconstructionMatrix` would build.
pub record IsCompanion (n : ℕ) (g : ℕ → ℕ) (buf : List ℕ) : Type 0 where
  pub shard : IsShard n buf
  pub value : (p : ℕ) → p < n → word buf p ≡ g p

module _ (parity : Matrix) (available missing used : List ℕ)
    (s : IsSelection parity available missing used) (i : ℕ) (hi : i < length used) where
  companion_value :
      (buf1 buf2 : List ℕ)
      → ArePut parity parity.columns
          (nth used i)
          0
          available
          (replicate (2 * parity.columns) 0)
          buf1
      → IsPut parity.columns (length available + i) 1 buf1 buf2
      → (p : ℕ) → p < parity.columns
      → word buf2 p ≡ available_entry parity used available i p
  companion_value buf1 buf2 a b p lt = elim (Bool-cases (ltb p (length available))) [
    | inl front ↦
        let less = ltb→lt p (length available) front in
        let other : (p == (length available + i)) ≡ false = ground arith in
        b.value p
        ∙ rw (front, other) (ap (word buf1) {x = p} {y = 0 + p} (omega arith) ∙ a.inside p less)
    | inr behind ↦
        let ge = ltb→ge p (length available) behind in
        let same : (p == (length available + i)) ≡ (i == (p - length available)) = ground arith in
        b.value p ∙ rw (behind, same, a.after p (omega arith), word-replicate parity.columns p) refl
  ]

  pub companion_row-IsCompanion :
      (buf : List ℕ) × (companion_row parity.columns available used parity i ≡ ok buf)
      × IsCompanion parity.columns (available_entry parity used available i) buf
  unfolding companion_row
  companion_row-IsCompanion =
      let (buf1, e1, a) =
        put_available-ArePut parity s.elements parity.columns (nth used i) (s.used_below i hi)
          available 0 (replicate (2 * parity.columns) 0) (omega (arith, s.size)) s.available_below
          (zero-IsShard parity.columns) in
      let (buf2, e2, b) =
        put_uint16-IsPut parity.columns (length available + i) 1 buf1 (omega (arith, s.size))
          (omega arith) a.shard in
      (
        buf2,
        rw (index-get_or used i hi, e1) e2,
        record { shard = b.shard; value = companion_value buf1 buf2 a b },
      )
