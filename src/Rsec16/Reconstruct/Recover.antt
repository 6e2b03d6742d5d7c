-- ===== src/Rsec16/Reconstruct/Recover.antt =====
-- `ReconstructData` restores lost shards.
use gopar_turbo.Base.{
  ℕ, ◌+◌, ◌*◌, ◌<◌, ◌≤◌, ◌≡◌, refl, sym, ◌∙◌, ap, ap₂, arith, ◌==◌, ltb, ltb→lt, ltb→ge, inl, inr,
  Bool-cases, ==_iff, Option, some, List, [], ◌∷◌, ◌++◌, map, length, subst,
}
use gopar_turbo.Base.Loops.{ok, ◌>>=◌, Ensures, Ensures-bind}
use gopar_turbo.Matrix.{Matrix}
use gopar_turbo.Matrix.Grid.{entry}
use gopar_turbo.Matrix.Dot.{dot}
use gopar_turbo.Rsec16.Apply.Rows.{AreShards, column}
use gopar_turbo.Rsec16.Apply.Parallel.{AreProducts, IsSchedule}
use gopar_turbo.Rsec16.Apply.Product.{parallel-AreProducts}
use gopar_turbo.Rsec16.Apply.{apply_matrix_parallel_data}
use gopar_turbo.Rsec16.Coder.{Coder, lift}
use gopar_turbo.Rsec16.Reconstruct.{
  Rows, Parity, zero_rows, fill_shards, reconstruction_matrix, reconstruct_rows, reconstruct_data,
}
use gopar_turbo.Rsec16.Reconstruct.System.{nth, IsRecovery, IsDegenerate}
use gopar_turbo.Rsec16.Reconstruct.Folded.{
  reconstruction_matrix-IsRecovery, zero_rows-AreShards, length-zero_rows,
}
use gopar_turbo.Rsec16.Reconstruct.Restore.{
  shard_at, product_at, shard_ext, restored-map, fill_shards-restored,
}
use gopar_turbo.Rsec16.Reconstruct.Damage.{
  IsCoding, IsDamaged, IsUnrecoverable, shard, lift-Ensures, rows, chosen, intact, too_few, full,
  selection, input, length-input, input_shards, inputs,
}

module _ (schedule : ℕ → List ℕ) (fair : (count : ℕ) → IsSchedule count (schedule count)) (n : ℕ)
    (c : Coder) (original parity : List (List ℕ)) (h : IsCoding n c original parity)
    (shards parity_shards : List (Option (List ℕ))) (hd : IsDamaged original shards)
    (hp : IsDamaged parity parity_shards) where
  abbrev found : Rows
  found = rows n c original parity h shards parity_shards hd hp

  abbrev taken : Parity
  taken = chosen n c original parity h shards parity_shards hd hp

  module _ (lost : 0 < length found.missing)
      (enough : c.data_shards ≤ length (found.input ++ taken.input)) where
    abbrev inp : List (List ℕ)
    inp = input n c original parity h shards parity_shards hd hp lost enough

    size : length inp ≡ c.parity_matrix.columns
    size = length-input n c original parity h shards parity_shards hd hp lost enough

    inp_shards : AreShards n inp
    inp_shards = input_shards n c original parity h shards parity_shards hd hp lost enough

    same_count : length taken.used ≡ length found.missing
    same_count = (selection n c original parity h shards parity_shards hd hp lost enough).same

    below : (t : ℕ) → t < length found.missing → nth found.missing t < length original
    below t lt = omega (
      arith,
      (selection n c original parity h shards parity_shards hd hp lost enough).missing_below t lt,
      h.data_size,
    )

    module _ (m : Matrix)
        (r : IsRecovery c.parity_matrix found.available found.missing taken.used m) where
      -- Each output of the product is the lost shard.
      rebuilt_shard :
          (outs : List (List ℕ))
          → AreProducts n m inp 0 outs
          → length outs ≡ length found.missing
          → (t : ℕ) → t < length found.missing
          → shard outs t ≡ shard original (nth found.missing t)
      rebuilt_shard outs products l t lt =
          let q = product_at n m inp 0 outs t products (omega arith) in
          let place : 0 + t ≡ t = omega arith in
          shard_ext n (shard outs t) (shard original (nth found.missing t)) q.0
            (shard_at n original (nth found.missing t) h.data_shards (below t lt))
            (λ p hpn.
              q.1 p hpn
              ∙ ap₂ (λ k row. dot k (entry m row) (column inp p)) (size ∙ sym r.columns_eq) place
              ∙ sym (
                  r.recovers (column original p) (column inp p)
                    (inputs n c original parity h shards parity_shards hd hp lost enough p hpn) t
                    lt))

      rebuilt :
          (x : List ℕ) (xs : List (List ℕ))
          → inp ≡ (x ∷ xs)
          → Ensures
              (λ out. out ≡ map some original)
              (IsUnrecoverable c shards parity_shards)
              (lift (
                  apply_matrix_parallel_data schedule m
                    (x ∷ xs)
                    (zero_rows (length found.missing) (length x))
                    c.num_goroutines)
                >>= λ out. ok (fill_shards found.missing out shards))
      rebuilt x xs e =
          let hx : AreShards n (x ∷ xs) = subst (AreShards n) e inp_shards in
          let sx : length (x ∷ xs) ≡ c.parity_matrix.columns = sym (ap length e) ∙ size in
          let count = length found.missing in
          let blank = length-zero_rows count (2 * n) in
          let (outs, eo, l, products) =
            parallel-AreProducts schedule fair n m (x ∷ xs) (zero_rows count (2 * n))
              c.num_goroutines
              (record {
                elements = r.elements;
                some_inputs = omega arith;
                columns = omega (arith, sx, r.columns_eq);
                rows = omega (arith, blank, r.rows_eq);
                inputs = hx;
                outputs = zero_rows-AreShards count n;
              })
              (omega (arith, blank, lost)) h.goroutines in
          let products' : AreProducts n m inp 0 outs =
            subst (λ ins. AreProducts n m ins 0 outs) (sym e) products in
          rw (hx.0.size, eo)
            (fill_shards-restored (shard original) 0 [] shards found.missing outs refl hd.1 refl
                (l ∙ blank) (rebuilt_shard outs products' (l ∙ blank))
              ∙ restored-map (shard original) 0 shards original hd.0
                  (λ j lt. ap (shard original) {x = 0 + j} {y = j} (omega arith)))

    rows_rebuilt :
        (ins : List (List ℕ))
        → inp ≡ ins
        → Ensures
            (λ out. out ≡ map some original)
            (IsUnrecoverable c shards parity_shards)
            (reconstruct_rows schedule c found taken shards ins)
    unfolding reconstruct_rows
    rows_rebuilt [] e = absurd (
        omega (
          arith,
          ap length e,
          size,
          same_count,
          lost,
          full n c original parity h shards parity_shards hd hp lost enough,
        ))
    rows_rebuilt (x ∷ xs) e =
        Ensures-bind (IsRecovery c.parity_matrix found.available found.missing taken.used) _
          (IsUnrecoverable c shards parity_shards)
          (lift (reconstruction_matrix c found.available found.missing taken.used)) _
          (lift-Ensures (IsRecovery c.parity_matrix found.available found.missing taken.used)
            (λ _. IsDegenerate c.parity_matrix found.missing taken.used)
            (IsUnrecoverable c shards parity_shards)
            (reconstruction_matrix c found.available found.missing taken.used)
            (reconstruction_matrix-IsRecovery c found.available found.missing taken.used h.columns
              (selection n c original parity h shards parity_shards hd hp lost enough))
            (λ e' degenerate. degenerate))
          (λ m r. rebuilt m r x xs e)

  -- For data shards of the same even number of bytes, parity shards that are the products of the
  -- coder's matrix with them, and any of both lost, `ReconstructData` does not panic, in whatever
  -- order its goroutines run. If it returns no error, then the data shards are all restored.
  -- It reports too few parity shards only if fewer shards are left than there are data shards, and
  -- another error only if the parity matrix at the used and the missing rows is singular.
  pub reconstruct_data-Ensures :
      Ensures
        (λ out. out ≡ map some original)
        (IsUnrecoverable c shards parity_shards)
        (reconstruct_data schedule c shards parity_shards)
  unfolding reconstruct_data
  reconstruct_data-Ensures = elim (Bool-cases (length found.missing == 0)) [
    | inl none_lost ↦ rw none_lost (
        intact n c original parity h shards parity_shards hd hp
          ((==_iff (length found.missing) 0).0 none_lost))
    | inr some_lost ↦ elim (Bool-cases (ltb (length (found.input ++ taken.input)) c.data_shards)) [
      | inl few ↦
          rw (some_lost, few)
            (too_few n c original parity h shards parity_shards hd hp
              (ltb→lt (length (found.input ++ taken.input)) c.data_shards few))
      | inr enough ↦
          rw (some_lost, enough)
            (rows_rebuilt (ground arith)
              (ltb→ge (length (found.input ++ taken.input)) c.data_shards enough)
              (found.input ++ taken.input) refl)
    ]
  ]
