-- ===== src/Rsec16/Reconstruct/Roundtrip.antt =====
-- `GenerateParity` makes what `ReconstructData` needs.
use gopar_turbo.Base.{
  ℕ, ◌*◌, ◌<◌, ◌≡◌, sym, ◌∙◌, arith, Option, some, List, [], ◌∷◌, map, length, subst,
}
use gopar_turbo.Base.Loops.{ok, Ensures, ok-injective}
use gopar_turbo.Rsec16.Apply.Rows.{AreShards}
use gopar_turbo.Rsec16.Apply.Parallel.{IsSchedule}
use gopar_turbo.Rsec16.Apply.Product.{parallel-AreProducts}
use gopar_turbo.Rsec16.Coder.{Coder}
use gopar_turbo.Rsec16.Coder.Valid.{IsCoder}
use gopar_turbo.Rsec16.Reconstruct.{zero_rows, generate_parity, reconstruct_data}
use gopar_turbo.Rsec16.Reconstruct.Folded.{zero_rows-AreShards, length-zero_rows}
use gopar_turbo.Rsec16.Reconstruct.Damage.{IsCoding, IsDamaged, IsUnrecoverable}
use gopar_turbo.Rsec16.Reconstruct.Recover.{reconstruct_data-Ensures}

-- A coder of positive counts with as many data shards as it asks for, all of the same even size.
pub record IsEncodable (d p g n : ℕ) (c : Coder) (original : List (List ℕ)) : Type 0 where
  pub coder : IsCoder d p g c
  pub data_positive : 0 < d
  pub parity_positive : 0 < p
  pub goroutines_positive : 0 < g
  pub count : length original ≡ d
  pub shards : AreShards n original

module _ (schedule : ℕ → List ℕ) (fair : (count : ℕ) → IsSchedule count (schedule count))
    (d p g n : ℕ) (c : Coder) where
  -- For a coder of positive counts and as many data shards as it asks for, all of the same even
  -- size, `GenerateParity` does not panic, in whatever order its goroutines run. It returns as many
  -- parity shards as the coder has, of the size of the data; their words are the products of the
  -- rows of the coder's matrix with the words of the data.
  pub generate_parity-IsCoding :
      (original : List (List ℕ))
      → IsEncodable d p g n c original
      → (parity : List (List ℕ)) × (generate_parity schedule c original ≡ ok parity)
        × IsCoding n c original parity
  unfolding generate_parity
  generate_parity-IsCoding [] h = absurd (omega (arith, h.count, h.data_positive))
  generate_parity-IsCoding (x ∷ xs) h =
      let k = h.coder in
      let blank = length-zero_rows c.parity_shards (2 * n) in
      let (parity, e, l, products) =
        parallel-AreProducts schedule fair n c.parity_matrix (x ∷ xs)
          (zero_rows c.parity_shards (2 * n)) c.num_goroutines
          (record {
            elements = k.elements;
            some_inputs = omega arith;
            columns = omega (arith, h.count, k.columns_eq);
            rows = omega (arith, blank, k.rows_eq, k.parity_eq);
            inputs = h.shards;
            outputs = zero_rows-AreShards c.parity_shards n;
          })
          (omega (arith, blank, k.parity_eq, h.parity_positive))
          (omega (arith, k.goroutines_eq, h.goroutines_positive)) in
      (
        parity,
        rw (h.shards.0.size) e,
        record {
          elements = k.elements;
          goroutines = omega (arith, k.goroutines_eq, h.goroutines_positive);
          columns = omega (arith, k.data_eq, k.columns_eq);
          data_size = omega (arith, h.count, k.columns_eq);
          parity_size = omega (arith, l, blank, k.rows_eq, k.parity_eq);
          data_shards = h.shards;
          products = products;
        },
      )

  -- What `ReconstructData` returns for damaged data and damaged parity that `GenerateParity` made
  -- of the data: all data shards, or an error if too few shards are left, or if the parity matrix
  -- at the used and the missing rows is singular. It does not panic.
  pub reconstruct-generate_parity :
      (original parity : List (List ℕ)) (shards parity_shards : List (Option (List ℕ)))
      → IsEncodable d p g n c original
      → generate_parity schedule c original ≡ ok parity
      → IsDamaged original shards
      → IsDamaged parity parity_shards
      → Ensures
          (λ out. out ≡ map some original)
          (IsUnrecoverable c shards parity_shards)
          (reconstruct_data schedule c shards parity_shards)
  reconstruct-generate_parity original parity shards parity_shards h e hd hp =
      let (made, e', coding) = generate_parity-IsCoding original h in
      let same : made ≡ parity = ok-injective made parity (sym e' ∙ e) in
      reconstruct_data-Ensures schedule fair n c original parity
        (subst (IsCoding n c original) same coding) shards parity_shards hd hp
