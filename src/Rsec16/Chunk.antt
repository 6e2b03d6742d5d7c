-- ===== src/Rsec16/Chunk.antt =====
-- rsec16/par2_plan.go: the chunk size of a fold.
use gopar_turbo.Base.{
  ℕ, ◌+◌, ◌-◌, ◌*◌, ◌/◌, ◌%◌, ◌^◌, ◌≤◌, ◌<◌, ◌≡◌, arith, Bool, ◌==◌, if◌then◌else◌, min, max,
  positive→==,
}

-- The budget, with its default of 512 MiB.
unfoldable pub effective_budget : ℕ → ℕ
effective_budget budget = if budget == 0 then 512 * 2 ^ 20 else budget

-- `accelerated` is the result of `gf16.Accelerated`.
unfoldable pub fold_buffers : Bool → ℕ → ℕ
fold_buffers accelerated outputs = if accelerated then 2 * outputs + 49 else outputs + 2

unfoldable pub per_buffer : Bool → ℕ → ℕ → ℕ
per_buffer accelerated budget outputs =
    let per = effective_budget budget / fold_buffers accelerated outputs in
    if accelerated then per - min 4096 (per / 8) else per

-- `FoldChunkSize`, for sizes that are not negative.
unfoldable pub fold_chunk_size : Bool → ℕ → ℕ → ℕ → ℕ
fold_chunk_size accelerated budget slice_size outputs =
    let per = per_buffer accelerated budget outputs in
    if outputs == 0 then slice_size else min slice_size (max 2 (per - per % 2))

-- What a chunk size has to be.
pub record IsChunk (slice_size chunk : ℕ) : Type 0 where
  pub bound : chunk ≤ slice_size
  pub whole : chunk % 2 ≡ 0
  pub positive : 0 < chunk

even_chunk : (s per : ℕ) → s % 2 ≡ 0 → min s (max 2 (per - per % 2)) % 2 ≡ 0
even_chunk s per h = omega arith

-- For a positive even slice size and at least one output, the chunk is positive, even and not
-- larger than the slice.
pub fold_chunk_size-IsChunk :
    (accelerated : Bool) (budget slice_size outputs : ℕ)
    → 0 < slice_size
    → slice_size % 2 ≡ 0
    → 0 < outputs
    → IsChunk slice_size (fold_chunk_size accelerated budget slice_size outputs)
unfolding fold_chunk_size
fold_chunk_size-IsChunk a b s o hs he ho =
    let per = per_buffer a b o in
    rw (positive→== o ho)
      (record { bound = omega arith; whole = even_chunk s per he; positive = omega arith })
