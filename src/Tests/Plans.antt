-- ===== src/Tests/Plans.antt =====
-- rsec16: the splits and the chunk sizes at concrete inputs.
use gopar_turbo.Base.{◌/◌, ◌<◌, ◌≡◌, ◌↔◌, refl, arith, false}
use gopar_turbo.Rsec16.Parallel.{
  calculate_parallel_params, range_of, IsIn, calculate_parallel_params-once, least_length, round_up,
}
use gopar_turbo.Rsec16.Chunk.{fold_chunk_size, fold_buffers, effective_budget, per_buffer}

calculate_parallel_params_runs : calculate_parallel_params 1000 7 16 16 ≡ (144, 7)
unfolding calculate_parallel_params least_length round_up
calculate_parallel_params_runs = refl

fold_chunk_size_runs : fold_chunk_size false 1000 4096 8 ≡ 100
unfolding fold_chunk_size fold_buffers effective_budget per_buffer
fold_chunk_size_runs = refl

calculate_parallel_params-once_example :
    (IsIn 500 (range_of 1000 (calculate_parallel_params 1000 7 16 16).0 3)
      ↔ (3 ≡ 500 / (calculate_parallel_params 1000 7 16 16).0))
    × (500 / (calculate_parallel_params 1000 7 16 16).0
        < (calculate_parallel_params 1000 7 16 16).1)
calculate_parallel_params-once_example =
    calculate_parallel_params-once 1000 7 16 16 500 3 (omega arith) (omega arith) (omega arith)
      (omega arith)
