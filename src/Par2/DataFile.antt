-- ===== src/Par2/DataFile.antt =====
-- par2/data_file.go: the packets and the shards of a data file, and sixteenKHash and
-- scanWindowSize of par2/decoder.go. A slice byte count is positive.
use gopar_turbo.Base.{
  ℕ, zero, suc, ◌+◌, ◌*◌, ◌/◌, ◌^◌, ◌≤◌, ◌<◌, ◌≡◌, ◌∙◌, ap, arith, ltb, lt→ltb, if◌then◌else◌, some,
  List, [], ◌∷◌, length, take, get_elem?,
}
use gopar_turbo.Par2.Wire.{put_le}
use native.Mathlib.Nat.{mul-le-mul_right, lt-div-mul-add}
use gopar_turbo.Par2.Crc32.{checksum_ieee}
use gopar_turbo.Par2.Ifsc.{ChecksumPair, IfscPacket}
use gopar_turbo.Par2.FileDescription.{FileDescriptionPacket, compute_file_id}
use gopar_turbo.Par2.Scan.{slice_and_pad_byte_array}

-- `scanWindowSize`.
pub scan_window_size : ℕ → ℕ
scan_window_size slice_byte_count =
    let n = 2 ^ 20 / slice_byte_count + 1 in (if ltb 2 n then n else 2) * slice_byte_count

-- The window has at least two slices and a megabyte.
scan_window_size-fits :
    (slice_byte_count : ℕ)
    → 0 < slice_byte_count
    → (2 * slice_byte_count ≤ scan_window_size slice_byte_count)
      × (2 ^ 20 ≤ scan_window_size slice_byte_count)
unfolding scan_window_size
scan_window_size-fits n h =
    let q = 2 ^ 20 / n in
    let m = if ltb 2 (q + 1) then q + 1 else 2 in
    let two : 2 ≤ m = ground arith in
    let many : q + 1 ≤ m = ground arith in
    let first = mul-le-mul_right {m = 2} {n = m} n two in
    let second = mul-le-mul_right {m = q + 1} {n = m} n many in
    let rest : 2 ^ 20 < q * n + n = lt-div-mul-add {a = 2 ^ 20} {b = n} h in (first, omega arith)

-- What `computeDataFileInfo` returns.
pub record DataFileInfo : Type 0 where
  pub file_id : List ℕ
  pub file_description : FileDescriptionPacket
  pub ifsc : IfscPacket
  pub data_shards : List (List ℕ)

module _ (md5 : List ℕ → List ℕ) where
  -- `sixteenKHash`.
  pub sixteen_k_hash : List ℕ → List ℕ
  sixteen_k_hash data_bytes =
      if ltb (length data_bytes) (16 * 1024)
      then md5 data_bytes
      else md5 (take (16 * 1024) data_bytes)

  -- The data shards of the loop of `computeDataFileInfo`, from `i` on.
  pub data_shards_from : ℕ → ℕ → List ℕ → ℕ → List (List ℕ)
  data_shards_from zero slice_byte_count data_bytes i = []
  data_shards_from (suc rounds) slice_byte_count data_bytes i =
      let rest = data_shards_from rounds slice_byte_count data_bytes (i + slice_byte_count) in
      if ltb i (length data_bytes)
      then slice_and_pad_byte_array data_bytes i (i + slice_byte_count) ∷ rest
      else []

  -- The pairs that it computes from them.
  pub checksum_pairs_of : List (List ℕ) → List ChecksumPair
  checksum_pairs_of [] = []
  checksum_pairs_of (slice ∷ slices) =
      record { md5 = md5 slice; crc32 = put_le 4 (checksum_ieee slice) } ∷ checksum_pairs_of slices

  -- `computeDataFileInfo`.
  pub compute_data_file_info : ℕ → List ℕ → List ℕ → DataFileInfo
  compute_data_file_info slice_byte_count filename data_bytes =
      let data_shards = data_shards_from (length data_bytes) slice_byte_count data_bytes 0 in
      record {
        file_id = compute_file_id md5 (sixteen_k_hash data_bytes) (length data_bytes) filename;
        file_description = record {
          hash = md5 data_bytes;
          sixteen_k_hash = sixteen_k_hash data_bytes;
          byte_count = length data_bytes;
          filename = filename;
        };
        ifsc = record { checksum_pairs = checksum_pairs_of data_shards };
        data_shards = data_shards;
      }

  -- The shard at each slice boundary of the file is the slice there, padded.
  data_shards_from-slice :
      (rounds slice_byte_count : ℕ) (data_bytes : List ℕ) (i k : ℕ)
      → 0 < slice_byte_count
      → length data_bytes ≤ i + rounds
      → i + k * slice_byte_count < length data_bytes
      → get_elem? (data_shards_from rounds slice_byte_count data_bytes i) k
        ≡ some (
            slice_and_pad_byte_array data_bytes
              (i + k * slice_byte_count)
              (i + k * slice_byte_count + slice_byte_count))
  unfolding data_shards_from
  data_shards_from-slice zero n bs i k h enough lt = absurd (omega arith)
  data_shards_from-slice (suc rounds) n bs i zero h enough lt =
      rw (lt→ltb i (length bs) (omega arith)) (
        ap (λ t. some (slice_and_pad_byte_array bs t (t + n))) {x = i} {y = i + zero * n}
          (omega arith))
  data_shards_from-slice (suc rounds) n bs i (suc k) h enough lt =
      rw (lt→ltb i (length bs) (omega arith)) (
        data_shards_from-slice rounds n bs (i + n) k h (omega arith) (omega arith)
        ∙ ap (λ t. some (slice_and_pad_byte_array bs t (t + n))) {x = i + n + k * n}
            {y = i + suc k * n} (omega arith))
