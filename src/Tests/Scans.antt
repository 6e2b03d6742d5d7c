-- ===== src/Tests/Scans.antt =====
-- par2/decoder.go at concrete buffers: a slice that an inserted byte has moved, and aligned slices.
use gopar_turbo.Base.{ℕ, ◌≡◌, arith, true, false, List, [], ◌∷◌, replicate, ◌≤◌, ◌+◌, refl}
use gopar_turbo.Par2.Scan.{
  ChecksumShardLocationMap, ShardLocation, FileIntegrityInfo, ScanPolicy, ScanState, scan_buffer,
  scan_rounds, stopped, plain_round, scan_start, put,
}
use gopar_turbo.Par2.Scan.Rolling.{scan_buffer-plain}
use gopar_turbo.Par2.Scan.Counts.{shard_counts}
use gopar_turbo.Par2.Scan.Aligned.{IsScanned, scan_buffer-IsScanned}
use gopar_turbo.Par2.Crc32.{checksum_ieee}

abbrev same_hash : List ℕ → List ℕ
same_hash xs = replicate 16 0

abbrev first_place : ShardLocation
first_place = record { file_id = replicate 16 1; start = 0 }

abbrev known_slices : ChecksumShardLocationMap
known_slices = put (λ c h. []) (checksum_ieee (1 ∷ 2 ∷ 3 ∷ 4 ∷ [])) (replicate 16 0) first_place

abbrev misaligned : ScanPolicy
misaligned = record { find_misaligned = true; search_limit = 0 }

abbrev nothing_found : List FileIntegrityInfo
nothing_found =
    record {
      file_id = replicate 16 1;
      missing = false;
      hash_mismatch = false;
      has_wrong_byte_count = false;
      shard_infos = record { present = false; found_at = first_place; locations = [] } ∷ [];
    }
    ∷ []

scan_buffer-plain_example :
    scan_buffer same_hash 4
      (9 ∷ 1 ∷ 2 ∷ 3 ∷ 4 ∷ [])
      5
      0
      known_slices
      (replicate 16 1)
      (λ id. 0)
      misaligned
      3
      nothing_found
    ≡ scan_rounds 5
        (plain_round same_hash 4
          (9 ∷ 1 ∷ 2 ∷ 3 ∷ 4 ∷ [])
          5
          0
          known_slices
          (replicate 16 1)
          (λ id. 0)
          misaligned)
        3
        (scan_start nothing_found)
scan_buffer-plain_example =
    scan_buffer-plain same_hash 4 (9 ∷ 1 ∷ 2 ∷ 3 ∷ 4 ∷ []) 5 0 known_slices (replicate 16 1)
      (λ id. 0) misaligned (omega arith)
      (omega arith, (omega arith, (omega arith, (omega arith, (omega arith, tt))))) (omega arith) 3
      nothing_found

-- Every slice is the first slice of the file.
abbrev any_slice : ChecksumShardLocationMap
any_slice crc32 md5_hash = first_place ∷ []

abbrev aligned : ScanPolicy
aligned = record { find_misaligned = false; search_limit = 0 }

abbrev known_buffer : List ℕ
known_buffer = 1 ∷ 2 ∷ 3 ∷ 4 ∷ 5 ∷ 6 ∷ []

scan_buffer-IsScanned_example :
    (s : ScanState) × (scan_buffer same_hash 4 known_buffer 6 0 any_slice
        (replicate 16 1)
        (λ id. 0)
        aligned
        6
        nothing_found
      ≡ stopped s)
    × IsScanned same_hash 4 known_buffer 6 0 any_slice
        (replicate 16 1)
        (λ id. 0)
        aligned
        0
        nothing_found
        s
    × ((shard_counts nothing_found []).usable_data_shard_count
        ≤ (shard_counts s.infos []).usable_data_shard_count)
    × ((shard_counts nothing_found []).usable_data_shard_count
          + (shard_counts nothing_found []).unusable_data_shard_count
        ≡ (shard_counts s.infos []).usable_data_shard_count
          + (shard_counts s.infos []).unusable_data_shard_count)
scan_buffer-IsScanned_example =
    scan_buffer-IsScanned same_hash 4 known_buffer 6 0 any_slice (replicate 16 1) (λ id. 0) aligned
      (omega arith) (omega arith) refl 6 nothing_found [] (omega arith) (λ crc hash. (tt, tt))
