-- ===== src/Par2/Scan/Aligned.antt =====
-- par2/decoder.go: a scan that does not look for misaligned slices.
use gopar_turbo.Base.{
  ℕ, zero, suc, ◌+◌, ◌*◌, ◌≤◌, ◌<◌, ◌≡◌, refl, ap, subst, arith, Bool, true, false, ◌==◌, lt→ltb,
  ge→ltb, inl, inr, Bool-cases, Option, none, some, List, [], ◌∷◌, length,
}
use gopar_turbo.Par2.Crc32.{checksum_ieee}
use gopar_turbo.Par2.Scan.{
  ShardLocation, ShardIntegrityInfo, FileIntegrityInfo, ChecksumShardLocationMap, ScanPolicy,
  ScanState, stopped, scan_after, scan_rounds, scan_start, slice_and_pad_byte_array, mark_found,
  hit_round, miss_round, current_slice, look_up, rolling_crc, after_crc, scan_round, scan_buffer,
}
use gopar_turbo.Par2.Scan.Found.{IsRecorded, IsThere, FilesGrew, FilesGrew-refl, FilesGrew-trans}
use gopar_turbo.Par2.Scan.Marked.{AtAll, AtAll_grows, mark_found-IsRecorded}
use gopar_turbo.Par2.Scan.Counts.{shard_counts, shard_counts-FilesGrew}
use native.Mathlib.Decide.{dec_lt}

module _ (md5 : List ℕ → List ℕ) (slice_byte_count : ℕ) (bytes : List ℕ) (limit base_offset : ℕ)
    (checksum_to_location : ChecksumShardLocationMap) (file_id : List ℕ)
    (file_id_indices : List ℕ → ℕ) (policy : ScanPolicy) where
  -- The slice at `j`, its known places, and the location that it has in the file.
  abbrev pub slice_at : ℕ → List ℕ
  slice_at j = slice_and_pad_byte_array bytes j (j + slice_byte_count)

  abbrev pub known_at : ℕ → List ShardLocation
  known_at j = checksum_to_location (checksum_ieee (slice_at j)) (md5 (slice_at j))

  abbrev pub location_at : ℕ → ShardLocation
  location_at j = record { file_id = file_id; start = base_offset + j }

  -- The slice at `j` is recorded for every shard that it is known to be.
  abbrev pub IsRecordedAt : ℕ → List FileIntegrityInfo → Type 0
  IsRecordedAt j infos =
      AtAll (IsRecorded (location_at j)) file_id_indices slice_byte_count (known_at j) infos

  -- All the shards of the checksum map are there.
  abbrev pub IsKnown : List FileIntegrityInfo → Type 0
  IsKnown infos =
      (crc : ℕ) (hash : List ℕ)
      → AtAll IsThere file_id_indices slice_byte_count (checksum_to_location crc hash) infos

  -- What a scan from `j` on ends with.
  pub record IsScanned (j : ℕ) (infos : List FileIntegrityInfo) (s : ScanState) : Type 0 where
    pub ends : limit ≤ s.j
    pub grew : FilesGrew infos s.infos
    pub recorded :
        (k : ℕ) → j + k * slice_byte_count < limit → IsRecordedAt (j + k * slice_byte_count) s.infos

  module _ (whole : 0 < slice_byte_count) (within : limit ≤ length bytes)
      (aligned : policy.find_misaligned ≡ false) where
    nothing_found :
        (Q : ShardIntegrityInfo → Type 0) (found : List ShardLocation)
        → (length found == 0) ≡ true
        → (infos : List FileIntegrityInfo) → AtAll Q file_id_indices slice_byte_count found infos
    nothing_found Q [] h infos = tt
    nothing_found Q (x ∷ found) h infos = ground arith

    hit_round-mark_found :
        (s : ScanState) (found : List ShardLocation) (infos : List FileIntegrityInfo)
        → mark_found md5 slice_byte_count bytes limit base_offset checksum_to_location file_id
            file_id_indices policy
            (location_at s.j)
            found
            s.infos
          ≡ some infos
        → hit_round md5 slice_byte_count bytes limit base_offset checksum_to_location file_id
            file_id_indices policy s found
          ≡ some (record s {
            j = s.j + slice_byte_count;
            hits = s.hits + 1;
            just_missed = false;
            infos = infos;
          })
    unfolding hit_round
    hit_round-mark_found s found infos e =
        ap
          (λ o. elim o as (λ _. Option ScanState) [
            | none ↦ none
            | some infos ↦ some (record s {
              j = s.j + slice_byte_count;
              hits = s.hits + 1;
              just_missed = false;
              infos = infos;
            })
          ])
          e

    look_up_aligned :
        (s : ScanState)
        → IsKnown s.infos
        → (s' : ScanState) × (look_up md5 slice_byte_count bytes limit base_offset
              checksum_to_location file_id file_id_indices policy s
              (checksum_ieee (slice_at s.j))
            ≡ some s')
          × (s'.j ≡ s.j + slice_byte_count)
          × (s'.just_missed ≡ false)
          × FilesGrew s.infos s'.infos
          × IsRecordedAt s.j s'.infos
    unfolding look_up current_slice miss_round
    look_up_aligned s known = elim (Bool-cases (length (known_at s.j) == 0)) [
      | inl missed ↦ (
        record s {
          j = s.j + slice_byte_count;
          misses = s.misses + 1;
          just_missed = false;
          crc_slice = checksum_ieee (slice_at s.j);
        },
        rw (missed, aligned) refl,
        refl,
        refl,
        FilesGrew-refl s.infos,
        nothing_found (IsRecorded (location_at s.j)) (known_at s.j) missed s.infos,
      )
      | inr hit ↦
          let (infos, e, grew, recorded) =
            mark_found-IsRecorded md5 slice_byte_count bytes limit base_offset checksum_to_location
              file_id file_id_indices policy whole (location_at s.j) (known_at s.j) s.infos
              (known (checksum_ieee (slice_at s.j)) (md5 (slice_at s.j))) in
          (
            record s {
              j = s.j + slice_byte_count;
              hits = s.hits + 1;
              just_missed = false;
              crc_slice = checksum_ieee (slice_at s.j);
              infos = infos;
            },
            rw hit (
                hit_round-mark_found (record s { crc_slice = checksum_ieee (slice_at s.j) })
                  (known_at s.j) infos e),
            refl,
            refl,
            grew,
            recorded,
          )
    ]

    scan_round-look_up :
        (s : ScanState)
        → s.just_missed ≡ false
        → s.j < limit
        → scan_round md5 slice_byte_count bytes limit base_offset checksum_to_location file_id
            file_id_indices policy s
          ≡ look_up md5 slice_byte_count bytes limit base_offset checksum_to_location file_id
              file_id_indices policy s
              (checksum_ieee (slice_at s.j))
    unfolding scan_round rolling_crc after_crc current_slice
    scan_round-look_up s fresh lt = rw (ge→ltb (length bytes) s.j (omega arith), fresh) refl

    ended : (s : ScanState) → limit ≤ s.j → IsScanned s.j s.infos s
    ended s over = record {
      ends = over;
      grew = FilesGrew-refl s.infos;
      recorded = λ k h. absurd (omega arith);
    }

    later_recorded :
        (j next_j : ℕ) (next last : List FileIntegrityInfo)
        → next_j ≡ j + slice_byte_count
        → IsRecordedAt j next
        → FilesGrew next last
        → ((k : ℕ)
            → next_j + k * slice_byte_count < limit
            → IsRecordedAt (next_j + k * slice_byte_count) last)
        → (k : ℕ) → j + k * slice_byte_count < limit
        → IsRecordedAt (j + k * slice_byte_count) last
    later_recorded j next_j next last e here grew later zero h =
        subst (λ t. IsRecordedAt t last) {x = j} {y = j + zero * slice_byte_count} (omega arith)
          (AtAll_grows (IsRecorded (location_at j)) (λ x y g r. g.recorded (location_at j) r)
            file_id_indices slice_byte_count (known_at j) next last grew here)
    later_recorded j next_j next last e here grew later (suc k) h =
        subst (λ t. IsRecordedAt t last) {x = next_j + k * slice_byte_count}
          {y = j + suc k * slice_byte_count} (omega (arith, e)) (later k (omega (arith, e)))

    scan_rounds-IsScanned :
        (n : ℕ) (s : ScanState)
        → s.just_missed ≡ false
        → IsKnown s.infos
        → limit ≤ s.j + n
        → (s' : ScanState) × (scan_rounds limit
              (scan_round md5 slice_byte_count bytes limit base_offset checksum_to_location file_id
                file_id_indices policy)
              n
              s
            ≡ stopped s')
          × IsScanned s.j s.infos s'
    unfolding scan_rounds scan_after
    scan_rounds-IsScanned zero s fresh known enough =
        let over : limit ≤ s.j = omega arith in (s, rw (ge→ltb s.j limit over) refl, ended s over)
    scan_rounds-IsScanned (suc n) s fresh known enough = elim (dec_lt s.j limit) [
      | no over ↦
          let past : limit ≤ s.j = omega arith in (s, rw (ge→ltb s.j limit past) refl, ended s past)
      | yes lt ↦
          let (next, e, j_eq, fresh', grew, here) = look_up_aligned s known in
          let (last, e', rest) =
            scan_rounds-IsScanned n next fresh'
              (λ crc hash.
                AtAll_grows IsThere (λ x y g t. t) file_id_indices slice_byte_count
                  (checksum_to_location crc hash) s.infos next.infos grew (known crc hash))
              (omega arith) in
          (
            last,
            rw (lt→ltb s.j limit lt, scan_round-look_up s fresh lt, e) e',
            record {
              ends = rest.ends;
              grew = FilesGrew-trans s.infos next.infos last.infos grew rest.grew;
              recorded =
                  later_recorded s.j next.j next.infos last.infos j_eq here rest.grew rest.recorded;
            },
          )
    ]

    -- With the search for misaligned slices off, a positive slice size, a limit within the bytes, as
    -- many rounds as the limit and a checksum map whose shards are all there, scanBuffer comes to its end, at the limit or
    -- past it. Every slice from a slice boundary before the limit on is then recorded, with its
    -- location, for every shard that the map knows it as; no usable shard, place or location of the
    -- records is lost; and the usable and the unusable data shards are as many together as before.
    pub scan_buffer-IsScanned :
        (n : ℕ) (infos : List FileIntegrityInfo) (parity_present : List Bool)
        → limit ≤ n
        → IsKnown infos
        → (s : ScanState) × (scan_buffer md5 slice_byte_count bytes limit base_offset
              checksum_to_location file_id file_id_indices policy n infos
            ≡ stopped s)
          × IsScanned 0 infos s
          × ((shard_counts infos parity_present).usable_data_shard_count
              ≤ (shard_counts s.infos parity_present).usable_data_shard_count)
          × ((shard_counts infos parity_present).usable_data_shard_count
                + (shard_counts infos parity_present).unusable_data_shard_count
              ≡ (shard_counts s.infos parity_present).usable_data_shard_count
                + (shard_counts s.infos parity_present).unusable_data_shard_count)
    unfolding scan_buffer
    scan_buffer-IsScanned n infos parity_present enough known =
        let (s, e, scanned) = scan_rounds-IsScanned n (scan_start infos) refl known (omega arith) in
        let counts = shard_counts-FilesGrew infos s.infos parity_present scanned.grew in
        (s, e, scanned, counts.0, counts.1)
