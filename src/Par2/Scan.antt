-- ===== src/Par2/Scan.antt =====
-- par2/decoder.go: the checksums of known shards, and the scan of a buffer for them. A map is a
-- function of its key, and a set is a list of its elements.
pub mod Slices
pub mod Rolling
pub mod Counts
pub mod Found
pub mod Marked
pub mod Aligned
use gopar_turbo.Base.{
  ℕ, zero, suc, ◌+◌, ◌-◌, ◌*◌, ◌/◌, Bool, true, false, not, ◌&&◌, ◌||◌, ◌==◌, ltb, leb,
  if◌then◌else◌, Option, none, some, List, [], ◌∷◌, ◌++◌, length, take, drop, get_or, replicate,
}
use gopar_turbo.Par2.Wire.{slice, same, get_le}
use gopar_turbo.Par2.Ifsc.{ChecksumPair}
use gopar_turbo.Par2.Crc32.{Crc32Window, new_crc32_window, update, checksum_ieee}

pub record ShardLocation : Type 0 where
  pub file_id : List ℕ
  pub start : ℕ

pub same_location : ShardLocation → ShardLocation → Bool
same_location a b = same a.file_id b.file_id && a.start == b.start

-- `set[location]` and `set[location] = true`.
pub has_location : List ShardLocation → ShardLocation → Bool
has_location [] location = false
has_location (x ∷ xs) location = same_location x location || has_location xs location

pub add_location : ShardLocation → List ShardLocation → List ShardLocation
add_location location set = if has_location set location then set else set ++ (location ∷ [])

-- `checksumShardLocationMap`: the locations by CRC-32 and MD5; none for a key that is not there.
abbrev pub ChecksumShardLocationMap : Type 0
ChecksumShardLocationMap = ℕ → List ℕ → List ShardLocation

pub put : ChecksumShardLocationMap → ℕ → List ℕ → ShardLocation → ChecksumShardLocationMap
put m crc32 md5_hash location =
    λ c h. if c == crc32 && same h md5_hash then add_location location (m c h) else m c h

-- The loop over the checksums of one file, from slice `i` on.
pub put_pairs :
    ℕ → List ℕ → ℕ → List ChecksumPair → ChecksumShardLocationMap → ChecksumShardLocationMap
put_pairs slice_byte_count file_id i [] m = m
put_pairs slice_byte_count file_id i (pair ∷ pairs) m =
    put_pairs slice_byte_count file_id (i + 1) pairs (
      put m (get_le pair.crc32) pair.md5
        (record { file_id = file_id; start = i * slice_byte_count }))

pub record ShardIntegrityInfo : Type 0 where
  pub present : Bool
  pub found_at : ShardLocation
  pub locations : List ShardLocation

-- `ok` of a shard.
pub shard_ok : ShardIntegrityInfo → ShardLocation → Bool
shard_ok info location = info.present && has_location info.locations location

pub record FileIntegrityInfo : Type 0 where
  pub file_id : List ℕ
  pub missing : Bool
  pub hash_mismatch : Bool
  pub has_wrong_byte_count : Bool
  pub shard_infos : List ShardIntegrityInfo

-- `allShardsOK`, from shard `i` on, and `ok` of a file.
pub shards_ok : ℕ → List ℕ → ℕ → List ShardIntegrityInfo → Bool
shards_ok slice_byte_count file_id i [] = true
shards_ok slice_byte_count file_id i (info ∷ infos) =
    shard_ok info (record { file_id = file_id; start = i * slice_byte_count })
    && shards_ok slice_byte_count file_id (i + 1) infos

pub all_shards_ok : ℕ → FileIntegrityInfo → Bool
all_shards_ok slice_byte_count info = shards_ok slice_byte_count info.file_id 0 info.shard_infos

pub file_ok : ℕ → FileIntegrityInfo → Bool
file_ok slice_byte_count info =
    not info.missing
    && (not info.hash_mismatch
        && (not info.has_wrong_byte_count && all_shards_ok slice_byte_count info))

-- `sliceAndPadByteArray`, for `start` within the bytes, as `scan_round` sees to.
pub slice_and_pad_byte_array : List ℕ → ℕ → ℕ → List ℕ
slice_and_pad_byte_array bs start stop =
    if ltb (length bs) stop
    then slice bs start (length bs) ++ replicate (stop - length bs) 0
    else slice bs start stop

-- `scanPolicy`.
pub record ScanPolicy : Type 0 where
  pub find_misaligned : Bool
  pub search_limit : ℕ

-- Element `i` replaced; `none` is a panic out of range.
pub update_at : {A : Type 0} → (A → A) → ℕ → List A → Option (List A)
update_at f i [] = none
update_at f zero (x ∷ xs) = some (f x ∷ xs)
update_at f (suc i) (x ∷ xs) = elim (update_at f i xs) [ none ↦ none | some ys ↦ some (x ∷ ys) ]

-- A shard found at a location.
pub found_shard : ShardLocation → ShardIntegrityInfo → ShardIntegrityInfo
found_shard location info =
    if info.present
    then record info { locations = add_location location info.locations }
    else record { present = true; found_at = location; locations = location ∷ [] }

pub found_in_file : ℕ → ShardLocation → FileIntegrityInfo → Option FileIntegrityInfo
found_in_file i location info = elim (update_at (found_shard location) i info.shard_infos) [
  | none ↦ none
  | some infos ↦ some (record info { shard_infos = infos })
]

pub in_file : ℕ → ℕ → ShardLocation → List FileIntegrityInfo → Option (List FileIntegrityInfo)
in_file f i location [] = none
in_file zero i location (info ∷ infos) = elim (found_in_file i location info) [
  | none ↦ none
  | some info' ↦ some (info' ∷ infos)
]
in_file (suc f) i location (info ∷ infos) = elim (in_file f i location infos) [
  | none ↦ none
  | some infos' ↦ some (info ∷ infos')
]

-- The state of `scanBuffer`.
pub record ScanState : Type 0 where
  pub j : ℕ
  pub hits : ℕ
  pub misses : ℕ
  pub just_missed : Bool
  pub crc_slice : ℕ
  pub slide_start : ℕ
  pub infos : List FileIntegrityInfo

-- How far a loop has come: still running, at a panic, or at its end.
pub data ScanResult : Type 0 where
  running : ScanResult
  panicked : ScanResult
  stopped : ScanState → ScanResult

pub scan_after : Option ScanState → (ScanState → ScanResult) → ScanResult
scan_after none rest = panicked
scan_after (some s) rest = rest s

-- `for j < limit`, a number of rounds of it.
pub scan_rounds : ℕ → (ScanState → Option ScanState) → ℕ → ScanState → ScanResult
scan_rounds limit round zero s = if ltb s.j limit then running else stopped s
scan_rounds limit round (suc n) s =
    let next = scan_after (round s) (scan_rounds limit round n) in
    if ltb s.j limit then next else stopped s

abbrev pub scan_start : List FileIntegrityInfo → ScanState
scan_start infos = record {
  j = 0;
  hits = 0;
  misses = 0;
  just_missed = false;
  crc_slice = 0;
  slide_start = 0;
  infos = infos;
}

module _ (md5 : List ℕ → List ℕ) (slice_byte_count : ℕ) (bytes : List ℕ) (limit base_offset : ℕ)
    (checksum_to_location : ChecksumShardLocationMap) (file_id : List ℕ)
    (file_id_indices : List ℕ → ℕ) (policy : ScanPolicy) where
  -- The loop over the found locations.
  pub mark_found :
      ShardLocation → List ShardLocation → List FileIntegrityInfo → Option (List FileIntegrityInfo)
  mark_found location [] infos = some infos
  mark_found location (found ∷ rest) infos =
      let marked : Option (List FileIntegrityInfo) =
        elim (in_file (file_id_indices found.file_id) (found.start / slice_byte_count) location
          infos) [ none ↦ none | some infos' ↦ mark_found location rest infos' ] in
      if slice_byte_count == 0 then none else marked

  pub hit_round : ScanState → List ShardLocation → Option ScanState
  hit_round s found =
      elim (mark_found (record { file_id = file_id; start = base_offset + s.j }) found s.infos) [
        | none ↦ none
        | some infos ↦ some (record s {
          j = s.j + slice_byte_count;
          hits = s.hits + 1;
          just_missed = false;
          infos = infos;
        })
      ]

  -- A miss.
  pub miss_round : ScanState → ScanState
  miss_round s =
      let misses = s.misses + 1 in
      let slide_start = if s.just_missed then s.slide_start else s.j in
      let next = s.j + 1 in
      if not policy.find_misaligned
      then record s { j = s.j + slice_byte_count; misses = misses; just_missed = false }
      else if ltb 0 policy.search_limit && leb policy.search_limit (next - slide_start)
      then record s {
        j = slide_start + slice_byte_count;
        misses = misses;
        just_missed = false;
        slide_start = slide_start;
      }
      else record s { j = next; misses = misses; just_missed = true; slide_start = slide_start }

  -- The slice at the cursor.
  pub current_slice : ScanState → List ℕ
  current_slice s = slice_and_pad_byte_array bytes s.j (s.j + slice_byte_count)

  -- What is done with the checksum of the slice.
  pub look_up : ScanState → ℕ → Option ScanState
  look_up s crc =
      let found = checksum_to_location crc (md5 (current_slice s)) in
      let missed = some (miss_round (record s { crc_slice = crc })) in
      let hit = hit_round (record s { crc_slice = crc }) found in
      if length found == 0 then missed else hit

  -- The checksum: from the last one after a miss by a byte, else from scratch.
  pub rolling_crc : ScanState → Option ℕ
  rolling_crc s =
      if s.just_missed
      then (elim (new_crc32_window slice_byte_count) [
        | none ↦ none
        | some window ↦ some (
            update window s.crc_slice (get_or bytes (s.j - 1) 0)
              (get_or (current_slice s) (length (current_slice s) - 1) 0))
      ])
      else some (checksum_ieee (current_slice s))

  pub after_crc : ScanState → Option ℕ → Option ScanState
  after_crc s none = none
  after_crc s (some crc) = look_up s crc

  -- A round; the slice of the bytes is a panic where the cursor is past their end.
  pub scan_round : ScanState → Option ScanState
  scan_round s =
      let next = after_crc s (rolling_crc s) in if ltb (length bytes) s.j then none else next

  -- `scanBuffer`, a number of rounds of it.
  pub scan_buffer : ℕ → List FileIntegrityInfo → ScanResult
  scan_buffer n infos = scan_rounds limit scan_round n (scan_start infos)

  -- A round of a scan that takes every checksum from scratch.
  pub plain_round : ScanState → Option ScanState
  plain_round s =
      let next = look_up s (checksum_ieee (current_slice s)) in
      if ltb (length bytes) s.j then none else next
