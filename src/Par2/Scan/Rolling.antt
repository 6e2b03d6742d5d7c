-- ===== src/Par2/Scan/Rolling.antt =====
-- The scan by the rolling checksum does what a scan by checksums from scratch does.
use gopar_turbo.Base.{
  ℕ, zero, suc, ◌+◌, ◌-◌, ◌≤◌, ◌<◌, ◌≡◌, refl, sym, ◌∙◌, ap, ap₂, arith, Bool, true, false, not,
  ◌&&◌, ◌==◌, ltb, leb, ltb→lt, Bool-cases, inl, inr, if◌then◌else◌, Option, none, some, List, [],
  ◌∷◌, ◌++◌, length, drop, get_or,
}
use gopar_turbo.Par2.Wire.{IsBytes}
use gopar_turbo.Par2.Crc32.{Crc32Window, new_crc32_window, update, checksum_ieee}
use gopar_turbo.Par2.Crc32.Window.{update-checksum_ieee}
use gopar_turbo.Par2.Scan.{
  ShardLocation, ChecksumShardLocationMap, FileIntegrityInfo, ScanPolicy, ScanState, scan_after,
  scan_rounds, scan_start, slice_and_pad_byte_array, mark_found, hit_round, miss_round,
  current_slice, look_up, rolling_crc, after_crc, scan_round, plain_round, scan_buffer,
}
use gopar_turbo.Par2.Scan.Slices.{
  window, window_snoc, length-window, last_of_append, drop_one, byte_at, pad-window,
}

apart : (b : Bool) → b ≡ false → ¬ (b ≡ true)
apart b f t = cc

-- What holds of the state after a round.
abbrev AfterRound : (ScanState → Type 0) → Option ScanState → Type 0
AfterRound P none = Unit
AfterRound P (some s) = P s

scan_rounds_congr :
    (limit : ℕ) (f g : ScanState → Option ScanState) (P : ScanState → Type 0)
    → ((s : ScanState) → s.j < limit → P s → (f s ≡ g s) × AfterRound P (g s))
    → (n : ℕ) (s : ScanState) → P s
    → scan_rounds limit f n s ≡ scan_rounds limit g n s
unfolding scan_rounds scan_after
scan_rounds_congr limit f g P keep zero s h = refl
scan_rounds_congr limit f g P keep (suc n) s h = elim (Bool-cases (ltb s.j limit)) [
  | inl inside ↦
      let step = keep s (ltb→lt s.j limit inside) h in
      rw (inside, step.0)
        (next_congr (g s) step.1 (λ s' h'. scan_rounds_congr limit f g P keep n s' h'))
  | inr past ↦ rw past refl
]
  where
    next_congr :
        (o : Option ScanState)
        → AfterRound P o
        → ((s : ScanState) → P s → scan_rounds limit f n s ≡ scan_rounds limit g n s)
        → scan_after o (scan_rounds limit f n) ≡ scan_after o (scan_rounds limit g n)
    next_congr none h k = refl
    next_congr (some s) h k = k s h

module _ (md5 : List ℕ → List ℕ) (slice_byte_count : ℕ) (bytes : List ℕ) (limit base_offset : ℕ)
    (checksum_to_location : ChecksumShardLocationMap) (file_id : List ℕ)
    (file_id_indices : List ℕ → ℕ) (policy : ScanPolicy) where
  slice_at : ScanState → List ℕ
  slice_at =
      current_slice md5 slice_byte_count bytes limit base_offset checksum_to_location file_id
        file_id_indices policy

  -- After a miss by a byte, the checksum is that of the slice one byte before.
  record IsRolling (s : ScanState) : Type 0 where
    moved : s.just_missed ≡ true → 0 < s.j
    value :
        s.just_missed ≡ true
        → s.crc_slice
          ≡ checksum_ieee (slice_and_pad_byte_array bytes (s.j - 1) (s.j - 1 + slice_byte_count))

  fresh-IsRolling : (s : ScanState) → s.just_missed ≡ false → IsRolling s
  fresh-IsRolling s f = record {
    moved = λ t. absurd (apart s.just_missed f t);
    value = λ t. absurd (apart s.just_missed f t);
  }

  if-IsRolling :
      (b : Bool) (x y : ScanState) → IsRolling x → IsRolling y → IsRolling (if b then x else y)
  if-IsRolling true x y hx hy = hx
  if-IsRolling false x y hx hy = hy

  module _ (least : 4 ≤ slice_byte_count) (valid : IsBytes bytes)
      (inside : limit ≤ length bytes) where
    rolled :
        (i : ℕ)
        → suc i < length bytes
        → (w : Crc32Window) × (new_crc32_window slice_byte_count ≡ some w)
          × (update w
                (checksum_ieee (slice_and_pad_byte_array bytes i (i + slice_byte_count)))
                (get_or bytes i 0)
                (get_or
                  (slice_and_pad_byte_array bytes (suc i) (suc i + slice_byte_count))
                  (length (slice_and_pad_byte_array bytes (suc i) (suc i + slice_byte_count)) - 1)
                  0)
              ≡ checksum_ieee (slice_and_pad_byte_array bytes (suc i) (suc i + slice_byte_count)))
    unfolding window
    rolled i h =
        let m = slice_byte_count - 1 in
        let size : slice_byte_count ≡ suc m = omega arith in
        let a = get_or bytes i 0 in
        let rest = drop (suc i) bytes in
        let b = get_or rest m 0 in
        let first : slice_and_pad_byte_array bytes i (i + slice_byte_count) ≡ a ∷ window m rest =
          pad-window bytes i slice_byte_count (omega arith)
          ∙ ap₂ window size (drop_one i bytes (omega arith)) in
        let second : slice_and_pad_byte_array bytes (suc i) (suc i + slice_byte_count)
            ≡ window m rest ++ (b ∷ []) =
          pad-window bytes (suc i) slice_byte_count (omega arith)
          ∙ ap (λ k. window k rest) size
          ∙ window_snoc m rest in
        let (w, e, u) =
          update-checksum_ieee slice_byte_count a b (window m rest) least (byte_at bytes i valid)
            (omega (arith, length-window m rest)) in
        (w, e, rw (first, second, last_of_append (window m rest) b) u)

    rolled_crc :
        (j crc : ℕ)
        → 0 < j
        → j < length bytes
        → crc ≡ checksum_ieee (slice_and_pad_byte_array bytes (j - 1) (j - 1 + slice_byte_count))
        → (w : Crc32Window) × (new_crc32_window slice_byte_count ≡ some w)
          × (update w crc (get_or bytes (j - 1) 0) (
                get_or
                  (slice_and_pad_byte_array bytes j (j + slice_byte_count))
                  (length (slice_and_pad_byte_array bytes j (j + slice_byte_count)) - 1)
                  0)
              ≡ checksum_ieee (slice_and_pad_byte_array bytes j (j + slice_byte_count)))
    rolled_crc zero crc pos h e = absurd (omega arith)
    rolled_crc (suc i) crc pos h e =
        let back : suc i - 1 ≡ i = omega arith in
        let (w, ew, u) = rolled i h in (w, ew, rw (e, back) u)

    rolling_crc-checksum :
        (s : ScanState)
        → s.j < limit
        → IsRolling s
        → rolling_crc md5 slice_byte_count bytes limit base_offset checksum_to_location file_id
            file_id_indices policy s
          ≡ some (checksum_ieee (slice_at s))
    unfolding rolling_crc slice_at current_slice
    rolling_crc-checksum s h r = elim (Bool-cases s.just_missed) [
      | inl missed ↦
          let (w, e, u) =
            rolled_crc s.j s.crc_slice (r.moved missed) (omega (arith, h, inside))
              (r.value missed) in
          rw (missed, e) (ap some u)
      | inr fresh ↦ rw fresh refl
    ]

    miss-IsRolling :
        (s : ScanState)
        → s.crc_slice ≡ checksum_ieee (slice_at s)
        → IsRolling (
            miss_round md5 slice_byte_count bytes limit base_offset checksum_to_location file_id
              file_id_indices policy s)
    unfolding miss_round slice_at current_slice
    miss-IsRolling s e =
        let slide_start = if s.just_missed then s.slide_start else s.j in
        let back : s.j + 1 - 1 ≡ s.j = omega arith in
        if-IsRolling (not policy.find_misaligned) _ _ (fresh-IsRolling _ refl) (
          if-IsRolling
            (ltb 0 policy.search_limit && leb policy.search_limit (s.j + 1 - slide_start)) _ _
            (fresh-IsRolling _ refl)
            (record {
              moved = λ t. omega arith;
              value = λ t.
                  e
                  ∙ ap
                      (λ k. checksum_ieee (slice_and_pad_byte_array bytes k (k + slice_byte_count)))
                      (sym back);
            }))

    hit-IsRolling :
        (s : ScanState) (found : List ShardLocation)
        → AfterRound IsRolling (
            hit_round md5 slice_byte_count bytes limit base_offset checksum_to_location file_id
              file_id_indices policy s found)
    unfolding hit_round
    hit-IsRolling s found = marked (
        mark_found md5 slice_byte_count bytes limit base_offset checksum_to_location file_id
          file_id_indices policy (record { file_id = file_id; start = base_offset + s.j }) found
          s.infos)
      where
        marked :
            (o : Option (List FileIntegrityInfo))
            → AfterRound IsRolling (elim o [
              | none ↦ none
              | some infos ↦ some (record s {
                j = s.j + slice_byte_count;
                hits = s.hits + 1;
                just_missed = false;
                infos = infos;
              })
            ])
        marked none = tt
        marked (some infos) = fresh-IsRolling _ refl

    look_up-IsRolling :
        (s : ScanState)
        → AfterRound IsRolling (
            look_up md5 slice_byte_count bytes limit base_offset checksum_to_location file_id
              file_id_indices policy s
              (checksum_ieee (slice_at s)))
    unfolding look_up slice_at current_slice
    look_up-IsRolling s =
        let crc = checksum_ieee (slice_at s) in
        let found = checksum_to_location crc (md5 (slice_at s)) in
        elim (Bool-cases (length found == 0)) [
          | inl missed ↦ rw missed (miss-IsRolling (record s { crc_slice = crc }) refl)
          | inr hit ↦ rw hit (hit-IsRolling (record s { crc_slice = crc }) found)
        ]

    plain-IsRolling :
        (s : ScanState)
        → AfterRound IsRolling (
            plain_round md5 slice_byte_count bytes limit base_offset checksum_to_location file_id
              file_id_indices policy s)
    unfolding plain_round slice_at
    plain-IsRolling s = unless (ltb (length bytes) s.j) _ (look_up-IsRolling s)
      where
        unless :
            (past : Bool) (o : Option ScanState)
            → AfterRound IsRolling o
            → AfterRound IsRolling (if past then none else o)
        unless true o h = tt
        unless false o h = h

    round-plain :
        (s : ScanState)
        → s.j < limit
        → IsRolling s
        → scan_round md5 slice_byte_count bytes limit base_offset checksum_to_location file_id
            file_id_indices policy s
          ≡ plain_round md5 slice_byte_count bytes limit base_offset checksum_to_location file_id
              file_id_indices policy s
    unfolding scan_round plain_round after_crc slice_at
    round-plain s h r = rw (rolling_crc-checksum s h r) refl

    -- For slices of at least four bytes, `scanBuffer` finds the same shards, hits and misses, and ends
    -- or panics at the same place, as a scan that takes the checksum of every slice from scratch: the
    -- rolling checksum of the search for misaligned shards is always the one of the slice.
    pub scan_buffer-plain :
        (n : ℕ) (infos : List FileIntegrityInfo)
        → scan_buffer md5 slice_byte_count bytes limit base_offset checksum_to_location file_id
            file_id_indices policy n infos
          ≡ scan_rounds limit
              (plain_round md5 slice_byte_count bytes limit base_offset checksum_to_location file_id
                file_id_indices policy)
              n
              (scan_start infos)
    unfolding scan_buffer
    scan_buffer-plain n infos =
        scan_rounds_congr limit
          (scan_round md5 slice_byte_count bytes limit base_offset checksum_to_location file_id
            file_id_indices policy)
          (plain_round md5 slice_byte_count bytes limit base_offset checksum_to_location file_id
            file_id_indices policy)
          IsRolling (λ s h r. (round-plain s h r, plain-IsRolling s)) n (scan_start infos)
          (fresh-IsRolling (scan_start infos) refl)
