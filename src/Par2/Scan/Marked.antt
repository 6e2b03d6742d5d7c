-- ===== src/Par2/Scan/Marked.antt =====
-- par2/decoder.go: what `scanBuffer` does to the records at a place where it finds shards.
use gopar_turbo.Base.{
  ℕ, zero, suc, ◌/◌, ◌<◌, ◌≡◌, refl, true, false, inl, inr, Bool-cases, positive→==, Option, none,
  some, List, [], ◌∷◌,
}
use gopar_turbo.Par2.Scan.{
  ShardLocation, ShardIntegrityInfo, FileIntegrityInfo, ChecksumShardLocationMap, ScanPolicy,
  has_location, update_at, found_shard, found_in_file, in_file, mark_found,
}
use gopar_turbo.Par2.Scan.Found.{
  AtShard, AtFile, IsRecorded, IsThere, Grew, ShardsGrew, FilesGrew, Grew-refl, ShardsGrew-refl,
  FilesGrew-refl, FilesGrew-trans, file_grows, same_location_refl, add_location-has_location,
  has_location-add_location,
}

found_shard-IsRecorded :
    (l : ShardLocation) (x : ShardIntegrityInfo) → IsRecorded l (found_shard l x)
unfolding found_shard has_location
found_shard-IsRecorded l x = elim (Bool-cases x.present) [
  | inl here ↦ rw here (refl, add_location-has_location x.locations l)
  | inr missing ↦ rw (missing, same_location_refl l) (refl, refl)
]

found_shard-Grew : (l : ShardLocation) (x : ShardIntegrityInfo) → Grew x (found_shard l x)
unfolding found_shard
found_shard-Grew l x = elim (Bool-cases x.present) [
  | inl here ↦ rw here (record {
    stays = λ h. refl;
    found_at_eq = λ h. refl;
    recorded = λ m h. (refl, has_location-add_location x.locations l m h.1);
  })
  | inr missing ↦ record {
    stays = λ h. absurd (unusable missing h);
    found_at_eq = λ h. absurd (unusable missing h);
    recorded = λ m h. absurd (unusable missing h.0);
  }
]
  where
    unusable : x.present ≡ false → x.present ≡ true → ⊥
    unusable f t = cc

update_at-found_shard :
    (l : ShardLocation) (i : ℕ) (xs : List ShardIntegrityInfo)
    → AtShard IsThere i xs
    → (ys : List ShardIntegrityInfo) × (update_at (found_shard l) i xs ≡ some ys)
      × ShardsGrew xs ys
      × AtShard (IsRecorded l) i ys
unfolding update_at
update_at-found_shard l i [] h = absurd h
update_at-found_shard l zero (x ∷ xs) h = (
  found_shard l x ∷ xs,
  refl,
  (found_shard-Grew l x, ShardsGrew-refl xs),
  found_shard-IsRecorded l x,
)
update_at-found_shard l (suc i) (x ∷ xs) h =
    let (ys, e, grew, marked) = update_at-found_shard l i xs h in
    (x ∷ ys, rw e refl, (Grew-refl x, grew), marked)

in_file-found :
    (f i : ℕ) (l : ShardLocation) (xs : List FileIntegrityInfo)
    → AtFile IsThere f i xs
    → (ys : List FileIntegrityInfo) × (in_file f i l xs ≡ some ys)
      × FilesGrew xs ys
      × AtFile (IsRecorded l) f i ys
unfolding in_file found_in_file
in_file-found f i l [] h = absurd h
in_file-found zero i l (x ∷ xs) h =
    let (infos, e, grew, marked) = update_at-found_shard l i x.shard_infos h in
    (
      record x { shard_infos = infos } ∷ xs,
      in_first (update_at (found_shard l) i x.shard_infos) infos e,
      ((refl, grew), FilesGrew-refl xs),
      marked,
    )
  where
    in_first :
        (o : Option (List ShardIntegrityInfo)) (infos : List ShardIntegrityInfo)
        → o ≡ some infos
        → (elim (elim o as (λ _. Option FileIntegrityInfo) [
          | none ↦ none
          | some infos' ↦ some (record x { shard_infos = infos' })
        ])
            as (λ _. Option (List FileIntegrityInfo)) [
              | none ↦ none
              | some info' ↦ some (info' ∷ xs)
            ])
          ≡ some (record x { shard_infos = infos } ∷ xs)
    in_first o infos e = rw e refl
in_file-found (suc f) i l (x ∷ xs) h =
    let (ys, e, grew, marked) = in_file-found f i l xs h in
    (x ∷ ys, rw e refl, ((refl, ShardsGrew-refl x.shard_infos), grew), marked)

-- `P` of the shards of all the locations of `found`.
abbrev pub AtAll :
    (ShardIntegrityInfo → Type 0)
    → (List ℕ → ℕ)
    → ℕ
    → List ShardLocation
    → List FileIntegrityInfo
    → Type 0
AtAll P file_id_indices slice_byte_count [] infos = Unit
AtAll P file_id_indices slice_byte_count (place ∷ found) infos =
    AtFile P (file_id_indices place.file_id) (place.start / slice_byte_count) infos
    × AtAll P file_id_indices slice_byte_count found infos

pub AtAll_grows :
    (P : ShardIntegrityInfo → Type 0)
    → ((x y : ShardIntegrityInfo) → Grew x y → P x → P y)
    → (index : List ℕ → ℕ) (n : ℕ) (found : List ShardLocation) (xs ys : List FileIntegrityInfo)
    → FilesGrew xs ys
    → AtAll P index n found xs
    → AtAll P index n found ys
AtAll_grows P grows index n [] xs ys g h = tt
AtAll_grows P grows index n (place ∷ found) xs ys g h = (
  file_grows P grows (index place.file_id) (place.start / n) xs ys g h.0,
  AtAll_grows P grows index n found xs ys g h.1,
)

module _ (md5 : List ℕ → List ℕ) (slice_byte_count : ℕ) (bytes : List ℕ) (limit base_offset : ℕ)
    (checksum_to_location : ChecksumShardLocationMap) (file_id : List ℕ)
    (file_id_indices : List ℕ → ℕ) (policy : ScanPolicy) (whole : 0 < slice_byte_count) where
  -- Where all the shards found are there, they are recorded, and the records grow.
  pub mark_found-IsRecorded :
      (l : ShardLocation) (found : List ShardLocation) (infos : List FileIntegrityInfo)
      → AtAll IsThere file_id_indices slice_byte_count found infos
      → (infos' : List FileIntegrityInfo) × (mark_found md5 slice_byte_count bytes limit base_offset
            checksum_to_location file_id file_id_indices policy l found infos
          ≡ some infos')
        × FilesGrew infos infos'
        × AtAll (IsRecorded l) file_id_indices slice_byte_count found infos'
  unfolding mark_found
  mark_found-IsRecorded l [] infos h = (infos, refl, FilesGrew-refl infos, tt)
  mark_found-IsRecorded l (place ∷ found) infos h =
      let f = file_id_indices place.file_id in
      let i = place.start / slice_byte_count in
      let (middle, e, grew, marked) = in_file-found f i l infos h.0 in
      let (last, e', grew', marked') = mark_found-IsRecorded l found middle (
        AtAll_grows IsThere (λ x y g t. t) file_id_indices slice_byte_count found infos middle grew
          h.1) in
      (
        last,
        rw (positive→== slice_byte_count whole, e) e',
        FilesGrew-trans infos middle last grew grew',
        (
          file_grows (IsRecorded l) (λ x y g r. g.recorded l r) f i middle last grew' marked,
          marked',
        ),
      )
