-- ===== src/Par2/Scan/Found.antt =====
-- par2/decoder.go: what it is for a found shard to be recorded, and for records to grow.
use gopar_turbo.Base.{
  ℕ, zero, suc, ◌≡◌, refl, ◌∙◌, ap, true, ==_refl, inl, inr, Bool-cases, List, [], ◌∷◌, ◌++◌,
}
use gopar_turbo.Par2.Wire.{same_refl}
use gopar_turbo.Par2.Scan.{
  ShardLocation, ShardIntegrityInfo, FileIntegrityInfo, same_location, has_location, add_location,
}

-- `P` of shard `i` of the shards, and of shard `i` of file `f`.
abbrev pub AtShard : (ShardIntegrityInfo → Type 0) → ℕ → List ShardIntegrityInfo → Type 0
AtShard P i [] = ⊥
AtShard P zero (x ∷ xs) = P x
AtShard P (suc i) (x ∷ xs) = AtShard P i xs

abbrev pub AtFile : (ShardIntegrityInfo → Type 0) → ℕ → ℕ → List FileIntegrityInfo → Type 0
AtFile P f i [] = ⊥
AtFile P zero i (x ∷ xs) = AtShard P i x.shard_infos
AtFile P (suc f) i (x ∷ xs) = AtFile P f i xs

-- The shard is usable, and the location is among those where it was found.
abbrev pub IsRecorded : ShardLocation → ShardIntegrityInfo → Type 0
IsRecorded location info = (info.present ≡ true) × (has_location info.locations location ≡ true)

-- There is such a shard.
abbrev pub IsThere : ShardIntegrityInfo → Type 0
IsThere info = Unit

-- A usable shard stays usable, with the place where it was found first and with all its locations.
pub record Grew (x y : ShardIntegrityInfo) : Type 0 where
  pub stays : x.present ≡ true → y.present ≡ true
  pub found_at_eq : x.present ≡ true → y.found_at ≡ x.found_at
  pub recorded : (location : ShardLocation) → IsRecorded location x → IsRecorded location y

-- The same for the shards of a file, as many as before, and for files that are otherwise unchanged.
abbrev pub ShardsGrew : List ShardIntegrityInfo → List ShardIntegrityInfo → Type 0
ShardsGrew [] [] = Unit
ShardsGrew [] (y ∷ ys) = ⊥
ShardsGrew (x ∷ xs) [] = ⊥
ShardsGrew (x ∷ xs) (y ∷ ys) = Grew x y × ShardsGrew xs ys

abbrev pub FilesGrew : List FileIntegrityInfo → List FileIntegrityInfo → Type 0
FilesGrew [] [] = Unit
FilesGrew [] (y ∷ ys) = ⊥
FilesGrew (x ∷ xs) [] = ⊥
FilesGrew (x ∷ xs) (y ∷ ys) =
    ((y ≡ record x { shard_infos = y.shard_infos }) × ShardsGrew x.shard_infos y.shard_infos)
    × FilesGrew xs ys

pub Grew-refl : (x : ShardIntegrityInfo) → Grew x x
Grew-refl x = record { stays = λ h. h; found_at_eq = λ h. refl; recorded = λ l h. h }

Grew-trans : (x y z : ShardIntegrityInfo) → Grew x y → Grew y z → Grew x z
Grew-trans x y z g h = record {
  stays = λ p. h.stays (g.stays p);
  found_at_eq = λ p. h.found_at_eq (g.stays p) ∙ g.found_at_eq p;
  recorded = λ l p. h.recorded l (g.recorded l p);
}

pub ShardsGrew-refl : (xs : List ShardIntegrityInfo) → ShardsGrew xs xs
ShardsGrew-refl [] = tt
ShardsGrew-refl (x ∷ xs) = (Grew-refl x, ShardsGrew-refl xs)

pub FilesGrew-refl : (xs : List FileIntegrityInfo) → FilesGrew xs xs
FilesGrew-refl [] = tt
FilesGrew-refl (x ∷ xs) = ((refl, ShardsGrew-refl x.shard_infos), FilesGrew-refl xs)

ShardsGrew-trans :
    (xs ys zs : List ShardIntegrityInfo) → ShardsGrew xs ys → ShardsGrew ys zs → ShardsGrew xs zs
ShardsGrew-trans [] [] zs g h = h
ShardsGrew-trans [] (y ∷ ys) zs g h = absurd g
ShardsGrew-trans (x ∷ xs) [] zs g h = absurd g
ShardsGrew-trans (x ∷ xs) (y ∷ ys) (z ∷ zs) g h =
    (Grew-trans x y z g.0 h.0, ShardsGrew-trans xs ys zs g.1 h.1)
ShardsGrew-trans (x ∷ xs) (y ∷ ys) [] g h = absurd h

pub FilesGrew-trans :
    (xs ys zs : List FileIntegrityInfo) → FilesGrew xs ys → FilesGrew ys zs → FilesGrew xs zs
FilesGrew-trans [] [] zs g h = h
FilesGrew-trans [] (y ∷ ys) zs g h = absurd g
FilesGrew-trans (x ∷ xs) [] zs g h = absurd g
FilesGrew-trans (x ∷ xs) (y ∷ ys) [] g h = absurd h
FilesGrew-trans (x ∷ xs) (y ∷ ys) (z ∷ zs) g h = (
  (
    h.0.0 ∙ ap (λ (t : FileIntegrityInfo). record t { shard_infos = z.shard_infos }) g.0.0,
    ShardsGrew-trans x.shard_infos y.shard_infos z.shard_infos g.0.1 h.0.1,
  ),
  FilesGrew-trans xs ys zs g.1 h.1,
)

-- What holds of a shard and survives its growth.
module _ (P : ShardIntegrityInfo → Type 0)
    (grows : (x y : ShardIntegrityInfo) → Grew x y → P x → P y) where
  shard_grows :
      (i : ℕ) (xs ys : List ShardIntegrityInfo) → ShardsGrew xs ys → AtShard P i xs → AtShard P i ys
  shard_grows i [] ys g h = absurd h
  shard_grows i (x ∷ xs) [] g h = absurd g
  shard_grows zero (x ∷ xs) (y ∷ ys) g h = grows x y g.0 h
  shard_grows (suc i) (x ∷ xs) (y ∷ ys) g h = shard_grows i xs ys g.1 h

  pub file_grows :
      (f i : ℕ) (xs ys : List FileIntegrityInfo)
      → FilesGrew xs ys
      → AtFile P f i xs
      → AtFile P f i ys
  file_grows f i [] ys g h = absurd h
  file_grows f i (x ∷ xs) [] g h = absurd g
  file_grows zero i (x ∷ xs) (y ∷ ys) g h = shard_grows i x.shard_infos y.shard_infos g.0.1 h
  file_grows (suc f) i (x ∷ xs) (y ∷ ys) g h = file_grows f i xs ys g.1 h

pub same_location_refl : (l : ShardLocation) → same_location l l ≡ true
unfolding same_location
same_location_refl l = rw (same_refl l.file_id, ==_refl l.start) refl

has_location-append :
    (xs ys : List ShardLocation) (l : ShardLocation)
    → has_location xs l ≡ true
    → has_location (xs ++ ys) l ≡ true
unfolding has_location
has_location-append [] ys l h = absurd cc
has_location-append (x ∷ xs) ys l h = elim (Bool-cases (same_location x l)) [
  | inl here ↦ rw here refl
  | inr there ↦ rw there (has_location-append xs ys l (rw there at h))
]

has_location-last :
    (xs : List ShardLocation) (l : ShardLocation) → has_location (xs ++ (l ∷ [])) l ≡ true
unfolding has_location
has_location-last [] l = rw (same_location_refl l) refl
has_location-last (x ∷ xs) l = elim (Bool-cases (same_location x l)) [
  | inl here ↦ rw here refl
  | inr there ↦ rw there (has_location-last xs l)
]

pub add_location-has_location :
    (xs : List ShardLocation) (l : ShardLocation) → has_location (add_location l xs) l ≡ true
unfolding add_location
add_location-has_location xs l = elim (Bool-cases (has_location xs l)) [
  | inl there ↦ rw there there
  | inr missing ↦ rw missing (has_location-last xs l)
]

pub has_location-add_location :
    (xs : List ShardLocation) (l m : ShardLocation)
    → has_location xs m ≡ true
    → has_location (add_location l xs) m ≡ true
unfolding add_location
has_location-add_location xs l m h = elim (Bool-cases (has_location xs l)) [
  | inl there ↦ rw there h
  | inr missing ↦ rw missing (has_location-append xs (l ∷ []) m h)
]
