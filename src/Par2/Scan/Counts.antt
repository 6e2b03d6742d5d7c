-- ===== src/Par2/Scan/Counts.antt =====
-- par2/decoder.go: the counts of usable and unusable shards, RepairNeeded and RepairPossible.
use gopar_turbo.Base.{
  ℕ, ◌+◌, ◌≤◌, ◌≡◌, refl, arith, Bool, true, false, ltb, leb, List, [], ◌∷◌, ◌++◌,
}
use gopar_turbo.Par2.Scan.{ShardIntegrityInfo, FileIntegrityInfo}
use gopar_turbo.Par2.Scan.Found.{ShardsGrew, FilesGrew}

pub record ShardCounts : Type 0 where
  pub usable_data_shard_count : ℕ
  pub unusable_data_shard_count : ℕ
  pub usable_parity_shard_count : ℕ
  pub unusable_parity_shard_count : ℕ

pub repair_needed : ShardCounts → Bool
repair_needed fc = ltb 0 fc.unusable_data_shard_count

pub repair_possible : ShardCounts → Bool
repair_possible fc = leb fc.unusable_data_shard_count fc.usable_parity_shard_count

-- The counters of a loop over `present`.
pub usable : List Bool → ℕ
usable [] = 0
usable (true ∷ present) = usable present + 1
usable (false ∷ present) = usable present

pub unusable : List Bool → ℕ
unusable [] = 0
unusable (true ∷ present) = unusable present
unusable (false ∷ present) = unusable present + 1

-- `present` of the shards of a file, and of all files.
pub shards_present : List ShardIntegrityInfo → List Bool
shards_present [] = []
shards_present (info ∷ infos) = info.present ∷ shards_present infos

pub data_present : List FileIntegrityInfo → List Bool
data_present [] = []
data_present (info ∷ infos) = shards_present info.shard_infos ++ data_present infos

pub shard_counts : List FileIntegrityInfo → List Bool → ShardCounts
shard_counts infos parity_present = record {
  usable_data_shard_count = usable (data_present infos);
  unusable_data_shard_count = unusable (data_present infos);
  usable_parity_shard_count = usable parity_present;
  unusable_parity_shard_count = unusable parity_present;
}

-- At least as many usable ones, of as many in all.
abbrev Keeps : List Bool → List Bool → Type 0
Keeps ps qs = (usable ps ≤ usable qs) × (usable ps + unusable ps ≡ usable qs + unusable qs)

Keeps-cons :
    (b c : Bool) (ps qs : List Bool) → (b ≡ true → c ≡ true) → Keeps ps qs → Keeps (b ∷ ps) (c ∷ qs)
unfolding usable unusable
Keeps-cons true true ps qs stays h = (omega (arith, h.0), omega (arith, h.1))
Keeps-cons false true ps qs stays h = (omega (arith, h.0), omega (arith, h.1))
Keeps-cons false false ps qs stays h = (omega (arith, h.0), omega (arith, h.1))
Keeps-cons true false ps qs stays h = absurd (lost (stays refl))
  where
    lost : false ≡ true → ⊥
    lost e = cc

usable-append : (ps qs : List Bool) → usable (ps ++ qs) ≡ usable ps + usable qs
unfolding usable
usable-append [] qs = omega arith
usable-append (true ∷ ps) qs = omega (arith, usable-append ps qs)
usable-append (false ∷ ps) qs = usable-append ps qs

unusable-append : (ps qs : List Bool) → unusable (ps ++ qs) ≡ unusable ps + unusable qs
unfolding unusable
unusable-append [] qs = omega arith
unusable-append (true ∷ ps) qs = unusable-append ps qs
unusable-append (false ∷ ps) qs = omega (arith, unusable-append ps qs)

Keeps-append :
    (ps ps' qs qs' : List Bool) → Keeps ps ps' → Keeps qs qs' → Keeps (ps ++ qs) (ps' ++ qs')
Keeps-append ps ps' qs qs' h k = (
  omega (arith, h.0, k.0, usable-append ps qs, usable-append ps' qs'),
  omega (
    arith,
    h.1,
    k.1,
    usable-append ps qs,
    usable-append ps' qs',
    unusable-append ps qs,
    unusable-append ps' qs',
  ),
)

shards_present-Keeps :
    (xs ys : List ShardIntegrityInfo)
    → ShardsGrew xs ys
    → Keeps (shards_present xs) (shards_present ys)
unfolding shards_present
shards_present-Keeps [] [] g = (omega arith, refl)
shards_present-Keeps [] (y ∷ ys) g = absurd g
shards_present-Keeps (x ∷ xs) [] g = absurd g
shards_present-Keeps (x ∷ xs) (y ∷ ys) g =
    Keeps-cons x.present y.present (shards_present xs) (shards_present ys) (λ h. g.0.stays h)
      (shards_present-Keeps xs ys g.1)

data_present-Keeps :
    (xs ys : List FileIntegrityInfo) → FilesGrew xs ys → Keeps (data_present xs) (data_present ys)
unfolding data_present
data_present-Keeps [] [] g = (omega arith, refl)
data_present-Keeps [] (y ∷ ys) g = absurd g
data_present-Keeps (x ∷ xs) [] g = absurd g
data_present-Keeps (x ∷ xs) (y ∷ ys) g =
    Keeps-append (shards_present x.shard_infos) (shards_present y.shard_infos) (data_present xs)
      (data_present ys) (shards_present-Keeps x.shard_infos y.shard_infos g.0.1)
      (data_present-Keeps xs ys g.1)

-- Records that grow keep their usable shards and the number of their shards.
pub shard_counts-FilesGrew :
    (xs ys : List FileIntegrityInfo) (parity_present : List Bool)
    → FilesGrew xs ys
    → ((shard_counts xs parity_present).usable_data_shard_count
        ≤ (shard_counts ys parity_present).usable_data_shard_count)
      × ((shard_counts xs parity_present).usable_data_shard_count
            + (shard_counts xs parity_present).unusable_data_shard_count
          ≡ (shard_counts ys parity_present).usable_data_shard_count
            + (shard_counts ys parity_present).unusable_data_shard_count)
unfolding shard_counts
shard_counts-FilesGrew xs ys parity_present g = data_present-Keeps xs ys g
