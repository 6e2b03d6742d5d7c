-- ===== src/Par2/Main.antt =====
-- par2/main_packet.go: the main packet, with the sorted file identifiers of the two sets.
pub mod FileIds
pub mod Packets
pub mod Roundtrip
use gopar_turbo.Base.{
  ℕ, zero, suc, ◌-◌, ◌/◌, ◌%◌, ◌^◌, Bool, true, false, not, ◌&&◌, ◌||◌, ◌==◌, ltb, leb,
  if◌then◌else◌, List, [], ◌∷◌, ◌++◌, length, take, drop, get_or,
}
use gopar_turbo.Base.Loops.{Outcome, failure, ok, ◌>>◌}
use gopar_turbo.Par2.Wire.{put_le, get_le, slice}

-- The loop of `fileIDLess`, from index `i - 1` down to 0.
unfoldable pub less_below : ℕ → List ℕ → List ℕ → Bool
less_below zero id1 id2 = false
less_below (suc i) id1 id2 =
    let rest = less_below i id1 id2 in
    if ltb (get_or id1 i 0) (get_or id2 i 0)
    then true
    else if ltb (get_or id2 i 0) (get_or id1 i 0)
    then false
    else rest

-- `fileIDLess`.
unfoldable pub file_id_less : List ℕ → List ℕ → Bool
file_id_less id1 id2 = less_below (length id1) id1 id2

-- `mainPacket`.
pub record MainPacket : Type 0 where
  pub slice_byte_count : ℕ
  pub recovery_set : List (List ℕ)
  pub non_recovery_set : List (List ℕ)

pub data MainError : Type 0 where
  eof : MainError
  unexpected_eof : MainError
  invalid_slice_size : MainError
  empty_recovery_set : MainError
  invalid_size : MainError
  not_enough_file_ids : MainError
  recovery_set_ids_not_sorted : MainError
  non_recovery_set_ids_not_sorted : MainError
  invalid_slice_byte_count : MainError
  recovery_set_too_big : MainError

-- `sort.SliceIsSorted` with `fileIDLess`: no identifier is less than the one before it.
unfoldable pub slice_is_sorted : List (List ℕ) → Bool
slice_is_sorted [] = true
slice_is_sorted (x ∷ []) = true
slice_is_sorted (x ∷ y ∷ xs) = not (file_id_less y x) && slice_is_sorted (y ∷ xs)

-- `checkFileIDSetsSorted`.
unfoldable pub check_file_id_sets_sorted :
    List (List ℕ) → List (List ℕ) → Outcome MainError (Unit {0})
check_file_id_sets_sorted recovery_set non_recovery_set =
    if not (slice_is_sorted recovery_set)
    then failure recovery_set_ids_not_sorted
    else if not (slice_is_sorted non_recovery_set)
    then failure non_recovery_set_ids_not_sorted
    else ok tt

-- `binary.Read` of `n` identifiers.
unfoldable pub decode_file_ids : ℕ → List ℕ → List (List ℕ)
decode_file_ids zero bytes = []
decode_file_ids (suc n) bytes = take 16 bytes ∷ decode_file_ids n (drop 16 bytes)

-- `readMainPacket` once the identifiers are read.
unfoldable pub split_file_ids : ℕ → ℕ → List (List ℕ) → Outcome MainError MainPacket
split_file_ids slice_byte_count count file_ids =
    if ltb (length file_ids) count
    then failure not_enough_file_ids
    else check_file_id_sets_sorted (take count file_ids) (drop count file_ids)
      >> ok (record {
        slice_byte_count = slice_byte_count;
        recovery_set = take count file_ids;
        non_recovery_set = drop count file_ids;
      })

-- `readMainPacket`; an `int` is below 2^63.
unfoldable pub read_main_packet : List ℕ → Outcome MainError MainPacket
read_main_packet body =
    let slice_size = get_le (slice body 0 8) in
    let recovery_set_count = get_le (slice body 8 12) in
    let bytes = drop 12 body in
    if length body == 0
    then failure eof
    else if ltb (length body) 12
    then failure unexpected_eof
    else if slice_size == 0 || (not (slice_size % 4 == 0) || leb (2 ^ 63) slice_size)
    then failure invalid_slice_size
    else if recovery_set_count == 0
    then failure empty_recovery_set
    else if not (length bytes % 16 == 0)
    then failure invalid_size
    else split_file_ids slice_size recovery_set_count (decode_file_ids (length bytes / 16) bytes)

-- `binary.Write` of identifiers.
pub encode_file_ids : List (List ℕ) → List ℕ
encode_file_ids [] = []
encode_file_ids (x ∷ xs) = x ++ encode_file_ids xs

-- `writeMainPacket`. An `int` that is not negative is its own 64-bit word.
pub write_main_packet : MainPacket → Outcome MainError (List ℕ)
write_main_packet packet =
    if packet.slice_byte_count == 0 || not (packet.slice_byte_count % 4 == 0)
    then failure invalid_slice_byte_count
    else if length packet.recovery_set == 0
    then failure empty_recovery_set
    else if ltb (2 ^ 32 - 1) (length packet.recovery_set)
    then failure recovery_set_too_big
    else check_file_id_sets_sorted packet.recovery_set packet.non_recovery_set
      >> ok (
          put_le 8 packet.slice_byte_count
          ++ (put_le 4 (length packet.recovery_set)
              ++ (encode_file_ids packet.recovery_set ++ encode_file_ids packet.non_recovery_set)))
