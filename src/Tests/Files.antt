-- ===== src/Tests/Files.antt =====
-- par2/file_description_packet.go at concrete inputs, with a hash that is always zero.
use gopar_turbo.Base.{ℕ, ◌≡◌, refl, arith, false, some, List, [], ◌∷◌, replicate}
use gopar_turbo.Base.Loops.{ok, failure}
use gopar_turbo.Par2.Wire.{same}
use gopar_turbo.Par2.Strings.{pad_packet_bytes}
use gopar_turbo.Par2.FileDescription.{
  FileDescriptionPacket, traversing_outside, split_path, add_to_first, to_parent, clean_element,
  clean_elements, join_path, clean_relative, is_abs, first_byte, check_filename, compute_file_id,
  read_file_description_packet, write_file_description_packet,
}
use gopar_turbo.Par2.FileDescription.Filename.{walk_path, check_filename-stays}
use gopar_turbo.Par2.FileDescription.Roundtrip.{
  IsFileDescription, read-write_file_description_packet,
}

abbrev zeros_hash : List ℕ → List ℕ
zeros_hash xs = replicate 16 0

-- "a/../b" and "a/../../b".
abbrev inside_name : List ℕ
inside_name = 97 ∷ 47 ∷ 46 ∷ 46 ∷ 47 ∷ 98 ∷ []

abbrev outside_name : List ℕ
outside_name = 97 ∷ 47 ∷ 46 ∷ 46 ∷ 47 ∷ 46 ∷ 46 ∷ 47 ∷ 98 ∷ []

inside_accepted : check_filename inside_name ≡ ok tt
unfolding check_filename clean_relative split_path add_to_first clean_elements clean_element
    to_parent join_path is_abs first_byte same
inside_accepted = refl

outside_rejected : check_filename outside_name ≡ failure traversing_outside
unfolding check_filename clean_relative split_path add_to_first clean_elements clean_element
    to_parent join_path is_abs first_byte same
outside_rejected = refl

check_filename-stays_example :
    (is_abs inside_name ≡ false)
    × ((depth : ℕ) × (walk_path (split_path inside_name) 0 ≡ some depth))
check_filename-stays_example = check_filename-stays inside_name inside_accepted

abbrev description : FileDescriptionPacket
description = record {
  hash = replicate 16 1;
  sixteen_k_hash = replicate 16 2;
  byte_count = 1000;
  filename = inside_name;
}

description-IsFileDescription : IsFileDescription zeros_hash (replicate 16 0) description
unfolding compute_file_id
description-IsFileDescription = record {
  hash = refl;
  sixteen_k_hash = refl;
  not_empty = omega arith;
  bound = omega arith;
  ascii =
      (omega arith, (omega arith, (omega arith, (omega arith, (omega arith, (omega arith, tt))))));
  no_null =
      (omega arith, (omega arith, (omega arith, (omega arith, (omega arith, (omega arith, tt))))));
  accepted = inside_accepted;
  own_id = refl;
}

read-write_file_description_packet_example :
    (bytes : List ℕ) × (write_file_description_packet zeros_hash (replicate 16 0) description
      ≡ ok bytes)
    × (read_file_description_packet zeros_hash (pad_packet_bytes bytes)
        ≡ ok (replicate 16 0, description))
read-write_file_description_packet_example =
    read-write_file_description_packet zeros_hash (replicate 16 0) description refl
      description-IsFileDescription
