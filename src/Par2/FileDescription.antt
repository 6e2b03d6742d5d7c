-- ===== src/Par2/FileDescription.antt =====
-- par2/file_description_packet.go: file description packets, and the check of the names in them. A
-- name is the list of its bytes. `path.Clean` is written out for relative paths: `checkFilename`
-- calls it for no others.
pub mod Filename
pub mod Roundtrip
use gopar_turbo.Base.{
  ℕ, zero, suc, ◌-◌, ◌^◌, Bool, false, not, ◌||◌, ◌==◌, ltb, leb, if◌then◌else◌, Option, none, some,
  List, [], ◌∷◌, ◌++◌, length, take, drop,
}
use gopar_turbo.Base.Loops.{Outcome, fault, failure, ok, ◌>>=◌, ◌>>◌}
use gopar_turbo.Par2.Wire.{put_le, get_le, slice, same}
use gopar_turbo.Par2.Strings.{
  null_terminate, decode_null_padded_ascii_string, encode_ascii_string, StringError,
}

-- The errors: `io.EOF`, `io.ErrUnexpectedEOF`, and those with a text.
pub data FileDescriptionError : Type 0 where
  eof : FileDescriptionError
  unexpected_eof : FileDescriptionError
  absolute_path : FileDescriptionError
  traversing_outside : FileDescriptionError
  file_id_mismatch : FileDescriptionError
  empty_file : FileDescriptionError
  file_length_too_big : FileDescriptionError
  invalid_byte_count : FileDescriptionError
  invalid_filename : StringError → FileDescriptionError

pub record FileDescriptionPacket : Type 0 where
  pub hash : List ℕ
  pub sixteen_k_hash : List ℕ
  pub byte_count : ℕ
  pub filename : List ℕ

-- The elements of a path between its slashes.
unfoldable pub add_to_first : ℕ → List (List ℕ) → List (List ℕ)
add_to_first c [] = (c ∷ []) ∷ []
add_to_first c (x ∷ xs) = (c ∷ x) ∷ xs

unfoldable pub split_path : List ℕ → List (List ℕ)
split_path [] = [] ∷ []
split_path (c ∷ cs) = let rest = split_path cs in if c == 47 then [] ∷ rest else add_to_first c rest

-- "." and "..".
abbrev pub dot : List ℕ
dot = 46 ∷ []

abbrev pub dot_dot : List ℕ
dot_dot = 46 ∷ 46 ∷ []

-- What `path.Clean` does with an element, given those before it, the last one first.
unfoldable pub to_parent : List (List ℕ) → List (List ℕ)
to_parent [] = dot_dot ∷ []
to_parent (top ∷ below) = if same top dot_dot then dot_dot ∷ (top ∷ below) else below

unfoldable pub clean_element : List ℕ → List (List ℕ) → List (List ℕ)
clean_element element stack =
    if same element [] || same element dot
    then stack
    else if same element dot_dot
    then to_parent stack
    else element ∷ stack

unfoldable pub clean_elements : List (List ℕ) → List (List ℕ) → List (List ℕ)
clean_elements [] stack = stack
clean_elements (x ∷ xs) stack = clean_elements xs (clean_element x stack)

unfoldable pub join_path : List (List ℕ) → List ℕ
join_path [] = dot
join_path (x ∷ []) = x
join_path (x ∷ y ∷ ys) = join_path (y ∷ ys) ++ (47 ∷ x)

unfoldable pub clean_relative : List ℕ → List ℕ
clean_relative filename = join_path (clean_elements (split_path filename) [])

-- `path.IsAbs`.
unfoldable pub is_abs : List ℕ → Bool
is_abs [] = false
is_abs (c ∷ cs) = c == 47

-- `filename[0]`.
unfoldable pub first_byte : List ℕ → Outcome FileDescriptionError ℕ
first_byte [] = fault
first_byte (c ∷ cs) = ok c

-- `checkFilename`.
unfoldable pub check_filename : List ℕ → Outcome FileDescriptionError (Unit {0})
check_filename filename =
    if is_abs filename
    then failure absolute_path
    else (first_byte (clean_relative filename) >>= λ c.
        if c == 46 then failure traversing_outside else ok tt)

-- An error of the strings, passed on.
abbrev pub from_string : {A : Type 0} → Outcome StringError A → Outcome FileDescriptionError A
from_string fault = fault
from_string (failure e) = failure (invalid_filename e)
from_string (ok a) = ok a

-- `binary.Write` of the header, and the name.
pub encode_file_description : List ℕ → FileDescriptionPacket → List ℕ → List ℕ
encode_file_description file_id packet filename_bytes =
    file_id
    ++ (packet.hash ++ (packet.sixteen_k_hash ++ (put_le 8 packet.byte_count ++ filename_bytes)))

module _ (md5 : List ℕ → List ℕ) where
  -- `computeFileID`.
  unfoldable pub compute_file_id : List ℕ → ℕ → List ℕ → List ℕ
  compute_file_id sixteen_k_hash byte_count filename_bytes =
      md5 (sixteen_k_hash ++ (put_le 8 byte_count ++ filename_bytes))

  -- The end of `readFileDescriptionPacket`: the length fits an `int`.
  pub make_file_description :
      List ℕ → ℕ → List ℕ → Outcome FileDescriptionError (List ℕ × FileDescriptionPacket)
  make_file_description header byte_count filename =
      if leb (2 ^ 63) byte_count
      then failure file_length_too_big
      else ok (
        slice header 0 16,
        record {
          hash = slice header 16 32;
          sixteen_k_hash = slice header 32 48;
          byte_count = byte_count;
          filename = filename;
        },
      )

  -- The checks on what has been read.
  pub check_file_description :
      List ℕ → List ℕ → Outcome FileDescriptionError (List ℕ × FileDescriptionPacket)
  check_file_description header filename_bytes =
      let byte_count = get_le (slice header 48 56) in
      let filename = decode_null_padded_ascii_string filename_bytes in
      if not (
        same (compute_file_id (slice header 32 48) byte_count (null_terminate filename_bytes))
          (slice header 0 16))
      then failure file_id_mismatch
      else if byte_count == 0
      then failure empty_file
      else (check_filename filename >> make_file_description header byte_count filename)

  -- `readFileDescriptionPacket`; `binary.Read` takes the header of 56 bytes off the buffer.
  pub read_file_description_packet :
      List ℕ → Outcome FileDescriptionError (List ℕ × FileDescriptionPacket)
  read_file_description_packet body =
      if length body == 0
      then failure eof
      else if not (length (take 56 body) == 56)
      then failure unexpected_eof
      else check_file_description (take 56 body) (drop 56 body)

  -- The check of the identifier, and the writes.
  pub write_checked :
      List ℕ → FileDescriptionPacket → List ℕ → Outcome FileDescriptionError (List ℕ)
  write_checked file_id packet filename_bytes =
      if not (same (compute_file_id packet.sixteen_k_hash packet.byte_count filename_bytes) file_id)
      then failure file_id_mismatch
      else ok (encode_file_description file_id packet filename_bytes)

  -- `writeFileDescriptionPacket`, for byte counts that are not negative.
  pub write_file_description_packet :
      List ℕ → FileDescriptionPacket → Outcome FileDescriptionError (List ℕ)
  write_file_description_packet file_id packet =
      if packet.byte_count == 0
      then failure invalid_byte_count
      else (check_filename packet.filename
          >> (from_string (encode_ascii_string packet.filename) >>= write_checked file_id packet))
