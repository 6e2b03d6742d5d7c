-- ===== src/Par2/FileDescription/Roundtrip.antt =====
-- `readFileDescriptionPacket` reads what `writeFileDescriptionPacket` wrote.
use gopar_turbo.Base.{
  ℕ, zero, suc, ◌^◌, ◌<◌, ◌≡◌, refl, sym, ◌∙◌, ap, arith, true, false, ◌==◌, leb, List, [], ◌∷◌,
  ◌++◌, length, length-append, take-append, drop-append, append_assoc, replicate, positive→==,
  ==_iff,
}
use gopar_turbo.Base.Loops.{ok}
use gopar_turbo.Par2.Wire.{
  put_le, get_le, slice, same_refl, length-put_le, get_le-put_le, slice_front, slice_past,
}
use gopar_turbo.Par2.Strings.{
  null_terminate, pad_packet_bytes, pad-zeros, decode_padded, encode_ok, IsAscii, HasNoNull,
}
use gopar_turbo.Par2.FileDescription.{
  FileDescriptionPacket, check_filename, compute_file_id, make_file_description,
  check_file_description, read_file_description_packet, encode_file_description, write_checked,
  write_file_description_packet,
}

-- A file description that the format can hold: hashes of 16 bytes, a length from 1 below 2^63, and
-- an accepted ASCII name without 0. The identifier is that of the file.
pub record IsFileDescription (md5 : List ℕ → List ℕ) (file_id : List ℕ) (p : FileDescriptionPacket)
    : Type 0 where
  pub hash : length p.hash ≡ 16
  pub sixteen_k_hash : length p.sixteen_k_hash ≡ 16
  pub not_empty : 0 < p.byte_count
  pub bound : p.byte_count < 2 ^ 63
  pub ascii : IsAscii p.filename
  pub no_null : HasNoNull p.filename
  pub accepted : check_filename p.filename ≡ ok tt
  pub own_id : compute_file_id md5 p.sixteen_k_hash p.byte_count p.filename ≡ file_id

null_terminate-padded : (s : List ℕ) (n : ℕ) → HasNoNull s → null_terminate (s ++ replicate n 0) ≡ s
unfolding null_terminate
null_terminate-padded [] zero z = refl
null_terminate-padded [] (suc n) z = refl
null_terminate-padded (c ∷ s) n z =
    let some_char : (c == 0) ≡ false = positive→== c z.0 in
    rw some_char (ap (◌∷◌ c) (null_terminate-padded s n z.1))

module _ (md5 : List ℕ → List ℕ) (file_id : List ℕ) (p : FileDescriptionPacket)
    (id_size : length file_id ≡ 16) (w : IsFileDescription md5 file_id p) where
  abbrev header : List ℕ
  header = encode_file_description file_id p []

  -- What follows the name goes behind it.
  encode_append :
      (name rest : List ℕ)
      → encode_file_description file_id p name ++ rest
        ≡ encode_file_description file_id p (name ++ rest)
  unfolding encode_file_description
  encode_append name rest =
      append_assoc file_id (p.hash ++ (p.sixteen_k_hash ++ (put_le 8 p.byte_count ++ name))) rest
      ∙ ap (◌++◌ file_id) (
          append_assoc p.hash (p.sixteen_k_hash ++ (put_le 8 p.byte_count ++ name)) rest
          ∙ ap (◌++◌ p.hash) (
              append_assoc p.sixteen_k_hash (put_le 8 p.byte_count ++ name) rest
              ∙ ap (◌++◌ p.sixteen_k_hash) (append_assoc (put_le 8 p.byte_count) name rest)))

  header_size : length header ≡ 56
  unfolding encode_file_description
  header_size =
      let l3 = length-append (put_le 8 p.byte_count) [] in
      let l2 = length-append p.sixteen_k_hash (put_le 8 p.byte_count ++ []) in
      let l1 = length-append p.hash (p.sixteen_k_hash ++ (put_le 8 p.byte_count ++ [])) in
      let l0 =
        length-append file_id (p.hash ++ (p.sixteen_k_hash ++ (put_le 8 p.byte_count ++ []))) in
      omega (arith, l0, l1, l2, l3, length-put_le 8 p.byte_count, id_size, w.hash, w.sixteen_k_hash)

  id_field : slice header 0 16 ≡ file_id
  unfolding encode_file_description
  id_field = slice_front file_id _ 16 id_size

  hash_field : slice header 16 32 ≡ p.hash
  unfolding encode_file_description
  hash_field = slice_past file_id _ 16 0 16 id_size ∙ slice_front p.hash _ 16 w.hash

  sixteen_k_field : slice header 32 48 ≡ p.sixteen_k_hash
  unfolding encode_file_description
  sixteen_k_field =
      slice_past file_id _ 16 16 32 id_size
      ∙ slice_past p.hash _ 16 0 16 w.hash
      ∙ slice_front p.sixteen_k_hash _ 16 w.sixteen_k_hash

  length_field : get_le (slice header 48 56) ≡ p.byte_count
  unfolding encode_file_description
  length_field =
      ap get_le (
        slice_past file_id _ 16 32 40 id_size
        ∙ slice_past p.hash _ 16 16 24 w.hash
        ∙ slice_past p.sixteen_k_hash _ 16 0 8 w.sixteen_k_hash
        ∙ slice_front (put_le 8 p.byte_count) [] 8 (length-put_le 8 p.byte_count))
      ∙ get_le-put_le 8 p.byte_count (omega (arith, w.bound))

  checked :
      (n : ℕ) → check_file_description md5 header (p.filename ++ replicate n 0) ≡ ok (file_id, p)
  unfolding check_file_description make_file_description
  checked n =
      let some_bytes : (p.byte_count == 0) ≡ false = positive→== p.byte_count w.not_empty in
      let fits : leb (2 ^ 63) p.byte_count ≡ false = ground (arith, w.bound) in
      rw
        (
          id_field,
          hash_field,
          sixteen_k_field,
          length_field,
          null_terminate-padded p.filename n w.no_null,
          decode_padded p.filename n w.ascii w.no_null,
          w.own_id,
          same_refl file_id,
          some_bytes,
          w.accepted,
          fits,
        )
        refl

  read_padded :
      (n : ℕ)
      → read_file_description_packet md5
          (encode_file_description file_id p p.filename ++ replicate n 0)
        ≡ ok (file_id, p)
  unfolding read_file_description_packet
  read_padded n =
      let tail = p.filename ++ replicate n 0 in
      let parts : encode_file_description file_id p p.filename ++ replicate n 0 ≡ header ++ tail =
        encode_append p.filename (replicate n 0) ∙ sym (encode_append [] tail) in
      let size = length-append header tail in
      let some_header : (length (header ++ tail) == 0) ≡ false =
        positive→== (length (header ++ tail)) (omega (arith, size, header_size)) in
      let whole : (length header == 56) ≡ true = (==_iff (length header) 56).1 header_size in
      rw
        (
          parts,
          some_header,
          take-append header tail 56 header_size,
          drop-append header tail 56 header_size,
          whole,
        )
        (checked n)

  written :
      write_file_description_packet md5 file_id p
      ≡ ok (encode_file_description file_id p p.filename)
  unfolding write_file_description_packet write_checked
  written =
      let some_bytes : (p.byte_count == 0) ≡ false = positive→== p.byte_count w.not_empty in
      rw (some_bytes, w.accepted, encode_ok p.filename w.ascii, w.own_id, same_refl file_id) refl

  -- A file description with hashes of 16 bytes, a length from 1 below 2^63, an ASCII name without 0
  -- that `checkFilename` accepts and the identifier that `computeFileID` gives it is written without
  -- error, and `readFileDescriptionPacket` reads it back from the padded bytes. MD5 is any function.
  pub read-write_file_description_packet :
      (bytes : List ℕ) × (write_file_description_packet md5 file_id p ≡ ok bytes)
      × (read_file_description_packet md5 (pad_packet_bytes bytes) ≡ ok (file_id, p))
  read-write_file_description_packet =
      let pad = pad-zeros (encode_file_description file_id p p.filename) in
      (
        encode_file_description file_id p p.filename,
        written,
        ap (read_file_description_packet md5) pad.1 ∙ read_padded pad.0,
      )
