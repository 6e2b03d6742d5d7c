-- ===== src/Tests/Packets.antt =====
-- par2/packet.go and the packet types at concrete inputs, with a hash that is always zero.
use gopar_turbo.Base.{
  ℕ, ◌≡◌, ◌↔◌, ◌⊎◌, refl, arith, ltb, List, [], ◌∷◌, ◌++◌, replicate, Bool, true, ◌&&◌, Bool-cases,
  inl, inr, ltb→lt, ◌%◌, length,
}
use gopar_turbo.Par2.Strings.{
  write_creator_packet, read_creator_packet, pad_packet_bytes, encode_ascii_string, IsAscii,
  HasNoNull, read-write_creator_packet, encode_ascii_string-total, invalid_ascii_character,
}
use gopar_turbo.Base.Loops.{ok, fault, failure}
use gopar_turbo.Par2.Wire.{get_le, slice, same, IsBytes}
use gopar_turbo.Par2.Packet.{
  Packet, expected_magic, read_next_packet, read_packet_header, parse_packet_header,
  check_packet_header, decode_header, read_after_header, read_body, check_body, compute_packet_hash,
  write_next_packet,
}
use gopar_turbo.Par2.Packet.Write.{read-write_next_packet}
use gopar_turbo.Par2.Packet.Read.{write-read_next_packet}
use gopar_turbo.Par2.Packet.Panic.{IsOverlong, read_next_packet-panics}
use gopar_turbo.Par2.Recovery.{
  RecoveryPacket, read_recovery_packet, write_recovery_packet, read-write_recovery_packet,
}
use gopar_turbo.Par2.Ifsc.{
  IfscPacket, read_ifsc_packet, write_ifsc_packet, decode_pairs, decode_pair,
}
use gopar_turbo.Par2.Ifsc.Pairs.{read-write_ifsc_packet, write-read_ifsc_packet}
use gopar_turbo.Par2.Main.{
  MainPacket, read_main_packet, write_main_packet, split_file_ids, decode_file_ids,
  check_file_id_sets_sorted, slice_is_sorted, file_id_less, less_below,
}
use gopar_turbo.Par2.Main.Packets.{IsMainPacket}
use gopar_turbo.Par2.Main.Roundtrip.{read-write_main_packet, write-read_main_packet}
use gopar_turbo.Par2.Main.FileIds.{file_id_less-get_le}

abbrev zero_hash : List ℕ → List ℕ
zero_hash xs = replicate 16 0

abbrev sample : Packet
sample = record {
  recovery_set_id = replicate 16 1;
  packet_type = replicate 16 2;
  body = 1 ∷ 2 ∷ 3 ∷ 4 ∷ [];
}

abbrev sample_ids : List ℕ
sample_ids = replicate 16 0 ++ (replicate 16 1 ++ replicate 16 2)

-- The packet in a buffer, with two more bytes behind it.
abbrev sample_buf : List ℕ
sample_buf = expected_magic ++ (68 ∷ replicate 7 0) ++ sample_ids ++ (1 ∷ 2 ∷ 3 ∷ 4 ∷ 5 ∷ 6 ∷ [])

-- A header whose length is 2^63 + 64.
abbrev overlong_buf : List ℕ
overlong_buf = expected_magic ++ (64 ∷ replicate 6 0) ++ (128 ∷ []) ++ sample_ids

sample_read : read_next_packet zero_hash sample_buf ≡ (ok sample, 5 ∷ 6 ∷ [])
unfolding read_next_packet read_packet_header parse_packet_header check_packet_header decode_header
    read_after_header read_body check_body compute_packet_hash get_le slice same
sample_read = refl

overlong_panics : (read_next_packet zero_hash overlong_buf).0 ≡ fault
unfolding read_next_packet read_packet_header parse_packet_header check_packet_header decode_header
    read_after_header read_body check_body compute_packet_hash get_le slice same
overlong_panics = refl

read-write_next_packet_example :
    (bytes : List ℕ) × (write_next_packet zero_hash (7 ∷ []) sample ≡ ok ((7 ∷ []) ++ bytes))
    × (read_next_packet zero_hash (bytes ++ (5 ∷ 6 ∷ [])) ≡ (ok sample, 5 ∷ 6 ∷ []))
read-write_next_packet_example =
    read-write_next_packet zero_hash (λ xs. refl) sample (7 ∷ []) (5 ∷ 6 ∷ [])
      (record { recovery_set_id = refl; packet_type = refl; aligned = refl; bound = omega arith })

abbrev all_bytes : List ℕ → Bool
all_bytes [] = true
all_bytes (x ∷ xs) = ltb x 256 && all_bytes xs

all_bytes-IsBytes : (xs : List ℕ) → all_bytes xs ≡ true → IsBytes xs
all_bytes-IsBytes [] h = tt
all_bytes-IsBytes (x ∷ xs) h = elim (Bool-cases (ltb x 256)) [
  | inl b ↦ let rest : all_bytes xs ≡ true = cc in (ltb→lt x 256 b, all_bytes-IsBytes xs rest)
  | inr b ↦ cc
]

sample_buf-IsBytes : IsBytes sample_buf
sample_buf-IsBytes = all_bytes-IsBytes sample_buf refl

write-read_next_packet_example :
    (bytes : List ℕ) × (sample_buf ≡ bytes ++ (5 ∷ 6 ∷ []))
    × (write_next_packet zero_hash [] sample ≡ ok ([] ++ bytes))
write-read_next_packet_example =
    write-read_next_packet zero_hash sample_buf (5 ∷ 6 ∷ []) [] sample sample_buf-IsBytes
      sample_read

read_next_packet-panics_example :
    ((read_next_packet zero_hash overlong_buf).0 ≡ fault) ↔ IsOverlong overlong_buf
read_next_packet-panics_example = read_next_packet-panics zero_hash overlong_buf

abbrev sample_recovery : RecoveryPacket
sample_recovery = record { bytes = 9 ∷ 8 ∷ 7 ∷ 6 ∷ [] }

abbrev recovery_body : List ℕ
recovery_body = 1 ∷ 2 ∷ 0 ∷ 0 ∷ 9 ∷ 8 ∷ 7 ∷ 6 ∷ []

recovery_read : read_recovery_packet recovery_body ≡ ok (513, sample_recovery)
unfolding read_recovery_packet get_le slice
recovery_read = refl

read-write_recovery_packet_example :
    (body : List ℕ) × (write_recovery_packet 513 sample_recovery ≡ ok body)
    × (read_recovery_packet body ≡ ok (513, sample_recovery))
read-write_recovery_packet_example =
    read-write_recovery_packet 513 sample_recovery (omega arith) (omega arith) refl

abbrev sample_ifsc : IfscPacket
sample_ifsc = record {
  checksum_pairs =
      record { md5 = replicate 16 3; crc32 = replicate 4 4 }
      ∷ record { md5 = replicate 16 5; crc32 = replicate 4 6 }
      ∷ [];
}

abbrev ifsc_body : List ℕ
ifsc_body =
    replicate 16 1 ++ (replicate 16 3 ++ (replicate 4 4 ++ (replicate 16 5 ++ replicate 4 6)))

ifsc_read : read_ifsc_packet ifsc_body ≡ ok (replicate 16 1, sample_ifsc)
unfolding read_ifsc_packet decode_pairs decode_pair slice
ifsc_read = refl

read-write_ifsc_packet_example :
    (body : List ℕ) × (write_ifsc_packet (replicate 16 1) sample_ifsc ≡ ok body)
    × (read_ifsc_packet body ≡ ok (replicate 16 1, sample_ifsc))
read-write_ifsc_packet_example =
    read-write_ifsc_packet (replicate 16 1) sample_ifsc refl (refl, refl, (refl, refl, tt))
      (omega arith)

write-read_ifsc_packet_example : write_ifsc_packet (replicate 16 1) sample_ifsc ≡ ok ifsc_body
write-read_ifsc_packet_example =
    write-read_ifsc_packet ifsc_body (replicate 16 1) sample_ifsc ifsc_read

abbrev sample_main : MainPacket
sample_main = record {
  slice_byte_count = 1028;
  recovery_set = replicate 16 1 ∷ (replicate 15 1 ++ (2 ∷ [])) ∷ [];
  non_recovery_set = replicate 16 9 ∷ [];
}

abbrev main_body : List ℕ
main_body =
    (4 ∷ 4 ∷ replicate 6 0)
    ++ (2 ∷ 0 ∷ 0 ∷ 0 ∷ [])
    ++ replicate 16 1
    ++ replicate 15 1
    ++ (2 ∷ [])
    ++ replicate 16 9

main_read : read_main_packet main_body ≡ ok sample_main
unfolding read_main_packet split_file_ids decode_file_ids check_file_id_sets_sorted slice_is_sorted
    file_id_less less_below get_le slice
main_read = refl

sample_main-IsMainPacket : IsMainPacket sample_main
unfolding slice_is_sorted file_id_less less_below
sample_main-IsMainPacket = record {
  positive = omega arith;
  aligned = refl;
  bound = omega arith;
  some_files = omega arith;
  few_files = omega arith;
  recovery_ids = (refl, (refl, tt));
  non_recovery_ids = (refl, tt);
  sorted = record { recovery_set = refl; non_recovery_set = refl };
}

read-write_main_packet_example :
    (body : List ℕ) × (write_main_packet sample_main ≡ ok body)
    × (read_main_packet body ≡ ok sample_main)
read-write_main_packet_example = read-write_main_packet sample_main sample_main-IsMainPacket

write-read_main_packet_example : write_main_packet sample_main ≡ ok main_body
write-read_main_packet_example =
    write-read_main_packet main_body sample_main (all_bytes-IsBytes main_body refl) main_read

file_id_less-get_le_example :
    file_id_less (replicate 16 1) (replicate 16 9)
    ≡ ltb (get_le (replicate 16 1)) (get_le (replicate 16 9))
file_id_less-get_le_example =
    file_id_less-get_le (replicate 16 1) (replicate 16 9) refl refl
      (all_bytes-IsBytes (replicate 16 1) refl) (all_bytes-IsBytes (replicate 16 9) refl)

abbrev client_id : List ℕ
client_id = 103 ∷ 111 ∷ 112 ∷ 97 ∷ 114 ∷ []

client_id-IsAscii : IsAscii client_id
client_id-IsAscii = (omega arith, (omega arith, (omega arith, (omega arith, (omega arith, tt)))))

client_id-HasNoNull : HasNoNull client_id
client_id-HasNoNull = (omega arith, (omega arith, (omega arith, (omega arith, (omega arith, tt)))))

read-write_creator_packet_example :
    (bytes : List ℕ) × (write_creator_packet client_id ≡ ok bytes)
    × (length (pad_packet_bytes bytes) % 4 ≡ 0)
    × (read_creator_packet (pad_packet_bytes bytes) ≡ client_id)
read-write_creator_packet_example =
    read-write_creator_packet client_id client_id-IsAscii client_id-HasNoNull

encode_ascii_string-total_example :
    (IsAscii client_id × (encode_ascii_string client_id ≡ ok client_id))
    ⊎ (¬ IsAscii client_id × (encode_ascii_string client_id ≡ failure invalid_ascii_character))
encode_ascii_string-total_example = encode_ascii_string-total client_id
