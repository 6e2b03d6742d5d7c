-- ===== src/Tests/Volumes.antt =====
-- par2/volume.go and par2/crc32.go at concrete inputs, with a hash that is always zero.
use gopar_turbo.Base.{
  ℕ, ◌+◌, ◌≡◌, refl, arith, leb, if◌then◌else◌, none, some, List, [], ◌∷◌, ◌++◌, length, replicate,
  le→leb, true,
}
use gopar_turbo.Base.Loops.{Outcome, ok, failure}
use gopar_turbo.Par2.Wire.{slice, get_le, same}
use gopar_turbo.Par2.Packet.{
  Packet, expected_magic, parse_packet_header, check_packet_header, decode_header,
}
use gopar_turbo.Par2.Volume.{
  VolumeError, read_failed, walk_packets, index_packets, rounds, PacketRef,
}
use gopar_turbo.Par2.Volume.Loop.{LeadsBack, walk_packets-ends, index_packets-loops}
use gopar_turbo.Par2.Volume.Layout.{AreStored, Reads, volume_bytes}
use gopar_turbo.Par2.Volume.Roundtrip.{visit, AreRefs, walk_packets-visit, read-index_packets}
use gopar_turbo.Par2.Crc32.{Crc32Window, new_crc32_window, update, checksum_ieee}
use gopar_turbo.Par2.Crc32.Window.{update-checksum_ieee}

abbrev no_hash : List ℕ → List ℕ
no_hash xs = replicate 16 0

no_hash-size : (xs : List ℕ) → length (no_hash xs) ≡ 16
no_hash-size xs = refl

abbrev two_packets : List Packet
two_packets =
    record {
      recovery_set_id = replicate 16 1;
      packet_type = replicate 16 2;
      body = 1 ∷ 2 ∷ 3 ∷ 4 ∷ [];
    }
    ∷ record { recovery_set_id = replicate 16 1; packet_type = replicate 16 3; body = [] }
    ∷ []

two_packets-AreStored : AreStored two_packets
two_packets-AreStored = (
  record { recovery_set_id = refl; packet_type = refl; aligned = refl; bound = omega arith },
  omega arith,
  (
    record { recovery_set_id = refl; packet_type = refl; aligned = refl; bound = omega arith },
    omega arith,
    tt,
  ),
)

-- A reader of a file in memory.
abbrev reader : List ℕ → ℕ → ℕ → Outcome VolumeError (List ℕ)
reader contents offset n =
    if leb (offset + n) (length contents)
    then ok (slice contents offset (offset + n))
    else failure read_failed

reader-Reads : (contents : List ℕ) → Reads contents (reader contents)
unfolding Reads
reader-Reads contents offset n h =
    let inside : leb (offset + n) (length contents) ≡ true =
      le→leb (offset + n) (length contents) h in
    rw inside refl

abbrev note_offset : Packet → ℕ → List ℕ → Outcome VolumeError (List ℕ)
note_offset p offset seen = ok (seen ++ (offset ∷ []))

walk_packets-visit_example :
    walk_packets no_hash
      (reader (volume_bytes no_hash two_packets))
      note_offset
      (length (volume_bytes no_hash two_packets))
      []
    ≡ some (visit note_offset 0 two_packets [])
walk_packets-visit_example =
    walk_packets-visit no_hash no_hash-size two_packets (reader (volume_bytes no_hash two_packets))
      note_offset [] two_packets-AreStored (reader-Reads (volume_bytes no_hash two_packets))

offsets_seen : visit note_offset 0 two_packets [] ≡ ok (0 ∷ 68 ∷ [])
offsets_seen = refl

read-index_packets_example :
    (refs : List PacketRef) × (index_packets no_hash
        (reader (volume_bytes no_hash two_packets))
        (rounds (length (volume_bytes no_hash two_packets)))
        (length (volume_bytes no_hash two_packets))
      ≡ some (ok refs))
    × AreRefs no_hash (reader (volume_bytes no_hash two_packets)) refs two_packets
read-index_packets_example =
    read-index_packets no_hash no_hash-size two_packets (reader (volume_bytes no_hash two_packets))
      two_packets-AreStored (reader-Reads (volume_bytes no_hash two_packets))

walk_packets-ends_example :
    (r : Outcome VolumeError (List ℕ)) × (walk_packets no_hash
        (reader (1 ∷ 2 ∷ 3 ∷ []))
        note_offset
        3
        []
      ≡ some r)
walk_packets-ends_example = walk_packets-ends no_hash (reader (1 ∷ 2 ∷ 3 ∷ [])) note_offset 3 []

-- An empty packet, and a header with the length 2^64 - 64.
abbrev back_and_forth : List ℕ
back_and_forth =
    (expected_magic ++ ((64 ∷ replicate 7 0) ++ replicate 48 0))
    ++ (expected_magic ++ ((192 ∷ replicate 7 255) ++ replicate 48 0))

back_and_forth-LeadsBack : LeadsBack (reader back_and_forth) 128 64
unfolding slice get_le same parse_packet_header check_packet_header decode_header
back_and_forth-LeadsBack = record {
  first_bytes = slice back_and_forth 0 64;
  first = decode_header (slice back_and_forth 0 64);
  read_first = refl;
  parse_first = refl;
  first_length = refl;
  second_bytes = slice back_and_forth 64 128;
  second = decode_header (slice back_and_forth 64 128);
  read_second = refl;
  parse_second = refl;
  second_length = refl;
}

index_packets-loops_example : index_packets no_hash (reader back_and_forth) 1000 128 ≡ none
index_packets-loops_example =
    index_packets-loops no_hash (reader back_and_forth) 128 64 (omega arith) (omega arith)
      (omega arith) back_and_forth-LeadsBack 1000

update-checksum_ieee_example :
    (w : Crc32Window) × (new_crc32_window 4 ≡ some w)
    × (update w (checksum_ieee (200 ∷ 2 ∷ 3 ∷ 4 ∷ [])) 200 5 ≡ checksum_ieee (2 ∷ 3 ∷ 4 ∷ 5 ∷ []))
update-checksum_ieee_example =
    update-checksum_ieee 4 200 5 (2 ∷ 3 ∷ 4 ∷ []) (omega arith) (omega arith) refl
