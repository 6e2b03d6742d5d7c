-- ===== src/Par2/Ifsc.antt =====
-- par2/ifsc_packet.go: input file slice checksum packets.
pub mod Pairs
use gopar_turbo.Base.{
  ℕ, zero, suc, ◌+◌, ◌*◌, ◌/◌, ◌%◌, not, ◌||◌, ◌==◌, if◌then◌else◌, List, [], ◌∷◌, ◌++◌, length,
  take, drop,
}
use gopar_turbo.Base.Loops.{Outcome, failure, ok}
use gopar_turbo.Par2.Wire.{slice}

-- `checksumPair`.
pub record ChecksumPair : Type 0 where
  pub md5 : List ℕ
  pub crc32 : List ℕ

-- `ifscPacket`.
pub record IfscPacket : Type 0 where
  pub checksum_pairs : List ChecksumPair

pub data IfscError : Type 0 where
  eof : IfscError
  unexpected_eof : IfscError
  invalid_size : IfscError
  no_checksum_pairs_to_write : IfscError

-- `checksumPairSize`.
abbrev pub checksum_pair_size : ℕ
checksum_pair_size = 20

-- A round of the loop of `readIFSCPacket`.
unfoldable pub decode_pair : List ℕ → ChecksumPair
decode_pair pair = record { md5 = slice pair 0 16; crc32 = slice pair 16 checksum_pair_size }

-- The pairs from the one at index `i` on.
unfoldable pub decode_pairs : ℕ → ℕ → List ℕ → List ChecksumPair
decode_pairs zero i bytes = []
decode_pairs (suc n) i bytes =
    decode_pair (slice bytes (i * checksum_pair_size) ((i + 1) * checksum_pair_size))
    ∷ decode_pairs n (i + 1) bytes

-- `readIFSCPacket`; `io.ReadFull` takes the identifier off the buffer.
unfoldable pub read_ifsc_packet : List ℕ → Outcome IfscError (List ℕ × IfscPacket)
read_ifsc_packet body =
    let bytes = drop 16 body in
    if length body == 0
    then failure eof
    else if not (length (take 16 body) == 16)
    then failure unexpected_eof
    else if length bytes == 0 || not (length bytes % checksum_pair_size == 0)
    then failure invalid_size
    else ok (
      take 16 body,
      record { checksum_pairs = decode_pairs (length bytes / checksum_pair_size) 0 bytes },
    )

-- `binary.Write` of the pairs.
pub encode_pairs : List ChecksumPair → List ℕ
encode_pairs [] = []
encode_pairs (p ∷ ps) = p.md5 ++ p.crc32 ++ encode_pairs ps

-- `writeIFSCPacket`.
pub write_ifsc_packet : List ℕ → IfscPacket → Outcome IfscError (List ℕ)
write_ifsc_packet id packet =
    if length packet.checksum_pairs == 0
    then failure no_checksum_pairs_to_write
    else ok (id ++ encode_pairs packet.checksum_pairs)
