-- ===== src/Par2/Packet.antt =====
-- par2/packet.go: the header in front of every packet, and the readers and writers of packets.
pub mod Header
pub mod Write
pub mod Read
pub mod Panic
use gopar_turbo.Base.{
  ℕ, ◌+◌, ◌-◌, ◌%◌, ◌^◌, ◌≡◌, not, ◌||◌, ◌==◌, ltb, leb, if◌then◌else◌, List, [], ◌∷◌, ◌++◌, length,
  take, drop,
}
use gopar_turbo.Base.Loops.{Outcome, fault, failure, ok, ◌>>=◌, ◌>>◌}
use gopar_turbo.Par2.Wire.{put_le, get_le, slice, same}

-- `packetHeader`; byte arrays are lists.
pub record PacketHeader : Type 0 where
  pub magic : List ℕ
  pub length : ℕ
  pub hash : List ℕ
  pub recovery_set_id : List ℕ
  pub packet_type : List ℕ

-- The errors: `io.EOF`, `io.ErrUnexpectedEOF`, and those with a text.
pub data PacketError : Type 0 where
  eof : PacketError
  unexpected_eof : PacketError
  unexpected_magic_string : PacketError
  invalid_length : PacketError
  could_not_read_body : PacketError
  hash_mismatch : PacketError

-- "PAR2\0PKT".
abbrev pub expected_magic : List ℕ
expected_magic = 80 ∷ 65 ∷ 82 ∷ 50 ∷ 0 ∷ 80 ∷ 75 ∷ 84 ∷ []

-- `sizeOfPacketHeader`.
abbrev pub size_of_packet_header : ℕ
size_of_packet_header = 64

-- `checkPacketHeader`.
unfoldable pub check_packet_header : PacketHeader → Outcome PacketError (Unit {0})
check_packet_header h =
    if not (same h.magic expected_magic)
    then failure unexpected_magic_string
    else if ltb h.length size_of_packet_header || not (h.length % 4 == 0)
    then failure invalid_length
    else ok tt

-- The fields of a header of 64 bytes.
unfoldable pub decode_header : List ℕ → PacketHeader
decode_header bytes = record {
  magic = slice bytes 0 8;
  length = get_le (slice bytes 8 16);
  hash = slice bytes 16 32;
  recovery_set_id = slice bytes 32 48;
  packet_type = slice bytes 48 64;
}

-- `readPacketHeader`, of the bytes that `buf.Next(64)` returned.
unfoldable pub parse_packet_header : List ℕ → Outcome PacketError PacketHeader
parse_packet_header bytes =
    if length bytes == 0
    then failure eof
    else if not (length bytes == 64)
    then failure unexpected_eof
    else check_packet_header (decode_header bytes) >> ok (decode_header bytes)

-- What `readPacketHeader` returns, and the rest of the buffer.
unfoldable pub read_packet_header : List ℕ → Outcome PacketError PacketHeader × List ℕ
read_packet_header buf = (parse_packet_header (take 64 buf), drop 64 buf)

-- `binary.Write` of the header.
pub encode_header : PacketHeader → List ℕ
encode_header h = h.magic ++ (put_le 8 h.length ++ (h.hash ++ (h.recovery_set_id ++ h.packet_type)))

-- `writePacketHeader`; the buffer grows at its end.
pub write_packet_header : List ℕ → PacketHeader → Outcome PacketError (List ℕ)
write_packet_header buf h = check_packet_header h >> ok (buf ++ encode_header h)

pub record Packet : Type 0 where
  pub recovery_set_id : List ℕ
  pub packet_type : List ℕ
  pub body : List ℕ

-- `md5` is the hash of crypto/md5.
module _ (md5 : List ℕ → List ℕ) where
  -- `computePacketHash`: three writes to one hash.
  unfoldable pub compute_packet_hash : List ℕ → List ℕ → List ℕ → List ℕ
  compute_packet_hash set_id packet_type body = md5 (set_id ++ packet_type ++ body)

  -- The checks on the body, once the header is read.
  unfoldable pub check_body : PacketHeader → ℕ → List ℕ → Outcome PacketError Packet
  check_body h body_length body =
      if not (length body == body_length)
      then failure could_not_read_body
      else if not (same (compute_packet_hash h.recovery_set_id h.packet_type body) h.hash)
      then failure hash_mismatch
      else ok
          (record { recovery_set_id = h.recovery_set_id; packet_type = h.packet_type; body = body })

  -- `int(h.Length - sizeOfPacketHeader())` is negative from 2^63 on, and `buf.Next` of a negative
  -- number panics.
  unfoldable pub read_body : PacketHeader → List ℕ → Outcome PacketError Packet × List ℕ
  read_body h buf =
      let body_length = h.length - size_of_packet_header in
      if leb (2 ^ 63) body_length
      then (fault, buf)
      else (check_body h body_length (take body_length buf), drop body_length buf)

  -- What `readNextPacket` does with the header or its error.
  unfoldable pub read_after_header :
      Outcome PacketError PacketHeader → List ℕ → Outcome PacketError Packet × List ℕ
  read_after_header fault rest = (fault, rest)
  read_after_header (failure e) rest = (failure e, rest)
  read_after_header (ok h) rest = read_body h rest

  -- `readNextPacket` and `readNextPacketBorrowed`: the result, and the rest of the buffer.
  unfoldable pub read_next_packet : List ℕ → Outcome PacketError Packet × List ℕ
  read_next_packet buf = read_after_header (read_packet_header buf).0 (read_packet_header buf).1

  -- The header that `writeNextPacket` makes; the sum of the lengths is a 64-bit word.
  unfoldable pub next_packet_header : Packet → PacketHeader
  next_packet_header p = record {
    magic = expected_magic;
    length = (size_of_packet_header + length p.body) % 2 ^ 64;
    hash = compute_packet_hash p.recovery_set_id p.packet_type p.body;
    recovery_set_id = p.recovery_set_id;
    packet_type = p.packet_type;
  }

  -- `writeNextPacket`; the buffer grows at its end.
  pub write_next_packet : List ℕ → Packet → Outcome PacketError (List ℕ)
  write_next_packet buf p =
      write_packet_header buf (next_packet_header p) >>= λ buf'. ok (buf' ++ p.body)
