-- ===== src/Par2/Volume.antt =====
-- par2/volume.go: the packets of a PAR2 file, read through an `io.ReaderAt`. `read_at offset n` is
-- `ReadAt` into a buffer of `n` bytes: the bytes, or the error.
pub mod Loop
pub mod Layout
pub mod Roundtrip
use gopar_turbo.Base.{
  ℕ, zero, suc, ◌+◌, ◌-◌, ◌/◌, ◌%◌, ◌^◌, not, ◌&&◌, ◌||◌, ◌==◌, ltb, leb, if◌then◌else◌, Option,
  none, some, List, [], ◌∷◌, ◌++◌,
}
use gopar_turbo.Base.Loops.{Outcome, fault, failure, ok, ◌>>=◌}
use gopar_turbo.Par2.Wire.{get_le, slice}
use gopar_turbo.Par2.Packet.{
  PacketHeader, PacketError, Packet, parse_packet_header, read_next_packet,
}

pub data VolumeError : Type 0 where
  trailing_bytes_too_short : VolumeError
  invalid_packet_length : VolumeError
  read_failed : VolumeError
  invalid_recovery_data_byte_count : VolumeError
  packet_error : PacketError → VolumeError
  callback_error : VolumeError

-- An error of the packets, passed on.
abbrev pub from_packet : {A : Type 0} → Outcome PacketError A → Outcome VolumeError A
from_packet fault = fault
from_packet (failure e) = failure (packet_error e)
from_packet (ok a) = ok a

-- `maxPacketLength`.
abbrev pub max_packet_length : ℕ
max_packet_length = 2 ^ 30

-- `for offset < size`: a round returns the next offset and the new state. `none` is a loop that has
-- not come to its end within the given number of rounds.
pub scan_next :
    {S : Type 0}
    → Outcome VolumeError (ℕ × S)
    → (ℕ → S → Option (Outcome VolumeError S))
    → Option (Outcome VolumeError S)
scan_next fault rest = some fault
scan_next (failure e) rest = some (failure e)
scan_next (ok r) rest = rest r.0 r.1

pub scan_from :
    {S : Type 0}
    → (ℕ → S → Outcome VolumeError (ℕ × S))
    → ℕ
    → ℕ
    → ℕ
    → S
    → Option (Outcome VolumeError S)
scan_from body size zero offset s = if ltb offset size then none else some (ok s)
scan_from body size (suc fuel) offset s =
    let next = scan_next (body offset s) (scan_from body size fuel) in
    if ltb offset size then next else some (ok s)

-- Rounds enough for steps of at least a header.
abbrev pub rounds : ℕ → ℕ
rounds size = size / 64 + 1

-- `packetRef`; the length is an `int64`, written as the 64-bit word that the header holds.
pub record PacketRef : Type 0 where
  pub offset : ℕ
  pub length : ℕ
  pub header : PacketHeader

module _ (md5 : List ℕ → List ℕ) (read_at : ℕ → ℕ → Outcome VolumeError (List ℕ)) where
  module _ {S : Type 0} (fn : Packet → ℕ → S → Outcome VolumeError S) (size : ℕ) where
    -- The packet at `offset`, once its length is known to fit.
    pub walk_packet : ℕ → ℕ → S → Outcome VolumeError (ℕ × S)
    walk_packet offset length s = do
      packet_buf ← read_at offset length
      packet ← from_packet (read_next_packet md5 packet_buf).0
      s' ← fn packet offset s
      ok (offset + length, s')

    -- The length field, as an `int64`.
    -- The sum of the offset and the length does not wrap for a `size` below 2 ^ 63 - 2 ^ 30.
    pub walk_length : ℕ → ℕ → S → Outcome VolumeError (ℕ × S)
    walk_length offset length s =
        if (leb (2 ^ 63) length || ltb length 64)
          || (ltb max_packet_length length || ltb size (offset + length))
        then failure invalid_packet_length
        else walk_packet offset length s

    -- A round of `walkPackets`.
    pub walk_round : ℕ → S → Outcome VolumeError (ℕ × S)
    walk_round offset s =
        if ltb (size - offset) 64
        then failure trailing_bytes_too_short
        else (read_at offset 64 >>= λ header. walk_length offset (get_le (slice header 8 16)) s)

    -- `walkPackets`.
    pub walk_packets : S → Option (Outcome VolumeError S)
    walk_packets s = scan_from walk_round size (rounds size) 0 s

  -- `offset += length`. A negative offset makes the next `ReadAt` fail.
  pub advance : ℕ → ℕ → Outcome VolumeError ℕ
  advance offset length =
      if leb (2 ^ 63) length
      then (if ltb offset (2 ^ 64 - length)
          then failure read_failed
          else ok (offset - (2 ^ 64 - length)))
      else ok (offset + length)

  -- The checks on the length, which as an `int64` may be negative, and the new element.
  pub index_header :
      ℕ → ℕ → PacketHeader → List PacketRef → Outcome VolumeError (ℕ × List PacketRef)
  index_header size offset h refs =
      if not (leb (2 ^ 63) h.length)
        && (ltb max_packet_length h.length || ltb size (offset + h.length))
      then failure invalid_packet_length
      else (advance offset h.length >>= λ next.
          ok (next, refs ++ (record { offset = offset; length = h.length; header = h } ∷ [])))

  -- A round of `indexPackets`.
  pub index_round : ℕ → ℕ → List PacketRef → Outcome VolumeError (ℕ × List PacketRef)
  index_round size offset refs =
      if ltb (size - offset) 64
      then failure trailing_bytes_too_short
      else (read_at offset 64 >>= λ header.
          from_packet (parse_packet_header header) >>= λ h. index_header size offset h refs)

  -- `indexPackets`, within the given number of rounds.
  pub index_packets : ℕ → ℕ → Option (Outcome VolumeError (List PacketRef))
  index_packets fuel size = scan_from (index_round size) size fuel 0 []

  -- `readPacketAt`.
  pub read_packet_at : PacketRef → Outcome VolumeError Packet
  read_packet_at ref =
      if leb (2 ^ 63) ref.length
      then fault
      else (read_at ref.offset ref.length >>= λ buf. from_packet (read_next_packet md5 buf).0)

  -- `readRecoveryExponent`.
  pub read_recovery_exponent : PacketRef → Outcome VolumeError (List ℕ × ℕ)
  read_recovery_exponent ref =
      let body_len = (ref.length + (2 ^ 64 - 64)) % 2 ^ 64 in
      if (leb (2 ^ 63) body_len || ltb body_len 4) || not (body_len % 4 == 0)
      then failure invalid_recovery_data_byte_count
      else (read_at (ref.offset + 64) 4 >>= λ exp. ok (exp, body_len - 4))
