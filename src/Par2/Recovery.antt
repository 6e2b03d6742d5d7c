-- ===== src/Par2/Recovery.antt =====
-- par2/recovery_packet.go: recovery packets.
use gopar_turbo.Base.{
  ℕ, ◌+◌, ◌%◌, ◌^◌, ◌<◌, ◌≡◌, refl, ap, ap₂, ◌∙◌, sym, arith, false, not, ◌||◌, ◌==◌, ltb,
  if◌then◌else◌, List, ◌++◌, length, drop, ge→ltb, drop-append, length-append, length-drop,
}
use gopar_turbo.Base.Loops.{Outcome, failure, ok, if_else, failure≢ok, ok-injective}
use gopar_turbo.Par2.Wire.{
  put_le, get_le, slice, IsBytes, length-put_le, get_le-put_le, put_le-get_le, slice_front,
  slice_join, length-slice, slice-IsBytes,
}

pub data RecoveryError : Type 0 where
  invalid_recovery_data_byte_count : RecoveryError
  exponent_out_of_range : RecoveryError

pub record RecoveryPacket : Type 0 where
  pub bytes : List ℕ

-- `readRecoveryPacket`.
unfoldable pub read_recovery_packet : List ℕ → Outcome RecoveryError (ℕ × RecoveryPacket)
read_recovery_packet body =
    if length body == 0 || not (length body % 4 == 0)
    then failure invalid_recovery_data_byte_count
    else if ltb 65535 (get_le (slice body 0 4))
    then failure exponent_out_of_range
    else ok (get_le (slice body 0 4), record { bytes = drop 4 body })

-- `writeRecoveryPacket`.
pub write_recovery_packet : ℕ → RecoveryPacket → Outcome RecoveryError (List ℕ)
write_recovery_packet exp packet =
    if length packet.bytes == 0 || not (length packet.bytes % 4 == 0)
    then failure invalid_recovery_data_byte_count
    else ok (put_le 4 exp ++ packet.bytes)

-- The test on a byte count that both start with.
whole_words : (n : ℕ) → (n ≡ 0 → ⊥) → n % 4 ≡ 0 → (n == 0 || not (n % 4 == 0)) ≡ false
whole_words n z a = ground arith

words_whole : (n : ℕ) → (n == 0 || not (n % 4 == 0)) ≡ false → n % 4 ≡ 0
words_whole n h = ground arith

not_above : (n : ℕ) → ltb 65535 n ≡ false → n < 2 ^ 16
not_above n h = ground arith

-- What `writeRecoveryPacket` writes for a 16-bit exponent and data of whole words, not empty,
-- `readRecoveryPacket` reads back.
pub read-write_recovery_packet :
    (exp : ℕ) (packet : RecoveryPacket)
    → exp < 2 ^ 16
    → 0 < length packet.bytes
    → length packet.bytes % 4 ≡ 0
    → (body : List ℕ) × (write_recovery_packet exp packet ≡ ok body)
      × (read_recovery_packet body ≡ ok (exp, packet))
unfolding read_recovery_packet write_recovery_packet
read-write_recovery_packet exp packet b z a =
    let word = put_le 4 exp in
    let l = length-put_le 4 exp in
    let size : length (word ++ packet.bytes) ≡ 4 + length packet.bytes =
      length-append word packet.bytes ∙ omega (arith, l) in
    let t1 = whole_words (length packet.bytes) (λ e. omega arith) a in
    let t2 : (length (word ++ packet.bytes) == 0 || not (length (word ++ packet.bytes) % 4 == 0))
        ≡ false =
      whole_words (length (word ++ packet.bytes)) (λ e. omega (arith, size))
        (omega (arith, size)) in
    let v : get_le (slice (word ++ packet.bytes) 0 4) ≡ exp =
      ap get_le (slice_front word packet.bytes 4 l) ∙ get_le-put_le 4 exp (omega arith) in
    let small : ltb 65535 exp ≡ false = ge→ltb 65535 exp (omega arith) in
    (word ++ packet.bytes, rw t1 refl, rw (t2, v, small, drop-append word packet.bytes 4 l) refl)

-- What `readRecoveryPacket` accepts with more than the exponent in it is what
-- `writeRecoveryPacket` writes for the exponent and the packet, and the exponent has 16 bits.
pub write-read_recovery_packet :
    (body : List ℕ) (exp : ℕ) (packet : RecoveryPacket)
    → IsBytes body
    → 4 < length body
    → read_recovery_packet body ≡ ok (exp, packet)
    → (exp < 2 ^ 16) × (write_recovery_packet exp packet ≡ ok body)
unfolding read_recovery_packet write_recovery_packet
write-read_recovery_packet body exp packet w z e =
    let a =
      if_else (length body == 0 || not (length body % 4 == 0)) _ _ (ok (exp, packet))
        (failure≢ok _ _) e in
    let b =
      if_else (ltb 65535 (get_le (slice body 0 4))) _ _ (ok (exp, packet)) (failure≢ok _ _) a.1 in
    let c = ok-injective _ (exp, packet) b.1 in
    let v : get_le (slice body 0 4) ≡ exp = ap (λ x. x.0) c in
    let data_eq : drop 4 body ≡ packet.bytes = ap (λ x. x.1.bytes) c in
    let whole : length body % 4 ≡ 0 = words_whole (length body) a.0 in
    let size : length packet.bytes + 4 ≡ length body =
      omega (arith, ap length data_eq, length-drop 4 body) in
    let t1 = whole_words (length packet.bytes) (λ q. omega arith) (omega arith) in
    let word : put_le 4 exp ≡ slice body 0 4 =
      ap (put_le 4) (sym v)
      ∙ put_le-get_le 4 (slice body 0 4) (length-slice body 0 4 (omega arith) (omega arith))
          (slice-IsBytes body 0 4 w) in
    (
      not_above exp (ap (ltb 65535) (sym v) ∙ b.0),
      rw t1 (ap ok (ap₂ ◌++◌ word (sym data_eq) ∙ slice_join body 0 4 (omega arith))),
    )
