-- ===== src/Par2/Packet/Header.antt =====
-- `packetHeader` on the wire: decoding against encoding, and the checks.
use gopar_turbo.Base.{
  ℕ, ◌%◌, ◌≤◌, ◌<◌, ◌≡◌, refl, ap, ap₂, ◌∙◌, arith, true, false, ◌==◌, ltb, List, ◌++◌, length,
  drop, ==_iff, ge→ltb, ltb→lt, Bool-cases, inl, inr, length-append, ◌⊎◌,
}
use gopar_turbo.Base.Loops.{failure, ok}
use gopar_turbo.Par2.Wire.{
  put_le, get_le, slice, same, IsBytes, limit, length-put_le, get_le-put_le, put_le-get_le,
  get_le-bound, same_refl, same→eq, slice_front, slice_past, slice_join, length-slice, slice_all,
  slice_last, slice-IsBytes,
}
use gopar_turbo.Par2.Packet.{
  PacketHeader, PacketError, unexpected_magic_string, invalid_length, expected_magic,
  check_packet_header, decode_header, encode_header,
}

-- The sizes of the arrays, and the bound of the 64-bit length.
pub record IsHeader (h : PacketHeader) : Type 0 where
  pub magic : length h.magic ≡ 8
  pub bound : h.length < limit 8
  pub hash : length h.hash ≡ 16
  pub recovery_set_id : length h.recovery_set_id ≡ 16
  pub packet_type : length h.packet_type ≡ 16

pub decode-encode_header : (h : PacketHeader) → IsHeader h → decode_header (encode_header h) ≡ h
unfolding decode_header encode_header
decode-encode_header h w =
    let word = put_le 8 h.length in
    let word8 = length-put_le 8 h.length in
    let ids = h.recovery_set_id ++ h.packet_type in
    let e1 : slice (h.magic ++ (word ++ (h.hash ++ ids))) 0 8 ≡ h.magic =
      slice_front h.magic (word ++ (h.hash ++ ids)) 8 w.magic in
    let p1 = λ (i : ℕ) (j : ℕ). slice_past h.magic (word ++ (h.hash ++ ids)) 8 i j w.magic in
    let p2 = λ (i : ℕ) (j : ℕ). slice_past word (h.hash ++ ids) 8 i j word8 in
    let p3 = λ (i : ℕ) (j : ℕ). slice_past h.hash ids 16 i j w.hash in
    let p4 =
      λ (i : ℕ) (j : ℕ). slice_past h.recovery_set_id h.packet_type 16 i j w.recovery_set_id in
    let e2 : slice (h.magic ++ (word ++ (h.hash ++ ids))) 8 16 ≡ word =
      p1 0 8 ∙ slice_front word (h.hash ++ ids) 8 word8 in
    let e3 : slice (h.magic ++ (word ++ (h.hash ++ ids))) 16 32 ≡ h.hash =
      p1 8 24 ∙ p2 0 16 ∙ slice_front h.hash ids 16 w.hash in
    let e4 : slice (h.magic ++ (word ++ (h.hash ++ ids))) 32 48 ≡ h.recovery_set_id =
      p1 24 40
      ∙ p2 16 32
      ∙ p3 0 16
      ∙ slice_front h.recovery_set_id h.packet_type 16 w.recovery_set_id in
    let e5 : slice (h.magic ++ (word ++ (h.hash ++ ids))) 48 64 ≡ h.packet_type =
      p1 40 56 ∙ p2 32 48 ∙ p3 16 32 ∙ p4 0 16 ∙ slice_all h.packet_type 16 w.packet_type in
    let e2' = ap get_le e2 ∙ get_le-put_le 8 h.length w.bound in
    λ i. record {
      magic = e1 i;
      length = e2' i;
      hash = e3 i;
      recovery_set_id = e4 i;
      packet_type = e5 i;
    }

pub encode-decode_header :
    (bytes : List ℕ)
    → length bytes ≡ 64
    → IsBytes bytes
    → encode_header (decode_header bytes) ≡ bytes
unfolding decode_header encode_header
encode-decode_header bytes e b =
    let word : put_le 8 (get_le (slice bytes 8 16)) ≡ slice bytes 8 16 =
      put_le-get_le 8 (slice bytes 8 16) (length-slice bytes 8 16 (omega arith) (omega arith))
        (slice-IsBytes bytes 8 16 b) in
    let e5 : slice bytes 48 64 ≡ drop 48 bytes = slice_last bytes 48 64 e in
    let e4 : slice bytes 32 48 ++ slice bytes 48 64 ≡ drop 32 bytes =
      ap (◌++◌ (slice bytes 32 48)) e5 ∙ slice_join bytes 32 48 (omega arith) in
    let e3 = ap (◌++◌ (slice bytes 16 32)) e4 ∙ slice_join bytes 16 32 (omega arith) in
    let e2 = ap₂ ◌++◌ word e3 ∙ slice_join bytes 8 16 (omega arith) in
    ap (◌++◌ (slice bytes 0 8)) e2 ∙ slice_join bytes 0 8 (omega arith)

pub decode-IsHeader :
    (bytes : List ℕ) → length bytes ≡ 64 → IsBytes bytes → IsHeader (decode_header bytes)
unfolding decode_header
decode-IsHeader bytes e b = record {
  magic = length-slice bytes 0 8 (omega arith) (omega arith);
  bound =
      get_le-bound 8 (slice bytes 8 16) (length-slice bytes 8 16 (omega arith) (omega arith))
        (slice-IsBytes bytes 8 16 b);
  hash = length-slice bytes 16 32 (omega arith) (omega arith);
  recovery_set_id = length-slice bytes 32 48 (omega arith) (omega arith);
  packet_type = length-slice bytes 48 64 (omega arith) (omega arith);
}

pub length-encode_header : (h : PacketHeader) → IsHeader h → length (encode_header h) ≡ 64
unfolding encode_header
length-encode_header h w =
    let word8 = length-put_le 8 h.length in
    let ids = length-append h.recovery_set_id h.packet_type in
    let l3 = length-append h.hash (h.recovery_set_id ++ h.packet_type) in
    let l2 = length-append (put_le 8 h.length) (h.hash ++ (h.recovery_set_id ++ h.packet_type)) in
    let l1 =
      length-append h.magic
        (put_le 8 h.length ++ (h.hash ++ (h.recovery_set_id ++ h.packet_type))) in
    omega (arith, l1, l2, l3, ids, word8, w.magic, w.hash, w.recovery_set_id, w.packet_type)

-- A header that passes the checks.
pub record IsChecked (h : PacketHeader) : Type 0 where
  pub magic : h.magic ≡ expected_magic
  pub least : 64 ≤ h.length
  pub aligned : h.length % 4 ≡ 0

pub check_ok : (h : PacketHeader) → IsChecked h → check_packet_header h ≡ ok tt
unfolding check_packet_header
check_ok h w =
    let s : same h.magic expected_magic ≡ true =
      ap (λ m. same m expected_magic) w.magic ∙ same_refl expected_magic in
    let l : ltb h.length 64 ≡ false = ge→ltb h.length 64 w.least in
    let a : (h.length % 4 == 0) ≡ true = (==_iff (h.length % 4) 0).1 w.aligned in rw (s, l, a) refl

unaligned : (h : PacketHeader) → (h.length % 4 == 0) ≡ false → ¬ (h.length % 4 ≡ 0)
unaligned h a e = let t : (h.length % 4 == 0) ≡ true = (==_iff (h.length % 4) 0).1 e in cc

unmatched : (h : PacketHeader) → same h.magic expected_magic ≡ false → ¬ (h.magic ≡ expected_magic)
unmatched h s e =
    let t : same h.magic expected_magic ≡ true =
      ap (λ m. same m expected_magic) e ∙ same_refl expected_magic in
    cc

-- Either all checks pass, or an error comes; never a panic.
pub check-cases :
    (h : PacketHeader)
    → ((check_packet_header h ≡ ok tt) × IsChecked h)
      ⊎ ((e : PacketError) × (check_packet_header h ≡ failure e) × ¬ IsChecked h)
unfolding check_packet_header
check-cases h = elim (Bool-cases (same h.magic expected_magic)) [
  | inl s ↦ elim (Bool-cases (ltb h.length 64)) [
    | inl l ↦
        inr (
          invalid_length,
          rw (s, l) refl,
          λ c. absurd (omega (arith, ltb→lt h.length 64 l, c.least)),
        )
    | inr l ↦ elim (Bool-cases (h.length % 4 == 0)) [
      | inl a ↦ inl (
        rw (s, l, a) refl,
        record {
          magic = same→eq h.magic expected_magic s;
          least = ground arith;
          aligned = (==_iff (h.length % 4) 0).0 a;
        },
      )
      | inr a ↦ inr (invalid_length, rw (s, l, a) refl, λ c. unaligned h a c.aligned)
    ]
  ]
  | inr s ↦ inr (unexpected_magic_string, rw s refl, λ c. unmatched h s c.magic)
]
