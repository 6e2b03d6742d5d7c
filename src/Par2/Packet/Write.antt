-- ===== src/Par2/Packet/Write.antt =====
-- `writeNextPacket`, and `readNextPacket` on what it wrote.
use gopar_turbo.Base.{
  ℕ, ◌-◌, ◌%◌, ◌^◌, ◌<◌, ◌≡◌, refl, ap, ◌∙◌, sym, arith, true, false, ◌==◌, leb, List, ◌++◌, length,
  ==_iff, take-append, drop-append, append_assoc, subst,
}
use gopar_turbo.Base.Loops.{ok}
use gopar_turbo.Par2.Wire.{same_refl}
use gopar_turbo.Par2.Packet.{
  PacketHeader, Packet, decode_header, encode_header, parse_packet_header, read_packet_header,
  write_packet_header, compute_packet_hash, check_body, read_body, read_after_header,
  read_next_packet, next_packet_header, write_next_packet,
}
use gopar_turbo.Par2.Packet.Header.{
  IsHeader, IsChecked, check_ok, decode-encode_header, length-encode_header,
}

-- A packet that the format can hold: identifiers of 16 bytes, and a body of whole 4-byte words
-- whose length is an `int`.
pub record IsPacket (p : Packet) : Type 0 where
  pub recovery_set_id : length p.recovery_set_id ≡ 16
  pub packet_type : length p.packet_type ≡ 16
  pub aligned : length p.body % 4 ≡ 0
  pub bound : length p.body < 2 ^ 63

pub parse_ok :
    (bytes : List ℕ)
    → length bytes ≡ 64
    → IsChecked (decode_header bytes)
    → parse_packet_header bytes ≡ ok (decode_header bytes)
unfolding parse_packet_header
parse_ok bytes e c =
    let z : (length bytes == 0) ≡ false = ground arith in
    let f : (length bytes == 64) ≡ true = ground arith in
    rw (z, f, check_ok (decode_header bytes) c) refl

module _ (md5 : List ℕ → List ℕ) where
  -- What a packet looks like in a file.
  unfoldable pub packet_bytes : Packet → List ℕ
  packet_bytes p = encode_header (next_packet_header md5 p) ++ p.body

  pub next_packet_header-IsChecked :
      (p : Packet) → IsPacket p → IsChecked (next_packet_header md5 p)
  unfolding next_packet_header
  next_packet_header-IsChecked p w = record {
    magic = refl;
    least = omega (arith, w.bound);
    aligned = omega (arith, w.bound, w.aligned);
  }

  pub write-packet_bytes :
      (out : List ℕ) (p : Packet)
      → IsPacket p
      → write_next_packet md5 out p ≡ ok (out ++ packet_bytes p)
  unfolding write_next_packet write_packet_header packet_bytes
  write-packet_bytes out p w =
      rw (check_ok (next_packet_header md5 p) (next_packet_header-IsChecked p w))
        (ap ok (append_assoc out (encode_header (next_packet_header md5 p)) p.body))

  pub check_body_ok :
      (h : PacketHeader) (n : ℕ) (body : List ℕ)
      → length body ≡ n
      → compute_packet_hash md5 h.recovery_set_id h.packet_type body ≡ h.hash
      → check_body md5 h n body
        ≡ ok (record {
          recovery_set_id = h.recovery_set_id;
          packet_type = h.packet_type;
          body = body;
        })
  unfolding check_body
  check_body_ok h n body e s =
      let l : (length body == n) ≡ true = (==_iff (length body) n).1 e in
      rw (l, s, same_refl h.hash) refl

  pub read_body_ok :
      (h : PacketHeader) (body rest : List ℕ)
      → h.length - 64 ≡ length body
      → length body < 2 ^ 63
      → compute_packet_hash md5 h.recovery_set_id h.packet_type body ≡ h.hash
      → read_body md5 h (body ++ rest) ≡ (
        ok (record {
          recovery_set_id = h.recovery_set_id;
          packet_type = h.packet_type;
          body = body;
        }),
        rest,
      )
  unfolding read_body
  read_body_ok h body rest e b s =
      let l : leb (2 ^ 63) (length body) ≡ false = ground arith in
      rw
        (
          e,
          l,
          take-append body rest (length body) refl,
          drop-append body rest (length body) refl,
          check_body_ok h (length body) body refl s,
        )
        refl

  pub read_own_body :
      (p : Packet) (rest : List ℕ)
      → IsPacket p
      → read_body md5 (next_packet_header md5 p) (p.body ++ rest) ≡ (ok p, rest)
  unfolding next_packet_header
  read_own_body p rest w =
      read_body_ok (next_packet_header md5 p) p.body rest (omega (arith, w.bound)) w.bound refl

module _ (md5 : List ℕ → List ℕ) (digest : (xs : List ℕ) → length (md5 xs) ≡ 16) where
  pub next_packet_header-IsHeader : (p : Packet) → IsPacket p → IsHeader (next_packet_header md5 p)
  unfolding next_packet_header compute_packet_hash
  next_packet_header-IsHeader p w = record {
    magic = refl;
    bound = omega arith;
    hash = digest (p.recovery_set_id ++ p.packet_type ++ p.body);
    recovery_set_id = w.recovery_set_id;
    packet_type = w.packet_type;
  }

  pub read-packet_bytes :
      (p : Packet) (rest : List ℕ)
      → IsPacket p
      → read_next_packet md5 (packet_bytes md5 p ++ rest) ≡ (ok p, rest)
  unfolding read_next_packet read_packet_header read_after_header packet_bytes
  read-packet_bytes p rest w =
      let h = next_packet_header md5 p in
      let e = encode_header h in
      let wf = next_packet_header-IsHeader p w in
      let c = next_packet_header-IsChecked md5 p w in
      let l = length-encode_header h wf in
      let d = decode-encode_header h wf in
      let parse : parse_packet_header e ≡ ok h =
        parse_ok e l (subst IsChecked (sym d) c) ∙ ap ok d in
      rw
        (
          append_assoc e p.body rest,
          take-append e (p.body ++ rest) 64 l,
          drop-append e (p.body ++ rest) 64 l,
          parse,
        )
        (read_own_body md5 p rest w)

  -- A packet with identifiers of 16 bytes and a body of whole 4-byte words, below 2^63 bytes, is
  -- written at the end of the buffer, and whatever follows it there, `readNextPacket` returns that
  -- packet and leaves what follows. MD5 is any hash with digests of 16 bytes.
  pub read-write_next_packet :
      (p : Packet) (out rest : List ℕ)
      → IsPacket p
      → (bytes : List ℕ) × (write_next_packet md5 out p ≡ ok (out ++ bytes))
        × (read_next_packet md5 (bytes ++ rest) ≡ (ok p, rest))
  read-write_next_packet p out rest w =
      (packet_bytes md5 p, write-packet_bytes md5 out p w, read-packet_bytes p rest w)
