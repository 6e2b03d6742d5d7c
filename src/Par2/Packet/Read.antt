-- ===== src/Par2/Packet/Read.antt =====
-- `readNextPacket`: what an accepted packet was read from, and when it panics.
use gopar_turbo.Base.{
  ℕ, ◌+◌, ◌-◌, ◌%◌, ◌^◌, ◌<◌, ◌≡◌, refl, ap, ap₂, ◌∙◌, sym, subst, arith, not, ◌==◌, leb, List,
  ◌++◌, length, take, drop, ==_iff, append_assoc, take-append-drop, inl, inr,
}
use gopar_turbo.Base.Loops.{
  Outcome, fault, failure, ok, ◌>>◌, if_else, failure≢ok, ok-injective, not-false,
}
use gopar_turbo.Par2.Wire.{same, same→eq, IsBytes, take-IsBytes}
use gopar_turbo.Par2.Packet.{
  PacketHeader, PacketError, Packet, check_packet_header, decode_header, encode_header,
  parse_packet_header, read_packet_header, compute_packet_hash, check_body, read_body,
  read_after_header, read_next_packet, next_packet_header, write_next_packet,
}
use gopar_turbo.Par2.Packet.Header.{
  IsHeader, IsChecked, check-cases, decode-IsHeader, encode-decode_header,
}
use gopar_turbo.Par2.Packet.Write.{IsPacket, packet_bytes, write-packet_bytes}

check-ok_inv :
    {A : Type 0} (h : PacketHeader) (a b : A)
    → (check_packet_header h >> ok a) ≡ ok b
    → IsChecked h × (a ≡ b)
check-ok_inv h a b e = elim (check-cases h) [
  | inl (o, c) ↦ (c, ok-injective a b (rw o at e))
  | inr (x, o, n) ↦ absurd (failure≢ok x b (rw o at e))
]

-- What a header that was accepted is.
pub parse-ok_inv :
    (bytes : List ℕ) (h : PacketHeader)
    → parse_packet_header bytes ≡ ok h
    → (length bytes ≡ 64) × (decode_header bytes ≡ h) × IsChecked h
unfolding parse_packet_header
parse-ok_inv bytes h e =
    let a = if_else (length bytes == 0) _ _ (ok h) (failure≢ok _ h) e in
    let b = if_else (not (length bytes == 64)) _ _ (ok h) (failure≢ok _ h) a.1 in
    let c = check-ok_inv (decode_header bytes) (decode_header bytes) h b.1 in
    (
      (==_iff (length bytes) 64).0 (not-false (length bytes == 64) b.0),
      c.1,
      subst IsChecked c.1 c.0,
    )

module _ (md5 : List ℕ → List ℕ) where
  after_header-ok_inv :
      (o : Outcome PacketError PacketHeader) (rest rest' : List ℕ) (p : Packet)
      → read_after_header md5 o rest ≡ (ok p, rest')
      → (h : PacketHeader) × (o ≡ ok h) × (read_body md5 h rest ≡ (ok p, rest'))
  unfolding read_after_header
  after_header-ok_inv fault rest rest' p e = let e0 = ap (λ x. x.0) e in cc
  after_header-ok_inv (failure x) rest rest' p e = let e0 = ap (λ x. x.0) e in cc
  after_header-ok_inv (ok h) rest rest' p e = (h, refl, e)

  -- What the body of an accepted packet satisfies.
  record IsBody (h : PacketHeader) (p : Packet) : Type 0 where
    size : length p.body ≡ h.length - 64
    recovery_set_id : p.recovery_set_id ≡ h.recovery_set_id
    packet_type : p.packet_type ≡ h.packet_type
    hash : compute_packet_hash md5 h.recovery_set_id h.packet_type p.body ≡ h.hash

  check_body-ok_inv :
      (h : PacketHeader) (n : ℕ) (body : List ℕ) (p : Packet)
      → check_body md5 h n body ≡ ok p
      → (length body ≡ n)
        × (compute_packet_hash md5 h.recovery_set_id h.packet_type body ≡ h.hash)
        × (record { recovery_set_id = h.recovery_set_id; packet_type = h.packet_type; body = body }
            ≡ p)
  unfolding check_body
  check_body-ok_inv h n body p e =
      let a = if_else (not (length body == n)) _ _ (ok p) (failure≢ok _ p) e in
      let b = if_else (not (same _ h.hash)) _ _ (ok p) (failure≢ok _ p) a.1 in
      (
        (==_iff (length body) n).0 (not-false (length body == n) a.0),
        same→eq _ h.hash (not-false _ b.0),
        ok-injective _ p b.1,
      )

  read_body-ok_inv :
      (h : PacketHeader) (buf rest : List ℕ) (p : Packet)
      → read_body md5 h buf ≡ (ok p, rest)
      → (h.length - 64 < 2 ^ 63) × IsBody h p × (buf ≡ p.body ++ rest)
  unfolding read_body
  read_body-ok_inv h buf rest p e =
      let n = h.length - 64 in
      let a = if_else (leb (2 ^ 63) n) _ _ (ok p, rest) (λ f. let f0 = ap (λ x. x.0) f in cc) e in
      let c = check_body-ok_inv h n (take n buf) p (ap (λ x. x.0) a.1) in
      let body : take n buf ≡ p.body = ap (λ q. q.body) c.2 in
      let low : n < 2 ^ 63 = ground arith in
      (
        low,
        record {
          size = ap length (sym body) ∙ c.0;
          recovery_set_id = ap (λ q. q.recovery_set_id) (sym c.2);
          packet_type = ap (λ q. q.packet_type) (sym c.2);
          hash = ap (compute_packet_hash md5 h.recovery_set_id h.packet_type) (sym body) ∙ c.1;
        },
        sym (take-append-drop n buf) ∙ ap₂ ◌++◌ body (ap (λ x. x.1) a.1),
      )

  body-IsPacket :
      (h : PacketHeader) (p : Packet)
      → IsHeader h
      → IsChecked h
      → h.length - 64 < 2 ^ 63
      → IsBody h p
      → IsPacket p
  body-IsPacket h p w c b d = record {
    recovery_set_id = ap length d.recovery_set_id ∙ w.recovery_set_id;
    packet_type = ap length d.packet_type ∙ w.packet_type;
    aligned = omega (arith, d.size, c.aligned, c.least);
    bound = omega (arith, d.size, b);
  }

  header-inverse :
      (h : PacketHeader) (p : Packet)
      → IsChecked h
      → h.length - 64 < 2 ^ 63
      → IsBody h p
      → next_packet_header md5 p ≡ h
  unfolding next_packet_header
  header-inverse h p c b d =
      let size : (64 + length p.body) % 2 ^ 64 ≡ h.length = omega (arith, d.size, b, c.least) in
      let hash : compute_packet_hash md5 p.recovery_set_id p.packet_type p.body ≡ h.hash =
        rw (d.recovery_set_id, d.packet_type) d.hash in
      λ i. record {
        magic = sym c.magic i;
        length = size i;
        hash = hash i;
        recovery_set_id = d.recovery_set_id i;
        packet_type = d.packet_type i;
      }

  -- Where `readNextPacket` returns a packet, the buffer, if it consists of bytes, is some bytes
  -- followed by the rest that is returned, and for that packet `writeNextPacket` adds exactly those
  -- bytes to a buffer.
  pub write-read_next_packet :
      (buf rest out : List ℕ) (p : Packet)
      → IsBytes buf
      → read_next_packet md5 buf ≡ (ok p, rest)
      → (bytes : List ℕ) × (buf ≡ bytes ++ rest) × (write_next_packet md5 out p ≡ ok (out ++ bytes))
  unfolding read_next_packet read_packet_header packet_bytes
  write-read_next_packet buf rest out p w e =
      let front = take 64 buf in
      let a = after_header-ok_inv (parse_packet_header front) (drop 64 buf) rest p e in
      let h = a.0 in
      let i = parse-ok_inv front h a.1 in
      let c = i.2 in
      let r = read_body-ok_inv h (drop 64 buf) rest p a.2 in
      let wf : IsHeader h =
        subst IsHeader i.1 (decode-IsHeader front i.0 (take-IsBytes 64 buf w)) in
      let head : encode_header (next_packet_header md5 p) ≡ front =
        ap encode_header (header-inverse h p c r.0 r.1 ∙ sym i.1)
        ∙ encode-decode_header front i.0 (take-IsBytes 64 buf w) in
      (
        packet_bytes md5 p,
        sym (take-append-drop 64 buf)
            ∙ ap₂ ◌++◌ (sym head) r.2
            ∙ sym (append_assoc (encode_header (next_packet_header md5 p)) p.body rest),
        write-packet_bytes md5 out p (body-IsPacket h p wf c r.0 r.1),
      )
