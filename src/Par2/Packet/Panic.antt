-- ===== src/Par2/Packet/Panic.antt =====
-- `readNextPacket` on a length field that does not fit an `int`.
use gopar_turbo.Base.{
  ℕ, ◌-◌, ◌^◌, ◌≤◌, ◌≡◌, refl, sym, subst, arith, not, ◌==◌, leb, List, length, take, drop, leb→le,
  le→leb, length-take, ◌↔◌, inl, inr, Bool-cases,
}
use gopar_turbo.Base.Loops.{Outcome, fault, failure, ok, if_else}
use gopar_turbo.Par2.Wire.{same}
use gopar_turbo.Par2.Packet.{
  PacketHeader, PacketError, decode_header, parse_packet_header, read_packet_header, check_body,
  read_body, read_after_header, read_next_packet,
}
use gopar_turbo.Par2.Packet.Header.{IsChecked, check-cases}
use gopar_turbo.Par2.Packet.Write.{parse_ok}
use gopar_turbo.Par2.Packet.Read.{parse-ok_inv}

failure≢fault : {E A : Type 0} (e : E) → ¬ (◌≡◌ {A = Outcome E A} (failure e) fault)
failure≢fault e h = cc

ok≢fault : {E A : Type 0} (a : A) → ¬ (◌≡◌ {A = Outcome E A} (ok a) fault)
ok≢fault a h = cc

parse_total : (bytes : List ℕ) → ¬ (parse_packet_header bytes ≡ fault)
unfolding parse_packet_header
parse_total bytes e =
    let a = if_else (length bytes == 0) _ _ fault (failure≢fault _) e in
    let b = if_else (not (length bytes == 64)) _ _ fault (failure≢fault _) a.1 in
    elim (check-cases (decode_header bytes)) [
      | inl (o, c) ↦ ok≢fault (decode_header bytes) (rw o at b.1)
      | inr (x, o, n) ↦ failure≢fault x (rw o at b.1)
    ]

-- Where the header is accepted and its length counts a body of 2^63 bytes or more.
pub IsOverlong : List ℕ → Type 0
IsOverlong buf =
    (64 ≤ length buf)
    × IsChecked (decode_header (take 64 buf))
    × (2 ^ 63 ≤ (decode_header (take 64 buf)).length - 64)

module _ (md5 : List ℕ → List ℕ) where
  check_body_total :
      (h : PacketHeader) (n : ℕ) (body : List ℕ) → ¬ (check_body md5 h n body ≡ fault)
  unfolding check_body
  check_body_total h n body e =
      let a = if_else (not (length body == n)) _ _ fault (failure≢fault _) e in
      let b = if_else (not (same _ h.hash)) _ _ fault (failure≢fault _) a.1 in ok≢fault _ b.1

  read_body-fault :
      (h : PacketHeader) (buf : List ℕ) → (read_body md5 h buf).0 ≡ fault → 2 ^ 63 ≤ h.length - 64
  unfolding read_body
  read_body-fault h buf e = elim (Bool-cases (leb (2 ^ 63) (h.length - 64))) [
    | inl l ↦ leb→le (2 ^ 63) (h.length - 64) l
    | inr l ↦ absurd (check_body_total h (h.length - 64) (take (h.length - 64) buf) (rw l at e))
  ]

  overlong-fault :
      (h : PacketHeader) (buf : List ℕ) → 2 ^ 63 ≤ h.length - 64 → (read_body md5 h buf).0 ≡ fault
  unfolding read_body
  overlong-fault h buf b = rw (le→leb (2 ^ 63) (h.length - 64) b) refl

  fault-IsOverlong :
      (buf : List ℕ) (o : Outcome PacketError PacketHeader)
      → parse_packet_header (take 64 buf) ≡ o
      → (read_after_header md5 o (drop 64 buf)).0 ≡ fault
      → IsOverlong buf
  unfolding read_after_header IsOverlong
  fault-IsOverlong buf fault p e = absurd (parse_total (take 64 buf) p)
  fault-IsOverlong buf (failure x) p e = absurd (failure≢fault x e)
  fault-IsOverlong buf (ok h) p e =
      let i = parse-ok_inv (take 64 buf) h p in
      let big = read_body-fault h (drop 64 buf) e in
      (
        omega (arith, i.0, length-take 64 buf),
        subst IsChecked (sym i.1) i.2,
        subst (λ q. 2 ^ 63 ≤ q.length - 64) (sym i.1) big,
      )

  IsOverlong-fault : (buf : List ℕ) → IsOverlong buf → (read_next_packet md5 buf).0 ≡ fault
  unfolding read_next_packet read_packet_header read_after_header IsOverlong
  IsOverlong-fault buf w =
      let l : length (take 64 buf) ≡ 64 = omega (arith, length-take 64 buf, w.0) in
      rw (parse_ok (take 64 buf) l w.1)
        (overlong-fault (decode_header (take 64 buf)) (drop 64 buf) w.2)

  -- `readNextPacket` panics on exactly the buffers that start with an accepted header whose length
  -- is 2^63 + 64 or more. On every other buffer it returns a packet or an error.
  pub read_next_packet-panics :
      (buf : List ℕ) → ((read_next_packet md5 buf).0 ≡ fault) ↔ IsOverlong buf
  unfolding read_next_packet read_packet_header
  read_next_packet-panics buf =
      (fault-IsOverlong buf (parse_packet_header (take 64 buf)) refl, IsOverlong-fault buf)
