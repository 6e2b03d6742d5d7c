-- ===== src/Par2/Volume/Layout.antt =====
-- A packet at some place of a file that holds packets one after the other, as a volume's readers
-- see it.
use gopar_turbo.Base.{
  ℕ, ◌+◌, ◌-◌, ◌^◌, ◌≤◌, ◌≡◌, refl, sym, ◌∙◌, ap, ap₂, arith, ltb, leb, ge→ltb, false, List, [],
  ◌∷◌, ◌++◌, length, length-append, append_assoc, append-nil, subst,
}
use gopar_turbo.Base.Loops.{Outcome, ok, ◌>>=◌}
use gopar_turbo.Par2.Wire.{get_le, slice, slice_front, slice_past}
use gopar_turbo.Par2.Packet.{
  Packet, decode_header, encode_header, parse_packet_header, read_next_packet, next_packet_header,
}
use gopar_turbo.Par2.Packet.Header.{IsChecked, decode-encode_header, length-encode_header}
use gopar_turbo.Par2.Packet.Write.{
  IsPacket, packet_bytes, parse_ok, next_packet_header-IsHeader, next_packet_header-IsChecked,
  read-packet_bytes,
}
use gopar_turbo.Par2.Volume.{
  VolumeError, max_packet_length, walk_packet, walk_length, walk_round, PacketRef, advance,
  index_header, index_round, read_packet_at,
}

-- Packets within the limit on a single packet.
abbrev pub AreStored : List Packet → Type 0
AreStored [] = Unit
AreStored (p ∷ ps) = IsPacket p × (64 + length p.body ≤ max_packet_length) × AreStored ps

-- The size of a packet in a file.
abbrev pub stored_size : Packet → ℕ
stored_size p = 64 + length p.body

-- Reading within the file returns its bytes.
unfoldable pub Reads : List ℕ → (ℕ → ℕ → Outcome VolumeError (List ℕ)) → Type 0
Reads contents read_at =
    (offset n : ℕ)
    → offset + n ≤ length contents
    → read_at offset n ≡ ok (slice contents offset (offset + n))

module _ (md5 : List ℕ → List ℕ) where
  -- The packets in a file.
  abbrev pub volume_bytes : List Packet → List ℕ
  volume_bytes [] = []
  volume_bytes (p ∷ ps) = packet_bytes md5 p ++ volume_bytes ps

  module _ (digest : (xs : List ℕ) → length (md5 xs) ≡ 16) (p : Packet) (w : IsPacket p)
      (fits : stored_size p ≤ max_packet_length) where
    header_size : length (encode_header (next_packet_header md5 p)) ≡ 64
    header_size =
        length-encode_header (next_packet_header md5 p) (next_packet_header-IsHeader md5 digest p w)

    pub length-packet_bytes : length (packet_bytes md5 p) ≡ stored_size p
    unfolding packet_bytes
    length-packet_bytes =
        length-append (encode_header (next_packet_header md5 p)) p.body ∙ omega (arith, header_size)

    length_field : get_le (slice (encode_header (next_packet_header md5 p)) 8 16) ≡ stored_size p
    unfolding decode_header next_packet_header
    length_field =
        ap (λ h. h.length)
          (decode-encode_header (next_packet_header md5 p)
            (next_packet_header-IsHeader md5 digest p w))
        ∙ omega arith

    read_whole : (read_next_packet md5 (packet_bytes md5 p)).0 ≡ ok p
    read_whole =
        ap (λ bytes. (read_next_packet md5 bytes).0) (sym (append-nil (packet_bytes md5 p)))
        ∙ ap (λ r. r.0) (read-packet_bytes md5 digest p [] w)

    module _ (pre rest contents : List ℕ) (read_at : ℕ → ℕ → Outcome VolumeError (List ℕ))
        (reads : Reads contents read_at) (e : contents ≡ pre ++ (packet_bytes md5 p ++ rest)) where
      pub size_bound : length pre + stored_size p ≤ length contents
      size_bound = omega (
        arith,
        ap length e,
        length-append pre (packet_bytes md5 p ++ rest),
        length-append (packet_bytes md5 p) rest,
        length-packet_bytes,
      )

      slice_at :
          (n : ℕ)
          → slice contents (length pre) (length pre + n) ≡ slice (packet_bytes md5 p ++ rest) 0 n
      slice_at n =
          ap₂ (λ xs i. slice xs i (length pre + n)) {u = length pre} {v = length pre + 0} e
            (omega arith)
          ∙ slice_past pre (packet_bytes md5 p ++ rest) (length pre) 0 n refl

      read_header : read_at (length pre) 64 ≡ ok (encode_header (next_packet_header md5 p))
      unfolding packet_bytes Reads
      read_header =
          reads (length pre) 64 (omega (arith, size_bound))
          ∙ ap ok (
              slice_at 64
              ∙ ap (λ xs. slice xs 0 64)
                  (append_assoc (encode_header (next_packet_header md5 p)) p.body rest)
              ∙ slice_front (encode_header (next_packet_header md5 p)) (p.body ++ rest) 64
                  header_size)

      read_packet : read_at (length pre) (stored_size p) ≡ ok (packet_bytes md5 p)
      unfolding Reads
      read_packet =
          reads (length pre) (stored_size p) size_bound
          ∙ ap ok (
              slice_at (stored_size p)
              ∙ slice_front (packet_bytes md5 p) rest (stored_size p) length-packet_bytes)

      inside : ltb (length contents - length pre) 64 ≡ false
      inside = ge→ltb (length contents - length pre) 64 (omega (arith, size_bound))

      -- A round of `walkPackets` here.
      pub walk_here :
          {S : Type 0} (fn : Packet → ℕ → S → Outcome VolumeError S) (s : S)
          → walk_round md5 read_at fn (length contents) (length pre) s
            ≡ (fn p (length pre) s >>= λ s'. ok (length pre + stored_size p, s'))
      unfolding walk_round walk_length walk_packet
      walk_here fn s =
          let positive : leb (2 ^ 63) (stored_size p) ≡ false = ground arith in
          let least : ltb (stored_size p) 64 ≡ false = ge→ltb (stored_size p) 64 (omega arith) in
          let most : ltb max_packet_length (stored_size p) ≡ false =
            ge→ltb max_packet_length (stored_size p) fits in
          let whole : ltb (length contents) (length pre + stored_size p) ≡ false =
            ge→ltb (length contents) (length pre + stored_size p) size_bound in
          rw
            (
              inside, read_header, length_field, positive, least, most, whole, read_packet,
              read_whole,
            )
            refl

      pub ref_here : PacketRef
      ref_here = record {
        offset = length pre;
        length = stored_size p;
        header = next_packet_header md5 p;
      }

      parse_here :
          parse_packet_header (encode_header (next_packet_header md5 p))
          ≡ ok (next_packet_header md5 p)
      parse_here =
          let same =
            decode-encode_header (next_packet_header md5 p)
              (next_packet_header-IsHeader md5 digest p w) in
          parse_ok (encode_header (next_packet_header md5 p)) header_size
            (subst IsChecked (sym same) (next_packet_header-IsChecked md5 p w))
          ∙ ap ok same

      own_length : (next_packet_header md5 p).length ≡ stored_size p
      unfolding next_packet_header
      own_length = omega arith

      pub index_here :
          (refs : List PacketRef)
          → index_round md5 read_at (length contents) (length pre) refs
            ≡ ok (length pre + stored_size p, refs ++ (ref_here ∷ []))
      unfolding index_round index_header advance ref_here
      index_here refs =
          let positive : leb (2 ^ 63) (stored_size p) ≡ false = ground arith in
          let most : ltb max_packet_length (stored_size p) ≡ false =
            ge→ltb max_packet_length (stored_size p) fits in
          let whole : ltb (length contents) (length pre + stored_size p) ≡ false =
            ge→ltb (length contents) (length pre + stored_size p) size_bound in
          rw (inside, read_header, parse_here, own_length, positive, most, whole) refl

      pub read_here : read_packet_at md5 read_at ref_here ≡ ok p
      unfolding read_packet_at ref_here
      read_here =
          let positive : leb (2 ^ 63) (stored_size p) ≡ false = ground arith in
          rw (positive, read_packet, read_whole) refl
