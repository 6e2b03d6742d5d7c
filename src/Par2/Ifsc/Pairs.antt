-- ===== src/Par2/Ifsc/Pairs.antt =====
-- `readIFSCPacket` against `writeIFSCPacket`.
use gopar_turbo.Base.{
  ℕ, zero, suc, ◌+◌, ◌-◌, ◌*◌, ◌/◌, ◌%◌, ◌<◌, ◌≡◌, refl, ap, ap₂, ◌∙◌, sym, arith, true, false, not,
  ◌||◌, ◌==◌, List, [], ◌∷◌, ◌++◌, length, take, drop, ==_iff, take-append, drop-append,
  length-append, drop_all, take-append-drop, positive→==,
}
use gopar_turbo.Base.Loops.{ok, if_else, failure≢ok, ok-injective}
use gopar_turbo.Par2.Wire.{
  slice, slice_front, slice_past, slice_join, length-slice, drop-drop, slice_last, slice_all,
}
use gopar_turbo.Par2.Ifsc.{
  ChecksumPair, IfscPacket, decode_pair, decode_pairs, encode_pairs, read_ifsc_packet,
  write_ifsc_packet,
}

abbrev pub ArePairs : List ChecksumPair → Type 0
ArePairs [] = Unit
ArePairs (p ∷ ps) = (length p.md5 ≡ 16) × (length p.crc32 ≡ 4) × ArePairs ps

length-encode_pairs :
    (ps : List ChecksumPair) → ArePairs ps → length (encode_pairs ps) ≡ length ps * 20
unfolding encode_pairs
length-encode_pairs [] w = refl
length-encode_pairs (p ∷ ps) w =
    let rest = length-encode_pairs ps w.2 in
    omega (
      arith,
      length-append (p.md5 ++ p.crc32) (encode_pairs ps),
      length-append p.md5 p.crc32,
      rest,
      w.0,
      w.1,
    )

decode-encode_pair :
    (p : ChecksumPair) → length p.md5 ≡ 16 → length p.crc32 ≡ 4 → decode_pair (p.md5 ++ p.crc32) ≡ p
unfolding decode_pair
decode-encode_pair p m c =
    let e1 = slice_front p.md5 p.crc32 16 m in
    let e2 = slice_past p.md5 p.crc32 16 0 4 m ∙ slice_all p.crc32 4 c in
    λ i. record { md5 = e1 i; crc32 = e2 i }

-- The slice of round `i`, from what is left at that round.
slice_round :
    (bytes : List ℕ) (i : ℕ) → slice bytes (i * 20) ((i + 1) * 20) ≡ take 20 (drop (i * 20) bytes)
unfolding slice
slice_round bytes i =
    let width : (i + 1) * 20 - i * 20 ≡ 20 = omega arith in
    ap (λ n. take n (drop (i * 20) bytes)) width

drop_round : (bytes : List ℕ) (i : ℕ) → drop ((i + 1) * 20) bytes ≡ drop 20 (drop (i * 20) bytes)
drop_round bytes i = sym (drop-drop (i * 20) 20 ((i + 1) * 20) bytes (omega arith))

decode-encode_pairs :
    (ps : List ChecksumPair) (i : ℕ) (bytes : List ℕ)
    → ArePairs ps
    → drop (i * 20) bytes ≡ encode_pairs ps
    → decode_pairs (length ps) i bytes ≡ ps
unfolding decode_pairs encode_pairs
decode-encode_pairs [] i bytes w e = refl
decode-encode_pairs (p ∷ ps) i bytes w e =
    let l : length (p.md5 ++ p.crc32) ≡ 20 =
      length-append p.md5 p.crc32 ∙ omega (arith, w.0, w.1) in
    let here : slice bytes (i * 20) ((i + 1) * 20) ≡ p.md5 ++ p.crc32 =
      slice_round bytes i
      ∙ ap (take 20) e
      ∙ take-append (p.md5 ++ p.crc32) (encode_pairs ps) 20 l in
    let next : drop ((i + 1) * 20) bytes ≡ encode_pairs ps =
      drop_round bytes i ∙ ap (drop 20) e ∙ drop-append (p.md5 ++ p.crc32) (encode_pairs ps) 20 l in
    ap₂ ◌∷◌ (ap decode_pair here ∙ decode-encode_pair p w.0 w.1)
      (decode-encode_pairs ps (i + 1) bytes w.2 next)

encode-decode_pairs :
    (n i : ℕ) (bytes : List ℕ)
    → length bytes ≡ (i + n) * 20
    → encode_pairs (decode_pairs n i bytes) ≡ drop (i * 20) bytes
unfolding decode_pairs encode_pairs decode_pair
encode-decode_pairs zero i bytes e = sym (drop_all (i * 20) bytes (omega arith))
encode-decode_pairs (suc n) i bytes e =
    let pair = slice bytes (i * 20) ((i + 1) * 20) in
    let l : length pair ≡ 20 =
      length-slice bytes (i * 20) ((i + 1) * 20) (omega arith) (omega arith) ∙ omega arith in
    let here : slice pair 0 16 ++ slice pair 16 20 ≡ pair =
      ap (◌++◌ (slice pair 0 16)) (slice_last pair 16 20 l) ∙ slice_join pair 0 16 (omega arith) in
    let rest = encode-decode_pairs n (i + 1) bytes (omega arith) in
    ap₂ ◌++◌ here rest ∙ slice_join bytes (i * 20) ((i + 1) * 20) (omega arith)

length-decode_pairs : (n i : ℕ) (bytes : List ℕ) → length (decode_pairs n i bytes) ≡ n
unfolding decode_pairs
length-decode_pairs zero i bytes = refl
length-decode_pairs (suc n) i bytes = ap suc (length-decode_pairs n (i + 1) bytes)

nonempty : (xs ys : List ℕ) → length xs ≡ 16 → (length (xs ++ ys) == 0) ≡ false
nonempty xs ys l = positive→== (length (xs ++ ys)) (omega (arith, length-append xs ys))

-- The test on the size of the pairs.
whole_pairs : (n k : ℕ) → n ≡ k * 20 → 0 < k → (n == 0 || not (n % 20 == 0)) ≡ false
whole_pairs n k e z = ground arith

pairs_whole : (n : ℕ) → (n == 0 || not (n % 20 == 0)) ≡ false → (0 < n) × (n % 20 ≡ 0)
pairs_whole n h = (ground arith, ground arith)

-- What `writeIFSCPacket` writes for an identifier of 16 bytes and one or more pairs of checksums of
-- 16 and 4 bytes, `readIFSCPacket` reads back.
pub read-write_ifsc_packet :
    (id : List ℕ) (packet : IfscPacket)
    → length id ≡ 16
    → ArePairs packet.checksum_pairs
    → 0 < length packet.checksum_pairs
    → (body : List ℕ) × (write_ifsc_packet id packet ≡ ok body)
      × (read_ifsc_packet body ≡ ok (id, packet))
unfolding read_ifsc_packet write_ifsc_packet
read-write_ifsc_packet id packet l w z =
    let ps = packet.checksum_pairs in
    let size = length-encode_pairs ps w in
    let count : length (encode_pairs ps) / 20 ≡ length ps = omega (arith, size) in
    let t0 : (length ps == 0) ≡ false = ground arith in
    let t1 : (length (id ++ encode_pairs ps) == 0) ≡ false = nonempty id (encode_pairs ps) l in
    let t2 : (length id == 16) ≡ true = (==_iff (length id) 16).1 l in
    let t3 = whole_pairs (length (encode_pairs ps)) (length ps) size z in
    (
      id ++ encode_pairs ps,
      rw t0 refl,
      rw
          (
            t1,
            take-append id (encode_pairs ps) 16 l,
            drop-append id (encode_pairs ps) 16 l,
            t2,
            t3,
            count,
            decode-encode_pairs ps 0 (encode_pairs ps) w refl,
          )
          refl,
    )

-- What `readIFSCPacket` accepts is exactly what `writeIFSCPacket` writes for what it returned.
pub write-read_ifsc_packet :
    (body id : List ℕ) (packet : IfscPacket)
    → read_ifsc_packet body ≡ ok (id, packet)
    → write_ifsc_packet id packet ≡ ok body
unfolding read_ifsc_packet write_ifsc_packet
write-read_ifsc_packet body id packet e =
    let bytes = drop 16 body in
    let a = if_else (length body == 0) _ _ (ok (id, packet)) (failure≢ok _ _) e in
    let b =
      if_else (not (length (take 16 body) == 16)) _ _ (ok (id, packet)) (failure≢ok _ _) a.1 in
    let c =
      if_else (length bytes == 0 || not (length bytes % 20 == 0)) _ _ (ok (id, packet))
        (failure≢ok _ _) b.1 in
    let d = ok-injective _ (id, packet) c.1 in
    let whole = pairs_whole (length bytes) c.0 in
    let n = length bytes / 20 in
    let ps : decode_pairs n 0 bytes ≡ packet.checksum_pairs = ap (λ x. x.1.checksum_pairs) d in
    let count : length packet.checksum_pairs ≡ n =
      ap length (sym ps) ∙ length-decode_pairs n 0 bytes in
    let t0 : (length packet.checksum_pairs == 0) ≡ false =
      positive→== (length packet.checksum_pairs) (omega (arith, count, whole)) in
    let same_bytes : encode_pairs packet.checksum_pairs ≡ bytes =
      ap encode_pairs (sym ps) ∙ encode-decode_pairs n 0 bytes (omega (arith, whole)) in
    rw t0 (ap ok (ap₂ ◌++◌ (ap (λ x. x.0) (sym d)) same_bytes ∙ take-append-drop 16 body))
