-- ===== src/Par2/Main/Roundtrip.antt =====
-- `readMainPacket` and `writeMainPacket` undo each other.
use gopar_turbo.Base.{
  ℕ, ◌+◌, ◌-◌, ◌/◌, ◌%◌, ◌^◌, ◌≤◌, ◌<◌, ◌≡◌, ap, ap₂, ◌∙◌, sym, arith, true, false, not, ◌||◌, ◌==◌,
  ltb, leb, List, ◌++◌, length, take, drop, ==_iff, drop-append, append_assoc, length-append,
  length-take, take-append-drop, ge→ltb, ltb→ge, positive→==,
}
use gopar_turbo.Base.Loops.{ok, if_else, failure≢ok, not-false}
use gopar_turbo.Par2.Wire.{
  put_le, get_le, slice, IsBytes, limit, length-put_le, get_le-put_le, put_le-get_le, get_le-bound,
  slice_front, slice_past, slice_join, length-slice, slice-IsBytes,
}
use gopar_turbo.Par2.Main.{
  MainPacket, MainError, decode_file_ids, split_file_ids, read_main_packet, encode_file_ids,
  write_main_packet,
}
use gopar_turbo.Par2.Main.Packets.{
  AreSorted, IsMainPacket, main_bytes, write-main_bytes, split_ok, slice_size_fits, slice_size_inv,
  slice_size_ok, length-encode_file_ids, decode-encode_file_ids, encode-decode_file_ids,
  encode-append, append-AreFileIds, check_sorted-ok_inv, check_sorted_ok,
}

-- The fields of the header in front of the identifiers, as they are read.
record IsFront (p : MainPacket) (body ids : List ℕ) : Type 0 where
  size : length body ≡ 12 + length ids
  slice_size : get_le (slice body 0 8) ≡ p.slice_byte_count
  count : get_le (slice body 8 12) ≡ length p.recovery_set
  rest : drop 12 body ≡ ids

front :
    (p : MainPacket) (ids : List ℕ)
    → IsMainPacket p
    → IsFront p (put_le 8 p.slice_byte_count ++ (put_le 4 (length p.recovery_set) ++ ids)) ids
front p ids w =
    let a = put_le 8 p.slice_byte_count in
    let b = put_le 4 (length p.recovery_set) in
    let la = length-put_le 8 p.slice_byte_count in
    let lb = length-put_le 4 (length p.recovery_set) in
    let l : length (a ++ b) ≡ 12 = length-append a b ∙ omega (arith, la, lb) in
    record {
      size = length-append a (b ++ ids) ∙ omega (arith, la, lb, length-append b ids);
      slice_size =
          ap get_le (slice_front a (b ++ ids) 8 la)
          ∙ get_le-put_le 8 p.slice_byte_count (omega (arith, w.bound));
      count =
          ap get_le (slice_past a (b ++ ids) 8 0 4 la ∙ slice_front b ids 4 lb)
          ∙ get_le-put_le 4 (length p.recovery_set) (omega (arith, w.few_files));
      rest = ap (drop 12) (sym (append_assoc a b ids)) ∙ drop-append (a ++ b) ids 12 l;
    }

-- The identifiers behind the header, and their number.
record AreIds (p : MainPacket) (ids : List ℕ) : Type 0 where
  whole : length ids % 16 ≡ 0
  decoded : decode_file_ids (length ids / 16) ids ≡ p.recovery_set ++ p.non_recovery_set

packet_ids :
    (p : MainPacket)
    → IsMainPacket p
    → AreIds p (encode_file_ids p.recovery_set ++ encode_file_ids p.non_recovery_set)
packet_ids p w =
    let all = p.recovery_set ++ p.non_recovery_set in
    let wf =
      append-AreFileIds p.recovery_set p.non_recovery_set w.recovery_ids w.non_recovery_ids in
    let size = length-encode_file_ids all wf in
    let count : length (encode_file_ids all) / 16 ≡ length all = omega (arith, size) in
    let ids : encode_file_ids p.recovery_set ++ encode_file_ids p.non_recovery_set
        ≡ encode_file_ids all =
      sym (encode-append p.recovery_set p.non_recovery_set) in
    rw ids (record {
      whole = omega (arith, size);
      decoded =
          ap (λ n. decode_file_ids n (encode_file_ids all)) count ∙ decode-encode_file_ids all wf;
    })

read-main_bytes : (p : MainPacket) → IsMainPacket p → read_main_packet (main_bytes p) ≡ ok p
unfolding read_main_packet main_bytes
read-main_bytes p w =
    let ids = encode_file_ids p.recovery_set ++ encode_file_ids p.non_recovery_set in
    let f = front p ids w in
    let d = packet_ids p w in
    let body = put_le 8 p.slice_byte_count ++ (put_le 4 (length p.recovery_set) ++ ids) in
    let long : ltb (length body) 12 ≡ false = ge→ltb (length body) 12 (omega (arith, f.size)) in
    let whole : (length ids % 16 == 0) ≡ true = (==_iff (length ids % 16) 0).1 d.whole in
    rw
      (
        positive→== (length body) (omega (arith, f.size)),
        long,
        f.slice_size,
        f.count,
        f.rest,
        slice_size_fits p.slice_byte_count w.positive w.aligned w.bound,
        positive→== (length p.recovery_set) w.some_files,
        whole,
        d.decoded,
      )
      (split_ok p w.sorted)

-- What `writeMainPacket` writes for a packet with a positive slice size that is a multiple of 4 and
-- below 2^63, at least one and fewer than 2^32 files to recover, identifiers of 16 bytes and both
-- sets sorted, `readMainPacket` reads back.
pub read-write_main_packet :
    (p : MainPacket)
    → IsMainPacket p
    → (body : List ℕ) × (write_main_packet p ≡ ok body) × (read_main_packet body ≡ ok p)
read-write_main_packet p w = (main_bytes p, write-main_bytes p w, read-main_bytes p w)

-- What `split_file_ids` accepts.
record IsSplit (n count : ℕ) (ids : List (List ℕ)) (p : MainPacket) : Type 0 where
  size : p.slice_byte_count ≡ n
  enough : count ≤ length ids
  recovery_set : p.recovery_set ≡ take count ids
  non_recovery_set : p.non_recovery_set ≡ drop count ids
  sorted : AreSorted (take count ids) (drop count ids)

split_file_ids-ok_inv :
    (n count : ℕ) (ids : List (List ℕ)) (p : MainPacket)
    → split_file_ids n count ids ≡ ok p
    → IsSplit n count ids p
unfolding split_file_ids
split_file_ids-ok_inv n count ids p e =
    let a = if_else (ltb (length ids) count) _ _ (ok p) (failure≢ok _ p) e in
    let b = check_sorted-ok_inv (take count ids) (drop count ids) _ p a.1 in
    record {
      size = ap (λ q. q.slice_byte_count) (sym b.1);
      enough = ltb→ge (length ids) count a.0;
      recovery_set = ap (λ q. q.recovery_set) (sym b.1);
      non_recovery_set = ap (λ q. q.non_recovery_set) (sym b.1);
      sorted = b.0;
    }

-- The header in front, written again.
front_inverse :
    (body : List ℕ)
    → 12 ≤ length body
    → IsBytes body
    → (rest : List ℕ) → rest ≡ drop 12 body
    → put_le 8 (get_le (slice body 0 8)) ++ (put_le 4 (get_le (slice body 8 12)) ++ rest) ≡ body
front_inverse body l w rest e =
    let a : put_le 8 (get_le (slice body 0 8)) ≡ slice body 0 8 =
      put_le-get_le 8 (slice body 0 8) (length-slice body 0 8 (omega arith) (omega arith))
        (slice-IsBytes body 0 8 w) in
    let b : put_le 4 (get_le (slice body 8 12)) ≡ slice body 8 12 =
      put_le-get_le 4 (slice body 8 12) (length-slice body 8 12 (omega arith) (omega arith))
        (slice-IsBytes body 8 12 w) in
    ap₂ ◌++◌ a (ap₂ ◌++◌ b e ∙ slice_join body 8 12 (omega arith))
    ∙ slice_join body 0 8 (omega arith)

-- The identifiers, written again.
ids_inverse :
    (n count : ℕ) (bytes : List ℕ) (p : MainPacket)
    → length bytes % 16 ≡ 0
    → IsSplit n count (decode_file_ids (length bytes / 16) bytes) p
    → encode_file_ids p.recovery_set ++ encode_file_ids p.non_recovery_set ≡ bytes
ids_inverse n count bytes p h s =
    let ids = decode_file_ids (length bytes / 16) bytes in
    sym (encode-append p.recovery_set p.non_recovery_set)
    ∙ ap encode_file_ids (ap₂ ◌++◌ s.recovery_set s.non_recovery_set ∙ take-append-drop count ids)
    ∙ encode-decode_file_ids (length bytes / 16) bytes (omega (arith, h))

-- What `readMainPacket` accepts, if it consists of bytes, is exactly what `writeMainPacket` writes
-- for the packet that it returned.
pub write-read_main_packet :
    (body : List ℕ) (p : MainPacket)
    → IsBytes body
    → read_main_packet body ≡ ok p
    → write_main_packet p ≡ ok body
unfolding read_main_packet write_main_packet
write-read_main_packet body p w e =
    let n = get_le (slice body 0 8) in
    let count = get_le (slice body 8 12) in
    let bytes = drop 12 body in
    let no = λ (x : MainError). failure≢ok {A = MainPacket} x p in
    let a1 = if_else (length body == 0) _ _ (ok p) (no _) e in
    let a2 = if_else (ltb (length body) 12) _ _ (ok p) (no _) a1.1 in
    let a3 = if_else (n == 0 || (not (n % 4 == 0) || leb (2 ^ 63) n)) _ _ (ok p) (no _) a2.1 in
    let a4 = if_else (count == 0) _ _ (ok p) (no _) a3.1 in
    let a5 = if_else (not (length bytes % 16 == 0)) _ _ (ok p) (no _) a4.1 in
    let whole = (==_iff (length bytes % 16) 0).0 (not-false (length bytes % 16 == 0) a5.0) in
    let s = split_file_ids-ok_inv n count (decode_file_ids (length bytes / 16) bytes) p a5.1 in
    let long = ltb→ge (length body) 12 a2.0 in
    let size = slice_size_inv n a3.0 in
    let number : length p.recovery_set ≡ count =
      ap length s.recovery_set
      ∙ omega (arith, s.enough, length-take count (decode_file_ids (length bytes / 16) bytes)) in
    let word : count < limit 4 =
      get_le-bound 4 (slice body 8 12) (length-slice body 8 12 (omega arith) (omega arith))
        (slice-IsBytes body 8 12 w) in
    let few : ltb (2 ^ 32 - 1) count ≡ false = ge→ltb (2 ^ 32 - 1) count (omega (arith, word)) in
    let sorted : AreSorted p.recovery_set p.non_recovery_set =
      rw (s.recovery_set, s.non_recovery_set) s.sorted in
    rw
      (
        s.size,
        number,
        slice_size_ok n size.0 size.1,
        a4.0,
        few,
        check_sorted_ok p.recovery_set p.non_recovery_set sorted,
      )
      (ap ok (
        front_inverse body long w
          (encode_file_ids p.recovery_set ++ encode_file_ids p.non_recovery_set)
          (ids_inverse n count bytes p whole s)))
