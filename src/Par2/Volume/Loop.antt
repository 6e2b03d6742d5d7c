-- ===== src/Par2/Volume/Loop.antt =====
-- par2/volume.go: the loop of walkPackets comes to its end, that of indexPackets need not.
use gopar_turbo.Base.{
  ℕ, zero, suc, ◌+◌, ◌-◌, ◌*◌, ◌^◌, ◌≤◌, ◌<◌, ◌≡◌, refl, arith, ◌||◌, ltb, leb, lt→ltb, ge→ltb,
  le→leb, Bool-cases, inl, inr, true, false, Option, none, some, List, [], ◌∷◌, ◌++◌,
}
use gopar_turbo.Base.Loops.{Outcome, fault, failure, ok, ◌>>=◌}
use gopar_turbo.Par2.Wire.{get_le, slice}
use gopar_turbo.Par2.Packet.{PacketHeader, Packet, parse_packet_header, read_next_packet}
use gopar_turbo.Par2.Volume.{
  VolumeError, from_packet, scan_from, scan_next, rounds, max_packet_length, walk_packet,
  walk_length, walk_round, walk_packets, PacketRef, advance, index_header, index_round,
  index_packets,
}

-- A round that returns moves on by at least a header.
abbrev Advances : {S : Type 0} → ℕ → Outcome VolumeError (ℕ × S) → Type 0
Advances offset fault = Unit
Advances offset (failure e) = Unit
Advances offset (ok r) = offset + 64 ≤ r.0

scan_next-ends :
    {S : Type 0} (offset : ℕ) (m : Outcome VolumeError (ℕ × S))
    (rest : ℕ → S → Option (Outcome VolumeError S))
    → Advances offset m
    → ((next : ℕ) (s : S)
        → offset + 64 ≤ next
        → (r : Outcome VolumeError S) × (rest next s ≡ some r))
    → (r : Outcome VolumeError S) × (scan_next m rest ≡ some r)
unfolding scan_next
scan_next-ends offset fault rest a h = (fault, refl)
scan_next-ends offset (failure e) rest a h = (failure e, refl)
scan_next-ends offset (ok r) rest a h = h r.0 r.1 a

module _ {S : Type 0} (body : ℕ → S → Outcome VolumeError (ℕ × S)) (size : ℕ)
    (advances : (offset : ℕ) (s : S) → Advances offset (body offset s)) where
  pub scan_from-ends :
      (fuel offset : ℕ) (s : S)
      → size ≤ offset + 64 * fuel
      → (r : Outcome VolumeError S) × (scan_from body size fuel offset s ≡ some r)
  unfolding scan_from
  scan_from-ends zero offset s h =
      let past : ltb offset size ≡ false = ge→ltb offset size (omega arith) in (ok s, rw past refl)
  scan_from-ends (suc fuel) offset s h = elim (Bool-cases (ltb offset size)) [
    | inl inside ↦ rw inside (
        scan_next-ends offset (body offset s) (scan_from body size fuel) (advances offset s)
          (λ next s' far. scan_from-ends fuel next s' (omega arith)))
    | inr past ↦ (ok s, rw past refl)
  ]

bind-Advances :
    {A S : Type 0} (offset : ℕ) (m : Outcome VolumeError A) (f : A → Outcome VolumeError (ℕ × S))
    → ((a : A) → Advances offset (f a))
    → Advances offset (m >>= f)
bind-Advances offset fault f h = tt
bind-Advances offset (failure e) f h = tt
bind-Advances offset (ok a) f h = h a

module _ (md5 : List ℕ → List ℕ) (read_at : ℕ → ℕ → Outcome VolumeError (List ℕ)) {S : Type 0}
    (fn : Packet → ℕ → S → Outcome VolumeError S) (size : ℕ) where
  walk_packet-Advances :
      (offset length : ℕ) (s : S)
      → 64 ≤ length
      → Advances offset (walk_packet md5 read_at fn size offset length s)
  unfolding walk_packet
  walk_packet-Advances offset length s h = bind-Advances offset (read_at offset length) _ (λ buf.
      bind-Advances offset (from_packet (read_next_packet md5 buf).0) _
        (λ packet. bind-Advances offset (fn packet offset s) _ (λ s'. omega arith)))

  walk_length-Advances :
      (offset length : ℕ) (s : S)
      → Advances offset (walk_length md5 read_at fn size offset length s)
  unfolding walk_length
  walk_length-Advances offset length s =
      elim (Bool-cases (
        (leb (2 ^ 63) length || ltb length 64)
        || (ltb max_packet_length length || ltb size (offset + length)))) [
          | inl bad ↦ rw bad tt
          | inr good ↦ rw good (walk_packet-Advances offset length s (ground arith))
        ]

  walk_round-Advances :
      (offset : ℕ) (s : S) → Advances offset (walk_round md5 read_at fn size offset s)
  unfolding walk_round
  walk_round-Advances offset s = elim (Bool-cases (ltb (size - offset) 64)) [
    | inl short ↦ rw short tt
    | inr enough ↦ rw enough (
        bind-Advances offset (read_at offset 64) _
          (λ header. walk_length-Advances offset (get_le (slice header 8 16)) s))
  ]

  -- `walkPackets` comes to its end whatever the file holds, whatever errors reading it and the
  -- callback return: each round moves on by a header or more.
  pub walk_packets-ends :
      (s : S) → (r : Outcome VolumeError S) × (walk_packets md5 read_at fn size s ≡ some r)
  unfolding walk_packets
  walk_packets-ends s =
      scan_from-ends (walk_round md5 read_at fn size) size walk_round-Advances (rounds size) 0 s
        (omega arith)

-- Two headers, of which the second has a length that as an `int64` is that of the first, negative.
pub record LeadsBack (read_at : ℕ → ℕ → Outcome VolumeError (List ℕ)) (size k : ℕ) : Type 0 where
  pub first_bytes : List ℕ
  pub first : PacketHeader
  pub read_first : read_at 0 64 ≡ ok first_bytes
  pub parse_first : parse_packet_header first_bytes ≡ ok first
  pub first_length : first.length ≡ k
  pub second_bytes : List ℕ
  pub second : PacketHeader
  pub read_second : read_at k 64 ≡ ok second_bytes
  pub parse_second : parse_packet_header second_bytes ≡ ok second
  pub second_length : second.length ≡ 2 ^ 64 - k

module _ (md5 : List ℕ → List ℕ) (read_at : ℕ → ℕ → Outcome VolumeError (List ℕ)) (size k : ℕ)
    (positive : 0 < k) (small : k ≤ 2 ^ 30) (inside : k + 64 ≤ size)
    (back : LeadsBack read_at size k) where
  first_round :
      (refs : List PacketRef)
      → (refs' : List PacketRef) × (index_round md5 read_at size 0 refs ≡ ok (k, refs'))
  unfolding index_round index_header advance
  first_round refs =
      let enough : ltb (size - 0) 64 ≡ false = ge→ltb (size - 0) 64 (omega arith) in
      let plain : leb (2 ^ 63) k ≡ false = ground arith in
      let fits : ltb max_packet_length k ≡ false = ge→ltb max_packet_length k (omega arith) in
      let whole : ltb size (0 + k) ≡ false = ge→ltb size (0 + k) (omega arith) in
      let next : 0 + k ≡ k = omega arith in
      (
        refs ++ (record { offset = 0; length = k; header = back.first } ∷ []),
        rw (enough, back.read_first, back.parse_first, back.first_length, plain, fits, whole, next)
            refl,
      )

  second_round :
      (refs : List PacketRef)
      → (refs' : List PacketRef) × (index_round md5 read_at size k refs ≡ ok (0, refs'))
  unfolding index_round index_header advance
  second_round refs =
      let enough : ltb (size - k) 64 ≡ false = ge→ltb (size - k) 64 (omega arith) in
      let negative : leb (2 ^ 63) (2 ^ 64 - k) ≡ true =
        le→leb (2 ^ 63) (2 ^ 64 - k) (omega arith) in
      let reached : ltb k (2 ^ 64 - (2 ^ 64 - k)) ≡ false =
        ge→ltb k (2 ^ 64 - (2 ^ 64 - k)) (omega arith) in
      let start : k - (2 ^ 64 - (2 ^ 64 - k)) ≡ 0 = omega arith in
      (
        refs ++ (record { offset = k; length = 2 ^ 64 - k; header = back.second } ∷ []),
        rw
            (
              enough, back.read_second, back.parse_second, back.second_length, negative, reached,
              start,
            )
            refl,
      )

  both_loop :
      (fuel : ℕ) (refs : List PacketRef)
      → (scan_from (index_round md5 read_at size) size fuel 0 refs ≡ none)
        × (scan_from (index_round md5 read_at size) size fuel k refs ≡ none)
  unfolding scan_from scan_next
  both_loop zero refs =
      let here : ltb 0 size ≡ true = lt→ltb 0 size (omega arith) in
      let there : ltb k size ≡ true = lt→ltb k size (omega arith) in (rw here refl, rw there refl)
  both_loop (suc fuel) refs =
      let here : ltb 0 size ≡ true = lt→ltb 0 size (omega arith) in
      let there : ltb k size ≡ true = lt→ltb k size (omega arith) in
      let (refs1, e1) = first_round refs in
      let (refs2, e2) = second_round refs in
      (rw (here, e1) ((both_loop fuel refs1).1), rw (there, e2) ((both_loop fuel refs2).0))

  -- `indexPackets` does not come to an end on a volume that starts with a packet of `k` bytes, which
  -- is followed by a header with the length 2^64 - k: as an `int64` that is -k, which passes the
  -- checks and leads back to the start.
  pub index_packets-loops : (fuel : ℕ) → index_packets md5 read_at fuel size ≡ none
  unfolding index_packets
  index_packets-loops fuel = (both_loop fuel []).0
