-- ===== src/Par2/Volume/Roundtrip.antt =====
-- The packets that have been written one after the other are those that a volume's readers find.
use gopar_turbo.Base.{
  ℕ, zero, suc, ◌+◌, ◌*◌, ◌≤◌, ◌≡◌, refl, sym, ◌∙◌, ap, arith, ltb, lt→ltb, ge→ltb, true, false,
  Option, some, List, [], ◌∷◌, ◌++◌, length, length-append, append_assoc, append-nil,
}
use gopar_turbo.Base.Loops.{Outcome, fault, failure, ok, ◌>>=◌}
use gopar_turbo.Par2.Packet.{Packet}
use gopar_turbo.Par2.Packet.Write.{IsPacket, packet_bytes}
use gopar_turbo.Par2.Volume.{
  VolumeError, scan_from, scan_next, rounds, max_packet_length, walk_round, walk_packets, PacketRef,
  index_round, index_packets, read_packet_at,
}
use gopar_turbo.Par2.Volume.Layout.{
  AreStored, stored_size, Reads, volume_bytes, length-packet_bytes, size_bound, walk_here, ref_here,
  index_here, read_here,
}

-- The callback, called with the packets in their order.
abbrev pub visit :
    {S : Type 0}
    → (Packet → ℕ → S → Outcome VolumeError S)
    → ℕ
    → List Packet
    → S
    → Outcome VolumeError S
visit fn offset [] s = ok s
visit fn offset (p ∷ ps) s = fn p offset s >>= visit fn (offset + stored_size p) ps

next_visit :
    {S : Type 0} (m : Outcome VolumeError S) (offset : ℕ)
    (rest : ℕ → S → Option (Outcome VolumeError S)) (v : S → Outcome VolumeError S)
    → ((s : S) → rest offset s ≡ some (v s))
    → scan_next (m >>= λ s. ok (offset, s)) rest ≡ some (m >>= v)
unfolding scan_next
next_visit fault offset rest v h = refl
next_visit (failure e) offset rest v h = refl
next_visit (ok s) offset rest v h = h s

-- Each reference leads to its packet.
abbrev pub AreRefs :
    (List ℕ → List ℕ)
    → (ℕ → ℕ → Outcome VolumeError (List ℕ))
    → List PacketRef
    → List Packet
    → Type 0
AreRefs md5 read_at [] [] = Unit
AreRefs md5 read_at (r ∷ refs) (p ∷ ps) =
    (read_packet_at md5 read_at r ≡ ok p) × AreRefs md5 read_at refs ps
AreRefs md5 read_at _ _ = ⊥

module _ (md5 : List ℕ → List ℕ) (digest : (xs : List ℕ) → length (md5 xs) ≡ 16) (contents : List ℕ)
    (read_at : ℕ → ℕ → Outcome VolumeError (List ℕ)) (reads : Reads contents read_at) where
  at_end : (pre : List ℕ) → contents ≡ pre ++ [] → ltb (length pre) (length contents) ≡ false
  at_end pre e =
      ge→ltb (length pre) (length contents) (omega (arith, ap length e, ap length (append-nil pre)))

  before_end :
      (pre : List ℕ) (p : Packet) (w : IsPacket p) (fits : stored_size p ≤ max_packet_length)
      (rest : List ℕ)
      → contents ≡ pre ++ (packet_bytes md5 p ++ rest)
      → ltb (length pre) (length contents) ≡ true
  before_end pre p w fits rest e =
      lt→ltb (length pre) (length contents)
        (omega (arith, size_bound md5 digest p w fits pre rest contents read_at reads e))

  step_size :
      (pre : List ℕ) (p : Packet) (w : IsPacket p) (fits : stored_size p ≤ max_packet_length)
      → length pre + stored_size p ≡ length (pre ++ packet_bytes md5 p)
  step_size pre p w fits =
      omega (arith, length-append pre (packet_bytes md5 p), length-packet_bytes md5 digest p w fits)

  scan-visit :
      {S : Type 0} (fn : Packet → ℕ → S → Outcome VolumeError S) (ps : List Packet) (fuel : ℕ)
      (pre : List ℕ) (s : S)
      → length ps ≤ fuel
      → AreStored ps
      → contents ≡ pre ++ volume_bytes md5 ps
      → scan_from
          (walk_round md5 read_at fn (length contents))
          (length contents)
          fuel
          (length pre)
          s
        ≡ some (visit fn (length pre) ps s)
  unfolding scan_from
  scan-visit fn [] zero pre s h st e = rw (at_end pre e) refl
  scan-visit fn [] (suc fuel) pre s h st e = rw (at_end pre e) refl
  scan-visit fn (p ∷ ps) zero pre s h st e = absurd (omega arith)
  scan-visit fn (p ∷ ps) (suc fuel) pre s h st e =
      let rest = volume_bytes md5 ps in
      rw
        (
          before_end pre p st.0 st.1 rest e,
          walk_here md5 digest p st.0 st.1 pre rest contents read_at reads e fn s,
          step_size pre p st.0 st.1,
        )
        (next_visit (fn p (length pre) s) (length (pre ++ packet_bytes md5 p))
          (scan_from (walk_round md5 read_at fn (length contents)) (length contents) fuel) _
          (λ s'.
            scan-visit fn ps fuel (pre ++ packet_bytes md5 p) s' (omega arith) st.2
              (e ∙ sym (append_assoc pre (packet_bytes md5 p) rest))))

  scan-refs :
      (ps : List Packet) (fuel : ℕ) (pre : List ℕ) (refs : List PacketRef)
      → length ps ≤ fuel
      → AreStored ps
      → contents ≡ pre ++ volume_bytes md5 ps
      → (found : List PacketRef) × (scan_from
            (index_round md5 read_at (length contents))
            (length contents)
            fuel
            (length pre)
            refs
          ≡ some (ok (refs ++ found)))
        × AreRefs md5 read_at found ps
  unfolding scan_from scan_next
  scan-refs [] zero pre refs h st e =
      ([], rw (at_end pre e) (ap (λ r. some (ok r)) (sym (append-nil refs))), tt)
  scan-refs [] (suc fuel) pre refs h st e =
      ([], rw (at_end pre e) (ap (λ r. some (ok r)) (sym (append-nil refs))), tt)
  scan-refs (p ∷ ps) zero pre refs h st e = absurd (omega arith)
  scan-refs (p ∷ ps) (suc fuel) pre refs h st e =
      let rest = volume_bytes md5 ps in
      let ref = ref_here md5 digest p st.0 st.1 pre rest contents read_at reads e in
      let (found, ef, hf) =
        scan-refs ps fuel (pre ++ packet_bytes md5 p) (refs ++ (ref ∷ [])) (omega arith) st.2
          (e ∙ sym (append_assoc pre (packet_bytes md5 p) rest)) in
      (
        ref ∷ found,
        rw
            (
              before_end pre p st.0 st.1 rest e,
              index_here md5 digest p st.0 st.1 pre rest contents read_at reads e refs,
              step_size pre p st.0 st.1,
            )
            (ef ∙ ap (λ r. some (ok r)) (append_assoc refs (ref ∷ []) found)),
        (read_here md5 digest p st.0 st.1 pre rest contents read_at reads e, hf),
      )

rounds_enough :
    (md5 : List ℕ → List ℕ) (digest : (xs : List ℕ) → length (md5 xs) ≡ 16) (ps : List Packet)
    → AreStored ps
    → 64 * length ps ≤ length (volume_bytes md5 ps)
rounds_enough md5 digest [] st = omega arith
rounds_enough md5 digest (p ∷ ps) st = omega (
  arith,
  rounds_enough md5 digest ps st.2,
  length-append (packet_bytes md5 p) (volume_bytes md5 ps),
  length-packet_bytes md5 digest p st.0 st.1,
)

-- On a file that holds packets one after the other, as `writeNextPacket` writes them, and none of
-- them above the limit of 2^30 bytes, `walkPackets` calls its callback with each packet and its
-- offset in order, and stops at the callback's first error. MD5 is any hash with digests of 16
-- bytes, and reading within the file returns its bytes.
pub walk_packets-visit :
    (md5 : List ℕ → List ℕ) (digest : (xs : List ℕ) → length (md5 xs) ≡ 16) (ps : List Packet)
    (read_at : ℕ → ℕ → Outcome VolumeError (List ℕ)) {S : Type 0}
    (fn : Packet → ℕ → S → Outcome VolumeError S) (s : S)
    → AreStored ps
    → Reads (volume_bytes md5 ps) read_at
    → walk_packets md5 read_at fn (length (volume_bytes md5 ps)) s ≡ some (visit fn 0 ps s)
unfolding walk_packets
walk_packets-visit md5 digest ps read_at fn s st reads =
    let size = length (volume_bytes md5 ps) in
    scan-visit md5 digest (volume_bytes md5 ps) read_at reads fn ps (rounds size) [] s
      (omega (arith, rounds_enough md5 digest ps st)) st refl

-- On such a file, `indexPackets` comes to its end within the given rounds and finds one reference
-- for each packet in order, and `readPacketAt` of the reference returns the packet.
pub read-index_packets :
    (md5 : List ℕ → List ℕ) (digest : (xs : List ℕ) → length (md5 xs) ≡ 16) (ps : List Packet)
    (read_at : ℕ → ℕ → Outcome VolumeError (List ℕ))
    → AreStored ps
    → Reads (volume_bytes md5 ps) read_at
    → (refs : List PacketRef) × (index_packets md5 read_at
          (rounds (length (volume_bytes md5 ps)))
          (length (volume_bytes md5 ps))
        ≡ some (ok refs))
      × AreRefs md5 read_at refs ps
unfolding index_packets
read-index_packets md5 digest ps read_at st reads =
    let size = length (volume_bytes md5 ps) in
    scan-refs md5 digest (volume_bytes md5 ps) read_at reads ps (rounds size) [] []
      (omega (arith, rounds_enough md5 digest ps st)) st refl
