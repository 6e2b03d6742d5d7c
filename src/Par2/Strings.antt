-- ===== src/Par2/Strings.antt =====
-- par2/string.go and par2/creator_packet.go, with the padding of par2/file.go: strings in packets.
-- A string is the list of its bytes.
use gopar_turbo.Base.{
  ℕ, zero, suc, ◌-◌, ◌%◌, ◌^◌, ◌≤◌, ◌<◌, ◌≡◌, refl, ap, ◌∙◌, sym, arith, true, false, ◌==◌, ltb,
  leb, ge→ltb, lt→ltb, ◌⊎◌, if◌then◌else◌, List, [], ◌∷◌, ◌++◌, length, replicate, Bool-cases, inl,
  inr, length-append, length-replicate, append-nil, leb→le, le→leb, positive→==,
}
use gopar_turbo.Base.Loops.{Outcome, failure, ok, ◌>>=◌}
use gopar_turbo.Par2.Runes.{decode_rune, decode_rune-ascii, decode_rune-wide, leb→gt}

-- `nullTerminate`.
unfoldable pub null_terminate : List ℕ → List ℕ
null_terminate [] = []
null_terminate (b ∷ bs) = let rest = null_terminate bs in if b == 0 then [] else b ∷ rest

-- The replacement character U+FFFD in UTF-8.
abbrev pub replacement_char : List ℕ
replacement_char = 239 ∷ 191 ∷ 189 ∷ []

-- The loop of `decodeNullPaddedASCIIString`.
pub replace_non_ascii : List ℕ → List ℕ
replace_non_ascii [] = []
replace_non_ascii (b ∷ bs) =
    let rest = replace_non_ascii bs in if leb b 127 then b ∷ rest else replacement_char ++ rest

-- `decodeNullPaddedASCIIString`.
pub decode_null_padded_ascii_string : List ℕ → List ℕ
decode_null_padded_ascii_string bs = replace_non_ascii (null_terminate bs)

pub data StringError : Type 0 where
  invalid_ascii_character : StringError

-- The loop over the runes of a string, after the bytes left of the last rune.
pub encode_runes : ℕ → List ℕ → Outcome StringError (List ℕ)
encode_runes left [] = ok []
encode_runes (suc left) (b ∷ s) = encode_runes left s
encode_runes zero (b ∷ s) =
    let rune = decode_rune (b ∷ s) in
    let rest = encode_runes (rune.1 - 1) s in
    if ltb 127 rune.0
    then failure invalid_ascii_character
    else (rest >>= λ bs. ok (rune.0 % 2 ^ 8 ∷ bs))

-- `encodeASCIIString`.
pub encode_ascii_string : List ℕ → Outcome StringError (List ℕ)
encode_ascii_string s = encode_runes 0 s

-- `readCreatorPacket`.
pub read_creator_packet : List ℕ → List ℕ
read_creator_packet body = decode_null_padded_ascii_string body

-- `writeCreatorPacket`.
pub write_creator_packet : List ℕ → Outcome StringError (List ℕ)
write_creator_packet client_id = encode_ascii_string client_id

-- `padPacketBytes`.
pub pad_packet_bytes : List ℕ → List ℕ
pad_packet_bytes bs = if length bs % 4 == 0 then bs else bs ++ replicate (4 - length bs % 4) 0

abbrev pub IsAscii : List ℕ → Type 0
IsAscii [] = Unit
IsAscii (b ∷ bs) = (b ≤ 127) × IsAscii bs

-- No byte is 0.
abbrev pub HasNoNull : List ℕ → Type 0
HasNoNull [] = Unit
HasNoNull (b ∷ bs) = (0 < b) × HasNoNull bs

pub encode_ok : (s : List ℕ) → IsAscii s → encode_ascii_string s ≡ ok s
unfolding encode_ascii_string encode_runes
encode_ok [] w = refl
encode_ok (c ∷ s) w =
    let narrow : ltb 127 c ≡ false = ge→ltb 127 c w.0 in
    rw (decode_rune-ascii c s w.0, narrow, encode_ok s w.1)
      (ap (λ t. ok (t ∷ s)) omega (arith, w.0))

-- `encodeASCIIString` gives the bytes of a string of ASCII characters, and the error on any other
-- string, whether it is UTF-8 or not.
pub encode_ascii_string-total :
    (s : List ℕ)
    → (IsAscii s × (encode_ascii_string s ≡ ok s))
      ⊎ (¬ IsAscii s × (encode_ascii_string s ≡ failure invalid_ascii_character))
unfolding encode_ascii_string encode_runes
encode_ascii_string-total [] = inl (tt, refl)
encode_ascii_string-total (c ∷ s) = elim (Bool-cases (leb c 127)) [
  | inl a ↦
      let h = leb→le c 127 a in
      elim (encode_ascii_string-total s) [
        | inl all ↦ inl ((h, all.0), encode_ok (c ∷ s) (h, all.0))
        | inr not_all ↦
            inr ((λ w. not_all.0 w.1), rw (decode_rune-ascii c s h, ge→ltb 127 c h, not_all.1) refl)
      ]
  | inr a ↦
      let h = leb→gt c 127 a in
      inr (
        (λ w. absurd (omega (arith, w.0))),
        rw (lt→ltb 127 (decode_rune (c ∷ s)).0 (decode_rune-wide c s h)) refl,
      )
]

pub decode_padded :
    (s : List ℕ) (n : ℕ)
    → IsAscii s
    → HasNoNull s
    → decode_null_padded_ascii_string (s ++ replicate n 0) ≡ s
unfolding decode_null_padded_ascii_string null_terminate replace_non_ascii
decode_padded [] zero a z = refl
decode_padded [] (suc n) a z = refl
decode_padded (c ∷ s) n a z =
    let some_char : (c == 0) ≡ false = positive→== c z.0 in
    rw (some_char, le→leb c 127 a.0) (ap (◌∷◌ c) (decode_padded s n a.1 z.1))

-- Some zeros are added.
pub pad-zeros : (bs : List ℕ) → (n : ℕ) × (pad_packet_bytes bs ≡ bs ++ replicate n 0)
unfolding pad_packet_bytes
pad-zeros bs = elim (Bool-cases (length bs % 4 == 0)) [
  | inl z ↦ (0, rw z (sym (append-nil bs)))
  | inr z ↦ (4 - length bs % 4, rw z refl)
]

whole : (n : ℕ) → (n % 4 == 0) ≡ true → n % 4 ≡ 0
whole n h = ground arith

length-pad : (bs : List ℕ) → length (pad_packet_bytes bs) % 4 ≡ 0
unfolding pad_packet_bytes
length-pad bs = elim (Bool-cases (length bs % 4 == 0)) [
  | inl z ↦ rw z (whole (length bs) z)
  | inr z ↦ rw z (
      omega (
        arith,
        length-append bs (replicate (4 - length bs % 4) 0),
        length-replicate {A = ℕ} (4 - length bs % 4) 0,
      ))
]

-- A client identifier of ASCII characters, none of them 0, is written without error. The padded
-- body has a whole number of 4-byte words, and `readCreatorPacket` reads the identifier from it.
pub read-write_creator_packet :
    (s : List ℕ)
    → IsAscii s
    → HasNoNull s
    → (bytes : List ℕ) × (write_creator_packet s ≡ ok bytes)
      × (length (pad_packet_bytes bytes) % 4 ≡ 0)
      × (read_creator_packet (pad_packet_bytes bytes) ≡ s)
unfolding read_creator_packet write_creator_packet
read-write_creator_packet s a z =
    let pad = pad-zeros s in
    (
      s,
      encode_ok s a,
      length-pad s,
      ap decode_null_padded_ascii_string pad.1 ∙ decode_padded s pad.0 a z,
    )
