-- ===== src/Par2/Main/Packets.antt =====
-- `readMainPacket` against `writeMainPacket`.
use gopar_turbo.Base.{
  ℕ, zero, suc, ◌-◌, ◌*◌, ◌%◌, ◌^◌, ◌<◌, ◌≡◌, refl, ap, ◌∙◌, sym, arith, true, false, not, ◌||◌,
  ◌==◌, ltb, leb, List, [], ◌∷◌, ◌++◌, length, take, drop, take-append, drop-append, append_assoc,
  length-append, length-drop, take-append-drop, Bool-cases, inl, inr, ge→ltb, positive→==,
}
use gopar_turbo.Base.Loops.{ok, ◌>>◌, failure≢ok, ok-injective}
use gopar_turbo.Par2.Wire.{put_le}
use gopar_turbo.Par2.Main.{
  MainPacket, slice_is_sorted, check_file_id_sets_sorted, decode_file_ids, split_file_ids,
  encode_file_ids, write_main_packet,
}

abbrev pub AreFileIds : List (List ℕ) → Type 0
AreFileIds [] = Unit
AreFileIds (x ∷ xs) = (length x ≡ 16) × AreFileIds xs

pub length-encode_file_ids :
    (xs : List (List ℕ)) → AreFileIds xs → length (encode_file_ids xs) ≡ length xs * 16
unfolding encode_file_ids
length-encode_file_ids [] w = refl
length-encode_file_ids (x ∷ xs) w =
    omega (arith, length-append x (encode_file_ids xs), length-encode_file_ids xs w.1, w.0)

pub decode-encode_file_ids :
    (xs : List (List ℕ)) → AreFileIds xs → decode_file_ids (length xs) (encode_file_ids xs) ≡ xs
unfolding decode_file_ids encode_file_ids
decode-encode_file_ids [] w = refl
decode-encode_file_ids (x ∷ xs) w =
    rw (take-append x (encode_file_ids xs) 16 w.0, drop-append x (encode_file_ids xs) 16 w.0)
      (ap (◌∷◌ x) (decode-encode_file_ids xs w.1))

pub encode-decode_file_ids :
    (n : ℕ) (bytes : List ℕ)
    → length bytes ≡ n * 16
    → encode_file_ids (decode_file_ids n bytes) ≡ bytes
unfolding decode_file_ids encode_file_ids
encode-decode_file_ids zero [] e = refl
encode-decode_file_ids zero (b ∷ bs) e = absurd (omega arith)
encode-decode_file_ids (suc n) bytes e =
    ap (◌++◌ (take 16 bytes))
      (encode-decode_file_ids n (drop 16 bytes) (omega (arith, length-drop 16 bytes)))
    ∙ take-append-drop 16 bytes

pub length-decode_file_ids : (n : ℕ) (bytes : List ℕ) → length (decode_file_ids n bytes) ≡ n
unfolding decode_file_ids
length-decode_file_ids zero bytes = refl
length-decode_file_ids (suc n) bytes = ap suc (length-decode_file_ids n (drop 16 bytes))

pub encode-append :
    (xs ys : List (List ℕ)) → encode_file_ids (xs ++ ys) ≡ encode_file_ids xs ++ encode_file_ids ys
unfolding encode_file_ids
encode-append [] ys = refl
encode-append (x ∷ xs) ys =
    ap (◌++◌ x) (encode-append xs ys)
    ∙ sym (append_assoc x (encode_file_ids xs) (encode_file_ids ys))

pub append-AreFileIds :
    (xs ys : List (List ℕ)) → AreFileIds xs → AreFileIds ys → AreFileIds (xs ++ ys)
append-AreFileIds [] ys v w = w
append-AreFileIds (x ∷ xs) ys v w = (v.0, append-AreFileIds xs ys v.1 w)

-- Both sets in the order of `fileIDLess`.
pub record AreSorted (xs ys : List (List ℕ)) : Type 0 where
  pub recovery_set : slice_is_sorted xs ≡ true
  pub non_recovery_set : slice_is_sorted ys ≡ true

pub check_sorted_ok :
    (xs ys : List (List ℕ)) → AreSorted xs ys → check_file_id_sets_sorted xs ys ≡ ok tt
unfolding check_file_id_sets_sorted
check_sorted_ok xs ys w = rw (w.recovery_set, w.non_recovery_set) refl

pub check_sorted-ok_inv :
    {A : Type 0} (xs ys : List (List ℕ)) (a b : A)
    → (check_file_id_sets_sorted xs ys >> ok a) ≡ ok b
    → AreSorted xs ys × (a ≡ b)
unfolding check_file_id_sets_sorted
check_sorted-ok_inv xs ys a b e = elim (Bool-cases (slice_is_sorted xs)) [
  | inl s ↦ elim (Bool-cases (slice_is_sorted ys)) [
    | inl t ↦ (record { recovery_set = s; non_recovery_set = t }, ok-injective a b (rw (s, t) at e))
    | inr t ↦ absurd (failure≢ok _ b (rw (s, t) at e))
  ]
  | inr s ↦ absurd (failure≢ok _ b (rw s at e))
]

-- The slice size is a multiple of 4 that an `int` holds, the recovery set is not empty and its
-- size fits 32 bits, the identifiers have 16 bytes, and both sets are sorted.
pub record IsMainPacket (p : MainPacket) : Type 0 where
  pub positive : 0 < p.slice_byte_count
  pub aligned : p.slice_byte_count % 4 ≡ 0
  pub bound : p.slice_byte_count < 2 ^ 63
  pub some_files : 0 < length p.recovery_set
  pub few_files : length p.recovery_set < 2 ^ 32
  pub recovery_ids : AreFileIds p.recovery_set
  pub non_recovery_ids : AreFileIds p.non_recovery_set
  pub sorted : AreSorted p.recovery_set p.non_recovery_set

-- What `writeMainPacket` writes for such a packet.
unfoldable pub main_bytes : MainPacket → List ℕ
main_bytes p =
    put_le 8 p.slice_byte_count
    ++ (put_le 4 (length p.recovery_set)
        ++ (encode_file_ids p.recovery_set ++ encode_file_ids p.non_recovery_set))

pub slice_size_ok : (n : ℕ) → 0 < n → n % 4 ≡ 0 → (n == 0 || not (n % 4 == 0)) ≡ false
slice_size_ok n z a = ground arith

pub slice_size_fits :
    (n : ℕ)
    → 0 < n
    → n % 4 ≡ 0
    → n < 2 ^ 63
    → (n == 0 || (not (n % 4 == 0) || leb (2 ^ 63) n)) ≡ false
slice_size_fits n z a b = ground arith

pub slice_size_inv :
    (n : ℕ)
    → (n == 0 || (not (n % 4 == 0) || leb (2 ^ 63) n)) ≡ false
    → (0 < n) × (n % 4 ≡ 0) × (n < 2 ^ 63)
slice_size_inv n h = (ground arith, ground arith, ground arith)

pub write-main_bytes : (p : MainPacket) → IsMainPacket p → write_main_packet p ≡ ok (main_bytes p)
unfolding write_main_packet main_bytes
write-main_bytes p w =
    let few : ltb (2 ^ 32 - 1) (length p.recovery_set) ≡ false =
      ge→ltb (2 ^ 32 - 1) (length p.recovery_set) (omega (arith, w.few_files)) in
    rw
      (
        slice_size_ok p.slice_byte_count w.positive w.aligned,
        positive→== (length p.recovery_set) w.some_files,
        few,
        check_sorted_ok p.recovery_set p.non_recovery_set w.sorted,
      )
      refl

pub split_ok :
    (p : MainPacket)
    → AreSorted p.recovery_set p.non_recovery_set
    → split_file_ids p.slice_byte_count
        (length p.recovery_set)
        (p.recovery_set ++ p.non_recovery_set)
      ≡ ok p
unfolding split_file_ids
split_ok p s =
    let xs = p.recovery_set in
    let enough : ltb (length (xs ++ p.non_recovery_set)) (length xs) ≡ false =
      ge→ltb _ _ (omega (arith, length-append xs p.non_recovery_set)) in
    rw
      (
        enough,
        take-append xs p.non_recovery_set (length xs) refl,
        drop-append xs p.non_recovery_set (length xs) refl,
        check_sorted_ok xs p.non_recovery_set s,
      )
      refl
