-- ===== src/Par2/Crc32.antt =====
-- par2/crc32.go: the CRC-32 of a window that moves over the bytes of a file, and the checksum that
-- it follows, `crc32.ChecksumIEEE` of the language's library.
pub mod Linear
pub mod Table
pub mod Window
use gopar_turbo.Base.{
  ℕ, zero, suc, ◌+◌, ◌*◌, ◌/◌, ◌%◌, ◌^◌, Bool, true, false, ◌==◌, ltb, if◌then◌else◌, Option, none,
  some, List, [], ◌∷◌, replicate,
}
use gopar_turbo.Bits.{◌⊕◌}

-- One bit of the reflected polynomial, and the entry of `IEEETable` for a byte.
pub ieee_round : ℕ → ℕ
ieee_round x = if x % 2 == 1 then x / 2 ⊕ 0xedb88320 else x / 2

pub ieee_rounds : ℕ → ℕ → ℕ
ieee_rounds zero x = x
ieee_rounds (suc n) x = ieee_rounds n (ieee_round x)

pub ieee_table : ℕ → ℕ
ieee_table b = ieee_rounds 8 b

-- A step of `simpleUpdate`: `IEEETable[byte(t)^b] ^ (t >> 8)`.
pub simple_step : ℕ → ℕ → ℕ
simple_step t b = ieee_table (t % 2 ^ 8 ⊕ b) ⊕ t / 2 ^ 8

pub simple_update : ℕ → List ℕ → ℕ
simple_update t [] = t
simple_update t (b ∷ bs) = simple_update (simple_step t b) bs

-- `^t` of 32 bits.
pub complement : ℕ → ℕ
complement t = t ⊕ 0xffffffff

pub checksum_ieee : List ℕ → ℕ
checksum_ieee bs = complement (simple_update (complement 0) bs)

-- `a[i] = b`.
pub set_byte : List ℕ → ℕ → ℕ → List ℕ
set_byte [] i b = []
set_byte (x ∷ xs) zero b = b ∷ xs
set_byte (x ∷ xs) (suc i) b = x ∷ set_byte xs i b

-- The table by the byte that leaves the window.
pub record Crc32Window : Type 0 where
  pub window_size : ℕ
  pub crc_old_leader_masked_table : ℕ → ℕ

-- The loop over the bits of `i` from bit `j` on: the sum and the number of its terms.
pub record BitSum : Type 0 where
  pub crc : ℕ
  pub crc_count : ℕ

pub add_bits : (ℕ → ℕ) → ℕ → ℕ → ℕ → BitSum → BitSum
add_bits base_table i zero j s = s
add_bits base_table i (suc n) j s = add_bits base_table i n (j + 1) (
    if i / 2 ^ j % 2 == 1
    then record { crc = s.crc ⊕ base_table j; crc_count = s.crc_count + 1 }
    else s)

-- A round of the loop that fills the masked table.
pub masked_entry : ℕ → ℕ → (ℕ → ℕ) → ℕ → ℕ
masked_entry crc0 crc_window_mask base_table i =
    let s = add_bits base_table i 8 0 (record { crc = 0; crc_count = 0 }) in
    let crc = if s.crc_count % 2 == 0 then s.crc ⊕ crc0 else s.crc in crc ⊕ crc_window_mask

-- `newCRC32Window`; `none` is its panic.
pub new_crc32_window : ℕ → Option Crc32Window
new_crc32_window window_size =
    let a : List ℕ = replicate (window_size + 1) 0 in
    let crc0 = checksum_ieee a in
    let crc_window_mask = checksum_ieee (set_byte (set_byte a 0 0xff) 4 0xff) in
    let base_table : ℕ → ℕ = λ i. checksum_ieee (set_byte a 0 (2 ^ i)) in
    if ltb window_size 4
    then none
    else some (record {
      window_size = window_size;
      crc_old_leader_masked_table = λ i.
          if i == 0 then crc0 ⊕ crc_window_mask else masked_entry crc0 crc_window_mask base_table i;
    })

-- `update`.
pub update : Crc32Window → ℕ → ℕ → ℕ → ℕ
update w crc old_leader new_trailer =
    let t = complement crc in
    let crc_extended = complement (ieee_table (t % 2 ^ 8 ⊕ new_trailer) ⊕ t / 2 ^ 8) in
    crc_extended ⊕ w.crc_old_leader_masked_table old_leader
