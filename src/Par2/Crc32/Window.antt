-- ===== src/Par2/Crc32/Window.antt =====
-- `update` gives the checksum of the window after it has moved by a byte.
use gopar_turbo.Base.{
  ℕ, zero, suc, ◌+◌, ◌^◌, ◌≤◌, ◌<◌, ◌≡◌, refl, sym, ◌∙◌, ap, ap₂, arith, ◌==◌, ltb, ge→ltb,
  if◌then◌else◌, false, some, List, [], ◌∷◌, ◌++◌, length, replicate, length-replicate,
  length-append,
}
use gopar_turbo.Bits.{◌⊕◌}
use gopar_turbo.Bits.Xor.{
  zero-xor, xor-zero, xor_self, xor_interchange, xor_assoc, xor_comm, xor_cancel_right,
}
use gopar_turbo.Par2.Crc32.{
  ieee_table, ieee_rounds, ieee_round, simple_step, simple_update, complement, checksum_ieee,
  set_byte, Crc32Window, masked_entry, new_crc32_window, update,
}
use gopar_turbo.Par2.Crc32.Table.{leader, masked_entry-leader}
use gopar_turbo.Par2.Crc32.Linear.{xor_bytes, simple_update-xor, xor_bytes-replicate}

-- The state after the bytes, from the start of the checksum and from 0.
abbrev run : List ℕ → ℕ
run bs = simple_update 0xffffffff bs

checksum-run : (bs : List ℕ) → checksum_ieee bs ≡ run bs ⊕ 0xffffffff
unfolding checksum_ieee complement
checksum-run bs = ap (λ (t : ℕ). simple_update t bs ⊕ 0xffffffff) (zero-xor 0xffffffff)

complement-checksum : (bs : List ℕ) → complement (checksum_ieee bs) ≡ run bs
unfolding complement
complement-checksum bs =
    ap (λ (t : ℕ). t ⊕ 0xffffffff) (checksum-run bs) ∙ xor_cancel_right (run bs) 0xffffffff

simple_update-append :
    (t : ℕ) (bs : List ℕ) (b : ℕ)
    → simple_update t (bs ++ (b ∷ [])) ≡ simple_step (simple_update t bs) b
unfolding simple_update
simple_update-append t [] b = refl
simple_update-append t (x ∷ bs) b = simple_update-append (simple_step t x) bs b

step-zero : simple_step 0 0 ≡ 0
unfolding simple_step ieee_table ieee_rounds ieee_round
step-zero = refl

-- The first five steps of the two buffers that the mask is about lead to one state.
mask_start :
    (bs : List ℕ)
    → simple_update 0xffffffff (0xff ∷ 0 ∷ 0 ∷ 0 ∷ 0xff ∷ bs)
      ≡ simple_update 0xffffffff (0 ∷ 0 ∷ 0 ∷ 0 ∷ bs)
unfolding simple_update simple_step ieee_table ieee_rounds ieee_round
mask_start bs = refl

-- The zeros behind the first byte, and the bytes that make the mask.
abbrev zeros : ℕ → List ℕ
zeros n = replicate n 0

mask_run : (n : ℕ) → 4 ≤ n → run (set_byte (set_byte (zeros (suc n)) 0 0xff) 4 0xff) ≡ run (zeros n)
unfolding set_byte
mask_run zero h = absurd (omega arith)
mask_run (suc zero) h = absurd (omega arith)
mask_run (suc (suc zero)) h = absurd (omega arith)
mask_run (suc (suc (suc zero))) h = absurd (omega arith)
mask_run (suc (suc (suc (suc n)))) h = mask_start (zeros n)

-- The window after the move, from the window with both bytes, the byte that leaves and the mask.
moved :
    (a : ℕ) (ys : List ℕ) (n : ℕ)
    → length ys ≡ n
    → run ys ≡ run (a ∷ ys) ⊕ run (a ∷ zeros n) ⊕ run (zeros n)
unfolding simple_update
moved a ys n e = sym (
    ap (λ (t : ℕ). t ⊕ run (zeros n))
      (sym (
          simple_update-xor 0xffffffff 0xffffffff (a ∷ ys) (a ∷ zeros n)
            (ap suc (e ∙ sym (length-replicate n 0))))
        ∙ ap₂ (λ s b. simple_update (simple_step s b) (xor_bytes ys (zeros n)))
            (xor_self 0xffffffff) (xor_self a)
        ∙ ap₂ simple_update step-zero (xor_bytes-replicate ys n e))
    ∙ sym (simple_update-xor 0 0xffffffff ys (zeros n) (e ∙ sym (length-replicate n 0)))
    ∙ ap₂ simple_update (zero-xor 0xffffffff) (xor_bytes-replicate ys n e))

three_complements : (x y z i : ℕ) → (x ⊕ i) ⊕ ((y ⊕ i) ⊕ (z ⊕ i)) ≡ x ⊕ y ⊕ z ⊕ i
three_complements x y z i =
    ap (λ (t : ℕ). (x ⊕ i) ⊕ t)
      (xor_interchange y i z i ∙ ap (λ (t : ℕ). (y ⊕ z) ⊕ t) (xor_self i) ∙ xor-zero (y ⊕ z))
    ∙ xor_assoc x i (y ⊕ z)
    ∙ ap (λ (t : ℕ). x ⊕ t) (xor_comm i (y ⊕ z))
    ∙ sym (xor_assoc x (y ⊕ z) i)
    ∙ ap (λ (t : ℕ). t ⊕ i) (sym (xor_assoc x y z))

module _ (n : ℕ) (h : 4 ≤ n) where
  buffer : List ℕ
  buffer = replicate (n + 1) 0

  buffer_lem : buffer ≡ zeros (suc n)
  unfolding buffer
  buffer_lem = ap zeros {x = n + 1} {y = suc n} (omega arith)

  mask : ℕ
  mask = checksum_ieee (set_byte (set_byte buffer 0 0xff) 4 0xff)

  mask_lem : mask ≡ run (zeros n) ⊕ 0xffffffff
  unfolding mask
  mask_lem =
      ap (λ bs. checksum_ieee (set_byte (set_byte bs 0 0xff) 4 0xff)) buffer_lem
      ∙ checksum-run _
      ∙ ap (λ (t : ℕ). t ⊕ 0xffffffff) (mask_run n h)

  base : ℕ → ℕ
  base i = checksum_ieee (set_byte buffer 0 (2 ^ i))

  base-leader : (i : ℕ) → base i ≡ leader n (2 ^ i)
  unfolding base set_byte
  base-leader i = ap (λ bs. checksum_ieee (set_byte bs 0 (2 ^ i))) buffer_lem

  table : ℕ → ℕ
  table i =
      if i == 0
      then checksum_ieee buffer ⊕ mask
      else masked_entry (checksum_ieee buffer) mask base i

  table-leader : (a : ℕ) → a < 2 ^ 8 → table a ≡ leader n a ⊕ mask
  unfolding table
  table-leader zero lt = ap (λ bs. checksum_ieee bs ⊕ mask) buffer_lem
  table-leader (suc a) lt =
      let test : (suc a == 0) ≡ false = ground arith in
      ap
        (λ t.
          if t
          then checksum_ieee buffer ⊕ mask
          else masked_entry (checksum_ieee buffer) mask base (suc a))
        test
      ∙ ap (λ bs. masked_entry (checksum_ieee bs) mask base (suc a)) buffer_lem
      ∙ masked_entry-leader n mask base (suc a) base-leader lt

  window : Crc32Window
  window = record { window_size = n; crc_old_leader_masked_table = table }

  new_crc32_window-window : new_crc32_window n ≡ some window
  unfolding new_crc32_window window table mask base buffer
  new_crc32_window-window = let large : ltb n 4 ≡ false = ge→ltb n 4 h in rw large refl

  update-window :
      (a b : ℕ) (bs : List ℕ)
      → a < 2 ^ 8
      → length bs + 1 ≡ n
      → update window (checksum_ieee (a ∷ bs)) a b ≡ checksum_ieee (bs ++ (b ∷ []))
  unfolding update window complement simple_step
  update-window a b bs ha e =
      ap₂ ◌⊕◌
        (ap (λ (t : ℕ). simple_step t b ⊕ 0xffffffff) (complement-checksum (a ∷ bs))
          ∙ ap (λ (t : ℕ). t ⊕ 0xffffffff) (sym (simple_update-append 0xffffffff (a ∷ bs) b)))
        (table-leader a ha ∙ ap₂ ◌⊕◌ (checksum-run (a ∷ zeros n)) mask_lem)
      ∙ three_complements _ _ _ 0xffffffff
      ∙ ap (λ (t : ℕ). t ⊕ 0xffffffff)
          (sym (moved a (bs ++ (b ∷ [])) n (length-append bs (b ∷ []) ∙ e)))
      ∙ sym (checksum-run (bs ++ (b ∷ [])))

-- For a window of at least four bytes, `newCRC32Window` does not panic, and `update` turns the
-- CRC-32 of the window's bytes into that of the window that has moved on by one byte: the first
-- byte has gone and the new one is last.
pub update-checksum_ieee :
    (n a b : ℕ) (bs : List ℕ)
    → 4 ≤ n
    → a < 2 ^ 8
    → length bs + 1 ≡ n
    → (w : Crc32Window) × (new_crc32_window n ≡ some w)
      × (update w (checksum_ieee (a ∷ bs)) a b ≡ checksum_ieee (bs ++ (b ∷ [])))
update-checksum_ieee n a b bs h ha e =
    (window n h, new_crc32_window-window n h, update-window n h a b bs ha e)
