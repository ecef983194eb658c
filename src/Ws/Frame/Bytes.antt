-- ===== src/Ws/Frame/Bytes.antt =====
-- The bits of the two first bytes of a frame, for src/core/WsFrame.h, by table.
use hical.Base.{
  ℕ, ◌%◌, ◌<◌, bit_and, bit_or, ◌≡◌, refl, Bool, true, false, not, ◌&&◌, ◌==◌, arith, all_below,
  all_below_sound,
}
use hical.Ws.Frame.{first_byte, has_bit, WsOpcode}

same : Bool → Bool → Bool
same true b = b
same false b = not b

same_sound : (a b : Bool) → same a b ≡ true → a ≡ b
unfolding same
same_sound true true h = refl
same_sound true false h = cc
same_sound false true h = cc
same_sound false false h = refl

abbrev first_reads : Bool → Bool → ℕ → Bool
first_reads fin rsv1 op =
    let b = first_byte fin rsv1 op in
    same (has_bit b 0x80) fin
    && (same (has_bit b 0x40) rsv1
        && (not (has_bit b 0x20) && (not (has_bit b 0x10) && bit_and b 0x0F == op)))

first_table : (fin rsv1 : Bool) → all_below 16 (first_reads fin rsv1) ≡ true
unfolding same
first_table true true = refl
first_table true false = refl
first_table false true = refl
first_table false false = refl

-- The first byte gives back the flags and the opcode.
pub first_byte_reads :
    (fin rsv1 : Bool) (op : WsOpcode)
    → op < 16
    → (has_bit (first_byte fin rsv1 op) 0x80 ≡ fin)
      × (has_bit (first_byte fin rsv1 op) 0x40 ≡ rsv1)
      × (has_bit (first_byte fin rsv1 op) 0x20 ≡ false)
      × (has_bit (first_byte fin rsv1 op) 0x10 ≡ false)
      × (bit_and (first_byte fin rsv1 op) 0x0F ≡ op)
unfolding same
first_byte_reads fin rsv1 op h =
    ground (arith, all_below_sound 16 (first_reads fin rsv1) op (first_table fin rsv1) h)

abbrev plain_reads : ℕ → Bool
plain_reads n = not (has_bit (bit_or 0 n % 256) 0x80) && bit_and (bit_or 0 n % 256) 0x7F == n

abbrev masked_reads : ℕ → Bool
masked_reads n = has_bit (bit_or 0x80 n % 256) 0x80 && bit_and (bit_or 0x80 n % 256) 0x7F == n

second_table : (all_below 128 plain_reads ≡ true) × (all_below 128 masked_reads ≡ true)
second_table = (refl, refl)

pub plain_length :
    (n : ℕ)
    → n < 128
    → (has_bit (bit_or 0 n % 256) 0x80 ≡ false) × (bit_and (bit_or 0 n % 256) 0x7F ≡ n)
plain_length n h = ground (arith, all_below_sound 128 plain_reads n second_table.0 h)

pub masked_length :
    (n : ℕ)
    → n < 128
    → (has_bit (bit_or 0x80 n % 256) 0x80 ≡ true) × (bit_and (bit_or 0x80 n % 256) 0x7F ≡ n)
masked_length n h = ground (arith, all_below_sound 128 masked_reads n second_table.1 h)
