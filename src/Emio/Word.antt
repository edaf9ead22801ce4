-- ===== src/Emio/Word.antt =====
-- The words that the processor puts on the upper output lines, as sums of their fields.
use mechatronics_embedded.Base.{
  ℕ, ◌+◌, ◌*◌, ◌%◌, ◌<◌, ◌^◌, ◌≡◌, refl, Bool, true, false, bit_and, bit_or, arith, ◌==◌,
  if◌then◌else◌, bit_or_high, bit_and_keep, bit_and-one, Bool-cases, inl, inr, ◌⊎◌,
}
use mechatronics_embedded.Emio.{bits_request_bus, bits_reg_wen, bits_blk_start, any_set, block_word}

-- A 16-bit address with the control bits `control` above it.
abbrev pub word : ℕ → ℕ → ℕ
word addr control = addr + control * 2 ^ 16

-- The control bits of a block round: request, end or start, and the address's lowest bit.
abbrev pub block_control : Bool → ℕ → ℕ
block_control last addr = 1 + (if last then 16 else 8) + (if addr % 2 == 1 then 128 else 0)

pub read_word : (addr : ℕ) → addr < 2 ^ 16 → bit_or addr bits_request_bus ≡ word addr 1
read_word addr h = ground (arith, bit_or_high 16 addr 0 1 h)

pub write_word :
    (addr : ℕ) → addr < 2 ^ 16 → bit_or (bit_or addr bits_reg_wen) bits_request_bus ≡ word addr 5
write_word addr h = ground (arith, bit_or_high 16 addr 0 4 h, bit_or_high 16 addr 4 1 h)

pub block_start_word :
    (addr : ℕ) → addr < 2 ^ 16 → bit_or (bit_or addr bits_blk_start) bits_request_bus ≡ word addr 9
block_start_word addr h = ground (arith, bit_or_high 16 addr 0 8 h, bit_or_high 16 addr 8 1 h)

odd_lem : (addr : ℕ) → any_set addr 1 ≡ (addr % 2 == 1)
odd_lem addr = ground (arith, bit_and-one addr)

-- One round's update of `outreg`, whose control bits are `control` before.
update_lem :
    (base addr control : ℕ) (last : Bool)
    → base < 2 ^ 16
    → block_word last addr (word base control)
      ≡ word base (
          let marked = if last then bit_or (bit_and control 0xfff7) 16 else control in
          if addr % 2 == 1 then bit_or marked 128 else bit_and marked 0xff7f)
unfolding block_word
update_lem base addr control true h =
    let cleared = bit_and control 0xfff7 in
    let marked = bit_or cleared 16 in
    ground (
      arith,
      odd_lem addr,
      bit_and_keep 16 base control 0xfff7 h,
      bit_or_high 16 base cleared 16 h,
      bit_or_high 16 base marked 128 h,
      bit_and_keep 16 base marked 0xff7f h,
    )
update_lem base addr control false h =
    ground (
      arith,
      odd_lem addr,
      bit_or_high 16 base control 128 h,
      bit_and_keep 16 base control 0xff7f h,
    )

-- Before a round the control bits are those of a start or of an earlier round that was not the last.
abbrev pub IsOpen : ℕ → Type 0
IsOpen control = (control ≡ 9) ⊎ (control ≡ 137)

pub block_word_lem :
    (base addr control : ℕ) (last : Bool)
    → base < 2 ^ 16
    → IsOpen control
    → block_word last addr (word base control) ≡ word base (block_control last addr)
block_word_lem base addr control true h (inl e) = ground (arith, update_lem base addr 9 true h)
block_word_lem base addr control true h (inr e) = ground (arith, update_lem base addr 137 true h)
block_word_lem base addr control false h (inl e) = ground (arith, update_lem base addr 9 false h)
block_word_lem base addr control false h (inr e) = ground (arith, update_lem base addr 137 false h)

pub block_control-IsOpen : (addr : ℕ) → IsOpen (block_control false addr)
block_control-IsOpen addr = elim (Bool-cases (addr % 2 == 1)) [
  | inl odd ↦ rw odd (inr refl)
  | inr even ↦ rw even (inl refl)
]

pub block_control_odd : (last : Bool) (addr : ℕ) → block_control last addr % 2 ≡ 1
block_control_odd last addr = ground arith
