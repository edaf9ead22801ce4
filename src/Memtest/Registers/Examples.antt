-- ===== src/Memtest/Registers/Examples.antt =====
-- The theorems on the registers at concrete inputs.
use mechatronics_embedded.Base.{
  ℕ, ◌*◌, ◌/◌, ◌%◌, ◌^◌, ◌+◌, ◌≡◌, refl, false, some, List, [], ◌∷◌, length, ◌==◌, if◌then◌else◌,
  ==_refl, arith, bit_xor,
}
use mechatronics_embedded.Machine.{Device, Machine, and_then}
use mechatronics_embedded.Machine.Outcome.{Returns}
use mechatronics_embedded.Machine.Traffic.{writes_to}
use mechatronics_embedded.Memtest.Registers.{
  update_reglist, get_reglist_value, ddrc_get, ddrc_init, set_drive_strength, clear_tdm_idm,
}
use mechatronics_embedded.Memtest.Registers.Values.{ddrc_reg_values}
use mechatronics_embedded.Memtest.Registers.Fields.{fields}
use mechatronics_embedded.Memtest.Registers.Lists.{value_at, get_reglist_value-update_reglist}
use mechatronics_embedded.Memtest.Registers.Bank.{Bank, ddrc_get-ddrc_init}
use mechatronics_embedded.Memtest.Registers.Drive.{
  is_mode, set_drive_strength_sets, clear_tdm_idm_clears,
}

abbrev pairs : List (ℕ × ℕ)
pairs = (0xf8006118, 0x40000001) ∷ (0xf800611c, 0x12345678) ∷ []

-- The field for the offset of the write data, as the eye measurement updates it.
get_reglist_value-update_reglist_example :
    (list' : List (ℕ × ℕ)) × (update_reglist pairs 2 0xf800611c 24 7 56 ≡ some list')
    × (length list' ≡ 2)
    × (get_reglist_value list' (length list') 0xf800611c 24 7 ≡ some (56 % 2 ^ 7))
    × (value_at list' 0xf800611c
        ≡ some (fields 24 7 (0x12345678 % 2 ^ 24) (56 % 2 ^ 7) (0x12345678 / 2 ^ 24 / 2 ^ 7)))
    × ((b : ℕ) → (0xf800611c == b) ≡ false → value_at list' b ≡ value_at pairs b)
unfolding value_at
get_reglist_value-update_reglist_example =
    get_reglist_value-update_reglist pairs 0xf800611c 24 7 1 56 0x12345678 refl (omega arith) refl

abbrev registers : Device (ℕ → ℕ)
registers = record {
  gpio_base = 0xe000a000;
  in32 = λ a s. (s a % 2 ^ 32, s);
  out32 = λ a v s b. if a == b then v else s b;
}

bank : Bank registers
bank = record {
  cells = λ s a. s a % 2 ^ 32;
  word = λ s a. omega arith;
  write_stores = λ a v s. rw (==_refl a) refl;
  write_leaves = λ a v b s ne. rw ne refl;
  read_shows = λ a s. refl;
  read_leaves = λ a s. refl;
}

abbrev blank : Machine (ℕ → ℕ)
blank = record { hw = λ a. a + 3; input = []; trace = [] }

ddrc_get-ddrc_init_example :
    Returns
      (λ u m'.
        ((a : ℕ) → m'.hw a % 2 ^ 32 ≡ (a + 3) % 2 ^ 32)
        × (writes_to 0xf8006000 m'.trace ≡ 0xf8006003 ∷ 0xf8006002 ∷ []))
      (and_then (ddrc_get registers ddrc_reg_values blank) (ddrc_init registers))
unfolding bank
ddrc_get-ddrc_init_example = ddrc_get-ddrc_init bank ddrc_reg_values blank refl

set_drive_strength_sets_example :
    Returns
      (λ u m'.
        (m'.hw 0xf8000b60 % 2 ^ 32
          ≡ bit_xor 64 0x2c % 2 ^ 7
            + bit_xor 28 0x28 % 2 ^ 7 * 2 ^ 7
            + 0xf8000b63 / 2 ^ 14 * 2 ^ 14)
        × ((b : ℕ) → (0xf8000b60 == b) ≡ false → m'.hw b % 2 ^ 32 ≡ (b + 3) % 2 ^ 32))
      (set_drive_strength registers 0xf8000b60 28 64 blank)
unfolding bank
set_drive_strength_sets_example = set_drive_strength_sets bank 0xf8000b60 28 64 blank

clear_tdm_idm_clears_example :
    Returns
      (λ u m'.
        (a : ℕ)
        → m'.hw a % 2 ^ 32 ≡ (
            if is_mode bank 4 0 a
            then (a + 3) % 2 ^ 32 % 2 ^ 7 + (a + 3) % 2 ^ 32 / 2 ^ 9 * 2 ^ 9
            else (a + 3) % 2 ^ 32))
      (clear_tdm_idm registers blank)
unfolding bank
clear_tdm_idm_clears_example = clear_tdm_idm_clears bank blank
