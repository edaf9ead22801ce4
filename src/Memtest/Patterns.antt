-- ===== src/Memtest/Patterns.antt =====
-- platform_standalone/mfg_test_src/memtest.c: the test patterns, and calc_value.
pub mod Same
mod Examples
use mechatronics_embedded.Base.{
  ℕ, ◌+◌, ◌*◌, ◌/◌, ◌%◌, ◌^◌, bit_and, bit_xor, Option, none, some, List, [], ◌∷◌, get_elem?, ◌==◌,
  if◌then◌else◌,
}
use mechatronics_embedded.Memtest.Registers.{shift_right}

-- calc_value: as YLFSR, with the shifts of a signed int.
unfoldable pub calc_value : ℕ → ℕ
calc_value lfsr =
    let lsb = bit_xor (bit_and (shift_right lfsr 30) 1) (bit_and (shift_right lfsr 27) 1) in
    (lfsr * 2 % 2 ^ 32 + bit_xor lsb 1) % 2 ^ 32

abbrev pub pattern1 : List ℕ
pattern1 =
    0x00000000 ∷ 0x00000000 ∷ 0xffffffff ∷ 0x00000000 ∷ 0x00000000 ∷ 0xffffffff ∷ 0x00000000
    ∷ 0xffffffff ∷ 0xffffffff ∷ 0xffffffff ∷ 0x00000000 ∷ 0xffffffff ∷ 0xffffffff ∷ 0x00000000
    ∷ 0xffffffff ∷ 0x00000000 ∷ []

abbrev pub pattern1_16bit : List ℕ
pattern1_16bit =
    0x00000000 ∷ 0x0000ffff ∷ 0xffff0000 ∷ 0xffff0000 ∷ 0xffffffff ∷ 0xffff0000 ∷ 0x0000ffff
    ∷ 0x0000ffff ∷ 0x00000000 ∷ 0x0000ffff ∷ 0xffff0000 ∷ 0xffff0000 ∷ 0xffffffff ∷ 0xffff0000
    ∷ 0x0000ffff ∷ 0x0000ffff ∷ []

abbrev pub invertmask : List ℕ
invertmask =
    0x01010101 ∷ 0x02020202 ∷ 0x04040404 ∷ 0x08080808 ∷ 0x10101010 ∷ 0x20202020 ∷ 0x40404040
    ∷ 0x80808080 ∷ []

-- The entry of a table; the indices that the program uses lie inside.
abbrev pub entry : List ℕ → ℕ → ℕ
entry table i = elim (get_elem? table i) [ none ↦ 0 | some x ↦ x ]

-- The width of the memory's bus and the patterns of 128 words that go with it.
pub record Bus : Type 0 where
  pub bus_width : ℕ
  pub pat1 : ℕ → ℕ
  pub pat2 : ℕ → ℕ

unfoldable pub update_patterns : ℕ → Bus
update_patterns bus_width =
    let pattern = if bus_width == 32 then pattern1 else pattern1_16bit in
    record {
      bus_width = bus_width;
      pat1 = λ i. entry pattern (bit_and i 15);
      pat2 = λ i. bit_xor (entry pattern (bit_and i 15)) (entry invertmask (bit_and (i / 16) 7));
    }
