-- ===== src/Memtest/Pll/Examples.antt =====
-- The theorems on my_set_pll at concrete inputs: the PLL of the DDR, which locks at once.
use mechatronics_embedded.Base.{
  ℕ, ◌-◌, ◌%◌, ◌^◌, ◌≡◌, some, [], ◌∷◌, get_elem?, ◌==◌, if◌then◌else◌, arith,
}
use mechatronics_embedded.Machine.{Device, Machine, text}
use mechatronics_embedded.Machine.Outcome.{Returns}
use mechatronics_embedded.Machine.Traffic.{writes_to, reads_of, last_read}
use mechatronics_embedded.Memtest.Pll.{lim, my_set_pll}
use mechatronics_embedded.Memtest.Pll.Dci.{dci_ctrl_table}
use mechatronics_embedded.Memtest.Pll.Lock.{Left, my_set_pll_ends}
use mechatronics_embedded.Memtest.Pll.Divisors.{Divides, dci_ctrl_table-Divides}

abbrev clocks : Device (ℕ → ℕ)
clocks = record {
  gpio_base = 0xe000a000;
  in32 = λ a s. (s a % 2 ^ 32, s);
  out32 = λ a v s b. if a == b then v else s b;
}

abbrev running_board : Machine (ℕ → ℕ)
running_board = record {
  hw = λ a. if a == 0xf800010c then 0x3f else 0x0001a008;
  input = [];
  trace = [];
}

my_set_pll_ends_example :
    Returns
      (λ p m'.
        (x : ℕ) × (stat : ℕ) × (reads_of 0xf8000104 m'.trace ≡ x ∷ [])
        × (last_read 0xf800010c m'.trace ≡ some stat)
        × Left clocks 1 x 32 stat (writes_to 0xf8000104 m'.trace))
      (my_set_pll clocks 1 32 2 (text "533.333") 106 running_board)
my_set_pll_ends_example =
    my_set_pll_ends clocks 1 32 2 106 (text "533.333") running_board (omega arith) (omega arith)
      (omega arith) (λ a s. omega arith)

dci_ctrl_table-Divides_example :
    (c : ℕ) × (get_elem? dci_ctrl_table (lim 106 70 250 - 70) ≡ some c) × Divides c 106
dci_ctrl_table-Divides_example = dci_ctrl_table-Divides 106 (omega arith) (omega arith)
