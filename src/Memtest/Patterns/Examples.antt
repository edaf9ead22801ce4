-- ===== src/Memtest/Patterns/Examples.antt =====
-- The theorems on the patterns at concrete inputs.
use mechatronics_embedded.Base.{◌≡◌}
use mechatronics_embedded.Memtest.{pat128_next}
use mechatronics_embedded.Memtest.Patterns.{update_patterns}
use mechatronics_embedded.Memtest.Modes.{mode_next}
use mechatronics_embedded.Memtest.Patterns.Same.{mode_next-pat128_next}

mode_next-pat128_next_example :
    ((mode_next 0xffffffff 0x100000 9 132 7).0
      ≡ (pat128_next 0xffffffff (update_patterns 32).pat1 132 tt).0)
    × ((mode_next 0xffffffff 0x100000 10 132 7).0
        ≡ (pat128_next 0xffffffff (update_patterns 32).pat2 132 tt).0)
mode_next-pat128_next_example = mode_next-pat128_next 0x100000 132 7
