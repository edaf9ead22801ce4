-- ===== src/Memtest/Pll/Config.antt =====
-- platform_standalone/mfg_test_src/memtest.c: the configuration of a PLL for a feedback divisor.
use mechatronics_embedded.Base.{ℕ, List, [], ◌∷◌}

-- res, cp and cnt in bits 4 to 7, 8 to 11 and 12 to 21, for the feedback divisors 0 to 99.
abbrev pub pll_config_table : List ℕ
pll_config_table =
    0x001772C0 ∷ 0x001772C0 ∷ 0x001772C0 ∷ 0x001772C0 ∷ 0x001772C0 ∷ 0x001772C0 ∷ 0x001772C0
    ∷ 0x001772C0 ∷ 0x001772C0 ∷ 0x001772C0 ∷ 0x001772C0 ∷ 0x001772C0 ∷ 0x001772C0 ∷ 0x001772C0
    ∷ 0x001772C0 ∷ 0x001772C0 ∷ 0x001772C0 ∷ 0x001772C0 ∷ 0x001772C0 ∷ 0x001772C0 ∷ 0x001772C0
    ∷ 0x001772C0 ∷ 0x001772C0 ∷ 0x001772C0 ∷ 0x001772C0 ∷ 0x001772C0 ∷ 0x001772C0 ∷ 0x0015E2C0
    ∷ 0x0015E2C0 ∷ 0x001452C0 ∷ 0x001452C0 ∷ 0x0012C220 ∷ 0x0012C220 ∷ 0x0012C220 ∷ 0x00113220
    ∷ 0x00113220 ∷ 0x00113220 ∷ 0x000FA220 ∷ 0x000FA220 ∷ 0x000FA220 ∷ 0x000FA220 ∷ 0x000FA3C0
    ∷ 0x000FA3C0 ∷ 0x000FA3C0 ∷ 0x000FA3C0 ∷ 0x000FA3C0 ∷ 0x000FA3C0 ∷ 0x000FA3C0 ∷ 0x000FA240
    ∷ 0x000FA240 ∷ 0x000FA240 ∷ 0x000FA240 ∷ 0x000FA240 ∷ 0x000FA240 ∷ 0x000FA240 ∷ 0x000FA240
    ∷ 0x000FA240 ∷ 0x000FA240 ∷ 0x000FA240 ∷ 0x000FA240 ∷ 0x000FA240 ∷ 0x000FA240 ∷ 0x000FA240
    ∷ 0x000FA240 ∷ 0x000FA240 ∷ 0x000FA240 ∷ 0x000FA240 ∷ 0x000FA240 ∷ 0x000FA240 ∷ 0x000FA240
    ∷ 0x000FA240 ∷ 0x000FA240 ∷ 0x000FA240 ∷ 0x000FA240 ∷ 0x000FA240 ∷ 0x000FA240 ∷ 0x000FA240
    ∷ 0x000FA240 ∷ 0x000FA240 ∷ 0x000FA240 ∷ 0x000FA240 ∷ 0x000FA240 ∷ 0x000FA240 ∷ 0x000FA240
    ∷ 0x000FA240 ∷ 0x000FA240 ∷ 0x000FA240 ∷ 0x000FA240 ∷ 0x000FA240 ∷ 0x000FA240 ∷ 0x000FA240
    ∷ 0x000FA240 ∷ 0x000FA240 ∷ 0x000FA240 ∷ 0x000FA240 ∷ 0x000FA240 ∷ 0x000FA240 ∷ 0x000FA240
    ∷ 0x000FA240 ∷ 0x000FA240 ∷ []
