-- ===== src/Memtest/Pll/Dci.antt =====
-- platform_standalone/mfg_test_src/memtest.c: the control word of the DCI clock for a divisor.
use mechatronics_embedded.Base.{ℕ, List, [], ◌∷◌}

-- The two divisors in bits 20 to 25 and 8 to 13, for the divisions by 70 to 250.
abbrev pub dci_ctrl_table : List ℕ
dci_ctrl_table =
    0x02300201 ∷ 0x02400201 ∷ 0x02400201 ∷ 0x02500201 ∷ 0x02500201 ∷ 0x01900301 ∷ 0x02600201
    ∷ 0x00B00701 ∷ 0x02700201 ∷ 0x02800201 ∷ 0x02800201 ∷ 0x01B00301 ∷ 0x02900201 ∷ 0x02A00201
    ∷ 0x02A00201 ∷ 0x01100501 ∷ 0x02B00201 ∷ 0x01D00301 ∷ 0x02C00201 ∷ 0x02D00201 ∷ 0x02D00201
    ∷ 0x00D00701 ∷ 0x02E00201 ∷ 0x01F00301 ∷ 0x02F00201 ∷ 0x01300501 ∷ 0x03000201 ∷ 0x03100201
    ∷ 0x03100201 ∷ 0x02100301 ∷ 0x03200201 ∷ 0x03300201 ∷ 0x03300201 ∷ 0x03400201 ∷ 0x03400201
    ∷ 0x02300301 ∷ 0x03500201 ∷ 0x03600201 ∷ 0x03600201 ∷ 0x03700201 ∷ 0x03700201 ∷ 0x02500301
    ∷ 0x03800201 ∷ 0x03900201 ∷ 0x03900201 ∷ 0x01700501 ∷ 0x03A00201 ∷ 0x02700301 ∷ 0x03B00201
    ∷ 0x01100701 ∷ 0x03C00201 ∷ 0x00B00B01 ∷ 0x03D00201 ∷ 0x02900301 ∷ 0x03E00201 ∷ 0x01900501
    ∷ 0x03F00201 ∷ 0x02000401 ∷ 0x02000401 ∷ 0x02B00301 ∷ 0x01A00501 ∷ 0x02C00301 ∷ 0x02C00301
    ∷ 0x01300701 ∷ 0x02D00301 ∷ 0x02D00301 ∷ 0x02200401 ∷ 0x02E00301 ∷ 0x02E00301 ∷ 0x02300401
    ∷ 0x02300401 ∷ 0x02F00301 ∷ 0x00D00B01 ∷ 0x00D00B01 ∷ 0x03000301 ∷ 0x01D00501 ∷ 0x03100301
    ∷ 0x03100301 ∷ 0x02500401 ∷ 0x03200301 ∷ 0x03200301 ∷ 0x02600401 ∷ 0x02600401 ∷ 0x03300301
    ∷ 0x01600701 ∷ 0x01F00501 ∷ 0x03400301 ∷ 0x03500301 ∷ 0x03500301 ∷ 0x03500301 ∷ 0x02800401
    ∷ 0x01700701 ∷ 0x03600301 ∷ 0x02900401 ∷ 0x02900401 ∷ 0x03700301 ∷ 0x03800301 ∷ 0x03800301
    ∷ 0x03800301 ∷ 0x00D00D01 ∷ 0x02200501 ∷ 0x03900301 ∷ 0x02B00401 ∷ 0x03A00301 ∷ 0x03A00301
    ∷ 0x02300501 ∷ 0x02C00401 ∷ 0x03B00301 ∷ 0x03C00301 ∷ 0x03C00301 ∷ 0x03C00301 ∷ 0x01A00701
    ∷ 0x01A00701 ∷ 0x03D00301 ∷ 0x02E00401 ∷ 0x02500501 ∷ 0x03E00301 ∷ 0x01100B01 ∷ 0x02F00401
    ∷ 0x03F00301 ∷ 0x02600501 ∷ 0x03000401 ∷ 0x03000401 ∷ 0x02700501 ∷ 0x02700501 ∷ 0x02700501
    ∷ 0x03100401 ∷ 0x02100601 ∷ 0x02100601 ∷ 0x03200401 ∷ 0x03200401 ∷ 0x01D00701 ∷ 0x01D00701
    ∷ 0x01D00701 ∷ 0x03300401 ∷ 0x02900501 ∷ 0x01700901 ∷ 0x01700901 ∷ 0x03400401 ∷ 0x01300B01
    ∷ 0x02A00501 ∷ 0x03500401 ∷ 0x03500401 ∷ 0x02B00501 ∷ 0x02B00501 ∷ 0x02B00501 ∷ 0x03600401
    ∷ 0x01F00701 ∷ 0x03700401 ∷ 0x03700401 ∷ 0x03700401 ∷ 0x01100D01 ∷ 0x02500601 ∷ 0x03800401
    ∷ 0x03800401 ∷ 0x02D00501 ∷ 0x03900401 ∷ 0x03900401 ∷ 0x03900401 ∷ 0x02E00501 ∷ 0x02E00501
    ∷ 0x02100701 ∷ 0x03A00401 ∷ 0x02700601 ∷ 0x02700601 ∷ 0x02F00501 ∷ 0x03B00401 ∷ 0x02200701
    ∷ 0x02200701 ∷ 0x03C00401 ∷ 0x03C00401 ∷ 0x01600B01 ∷ 0x01600B01 ∷ 0x01B00901 ∷ 0x03D00401
    ∷ 0x03100501 ∷ 0x02900601 ∷ 0x01300D01 ∷ 0x03E00401 ∷ 0x03200501 ∷ 0x03200501 ∷ []
