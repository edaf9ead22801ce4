-- ===== src/Memtest/Registers/Values.antt =====
-- platform_standalone/mfg_test_src/memtest.c: the addresses of the registers of the DDR pins and of the
-- DDR controller, in the order of the source. The contents are 0 until they are read.
use mechatronics_embedded.Base.{ℕ, List, [], ◌∷◌}

-- The 15 pairs of an address and a content for the pins.
abbrev pub ddriob_reg_values : List (ℕ × ℕ)
ddriob_reg_values =
    (0xf8000b40, 0)
    ∷ (0xf8000b44, 0)
    ∷ (0xf8000b48, 0)
    ∷ (0xf8000b4c, 0)
    ∷ (0xf8000b50, 0)
    ∷ (0xf8000b54, 0)
    ∷ (0xf8000b58, 0)
    ∷ (0xf8000b5c, 0)
    ∷ (0xf8000b60, 0)
    ∷ (0xf8000b64, 0)
    ∷ (0xf8000b68, 0)
    ∷ (0xf8000b6c, 0)
    ∷ (0xf8000b70, 0)
    ∷ (0xf8000b70, 0)
    ∷ (0xf8000b70, 0)
    ∷ []

-- The 80 pairs for the controller; the control register is first and last.
abbrev pub ddrc_reg_values : List (ℕ × ℕ)
ddrc_reg_values =
    (0xf8006000, 0)
    ∷ (0xf8006004, 0)
    ∷ (0xf8006008, 0)
    ∷ (0xf800600c, 0)
    ∷ (0xf8006010, 0)
    ∷ (0xf8006014, 0)
    ∷ (0xf8006018, 0)
    ∷ (0xf800601c, 0)
    ∷ (0xf8006020, 0)
    ∷ (0xf8006024, 0)
    ∷ (0xf8006028, 0)
    ∷ (0xf800602c, 0)
    ∷ (0xf8006030, 0)
    ∷ (0xf8006034, 0)
    ∷ (0xf8006038, 0)
    ∷ (0xf800603c, 0)
    ∷ (0xf8006040, 0)
    ∷ (0xf8006044, 0)
    ∷ (0xf8006048, 0)
    ∷ (0xf8006050, 0)
    ∷ (0xf8006058, 0)
    ∷ (0xf800605c, 0)
    ∷ (0xf8006060, 0)
    ∷ (0xf8006064, 0)
    ∷ (0xf8006068, 0)
    ∷ (0xf800606c, 0)
    ∷ (0xf80060a0, 0)
    ∷ (0xf80060a4, 0)
    ∷ (0xf80060a8, 0)
    ∷ (0xf80060ac, 0)
    ∷ (0xf80060b0, 0)
    ∷ (0xf80060b4, 0)
    ∷ (0xf80060b8, 0)
    ∷ (0xf80060bc, 0)
    ∷ (0xf80060c4, 0)
    ∷ (0xf80060c8, 0)
    ∷ (0xf80060dc, 0)
    ∷ (0xf80060f0, 0)
    ∷ (0xf80060f4, 0)
    ∷ (0xf8006114, 0)
    ∷ (0xf8006118, 0)
    ∷ (0xf800611c, 0)
    ∷ (0xf8006120, 0)
    ∷ (0xf8006124, 0)
    ∷ (0xf800612c, 0)
    ∷ (0xf8006130, 0)
    ∷ (0xf8006134, 0)
    ∷ (0xf8006138, 0)
    ∷ (0xf8006140, 0)
    ∷ (0xf8006144, 0)
    ∷ (0xf8006148, 0)
    ∷ (0xf800614c, 0)
    ∷ (0xf8006154, 0)
    ∷ (0xf8006158, 0)
    ∷ (0xf800615c, 0)
    ∷ (0xf8006160, 0)
    ∷ (0xf8006168, 0)
    ∷ (0xf800616c, 0)
    ∷ (0xf8006170, 0)
    ∷ (0xf8006174, 0)
    ∷ (0xf800617c, 0)
    ∷ (0xf8006180, 0)
    ∷ (0xf8006184, 0)
    ∷ (0xf8006188, 0)
    ∷ (0xf8006190, 0)
    ∷ (0xf8006194, 0)
    ∷ (0xf8006204, 0)
    ∷ (0xf8006208, 0)
    ∷ (0xf800620c, 0)
    ∷ (0xf8006210, 0)
    ∷ (0xf8006214, 0)
    ∷ (0xf8006218, 0)
    ∷ (0xf800621c, 0)
    ∷ (0xf8006220, 0)
    ∷ (0xf8006224, 0)
    ∷ (0xf80062a8, 0)
    ∷ (0xf80062ac, 0)
    ∷ (0xf80062b0, 0)
    ∷ (0xf80062b4, 0)
    ∷ (0xf8006000, 0)
    ∷ []
